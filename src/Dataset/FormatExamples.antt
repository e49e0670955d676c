-- ===== src/Dataset/FormatExamples.antt =====
-- Runs over two small files of the JSON and the simple TSV format.
use resolver_addon.Dataset.Diff.{changes}
use resolver_addon.Dataset.Json.{JsonDataset, keyed, json_process, json_process-changes}
use resolver_addon.Dataset.Process.{Dataset, Row, rows_equal}
use resolver_addon.Dataset.Simple.{
  all_rows, begun, next_row, simple_reader, simple_process, simple_process-changes,
}
use resolver_addon.Dataset.Writer.{new_writer}
use resolver_addon.Dataset.Writer.Batches.{record_batch, present, IsBatched}
use resolver_addon.Prelude.{
  ◌≡◌, refl, Bool, true, false, ◌&&◌, List, [], ◌∷◌, ◌++◌, map, none, some, Result, ok,
  if◌then◌else◌,
}
use resolver_addon.Prelude.Bytes.{Bytes, codes, bytes_eq, split}
use resolver_addon.Prelude.TextOrder.{compare_bytes}

abbrev Item : Type 0
Item = Bytes × Bytes

abbrev key_of : Item → Bytes
key_of item = item.0

abbrev items_equal : Item → Item → Bool
items_equal a b = bytes_eq a.0 b.0 && bytes_eq a.1 b.1

abbrev json_dataset : JsonDataset Item (Unit {0}) (List Item)
json_dataset = record {
  get_item_key = key_of;
  get_seq = λ blob. ok blob;
  is_item_equal = items_equal;
}

abbrev old_items : List Item
old_items = (codes "a", codes "1") ∷ (codes "b", codes "2") ∷ []

-- The second item has no key.
abbrev new_items : List Item
new_items = (codes "a", codes "1") ∷ ([], codes "3") ∷ (codes "c", codes "4") ∷ []

abbrev yesterday : Bytes
yesterday = codes "d1"

abbrev today : Bytes
today = codes "d2"

abbrev read : Bytes → Result (Unit {0}) (List Item)
read name = if bytes_eq name yesterday then ok old_items else ok new_items

json_process-changes_example :
    ((json_process json_dataset record_batch read yesterday today (new_writer 2) []).2 ≡ none)
    × IsBatched 2
        (changes key_of items_equal (keyed key_of old_items) (keyed key_of new_items))
        (json_process json_dataset record_batch read yesterday today (new_writer 2) []).1
unfolding new_writer bytes_eq compare_bytes keyed
json_process-changes_example =
    json_process-changes json_dataset 2 read yesterday today old_items new_items old_items new_items
      refl refl refl refl refl refl ((refl, tt), (tt, tt)) ((refl, tt), (tt, tt))

abbrev first_field : Row → Bytes
first_field [] = []
first_field (x ∷ xs) = x

abbrev is_header : Row → Bool
is_header r = bytes_eq (first_field r) (codes "id")

abbrev simple_dataset : Dataset Row (Unit {0})
simple_dataset = record {
  get_row_key = first_field;
  has_headers = true;
  is_valid_headers = is_header;
  no_diff = false;
  parse_row = λ r. ok (some r);
}

-- Two columns, with a tab between.
abbrev line : Bytes → Bytes → Bytes
line a b = a ++ 9 ∷ b

abbrev old_lines : List Bytes
old_lines = line (codes "a") (codes "1") ∷ line (codes "b") (codes "2") ∷ []

-- The second line has one column.
abbrev new_lines : List Bytes
new_lines = line (codes "a") (codes "1") ∷ codes "b" ∷ line (codes "c") (codes "4") ∷ []

abbrev header : Bytes
header = line (codes "id") (codes "v")

abbrev open_at : Bytes → Result (Unit {0}) (List Bytes)
open_at name = if bytes_eq name yesterday then ok (header ∷ old_lines) else ok (header ∷ new_lines)

simple_process-changes_example :
    ((simple_process simple_dataset record_batch open_at yesterday today (new_writer 2) []).2
      ≡ none)
    × IsBatched 2
        (present (
          map some (
            changes first_field rows_equal
              (all_rows 2 old_lines)
              (all_rows (begun 2 old_lines) new_lines))))
        (simple_process simple_dataset record_batch open_at yesterday today (new_writer 2) []).1
unfolding new_writer bytes_eq compare_bytes simple_reader next_row split all_rows
simple_process-changes_example =
    simple_process-changes simple_dataset 2 open_at some yesterday today (λ r. refl)
      (header ∷ old_lines) (header ∷ new_lines) old_lines new_lines 2 2 refl refl refl refl refl
      refl refl ((refl, tt), (tt, tt)) ((refl, tt), (tt, tt))
