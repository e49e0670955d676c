-- ===== src/Dataset/Examples.antt =====
-- A run over two small files.
use resolver_addon.Dataset.Changes.{process-changes}
use resolver_addon.Dataset.Diff.{IsSorted, changes, diff_rows, diff_rows-eq-changes}
use resolver_addon.Dataset.Process.{Dataset, Row, rows_equal, new_reader, process, readable}
use resolver_addon.Dataset.Writer.{new_writer, write_all}
use resolver_addon.Dataset.Writer.Batches.{record_batch, present, IsBatched, write_all-new_writer}
use resolver_addon.Prelude.{
  ℕ, ◌≡◌, refl, Bool, true, false, List, [], ◌∷◌, map, Option, none, some, Result, ok,
  if◌then◌else◌,
}
use resolver_addon.Prelude.Bytes.{Bytes, codes, bytes_eq}
use resolver_addon.Prelude.TextOrder.{compare_bytes}

abbrev first_field : Row → Bytes
first_field [] = []
first_field (x ∷ xs) = x

abbrev is_header : Row → Bool
is_header r = bytes_eq (first_field r) (codes "id")

abbrev dataset : Dataset Row (Unit {0})
dataset = record {
  get_row_key = first_field;
  has_headers = true;
  is_valid_headers = is_header;
  no_diff = false;
  parse_row = λ r. ok (some r);
}

abbrev row : Bytes → Bytes → Row
row k v = k ∷ v ∷ []

abbrev old_rows : List Row
old_rows =
    row (codes "a") (codes "1") ∷ row (codes "b") (codes "2") ∷ row (codes "c") (codes "3") ∷ []

abbrev new_rows : List Row
new_rows =
    row (codes "a") (codes "1") ∷ row (codes "b") (codes "5") ∷ row (codes "d") (codes "4") ∷ []

abbrev changed_rows : List Row
changed_rows = row (codes "b") (codes "5") ∷ row (codes "d") (codes "4") ∷ []

abbrev header : Row
header = row (codes "id") (codes "v")

-- The second line of the new file cannot be read.
abbrev old_file : List (Option Row)
old_file = some header ∷ map some old_rows

abbrev new_file : List (Option Row)
new_file = some header ∷ none ∷ map some new_rows

abbrev yesterday : Bytes
yesterday = codes "d1"

abbrev today : Bytes
today = codes "d2"

abbrev open_at : Bytes → Result (Unit {0}) (List (Option Row))
open_at name = if bytes_eq name yesterday then ok old_file else ok new_file

old_rows-IsSorted : IsSorted first_field old_rows
unfolding compare_bytes
old_rows-IsSorted = ((refl, (refl, tt)), ((refl, tt), (tt, tt)))

new_rows-IsSorted : IsSorted first_field new_rows
unfolding compare_bytes
new_rows-IsSorted = ((refl, (refl, tt)), ((refl, tt), (tt, tt)))

changed : diff_rows first_field rows_equal old_rows new_rows ≡ changed_rows
unfolding diff_rows compare_bytes bytes_eq rows_equal
changed = refl

diff_rows-eq-changes_example :
    diff_rows first_field rows_equal old_rows new_rows
    ≡ changes first_field rows_equal old_rows new_rows
diff_rows-eq-changes_example =
    diff_rows-eq-changes first_field rows_equal old_rows new_rows old_rows-IsSorted
      new_rows-IsSorted

abbrev numbers : List (Option ℕ)
numbers = some 1 ∷ some 2 ∷ none ∷ some 3 ∷ []

two_batches : (write_all record_batch numbers (new_writer 2) []).1 ≡ (1 ∷ 2 ∷ []) ∷ (3 ∷ []) ∷ []
unfolding write_all new_writer
two_batches = refl

write_all-new_writer_example :
    ((write_all record_batch numbers (new_writer 2) []).2 ≡ none)
    × IsBatched 2 (1 ∷ 2 ∷ 3 ∷ []) (write_all record_batch numbers (new_writer 2) []).1
unfolding new_writer
write_all-new_writer_example = write_all-new_writer 2 numbers

process-changes_example :
    ((process dataset record_batch open_at yesterday today (new_writer 2) []).2 ≡ none)
    × IsBatched 2
        (present (map some (changes first_field rows_equal old_rows new_rows)))
        (process dataset record_batch open_at yesterday today (new_writer 2) []).1
unfolding new_writer new_reader readable bytes_eq
process-changes_example =
    process-changes dataset 2 open_at some (λ r. refl) yesterday today old_file new_file old_rows
      new_rows refl refl refl refl refl refl refl old_rows-IsSorted new_rows-IsSorted
