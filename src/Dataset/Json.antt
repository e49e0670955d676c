-- ===== src/Dataset/Json.antt =====
-- internal/util/json_dataset.go, once `Init` has chosen the two files. What decodes a file (GetSeq)
-- is a parameter, and gives the items of the file.
use mathlib.Core.Path.{subst}
use resolver_addon.Dataset.Diff.{diff_rows, changes, IsSorted, diff_rows-eq-changes}
use resolver_addon.Dataset.Process.{State, upserted, open_file, no_reader}
use resolver_addon.Dataset.Writer.{Writer, new_writer, write_all}
use resolver_addon.Dataset.Writer.Batches.{record_batch, present, write_all-new_writer, IsBatched}
use resolver_addon.Prelude.{
  ℕ, ◌≡◌, refl, sym, ap, ◌∙◌, Bool, false, ◌||◌, List, [], ◌∷◌, map, Option, none, some, Result, ok,
  err, if◌then◌else◌,
}
use resolver_addon.Prelude.Bytes.{Bytes, bytes_eq}

pub record JsonDataset (T E B : Type 0) : Type 0 where
  pub get_item_key : T → Bytes
  pub get_seq : B → Result E (List T)
  pub is_item_equal : T → T → Bool

-- NextItem passes over the items without a key.
unfoldable pub keyed : {T : Type 0} → (T → Bytes) → List T → List T
keyed key [] = []
keyed key (item ∷ items) =
    let rest = keyed key items in if bytes_eq (key item) [] then rest else item ∷ rest

-- NewReader; `none` is a nil reader
abbrev pub json_reader : {T E B : Type 0} → JsonDataset T E B → B → Option (List T)
json_reader ds blob = elim (ds.get_seq blob) [
  | err e ↦ none
  | ok items ↦ some (keyed ds.get_item_key items)
]

module _ {T E B D : Type 0} (ds : JsonDataset T E B) (upsert : D → List T → D × Option E) where
  -- The loop of processAll and processDiff, and `Done`.
  unfoldable pub write_items : List T → Writer T → D → State T E D
  write_items items w db =
      let (w', db', e) = write_all upsert (map some items) w db in (w', db', upserted e)

  unfoldable pub process_all_items : Result E B → Writer T → D → State T E D
  unfolding write_items
  process_all_items (err e) w db = (w, db, some (open_file e))
  process_all_items (ok blob) w db = elim (json_reader ds blob) [
    | none ↦ (w, db, some no_reader)
    | some items ↦ write_items items w db
  ]

  unfoldable pub process_diff_items : Result E B → Result E B → Writer T → D → State T E D
  unfolding write_items
  process_diff_items (err e) new w db = (w, db, some (open_file e))
  process_diff_items (ok old) (err e) w db = (w, db, some (open_file e))
  process_diff_items (ok old) (ok new) w db = elim (json_reader ds old) [
    | none ↦ (w, db, some no_reader)
    | some old_items ↦ elim (json_reader ds new) [
      | none ↦ (w, db, some no_reader)
      | some new_items ↦
          write_items (diff_rows ds.get_item_key ds.is_item_equal old_items new_items) w db
    ]
  ]

  -- `read` is os.ReadFile on a file of the download directory.
  unfoldable pub json_process :
      (Bytes → Result E B) → (prev curr : Bytes) → Writer T → D → State T E D
  unfolding process_all_items process_diff_items
  json_process read prev curr w db =
      if bytes_eq prev [] || bytes_eq prev curr
      then process_all_items (read curr) w db
      else process_diff_items (read prev) (read curr) w db

present-map : {T : Type 0} (items : List T) → present (map some items) ≡ items
present-map [] = refl
present-map (x ∷ items) = ap (◌∷◌ x) (present-map items)

module _ {T B : Type 0} (ds : JsonDataset T (Unit {0}) B) (batch_size : ℕ) where
  write_items-new_writer :
      (items : List T)
      → ((write_items ds record_batch items (new_writer batch_size) []).2 ≡ none)
        × IsBatched
            (new_writer {T = T} batch_size).batch_size
            items
            (write_items ds record_batch items (new_writer batch_size) []).1
  unfolding write_items
  write_items-new_writer items =
      let (fine, batched) = write_all-new_writer batch_size (map some items) in
      (
        ap upserted fine,
        subst (λ l. IsBatched _ l (write_items ds record_batch items (new_writer batch_size) []).1)
            (present-map items) batched,
      )

  diff_items :
      (old_blob new_blob : B) (old new : List T)
      → ds.get_seq old_blob ≡ ok old
      → ds.get_seq new_blob ≡ ok new
      → process_diff_items ds record_batch (ok old_blob) (ok new_blob) (new_writer batch_size) []
        ≡ write_items ds record_batch
            (diff_rows ds.get_item_key ds.is_item_equal
              (keyed ds.get_item_key old)
              (keyed ds.get_item_key new))
            (new_writer batch_size)
            []
  unfolding process_diff_items
  diff_items old_blob new_blob old new so sn =
      rw (so, process_diff_items) (rw (sn, process_diff_items))

  -- With a file before of another name, a run writes the items of the new file that have a key and
  -- no equal item in the old one, in order and in batches. Conditions: both files can be read and
  -- decoded, their keys grow strictly, and the database takes every batch.
  pub json_process-changes :
      (read : Bytes → Result (Unit {0}) B) (prev curr : Bytes) (old_blob new_blob : B)
      (old new : List T)
      → bytes_eq prev [] ≡ false
      → bytes_eq prev curr ≡ false
      → read prev ≡ ok old_blob
      → read curr ≡ ok new_blob
      → ds.get_seq old_blob ≡ ok old
      → ds.get_seq new_blob ≡ ok new
      → IsSorted ds.get_item_key (keyed ds.get_item_key old)
      → IsSorted ds.get_item_key (keyed ds.get_item_key new)
      → ((json_process ds record_batch read prev curr (new_writer batch_size) []).2 ≡ none)
        × IsBatched
            (new_writer {T = T} batch_size).batch_size
            (changes ds.get_item_key ds.is_item_equal
              (keyed ds.get_item_key old)
              (keyed ds.get_item_key new))
            (json_process ds record_batch read prev curr (new_writer batch_size) []).1
  unfolding json_process
  json_process-changes read prev curr old_blob new_blob old new p q ro rn so sn ko kn =
      rw (p, q, ro, rn)
        (subst Wrote
          (sym (
            diff_items old_blob new_blob old new so sn
            ∙ ap (λ items. write_items ds record_batch items (new_writer batch_size) [])
                (diff_rows-eq-changes ds.get_item_key ds.is_item_equal (keyed ds.get_item_key old)
                  (keyed ds.get_item_key new) ko kn)))
          (write_items-new_writer _))
    where
      Wrote : State T (Unit {0}) (List (List T)) → Type 0
      Wrote s =
          (s.2 ≡ none)
          × IsBatched (new_writer {T = T} batch_size).batch_size
              (changes ds.get_item_key ds.is_item_equal (keyed ds.get_item_key old)
                (keyed ds.get_item_key new))
              s.1
