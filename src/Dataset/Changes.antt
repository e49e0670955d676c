-- ===== src/Dataset/Changes.antt =====
-- What a run over two files writes.
use mathlib.Core.Path.{subst, ap₂}
use resolver_addon.Dataset.Diff.{changes, diff_rows, IsSorted, diff_rows-eq-changes}
use resolver_addon.Dataset.Process.{
  Dataset, Row, rows_equal, new_reader, State, process, process_diff, process_rows,
  process_rows-eq-write_all,
}
use resolver_addon.Dataset.Writer.{new_writer}
use resolver_addon.Dataset.Writer.Batches.{record_batch, present, IsBatched, write_all-new_writer}
use resolver_addon.Prelude.{
  ℕ, ◌≡◌, ◌∙◌, sym, ap, arith, false, List, [], map, Option, none, some, Result, ok,
}
use resolver_addon.Prelude.Bytes.{Bytes, bytes_eq}

module _ {T : Type 0} (ds : Dataset T (Unit {0})) (batch_size : ℕ) where
  abbrev size : ℕ
  size = (new_writer {T = T} batch_size).batch_size

  -- The run ended without an error, and the batches hold these items.
  abbrev pub Wrote : List T → State T (Unit {0}) (List (List T)) → Type 0
  Wrote items s = (s.2 ≡ none) × IsBatched size items s.1

  pub rows-Wrote :
      (p : Row → Option T)
      → ((r : Row) → ds.parse_row r ≡ ok (p r))
      → (rows : List Row)
      → Wrote (present (map p rows)) (process_rows ds record_batch rows (new_writer batch_size) [])
  rows-Wrote p h rows =
      let (fine, batched) = write_all-new_writer batch_size (map p rows) in
      rw (process_rows-eq-write_all ds record_batch p h rows (new_writer batch_size) [])
        (rw fine, batched)

  module _ (open_at : Bytes → Result (Unit {0}) (List (Option Row))) (p : Row → Option T)
      (parses : (r : Row) → ds.parse_row r ≡ ok (p r)) (prev curr : Bytes) where
    process_by_diff :
        ds.no_diff ≡ false
        → bytes_eq prev [] ≡ false
        → bytes_eq prev curr ≡ false
        → process ds record_batch open_at prev curr (new_writer batch_size) []
          ≡ process_diff ds record_batch (open_at prev) (open_at curr) (new_writer batch_size) []
    unfolding process
    process_by_diff d e f = ground arith

    process_diff_rows :
        (old_file new_file : List (Option Row)) (old new : List Row)
        → new_reader ds old_file ≡ some old
        → new_reader ds new_file ≡ some new
        → process_diff ds record_batch (ok old_file) (ok new_file) (new_writer batch_size) []
          ≡ process_rows ds record_batch
              (diff_rows ds.get_row_key rows_equal old new)
              (new_writer batch_size)
              []
    unfolding process_diff
    process_diff_rows old_file new_file old new ro rn =
        rw (ro, process_diff) (rw (rn, process_diff))

    -- With a file before of another name, and a diff wanted, a run writes the rows of the new file
    -- that have no equal row in the old one, in order and in batches. Conditions: both files open,
    -- their headers are valid, their keys grow strictly, and every row parses; the database takes
    -- every batch.
    pub process-changes :
        (old_file new_file : List (Option Row)) (old new : List Row)
        → ds.no_diff ≡ false
        → bytes_eq prev [] ≡ false
        → bytes_eq prev curr ≡ false
        → open_at prev ≡ ok old_file
        → open_at curr ≡ ok new_file
        → new_reader ds old_file ≡ some old
        → new_reader ds new_file ≡ some new
        → IsSorted ds.get_row_key old
        → IsSorted ds.get_row_key new
        → Wrote
            (present (map p (changes ds.get_row_key rows_equal old new)))
            (process ds record_batch open_at prev curr (new_writer batch_size) [])
    process-changes old_file new_file old new d e f ho hn ro rn so sn =
        subst (Wrote _)
          (sym (
            process_by_diff d e f
            ∙ ap₂ (λ a b. process_diff ds record_batch a b (new_writer batch_size) []) ho hn
            ∙ process_diff_rows old_file new_file old new ro rn
            ∙ ap (λ rows. process_rows ds record_batch rows (new_writer batch_size) [])
                (diff_rows-eq-changes ds.get_row_key rows_equal old new so sn)))
          (rows-Wrote p parses (changes ds.get_row_key rows_equal old new))
