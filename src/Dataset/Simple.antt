-- ===== src/Dataset/Simple.antt =====
-- internal/util/simple_tsv_dataset.go, once `Init` has chosen the two files. A file is the list of
-- its lines. The number of columns is kept in the dataset: 0 until a row is read.
use mathlib.Core.Path.{subst}
use resolver_addon.Dataset.Changes.{Wrote, rows-Wrote}
use resolver_addon.Dataset.Diff.{diff_rows, changes, IsSorted, diff_rows-eq-changes}
use resolver_addon.Dataset.Process.{
  Dataset, Row, State, rows_equal, open_file, no_reader, process_rows,
}
use resolver_addon.Dataset.Writer.{Writer, new_writer}
use resolver_addon.Dataset.Writer.Batches.{record_batch, present}
use resolver_addon.Prelude.{
  ℕ, ◌≡◌, ◌≢◌, sym, ap, ◌∙◌, Bool, false, ◌||◌, List, [], ◌∷◌, map, Option, none, some, Result, ok,
  err, arith, if◌then◌else◌, ◌==◌, length, All, Bool-cases, ==_iff, inl, inr,
}
use resolver_addon.Prelude.Bytes.{Bytes, bytes_eq, split, split-cons}

abbrev tab : ℕ
tab = 9

-- if ds.column_count == 0 { ds.column_count = len(record) }
abbrev pub columns : ℕ → Row → ℕ
columns count record_ = if count == 0 then length record_ else count

-- nextRow: the row, the number of columns, and the lines that are left
unfoldable pub next_row : ℕ → List Bytes → ℕ × Option (Row × List Bytes)
next_row count [] = (count, none)
next_row count (line ∷ lines) =
    let row = split line tab in
    let count' = columns count row in
    let later = next_row count' lines in
    if length row == count' then (count', some (row, lines)) else later

-- allRows
unfoldable pub all_rows : ℕ → List Bytes → List Row
all_rows count [] = []
all_rows count (line ∷ lines) =
    let row = split line tab in
    let count' = columns count row in
    let rest = all_rows count' lines in if length row == count' then row ∷ rest else rest

-- The number of columns once a file has been begun.
abbrev pub begun : ℕ → List Bytes → ℕ
begun count [] = count
begun count (line ∷ lines) = columns count (split line tab)

-- What a new reader leaves: the number of columns and the lines behind the headers; `none` is nil.
abbrev pub behind_headers : (Row → Bool) → ℕ × Option (Row × List Bytes) → Option (ℕ × List Bytes)
behind_headers valid (count, none) = if valid [] then some (0, []) else none
behind_headers valid (count, some (headers, lines)) =
    if valid headers then some (length headers, lines) else none

unfoldable pub simple_reader :
    {T E : Type 0} → Dataset T E → ℕ → List Bytes → Option (ℕ × List Bytes)
simple_reader ds count lines =
    if ds.has_headers
    then behind_headers ds.is_valid_headers (next_row count lines)
    else some (count, lines)

module _ {T E D : Type 0} (ds : Dataset T E) (upsert : D → List T → D × Option E) where
  unfoldable pub simple_process_all : Result E (List Bytes) → Writer T → D → State T E D
  simple_process_all (err e) w db = (w, db, some (open_file e))
  simple_process_all (ok file) w db = elim (simple_reader ds 0 file) [
    | none ↦ (w, db, some no_reader)
    | some (count, lines) ↦ process_rows ds upsert (all_rows count lines) w db
  ]

  -- The old file is begun first, and the number of columns stands from then on.
  abbrev pub diff_lines : ℕ → (old new : List Bytes) → List Row
  diff_lines count old new =
      diff_rows ds.get_row_key rows_equal (all_rows count old) (all_rows (begun count old) new)

  unfoldable pub simple_process_diff :
      Result E (List Bytes) → Result E (List Bytes) → Writer T → D → State T E D
  simple_process_diff (err e) new w db = (w, db, some (open_file e))
  simple_process_diff (ok old) (err e) w db = (w, db, some (open_file e))
  simple_process_diff (ok old) (ok new) w db = elim (simple_reader ds 0 old) [
    | none ↦ (w, db, some no_reader)
    | some (count, old_lines) ↦ elim (simple_reader ds count new) [
      | none ↦ (w, db, some no_reader)
      | some (count', new_lines) ↦
          process_rows ds upsert (diff_lines count' old_lines new_lines) w db
    ]
  ]

  unfoldable pub simple_process :
      (Bytes → Result E (List Bytes)) → (prev curr : Bytes) → Writer T → D → State T E D
  unfolding simple_process_all simple_process_diff
  simple_process open_at prev curr w db =
      if ds.no_diff || bytes_eq prev [] || bytes_eq prev curr
      then simple_process_all (open_at curr) w db
      else simple_process_diff (open_at prev) (open_at curr) w db

-- A row has at least one column.
row-ne-zero : (line : Bytes) → length (split line tab) ≢ 0
row-ne-zero line e = let (p, ps, q) = split-cons tab line in ground (arith, q)

columns_kept : (count : ℕ) (row : Row) → count ≢ 0 → columns count row ≡ count
columns_kept count row h = ground arith

columns-ne-zero : (count : ℕ) (line : Bytes) → columns count (split line tab) ≢ 0
columns-ne-zero count line e = ground (arith, row-ne-zero line)

all_rows_kept :
    (count : ℕ) (lines : List Bytes)
    → count ≢ 0
    → All (λ row. length row ≡ count) (all_rows count lines)
unfolding all_rows
all_rows_kept count [] h = tt
all_rows_kept count (line ∷ lines) h = elim (Bool-cases (length (split line tab) == count)) [
  | inl same ↦
      rw (columns_kept count (split line tab) h, same)
        ((==_iff _ count).0 same, all_rows_kept count lines h)
  | inr other ↦ rw (columns_kept count (split line tab) h, other) (all_rows_kept count lines h)
]

-- Every row of a file has the number of columns that the dataset has, or that the first row gives
-- where it has none yet.
pub all_rows-begun :
    (count : ℕ) (lines : List Bytes)
    → All (λ row. length row ≡ begun count lines) (all_rows count lines)
unfolding all_rows
all_rows-begun count [] = tt
all_rows-begun count (line ∷ lines) =
    let count' = columns count (split line tab) in
    let rest = all_rows_kept count' lines (columns-ne-zero count line) in
    elim (Bool-cases (length (split line tab) == count')) [
      | inl same ↦ rw same ((==_iff _ count').0 same, rest)
      | inr other ↦ rw other rest
    ]

module _ {T : Type 0} (ds : Dataset T (Unit {0})) (batch_size : ℕ) where
  lines_diffed :
      (old_file new_file old_lines new_lines : List Bytes) (count count' : ℕ)
      → simple_reader ds 0 old_file ≡ some (count, old_lines)
      → simple_reader ds count new_file ≡ some (count', new_lines)
      → simple_process_diff ds record_batch (ok old_file) (ok new_file) (new_writer batch_size) []
        ≡ process_rows ds record_batch
            (diff_lines ds record_batch count' old_lines new_lines)
            (new_writer batch_size)
            []
  unfolding simple_process_diff
  lines_diffed old_file new_file old_lines new_lines count count' ro rn =
      rw (ro, simple_process_diff) (rw (rn, simple_process_diff))

  -- With a file before of another name, and a diff wanted, a run writes the rows of the new file
  -- that have no equal row in the old one, in order and in batches, where the rows are the lines
  -- with the right number of columns. Conditions: both files open, their headers are valid, the
  -- keys of their rows grow strictly, and every row parses; the database takes every batch.
  pub simple_process-changes :
      (open_at : Bytes → Result (Unit {0}) (List Bytes)) (p : Row → Option T) (prev curr : Bytes)
      → ((r : Row) → ds.parse_row r ≡ ok (p r))
      → (old_file new_file old_lines new_lines : List Bytes) (count count' : ℕ) → ds.no_diff ≡ false
      → bytes_eq prev [] ≡ false
      → bytes_eq prev curr ≡ false
      → open_at prev ≡ ok old_file
      → open_at curr ≡ ok new_file
      → simple_reader ds 0 old_file ≡ some (count, old_lines)
      → simple_reader ds count new_file ≡ some (count', new_lines)
      → IsSorted ds.get_row_key (all_rows count' old_lines)
      → IsSorted ds.get_row_key (all_rows (begun count' old_lines) new_lines)
      → Wrote ds batch_size
          (present (
            map p (
              changes ds.get_row_key rows_equal
                (all_rows count' old_lines)
                (all_rows (begun count' old_lines) new_lines))))
          (simple_process ds record_batch open_at prev curr (new_writer batch_size) [])
  unfolding simple_process process_rows simple_reader
  simple_process-changes open_at p prev curr h old_file new_file old_lines new_lines count count' d
        e f ho hn ro rn so sn =
      rw (d, e, f, ho, hn)
        (subst (Wrote ds batch_size _)
          (sym (
            lines_diffed old_file new_file old_lines new_lines count count' ro rn
            ∙ ap (λ rows. process_rows ds record_batch rows (new_writer batch_size) [])
                (diff_rows-eq-changes ds.get_row_key rows_equal _ _ so sn)))
          (rows-Wrote ds batch_size p h _))
