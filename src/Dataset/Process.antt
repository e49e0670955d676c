-- ===== src/Dataset/Process.antt =====
-- `Process` of internal/util/tsv_dataset.go, once `Init` has chosen the two files. A file is what
-- its csv reader gives: a row, or an error for a line that cannot be read.
use resolver_addon.Dataset.Diff.{diff_rows}
use resolver_addon.Dataset.Writer.{Writer, Failure, Outcome, write, done, write_all}
use resolver_addon.Prelude.{
  ◌≡◌, refl, Bool, true, false, ◌&&◌, ◌||◌, List, [], ◌∷◌, map, Option, none, some, Result, ok, err,
  arith, if◌then◌else◌,
}
use resolver_addon.Prelude.Bytes.{Bytes, bytes_eq}

abbrev pub Row : Type 0
Row = List Bytes

-- slices.Equal
unfoldable pub rows_equal : Row → Row → Bool
rows_equal [] [] = true
rows_equal [] (y ∷ ys) = false
rows_equal (x ∷ xs) [] = false
rows_equal (x ∷ xs) (y ∷ ys) = bytes_eq x y && rows_equal xs ys

-- nextRow passes over the lines that cannot be read.
unfoldable pub readable : List (Option Row) → List Row
readable [] = []
readable (none ∷ rs) = readable rs
readable (some r ∷ rs) = r ∷ readable rs

-- The errors of the dataset itself beside those of what it calls.
pub data ProcessError (E : Type 0) : Type 0 where
  open_file : E → ProcessError E
  no_reader : ProcessError E
  parse : E → ProcessError E
  upsert_failed : Failure E → ProcessError E

pub record Dataset (T E : Type 0) : Type 0 where
  pub get_row_key : Row → Bytes
  pub has_headers : Bool
  pub is_valid_headers : Row → Bool
  pub no_diff : Bool
  pub parse_row : Row → Result E (Option T)

-- The headers of an empty file are none at all.
abbrev pub after_headers : (Row → Bool) → List Row → Option (List Row)
after_headers valid [] = if valid [] then some [] else none
after_headers valid (h ∷ rows) = if valid h then some rows else none

-- newReader: the rows behind the headers; `none` is a nil reader
unfoldable pub new_reader : {T E : Type 0} → Dataset T E → List (Option Row) → Option (List Row)
unfolding readable
new_reader ds file =
    if ds.has_headers
    then after_headers ds.is_valid_headers (readable file)
    else some (readable file)

-- What a call leaves: the writer, the database, and the error.
abbrev pub State : (T E D : Type 0) → Type 0
State T E D = Writer T × D × Option (ProcessError E)

abbrev pub upserted : {E : Type 0} → Option (Failure E) → Option (ProcessError E)
upserted none = none
upserted (some x) = some (upsert_failed x)

module _ {T E D : Type 0} (ds : Dataset T E) (upsert : D → List T → D × Option E) where
  -- The loop of processAll and processDiff, and `Done`.
  unfoldable pub process_rows : List Row → Writer T → D → State T E D
  process_rows [] w db = let (w', db', e) = done upsert w db in (w', db', upserted e)
  process_rows (row ∷ rows) w db = elim (ds.parse_row row) [
    | err e ↦ (w, db, some (parse e))
    | ok t ↦
        let (w', db', e) = write upsert w db t in
        elim e [ none ↦ process_rows rows w' db' | some x ↦ (w', db', some (upsert_failed x)) ]
  ]

  unfoldable pub process_all : Result E (List (Option Row)) → Writer T → D → State T E D
  process_all (err e) w db = (w, db, some (open_file e))
  process_all (ok file) w db = elim (new_reader ds file) [
    | none ↦ (w, db, some no_reader)
    | some rows ↦ process_rows rows w db
  ]

  -- Both files are opened before a header is read.
  unfoldable pub process_diff :
      Result E (List (Option Row)) → Result E (List (Option Row)) → Writer T → D → State T E D
  process_diff (err e) new w db = (w, db, some (open_file e))
  process_diff (ok old) (err e) w db = (w, db, some (open_file e))
  process_diff (ok old) (ok new) w db = elim (new_reader ds old) [
    | none ↦ (w, db, some no_reader)
    | some old_rows ↦ elim (new_reader ds new) [
      | none ↦ (w, db, some no_reader)
      | some new_rows ↦ process_rows (diff_rows ds.get_row_key rows_equal old_rows new_rows) w db
    ]
  ]

  -- `open` is `os.Open` and the csv reader on a file of the download directory.
  unfoldable pub process :
      (Bytes → Result E (List (Option Row))) → (prev curr : Bytes) → Writer T → D → State T E D
  process open_at prev curr w db =
      if ds.no_diff || bytes_eq prev [] || bytes_eq prev curr
      then process_all (open_at curr) w db
      else process_diff (open_at prev) (open_at curr) w db

  abbrev lift : Outcome upsert → State T E D
  lift o = (o.0, o.1, upserted o.2)

  -- Where every row parses, the loop is that of a writer over the parsed rows.
  pub process_rows-eq-write_all :
      (p : Row → Option T)
      → ((r : Row) → ds.parse_row r ≡ ok (p r))
      → (rows : List Row) (w : Writer T) (db : D)
      → process_rows rows w db ≡ lift (write_all upsert (map p rows) w db)
  unfolding process_rows write_all
  process_rows-eq-write_all p h [] w db = refl
  process_rows-eq-write_all p h (row ∷ rows) w db =
      let (w', db', e) = write upsert w db (p row) in
      rw (h row, process_rows) (ground (arith, process_rows-eq-write_all p h rows w' db'))
