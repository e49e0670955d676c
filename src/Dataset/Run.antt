-- ===== src/Dataset/Run.antt =====
-- `Process` of internal/util/tsv_dataset.go as a whole: `Init` on the download directory, and then
-- the rows of the files that it leaves.
pub mod Opened
pub mod Examples
use resolver_addon.Dataset.Files.{DatasetError, Dir, World}
use resolver_addon.Dataset.Files.Get.{init, open_file}
use resolver_addon.Dataset.Process.{Row, ProcessError, State, process}
use resolver_addon.Dataset.Writer.{Writer}
use resolver_addon.Prelude.{List, Option, none, some, Result, ok, err}
use resolver_addon.Prelude.Bytes.{Bytes}

pub data RunError (E : Type 0) : Type 0 where
  init_failed : DatasetError E → RunError E
  process_failed : ProcessError E → RunError E

abbrev pub process_error : {E : Type 0} → Option (ProcessError E) → Option (RunError E)
process_error none = none
process_error (some e) = some (process_failed e)

-- The rows of a file as the csv reader gives them.
abbrev pub rows_of :
    {E : Type 0} → (Bytes → List (Option Row)) → Result E Bytes → Result E (List (Option Row))
rows_of read_rows (ok body) = ok (read_rows body)
rows_of read_rows (err e) = err e

-- The directory, the dataset, the writer, the database and the error.
abbrev pub ProcessRun : (T E D : Type 0) → Type 0
ProcessRun T E D = Dir × resolver_addon.Dataset.Files.Dataset × Writer T × D × Option (RunError E)

module _ {T E D S : Type 0} (tsv : resolver_addon.Dataset.Process.Dataset T E)
    (upsert : D → List T → D × Option E) (world : World E S)
    (read_rows : Bytes → List (Option Row)) where
  abbrev pub open_rows : Dir → Bytes → Result E (List (Option Row))
  open_rows d filename = rows_of read_rows (open_file world filename d)

  abbrev pub ran : Dir → resolver_addon.Dataset.Files.Dataset → State T E D → ProcessRun T E D
  ran d ds (w, db, e) = (d, ds, w, db, process_error e)

  abbrev pub after_init :
      Option (Dir × resolver_addon.Dataset.Files.Dataset × Option (DatasetError E))
      → Writer T
      → D
      → Option (ProcessRun T E D)
  after_init none w db = none
  after_init (some (d, ds, some e)) w db = some (d, ds, w, db, some (init_failed e))
  after_init (some (d, ds, none)) w db =
      some (ran d ds (process tsv upsert (open_rows d) ds.prev_filename ds.curr_filename w db))

  -- Process; none is a panic
  unfoldable pub tsv_process :
      resolver_addon.Dataset.Files.Dataset → Dir → Writer T → D → Option (ProcessRun T E D)
  unfolding init process resolver_addon.Prelude.Assoc.find
  tsv_process ds d w db = after_init (init world ds d) w db
