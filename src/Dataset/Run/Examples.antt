-- ===== src/Dataset/Run/Examples.antt =====
-- Process of a dataset with one row to a file.
use resolver_addon.Dataset.Files.{archive_of}
use resolver_addon.Dataset.Files.Examples.{
  world, conf, dataset, chosen_dataset, dir, dir_after, new_test, init_test,
}
use resolver_addon.Dataset.Process.{Row, process, process_rows, new_reader, process_diff}
use resolver_addon.Dataset.Run.{ran, tsv_process}
use resolver_addon.Dataset.Run.Opened.{left_rows, tsv_process-left_rows}
use resolver_addon.Dataset.Writer.{Writer, new_writer}
use resolver_addon.Prelude.{
  ◌≡◌, ◌≢◌, refl, ap, sym, ◌∙◌, Bool, true, false, List, [], ◌∷◌, ◌++◌, Option, none, some, Result,
  ok,
}
use resolver_addon.Prelude.Bytes.{Bytes, codes, bytes_eq}

abbrev first_field : Row → Bytes
first_field [] = []
first_field (x ∷ xs) = x

abbrev any_headers : Row → Bool
any_headers r = true

abbrev tsv : resolver_addon.Dataset.Process.Dataset Row Bytes
tsv = record {
  get_row_key = first_field;
  has_headers = false;
  is_valid_headers = any_headers;
  no_diff = false;
  parse_row = λ r. ok (some r);
}

abbrev record_rows : List Row → List Row → List Row × Option Bytes
record_rows db rows = (db ++ rows, none)

abbrev one_row : Bytes → List (Option Row)
one_row body = some (body ∷ []) ∷ []

distinct_test : chosen_dataset.prev_filename ≢ archive_of chosen_dataset
unfolding bytes_eq
distinct_test h =
    let differ : true ≡ false = ap (λ s. bytes_eq s chosen_dataset.prev_filename) h in cc

tsv_process-left_rows_example :
    tsv_process tsv record_rows world one_row dataset dir (new_writer 2) []
    ≡ some (
        ran tsv record_rows world one_row dir_after chosen_dataset (
          process tsv record_rows
            (left_rows tsv record_rows world one_row dir_after)
            chosen_dataset.prev_filename
            chosen_dataset.curr_filename
            (new_writer 2)
            []))
tsv_process-left_rows_example =
    tsv_process-left_rows tsv record_rows world one_row conf dir (new_writer 2) [] new_test
      init_test (λ f. refl) distinct_test

-- The row that is new is written.
run_test :
    (process tsv record_rows
      (left_rows tsv record_rows world one_row dir_after)
      chosen_dataset.prev_filename
      chosen_dataset.curr_filename
      (new_writer 2)
      []).1
    ≡ (codes "news" ∷ []) ∷ []
unfolding process bytes_eq resolver_addon.Dataset.Process.process_diff
    resolver_addon.Dataset.Process.new_reader resolver_addon.Dataset.Process.process_rows
    resolver_addon.Dataset.Diff.diff_rows resolver_addon.Prelude.TextOrder.compare_bytes
    resolver_addon.Prelude.Assoc.find resolver_addon.Dataset.Writer.write new_writer
    resolver_addon.Dataset.Writer.done
run_test = refl
