-- ===== src/Dataset/Files/Choice.antt =====
-- The names of the files of a dataset in internal/util/dataset.go: its list of the directory, and
-- `prepareFilenames`.
use resolver_addon.Prelude.{
  Bool, true, false, not, ◌&&◌, ◌||◌, List, [], ◌∷◌, ◌++◌, Option, none, some, Result, ok, err,
  if◌then◌else◌,
}
use resolver_addon.Prelude.Affix.{is_some}
use resolver_addon.Prelude.Assoc.{find, remove}
use resolver_addon.Prelude.Bytes.{Bytes, bytes_eq}
use resolver_addon.Prelude.TextOrder.{Order, same}
use resolver_addon.Dataset.Files.{
  Dataset, DatasetError, Dir, World, ensure_dir, failed_to_list, first_bytes, glob_dir,
  last_but_one, last_of, matching, or_fault, stat_file, unlink_file,
}

module _ {E T : Type 0} (w : World E T) where
  unfoldable pub ensure_download_dir : Dataset → Result E Dataset
  ensure_download_dir ds =
      if ds.download_dir_exists
      then ok ds
      else or_fault (w.fault ensure_dir []) (record ds { download_dir_exists = true })

  abbrev pub glob_files : Bytes → Dir → Result E (List Bytes)
  glob_files pattern d = or_fault (w.fault glob_dir pattern) (matching pattern d)

  abbrev pub and_archives : List Bytes → Result E (List Bytes) → Result E (List Bytes)
  and_archives filenames (ok archives) = ok (filenames ++ archives)
  and_archives filenames (err e) = err e

  abbrev pub list_archives : Dataset → Bool → Dir → Result E (List Bytes) → Result E (List Bytes)
  list_archives ds include_archives d (err e) = err e
  list_archives ds include_archives d (ok filenames) =
      if include_archives && not (bytes_eq ds.archive_ext [])
      then and_archives filenames (glob_files (b'-' ∷ ds.name ++ ds.archive_ext) d)
      else ok filenames

  unfoldable pub list : Dataset → Bool → Dir → Result E (List Bytes)
  unfolding matching
  list ds include_archives d = list_archives ds include_archives d (glob_files (b'-' ∷ ds.name) d)

  -- A file that cannot be removed stays, with a warning in the log.
  abbrev pub unlinked : Option E → Bytes → Dir → Dir
  unlinked none filename d = remove d filename
  unlinked (some e) filename d = d

  unfoldable pub remove_file : Bytes → Dir → Dir
  unfolding remove
  remove_file filename d = unlinked (w.fault unlink_file filename) filename d

  abbrev pub drop_unreadable : Dataset → Bytes → Dir → Dir
  drop_unreadable ds filename d =
      let d1 = remove_file filename d in
      if bytes_eq ds.archive_ext [] then d1 else remove_file (filename ++ ds.archive_ext) d1

  abbrev pub parsed : Dataset → Bytes → Dir → Result E T → Dir × Result E T
  parsed ds filename d (ok t) = (d, ok t)
  parsed ds filename d (err e) = (drop_unreadable ds filename d, err e)

  -- none: the name is shorter than the stamp of a time, and the slice panics
  unfoldable pub parse_time : Dataset → Bytes → Dir → Option (Dir × Result E T)
  unfolding first_bytes remove_file
  parse_time ds filename d = elim (first_bytes 13 filename) [
    | none ↦ none
    | some text ↦ some (parsed ds filename d (w.parse_stamp text))
  ]

  abbrev pub stale_time : Option (Dir × Result E T) → Option (Dir × Bool)
  stale_time none = none
  stale_time (some (d, ok t)) = some (d, w.is_stale_time t)
  stale_time (some (d, err e)) = some (d, true)

  unfoldable pub is_stale : Dataset → Bytes → Dir → Option (Dir × Bool)
  unfolding parse_time
  is_stale ds filename d =
      if bytes_eq filename [] then some (d, true) else stale_time (parse_time ds filename d)

  abbrev pub compare_with : T → Option (Dir × Result E T) → Option (Dir × Order)
  compare_with a none = none
  compare_with a (some (d, ok b)) = some (d, w.compare_time a b)
  compare_with a (some (d, err e)) = some (d, same)

  abbrev pub compare_next : Dataset → Bytes → Option (Dir × Result E T) → Option (Dir × Order)
  compare_next ds b none = none
  compare_next ds b (some (d, ok t)) = compare_with t (parse_time ds b d)
  compare_next ds b (some (d, err e)) = some (d, same)

  unfoldable pub compare_names : Dataset → Bytes → Bytes → Dir → Option (Dir × Order)
  unfolding parse_time
  compare_names ds a b d = compare_next ds b (parse_time ds a d)

  unfoldable pub file_exists : Bytes → Dir → Result E Bool
  unfolding find
  file_exists filename d = or_fault (w.fault stat_file filename) (is_some (find d filename))

  abbrev pub is_there : Result E Bool → Bool
  is_there (ok b) = b
  is_there (err e) = false

  abbrev pub chosen : Dataset → List Bytes → Bool → Dataset
  chosen ds filenames stale =
      if stale
      then record ds {
        curr_filename = w.stamp ++ b'-' ∷ ds.name;
        prev_filename = last_of filenames;
      }
      else record ds { curr_filename = last_of filenames; prev_filename = last_but_one filenames }

  abbrev pub check_curr : Dir → Dataset → Dataset
  check_curr d ds =
      if is_there (file_exists ds.curr_filename d)
      then ds
      else record ds { curr_filename = w.later_stamp ++ b'-' ∷ ds.name }

  abbrev pub check_prev : Dir → Dataset → Dataset
  check_prev d ds =
      if bytes_eq ds.prev_filename [] || is_there (file_exists ds.prev_filename d)
      then ds
      else record ds { prev_filename = [] }

  abbrev pub choose : Dataset → List Bytes → Option (Dir × Bool) → Option (Dir × Dataset)
  choose ds filenames none = none
  choose ds filenames (some (d, stale)) =
      some (d, check_prev d (check_curr d (chosen ds filenames stale)))

  abbrev pub choose_sorted : Dataset → Option (Dir × List Bytes) → Option (Dir × Dataset)
  choose_sorted ds none = none
  choose_sorted ds (some (d, filenames)) = choose ds filenames (is_stale ds (last_of filenames) d)

  abbrev pub or_error : {A : Type 0} → Option (Dir × A) → Option (Dir × Result (DatasetError E) A)
  or_error none = none
  or_error (some (d, a)) = some (d, ok a)

  abbrev pub prepare_listed :
      Dataset → Dir → Result E (List Bytes) → Option (Dir × Result (DatasetError E) Dataset)
  prepare_listed ds d (err e) = some (d, err (failed_to_list e))
  prepare_listed ds d (ok filenames) =
      or_error (choose_sorted ds (w.sort_func (compare_names ds) filenames d))

  -- prepareFilenames; none is a panic
  unfoldable pub prepare_filenames : Dataset → Dir → Option (Dir × Result (DatasetError E) Dataset)
  unfolding list compare_names is_stale file_exists
  prepare_filenames ds d =
      if not (bytes_eq ds.prev_filename [])
      then some (d, ok ds)
      else prepare_listed ds d (list ds false d)
