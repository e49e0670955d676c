-- ===== src/Dataset/Files/Get.antt =====
-- `cleanup`, `download` and `Init` of internal/util/dataset.go.
use resolver_addon.Prelude.{
  Bool, true, ◌||◌, List, [], ◌∷◌, Option, none, some, Result, ok, err, if◌then◌else◌,
}
use resolver_addon.Prelude.Assoc.{find, store}
use resolver_addon.Prelude.Bytes.{Bytes, codes, bytes_eq}
use resolver_addon.Dataset.Files.{
  Dataset, DatasetError, Dir, World, archive_of, create_file, failed_to_check, failed_to_list,
  is_other, plain, read_file,
}
use resolver_addon.Dataset.Files.Choice.{
  ensure_download_dir, file_exists, list, prepare_filenames, remove_file,
}

module _ {E T : Type 0} (w : World E T) where
  unfoldable pub remove_others : Dataset → List Bytes → Dir → Dir
  unfolding remove_file
  remove_others ds [] d = d
  remove_others ds (filename ∷ filenames) d =
      if is_other ds filename
      then remove_others ds filenames (remove_file w filename d)
      else remove_others ds filenames d

  abbrev pub clean_listed : Dataset → Dir → Result E (List Bytes) → Dir × Option (DatasetError E)
  clean_listed ds d (err e) = (d, some (failed_to_list e))
  clean_listed ds d (ok filenames) = (remove_others ds filenames d, none)

  unfoldable pub cleanup : Dataset → Dir → Dir × Option (DatasetError E)
  unfolding list remove_others
  cleanup ds d = clean_listed ds d (list w ds true d)

  abbrev pub opened : Option E → Option Bytes → Result E Bytes
  opened (some e) o = err e
  opened none none = err w.not_exist
  opened none (some body) = ok body

  abbrev pub open_file : Bytes → Dir → Result E Bytes
  open_file filename d = opened (w.fault read_file filename) (find d filename)

  abbrev pub created : Option E → Bytes → Bytes × Option E → Dir → Dir × Option E × Option E
  created (some x) filename body d = (d, some x, none)
  created none filename (body, e) d = (store d filename body, none, e)

  -- os.Create and io.Copy: the directory, the error of Create, and that of Copy
  abbrev pub copy_to : Bytes → Bytes × Option E → Dir → Dir × Option E × Option E
  copy_to filename body d = created (w.fault create_file filename) filename body d

  abbrev pub reader : Bytes → Bytes → Result E (Bytes × Option E)
  reader ext body = if bytes_eq ext (codes ".gz") then w.gunzip body else ok (w.unxz body)

  -- The error of the copy is dropped.
  abbrev pub extracted : Dataset → Dir × Option E × Option E → Dir × Option (DatasetError E)
  extracted ds (d, some e, _) = (d, some (plain e))
  extracted ds (d, none, some e) = (d, none)
  extracted ds (d, none, none) = (remove_file w (archive_of ds) d, none)

  abbrev pub extract_read :
      Dataset → Dir → Result E (Bytes × Option E) → Dir × Option (DatasetError E)
  extract_read ds d (err e) = (d, some (plain e))
  extract_read ds d (ok body) = extracted ds (copy_to ds.curr_filename body d)

  abbrev pub extract_open : Dataset → Dir → Result E Bytes → Dir × Option (DatasetError E)
  extract_open ds d (err e) = (d, some (plain e))
  extract_open ds d (ok body) = extract_read ds d (reader ds.archive_ext body)

  unfoldable pub extract : Dataset → Dir → Dir × Option (DatasetError E)
  unfolding find store remove_file
  extract ds d =
      if bytes_eq ds.archive_ext (codes ".gz") || bytes_eq ds.archive_ext (codes ".xz")
      then extract_open ds d (open_file (archive_of ds) d)
      else (d, none)

  abbrev pub downloaded : Dataset → Dir × Option E × Option E → Dir × Option (DatasetError E)
  downloaded ds (d, some e, _) = (d, some (plain e))
  downloaded ds (d, none, some e) = (d, some (plain e))
  downloaded ds (d, none, none) = extract ds d

  abbrev pub fetch_archive :
      Dataset → Dir → Result E (Bytes × Option E) → Dir × Option (DatasetError E)
  fetch_archive ds d (err e) = (d, some (plain e))
  fetch_archive ds d (ok body) = downloaded ds (copy_to (archive_of ds) body d)

  abbrev pub get_archive : Dataset → Dir → Result E Bool → Dir × Option (DatasetError E)
  get_archive ds d (err e) = (d, some (failed_to_check e))
  get_archive ds d (ok exists) = if exists then extract ds d else fetch_archive ds d w.fetch

  abbrev pub get_file : Dataset → Dir → Result E Bool → Dir × Option (DatasetError E)
  get_file ds d (err e) = (d, some (failed_to_check e))
  get_file ds d (ok exists) =
      if exists then (d, none) else get_archive ds d (file_exists w (archive_of ds) d)

  unfoldable pub download : Dataset → Dir → Dir × Option (DatasetError E)
  unfolding file_exists extract store
  download ds d = get_file ds d (file_exists w ds.curr_filename d)

  abbrev pub cleaned : Dataset → Dir × Option (DatasetError E) → Dir × Option (DatasetError E)
  cleaned ds (d, some e) = (d, some e)
  cleaned ds (d, none) = download ds d

  abbrev pub get_files : Dataset → Dir → Dir × Option (DatasetError E)
  get_files ds d = if bytes_eq ds.prev_filename [] then download ds d else cleaned ds (cleanup ds d)

  abbrev pub prepared :
      Dataset
      → Option (Dir × Result (DatasetError E) Dataset)
      → Option (Dir × Dataset × Option (DatasetError E))
  prepared ds none = none
  prepared ds (some (d, err e)) = some (d, ds, some e)
  prepared ds (some (d, ok ds')) = let (d', e) = get_files ds' d in some (d', ds', e)

  abbrev pub init_in :
      Dataset → Dir → Result E Dataset → Option (Dir × Dataset × Option (DatasetError E))
  init_in ds d (err e) = some (d, ds, some (plain e))
  init_in ds d (ok ds') = prepared ds' (prepare_filenames w ds' d)

  -- Init: the directory, the dataset and the error; none is a panic
  unfoldable pub init : Dataset → Dir → Option (Dir × Dataset × Option (DatasetError E))
  unfolding ensure_download_dir prepare_filenames cleanup download
  init ds d = init_in ds d (ensure_download_dir w ds)
