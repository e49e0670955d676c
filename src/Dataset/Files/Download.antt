-- ===== src/Dataset/Files/Download.antt =====
-- What the download of internal/util/dataset.go does to the files of the directory.
use resolver_addon.Prelude.{
  ◌≡◌, refl, ◌∙◌, Bool, true, false, ◌||◌, Option, none, some, Result, ok, err, inl, inr,
  Bool-cases, arith,
}
use resolver_addon.Prelude.Assoc.{find, find-store}
use resolver_addon.Prelude.Bytes.{Bytes, codes, bytes_eq}
use resolver_addon.Dataset.Files.{Dataset, Dir, World, archive_of, create_file}
use resolver_addon.Dataset.Files.Choice.{file_exists}
use resolver_addon.Dataset.Files.Get.{
  copy_to, created, download, downloaded, extract, extract_open, extract_read, extracted,
  fetch_archive, get_archive, get_file, open_file, reader,
}
use resolver_addon.Dataset.Files.Cleanup.{find-remove_file}

module _ {E T : Type 0} (w : World E T) where
  -- How the download may change the file `x`.
  abbrev IsApart : Dataset → Bytes → Type 0
  IsApart ds x = (bytes_eq ds.curr_filename x ≡ false) × (bytes_eq (archive_of ds) x ≡ false)

  created-keeps :
      (o : Option E) (f x : Bytes) (body : Bytes × Option E) (d : Dir)
      → bytes_eq f x ≡ false
      → find (created w o f body d).0 x ≡ find d x
  created-keeps (some e) f x body d off = refl
  created-keeps none f x body d off = ground (arith, find-store d f x body.0, off)

  extracted-keeps :
      (ds : Dataset) (t : Dir × Option E × Option E) (x : Bytes)
      → bytes_eq (archive_of ds) x ≡ false
      → find (extracted w ds t).0 x ≡ find t.0 x
  extracted-keeps ds (d, some e, o) x off = refl
  extracted-keeps ds (d, none, some e) x off = refl
  extracted-keeps ds (d, none, none) x off =
      ground (arith, find-remove_file w (archive_of ds) d x, off)

  extract_read-keeps :
      (ds : Dataset) (d : Dir) (r : Result E (Bytes × Option E)) (x : Bytes)
      → IsApart ds x
      → find (extract_read w ds d r).0 x ≡ find d x
  extract_read-keeps ds d (err e) x apart = refl
  extract_read-keeps ds d (ok body) x (off, off_archive) =
      extracted-keeps ds (copy_to w ds.curr_filename body d) x off_archive
      ∙ created-keeps (w.fault create_file ds.curr_filename) ds.curr_filename x body d off

  extract_open-keeps :
      (ds : Dataset) (d : Dir) (r : Result E Bytes) (x : Bytes)
      → IsApart ds x
      → find (extract_open w ds d r).0 x ≡ find d x
  extract_open-keeps ds d (err e) x apart = refl
  extract_open-keeps ds d (ok body) x apart =
      extract_read-keeps ds d (reader w ds.archive_ext body) x apart

  abbrev has_archive : Dataset → Bool
  has_archive ds = bytes_eq ds.archive_ext (codes ".gz") || bytes_eq ds.archive_ext (codes ".xz")

  extract-keeps :
      (ds : Dataset) (d : Dir) (x : Bytes) → IsApart ds x → find (extract w ds d).0 x ≡ find d x
  unfolding extract
  extract-keeps ds d x apart = elim (Bool-cases (has_archive ds)) [
    | inl at ↦ rw at (extract_open-keeps ds d (open_file w (archive_of ds) d) x apart)
    | inr off ↦ rw off refl
  ]

  downloaded-keeps :
      (ds : Dataset) (t : Dir × Option E × Option E) (x : Bytes)
      → IsApart ds x
      → find (downloaded w ds t).0 x ≡ find t.0 x
  downloaded-keeps ds (d, some e, o) x apart = refl
  downloaded-keeps ds (d, none, some e) x apart = refl
  downloaded-keeps ds (d, none, none) x apart = extract-keeps ds d x apart

  fetch_archive-keeps :
      (ds : Dataset) (d : Dir) (r : Result E (Bytes × Option E)) (x : Bytes)
      → IsApart ds x
      → find (fetch_archive w ds d r).0 x ≡ find d x
  fetch_archive-keeps ds d (err e) x apart = refl
  fetch_archive-keeps ds d (ok body) x (off, off_archive) =
      downloaded-keeps ds (copy_to w (archive_of ds) body d) x (off, off_archive)
      ∙ created-keeps (w.fault create_file (archive_of ds)) (archive_of ds) x body d off_archive

  get_archive-keeps :
      (ds : Dataset) (d : Dir) (r : Result E Bool) (x : Bytes)
      → IsApart ds x
      → find (get_archive w ds d r).0 x ≡ find d x
  get_archive-keeps ds d (err e) x apart = refl
  get_archive-keeps ds d (ok true) x apart = extract-keeps ds d x apart
  get_archive-keeps ds d (ok false) x apart = fetch_archive-keeps ds d w.fetch x apart

  get_file-keeps :
      (ds : Dataset) (d : Dir) (r : Result E Bool) (x : Bytes)
      → IsApart ds x
      → find (get_file w ds d r).0 x ≡ find d x
  get_file-keeps ds d (err e) x apart = refl
  get_file-keeps ds d (ok true) x apart = refl
  get_file-keeps ds d (ok false) x apart =
      get_archive-keeps ds d (file_exists w (archive_of ds) d) x apart

  -- A download, also one that fails, changes no file but the current one and its archive.
  pub download-keeps :
      (ds : Dataset) (d : Dir) (x : Bytes) → IsApart ds x → find (download w ds d).0 x ≡ find d x
  unfolding download
  download-keeps ds d x apart = get_file-keeps ds d (file_exists w ds.curr_filename d) x apart
