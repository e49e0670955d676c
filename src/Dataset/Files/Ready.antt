-- ===== src/Dataset/Files/Ready.antt =====
-- `Init` of internal/util/dataset.go leaves the files that a dataset is read from.
use resolver_addon.Prelude.{
  ◌≡◌, refl, sym, ap, ◌∙◌, Bool, true, false, [], Option, none, some, Result, ok, err, inl, inr,
  Bool-cases, if◌then◌else◌, arith, ◌⊎◌,
}
use resolver_addon.Prelude.Affix.{is_some}
use resolver_addon.Prelude.Bytes.{bytes_eq, bytes_eq_sound}
use resolver_addon.Dataset.Files.{
  Dataset, DatasetConfig, DatasetError, Dir, World, archive_of, ensure_dir, new_dataset, or_fault,
}
use resolver_addon.Dataset.Files.Choice.{ensure_download_dir}
use resolver_addon.Dataset.Files.Get.{
  cleaned, cleanup, download, get_files, init, init_in, prepared,
}
use resolver_addon.Dataset.Files.Cleanup.{find-cleanup}
use resolver_addon.Dataset.Files.Download.{download-keeps}
use resolver_addon.Dataset.Files.Done.{HasFile, IsArchive, download-IsDone, has_prefix_refl}
use mathlib.Core.Path.{subst}
use resolver_addon.Dataset.Files.Prepared.{
  IsNew, new_dataset-IsNew, IsKept, IsPrepared, prepare_filenames-IsPrepared,
}

module _ {E T : Type 0} (w : World E T) where
  -- What a dataset is read from: the current file, and the one before unless the archive of the
  -- current one took its name.
  abbrev pub AreReady : Dir → Dataset → Type 0
  AreReady d ds =
      HasFile d ds.curr_filename
      × ((ds.prev_filename ≡ []) ⊎ (ds.prev_filename ≡ archive_of ds) ⊎ HasFile d ds.prev_filename)

  abbrev IsReady : Option (Dir × Dataset × Option (DatasetError E)) → Type 0
  IsReady none = Unit {0}
  IsReady (some (d, ds, some e)) = Unit {0}
  IsReady (some (d, ds, none)) = AreReady d ds

  download-AreReady :
      (ds : Dataset) (d : Dir)
      → IsKept w ds.archive_ext d ds
      → IsArchive ds.archive_ext
      → (download w ds d).1 ≡ none
      → AreReady (download w ds d).0 ds
  download-AreReady ds d (_, inl e) a h = (download-IsDone w ds d a h, inl e)
  download-AreReady ds d (_, inr there) a h =
      let curr : HasFile (download w ds d).0 ds.curr_filename = download-IsDone w ds d a h in
      elim (Bool-cases (bytes_eq ds.curr_filename ds.prev_filename)) [
        | inl at ↦ (
          curr,
          inr (
              inr (
                subst (λ f. HasFile (download w ds d).0 f)
                  (bytes_eq_sound ds.curr_filename ds.prev_filename at) curr)),
        )
        | inr off ↦ elim (Bool-cases (bytes_eq (archive_of ds) ds.prev_filename)) [
          | inl at ↦ (curr, inr (inl (sym (bytes_eq_sound (archive_of ds) ds.prev_filename at))))
          | inr off_archive ↦ (
            curr,
            inr (
                inr
                  (ap is_some (download-keeps w ds d ds.prev_filename (off, off_archive)) ∙ there)),
          )
        ]
      ]

  cleanup-HasFile :
      (ds : Dataset) (d : Dir)
      → (cleanup w ds d).1 ≡ none
      → HasFile d ds.prev_filename
      → HasFile (cleanup w ds d).0 ds.prev_filename
  cleanup-HasFile ds d h there =
      ap is_some (find-cleanup w ds d ds.prev_filename h)
      ∙ ground (arith, has_prefix_refl ds.prev_filename, there)

  IsGotten : Dataset → Dir × Option (DatasetError E) → Type 0
  IsGotten ds r = r.1 ≡ none → AreReady r.0 ds

  cleaned-IsGotten :
      (ds : Dataset) (r : Dir × Option (DatasetError E))
      → (r.1 ≡ none → IsKept w ds.archive_ext r.0 ds)
      → IsArchive ds.archive_ext
      → IsGotten ds (cleaned w ds r)
  unfolding IsGotten
  cleaned-IsGotten ds (d, some e) hr a h = absurd (ground (arith, h))
  cleaned-IsGotten ds (d, none) hr a h = download-AreReady ds d (hr refl) a h

  cleanup-IsKept :
      (ds : Dataset) (d : Dir)
      → IsKept w ds.archive_ext d ds
      → (cleanup w ds d).1 ≡ none
      → IsKept w ds.archive_ext (cleanup w ds d).0 ds
  cleanup-IsKept ds d (_, inl e) h = (refl, inl e)
  cleanup-IsKept ds d (_, inr there) h = (refl, inr (cleanup-HasFile ds d h there))

  get_files-IsGotten :
      (ds : Dataset) (d : Dir)
      → IsKept w ds.archive_ext d ds
      → IsArchive ds.archive_ext
      → IsGotten ds (get_files w ds d)
  unfolding IsGotten
  get_files-IsGotten ds d k a = elim (Bool-cases (bytes_eq ds.prev_filename [])) [
    | inl at ↦ rw at (download-AreReady ds d k a)
    | inr off ↦ rw off (cleaned-IsGotten ds (cleanup w ds d) (cleanup-IsKept ds d k) a)
  ]

  gotten-IsReady :
      (ds : Dataset) (r : Dir × Option (DatasetError E))
      → IsGotten ds r
      → IsReady (some (r.0, ds, r.1))
  unfolding IsGotten
  gotten-IsReady ds (d, some e) h = tt
  gotten-IsReady ds (d, none) h = h refl

  prepared-IsReady :
      (ds : Dataset) (o : Option (Dir × Result (DatasetError E) Dataset))
      → IsArchive ds.archive_ext
      → IsPrepared w ds.archive_ext o
      → IsReady (prepared w ds o)
  prepared-IsReady ds none a h = tt
  prepared-IsReady ds (some (d, err e)) a h = tt
  prepared-IsReady ds (some (d, ok ds')) a (e, h) =
      gotten-IsReady ds' (get_files w ds' d)
        (get_files-IsGotten ds' d (refl, h) (subst (λ ext. IsArchive ext) (sym e) a))

  init-IsReady :
      (ds : Dataset) (d : Dir)
      → IsArchive ds.archive_ext
      → ds.prev_filename ≡ []
      → IsReady (init w ds d)
  unfolding init ensure_download_dir
  init-IsReady ds d a e = go ds.download_dir_exists (w.fault ensure_dir [])
    where
      made : Dataset
      made = record ds { download_dir_exists = true }

      go :
          (b : Bool) (o : Option E)
          → IsReady (init_in w ds d (if b then ok ds else or_fault o made))
      go true o = prepared-IsReady ds _ a (prepare_filenames-IsPrepared w ds d e)
      go false (some x) = tt
      go false none = prepared-IsReady made _ a (prepare_filenames-IsPrepared w made d e)

  -- A new dataset whose Init ends without an error has the current file in the directory, and the
  -- one before, if it found one, unless the archive of the current file has that name.
  pub init-AreReady :
      (conf : DatasetConfig) (d : Dir) {ds ds' : Dataset} {d' : Dir}
      → new_dataset conf ≡ some ds
      → init w ds d ≡ some (d', ds', none)
      → AreReady d' ds'
  unfolding IsNew
  init-AreReady conf d {ds} made h =
      let (a, e) = subst IsNew made (new_dataset-IsNew conf) in
      subst IsReady h (init-IsReady ds d a e)
