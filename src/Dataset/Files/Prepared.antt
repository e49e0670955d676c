-- ===== src/Dataset/Files/Prepared.antt =====
-- What NewDataset and `prepareFilenames` of internal/util/dataset.go leave.
use resolver_addon.Prelude.{
  ◌≡◌, refl, ap, ◌∙◌, Bool, true, false, List, [], ◌∷◌, Option, none, some, Result, ok, err, inl,
  inr, Bool-cases, arith, ◌⊎◌,
}
use resolver_addon.Prelude.Affix.{is_some}
use resolver_addon.Prelude.Assoc.{find}
use resolver_addon.Prelude.Bytes.{Bytes, codes, bytes_eq, bytes_eq_sound}
use resolver_addon.Dataset.Files.{
  Dataset, DatasetConfig, DatasetError, Dir, World, archive_ext_of, last_of, new_dataset, or_fault,
  stat_file, with_ext,
}
use resolver_addon.Dataset.Files.Choice.{
  check_curr, check_prev, choose, choose_sorted, chosen, compare_names, file_exists, is_stale,
  is_there, list, or_error, prepare_filenames, prepare_listed,
}
use resolver_addon.Dataset.Files.Done.{HasFile, IsArchive}

IsExt : Option Bytes → Type 0
IsExt none = Unit {0}
IsExt (some ext) = IsArchive ext

archive_ext_of-IsExt : (archive : Bytes) → IsExt (archive_ext_of archive)
unfolding IsExt archive_ext_of
archive_ext_of-IsExt archive = elim (Bool-cases (bytes_eq archive [])) [
  | inl at ↦ rw at (inl refl)
  | inr off ↦ elim (Bool-cases (bytes_eq archive (codes "gz"))) [
    | inl gz ↦
        rw (off, gz) (inr (inl (ap (λ s. b'.' ∷ s) (bytes_eq_sound archive (codes "gz") gz))))
    | inr not_gz ↦ elim (Bool-cases (bytes_eq archive (codes "xz"))) [
      | inl xz ↦
          rw (off, not_gz, xz)
            (inr (inr (ap (λ s. b'.' ∷ s) (bytes_eq_sound archive (codes "xz") xz))))
      | inr not_xz ↦ rw (off, not_gz, not_xz) tt
    ]
  ]
]

unfoldable pub IsNew : Option Dataset → Type 0
IsNew none = Unit {0}
IsNew (some ds) = IsArchive ds.archive_ext × (ds.prev_filename ≡ [])

with_ext-IsNew : (conf : DatasetConfig) (o : Option Bytes) → IsExt o → IsNew (with_ext conf o)
unfolding IsExt IsNew
with_ext-IsNew conf none h = tt
with_ext-IsNew conf (some ext) h = (h, refl)

pub new_dataset-IsNew : (conf : DatasetConfig) → IsNew (new_dataset conf)
unfolding IsNew new_dataset
new_dataset-IsNew conf = elim (Bool-cases (bytes_eq conf.download_dir [])) [
  | inl at ↦ rw at tt
  | inr off ↦
      rw off (with_ext-IsNew conf (archive_ext_of conf.archive) (archive_ext_of-IsExt conf.archive))
]

module _ {E T : Type 0} (w : World E T) where
  -- The file before, if there is one, is in the directory.
  abbrev pub IsKept : Bytes → Dir → Dataset → Type 0
  IsKept ext d ds = (ds.archive_ext ≡ ext) × ((ds.prev_filename ≡ []) ⊎ HasFile d ds.prev_filename)

  abbrev pub IsPrepared : Bytes → Option (Dir × Result (DatasetError E) Dataset) → Type 0
  IsPrepared ext none = Unit {0}
  IsPrepared ext (some (d, err e)) = Unit {0}
  IsPrepared ext (some (d, ok ds)) = IsKept ext d ds

  is_there-HasFile : (f : Bytes) (d : Dir) → is_there w (file_exists w f d) ≡ true → HasFile d f
  unfolding file_exists
  is_there-HasFile f d h = go (w.fault stat_file f) h
    where
      go : (o : Option E) → is_there w (or_fault o (is_some (find d f))) ≡ true → HasFile d f
      go none e = e
      go (some x) e = absurd (ground (arith, e))

  check_prev-IsKept :
      (ds : Dataset) (d : Dir) {ext : Bytes}
      → ds.archive_ext ≡ ext
      → IsKept ext d (check_prev w d ds)
  check_prev-IsKept ds d e = elim (Bool-cases (bytes_eq ds.prev_filename [])) [
    | inl at ↦ rw at (e, inl (bytes_eq_sound ds.prev_filename [] at))
    | inr off ↦ elim (Bool-cases (is_there w (file_exists w ds.prev_filename d))) [
      | inl there ↦ rw (off, there) (e, inr (is_there-HasFile ds.prev_filename d there))
      | inr out ↦ rw (off, out) (e, inl refl)
    ]
  ]

  check_curr-ext : (ds : Dataset) (d : Dir) → (check_curr w d ds).archive_ext ≡ ds.archive_ext
  check_curr-ext ds d = elim (Bool-cases (is_there w (file_exists w ds.curr_filename d))) [
    | inl there ↦ rw there refl
    | inr out ↦ rw out refl
  ]

  chosen-ext :
      (ds : Dataset) (fs : List Bytes) (stale : Bool)
      → (chosen w ds fs stale).archive_ext ≡ ds.archive_ext
  chosen-ext ds fs true = refl
  chosen-ext ds fs false = refl

  choose-IsPrepared :
      (ds : Dataset) (fs : List Bytes) (o : Option (Dir × Bool))
      → IsPrepared ds.archive_ext (or_error w (choose w ds fs o))
  choose-IsPrepared ds fs none = tt
  choose-IsPrepared ds fs (some (d, stale)) =
      check_prev-IsKept (check_curr w d (chosen w ds fs stale)) d
        (check_curr-ext (chosen w ds fs stale) d ∙ chosen-ext ds fs stale)

  choose_sorted-IsPrepared :
      (ds : Dataset) (o : Option (Dir × List Bytes))
      → IsPrepared ds.archive_ext (or_error w (choose_sorted w ds o))
  choose_sorted-IsPrepared ds none = tt
  choose_sorted-IsPrepared ds (some (d, fs)) =
      choose-IsPrepared ds fs (is_stale w ds (last_of fs) d)

  prepare_listed-IsPrepared :
      (ds : Dataset) (d : Dir) (r : Result E (List Bytes))
      → IsPrepared ds.archive_ext (prepare_listed w ds d r)
  prepare_listed-IsPrepared ds d (err e) = tt
  prepare_listed-IsPrepared ds d (ok fs) =
      choose_sorted-IsPrepared ds (w.sort_func (compare_names w ds) fs d)

  pub prepare_filenames-IsPrepared :
      (ds : Dataset) (d : Dir)
      → ds.prev_filename ≡ []
      → IsPrepared ds.archive_ext (prepare_filenames w ds d)
  unfolding prepare_filenames bytes_eq
  prepare_filenames-IsPrepared ds d e = rw e (prepare_listed-IsPrepared ds d (list w ds false d))
