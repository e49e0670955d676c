-- ===== src/Dataset/Files/Done.antt =====
-- A download of internal/util/dataset.go without an error leaves the current file.
use resolver_addon.Prelude.{
  ℕ, ◌≡◌, refl, sym, ap, ◌∙◌, Bool, true, false, ◌||◌, [], ◌∷◌, ◌++◌, Option, none, some, Result,
  ok, err, inl, inr, arith, append-nil, ◌⊎◌,
}
use resolver_addon.Prelude.Affix.{has_prefix, is_some, cut_prefix-append}
use resolver_addon.Prelude.Assoc.{find, find-store}
use resolver_addon.Prelude.Bytes.{Bytes, codes, bytes_eq, bytes_eq_refl}
use resolver_addon.Dataset.Files.{
  Dataset, DatasetError, Dir, World, archive_of, create_file, or_fault, stat_file,
}
use resolver_addon.Dataset.Files.Choice.{file_exists}
use resolver_addon.Dataset.Files.Get.{
  copy_to, created, download, downloaded, extract, extract_open, extract_read, extracted,
  fetch_archive, get_archive, get_file, open_file, reader,
}
use resolver_addon.Dataset.Files.Cleanup.{find-remove_file}

abbrev pub HasFile : Dir → Bytes → Type 0
HasFile d f = is_some (find d f) ≡ true

-- The archives of NewDataset.
abbrev pub IsArchive : Bytes → Type 0
IsArchive ext = (ext ≡ []) ⊎ (ext ≡ codes ".gz") ⊎ (ext ≡ codes ".xz")

bytes_eq-longer : (s : Bytes) (c : ℕ) (t : Bytes) → bytes_eq (s ++ c ∷ t) s ≡ false
unfolding bytes_eq
bytes_eq-longer [] c t = refl
bytes_eq-longer (b ∷ s) c t = ground (arith, bytes_eq-longer s c t)

abbrev has_archive : Dataset → Bool
has_archive ds = bytes_eq ds.archive_ext (codes ".gz") || bytes_eq ds.archive_ext (codes ".xz")

archive-cases :
    (ds : Dataset)
    → IsArchive ds.archive_ext
    → ((ds.archive_ext ≡ []) × (has_archive ds ≡ false))
      ⊎ ((has_archive ds ≡ true) × (bytes_eq (archive_of ds) ds.curr_filename ≡ false))
unfolding bytes_eq
archive-cases ds (inl e) = inl (e, rw e refl)
archive-cases ds (inr (inl e)) = inr (
  rw e refl,
  ap (λ ext. bytes_eq (ds.curr_filename ++ ext) ds.curr_filename) e
      ∙ bytes_eq-longer ds.curr_filename b'.' (codes "gz"),
)
archive-cases ds (inr (inr e)) = inr (
  rw e refl,
  ap (λ ext. bytes_eq (ds.curr_filename ++ ext) ds.curr_filename) e
      ∙ bytes_eq-longer ds.curr_filename b'.' (codes "xz"),
)

pub has_prefix_refl : (s : Bytes) → has_prefix s s ≡ true
has_prefix_refl s =
    ap (λ t. has_prefix t s) (sym (append-nil s)) ∙ ap is_some (cut_prefix-append s [])

module _ {E T : Type 0} (w : World E T) where
  -- A result without an error has the current file.
  abbrev IsDone : Dataset → Dir × Option (DatasetError E) → Type 0
  IsDone ds r = r.1 ≡ none → HasFile r.0 ds.curr_filename

  created-HasFile :
      (o : Option E) (f : Bytes) (body : Bytes × Option E) (d : Dir)
      → (created w o f body d).1 ≡ none
      → HasFile (created w o f body d).0 f
  created-HasFile (some e) f body d h = absurd (ground (arith, h))
  created-HasFile none f body d h = ground (arith, find-store d f f body.0, bytes_eq_refl f)

  extracted-IsDone :
      (ds : Dataset) (t : Dir × Option E × Option E)
      → bytes_eq (archive_of ds) ds.curr_filename ≡ false
      → (t.1 ≡ none → HasFile t.0 ds.curr_filename)
      → IsDone ds (extracted w ds t)
  extracted-IsDone ds (d, some e, o) off hc h = absurd (ground (arith, h))
  extracted-IsDone ds (d, none, some e) off hc h = hc refl
  extracted-IsDone ds (d, none, none) off hc h =
      ap is_some (find-remove_file w (archive_of ds) d ds.curr_filename)
      ∙ ground (arith, off, hc refl)

  extract_read-IsDone :
      (ds : Dataset) (d : Dir) (r : Result E (Bytes × Option E))
      → bytes_eq (archive_of ds) ds.curr_filename ≡ false
      → IsDone ds (extract_read w ds d r)
  extract_read-IsDone ds d (err e) off h = absurd (ground (arith, h))
  extract_read-IsDone ds d (ok body) off h =
      extracted-IsDone ds (copy_to w ds.curr_filename body d) off
        (created-HasFile (w.fault create_file ds.curr_filename) ds.curr_filename body d) h

  extract_open-IsDone :
      (ds : Dataset) (d : Dir) (r : Result E Bytes)
      → bytes_eq (archive_of ds) ds.curr_filename ≡ false
      → IsDone ds (extract_open w ds d r)
  extract_open-IsDone ds d (err e) off h = absurd (ground (arith, h))
  extract_open-IsDone ds d (ok body) off h =
      extract_read-IsDone ds d (reader w ds.archive_ext body) off h

  file_exists-HasFile : (f : Bytes) (d : Dir) → file_exists w f d ≡ ok true → HasFile d f
  unfolding file_exists
  file_exists-HasFile f d h = go (w.fault stat_file f) h
    where
      go : (o : Option E) → or_fault o (is_some (find d f)) ≡ ok true → HasFile d f
      go none e = ground (arith, e)
      go (some x) e = absurd (ground (arith, e))

  archive_of-curr : (ds : Dataset) → ds.archive_ext ≡ [] → archive_of ds ≡ ds.curr_filename
  archive_of-curr ds e = ap (λ ext. ds.curr_filename ++ ext) e ∙ append-nil ds.curr_filename

  extract-without : (ds : Dataset) (d : Dir) → has_archive ds ≡ false → extract w ds d ≡ (d, none)
  unfolding extract
  extract-without ds d off = rw off refl

  extract-with :
      (ds : Dataset) (d : Dir)
      → has_archive ds ≡ true
      → extract w ds d ≡ extract_open w ds d (open_file w (archive_of ds) d)
  unfolding extract
  extract-with ds d at = rw at refl

  extract-IsDone :
      (ds : Dataset) (d : Dir)
      → IsArchive ds.archive_ext
      → (ds.archive_ext ≡ [] → HasFile d ds.curr_filename)
      → IsDone ds (extract w ds d)
  extract-IsDone ds d a hc h = elim (archive-cases ds a) [
    | inl (e, off) ↦ ap (λ r. is_some (find r.0 ds.curr_filename)) (extract-without ds d off) ∙ hc e
    | inr (at, apart) ↦
        ap (λ r. is_some (find r.0 ds.curr_filename)) (extract-with ds d at)
        ∙ extract_open-IsDone ds d (open_file w (archive_of ds) d) apart
            (ap (λ r. r.1) (sym (extract-with ds d at)) ∙ h)
  ]

  downloaded-IsDone :
      (ds : Dataset) (t : Dir × Option E × Option E)
      → IsArchive ds.archive_ext
      → (t.1 ≡ none → ds.archive_ext ≡ [] → HasFile t.0 ds.curr_filename)
      → IsDone ds (downloaded w ds t)
  downloaded-IsDone ds (d, some e, o) a hc h = absurd (ground (arith, h))
  downloaded-IsDone ds (d, none, some e) a hc h = absurd (ground (arith, h))
  downloaded-IsDone ds (d, none, none) a hc h = extract-IsDone ds d a (hc refl) h

  fetch_archive-IsDone :
      (ds : Dataset) (d : Dir) (r : Result E (Bytes × Option E))
      → IsArchive ds.archive_ext
      → IsDone ds (fetch_archive w ds d r)
  fetch_archive-IsDone ds d (err e) a h = absurd (ground (arith, h))
  fetch_archive-IsDone ds d (ok body) a h =
      downloaded-IsDone ds (copy_to w (archive_of ds) body d) a
        (λ hc e.
          ap (λ f. is_some (find (copy_to w (archive_of ds) body d).0 f))
            (sym (archive_of-curr ds e))
          ∙ created-HasFile (w.fault create_file (archive_of ds)) (archive_of ds) body d hc)
        h

  get_archive-IsDone :
      (ds : Dataset) (d : Dir) (r : Result E Bool)
      → IsArchive ds.archive_ext
      → (r ≡ ok true → HasFile d (archive_of ds))
      → IsDone ds (get_archive w ds d r)
  get_archive-IsDone ds d (err e) a hr h = absurd (ground (arith, h))
  get_archive-IsDone ds d (ok true) a hr h =
      extract-IsDone ds d a
        (λ e. ap (λ f. is_some (find d f)) (sym (archive_of-curr ds e)) ∙ hr refl) h
  get_archive-IsDone ds d (ok false) a hr h = fetch_archive-IsDone ds d w.fetch a h

  get_file-IsDone :
      (ds : Dataset) (d : Dir) (r : Result E Bool)
      → IsArchive ds.archive_ext
      → (r ≡ ok true → HasFile d ds.curr_filename)
      → IsDone ds (get_file w ds d r)
  get_file-IsDone ds d (err e) a hr h = absurd (ground (arith, h))
  get_file-IsDone ds d (ok true) a hr h = hr refl
  get_file-IsDone ds d (ok false) a hr h =
      get_archive-IsDone ds d (file_exists w (archive_of ds) d) a
        (file_exists-HasFile (archive_of ds) d) h

  pub download-IsDone :
      (ds : Dataset) (d : Dir) → IsArchive ds.archive_ext → IsDone ds (download w ds d)
  unfolding download
  download-IsDone ds d a h =
      get_file-IsDone ds d (file_exists w ds.curr_filename d) a
        (file_exists-HasFile ds.curr_filename d) h
