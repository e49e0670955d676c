-- ===== src/Dataset/Files/Cleanup.antt =====
-- Which files of the directory the steps of internal/util/dataset.go leave alone.
use resolver_addon.Prelude.{
  ◌≡◌, refl, ap, ◌∙◌, Bool, true, false, not, ◌&&◌, ◌||◌, List, [], ◌∷◌, ◌++◌, Option, none, some,
  Result, ok, err, inl, inr, Bool-cases, Option-cases, if◌then◌else◌, arith,
}
use resolver_addon.Prelude.Affix.{has_prefix, is_some}
use resolver_addon.Prelude.Assoc.{find, remove, find-remove}
use resolver_addon.Prelude.Bytes.{Bytes, bytes_eq, bytes_eq_sound}
use resolver_addon.Dataset.Files.{
  Dataset, Dir, World, glob_dir, has_suffix, is_other, matching, or_fault, unlink_file,
}
use resolver_addon.Dataset.Files.Choice.{and_archives, list, list_archives, remove_file, unlinked}
use resolver_addon.Dataset.Files.Get.{clean_listed, cleanup, remove_others}

abbrev pub mem : Bytes → List Bytes → Bool
mem x [] = false
mem x (f ∷ fs) = bytes_eq f x || mem x fs

mem-append : (x : Bytes) (fs gs : List Bytes) → mem x (fs ++ gs) ≡ (mem x fs || mem x gs)
mem-append x [] gs = refl
mem-append x (f ∷ fs) gs = ground (arith, mem-append x fs gs)

has_suffix_same : (f x p : Bytes) → bytes_eq f x ≡ true → has_suffix f p ≡ has_suffix x p
has_suffix_same f x p at = ap (λ y. has_suffix y p) (bytes_eq_sound f x at)

is_other_same : (ds : Dataset) (f x : Bytes) → bytes_eq f x ≡ true → is_other ds f ≡ is_other ds x
is_other_same ds f x at = ap (is_other ds) (bytes_eq_sound f x at)

mem-matching :
    (x p : Bytes) (d : Dir) → mem x (matching p d) ≡ (is_some (find d x) && has_suffix x p)
unfolding matching find
mem-matching x p [] = refl
mem-matching x p (f ∷ d) = elim (Bool-cases (bytes_eq f.0 x)) [
  | inl at ↦ ground (arith, mem-matching x p d, at, has_suffix_same f.0 x p at)
  | inr off ↦ ground (arith, mem-matching x p d, off)
]

module _ {E T : Type 0} (w : World E T) where
  abbrev pub unlinks : Bytes → Bool
  unlinks x = not (is_some (w.fault unlink_file x))

  unlinks_same : (f x : Bytes) → bytes_eq f x ≡ true → unlinks f ≡ unlinks x
  unlinks_same f x at = ap (λ y. unlinks y) (bytes_eq_sound f x at)

  unlinked_lem :
      (o : Option E) (f : Bytes) (d : Dir)
      → unlinked w o f d ≡ (if not (is_some o) then remove d f else d)
  unlinked_lem none f d = refl
  unlinked_lem (some e) f d = refl

  remove_file_lem :
      (f : Bytes) (d : Dir) → remove_file w f d ≡ (if unlinks f then remove d f else d)
  unfolding remove_file
  remove_file_lem f d = unlinked_lem (w.fault unlink_file f) f d

  pub find-remove_file :
      (f : Bytes) (d : Dir) (x : Bytes)
      → find (remove_file w f d) x ≡ (if bytes_eq f x && unlinks x then none else find d x)
  find-remove_file f d x = elim (Bool-cases (bytes_eq f x)) [
    | inl at ↦ ground (arith, remove_file_lem f d, find-remove d f x, at, unlinks_same f x at)
    | inr off ↦ ground (arith, remove_file_lem f d, find-remove d f x, off)
  ]

  find-remove_others :
      (ds : Dataset) (fs : List Bytes) (d : Dir) (x : Bytes)
      → find (remove_others w ds fs d) x
        ≡ (if mem x fs && is_other ds x && unlinks x then none else find d x)
  unfolding remove_others
  find-remove_others ds [] d x = refl
  find-remove_others ds (f ∷ fs) d x = elim (Bool-cases (bytes_eq f x)) [
    | inl at ↦ ground (
      arith,
      at,
      is_other_same ds f x at,
      find-remove_file f d x,
      find-remove_others ds fs d x,
      find-remove_others ds fs (remove_file w f d) x,
    )
    | inr off ↦ ground (
      arith,
      off,
      find-remove_file f d x,
      find-remove_others ds fs d x,
      find-remove_others ds fs (remove_file w f d) x,
    )
  ]

  abbrev pub is_listed : Dataset → Bytes → Bool
  is_listed ds x =
      has_suffix x (b'-' ∷ ds.name)
      || (not (bytes_eq ds.archive_ext []) && has_suffix x (b'-' ∷ ds.name ++ ds.archive_ext))

  abbrev pub left_of : Dataset → Dir → Bytes → Option Bytes
  left_of ds d x =
      let is_used = has_prefix x ds.curr_filename || has_prefix x ds.prev_filename in
      if is_listed ds x && not is_used && unlinks x then none else find d x

  abbrev IsListing : Dataset → Dir → Bytes → List Bytes → Type 0
  IsListing ds d x fs = mem x fs ≡ (is_some (find d x) && is_listed ds x)

  and_archives-IsListing :
      (ds : Dataset) (d : Dir) (x : Bytes) (o : Option E) {fs : List Bytes}
      → bytes_eq ds.archive_ext [] ≡ false
      → and_archives w
          (matching (b'-' ∷ ds.name) d)
          (or_fault o (matching (b'-' ∷ ds.name ++ ds.archive_ext) d))
        ≡ ok fs
      → IsListing ds d x fs
  and_archives-IsListing ds d x (some e) off h = absurd (ground (arith, h))
  and_archives-IsListing ds d x none off h = ground (
    arith,
    off,
    h,
    mem-append x (matching (b'-' ∷ ds.name) d) (matching (b'-' ∷ ds.name ++ ds.archive_ext) d),
    mem-matching x (b'-' ∷ ds.name) d,
    mem-matching x (b'-' ∷ ds.name ++ ds.archive_ext) d,
  )

  list_archives-IsListing :
      (ds : Dataset) (d : Dir) (x : Bytes) (o : Option E) {fs : List Bytes}
      → list_archives w ds true d (or_fault o (matching (b'-' ∷ ds.name) d)) ≡ ok fs
      → IsListing ds d x fs
  list_archives-IsListing ds d x (some e) h = absurd (ground (arith, h))
  list_archives-IsListing ds d x none h = elim (Bool-cases (bytes_eq ds.archive_ext [])) [
    | inl at ↦ ground (arith, at, h, mem-matching x (b'-' ∷ ds.name) d)
    | inr off ↦
        and_archives-IsListing ds d x (w.fault glob_dir (b'-' ∷ ds.name ++ ds.archive_ext)) off
          (ground (arith, off, h))
  ]

  remove_others-left :
      (ds : Dataset) (d : Dir) (x : Bytes) (fs : List Bytes)
      → IsListing ds d x fs
      → find (remove_others w ds fs d) x ≡ left_of ds d x
  remove_others-left ds d x fs e = find-remove_others ds fs d x ∙ elim (Option-cases (find d x)) [
    | inl out ↦ ground (arith, e, out)
    | inr (body, there) ↦ ground (arith, e, there)
  ]

  clean_listed-left :
      (ds : Dataset) (d : Dir) (x : Bytes) (r : Result E (List Bytes))
      → ((fs : List Bytes) → r ≡ ok fs → IsListing ds d x fs)
      → (clean_listed w ds d r).1 ≡ none
      → find (clean_listed w ds d r).0 x ≡ left_of ds d x
  clean_listed-left ds d x (err e) hr h = absurd (ground (arith, h))
  clean_listed-left ds d x (ok fs) hr h = remove_others-left ds d x fs (hr fs refl)

  -- A cleanup that lists the directory removes the files of the dataset, archives included, that
  -- start with neither of its two names, those that cannot be removed excepted, and no other file.
  pub find-cleanup :
      (ds : Dataset) (d : Dir) (x : Bytes)
      → (cleanup w ds d).1 ≡ none
      → find (cleanup w ds d).0 x ≡ left_of ds d x
  unfolding cleanup list
  find-cleanup ds d x h =
      clean_listed-left ds d x (list w ds true d)
        (λ fs e. list_archives-IsListing ds d x (w.fault glob_dir (b'-' ∷ ds.name)) e) h
