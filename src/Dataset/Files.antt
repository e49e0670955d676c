-- ===== src/Dataset/Files.antt =====
-- internal/util/dataset.go: which files of a dataset are read, and how `Init` gets them. The
-- download directory is a map from names to bytes. Its files are listed in the order of the map;
-- the directory's own order does not matter, since the sort behind it is a parameter.
pub mod Choice
pub mod Get
pub mod Cleanup
pub mod Download
pub mod Done
pub mod Prepared
pub mod Ready
pub mod Examples
use resolver_addon.Prelude.{
  ℕ, zero, suc, ◌≡◌, refl, Bool, true, false, not, ◌&&◌, ◌||◌, List, [], ◌∷◌, ◌++◌, map, Option,
  none, some, Result, ok, err, if◌then◌else◌,
}
use resolver_addon.Prelude.Affix.{has_prefix, is_some}
use resolver_addon.Prelude.Assoc.{Assoc, find, store, remove}
use resolver_addon.Prelude.Bytes.{Bytes, codes, bytes_eq}
use resolver_addon.Prelude.TextOrder.{Order, same}

abbrev pub Dir : Type 0
Dir = Assoc Bytes

-- The calls of the file system that can fail by themselves.
pub data FileOp : Type 0 where
  ensure_dir glob_dir stat_file read_file create_file unlink_file : FileOp

pub data DatasetError (E : Type 0) : Type 0 where
  failed_to_list : E → DatasetError E
  failed_to_check : E → DatasetError E
  plain : E → DatasetError E

-- s[0:n]; none: s is shorter, and the slice panics
unfoldable pub first_bytes : ℕ → Bytes → Option Bytes
first_bytes zero s = some []
first_bytes (suc n) [] = none
first_bytes (suc n) (c ∷ s) = elim (first_bytes n s) [ none ↦ none | some p ↦ some (c ∷ p) ]

-- strings.HasSuffix(s, p)
unfoldable pub has_suffix : Bytes → Bytes → Bool
has_suffix [] p = bytes_eq [] p
has_suffix (c ∷ s) p = bytes_eq (c ∷ s) p || has_suffix s p

pub record Dataset : Type 0 where
  pub name : Bytes
  pub archive_ext : Bytes
  pub curr_filename : Bytes
  pub prev_filename : Bytes
  pub download_dir_exists : Bool

-- strings.TrimSuffix(s, p)
unfoldable pub trim_suffix : Bytes → Bytes → Bytes
trim_suffix [] p = []
trim_suffix (c ∷ s) p = let rest = trim_suffix s p in if bytes_eq (c ∷ s) p then [] else c ∷ rest

pub record DatasetConfig : Type 0 where
  pub archive : Bytes
  pub download_dir : Bytes
  pub name : Bytes
  pub url_base : Bytes

-- The extension of an archive; another one panics.
unfoldable pub archive_ext_of : Bytes → Option Bytes
archive_ext_of archive =
    if bytes_eq archive []
    then some []
    else if bytes_eq archive (codes "gz") || bytes_eq archive (codes "xz")
    then some (b'.' ∷ archive)
    else none

-- What a config without a name takes: filepath.Base of its URL.
abbrev pub name_of : DatasetConfig → Bytes
name_of conf = if bytes_eq conf.name [] then conf.url_base else conf.name

abbrev pub empty_dataset : Bytes → Bytes → Dataset
empty_dataset name ext = record {
  name = name;
  archive_ext = ext;
  curr_filename = [];
  prev_filename = [];
  download_dir_exists = false;
}

abbrev pub with_ext : DatasetConfig → Option Bytes → Option Dataset
with_ext conf none = none
with_ext conf (some ext) = some (
    empty_dataset
      (if bytes_eq conf.archive [] then name_of conf else trim_suffix (name_of conf) ext) ext)

-- NewDataset; none is a panic
unfoldable pub new_dataset : DatasetConfig → Option Dataset
unfolding archive_ext_of trim_suffix
new_dataset conf =
    if bytes_eq conf.download_dir [] then none else with_ext conf (archive_ext_of conf.archive)

-- What the dataset calls outside: the file system, the clock, the download and the unpacking. A
-- body comes with the error that ended it. `sort_func` is slices.SortFunc, whose comparison
-- changes the directory and may panic.
pub record World (E T : Type 0) : Type 0 where
  pub fault : FileOp → Bytes → Option E
  pub not_exist : E
  pub parse_stamp : Bytes → Result E T
  pub compare_time : T → T → Order
  pub is_stale_time : T → Bool
  pub stamp : Bytes
  pub later_stamp : Bytes
  pub sort_func :
      (Bytes → Bytes → Dir → Option (Dir × Order)) → List Bytes → Dir → Option (Dir × List Bytes)
  pub fetch : Result E (Bytes × Option E)
  pub gunzip : Bytes → Result E (Bytes × Option E)
  pub unxz : Bytes → Bytes × Option E

-- The names with a suffix.
unfoldable pub matching : Bytes → Dir → List Bytes
unfolding has_suffix
matching pattern [] = []
matching pattern (f ∷ d) =
    let rest = matching pattern d in if has_suffix f.0 pattern then f.0 ∷ rest else rest

abbrev pub last_of : List Bytes → Bytes
last_of [] = []
last_of (f ∷ []) = f
last_of (f ∷ g ∷ fs) = last_of (g ∷ fs)

abbrev pub last_but_one : List Bytes → Bytes
last_but_one [] = []
last_but_one (f ∷ []) = []
last_but_one (f ∷ g ∷ []) = f
last_but_one (f ∷ g ∷ h ∷ fs) = last_but_one (g ∷ h ∷ fs)

abbrev pub archive_of : Dataset → Bytes
archive_of ds = ds.curr_filename ++ ds.archive_ext

abbrev pub is_other : Dataset → Bytes → Bool
is_other ds filename =
    not (has_prefix filename ds.curr_filename || has_prefix filename ds.prev_filename)

abbrev pub or_fault : {E A : Type 0} → Option E → A → Result E A
or_fault none a = ok a
or_fault (some e) a = err e
