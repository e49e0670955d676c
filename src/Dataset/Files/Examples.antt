-- ===== src/Dataset/Files/Examples.antt =====
-- A dataset of gzip files with two files in the directory, and a file of another kind.
use resolver_addon.Prelude.Affix.{cut_prefix}
use resolver_addon.Prelude.{
  ◌≡◌, refl, Bool, true, false, List, [], ◌∷◌, ◌++◌, Option, none, some, Result, ok, err,
  if◌then◌else◌,
}
use resolver_addon.Prelude.Assoc.{find}
use resolver_addon.Prelude.Bytes.{Bytes, codes, bytes_eq}
use resolver_addon.Prelude.TextOrder.{Order, less, same, more, compare_bytes}
use resolver_addon.Dataset.Files.{
  Dataset, DatasetConfig, Dir, FileOp, World, archive_of, empty_dataset, new_dataset,
}
use resolver_addon.Dataset.Files.Get.{cleanup, download, init}
use resolver_addon.Dataset.Files.Cleanup.{find-cleanup, left_of}
use resolver_addon.Dataset.Files.Download.{download-keeps}
use resolver_addon.Dataset.Files.Ready.{init-AreReady, AreReady}

abbrev Comparison : Type 0
Comparison = Bytes → Bytes → Dir → Option (Dir × Order)

abbrev cons_result : Bytes → Option (Dir × List Bytes) → Option (Dir × List Bytes)
cons_result y none = none
cons_result y (some (d, l)) = some (d, y ∷ l)

-- A sort that compares each new name from the front.
abbrev insert_by : Comparison → Bytes → List Bytes → Dir → Option (Dir × List Bytes)
insert_by cmp x [] d = some (d, x ∷ [])
insert_by cmp x (y ∷ l) d = elim (cmp x y d) [
  | none ↦ none
  | some r ↦ elim r.1 [
    | less ↦ some (r.0, x ∷ y ∷ l)
    | same ↦ some (r.0, x ∷ y ∷ l)
    | more ↦ cons_result y (insert_by cmp x l r.0)
  ]
]

abbrev sort_by : Comparison → List Bytes → Dir → Option (Dir × List Bytes)
sort_by cmp [] d = some (d, [])
sort_by cmp (x ∷ l) d = elim (sort_by cmp l d) [ none ↦ none | some r ↦ insert_by cmp x r.1 r.0 ]

abbrev no_fault : FileOp → Bytes → Option Bytes
no_fault op f = none

abbrev parse_stamp : Bytes → Result Bytes Bytes
parse_stamp s = ok s

abbrev always : Bytes → Bool
always s = true

abbrev unpacked : Bytes → Bytes × Option Bytes
unpacked s = (codes "news", none)

abbrev pub world : World Bytes Bytes
world = record {
  fault = no_fault;
  not_exist = codes "not found";
  parse_stamp = parse_stamp;
  compare_time = compare_bytes;
  is_stale_time = always;
  stamp = codes "2026-01-02-03";
  later_stamp = codes "2026-01-02-03";
  sort_func = sort_by;
  fetch = ok (codes "packed", none);
  gunzip = λ s. ok (unpacked s);
  unxz = unpacked;
}

abbrev pub conf : DatasetConfig
conf = record { archive = codes "gz"; download_dir = codes "d"; name = codes "x.gz"; url_base = [] }

abbrev pub dataset : Dataset
dataset = empty_dataset (codes "x") (codes ".gz")

abbrev pub chosen_dataset : Dataset
chosen_dataset = record dataset {
  curr_filename = codes "2026-01-02-03-x";
  prev_filename = codes "2026-01-01-03-x";
  download_dir_exists = true;
}

abbrev pub dir : Dir
dir =
    (codes "2026-01-01-03-x", codes "old")
    ∷ (codes "2025-12-31-03-x", codes "older")
    ∷ (codes "note", codes "n")
    ∷ []

abbrev pub dir_after : Dir
dir_after =
    (codes "2026-01-01-03-x", codes "old")
    ∷ (codes "note", codes "n")
    ∷ (codes "2026-01-02-03-x", codes "news")
    ∷ []

pub new_test : new_dataset conf ≡ some dataset
unfolding new_dataset bytes_eq
new_test = refl

pub init_test : init world dataset dir ≡ some (dir_after, chosen_dataset, none)
unfolding init bytes_eq compare_bytes resolver_addon.Prelude.Affix.cut_prefix
init_test = refl

init-AreReady_example : AreReady world dir_after chosen_dataset
init-AreReady_example = init-AreReady world conf dir new_test init_test

cleanup_test : (cleanup world chosen_dataset dir).1 ≡ none
unfolding cleanup bytes_eq
cleanup_test = refl

find-cleanup_example :
    find (cleanup world chosen_dataset dir).0 (codes "2025-12-31-03-x")
    ≡ left_of world chosen_dataset dir (codes "2025-12-31-03-x")
find-cleanup_example = find-cleanup world chosen_dataset dir (codes "2025-12-31-03-x") cleanup_test

apart_test :
    (bytes_eq chosen_dataset.curr_filename (codes "note") ≡ false)
    × (bytes_eq (archive_of chosen_dataset) (codes "note") ≡ false)
unfolding bytes_eq
apart_test = (refl, refl)

download-keeps_example :
    find (download world chosen_dataset dir).0 (codes "note") ≡ find dir (codes "note")
download-keeps_example = download-keeps world chosen_dataset dir (codes "note") apart_test
