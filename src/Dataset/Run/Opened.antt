-- ===== src/Dataset/Run/Opened.antt =====
-- After `Init` without an error, `Process` reads the files that `Init` left.
use resolver_addon.Dataset.Files.{DatasetConfig, Dir, World, archive_of, new_dataset, read_file}
use resolver_addon.Dataset.Files.Get.{init, opened}
use resolver_addon.Dataset.Files.Done.{HasFile}
use resolver_addon.Dataset.Files.Ready.{init-AreReady}
use resolver_addon.Dataset.Process.{Row, State, process, process_all, process_diff}
use resolver_addon.Dataset.Writer.{Writer}
use resolver_addon.Dataset.Run.{rows_of, open_rows, ran, after_init, tsv_process}
use resolver_addon.Prelude.{
  ◌≡◌, ◌≢◌, refl, ap, sym, ◌∙◌, ◌⊎◌, inl, inr, true, false, List, [], Option, none, some, Result,
  ok, Bool-cases, arith,
}
use resolver_addon.Prelude.Affix.{or_else, is_some}
use resolver_addon.Prelude.Assoc.{find}
use resolver_addon.Prelude.Bytes.{Bytes, bytes_eq}

module _ {T E D S : Type 0} (tsv : resolver_addon.Dataset.Process.Dataset T E)
    (upsert : D → List T → D × Option E) (world : World E S)
    (read_rows : Bytes → List (Option Row)) where
  -- `process` opens the current file, and the one before only if it has a name.
  process-opens :
      (o p : Bytes → Result E (List (Option Row))) (prev curr : Bytes) (w : Writer T) (db : D)
      → o curr ≡ p curr
      → (bytes_eq prev [] ≡ false → o prev ≡ p prev)
      → process tsv upsert o prev curr w db ≡ process tsv upsert p prev curr w db
  unfolding process
  process-opens o p prev curr w db hc hp = elim (Bool-cases (bytes_eq prev [])) [
    | inl at ↦ ground (arith, at, hc)
    | inr off ↦ ground (arith, off, hc, hp off)
  ]

  -- The rows of a file that is in the directory.
  abbrev pub left_rows : Dir → Bytes → Result E (List (Option Row))
  left_rows d filename = ok (read_rows (or_else (find d filename) []))

  open_rows-HasFile :
      (d : Dir) (f : Bytes)
      → world.fault read_file f ≡ none
      → HasFile d f
      → open_rows tsv upsert world read_rows d f ≡ left_rows d f
  open_rows-HasFile d f can there =
      ap (λ o. rows_of read_rows (opened world o (find d f))) can ∙ go (find d f) there
    where
      go :
          (o : Option Bytes)
          → is_some o ≡ true
          → rows_of read_rows (opened world none o) ≡ ok (read_rows (or_else o []))
      go none h = absurd (ground (arith, h))
      go (some body) h = refl

  open_prev :
      (d : Dir) (ds : resolver_addon.Dataset.Files.Dataset)
      → ((f : Bytes) → world.fault read_file f ≡ none)
      → ds.prev_filename ≢ archive_of ds
      → (ds.prev_filename ≡ []) ⊎ (ds.prev_filename ≡ archive_of ds) ⊎ HasFile d ds.prev_filename
      → bytes_eq ds.prev_filename [] ≡ false
      → open_rows tsv upsert world read_rows d ds.prev_filename ≡ left_rows d ds.prev_filename
  unfolding bytes_eq
  open_prev d ds can apart (inl e) off =
      absurd (ground (arith, sym (ap (λ s. bytes_eq s []) e) ∙ off))
  open_prev d ds can apart (inr (inl e)) off = absurd (apart e)
  open_prev d ds can apart (inr (inr there)) off =
      open_rows-HasFile d ds.prev_filename (can ds.prev_filename) there

  -- For a new dataset whose Init ends without an error, over a directory where every file can be
  -- read: unless the file before has the name of the current file's archive, Process finds both
  -- files and does with their rows what it does with rows that are given.
  pub tsv_process-left_rows :
      (conf : DatasetConfig) (d : Dir) (w : Writer T) (db : D)
      {ds ds' : resolver_addon.Dataset.Files.Dataset} {d' : Dir}
      → new_dataset conf ≡ some ds
      → init world ds d ≡ some (d', ds', none)
      → ((f : Bytes) → world.fault read_file f ≡ none)
      → ds'.prev_filename ≢ archive_of ds'
      → tsv_process tsv upsert world read_rows ds d w db
        ≡ some (
            ran tsv upsert world read_rows d' ds'
              (process tsv upsert (left_rows d') ds'.prev_filename ds'.curr_filename w db))
  unfolding tsv_process
  tsv_process-left_rows conf d w db {ds} {ds'} {d'} made h can apart =
      let (curr, prev) = init-AreReady world conf d made h in
      ap (λ o. after_init tsv upsert world read_rows o w db) h
      ∙ ap (λ r. some (ran tsv upsert world read_rows d' ds' r))
          (process-opens (open_rows tsv upsert world read_rows d') (left_rows d') ds'.prev_filename
            ds'.curr_filename w db
            (open_rows-HasFile d' ds'.curr_filename (can ds'.curr_filename) curr)
            (open_prev d' ds' can apart prev))
