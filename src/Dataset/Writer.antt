-- ===== src/Dataset/Writer.antt =====
-- internal/util/dataset_writer.go: rows are collected into batches of one size. The database is a
-- parameter: `upsert` takes its state and a batch. The log and the pause after a batch are left out.
pub mod Batches
use resolver_addon.Prelude.{
  ℕ, suc, ◌+◌, Bool, true, false, List, [], ◌∷◌, ◌++◌, Option, none, some, leb, ◌==◌, if◌then◌else◌,
  length,
}

-- A write past the end of the buffer panics; the rest are errors of what the writer calls.
pub data Failure {ℓ} (E : Type ℓ) : Type ℓ where
  out_of_range : Failure E
  failed : E → Failure E

-- `items` is the buffer up to `idx`.
pub record Writer {ℓ} (T : Type ℓ) : Type ℓ where
  pub batch_idx : ℕ
  pub batch_size : ℕ
  pub items : List T
  pub is_done : Bool

unfoldable pub new_writer {ℓ} : {T : Type ℓ} → ℕ → Writer T
new_writer batch_size = record {
  batch_idx = 0;
  batch_size = if batch_size == 0 then 500 else batch_size;
  items = [];
  is_done = false;
}

module _ {ℓ κ μ} {T : Type ℓ} {D : Type κ} {E : Type μ} (upsert : D → List T → D × Option E) where
  -- What a call leaves: the writer, the database, and the failure.
  abbrev pub Outcome : Type (ℓ ⊔ κ ⊔ μ)
  Outcome = Writer T × D × Option (Failure E)

  -- After the upsert of a full batch the buffer starts again; after a failed one it stays full.
  unfoldable pub flush : Writer T → D → Outcome
  flush w db =
      let (db', e) = upsert db w.items in
      elim e [ none ↦ (record w { items = [] }, db', none) | some x ↦ (w, db', some (failed x)) ]

  unfoldable pub put : Writer T → D → T → Outcome
  unfolding flush
  put w db x =
      let w' = record w { items = w.items ++ x ∷ [] } in
      let full = flush (record w' { batch_idx = w.batch_idx + 1 }) db in
      if leb w.batch_size (length w.items)
      then (w, db, some out_of_range)
      else if length w'.items == w.batch_size
      then full
      else (w', db, none)

  -- Write; a missing item is passed over.
  unfoldable pub write : Writer T → D → Option T → Outcome
  unfolding put
  write w db none = (w, db, none)
  write w db (some x) = if w.is_done then (w, db, none) else put w db x

  -- Done writes what is left, also if that is nothing.
  unfoldable pub done : Writer T → D → Outcome
  done w db =
      let w' = record w { is_done = true } in
      let (db', e) = upsert db w.items in
      if w.is_done
      then (w, db, none)
      else (w', db', elim e [ none ↦ none | some x ↦ some (failed x) ])

  -- The loop of a caller, which stops at the first failure, and then `Done`.
  unfoldable pub write_all : List (Option T) → Writer T → D → Outcome
  unfolding write done
  write_all [] w db = done w db
  write_all (t ∷ ts) w db =
      let (w', db', e) = write w db t in
      elim e [ none ↦ write_all ts w' db' | some x ↦ (w', db', some x) ]
