-- ===== src/Dataset/Writer/Batches.antt =====
-- The batches that a database sees which takes every one of them.
use mathlib.Core.List.{flatten}
use mathlib.Core.Path.{subst}
use resolver_addon.Dataset.Writer.{Writer, new_writer, put, write, done, write_all}
use resolver_addon.Prelude.{
  ℕ, ◌<◌, ◌≡◌, refl, false, List, [], ◌∷◌, ◌++◌, Option, none, some, arith, leb, ◌==◌, length, All,
  All-append, append_assoc, append-nil,
}
use resolver_addon.Prelude.{◌∙◌, sym, ap, length-append, Bool-cases, inl, inr}

module _ {ℓ} {T : Type ℓ} where
  -- A database that keeps the batches in order.
  abbrev pub record_batch : List (List T) → List T → List (List T) × Option (Unit {0})
  record_batch db batch = (db ++ batch ∷ [], none)

  -- The items that are there.
  abbrev pub present : List (Option T) → List T
  present [] = []
  present (none ∷ ts) = present ts
  present (some x ∷ ts) = x ∷ present ts

  -- The state between two writes of a run.
  pub record IsOpen (n : ℕ) (w : Writer T) (db : List (List T)) : Type ℓ where
    pub size : w.batch_size ≡ n
    pub room : length w.items < n
    pub running : w.is_done ≡ false
    pub full : All (λ b. length b ≡ n) db

  -- All items so far, in order.
  abbrev seen : Writer T → List (List T) → List T
  seen w db = flatten db ++ w.items

  flatten-snoc : (db : List (List T)) (b : List T) → flatten (db ++ b ∷ []) ≡ flatten db ++ b
  unfolding flatten
  flatten-snoc [] b = append-nil b
  flatten-snoc (a ∷ db) b = rw (flatten-snoc db b) (sym (append_assoc a (flatten db) b))

  room_left :
      (n : ℕ) (w : Writer T) (db : List (List T))
      → IsOpen n w db
      → leb w.batch_size (length w.items) ≡ false
  room_left n w db h = ground arith

  put-IsOpen :
      (n : ℕ) (w : Writer T) (db : List (List T)) (x : T)
      → IsOpen n w db
      → ((put record_batch w db x).2 ≡ none)
        × IsOpen n (put record_batch w db x).0 (put record_batch w db x).1
        × (seen (put record_batch w db x).0 (put record_batch w db x).1 ≡ seen w db ++ x ∷ [])
  unfolding put
  put-IsOpen n w db x h = elim (Bool-cases (length (w.items ++ x ∷ []) == w.batch_size)) [
    | inl full ↦
        rw (room_left n w db h, full)
          (
            refl,
            record {
              size = h.size;
              room = omega (arith, h.room);
              running = h.running;
              full = All-append _ db _ h.full (ground arith, tt);
            },
            append-nil _
                ∙ flatten-snoc db (w.items ++ x ∷ [])
                ∙ sym (append_assoc (flatten db) w.items (x ∷ [])),
          )
    | inr more ↦
        rw (room_left n w db h, more)
          (
            refl,
            record {
              size = h.size;
              room = ground (arith, length-append w.items (x ∷ []));
              running = h.running;
              full = h.full;
            },
            sym (append_assoc (flatten db) w.items (x ∷ [])),
          )
  ]

  -- What a database holds in the end: full batches, and a last one that is not full.
  pub IsBatched : ℕ → List T → List (List T) → Type ℓ
  IsBatched n items db =
      (full : List (List T)) × (last : List T) × (db ≡ full ++ last ∷ [])
      × All (λ b. length b ≡ n) full
      × (length last < n)
      × (flatten db ≡ items)

  done_lem :
      (n : ℕ) (w : Writer T) (db : List (List T))
      → IsOpen n w db
      → ((done record_batch w db).2 ≡ none) × IsBatched n (seen w db) (done record_batch w db).1
  unfolding done IsBatched
  done_lem n w db h =
      rw h.running (refl, (db, w.items, refl, h.full, h.room, flatten-snoc db w.items))

  write-none : (w : Writer T) (db : List (List T)) → write record_batch w db none ≡ (w, db, none)
  unfolding write
  write-none w db = refl

  write-some :
      (n : ℕ) (w : Writer T) (db : List (List T)) (x : T)
      → IsOpen n w db
      → write record_batch w db (some x) ≡ put record_batch w db x
  unfolding write
  write-some n w db x h = rw h.running

  write_all_step :
      (ts : List (Option T)) (w : Writer T) (db : List (List T)) (t : Option T)
      → (write record_batch w db t).2 ≡ none
      → write_all record_batch (t ∷ ts) w db
        ≡ write_all record_batch ts (write record_batch w db t).0 (write record_batch w db t).1
  unfolding write_all
  write_all_step ts w db t e = rw (e, write_all)

  -- Every run of writes from an open state succeeds.
  write_all-IsBatched :
      (n : ℕ) (ts : List (Option T)) (w : Writer T) (db : List (List T))
      → IsOpen n w db
      → ((write_all record_batch ts w db).2 ≡ none)
        × IsBatched n (seen w db ++ present ts) (write_all record_batch ts w db).1
  unfolding write_all
  write_all-IsBatched n [] w db h = rw (append-nil (seen w db)) (done_lem n w db h)
  write_all-IsBatched n (none ∷ ts) w db h = write_all-IsBatched n ts w db h
  write_all-IsBatched n (some x ∷ ts) w db h =
      let (fine, next, items) = put-IsOpen n w db x h in
      let (w', db', _) = put record_batch w db x in
      rw
        (
          write_all_step ts w db (some x) (ap (λ o. o.2) (write-some n w db x h) ∙ fine),
          write-some n w db x h,
        )
        (subst
          (λ l.
            ((write_all record_batch ts w' db').2 ≡ none)
            × IsBatched n l (write_all record_batch ts w' db').1)
          (ap (λ l. l ++ present ts) items ∙ append_assoc (seen w db) (x ∷ []) (present ts))
          (write_all-IsBatched n ts w' db' next))

  new_writer-IsOpen :
      (batch_size : ℕ)
      → IsOpen (new_writer {T = T} batch_size).batch_size (new_writer batch_size) []
  unfolding new_writer
  new_writer-IsOpen batch_size = record {
    size = refl;
    room = ground arith;
    running = refl;
    full = tt;
  }

  -- Whatever is written, with missing items passed over: when the database takes every batch, the
  -- run ends without a failure, and the batches hold all items in order. Each batch but the last
  -- has the writer's batch size (500, where none is given), and the last is smaller.
  pub write_all-new_writer :
      (batch_size : ℕ) (ts : List (Option T))
      → ((write_all record_batch ts (new_writer batch_size) []).2 ≡ none)
        × IsBatched
            (new_writer {T = T} batch_size).batch_size
            (present ts)
            (write_all record_batch ts (new_writer batch_size) []).1
  unfolding flatten new_writer
  write_all-new_writer batch_size ts =
      write_all-IsBatched _ ts (new_writer batch_size) [] (new_writer-IsOpen batch_size)
