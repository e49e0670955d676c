-- ===== src/Worker/Runs.antt =====
-- What the calls of the scheduler keep.
use resolver_addon.Prelude.{
  ◌≡◌, refl, ap, ◌∙◌, true, false, ◌||◌, [], none, some, ok, arith, if◌then◌else◌, Bool-cases, ◌⊎◌,
  inl, inr,
}
use resolver_addon.Prelude.Bytes.{Bytes, bytes_eq}
use resolver_addon.Worker.Task.{
  ParsedJobLog, Tracker, WorkerConfig, Lock, Run, is_alive, is_recent, Left, body, cleared,
  task_func, err_func, reported, tick, guard, return, go_on, check_job, check_last, locked, guarded,
  acquired, not_acquired, not_created,
}

module _ {D E : Type 0} (tracker : Tracker D E) (conf : WorkerConfig) (run : Run D E) where
  reported-idle :
      (l : Left tracker conf run)
      → (reported tracker conf run (cleared tracker conf run false l)).0 ≡ []
  unfolding err_func
  reported-idle (job_id, d, none) = refl
  reported-idle (job_id, d, some e) = refl

  -- Whatever a call meets, there is no job when it is over, if there was none before.
  pub tick-idle : (d : D) → (tick tracker conf run [] d).0 ≡ []
  unfolding tick task_func bytes_eq
  tick-idle d = reported-idle (body tracker conf run [] d)

  body-running :
      (job_id : Bytes) (d : D)
      → bytes_eq job_id [] ≡ false
      → body tracker conf run job_id d ≡ (job_id, d, none)
  unfolding body
  body-running job_id d h = ground (arith, h)

  -- While the worker has a job, a second call changes nothing.
  pub tick-running :
      (job_id : Bytes) (d : D)
      → bytes_eq job_id [] ≡ false
      → tick tracker conf run job_id d ≡ (job_id, d)
  unfolding tick task_func
  tick-running job_id d h = rw (body-running job_id d h, h)

  check_job-return :
      (d : D) (job : ParsedJobLog)
      → is_alive tracker conf run job || is_recent tracker conf run job ≡ true
      → check_job tracker conf run d job ≡ return d none
  check_job-return d job h = rw h

  guard-return :
      (d d' : D) (job : ParsedJobLog)
      → conf.run_exclusive ≡ true
      → tracker.get_last d ≡ (d', ok (some job))
      → is_alive tracker conf run job || is_recent tracker conf run job ≡ true
      → guard tracker conf run d ≡ return d' none
  unfolding guard
  guard-return d d' job x e h =
      let last = tracker.get_last d in
      ap (λ b. if b then check_last tracker conf run last.0 last.1 else go_on d) x
      ∙ ap (λ r. check_last tracker conf run r.0 r.1) e
      ∙ check_job-return d' job h

  locked-return :
      (l : Lock) (d d' : D)
      → guard tracker conf run d ≡ return d' none
      → (locked tracker conf run [] l d ≡ ([], d, none))
        ⊎ (locked tracker conf run [] l d ≡ ([], d', none))
  locked-return not_created d d' h = inl refl
  locked-return not_acquired d d' h = inl refl
  locked-return acquired d d' h = inr (ap (guarded tracker conf run []) h)

  body-return :
      (d d' : D)
      → guard tracker conf run d ≡ return d' none
      → (body tracker conf run [] d ≡ ([], d, none)) ⊎ (body tracker conf run [] d ≡ ([], d', none))
  unfolding body bytes_eq
  body-return d d' h = elim (Bool-cases run.should_skip) [
    | inl skip ↦ inl (ground (arith, skip))
    | inr go ↦
        let entered : body tracker conf run [] d ≡ locked tracker conf run [] run.lock d =
          ap (λ b. if b || false then ([], d, none) else locked tracker conf run [] run.lock d)
            go in
        elim (locked-return run.lock d d' h) [
          | inl same ↦ inl (entered ∙ same)
          | inr read ↦ inr (entered ∙ read)
        ]
  ]

  tick-body :
      (d d' : D)
      → body tracker conf run [] d ≡ ([], d', none)
      → tick tracker conf run [] d ≡ ([], d')
  unfolding tick task_func bytes_eq
  tick-body d d' e = ap (λ l. reported tracker conf run (cleared tracker conf run false l)) e

  -- While the last job of an exclusive worker is alive, or has been done within the interval, a call
  -- starts no job: there is none when it is over, and the state is as it was, or as reading the job
  -- log left it. Condition: there was no job before, and the job log can be read.
  pub tick-exclusive :
      (d d' : D) (job : ParsedJobLog)
      → conf.run_exclusive ≡ true
      → tracker.get_last d ≡ (d', ok (some job))
      → is_alive tracker conf run job || is_recent tracker conf run job ≡ true
      → (tick tracker conf run [] d ≡ ([], d)) ⊎ (tick tracker conf run [] d ≡ ([], d'))
  tick-exclusive d d' job x e h = elim (body-return d d' (guard-return d d' job x e h)) [
    | inl same ↦ inl (tick-body d d same)
    | inr read ↦ inr (tick-body d d' read)
  ]
