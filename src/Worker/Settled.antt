-- ===== src/Worker/Settled.antt =====
-- Once the run of the start is over, a flag of internal/worker/worker.go tells whether its owner runs.
use mathlib.Core.Path.{subst}
use resolver_addon.Prelude.{◌≡◌, ◌≢◌, refl, sym, ap, ◌∙◌, Bool, true, false, inl, inr, Bool-cases}
use resolver_addon.Prelude.Update.{update-other}
use resolver_addon.Worker.Flags.{Flag, RunningWorker, switch}
use resolver_addon.Worker.Roster.{WorkerId, WorkerId-discrete, Features, hooks, owner}
use resolver_addon.Worker.Turns.{
  TaskId, at_interval, at_startup, RunId, RunId-discrete, Phase, idle, skipped, ending, over,
  entered, waiting, checked, started, Workers, enter, go_on, rest, Step, Steps, Reach, begins,
  skips, waits, passes, starts, takes_job, ends, finishes_skipped, finishes, fails, reports, here,
  next,
}
use resolver_addon.Worker.Owners.{
  is_started, run_of, switch-own, switch-other, enter-other, enter-same, other_worker, AreKept,
  Reach-AreKept,
}

module _ (f : Flag) where
  -- The run of the start is over, and the flag is set exactly if that of the interval is between OnStart and
  -- OnEnd.
  abbrev pub IsSettled : Workers → Type 0
  IsSettled s =
      (s.phase (run_of f at_startup) ≡ over)
      × (s.running f ≡ is_started (s.phase (run_of f at_interval)))

  -- A run of the owner that is not over is that of the interval.
  owned :
      (s : Workers) (r : RunId)
      → s.phase (run_of f at_startup) ≡ over
      → s.phase r ≢ over
      → owner f ≡ r.worker
      → r ≡ run_of f at_interval
  owned s r gone live own = go r.worker r.task own live
    where
      go :
          (w : WorkerId) (k : TaskId)
          → owner f ≡ w
          → s.phase (record { worker = w; task = k }) ≢ over
          → Path RunId (record { worker = w; task = k }) (run_of f at_interval)
      go w at_interval e h = ap (λ v. record { worker = v; task = at_interval }) (sym e)
      go w at_startup e h =
          absurd (h (subst (λ v. s.phase (record { worker = v; task = at_startup }) ≡ over) e gone))

  stays_over :
      (s : Workers) (r : RunId) (p : Phase)
      → s.phase (run_of f at_startup) ≡ over
      → s.phase r ≢ over
      → enter s r p (run_of f at_startup) ≡ over
  stays_over s r p gone live =
      update-other RunId-discrete s.phase r p (run_of f at_startup)
        (λ e. live (ap s.phase e ∙ gone))
      ∙ gone

  -- A run enters a phase, and its hook, if it calls one, has switched the flag to what the phase says.
  enter-IsSettled :
      (s : Workers) (r : RunId) (p : Phase) (running : RunningWorker)
      → s.phase r ≢ over
      → (owner f ≡ r.worker → r ≡ run_of f at_interval → running f ≡ is_started p)
      → (owner f ≢ r.worker → running f ≡ s.running f)
      → IsSettled s
      → (enter s r p (run_of f at_startup) ≡ over)
        × (running f ≡ is_started (enter s r p (run_of f at_interval)))
  enter-IsSettled s r p running live own other (gone, exact) = (
    stays_over s r p gone live,
    elim (WorkerId-discrete (owner f) r.worker) [
      | yes e ↦
          let at = owned s r gone live e in
          own e at
          ∙ sym (
              subst (λ x. is_started (enter s r p x) ≡ is_started p) at
                (ap is_started (enter-same s r p)))
      | no d ↦
          other d
          ∙ exact
          ∙ sym (enter-other s r (run_of f at_interval) p (other_worker r (run_of f at_interval) d))
    ],
  )

  go_on-IsSettled :
      (s : Workers) (r : RunId) (p q : Phase)
      → s.phase r ≡ q
      → q ≢ over
      → is_started q ≡ is_started p
      → IsSettled s
      → IsSettled (go_on s r p)
  go_on-IsSettled s r p q h live e settled =
      enter-IsSettled s r p s.running (λ gone. live (sym h ∙ gone))
        (λ own at. settled.1 ∙ ap (λ x. is_started (s.phase x)) (sym at) ∙ ap is_started h ∙ e)
        (λ d. refl) settled

  -- A run that calls a hook.
  switch-IsSettled :
      (s : Workers) (r : RunId) (b : Bool) (p q : Phase)
      → s.phase r ≡ q
      → q ≢ over
      → (r.task ≡ at_interval → b ≡ is_started p)
      → IsSettled s
      → (enter s r p (run_of f at_startup) ≡ over)
        × (switch (hooks r.worker).own_flag b s.running f
            ≡ is_started (enter s r p (run_of f at_interval)))
  switch-IsSettled s r b p q h live e settled =
      enter-IsSettled s r p (switch (hooks r.worker).own_flag b s.running)
        (λ gone. live (sym h ∙ gone))
        (λ own at. switch-own r.worker b s.running f own ∙ e (ap (λ x. x.task) at))
        (switch-other r.worker b s.running f) settled

  rest_not_started : (k : TaskId) → false ≡ is_started (rest k)
  rest_not_started at_interval = refl
  rest_not_started at_startup = refl

  idle_not_over : idle ≢ over
  idle_not_over e = cc

  skipped_not_over : skipped ≢ over
  skipped_not_over e = cc

  ending_not_over : ending ≢ over
  ending_not_over e = cc

  entered_not_over : (b : Bool) → entered b ≢ over
  entered_not_over b e = cc

  waiting_not_over : (b : Bool) → waiting b ≢ over
  waiting_not_over b e = cc

  checked_not_over : (b : Bool) → checked b ≢ over
  checked_not_over b e = cc

  started_not_over : (b : Bool) → started b ≢ over
  started_not_over b e = cc

  module _ (c : Features) where
    Step-IsSettled : {s t : Workers} → Step c s t → IsSettled s → IsSettled t
    Step-IsSettled {s} (begins r _ _ h) k =
        go_on-IsSettled s r (entered (s.has_job r.worker)) idle h idle_not_over refl k
    Step-IsSettled {s} (skips r b h) k =
        go_on-IsSettled s r skipped (entered b) h (entered_not_over b) refl k
    Step-IsSettled {s} (waits r b h) k =
        go_on-IsSettled s r (waiting b) (entered b) h (entered_not_over b) refl k
    Step-IsSettled {s} (passes r b h _) k =
        go_on-IsSettled s r (checked b) (waiting b) h (waiting_not_over b) refl k
    Step-IsSettled {s} (starts r b h) k =
        switch-IsSettled s r true (started b) (checked b) h (checked_not_over b) (λ e. refl) k
    Step-IsSettled {s} (takes_job r h) k = k
    Step-IsSettled {s} (ends r b h) k =
        go_on-IsSettled s r ending (started b) h (started_not_over b) refl k
    Step-IsSettled {s} (finishes_skipped r h) k =
        switch-IsSettled s r false (rest r.task) skipped h skipped_not_over
          (λ e. rest_not_started r.task) k
    Step-IsSettled {s} (finishes r h) k =
        switch-IsSettled s r false (rest r.task) ending h ending_not_over
          (λ e. rest_not_started r.task) k
    Step-IsSettled {s} (fails r h) k =
        switch-IsSettled s r false (rest r.task) (started false) h (started_not_over false)
          (λ e. rest_not_started r.task) k
    Step-IsSettled {s} (reports w n h) k = k

    Steps-IsSettled : {s t : Workers} → Steps c s t → IsSettled s → IsSettled t
    Steps-IsSettled here k = k
    Steps-IsSettled (next q st) k = Step-IsSettled st (Steps-IsSettled q k)

    -- A run of the owner would be that of the start, which is over, or that of the interval.
    clear-IsSettled :
        (s : Workers)
        → AreKept s
        → s.phase (run_of f at_startup) ≡ over
        → is_started (s.phase (run_of f at_interval)) ≡ false
        → s.running f ≡ false
    clear-IsSettled s kept gone quiet = elim (Bool-cases (s.running f)) [
      | inr off ↦ off
      | inl on ↦ let (k, at) = kept f on in absurd (go k at)
    ]
      where
        go : (k : TaskId) → is_started (s.phase (run_of f k)) ≡ true → ⊥
        go at_interval at = let p : false ≡ true = sym quiet ∙ at in cc
        go at_startup at = let p : false ≡ true = sym (ap is_started gone) ∙ at in cc

    -- From a state that the workers reach, where the run of the start of a flag's owner is over and that of the
    -- interval is not between OnStart and OnEnd: in every later state the flag is set exactly if the run of
    -- the interval is between OnStart and OnEnd.
    pub settled-exact :
        (s t : Workers)
        → Reach c s
        → s.phase (run_of f at_startup) ≡ over
        → is_started (s.phase (run_of f at_interval)) ≡ false
        → Steps c s t
        → t.running f ≡ is_started (t.phase (run_of f at_interval))
    settled-exact s t r gone quiet q =
        (Steps-IsSettled q (gone, clear-IsSettled s (Reach-AreKept c s r) gone quiet ∙ sym quiet)).1
