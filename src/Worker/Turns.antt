-- ===== src/Worker/Turns.antt =====
-- How the runs of the workers of internal/worker/worker.go take turns. NewWorker schedules the task function
-- of a worker for its interval, and a clone of that task once at the start, so a worker has two tasks. A
-- task has one run at a time (RunSingleInstance), but the two tasks of a worker overlap. A run that finds a job
-- id (isAlreadyRunning) executes nothing, and still calls OnStart and OnEnd. The steps of all runs
-- interleave. When a run is skipped, when it ends and whether it fails is left open.
use resolver_addon.Prelude.{ℕ, suc, ◌≡◌, Bool, true, false, if◌then◌else◌, ltb}
use resolver_addon.Prelude.Update.{update}
use resolver_addon.Worker.Flags.{RunningWorker, should_wait, on_start, on_end}
use resolver_addon.Worker.Roster.{WorkerId, WorkerId-discrete, Features, hooks, is_enabled}

-- The task of the interval, and its clone that runs once after RunAtStartupAfter.
pub data TaskId : Type 0 where
  at_interval at_startup : TaskId

pub record RunId : Type 0 where
  pub worker : WorkerId
  pub task : TaskId

unfoldable pub RunId-discrete : Discrete RunId
RunId-discrete = hlevel

-- Where the run of a task is, with isAlreadyRunning: before ShouldSkip, in the loop over ShouldWait, between
-- ShouldWait and OnStart, and behind OnStart. In `skipped` and `ending` only OnEnd is to come, in the second
-- of them behind OnStart. `over` is a task that does not run again.
pub data Phase : Type 0 where
  idle over skipped ending : Phase
  entered waiting checked started : Bool → Phase

-- `has_job` is whether jobId is not empty, and `failures` counts the calls of ErrFunc that are to come.
pub record Workers : Type 0 where
  pub running : RunningWorker
  pub has_job : WorkerId → Bool
  pub failures : WorkerId → ℕ
  pub phase : RunId → Phase

abbrev pub enter : Workers → RunId → Phase → RunId → Phase
enter s r p = update RunId-discrete s.phase r p

abbrev pub set_job : Workers → WorkerId → Bool → WorkerId → Bool
set_job s w b = update WorkerId-discrete s.has_job w b

abbrev pub init : Workers
init = record { running = λ f. false; has_job = λ w. false; failures = λ w. 0; phase = λ r. idle }

-- The clone is RunOnce.
abbrev pub rest : TaskId → Phase
rest at_interval = idle
rest at_startup = over

-- The clone is added if RunAtStartupAfter is not 0.
abbrev pub is_scheduled : RunId → Bool
is_scheduled r = elim r.task [
  | at_interval ↦ true
  | at_startup ↦ ltb 0 (hooks r.worker).run_at_startup_after
]

abbrev pub go_on : Workers → RunId → Phase → Workers
go_on s r p = record s { phase = enter s r p }

-- OnStart
abbrev pub start : Workers → RunId → Bool → Workers
start s r already = record s {
  running = on_start (hooks r.worker) s.running;
  phase = enter s r (started already);
}

-- The deferred function without an error empties the job id, but not that of another run.
abbrev pub leave : Workers → RunId → Bool → Phase → Workers
leave s r already p = record s {
  has_job = if already then s.has_job else set_job s r.worker false;
  phase = enter s r p;
}

-- OnEnd
abbrev pub finish : Workers → RunId → Workers
finish s r = record s {
  running = on_end (hooks r.worker) s.running;
  phase = enter s r (rest r.task);
}

-- The deferred function with an error: OnEnd, and ErrFunc is to come.
abbrev pub fail : Workers → RunId → Workers
fail s r = record s {
  running = on_end (hooks r.worker) s.running;
  failures = update WorkerId-discrete s.failures r.worker (suc (s.failures r.worker));
  phase = enter s r (rest r.task);
}

module _ (c : Features) where
  pub data Step (s : Workers) : Workers → Type 0 where
    begins :
        (r : RunId)
        → is_enabled c r.worker ≡ true
        → is_scheduled r ≡ true
        → s.phase r ≡ idle
        → Step s (go_on s r (entered (s.has_job r.worker)))
    skips : (r : RunId) (b : Bool) → s.phase r ≡ entered b → Step s (leave s r b skipped)
    waits : (r : RunId) (b : Bool) → s.phase r ≡ entered b → Step s (go_on s r (waiting b))
    passes :
        (r : RunId) (b : Bool)
        → s.phase r ≡ waiting b
        → (should_wait (hooks r.worker) s.running).0 ≡ false
        → Step s (go_on s r (checked b))
    starts : (r : RunId) (b : Bool) → s.phase r ≡ checked b → Step s (start s r b)
    -- jobId = time.Now()
    takes_job :
        (r : RunId)
        → s.phase r ≡ started false
        → Step s (record s { has_job = set_job s r.worker true })
    ends : (r : RunId) (b : Bool) → s.phase r ≡ started b → Step s (leave s r b ending)
    finishes_skipped : (r : RunId) → s.phase r ≡ skipped → Step s (finish s r)
    finishes : (r : RunId) → s.phase r ≡ ending → Step s (finish s r)
    fails : (r : RunId) → s.phase r ≡ started false → Step s (fail s r)
    -- ErrFunc empties the job id.
    reports :
        (w : WorkerId) (n : ℕ)
        → s.failures w ≡ suc n
        → Step s (record s {
          has_job = set_job s w false;
          failures = update WorkerId-discrete s.failures w n;
        })

  pub data Steps (s : Workers) : Workers → Type 0 where
    here : Steps s s
    next : {t u : Workers} → Steps s t → Step t u → Steps s u

  abbrev pub Reach : Workers → Type 0
  Reach = Steps init

  pub Steps-append : {s t u : Workers} → Steps s t → Steps t u → Steps s u
  Steps-append r here = r
  Steps-append r (next q st) = next (Steps-append r q) st
