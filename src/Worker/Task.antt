-- ===== src/Worker/Task.antt =====
-- The task function of `NewWorker` in internal/worker/worker.go, with the function that the scheduler
-- calls on its error. The job log (jobTracker), the advisory lock, the clock and the executor are
-- parameters. The wait before a run only sleeps, and is left out; so are the logs.
use resolver_addon.Prelude.{
  ℕ, zero, suc, ◌+◌, Bool, not, ◌&&◌, ◌||◌, [], Option, none, some, Result, ok, err, leb,
  if◌then◌else◌,
}
use resolver_addon.Prelude.Bytes.{Bytes, codes, bytes_eq}

pub record ParsedJobLog : Type 0 where
  pub id : Bytes
  pub status : Bytes
  pub error : Bytes
  pub created_at : ℕ
  pub updated_at : ℕ

-- The job log of the worker, in the state `D` of the database.
pub record Tracker (D E : Type 0) : Type 0 where
  pub get_last : D → D × Result E (Option ParsedJobLog)
  pub set : D → (id status error : Bytes) → D × Option E
  pub show_error : E → Bytes

pub record WorkerConfig : Type 0 where
  pub interval : ℕ
  pub heartbeat_interval : ℕ
  pub run_exclusive : Bool

pub data Lock : Type 0 where
  not_created not_acquired acquired : Lock

-- How the executor ends; a panic is an error of its own.
pub data Executed (E : Type 0) : Type 0 where
  finished : Executed E
  failed : E → Executed E
  panicked : E → Executed E

-- What one run meets: `beats` is the number of heartbeats while the executor runs.
pub record Run (D E : Type 0) : Type 0 where
  pub should_skip : Bool
  pub lock : Lock
  pub released : Bool
  pub now : ℕ
  pub stamp : Bytes
  pub beats : ℕ
  pub execute : D → D × Executed E

-- min(conf.HeartbeatInterval, 10s)
abbrev pub tolerance : ℕ → ℕ
tolerance heartbeat_interval = if leb heartbeat_interval 10 then heartbeat_interval else 10

-- time.Since(t) >= dur
abbrev pub has_passed : ℕ → ℕ → ℕ → Bool
has_passed now t dur = leb (t + dur) now

module _ {D E : Type 0} (tracker : Tracker D E) (conf : WorkerConfig) (run : Run D E) where
  -- The last job is still running.
  abbrev pub is_alive : ParsedJobLog → Bool
  is_alive job =
      bytes_eq job.status (codes "started")
      && not (
          has_passed run.now job.updated_at
            (conf.heartbeat_interval + tolerance conf.heartbeat_interval))

  -- The last job is done, and the next is not due.
  abbrev pub is_recent : ParsedJobLog → Bool
  is_recent job =
      bytes_eq job.status (codes "done") && not (has_passed run.now job.created_at conf.interval)

  -- `inl`: go on, in this state; otherwise return, with an error or without.
  pub data Guard : Type 0 where
    go_on : D → Guard
    return : D → Option E → Guard

  -- A failure to mark the old job is logged only.
  abbrev pub check_job : D → ParsedJobLog → Guard
  check_job d job =
      if is_alive job || is_recent job
      then return d none
      else if bytes_eq job.status (codes "started")
      then go_on (tracker.set d job.id (codes "failed") (codes "heartbeat timed out")).0
      else go_on d

  abbrev pub check_last : D → Result E (Option ParsedJobLog) → Guard
  check_last d (err e) = return d (some e)
  check_last d (ok none) = go_on d
  check_last d (ok (some job)) = check_job d job

  unfoldable pub guard : D → Guard
  guard d =
      let (d', last) = tracker.get_last d in
      if conf.run_exclusive then check_last d' last else go_on d

  -- An error of a heartbeat is logged only.
  unfoldable pub heartbeats : ℕ → D → D
  heartbeats zero d = d
  heartbeats (suc n) d = heartbeats n (tracker.set d run.stamp (codes "started") []).0

  -- What is left of a run: the id of its job, the state, and the error it returns.
  abbrev pub Left : Type 0
  Left = Bytes × D × Option E

  abbrev pub executed : D × Executed E → Left
  executed (d, finished) =
      let (d', e) = tracker.set d run.stamp (codes "done") [] in (run.stamp, d', e)
  executed (d, failed e) = (run.stamp, d, some e)
  executed (d, panicked e) = (run.stamp, d, some e)

  -- A lock that is not released ends the run without an error.
  abbrev pub started : D × Option E → Left
  started (d, some e) = (run.stamp, d, some e)
  started (d, none) =
      if run.released then executed (run.execute (heartbeats run.beats d)) else (run.stamp, d, none)

  -- `job_id` is the one before the run, which is empty.
  abbrev pub guarded : Bytes → Guard → Left
  guarded job_id (return d e) = (job_id, d, e)
  guarded job_id (go_on d) = started (tracker.set d run.stamp (codes "started") [])

  abbrev pub locked : Bytes → Lock → D → Left
  locked job_id acquired d = guarded job_id (guard d)
  locked job_id _ d = (job_id, d, none)

  -- The body, up to the deferred function.
  unfoldable pub body : Bytes → D → Left
  unfolding guard heartbeats
  body job_id d =
      if run.should_skip || not (bytes_eq job_id [])
      then (job_id, d, none)
      else locked job_id run.lock d

  -- The deferred function: after a run without an error there is no job.
  abbrev pub cleared : Bool → Left → Left
  cleared already_running (job_id, d, none) = (if already_running then job_id else [], d, none)
  cleared already_running (job_id, d, some e) = (job_id, d, some e)

  unfoldable pub task_func : Bytes → D → Left
  unfolding body
  task_func job_id d = cleared (not (bytes_eq job_id [])) (body job_id d)

  -- ErrFunc; without a job id the tracker panics, and that is recovered from.
  unfoldable pub err_func : Bytes → D → E → Bytes × D
  err_func job_id d e = (
    [],
    if bytes_eq job_id []
        then d
        else (tracker.set d job_id (codes "failed") (tracker.show_error e)).0,
  )

  abbrev pub reported : Left → Bytes × D
  reported (job_id, d, none) = (job_id, d)
  reported (job_id, d, some e) = err_func job_id d e

  -- One call by the scheduler.
  unfoldable pub tick : Bytes → D → Bytes × D
  unfolding task_func err_func
  tick job_id d = reported (task_func job_id d)
