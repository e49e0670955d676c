-- ===== src/Worker/Examples.antt =====
-- Runs of a queue of two items and of a worker.
use resolver_addon.Prelude.{
  ℕ, ◌≡◌, refl, true, false, List, [], ◌∷◌, ◌++◌, Option, none, some, ok, ◌⊎◌,
}
use resolver_addon.Prelude.Assoc.{find, store, remove}
use resolver_addon.Prelude.Bytes.{Bytes, codes, bytes_eq}
use resolver_addon.Worker.Kept.{IsTaken, process_group-keeps}
use resolver_addon.Worker.Queue.{WorkerQueue, Items, queue, process, process_group}
use resolver_addon.Worker.Runs.{tick-exclusive}
use resolver_addon.Worker.Task.{ParsedJobLog, Tracker, WorkerConfig, acquired, finished, Run, tick}

-- Items are texts, and each is its own key.
abbrev ids : WorkerQueue Bytes
ids = record {
  get_key = λ id. id;
  get_group_key = λ id. codes "g";
  transform = λ id. id;
  debounce_time = 5;
  disabled = false;
}

abbrev waiting : Items Bytes
waiting =
    (codes "a", record { v = codes "a"; t = 6 }) ∷ (codes "b", record { v = codes "b"; t = 9 }) ∷ []

queued : queue ids 4 (codes "b") (queue ids 1 (codes "a") []) ≡ waiting
unfolding queue store bytes_eq
queued = refl

-- The function takes every item, and keeps what it has seen.
abbrev take_item : List Bytes → Bytes → List Bytes × Option (Unit {0})
take_item seen id = (seen ++ id ∷ [], none)

abbrev clock : Bytes → ℕ
clock k = 8

-- Only the first item is due.
one_due :
    process ids clock take_item ([], waiting)
    ≡ (codes "a" ∷ [], (codes "b", record { v = codes "b"; t = 9 }) ∷ [])
unfolding process remove bytes_eq
one_due = refl

abbrev take_group : ℕ → Bytes → List Bytes → ℕ × Option (Unit {0})
take_group n g group = (n, none)

process_group-keeps_example :
    (find (process_group ids clock take_group (0, waiting)).1 (codes "a")
      ≡ find waiting (codes "a"))
    ⊎ IsTaken ids take_group clock waiting (codes "a")
process_group-keeps_example = process_group-keeps ids take_group clock 0 waiting (codes "a")

-- A job log that keeps the last status.
abbrev tracker : Tracker ParsedJobLog (Unit {0})
tracker = record {
  get_last = λ job. (job, ok (some job));
  set = λ job id status error. (record job { id = id; status = status; error = error }, none);
  show_error = λ e. codes "error";
}

abbrev hourly : WorkerConfig
hourly = record { interval = 3600; heartbeat_interval = 5; run_exclusive = true }

abbrev alive_job : ParsedJobLog
alive_job = record {
  id = codes "j";
  status = codes "started";
  error = [];
  created_at = 100;
  updated_at = 200;
}

abbrev at_once : Run ParsedJobLog (Unit {0})
at_once = record {
  should_skip = false;
  lock = acquired;
  released = true;
  now = 205;
  stamp = codes "k";
  beats = 2;
  execute = λ job. (job, finished);
}

tick-exclusive_example :
    (tick tracker hourly at_once [] alive_job ≡ ([], alive_job))
    ⊎ (tick tracker hourly at_once [] alive_job ≡ ([], alive_job))
unfolding bytes_eq
tick-exclusive_example =
    tick-exclusive tracker hourly at_once alive_job alive_job alive_job refl refl refl
