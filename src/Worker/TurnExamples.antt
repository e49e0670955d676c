-- ===== src/Worker/TurnExamples.antt =====
-- Tests of the workers of internal/worker/worker.go, and schedules in which runs wait and overlap.
use resolver_addon.Prelude.{◌≡◌, refl, true, false, [], ◌∷◌}
use resolver_addon.Prelude.Bytes.{codes}
use resolver_addon.Worker.Flags.{Flag, Flag-discrete, should_wait, wait_for}
use resolver_addon.Worker.Roster.{WorkerId, WorkerId-discrete, Features, hooks, init_workers}
use resolver_addon.Worker.Turns.{
  TaskId, at_interval, at_startup, RunId, RunId-discrete, leave, ending, ends, waiting, checked,
  started, entered, Workers, init, start, finish, go_on, set_job, Steps, Reach, begins, waits,
  passes, starts, takes_job, finishes, here, next,
}
use resolver_addon.Worker.Owners.{is_started, run_of, Reach-AreKept}
use resolver_addon.Worker.Settled.{settled-exact}
use resolver_addon.Worker.Waits.{waiting-starts}

abbrev all_on : Features
all_on = record {
  has_torrent_info = true;
  has_imdb_title = true;
  has_dmm_hashlist = true;
  anime = true;
  bitmagnet = true;
  has_vault = true;
  trakt = false;
  torrent_pusher_disabled = false;
  store_crawler_disabled = true;
  magnet_cache_puller_disabled = false;
  anime_id_mapper_disabled = false;
  letterboxd_list_syncer_disabled = false;
  linked_userdata_addon_reloader_disabled = false;
  torznab_indexer_syncer_disabled = false;
}

workers_of_all_on :
    init_workers all_on
    ≡ WorkerId.sync_imdb_worker ∷ WorkerId.map_anime_id_worker ∷ WorkerId.sync_animeapi_worker
      ∷ WorkerId.sync_anidb_titles_worker ∷ WorkerId.sync_anidb_tvdb_episode_map_worker
      ∷ WorkerId.manami_anime_database_worker ∷ WorkerId.sync_letterboxd_list_worker
      ∷ WorkerId.reload_linked_userdata_addon_worker ∷ WorkerId.sync_stremio_stremio_worker ∷ []
workers_of_all_on = refl

abbrev imdb : WorkerId
imdb = WorkerId.sync_imdb_worker

abbrev api : WorkerId
api = WorkerId.sync_animeapi_worker

abbrev imdb_startup : RunId
imdb_startup = record { worker = imdb; task = at_startup }

abbrev imdb_interval : RunId
imdb_interval = record { worker = imdb; task = at_interval }

abbrev api_startup : RunId
api_startup = record { worker = api; task = at_startup }

-- The IMDB worker is between OnStart and OnEnd, and has its job.
abbrev at_entered : Workers
at_entered = go_on init imdb_startup (entered false)

abbrev at_waiting : Workers
at_waiting = go_on at_entered imdb_startup (waiting false)

abbrev at_checked : Workers
at_checked = go_on at_waiting imdb_startup (checked false)

abbrev at_started : Workers
at_started = start at_checked imdb_startup false

abbrev with_job : Workers
with_job = record at_started { has_job = set_job at_started imdb true }

Reach-with_job : Reach all_on with_job
unfolding wait_for RunId-discrete WorkerId-discrete Flag-discrete
Reach-with_job =
    next
      (next
        (next
          (next (next here (begins imdb_startup refl refl refl)) (waits imdb_startup false refl))
          (passes imdb_startup false refl refl))
        (starts imdb_startup false refl))
      (takes_job imdb_startup refl)

-- The AnimeAPI worker waits for it.
abbrev api_entered : Workers
api_entered = go_on with_job api_startup (entered false)

abbrev api_waiting : Workers
api_waiting = go_on api_entered api_startup (waiting false)

Reach-api_waiting : Reach all_on api_waiting
unfolding wait_for RunId-discrete WorkerId-discrete Flag-discrete
Reach-api_waiting =
    next (next Reach-with_job (begins api_startup refl refl refl)) (waits api_startup false refl)

api_waits : should_wait (hooks api) api_waiting.running ≡ (true, codes "sync_imdb is running")
unfolding wait_for Flag-discrete
api_waits = refl

-- The run of the interval finds the job: it ends at once, and clears the flag of the run that goes on.
abbrev second_entered : Workers
second_entered = go_on with_job imdb_interval (entered true)

abbrev second_waiting : Workers
second_waiting = go_on second_entered imdb_interval (waiting true)

abbrev second_checked : Workers
second_checked = go_on second_waiting imdb_interval (checked true)

abbrev second_started : Workers
second_started = start second_checked imdb_interval true

abbrev second_over : Workers
second_over = finish (leave second_started imdb_interval true ending) imdb_interval

Steps-second_over : Steps all_on with_job second_over
unfolding wait_for RunId-discrete WorkerId-discrete Flag-discrete
Steps-second_over =
    next
      (next
        (next
          (next
            (next (next here (begins imdb_interval refl refl refl)) (waits imdb_interval true refl))
            (passes imdb_interval true refl refl))
          (starts imdb_interval true refl))
        (ends imdb_interval true refl))
      (finishes imdb_interval refl)

flag_lost :
    (second_over.running Flag.sync_imdb ≡ false)
    × (is_started (second_over.phase imdb_startup) ≡ true)
    × ((should_wait (hooks api) second_over.running).0 ≡ false)
unfolding wait_for RunId-discrete WorkerId-discrete Flag-discrete
flag_lost = (refl, refl, refl)

-- The run of the start is over, and another of the interval has begun.
abbrev first_over : Workers
first_over = finish (leave with_job imdb_startup false ending) imdb_startup

Reach-first_over : Reach all_on first_over
unfolding RunId-discrete WorkerId-discrete
Reach-first_over =
    next (next Reach-with_job (ends imdb_startup false refl)) (finishes imdb_startup refl)

abbrev third_entered : Workers
third_entered = go_on first_over imdb_interval (entered false)

Steps-third_entered : Steps all_on first_over third_entered
unfolding RunId-discrete WorkerId-discrete
Steps-third_entered = next here (begins imdb_interval refl refl refl)

Reach-AreKept_example :
    (k : TaskId) × (is_started (with_job.phase (run_of Flag.sync_imdb k)) ≡ true)
unfolding Flag-discrete
Reach-AreKept_example = Reach-AreKept all_on with_job Reach-with_job Flag.sync_imdb refl

settled-exact_example :
    third_entered.running Flag.sync_imdb ≡ is_started (third_entered.phase imdb_interval)
unfolding RunId-discrete
settled-exact_example =
    settled-exact Flag.sync_imdb all_on first_over third_entered Reach-first_over refl refl
      Steps-third_entered

waiting-starts_example :
    (t : Workers) × Steps all_on api_waiting t × (t.phase api_startup ≡ started false)
unfolding RunId-discrete
waiting-starts_example = waiting-starts all_on api_waiting api_startup false Reach-api_waiting refl
