-- ===== src/Worker/Flags.antt =====
-- The flags of the running workers in internal/worker/worker.go, and the hooks that `InitWorkers` gives
-- each worker for them. The struct of flags is a function of the name of its field. Every `ShouldWait` is
-- a chain of tests of flags, and is their list.
use resolver_addon.Prelude.{Bool, true, false, List, [], ◌∷◌, Option, none, some, ℕ, if◌then◌else◌}
use resolver_addon.Prelude.Bytes.{Bytes, codes}
use resolver_addon.Prelude.Update.{update}

-- The fields of `running_worker`.
pub data Flag : Type 0 where
  sync_anidb_titles : Flag
  sync_animetosho : Flag
  sync_bitmagnet : Flag
  sync_dmm_hashlist : Flag
  sync_imdb : Flag
  map_anidb_torrent : Flag
  map_imdb_torrent : Flag
  sync_animeapi : Flag
  sync_anidb_tvdb_episode_map : Flag
  sync_manami_anime_database : Flag

unfoldable pub Flag-discrete : Discrete Flag
Flag-discrete = hlevel

-- running_worker
abbrev pub RunningWorker : Type 0
RunningWorker = Flag → Bool

-- The part of a WorkerConfig that says when a worker runs; times are in seconds.
pub record Hooks : Type 0 where
  pub name : Bytes
  pub interval : ℕ
  pub run_at_startup_after : ℕ
  pub run_exclusive : Bool
  pub waits_for : List Flag
  pub own_flag : Option Flag

-- The reason that ShouldWait gives.
abbrev pub reason : Flag → Bytes
reason sync_anidb_titles = codes "sync_anidb_titles is running"
reason sync_animetosho = codes "sync_animetosho is running"
reason sync_bitmagnet = codes "sync_bitmagnet is running"
reason sync_dmm_hashlist = codes "sync_dmm_hashlist is running"
reason sync_imdb = codes "sync_imdb is running"
reason map_anidb_torrent = codes "map_anidb_torrent is running"
reason map_imdb_torrent = codes "map_imdb_torrent is running"
reason sync_animeapi = codes "sync_animeapi is running"
reason sync_anidb_tvdb_episode_map = codes "sync_anidb_tvdb_episode_map is running"
reason sync_manami_anime_database = codes "sync_manami_anime_database is running"

-- ShouldWait: the first flag of the chain that is set.
unfoldable pub wait_for : List Flag → RunningWorker → Bool × Bytes
wait_for [] running = (false, [])
wait_for (f ∷ fs) running =
    let rest = wait_for fs running in if running f then (true, reason f) else rest

abbrev pub should_wait : Hooks → RunningWorker → Bool × Bytes
should_wait h = wait_for h.waits_for

abbrev pub switch : Option Flag → Bool → RunningWorker → RunningWorker
switch none b running = running
switch (some f) b running = update Flag-discrete running f b

abbrev pub on_start : Hooks → RunningWorker → RunningWorker
on_start h = switch h.own_flag true

abbrev pub on_end : Hooks → RunningWorker → RunningWorker
on_end h = switch h.own_flag false
