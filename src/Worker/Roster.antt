-- ===== src/Worker/Roster.antt =====
-- The workers of `InitWorkers` in internal/worker/worker.go, one after the other, with the features
-- that disable them. `is_compiled` is false of those that stand under `if false`.
use resolver_addon.Prelude.{
  Bool, true, false, not, ◌&&◌, ◌||◌, List, [], ◌∷◌, none, some, if◌then◌else◌,
}
use resolver_addon.Prelude.Bytes.{codes}
use resolver_addon.Worker.Flags.{Flag, Hooks}

pub data WorkerId : Type 0 where
  parse_torrent_worker : WorkerId
  push_torrent_worker : WorkerId
  crawl_store_worker : WorkerId
  sync_imdb_worker : WorkerId
  sync_dmm_hashlist_worker : WorkerId
  map_imdb_torrent_worker : WorkerId
  pull_magnet_cache_worker : WorkerId
  map_anime_id_worker : WorkerId
  sync_animeapi_worker : WorkerId
  sync_anidb_titles_worker : WorkerId
  sync_anidb_tvdb_episode_map_worker : WorkerId
  manami_anime_database_worker : WorkerId
  map_anidb_torrent_worker : WorkerId
  sync_letterboxd_list_worker : WorkerId
  sync_bitmagnet_worker : WorkerId
  sync_animetosho_worker : WorkerId
  reload_linked_userdata_addon_worker : WorkerId
  sync_stremio_trakt_worker : WorkerId
  sync_stremio_stremio_worker : WorkerId
  queue_torznab_indexer_sync_worker : WorkerId
  sync_torznab_indexer_worker : WorkerId

unfoldable pub WorkerId-discrete : Discrete WorkerId
WorkerId-discrete = hlevel

-- What the configuration says of features, integrations and queues.
pub record Features : Type 0 where
  pub has_torrent_info : Bool
  pub has_imdb_title : Bool
  pub has_dmm_hashlist : Bool
  pub anime : Bool
  pub bitmagnet : Bool
  pub has_vault : Bool
  pub trakt : Bool
  pub torrent_pusher_disabled : Bool
  pub store_crawler_disabled : Bool
  pub magnet_cache_puller_disabled : Bool
  pub anime_id_mapper_disabled : Bool
  pub letterboxd_list_syncer_disabled : Bool
  pub linked_userdata_addon_reloader_disabled : Bool
  pub torznab_indexer_syncer_disabled : Bool

abbrev pub parse_torrent : Hooks
parse_torrent = record {
  name = codes "parse-torrent";
  interval = 300;
  run_at_startup_after = 0;
  run_exclusive = true;
  waits_for =
      Flag.sync_animetosho ∷ Flag.sync_bitmagnet ∷ Flag.sync_dmm_hashlist ∷ Flag.sync_imdb
      ∷ Flag.map_anidb_torrent ∷ Flag.map_imdb_torrent ∷ [];
  own_flag = none;
}

abbrev pub push_torrent : Hooks
push_torrent = record {
  name = codes "push-torrent";
  interval = 600;
  run_at_startup_after = 0;
  run_exclusive = false;
  waits_for = [];
  own_flag = none;
}

abbrev pub crawl_store : Hooks
crawl_store = record {
  name = codes "crawl-store";
  interval = 1800;
  run_at_startup_after = 0;
  run_exclusive = false;
  waits_for = Flag.sync_dmm_hashlist ∷ Flag.sync_imdb ∷ Flag.map_imdb_torrent ∷ [];
  own_flag = none;
}

abbrev pub sync_imdb : Hooks
sync_imdb = record {
  name = codes "sync-imdb";
  interval = 86400;
  run_at_startup_after = 30;
  run_exclusive = true;
  waits_for = [];
  own_flag = some Flag.sync_imdb;
}

abbrev pub sync_dmm_hashlist : Hooks
sync_dmm_hashlist = record {
  name = codes "sync-dmm-hashlist";
  interval = 21600;
  run_at_startup_after = 30;
  run_exclusive = true;
  waits_for = Flag.sync_imdb ∷ [];
  own_flag = some Flag.sync_dmm_hashlist;
}

abbrev pub map_imdb_torrent : Hooks
map_imdb_torrent = record {
  name = codes "map-imdb-torrent";
  interval = 1800;
  run_at_startup_after = 30;
  run_exclusive = true;
  waits_for =
      Flag.sync_imdb ∷ Flag.sync_animetosho ∷ Flag.sync_bitmagnet ∷ Flag.sync_dmm_hashlist ∷ [];
  own_flag = some Flag.map_imdb_torrent;
}

abbrev pub pull_magnet_cache : Hooks
pull_magnet_cache = record {
  name = codes "pull-magnet-cache";
  interval = 300;
  run_at_startup_after = 0;
  run_exclusive = false;
  waits_for = [];
  own_flag = none;
}

abbrev pub map_anime_id : Hooks
map_anime_id = record {
  name = codes "map-anime-id";
  interval = 600;
  run_at_startup_after = 0;
  run_exclusive = true;
  waits_for = [];
  own_flag = none;
}

abbrev pub sync_animeapi : Hooks
sync_animeapi = record {
  name = codes "sync-animeapi";
  interval = 86400;
  run_at_startup_after = 45;
  run_exclusive = true;
  waits_for = Flag.sync_imdb ∷ [];
  own_flag = some Flag.sync_animeapi;
}

abbrev pub sync_anidb_titles : Hooks
sync_anidb_titles = record {
  name = codes "sync-anidb-titles";
  interval = 86400;
  run_at_startup_after = 30;
  run_exclusive = true;
  waits_for = [];
  own_flag = some Flag.sync_anidb_titles;
}

abbrev pub sync_anidb_tvdb_episode_map : Hooks
sync_anidb_tvdb_episode_map = record {
  name = codes "sync-anidb-tvdb-episode-map";
  interval = 86400;
  run_at_startup_after = 45;
  run_exclusive = true;
  waits_for = Flag.sync_anidb_titles ∷ [];
  own_flag = some Flag.sync_anidb_tvdb_episode_map;
}

abbrev pub manami_anime_database : Hooks
manami_anime_database = record {
  name = codes "manami-anime-database";
  interval = 518400;
  run_at_startup_after = 60;
  run_exclusive = true;
  waits_for = Flag.sync_anidb_titles ∷ Flag.sync_animeapi ∷ [];
  own_flag = some Flag.sync_manami_anime_database;
}

abbrev pub map_anidb_torrent : Hooks
map_anidb_torrent = record {
  name = codes "map-anidb-torrent";
  interval = 1800;
  run_at_startup_after = 90;
  run_exclusive = true;
  waits_for =
      Flag.sync_animetosho ∷ Flag.sync_bitmagnet ∷ Flag.sync_dmm_hashlist ∷ Flag.sync_anidb_titles
      ∷ Flag.sync_anidb_tvdb_episode_map ∷ Flag.sync_animeapi ∷ Flag.sync_manami_anime_database
      ∷ [];
  own_flag = some Flag.map_anidb_torrent;
}

abbrev pub sync_letterboxd_list : Hooks
sync_letterboxd_list = record {
  name = codes "sync-letterboxd-list";
  interval = 300;
  run_at_startup_after = 0;
  run_exclusive = true;
  waits_for = [];
  own_flag = none;
}

abbrev pub sync_bitmagnet : Hooks
sync_bitmagnet = record {
  name = codes "sync-bitmagnet";
  interval = 3600;
  run_at_startup_after = 90;
  run_exclusive = true;
  waits_for = Flag.sync_imdb ∷ Flag.sync_dmm_hashlist ∷ [];
  own_flag = some Flag.sync_bitmagnet;
}

abbrev pub sync_animetosho : Hooks
sync_animetosho = record {
  name = codes "sync-animetosho";
  interval = 86400;
  run_at_startup_after = 90;
  run_exclusive = true;
  waits_for = Flag.sync_imdb ∷ Flag.sync_bitmagnet ∷ Flag.sync_dmm_hashlist ∷ [];
  own_flag = some Flag.sync_animetosho;
}

abbrev pub reload_linked_userdata_addon : Hooks
reload_linked_userdata_addon = record {
  name = codes "reload-linked-userdata-addon";
  interval = 300;
  run_at_startup_after = 0;
  run_exclusive = false;
  waits_for = [];
  own_flag = none;
}

abbrev pub sync_stremio_trakt : Hooks
sync_stremio_trakt = record {
  name = codes "sync-stremio-trakt";
  interval = 1800;
  run_at_startup_after = 300;
  run_exclusive = true;
  waits_for = [];
  own_flag = none;
}

abbrev pub sync_stremio_stremio : Hooks
sync_stremio_stremio = record {
  name = codes "sync-stremio-stremio";
  interval = 1800;
  run_at_startup_after = 300;
  run_exclusive = true;
  waits_for = [];
  own_flag = none;
}

abbrev pub queue_torznab_indexer_sync : Hooks
queue_torznab_indexer_sync = record {
  name = codes "queue-torznab-indexer-sync";
  interval = 600;
  run_at_startup_after = 0;
  run_exclusive = true;
  waits_for = [];
  own_flag = none;
}

abbrev pub sync_torznab_indexer : Hooks
sync_torznab_indexer = record {
  name = codes "sync-torznab-indexer";
  interval = 1800;
  run_at_startup_after = 0;
  run_exclusive = true;
  waits_for = [];
  own_flag = none;
}

abbrev pub hooks : WorkerId → Hooks
hooks parse_torrent_worker = parse_torrent
hooks push_torrent_worker = push_torrent
hooks crawl_store_worker = crawl_store
hooks sync_imdb_worker = sync_imdb
hooks sync_dmm_hashlist_worker = sync_dmm_hashlist
hooks map_imdb_torrent_worker = map_imdb_torrent
hooks pull_magnet_cache_worker = pull_magnet_cache
hooks map_anime_id_worker = map_anime_id
hooks sync_animeapi_worker = sync_animeapi
hooks sync_anidb_titles_worker = sync_anidb_titles
hooks sync_anidb_tvdb_episode_map_worker = sync_anidb_tvdb_episode_map
hooks manami_anime_database_worker = manami_anime_database
hooks map_anidb_torrent_worker = map_anidb_torrent
hooks sync_letterboxd_list_worker = sync_letterboxd_list
hooks sync_bitmagnet_worker = sync_bitmagnet
hooks sync_animetosho_worker = sync_animetosho
hooks reload_linked_userdata_addon_worker = reload_linked_userdata_addon
hooks sync_stremio_trakt_worker = sync_stremio_trakt
hooks sync_stremio_stremio_worker = sync_stremio_stremio
hooks queue_torznab_indexer_sync_worker = queue_torznab_indexer_sync
hooks sync_torznab_indexer_worker = sync_torznab_indexer

abbrev pub is_compiled : WorkerId → Bool
is_compiled parse_torrent_worker = false
is_compiled push_torrent_worker = false
is_compiled crawl_store_worker = true
is_compiled sync_imdb_worker = true
is_compiled sync_dmm_hashlist_worker = false
is_compiled map_imdb_torrent_worker = false
is_compiled pull_magnet_cache_worker = false
is_compiled map_anime_id_worker = true
is_compiled sync_animeapi_worker = true
is_compiled sync_anidb_titles_worker = true
is_compiled sync_anidb_tvdb_episode_map_worker = true
is_compiled manami_anime_database_worker = true
is_compiled map_anidb_torrent_worker = false
is_compiled sync_letterboxd_list_worker = true
is_compiled sync_bitmagnet_worker = false
is_compiled sync_animetosho_worker = false
is_compiled reload_linked_userdata_addon_worker = true
is_compiled sync_stremio_trakt_worker = true
is_compiled sync_stremio_stremio_worker = true
is_compiled queue_torznab_indexer_sync_worker = false
is_compiled sync_torznab_indexer_worker = false

abbrev pub disabled : Features → WorkerId → Bool
disabled c parse_torrent_worker = not c.has_torrent_info
disabled c push_torrent_worker = c.torrent_pusher_disabled
disabled c crawl_store_worker = c.store_crawler_disabled
disabled c sync_imdb_worker = not c.has_imdb_title
disabled c sync_dmm_hashlist_worker = not c.has_dmm_hashlist
disabled c map_imdb_torrent_worker = not c.has_imdb_title
disabled c pull_magnet_cache_worker = c.magnet_cache_puller_disabled
disabled c map_anime_id_worker = c.anime_id_mapper_disabled
disabled c sync_animeapi_worker = not c.anime
disabled c sync_anidb_titles_worker = not c.anime
disabled c sync_anidb_tvdb_episode_map_worker = not c.anime
disabled c manami_anime_database_worker = not c.anime
disabled c map_anidb_torrent_worker = not c.anime
disabled c sync_letterboxd_list_worker = c.letterboxd_list_syncer_disabled
disabled c sync_bitmagnet_worker = not c.bitmagnet
disabled c sync_animetosho_worker = not c.anime
disabled c reload_linked_userdata_addon_worker = c.linked_userdata_addon_reloader_disabled
disabled c sync_stremio_trakt_worker = not c.has_vault || not c.trakt
disabled c sync_stremio_stremio_worker = not c.has_vault
disabled c queue_torznab_indexer_sync_worker = c.torznab_indexer_syncer_disabled
disabled c sync_torznab_indexer_worker = not c.has_vault

-- The worker exists: NewWorker is called, and does not return nil.
abbrev pub is_enabled : Features → WorkerId → Bool
is_enabled c w = is_compiled w && not (disabled c w)

-- The calls, in their order.
abbrev all_workers : List WorkerId
all_workers =
    parse_torrent_worker ∷ push_torrent_worker ∷ crawl_store_worker ∷ sync_imdb_worker
    ∷ sync_dmm_hashlist_worker ∷ map_imdb_torrent_worker ∷ pull_magnet_cache_worker
    ∷ map_anime_id_worker ∷ sync_animeapi_worker ∷ sync_anidb_titles_worker
    ∷ sync_anidb_tvdb_episode_map_worker ∷ manami_anime_database_worker ∷ map_anidb_torrent_worker
    ∷ sync_letterboxd_list_worker ∷ sync_bitmagnet_worker ∷ sync_animetosho_worker
    ∷ reload_linked_userdata_addon_worker ∷ sync_stremio_trakt_worker ∷ sync_stremio_stremio_worker
    ∷ queue_torznab_indexer_sync_worker ∷ sync_torznab_indexer_worker ∷ []

abbrev collect : Features → List WorkerId → List WorkerId
collect c [] = []
collect c (w ∷ ws) = if is_enabled c w then w ∷ collect c ws else collect c ws

-- The workers that InitWorkers collects.
abbrev pub init_workers : Features → List WorkerId
init_workers c = collect c all_workers

-- The worker that sets a flag.
abbrev pub owner : Flag → WorkerId
owner Flag.sync_anidb_titles = sync_anidb_titles_worker
owner Flag.sync_animetosho = sync_animetosho_worker
owner Flag.sync_bitmagnet = sync_bitmagnet_worker
owner Flag.sync_dmm_hashlist = sync_dmm_hashlist_worker
owner Flag.sync_imdb = sync_imdb_worker
owner Flag.map_anidb_torrent = map_anidb_torrent_worker
owner Flag.map_imdb_torrent = map_imdb_torrent_worker
owner Flag.sync_animeapi = sync_animeapi_worker
owner Flag.sync_anidb_tvdb_episode_map = sync_anidb_tvdb_episode_map_worker
owner Flag.sync_manami_anime_database = manami_anime_database_worker
