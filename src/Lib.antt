-- ===== src/Lib.antt =====
-- StremThru keeps which episodes of a series have been watched, in the format of the Stremio apps, and
-- syncs that between accounts; it loads large public datasets into its database, runs such work in
-- background workers, and reaches other hosts through proxies. This library models these parts of it.
--
-- BitField is stremio/watched_bitfield/bitfield8.go. A bit field is its bytes and its `Length`, which
-- is a field of its own. BitField.get, set_bit, first_index_of, last_index_of, new and with_values are
-- Get, Set, FirstIndexOf, LastIndexOf, NewBitField8 and NewBitField8WithValues; BitField.Codec has
-- MarshalText and UnmarshalText. zlib and base64 are a parameter, the record `Codec`, with their laws.
--
-- Watched is stremio/watched_bitfield/watched_bitfield.go: a bit field over a list of video ids, and
-- its text with an anchor. `realign` and `from_field` are toWatchedBitField, `to_field` is
-- NewWatchedFieldFromWatchedBitField, Watched.Text has the text form. It uses BitField for every bit.
-- The JSON forms are the text in quotes, and are not modelled.
--
-- Dataset is internal/util/dataset_writer.go and tsv_dataset.go. Dataset.Writer collects rows into batches,
-- Dataset.Diff compares two files, Dataset.Process is Process after Init. A file is the list of what
-- its reader gives; the database is a parameter. The choice of the files and their download are in
-- Dataset.Files, and Dataset.Run puts the two together.
--
-- Dataset.Json and Dataset.Simple are json_dataset.go and simple_tsv_dataset.go of the same directory;
-- they compare and write as the TSV dataset does, with their own readers.
--
-- Sync is the executor of internal/worker/sync_stremio_stremio.go, with the items of
-- internal/stremio/api/types.go and the directions of internal/sync/stremio_stremio/db.go. Sync.Movies
-- is syncMovies, Sync.Series is syncSeries over the fields of Watched, and Sync.Accounts is syncWatched
-- and the loop over the links. The calls of the Stremio API, the episodes from Cinemeta and the saved
-- time of a sync are a parameter, the record `Api`. A time is a number, and 0 is the zero time.
--
-- Trakt is internal/worker/sync_stremio_trakt.go, with the directions of
-- internal/sync/stremio_trakt/db.go. Trakt.History is getAllTraktHistory; Trakt.MoviesFrom and
-- Trakt.SeriesFrom sync from Trakt to Stremio, Trakt.MoviesTo and Trakt.SeriesTo the other way, and
-- Trakt.Executor is syncWatched and the loop over the links. They use the library items of Sync and the
-- fields of Watched. The two APIs, the metadata of Cinemeta, the tokens and the database are a
-- parameter, the record `Api`.
--
-- Sorter is internal/stremio/transformer/stream_sorter.go. Sorter.Rank has getFieldRank, Sorter.Config is
-- parseSortConfig, and Sorter.Order has Less and SortStreams; util.ToBytes is a parameter. Sorter.Stable is
-- the stable sort of the standard library as the insertion sort that it makes of up to 20 items: where Less is an
-- order a list has one stable sort, so more items come out in the same order. White space and lower case are
-- those of ASCII.
--
-- Stores is CheckMagnet of internal/stremio/userdata/stores.go: check_magnet takes the order in which the
-- goroutines of the other stores write their answers, and each is one step. What a store answers is a
-- parameter. Upper case is that of ASCII.
--
-- StremId is internal/torrent_stream/id.go: to_string, to_clean and is_series are String, ToClean and
-- IsSeries, clean_strem_id is CleanStremId, and normalize_stream_id is NormalizeStreamId. The cache and the
-- tables of anime ids are a parameter, the record `IdMaps`.
--
-- Anime is internal/anidb/tvdb_episode_map.db.go: how the episodes of an anime lie in the seasons of a series.
-- Anime.Groups has GroupByAniDBId, Anime.Columns the two columns that are texts, and Anime.Titles the methods of
-- internal/anidb/title.db.go. Anime.Torrent is prepareAniDBTorrentMaps of internal/worker/map_anidb_torrent.go:
-- its branches are Plain (no seasons and no episodes), Seasons, Absolute and Joined (episodes alone, of a series
-- with and without an absolute order), and Prepare puts them together. A nil map whose method is called makes
-- the result none. The distance of two titles is a parameter, and the titles are sorted by the stable sort of
-- Sorter. An int is an integer without bounds here. The executor of the worker and the SQL are not modelled.
--
-- StoreId is internal/stremio/store/id.go: the ids of the catalogs, metas and videos of a store, with the names of
-- the codes of store/store.go in Stores.Names. url.PathUnescape, and whether url.Parse finds a scheme, are
-- parameters.
--
-- Dataset.Files is internal/util/dataset.go: NewDataset, with prepareFilenames in Dataset.Files.Choice and
-- cleanup, download and Init in Dataset.Files.Get, over a directory that is a map from names to bytes. Its World has what is called outside: which calls of the file system fail, the clock, time.Parse,
-- slices.SortFunc with a comparison that may remove files, the body of the download and the unpacking. A panic is
-- none. The pattern of fs.Glob is a text behind one star, so it is a test of the end of a name; only regular files
-- are in the directory, and a name that is something else is a failing call.
--
-- Tunnel is internal/config/http.go: get_proxy is getProxy, which keeps what it finds in the map,
-- Tunnel.Parse is parseTunnel with the environment it changes, and Tunnel.Stores is parseStoreTunnel.
-- What parses a url is a parameter, and a url is its host and its text. The HTTP clients and the
-- resolver of IP addresses are not modelled.
--
-- Torznab.Category is internal/torznab/category.go, and Torznab.Query and Torznab.ParseQuery are
-- query.go of the same directory: to_values is ToValues, parse_query is ParseQuery, and has_tv_shows
-- and has_movies are HasTVShows and HasMovies. A key is lowered as ASCII text. The indexers, the feeds
-- and their XML are not modelled.
--
-- Worker.Queue is internal/worker/worker_queue/queue.go. Worker.Task is the task function of NewWorker
-- in internal/worker/worker.go with its error function; one call of the scheduler is `tick`. The job
-- log, the advisory lock, the clock and the executor are parameters, and the wait before a run is left
-- out there, since it only sleeps. Worker.Roster has the workers of InitWorkers, Worker.Flags the flags
-- of those that run (running_worker) with ShouldWait, OnStart and OnEnd, and Worker.Turns is the step
-- relation of all runs together. A worker has two tasks over one task function, that of the interval and the
-- clone that runs once at the start; each has one run at a time, and the two overlap. A run begins with
-- isAlreadyRunning, is skipped or goes on to ShouldWait, OnStart and OnEnd; the job id is set and emptied by steps
-- of their own, as by ErrFunc.
--
-- Loops are structural recursion: over a list, or over the number of rounds left, which is the bound
-- of the loop in the source. Two loops have no bound. That of getProxy has one round more
-- than the name has characters, since each round drops some: Tunnel.Proxy.search_enough. The pages of a Trakt
-- history are read until one is not full, which the server decides: fuel is the number of pages that
-- are read, and running out of it is an error of the model's own (`unfinished`).
--
-- A Go int is a number of its own: the native natural numbers where the code keeps it from being
-- negative, and ℤ where it does not (the offset of an anchor). The conditions name 2^63 where an int
-- is printed and read again. A byte is a number below 256, and a text that the code takes apart is a
-- list of bytes. A Go map is an association list, and its walks are in the order of that list. Logs,
-- and pauses between batches, are left out.
pub mod Anime
pub mod Prelude
pub mod BitField
pub mod Watched
pub mod Dataset
pub mod Sync
pub mod Trakt
pub mod Sorter
pub mod StoreId
pub mod Stores
pub mod StremId
pub mod Tunnel
pub mod Torznab
pub mod Worker
