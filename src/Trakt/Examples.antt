-- ===== src/Trakt/Examples.antt =====
-- A sync of a series and of a movie with a Trakt history, on the series and the codec of the watched field.
use resolver_addon.BitField
use resolver_addon.BitField.Codec
use resolver_addon.Prelude.Decimal.{atoi, itoa}
use resolver_addon.Sync.Accounts.{includes}
use resolver_addon.Prelude.{
  ◌≡◌, refl, ◌&&◌, not, Bool, true, false, List, [], ◌∷◌, Option, none, some, Result, ok, err,
  arith, ℕ,
}
use resolver_addon.Prelude.Assoc.{Assoc, find, store}
use resolver_addon.Prelude.Bytes.{Bytes, codes, bytes_eq, split, join}
use resolver_addon.Prelude.Int.{ℤ, pos, ◌-ℤ◌}
use resolver_addon.Sync.{LibraryItem, empty_state, by_id}
use resolver_addon.Trakt.{Meta, HistoryItem, Failure}
use resolver_addon.Trakt.History.{get_all_trakt_history}
use resolver_addon.Trakt.MoviesFrom.{movies_from_trakt}
use resolver_addon.Trakt.SeriesFrom.{series_item, video_id_of}
use resolver_addon.Trakt.SeriesTo.{
  ShowAdd, show_round, seen_by_show, episode_key, parts_of, add_episode,
}
use resolver_addon.Trakt.Pages.{last, get_all_trakt_history-Pages}
use resolver_addon.Trakt.Gained.{Gained, series_item-Gained}
use resolver_addon.Trakt.Sent.{sends, has_watched, has_seen, show_round-sends}
use resolver_addon.Watched.{WatchedBitField, get_video, index_of, from_field}
use resolver_addon.Watched.Examples.{codec}
use resolver_addon.Watched.Text

abbrev episodes : List Bytes
episodes = codes "tt7:1:1" ∷ codes "tt7:1:2" ∷ codes "tt7:2:1" ∷ []

abbrev meta : Meta
meta = record {
  id = codes "tt7";
  kind = codes "series";
  name = codes "Llama";
  poster = [];
  poster_shape = [];
  background = [];
  logo = [];
  release_info = [];
  video_ids = episodes;
}

abbrev fetch_meta : Bytes → Bytes → Result (Unit {0}) Meta
fetch_meta kind id = ok meta

abbrev no_library : List Bytes → Result (Unit {0}) (List LibraryItem)
no_library ids = ok []

abbrev watched_episode : ℤ → ℤ → ℕ → HistoryItem
watched_episode season number at = record {
  watched_at = at;
  kind = codes "episode";
  movie = none;
  show = some (codes "tt7");
  episode = some (season, number);
}

abbrev history : List HistoryItem
history = watched_episode (pos 1) (pos 2) 40 ∷ []

abbrev none_watched : WatchedBitField
none_watched = record { bitfield = BitField.new 3; video_ids = episodes }

series_item-Gained_example :
    Gained codec episodes
      (codes "tt7")
      history
      none_watched
      (series_item codec fetch_meta no_library 50 (codes "tt7") history none)
unfolding bytes_eq
series_item-Gained_example =
    series_item-Gained codec fetch_meta no_library 50 (codes "tt7") history none refl refl
      (omega arith) (omega arith) ((refl, (refl, tt)), ((refl, tt), (tt, tt)))

-- A movie that was watched twice stands twice in the history, the last time first.
abbrev twice : List HistoryItem
twice =
    record {
      watched_at = 90;
      kind = codes "movie";
      movie = some (codes "tt1");
      show = none;
      episode = none;
    }
    ∷ record {
      watched_at = 30;
      kind = codes "movie";
      movie = some (codes "tt1");
      show = none;
      episode = none;
    }
    ∷ []

abbrev times : Result (Failure (Unit {0})) (List LibraryItem) → List ℕ
times (err e) = []
times (ok []) = []
times (ok (a ∷ [])) = a.state.last_watched ∷ []
times (ok (a ∷ b ∷ items)) = a.state.last_watched ∷ b.state.last_watched ∷ []

sent_twice : times (movies_from_trakt fetch_meta no_library 100 true [] twice) ≡ 90 ∷ 30 ∷ []
unfolding movies_from_trakt find by_id
sent_twice = refl

abbrev is_sent : Result (Failure (Unit {0})) (Option LibraryItem) → Bool
is_sent (ok (some item)) = true
is_sent _ = false

-- An episode that the metadata does not list.
unknown_sent :
    is_sent (
      series_item codec fetch_meta no_library 50
        (codes "tt7")
        (watched_episode (pos 9) (pos 9) 40 ∷ [])
        none)
    ≡ true
unfolding series_item get_video index_of bytes_eq video_id_of itoa Text.marshal_bits Text.marshal
    Codec.marshal
unknown_sent = refl

abbrev pages : ℕ → Result (Unit {0}) (List HistoryItem)
pages p = ok history

get_all_trakt_history-Pages_example : get_all_trakt_history pages 5 ≡ ok history
get_all_trakt_history-Pages_example =
    get_all_trakt_history-Pages pages 5 (last history refl (omega arith)) (omega arith)

-- The first two episodes are watched; the history has the second.
abbrev llama : LibraryItem
llama = record {
  id = codes "tt7";
  removed = false;
  temp = false;
  c_time = 1;
  m_time = 2;
  state = record empty_state { watched = codes "tt7:1:2:2:>" };
  name = codes "Llama";
  kind = codes "series";
  poster = [];
  poster_shape = [];
  background = [];
  logo = [];
  year = [];
  behavior_hints = none;
}

abbrev two_watched : WatchedBitField
two_watched = record { bitfield = record { len = 3; values = 3 ∷ [] }; video_ids = episodes }

llama-read : Text.from_string codec llama.state.watched episodes ≡ ok two_watched
unfolding Text.from_string Text.unmarshal split Text.read_parts atoi Codec.unmarshal from_field
    index_of bytes_eq join ◌-ℤ◌ BitField.with_values
llama-read = refl

abbrev no_maps : List Bytes → Result (Unit {0}) (Assoc Bytes)
no_maps ids = ok []

abbrev no_lookup : Bytes → Bytes → Option (ℤ × Bytes)
no_lookup kind id = none

abbrev no_history : ℤ → Result (Failure (Unit {0})) (List HistoryItem)
no_history id = ok []

show_round-sends_example :
    (adds : List ShowAdd) × (show_round codec fetch_meta no_maps no_lookup no_history true [] llama
        (seen_by_show history [])
      ≡ ok (adds, [], seen_by_show history []))
    × ((show : Bytes) (s n : ℤ)
        → sends adds show s n ≡ (
            bytes_eq (codes "tt7") show
            && (has_watched two_watched episodes s n && not (has_seen history (codes "tt7") s n))))
show_round-sends_example =
    show_round-sends codec fetch_meta no_maps no_lookup no_history [] llama history refl llama-read

first_sent :
    show_round codec fetch_meta no_maps no_lookup no_history true [] llama (seen_by_show history [])
    ≡ ok (
      record { imdb = codes "tt7"; seasons = (pos 1, pos 1 ∷ []) ∷ [] } ∷ [],
      [],
      (codes "tt7", codes "1:2" ∷ []) ∷ [],
    )
unfolding show_round Text.from_string Text.unmarshal split Text.read_parts atoi Codec.unmarshal
    get_video seen_by_show index_of bytes_eq from_field store join find ◌-ℤ◌ episode_key
    BitField.get itoa BitField.with_values BitField.test_bit parts_of includes add_episode
first_sent = refl
