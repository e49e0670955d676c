-- ===== src/Sync/Examples.antt =====
-- A sync of one movie and one series to an account that has neither.
use resolver_addon.BitField
use resolver_addon.BitField.Codec
use resolver_addon.Prelude.{◌≡◌, refl, false, List, [], ◌∷◌, ◌++◌, none, Result, ok, arith, All}
use resolver_addon.Prelude.Assoc.{Assoc, find}
use resolver_addon.Prelude.Bytes.{Bytes, codes, bytes_eq, split, join}
use resolver_addon.Prelude.Decimal.{atoi}
use resolver_addon.Prelude.Int.{pos, ◌-ℤ◌}
use resolver_addon.Sync.{LibraryItem, a_to_b, empty_state}
use resolver_addon.Sync.Accounts.{Api, Link, sync_watched}
use resolver_addon.Sync.Frame.{sync_watched-keeps}
use resolver_addon.Sync.Marked.{Merged, series_update-Merged}
use resolver_addon.Sync.Movies.{sync_movies}
use resolver_addon.Sync.Series.{series_update}
use resolver_addon.Sync.Twice.{sync_movies-sync_movies}
use resolver_addon.Watched.{WatchedBitField, index_of, from_field}
use resolver_addon.Watched.Examples.{codec, episodes, saved}
use resolver_addon.Watched.Text

abbrev movie : LibraryItem
movie = record {
  id = codes "tt1";
  removed = false;
  temp = false;
  c_time = 3;
  m_time = 4;
  state = record empty_state { times_watched = pos 2; last_watched = 9 };
  name = codes "Movie";
  kind = codes "movie";
  poster = [];
  poster_shape = [];
  background = [];
  logo = [];
  year = [];
  behavior_hints = none;
}

abbrev series : LibraryItem
series = record movie {
  id = codes "tt2";
  kind = codes "series";
  state = record empty_state { watched = saved; last_watched = 9 };
}

abbrev movies : List LibraryItem
movies = movie ∷ []

abbrev no_items : List LibraryItem
no_items = []

sync_movies-sync_movies_example :
    sync_movies 20 movies (no_items ++ sync_movies 10 movies no_items) ≡ []
sync_movies-sync_movies_example = sync_movies-sync_movies 10 20 movies no_items

abbrev fetch : Bytes → Result (Unit {0}) (List Bytes)
fetch id = ok episodes

abbrev season_read : WatchedBitField
season_read = record { bitfield = record { len = 3; values = 3 ∷ [] }; video_ids = episodes }

abbrev none_read : WatchedBitField
none_read = record { bitfield = BitField.new 3; video_ids = episodes }

series-from_string : Text.from_string codec saved episodes ≡ ok season_read
unfolding Text.from_string Text.unmarshal split Text.read_parts atoi Codec.unmarshal from_field
    index_of bytes_eq join ◌-ℤ◌ BitField.with_values
series-from_string = refl

abbrev no_targets : Assoc LibraryItem
no_targets = []

series_update-Merged_example :
    Merged codec episodes season_read none_read (series_update codec fetch 10 no_targets series)
unfolding bytes_eq find
series_update-Merged_example =
    series_update-Merged codec fetch 10 no_targets series refl refl series-from_string refl
      (omega arith) (omega arith) ((refl, (refl, tt)), ((refl, tt), (tt, tt)))

-- An api that keeps what is sent to each account.
abbrev Sent : Type 0
Sent = List (Bytes × List LibraryItem)

abbrev api : Api Sent (Unit {0})
api = record {
  fetch_video_ids = fetch;
  library_items = λ d account ids. ok movies;
  update_items = λ d to items. ((to, items) ∷ d, none);
  set_sync_state = λ d link now. (d, none);
  account_by_id = λ d id. none;
  valid_token = λ d id. (d, none);
}

abbrev link : Link
link = record {
  account_a_id = codes "a";
  account_b_id = codes "b";
  direction = a_to_b;
  ids = codes "tt1" ∷ [];
  last_synced_at = none;
}

-- Nothing is sent to account a.
abbrev SparesA : Sent → Type 0
SparesA d = All (λ e. bytes_eq e.0 (codes "a") ≡ false) d

sync_watched-keeps_example : SparesA (sync_watched codec api 10 link []).0
unfolding bytes_eq
sync_watched-keeps_example =
    sync_watched-keeps codec api SparesA 10 link []
      (λ e d items p. (refl, p), λ e. absurd (ground arith)) (λ d p. p) (λ d id p. p) tt
