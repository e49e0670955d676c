-- ===== src/Trakt/Sent.antt =====
-- Which episodes a sync of a series sends to Trakt: `syncSeriesFromStremioToTrakt` of
-- internal/worker/sync_stremio_trakt.go.
use resolver_addon.BitField.Codec.{Codec}
use resolver_addon.Prelude.{
  ◌≡◌, refl, ap, ◌∙◌, Bool, true, false, not, ◌&&◌, ◌||◌, List, [], ◌∷◌, ◌++◌, Option, none, some,
  Result, ok, arith, inl, inr, Bool-cases,
}
use resolver_addon.Prelude.Affix.{or_else}
use resolver_addon.Prelude.Assoc.{Assoc, find, find-store}
use resolver_addon.Prelude.Bytes.{Bytes, codes, split, bytes_eq, bytes_eq_sound}
use resolver_addon.Prelude.Int.{ℤ, pos, ltb_ℤ, eqb_ℤ, eq_of_eqb}
use resolver_addon.Sync.{LibraryItem}
use resolver_addon.Sync.Accounts.{includes}
use resolver_addon.Trakt.{Meta, HistoryItem, Failure, imdb_id}
use resolver_addon.Trakt.EpisodeKeys.{episode_key-bytes_eq}
use resolver_addon.Trakt.SeriesTo.{
  Seasons, ShowAdd, episode_key, parts_of, add_parts, add_episode, by_season, show_adds, show_round,
  add_seen, seen_by_show,
}
use resolver_addon.Watched.{WatchedBitField, get_video}
use resolver_addon.Watched.Text

has_number : List ℤ → ℤ → Bool
has_number [] n = false
has_number (m ∷ ms) n = eqb_ℤ m n || has_number ms n

-- The seasons have the episode `n` of the season `s`.
has_episode : Seasons → ℤ → ℤ → Bool
unfolding has_number
has_episode [] s n = false
has_episode (e ∷ seasons) s n = eqb_ℤ e.0 s && has_number e.1 n || has_episode seasons s n

has_number-append :
    (ms : List ℤ) (m n : ℤ) → has_number (ms ++ m ∷ []) n ≡ has_number ms n || eqb_ℤ m n
unfolding has_number
has_number-append [] m n = ground arith
has_number-append (k ∷ ms) m n = ground (arith, has_number-append ms m n)

has_episode-add_episode :
    (season episode : ℤ) (seasons : Seasons) (s n : ℤ)
    → has_episode (add_episode season episode seasons) s n
      ≡ has_episode seasons s n || (eqb_ℤ season s && eqb_ℤ episode n)
unfolding has_episode add_episode has_number
has_episode-add_episode season episode [] s n = ground arith
has_episode-add_episode season episode (e ∷ seasons) s n = elim (Bool-cases (eqb_ℤ e.0 season)) [
  | inl same ↦ ground (
    arith,
    same,
    has_number-append e.1 episode n,
    ap (λ z. eqb_ℤ z s) (eq_of_eqb e.0 season same),
  )
  | inr other ↦ ground (arith, other, has_episode-add_episode season episode seasons s n)
]

-- A video id names the episode, which is numbered from 1, as its season is.
abbrev names : Option (ℤ × ℤ) → ℤ → ℤ → Bool
names none s n = false
names (some (season, episode)) s n =
    (eqb_ℤ season s && eqb_ℤ episode n) && not (ltb_ℤ s (pos 1) || ltb_ℤ n (pos 1))

-- One of the videos is watched, and names the episode.
pub has_watched : WatchedBitField → List Bytes → ℤ → ℤ → Bool
has_watched wbf [] s n = false
has_watched wbf (id ∷ ids) s n =
    get_video wbf id && names (parts_of (split id b':')) s n || has_watched wbf ids s n

-- The show with the id has the episode.
pub sends : List ShowAdd → Bytes → ℤ → ℤ → Bool
unfolding has_episode
sends [] show s n = false
sends (add ∷ adds) show s n =
    bytes_eq add.imdb show && has_episode add.seasons s n || sends adds show s n

has_episode-add_parts :
    (seen : List Bytes) (o : Option (ℤ × ℤ)) (seasons : Seasons) (s n : ℤ)
    → has_episode (add_parts seen o seasons) s n
      ≡ has_episode seasons s n || (names o s n && not (includes seen (episode_key s n)))
has_episode-add_parts seen none seasons s n = ground arith
has_episode-add_parts seen (some (season, episode)) seasons s n = ground (
  arith,
  has_episode-add_episode season episode seasons s n,
  eq_of_eqb season s,
  eq_of_eqb episode n,
)

or_step : (a v p w q : Bool) → (a || (v && p && q)) || (w && q) ≡ a || ((v && p || w) && q)
or_step a v p w q = ground arith

has_episode-by_season :
    (wbf : WatchedBitField) (seen ids : List Bytes) (seasons : Seasons) (s n : ℤ)
    → has_episode (by_season wbf seen ids seasons) s n
      ≡ has_episode seasons s n
        || (has_watched wbf ids s n && not (includes seen (episode_key s n)))
unfolding by_season has_watched
has_episode-by_season wbf seen [] seasons s n = ground arith
has_episode-by_season wbf seen (id ∷ ids) seasons s n = elim (Bool-cases (get_video wbf id)) [
  | inl on ↦
      let next = add_parts seen (parts_of (split id b':')) seasons in
      rw on (
        ground (
          arith,
          has_episode-by_season wbf seen ids next s n,
          has_episode-add_parts seen (parts_of (split id b':')) seasons s n,
        ))
  | inr off ↦ rw off (ground (arith, has_episode-by_season wbf seen ids seasons s n))
]

sends-show_adds :
    (imdb : Bytes) (seasons : Seasons) (show : Bytes) (s n : ℤ)
    → sends (show_adds imdb seasons) show s n ≡ (bytes_eq imdb show && has_episode seasons s n)
unfolding sends has_episode
sends-show_adds imdb [] show s n = ground arith
sends-show_adds imdb (e ∷ seasons) show s n = ground arith

-- What is known of a show.
abbrev seen_of : Assoc (List Bytes) → Bytes → List Bytes
seen_of m show = or_else (find m show) []

abbrev has_key : Option (ℤ × ℤ) → Bytes → Bool
has_key none key = false
has_key (some (season, number)) key = bytes_eq (episode_key season number) key

abbrev is_episode : Option (ℤ × ℤ) → ℤ → ℤ → Bool
is_episode none s n = false
is_episode (some (season, number)) s n = eqb_ℤ season s && eqb_ℤ number n

has_key-episode_key :
    (o : Option (ℤ × ℤ)) (s n : ℤ) → has_key o (episode_key s n) ≡ is_episode o s n
has_key-episode_key none s n = refl
has_key-episode_key (some (season, number)) s n = episode_key-bytes_eq season number s n

-- The history has the episode of the show, which has an id.
pub has_seen : List HistoryItem → Bytes → ℤ → ℤ → Bool
has_seen [] show s n = false
has_seen (item ∷ items) show s n =
    (not (bytes_eq (imdb_id item.show) [])
      && bytes_eq (imdb_id item.show) show
      && is_episode item.episode s n)
    || has_seen items show s n

includes-append :
    (keys : List Bytes) (k key : Bytes)
    → includes (keys ++ k ∷ []) key ≡ includes keys key || bytes_eq k key
unfolding includes
includes-append [] k key = ground arith
includes-append (j ∷ keys) k key = ground (arith, includes-append keys k key)

includes-add_seen :
    (imdb : Bytes) (o : Option (ℤ × ℤ)) (m : Assoc (List Bytes)) (show key : Bytes)
    → includes (seen_of (add_seen imdb o m) show) key
      ≡ includes (seen_of m show) key || (bytes_eq imdb show && has_key o key)
includes-add_seen imdb none m show key = ground arith
includes-add_seen imdb (some (season, number)) m show key =
    let k = episode_key season number in
    let keys = seen_of m imdb ++ k ∷ [] in
    elim (Bool-cases (bytes_eq imdb show)) [
      | inl same ↦
          ap (λ o. includes (or_else o []) key) (find-store m imdb show keys)
          ∙ rw same (
              includes-append (seen_of m imdb) k key
              ∙ ap (λ h. includes (seen_of m h) key || bytes_eq k key)
                  (bytes_eq_sound imdb show same))
      | inr other ↦
          ap (λ o. includes (or_else o []) key) (find-store m imdb show keys)
          ∙ rw other (ground arith)
    ]

includes-seen_by_show :
    (history : List HistoryItem) (m : Assoc (List Bytes)) (show : Bytes) (s n : ℤ)
    → includes (seen_of (seen_by_show history m) show) (episode_key s n)
      ≡ includes (seen_of m show) (episode_key s n) || has_seen history show s n
unfolding seen_by_show has_seen
includes-seen_by_show [] m show s n = ground arith
includes-seen_by_show (item ∷ items) m show s n =
    elim (Bool-cases (bytes_eq (imdb_id item.show) [])) [
      | inl no_id ↦ rw no_id (includes-seen_by_show items m show s n)
      | inr has_id ↦ rw has_id (
          ground (
            arith,
            includes-seen_by_show items (add_seen (imdb_id item.show) item.episode m) show s n,
            includes-add_seen (imdb_id item.show) item.episode m show (episode_key s n),
            has_key-episode_key item.episode s n,
          ))
    ]

module _ {E M : Type 0} (codec : Codec) (fetch_meta : Bytes → Bytes → Result E Meta)
    (id_maps : List Bytes → Result E (Assoc Bytes)) (lookup : Bytes → Bytes → Option (ℤ × M))
    (show_history : ℤ → Result (Failure E) (List HistoryItem)) where
  -- In a full sync, of a series whose metadata is there and whose field can be read: an episode of a show is
  -- sent exactly if the show is this series, a watched video of it names the episode, and the history does not
  -- have this season and number of the show.
  pub show_round-sends :
      (trakt : Assoc ℤ) (item : LibraryItem) (history : List HistoryItem) {meta : Meta}
      {wbf : WatchedBitField}
      → fetch_meta (codes "series") item.id ≡ ok meta
      → Text.from_string codec item.state.watched meta.video_ids ≡ ok wbf
      → (adds : List ShowAdd) × (show_round codec fetch_meta id_maps lookup show_history true trakt
            item
            (seen_by_show history [])
          ≡ ok (adds, [], seen_by_show history []))
        × ((show : Bytes) (s n : ℤ)
            → sends adds show s n ≡ (
                bytes_eq item.id show
                && (has_watched wbf meta.video_ids s n && not (has_seen history item.id s n))))
  unfolding show_round has_episode has_seen includes find
  show_round-sends trakt item history {meta} {wbf} fm ft =
      let known = seen_of (seen_by_show history []) item.id in
      let seasons = by_season wbf known meta.video_ids [] in
      (
        show_adds item.id seasons,
        rw (fm, ft),
        λ show s n.
            sends-show_adds item.id seasons show s n
            ∙ ap (λ b. bytes_eq item.id show && b)
                (has_episode-by_season wbf known meta.video_ids [] s n
                  ∙ ap (λ b. has_watched wbf meta.video_ids s n && not b)
                      (includes-seen_by_show history [] item.id s n)),
      )
