-- ===== src/Trakt/Marked.antt =====
-- What the loop over the history of Trakt leaves in the watched field of a series: `syncSeriesFromTraktToStremio` of
-- internal/worker/sync_stremio_trakt.go.
use mathlib.Core.Path.{subst}
use resolver_addon.Prelude.{
  ◌≡◌, ◌≢◌, refl, ap, sym, ◌∙◌, Bool, true, false, ◌&&◌, ◌||◌, List, [], ◌∷◌, Option, none, some,
  arith, inl, inr, Bool-cases, if◌then◌else◌,
}
use resolver_addon.Prelude.Bytes.{Bytes, bytes_eq, bytes_eq_sound}
use resolver_addon.Prelude.Int.{ℤ}
use resolver_addon.Sync.{Time, later}
use resolver_addon.Sync.Fits.{IsFieldOf}
use resolver_addon.Sync.Marks.{has, set_video-IsFieldOf}
use resolver_addon.Sync.Marked.{is_video-has}
use resolver_addon.Trakt.{HistoryItem}
use resolver_addon.Trakt.SeriesFrom.{mark_episode, mark_history, video_id_of}
use resolver_addon.Watched.{WatchedBitField, get_video, set_video}
use resolver_addon.Watched.Video.{is_video, get_video-set_video}

abbrev is_episode : Bytes → Bytes → Option (ℤ × ℤ) → Bool
is_episode imdb id none = false
is_episode imdb id (some e) = bytes_eq (video_id_of imdb e) id

-- The history of the show has the episode with this id.
unfoldable pub in_history : Bytes → List HistoryItem → Bytes → Bool
in_history imdb [] id = false
in_history imdb (item ∷ items) id = is_episode imdb id item.episode || in_history imdb items id

mark_episode-IsFieldOf :
    (ids : List Bytes) (imdb : Bytes) (item : HistoryItem) (o : Option (ℤ × ℤ))
    (t : WatchedBitField) (b : Bool) (l : Time)
    → IsFieldOf ids t
    → IsFieldOf ids (mark_episode imdb item o (t, b, l)).0
mark_episode-IsFieldOf ids imdb item none t b l h = h
mark_episode-IsFieldOf ids imdb item (some e) t b l h =
    elim (Bool-cases (get_video t (video_id_of imdb e))) [
      | inl old ↦ rw old h
      | inr new ↦ rw new (set_video-IsFieldOf ids t (video_id_of imdb e) true h)
    ]

get_video-mark_episode :
    (ids : List Bytes) (imdb : Bytes) (item : HistoryItem) (o : Option (ℤ × ℤ))
    (t : WatchedBitField) (b : Bool) (l : Time) (id : Bytes)
    → IsFieldOf ids t
    → get_video (mark_episode imdb item o (t, b, l)).0 id
      ≡ get_video t id || (has ids id && is_episode imdb id o)
get_video-mark_episode ids imdb item none t b l id h = ground arith
get_video-mark_episode ids imdb item (some e) t b l id (v, h) =
    let vid = video_id_of imdb e in
    let known : is_video t.video_ids vid ≡ has ids vid =
      is_video-has t.video_ids vid ∙ ap (λ vs. has vs vid) v in
    elim (Bool-cases (get_video t vid)) [
      | inl old ↦ rw old (ground (arith, old, bytes_eq_sound vid id))
      | inr new ↦
          rw new (
            ground (arith, known, bytes_eq_sound vid id, get_video-set_video t vid id true h.valid))
    ]

pub mark_history-IsFieldOf :
    (ids : List Bytes) (imdb : Bytes) (items : List HistoryItem) (t : WatchedBitField) (b : Bool)
    (l : Time)
    → IsFieldOf ids t
    → IsFieldOf ids (mark_history imdb items (t, b, l)).0
unfolding mark_history
mark_history-IsFieldOf ids imdb [] t b l h = h
mark_history-IsFieldOf ids imdb (item ∷ items) t b l h =
    let m = mark_episode imdb item item.episode (t, b, l) in
    mark_history-IsFieldOf ids imdb items m.0 m.1 m.2
      (mark_episode-IsFieldOf ids imdb item item.episode t b l h)

or_assoc : (a h b c : Bool) → (a || (h && b)) || (h && c) ≡ a || (h && (b || c))
or_assoc a h b c = ground arith

-- The loop's field has the videos of both.
pub get_video-mark_history :
    (ids : List Bytes) (imdb : Bytes) (items : List HistoryItem) (t : WatchedBitField) (b : Bool)
    (l : Time) (id : Bytes)
    → IsFieldOf ids t
    → get_video (mark_history imdb items (t, b, l)).0 id
      ≡ get_video t id || (has ids id && in_history imdb items id)
unfolding mark_history in_history
get_video-mark_history ids imdb [] t b l id h = ground arith
get_video-mark_history ids imdb (item ∷ items) t b l id h =
    let m = mark_episode imdb item item.episode (t, b, l) in
    get_video-mark_history ids imdb items m.0 m.1 m.2 id
      (mark_episode-IsFieldOf ids imdb item item.episode t b l h)
    ∙ ap (λ g. g || (has ids id && in_history imdb items id))
        (get_video-mark_episode ids imdb item item.episode t b l id h)
    ∙ or_assoc (get_video t id) (has ids id) (is_episode imdb id item.episode)
        (in_history imdb items id)

mark_episode-true :
    (imdb : Bytes) (item : HistoryItem) (o : Option (ℤ × ℤ)) (t : WatchedBitField) (b : Bool)
    (l : Time)
    → b ≡ true
    → (mark_episode imdb item o (t, b, l)).1 ≡ true
mark_episode-true imdb item none t b l e = e
mark_episode-true imdb item (some x) t b l e = ground (arith, e)

mark_history-true :
    (imdb : Bytes) (items : List HistoryItem) (t : WatchedBitField) (b : Bool) (l : Time)
    → b ≡ true
    → (mark_history imdb items (t, b, l)).1 ≡ true
unfolding mark_history
mark_history-true imdb [] t b l e = e
mark_history-true imdb (item ∷ items) t b l e =
    let m = mark_episode imdb item item.episode (t, b, l) in
    mark_history-true imdb items m.0 m.1 m.2 (mark_episode-true imdb item item.episode t b l e)

-- Without a need for an update, every episode of the history was watched.
pub mark_history-false :
    (imdb : Bytes) (items : List HistoryItem) (t : WatchedBitField) (l : Time) (id : Bytes)
    → (mark_history imdb items (t, false, l)).1 ≡ false
    → in_history imdb items id ≡ true
    → get_video t id ≡ true
unfolding mark_history in_history
mark_history-false imdb [] t l id e h = absurd (ground (arith, h))
mark_history-false imdb (item ∷ items) t l id e h =
    by_episode item.episode (mark_history-false imdb items t l id) e h
  where
    not-both : (b : Bool) → b ≡ true → b ≢ false
    not-both b e f = ground arith

    by_episode :
        (o : Option (ℤ × ℤ))
        → ((mark_history imdb items (t, false, l)).1 ≡ false
            → in_history imdb items id ≡ true
            → get_video t id ≡ true)
        → (mark_history imdb items (mark_episode imdb item o (t, false, l))).1 ≡ false
        → is_episode imdb id o || in_history imdb items id ≡ true
        → get_video t id ≡ true
    by_episode none ih e h = ih e h
    by_episode (some x) ih e h = elim (Bool-cases (get_video t (video_id_of imdb x))) [
      | inl old ↦ elim (Bool-cases (bytes_eq (video_id_of imdb x) id)) [
        | inl same ↦ ap (get_video t) (sym (bytes_eq_sound (video_id_of imdb x) id same)) ∙ old
        | inr other ↦
            ih
              (subst
                (λ b.
                  (mark_history imdb items (
                    if b
                    then (t, false, l)
                    else (set_video t (video_id_of imdb x) true, true, later item.watched_at l))).1
                  ≡ false)
                old e)
              (subst (λ b. b || in_history imdb items id ≡ true) other h)
      ]
      | inr new ↦ absurd (
          not-both _
            (mark_history-true imdb items (set_video t (video_id_of imdb x) true) true
              (later item.watched_at l) refl)
            (subst
              (λ b.
                (mark_history imdb items (
                  if b
                  then (t, false, l)
                  else (set_video t (video_id_of imdb x) true, true, later item.watched_at l))).1
                ≡ false)
              new e))
    ]
