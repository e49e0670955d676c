-- ===== src/Sync/Marks.antt =====
-- What the loop over the episodes leaves in the target's field.
use resolver_addon.BitField
use resolver_addon.Prelude.{
  ℕ, ◌<◌, ◌≡◌, ◌≢◌, refl, ap, sym, ◌∙◌, Bool, true, false, ◌&&◌, ◌||◌, List, [], ◌∷◌, some, arith,
  inl, inr, Bool-cases, Option-cases, leb, if◌then◌else◌, length, get_or, All,
}
use resolver_addon.Prelude.Bytes.{Bytes, bytes_eq, bytes_eq_sound}
use resolver_addon.Sync.{Time, later}
use resolver_addon.Sync.Fits.{IsFieldOf, set_bit-Fits}
use resolver_addon.Sync.Series.{is_news, mark_videos}
use resolver_addon.Watched.{
  WatchedBitField, index_of, get_video, set_video, first_unwatched, last_video, at,
}
use resolver_addon.Watched.Video.{get_video-set_video, is_video, index_of-some}

-- The id is one of the list.
unfoldable pub has : List Bytes → Bytes → Bool
has [] id = false
has (k ∷ ids) id = bytes_eq k id || has ids id

video_ids-set_video :
    (w : WatchedBitField) (id : Bytes) (v : Bool) → (set_video w id v).video_ids ≡ w.video_ids
unfolding set_video
video_ids-set_video w id v = elim (Option-cases (index_of w.video_ids id)) [
  | inl gone ↦ rw (gone, set_video)
  | inr (i, found) ↦ rw (found, set_video)
]

pub set_video-IsFieldOf :
    (ids : List Bytes) (w : WatchedBitField) (id : Bytes) (v : Bool)
    → IsFieldOf ids w
    → IsFieldOf ids (set_video w id v)
unfolding set_video
set_video-IsFieldOf ids w id v (e, h) = elim (Option-cases (index_of w.video_ids id)) [
  | inl gone ↦ rw (gone, set_video) (e, h)
  | inr (i, found) ↦
      let (lt, _) = index_of-some w.video_ids id i found in
      rw (found, set_video) (e, set_bit-Fits (length ids) w.bitfield i v (rw (← e) lt) h)
]

abbrev marked_one : WatchedBitField → WatchedBitField → Bytes → WatchedBitField
marked_one source target id = if is_news source target id then set_video target id true else target

marked_one-IsFieldOf :
    (ids : List Bytes) (s t : WatchedBitField) (id : Bytes)
    → IsFieldOf ids t
    → IsFieldOf ids (marked_one s t id)
marked_one-IsFieldOf ids s t id h = elim (Bool-cases (is_news s t id)) [
  | inl new ↦ rw new (set_video-IsFieldOf ids t id true h)
  | inr old ↦ rw old h
]

get_video-marked_one :
    (ids : List Bytes) (s t : WatchedBitField) (k id : Bytes)
    → IsFieldOf ids t
    → is_video ids k ≡ true
    → get_video (marked_one s t k) id ≡ get_video t id || (bytes_eq k id && get_video s id)
get_video-marked_one ids s t k id (e, h) v =
    let v' : is_video t.video_ids k ≡ true = rw e v in
    ground (arith, get_video-set_video t k id true h.valid, bytes_eq_sound k id)

pub mark_videos-IsFieldOf :
    (at : Time) (ids vs : List Bytes) (s t : WatchedBitField) (b : Bool) (l : Time)
    → IsFieldOf ids t
    → IsFieldOf ids (mark_videos at vs s (t, b, l)).0
unfolding mark_videos
mark_videos-IsFieldOf at ids [] s t b l h = h
mark_videos-IsFieldOf at ids (k ∷ vs) s t b l h =
    mark_videos-IsFieldOf at ids vs s (marked_one s t k) _ _ (marked_one-IsFieldOf ids s t k h)

or_assoc : (a b c d : Bool) → (a || (b && d)) || (c && d) ≡ a || ((b || c) && d)
or_assoc a b c d = ground arith

pub get_video-mark_videos :
    (at : Time) (ids vs : List Bytes) (s t : WatchedBitField) (b : Bool) (l : Time) (id : Bytes)
    → IsFieldOf ids t
    → All (λ k. is_video ids k ≡ true) vs
    → get_video (mark_videos at vs s (t, b, l)).0 id
      ≡ get_video t id || (has vs id && get_video s id)
unfolding mark_videos has
get_video-mark_videos at ids [] s t b l id h a = ground arith
get_video-mark_videos at ids (k ∷ vs) s t b l id h (v, a) =
    get_video-mark_videos at ids vs s (marked_one s t k) _ _ id (marked_one-IsFieldOf ids s t k h) a
    ∙ ap (λ g. g || (has vs id && get_video s id)) (get_video-marked_one ids s t k id h v)
    ∙ or_assoc (get_video t id) (bytes_eq k id) (has vs id) (get_video s id)

mark_videos-true :
    (at : Time) (vs : List Bytes) (s t : WatchedBitField) (b : Bool) (l : Time)
    → b ≡ true
    → (mark_videos at vs s (t, b, l)).1 ≡ true
unfolding mark_videos
mark_videos-true at [] s t b l e = e
mark_videos-true at (k ∷ vs) s t b l e =
    mark_videos-true at vs s (marked_one s t k) _ _ (ground arith)

mark_videos-same :
    (at : Time) (vs : List Bytes) (s t : WatchedBitField) (b : Bool) (l : Time)
    → b ≡ false
    → (mark_videos at vs s (t, b, l)).1 ≡ false
    → (mark_videos at vs s (t, b, l)).0 ≡ t
unfolding mark_videos
mark_videos-same at [] s t b l z e = refl
mark_videos-same at (k ∷ vs) s t b l z e = elim (Bool-cases (is_news s t k)) [
  | inl new ↦
      let q =
        mark_videos-true at vs s (marked_one s t k) (if is_news s t k then true else b)
          (if is_news s t k then later at l else l) (rw new) in
      absurd (true-ne-false (sym q ∙ e))
  | inr old ↦ mark_videos-same at vs s (marked_one s t k) _ _ (rw old z) e ∙ rw old
]
  where
    true-ne-false : true ≢ false
    true-ne-false q = ground arith

-- Without a change to report, the field is what it was.
pub mark_videos-false :
    (at : Time) (vs : List Bytes) (s t : WatchedBitField) (l : Time)
    → (mark_videos at vs s (t, false, l)).1 ≡ false
    → (mark_videos at vs s (t, false, l)).0 ≡ t
mark_videos-false at vs s t l e = mark_videos-same at vs s t false l refl e

last_video-some : (ids : List Bytes) → 0 < length ids → (id : Bytes) × (last_video ids ≡ some id)
last_video-some [] h = absurd (omega arith)
last_video-some (x ∷ xs) h = (_, refl)

at-some :
    (ids : List Bytes) (i : ℕ) → leb (length ids) i ≡ false → (id : Bytes) × (at ids i ≡ some id)
at-some ids i h = (get_or ids i [], ground arith)

-- There is a video to continue with.
pub first_unwatched-some :
    (w : WatchedBitField) → 0 < length w.video_ids → (id : Bytes) × (first_unwatched w ≡ some id)
unfolding first_unwatched
first_unwatched-some w h = elim (Option-cases (BitField.first_index_of w.bitfield false)) [
  | inl none_clear ↦ rw (none_clear, first_unwatched) (last_video-some w.video_ids h)
  | inr (i, found) ↦ elim (Bool-cases (leb (length w.video_ids) i)) [
    | inl past ↦ rw (found, first_unwatched) (rw past (last_video-some w.video_ids h))
    | inr inside ↦ rw (found, first_unwatched) (rw inside (at-some w.video_ids i inside))
  ]
]
