-- ===== src/Sync/Marked.antt =====
-- What a sync of one series does to the target's item.
use mathlib.Core.Path.{subst}
use resolver_addon.BitField
use resolver_addon.BitField.Codec.{Codec, Error}
use resolver_addon.BitField.Search.{IsLast, last_index_of-IsLast}
use resolver_addon.Prelude.{
  ℕ, ◌+◌, ◌^◌, ◌<◌, ◌≡◌, refl, ap, sym, ◌∙◌, Bool, true, false, ◌&&◌, ◌||◌, List, [], ◌∷◌,
  append-nil, Option, none, some, Result, ok, err, arith, inl, inr, Bool-cases, Option-cases,
  if◌then◌else◌, length, All,
}
use resolver_addon.Prelude.Assoc.{Assoc, find}
use resolver_addon.Prelude.Bytes.{Bytes, bytes_eq, bytes_eq_refl}
use resolver_addon.Sync.{LibraryItem, Time}
use resolver_addon.Sync.Fits.{IsFieldOf, from_string-IsFieldOf, fresh-IsFieldOf}
use resolver_addon.Sync.Marks.{
  has, first_unwatched-some, get_video-mark_videos, mark_videos-false, mark_videos-IsFieldOf,
}
use resolver_addon.Sync.Series.{
  SyncError, called, bad_watched, out_of_range, mark_videos, series_update, update_watched,
  target_field, finish, fresh_field, write_back, watched,
}
use resolver_addon.Watched.{WatchedBitField, index_of, get_video, or_zero, first_unwatched}
use resolver_addon.Watched.Survive.{from_string-marshal_bits, grown, last_id}
use resolver_addon.Watched.Text
use resolver_addon.Watched.Video.{
  IsDistinct, is_video, get_video-some, get_video-none, index_of-some,
}

pub is_video-has : (ids : List Bytes) (id : Bytes) → is_video ids id ≡ has ids id
unfolding has index_of
is_video-has [] id = refl
is_video-has (k ∷ ids) id = ground (arith, is_video-has ids id)

All-later :
    (k : Bytes) (ids vs : List Bytes)
    → All (λ v. has ids v ≡ true) vs
    → All (λ v. has (k ∷ ids) v ≡ true) vs
unfolding has
All-later k ids [] a = tt
All-later k ids (v ∷ vs) (h, a) = (ground arith, All-later k ids vs a)

All-has : (ids : List Bytes) → All (λ v. has ids v ≡ true) ids
unfolding has
All-has [] = tt
All-has (k ∷ ids) = (ground (arith, bytes_eq_refl k), All-later k ids ids (All-has ids))

All-is_video :
    (ids vs : List Bytes) → All (λ v. has ids v ≡ true) vs → All (λ v. is_video ids v ≡ true) vs
All-is_video ids [] a = tt
All-is_video ids (v ∷ vs) (h, a) = (is_video-has ids v ∙ h, All-is_video ids vs a)

-- Only a video of the list can be watched.
get_video-has :
    (w : WatchedBitField) (id : Bytes) → has w.video_ids id && get_video w id ≡ get_video w id
get_video-has w id = elim (Option-cases (index_of w.video_ids id)) [
  | inl gone ↦ ground (arith, get_video-none w id gone)
  | inr (i, found) ↦ ground (arith, is_video-has w.video_ids id)
]

-- The loop's field has the videos of both.
union :
    (at : Time) (ids : List Bytes) (s t : WatchedBitField) (id : Bytes)
    → IsFieldOf ids s
    → IsFieldOf ids t
    → get_video (mark_videos at ids s (t, false, 0)).0 id ≡ get_video t id || get_video s id
union at ids s t id (e, _) h =
    get_video-mark_videos at ids ids s t false 0 id h (All-is_video ids ids (All-has ids))
    ∙ ap (λ vs. get_video t id || (has vs id && get_video s id)) (sym e)
    ∙ ap (λ g. get_video t id || g) (get_video-has s id)

last_id-lt :
    (ids : List Bytes) (w : WatchedBitField)
    → 0 < length ids
    → IsFieldOf ids w
    → last_id w < length w.video_ids
last_id-lt ids w h (e, f) =
    within (BitField.last_index_of w.bitfield true) (last_index_of-IsLast w.bitfield true)
  where
    same_length : length w.video_ids ≡ length ids
    same_length = ap length e

    within :
        (o : Option ℕ) → IsLast w.bitfield true w.bitfield.len o → or_zero o < length w.video_ids
    within none l = omega (arith, h, same_length)
    within (some i) (lt, _, _) = omega (arith, lt, f.within, same_length)

module _ (codec : Codec) where
  -- The text gives a field back that has the same videos.
  abbrev pub Reads : Bytes → List Bytes → (Bytes → Bool) → Type 0
  Reads text ids is_watched =
      (r : WatchedBitField) × (Text.from_string codec text ids ≡ ok r)
      × ((id : Bytes) → get_video r id ≡ is_watched id)

  same_videos :
      (r w : WatchedBitField)
      → r.video_ids ≡ w.video_ids
      → ((i : ℕ) → i < length w.video_ids → BitField.get r.bitfield i ≡ BitField.get w.bitfield i)
      → (id : Bytes) → get_video r id ≡ get_video w id
  same_videos r w e h id = elim (Option-cases (index_of w.video_ids id)) [
    | inl gone ↦
        get_video-none r id (ap (λ ids. index_of ids id) e ∙ gone) ∙ sym (get_video-none w id gone)
    | inr (i, found) ↦
        get_video-some r id i (ap (λ ids. index_of ids id) e ∙ found)
        ∙ h i (index_of-some w.video_ids id i found).0
        ∙ sym (get_video-some w id i found)
  ]

  from_zero : (i : ℕ) → i ≡ 0 + i
  from_zero i = omega arith

  pub saved-Reads :
      (ids : List Bytes) (w : WatchedBitField) {text : Bytes}
      → 0 < length ids
      → length ids < 2 ^ 63
      → IsDistinct ids
      → IsFieldOf ids w
      → Text.marshal_bits codec w ≡ ok text
      → Reads text ids (get_video w)
  saved-Reads ids w {text} h big d (e, f) m =
      let q : grown w [] [] ≡ ids = append-nil w.video_ids ∙ e in
      let (r, read, vids, old, _) =
        from_string-marshal_bits w [] [] codec f.valid (omega (arith, f.within))
          (last_id-lt ids w h (e, f)) (subst IsDistinct (sym q) d) m in
      (
        r,
        subst (λ vs. Text.from_string codec text vs ≡ ok r) q read,
        same_videos r w (vids ∙ q ∙ sym e)
            (λ i lt. ap (BitField.get r.bitfield) (from_zero i) ∙ old i lt),
      )

  -- What a round over a series may end with, of the source's and the target's field.
  pub Merged :
      {E : Type 0}
      → List Bytes
      → WatchedBitField
      → WatchedBitField
      → Result (SyncError E) (Option LibraryItem)
      → Type 0
  Merged ids s t (ok none) = (id : Bytes) → get_video s id ≡ true → get_video t id ≡ true
  Merged ids s t (ok (some item)) =
      Reads item.state.watched ids (λ id. get_video t id || get_video s id)
  Merged ids s t (err (bad_watched e)) = (m : WatchedBitField) × (Text.marshal_bits codec m ≡ err e)
  Merged ids s t (err (called e)) = ⊥
  Merged ids s t (err out_of_range) = ⊥

  module _ {E : Type 0} (fetch_video_ids : Bytes → Result E (List Bytes)) where
    write_back-Merged :
        (now last : Time) (ids : List Bytes) (source : LibraryItem) (target : Option LibraryItem)
        (s t m : WatchedBitField)
        → 0 < length ids
        → length ids < 2 ^ 63
        → IsDistinct ids
        → IsFieldOf ids m
        → ((id : Bytes) → get_video m id ≡ get_video t id || get_video s id)
        → Merged ids s t (write_back codec fetch_video_ids now source target m last)
    unfolding write_back Merged
    write_back-Merged now last ids source target s t m h big d f u =
        by_text (Text.marshal_bits codec m) refl
      where
        some_video : (id : Bytes) × (first_unwatched m ≡ some id)
        some_video = first_unwatched-some m (omega (arith, h, ap length f.0))

        by_text :
            (r : Result Error Bytes)
            → Text.marshal_bits codec m ≡ r
            → Merged ids s t (write_back codec fetch_video_ids now source target m last)
        by_text (err e) q = rw (q, write_back) (m, q)
        by_text (ok text) q =
            let (r, read, same) = saved-Reads ids m h big d f q in
            rw (q, write_back) (rw (some_video.1) (r, read, λ id. same id ∙ u id))

    pub target_field-IsFieldOf :
        (ids : List Bytes) (o : Option LibraryItem) {t : WatchedBitField}
        → 0 < length ids
        → target_field codec fetch_video_ids ids o ≡ ok t
        → IsFieldOf ids t
    target_field-IsFieldOf ids none {t} h e =
        let q : fresh_field ids ≡ t = cc in subst (IsFieldOf ids) q (fresh-IsFieldOf ids)
    target_field-IsFieldOf ids (some item) {t} h e =
        by_text (bytes_eq item.state.watched []) (Text.from_string codec item.state.watched ids)
          refl e
      where
        by_text :
            (b : Bool) (r : Result Error WatchedBitField)
            → Text.from_string codec item.state.watched ids ≡ r
            → ◌≡◌ {A = Result (SyncError E) WatchedBitField}
                (if b then ok (fresh_field ids) else watched codec fetch_video_ids r)
                (ok t)
            → IsFieldOf ids t
        by_text true r q e =
            let q' : fresh_field ids ≡ t = cc in subst (IsFieldOf ids) q' (fresh-IsFieldOf ids)
        by_text false (ok w) q e =
            let q' : w ≡ t = cc in subst (IsFieldOf ids) q' (from_string-IsFieldOf codec _ ids h q)
        by_text false (err x) q e = absurd (ground arith)

    finish-Merged :
        (now : Time) (ids : List Bytes) (source : LibraryItem) (target : Option LibraryItem)
        (s t : WatchedBitField)
        → 0 < length ids
        → length ids < 2 ^ 63
        → IsDistinct ids
        → IsFieldOf ids s
        → IsFieldOf ids t
        → Merged ids s t (
            finish codec fetch_video_ids now source target
              (mark_videos source.state.last_watched ids s (t, false, 0)))
    unfolding Merged
    finish-Merged now ids source target s t h big d fs ft =
        let at = source.state.last_watched in
        let m = mark_videos at ids s (t, false, 0) in
        let both = λ (id : Bytes). union at ids s t id fs ft in
        elim (Bool-cases m.1) [
          | inl needs ↦ rw needs (
              write_back-Merged now m.2 ids source target s t m.0 h big d
                (mark_videos-IsFieldOf at ids ids s t false 0 ft) both)
          | inr same ↦
              let q = mark_videos-false at ids s t 0 same in
              rw same (λ id e. ground (arith, ap (λ w. get_video w id) q, both id))
        ]

    -- When the episodes are known and both fields can be read, a sync of a series that the source
    -- has watched gives one of three results. It sends nothing, and the target has watched all that
    -- the source has. Or it sends an item whose watched field is read back with exactly the videos
    -- that the one or the other has watched. Or the field cannot be written. It never panics. The
    -- series has a video, no video stands twice, and there are less than 2^63.
    pub series_update-Merged :
        (now : Time) (targets : Assoc LibraryItem) (source : LibraryItem) {ids : List Bytes}
        {s t : WatchedBitField}
        → bytes_eq source.state.watched [] ≡ false
        → fetch_video_ids source.id ≡ ok ids
        → Text.from_string codec source.state.watched ids ≡ ok s
        → target_field codec fetch_video_ids ids (find targets source.id) ≡ ok t
        → 0 < length ids
        → length ids < 2 ^ 63
        → IsDistinct ids
        → Merged ids s t (series_update codec fetch_video_ids now targets source)
    unfolding series_update update_watched
    series_update-Merged now targets source {ids} {s} {t} w fe fs ft h big d =
        rw (w, fe, fs, ft)
          (finish-Merged now ids source (find targets source.id) s t h big d
            (from_string-IsFieldOf codec _ ids h fs)
            (target_field-IsFieldOf ids (find targets source.id) h ft))
