-- ===== src/Trakt/Gained.antt =====
-- What the history of Trakt adds to the watched field of a series: `syncSeriesFromTraktToStremio` of
-- internal/worker/sync_stremio_trakt.go.
use mathlib.Core.Path.{subst}
use resolver_addon.BitField.Codec.{Codec, Error}
use resolver_addon.Prelude.{
  ◌^◌, ◌<◌, ◌≡◌, refl, ap, ◌∙◌, Bool, true, false, ◌&&◌, ◌||◌, List, Option, none, some, Result, ok,
  err, ◌>>=◌, inl, inr, Bool-cases, length,
}
use resolver_addon.Prelude.Bytes.{Bytes, codes, bytes_eq}
use resolver_addon.Sync.{LibraryItem, Time}
use resolver_addon.Sync.Fits.{IsFieldOf}
use resolver_addon.Sync.Marks.{has}
use resolver_addon.Sync.Marked.{Reads, saved-Reads, target_field-IsFieldOf}
use resolver_addon.Sync.Series
use resolver_addon.Sync.Series.{SyncError, called, bad_watched, out_of_range}
use resolver_addon.Trakt.{Meta, HistoryItem, Failure, sync, unfinished, of_sync}
use resolver_addon.Trakt.SeriesFrom.{
  mark_history, write_series, series_item, field_of, set_watched, base_series,
}
use resolver_addon.Watched.{WatchedBitField, get_video, next_unwatched}
use resolver_addon.Watched.Text
use resolver_addon.Watched.Video.{IsDistinct}
use resolver_addon.Trakt.Marked.{
  in_history, mark_history-IsFieldOf, get_video-mark_history, mark_history-false,
}

watched-set_watched :
    (base : LibraryItem) (text : Bytes) (last : Time) (id : Bytes)
    → (set_watched base text last id).state.watched ≡ text
watched-set_watched base text last id = elim (Bool-cases (bytes_eq id base.state.video_id)) [
  | inl same ↦ rw same
  | inr other ↦ rw other
]

module _ (codec : Codec) {E : Type 0} where
  -- What a round over a show may end with, of the history and the field before.
  pub Gained :
      List Bytes
      → Bytes
      → List HistoryItem
      → WatchedBitField
      → Result (Failure E) (Option LibraryItem)
      → Type 0
  Gained ids imdb items t (ok none) =
      (id : Bytes) → in_history imdb items id ≡ true → get_video t id ≡ true
  Gained ids imdb items t (ok (some item)) =
      Reads codec item.state.watched ids
        (λ id. get_video t id || (has ids id && in_history imdb items id))
  Gained ids imdb items t (err (sync (bad_watched e))) =
      (m : WatchedBitField) × (Text.marshal_bits codec m ≡ err e)
  Gained ids imdb items t (err (sync (called e))) = ⊥
  Gained ids imdb items t (err (sync out_of_range)) = ⊥
  Gained ids imdb items t (err unfinished) = ⊥

  module _ (fetch_meta : Bytes → Bytes → Result E Meta)
      (library_items : List Bytes → Result E (List LibraryItem)) where
    field-IsFieldOf :
        (ids : List Bytes) (item : Option LibraryItem) {t : WatchedBitField}
        → 0 < length ids
        → field_of codec fetch_meta library_items ids item ≡ ok t
        → IsFieldOf ids t
    field-IsFieldOf ids item {t} h e =
        by_field (Series.target_field codec fetch_video_ids ids item) refl e
      where
        fetch_video_ids : Bytes → Result E (List Bytes)
        fetch_video_ids imdb =
            fetch_meta (codes "series") imdb >>= λ (meta : Meta). ok meta.video_ids

        by_field :
            (r : Result (SyncError E) WatchedBitField)
            → Series.target_field codec fetch_video_ids ids item ≡ r
            → of_sync r ≡ ok t
            → IsFieldOf ids t
        by_field (ok w) q e =
            let q' : w ≡ t = cc in
            subst (IsFieldOf ids) q' (target_field-IsFieldOf codec fetch_video_ids ids item h q)
        by_field (err x) q e = cc

    write_series-Gained :
        (now : Time) (imdb : Bytes) (items : List HistoryItem) (meta : Meta)
        (item : Option LibraryItem) (t w : WatchedBitField) (b : Bool) (l : Time)
        → 0 < length meta.video_ids
        → length meta.video_ids < 2 ^ 63
        → IsDistinct meta.video_ids
        → IsFieldOf meta.video_ids w
        → ((id : Bytes)
            → get_video w id
              ≡ get_video t id || (has meta.video_ids id && in_history imdb items id))
        → (b ≡ false → (id : Bytes) → in_history imdb items id ≡ true → get_video t id ≡ true)
        → Gained meta.video_ids imdb items t
            (write_series codec fetch_meta library_items now meta item (w, b, l))
    unfolding write_series Gained
    write_series-Gained now imdb items meta item t w false l h big d f u none_new = none_new refl
    write_series-Gained now imdb items meta item t w true l h big d f u none_new =
        by_text (Text.marshal_bits codec w) refl
      where
        by_text :
            (r : Result Error Bytes)
            → Text.marshal_bits codec w ≡ r
            → Gained meta.video_ids imdb items t
                (write_series codec fetch_meta library_items now meta item (w, true, l))
        by_text (err e) q = rw (q, write_series) (w, q)
        by_text (ok text) q =
            let (r, read, same) = saved-Reads codec meta.video_ids w h big d f q in
            let base = base_series codec fetch_meta library_items now meta item in
            let kept : (set_watched base text l (next_unwatched w)).state.watched ≡ text =
              watched-set_watched base text l (next_unwatched w) in
            rw (q, write_series)
              (
                r,
                ap (λ x. Text.from_string codec x meta.video_ids) kept ∙ read,
                λ id. same id ∙ u id,
              )

    -- The library has nothing of the show, or the item whose field can be read is `t`. When the metadata is
    -- there and lists distinct videos, a round over the history of a show ends in one of three ways. It writes
    -- no item, and every episode of the history was watched in the library. It writes an item, and the text of
    -- its field reads as the videos that were watched before, with those videos of the show that the history
    -- has, and no others. Or the codec fails on a field.
    pub series_item-Gained :
        (now : Time) (imdb : Bytes) (items : List HistoryItem) (item : Option LibraryItem)
        {meta : Meta} {t : WatchedBitField}
        → fetch_meta (codes "series") imdb ≡ ok meta
        → field_of codec fetch_meta library_items meta.video_ids item ≡ ok t
        → 0 < length meta.video_ids
        → length meta.video_ids < 2 ^ 63
        → IsDistinct meta.video_ids
        → Gained meta.video_ids imdb items t
            (series_item codec fetch_meta library_items now imdb items item)
    unfolding series_item
    series_item-Gained now imdb items item {meta} {t} fm ft h big d =
        let f = field-IsFieldOf meta.video_ids item h ft in
        let m = mark_history imdb items (t, false, 0) in
        rw (fm, ft)
          (write_series-Gained now imdb items meta item t m.0 m.1 m.2 h big d
            (mark_history-IsFieldOf meta.video_ids imdb items t false 0 f)
            (λ id. get_video-mark_history meta.video_ids imdb items t false 0 id f)
            (λ e id. mark_history-false imdb items t 0 id e))
