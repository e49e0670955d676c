-- ===== src/Sync/Series.antt =====
-- `syncSeries`: the episodes that the source has watched are marked in the target's watched field.
-- The episodes of a series come from Cinemeta, which is a parameter.
use resolver_addon.BitField
use resolver_addon.BitField.Codec.{Codec, Error}
use resolver_addon.Prelude.{
  Bool, true, false, not, ◌&&◌, List, [], ◌∷◌, Option, none, some, Result, ok, err, ◌>>=◌,
  if◌then◌else◌, length,
}
use resolver_addon.Prelude.Assoc.{Assoc, find}
use resolver_addon.Prelude.Bytes.{Bytes, bytes_eq}
use resolver_addon.Sync.{LibraryItem, Time, base_item, later, by_id, cons_some}
use resolver_addon.Watched.{WatchedBitField, get_video, set_video, first_unwatched}
use resolver_addon.Watched.Text

-- An error of a call, an error of a watched field, or a panic.
pub data SyncError (E : Type 0) : Type 0 where
  called : E → SyncError E
  bad_watched : Error → SyncError E
  out_of_range : SyncError E

-- The target's field, whether it has changed, and when its new videos were watched.
abbrev pub Marks : Type 0
Marks = WatchedBitField × Bool × Time

abbrev pub is_news : WatchedBitField → WatchedBitField → Bytes → Bool
is_news source target id = get_video source id && not (get_video target id)

-- The loop over the episodes; `at` is when the source was last watched.
unfoldable pub mark_videos : Time → List Bytes → WatchedBitField → Marks → Marks
mark_videos at [] source marks = marks
mark_videos at (id ∷ ids) source (target, needs, last) =
    let news = is_news source target id in
    mark_videos at ids source (
      if news then set_video target id true else target,
      if news then true else needs,
      if news then later at last else last,
    )

abbrev pub fresh_field : List Bytes → WatchedBitField
fresh_field ids = record { bitfield = BitField.new (length ids); video_ids = ids }

module _ {E : Type 0} (codec : Codec) (fetch_video_ids : Bytes → Result E (List Bytes)) where
  abbrev pub fetched : Result E (List Bytes) → Result (SyncError E) (List Bytes)
  fetched (ok ids) = ok ids
  fetched (err e) = err (called e)

  abbrev pub watched {ℓ} : {A : Type ℓ} → Result Error A → Result (SyncError E) A
  watched (ok a) = ok a
  watched (err e) = err (bad_watched e)

  abbrev pub target_field : List Bytes → Option LibraryItem → Result (SyncError E) WatchedBitField
  target_field ids none = ok (fresh_field ids)
  target_field ids (some target) =
      if bytes_eq target.state.watched []
      then ok (fresh_field ids)
      else watched (Text.from_string codec target.state.watched ids)

  abbrev video_or_panic : Option Bytes → Result (SyncError E) Bytes
  video_or_panic none = err out_of_range
  video_or_panic (some id) = ok id

  abbrev pub set_watched : LibraryItem → Bytes → Time → Bytes → LibraryItem
  set_watched base text last video_id = record base {
    state = record base.state {
      watched = text;
      last_watched = later last base.state.last_watched;
      video_id = video_id;
    };
  }

  unfoldable pub write_back :
      Time
      → LibraryItem
      → Option LibraryItem
      → WatchedBitField
      → Time
      → Result (SyncError E) (Option LibraryItem)
  write_back now source target marked last = do
    text ← watched (Text.marshal_bits codec marked)
    video_id ← video_or_panic (first_unwatched marked)
    ok (some (set_watched (base_item now source target) text last video_id))

  -- if needsUpdate
  abbrev pub finish :
      Time → LibraryItem → Option LibraryItem → Marks → Result (SyncError E) (Option LibraryItem)
  finish now source target (marked, needs, last) =
      if needs then write_back now source target marked last else ok none

  unfoldable pub update_watched :
      Time → Option LibraryItem → LibraryItem → Result (SyncError E) (Option LibraryItem)
  unfolding mark_videos write_back
  update_watched now target source = do
    ids ← fetched (fetch_video_ids source.id)
    from ← watched (Text.from_string codec source.state.watched ids)
    to ← target_field ids target
    finish now source target (mark_videos source.state.last_watched ids from (to, false, 0))

  -- One round of the loop over the source's series.
  unfoldable pub series_update :
      Time → Assoc LibraryItem → LibraryItem → Result (SyncError E) (Option LibraryItem)
  unfolding update_watched
  series_update now targets source =
      if bytes_eq source.state.watched []
      then ok none
      else update_watched now (find targets source.id) source

  -- The first error ends the loop, and nothing is sent.
  unfoldable pub series_updates :
      Time → Assoc LibraryItem → List LibraryItem → Result (SyncError E) (List LibraryItem)
  unfolding series_update
  series_updates now targets [] = ok []
  series_updates now targets (source ∷ sources) =
      let rest = series_updates now targets sources in
      series_update now targets source >>= λ item. rest >>= λ items. ok (cons_some item items)

  unfoldable pub sync_series :
      Time → (sources targets : List LibraryItem) → Result (SyncError E) (List LibraryItem)
  unfolding series_updates
  sync_series now sources targets = series_updates now (by_id targets []) sources
