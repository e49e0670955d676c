-- ===== src/Sync.antt =====
-- The library items of two Stremio accounts, and which of them a sync sends to the other account:
-- internal/stremio/api/types.go, internal/sync/stremio_stremio/db.go, and the executor of
-- internal/worker/sync_stremio_stremio.go. A time is a number, and 0 is Go's zero time.
pub mod Movies
pub mod Twice
pub mod Series
pub mod Fits
pub mod Marks
pub mod Marked
pub mod Accounts
pub mod Frame
pub mod Examples
use resolver_addon.Prelude.{
  ℕ, ◌≡◌, Bool, true, false, ◌&&◌, ◌||◌, not, List, [], ◌∷◌, Option, none, some, ltb, ◌==◌,
  if◌then◌else◌,
}
use resolver_addon.Prelude.Assoc.{Assoc, store}
use resolver_addon.Prelude.Bytes.{Bytes, codes, bytes_eq}
use resolver_addon.Prelude.Int.{ℤ, pos, negsuc}

abbrev pub Time : Type 0
Time = ℕ

pub record LibraryItemBehaviorHints : Type 0 where
  pub default_video_id : Bytes
  pub featured_video_id : Bytes
  pub has_scheduled_videos : Bool

pub record LibraryItemState : Type 0 where
  pub last_watched : Time
  pub time_watched : ℤ
  pub time_offset : ℤ
  pub overall_time_watched : ℤ
  pub times_watched : ℤ
  pub flagged_watched : ℤ
  pub duration : ℤ
  pub video_id : Bytes
  pub watched : Bytes
  pub no_notif : Bool
  pub season : ℤ
  pub episode : ℤ

-- The field `Type` is `kind`.
pub record LibraryItem : Type 0 where
  pub id : Bytes
  pub removed : Bool
  pub temp : Bool
  pub c_time : Time
  pub m_time : Time
  pub state : LibraryItemState
  pub name : Bytes
  pub kind : Bytes
  pub poster : Bytes
  pub poster_shape : Bytes
  pub background : Bytes
  pub logo : Bytes
  pub year : Bytes
  pub behavior_hints : Option LibraryItemBehaviorHints

-- LibraryItemState{}
abbrev pub empty_state : LibraryItemState
empty_state = record {
  last_watched = 0;
  time_watched = pos 0;
  time_offset = pos 0;
  overall_time_watched = pos 0;
  times_watched = pos 0;
  flagged_watched = pos 0;
  duration = pos 0;
  video_id = [];
  watched = [];
  no_notif = false;
  season = pos 0;
  episode = pos 0;
}

-- if a.After(b) { b = a }
abbrev pub later : Time → Time → Time
later a b = if ltb b a then a else b

-- targetItemByImdbId: a later item takes the place of an earlier one with its id.
unfoldable pub by_id : List LibraryItem → Assoc LibraryItem → Assoc LibraryItem
by_id [] m = m
by_id (item ∷ items) m = by_id items (store m item.id item)

-- The item to write to: the target's own, or a copy of the source's with no state.
abbrev pub base_item : Time → LibraryItem → Option LibraryItem → LibraryItem
base_item now source (some target) = record target { m_time = now }
base_item now source none = record source {
  state = empty_state;
  removed = false;
  temp = false;
  c_time = now;
  m_time = now;
}

-- itemsToUpdate grows by an item, or stays.
abbrev pub cons_some : Option LibraryItem → List LibraryItem → List LibraryItem
cons_some none items = items
cons_some (some item) items = item ∷ items

pub data SyncDirection : Type 0 where
  dir_none a_to_b b_to_a both : SyncDirection

unfoldable pub should_sync_a_to_b : SyncDirection → Bool
should_sync_a_to_b a_to_b = true
should_sync_a_to_b both = true
should_sync_a_to_b _ = false

unfoldable pub should_sync_b_to_a : SyncDirection → Bool
should_sync_b_to_a b_to_a = true
should_sync_b_to_a both = true
should_sync_b_to_a _ = false

unfoldable pub is_disabled : SyncDirection → Bool
is_disabled dir_none = true
is_disabled _ = false
