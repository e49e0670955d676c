-- ===== src/Sync/Movies.antt =====
-- `syncMovies`: a movie that the source has watched and the target has not is marked there.
use resolver_addon.Prelude.{
  Bool, false, List, [], ◌∷◌, Option, none, some, ltb, ◌==◌, if◌then◌else◌,
}
use resolver_addon.Prelude.Assoc.{Assoc, find}
use resolver_addon.Prelude.Int.{ℤ, pos, negsuc}
use resolver_addon.Sync.{LibraryItem, Time, base_item, later, by_id, cons_some}

abbrev pub is_zero : ℤ → Bool
is_zero (pos n) = n == 0
is_zero (negsuc n) = false

abbrev pub is_positive : ℤ → Bool
is_positive (pos n) = ltb 0 n
is_positive (negsuc n) = false

-- exists && targetItem.State.TimesWatched > 0
abbrev pub has_watched : Option LibraryItem → Bool
has_watched none = false
has_watched (some target) = is_positive target.state.times_watched

abbrev pub mark_watched : LibraryItem → LibraryItem → LibraryItem
mark_watched source base = record base {
  state = record base.state {
    times_watched = pos 1;
    last_watched = later source.state.last_watched base.state.last_watched;
  };
}

-- One round of the loop over the source's movies.
unfoldable pub movie_update : Time → Assoc LibraryItem → LibraryItem → Option LibraryItem
movie_update now targets source =
    let target = find targets source.id in
    if is_zero source.state.times_watched
    then none
    else if has_watched target
    then none
    else some (mark_watched source (base_item now source target))

-- itemsToUpdate
unfoldable pub movie_updates : Time → Assoc LibraryItem → List LibraryItem → List LibraryItem
unfolding movie_update
movie_updates now targets [] = []
movie_updates now targets (source ∷ sources) =
    cons_some (movie_update now targets source) (movie_updates now targets sources)

-- The items of the call to the target account; there is no call for none.
unfoldable pub sync_movies : Time → (sources targets : List LibraryItem) → List LibraryItem
unfolding movie_updates
sync_movies now sources targets = movie_updates now (by_id targets []) sources
