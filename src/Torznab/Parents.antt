-- ===== src/Torznab/Parents.antt =====
-- The parents of the categories of internal/torznab/category.go, and the tests of query.go on categories.
use resolver_addon.Prelude.{
  ◌≡◌, refl, Bool, true, false, not, ◌&&◌, List, [], ◌∷◌, arith, if◌then◌else◌,
}
use resolver_addon.Prelude.Int.{ℤ, pos, negsuc, ltb_ℤ, eqb_ℤ, ◌≤ℤ◌, ◌+ℤ◌}
use resolver_addon.Torznab.Category.{Category, parent_category}
use resolver_addon.Torznab.Query.{Query, has_in_range, has_tv_shows, has_movies}

-- The parent of the category with this id.
abbrev parent_of : ℤ → Category
parent_of id = parent_category (record { id = id; name = [] })

-- One of the categories has the parent with this id.
pub any_child : ℤ → List ℤ → Bool
any_child parent [] = false
any_child parent (cat ∷ cats) =
    let rest = any_child parent cats in if eqb_ℤ (parent_of cat).id parent then true else rest

in_range : ℤ → ℤ → ℤ → Bool
in_range low high cat = not (ltb_ℤ cat low) && ltb_ℤ cat high

is_tv : (z : ℤ) → eqb_ℤ (parent_of z).id (pos 5000) ≡ in_range (pos 5000) (pos 6000) z
unfolding parent_category in_range
is_tv (pos n) = ground arith
is_tv (negsuc n) = ground arith

is_movie : (z : ℤ) → eqb_ℤ (parent_of z).id (pos 2000) ≡ in_range (pos 2000) (pos 3000) z
unfolding parent_category in_range
is_movie (pos n) = ground arith
is_movie (negsuc n) = ground arith

any_child-lem :
    (parent low high : ℤ) (cats : List ℤ)
    → ((z : ℤ) → eqb_ℤ (parent_of z).id parent ≡ in_range low high z)
    → has_in_range low high cats ≡ any_child parent cats
unfolding has_in_range any_child in_range
any_child-lem parent low high [] h = refl
any_child-lem parent low high (z ∷ zs) h = ground (arith, h z, any_child-lem parent low high zs h)

-- HasTVShows and HasMovies tell whether one of the categories of the query, in the table or not, has the
-- category "TV", or "Movies", as its parent.
pub has_kinds-any_child :
    (query : Query)
    → (has_tv_shows query ≡ any_child (pos 5000) query.categories)
      × (has_movies query ≡ any_child (pos 2000) query.categories)
has_kinds-any_child query = (
  any_child-lem (pos 5000) (pos 5000) (pos 6000) query.categories is_tv,
  any_child-lem (pos 2000) (pos 2000) (pos 3000) query.categories is_movie,
)

-- A category from 0 to 7999, in the table or not, is at least its parent and at most 999 above it, and
-- its parent is its own parent.
pub parent_category-bounds :
    (c : Category)
    → pos 0 ≤ℤ c.id
    → c.id ≤ℤ pos 7999
    → ((parent_category c).id ≤ℤ c.id)
      × (c.id ≤ℤ (parent_category c).id +ℤ pos 999)
      × (parent_category (parent_category c) ≡ parent_category c)
unfolding parent_category ◌+ℤ◌
parent_category-bounds c low high = ground arith
