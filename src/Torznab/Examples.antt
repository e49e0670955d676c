-- ===== src/Torznab/Examples.antt =====
-- Tests of the Torznab queries and categories of internal/torznab, and the theorems on inputs of theirs.
use mathlib.Core.List.Perm
use resolver_addon.Prelude.{◌≡◌, refl, false, [], ◌∷◌, ok, err, inr, arith}
use resolver_addon.Prelude.Affix.{cut_prefix}
use resolver_addon.Prelude.Bytes.{codes, bytes_eq, split}
use resolver_addon.Prelude.Decimal.{atoi}
use resolver_addon.Prelude.Int.{pos, ◌≤ℤ◌, ◌+ℤ◌}
use resolver_addon.Torznab.Category.{
  category, category_tv, category_books, parent_category, subset, all_categories, subset_from,
  times_named,
}
use resolver_addon.Torznab.Query.{Query, Values, to_values}
use resolver_addon.Torznab.ParseQuery.{
  empty_query, parse_query, multiple, invalid, no_value, parse_from, param_of, single, number,
}
use resolver_addon.Torznab.RoundTrip.{IsPrintable, parse_query-to_values}
use resolver_addon.Torznab.Accept.{accepts, is_ok, parse_query-accepts}
use resolver_addon.Torznab.Parents.{parent_category-bounds}

abbrev episode_query : Query
episode_query = record empty_query {
  type = codes "tvsearch";
  q = codes "the llama show";
  ep = codes "5";
  season = codes "2";
  limit = pos 50;
  categories = pos 5000 ∷ pos 5040 ∷ [];
  imdb_id = codes "tt0123456";
  trakt_id = codes "77";
}

season_test : parse_query ((codes "Season", codes "2x" ∷ []) ∷ []) ≡ err (invalid (codes "season"))
unfolding parse_from single number atoi
season_test = refl

repeated_test :
    parse_query ((codes "t", codes "search" ∷ codes "movie" ∷ []) ∷ []) ≡ err (multiple (codes "t"))
unfolding parse_from single
repeated_test = refl

empty_test : parse_query ((codes "t", []) ∷ []) ≡ err no_value
unfolding parse_from single
empty_test = refl

imdbid_test :
    parse_query ((codes "imdbid", codes "0123456" ∷ []) ∷ [])
    ≡ ok (record empty_query { imdb_id = codes "tt0123456" })
unfolding parse_from single cut_prefix
imdbid_test = refl

subset_test :
    subset [] (pos 5040 ∷ pos 5000 ∷ pos 1 ∷ []) ≡ category_tv ∷ category 5040 (codes "TV/HD") ∷ []
unfolding subset_from all_categories times_named
subset_test = refl

episode-IsPrintable : IsPrintable episode_query
unfolding atoi cut_prefix
episode-IsPrintable = record {
  ep = inr (pos 5, refl);
  season = inr (pos 2, refl);
  year = omega arith;
  limit = omega arith;
  offset = omega arith;
  categories = (omega arith, (omega arith, tt));
  imdb_id = inr (codes "0123456", refl, refl);
}

parse_query-to_values_example :
    parse_query (to_values episode_query) ≡ ok (record episode_query { trakt_id = [] })
unfolding bytes_eq
parse_query-to_values_example = parse_query-to_values episode_query episode-IsPrintable

-- Two orders of the same values.
abbrev one_order : Values
one_order = (codes "cat", codes "5000,x" ∷ []) ∷ (codes "t", codes "movie" ∷ []) ∷ []

abbrev other_order : Values
other_order = (codes "t", codes "movie" ∷ []) ∷ (codes "cat", codes "5000,x" ∷ []) ∷ []

not_accepted : accepts other_order ≡ false
unfolding accepts param_of split atoi
not_accepted = refl

parse_query-accepts_example : is_ok (parse_query one_order) ≡ accepts other_order
parse_query-accepts_example =
    parse_query-accepts {v = other_order} {w = one_order} (Perm.swap _ _ _)

parent_category-bounds_example :
    ((parent_category category_books).id ≤ℤ pos 7000)
    × (pos 7000 ≤ℤ (parent_category category_books).id +ℤ pos 999)
    × (parent_category (parent_category category_books) ≡ parent_category category_books)
parent_category-bounds_example = parent_category-bounds category_books (omega arith) (omega arith)
