-- ===== src/StremId/Examples.antt =====
-- Tests of the normalized ids.
use resolver_addon.Prelude.Affix.{cut_prefix}
use resolver_addon.Prelude.{
  ◌≡◌, refl, ℕ, Bool, true, false, List, [], ◌∷◌, Option, none, some, if◌then◌else◌, Result, ok,
  err, arith,
}
use resolver_addon.Prelude.Bytes.{Bytes, codes}
use resolver_addon.StremId.{
  NormalizedStremId, IdMaps, StremIdError, to_string, clean_strem_id, normalize_stream_id,
}
use resolver_addon.StremId.RoundTrip.{IsNormalized, normalize_stream_id-to_string}

abbrev no_entry : Bytes → Result Bytes (Bytes × Bytes)
no_entry id = err (codes "not found")

abbrev some_maps : IdMaps Bytes
some_maps = record {
  get_cached = λ sid. none;
  add_cached = λ sid nsid. none;
  get_anidb_season_by_id = λ id. ok (codes "2");
  get_anidb_id_by_kitsu_id = λ id. ok (codes "23", codes "1");
  get_anidb_id_by_mal_id = no_entry;
}

abbrev episode_id : NormalizedStremId
episode_id = record { is_anime = false; id = codes "tt1"; episode = codes "5"; season = codes "2" }

clean_test : clean_strem_id (codes "anidb:17:3") ≡ codes "anidb:17"
unfolding clean_strem_id resolver_addon.Prelude.Affix.cut_prefix
clean_test = refl

kitsu_test :
    normalize_stream_id some_maps (codes "kitsu:9:4")
    ≡ ok record { is_anime = true; id = codes "23"; episode = codes "4"; season = codes "1" }
unfolding normalize_stream_id resolver_addon.Prelude.Affix.cut_prefix
kitsu_test = refl

unsupported_test :
    normalize_stream_id some_maps (codes "imdb:1") ≡ err StremIdError.unsupported_strem_id
unfolding normalize_stream_id resolver_addon.Prelude.Affix.cut_prefix
unsupported_test = refl

episode_id-IsNormalized : IsNormalized some_maps episode_id
episode_id-IsNormalized =
    IsNormalized.series (codes "1") [] (codes "5") 50 (ground arith, tt) (ground arith, tt)

normalize_stream_id-to_string_example :
    normalize_stream_id some_maps (to_string episode_id) ≡ ok episode_id
normalize_stream_id-to_string_example =
    normalize_stream_id-to_string some_maps episode_id episode_id-IsNormalized refl refl
