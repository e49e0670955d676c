-- ===== src/Torznab/Category.antt =====
-- The categories of internal/torznab/category.go and their parents.
use resolver_addon.Prelude.{ℕ, List, [], ◌∷◌, ◌++◌, if◌then◌else◌}
use resolver_addon.Prelude.Bytes.{Bytes, codes}
use resolver_addon.Prelude.Int.{ℤ, pos, ltb_ℤ, eqb_ℤ}

pub record Category : Type 0 where
  pub id : ℤ
  pub name : Bytes

-- The entries of the table.
abbrev pub category : ℕ → Bytes → Category
category id name = record { id = pos id; name = name }

abbrev pub category_other : Category
category_other = category 0 (codes "Other")

abbrev pub category_console : Category
category_console = category 1000 (codes "Console")

abbrev pub category_movies : Category
category_movies = category 2000 (codes "Movies")

abbrev pub category_audio : Category
category_audio = category 3000 (codes "Audio")

abbrev pub category_pc : Category
category_pc = category 4000 (codes "PC")

abbrev pub category_tv : Category
category_tv = category 5000 (codes "TV")

abbrev pub category_xxx : Category
category_xxx = category 6000 (codes "XXX")

abbrev pub category_books : Category
category_books = category 7000 (codes "Books")

abbrev other_categories : List Category
other_categories =
    category_other ∷ category 10 (codes "Other/Misc") ∷ category 20 (codes "Other/Hashed") ∷ []

abbrev console_categories : List Category
console_categories =
    category_console
    ∷ category 1010 (codes "Console/NDS")
    ∷ category 1020 (codes "Console/PSP")
    ∷ category 1030 (codes "Console/Wii")
    ∷ category 1040 (codes "Console/Xbox")
    ∷ category 1050 (codes "Console/Xbox360")
    ∷ category 1060 (codes "Console/Wiiware/V")
    ∷ category 1070 (codes "Console/Xbox360")
    ∷ category 1080 (codes "Console/PS3")
    ∷ category 1999 (codes "Console/Other")
    ∷ category 1110 (codes "Console/3DS")
    ∷ category 1120 (codes "Console/PS Vita")
    ∷ category 1130 (codes "Console/WiiU")
    ∷ category 1140 (codes "Console/XboxOne")
    ∷ category 1180 (codes "Console/PS4")
    ∷ []

abbrev movie_categories : List Category
movie_categories =
    category_movies
    ∷ category 2010 (codes "Movies/Foreign")
    ∷ category 2020 (codes "Movies/Other")
    ∷ category 2030 (codes "Movies/SD")
    ∷ category 2040 (codes "Movies/HD")
    ∷ category 2050 (codes "Movies/3D")
    ∷ category 2060 (codes "Movies/BluRay")
    ∷ category 2070 (codes "Movies/DVD")
    ∷ category 2080 (codes "Movies/WEBDL")
    ∷ []

abbrev audio_categories : List Category
audio_categories =
    category_audio
    ∷ category 3010 (codes "Audio/MP3")
    ∷ category 3020 (codes "Audio/Video")
    ∷ category 3030 (codes "Audio/Audiobook")
    ∷ category 3040 (codes "Audio/Lossless")
    ∷ category 3999 (codes "Audio/Other")
    ∷ category 3060 (codes "Audio/Foreign")
    ∷ []

abbrev pc_categories : List Category
pc_categories =
    category_pc
    ∷ category 4010 (codes "PC/0day")
    ∷ category 4020 (codes "PC/ISO")
    ∷ category 4030 (codes "PC/Mac")
    ∷ category 4040 (codes "PC/Phone-Other")
    ∷ category 4050 (codes "PC/Games")
    ∷ category 4060 (codes "PC/Phone-IOS")
    ∷ category 4070 (codes "PC/Phone-Android")
    ∷ []

abbrev tv_categories : List Category
tv_categories =
    category_tv
    ∷ category 5010 (codes "TV/WEB-DL")
    ∷ category 5020 (codes "TV/Foreign")
    ∷ category 5030 (codes "TV/SD")
    ∷ category 5040 (codes "TV/HD")
    ∷ category 5999 (codes "TV/Other")
    ∷ category 5060 (codes "TV/Sport")
    ∷ category 5070 (codes "TV/Anime")
    ∷ category 5080 (codes "TV/Documentary")
    ∷ []

abbrev xxx_categories : List Category
xxx_categories =
    category_xxx
    ∷ category 6010 (codes "XXX/DVD")
    ∷ category 6020 (codes "XXX/WMV")
    ∷ category 6030 (codes "XXX/XviD")
    ∷ category 6040 (codes "XXX/x264")
    ∷ category 6999 (codes "XXX/Other")
    ∷ category 6060 (codes "XXX/Imageset")
    ∷ category 6070 (codes "XXX/Packs")
    ∷ []

abbrev book_categories : List Category
book_categories =
    category_books
    ∷ category 7010 (codes "Books/Magazines")
    ∷ category 7020 (codes "Books/Ebook")
    ∷ category 7030 (codes "Books/Comics")
    ∷ category 7040 (codes "Books/Technical")
    ∷ category 7060 (codes "Books/Foreign")
    ∷ category 7999 (codes "Books/Unknown")
    ∷ []

unfoldable pub all_categories : List Category
all_categories =
    other_categories ++ console_categories ++ movie_categories ++ audio_categories ++ pc_categories
    ++ tv_categories ++ xxx_categories ++ book_categories

-- ParentCategory
unfoldable pub parent_category : Category → Category
parent_category c =
    if ltb_ℤ c.id (pos 1000)
    then category_other
    else if ltb_ℤ c.id (pos 2000)
    then category_console
    else if ltb_ℤ c.id (pos 3000)
    then category_movies
    else if ltb_ℤ c.id (pos 4000)
    then category_audio
    else if ltb_ℤ c.id (pos 5000)
    then category_pc
    else if ltb_ℤ c.id (pos 6000)
    then category_tv
    else if ltb_ℤ c.id (pos 7000)
    then category_xxx
    else if ltb_ℤ c.id (pos 8000)
    then category_books
    else category_other

-- The inner loop of Subset: the category, once for each id that is its own.
unfoldable pub times_named : Category → List ℤ → List Category
times_named c [] = []
times_named c (id ∷ ids) = let rest = times_named c ids in if eqb_ℤ c.id id then c ∷ rest else rest

unfoldable pub subset_from : List Category → List ℤ → List Category
subset_from [] ids = []
subset_from (c ∷ cats) ids = times_named c ids ++ subset_from cats ids

-- Subset walks the whole table, whatever its receiver is.
abbrev pub subset : List Category → List ℤ → List Category
subset receiver ids = subset_from all_categories ids
