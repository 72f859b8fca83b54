-- ===== src/Titles/Markers.antt =====
-- The patterns of src/filmoteka/infrastructure/metadata_providers.py, in the order of the source.
use filmoteka.Prelude.{String, not, ◌||◌, List, [], ◌∷◌, ◌++◌, ◌==◌}
use filmoteka.Text.Regex.{
  Test, Regex, one, many, alt, opt, group, boundary, not_behind, not_ahead, within, is_digit,
  is_space, is_latin, is_russian, is_separator, exactly, word, separators, plus, ◌⨟◌,
}
use filmoteka.FilenameParser.Markers.{pair}

-- `\b…\b`
abbrev whole : Regex → Regex
whole r = boundary ⨟ r ⨟ boundary

-- `[.\s]*` between
abbrev dotted : Regex → Regex → Regex
dotted r s = r ⨟ many (λ c. (c == b'.') || is_space c) ⨟ s

unfoldable release_markers : List Regex
unfolding word
release_markers =
    (pair "WEB" "DL" ⨟ opt (word "Rip"))
    ∷ pair "WEB" "Rip"
    ∷ (word "HDTV" ⨟ opt (word "Rip"))
    ∷ whole (word "HDRip")
    ∷ pair "Blu" "Ray"
    ∷ word "BDRip"
    ∷ (word "DVD" ⨟ alt (word "Rip") (one (within b'5' b'9')))
    ∷ pair "SAT" "Rip"
    ∷ pair "TV" "Rip"
    ∷ pair "Tele" "Sync"
    ∷ pair "Cam" "Rip"
    ∷ (word "Pay" ⨟ separators ⨟ pair "Per" "View")
    ∷ word "PPV"
    ∷ []

unfoldable picture_markers : List Regex
unfolding word
picture_markers =
    (plus is_digit ⨟ separators ⨟ alt (word "p") (word "K") ⨟ opt (word "60"))
    ∷ pair "Ultra" "HD"
    ∷ word "UHD"
    ∷ pair "Full" "HD"
    ∷ word "FHD"
    ∷ (word "HDR" ⨟ many is_digit)
    ∷ pair "Dolby" "Vision"
    ∷ pair "10" "bit"
    ∷ pair "8" "bit"
    ∷ word "SDR"
    ∷ dotted (word "BT") (word "2020")
    ∷ dotted (word "BT") (word "709")
    ∷ []

unfoldable codec_markers : List Regex
unfolding word
codec_markers =
    dotted (alt (word "H") (word "X")) (word "26" ⨟ alt (word "4") (word "5"))
    ∷ whole (word "AVC")
    ∷ whole (word "HEVC")
    ∷ whole (word "VP" ⨟ alt (word "8") (word "9"))
    ∷ whole (word "AV1")
    ∷ whole (pair "MPEG" "2")
    ∷ whole (word "DivX")
    ∷ whole (word "Xvid")
    ∷ whole (word "AC3")
    ∷ whole (word "AAC" ⨟ opt (word "LC"))
    ∷ whole (word "DTS" ⨟ opt (separators ⨟ word "HD"))
    ∷ whole (word "TrueHD")
    ∷ whole (pair "E" "AC3")
    ∷ whole (word "FLAC")
    ∷ whole (word "MP3")
    ∷ whole (word "PCM")
    ∷ pair "Dolby" "Digital"
    ∷ []

-- `[a-zA-Zа-яё]`, in any case
abbrev is_letter : Test
is_letter c = is_latin c || is_russian c

-- A word that no letter touches.
abbrev lone : Regex → Regex
lone r = not_behind is_letter ⨟ r ⨟ not_ahead is_letter

unfoldable tongue_markers : List Regex
unfolding word
tongue_markers =
    lone (word "RUS" ⨟ opt (word "SIAN"))
    ∷ lone (word "DUB" ⨟ opt (alt (word "bed") (word "lyazh")))
    ∷ lone (word "SUB" ⨟ opt (alt (word "title" ⨟ opt (word "s")) (word "bed")))
    ∷ lone (word "Original")
    ∷ lone (word "ENG" ⨟ opt (word "lish"))
    ∷ (not_behind is_letter ⨟ word "PУС" ⨟ boundary)
    ∷ lone (word "Multi")
    ∷ lone (word "JPN" ⨟ opt (word "anese"))
    ∷ lone (word "FR" ⨟ opt (word "ench"))
    ∷ lone (word "GER" ⨟ opt (word "man"))
    ∷ lone (word "ITA" ⨟ opt (word "lian"))
    ∷ lone (word "SPA" ⨟ opt (word "nish"))
    ∷ []

unfoldable cut_markers : List Regex
unfolding word
cut_markers =
    (word "Director" ⨟ opt (word "'") ⨟ opt (word "s") ⨟ separators ⨟ word "Cut")
    ∷ pair "Extended" "Cut"
    ∷ pair "Theatrical" "Cut"
    ∷ (word "Remaster" ⨟ opt (word "ed"))
    ∷ word "Criterion"
    ∷ word "IMAX"
    ∷ pair "Open" "Matte"
    ∷ []

-- `_TECH_MARKERS`
unfoldable pub tech_markers : List Regex
unfolding release_markers picture_markers codec_markers tongue_markers cut_markers
tech_markers = release_markers ++ picture_markers ++ codec_markers ++ tongue_markers ++ cut_markers

abbrev numbered : String → Regex
numbered s = word s ⨟ separators ⨟ plus is_digit

-- `_BROADCAST_TAILS`
unfoldable pub broadcast_tails : List Regex
unfolding word
broadcast_tails =
    pair "Main" "Card"
    ∷ whole (word "Prelim" ⨟ opt (word "s"))
    ∷ pair "Predvaritelnyj" "Kard"
    ∷ pair "Preliminary" "Card"
    ∷ (pair "Early" "Prelim" ⨟ opt (word "s"))
    ∷ numbered "UFC"
    ∷ numbered "Bellator"
    ∷ numbered "PFL"
    ∷ whole (group (alt (word "Season") (alt (word "Episode") (word "Series"))))
    ∷ []

-- `_BRACKETED_GROUPS`
abbrev pub bracketed_groups : Regex
bracketed_groups =
    one (λ c. (c == b'[') || (c == b'{'))
    ⨟ many (λ c. not ((c == b']') || (c == b'}')))
    ⨟ one (λ c. (c == b']') || (c == b'}'))

-- `_SCENE_GROUP`
unfoldable pub scene_group : Regex
unfolding exactly
scene_group =
    boundary
    ⨟ exactly "by"
    ⨟ plus is_separator
    ⨟ one is_latin
    ⨟ many (λ c. is_latin c || is_digit c || is_separator c)
    ⨟ boundary

-- `s\d{1,2}e\d{1,2}`
abbrev season_episode : Regex
season_episode =
    word "s" ⨟ one is_digit ⨟ opt (one is_digit) ⨟ word "e" ⨟ one is_digit ⨟ opt (one is_digit)

-- The words that suggest a series.
unfoldable pub series_words : Regex
unfolding word
series_words = whole (
    group (
      alt (word "season") (
        alt (word "episode") (
          alt (word "series")
            (alt (pair "mini" "series") (alt (pair "tv" "series") season_episode))))))
