-- ===== src/FilenameParser/Markers.antt =====
-- The patterns of src/filmoteka/infrastructure/filename_parser.py.
use filmoteka.Prelude.{ℕ, String, ◌||◌, List, [], ◌∷◌, ◌==◌}
use filmoteka.Text.Regex.{
  Regex, one, many, alt, opt, group, not_behind, not_ahead, within, is_digit, is_latin, exactly,
  word, separators, plus, ◌⨟◌,
}

-- Two words with separators between them, in any case.
abbrev pub pair : String → String → Regex
pair a b = word a ⨟ separators ⨟ word b

unfoldable pub quality_markers : List Regex
unfolding exactly word
quality_markers =
    (plus is_digit ⨟ separators ⨟ exactly "p")
    ∷ (plus is_digit ⨟ separators ⨟ exactly "K")
    ∷ pair "WEB" "DL"
    ∷ pair "WEB" "Rip"
    ∷ pair "Blue" "Ray"
    ∷ pair "BLU" "Ray"
    ∷ pair "BD" "Rip"
    ∷ pair "HD" "Rip"
    ∷ pair "DVD" "Rip"
    ∷ pair "TV" "Rip"
    ∷ pair "Tele" "Sync"
    ∷ pair "Cam" "Rip"
    ∷ (word "HDR" ⨟ many is_digit)
    ∷ pair "Dolby" "Vision"
    ∷ pair "10" "bit"
    ∷ []

-- A word that no Latin letter touches, with a tail that may be missing.
abbrev pub alone : Regex → Regex → Regex
alone r tail = not_behind is_latin ⨟ r ⨟ opt tail ⨟ not_ahead is_latin

unfoldable pub language_markers : List Regex
unfolding exactly word
language_markers =
    (not_behind is_latin ⨟ exactly "RUS" ⨟ not_ahead is_latin)
    ∷ alone (word "DUB") (word "bed")
    ∷ alone (word "SUB") (word "title" ⨟ opt (word "s"))
    ∷ (not_behind is_latin ⨟ word "Original" ⨟ not_ahead is_latin)
    ∷ alone (word "ENG") (word "lish")
    ∷ (not_behind is_latin ⨟ word "Multi" ⨟ not_ahead is_latin)
    ∷ alone (word "JPN") (word "anese")
    ∷ alone (word "FR") (word "ench")
    ∷ alone (word "GER") (word "man")
    ∷ alone (word "ITA") (word "lian")
    ∷ alone (word "SPA") (word "nish")
    ∷ []

unfoldable pub edition_markers : List Regex
unfolding word
edition_markers =
    (word "Director" ⨟ opt (word "'") ⨟ opt (word "s") ⨟ separators ⨟ word "Cut")
    ∷ pair "Extended" "Cut"
    ∷ pair "Theatrical" "Cut"
    ∷ word "Theatrical"
    ∷ word "Uncut"
    ∷ word "Unrated"
    ∷ (word "Remaster" ⨟ opt (word "ed"))
    ∷ word "Criterion"
    ∷ word "IMAX"
    ∷ pair "3D" "SBS"
    ∷ pair "Open" "Matte"
    ∷ []

-- A character in both cases.
abbrev pub either : ℕ → ℕ → Regex
either a b = one (λ c. (c == a) || (c == b))

unfoldable pub series_patterns : List Regex
series_patterns =
    (either b'S' b's' ⨟ group (plus is_digit) ⨟ either b'E' b'e' ⨟ group (plus is_digit))
    ∷ (group (plus is_digit) ⨟ either b'X' b'x' ⨟ group (plus is_digit))
    ∷ []

-- `(19\d\d|20[0-2]\d)`, without the group: 19 and two digits, or 20, a digit up to 2 and a digit
unfoldable pub year_pattern : Regex
unfolding exactly
year_pattern =
    alt (exactly "19" ⨟ one is_digit ⨟ one is_digit)
      (exactly "20" ⨟ one (within b'0' b'2') ⨟ one is_digit)
