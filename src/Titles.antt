-- ===== src/Titles.antt =====
-- The titles made of file names for searches at OMDB: `clean_title_for_omdb` and `detect_search_type` of
-- src/filmoteka/infrastructure/metadata_providers.py.
pub mod Markers
pub mod Plain
mod Tests
use Prim.Native.Char.{Char, code}
use filmoteka.Prelude.{
  ℕ, ◌+◌, String, Bool, true, false, not, ◌&&◌, ◌||◌, Option, none, some, List, [], ◌∷◌, ◌++◌,
  if◌then◌else◌, ◌==◌,
}
use filmoteka.Text.Case.{lower}
use filmoteka.Text.Strip.{strip}
use filmoteka.Text.Regex.{
  Chars, Test, Regex, one, many, alt, opt, group, boundary, at_start, at_end, Match, chars, text,
  search, sub, match_text, before_match, after_match, plus, within, is_digit, is_space, is_latin,
  is_russian, is_separator, exactly, separators, word, ◌⨟◌,
}
use filmoteka.FilenameParser.{number_from, is_cruft}
use filmoteka.Titles.Markers.{
  tech_markers, broadcast_tails, bracketed_groups, scene_group, series_words,
}

pub record CleanedTitle : Type 0 where
  pub title : String
  pub year : Option ℕ

-- A blank in the place of what is removed.
abbrev blank : Chars
blank = " " ∷ []

-- `_remove_patterns`
unfoldable pub remove_patterns : Chars → List Regex → Chars
unfolding sub
remove_patterns s [] = s
remove_patterns s (r ∷ rs) = remove_patterns (sub r blank s) rs

-- `re.sub(r"\s+", " ", text).strip()`
unfoldable pub squeeze : Chars → Chars
unfolding sub strip
squeeze s = strip (sub (plus is_space) blank s)

-- Steps 1 to 5.
unfoldable pub without_markers : Chars → Chars
unfolding sub squeeze remove_patterns tech_markers broadcast_tails
without_markers raw =
    let ungrouped = squeeze (sub bracketed_groups blank raw) in
    let spaced = sub (plus is_separator) blank ungrouped in
    let untagged = squeeze (remove_patterns spaced tech_markers) in
    let unsigned = squeeze (sub scene_group blank untagged) in
    squeeze (remove_patterns unsigned broadcast_tails)

-- `\((\d{4})\)`
abbrev pub bracketed_year : Regex
bracketed_year =
    one (◌== b'(')
    ⨟ group (one is_digit ⨟ one is_digit ⨟ one is_digit ⨟ one is_digit)
    ⨟ one (◌== b')')

-- `(?:^|\s)((?:19\d\d|20[0-2]\d))(?:\s|$)`
abbrev pub lone_year : Regex
lone_year =
    alt at_start (one is_space)
    ⨟ group (
        alt (one (◌== b'1') ⨟ one (◌== b'9') ⨟ one is_digit ⨟ one is_digit)
          (one (◌== b'2') ⨟ one (◌== b'0') ⨟ one (within b'0' b'2') ⨟ one is_digit))
    ⨟ alt (one is_space) at_end

abbrev pub first_group : List Chars → Chars
first_group [] = []
first_group (g ∷ groups) = g

-- The first group of a match, read as a number, and the text with a blank for the match.
abbrev pub taken_year : Match → Option ℕ × Chars
taken_year m =
    (some (number_from 0 (first_group m.1.groups)), before_match m ++ " " ∷ after_match m)

-- Step 6.
unfoldable pub take_year : Chars → Option ℕ × Chars
unfolding search
take_year s = elim (search bracketed_year s) [
  | some m ↦ taken_year m
  | none ↦ elim (search lone_year s) [ none ↦ (none, s) | some m ↦ taken_year m ]
]

-- `[–—−]`
abbrev pub is_dash : Test
is_dash c = (c == 8211) || (c == 8212) || (c == 8722)

abbrev pub spaced_out : ℕ → Regex
spaced_out c = many is_space ⨟ one (◌== c) ⨟ many is_space

-- Step 7.
unfoldable pub normalise_marks : Chars → Chars
unfolding sub squeeze
normalise_marks s =
    let dashed = sub (one is_dash) ("-" ∷ []) s in
    let listed = squeeze (sub (spaced_out b':') (":" ∷ " " ∷ []) dashed) in
    squeeze (sub (spaced_out b'-') (" " ∷ "-" ∷ " " ∷ []) listed)

-- `[^a-zA-Zа-яёА-ЯЁ0-9)]`
abbrev pub is_tail_cruft : Test
is_tail_cruft c = is_cruft c && not (c == b')')

-- Step 8 and the last `strip()`.
unfoldable pub trim_cruft : Chars → Chars
unfolding sub strip
trim_cruft s = strip (sub (plus is_tail_cruft ⨟ at_end) [] (sub (at_start ⨟ plus is_cruft) [] s))

unfoldable pub clean_title_for_omdb : String → CleanedTitle
unfolding without_markers take_year normalise_marks trim_cruft text
clean_title_for_omdb raw =
    let dated = take_year (without_markers (chars raw)) in
    record { title = text (trim_cruft (normalise_marks dated.1)); year = dated.0 }

unfoldable pub detect_search_type : String → Option ℕ → Option String
unfolding search series_words lower
detect_search_type film_title (some series_id) = some "series"
detect_search_type film_title none = elim (search series_words (chars (lower film_title))) [
  | some m ↦ some "series"
  | none ↦ some "movie"
]
