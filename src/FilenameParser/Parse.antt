-- ===== src/FilenameParser/Parse.antt =====
-- `parse_filename` of src/filmoteka/infrastructure/filename_parser.py.
use filmoteka.Prelude.{ℕ, String, Option, none, some, List, [], ◌∷◌, ◌++◌}
use filmoteka.Text.{zfill}
use filmoteka.Text.Regex.{
  Chars, Regex, Match, chars, text, search, sub, match_text, before_match, cut, plus, is_space,
}
use filmoteka.Paths.Suffixes.{stem}
use filmoteka.FilenameParser.{ParsedFilename, number_from, clean_title, first_of, extract_markers}
use filmoteka.FilenameParser.Markers.{
  quality_markers, language_markers, edition_markers, series_patterns, year_pattern,
}

-- The season and the episode of a name, the title before them, and what follows.
pub record SeriesInfo : Type 0 where
  pub series_title : Chars
  pub season_number : ℕ
  pub episode_number : ℕ
  pub rest : Chars

abbrev first_number : List Chars → ℕ
first_number [] = 0
first_number (g ∷ groups) = number_from 0 g

abbrev second_number : List Chars → ℕ
second_number [] = 0
second_number (g ∷ groups) = first_number groups

abbrev info_of : Match → SeriesInfo
info_of (p, q) = record {
  series_title = clean_title (before_match (p, q));
  season_number = first_number q.groups;
  episode_number = second_number q.groups;
  rest = q.rest;
}

-- The loop over the patterns of series, up to the first that matches.
unfoldable pub find_series : List Regex → Chars → Option SeriesInfo
unfolding search clean_title
find_series [] s = none
find_series (r ∷ rs) s =
    let later = find_series rs s in elim (search r s) [ none ↦ later | some m ↦ some (info_of m) ]

abbrev pub rest_of : Option SeriesInfo → Chars → Chars
rest_of none s = s
rest_of (some info) s = info.rest

-- `_normalise_quality`; the upper case of a text that is in upper case is the text.
unfoldable pub normalise_quality : Chars → Chars
unfolding sub
normalise_quality raw = sub (plus is_space) [] raw

-- Step 1: each pattern is removed once, and the first match is the quality.
unfoldable pub extract_quality : List Regex → Chars → Option Chars → Chars × Option Chars
unfolding search match_text normalise_quality
extract_quality [] s found = (s, found)
extract_quality (r ∷ rs) s found = elim (search r s) [
  | none ↦ extract_quality rs s found
  | some m ↦ extract_quality rs (cut m) (first_of found (normalise_quality (match_text m)))
]

-- The stem without the markers, with what they are.
pub record Extracted : Type 0 where
  pub rest : Chars
  pub quality : Option Chars
  pub edition_type : Option Chars
  pub language : Option Chars

-- Steps 1 to 3.
unfoldable pub extract : Chars → Extracted
unfolding extract_quality extract_markers quality_markers edition_markers language_markers
extract s =
    let quality = extract_quality quality_markers s none in
    let edition = extract_markers quality.0 edition_markers in
    let language = extract_markers edition.0 language_markers in
    record {
      rest = language.0;
      quality = quality.1;
      edition_type = edition.1;
      language = language.1;
    }

-- Steps 4 and 5: the year and the text without it.
unfoldable pub extract_year : Chars → Option ℕ × Chars
unfolding search match_text year_pattern
extract_year s = elim (search year_pattern s) [
  | none ↦ (none, s)
  | some m ↦ (some (number_from 0 (match_text m)), cut m)
]

abbrev text_of : Option Chars → Option String
text_of none = none
text_of (some s) = some (text s)

-- `f"{series_title} S{season_number:02d}E{episode_number:02d}"`
unfoldable pub episode_name : SeriesInfo → Chars
unfolding zfill
episode_name info =
    info.series_title
    ++ chars " S"
    ++ chars (zfill info.season_number)
    ++ chars "E"
    ++ chars (zfill info.episode_number)

-- Step 6, for a title that may be empty.
abbrev display_title : Option SeriesInfo → Chars → Chars
display_title none title = title
display_title (some info) [] = episode_name info
display_title (some info) (c ∷ title) = c ∷ title

abbrev episode_title_of : Option SeriesInfo → Chars → Option String
episode_title_of none title = none
episode_title_of (some info) [] = none
episode_title_of (some info) (c ∷ title) = some (text (c ∷ title))

abbrev in_series {ℓ} : {A : Type ℓ} → (SeriesInfo → A) → Option SeriesInfo → Option A
in_series f none = none
in_series f (some info) = some (f info)

unfoldable pub parse_stem : Chars → ParsedFilename
unfolding find_series extract extract_year episode_name text
parse_stem s =
    let series = find_series series_patterns s in
    let found = extract (rest_of series s) in
    let dated = extract_year found.rest in
    let title = clean_title dated.1 in
    record {
      title = text (display_title series title);
      year = dated.0;
      quality = text_of found.quality;
      language = text_of found.language;
      edition_type = text_of found.edition_type;
      series_title = in_series (λ info. text info.series_title) series;
      season_number = in_series (λ info. info.season_number) series;
      episode_number = in_series (λ info. info.episode_number) series;
      episode_title = episode_title_of series title;
    }

unfoldable pub parse_filename : String → ParsedFilename
unfolding parse_stem stem
parse_filename path = parse_stem (chars (stem path))
