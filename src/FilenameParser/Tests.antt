-- ===== src/FilenameParser/Tests.antt =====
-- Names and what they say.
use filmoteka.Prelude.{◌≡◌, ◌⊎◌, ◌≤◌, refl, none, some, List, [], ◌∷◌, ◌++◌, All}
use filmoteka.Text.Regex.{
  Chars, Regex, chars, Match, place, reversed, search, match_text, opt, word, separators, ◌⨟◌,
}
use filmoteka.FilenameParser.{clean_title, extract_markers}
use filmoteka.FilenameParser.Markers.{edition_markers}
use filmoteka.FilenameParser.Removal.{Absent, extract_markers_lem}
use filmoteka.FilenameParser.Years.{parse_stem-year}
use filmoteka.FilenameParser.Parse.{parse_filename}

film : parse_filename "/lib/The.Matrix.1999.1080p.BluRay.mkv" ≡ record {
  title = "The Matrix";
  year = some 1999;
  quality = some "1080p";
  language = none;
  edition_type = none;
  series_title = none;
  season_number = none;
  episode_number = none;
  episode_title = none;
}
unfolding parse_filename filmoteka.FilenameParser.Markers.series_patterns filmoteka.Paths.split
    filmoteka.Paths.name filmoteka.Prelude.keep filmoteka.Paths.concat filmoteka.Paths.join
film = refl

episode : parse_filename "Gravity.Falls.S01E02.RUS.avi" ≡ record {
  title = "Gravity Falls S01E02";
  year = none;
  quality = none;
  language = some "RUS";
  edition_type = none;
  series_title = some "Gravity Falls";
  season_number = some 1;
  episode_number = some 2;
  episode_title = none;
}
unfolding parse_filename filmoteka.FilenameParser.Markers.series_patterns filmoteka.Paths.split
    filmoteka.Paths.name filmoteka.Prelude.keep filmoteka.Paths.concat filmoteka.Paths.join
episode = refl

abbrev sample : Chars
sample = chars "The.Matrix.Directors.Cut.1999"

abbrev directors_cut : Regex
directors_cut = word "Director" ⨟ opt (word "'") ⨟ opt (word "s") ⨟ separators ⨟ word "Cut"

abbrev cut_match : Match
cut_match = (
  place (reversed (chars "The.Matrix.") []) (chars "Directors.Cut.1999"),
  place (reversed (chars "The.Matrix.Directors.Cut") []) (chars ".1999"),
)

parse_stem-year_example : (1900 ≤ 1999) × (1999 ≤ 2029)
unfolding filmoteka.FilenameParser.Parse.parse_stem filmoteka.FilenameParser.Markers.series_patterns
parse_stem-year_example = parse_stem-year sample 1999 refl

extract_markers_lem_example :
    (Absent edition_markers sample × (extract_markers sample edition_markers ≡ (sample, none)))
    ⊎ ((before : List Regex) × (r : Regex) × (after : List Regex) × (m : Match) × (edition_markers
          ≡ before ++ r ∷ after)
        × Absent before sample
        × (search r sample ≡ some m)
        × ((extract_markers sample edition_markers).1 ≡ some (match_text m)))
extract_markers_lem_example = extract_markers_lem edition_markers sample
