-- ===== src/Pipeline/Bridge.antt =====
-- `_bridge_to_catalog` and `run_import` of src/filmoteka/domain/importing/pipeline.py.
use filmoteka.Prelude.{
  ℕ, String, Bool, true, false, not, ◌&&◌, Option, none, some, ltb, ◌==◌, str_eq, opt_eq, is_none,
  if◌then◌else◌, any,
}
use filmoteka.Table.{get, add, put, first}
use filmoteka.Models.{Db}
use filmoteka.Models.Catalog.{Series, Film, MediaFile}
use filmoteka.Models.Importing.{ImportCandidate}
use filmoteka.FilenameParser.{ParsedFilename}
use filmoteka.FilenameParser.Parse.{parse_filename}
use filmoteka.Titles.{detect_search_type}
use filmoteka.Json.{Result, value, raises}
use filmoteka.Paths.Suffixes.{stem}
use filmoteka.Pipeline.{
  Services, SearchInfo, Found, normalise, on_film, find_or_create_edition,
  apply_deepseek_enrichment, update_fts_vector,
}

-- What is left where the code catches every exception.
abbrev value_or_none : Result SearchInfo → Option SearchInfo
value_or_none (value info) = some info
value_or_none (raises _) = none

abbrev new_series : String → ℕ → Series
new_series title now = record {
  title = title;
  poster_url = none;
  year_start = none;
  year_end = none;
  created_at = now;
}

abbrev pub new_film : ParsedFilename → Option ℕ → ℕ → Film
new_film parsed series_id now = record {
  title = parsed.title;
  year = parsed.year;
  description = none;
  poster_url = none;
  poster_source = none;
  metadata_source = none;
  metadata_confidence = none;
  metadata_enriched_at = none;
  needs_review = false;
  is_family_video = false;
  age_rating = none;
  country = none;
  series_id = series_id;
  season_number = parsed.season_number;
  episode_number = parsed.episode_number;
  episode_title = parsed.episode_title;
  fts_vector = none;
  created_at = now;
}

module _ (services : Services) (now : ℕ) where
  unfoldable pub find_or_create_series : String → Db → Found
  find_or_create_series title db =
      elim (first (λ _ s. services.ilike s.title (normalise title)) db.series) [
        | some (i, _) ↦ (i, db)
        | none ↦ (
          db.series.next_id,
          record db { series = add (new_series (normalise title) now) db.series },
        )
      ]

  -- The series of an episode, if the name has one.
  unfoldable pub series_of : ParsedFilename → Db → Option ℕ × Db
  unfolding find_or_create_series
  series_of parsed db = elim parsed.series_title [
    | none ↦ (none, db)
    | some title ↦ let found = find_or_create_series title db in (some found.0, found.1)
  ]

  -- The two lookups of an existing film: an episode by its place in the series, another by title and year.
  unfoldable pub is_same_film : ParsedFilename → Option ℕ → ℕ → Film → Bool
  is_same_film parsed none _ f =
      services.ilike f.title (normalise parsed.title) && opt_eq (λ a b. a == b) f.year parsed.year
  is_same_film parsed (some series_id) _ f =
      opt_eq (λ a b. a == b) f.series_id (some series_id)
      && opt_eq (λ a b. a == b) f.season_number parsed.season_number
      && opt_eq (λ a b. a == b) f.episode_number parsed.episode_number

  unfoldable pub find_or_create_film : ParsedFilename → Option ℕ → Db → Found
  unfolding is_same_film
  find_or_create_film parsed series_id db = elim (first (is_same_film parsed series_id) db.films) [
    | some (i, _) ↦ (i, db)
    | none ↦ (db.films.next_id, record db { films = add (new_film parsed series_id now) db.films })
  ]

  abbrev lower_bound : Option ℕ → ℕ → ℕ
  lower_bound none year = year
  lower_bound (some old) year = if ltb year old then year else old

  abbrev upper_bound : Option ℕ → ℕ → ℕ
  upper_bound none year = year
  upper_bound (some old) year = if ltb old year then year else old

  -- "Update series year range from film year"
  unfoldable pub widen_years : Option ℕ → Option ℕ → Db → Db
  widen_years none _ db = db
  widen_years (some series_id) none db = db
  widen_years (some series_id) (some year) db = elim (get db.series series_id) [
    | none ↦ db
    | some s ↦ record db {
      series =
          put series_id
            (record s {
              year_start = some (lower_bound s.year_start year);
              year_end = some (upper_bound s.year_end year);
            })
            db.series;
    }
  ]

  -- "Metadata quality: initial from filename"
  unfoldable pub reset_metadata : ParsedFilename → Film → Film
  reset_metadata parsed film = record film {
    metadata_source = some "filename_parse";
    metadata_confidence = some (if is_none parsed.year then 3 else 6);
    metadata_enriched_at = none;
    needs_review = false;
  }

  unfoldable pub search_info : String → Option SearchInfo
  search_info file_path =
      if services.deepseek_key
      then value_or_none (services.extract_search_info (stem file_path))
      else none

  abbrev title_of : Option SearchInfo → Option String
  title_of none = none
  title_of (some info) = some info.title

  abbrev a_or : Option String → String → String
  a_or none b = b
  a_or (some a) b = if str_eq a "" then b else a

  -- `deepseek_title or parsed.series_title or parsed.title`
  unfoldable pub clean_title : ParsedFilename → Option SearchInfo → String
  clean_title parsed info = a_or (title_of info) (a_or parsed.series_title parsed.title)

  unfoldable pub content_type : ParsedFilename → Option SearchInfo → Film → Option String
  content_type parsed none film = detect_search_type (clean_title parsed none) film.series_id
  content_type parsed (some info) film = elim info.type [
    | some type ↦ some type
    | none ↦ detect_search_type (clean_title parsed (some info)) film.series_id
  ]

  -- "Poster enrichment via OMDB v2", and the upgrade of the metadata after it
  unfoldable pub add_poster : ParsedFilename → Option SearchInfo → Film → Film
  unfolding clean_title content_type
  add_poster parsed info film =
      if not services.omdb_key
      then film
      else elim (if is_none film.poster_url
          then services.search_poster (clean_title parsed info) parsed.year
              (content_type parsed info film)
          else none) [
            | none ↦ record film { needs_review = true }
            | some (url, source) ↦ record film {
              poster_url = some url;
              poster_source = some source;
              metadata_source = some "omdb";
              metadata_confidence = some 9;
              metadata_enriched_at = some now;
              needs_review = false;
            }
          ]

  -- "DeepSeek enrichment", with whether it raises
  unfoldable pub enrich : ParsedFilename → ℕ → Db → Bool × Db
  enrich parsed film_id db =
      if not services.deepseek_key
      then (false, db)
      else elim (services.enrich_metadata parsed.title parsed.year) [
        | raises _ ↦ (true, db)
        | value none ↦ (false, db)
        | value (some result) ↦
            (false, apply_deepseek_enrichment services.to_tsvector now film_id result db)
      ]

  -- "Conflict detection: edition already has media files"
  unfoldable pub detect_conflict : ℕ → ℕ → Db → Db
  detect_conflict film_id edition_id db =
      if any (λ (i, m). m.edition_id == edition_id) db.media.rows
      then on_film film_id (λ film. record film { needs_review = true }) db
      else db

  -- All that happens before the media file is looked up: the keys of the film and of its edition, or `none` for an exception.
  unfoldable pub prepare : ImportCandidate → Db → Option (ℕ × ℕ) × Db
  unfolding series_of find_or_create_film widen_years on_film search_info enrich detect_conflict
  prepare c db =
      let parsed = parse_filename c.file_path in
      let info = search_info c.file_path in
      let in_series = series_of parsed db in
      let film = find_or_create_film parsed in_series.0 in_series.1 in
      let described =
        on_film film.0 (λ f. add_poster parsed info (reset_metadata parsed f))
          (widen_years in_series.0 parsed.year film.1) in
      let enriched = enrich parsed film.0 described in
      let edition =
        find_or_create_edition film.0 parsed.quality parsed.language parsed.edition_type now
          enriched.1 in
      if enriched.0
      then (none, enriched.1)
      else (some (film.0, edition.0), detect_conflict film.0 edition.0 edition.1)

  abbrev pub new_media : ImportCandidate → ℕ → Option String → Option String → MediaFile
  new_media c edition_id alias hash = record {
    edition_id = edition_id;
    file_path = c.file_path;
    media_alias = alias;
    alias_processed = false;
    file_size = some c.size;
    duration_secs = c.duration_secs;
    width = c.width;
    height = c.height;
    codec = c.codec;
    audio_codec = c.audio_codec;
    subtitle_languages = none;
    content_hash = hash;
    created_at = now;
  }

  unfoldable pub insert_media : ImportCandidate → ℕ × ℕ → Option String → Db → Db
  unfolding search_info
  insert_media c (film_id, edition_id) hash db =
      update_fts_vector services.to_tsvector film_id (record db {
        media = add (new_media c edition_id (title_of (search_info c.file_path)) hash) db.media;
      })
