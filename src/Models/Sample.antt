-- ===== src/Models/Sample.antt =====
-- A small database that the tests share: two films, each with one edition and one media file.
use filmoteka.Prelude.{ℕ, String, false, none, some, [], ◌∷◌}
use filmoteka.Models.{Db, empty_db}
use filmoteka.Models.Catalog.{Film, MovieEdition, MediaFile}

abbrev pub sample_film : String → Film
sample_film title = record {
  title = title;
  year = some 1999;
  description = none;
  poster_url = none;
  poster_source = none;
  metadata_source = none;
  metadata_confidence = none;
  metadata_enriched_at = none;
  needs_review = false;
  is_family_video = false;
  age_rating = none;
  country = none;
  series_id = none;
  season_number = none;
  episode_number = none;
  episode_title = none;
  fts_vector = none;
  created_at = 1;
}

abbrev pub sample_edition : ℕ → MovieEdition
sample_edition film_id = record {
  film_id = film_id;
  edition_name = none;
  quality = some "1080p";
  language = none;
  created_at = 1;
}

abbrev pub sample_media : ℕ → String → MediaFile
sample_media edition_id path = record {
  edition_id = edition_id;
  file_path = path;
  media_alias = none;
  alias_processed = false;
  file_size = none;
  duration_secs = none;
  width = none;
  height = none;
  codec = none;
  audio_codec = none;
  subtitle_languages = none;
  content_hash = none;
  created_at = 1;
}

abbrev pub sample_db : Db
sample_db = record empty_db {
  films = record { next_id = 3; rows = (1, sample_film "A") ∷ (2, sample_film "B") ∷ [] };
  editions = record { next_id = 3; rows = (1, sample_edition 1) ∷ (2, sample_edition 2) ∷ [] };
  media = record {
    next_id = 3;
    rows = (1, sample_media 1 "/lib/a.mkv") ∷ (2, sample_media 2 "/lib/b.mkv") ∷ [];
  };
}
