-- ===== src/Models/Catalog.antt =====
-- src/filmoteka/domain/catalog/models.py. The primary key is the key of the table; a relationship is
-- a foreign key. A confidence is in tenths, a time in ticks of the clock.
use filmoteka.Prelude.{ℕ, String, Bool, Option, ℤ}

pub record Series : Type 0 where
  pub title : String
  pub poster_url : Option String
  pub year_start : Option ℕ
  pub year_end : Option ℕ
  pub created_at : ℕ

pub record Film : Type 0 where
  pub title : String
  pub year : Option ℕ
  pub description : Option String
  pub poster_url : Option String
  pub poster_source : Option String
  pub metadata_source : Option String
  pub metadata_confidence : Option ℕ  -- tenths
  pub metadata_enriched_at : Option ℕ
  pub needs_review : Bool
  pub is_family_video : Bool
  pub age_rating : Option String
  pub country : Option String
  pub series_id : Option ℕ
  pub season_number : Option ℕ
  pub episode_number : Option ℕ
  pub episode_title : Option String
  pub fts_vector : Option String
  pub created_at : ℕ

pub record Person : Type 0 where
  pub name : String
  pub created_at : ℕ

pub record Genre : Type 0 where
  pub name : String
  pub slug : String

pub record MovieEdition : Type 0 where
  pub film_id : ℕ
  pub edition_name : Option String
  pub quality : Option String
  pub language : Option String
  pub created_at : ℕ

pub record MediaFile : Type 0 where
  pub edition_id : ℕ
  pub file_path : String
  pub media_alias : Option String
  pub alias_processed : Bool
  pub file_size : Option ℕ
  pub duration_secs : Option ℤ
  pub width : Option ℕ
  pub height : Option ℕ
  pub codec : Option String
  pub audio_codec : Option String
  pub subtitle_languages : Option String
  pub content_hash : Option String
  pub created_at : ℕ
