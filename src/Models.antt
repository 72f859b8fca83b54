-- ===== src/Models.antt =====
-- The ORM models of src/filmoteka/domain/*/models.py, and the database that they live in.
pub mod Catalog
pub mod Access
pub mod Watching
pub mod Importing
pub mod Tasks
pub mod Sample
use filmoteka.Prelude.{ℕ, String, List, []}
use filmoteka.Table.{Table, no_rows}
use Catalog.{Film, Series, Person, Genre, MovieEdition, MediaFile}
use Access.{User}
use Watching.{WatchEvent}
use Importing.{ImportRun, ImportCandidate}
use Tasks.{BackgroundJob}

-- One table for each model; the association tables are lists of key pairs.
pub record Db : Type 0 where
  pub users : Table User
  pub blacklist : List (ℕ × ℕ)  -- user_id, film_id
  pub series : Table Series
  pub films : Table Film
  pub persons : Table Person
  pub genres : Table Genre
  pub film_genre : List (ℕ × ℕ)  -- film_id, genre_id
  pub film_person : List (ℕ × ℕ × String)  -- film_id, person_id, role
  pub editions : Table MovieEdition
  pub media : Table MediaFile
  pub events : Table WatchEvent
  pub runs : Table ImportRun
  pub candidates : Table ImportCandidate
  pub jobs : Table BackgroundJob

-- The database after the migrations, with no data.
abbrev pub empty_db : Db
empty_db = record {
  users = no_rows;
  blacklist = [];
  series = no_rows;
  films = no_rows;
  persons = no_rows;
  genres = no_rows;
  film_genre = [];
  film_person = [];
  editions = no_rows;
  media = no_rows;
  events = no_rows;
  runs = no_rows;
  candidates = no_rows;
  jobs = no_rows;
}
