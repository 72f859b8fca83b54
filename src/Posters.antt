-- ===== src/Posters.antt =====
-- The jobs that fill in posters: `_run_fill_missing`, `_run_refresh_all` and what they use, of src/filmoteka/api/admin.py. The
-- service is a parameter, and so is whether the search for a film raises.
pub mod Sound
mod Tests
use filmoteka.Prelude.{
  ℕ, suc, ◌-◌, String, Bool, true, false, not, Option, none, some, List, [], ◌∷◌, ◌++◌, ◌==◌,
  str_eq, is_none, if◌then◌else◌, length, map,
}
use filmoteka.Table.{Rows, select}
use filmoteka.Models.{Db}
use filmoteka.Models.Catalog.{Film, MovieEdition, MediaFile}
use filmoteka.Pipeline.{on_film}
use filmoteka.Pipeline.Run.{Stops}
use filmoteka.Titles.{clean_title_for_omdb, detect_search_type}
use filmoteka.Metadata.{Service, Sent, omdb_search_poster_v2}
use filmoteka.Aliases.{FileStatus, queued, processing, completed, error, stops_now, later_stops}

pub record PosterFileStatus : Type 0 where
  pub film_id : ℕ
  pub title : String
  pub clean_title : String
  pub year : Option ℕ
  pub search_type : Option String
  pub status : FileStatus
  pub poster_url : Option String
  pub message : Option String

-- `raises` gives the text of the exception, if the search for the film with that key ends in one.
pub record Search : Type 0 where
  pub service : Service
  pub api_key : String
  pub raises : ℕ → Option String

-- The first alias that is not empty among media files.
unfoldable pub first_alias : Rows MediaFile → Option String
first_alias [] = none
first_alias ((_, m) ∷ rest) =
    let later = first_alias rest in
    elim m.media_alias [ none ↦ later | some s ↦ if str_eq s "" then later else some s ]

unfoldable pub alias_of_editions : Db → Rows MovieEdition → Option String
unfolding first_alias
alias_of_editions db [] = none
alias_of_editions db ((i, _) ∷ rest) =
    let later = alias_of_editions db rest in
    elim (first_alias (select (λ _ m. m.edition_id == i) db.media)) [
      | none ↦ later
      | some s ↦ some s
    ]

-- A title to search, its type and the year.
pub record PosterQuery : Type 0 where
  pub title : String
  pub type : Option String
  pub year : Option ℕ

-- `cleaned.year or film.year`
abbrev year_or : Option ℕ → Option ℕ → Option ℕ
year_or none old = old
year_or (some n) old = if n == 0 then old else some n

unfoldable pub poster_search_info : Db → ℕ × Film → PosterQuery
unfolding alias_of_editions clean_title_for_omdb detect_search_type
poster_search_info db (k, film) =
    elim (alias_of_editions db (select (λ _ e. e.film_id == k) db.editions)) [
      | some title ↦ record {
        title = title;
        type = detect_search_type title film.series_id;
        year = film.year;
      }
      | none ↦
          let cleaned = clean_title_for_omdb film.title in
          record {
            title = cleaned.title;
            type = detect_search_type cleaned.title film.series_id;
            year = year_or cleaned.year film.year;
          }
    ]

abbrev pub poster_entry :
    FileStatus → Option String → Option String → Db → ℕ × Film → PosterFileStatus
poster_entry status poster_url message db (k, film) =
    let info = poster_search_info db (k, film) in
    record {
      film_id = k;
      title = film.title;
      clean_title = info.title;
      year = info.year;
      search_type = info.type;
      status = status;
      poster_url = poster_url;
      message = message;
    }

-- The variables of the loop, with the entries of the films that it has passed and the requests that were sent.
pub record PosterRun : Type 0 where
  pub updated : ℕ
  pub errors : List ℕ
  pub progress : List PosterFileStatus
  pub sent : Sent
  pub db : Db

abbrev pub with_poster : String → String → Film → Film
with_poster url source film = record film { poster_url = some url; poster_source = some source }

module _ (search : Search) where
  -- What the search gave for a film.
  unfoldable pub record_poster : ℕ × Film → Option (String × String) → Sent → PosterRun → PosterRun
  unfolding on_film poster_search_info
  record_poster x none sent r = record r {
    progress = r.progress ++ poster_entry completed none none r.db x ∷ [];
    sent = sent;
  }
  record_poster x (some (url, source)) sent r = record r {
    updated = suc r.updated;
    progress = r.progress ++ poster_entry completed (some url) none r.db x ∷ [];
    sent = sent;
    db = on_film x.0 (with_poster url source) r.db;
  }

  -- The body of the loop.
  unfoldable pub search_film : ℕ × Film → PosterRun → PosterRun
  unfolding record_poster omdb_search_poster_v2
  search_film x r = elim (search.raises x.0) [
    | some message ↦ record r {
      errors = r.errors ++ x.0 ∷ [];
      progress = r.progress ++ poster_entry error none (some message) r.db x ∷ [];
    }
    | none ↦
        let info = poster_search_info r.db x in
        let asked =
          omdb_search_poster_v2 search.service search.api_key info.title info.year info.type
            r.sent in
        record_poster x asked.0 asked.1 r
  ]

  -- The loop. What it leaves out stays queued.
  unfoldable pub poster_loop : Stops → Rows Film → PosterRun → PosterRun
  unfolding search_film
  poster_loop stops [] r = r
  poster_loop stops (x ∷ rows) r =
      let continued = poster_loop (later_stops stops) rows (search_film x r) in
      if stops_now stops
      then record r { progress = r.progress ++ map (poster_entry queued none none r.db) (x ∷ rows) }
      else continued

pub record PosterReport : Type 0 where
  pub total : ℕ
  pub updated : ℕ
  pub skipped : ℕ
  pub errors : List ℕ

abbrev pub start_posters : Sent → Db → PosterRun
start_posters sent db = record { updated = 0; errors = []; progress = []; sent = sent; db = db }

-- The two jobs differ in the films that they take.
unfoldable pub run_posters :
    (ℕ → Film → Bool) → Search → Stops → Sent → Db → PosterReport × PosterRun
unfolding poster_loop
run_posters is_due search stops sent db =
    let films = select is_due db.films in
    let r = poster_loop search stops films (start_posters sent db) in
    (
      record {
        total = length films;
        updated = r.updated;
        skipped = length films - r.updated;
        errors = r.errors;
      },
      r,
    )

abbrev pub lacks_poster : ℕ → Film → Bool
lacks_poster _ film = is_none film.poster_url

unfoldable pub run_fill_missing : Search → Stops → Sent → Db → PosterReport × PosterRun
unfolding run_posters
run_fill_missing search stops sent db = run_posters lacks_poster search stops sent db

unfoldable pub run_refresh_all : Search → Stops → Sent → Db → PosterReport × PosterRun
unfolding run_posters
run_refresh_all search stops sent db = run_posters (λ _ _. true) search stops sent db
