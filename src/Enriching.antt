-- ===== src/Enriching.antt =====
-- The job that enriches films by the language model: `_run_deepseek_enrich` and `get_enrich_progress` of src/filmoteka/api/admin.py.
-- What `deepseek_enrich_metadata` gives for a title and a year is a parameter, an exception included; an entry of the report's
-- errors stands for the text about its film.
pub mod Untouched
mod Tests
use filmoteka.Prelude.{
  ℕ, suc, ◌-◌, String, Bool, true, false, not, ◌||◌, Option, none, some, List, [], ◌∷◌, ◌++◌,
  str_eq, if◌then◌else◌, length, map,
}
use filmoteka.Table.{Rows, select}
use filmoteka.Models.{Db}
use filmoteka.Models.Catalog.{Film}
use filmoteka.Json.{Result, value, raises, Error}
use filmoteka.Pipeline.{Enrichment, apply_deepseek_enrichment}
use filmoteka.Pipeline.Run.{Stops}
use filmoteka.Aliases.{FileStatus, queued, completed, error, stops_now, later_stops}

pub record DeepseekFilmStatus : Type 0 where
  pub film_id : ℕ
  pub title : String
  pub status : FileStatus
  pub message : Option Error

abbrev pub entry : FileStatus → Option Error → ℕ × Film → DeepseekFilmStatus
entry status message (k, film) = record {
  film_id = k;
  title = film.title;
  status = status;
  message = message;
}

-- The variables of the loop, with the entries of the films that it has passed.
pub record EnrichRun : Type 0 where
  pub updated : ℕ
  pub errors : List ℕ
  pub progress : List DeepseekFilmStatus
  pub db : Db

-- `Film.metadata_source != "deepseek"`; the comparison with NULL is not true.
abbrev pub other_source : Option String → Bool
other_source none = false
other_source (some s) = not (str_eq s "deepseek")

abbrev pub is_selected : Bool → ℕ → Film → Bool
is_selected force k film = force || other_source film.metadata_source

pub record EnrichReport : Type 0 where
  pub total : ℕ
  pub updated : ℕ
  pub skipped : ℕ
  pub errors : List ℕ

abbrev start_run : Db → EnrichRun
start_run db = record { updated = 0; errors = []; progress = []; db = db }

abbrev report_of : ℕ → EnrichRun → EnrichReport
report_of total r = record {
  total = total;
  updated = r.updated;
  skipped = total - r.updated;
  errors = r.errors;
}

-- `deepseek_enrich_metadata`
abbrev pub Enrich : Type 0
Enrich = String → Option ℕ → Result (Option Enrichment)

module _ (enrich : Enrich) (to_tsvector : String → String) (now : ℕ) where
  -- The body of the loop, after the call for the film.
  unfoldable pub record_result : ℕ × Film → Result (Option Enrichment) → EnrichRun → EnrichRun
  unfolding apply_deepseek_enrichment
  record_result x (value none) r = record r { progress = r.progress ++ entry completed none x ∷ [] }
  record_result x (value (some result)) r = record r {
    updated = suc r.updated;
    progress = r.progress ++ entry completed none x ∷ [];
    db = apply_deepseek_enrichment to_tsvector now x.0 result r.db;
  }
  record_result x (raises e) r = record r {
    errors = r.errors ++ x.0 ∷ [];
    progress = r.progress ++ entry error (some e) x ∷ [];
  }

  -- The loop. What it leaves out stays queued.
  unfoldable pub enrich_loop : Stops → Rows Film → EnrichRun → EnrichRun
  unfolding record_result
  enrich_loop stops [] r = r
  enrich_loop stops (x ∷ rows) r =
      let continued =
        enrich_loop (later_stops stops) rows (record_result x (enrich x.1.title x.1.year) r) in
      if stops_now stops
      then record r { progress = r.progress ++ map (entry queued none) (x ∷ rows) }
      else continued

  -- `_run_deepseek_enrich`: the report, the progress it leaves in memory, and the committed database.
  unfoldable pub run_deepseek_enrich :
      Stops → Bool → Db → EnrichReport × List DeepseekFilmStatus × Db
  unfolding enrich_loop
  run_deepseek_enrich stops force db =
      let films = select (is_selected force) db.films in
      let r = enrich_loop stops films (start_run db) in
      (report_of (length films) r, r.progress, r.db)

-- `get_enrich_progress`
unfoldable pub get_enrich_progress :
    (ℕ → Option (List DeepseekFilmStatus)) → ℕ → List DeepseekFilmStatus × ℕ
get_enrich_progress progress job_id = elim (progress job_id) [
  | none ↦ ([], 0)
  | some entries ↦ (entries, length entries)
]
