-- ===== src/Tasks/Requests.antt =====
-- The requests that start the jobs of the administrator, in src/filmoteka/api/admin.py: those for posters, for the enrichment, for
-- aliases, and for the upkeep of media files. The thread of the job has not run yet.
use filmoteka.Prelude.{ℕ, String, ◌≡◌, Bool, not, Option, some, List, [], ◌==◌, if◌then◌else◌}
use filmoteka.Table.{get}
use filmoteka.Table.Laws.{IsTable, get-add}
use filmoteka.Models.{Db}
use filmoteka.Tasks.{submit, new_job}

-- The id of the active job of a kind, and the jobs whose progress is held.
pub record Active : Type 0 where
  pub job_id : Option ℕ
  pub progress : List ℕ

pub record Office : Type 0 where
  pub db : Db
  pub poster : Active
  pub enrich : Active
  pub alias : Active

pub data Started : Type 0 where
  not_configured : Started
  pending : ℕ → Started

-- The new job is the active one of its kind, and the progress is cleared.
abbrev now_active : ℕ → Active
now_active job_id = record { job_id = some job_id; progress = [] }

abbrev next_job : Office → ℕ
next_job s = s.db.jobs.next_id

unfoldable pub start_poster : String → Bool → ℕ → Office → Started × Office
unfolding submit
start_poster type has_key now s = if not has_key then (not_configured, s) else (
  pending (next_job s),
  record s { db = submit type now s.db; poster = now_active (next_job s) },
)

unfoldable pub start_enrich : String → Bool → ℕ → Office → Started × Office
unfolding submit
start_enrich type has_key now s = if not has_key then (not_configured, s) else (
  pending (next_job s),
  record s { db = submit type now s.db; enrich = now_active (next_job s) },
)

unfoldable pub start_alias : String → Bool → ℕ → Office → Started × Office
unfolding submit
start_alias type has_key now s = if not has_key then (not_configured, s) else (
  pending (next_job s),
  record s { db = submit type now s.db; alias = now_active (next_job s) },
)

unfoldable pub start_upkeep : String → ℕ → Office → Started × Office
unfolding submit
start_upkeep type now s = (pending (next_job s), record s { db = submit type now s.db })

unfoldable pub poster_fill_missing : Bool → ℕ → Office → Started × Office
unfolding start_poster
poster_fill_missing has_key now s = start_poster "poster_fill_missing" has_key now s

unfoldable pub poster_refresh_all : Bool → ℕ → Office → Started × Office
unfolding start_poster
poster_refresh_all has_key now s = start_poster "poster_refresh_all" has_key now s

unfoldable pub deepseek_enrich : Bool → ℕ → Office → Started × Office
unfolding start_enrich
deepseek_enrich has_key now s = start_enrich "deepseek_enrich" has_key now s

unfoldable pub deepseek_enrich_all : Bool → ℕ → Office → Started × Office
unfolding start_enrich
deepseek_enrich_all has_key now s = start_enrich "deepseek_enrich_all" has_key now s

unfoldable pub alias_generate : Bool → ℕ → Office → Started × Office
unfolding start_alias
alias_generate has_key now s = start_alias "alias_generate" has_key now s

unfoldable pub alias_generate_all : Bool → ℕ → Office → Started × Office
unfolding start_alias
alias_generate_all has_key now s = start_alias "alias_generate_all" has_key now s

unfoldable pub media_reindex : ℕ → Office → Started × Office
unfolding start_upkeep
media_reindex now s = start_upkeep "media_reindex" now s

unfoldable pub media_reconcile : ℕ → Office → Started × Office
unfolding start_upkeep
media_reconcile now s = start_upkeep "media_reconcile" now s

-- A job that is submitted is pending under the next key, and every other job is as it was.
pub get-submit :
    (type : String) (now k : ℕ) (db : Db)
    → IsTable db.jobs
    → get (submit type now db).jobs k
      ≡ (if db.jobs.next_id == k then some (new_job type now) else get db.jobs k)
unfolding submit
get-submit type now k db tidy = get-add k (new_job type now) db.jobs tidy
