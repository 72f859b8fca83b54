-- ===== src/Tasks/Listing.antt =====
-- The jobs as the administrator sees them: `get_job_status` and `list_jobs` of src/filmoteka/api/admin.py.
use filmoteka.Prelude.{ℕ, none, some, length, take, drop, sort_by, by_key_desc}
use filmoteka.Table.{Rows, get, key_of}
use filmoteka.Models.{Db}
use filmoteka.Models.Tasks.{BackgroundJob}
use filmoteka.Http.{Reply, ok, raised}

unfoldable pub get_job_status : ℕ → Db → Reply BackgroundJob
get_job_status job_id db = elim (get db.jobs job_id) [
  | none ↦ raised 404 "Job not found"
  | some job ↦ ok job
]

-- The page, the newest job first, and the total.
unfoldable pub list_jobs : ℕ → ℕ → Db → Rows BackgroundJob × ℕ
list_jobs skip limit db =
    (take limit (drop skip (sort_by (by_key_desc key_of) db.jobs.rows)), length db.jobs.rows)
