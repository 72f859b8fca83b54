-- ===== src/Tasks.antt =====
-- Background jobs: src/filmoteka/domain/tasks/worker.py, and the handlers of src/filmoteka/api/admin.py that
-- start and cancel them. The thread of a job is a sequence of steps, between which requests are served.
pub mod Life
pub mod Listing
pub mod Requests
pub mod Guard
mod Tests
use filmoteka.Prelude.{
  ℕ, String, Bool, true, false, not, ◌&&◌, ◌||◌, Option, none, some, ◌==◌, opt_eq, if◌then◌else◌,
}
use filmoteka.Table.{get, add, put}
use filmoteka.Models.{Db}
use filmoteka.Models.Tasks.{BackgroundJob, JobStatus, JobResult, is_running, is_cancelled, is_over}
use filmoteka.Http.{Reply, ok, raised}

-- The process: the database and the module variables `_active_scan_job_id` and `_active_transcode_job_id`.
pub record Server : Type 0 where
  pub db : Db
  pub active_scan : Option ℕ
  pub active_transcode : Option ℕ

unfoldable pub new_job : String → ℕ → BackgroundJob
new_job type now = record {
  type = type;
  status = JobStatus.pending;
  cancel_requested = false;
  created_at = now;
  started_at = none;
  completed_at = none;
  error = none;
  result = none;
}

-- `run_background_job` up to the start of the thread: the record is committed and has a key.
unfoldable pub submit : String → ℕ → Db → Db
submit type now db = record db { jobs = add (new_job type now) db.jobs }

-- "Mark as running"
unfoldable pub mark_running : ℕ → BackgroundJob → BackgroundJob
mark_running now j = record j { status = JobStatus.running; started_at = some now }

-- The function returned: a requested cancellation is honoured, and only the result is attached.
unfoldable pub mark_returned : ℕ → Option JobResult → BackgroundJob → BackgroundJob
mark_returned now result j =
    if j.cancel_requested || is_cancelled j.status
    then record j { result = result }
    else record j { status = JobStatus.completed; completed_at = some now; result = result }

-- The function raised.
unfoldable pub mark_raised : ℕ → String → BackgroundJob → BackgroundJob
mark_raised now message j =
    if not j.cancel_requested
    then record j { status = JobStatus.failed; completed_at = some now; error = some message }
    else j

-- `j = job_db.get(BackgroundJob, job_id)`, an assignment if there is one, and the commit.
unfoldable pub on_job : ℕ → (BackgroundJob → BackgroundJob) → Db → Db
on_job job_id f db = elim (get db.jobs job_id) [
  | none ↦ db
  | some j ↦ record db { jobs = put job_id (f j) db.jobs }
]

-- The three commits of the thread's `_run`.
unfoldable pub begin_run : ℕ → ℕ → Db → Db
unfolding on_job
begin_run now job_id = on_job job_id (mark_running now)

unfoldable pub end_run : ℕ → ℕ → Option JobResult → Db → Db
unfolding on_job
end_run now job_id result = on_job job_id (mark_returned now result)

unfoldable pub fail_run : ℕ → ℕ → String → Db → Db
unfolding on_job
fail_run now job_id message = on_job job_id (mark_raised now message)

unfoldable pub stop_requested : BackgroundJob → Bool
stop_requested j = j.cancel_requested || is_cancelled j.status

unfoldable pub should_stop : ℕ → Db → Bool
unfolding stop_requested
should_stop job_id db = elim (get db.jobs job_id) [ none ↦ false | some j ↦ stop_requested j ]

-- What `cancel_job` does to the record.
unfoldable pub mark_cancelled : ℕ → BackgroundJob → BackgroundJob
mark_cancelled now j =
    if not (is_over j.status)
    then record j { cancel_requested = true; status = JobStatus.cancelled; completed_at = some now }
    else record j { cancel_requested = true }

abbrev release : ℕ → Option ℕ → Option ℕ
release job_id none = none
release job_id (some active) = if job_id == active then none else some active

-- `cancel_job`, behind the check of the administrator's role
unfoldable pub cancel_job : ℕ → ℕ → Server → Reply BackgroundJob × Server
cancel_job now job_id s = elim (get s.db.jobs job_id) [
  | none ↦ (raised 404 "Job not found", s)
  | some j ↦
      let cancelled = mark_cancelled now j in
      (
        ok cancelled,
        record {
          db = record s.db { jobs = put job_id cancelled s.db.jobs };
          active_scan = release job_id s.active_scan;
          active_transcode = release job_id s.active_transcode;
        },
      )
]

abbrev job_is_running : Option BackgroundJob → Bool
job_is_running none = false
job_is_running (some j) = is_running j.status

-- The guards against a second scan and a second transcode.
unfoldable pub in_progress : Option ℕ → Db → Bool
in_progress none db = false
in_progress (some job_id) db = job_is_running (get db.jobs job_id)

-- `import_scan` up to its response: the reply is the key of the job. The thread has not run yet.
unfoldable pub import_scan : ℕ → Server → Reply ℕ × Server
unfolding in_progress submit
import_scan now s =
    if in_progress s.active_scan s.db then (raised 409 "A scan is already in progress", s) else (
      ok s.db.jobs.next_id,
      record s { db = submit "import_scan" now s.db; active_scan = some s.db.jobs.next_id },
    )

-- `transcode_media_audio`, the same
unfoldable pub transcode_media_audio : ℕ → Server → Reply ℕ × Server
unfolding in_progress submit
transcode_media_audio now s =
    if in_progress s.active_transcode s.db
    then (raised 409 "A transcode job is already in progress", s)
    else (
      ok s.db.jobs.next_id,
      record s {
        db = submit "transcode_audio" now s.db;
        active_transcode = some s.db.jobs.next_id;
      },
    )

-- The `finally` of `_run_import_job`: the guard is released when the import ends.
unfoldable pub release_scan : Server → Server
release_scan s = record s { active_scan = none }
