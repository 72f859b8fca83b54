-- ===== src/Tasks/Guard.antt =====
-- The guard against two scans at once, and what a cancellation does to it.
use filmoteka.Prelude.{ℕ, ◌+◌, ◌≡◌, ◌≢◌, refl, true, false, some, arith}
use filmoteka.Table.{get, add, put}
use filmoteka.Table.Laws.{IsTable, get-add, get-put}
use filmoteka.Models.Tasks.{BackgroundJob}
use filmoteka.Http.{ok, raised}
use filmoteka.Tasks.{
  Server, new_job, submit, mark_running, begin_run, in_progress, import_scan, cancel_job,
  mark_cancelled, should_stop, stop_requested,
}

-- The server after an accepted request.
abbrev accepted : ℕ → Server → Server
accepted now s = record s {
  db = submit "import_scan" now s.db;
  active_scan = some s.db.jobs.next_id;
}

import_scan-accepts :
    (now : ℕ) (s : Server)
    → in_progress s.active_scan s.db ≡ false
    → import_scan now s ≡ (ok s.db.jobs.next_id, accepted now s)
unfolding import_scan
import_scan-accepts now s free = rw (free, import_scan)

import_scan-refuses :
    (now : ℕ) (s : Server)
    → in_progress s.active_scan s.db ≡ true
    → import_scan now s ≡ (raised 409 "A scan is already in progress", s)
unfolding import_scan
import_scan-refuses now s busy = rw (busy, import_scan)

get-submit :
    (now : ℕ) (s : Server)
    → IsTable s.db.jobs
    → get (accepted now s).db.jobs s.db.jobs.next_id ≡ some (new_job "import_scan" now)
unfolding submit
get-submit now s t =
    ground (arith, get-add s.db.jobs.next_id (new_job "import_scan" now) s.db.jobs t)

-- The server when the thread of the job `k` has made its first commit.
abbrev pub start_thread : ℕ → ℕ → Server → Server
start_thread now k s = record s { db = begin_run now k s.db }

start_thread-busy :
    (now begun : ℕ) (s : Server)
    → IsTable s.db.jobs
    → in_progress (some s.db.jobs.next_id) (begin_run begun s.db.jobs.next_id (accepted now s).db)
      ≡ true
unfolding begin_run mark_running in_progress
start_thread-busy now begun s t =
    let j = new_job "import_scan" now in
    let k = s.db.jobs.next_id in
    ground (arith, get-submit now s t, get-put k k (mark_running begun j) (accepted now s).db.jobs)

-- In a table of jobs with unique keys: when a scan was accepted and its thread has begun, a further
-- request is refused with 409 and changes nothing.
pub scan_refused_while_running :
    (now begun later : ℕ) (s : Server)
    → IsTable s.db.jobs
    → in_progress s.active_scan s.db ≡ false
    → let running = start_thread begun s.db.jobs.next_id (import_scan now s).1 in
      import_scan later running ≡ (raised 409 "A scan is already in progress", running)
scan_refused_while_running now begun later s t free = rw (import_scan-accepts now s free) (
    import_scan-refuses later (start_thread begun s.db.jobs.next_id (accepted now s))
      (start_thread-busy now begun s t))

-- In a table of jobs with unique keys: as long as the thread of an accepted scan has not begun, a further request is accepted too
-- and starts another job, with the next key.
pub second_scan_accepted :
    (now later : ℕ) (s : Server)
    → IsTable s.db.jobs
    → in_progress s.active_scan s.db ≡ false
    → ((import_scan now s).0 ≡ ok s.db.jobs.next_id)
      × ((import_scan later (import_scan now s).1).0 ≡ ok (s.db.jobs.next_id + 1))
unfolding in_progress new_job submit add
second_scan_accepted now later s t free =
    let again : in_progress (some s.db.jobs.next_id) (accepted now s).db ≡ false =
      ground (arith, get-submit now s t) in
    rw (import_scan-accepts now s free)
      (rw (import_scan-accepts later (accepted now s) again) (refl, ground arith))

-- A cancellation of a job that exists succeeds, tells the job's loop to stop, and, if the job is the scan
-- that the guard remembers, lets the next scan in at once, whether or not the loop has stopped; the
-- other jobs stay as they are.
pub cancel_job_effect :
    (now later k i : ℕ) (j : BackgroundJob) (s : Server)
    → get s.db.jobs k ≡ some j
    → i ≢ k
    → s.active_scan ≡ some k
    → let after = (cancel_job now k s).1 in
      ((cancel_job now k s).0 ≡ ok (mark_cancelled now j))
      × (should_stop k after.db ≡ true)
      × ((import_scan later after).0 ≡ ok s.db.jobs.next_id)
      × (get after.db.jobs i ≡ get s.db.jobs i)
unfolding cancel_job should_stop stop_requested mark_cancelled import_scan put
cancel_job_effect now later k i j s found other active =
    let v = mark_cancelled now j in ground (arith, get-put k k v s.db.jobs, get-put k i v s.db.jobs)
