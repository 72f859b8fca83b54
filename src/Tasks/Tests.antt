-- ===== src/Tasks/Tests.antt =====
-- Runs of the job handlers.
use filmoteka.Prelude.{◌≡◌, refl, true, none, some, [], ◌∷◌}
use filmoteka.Models.{empty_db}
use filmoteka.Models.Tasks.{BackgroundJob, JobStatus}
use filmoteka.Tasks.{Server, new_job, mark_running, mark_cancelled, mark_returned, mark_raised}
use filmoteka.Tasks.Life.{
  Run, Inv, working, ended, submitted, ◌⟶*◌, begin, return, cancel, here, next, reach-Inv,
  cancel_honoured, early_cancel_stays_running,
}

abbrev scan : BackgroundJob
scan = new_job "import_scan" 1

-- A job that runs, is cancelled and returns.
abbrev stopped : Run
stopped = record {
  job = mark_returned 9 none (mark_cancelled 5 (mark_running 2 scan));
  phase = ended;
}

stopped_is_reached : submitted "import_scan" 1 ⟶* stopped
stopped_is_reached =
    next
      (next (next here (begin 2 scan))
        (cancel 5 (record { job = mark_running 2 scan; phase = working })))
      (return 9 none (mark_cancelled 5 (mark_running 2 scan)))

reach-Inv_example : Inv stopped
reach-Inv_example = reach-Inv "import_scan" 1 stopped_is_reached

abbrev works : Run
works = record { job = mark_running 2 scan; phase = working }

after_cancel : record works { job = mark_cancelled 5 (mark_running 2 scan) } ⟶* stopped
after_cancel = next here (return 9 none (mark_cancelled 5 (mark_running 2 scan)))

cancel_honoured_example : stopped.job.status ≡ JobStatus.cancelled
unfolding mark_running
cancel_honoured_example = cancel_honoured 5 works (λ e. cc) refl after_cancel

early_cancel_stays_running_example :
    let begun = mark_running 3 (mark_cancelled 2 scan) in
    ((mark_returned 9 none begun).status ≡ JobStatus.running)
    × ((mark_raised 9 "boom" begun).status ≡ JobStatus.running)
    × ((mark_returned 9 none begun).cancel_requested ≡ true)
early_cancel_stays_running_example = early_cancel_stays_running 2 3 9 scan none "boom"

abbrev idle : Server
idle = record { db = empty_db; active_scan = none; active_transcode = none }

abbrev scanning : Server
scanning = record {
  db = record empty_db { jobs = record { next_id = 2; rows = (1, mark_running 2 scan) ∷ [] } };
  active_scan = some 1;
  active_transcode = none;
}
