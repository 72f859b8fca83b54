-- ===== src/Tasks/Life.antt =====
-- The life of one job, as the steps of its thread and the cancellations that arrive between them.
use filmoteka.Prelude.{ℕ, String, ◌≡◌, ◌≢◌, ◌⊎◌, true, false, Option, none, arith}
use filmoteka.Models.Tasks.{BackgroundJob, JobStatus, JobResult, is_over}
use filmoteka.Tasks.{
  new_job, mark_running, mark_returned, mark_raised, mark_cancelled, stop_requested,
}

-- Where the thread is: before its first commit, in the function, at its end.
pub data Phase : Type 0 where
  waiting working ended : Phase

pub record Run : Type 0 where
  pub job : BackgroundJob
  pub phase : Phase

abbrev pub submitted : String → ℕ → Run
submitted type now = record { job = new_job type now; phase = waiting }

-- The thread begins, its function returns or raises, an administrator cancels.
infix 40 ◌⟶◌ ◌⟶*◌
pub data ◌⟶◌ : Run → Run → Type 0 where
  begin :
      (now : ℕ) (j : BackgroundJob)
      → record { job = j; phase = waiting } ⟶ record { job = mark_running now j; phase = working }
  return :
      (now : ℕ) (result : Option JobResult) (j : BackgroundJob)
      → record { job = j; phase = working }
        ⟶ record { job = mark_returned now result j; phase = ended }
  raise :
      (now : ℕ) (message : String) (j : BackgroundJob)
      → record { job = j; phase = working }
        ⟶ record { job = mark_raised now message j; phase = ended }
  cancel : (now : ℕ) (r : Run) → r ⟶ record r { job = mark_cancelled now r.job }

pub data ◌⟶*◌ (r : Run) : Run → Type 0 where
  here : r ⟶* r
  next : {s t : Run} → r ⟶* s → s ⟶ t → r ⟶* t

-- What holds of a job at every moment.
pub record Inv (r : Run) : Type 0 where
  pub at_waiting :
      r.phase ≡ waiting
      → ((r.job.status ≡ JobStatus.pending) × (r.job.cancel_requested ≡ false))
        ⊎ ((r.job.status ≡ JobStatus.cancelled) × (r.job.cancel_requested ≡ true))
  pub at_working :
      r.phase ≡ working
      → (r.job.status ≡ JobStatus.running)
        ⊎ ((r.job.status ≡ JobStatus.cancelled) × (r.job.cancel_requested ≡ true))
  pub at_end :
      r.phase ≡ ended
      → (is_over r.job.status ≡ true)
        ⊎ ((r.job.status ≡ JobStatus.running) × (r.job.cancel_requested ≡ true))
  pub over_is_dated : is_over r.job.status ≡ true → r.job.completed_at ≢ none
  pub failed_has_error : r.job.status ≡ JobStatus.failed → r.job.error ≢ none
  pub unfinished_is_undated :
      is_over r.job.status ≡ false → r.job.cancel_requested ≡ false → r.job.completed_at ≡ none

submitted-Inv : (type : String) (now : ℕ) → Inv (submitted type now)
unfolding new_job
submitted-Inv type now = ground arith

step-Inv : {r s : Run} → r ⟶ s → Inv r → Inv s
unfolding mark_running mark_returned mark_raised mark_cancelled
step-Inv (begin now j) h = ground arith
step-Inv (return now result j) h = ground arith
step-Inv (raise now message j) h = ground arith
step-Inv (cancel now r) h = ground arith

-- At every moment of a submitted job: before its thread begins it is pending, or cancelled; while the
-- function works it is running, or cancelled; at the end it is over (completed, failed or cancelled),
-- or still "running" with a cancellation requested. A job that is over has a completion time, one that
-- is not over and that nobody cancelled has none, and a failed job has an error.
pub reach-Inv : (type : String) (now : ℕ) {r : Run} → submitted type now ⟶* r → Inv r
reach-Inv type now here = submitted-Inv type now
reach-Inv type now (next steps step) = step-Inv step (reach-Inv type now steps)

-- A cancelled job whose thread has begun.
record IsHonoured (r : Run) : Type 0 where
  begun : r.phase ≢ waiting
  requested : r.job.cancel_requested ≡ true
  cancelled : r.job.status ≡ JobStatus.cancelled

step-IsHonoured : {r s : Run} → r ⟶ s → IsHonoured r → IsHonoured s
unfolding mark_running mark_returned mark_raised mark_cancelled
step-IsHonoured (begin now j) h = ground arith
step-IsHonoured (return now result j) h = ground arith
step-IsHonoured (raise now message j) h = ground arith
step-IsHonoured (cancel now r) h = ground arith

reach-IsHonoured : {r s : Run} → r ⟶* s → IsHonoured r → IsHonoured s
reach-IsHonoured here h = h
reach-IsHonoured (next steps step) h = step-IsHonoured step (reach-IsHonoured steps h)

-- A job that is cancelled after its thread has begun and before it is over is "cancelled" from then on,
-- whether its function returns or raises, and however often it is cancelled again.
pub cancel_honoured :
    (now : ℕ) (r : Run) {s : Run}
    → r.phase ≢ waiting
    → is_over r.job.status ≡ false
    → record r { job = mark_cancelled now r.job } ⟶* s
    → s.job.status ≡ JobStatus.cancelled
unfolding mark_cancelled
cancel_honoured now r begun open_one steps =
    let start : IsHonoured (record r { job = mark_cancelled now r.job }) = ground arith in
    (reach-IsHonoured steps start).cancelled

step-requested : {r s : Run} → r ⟶ s → r.job.cancel_requested ≡ true → s.job.cancel_requested ≡ true
unfolding mark_running mark_returned mark_raised mark_cancelled
step-requested (begin now j) h = ground arith
step-requested (return now result j) h = ground arith
step-requested (raise now message j) h = ground arith
step-requested (cancel now r) h = ground arith

reach-requested :
    {r s : Run} → r ⟶* s → r.job.cancel_requested ≡ true → s.job.cancel_requested ≡ true
reach-requested here h = h
reach-requested (next steps step) h = step-requested step (reach-requested steps h)

-- Once a job is cancelled, at whatever moment, its loop is told to stop at every later moment.
pub stop_requested_forever :
    (now : ℕ) (r : Run) {s : Run}
    → record r { job = mark_cancelled now r.job } ⟶* s
    → stop_requested s.job ≡ true
unfolding mark_cancelled stop_requested
stop_requested_forever now r steps =
    let requested : (mark_cancelled now r.job).cancel_requested ≡ true = ground arith in
    ground (arith, reach-requested steps requested)

-- A job that is cancelled before its thread begins does not stay cancelled: when the thread has begun, the job is
-- "running", and it is still "running" after the function has returned, and after it has raised.
pub early_cancel_stays_running :
    (at_cancel at_begin at_end : ℕ) (j : BackgroundJob) (result : Option JobResult)
    (message : String)
    → let begun = mark_running at_begin (mark_cancelled at_cancel j) in
      ((mark_returned at_end result begun).status ≡ JobStatus.running)
      × ((mark_raised at_end message begun).status ≡ JobStatus.running)
      × ((mark_returned at_end result begun).cancel_requested ≡ true)
unfolding mark_running mark_cancelled mark_returned mark_raised
early_cancel_stays_running at_cancel at_begin at_end j result message = ground arith
