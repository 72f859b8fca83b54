-- ===== src/Models/Tasks.antt =====
-- src/filmoteka/domain/tasks/models.py. The JSON result of a job is a dictionary of numbers, texts
-- and lists of texts.
use filmoteka.Prelude.{ℕ, String, Bool, true, false, Option, List}

pub data JobStatus : Type 0 where
  pending running completed failed cancelled retry : JobStatus

pub data JobValue : Type 0 where
  number : ℕ → JobValue
  text : String → JobValue
  texts : List String → JobValue

abbrev pub JobResult : Type 0
JobResult = List (String × JobValue)

pub record BackgroundJob : Type 0 where
  pub type : String
  pub status : JobStatus
  pub cancel_requested : Bool
  pub created_at : ℕ
  pub started_at : Option ℕ
  pub completed_at : Option ℕ
  pub error : Option String
  pub result : Option JobResult

abbrev pub is_running : JobStatus → Bool
is_running JobStatus.running = true
is_running _ = false

abbrev pub is_cancelled : JobStatus → Bool
is_cancelled JobStatus.cancelled = true
is_cancelled _ = false

-- `status in (JOB_CANCELLED, JOB_COMPLETED, JOB_FAILED)`
abbrev pub is_over : JobStatus → Bool
is_over JobStatus.cancelled = true
is_over JobStatus.completed = true
is_over JobStatus.failed = true
is_over _ = false
