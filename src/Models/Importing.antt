-- ===== src/Models/Importing.antt =====
-- src/filmoteka/domain/importing/models.py
use filmoteka.Prelude.{ℕ, String, Bool, true, false, Option, ℤ}

pub data RunStatus : Type 0 where
  running completed : RunStatus

pub record ImportRun : Type 0 where
  pub started_at : ℕ
  pub finished_at : Option ℕ
  pub status : RunStatus
  pub file_count : ℕ

pub data CandidateStatus : Type 0 where
  pending probed imported error : CandidateStatus

pub record ImportCandidate : Type 0 where
  pub import_run_id : ℕ
  pub file_path : String
  pub size : ℕ
  pub status : CandidateStatus
  pub probed_at : Option ℕ
  pub duration_secs : Option ℤ
  pub width : Option ℕ
  pub height : Option ℕ
  pub codec : Option String
  pub audio_codec : Option String
  pub audio_count : Option ℕ
  pub subtitle_count : Option ℕ

-- `candidate.status == …`
abbrev pub is_pending : CandidateStatus → Bool
is_pending CandidateStatus.pending = true
is_pending _ = false

abbrev pub is_probed : CandidateStatus → Bool
is_probed CandidateStatus.probed = true
is_probed _ = false

abbrev pub is_error : CandidateStatus → Bool
is_error CandidateStatus.error = true
is_error _ = false
