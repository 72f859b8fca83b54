-- ===== src/Models/Watching.antt =====
-- src/filmoteka/domain/watching/models.py
use filmoteka.Prelude.{ℕ, Bool, ℤ}

pub record WatchEvent : Type 0 where
  pub media_file_id : ℕ
  pub user_id : ℕ
  pub started_at : ℕ
  pub last_position : ℤ
  pub finished : Bool
  pub incognito : Bool
