-- ===== src/Http.antt =====
-- A request handler: it reads and commits to the database, and returns a value or raises an
-- `HTTPException` with a status code and a detail. A handler raises before its first write, so the
-- rollback of the request's session is the database that the handler returns.
use filmoteka.Prelude.{ℕ, String}
use filmoteka.Models.{Db}

pub data Reply {ℓ} (A : Type ℓ) : Type ℓ where
  ok : A → Reply A
  raised : ℕ → String → Reply A

abbrev pub Handler : Type 0 → Type 0
Handler A = Db → Reply A × Db
