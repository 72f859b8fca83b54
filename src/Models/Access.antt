-- ===== src/Models/Access.antt =====
-- src/filmoteka/domain/access/models.py. The rows of `UserFilmBlacklist` are the key pairs of
-- `Db.blacklist`.
use filmoteka.Prelude.{ℕ, String, Bool, Option}

pub record User : Type 0 where
  pub username : String
  pub hashed_password : String
  pub role : String
  pub is_active : Bool
  pub incognito : Bool
  pub age_group : Option String
  pub exclude_family_from_recommendations : Bool
  pub exclude_watched : Bool
  pub include_external : Bool
  pub filter_by_language : Bool
  pub created_at : ℕ
