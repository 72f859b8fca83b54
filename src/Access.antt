-- ===== src/Access.antt =====
-- Accounts and sessions: src/filmoteka/domain/access/service.py, src/filmoteka/api/auth.py and the
-- user management of src/filmoteka/api/admin.py. bcrypt and PyJWT are parameters.
pub mod Sessions
pub mod Names
pub mod Roles
mod Tests
use filmoteka.Prelude.{
  ℕ, ◌+◌, ◌*◌, ◌≡◌, String, Bool, true, false, not, ◌&&◌, ◌||◌, Option, none, some, ltb, str_eq,
  is_none, if◌then◌else◌,
}
use filmoteka.Text.{show, parse_int}
use filmoteka.Table.{get, add, put, first}
use filmoteka.Models.{Db}
use filmoteka.Models.Access.{User}
use filmoteka.Http.{Reply, ok, raised, Handler}

-- The claims of a token; `sub` may be missing, `exp` is in seconds.
pub record Payload : Type 0 where
  pub sub : Option String
  pub exp : ℕ

pub record Bcrypt : Type 0 where
  pub hashpw : String → String → String  -- password, salt
  pub checkpw : String → String → Bool
  pub checkpw-hashpw : (password salt : String) → checkpw password (hashpw password salt) ≡ true

-- `decode now token key` is `none` on every error that PyJWT raises. What was signed with the key
-- is read back until it expires.
pub record Jwt : Type 1 where
  pub Token : Type 0  -- what a client can send
  pub encode : Payload → String → Token
  pub decode : ℕ → Token → String → Option Payload
  pub decode-encode :
      (now : ℕ) (p : Payload) (key : String)
      → decode now (encode p key) key ≡ (if ltb now p.exp then some p else none)

-- The body of a registration or a login.
pub record Credentials : Type 0 where
  pub username : String
  pub password : String

pub record CreateUserRequest : Type 0 where
  pub username : String
  pub password : String
  pub role : String
  pub age_group : Option String

-- The columns' defaults of a new `User`.
unfoldable pub new_user : String → String → ℕ → User
new_user username hashed now = record {
  username = username;
  hashed_password = hashed;
  role = "user";
  is_active = true;
  incognito = false;
  age_group = none;
  exclude_family_from_recommendations = true;
  exclude_watched = false;
  include_external = false;
  filter_by_language = false;
  created_at = now;
}

-- `db.query(User).filter(User.username == username).first()`
unfoldable pub find_user : String → Db → Option (ℕ × User)
find_user username db = first (λ _ u. str_eq u.username username) db.users

abbrev pub token_expire_minutes : ℕ
token_expire_minutes = 60 * 24 * 7

unfoldable pub is_valid_role : String → Bool
is_valid_role role = str_eq role "user" || str_eq role "child"

unfoldable pub is_valid_age_group : Option String → Bool
is_valid_age_group none = true
is_valid_age_group (some g) = str_eq g "0_6" || str_eq g "7_12" || str_eq g "13_17"

module _ (bcrypt : Bcrypt) where
  unfoldable pub hash_password : String → String → String
  hash_password password salt = bcrypt.hashpw password salt

  unfoldable pub verify_password : String → String → Bool
  verify_password password hashed = bcrypt.checkpw password hashed

module _ (jwt : Jwt) (secret_key : String) where
  unfoldable pub create_access_token : ℕ → ℕ → jwt.Token
  create_access_token now user_id =
      jwt.encode (record { sub = some (show user_id); exp = now + token_expire_minutes * 60 })
        secret_key

  -- A missing `sub` (KeyError) and a `sub` that is no number (ValueError) are caught.
  subject : Option Payload → Option ℕ
  subject none = none
  subject (some p) = elim p.sub [ none ↦ none | some s ↦ parse_int s ]

  unfoldable pub decode_access_token : ℕ → jwt.Token → Option ℕ
  unfolding subject
  decode_access_token now token = subject (jwt.decode now token secret_key)

  -- The tests behind a decoded token: the user exists and is active.
  active_user : Db → ℕ → Option User → Reply (ℕ × User)
  active_user db user_id none = raised 401 "User not found or inactive"
  active_user db user_id (some u) =
      if not u.is_active then raised 401 "User not found or inactive" else ok (user_id, u)

  user_of_token : Db → Option ℕ → Reply (ℕ × User)
  user_of_token db none = raised 401 "Invalid or expired token"
  user_of_token db (some user_id) = active_user db user_id (get db.users user_id)

  -- `_get_current_user`
  unfoldable pub get_current_user : ℕ → Option jwt.Token → Db → Reply (ℕ × User)
  unfolding user_of_token active_user
  get_current_user now none db = raised 401 "Not authenticated"
  get_current_user now (some token) db = user_of_token db (decode_access_token now token)

  optional_active : ℕ → Option User → Option (ℕ × User)
  optional_active user_id none = none
  optional_active user_id (some u) = if not u.is_active then none else some (user_id, u)

  optional_of_token : Db → Option ℕ → Option (ℕ × User)
  optional_of_token db none = none
  optional_of_token db (some user_id) = optional_active user_id (get db.users user_id)

  unfoldable pub get_optional_current_user : ℕ → Option jwt.Token → Db → Option (ℕ × User)
  unfolding optional_of_token optional_active
  get_optional_current_user now none db = none
  get_optional_current_user now (some token) db =
      optional_of_token db (decode_access_token now token)

  check_role : String → Reply (ℕ × User) → Reply (ℕ × User)
  check_role required (raised code detail) = raised code detail
  check_role required (ok (user_id, u)) =
      if not (str_eq u.role required)
      then raised 403 "Insufficient permissions"
      else ok (user_id, u)

  -- `require_role(required_role)`, with the dependency that it calls.
  unfoldable pub require_role : String → ℕ → Option jwt.Token → Db → Reply (ℕ × User)
  unfolding check_role
  require_role required now credentials db =
      check_role required (get_current_user now credentials db)

module _ (bcrypt : Bcrypt) (jwt : Jwt) (secret_key : String) where
  unfoldable pub register : ℕ → String → Credentials → Handler jwt.Token
  unfolding hash_password
  register now salt body db = elim (find_user body.username db) [
    | some _ ↦ (raised 409 "Username already taken", db)
    | none ↦
        let u = new_user body.username (hash_password bcrypt body.password salt) now in
        (
          ok (create_access_token jwt secret_key now db.users.next_id),
          record db { users = add u db.users },
        )
  ]

  unfoldable pub login : ℕ → Credentials → Handler jwt.Token
  unfolding verify_password
  login now body db = elim (find_user body.username db) [
    | none ↦ (raised 401 "Invalid username or password", db)
    | some (user_id, u) ↦
        if not (verify_password bcrypt body.password u.hashed_password)
        then (raised 401 "Invalid username or password", db)
        else (ok (create_access_token jwt secret_key now user_id), db)
  ]

module _ (bcrypt : Bcrypt) where
  pub create_checked : ℕ → String → CreateUserRequest → Handler (ℕ × User)
  unfolding hash_password
  create_checked now salt body db = elim (find_user body.username db) [
    | some _ ↦ (raised 409 "Username already taken", db)
    | none ↦
        let fresh = new_user body.username (hash_password bcrypt body.password salt) now in
        let u = record fresh { role = body.role; age_group = body.age_group } in
        (ok (db.users.next_id, u), record db { users = add u db.users })
  ]

  -- `admin_create_user`, behind the check of the administrator's role
  unfoldable pub admin_create_user : ℕ → String → CreateUserRequest → Handler (ℕ × User)
  unfolding create_checked is_valid_role is_valid_age_group
  admin_create_user now salt body db =
      if not (is_valid_role body.role)
      then (raised 422 "Invalid role", db)
      else if not (is_valid_age_group body.age_group)
      then (raised 422 "Invalid age_group", db)
      else create_checked now salt body db

-- `admin_update_user`
unfoldable pub admin_update_user : ℕ → Option String → Handler (ℕ × User)
unfolding is_valid_age_group
admin_update_user user_id age_group db = elim (get db.users user_id) [
  | none ↦ (raised 404 "User not found", db)
  | some u ↦ if not (is_valid_age_group age_group) then (raised 422 "Invalid age_group", db) else (
    ok (user_id, record u { age_group = age_group }),
    record db { users = put user_id (record u { age_group = age_group }) db.users },
  )
]
