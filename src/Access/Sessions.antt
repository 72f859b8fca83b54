-- ===== src/Access/Sessions.antt =====
-- Tokens name the user that they were issued to, and the two ways to read one agree.
use filmoteka.Prelude.{
  ℕ, ◌+◌, ◌*◌, ◌<◌, ◌≡◌, String, true, Option, none, some, arith, if◌then◌else◌, ltb, str_eq,
  eq_iff, eq_refl,
}
use filmoteka.Text.{show, parse_int-show}
use filmoteka.Table.{get}
use filmoteka.Table.Laws.{IsTable, get-add, first-add}
use filmoteka.Models.{Db}
use filmoteka.Models.Access.{User}
use filmoteka.Http.{Reply, ok, raised}
use filmoteka.Access.{
  Bcrypt, Payload, Jwt, Credentials, new_user, find_user, token_expire_minutes, hash_password,
  create_access_token, decode_access_token, get_current_user, get_optional_current_user,
  require_role, register, login,
}

abbrev pub or_nobody : Reply (ℕ × User) → Option (ℕ × User)
or_nobody (ok u) = some u
or_nobody (raised _ _) = none

-- For every token, present or not, `get_optional_current_user` finds the user whom `_get_current_user` lets in, and nobody
-- where that one raises.
pub get_optional-eq-get_current :
    (jwt : Jwt) (key : String) (now : ℕ) (credentials : Option jwt.Token) (db : Db)
    → get_optional_current_user jwt key now credentials db
      ≡ or_nobody (get_current_user jwt key now credentials db)
unfolding get_optional_current_user get_current_user
get_optional-eq-get_current jwt key now none db = ground arith
get_optional-eq-get_current jwt key now (some token) db = ground arith

-- A user whom `require_role(required)` lets in is a row of the table of users, is active and has the required role.
pub require_role_sound :
    (jwt : Jwt) (key required : String) (now : ℕ) (credentials : Option jwt.Token) (db : Db) (i : ℕ)
    (u : User)
    → require_role jwt key required now credentials db ≡ ok (i, u)
    → (get db.users i ≡ some u) × (u.is_active ≡ true) × (u.role ≡ required)
unfolding require_role get_current_user
require_role_sound jwt key required now none db i u h = ground arith
require_role_sound jwt key required now (some token) db i u h =
    ground (arith, eq_iff u.role required)

-- A token is read back as its user's key until seven days after its issue, and as nobody from then on.
pub decode-create_access_token :
    (jwt : Jwt) (key : String) (issued now user_id : ℕ)
    → decode_access_token jwt key now (create_access_token jwt key issued user_id)
      ≡ (if ltb now (issued + 604800) then some user_id else none)
unfolding decode_access_token create_access_token
decode-create_access_token jwt key issued now user_id =
    let p : Payload = record {
      sub = some (show user_id);
      exp = issued + token_expire_minutes * 60;
    } in
    ground (arith, jwt.decode-encode now p key, parse_int-show user_id)

-- In a table of users with unique keys: after a registration that succeeded, a login with the same name and
-- password returns a token, and for seven days from the login that token is let in as an active
-- user with that name and the role "user".
pub register-login :
    (bcrypt : Bcrypt) (jwt : Jwt) (key salt : String) (registered logged_in now : ℕ)
    (body : Credentials) (token : jwt.Token) (db after : Db)
    → IsTable db.users
    → register bcrypt jwt key registered salt body db ≡ (ok token, after)
    → now < logged_in + 604800
    → let u = new_user body.username (hash_password bcrypt body.password salt) registered in
      let t = create_access_token jwt key logged_in db.users.next_id in
      (login bcrypt jwt key logged_in body after ≡ (ok t, after))
      × (get_current_user jwt key now (some t) after ≡ ok (db.users.next_id, u))
unfolding register login get_current_user new_user find_user
register-login bcrypt jwt key salt registered logged_in now body token db after valid done soon =
    let u = new_user body.username (hash_password bcrypt body.password salt) registered in
    ground (
      arith,
      first-add (λ _ (a : User). str_eq a.username body.username) u db.users,
      eq_refl body.username,
      bcrypt.checkpw-hashpw body.password salt,
      decode-create_access_token jwt key logged_in now db.users.next_id,
      get-add db.users.next_id u db.users valid,
    )
