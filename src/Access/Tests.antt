-- ===== src/Access/Tests.antt =====
-- Runs of the account handlers, with bcrypt and PyJWT replaced by functions that have their laws.
use filmoteka.Prelude.{
  ℕ, ◌≡◌, refl, String, ◌&&◌, Option, none, some, List, [], ◌∷◌, arith, ltb, str_eq, eq_refl,
  if◌then◌else◌,
}
use filmoteka.Text.{show, parse_int}
use filmoteka.Table.{get, add, first}
use filmoteka.Models.{Db, empty_db}
use filmoteka.Models.Access.{User}
use filmoteka.Http.{ok}
use filmoteka.Access.{
  Bcrypt, Payload, Jwt, Credentials, new_user, find_user, hash_password, create_access_token,
  decode_access_token, get_current_user, require_role, register, login,
}
use filmoteka.Access.Sessions.{register-login}
use filmoteka.Access.Names.{
  IsSound, AccountRequest, login_as, create_user, register_as, update_user, serve_all,
  serve_all-IsSound,
}
use filmoteka.Access.Roles.{NoNewAdmin, serve_all-NoNewAdmin}

abbrev plain : Bcrypt
plain = record {
  hashpw = λ password salt. password;
  checkpw = λ password hashed. str_eq password hashed;
  checkpw-hashpw = λ password salt. eq_refl password;
}

abbrev open_token : ℕ → Payload × String → String → Option Payload
open_token now (p, signed) key = if str_eq signed key && ltb now p.exp then some p else none

open_token_lem :
    (now : ℕ) (p : Payload) (key : String)
    → open_token now (p, key) key ≡ (if ltb now p.exp then some p else none)
open_token_lem now p key = ground (arith, eq_refl key)

abbrev sealed : Jwt
sealed = record {
  Token = Payload × String;
  encode = λ p key. (p, key);
  decode = open_token;
  decode-encode = open_token_lem;
}

abbrev anna : Credentials
anna = record { username = "anna"; password = "secret" }

abbrev with_anna : Db
with_anna = record empty_db {
  users = add (new_user "anna" (hash_password plain "secret" "s") 5) empty_db.users;
}

register-anna :
    register plain sealed "key" 5 "s" anna empty_db
    ≡ (ok (create_access_token sealed "key" 5 1), with_anna)
unfolding register find_user first
register-anna = refl

register-login_example :
    let t = create_access_token sealed "key" 9 1 in
    (login plain sealed "key" 9 anna with_anna ≡ (ok t, with_anna))
    × (get_current_user sealed "key" 100 (some t) with_anna
        ≡ ok (1, new_user "anna" (hash_password plain "secret" "s") 5))
register-login_example =
    register-login plain sealed "key" "s" 5 9 100 anna (create_access_token sealed "key" 5 1)
      empty_db with_anna tt register-anna (omega arith)

abbrev boss : User
boss = record (new_user "boss" "h" 1) { role = "admin" }

abbrev with_boss : Db
with_boss = record empty_db { users = add boss empty_db.users }

boss_is_let_in :
    require_role sealed "key" "admin" 10 (some (create_access_token sealed "key" 5 1)) with_boss
    ≡ ok (1, boss)
unfolding require_role get_current_user decode_access_token create_access_token show parse_int get
    add new_user
boss_is_let_in = refl

boss_IsSound : IsSound with_boss
unfolding get add
boss_IsSound = record { table = (omega arith, refl, tt); unique = λ i j a b ga gb e. ground arith }

abbrev requests : List AccountRequest
requests =
    register_as 5 "s" anna
    ∷ register_as 6 "s" anna
    ∷ create_user 7 "s"
        (record { username = "kid"; password = "p"; role = "child"; age_group = some "0_6" })
    ∷ create_user 8 "s"
        (record { username = "evil"; password = "p"; role = "admin"; age_group = none })
    ∷ update_user 2 (some "7_12")
    ∷ login_as 9 anna
    ∷ []

serve_all-IsSound_example : IsSound (serve_all plain sealed "key" requests with_boss)
serve_all-IsSound_example = serve_all-IsSound plain sealed "key" requests with_boss boss_IsSound

serve_all-NoNewAdmin_example :
    NoNewAdmin with_boss (serve_all plain sealed "key" requests with_boss)
serve_all-NoNewAdmin_example =
    serve_all-NoNewAdmin plain sealed "key" requests with_boss boss_IsSound
