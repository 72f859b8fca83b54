-- ===== src/Access/Names.antt =====
-- What every sequence of registrations, logins and account edits keeps: keys and names of users are unique,
-- and nobody becomes an administrator.
use filmoteka.Prelude.{
  ℕ, ◌≡◌, refl, String, Option, none, some, List, [], ◌∷◌, arith, str_eq, eq_iff, true, Bool-cases,
  ◌⊎◌, inl, inr, Option-cases,
}
use filmoteka.Table.{get, add, put}
use filmoteka.Table.Laws.{IsTable, add-IsTable, put-IsTable, get-add, get-put, first-none}
use filmoteka.Models.{Db}
use filmoteka.Models.Access.{User}
use filmoteka.Access.{
  Bcrypt, Jwt, Credentials, CreateUserRequest, new_user, find_user, is_valid_role,
  is_valid_age_group, hash_password, register, login, create_checked, admin_create_user,
  admin_update_user,
}

-- A request that reads or writes accounts, with the time and the salt that it meets.
pub data AccountRequest : Type 0 where
  register_as : ℕ → String → Credentials → AccountRequest
  login_as : ℕ → Credentials → AccountRequest
  create_user : ℕ → String → CreateUserRequest → AccountRequest
  update_user : ℕ → Option String → AccountRequest

module _ (bcrypt : Bcrypt) (jwt : Jwt) (key : String) where
  -- The database that a request leaves.
  abbrev pub serve : AccountRequest → Db → Db
  serve (register_as now salt body) db = (register bcrypt jwt key now salt body db).1
  serve (login_as now body) db = (login bcrypt jwt key now body db).1
  serve (create_user now salt body) db = (admin_create_user bcrypt now salt body db).1
  serve (update_user i group) db = (admin_update_user i group db).1

  unfoldable pub serve_all : List AccountRequest → Db → Db
  serve_all [] db = db
  serve_all (r ∷ rs) db = serve_all rs (serve r db)

abbrev pub UniqueNames : Db → Type 0
UniqueNames db =
    (i j : ℕ) (a b : User)
    → get db.users i ≡ some a
    → get db.users j ≡ some b
    → a.username ≡ b.username
    → i ≡ j

pub record IsSound (db : Db) : Type 0 where
  pub table : IsTable db.users
  pub unique : UniqueNames db

-- A new user whose name nobody has.
add-UniqueNames :
    (u : User) (db : Db)
    → IsTable db.users
    → UniqueNames db
    → find_user u.username db ≡ none
    → UniqueNames (record db { users = add u db.users })
unfolding find_user
add-UniqueNames u db t h free i j a b ga gb e = ground (
  arith,
  get-add i u db.users t,
  get-add j u db.users t,
  first-none (λ _ (x : User). str_eq x.username u.username) db.users i a free,
  first-none (λ _ (x : User). str_eq x.username u.username) db.users j b free,
  eq_iff a.username u.username,
  eq_iff b.username u.username,
  h i j a b,
)

-- An edit that keeps the name.
put-UniqueNames :
    (k : ℕ) (old new : User) (db : Db)
    → UniqueNames db
    → get db.users k ≡ some old
    → new.username ≡ old.username
    → UniqueNames (record db { users = put k new db.users })
put-UniqueNames k old new db h found same i j a b ga gb e =
    ground (
      arith,
      get-put k i new db.users,
      get-put k j new db.users,
      h i j a b,
      h k j old b,
      h i k a old,
    )

add-IsSound :
    (u : User) (db : Db)
    → IsSound db
    → find_user u.username db ≡ none
    → IsSound (record db { users = add u db.users })
add-IsSound u db h free = record {
  table = add-IsTable u db.users h.table;
  unique = add-UniqueNames u db h.table h.unique free;
}

register-IsSound :
    (bcrypt : Bcrypt) (jwt : Jwt) (key : String) (now : ℕ) (salt : String) (body : Credentials)
    (db : Db)
    → IsSound db
    → IsSound (register bcrypt jwt key now salt body db).1
unfolding register new_user
register-IsSound bcrypt jwt key now salt body db h =
    elim (Option-cases (find_user body.username db)) [
      | inl free ↦
          let u = new_user body.username (hash_password bcrypt body.password salt) now in
          rw (free, register) (add-IsSound u db h free)
      | inr (_, taken) ↦ rw (taken, register) h
    ]

create_checked-IsSound :
    (bcrypt : Bcrypt) (now : ℕ) (salt : String) (body : CreateUserRequest) (db : Db)
    → IsSound db
    → IsSound (create_checked bcrypt now salt body db).1
unfolding create_checked new_user
create_checked-IsSound bcrypt now salt body db h =
    elim (Option-cases (find_user body.username db)) [
      | inl free ↦
          let fresh = new_user body.username (hash_password bcrypt body.password salt) now in
          rw (free, create_checked)
            (add-IsSound (record fresh { role = body.role; age_group = body.age_group }) db h free)
      | inr (_, taken) ↦ rw (taken, create_checked) h
    ]

update-IsSound :
    (i : ℕ) (group : Option String) (db : Db)
    → IsSound db
    → IsSound (admin_update_user i group db).1
unfolding admin_update_user
update-IsSound i group db h = elim (Option-cases (get db.users i)) [
  | inl missing ↦ rw (missing, admin_update_user) h
  | inr (u, found) ↦ elim (Bool-cases (is_valid_age_group group)) [
    | inl fine ↦
        let v = record u { age_group = group } in
        rw (found, fine, admin_update_user)
          (record {
            table = put-IsTable i v db.users h.table;
            unique = put-UniqueNames i u v db h.unique found refl;
          })
    | inr bad ↦ rw (found, bad, admin_update_user) h
  ]
]

pub login_unchanged :
    (bcrypt : Bcrypt) (jwt : Jwt) (key : String) (now : ℕ) (body : Credentials) (db : Db)
    → (login bcrypt jwt key now body db).1 ≡ db
unfolding login
login_unchanged bcrypt jwt key now body db = ground arith

-- A creation that the checks of the role and the age group refuse changes nothing.
pub create_cases :
    (bcrypt : Bcrypt) (now : ℕ) (salt : String) (body : CreateUserRequest) (db : Db)
    → ((admin_create_user bcrypt now salt body db).1 ≡ db)
      ⊎ ((is_valid_role body.role ≡ true)
          × ((admin_create_user bcrypt now salt body db).1
              ≡ (create_checked bcrypt now salt body db).1))
unfolding admin_create_user
create_cases bcrypt now salt body db = elim (Bool-cases (is_valid_role body.role)) [
  | inl role ↦ elim (Bool-cases (is_valid_age_group body.age_group)) [
    | inl group ↦ inr (role, rw (role, group, admin_create_user))
    | inr bad ↦ inl (rw (role, bad, admin_create_user))
  ]
  | inr bad ↦ inl (rw (bad, admin_create_user))
]

pub serve-IsSound :
    (bcrypt : Bcrypt) (jwt : Jwt) (key : String) (r : AccountRequest) (db : Db)
    → IsSound db
    → IsSound (serve bcrypt jwt key r db)
serve-IsSound bcrypt jwt key (register_as now salt body) db h =
    register-IsSound bcrypt jwt key now salt body db h
serve-IsSound bcrypt jwt key (login_as now body) db h =
    rw (login_unchanged bcrypt jwt key now body db) h
serve-IsSound bcrypt jwt key (create_user now salt body) db h =
    elim (create_cases bcrypt now salt body db) [
      | inl same ↦ rw same h
      | inr (_, made) ↦ rw made (create_checked-IsSound bcrypt now salt body db h)
    ]
serve-IsSound bcrypt jwt key (update_user i group) db h = update-IsSound i group db h

-- From a database whose users have unique keys and names, every sequence of registrations, logins, creations and updates of
-- users, refused ones included, leads to such a database.
pub serve_all-IsSound :
    (bcrypt : Bcrypt) (jwt : Jwt) (key : String) (rs : List AccountRequest) (db : Db)
    → IsSound db
    → IsSound (serve_all bcrypt jwt key rs db)
unfolding serve_all
serve_all-IsSound bcrypt jwt key [] db h = h
serve_all-IsSound bcrypt jwt key (r ∷ rs) db h =
    serve_all-IsSound bcrypt jwt key rs (serve bcrypt jwt key r db)
      (serve-IsSound bcrypt jwt key r db h)
