-- ===== src/Access/Roles.antt =====
-- Nobody becomes an administrator through the interface.
use filmoteka.Prelude.{
  ℕ, ◌≡◌, ◌≢◌, refl, String, Option, some, List, [], ◌∷◌, arith, eq_iff, true, Bool-cases, inl, inr,
  Option-cases,
}
use filmoteka.Table.{get}
use filmoteka.Table.Laws.{IsTable, Each, Each-add, Each-put}
use filmoteka.Models.{Db}
use filmoteka.Models.Access.{User}
use filmoteka.Access.{
  Bcrypt, Jwt, Credentials, CreateUserRequest, new_user, find_user, is_valid_role,
  is_valid_age_group, hash_password, register, create_checked, admin_update_user,
}
use filmoteka.Access.Names.{
  AccountRequest, register_as, login_as, create_user, update_user, serve, serve_all, IsSound,
  create_cases, login_unchanged, serve-IsSound,
}

-- The user of key `i` is an administrator.
abbrev pub IsAdmin : Db → ℕ → Type 0
IsAdmin db i = (u : User) × (get db.users i ≡ some u) × (u.role ≡ "admin")

-- Every administrator of `db` was one in `start`.
abbrev pub NoNewAdmin : Db → Db → Type 0
NoNewAdmin start db = Each (λ i u. u.role ≡ "admin" → IsAdmin start i) db.users

valid_role-ne-admin : (role : String) → is_valid_role role ≡ true → role ≢ "admin"
unfolding is_valid_role
valid_role-ne-admin role h e =
    ground (
      arith,
      eq_iff role "user",
      eq_iff role "child",
      eq_iff "user" "admin",
      eq_iff "child" "admin",
    )

module _ (start : Db) where
  register-NoNewAdmin :
      (bcrypt : Bcrypt) (jwt : Jwt) (key : String) (now : ℕ) (salt : String) (body : Credentials)
      (db : Db)
      → IsTable db.users
      → NoNewAdmin start db
      → NoNewAdmin start (register bcrypt jwt key now salt body db).1
  unfolding register new_user is_valid_role
  register-NoNewAdmin bcrypt jwt key now salt body db t h =
      elim (Option-cases (find_user body.username db)) [
        | inl free ↦
            let u = new_user body.username (hash_password bcrypt body.password salt) now in
            rw (free, register)
              (Each-add (λ i (x : User). x.role ≡ "admin" → IsAdmin start i) u db.users t h
                (λ e. absurd (valid_role-ne-admin "user" refl e)))
        | inr (_, taken) ↦ rw (taken, register) h
      ]

  create-NoNewAdmin :
      (bcrypt : Bcrypt) (now : ℕ) (salt : String) (body : CreateUserRequest) (db : Db)
      → IsTable db.users
      → is_valid_role body.role ≡ true
      → NoNewAdmin start db
      → NoNewAdmin start (create_checked bcrypt now salt body db).1
  unfolding create_checked new_user
  create-NoNewAdmin bcrypt now salt body db t role h =
      elim (Option-cases (find_user body.username db)) [
        | inl free ↦
            let fresh = new_user body.username (hash_password bcrypt body.password salt) now in
            let u = record fresh { role = body.role; age_group = body.age_group } in
            rw (free, create_checked)
              (Each-add (λ i (x : User). x.role ≡ "admin" → IsAdmin start i) u db.users t h
                (λ e. absurd (valid_role-ne-admin body.role role e)))
        | inr (_, taken) ↦ rw (taken, create_checked) h
      ]

  update-NoNewAdmin :
      (i : ℕ) (group : Option String) (db : Db)
      → NoNewAdmin start db
      → NoNewAdmin start (admin_update_user i group db).1
  unfolding admin_update_user
  update-NoNewAdmin i group db h = elim (Option-cases (get db.users i)) [
    | inl missing ↦ rw (missing, admin_update_user) h
    | inr (u, found) ↦ elim (Bool-cases (is_valid_age_group group)) [
      | inl fine ↦
          let v = record u { age_group = group } in
          rw (found, fine, admin_update_user)
            (Each-put (λ j (x : User). x.role ≡ "admin" → IsAdmin start j) i v db.users h
              (h i u found))
      | inr bad ↦ rw (found, bad, admin_update_user) h
    ]
  ]

  serve-NoNewAdmin :
      (bcrypt : Bcrypt) (jwt : Jwt) (key : String) (r : AccountRequest) (db : Db)
      → IsTable db.users
      → NoNewAdmin start db
      → NoNewAdmin start (serve bcrypt jwt key r db)
  serve-NoNewAdmin bcrypt jwt key (register_as now salt body) db t h =
      register-NoNewAdmin bcrypt jwt key now salt body db t h
  serve-NoNewAdmin bcrypt jwt key (login_as now body) db t h =
      rw (login_unchanged bcrypt jwt key now body db) h
  serve-NoNewAdmin bcrypt jwt key (create_user now salt body) db t h =
      elim (create_cases bcrypt now salt body db) [
        | inl same ↦ rw same h
        | inr (role, made) ↦ rw made (create-NoNewAdmin bcrypt now salt body db t role h)
      ]
  serve-NoNewAdmin bcrypt jwt key (update_user i group) db t h = update-NoNewAdmin i group db h

  serve_all-keeps :
      (bcrypt : Bcrypt) (jwt : Jwt) (key : String) (rs : List AccountRequest) (db : Db)
      → IsSound db
      → NoNewAdmin start db
      → NoNewAdmin start (serve_all bcrypt jwt key rs db)
  unfolding serve_all
  serve_all-keeps bcrypt jwt key [] db s h = h
  serve_all-keeps bcrypt jwt key (r ∷ rs) db s h =
      serve_all-keeps bcrypt jwt key rs (serve bcrypt jwt key r db)
        (serve-IsSound bcrypt jwt key r db s) (serve-NoNewAdmin bcrypt jwt key r db s.table h)

-- From a database whose users have unique keys and names: after every sequence of registrations, logins, creations and
-- updates of users, an administrator was an administrator, under the same key, before.
pub serve_all-NoNewAdmin :
    (bcrypt : Bcrypt) (jwt : Jwt) (key : String) (rs : List AccountRequest) (db : Db)
    → IsSound db
    → NoNewAdmin db (serve_all bcrypt jwt key rs db)
serve_all-NoNewAdmin bcrypt jwt key rs db s =
    serve_all-keeps db bcrypt jwt key rs db s (λ i u found e. (u, found, e))
