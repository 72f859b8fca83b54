-- ===== src/Users.antt =====
-- The user's own settings and blacklist, of src/filmoteka/api/users.py. A handler takes the current user's
-- key, and where it changes the row, the row.
pub mod Blacklist
pub mod Incognito
mod Tests
use filmoteka.Prelude.{
  ℕ, Bool, not, ◌&&◌, none, some, List, [], ◌∷◌, ◌++◌, ◌==◌, if◌then◌else◌, keep, any, map,
}
use filmoteka.Table.{get, put}
use filmoteka.Models.{Db}
use filmoteka.Models.Access.{User}
use filmoteka.Http.{Reply, ok, raised, Handler}

-- The row of `UserFilmBlacklist` with this primary key.
abbrev pub is_entry : ℕ → ℕ → ℕ × ℕ → Bool
is_entry user_id film_id (u, f) = (u == user_id) && (f == film_id)

unfoldable pub films_of : ℕ → List (ℕ × ℕ) → List ℕ
films_of user_id [] = []
films_of user_id ((u, f) ∷ rest) =
    if u == user_id then f ∷ films_of user_id rest else films_of user_id rest

unfoldable pub list_blacklist : ℕ → Db → List ℕ
unfolding films_of
list_blacklist user_id db = films_of user_id db.blacklist

unfoldable pub add_to_blacklist : ℕ → ℕ → Handler Unit
add_to_blacklist film_id user_id db = elim (get db.films film_id) [
  | none ↦ (raised 404 "Film not found", db)
  | some _ ↦
      if any (is_entry user_id film_id) db.blacklist
      then (ok tt, db)
      else (ok tt, record db { blacklist = db.blacklist ++ (user_id, film_id) ∷ [] })
]

unfoldable pub remove_from_blacklist : ℕ → ℕ → Handler Unit
remove_from_blacklist film_id user_id db =
    if any (is_entry user_id film_id) db.blacklist
    then (
      ok tt,
      record db { blacklist = keep (λ x. not (is_entry user_id film_id x)) db.blacklist },
    )
    else (ok tt, db)

-- The assignment to the current user's row, its commit and the answer.
abbrev save_user : ℕ → User → Handler User
save_user user_id user db = (ok user, record db { users = put user_id user db.users })

unfoldable pub set_incognito : Bool → ℕ → User → Handler User
set_incognito value user_id user = save_user user_id (record user { incognito = value })

unfoldable pub set_exclude_family : Bool → ℕ → User → Handler User
set_exclude_family value user_id user =
    save_user user_id (record user { exclude_family_from_recommendations = value })

unfoldable pub set_exclude_watched : Bool → ℕ → User → Handler User
set_exclude_watched value user_id user = save_user user_id (record user { exclude_watched = value })

unfoldable pub set_include_external : Bool → ℕ → User → Handler User
set_include_external value user_id user =
    save_user user_id (record user { include_external = value })

unfoldable pub set_filter_by_language : Bool → ℕ → User → Handler User
set_filter_by_language value user_id user =
    save_user user_id (record user { filter_by_language = value })
