-- ===== src/Catalog/Listing.antt =====
-- What the film listing shows, to whom, and how its pages fit together.
use filmoteka.Prelude.{
  ℕ, zero, suc, ◌+◌, String, ◌≡◌, refl, ap, Bool, true, false, not, ◌&&◌, ◌||◌, Option, some, List,
  [], ◌∷◌, ◌++◌, arith, str_eq, if◌then◌else◌, All, All-imp, All-take, All-drop, All-sort_by,
  IsSorted, IsSorted-take, IsSorted-drop, sort_by-IsSorted, by_key_desc, sort_by, take, drop,
  mem_nat,
}
use filmoteka.Table.{get, select}
use filmoteka.Table.Laws.{IsTable, All-select}
use filmoteka.Models.{Db}
use filmoteka.Models.Access.{User}
use filmoteka.Models.Catalog.{Film}
use filmoteka.Users.{list_blacklist}
use filmoteka.Catalog.{
  TextSearch, Query, given, has_genre, years_match, tech_match, lookup, age_group_max, user_sees,
  is_watched, passes, sort_key, list_films,
}
use filmoteka.Catalog.Ratings.{is_suitable, age_allows-child}

-- A row of the table of films that passes the filters.
abbrev IsFound : TextSearch → Query → Option (ℕ × User) → Db → ℕ × Film → Type 0
IsFound text query current db (k, f) =
    (passes text query current db k f ≡ true) × (get db.films k ≡ some f)

list_films-IsFound :
    (text : TextSearch) (query : Query) (current : Option (ℕ × User)) (db : Db)
    → IsTable db.films
    → All (IsFound text query current db) (list_films text query current db).0
unfolding list_films
list_films-IsFound text query current db tidy =
    let p = passes text query current db in
    let found = select p db.films in
    let sorted = sort_by (by_key_desc (sort_key text query)) found in
    let P = IsFound text query current db in
    All-take P query.limit (drop query.skip sorted) (
      All-drop P query.skip sorted
        (All-sort_by P (by_key_desc (sort_key text query)) found (All-select p db.films tidy)))

last_two : (a b c d e f : Bool) → (a && b && c && d && e && f) ≡ true → (e ≡ true) × (f ≡ true)
last_two a b c d e f h = ground arith

passes-user :
    (text : TextSearch) (query : Query) (current : Option (ℕ × User)) (db : Db) (k : ℕ) (f : Film)
    → passes text query current db k f ≡ true
    → (user_sees current db k f ≡ true) × ((query.include_family || not f.is_family_video) ≡ true)
unfolding passes
passes-user text query current db k f h =
    last_two (given query.q (λ q. if str_eq q "" then true else text.matches f.fts_vector q))
      (given query.genre (λ slug. has_genre db slug k)) (years_match query f)
      (tech_match text query db k) (user_sees current db k f)
      (query.include_family || not f.is_family_video) h

-- A listing for a child of a known age group shows only films that are suitable for the age of the group.
pub list_films-suitable :
    (text : TextSearch) (query : Query) (user_id : ℕ) (user : User) (group : String) (max_age : ℕ)
    (db : Db)
    → IsTable db.films
    → user.role ≡ "child"
    → user.age_group ≡ some group
    → lookup group age_group_max ≡ some max_age
    → All (λ x. is_suitable max_age x.1 ≡ true) (list_films text query (some (user_id, user)) db).0
unfolding user_sees
list_films-suitable text query user_id user group max_age db tidy child in_group known =
    All-imp (IsFound text query (some (user_id, user)) db) (λ x. is_suitable max_age x.1 ≡ true)
      (list_films text query (some (user_id, user)) db).0
      (λ x h. ground (
        arith,
        passes-user text query (some (user_id, user)) db x.0 x.1 h.0,
        age_allows-child user group max_age x.1 child in_group known,
      ))
      (list_films-IsFound text query (some (user_id, user)) db tidy)

-- What a signed-in user never sees in a listing.
abbrev pub IsVisible : Bool → ℕ → User → Db → ℕ × Film → Type 0
IsVisible include_family user_id user db (k, f) =
    (mem_nat k (list_blacklist user_id db) ≡ false)
    × ((include_family || not f.is_family_video) ≡ true)
    × ((user.exclude_watched && is_watched db user_id k) ≡ false)

-- A listing for a signed-in user shows no film on the user's blacklist, no family video unless they are asked for, and, where the user
-- excludes watched films, none that the user has started outside the incognito mode.
pub list_films-IsVisible :
    (text : TextSearch) (query : Query) (user_id : ℕ) (user : User) (db : Db)
    → IsTable db.films
    → All
        (IsVisible query.include_family user_id user db)
        (list_films text query (some (user_id, user)) db).0
unfolding user_sees
list_films-IsVisible text query user_id user db tidy =
    All-imp (IsFound text query (some (user_id, user)) db)
      (IsVisible query.include_family user_id user db)
      (list_films text query (some (user_id, user)) db).0
      (λ x h. ground (arith, passes-user text query (some (user_id, user)) db x.0 x.1 h.0))
      (list_films-IsFound text query (some (user_id, user)) db tidy)

-- The page of a query, from a place on and of a size.
abbrev pub page : Query → ℕ → ℕ → Query
page query skip limit = record query { skip = skip; limit = limit }

take_nil {ℓ} : {A : Type ℓ} → (n : ℕ) → ◌≡◌ {A = List A} (take n []) []
take_nil zero = refl
take_nil (suc n) = refl

drop_nil {ℓ} : {A : Type ℓ} → (n : ℕ) → ◌≡◌ {A = List A} (drop n []) []
drop_nil zero = refl
drop_nil (suc n) = refl

take_page {ℓ} :
    {A : Type ℓ}
    → (s m n : ℕ) (xs : List A)
    → take m (drop s xs) ++ take n (drop (s + m) xs) ≡ take (m + n) (drop s xs)
take_page s m n [] =
    rw (drop_nil s, drop_nil (s + m), take_nil m, take_nil n, take_nil (m + n)) refl
take_page zero zero n (x ∷ xs) = ground arith
take_page zero (suc m) n (x ∷ xs) =
    let shift : zero + suc m ≡ suc (zero + m) = omega arith in
    let sum : suc m + n ≡ suc (m + n) = omega arith in
    rw (shift, sum) (ap (x ∷◌) (take_page zero m n xs))
take_page (suc s) m n (x ∷ xs) =
    let shift : suc s + m ≡ suc (s + m) = omega arith in rw (shift) (take_page s m n xs)

-- Two pages of which the second starts where the first ends make up the page of both sizes, and all three show one total and are
-- sorted by the sort key, largest first.
pub list_films-pages :
    (text : TextSearch) (query : Query) (current : Option (ℕ × User)) (db : Db) (s m n : ℕ)
    → ((list_films text (page query s m) current db).0
          ++ (list_films text (page query (s + m) n) current db).0
        ≡ (list_films text (page query s (m + n)) current db).0)
      × ((list_films text (page query s m) current db).1
          ≡ (list_films text (page query (s + m) n) current db).1)
      × IsSorted (by_key_desc (sort_key text query)) (list_films text (page query s m) current db).0
unfolding list_films passes sort_key
list_films-pages text query current db s m n =
    let key = sort_key text query in
    let found = select (passes text query current db) db.films in
    let sorted = sort_by (by_key_desc key) found in
    (
      take_page s m n sorted,
      refl,
      IsSorted-take (by_key_desc key) m (drop s sorted)
          (IsSorted-drop (by_key_desc key) s sorted (sort_by-IsSorted key found)),
    )
