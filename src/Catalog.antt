-- ===== src/Catalog.antt =====
-- The film listing of src/filmoteka/api/catalog.py, with its filters. The text search of the database is
-- a parameter.
pub mod Ratings
pub mod Card
pub mod Listing
mod Tests
use filmoteka.Prelude.{
  ℕ, String, Bool, true, false, not, ◌&&◌, ◌||◌, Option, none, some, List, [], ◌∷◌, leb, ◌==◌,
  str_eq, if◌then◌else◌, mem_nat, length, take, drop, any, map, sort_by, by_key_desc,
}
use filmoteka.Text.Case.{lower, strip}
use filmoteka.Table.{Rows, get, select}
use filmoteka.Models.{Db}
use filmoteka.Models.Access.{User}
use filmoteka.Models.Catalog.{Film, MediaFile}
use filmoteka.Models.Watching.{WatchEvent}
use filmoteka.Watching.{is_media_of_film, is_recorded}
use filmoteka.Users.{list_blacklist}

-- PostgreSQL: `fts_vector @@ plainto_tsquery('russian', q)`, `ts_rank`, and `ILIKE '%' || text || '%'`.
pub record TextSearch : Type 0 where
  pub matches : Option String → String → Bool
  pub ts_rank : Option String → String → ℕ
  pub ilike : String → String → Bool

pub record Query : Type 0 where
  pub skip : ℕ
  pub limit : ℕ
  pub year : Option ℕ
  pub year_from : Option ℕ
  pub year_to : Option ℕ
  pub genre : Option String
  pub q : Option String
  pub resolution : Option String
  pub codec : Option String
  pub audio_codec : Option String
  pub has_subtitles : Option Bool
  pub audio_lang : Option String
  pub subtitle_lang : Option String
  pub include_family : Bool

-- `dict.get` on a list of the items, in their order.
unfoldable pub lookup {ℓ} : {A : Type ℓ} → String → List (String × A) → Option A
lookup k [] = none
lookup k ((x, a) ∷ rest) = if str_eq x k then some a else lookup k rest

abbrev resolution_map : List (String × ℕ)
resolution_map =
    ("4k", 2160)
    ∷ ("2160", 2160)
    ∷ ("2160p", 2160)
    ∷ ("uhd", 2160)
    ∷ ("1440", 1440)
    ∷ ("1440p", 1440)
    ∷ ("2k", 1440)
    ∷ ("1080", 1080)
    ∷ ("1080p", 1080)
    ∷ ("hd", 1080)
    ∷ ("720", 720)
    ∷ ("720p", 720)
    ∷ ("sd", 480)
    ∷ ("480", 480)
    ∷ ("480p", 480)
    ∷ []

unfoldable pub min_height : String → Option ℕ
unfolding lookup lower strip
min_height resolution = lookup (lower (strip resolution)) resolution_map

abbrev pub age_group_max : List (String × ℕ)
age_group_max = ("0_6", 6) ∷ ("7_12", 12) ∷ ("13_17", 16) ∷ []

abbrev pub age_rating_values : List (String × ℕ)
age_rating_values = ("0+", 0) ∷ ("6+", 6) ∷ ("12+", 12) ∷ ("16+", 16) ∷ ("18+", 18) ∷ []

-- `rating in [r for r, v in _AGE_RATING_VALUES.items() if v <= max_age]`
unfoldable pub in_allowed : String → ℕ → List (String × ℕ) → Bool
in_allowed rating max_age [] = false
in_allowed rating max_age ((r, v) ∷ rest) =
    (leb v max_age && str_eq r rating) || in_allowed rating max_age rest

-- The age-rating filter of `list_films` and of `get_recommendations`.
unfoldable pub age_allows : User → Film → Bool
unfolding lookup in_allowed
age_allows user f =
    if str_eq user.role "child"
    then elim user.age_group [
      | none ↦ true
      | some group ↦ elim (lookup group age_group_max) [
        | none ↦ true
        | some max_age ↦ elim f.age_rating [
          | none ↦ true
          | some rating ↦ in_allowed rating max_age age_rating_values
        ]
      ]
    ]
    else true

-- `Film.id.in_(…)` of the films with a media file that satisfies a condition.
unfoldable pub film_has_media : (MediaFile → Bool) → Db → ℕ → Bool
film_has_media p db film_id = any (λ (i, m). p m && is_media_of_film db film_id i) db.media.rows

-- The films that the user has started outside the incognito mode.
unfoldable pub is_watched : Db → ℕ → ℕ → Bool
is_watched db user_id film_id =
    any (λ (i, e). is_recorded user_id i e && is_media_of_film db film_id e.media_file_id)
      db.events.rows

-- `Film.genres.any(Genre.slug == slug)`
unfoldable pub has_genre : Db → String → ℕ → Bool
has_genre db slug film_id =
    any
      (λ (f, g).
        (f == film_id)
        && (elim (get db.genres g) [ none ↦ false | some genre ↦ str_eq genre.slug slug ]))
      db.film_genre

-- A condition on a parameter that may be absent.
unfoldable pub given {ℓ} : {A : Type ℓ} → Option A → (A → Bool) → Bool
given none p = true
given (some a) p = p a

-- A condition on a column that may be NULL, where it does not hold.
unfoldable pub column {ℓ} : {A : Type ℓ} → Option A → (A → Bool) → Bool
column none p = false
column (some a) p = p a

unfoldable pub years_match : Query → Film → Bool
unfolding given column
years_match query f = elim query.year [
  | some year ↦ column f.year (λ y. y == year)
  | none ↦
      given query.year_from (λ low. column f.year (λ y. leb low y))
      && given query.year_to (λ high. column f.year (λ y. leb y high))
]

unfoldable pub tech_match : TextSearch → Query → Db → ℕ → Bool
unfolding given column min_height film_has_media
tech_match text query db film_id =
    given query.resolution
      (λ r. given (min_height r) (λ h. film_has_media (λ m. column m.height (leb h)) db film_id))
    && given query.codec (λ c. film_has_media (λ m. column m.codec (text.ilike c)) db film_id)
    && given query.audio_codec
        (λ c. film_has_media (λ m. column m.audio_codec (text.ilike c)) db film_id)
    && given query.has_subtitles (λ wanted.
      if wanted
      then film_has_media (λ m. column m.subtitle_languages (λ _. true)) db film_id
      else true)
    && given query.audio_lang
        (λ l. film_has_media (λ m. column m.audio_codec (text.ilike l)) db film_id)
    && given query.subtitle_lang
        (λ l. film_has_media (λ m. column m.subtitle_languages (text.ilike l)) db film_id)

-- What the filters let the current user, if there is one, see.
unfoldable pub user_sees : Option (ℕ × User) → Db → ℕ → Film → Bool
unfolding age_allows is_watched
user_sees none db k f = true
user_sees (some (user_id, user)) db k f =
    age_allows user f
    && not (mem_nat k (list_blacklist user_id db))
    && (if user.exclude_watched then not (is_watched db user_id k) else true)

unfoldable pub passes : TextSearch → Query → Option (ℕ × User) → Db → ℕ → Film → Bool
unfolding given years_match tech_match has_genre user_sees
passes text query current db k f =
    given query.q (λ q. if str_eq q "" then true else text.matches f.fts_vector q)
    && given query.genre (λ slug. has_genre db slug k)
    && years_match query f
    && tech_match text query db k
    && user_sees current db k f
    && (query.include_family || not f.is_family_video)

-- The sort key: the rank where there is a text to search for, else the time of creation.
unfoldable pub sort_key : TextSearch → Query → ℕ × Film → ℕ
sort_key text query (k, f) = elim query.q [
  | none ↦ f.created_at
  | some q ↦ if str_eq q "" then f.created_at else text.ts_rank f.fts_vector q
]

-- The films of the page and the total.
unfoldable pub list_films : TextSearch → Query → Option (ℕ × User) → Db → Rows Film × ℕ
unfolding passes sort_key
list_films text query current db =
    let found = select (passes text query current db) db.films in
    (
      take query.limit (drop query.skip (sort_by (by_key_desc (sort_key text query)) found)),
      length found,
    )
