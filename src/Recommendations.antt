-- ===== src/Recommendations.antt =====
-- `get_recommendations` of src/filmoteka/api/users.py, without the suggestions from outside the library.
-- Scores are in halves.
pub mod Sound
pub mod Mood
pub mod Fitting
pub mod MoodSound
mod MoodTests
mod Tests
use filmoteka.Prelude.{
  ℕ, suc, ◌+◌, ◌*◌, String, Bool, true, false, not, ◌&&◌, ◌||◌, Option, none, some, List, [], ◌∷◌,
  ◌++◌, ltb, leb, ◌==◌, str_eq, if◌then◌else◌, mem_nat, length, take, any, keep, map, sort_by,
  by_key_desc,
}
use filmoteka.Text.{show}
use filmoteka.Paths.{concat, join}
use filmoteka.Table.{Rows, get, select}
use filmoteka.Models.{Db}
use filmoteka.Models.Access.{User}
use filmoteka.Models.Catalog.{Film, MediaFile}
use filmoteka.Models.Watching.{WatchEvent}
use filmoteka.Watching.{is_media_of_film, is_recorded}
use filmoteka.Users.{list_blacklist}
use filmoteka.Catalog.{age_allows, is_watched, film_has_media, column}

-- The films that the user has finished outside the incognito mode.
unfoldable pub is_finished : Db → ℕ → ℕ → Bool
is_finished db user_id film_id =
    any
      (λ (i, e).
        is_recorded user_id i e && e.finished && is_media_of_film db film_id e.media_file_id)
      db.events.rows

-- `SELECT DISTINCT`: each number once, in the order of its first occurrence.
unfoldable pub distinct : List ℕ → List ℕ → List ℕ
distinct seen [] = []
distinct seen (x ∷ xs) = if mem_nat x seen then distinct seen xs else x ∷ distinct (x ∷ seen) xs

unfoldable pub genres_in : (ℕ → Bool) → List (ℕ × ℕ) → List ℕ
genres_in p [] = []
genres_in p ((f, g) ∷ rest) = if p f then g ∷ genres_in p rest else genres_in p rest

unfoldable pub persons_in : (ℕ → Bool) → List (ℕ × ℕ × String) → List ℕ
persons_in p [] = []
persons_in p ((f, g, _) ∷ rest) = if p f then g ∷ persons_in p rest else persons_in p rest

unfoldable pub genre_ids : (ℕ → Bool) → Db → List ℕ
unfolding genres_in
genre_ids p db = distinct [] (genres_in p db.film_genre)

unfoldable pub person_ids : (ℕ → Bool) → Db → List ℕ
unfolding persons_in
person_ids p db = distinct [] (persons_in p db.film_person)

-- The audio codecs of the files that the user has watched, one for each event.
watched_codecs : Db → ℕ → Rows WatchEvent → List String
watched_codecs db user_id [] = []
watched_codecs db user_id ((i, e) ∷ rest) =
    let others = watched_codecs db user_id rest in
    if is_recorded user_id i e
    then elim (get db.media e.media_file_id) [
      | none ↦ others
      | some m ↦ elim m.audio_codec [ none ↦ others | some c ↦ c ∷ others ]
    ]
    else others

count : String → List String → ℕ
count c xs = length (keep (λ x. str_eq x c) xs)

-- The first of the most frequent texts; the database may choose any of them.
most_frequent : List String → List String → Option String
unfolding count
most_frequent all_codecs [] = none
most_frequent all_codecs (c ∷ rest) = elim (most_frequent all_codecs rest) [
  | none ↦ some c
  | some d ↦ if leb (count d all_codecs) (count c all_codecs) then some c else some d
]

unfoldable pub top_lang : Db → ℕ → Option String
unfolding watched_codecs most_frequent
top_lang db user_id =
    let codecs = watched_codecs db user_id db.events.rows in most_frequent codecs codecs

unfoldable pub language_allows : Db → ℕ → User → ℕ → Bool
unfolding top_lang film_has_media
language_allows db user_id user film_id =
    if user.filter_by_language
    then elim (top_lang db user_id) [
      | none ↦ true
      | some lang ↦
          if str_eq lang ""
          then true
          else film_has_media (λ m. column m.audio_codec (λ c. str_eq c lang)) db film_id
    ]
    else true

unfoldable pub is_candidate : Db → ℕ → User → ℕ → Film → Bool
is_candidate db user_id user k f =
    not (is_watched db user_id k)
    && not (mem_nat k (list_blacklist user_id db))
    && (if user.exclude_family_from_recommendations then not f.is_family_video else true)
    && age_allows user f
    && language_allows db user_id user k

-- The members of a set that are in another.
abbrev common : List ℕ → List ℕ → List ℕ
common xs ys = keep (λ x. mem_nat x ys) xs

-- How many genres and persons of a film are among the watched ones.
shared_genres : Db → List ℕ → ℕ → ℕ
unfolding genre_ids
shared_genres db watched_genres film_id =
    length (common (genre_ids (λ f. f == film_id) db) watched_genres)

shared_persons : Db → List ℕ → ℕ → ℕ
unfolding person_ids
shared_persons db watched_persons film_id =
    length (common (person_ids (λ f. f == film_id) db) watched_persons)

-- Twice the score: a genre counts 2.0, a person 1.5.
unfoldable pub score : Db → List ℕ → List ℕ → ℕ → ℕ
unfolding shared_genres shared_persons
score db watched_genres watched_persons film_id =
    shared_genres db watched_genres film_id * 4 + shared_persons db watched_persons film_id * 3

-- A reason, where something is shared.
reason : String → ℕ → List String
reason what n = if ltb 0 n then concat what (concat " (" (concat (show n) ")")) ∷ [] else []

unfoldable pub match_reason : Db → List ℕ → List ℕ → ℕ → String
unfolding shared_genres shared_persons reason
match_reason db watched_genres watched_persons film_id = join "; " (
    reason "genres" (shared_genres db watched_genres film_id)
    ++ reason "actors" (shared_persons db watched_persons film_id))

pub record RecommendationItem : Type 0 where
  pub film_id : ℕ
  pub title : String
  pub year : Option ℕ
  pub poster_url : Option String
  pub score : ℕ  -- in halves
  pub match_reason : String

unfoldable pub scored : (ℕ → ℕ) → (ℕ → String) → Rows Film → List RecommendationItem
scored points why [] = []
scored points why ((k, f) ∷ rest) =
    if ltb 0 (points k)
    then record {
      film_id = k;
      title = f.title;
      year = f.year;
      poster_url = f.poster_url;
      score = points k;
      match_reason = why k;
    }
      ∷ scored points why rest
    else scored points why rest

abbrev pub score_of : RecommendationItem → ℕ
score_of item = item.score

unfoldable pub is_empty {ℓ} : {A : Type ℓ} → List A → Bool
is_empty [] = true
is_empty (x ∷ xs) = false

-- The items; the total of the response is their number.
unfoldable pub get_recommendations : ℕ → ℕ → User → Db → List RecommendationItem
unfolding genre_ids person_ids match_reason scored is_candidate is_empty
get_recommendations limit user_id user db =
    let genres = genre_ids (is_finished db user_id) db in
    let persons = person_ids (is_finished db user_id) db in
    if is_empty genres && is_empty persons
    then []
    else take limit (
        sort_by (by_key_desc score_of) (
          scored (score db genres persons) (match_reason db genres persons)
            (select (is_candidate db user_id user) db.films)))
