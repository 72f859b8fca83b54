-- ===== src/Recommendations/MoodSound.antt =====
-- What the recommendations by mood of src/filmoteka/api/users.py give.
use mathlib.Core.Path.{subst}
use mathlib.Core.List.{Mem}
use filmoteka.Text.Regex.Sound.{some_injective}
use filmoteka.Prelude.{
  ℕ, zero, suc, ◌≤◌, String, ◌≡◌, refl, Bool, true, false, Option, none, some, List, [], ◌∷◌, All,
  All-imp, All-take, map, take, length, length-take, length-map, mem_nat, arith, Bool-cases,
  Option-cases, inl, inr,
}
use filmoteka.Paths.{concat}
use filmoteka.Table.{get, select, first}
use filmoteka.Table.Laws.{IsTable, All-select, first-some}
use filmoteka.Models.{Db}
use filmoteka.Models.Catalog.{Film}
use filmoteka.Text.Regex.{Chars, text}
use filmoteka.Json.{Loads}
use filmoteka.DeepSeek.{Response}
use filmoteka.Recommendations.{RecommendationItem}
use filmoteka.Recommendations.Fitting.{HasGenre, HasStarted, fits_mood-parts}
use filmoteka.Recommendations.Mood.{
  or_next, asked, item_of, fits_mood, for_genres, mood_to_genres, keyword_mood_recommendations,
  llm_titles, find_films, llm_mood_recommendations, recommend_by_mood,
}

-- A recommendation shows the title, the year and the poster of a film.
abbrev pub IsShown : Film → RecommendationItem → Type 0
IsShown film item =
    (item.title ≡ film.title) × (item.year ≡ film.year) × (item.poster_url ≡ film.poster_url)

-- A recommendation shows a film of the library as it is.
abbrev pub InLibrary : Db → RecommendationItem → Type 0
InLibrary db item =
    (film : Film) × (why : String) × (get db.films item.film_id ≡ some film)
    × (item ≡ item_of why (item.film_id, film))
    × IsShown film item

-- A recommendation shows a film of the library that has one of the genres, that the user has not started, and that is not on the
-- user's blacklist.
abbrev pub IsFitting : List String → Db → ℕ → RecommendationItem → Type 0
IsFitting genres db user_id item =
    (film : Film) × (why : String) × (get db.films item.film_id ≡ some film)
    × (item ≡ item_of why (item.film_id, film))
    × IsShown film item
    × HasGenre genres db item.film_id
    × ¬ HasStarted db user_id item.film_id
    × ¬ Mem (user_id, item.film_id) db.blacklist

All-map {ℓ κ} :
    {A B : Type ℓ} (P : B → Type κ) (f : A → B) (xs : List A)
    → All (λ x. P (f x)) xs
    → All P (map f xs)
All-map P f [] h = tt
All-map P f (x ∷ xs) (hx, h) = (hx, All-map P f xs h)

for_genres-IsFitting :
    (genres : List String) (query : String) (limit user_id : ℕ) (db : Db)
    → IsTable db.films
    → All (IsFitting genres db user_id) (for_genres genres query limit user_id db)
for_genres-IsFitting [] query limit user_id db tidy = tt
for_genres-IsFitting (g ∷ genres) query limit user_id db tidy =
    let rows = select (fits_mood (g ∷ genres) db user_id) db.films in
    All-map (IsFitting (g ∷ genres) db user_id) (item_of (concat "mood: " query)) (take limit rows)
      (All-take (λ x. IsFitting (g ∷ genres) db user_id (item_of (concat "mood: " query) x)) limit
        rows
        (All-imp
          (λ x. (fits_mood (g ∷ genres) db user_id x.0 x.1 ≡ true) × (get db.films x.0 ≡ some x.1))
          (λ x. IsFitting (g ∷ genres) db user_id (item_of (concat "mood: " query) x)) rows
          (λ (k, film) (fits, there).
            let parts = fits_mood-parts (g ∷ genres) db user_id k film fits in
            (
              film,
              concat "mood: " query,
              there,
              refl,
              (refl, refl, refl),
              parts.0,
              parts.1,
              parts.2,
            ))
          (All-select (fits_mood (g ∷ genres) db user_id) db.films tidy)))

-- In a library whose films have unique keys, the keywords recommend only films of the library, as they are, that have a genre of the mood, that the user has not started
-- outside the incognito mode, and that are not on the user's blacklist.
pub keyword_mood_recommendations-IsFitting :
    (query : String) (limit user_id : ℕ) (db : Db)
    → IsTable db.films
    → All
        (IsFitting (mood_to_genres query) db user_id)
        (keyword_mood_recommendations query limit user_id db)
unfolding keyword_mood_recommendations
keyword_mood_recommendations-IsFitting query limit user_id db tidy =
    for_genres-IsFitting (mood_to_genres query) query limit user_id db tidy

length-for_genres :
    (genres : List String) (query : String) (limit user_id : ℕ) (db : Db)
    → length (for_genres genres query limit user_id db) ≤ limit
length-for_genres [] query limit user_id db = ground arith
length-for_genres (g ∷ genres) query limit user_id db =
    let rows = select (fits_mood (g ∷ genres) db user_id) db.films in
    omega (
      arith,
      length-map (item_of (concat "mood: " query)) (take limit rows),
      length-take limit rows,
    )

module _ (ilike : String → String → Bool) where
  find_films-InLibrary :
      (titles : List Chars) (seen : List ℕ) (query : String) (limit : ℕ) (db : Db)
      → IsTable db.films
      → All (InLibrary db) (find_films ilike titles seen query limit db)
  unfolding find_films
  find_films-InLibrary [] seen query limit db tidy = tt
  find_films-InLibrary (t ∷ titles) seen query zero db tidy = tt
  find_films-InLibrary (t ∷ titles) seen query (suc limit) db tidy =
      elim (Option-cases (first (λ k film. ilike film.title (text t)) db.films)) [
        | inl e ↦ rw (find_films, e) (find_films-InLibrary titles seen query (suc limit) db tidy)
        | inr ((k, film), e) ↦ elim (Bool-cases (mem_nat k seen)) [
          | inl old ↦
              rw (find_films, e, old) (find_films-InLibrary titles seen query (suc limit) db tidy)
          | inr new ↦
              rw (find_films, e, new)
                (
                  (
                    film,
                    concat "LLM: " query,
                    (first-some (λ i f. ilike f.title (text t)) db.films k film tidy e).1,
                    refl,
                    (refl, refl, refl),
                  ),
                  find_films-InLibrary titles (k ∷ seen) query limit db tidy,
                )
        ]
      ]

  abbrev Recommended : ℕ → Db → List RecommendationItem → Type 0
  Recommended limit db items = All (InLibrary db) items × (length items ≤ limit)

  keyword-Recommended :
      (query : String) (limit user_id : ℕ) (db : Db)
      → IsTable db.films
      → Recommended limit db (keyword_mood_recommendations query limit user_id db)
  unfolding keyword_mood_recommendations
  keyword-Recommended query limit user_id db tidy = (
    All-imp (IsFitting (mood_to_genres query) db user_id) (InLibrary db) _
        (λ item (film, why, there, shown, same, genre, started, blocked).
          (film, why, there, shown, same))
        (for_genres-IsFitting (mood_to_genres query) query limit user_id db tidy),
    length-for_genres (mood_to_genres query) query limit user_id db,
  )

  llm-Recommended :
      (loads : Loads) (answer : Response) (query : String) (limit : ℕ) (db : Db)
      (items : List RecommendationItem)
      → IsTable db.films
      → llm_mood_recommendations ilike loads answer query limit db ≡ some items
      → Recommended limit db items
  unfolding llm_mood_recommendations
  llm-Recommended loads answer query limit db items tidy h =
      elim (Option-cases (llm_titles loads answer)) [
        | inl e ↦ cc (rw (e, llm_mood_recommendations) at h)
        | inr (titles, e) ↦
            let found = find_films ilike titles [] query limit db in
            subst (Recommended limit db) (some_injective (rw (e, llm_mood_recommendations) at h)) (
              All-take (InLibrary db) limit found
                  (find_films-InLibrary titles [] query limit db tidy),
              omega (arith, length-take limit found),
            )
      ]

  or_next-Recommended :
      (limit : ℕ) (db : Db) (first_items : Option (List RecommendationItem)) (b : Bool)
      (next : List RecommendationItem)
      → ((items : List RecommendationItem) → first_items ≡ some items → Recommended limit db items)
      → Recommended limit db next
      → Recommended limit db (or_next (asked first_items b) next)
  or_next-Recommended limit db none true next h k = k
  or_next-Recommended limit db (some items) true next h k = h items refl
  or_next-Recommended limit db first_items false next h k = k

  -- In a library whose films have unique keys, whatever the services answer, and whichever is configured, the recommendations by mood are films of the library as they are, at most as many as the limit.
  pub recommend_by_mood-InLibrary :
      (loads : Loads) (deepseek local : Bool × Response) (query : String) (limit user_id : ℕ)
      (db : Db)
      → IsTable db.films
      → All (InLibrary db) (recommend_by_mood ilike loads deepseek local query limit user_id db)
        × (length (recommend_by_mood ilike loads deepseek local query limit user_id db) ≤ limit)
  unfolding recommend_by_mood
  recommend_by_mood-InLibrary loads (has_key, deepseek) (has_url, local) query limit user_id db
        tidy =
      or_next-Recommended limit db (llm_mood_recommendations ilike loads deepseek query limit db)
        has_key _ (λ items e. llm-Recommended loads deepseek query limit db items tidy e)
        (or_next-Recommended limit db (llm_mood_recommendations ilike loads local query limit db)
          has_url _ (λ items e. llm-Recommended loads local query limit db items tidy e)
          (keyword-Recommended query limit user_id db tidy))
