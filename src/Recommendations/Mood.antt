-- ===== src/Recommendations/Mood.antt =====
-- The recommendations by mood: `recommend_by_mood` and what it uses, of src/filmoteka/api/users.py. The two services that may
-- answer, `json.loads` and ILIKE are parameters; a limit is at least 1.
use filmoteka.Prelude.{
  ℕ, zero, suc, String, Bool, true, false, not, ◌&&◌, ◌||◌, Option, none, some, List, [], ◌∷◌, ◌++◌,
  ◌==◌, if◌then◌else◌, mem_nat, take, any, map,
}
use filmoteka.Paths.{concat}
use filmoteka.Importing.{str_mem}
use filmoteka.Table.{get, select, first}
use filmoteka.Models.{Db}
use filmoteka.Models.Catalog.{Film}
use filmoteka.Catalog.{is_watched}
use filmoteka.Users.{list_blacklist}
use filmoteka.Text.Regex.{Chars, Test, chars, text, search, word}
use filmoteka.Text.Strip.{strip, strip_by}
use filmoteka.Json.{value, raises, ◌>>=◌, Loads, loaded, as_text}
use filmoteka.DeepSeek.{Response, failure, response, content_of}
use filmoteka.DeepSeek.Unfence.{lines}
use filmoteka.Recommendations.{RecommendationItem}

-- `_MOOD_GENRES`
abbrev pub mood_genres : List (String × List String)
mood_genres =
    ("романтический", "Romance" ∷ "Drama" ∷ "Comedy" ∷ [])
    ∷ ("романтика", "Romance" ∷ "Drama" ∷ "Comedy" ∷ [])
    ∷ ("romance", "Romance" ∷ "Drama" ∷ "Comedy" ∷ [])
    ∷ ("вечер", "Romance" ∷ "Comedy" ∷ "Drama" ∷ [])
    ∷ ("боевик", "Action" ∷ "Thriller" ∷ [])
    ∷ ("action", "Action" ∷ "Thriller" ∷ [])
    ∷ ("экшн", "Action" ∷ "Thriller" ∷ [])
    ∷ ("комедия", "Comedy" ∷ [])
    ∷ ("comedy", "Comedy" ∷ [])
    ∷ ("страшно", "Horror" ∷ "Thriller" ∷ "Mystery" ∷ [])
    ∷ ("horror", "Horror" ∷ "Thriller" ∷ "Mystery" ∷ [])
    ∷ ("ужасы", "Horror" ∷ "Thriller" ∷ "Mystery" ∷ [])
    ∷ ("семья", "Family" ∷ "Animation" ∷ "Adventure" ∷ [])
    ∷ ("family", "Family" ∷ "Animation" ∷ "Adventure" ∷ [])
    ∷ ("семейный", "Family" ∷ "Animation" ∷ "Adventure" ∷ [])
    ∷ ("научная фантастика", "Sci-Fi" ∷ "Adventure" ∷ [])
    ∷ ("sci-fi", "Sci-Fi" ∷ "Adventure" ∷ [])
    ∷ ("фантастика", "Sci-Fi" ∷ "Adventure" ∷ "Fantasy" ∷ [])
    ∷ ("детектив", "Mystery" ∷ "Thriller" ∷ "Crime" ∷ [])
    ∷ ("триллер", "Thriller" ∷ "Mystery" ∷ "Crime" ∷ [])
    ∷ ("thriller", "Thriller" ∷ "Mystery" ∷ "Crime" ∷ [])
    ∷ ("драма", "Drama" ∷ [])
    ∷ ("drama", "Drama" ∷ [])
    ∷ ("война", "War" ∷ "Drama" ∷ "History" ∷ [])
    ∷ ("war", "War" ∷ "Drama" ∷ "History" ∷ [])
    ∷ ("приключения", "Adventure" ∷ "Action" ∷ [])
    ∷ ("adventure", "Adventure" ∷ "Action" ∷ [])
    ∷ ("документальный", "Documentary" ∷ [])
    ∷ ("документалка", "Documentary" ∷ [])
    ∷ ("мультфильм", "Animation" ∷ "Family" ∷ [])
    ∷ ("мультик", "Animation" ∷ "Family" ∷ [])
    ∷ ("animation", "Animation" ∷ "Family" ∷ [])
    ∷ ("аниме", "Animation" ∷ "Fantasy" ∷ [])
    ∷ []

-- `keyword in q`, where q is in lower case, and so is the keyword
unfoldable pub mentions : Chars → String → Bool
unfolding search word
mentions q keyword = elim (search (word keyword) q) [ none ↦ false | some m ↦ true ]

unfoldable pub genres_of_mood : Chars → List (String × List String) → List String
unfolding mentions
genres_of_mood q [] = []
genres_of_mood q ((keyword, genres) ∷ rest) =
    let others = genres_of_mood q rest in if mentions q keyword then genres ++ others else others

-- "Deduplicate preserving order"
unfoldable pub deduplicated : List String → List String → List String
unfolding str_mem
deduplicated seen [] = []
deduplicated seen (g ∷ results) =
    if str_mem g seen then deduplicated seen results else g ∷ deduplicated (g ∷ seen) results

-- `_mood_to_genres`
unfoldable pub mood_to_genres : String → List String
unfolding strip genres_of_mood deduplicated
mood_to_genres query = deduplicated [] (genres_of_mood (strip (chars query)) mood_genres)

-- A film as it is recommended; a score of 1.0 is two halves.
abbrev pub item_of : String → ℕ × Film → RecommendationItem
item_of why (k, film) = record {
  film_id = k;
  title = film.title;
  year = film.year;
  poster_url = film.poster_url;
  score = 2;
  match_reason = why;
}

-- `Film.genres.any(Genre.name.in_(genres))`
unfoldable pub has_any_genre : List String → Db → ℕ → Bool
unfolding str_mem
has_any_genre genres db film_id =
    any
      (λ (f, g).
        (f == film_id)
        && (elim (get db.genres g) [ none ↦ false | some genre ↦ str_mem genre.name genres ]))
      db.film_genre

abbrev pub fits_mood : List String → Db → ℕ → ℕ → Film → Bool
fits_mood genres db user_id k film =
    has_any_genre genres db k
    && not (is_watched db user_id k)
    && not (mem_nat k (list_blacklist user_id db))

abbrev pub for_genres : List String → String → ℕ → ℕ → Db → List RecommendationItem
for_genres [] query limit user_id db = []
for_genres (g ∷ genres) query limit user_id db =
    map (item_of (concat "mood: " query))
      (take limit (select (fits_mood (g ∷ genres) db user_id) db.films))

-- `_keyword_mood_recommendations`
unfoldable pub keyword_mood_recommendations : String → ℕ → ℕ → Db → List RecommendationItem
unfolding mood_to_genres has_any_genre
keyword_mood_recommendations query limit user_id db =
    for_genres (mood_to_genres query) query limit user_id db

-- `"- •*"`
abbrev is_bullet : Test
is_bullet c = (c == b'-') || (c == b' ') || (c == 8226) || (c == b'*')

unfoldable pub titles_in : List Chars → List Chars
unfolding strip strip_by
titles_in [] = []
titles_in (line ∷ rest) = elim (strip line) [
  | [] ↦ titles_in rest
  | _ ∷ _ ↦ strip (strip_by is_bullet line) ∷ titles_in rest
]

-- The titles in an answer; `none` stands for any exception.
unfoldable pub llm_titles : Loads → Response → Option (List Chars)
unfolding content_of as_text titles_in lines
llm_titles loads failure = none
llm_titles loads (response status body) =
    elim (loaded (loads body) >>= λ raw. content_of raw >>= λ content. as_text content) [
      | raises e ↦ none
      | value s ↦ some (titles_in (lines (chars s)))
    ]

abbrev pub or_next :
    Option (List RecommendationItem) → List RecommendationItem → List RecommendationItem
or_next none next = next
or_next (some items) next = items

abbrev pub asked : Option (List RecommendationItem) → Bool → Option (List RecommendationItem)
asked answer true = answer
asked answer false = none

module _ (ilike : String → String → Bool) where
  -- "Look up each title in the library", until the limit is reached.
  unfoldable pub find_films : List Chars → List ℕ → String → ℕ → Db → List RecommendationItem
  unfolding text
  find_films [] seen query limit db = []
  find_films (t ∷ titles) seen query zero db = []
  find_films (t ∷ titles) seen query (suc limit) db =
      let others = find_films titles seen query (suc limit) db in
      elim (first (λ k film. ilike film.title (text t)) db.films) [
        | none ↦ others
        | some (k, film) ↦
            if mem_nat k seen
            then others
            else item_of (concat "LLM: " query) (k, film)
              ∷ find_films titles (k ∷ seen) query limit db
      ]

  -- `_llm_mood_recommendations`
  unfoldable pub llm_mood_recommendations :
      Loads → Response → String → ℕ → Db → Option (List RecommendationItem)
  unfolding llm_titles find_films
  llm_mood_recommendations loads answer query limit db = elim (llm_titles loads answer) [
    | none ↦ none
    | some titles ↦ some (take limit (find_films titles [] query limit db))
  ]

  -- The flags say which of the services is configured.
  unfoldable pub recommend_by_mood :
      Loads → Bool × Response → Bool × Response → String → ℕ → ℕ → Db → List RecommendationItem
  unfolding llm_mood_recommendations keyword_mood_recommendations
  recommend_by_mood loads (has_key, deepseek) (has_url, local) query limit user_id db =
      or_next (asked (llm_mood_recommendations loads deepseek query limit db) has_key) (
        or_next (asked (llm_mood_recommendations loads local query limit db) has_url)
          (keyword_mood_recommendations query limit user_id db))
