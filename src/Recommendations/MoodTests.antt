-- ===== src/Recommendations/MoodTests.antt =====
-- Runs of the recommendations by mood.
use filmoteka.Prelude.{
  String, ◌≡◌, ◌≤◌, refl, true, false, none, some, List, [], ◌∷◌, arith, All, str_eq, length,
}
use filmoteka.Table.{get}
use filmoteka.Table.Laws.{IsTable}
use filmoteka.Models.{Db}
use filmoteka.Models.Sample.{sample_db}
use filmoteka.Json.{Loads, Loaded}
use filmoteka.DeepSeek.{failure}
use filmoteka.Recommendations.{RecommendationItem}
use filmoteka.Recommendations.Mood.{mood_to_genres, keyword_mood_recommendations, recommend_by_mood}
use filmoteka.Recommendations.MoodSound.{
  InLibrary, IsFitting, keyword_mood_recommendations-IsFitting, recommend_by_mood-InLibrary,
}

moods : mood_to_genres "Хочу комедию или drama" ≡ "Drama" ∷ []
unfolding mood_to_genres
moods = refl

abbrev db : Db
db = record sample_db {
  genres = record { next_id = 2; rows = (1, record { name = "Drama"; slug = "drama" }) ∷ [] };
  film_genre = (2, 1) ∷ [];
}

films_IsTable : IsTable db.films
unfolding get
films_IsTable = ground arith

abbrev no_answer : Loads
no_answer s = Loaded.no_json

abbrev drama : List RecommendationItem
drama =
    record {
      film_id = 2;
      title = "B";
      year = some 1999;
      poster_url = none;
      score = 2;
      match_reason = "mood: drama";
    }
    ∷ []

-- A service that fails is passed over.
recommended :
    recommend_by_mood (λ a b. str_eq a b) no_answer (true, failure) (false, failure) "drama" 5 7 db
    ≡ drama
unfolding recommend_by_mood filmoteka.Table.select filmoteka.Prelude.any get
    filmoteka.Catalog.is_watched filmoteka.Prelude.mem_nat filmoteka.Users.list_blacklist
    filmoteka.Paths.concat
recommended = refl

keyword_mood_recommendations-IsFitting_example :
    All (IsFitting (mood_to_genres "drama") db 7) (keyword_mood_recommendations "drama" 5 7 db)
keyword_mood_recommendations-IsFitting_example =
    keyword_mood_recommendations-IsFitting "drama" 5 7 db films_IsTable

recommend_by_mood-InLibrary_example :
    All (InLibrary db) (
      recommend_by_mood
        (λ a b. str_eq a b)
        no_answer
        (true, failure)
        (false, failure)
        "drama"
        5
        7
        db)
    × (length (
          recommend_by_mood
            (λ a b. str_eq a b)
            no_answer
            (true, failure)
            (false, failure)
            "drama"
            5
            7
            db)
        ≤ 5)
recommend_by_mood-InLibrary_example =
    recommend_by_mood-InLibrary (λ a b. str_eq a b) no_answer (true, failure) (false, failure)
      "drama" 5 7 db films_IsTable
