-- ===== src/Recommendations/Tests.antt =====
-- Runs of the recommendations.
use filmoteka.Prelude.{
  ◌≡◌, refl, pos, true, false, none, some, List, [], ◌∷◌, arith, All, IsSorted, by_key_desc,
}
use filmoteka.Table.{get, get_row}
use filmoteka.Table.Laws.{IsTable}
use filmoteka.Models.{Db}
use filmoteka.Models.Access.{User}
use filmoteka.Models.Sample.{sample_db}
use filmoteka.Access.{new_user}
use filmoteka.Watching.{new_event}
use filmoteka.Watching.Steps.{WatchRequest, start, progress, serve_all, HasOneOpen, NothingFinished}
use filmoteka.Recommendations.{RecommendationItem, score_of, get_recommendations}
use filmoteka.Recommendations.Sound.{
  IsRecommended, get_recommendations-empty, get_recommendations-IsRecommended,
}

abbrev viewer : User
viewer = new_user "anna" "h" 1

-- The user has finished film 1, which shares a genre with film 2.
abbrev finished_one : Db
finished_one = record sample_db {
  events = record {
    next_id = 2;
    rows = (1, record (new_event 1 7 false 10) { finished = true }) ∷ [];
  };
  film_genre = (1, 5) ∷ (2, 5) ∷ [];
}

abbrev other_film : RecommendationItem
other_film = record {
  film_id = 2;
  title = "B";
  year = some 1999;
  poster_url = none;
  score = 4;
  match_reason = "genres (1)";
}

get_recommendations_run : get_recommendations 10 7 viewer finished_one ≡ other_film ∷ []
unfolding get_recommendations new_user filmoteka.Recommendations.distinct
    filmoteka.Recommendations.is_finished filmoteka.Prelude.any filmoteka.Watching.is_media_of_film
    get filmoteka.Prelude.mem_nat filmoteka.Prelude.sort_by filmoteka.Table.select
    filmoteka.Catalog.is_watched filmoteka.Users.list_blacklist filmoteka.Catalog.age_allows
    filmoteka.Paths.join filmoteka.Paths.concat filmoteka.Text.show
    filmoteka.Recommendations.language_allows filmoteka.Recommendations.score filmoteka.Prelude.keep
get_recommendations_run = refl

finished_films : IsTable finished_one.films
unfolding get_row
finished_films = ground arith

get_recommendations-IsRecommended_example :
    All (IsRecommended 7 viewer finished_one) (get_recommendations 10 7 viewer finished_one)
    × IsSorted (by_key_desc score_of) (get_recommendations 10 7 viewer finished_one)
get_recommendations-IsRecommended_example =
    get_recommendations-IsRecommended 10 7 viewer finished_one finished_films

abbrev evening : List WatchRequest
evening = start 7 viewer 10 1 ∷ progress 7 1 1 (pos 5400) ∷ []

sample_HasOneOpen : HasOneOpen sample_db
unfolding get
sample_HasOneOpen = record { table = tt; one_open = λ i j a b ga gb fa fb em eu. ground arith }

sample_NothingFinished : NothingFinished sample_db
unfolding get
sample_NothingFinished i e found = ground arith

get_recommendations-empty_example :
    get_recommendations 10 7 viewer (serve_all evening sample_db) ≡ []
get_recommendations-empty_example =
    get_recommendations-empty evening 10 7 viewer sample_db sample_HasOneOpen sample_NothingFinished
