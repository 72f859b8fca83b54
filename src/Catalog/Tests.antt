-- ===== src/Catalog/Tests.antt =====
-- Runs of the film listing.
use filmoteka.Prelude.{
  ◌+◌, ◌≡◌, refl, String, Bool, true, false, none, some, List, [], ◌∷◌, ◌++◌, arith, All, IsSorted,
  by_key_desc,
}
use filmoteka.Table.{get_row}
use filmoteka.Table.Laws.{IsTable}
use filmoteka.Models.{Db}
use filmoteka.Models.Access.{User}
use filmoteka.Models.Sample.{sample_db, sample_film}
use filmoteka.Access.{new_user}
use filmoteka.Catalog.{TextSearch, Query, lookup, list_films}
use filmoteka.Catalog.Ratings.{is_suitable}
use filmoteka.Catalog.Listing.{IsVisible, list_films-suitable, list_films-IsVisible}

abbrev text : TextSearch
text = record { matches = λ v q. true; ts_rank = λ v q. 1; ilike = λ c v. true }

abbrev everything : Query
everything = record {
  skip = 0;
  limit = 20;
  year = none;
  year_from = none;
  year_to = none;
  genre = none;
  q = none;
  resolution = none;
  codec = none;
  audio_codec = none;
  has_subtitles = none;
  audio_lang = none;
  subtitle_lang = none;
  include_family = false;
}

abbrev child : User
child = record (new_user "kid" "h" 1) { role = "child"; age_group = some "7_12" }

abbrev rated : Db
rated = record sample_db {
  films = record {
    next_id = 4;
    rows =
        (1, record (sample_film "A") { age_rating = some "6+" })
        ∷ (2, record (sample_film "B") { age_rating = some "18+" })
        ∷ (3, sample_film "C")
        ∷ [];
  };
  blacklist = (7, 3) ∷ [];
}

list_films_run :
    list_films text everything (some (7, child)) rated
    ≡ ((1, record (sample_film "A") { age_rating = some "6+" }) ∷ [], 1)
unfolding list_films new_user filmoteka.Prelude.sort_by filmoteka.Table.select
    filmoteka.Prelude.mem_nat filmoteka.Users.list_blacklist
list_films_run = refl

rated_films : IsTable rated.films
unfolding get_row
rated_films = ground arith

list_films-suitable_example :
    All (λ x. is_suitable 12 x.1 ≡ true) (list_films text everything (some (7, child)) rated).0
unfolding lookup new_user
list_films-suitable_example =
    list_films-suitable text everything 7 child "7_12" 12 rated rated_films refl refl refl

list_films-IsVisible_example :
    All (IsVisible false 7 child rated) (list_films text everything (some (7, child)) rated).0
list_films-IsVisible_example = list_films-IsVisible text everything 7 child rated rated_films
