-- ===== src/Posters/Tests.antt =====
-- Missing posters of two films, with a service that knows one answer.
use filmoteka.Prelude.{◌≡◌, refl, true, false, none, some, [], ◌∷◌, arith}
use filmoteka.Table.{get}
use filmoteka.Table.Laws.{IsTable}
use filmoteka.Models.Sample.{sample_db, sample_film}
use filmoteka.Metadata.{Item, reply}
use filmoteka.Posters.{Search, lacks_poster, run_fill_missing}
use filmoteka.Posters.Sound.{ArePostered, run_fill_missing-IsPostered}

abbrev film_a : Item
film_a = record {
  title = some "A";
  year = some "1999";
  imdb_id = none;
  poster = some "http://posters/a.jpg";
}

abbrev search : Search
search = record {
  service = λ sent params. reply 200 (record { item = film_a; response = none; search = none });
  api_key = "key";
  raises = λ k. none;
}

films_IsTable : IsTable sample_db.films
unfolding get
films_IsTable = ground arith

-- Stopped before the second film.
filled :
    get (run_fill_missing search (false ∷ true ∷ []) [] sample_db).1.db.films 1
    ≡ some (record (sample_film "A") {
      poster_url = some "http://posters/a.jpg";
      poster_source = some "omdb";
    })
unfolding run_fill_missing get filmoteka.Table.select filmoteka.Table.put
    filmoteka.Titles.Markers.scene_group
filled = refl

run_fill_missing-IsPostered_example :
    ArePostered lacks_poster search.service 1
      (get sample_db.films 1)
      (get (run_fill_missing search (false ∷ true ∷ []) [] sample_db).1.db.films 1)
run_fill_missing-IsPostered_example =
    run_fill_missing-IsPostered search (false ∷ true ∷ []) [] sample_db 1 films_IsTable
