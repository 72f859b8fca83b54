-- ===== src/Metadata/Tests.antt =====
-- A service with one answer, of two results.
use filmoteka.Prelude.{ℕ, ◌+◌, ◌≤◌, ◌≡◌, refl, String, none, some, List, [], ◌∷◌, length}
use filmoteka.Metadata.{
  Service, Item, reply, candidate_score, pick_best_candidate, omdb_search_poster_v2,
}
use filmoteka.Metadata.Sound.{IsSound, omdb_search_poster_v2-IsSound}
use filmoteka.Metadata.Requests.{length-omdb_search_poster_v2}

abbrev alien : Item
alien = record {
  title = some "Alien";
  year = some "1979";
  imdb_id = some "tt0078748";
  poster = some "http://posters/alien.jpg";
}

abbrev aliens : Item
aliens = record {
  title = some "Aliens";
  year = some "1986";
  imdb_id = some "tt0090605";
  poster = some "N/A";
}

abbrev nameless : Item
nameless = record { title = none; year = some "1979"; imdb_id = none; poster = none }

abbrev two_results : Service
two_results sent params =
    reply 200
      (record { item = nameless; response = some "True"; search = some (aliens ∷ alien ∷ []) })

-- An item without a title scores as one whose title is part of the wanted one.
nameless_score : candidate_score "Alien" none nameless ≡ 2
unfolding candidate_score
nameless_score = refl

-- An item of another title is picked for its year.
picked_for_year :
    pick_best_candidate (record alien { title = some "Stalker" } ∷ []) "Alien" (some 1979)
    ≡ some (record alien { title = some "Stalker" })
unfolding pick_best_candidate filmoteka.Prelude.sort_by filmoteka.Text.parse_int
picked_for_year = refl

alien_found :
    (omdb_search_poster_v2 two_results "key" "Alien" (some 1979) (some "movie") []).0
    ≡ some ("http://posters/alien.jpg", "omdb")
unfolding omdb_search_poster_v2 filmoteka.Prelude.sort_by filmoteka.Text.parse_int
alien_found = refl

omdb_search_poster_v2-IsSound_example :
    IsSound two_results
      (omdb_search_poster_v2 two_results "key" "Alien" (some 1979) (some "movie") []).0
omdb_search_poster_v2-IsSound_example =
    omdb_search_poster_v2-IsSound two_results "key" "Alien" (some 1979) (some "movie") []

length-omdb_search_poster_v2_example :
    length (omdb_search_poster_v2 two_results "key" "Alien" (some 1979) (some "movie") []).1
    ≤ 0 + 10
length-omdb_search_poster_v2_example =
    length-omdb_search_poster_v2 two_results "key" "Alien" (some 1979) (some "movie") []
