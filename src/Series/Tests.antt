-- ===== src/Series/Tests.antt =====
-- A series of two episodes, of which the second is in progress.
use filmoteka.Prelude.{
  ℕ, ◌≡◌, refl, false, none, some, [], ◌∷◌, String, keep, map, length, ◌==◌, pos, IsSorted, sort_by,
  by_key, arith,
}
use filmoteka.Table.{get, select}
use filmoteka.Table.Laws.{IsTable}
use filmoteka.Models.{Db}
use filmoteka.Models.Catalog.{Film, Series}
use filmoteka.Models.Watching.{WatchEvent}
use filmoteka.Models.Sample.{sample_film, sample_db}
use filmoteka.Http.{ok}
use filmoteka.Series.{
  SeriesDetailOut, films_of, first_media_id, season_of, episode_key, episode_out, get_series,
}
use filmoteka.Series.Playing.{AdjacentEpisodeOut, adjacent_of, adjacent_episode}
use filmoteka.Series.Adjacent.{adjacent_episode-back}
use filmoteka.Series.Seasons.{get_series_exact, episodes_of, count_episodes, season_rises}

abbrev the_series : Series
the_series = record {
  title = "Show";
  poster_url = none;
  year_start = none;
  year_end = none;
  created_at = 1;
}

abbrev episode : String → ℕ → Film
episode title n = record (sample_film title) {
  series_id = some 1;
  season_number = some 1;
  episode_number = some n;
}

abbrev in_progress : WatchEvent
in_progress = record {
  media_file_id = 2;
  user_id = 7;
  started_at = 5;
  last_position = pos 300;
  finished = false;
  incognito = false;
}

abbrev two_episodes : Db
two_episodes = record sample_db {
  series = record { next_id = 2; rows = (1, the_series) ∷ [] };
  films = record { next_id = 3; rows = (1, episode "A" 1) ∷ (2, episode "B" 2) ∷ [] };
  events = record { next_id = 2; rows = (1, in_progress) ∷ [] };
}

films_IsTable : IsTable two_episodes.films
unfolding get
films_IsTable = ground arith

editions_IsTable : IsTable two_episodes.editions
unfolding get
editions_IsTable = ground arith

media_IsTable : IsTable two_episodes.media
unfolding get
media_IsTable = ground arith

series_IsTable : IsTable two_episodes.series
unfolding get
series_IsTable = ground arith

events_IsTable : IsTable two_episodes.events
unfolding get
events_IsTable = ground arith

adjacent_episode-back_example :
    (out_next : AdjacentEpisodeOut) × (adjacent_episode 2 two_episodes ≡ ok out_next)
    × (out_next.series_id ≡ some 1)
    × (out_next.prev_media_id ≡ some 1)
unfolding adjacent_episode adjacent_of first_media_id get select
    filmoteka.Watching.Listings.film_of_media sort_by
adjacent_episode-back_example =
    adjacent_episode-back two_episodes 1 1 1 (episode "A" 1)
      (adjacent_of two_episodes 1 (1, episode "A" 1)) 2 films_IsTable editions_IsTable media_IsTable
      refl refl refl refl refl

get_series_exact_example :
    (detail : SeriesDetailOut) × (get_series 1 two_episodes ≡ ok detail)
    × IsSorted season_rises detail.seasons
    × ((n : ℕ)
        → episodes_of n detail.seasons
          ≡ map (episode_out (first_media_id two_episodes)) (
              sort_by
                (by_key episode_key)
                (keep (λ f. season_of f == n) (films_of two_episodes 1))))
    × (count_episodes detail.seasons ≡ detail.episode_count)
    × (detail.episode_count ≡ length (films_of two_episodes 1))
unfolding get
get_series_exact_example = get_series_exact two_episodes 1 the_series refl
