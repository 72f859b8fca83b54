-- ===== src/Series.antt =====
-- The endpoints of series, src/filmoteka/api/series.py, and `adjacent_episode` of src/filmoteka/api/media.py. The
-- relations of a row list their rows in the order of the table.
pub mod Playing
pub mod Adjacent
pub mod Seasons
pub mod Resume
pub mod Counts
mod Tests
use filmoteka.Prelude.{
  ℕ, zero, suc, ◌+◌, String, Bool, true, false, not, ◌&&◌, ◌||◌, Option, none, some, List, [], ◌∷◌,
  ◌++◌, ℤ, ltb, leb, ◌==◌, str_eq, opt_eq, or_else, is_none, if◌then◌else◌, length, take, drop, map,
  any, sort_by, by_key, by_key_desc,
}
use filmoteka.Text.{show}
use filmoteka.Paths.{concat, join}
use filmoteka.Table.{Rows, get, select, key_of}
use filmoteka.Models.{Db}
use filmoteka.Models.Access.{User}
use filmoteka.Models.Catalog.{Film, Series, MovieEdition, MediaFile}
use filmoteka.Models.Watching.{WatchEvent}
use filmoteka.Http.{Reply, ok, raised}
use filmoteka.Watching.Listings.{film_of_media}

pub record SeriesListItem : Type 0 where
  pub id : ℕ
  pub title : String
  pub poster_url : Option String
  pub year_start : Option ℕ
  pub year_end : Option ℕ
  pub episode_count : ℕ

pub record EpisodeOut : Type 0 where
  pub id : ℕ
  pub title : String
  pub poster_url : Option String
  pub season_number : Option ℕ
  pub episode_number : Option ℕ
  pub episode_title : Option String
  pub created_at : ℕ
  pub media_id : Option ℕ

pub record SeasonGroup : Type 0 where
  pub season_number : ℕ
  pub episodes : List EpisodeOut

pub record SeriesDetailOut : Type 0 where
  pub id : ℕ
  pub title : String
  pub poster_url : Option String
  pub year_start : Option ℕ
  pub year_end : Option ℕ
  pub created_at : ℕ
  pub seasons : List SeasonGroup
  pub episode_count : ℕ

-- `series.films`
unfoldable pub films_of : Db → ℕ → Rows Film
films_of db series_id = select (λ _ f. opt_eq (λ a b. a == b) f.series_id (some series_id)) db.films

-- ORDER BY title, in the collation of the database.
abbrev pub by_title : (String → String → Bool) → ℕ × Series → ℕ × Series → Bool
by_title collates (_, a) (_, b) = collates a.title b.title

abbrev pub list_item : Db → ℕ × Series → SeriesListItem
list_item db (k, s) = record {
  id = k;
  title = s.title;
  poster_url = s.poster_url;
  year_start = s.year_start;
  year_end = s.year_end;
  episode_count = length (films_of db k);
}

unfoldable pub list_series : (String → String → Bool) → ℕ → ℕ → Db → List SeriesListItem × ℕ
unfolding films_of
list_series collates skip limit db = (
  map (list_item db) (take limit (drop skip (sort_by (by_title collates) db.series.rows))),
  length db.series.rows,
)

-- `_first_media_id`: the first media file of the editions, one edition after the other.
unfoldable pub first_of_editions : Db → Rows MovieEdition → Option ℕ
first_of_editions db [] = none
first_of_editions db ((i, _) ∷ rest) =
    let others = first_of_editions db rest in
    elim (select (λ _ m. m.edition_id == i) db.media) [ [] ↦ others | (k, _) ∷ _ ↦ some k ]

unfoldable pub first_media_id : Db → ℕ → Option ℕ
unfolding first_of_editions
first_media_id db film_id = first_of_editions db (select (λ _ e. e.film_id == film_id) db.editions)

abbrev pub Groups : Type 0
Groups = List (ℕ × Rows Film)

-- `by_season[season].append(f)`
unfoldable pub append_to : ℕ → ℕ × Film → Groups → Groups
append_to n f [] = (n, f ∷ []) ∷ []
append_to n f ((m, fs) ∷ rest) =
    if m == n then (m, fs ++ f ∷ []) ∷ rest else (m, fs) ∷ append_to n f rest

abbrev pub season_of : ℕ × Film → ℕ
season_of (_, f) = or_else f.season_number 0

unfoldable pub by_season : Rows Film → Groups → Groups
unfolding append_to
by_season [] groups = groups
by_season (f ∷ films) groups = by_season films (append_to (season_of f) f groups)

abbrev pub episode_key : ℕ × Film → ℕ
episode_key (_, f) = or_else f.episode_number 0

abbrev pub episode_out : (ℕ → Option ℕ) → ℕ × Film → EpisodeOut
episode_out media_id (k, f) = record {
  id = k;
  title = f.title;
  poster_url = f.poster_url;
  season_number = f.season_number;
  episode_number = f.episode_number;
  episode_title = f.episode_title;
  created_at = f.created_at;
  media_id = media_id k;
}

abbrev pub season_group : Db → ℕ × Rows Film → SeasonGroup
season_group db (n, films) = record {
  season_number = n;
  episodes = map (episode_out (first_media_id db)) (sort_by (by_key episode_key) films);
}

abbrev pub detail_of : Db → ℕ → Series → SeriesDetailOut
detail_of db series_id s = record {
  id = series_id;
  title = s.title;
  poster_url = s.poster_url;
  year_start = s.year_start;
  year_end = s.year_end;
  created_at = s.created_at;
  seasons = map (season_group db) (sort_by (by_key key_of) (by_season (films_of db series_id) []));
  episode_count = length (films_of db series_id);
}

unfoldable pub get_series : ℕ → Db → Reply SeriesDetailOut
unfolding films_of by_season first_media_id
get_series series_id db = elim (get db.series series_id) [
  | none ↦ raised 404 "Series not found"
  | some s ↦ ok (detail_of db series_id s)
]

-- A comparison of columns, where NULL comes last.
abbrev pub opt_ltb : Option ℕ → Option ℕ → Bool
opt_ltb none b = false
opt_ltb (some a) none = true
opt_ltb (some a) (some b) = ltb a b

-- ORDER BY season_number, episode_number
unfoldable pub by_episode : ℕ × Film → ℕ × Film → Bool
by_episode (_, f) (_, g) =
    opt_ltb f.season_number g.season_number
    || (not (opt_ltb g.season_number f.season_number)
        && not (opt_ltb g.episode_number f.episode_number))

unfoldable pub in_season : Option ℕ → ℕ → Film → Bool
in_season none _ f = true
in_season (some n) _ f = opt_eq (λ a b. a == b) f.season_number (some n)

unfoldable pub list_episodes : ℕ → Option ℕ → ℕ → ℕ → Db → Reply (List EpisodeOut × ℕ)
unfolding by_episode in_season
list_episodes series_id season skip limit db = elim (get db.series series_id) [
  | none ↦ raised 404 "Series not found"
  | some _ ↦
      let films =
        select (λ k f. opt_eq (λ a b. a == b) f.series_id (some series_id) && in_season season k f)
          db.films in
      ok (
        map (episode_out (λ _. none)) (take limit (drop skip (sort_by by_episode films))),
        length films,
      )
]

pub record SeriesContinueOut : Type 0 where
  pub media_id : Option ℕ
  pub season_number : Option ℕ
  pub episode_number : Option ℕ
  pub episode_title : Option String
  pub last_position : Option ℤ
  pub duration_secs : Option ℤ

abbrev pub nothing_to_continue : SeriesContinueOut
nothing_to_continue = record {
  media_id = none;
  season_number = none;
  episode_number = none;
  episode_title = none;
  last_position = none;
  duration_secs = none;
}
