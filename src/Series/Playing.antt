-- ===== src/Series/Playing.antt =====
-- Where to go on in a series: `series_continue` of src/filmoteka/api/series.py and `adjacent_episode` of
-- src/filmoteka/api/media.py.
use filmoteka.Prelude.{
  ℕ, String, Bool, false, not, ◌&&◌, Option, none, some, List, [], ◌∷◌, ◌==◌, str_eq, opt_eq,
  is_none, if◌then◌else◌, sort_by, by_key, by_key_desc,
}
use filmoteka.Text.{zfill}
use filmoteka.Paths.{concat, join}
use filmoteka.Table.{Rows, get, select}
use filmoteka.Models.{Db}
use filmoteka.Models.Access.{User}
use filmoteka.Models.Catalog.{Film, MediaFile}
use filmoteka.Models.Watching.{WatchEvent}
use filmoteka.Http.{Reply, ok, raised}
use filmoteka.Watching.Listings.{film_of_media, started}
use filmoteka.Series.{first_media_id, episode_key, SeriesContinueOut, nothing_to_continue}

-- The media files of the films of a series.
unfoldable pub is_series_media : Db → ℕ → ℕ → Bool
is_series_media db series_id media_id = elim (film_of_media media_id db) [
  | none ↦ false
  | some (_, f) ↦ opt_eq (λ a b. a == b) f.series_id (some series_id)
]

-- The WHERE clause for the events that can be resumed.
unfoldable pub is_resumable : Db → ℕ → ℕ → ℕ → WatchEvent → Bool
unfolding is_series_media
is_resumable db series_id user_id _ e =
    is_series_media db series_id e.media_file_id
    && (e.user_id == user_id)
    && not e.finished
    && not e.incognito

abbrev pub continue_out : WatchEvent → MediaFile → Film → SeriesContinueOut
continue_out e m f = record {
  media_id = some e.media_file_id;
  season_number = f.season_number;
  episode_number = f.episode_number;
  episode_title = f.episode_title;
  last_position = some e.last_position;
  duration_secs = m.duration_secs;
}

-- From the event on; an event without its media file is an AttributeError.
unfoldable pub continue_event : ℕ → Db → Rows WatchEvent → Reply SeriesContinueOut
continue_event series_id db [] = ok nothing_to_continue
continue_event series_id db ((_, e) ∷ _) = elim (get db.media e.media_file_id) [
  | none ↦ raised 500 "AttributeError"
  | some m ↦ elim (film_of_media e.media_file_id db) [
    | none ↦ ok nothing_to_continue
    | some (_, f) ↦
        if opt_eq (λ a b. a == b) f.series_id (some series_id)
        then ok (continue_out e m f)
        else ok nothing_to_continue
  ]
]

unfoldable pub series_continue : ℕ → Option (ℕ × User) → Db → Reply SeriesContinueOut
unfolding is_resumable continue_event
series_continue series_id none db = ok nothing_to_continue
series_continue series_id (some (user_id, _)) db =
    continue_event series_id db
      (sort_by (by_key_desc started) (select (is_resumable db series_id user_id) db.events))

pub record AdjacentEpisodeOut : Type 0 where
  pub series_id : Option ℕ
  pub series_title : Option String
  pub prev_media_id : Option ℕ
  pub next_media_id : Option ℕ
  pub prev_title : Option String
  pub next_title : Option String
  pub season_number : Option ℕ
  pub episode_number : Option ℕ
  pub episode_title : Option String

abbrev pub no_neighbours : AdjacentEpisodeOut
no_neighbours = record {
  series_id = none;
  series_title = none;
  prev_media_id = none;
  next_media_id = none;
  prev_title = none;
  next_title = none;
  season_number = none;
  episode_number = none;
  episode_title = none;
}

-- The numbered episodes of a season, in their order.
unfoldable pub episode_films : ℕ → Option ℕ → Db → Rows Film
episode_films series_id season db = sort_by (by_key episode_key) (
    select
      (λ _ f.
        opt_eq (λ a b. a == b) f.series_id (some series_id)
        && opt_eq (λ a b. a == b) f.season_number season
        && not (is_none f.episode_number))
      db.films)

abbrev pub head_of : Rows Film → Option (ℕ × Film)
head_of [] = none
head_of (x ∷ _) = some x

-- The loop over the episodes: the one before and the one after, where the one before is the last that was passed.
unfoldable pub neighbours :
    ℕ → Option (ℕ × Film) → Rows Film → Option (ℕ × Film) × Option (ℕ × Film)
neighbours k before [] = (none, none)
neighbours k before ((i, f) ∷ rest) =
    let later = neighbours k (some (i, f)) rest in if i == k then (before, head_of rest) else later

abbrev place_label : Option ℕ → Option ℕ → List String
place_label (some season) (some episode) =
    concat "S" (concat (zfill season) (concat "E" (zfill episode))) ∷ []
place_label _ _ = []

abbrev title_label : Option String → List String → List String
title_label none label_parts = label_parts
title_label (some t) [] = if str_eq t "" then [] else "—" ∷ t ∷ []
title_label (some t) (s ∷ _) = if str_eq t "" then s ∷ [] else s ∷ "—" ∷ t ∷ []

abbrev label_or : String → List String → String
label_or title [] = title
label_or title (s ∷ rest) = join " " (s ∷ rest)

-- `_episode_label`
unfoldable pub episode_label : Film → String
unfolding zfill
episode_label f =
    label_or f.title (title_label f.episode_title (place_label f.season_number f.episode_number))

abbrev pub media_of : Db → Option (ℕ × Film) → Option ℕ
media_of db none = none
media_of db (some (k, _)) = first_media_id db k

abbrev label_of : Option (ℕ × Film) → Option String
label_of none = none
label_of (some (_, f)) = some (episode_label f)

abbrev series_title_of : Db → ℕ → Option String
series_title_of db series_id = elim (get db.series series_id) [
  | none ↦ none
  | some s ↦ some s.title
]

-- The reply for a film of a series.
unfoldable pub adjacent_of : Db → ℕ → ℕ × Film → AdjacentEpisodeOut
unfolding episode_films neighbours episode_label
adjacent_of db series_id (k, f) =
    let around = neighbours k none (episode_films series_id f.season_number db) in
    record {
      series_id = some series_id;
      series_title = series_title_of db series_id;
      prev_media_id = media_of db around.0;
      next_media_id = media_of db around.1;
      prev_title = label_of around.0;
      next_title = label_of around.1;
      season_number = f.season_number;
      episode_number = f.episode_number;
      episode_title = f.episode_title;
    }

unfoldable pub adjacent_episode : ℕ → Db → Reply AdjacentEpisodeOut
unfolding adjacent_of
adjacent_episode media_id db = elim (get db.media media_id) [
  | none ↦ raised 404 "Media file not found"
  | some _ ↦ elim (film_of_media media_id db) [
    | none ↦ ok no_neighbours
    | some (k, f) ↦ elim f.series_id [
      | none ↦ ok no_neighbours
      | some series_id ↦ ok (adjacent_of db series_id (k, f))
    ]
  ]
]
