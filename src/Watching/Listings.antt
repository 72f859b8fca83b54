-- ===== src/Watching/Listings.antt =====
-- The listings of watch events: `watch_history` of src/filmoteka/api/users.py and `watch_continue` of
-- src/filmoteka/api/media.py.
use filmoteka.Prelude.{
  ℕ, String, Bool, true, false, not, ◌&&◌, Option, none, some, List, [], ◌∷◌, ℤ, is_positive, ◌==◌,
  mem_nat, length, take, drop, sort_by, by_key_desc,
}
use filmoteka.Table.{Rows, get, select}
use filmoteka.Models.{Db}
use filmoteka.Models.Catalog.{Film, MediaFile}
use filmoteka.Models.Watching.{WatchEvent}
use filmoteka.Http.{Reply, ok, raised}
use filmoteka.Watching.{is_recorded}

-- `event.media_file.edition.film`, with the media file; `none` where a link is missing.
unfoldable pub film_of_media : ℕ → Db → Option (ℕ × Film)
film_of_media media_id db = elim (get db.media media_id) [
  | none ↦ none
  | some m ↦ elim (get db.editions m.edition_id) [
    | none ↦ none
    | some e ↦ elim (get db.films e.film_id) [ none ↦ none | some f ↦ some (e.film_id, f) ]
  ]
]

pub record HistoryItem : Type 0 where
  pub watch_event_id : ℕ
  pub media_file_id : ℕ
  pub film_id : ℕ
  pub film_title : String
  pub film_year : Option ℕ
  pub started_at : ℕ
  pub last_position : ℤ
  pub finished : Bool

unfoldable pub history_item : Db → ℕ × WatchEvent → Option HistoryItem
history_item db (i, e) = elim (film_of_media e.media_file_id db) [
  | none ↦ none
  | some (film_id, f) ↦ some (record {
    watch_event_id = i;
    media_file_id = e.media_file_id;
    film_id = film_id;
    film_title = f.title;
    film_year = f.year;
    started_at = e.started_at;
    last_position = e.last_position;
    finished = e.finished;
  })
]

-- A list comprehension whose body may raise.
unfoldable pub all_some {ℓ κ} :
    {A : Type ℓ} {B : Type κ} → (A → Option B) → List A → Option (List B)
all_some f [] = some []
all_some f (x ∷ xs) =
    let rest = all_some f xs in
    elim (f x) [ none ↦ none | some y ↦ elim rest [ none ↦ none | some ys ↦ some (y ∷ ys) ] ]

-- The order of the history: most recent first.
abbrev pub started : ℕ × WatchEvent → ℕ
started (_, e) = e.started_at

unfoldable pub history_page : ℕ → ℕ → Rows WatchEvent → Rows WatchEvent
history_page skip limit events = take limit (drop skip (sort_by (by_key_desc started) events))

-- The items of the page and the total. A missing link of the chain is an `AttributeError`, which
-- the server answers with 500.
unfoldable pub history_reply : ℕ → ℕ → Db → Rows WatchEvent → Reply (List HistoryItem × ℕ)
unfolding history_page all_some
history_reply skip limit db events =
    elim (all_some (history_item db) (history_page skip limit events)) [
      | none ↦ raised 500 "AttributeError"
      | some items ↦ ok (items, length events)
    ]

unfoldable pub watch_history : ℕ → ℕ → ℕ → Db → Reply (List HistoryItem × ℕ)
unfolding history_reply
watch_history skip limit user_id db =
    history_reply skip limit db (select (is_recorded user_id) db.events)

pub record ContinueItem : Type 0 where
  pub film_id : ℕ
  pub media_id : ℕ
  pub title : String
  pub year : Option ℕ
  pub poster_url : Option String
  pub last_position : ℤ
  pub duration_secs : Option ℤ

abbrev pub continue_item : ℕ → Film → ℕ → Option MediaFile → WatchEvent → ContinueItem
continue_item film_id f media_id m e = record {
  film_id = film_id;
  media_id = media_id;
  title = f.title;
  year = f.year;
  poster_url = f.poster_url;
  last_position = e.last_position;
  duration_secs = elim m [ none ↦ none | some file ↦ file.duration_secs ];
}

-- The loop of `watch_continue`, with the set of films that it has shown.
unfoldable pub continue_loop : Db → List ℕ → Rows WatchEvent → List ContinueItem
continue_loop db seen [] = []
continue_loop db seen ((i, e) ∷ rest) = elim (film_of_media e.media_file_id db) [
  | none ↦ continue_loop db seen rest
  | some (film_id, f) ↦ elim (mem_nat film_id seen) [
    | true ↦ continue_loop db seen rest
    | false ↦
        continue_item film_id f e.media_file_id (get db.media e.media_file_id) e
        ∷ continue_loop db (film_id ∷ seen) rest
  ]
]

abbrev pub is_in_progress : ℕ → ℕ → WatchEvent → Bool
is_in_progress user_id _ e =
    (e.user_id == user_id) && not e.finished && not e.incognito && is_positive e.last_position

unfoldable pub watch_continue : ℕ → Db → List ContinueItem
unfolding continue_loop
watch_continue user_id db =
    continue_loop db [] (sort_by (by_key_desc started) (select (is_in_progress user_id) db.events))
