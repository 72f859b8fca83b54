-- ===== src/Watching/Steps.antt =====
-- Sequences of watch requests: a user has at most one unfinished event on a media file, and no
-- request ever marks an event as finished.
use filmoteka.Prelude.{
  ℕ, ℤ, ◌≡◌, refl, Bool, false, ◌&&◌, none, some, List, [], ◌∷◌, arith, ◌==◌, Option-cases,
  Bool-cases, inl, inr,
}
use filmoteka.Table.{get, add, put, delete, first}
use filmoteka.Table.Laws.{
  IsTable, Each, add-IsTable, put-IsTable, delete-IsTable, get-add, get-put, get-delete, first-none,
  Each-add, Each-put, Each-delete,
}
use filmoteka.Models.{Db}
use filmoteka.Models.Access.{User}
use filmoteka.Models.Watching.{WatchEvent}
use filmoteka.Watching.{
  is_open, new_event, start_or_resume, start_watch, update_progress, is_recorded,
  clear_watch_history, is_media_of_film, clear_watch_history_for_film, admin_clear_user_stats,
}

-- A request on the watch events; the first key is that of the current user.
pub data WatchRequest : Type 0 where
  start : ℕ → User → ℕ → ℕ → WatchRequest  -- user, now, media file
  progress : ℕ → ℕ → ℕ → ℤ → WatchRequest  -- media file, event, position
  clear : ℕ → WatchRequest
  clear_film : ℕ → ℕ → WatchRequest  -- film
  clear_stats : ℕ → WatchRequest

abbrev pub serve : WatchRequest → Db → Db
serve (start user_id user now media_id) db = (start_watch now media_id user_id user db).1
serve (progress user_id media_id event_id position) db =
    (update_progress media_id event_id position user_id db).1
serve (clear user_id) db = (clear_watch_history user_id db).1
serve (clear_film user_id film_id) db = (clear_watch_history_for_film film_id user_id db).1
serve (clear_stats user_id) db = (admin_clear_user_stats user_id db).1

unfoldable pub serve_all : List WatchRequest → Db → Db
serve_all [] db = db
serve_all (r ∷ rs) db = serve_all rs (serve r db)

pub record HasOneOpen (db : Db) : Type 0 where
  pub table : IsTable db.events
  pub one_open :
      (i j : ℕ) (a b : WatchEvent)
      → get db.events i ≡ some a
      → get db.events j ≡ some b
      → a.finished ≡ false
      → b.finished ≡ false
      → a.media_file_id ≡ b.media_file_id
      → a.user_id ≡ b.user_id
      → i ≡ j

-- No event is marked as finished.
abbrev pub NothingFinished : Db → Type 0
NothingFinished db = Each (λ _ e. e.finished ≡ false) db.events

pub add-HasOneOpen :
    (m u now : ℕ) (incognito : Bool) (db : Db)
    → HasOneOpen db
    → first (is_open m u) db.events ≡ none
    → HasOneOpen (record db { events = add (new_event m u incognito now) db.events })
add-HasOneOpen m u now incognito db h free = record {
  table = add-IsTable (new_event m u incognito now) db.events h.table;
  one_open = λ i j a b ga gb fa fb em eu.
      let e = new_event m u incognito now in
      ground (
        arith,
        get-add i e db.events h.table,
        get-add j e db.events h.table,
        first-none (is_open m u) db.events i a free,
        first-none (is_open m u) db.events j b free,
        h.one_open i j a b,
      );
}

delete-HasOneOpen :
    (p : ℕ → WatchEvent → Bool) (db : Db)
    → HasOneOpen db
    → HasOneOpen (record db { events = delete p db.events })
delete-HasOneOpen p db h = record {
  table = delete-IsTable p db.events h.table;
  one_open = λ i j a b ga gb fa fb em eu. ground (
    arith,
    get-delete i p db.events h.table,
    get-delete j p db.events h.table,
    h.one_open i j a b,
  );
}

pub put-HasOneOpen :
    (k : ℕ) (e : WatchEvent) (position : ℤ) (db : Db)
    → HasOneOpen db
    → get db.events k ≡ some e
    → HasOneOpen (record db { events = put k (record e { last_position = position }) db.events })
put-HasOneOpen k e position db h found = record {
  table = put-IsTable k (record e { last_position = position }) db.events h.table;
  one_open = λ i j a b ga gb fa fb em eu.
      let v = record e { last_position = position } in
      ground (
        arith,
        get-put k i v db.events,
        get-put k j v db.events,
        h.one_open i j a b,
        h.one_open i k a e,
        h.one_open k j e b,
      );
}

-- What a request does to the events.
data Effect (db : Db) : Db → Type 0 where
  unchanged : Effect db db
  added :
      (m u now : ℕ) (incognito : Bool)
      → first (is_open m u) db.events ≡ none
      → Effect db (record db { events = add (new_event m u incognito now) db.events })
  moved :
      (k : ℕ) (e : WatchEvent) (position : ℤ)
      → get db.events k ≡ some e
      → Effect db (record db { events = put k (record e { last_position = position }) db.events })
  deleted : (p : ℕ → WatchEvent → Bool) → Effect db (record db { events = delete p db.events })

start-Effect :
    (user_id : ℕ) (user : User) (now media_id : ℕ) (db : Db)
    → Effect db (start_watch now media_id user_id user db).1
unfolding start_watch
start-Effect user_id user now media_id db = elim (Option-cases (get db.media media_id)) [
  | inl missing ↦ rw (missing, start_watch) unchanged
  | inr (_, found) ↦ elim (Option-cases (first (is_open media_id user_id) db.events)) [
    | inl free ↦
        rw (found, free, start_watch, start_or_resume)
          (added media_id user_id now user.incognito free)
    | inr (_, resumed) ↦ rw (found, resumed, start_watch, start_or_resume) unchanged
  ]
]

progress-Effect :
    (user_id media_id event_id : ℕ) (position : ℤ) (db : Db)
    → Effect db (update_progress media_id event_id position user_id db).1
unfolding update_progress
progress-Effect user_id media_id event_id position db =
    elim (Option-cases (get db.events event_id)) [
      | inl missing ↦ rw (missing, update_progress) unchanged
      | inr (e, found) ↦ elim (Bool-cases (e.user_id == user_id)) [
        | inl own ↦ rw (found, own, update_progress) (moved event_id e position found)
        | inr other ↦ rw (found, other, update_progress) unchanged
      ]
    ]

stats-Effect : (user_id : ℕ) (db : Db) → Effect db (admin_clear_user_stats user_id db).1
unfolding admin_clear_user_stats
stats-Effect user_id db = elim (Option-cases (get db.users user_id)) [
  | inl missing ↦ rw (missing, admin_clear_user_stats) unchanged
  | inr (_, found) ↦ rw (found, admin_clear_user_stats) (deleted (is_recorded user_id))
]

serve-Effect : (r : WatchRequest) (db : Db) → Effect db (serve r db)
unfolding clear_watch_history clear_watch_history_for_film
serve-Effect (start user_id user now media_id) db = start-Effect user_id user now media_id db
serve-Effect (progress user_id media_id event_id position) db =
    progress-Effect user_id media_id event_id position db
serve-Effect (clear user_id) db = deleted (is_recorded user_id)
serve-Effect (clear_film user_id film_id) db =
    deleted (λ i e. is_media_of_film db film_id e.media_file_id && is_recorded user_id i e)
serve-Effect (clear_stats user_id) db = stats-Effect user_id db

Effect-HasOneOpen : {db after : Db} → Effect db after → HasOneOpen db → HasOneOpen after
Effect-HasOneOpen unchanged h = h
Effect-HasOneOpen {db} (added m u now incognito free) h = add-HasOneOpen m u now incognito db h free
Effect-HasOneOpen {db} (moved k e position found) h = put-HasOneOpen k e position db h found
Effect-HasOneOpen {db} (deleted p) h = delete-HasOneOpen p db h

Effect-NothingFinished :
    {db after : Db}
    → Effect db after
    → IsTable db.events
    → NothingFinished db
    → NothingFinished after
Effect-NothingFinished unchanged t h = h
Effect-NothingFinished {db} (added m u now incognito free) t h =
    Each-add (λ _ (e : WatchEvent). e.finished ≡ false) (new_event m u incognito now) db.events t h
      refl
Effect-NothingFinished {db} (moved k e position found) t h =
    Each-put (λ _ (x : WatchEvent). x.finished ≡ false) k (record e { last_position = position })
      db.events h (h k e found)
Effect-NothingFinished {db} (deleted p) t h =
    Each-delete (λ _ (e : WatchEvent). e.finished ≡ false) p db.events t h

-- From a database whose events have unique keys and where no user has two unfinished events on one media file, every
-- sequence of watch requests, refused ones included, leads to such a database.
pub serve_all-HasOneOpen :
    (rs : List WatchRequest) (db : Db) → HasOneOpen db → HasOneOpen (serve_all rs db)
unfolding serve_all
serve_all-HasOneOpen [] db h = h
serve_all-HasOneOpen (r ∷ rs) db h =
    serve_all-HasOneOpen rs (serve r db) (Effect-HasOneOpen (serve-Effect r db) h)

-- From a database whose events have unique keys, with at most one of them unfinished for a user and a media
-- file, and where no event is finished, every sequence of watch requests leads to a database where no event is finished.
pub serve_all-NothingFinished :
    (rs : List WatchRequest) (db : Db)
    → HasOneOpen db
    → NothingFinished db
    → NothingFinished (serve_all rs db)
unfolding serve_all
serve_all-NothingFinished [] db s h = h
serve_all-NothingFinished (r ∷ rs) db s h =
    let e = serve-Effect r db in
    serve_all-NothingFinished rs (serve r db) (Effect-HasOneOpen e s)
      (Effect-NothingFinished e s.table h)
