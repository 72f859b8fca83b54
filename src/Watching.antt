-- ===== src/Watching.antt =====
-- Playback: the watch endpoints of src/filmoteka/api/media.py, and the history endpoints of
-- src/filmoteka/api/users.py and src/filmoteka/api/admin.py. A handler takes the current user's key and row.
pub mod Listings
pub mod Stats
pub mod Steps
pub mod Resume
pub mod History
pub mod Continue
mod Tests
use filmoteka.Prelude.{
  ℕ, String, Bool, true, false, not, ◌&&◌, ◌||◌, Option, none, some, List, [], ◌∷◌, ℤ, pos, ◌==◌,
  any, if◌then◌else◌, mem_nat,
}
use filmoteka.Table.{Rows, get, add, put, delete, first, select}
use filmoteka.Models.{Db}
use filmoteka.Models.Access.{User}
use filmoteka.Models.Catalog.{MovieEdition, MediaFile}
use filmoteka.Models.Watching.{WatchEvent}
use filmoteka.Http.{Reply, ok, raised, Handler}

-- `WatchStartResponse`, and the `WatchStateResponse` of an event that was found.
pub record WatchResponse : Type 0 where
  pub watch_event_id : ℕ
  pub media_file_id : ℕ
  pub started_at : ℕ
  pub last_position : ℤ
  pub finished : Bool

abbrev pub response : ℕ → WatchEvent → WatchResponse
response i e = record {
  watch_event_id = i;
  media_file_id = e.media_file_id;
  started_at = e.started_at;
  last_position = e.last_position;
  finished = e.finished;
}

-- The WHERE clause for the unfinished events of a user on a media file; incognito ones count.
abbrev pub is_open : ℕ → ℕ → ℕ → WatchEvent → Bool
is_open media_id user_id _ e =
    (e.media_file_id == media_id) && (e.user_id == user_id) && not e.finished

-- `watch_state`, where `none` is `has_state=False`
unfoldable pub watch_state : ℕ → ℕ → Db → Option WatchResponse
watch_state media_id user_id db = elim (first (is_open media_id user_id) db.events) [
  | none ↦ none
  | some (i, e) ↦ some (response i e)
]

abbrev pub new_event : ℕ → ℕ → Bool → ℕ → WatchEvent
new_event media_id user_id incognito now = record {
  media_file_id = media_id;
  user_id = user_id;
  started_at = now;
  last_position = pos 0;
  finished = false;
  incognito = incognito;
}

unfoldable pub start_or_resume : ℕ → ℕ → ℕ → User → Handler WatchResponse
start_or_resume now media_id user_id user db = elim (first (is_open media_id user_id) db.events) [
  | some (i, e) ↦ (ok (response i e), db)
  | none ↦
      let e = new_event media_id user_id user.incognito now in
      (ok (response db.events.next_id e), record db { events = add e db.events })
]

unfoldable pub start_watch : ℕ → ℕ → ℕ → User → Handler WatchResponse
unfolding start_or_resume
start_watch now media_id user_id user db = elim (get db.media media_id) [
  | none ↦ (raised 404 "Media file not found", db)
  | some _ ↦ start_or_resume now media_id user_id user db
]

-- The media file in the path is not read.
unfoldable pub update_progress : ℕ → ℕ → ℤ → ℕ → Handler Unit
update_progress media_id watch_event_id position user_id db = elim (get db.events watch_event_id) [
  | none ↦ (raised 404 "Watch event not found", db)
  | some e ↦
      if not (e.user_id == user_id)
      then (raised 403 "Watch event belongs to another user", db)
      else (
        ok tt,
        record db { events = put watch_event_id (record e { last_position = position }) db.events },
      )
]

-- The events that the history shows and clears.
abbrev pub is_recorded : ℕ → ℕ → WatchEvent → Bool
is_recorded user_id _ e = (e.user_id == user_id) && not e.incognito

unfoldable pub clear_watch_history : ℕ → Handler Unit
clear_watch_history user_id db =
    (ok tt, record db { events = delete (is_recorded user_id) db.events })

-- `MediaFile` joined with `MovieEdition`, of one film.
unfoldable pub is_media_of_film : Db → ℕ → ℕ → Bool
is_media_of_film db film_id media_id = elim (get db.media media_id) [
  | none ↦ false
  | some m ↦ elim (get db.editions m.edition_id) [ none ↦ false | some e ↦ e.film_id == film_id ]
]

unfoldable pub clear_watch_history_for_film : ℕ → ℕ → Handler Unit
clear_watch_history_for_film film_id user_id db = (
  ok tt,
  record db {
    events =
        delete (λ i e. is_media_of_film db film_id e.media_file_id && is_recorded user_id i e)
          db.events;
  },
)

-- `admin_clear_user_stats`, behind the check of the administrator's role
unfoldable pub admin_clear_user_stats : ℕ → Handler Unit
admin_clear_user_stats user_id db = elim (get db.users user_id) [
  | none ↦ (raised 404 "User not found", db)
  | some _ ↦ (ok tt, record db { events = delete (is_recorded user_id) db.events })
]
