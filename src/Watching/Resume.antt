-- ===== src/Watching/Resume.antt =====
-- Starting, moving and resuming playback.
use filmoteka.Prelude.{
  ℕ, ℤ, ◌≡◌, refl, false, Option, none, some, arith, ◌==◌, Option-cases, inl, inr, if◌then◌else◌,
}
use filmoteka.Table.{get, add, put, first}
use filmoteka.Table.Laws.{get-add, get-put, first-some, first_unique}
use filmoteka.Models.{Db}
use filmoteka.Models.Access.{User}
use filmoteka.Models.Catalog.{MediaFile}
use filmoteka.Models.Watching.{WatchEvent}
use filmoteka.Http.{Reply, ok, raised}
use filmoteka.Watching.{
  WatchResponse, response, is_open, new_event, start_or_resume, start_watch, update_progress,
}
use filmoteka.Watching.Steps.{HasOneOpen, add-HasOneOpen, put-HasOneOpen}

-- An unfinished event of a user on a media file is the one that the query finds.
open_event-found :
    (k : ℕ) (e : WatchEvent) (db : Db)
    → HasOneOpen db
    → get db.events k ≡ some e
    → e.finished ≡ false
    → first (is_open e.media_file_id e.user_id) db.events ≡ some (k, e)
open_event-found k e db h found open_one =
    first_unique (is_open e.media_file_id e.user_id) db.events k e h.table found (ground arith)
      (λ i a gi pi.
        h.one_open i k a e gi found (ground arith) open_one (ground arith) (ground arith))

-- A start on a media file that exists: its response is that of an unfinished event of the user on
-- the file, which is stored.
start_result :
    (now m u : ℕ) (user : User) (file : MediaFile) (db : Db)
    → HasOneOpen db
    → get db.media m ≡ some file
    → (i : ℕ) × (e : WatchEvent) × (after : Db) × (start_watch now m u user db
        ≡ (ok (response i e), after))
      × (get after.events i ≡ some e)
      × (e.finished ≡ false)
      × (e.media_file_id ≡ m)
      × (e.user_id ≡ u)
      × (after.media ≡ db.media)
      × HasOneOpen after
unfolding start_watch start_or_resume
start_result now m u user file db h found = elim (Option-cases (first (is_open m u) db.events)) [
  | inl free ↦
      let e = new_event m u user.incognito now in
      (
        db.events.next_id,
        e,
        record db { events = add e db.events },
        rw (found, free, start_watch, start_or_resume),
        ground (arith, get-add db.events.next_id e db.events h.table),
        refl,
        refl,
        refl,
        refl,
        add-HasOneOpen m u now user.incognito db h free,
      )
  | inr ((i, e), resumed) ↦
      let (is, stored) = first-some (is_open m u) db.events i e h.table resumed in
      (
        i,
        e,
        db,
        rw (found, resumed, start_watch, start_or_resume),
        stored,
        ground arith,
        ground arith,
        ground arith,
        refl,
        h,
      )
]

-- A media file is resumed where it was left: on a media file that exists, in a database whose events have unique keys and
-- where no user has two unfinished events on one media file, a start returns an event, the event's user may move
-- it to any position, and a later start, with any settings of the user, returns the same event at
-- that position and changes nothing.
pub start-progress-start :
    (now later m u : ℕ) (user user' : User) (position : ℤ) (file : MediaFile) (db : Db)
    → HasOneOpen db
    → get db.media m ≡ some file
    → (w : WatchResponse) × (after : Db) × (moved : Db) × (start_watch now m u user db
        ≡ (ok w, after))
      × (update_progress m w.watch_event_id position u after ≡ (ok tt, moved))
      × (start_watch later m u user' moved ≡ (ok (record w { last_position = position }), moved))
unfolding update_progress start_watch start_or_resume
start-progress-start now later m u user user' position file db h found =
    let (i, e, after, started, stored, unfinished, of_media, of_user, same_media, sound) =
      start_result now m u user file db h found in
    let e' = record e { last_position = position } in
    let moved = record after { events = put i e' after.events } in
    let sound' : HasOneOpen moved = put-HasOneOpen i e position after sound stored in
    let stored' : get moved.events i ≡ some e' = ground (arith, get-put i i e' after.events) in
    let again = open_event-found i e' moved sound' stored' unfinished in
    (response i e, after, moved, started, ground arith, ground arith)

-- Who may move an event, and the event after the request.
abbrev pub verdict : ℕ → Option WatchEvent → Reply (Unit {0})
verdict u none = raised 404 "Watch event not found"
verdict u (some e) =
    if e.user_id == u then ok tt else raised 403 "Watch event belongs to another user"

abbrev pub moved_by : ℕ → ℤ → Option WatchEvent → Option WatchEvent
moved_by u position none = none
moved_by u position (some e) =
    if e.user_id == u then some (record e { last_position = position }) else some e

-- Only the user of an event moves it. The reply to a request on the event `k` is 404 if there is no such event, 403 if it
-- is another user's, and otherwise success. After it, every event `j` is as before, except that `k`
-- has the new position if it is the user's own.
pub update_progress_exact :
    (m k u j : ℕ) (position : ℤ) (db : Db)
    → ((update_progress m k position u db).0 ≡ verdict u (get db.events k))
      × (get (update_progress m k position u db).1.events j
          ≡ (if k == j then moved_by u position (get db.events j) else get db.events j))
unfolding update_progress
update_progress_exact m k u j position db = elim (Option-cases (get db.events k)) [
  | inl missing ↦ ground arith
  | inr (e, found) ↦ ground (arith, get-put k j (record e { last_position = position }) db.events)
]
