-- ===== src/Users/Incognito.antt =====
-- The incognito switch, and what is watched while it is on.
use filmoteka.Prelude.{
  ℕ, ◌≡◌, refl, ◌∙◌, ap, Bool, true, false, [], ◌∷◌, ◌++◌, arith, Option-cases, inl, inr,
}
use filmoteka.Table.{Rows, Table, get, add, first, select, where_rows}
use filmoteka.Models.{Db}
use filmoteka.Models.Access.{User}
use filmoteka.Models.Watching.{WatchEvent}
use filmoteka.Watching.{start_watch, start_or_resume, new_event, is_open, is_recorded}
use filmoteka.Watching.Listings.{
  watch_history, history_reply, history_item, film_of_media, all_some, history_page,
}

where_rows-snoc :
    (p : ℕ → WatchEvent → Bool) (i : ℕ) (e : WatchEvent) (r : Rows WatchEvent)
    → p i e ≡ false
    → where_rows p (r ++ (i, e) ∷ []) ≡ where_rows p r
unfolding where_rows
where_rows-snoc p i e [] h = ground arith
where_rows-snoc p i e ((j, x) ∷ r) h = ground (arith, where_rows-snoc p i e r h)

all_some-events :
    (t : Table WatchEvent) (db : Db) (r : Rows WatchEvent)
    → all_some (history_item (record db { events = t })) r ≡ all_some (history_item db) r
unfolding all_some history_item film_of_media
all_some-events t db [] = refl
all_some-events t db (x ∷ r) = ground (arith, all_some-events t db r)

history_reply-events :
    (t : Table WatchEvent) (skip limit : ℕ) (db : Db) (r : Rows WatchEvent)
    → history_reply skip limit (record db { events = t }) r ≡ history_reply skip limit db r
unfolding history_reply
history_reply-events t skip limit db r =
    ground (arith, all_some-events t db (history_page skip limit r))

history-add :
    (skip limit user_id : ℕ) (e : WatchEvent) (db : Db)
    → e.incognito ≡ true
    → watch_history skip limit user_id (record db { events = add e db.events })
      ≡ watch_history skip limit user_id db
unfolding watch_history add select
history-add skip limit user_id e db on =
    let hidden : is_recorded user_id db.events.next_id e ≡ false = ground arith in
    history_reply-events (add e db.events) skip limit db
      (select (is_recorded user_id) (add e db.events))
    ∙ ap (history_reply skip limit db)
        (where_rows-snoc (is_recorded user_id) db.events.next_id e db.events.rows hidden)

-- While the incognito mode is on, to start or resume a media file leaves every page of the user's history as it was.
pub watch_history-incognito :
    (now media_id user_id skip limit : ℕ) (user : User) (db : Db)
    → user.incognito ≡ true
    → watch_history skip limit user_id (start_watch now media_id user_id user db).1
      ≡ watch_history skip limit user_id db
unfolding start_watch start_or_resume
watch_history-incognito now media_id user_id skip limit user db on =
    elim (Option-cases (get db.media media_id)) [
      | inl e ↦ rw (e, start_watch) refl
      | inr (m, e) ↦ elim (Option-cases (first (is_open media_id user_id) db.events)) [
        | inl free ↦
            rw (e, start_watch, free, start_or_resume)
              (history-add skip limit user_id (new_event media_id user_id user.incognito now) db on)
        | inr ((i, event), found) ↦ rw (e, start_watch, found, start_or_resume) refl
      ]
    ]
