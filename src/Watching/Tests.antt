-- ===== src/Watching/Tests.antt =====
-- Runs of the watch handlers on a small database.
use filmoteka.Prelude.{pos, ◌≡◌, refl, true, false, All, some, List, [], ◌∷◌, arith, sort_by}
use filmoteka.Table.{get, add, put, first, delete, select}
use filmoteka.Models.{Db}
use filmoteka.Models.Sample.{sample_db, sample_media}
use filmoteka.Models.Access.{User}
use filmoteka.Models.Watching.{WatchEvent}
use filmoteka.Http.{ok}
use filmoteka.Access.{new_user}
use filmoteka.Watching.{
  WatchResponse, new_event, start_watch, update_progress, clear_watch_history,
  clear_watch_history_for_film, is_media_of_film,
}
use filmoteka.Watching.Listings.{HistoryItem, film_of_media, watch_history, history_item}
use filmoteka.Table.Laws.{IsTable}
use filmoteka.Watching.Stats.{
  AdminWatchStatItem, admin_watch_stats, IsOpen, admin_watch_stats-IsOpen,
}
use filmoteka.Watching.Steps.{
  WatchRequest, start, progress, clear, clear_film, serve_all, HasOneOpen, NothingFinished,
  serve_all-HasOneOpen,
}
use filmoteka.Watching.Resume.{start-progress-start}

abbrev viewer : User
viewer = new_user "anna" "h" 1

sample_HasOneOpen : HasOneOpen sample_db
unfolding get
sample_HasOneOpen = record { table = tt; one_open = λ i j a b ga gb fa fb em eu. ground arith }

abbrev evening : List WatchRequest
evening =
    start 7 viewer 10 1
    ∷ progress 7 1 1 (pos 600)
    ∷ progress 8 1 1 (pos 5)
    ∷ start 7 viewer 20 2
    ∷ clear_film 7 2
    ∷ clear 8
    ∷ start 7 viewer 30 1
    ∷ []

serve_all-HasOneOpen_example : HasOneOpen (serve_all evening sample_db)
serve_all-HasOneOpen_example = serve_all-HasOneOpen evening sample_db sample_HasOneOpen

sample_NothingFinished : NothingFinished sample_db
unfolding get
sample_NothingFinished i e found = ground arith

start-progress-start_example :
    (w : WatchResponse) × (after : Db) × (moved : Db) × (start_watch 10 1 7 viewer sample_db
      ≡ (ok w, after))
    × (update_progress 1 w.watch_event_id (pos 600) 7 after ≡ (ok tt, moved))
    × (start_watch 99 1 7 viewer moved ≡ (ok (record w { last_position = pos 600 }), moved))
unfolding get
start-progress-start_example =
    start-progress-start 10 99 1 7 viewer viewer (pos 600) (sample_media 1 "/lib/a.mkv") sample_db
      sample_HasOneOpen refl

-- One event of user 7 on media file 1, at position 600.
abbrev half_way : WatchEvent
half_way = record (new_event 1 7 false 10) { last_position = pos 600 }

abbrev watched : Db
watched = record sample_db { events = record { next_id = 2; rows = (1, half_way) ∷ [] } }

evening_leaves :
    serve_all evening sample_db
    ≡ record watched { events = record { next_id = 3; rows = (1, half_way) ∷ [] } }
unfolding serve_all start_watch update_progress clear_watch_history clear_watch_history_for_film
    is_media_of_film get add put delete first new_user
evening_leaves = refl

abbrev shown : HistoryItem
shown = record {
  watch_event_id = 1;
  media_file_id = 1;
  film_id = 1;
  film_title = "A";
  film_year = some 1999;
  started_at = 10;
  last_position = pos 600;
  finished = false;
}

history_of_watched : watch_history 0 20 7 watched ≡ ok (shown ∷ [], 1)
unfolding watch_history sort_by select history_item film_of_media get
history_of_watched = refl

-- User 7 has watched one file openly and another in the incognito mode.
abbrev in_part : Db
in_part = record sample_db {
  users = record { next_id = 8; rows = (7, viewer) ∷ [] };
  events = record { next_id = 3; rows = (1, half_way) ∷ (2, new_event 2 7 true 20) ∷ [] };
}

abbrev stat : AdminWatchStatItem
stat = record {
  user_id = 7;
  username = "anna";
  film_title = "A";
  started_at = 10;
  finished = false;
}

stats_of_part : admin_watch_stats 0 20 in_part ≡ (stat ∷ [], 1)
unfolding admin_watch_stats sort_by select get new_user
stats_of_part = refl

in_part_IsTable : IsTable in_part.events
unfolding get
in_part_IsTable = ground arith

admin_watch_stats-IsOpen_example : All (IsOpen in_part) (admin_watch_stats 0 20 in_part).0
admin_watch_stats-IsOpen_example = admin_watch_stats-IsOpen 0 20 in_part in_part_IsTable
