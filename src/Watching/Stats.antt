-- ===== src/Watching/Stats.antt =====
-- The statistics of the administrator: `admin_watch_stats` and `admin_watch_stats_summary` of src/filmoteka/api/admin.py.
use filmoteka.Prelude.{
  ℕ, suc, String, ◌≡◌, Bool, true, false, not, ◌&&◌, Option, none, some, List, [], ◌∷◌, ◌==◌,
  mem_nat, length, take, drop, sort_by, by_key_desc, All, All-take, All-drop, All-sort_by,
  Option-cases, inl, inr, if◌then◌else◌, arith,
}
use filmoteka.Table.{Rows, get, select}
use filmoteka.Table.Laws.{IsTable, All-select}
use filmoteka.Models.{Db}
use filmoteka.Models.Access.{User}
use filmoteka.Models.Watching.{WatchEvent}
use filmoteka.Watching.Listings.{film_of_media, started}

pub record AdminWatchStatItem : Type 0 where
  pub user_id : ℕ
  pub username : String
  pub film_title : String
  pub started_at : ℕ
  pub finished : Bool

-- The row of an event in the join with its user and its film.
unfoldable pub stat_item : Db → ℕ × WatchEvent → Option AdminWatchStatItem
unfolding film_of_media
stat_item db (i, e) = elim (get db.users e.user_id) [
  | none ↦ none
  | some u ↦ elim (film_of_media e.media_file_id db) [
    | none ↦ none
    | some (_, f) ↦ some (record {
      user_id = e.user_id;
      username = u.username;
      film_title = f.title;
      started_at = e.started_at;
      finished = e.finished;
    })
  ]
]

-- An inner join leaves out the events without a partner.
unfoldable pub joined : Db → Rows WatchEvent → List AdminWatchStatItem
unfolding stat_item
joined db [] = []
joined db (x ∷ rows) =
    let others = joined db rows in
    elim (stat_item db x) [ none ↦ others | some item ↦ item ∷ others ]

abbrev pub is_shown : ℕ → WatchEvent → Bool
is_shown i e = not e.incognito

-- `admin_watch_stats`: the page and the total.
unfoldable pub admin_watch_stats : ℕ → ℕ → Db → List AdminWatchStatItem × ℕ
unfolding joined
admin_watch_stats skip limit db =
    let items = joined db (sort_by (by_key_desc started) (select is_shown db.events)) in
    (take limit (drop skip items), length items)

-- `count(WatchEvent.media_file_id.distinct())` of a user
unfoldable pub count_files : ℕ → List ℕ → Rows WatchEvent → ℕ
count_files user_id seen [] = 0
count_files user_id seen ((i, e) ∷ rows) =
    let others = count_files user_id seen rows in
    let more = suc (count_files user_id (e.media_file_id ∷ seen) rows) in
    if (e.user_id == user_id) && not (mem_nat e.media_file_id seen) then more else others

pub record SummaryItem : Type 0 where
  pub user_id : ℕ
  pub username : String
  pub films_started : ℕ

unfoldable pub summary_items : Rows WatchEvent → Rows User → List SummaryItem
unfolding count_files
summary_items events [] = []
summary_items events ((k, u) ∷ users) =
    record { user_id = k; username = u.username; films_started = count_files k [] events }
    ∷ summary_items events users

abbrev films_started : SummaryItem → ℕ
films_started item = item.films_started

-- `admin_watch_stats_summary`: the items; the total is their number.
unfoldable pub admin_watch_stats_summary : Db → List SummaryItem
unfolding summary_items
admin_watch_stats_summary db =
    sort_by (by_key_desc films_started) (summary_items (select is_shown db.events) db.users.rows)

-- An item shows an event of the table that was not made in the incognito mode.
abbrev pub IsOpen : Db → AdminWatchStatItem → Type 0
IsOpen db item =
    (i : ℕ) × (e : WatchEvent) × (get db.events i ≡ some e)
    × (e.incognito ≡ false)
    × (stat_item db (i, e) ≡ some item)

joined-IsOpen :
    (db : Db) (rows : Rows WatchEvent)
    → All (λ x. (is_shown x.0 x.1 ≡ true) × (get db.events x.0 ≡ some x.1)) rows
    → All (IsOpen db) (joined db rows)
unfolding joined
joined-IsOpen db [] h = tt
joined-IsOpen db ((i, e) ∷ rows) ((shown, row), h) = elim (Option-cases (stat_item db (i, e))) [
  | inl no_item ↦ rw (joined, no_item) (joined-IsOpen db rows h)
  | inr (item, is) ↦ rw (joined, is) ((i, e, row, ground arith, is), joined-IsOpen db rows h)
]

-- The statistics that the administrator sees hold no event of the incognito mode: each item shows an event of the table that is not incognito.
pub admin_watch_stats-IsOpen :
    (skip limit : ℕ) (db : Db)
    → IsTable db.events
    → All (IsOpen db) (admin_watch_stats skip limit db).0
unfolding admin_watch_stats
admin_watch_stats-IsOpen skip limit db tidy =
    let rows = select is_shown db.events in
    let sorted = sort_by (by_key_desc started) rows in
    All-take (IsOpen db) limit (drop skip (joined db sorted)) (
      All-drop (IsOpen db) skip (joined db sorted) (
        joined-IsOpen db sorted (
          All-sort_by (λ x. (is_shown x.0 x.1 ≡ true) × (get db.events x.0 ≡ some x.1))
            (by_key_desc started) rows (All-select is_shown db.events tidy))))
