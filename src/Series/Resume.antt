-- ===== src/Series/Resume.antt =====
-- The episode to resume, in `series_continue` of src/filmoteka/api/series.py.
use filmoteka.Prelude.{
  ℕ, ◌≡◌, refl, ◌∙◌, ap, Bool, true, false, not, ◌&&◌, some, ◌∷◌, leb, opt_eq, ◌==◌, All,
  All-sort_by, All-of_sort_by, sort_by-IsSorted, sort_by, by_key_desc, arith, Option-cases,
  List-cases, inl, inr,
}
use filmoteka.Table.{Rows, get, select}
use filmoteka.Table.Laws.{IsTable, All-select, All-of_select}
use filmoteka.Models.{Db}
use filmoteka.Models.Access.{User}
use filmoteka.Models.Catalog.{Film, MediaFile}
use filmoteka.Models.Watching.{WatchEvent}
use filmoteka.Http.{ok}
use filmoteka.Watching.Listings.{film_of_media, started}
use filmoteka.Series.{SeriesContinueOut}
use filmoteka.Series.Playing.{
  is_series_media, is_resumable, continue_event, continue_out, series_continue,
}

-- The reply resumes an event.
abbrev pub Resumes : SeriesContinueOut → WatchEvent → Type 0
Resumes out e = (out.media_id ≡ some e.media_file_id) × (out.last_position ≡ some e.last_position)

-- A media file of a series leads to a film of the series.
series_media-film :
    (db : Db) (series_id m : ℕ)
    → is_series_media db series_id m ≡ true
    → (x : ℕ × Film) × (film_of_media m db ≡ some x)
      × (opt_eq (λ a b. a == b) x.1.series_id (some series_id) ≡ true)
unfolding is_series_media
series_media-film db series_id m h = elim (Option-cases (film_of_media m db)) [
  | inl missing ↦ cc (rw (missing, is_series_media) at h)
  | inr (x, found) ↦ (x, found, rw (found, is_series_media) at h)
]

film_of_media-row :
    (db : Db) (m : ℕ) (x : ℕ × Film)
    → film_of_media m db ≡ some x
    → (mf : MediaFile) × (get db.media m ≡ some mf)
unfolding film_of_media
film_of_media-row db m x h = elim (Option-cases (get db.media m)) [
  | inl missing ↦ cc (rw (missing, film_of_media) at h)
  | inr found ↦ found
]

continue_event-first :
    (series_id : ℕ) (db : Db) (j : ℕ) (e : WatchEvent) (rest : Rows WatchEvent)
    → is_series_media db series_id e.media_file_id ≡ true
    → (out : SeriesContinueOut) × (continue_event series_id db ((j, e) ∷ rest) ≡ ok out)
      × Resumes out e
unfolding continue_event
continue_event-first series_id db j e rest in_series =
    let (x, found, same) = series_media-film db series_id e.media_file_id in_series in
    let (mf, row) = film_of_media-row db e.media_file_id x found in
    (continue_out e mf x.1, rw (row, found, same, continue_event) refl, (refl, refl))

some_row :
    (p : ℕ → WatchEvent → Bool) (db : Db) (k : ℕ) (e : WatchEvent)
    → get db.events k ≡ some e
    → p k e ≡ true
    → (x : ℕ × WatchEvent) × (rest : Rows WatchEvent) × (sort_by
          (by_key_desc started)
          (select p db.events)
        ≡ x ∷ rest)
some_row p db k e stored holds =
    elim (List-cases (sort_by (by_key_desc started) (select p db.events))) [
      | inr found ↦ found
      | inl empty ↦
          let P : ℕ × WatchEvent → Type 0 = (λ _. true ≡ false) in
          let nothing : All P (sort_by (by_key_desc started) (select p db.events)) = rw empty tt in
          let absurd =
            All-of_select P p db.events k e
              (All-of_sort_by P (by_key_desc started) (select p db.events) nothing) stored holds in
          cc absurd
    ]

leb_refl : (n : ℕ) → leb n n ≡ true
leb_refl n = ground arith

first_test : (a b c d : Bool) → (a && b && c && d) ≡ true → a ≡ true
first_test a b c d h = ground arith

resumable-series :
    (db : Db) (series_id user_id j : ℕ) (e : WatchEvent)
    → is_resumable db series_id user_id j e ≡ true
    → is_series_media db series_id e.media_file_id ≡ true
unfolding is_resumable
resumable-series db series_id user_id j e h =
    first_test (is_series_media db series_id e.media_file_id) (e.user_id == user_id)
      (not e.finished) (not e.incognito) h

-- If the user has an event in the series that is neither finished nor incognito, the reply resumes such an event: its media file, at
-- its position; and no other such event was started later.
pub series_continue_latest :
    (series_id user_id : ℕ) (user : User) (db : Db) (k : ℕ) (e : WatchEvent)
    → IsTable db.events
    → get db.events k ≡ some e
    → is_resumable db series_id user_id k e ≡ true
    → (out : SeriesContinueOut) × (j : ℕ) × (latest : WatchEvent) × (series_continue series_id
          (some (user_id, user))
          db
        ≡ ok out)
      × Resumes out latest
      × (get db.events j ≡ some latest)
      × (is_resumable db series_id user_id j latest ≡ true)
      × All
          (λ x. leb x.1.started_at latest.started_at ≡ true)
          (select (is_resumable db series_id user_id) db.events)
unfolding series_continue
series_continue_latest series_id user_id user db k e tidy stored open_one =
    let p = is_resumable db series_id user_id in
    let order = by_key_desc started in
    let found = select p db.events in
    let ((j, latest), rest, start) = some_row p db k e stored open_one in
    let facts =
      (rw start at (
        All-sort_by (λ x. (p x.0 x.1 ≡ true) × (get db.events x.0 ≡ some x.1)) order found
          (All-select p db.events tidy))).0 in
    let sorted = rw start at (sort_by-IsSorted started found) in
    let Later = λ (x : ℕ × WatchEvent). leb x.1.started_at latest.started_at ≡ true in
    let all : All Later (sort_by order found) = rw start (leb_refl latest.started_at, sorted.0) in
    let (out, reply, resumes) =
      continue_event-first series_id db j latest rest
        (resumable-series db series_id user_id j latest facts.0) in
    (
      out,
      j,
      latest,
      ap (continue_event series_id db) start ∙ reply,
      resumes,
      facts.1,
      facts.0,
      All-of_sort_by Later order found all,
    )
