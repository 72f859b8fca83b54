-- ===== src/Series/Counts.antt =====
-- The counts of episodes that the endpoints of src/filmoteka/api/series.py show.
use filmoteka.Prelude.{
  ℕ, ◌≡◌, refl, ◌∙◌, ap, Bool, true, ◌&&◌, none, some, List, [], ◌∷◌, String, length, length-map,
  length-take, length-sort_by, take, drop, map, ◌==◌, opt_eq, All, All-imp, All-take, All-drop,
  All-sort_by, arith, sort_by,
}
use filmoteka.Table.{Rows, Table, get, get_row, select, where_rows}
use filmoteka.Table.Laws.{IsTable, All-select}
use filmoteka.Models.{Db}
use filmoteka.Models.Catalog.{Series}
use filmoteka.Http.{ok}
use filmoteka.Series.{
  SeriesListItem, EpisodeOut, SeriesDetailOut, films_of, detail_of, by_title, list_item,
  episode_out, by_episode, in_season, list_series, get_series, list_episodes,
}

module _ {ℓ} {A : Type ℓ} where
  where_rows-ext :
      (p q : ℕ → A → Bool) (r : Rows A)
      → ((i : ℕ) (a : A) → p i a ≡ q i a)
      → where_rows p r ≡ where_rows q r
  unfolding where_rows
  where_rows-ext p q [] same = refl
  where_rows-ext p q ((i, a) ∷ r) same = rw (same i a, where_rows-ext p q r same) refl

  where_rows-all : (r : Rows A) → where_rows (λ _ _. true) r ≡ r
  unfolding where_rows
  where_rows-all [] = refl
  where_rows-all ((i, a) ∷ r) = ap ((i, a) ∷◌) (where_rows-all r)

  -- Every row of a table is found under its key.
  All-rows : (t : Table A) → IsTable t → All (λ x. get t x.0 ≡ some x.1) t.rows
  unfolding select get
  All-rows t tidy =
      All-imp (λ x. (true ≡ true) × (get_row x.0 t.rows ≡ some x.1))
        (λ x. get_row x.0 t.rows ≡ some x.1) t.rows (λ x h. h.1)
        (rw (where_rows-all t.rows) at (All-select (λ _ _. true) t tidy))

-- What an item of the list says is what the other endpoints say of its series.
abbrev pub Agrees : Db → SeriesListItem → Type 0
Agrees db item =
    (detail : SeriesDetailOut) × (episodes : List EpisodeOut) × (get_series item.id db ≡ ok detail)
    × (list_episodes item.id none 0 item.episode_count db ≡ ok (episodes, item.episode_count))
    × (detail.title ≡ item.title)
    × (detail.episode_count ≡ item.episode_count)
    × (length episodes ≡ item.episode_count)

and_true : (b : Bool) → (b && true) ≡ b
and_true b = ground arith

films_of-eq :
    (db : Db) (k : ℕ)
    → select (λ i f. opt_eq (λ a b. a == b) f.series_id (some k) && in_season none i f) db.films
      ≡ films_of db k
unfolding films_of select in_season
films_of-eq db k =
    where_rows-ext (λ i f. opt_eq (λ a b. a == b) f.series_id (some k) && true)
      (λ i f. opt_eq (λ a b. a == b) f.series_id (some k)) db.films.rows
      (λ i f. and_true (opt_eq (λ a b. a == b) f.series_id (some k)))

list_item-Agrees :
    (db : Db) (k : ℕ) (s : Series) → get db.series k ≡ some s → Agrees db (list_item db (k, s))
unfolding get_series list_episodes
list_item-Agrees db k s found =
    let sorted = sort_by by_episode (films_of db k) in
    (
      detail_of db k s,
      map (episode_out (λ _. none)) (take (length (films_of db k)) sorted),
      rw (found, get_series) refl,
      rw (found, films_of-eq db k, list_episodes) refl,
      refl,
      refl,
      length-map (episode_out (λ _. none)) (take (length (films_of db k)) sorted)
          ∙ omega (
            arith,
            length-take (length (films_of db k)) sorted,
            length-sort_by by_episode (films_of db k),
          ),
    )

All-map_items :
    (db : Db) (rows : Rows Series)
    → All (λ x. get db.series x.0 ≡ some x.1) rows
    → All (Agrees db) (map (list_item db) rows)
All-map_items db [] h = tt
All-map_items db ((k, s) ∷ rows) h = (list_item-Agrees db k s h.0, All-map_items db rows h.1)

-- Each item of a page of the list of series agrees with the detail of its series in the title and the count of episodes, and the
-- list of its episodes has that total and, asked for as many from the first on, that many items.
pub list_series-Agrees :
    (collates : String → String → Bool) (skip limit : ℕ) (db : Db)
    → IsTable db.series
    → All (Agrees db) (list_series collates skip limit db).0
unfolding list_series
list_series-Agrees collates skip limit db tidy =
    let Found = λ (x : ℕ × Series). get db.series x.0 ≡ some x.1 in
    let sorted = sort_by (by_title collates) db.series.rows in
    All-map_items db (take limit (drop skip sorted)) (
      All-take Found limit (drop skip sorted) (
        All-drop Found skip sorted
          (All-sort_by Found (by_title collates) db.series.rows (All-rows db.series tidy))))
