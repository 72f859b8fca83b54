-- ===== src/Series/Seasons.antt =====
-- The seasons of a series, in `get_series` of src/filmoteka/api/series.py.
use filmoteka.Prelude.{
  ℕ, append_snoc, append_nil, nil_append, suc, ◌+◌, ◌≡◌, refl, sym, ◌∙◌, ap, Bool, true, false,
  some, List, [], ◌∷◌, ◌++◌, ◌==◌, or_else, if◌then◌else◌, keep, map, length, length-append,
  length-map, length-sort_by, All, IsSorted, sort_by, insert_by, by_key, arith, ltb, Bool-cases,
  inl, inr,
}
use filmoteka.Table.{Rows, get, get_row, key_of}
use filmoteka.Table.Distinct.{DistinctKeys, keys_rise, get_row-sort_by, sort_by-rises}
use filmoteka.Models.{Db}
use filmoteka.Models.Catalog.{Film, Series}
use filmoteka.Http.{ok}
use filmoteka.Series.{
  EpisodeOut, detail_of, SeasonGroup, SeriesDetailOut, films_of, first_media_id, Groups, append_to,
  season_of, by_season, episode_key, episode_out, season_group, get_series,
}

-- The films of a group.
abbrev group_of : ℕ → Groups → Rows Film
group_of n groups = or_else (get_row n groups) []

get_row-append_to :
    (n m : ℕ) (f : ℕ × Film) (groups : Groups)
    → group_of n (append_to m f groups)
      ≡ (if m == n then group_of n groups ++ f ∷ [] else group_of n groups)
unfolding append_to get_row
get_row-append_to n m f [] = ground arith
get_row-append_to n m f ((i, fs) ∷ rest) = ground (arith, get_row-append_to n m f rest)

group_of-by_season :
    (n : ℕ) (films : Rows Film) (groups : Groups)
    → group_of n (by_season films groups) ≡ group_of n groups ++ keep (λ f. season_of f == n) films
unfolding by_season keep
group_of-by_season n [] groups = sym (append_nil (group_of n groups))
group_of-by_season n (f ∷ films) groups =
    let later = keep (λ x. season_of x == n) films in
    let step = group_of-by_season n films (append_to (season_of f) f groups) in
    elim (Bool-cases (season_of f == n)) [
      | inl here ↦
          step
          ∙ ap (◌++ later) (get_row-append_to n (season_of f) f groups)
          ∙ rw here (append_snoc (group_of n groups) f later)
      | inr there ↦
          step ∙ ap (◌++ later) (get_row-append_to n (season_of f) f groups) ∙ rw there refl
    ]

group_of-all :
    (n : ℕ) (films : Rows Film)
    → group_of n (by_season films []) ≡ keep (λ f. season_of f == n) films
unfolding get_row
group_of-all n films =
    group_of-by_season n films [] ∙ nil_append (keep (λ f. season_of f == n) films)

All-differs-append_to :
    (i n : ℕ) (f : ℕ × Film) (groups : Groups)
    → (i == n) ≡ false
    → All (λ y. (i == y.0) ≡ false) groups
    → All (λ y. (i == y.0) ≡ false) (append_to n f groups)
unfolding append_to
All-differs-append_to i n f [] new h = (new, tt)
All-differs-append_to i n f ((m, fs) ∷ rest) new h =
    ground (arith, All-differs-append_to i n f rest new h.1)

DistinctKeys-append_to :
    (n : ℕ) (f : ℕ × Film) (groups : Groups)
    → DistinctKeys groups
    → DistinctKeys (append_to n f groups)
unfolding append_to
DistinctKeys-append_to n f [] h = (tt, tt)
DistinctKeys-append_to n f ((m, fs) ∷ rest) h = elim (Bool-cases (m == n)) [
  | inl same ↦ rw same h
  | inr other ↦
      rw other (All-differs-append_to m n f rest other h.0, DistinctKeys-append_to n f rest h.1)
]

DistinctKeys-by_season :
    (films : Rows Film) (groups : Groups)
    → DistinctKeys groups
    → DistinctKeys (by_season films groups)
unfolding by_season
DistinctKeys-by_season [] groups h = h
DistinctKeys-by_season (f ∷ films) groups h =
    DistinctKeys-by_season films (append_to (season_of f) f groups)
      (DistinctKeys-append_to (season_of f) f groups h)

-- The number of films in all groups.
total : Groups → ℕ
total [] = 0
total ((n, fs) ∷ rest) = length fs + total rest

total-append_to :
    (n : ℕ) (f : ℕ × Film) (groups : Groups) → total (append_to n f groups) ≡ suc (total groups)
unfolding append_to total
total-append_to n f [] = refl
total-append_to n f ((m, fs) ∷ rest) =
    ground (arith, total-append_to n f rest, length-append fs (f ∷ []))

total-by_season :
    (films : Rows Film) (groups : Groups)
    → total (by_season films groups) ≡ length films + total groups
unfolding by_season
total-by_season [] groups = omega arith
total-by_season (f ∷ films) groups = omega (
  arith,
  total-by_season films (append_to (season_of f) f groups),
  total-append_to (season_of f) f groups,
)

total-all : (films : Rows Film) → total (by_season films []) ≡ length films
unfolding total
total-all films = omega (arith, total-by_season films [])

total-insert_by :
    (le : ℕ × Rows Film → ℕ × Rows Film → Bool) (x : ℕ × Rows Film) (groups : Groups)
    → total (insert_by le x groups) ≡ total (x ∷ groups)
unfolding insert_by total
total-insert_by le (n, fs) [] = refl
total-insert_by le (n, fs) ((m, gs) ∷ rest) = ground (arith, total-insert_by le (n, fs) rest)

total-sort_by :
    (le : ℕ × Rows Film → ℕ × Rows Film → Bool) (groups : Groups)
    → total (sort_by le groups) ≡ total groups
unfolding sort_by total
total-sort_by le [] = refl
total-sort_by le ((n, fs) ∷ rest) =
    omega (arith, total-insert_by le (n, fs) (sort_by le rest), total-sort_by le rest)

-- The episodes that the detail shows under a season.
abbrev pub episodes_of : ℕ → List SeasonGroup → List EpisodeOut
episodes_of n [] = []
episodes_of n (g ∷ rest) = if g.season_number == n then g.episodes else episodes_of n rest

abbrev pub count_episodes : List SeasonGroup → ℕ
count_episodes [] = 0
count_episodes (g ∷ rest) = length g.episodes + count_episodes rest

abbrev pub season_rises : SeasonGroup → SeasonGroup → Bool
season_rises a b = ltb a.season_number b.season_number

abbrev sorted_out : Db → Rows Film → List EpisodeOut
sorted_out db films = map (episode_out (first_media_id db)) (sort_by (by_key episode_key) films)

episodes_of-groups :
    (n : ℕ) (db : Db) (groups : Groups)
    → episodes_of n (map (season_group db) groups) ≡ sorted_out db (group_of n groups)
unfolding get_row sort_by
episodes_of-groups n db [] = refl
episodes_of-groups n db ((m, fs) ∷ rest) = ground (arith, episodes_of-groups n db rest)

count_episodes-groups :
    (db : Db) (groups : Groups) → count_episodes (map (season_group db) groups) ≡ total groups
unfolding total
count_episodes-groups db [] = refl
count_episodes-groups db ((n, fs) ∷ rest) = omega (
  arith,
  count_episodes-groups db rest,
  length-map (episode_out (first_media_id db)) (sort_by (by_key episode_key) fs),
  length-sort_by (by_key episode_key) fs,
)

All-map_groups :
    (db : Db) (n : ℕ) (fs : Rows Film) (groups : Groups)
    → All (λ y. ltb n y.0 ≡ true) groups
    → All (λ g. season_rises (season_group db (n, fs)) g ≡ true) (map (season_group db) groups)
All-map_groups db n fs [] h = tt
All-map_groups db n fs ((m, gs) ∷ rest) h = (h.0, All-map_groups db n fs rest h.1)

groups-rise :
    (db : Db) (groups : Groups)
    → IsSorted keys_rise groups
    → IsSorted season_rises (map (season_group db) groups)
groups-rise db [] h = tt
groups-rise db ((n, fs) ∷ rest) h = (All-map_groups db n fs rest h.0, groups-rise db rest h.1)

-- The detail of a series that exists shows seasons whose numbers rise. Under a number it shows the films of the series in that
-- season, where a film without a season counts as in season 0, sorted by episode number, and the numbers of episodes of all
-- seasons add up to the count of episodes, which is the number of films of the series.
pub get_series_exact :
    (db : Db) (series_id : ℕ) (s : Series)
    → get db.series series_id ≡ some s
    → (detail : SeriesDetailOut) × (get_series series_id db ≡ ok detail)
      × IsSorted season_rises detail.seasons
      × ((n : ℕ)
          → episodes_of n detail.seasons
            ≡ map (episode_out (first_media_id db)) (
                sort_by
                  (by_key episode_key)
                  (keep (λ f. season_of f == n) (films_of db series_id))))
      × (count_episodes detail.seasons ≡ detail.episode_count)
      × (detail.episode_count ≡ length (films_of db series_id))
unfolding get_series
get_series_exact db series_id s found =
    let films = films_of db series_id in
    let groups = by_season films [] in
    let sorted = sort_by (by_key key_of) groups in
    let distinct = DistinctKeys-by_season films [] tt in
    (
      detail_of db series_id s,
      rw (found, get_series) refl,
      groups-rise db sorted (sort_by-rises groups distinct),
      (λ n.
          episodes_of-groups n db sorted
          ∙ ap (λ o. sorted_out db (or_else o []))
              (get_row-sort_by (by_key key_of) n groups distinct)
          ∙ ap (sorted_out db) (group_of-all n films)),
      count_episodes-groups db sorted ∙ total-sort_by (by_key key_of) groups ∙ total-all films,
      refl,
    )
