-- ===== src/Series/Adjacent.antt =====
-- The episodes before and after an episode, in `adjacent_episode` of src/filmoteka/api/media.py.
use filmoteka.Prelude.{
  ℕ, ◌≡◌, refl, sym, ap, ◌∙◌, Bool, true, false, not, ◌&&◌, Option, none, some, [], ◌∷◌, ◌==◌,
  opt_eq, is_none, All, All-sort_by, by_key, arith, Bool-cases, Option-cases, List-cases, inl, inr,
  ==_iff,
}
use filmoteka.Table.{Rows, get, select}
use filmoteka.Table.Distinct.{DistinctKeys, DistinctKeys-sort_by, DistinctKeys-select}
use filmoteka.Table.Laws.{IsTable, All-select}
use filmoteka.Models.{Db}
use filmoteka.Models.Catalog.{Film, MovieEdition, MediaFile}
use filmoteka.Http.{Reply, ok, raised}
use filmoteka.Watching.Listings.{film_of_media}
use filmoteka.Series.{first_of_editions, first_media_id, episode_key}
use filmoteka.Series.Playing.{
  episode_films, head_of, neighbours, adjacent_of, AdjacentEpisodeOut, adjacent_episode,
}

head_of-All {κ} :
    (P : ℕ × Film → Type κ) (films : Rows Film) (x : ℕ × Film)
    → All P films
    → head_of films ≡ some x
    → P x
head_of-All P [] x all h = cc h
head_of-All P (y ∷ films) x all h = ground (arith, all.0)

-- What holds of all episodes holds of the one that comes after.
neighbours-All {κ} :
    (P : ℕ × Film → Type κ) (k : ℕ) (before : Option (ℕ × Film)) (films : Rows Film) (x : ℕ × Film)
    → All P films
    → (neighbours k before films).1 ≡ some x
    → P x
unfolding neighbours
neighbours-All P k before [] x all h = cc h
neighbours-All P k before ((i, f) ∷ rest) x all h = elim (Bool-cases (i == k)) [
  | inl here ↦ head_of-All P rest x all.1 (rw (here, neighbours) at h)
  | inr there ↦ neighbours-All P k (some (i, f)) rest x all.1 (rw (there, neighbours) at h)
]

head_before :
    (i : ℕ) (f : Film) (before : Option (ℕ × Film)) (rest : Rows Film) (n : ℕ) (g : Film)
    → All (λ y. (i == y.0) ≡ false) rest
    → head_of rest ≡ some (n, g)
    → (neighbours n before ((i, f) ∷ rest)).0 ≡ some (i, f)
unfolding neighbours
head_before i f before [] n g differs h = cc h
head_before i f before ((j, e) ∷ rest) n g differs h = ground (arith, differs.0)

-- The one after has the first one before it.
neighbours_back :
    (k : ℕ) (before : Option (ℕ × Film)) (films : Rows Film) (n : ℕ) (g : Film)
    → DistinctKeys films
    → (neighbours k before films).1 ≡ some (n, g)
    → (f : Film) × ((neighbours n before films).0 ≡ some (k, f))
unfolding neighbours
neighbours_back k before [] n g distinct h = cc h
neighbours_back k before ((i, f) ∷ rest) n g distinct h = elim (Bool-cases (i == k)) [
  | inl here ↦
      (f, ground (arith, head_before i f before rest n g distinct.0 (rw (here, neighbours) at h)))
  | inr there ↦
      let h' = rw (there, neighbours) at h in
      let other =
        neighbours-All (λ y. (i == y.0) ≡ false) k (some (i, f)) rest (n, g) distinct.0 h' in
      let found = neighbours_back k (some (i, f)) rest n g distinct.1 h' in
      (found.0, ground (arith, other, found.1))
]

-- The media file of a row that the selection for an edition starts with.
media-chain :
    (db : Db) (k : ℕ) (f : Film) (i : ℕ) (e : MovieEdition) (m : ℕ) (mf : MediaFile)
    → get db.films k ≡ some f
    → (e.film_id == k) ≡ true
    → get db.editions i ≡ some e
    → (mf.edition_id == i) ≡ true
    → get db.media m ≡ some mf
    → film_of_media m db ≡ some (k, f)
unfolding film_of_media
media-chain db k f i e m mf film of_film edition of_edition media =
    ground
      (arith, film, of_film, edition, of_edition, media, ==_iff e.film_id k, ==_iff mf.edition_id i)

-- The first media file of a film leads back to the film.
first_of_editions-chain :
    (db : Db) (k : ℕ) (f : Film) (rows : Rows MovieEdition) (m : ℕ)
    → IsTable db.media
    → get db.films k ≡ some f
    → All (λ x. ((x.1.film_id == k) ≡ true) × (get db.editions x.0 ≡ some x.1)) rows
    → first_of_editions db rows ≡ some m
    → film_of_media m db ≡ some (k, f)
unfolding first_of_editions film_of_media
first_of_editions-chain db k f [] m tidy film all h = cc h
first_of_editions-chain db k f ((i, e) ∷ rest) m tidy film all h =
    let of_edition = select (λ _ m. m.edition_id == i) db.media in
    elim (List-cases of_edition) [
      | inl empty ↦
          first_of_editions-chain db k f rest m tidy film all.1 (rw (empty, first_of_editions) at h)
      | inr ((j, mf), others, start) ↦
          let rows = All-select (λ _ m. m.edition_id == i) db.media tidy in
          let first = (rw start at rows).0 in
          let here = rw (start, first_of_editions) at h in
          let chain = media-chain db k f i e j mf film all.0.0 all.0.1 first.0 first.1 in
          let same : j ≡ m = ground (arith, here) in rw same at chain
    ]

first_media_id-film :
    (db : Db) (k : ℕ) (f : Film) (m : ℕ)
    → IsTable db.media
    → IsTable db.editions
    → get db.films k ≡ some f
    → first_media_id db k ≡ some m
    → film_of_media m db ≡ some (k, f)
unfolding first_media_id
first_media_id-film db k f m tidy_media tidy film h =
    first_of_editions-chain db k f (select (λ _ e. e.film_id == k) db.editions) m tidy_media film
      (All-select (λ _ e. e.film_id == k) db.editions tidy) h

opt_eq-nat_iff : (a b : Option ℕ) → opt_eq (λ x y. x == y) a b ≡ true → a ≡ b
opt_eq-nat_iff none none h = refl
opt_eq-nat_iff none (some b) h = cc h
opt_eq-nat_iff (some a) none h = cc h
opt_eq-nat_iff (some a) (some b) h = ground (arith, ==_iff a b)

same_season :
    (series_id : ℕ) (season : Option ℕ) (g : Film)
    → (opt_eq (λ a b. a == b) g.series_id (some series_id)
        && opt_eq (λ a b. a == b) g.season_number season
        && not (is_none g.episode_number))
      ≡ true
    → (g.series_id ≡ some series_id) × (g.season_number ≡ season)
same_season series_id season g h =
    ground
      (arith, opt_eq-nat_iff g.series_id (some series_id), opt_eq-nat_iff g.season_number season)

-- The next episode of a season is a film of the series, and the film before it is the one that it follows.
adjacent_of-back :
    (db : Db) (series_id : ℕ) (k : ℕ) (f : Film) (n : ℕ) (g : Film)
    → IsTable db.films
    → (neighbours k none (episode_films series_id f.season_number db)).1 ≡ some (n, g)
    → (get db.films n ≡ some g)
      × (g.series_id ≡ some series_id)
      × ((adjacent_of db series_id (n, g)).prev_media_id ≡ first_media_id db k)
unfolding adjacent_of episode_films
adjacent_of-back db series_id k f n g tidy next =
    let p : ℕ → Film → Bool = (λ _ x.
      opt_eq (λ a b. a == b) x.series_id (some series_id)
      && opt_eq (λ a b. a == b) x.season_number f.season_number
      && not (is_none x.episode_number)) in
    let facts =
      neighbours-All (λ x. (p x.0 x.1 ≡ true) × (get db.films x.0 ≡ some x.1)) k none
        (episode_films series_id f.season_number db) (n, g)
        (All-sort_by (λ x. (p x.0 x.1 ≡ true) × (get db.films x.0 ≡ some x.1)) (by_key episode_key)
          (select p db.films) (All-select p db.films tidy))
        next in
    let back =
      neighbours_back k none (episode_films series_id f.season_number db) n g
        (DistinctKeys-sort_by (by_key episode_key) (select p db.films)
          (DistinctKeys-select p db.films tidy))
        next in
    let same = same_season series_id f.season_number g facts.0 in
    (facts.1, same.0, rw (same.1, back.1) refl)

adjacent_episode-of :
    (db : Db) (m series_id k : ℕ) (f : Film)
    → film_of_media m db ≡ some (k, f)
    → f.series_id ≡ some series_id
    → adjacent_episode m db ≡ ok (adjacent_of db series_id (k, f))
unfolding adjacent_episode film_of_media
adjacent_episode-of db m series_id k f film in_series = elim (Option-cases (get db.media m)) [
  | inl missing ↦ cc (rw (missing, film_of_media) at film)
  | inr (mf, found) ↦ rw (found, film, in_series, adjacent_episode) refl
]

ok_value : AdjacentEpisodeOut → Reply AdjacentEpisodeOut → AdjacentEpisodeOut
ok_value default (ok a) = a
ok_value default (raised c s) = default

ok-inj : {a b : AdjacentEpisodeOut} → ok a ≡ ok b → a ≡ b
unfolding ok_value
ok-inj {a} {b} h = ap (ok_value a) h

adjacent_of-next :
    (db : Db) (series_id : ℕ) (x : ℕ × Film) (next : ℕ)
    → (adjacent_of db series_id x).next_media_id ≡ some next
    → (n : ℕ) × (g : Film) × ((neighbours x.0 none (episode_films series_id x.1.season_number db)).1
        ≡ some (n, g))
      × (first_media_id db n ≡ some next)
unfolding adjacent_of
adjacent_of-next db series_id (k, f) next h =
    elim (Option-cases (neighbours k none (episode_films series_id f.season_number db)).1) [
      | inl last ↦ cc (rw last at h)
      | inr ((n, g), found) ↦ (n, g, found, rw found at h)
    ]

-- If the reply for the first media file of an episode of a series names a next media file, then the reply for that one, which is
-- of the same series, names the first as the previous media file.
pub adjacent_episode-back :
    (db : Db) (m series_id k : ℕ) (f : Film) (out : AdjacentEpisodeOut) (next : ℕ)
    → IsTable db.films
    → IsTable db.editions
    → IsTable db.media
    → get db.films k ≡ some f
    → f.series_id ≡ some series_id
    → first_media_id db k ≡ some m
    → adjacent_episode m db ≡ ok out
    → out.next_media_id ≡ some next
    → (out_next : AdjacentEpisodeOut) × (adjacent_episode next db ≡ ok out_next)
      × (out_next.series_id ≡ some series_id)
      × (out_next.prev_media_id ≡ some m)
unfolding adjacent_of
adjacent_episode-back db m series_id k f out next films editions media film in_series first_m reply
      named =
    let computed =
      adjacent_episode-of db m series_id k f
        (first_media_id-film db k f m media editions film first_m) in_series in
    let same : adjacent_of db series_id (k, f) ≡ out = ok-inj (sym computed ∙ reply) in
    let (n, g, found, first_n) =
      adjacent_of-next db series_id (k, f) next (ap (λ o. o.next_media_id) same ∙ named) in
    let (row, of_series, back) = adjacent_of-back db series_id k f n g films found in
    (
      adjacent_of db series_id (n, g),
      adjacent_episode-of db next series_id n g
          (first_media_id-film db n g next media editions row first_n) of_series,
      refl,
      back ∙ first_m,
    )
