-- ===== src/Catalog/Card.antt =====
-- The card of a film: `get_film` and `_dedup_tr_media` of src/filmoteka/api/catalog.py, and `update_film` of
-- src/filmoteka/api/admin.py.
pub mod Copies
pub mod Editing
mod Tests
use filmoteka.Prelude.{
  ℕ, zero, suc, String, Bool, true, false, not, ◌&&◌, ◌||◌, Option, none, some, List, [], ◌∷◌, ◌++◌,
  ℤ, ltb, ◌==◌, str_eq, opt_eq, or_else, if◌then◌else◌, map,
}
use filmoteka.Paths.Suffixes.{stem, inner_suffixes}
use filmoteka.Table.{Rows, get, put, select}
use filmoteka.Models.{Db}
use filmoteka.Models.Catalog.{Film, Person, Genre, MovieEdition, MediaFile}
use filmoteka.Http.{Reply, ok, raised}
use filmoteka.Importing.{str_mem}
use filmoteka.Pipeline.{on_film, update_fts_vector}

text_length : String → ℕ
text_length String.[] = 0
text_length (String.◌∷◌ c s) = suc (text_length s)

-- `s[:-3]`
without_last_three : String → String
unfolding text_length
without_last_three String.[] = ""
without_last_three (String.◌∷◌ c s) =
    let rest = without_last_three s in if ltb (text_length s) 3 then "" else String.◌∷◌ c rest

-- `".tr" in p.suffixes[:-1]`
unfoldable pub is_copy : ℕ × MediaFile → Bool
is_copy (_, m) = str_mem "tr" (inner_suffixes m.file_path)

-- The stem of the original of a copy.
unfoldable pub base : ℕ × MediaFile → String
unfolding without_last_three
base (_, m) = without_last_three (stem m.file_path)

-- `d[key] = value`
unfoldable pub dict_set {ℓ} : {A : Type ℓ} → String → A → List (String × A) → List (String × A)
dict_set k v [] = (k, v) ∷ []
dict_set k v ((j, w) ∷ rest) = if str_eq j k then (j, v) ∷ rest else (j, w) ∷ dict_set k v rest

abbrev pub Copies : Type 0
Copies = List (String × (ℕ × MediaFile))

-- The first loop: `tr_by_stem`, whose keys are `tr_stems`, and `others`.
unfoldable pub sort_out : Rows MediaFile → Copies → Rows MediaFile → Copies × Rows MediaFile
unfolding is_copy base dict_set
sort_out [] copies others = (copies, others)
sort_out (x ∷ rows) copies others =
    if is_copy x
    then sort_out rows (dict_set (base x) x copies) others
    else sort_out rows copies (others ++ x ∷ [])

abbrev pub keys : Copies → List String
keys [] = []
keys ((k, _) ∷ rest) = k ∷ keys rest

abbrev pub values : Copies → Rows MediaFile
values [] = []
values ((_, x) ∷ rest) = x ∷ values rest

abbrev pub stem_of : ℕ × MediaFile → String
stem_of (_, m) = stem m.file_path

-- The second loop.
unfoldable pub without_copy : List String → Rows MediaFile → Rows MediaFile
without_copy stems [] = []
without_copy stems (x ∷ rows) =
    let rest = without_copy stems rows in if str_mem (stem_of x) stems then rest else x ∷ rest

unfoldable pub dedup_tr_media : Rows MediaFile → Rows MediaFile
unfolding sort_out without_copy
dedup_tr_media rows =
    let sorted = sort_out rows [] [] in values sorted.0 ++ without_copy (keys sorted.0) sorted.1

pub record EditionOut : Type 0 where
  pub id : ℕ
  pub edition_name : Option String
  pub quality : Option String
  pub language : Option String
  pub media_files : Rows MediaFile

pub record FilmDetailOut : Type 0 where
  pub id : ℕ
  pub title : String
  pub year : Option ℕ
  pub description : Option String
  pub poster_url : Option String
  pub age_rating : Option String
  pub is_family_video : Bool
  pub country : Option String
  pub needs_review : Bool
  pub created_at : ℕ
  pub genres : Rows Genre
  pub persons : List (ℕ × Person × String)  -- with the role
  pub editions : List EditionOut

unfoldable pub genres_of : Db → ℕ → List (ℕ × ℕ) → Rows Genre
genres_of db film_id [] = []
genres_of db film_id ((f, g) ∷ rest) =
    let others = genres_of db film_id rest in
    if f == film_id
    then elim (get db.genres g) [ none ↦ others | some genre ↦ (g, genre) ∷ others ]
    else others

unfoldable pub persons_of : Db → ℕ → List (ℕ × ℕ × String) → List (ℕ × Person × String)
persons_of db film_id [] = []
persons_of db film_id ((f, p, role) ∷ rest) =
    let others = persons_of db film_id rest in
    if f == film_id
    then elim (get db.persons p) [ none ↦ others | some person ↦ (p, person, role) ∷ others ]
    else others

abbrev edition_out : (Rows MediaFile → Rows MediaFile) → Db → ℕ × MovieEdition → EditionOut
edition_out shown db (i, e) = record {
  id = i;
  edition_name = e.edition_name;
  quality = e.quality;
  language = e.language;
  media_files = shown (select (λ _ m. m.edition_id == i) db.media);
}

-- A reply with the poster and the country that the caller passes on.
abbrev pub detail :
    (Rows MediaFile → Rows MediaFile)
    → Option String
    → Option String
    → Db
    → ℕ
    → Film
    → FilmDetailOut
detail shown poster_url country db k film = record {
  id = k;
  title = film.title;
  year = film.year;
  description = film.description;
  poster_url = poster_url;
  age_rating = film.age_rating;
  is_family_video = film.is_family_video;
  country = country;
  needs_review = film.needs_review;
  created_at = film.created_at;
  genres = genres_of db k db.film_genre;
  persons = persons_of db k db.film_person;
  editions = map (edition_out shown db) (select (λ _ e. e.film_id == k) db.editions);
}

-- `get_film`, which leaves the poster and the country out.
unfoldable pub get_film : ℕ → Db → Reply FilmDetailOut
unfolding genres_of persons_of dedup_tr_media
get_film film_id db = elim (get db.films film_id) [
  | none ↦ raised 404 "Film not found"
  | some film ↦ ok (detail dedup_tr_media none none db film_id film)
]

-- `FilmUpdateSchema`
pub record FilmUpdate : Type 0 where
  pub title : Option String
  pub year : Option ℕ
  pub description : Option String
  pub age_rating : Option String
  pub is_family_video : Option Bool
  pub poster_url : Option String
  pub country : Option String

bool_eq : Bool → Bool → Bool
bool_eq true b = b
bool_eq false b = not b

-- A field is given and is not what the column holds.
abbrev pub differs {ℓ} : {A : Type ℓ} → (A → A → Bool) → Option A → A → Bool
differs eq none old = false
differs eq (some new) old = not (eq new old)

abbrev pub differs_opt {ℓ} : {A : Type ℓ} → (A → A → Bool) → Option A → Option A → Bool
differs_opt eq none old = false
differs_opt eq (some new) old = not (opt_eq eq (some new) old)

unfoldable pub is_changed : FilmUpdate → Film → Bool
unfolding bool_eq
is_changed body film =
    differs str_eq body.title film.title
    || differs_opt (λ a b. a == b) body.year film.year
    || differs_opt str_eq body.description film.description
    || differs_opt str_eq body.age_rating film.age_rating
    || differs bool_eq body.is_family_video film.is_family_video
    || differs_opt str_eq body.poster_url film.poster_url
    || differs_opt str_eq body.country film.country

abbrev pub given_or {ℓ} : {A : Type ℓ} → Option A → Option A → Option A
given_or none old = old
given_or (some new) old = some new

-- The columns after the assignments; one that is assigned what it holds stays as it is.
abbrev pub assigned : FilmUpdate → Film → Film
assigned body film = record film {
  title = or_else body.title film.title;
  year = given_or body.year film.year;
  description = given_or body.description film.description;
  age_rating = given_or body.age_rating film.age_rating;
  is_family_video = or_else body.is_family_video film.is_family_video;
  poster_url = given_or body.poster_url film.poster_url;
  poster_source =
      if differs_opt str_eq body.poster_url film.poster_url
      then some "manual"
      else film.poster_source;
  country = given_or body.country film.country;
}

-- "if changed"
unfoldable pub marked : Bool → ℕ → Film → Film
marked false now film = film
marked true now film = record film {
  needs_review = false;
  metadata_source = some "manual";
  metadata_confidence = some 10;
  metadata_enriched_at = some now;
}

unfoldable pub edit : ℕ → FilmUpdate → Film → Film
unfolding is_changed marked
edit now body film = marked (is_changed body film) now (assigned body film)

unfoldable pub update_film : (String → String) → ℕ → ℕ → FilmUpdate → Db → Reply FilmDetailOut × Db
unfolding edit on_film update_fts_vector genres_of persons_of
update_film to_tsvector now film_id body db = elim (get db.films film_id) [
  | none ↦ (raised 404 "Film not found", db)
  | some film ↦
      let edited = edit now body film in
      let after =
        update_fts_vector to_tsvector film_id (record db { films = put film_id edited db.films }) in
      (ok (detail (λ media. media) edited.poster_url edited.country after film_id edited), after)
]
