-- ===== src/Pipeline.antt =====
-- The lookups and the enrichment of the import: src/filmoteka/domain/importing/pipeline.py. The services
-- on the network, the text search of the database and the files are parameters.
pub mod Bridge
pub mod Run
pub mod Effects
pub mod Media
pub mod Report
pub mod Cancel
mod Tests
use Prim.Native.Char.{Char, code}
use filmoteka.Prelude.{
  ℕ, String, Bool, true, false, not, ◌&&◌, ◌||◌, Option, none, some, List, [], ◌∷◌, ◌++◌, ℤ, ltb,
  ◌==◌, str_eq, opt_eq, or_else, if◌then◌else◌, keep, any,
}
use filmoteka.Text.Case.{lower, words}
use filmoteka.Paths.{concat, join}
use filmoteka.Table.{Rows, get, add, put, first}
use filmoteka.Models.{Db}
use filmoteka.Json.{Result}
use filmoteka.Models.Catalog.{Series, Film, Person, Genre, MovieEdition, MediaFile}

-- The answer of `deepseek_extract_search_info`.
pub record SearchInfo : Type 0 where
  pub title : String
  pub year : Option ℤ
  pub type : Option String

-- `DeepSeekEnrichmentResult`
pub record Enrichment : Type 0 where
  pub description : Option String
  pub country : Option String
  pub genres : List String
  pub actors : List String

-- The file of a candidate when its content is hashed; a file that cannot be read is an OSError.
pub data Content : Type 0 where
  missing unreadable : Content
  hashed : String → Content

-- `deepseek_key` and `omdb_key` say whether the keys are set.
pub record Services : Type 0 where
  pub deepseek_key : Bool
  pub omdb_key : Bool
  pub extract_search_info : String → Result SearchInfo
  pub search_poster : String → Option ℕ → Option String → Option (String × String)
  pub enrich_metadata : String → Option ℕ → Result (Option Enrichment)
  pub ilike : String → String → Bool  -- column, pattern
  pub to_tsvector : String → String
  pub content : String → Content

-- `" ".join(title.split())`
unfoldable pub normalise : String → String
unfolding words join
normalise title = join " " (words title)

-- The assignment to the columns of a film that is in the session.
unfoldable pub on_film : ℕ → (Film → Film) → Db → Db
on_film k f db = elim (get db.films k) [
  | none ↦ db
  | some film ↦ record db { films = put k (f film) db.films }
]

unfoldable pub find_media_by_path : Db → String → Option (ℕ × MediaFile)
find_media_by_path db path = first (λ _ m. str_eq m.file_path path) db.media

unfoldable pub find_media_by_content : Db → String → Option (ℕ × MediaFile)
find_media_by_content db h = first (λ _ m. opt_eq str_eq m.content_hash (some h)) db.media

-- A key and the database after it was found or made.
abbrev pub Found : Type 0
Found = ℕ × Db

unfoldable pub find_or_create_edition :
    ℕ → Option String → Option String → Option String → ℕ → Db → Found
find_or_create_edition film_id quality language edition_name now db =
    elim (first
      (λ _ e.
        (e.film_id == film_id)
        && opt_eq str_eq e.quality quality
        && opt_eq str_eq e.edition_name edition_name
        && opt_eq str_eq e.language language)
      db.editions) [
        | some (i, _) ↦ (i, db)
        | none ↦
            let e : MovieEdition = record {
              film_id = film_id;
              edition_name = edition_name;
              quality = quality;
              language = language;
              created_at = now;
            } in
            (db.editions.next_id, record db { editions = add e db.editions })
      ]

-- `str.replace` of one character.
unfoldable pub replace_char : ℕ → String → String → String
replace_char c by String.[] = ""
replace_char c by (String.◌∷◌ d s) =
    let rest = replace_char c by s in if code d == c then concat by rest else String.◌∷◌ d rest

unfoldable pub slugify : String → String
unfolding replace_char
slugify text = replace_char b'&' "and" (replace_char b'/' "-" (replace_char b' ' "-" (lower text)))

-- The loop over the genres: each is found or made by its slug, and linked once.
unfoldable pub find_or_create_genre : String → Db → Found
unfolding slugify
find_or_create_genre name db = elim (first (λ _ g. str_eq g.slug (slugify name)) db.genres) [
  | some (i, _) ↦ (i, db)
  | none ↦ (
    db.genres.next_id,
    record db { genres = add (record { name = name; slug = slugify name }) db.genres },
  )
]

unfoldable pub link_genre : ℕ → Found → Db
link_genre film_id (genre_id, db) =
    if any (λ (f, g). (f == film_id) && (g == genre_id)) db.film_genre
    then db
    else record db { film_genre = db.film_genre ++ (film_id, genre_id) ∷ [] }

unfoldable pub add_genres : ℕ → List String → Db → Db
unfolding find_or_create_genre link_genre
add_genres film_id [] db = db
add_genres film_id (name ∷ names) db =
    add_genres film_id names (link_genre film_id (find_or_create_genre name db))

unfoldable pub find_or_create_person : ℕ → String → Db → Found
find_or_create_person now name db = elim (first (λ _ p. str_eq p.name name) db.persons) [
  | some (i, _) ↦ (i, db)
  | none ↦ (
    db.persons.next_id,
    record db { persons = add (record { name = name; created_at = now }) db.persons },
  )
]

unfoldable pub link_actor : ℕ → Found → Db
link_actor film_id (person_id, db) =
    if any (λ (f, p, _). (f == film_id) && (p == person_id)) db.film_person
    then db
    else record db { film_person = db.film_person ++ (film_id, person_id, "actor") ∷ [] }

unfoldable pub add_actors : ℕ → ℕ → List String → Db → Db
unfolding find_or_create_person link_actor
add_actors now film_id [] db = db
add_actors now film_id (name ∷ names) db =
    add_actors now film_id names (link_actor film_id (find_or_create_person now name db))

-- `string_agg(Genre.name, " ")` of a film, where the empty text stands for NULL.
unfoldable pub genre_names : ℕ → Db → List (ℕ × ℕ) → List String
genre_names film_id db [] = []
genre_names film_id db ((f, g) ∷ rest) =
    let others = genre_names film_id db rest in
    if f == film_id
    then elim (get db.genres g) [ none ↦ others | some genre ↦ genre.name ∷ others ]
    else others

unfoldable pub person_names : ℕ → Db → List (ℕ × ℕ × String) → List String
person_names film_id db [] = []
person_names film_id db ((f, p, _) ∷ rest) =
    let others = person_names film_id db rest in
    if f == film_id
    then elim (get db.persons p) [ none ↦ others | some person ↦ person.name ∷ others ]
    else others

-- The texts of a film that are searched.
unfoldable pub text_parts : ℕ → Db → Film → String
unfolding genre_names person_names
text_parts film_id db film = join " " (
    keep (λ s. not (str_eq s ""))
      (film.title
        ∷ or_else film.description ""
        ∷ or_else film.episode_title ""
        ∷ join " " (genre_names film_id db db.film_genre)
        ∷ join " " (person_names film_id db db.film_person)
        ∷ []))

-- `_update_fts_vector`
unfoldable pub update_fts_vector : (String → String) → ℕ → Db → Db
unfolding on_film text_parts
update_fts_vector to_tsvector film_id db =
    on_film film_id
      (λ film. record film { fts_vector = some (to_tsvector (text_parts film_id db film)) }) db

-- A text that Python takes for true, in place of another.
abbrev pub given_text : Option String → Option String → Option String
given_text none old = old
given_text (some s) old = if str_eq s "" then old else some s

-- `_apply_deepseek_enrichment`
unfoldable pub apply_deepseek_enrichment : (String → String) → ℕ → ℕ → Enrichment → Db → Db
unfolding on_film add_genres add_actors update_fts_vector
apply_deepseek_enrichment to_tsvector now film_id result db =
    let described =
      on_film film_id
        (λ film. record film {
          description = given_text result.description film.description;
          country = given_text result.country film.country;
        })
        db in
    let linked =
      add_actors now film_id result.actors (add_genres film_id result.genres described) in
    update_fts_vector to_tsvector film_id (
      on_film film_id
        (λ film. record film {
          metadata_source = some "deepseek";
          metadata_confidence = some 9;
          metadata_enriched_at = some now;
          needs_review = false;
        })
        linked)
