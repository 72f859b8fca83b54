-- ===== src/Pipeline/Effects.antt =====
-- What an import leaves alone: the preparation of the film and of its edition does not touch the media files.
use filmoteka.Prelude.{
  ℕ, String, ◌≡◌, refl, ◌∙◌, Option, List, [], ◌∷◌, arith, Option-cases, Bool-cases, inl, inr, any,
  ◌==◌, ◌⊎◌, none, some,
}
use filmoteka.Table.{get}
use filmoteka.Models.{Db}
use filmoteka.Models.Catalog.{Film}
use filmoteka.Models.Importing.{ImportCandidate}
use filmoteka.FilenameParser.{ParsedFilename}
use filmoteka.Json.{Result, value, raises, Error}
use filmoteka.FilenameParser.Parse.{parse_filename}
use filmoteka.Pipeline.{
  Services, Enrichment, Found, on_film, find_or_create_edition, find_or_create_genre, link_genre,
  add_genres, find_or_create_person, link_actor, add_actors, update_fts_vector,
  apply_deepseek_enrichment,
}
use filmoteka.Pipeline.Bridge.{
  search_info, add_poster, reset_metadata, find_or_create_series, series_of, find_or_create_film,
  widen_years, enrich, detect_conflict, prepare,
}

-- Two databases with the same media files, watch events and users.
pub record SameFiles (a b : Db) : Type 0 where
  pub media : a.media ≡ b.media
  pub events : a.events ≡ b.events
  pub users : a.users ≡ b.users

same : (db : Db) → SameFiles db db
same db = record { media = refl; events = refl; users = refl }

trans : {a b c : Db} → SameFiles a b → SameFiles b c → SameFiles a c
trans p q = record {
  media = p.media ∙ q.media;
  events = p.events ∙ q.events;
  users = p.users ∙ q.users;
}

on_film-SameFiles : (k : ℕ) (f : Film → Film) (db : Db) → SameFiles (on_film k f db) db
unfolding on_film
on_film-SameFiles k f db = elim (Option-cases (get db.films k)) [
  | inl e ↦ rw (e, on_film) (same db)
  | inr (a, e) ↦ rw (e, on_film) (record { media = refl; events = refl; users = refl })
]

edition-SameFiles :
    (film_id : ℕ) (quality language edition_name : Option String) (now : ℕ) (db : Db)
    → SameFiles (find_or_create_edition film_id quality language edition_name now db).1 db
unfolding find_or_create_edition
edition-SameFiles film_id quality language edition_name now db = ground arith

genre-SameFiles : (name : String) (db : Db) → SameFiles (find_or_create_genre name db).1 db
unfolding find_or_create_genre
genre-SameFiles name db = ground arith

link_genre-SameFiles : (k : ℕ) (f : Found) → SameFiles (link_genre k f) f.1
unfolding link_genre
link_genre-SameFiles k (g, db) = ground arith

add_genres-SameFiles :
    (k : ℕ) (names : List String) (db : Db) → SameFiles (add_genres k names db) db
unfolding add_genres
add_genres-SameFiles k [] db = same db
add_genres-SameFiles k (n ∷ ns) db =
    let found = find_or_create_genre n db in
    trans (add_genres-SameFiles k ns (link_genre k found))
      (trans (link_genre-SameFiles k found) (genre-SameFiles n db))

person-SameFiles :
    (now : ℕ) (name : String) (db : Db) → SameFiles (find_or_create_person now name db).1 db
unfolding find_or_create_person
person-SameFiles now name db = ground arith

link_actor-SameFiles : (k : ℕ) (f : Found) → SameFiles (link_actor k f) f.1
unfolding link_actor
link_actor-SameFiles k (g, db) = ground arith

add_actors-SameFiles :
    (now k : ℕ) (names : List String) (db : Db) → SameFiles (add_actors now k names db) db
unfolding add_actors
add_actors-SameFiles now k [] db = same db
add_actors-SameFiles now k (n ∷ ns) db =
    let found = find_or_create_person now n db in
    trans (add_actors-SameFiles now k ns (link_actor k found))
      (trans (link_actor-SameFiles k found) (person-SameFiles now n db))

pub update_fts_vector-SameFiles :
    (vector : String → String) (k : ℕ) (db : Db) → SameFiles (update_fts_vector vector k db) db
unfolding update_fts_vector
update_fts_vector-SameFiles vector k db = on_film-SameFiles k _ db

pub apply_deepseek_enrichment-SameFiles :
    (vector : String → String) (now k : ℕ) (result : Enrichment) (db : Db)
    → SameFiles (apply_deepseek_enrichment vector now k result db) db
unfolding apply_deepseek_enrichment
apply_deepseek_enrichment-SameFiles vector now k result db =
    trans (update_fts_vector-SameFiles vector k _) (
      trans (on_film-SameFiles k _ _) (
        trans (add_actors-SameFiles now k result.actors _)
          (trans (add_genres-SameFiles k result.genres _) (on_film-SameFiles k _ db))))

module _ (services : Services) (now : ℕ) where
  series_of-SameFiles :
      (parsed : ParsedFilename) (db : Db) → SameFiles (series_of services now parsed db).1 db
  unfolding series_of find_or_create_series
  series_of-SameFiles parsed db = ground arith

  find_or_create_film-SameFiles :
      (parsed : ParsedFilename) (s : Option ℕ) (db : Db)
      → SameFiles (find_or_create_film services now parsed s db).1 db
  unfolding find_or_create_film
  find_or_create_film-SameFiles parsed s db = ground arith

  widen_years-SameFiles :
      (s y : Option ℕ) (db : Db) → SameFiles (widen_years services now s y db) db
  unfolding widen_years
  widen_years-SameFiles s y db = ground arith

  enriched-cases :
      (answer : Result (Option Enrichment))
      → ((x : Error) × (answer ≡ raises x))
        ⊎ (answer ≡ value none)
        ⊎ ((r : Enrichment) × (answer ≡ value (some r)))
  enriched-cases (raises x) = inl (x, refl)
  enriched-cases (value none) = inr (inl refl)
  enriched-cases (value (some r)) = inr (inr (r, refl))

  enrich-SameFiles :
      (parsed : ParsedFilename) (k : ℕ) (db : Db) → SameFiles (enrich services now parsed k db).1 db
  unfolding enrich
  enrich-SameFiles parsed k db = elim (Bool-cases services.deepseek_key) [
    | inr off ↦ rw (off, enrich) (same db)
    | inl is_on ↦ elim (enriched-cases (services.enrich_metadata parsed.title parsed.year)) [
      | inl (x, e) ↦ rw (is_on, e, enrich) (same db)
      | inr (inl e) ↦ rw (is_on, e, enrich) (same db)
      | inr (inr (r, e)) ↦
          rw (is_on, e, enrich)
            (apply_deepseek_enrichment-SameFiles services.to_tsvector now k r db)
    ]
  ]

  detect_conflict-SameFiles :
      (k e : ℕ) (db : Db) → SameFiles (detect_conflict services now k e db) db
  unfolding detect_conflict
  detect_conflict-SameFiles k e db =
      elim (Bool-cases (any (λ (i, m). m.edition_id == e) db.media.rows)) [
        | inl b ↦ rw (b, detect_conflict) (on_film-SameFiles k _ db)
        | inr b ↦ rw (b, detect_conflict) (same db)
      ]

  pub prepare-SameFiles :
      (c : ImportCandidate) (db : Db) → SameFiles (prepare services now c db).1 db
  unfolding prepare
  prepare-SameFiles c db =
      let parsed = parse_filename c.file_path in
      let in_series = series_of services now parsed db in
      let film = find_or_create_film services now parsed in_series.0 in_series.1 in
      let described =
        on_film film.0
          (λ f.
            add_poster services now parsed (search_info services now c.file_path)
              (reset_metadata services now parsed f))
          (widen_years services now in_series.0 parsed.year film.1) in
      let enriched = enrich services now parsed film.0 described in
      let kept = trans (enrich-SameFiles parsed film.0 described) (
        trans (on_film-SameFiles film.0 _ _) (
          trans (widen_years-SameFiles in_series.0 parsed.year film.1) (
            trans (find_or_create_film-SameFiles parsed in_series.0 in_series.1)
              (series_of-SameFiles parsed db)))) in
      elim (Bool-cases enriched.0) [
        | inl raised ↦ rw (prepare, raised) kept
        | inr ended ↦
            rw (prepare, ended)
              (trans (detect_conflict-SameFiles film.0 _ _) (
                trans
                  (edition-SameFiles film.0 parsed.quality parsed.language parsed.edition_type now
                    enriched.1)
                  kept))
      ]
