-- ===== src/Enriching/Untouched.antt =====
-- The films that `_run_deepseek_enrich` of src/filmoteka/api/admin.py passes over.
use mathlib.Core.Path.{subst}
use filmoteka.Prelude.{
  ℕ, String, ◌≡◌, refl, sym, ap, ◌∙◌, true, false, Option, none, some, List, [], ◌∷◌, ◌==◌, ==_iff,
  All, All-imp, arith, Bool-cases, Option-cases, inl, inr,
}
use filmoteka.Text.Regex.Sound.{some_injective}
use filmoteka.Table.{Rows, get, select}
use filmoteka.Table.Laws.{IsTable, get-put, All-select}
use filmoteka.Models.{Db}
use filmoteka.Models.Catalog.{Film}
use filmoteka.Json.{Result, value, raises}
use filmoteka.Pipeline.{
  Enrichment, Found, on_film, find_or_create_genre, link_genre, add_genres, find_or_create_person,
  link_actor, add_actors, update_fts_vector, apply_deepseek_enrichment,
}
use filmoteka.Pipeline.Run.{Stops}
use filmoteka.Aliases.{stops_now, later_stops}
use filmoteka.Enriching.{
  Enrich, EnrichRun, is_selected, other_source, record_result, enrich_loop, run_deepseek_enrich,
}

on_film-other :
    (k i : ℕ) (f : Film → Film) (db : Db)
    → (i == k) ≡ false
    → get (on_film i f db).films k ≡ get db.films k
unfolding on_film
on_film-other k i f db differ = elim (Option-cases (get db.films i)) [
  | inl e ↦ rw (on_film, e) refl
  | inr (a, e) ↦ rw (on_film, e) (ground (arith, get-put i k (f a) db.films, ==_iff i k))
]

genre-films : (name : String) (db : Db) → (find_or_create_genre name db).1.films ≡ db.films
unfolding find_or_create_genre
genre-films name db = ground arith

link_genre-films : (k : ℕ) (f : Found) → (link_genre k f).films ≡ f.1.films
unfolding link_genre
link_genre-films k (g, db) = ground arith

add_genres-films :
    (k : ℕ) (names : List String) (db : Db) → (add_genres k names db).films ≡ db.films
unfolding add_genres
add_genres-films k [] db = refl
add_genres-films k (n ∷ ns) db =
    let found = find_or_create_genre n db in
    add_genres-films k ns (link_genre k found) ∙ link_genre-films k found ∙ genre-films n db

person-films :
    (now : ℕ) (name : String) (db : Db) → (find_or_create_person now name db).1.films ≡ db.films
unfolding find_or_create_person
person-films now name db = ground arith

link_actor-films : (k : ℕ) (f : Found) → (link_actor k f).films ≡ f.1.films
unfolding link_actor
link_actor-films k (p, db) = ground arith

add_actors-films :
    (now k : ℕ) (names : List String) (db : Db) → (add_actors now k names db).films ≡ db.films
unfolding add_actors
add_actors-films now k [] db = refl
add_actors-films now k (n ∷ ns) db =
    let found = find_or_create_person now n db in
    add_actors-films now k ns (link_actor k found)
    ∙ link_actor-films k found
    ∙ person-films now n db

-- Another film is as it was after an enrichment.
enrichment-other :
    (vector : String → String) (now k i : ℕ) (result : Enrichment) (db : Db)
    → (i == k) ≡ false
    → get (apply_deepseek_enrichment vector now i result db).films k ≡ get db.films k
unfolding apply_deepseek_enrichment update_fts_vector
enrichment-other vector now k i result db differ =
    on_film-other k i _ _ differ
    ∙ on_film-other k i _ _ differ
    ∙ ap (λ films. get films k)
        (add_actors-films now i result.actors _ ∙ add_genres-films i result.genres _)
    ∙ on_film-other k i _ db differ

module _ (enrich : Enrich) (vector : String → String) (now : ℕ) where
  record_result-other :
      (k : ℕ) (x : ℕ × Film) (answer : Result (Option Enrichment)) (r : EnrichRun)
      → (x.0 == k) ≡ false
      → get (record_result enrich vector now x answer r).db.films k ≡ get r.db.films k
  unfolding record_result
  record_result-other k x (value none) r differ = refl
  record_result-other k x (value (some result)) r differ =
      enrichment-other vector now k x.0 result r.db differ
  record_result-other k x (raises e) r differ = refl

  enrich_loop-other :
      (k : ℕ) (stops : Stops) (rows : Rows Film) (r : EnrichRun)
      → All (λ x. (x.0 == k) ≡ false) rows
      → get (enrich_loop enrich vector now stops rows r).db.films k ≡ get r.db.films k
  unfolding enrich_loop
  enrich_loop-other k stops [] r differ = refl
  enrich_loop-other k stops (x ∷ rows) r differ = elim (Bool-cases (stops_now stops)) [
    | inl stopped ↦ rw (enrich_loop, stopped) refl
    | inr on ↦
        let answer = enrich x.1.title x.1.year in
        rw (enrich_loop, on)
          (enrich_loop-other k (later_stops stops) rows (record_result enrich vector now x answer r)
              differ.1
            ∙ record_result-other k x answer r differ.0)
  ]

  selected-differ :
      (k : ℕ) (film : Film) (db : Db)
      → IsTable db.films
      → get db.films k ≡ some film
      → is_selected false k film ≡ false
      → All (λ x. (x.0 == k) ≡ false) (select (is_selected false) db.films)
  selected-differ k film db tidy row passed_over =
      All-imp (λ x. (is_selected false x.0 x.1 ≡ true) × (get db.films x.0 ≡ some x.1))
        (λ x. (x.0 == k) ≡ false) (select (is_selected false) db.films)
        (λ (i, other) (chosen, there). elim (Bool-cases (i == k)) [
          | inr e ↦ e
          | inl e ↦
              let same : other ≡ film =
                some_injective
                  (sym (subst (λ j. get db.films j ≡ some other) ((==_iff i k).0 e) there) ∙ row) in
              let is_chosen : is_selected false k film ≡ true =
                subst (λ f. is_selected false k f ≡ true) same chosen in
              cc
        ])
        (All-select (is_selected false) db.films tidy)

  -- Without force, whatever the service gives for the others, a film whose metadata are from DeepSeek or have no source is left as it is.
  pub run_deepseek_enrich-Untouched :
      (stops : Stops) (db : Db) (k : ℕ) (film : Film)
      → IsTable db.films
      → get db.films k ≡ some film
      → other_source film.metadata_source ≡ false
      → get (run_deepseek_enrich enrich vector now stops false db).2.films k ≡ some film
  unfolding run_deepseek_enrich
  run_deepseek_enrich-Untouched stops db k film tidy row passed_over =
      enrich_loop-other k stops (select (is_selected false) db.films) _
        (selected-differ k film db tidy row passed_over)
      ∙ row
