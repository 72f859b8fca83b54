-- ===== src/Recommendations/Sound.antt =====
-- What is recommended, and that nothing is.
use filmoteka.Prelude.{
  ℕ, String, ◌≡◌, refl, Bool, true, false, ◌&&◌, some, List, [], ◌∷◌, arith, ltb, mem_nat, any, All,
  All-take, All-sort_by, IsSorted, IsSorted-take, sort_by-IsSorted, sort_by, by_key_desc,
  Bool-cases, inl, inr,
}
use filmoteka.Table.{Rows, get, get_row, select}
use filmoteka.Table.Laws.{KeysBelow, IsTable, All-select}
use filmoteka.Models.{Db}
use filmoteka.Models.Access.{User}
use filmoteka.Models.Catalog.{Film}
use filmoteka.Models.Watching.{WatchEvent}
use filmoteka.Watching.{is_media_of_film, is_recorded}
use filmoteka.Watching.Steps.{
  WatchRequest, HasOneOpen, NothingFinished, serve_all, serve_all-HasOneOpen,
  serve_all-NothingFinished,
}
use filmoteka.Users.{list_blacklist}
use filmoteka.Catalog.{age_allows, is_watched}
use filmoteka.Recommendations.{
  RecommendationItem, is_finished, is_candidate, scored, score, match_reason, score_of, distinct,
  genre_ids, person_ids, genres_in, persons_in, get_recommendations, is_empty,
}

any-finished :
    (db : Db) (user_id film_id n : ℕ) (r : Rows WatchEvent)
    → KeysBelow n r
    → ((i : ℕ) (e : WatchEvent) → get_row i r ≡ some e → e.finished ≡ false)
    → any
        (λ (i, e).
          is_recorded user_id i e && e.finished && is_media_of_film db film_id e.media_file_id)
        r
      ≡ false
unfolding any get_row
any-finished db user_id film_id n [] h none_finished = refl
any-finished db user_id film_id n ((i, e) ∷ r) h none_finished =
    let first_row : e.finished ≡ false = none_finished i e (ground arith) in
    let others : (j : ℕ) (x : WatchEvent) → get_row j r ≡ some x → x.finished ≡ false =
      λ j x found. none_finished j x (ground arith) in
    ground (arith, first_row, any-finished db user_id film_id n r h.2 others)

genres_in-none : (p : ℕ → Bool) (r : List (ℕ × ℕ)) → ((k : ℕ) → p k ≡ false) → genres_in p r ≡ []
unfolding genres_in
genres_in-none p [] h = refl
genres_in-none p ((f, g) ∷ r) h = ground (arith, h f, genres_in-none p r h)

persons_in-none :
    (p : ℕ → Bool) (r : List (ℕ × ℕ × String)) → ((k : ℕ) → p k ≡ false) → persons_in p r ≡ []
unfolding persons_in
persons_in-none p [] h = refl
persons_in-none p ((f, g, s) ∷ r) h = ground (arith, h f, persons_in-none p r h)

get_recommendations-unfinished :
    (limit user_id : ℕ) (user : User) (db : Db)
    → IsTable db.events
    → NothingFinished db
    → get_recommendations limit user_id user db ≡ []
unfolding get_recommendations genre_ids person_ids distinct is_finished is_empty get
get_recommendations-unfinished limit user_id user db tidy none_finished =
    let never : (k : ℕ) → is_finished db user_id k ≡ false =
      λ k. any-finished db user_id k db.events.next_id db.events.rows tidy none_finished in
    rw
      (
        genres_in-none (is_finished db user_id) db.film_genre never,
        persons_in-none (is_finished db user_id) db.film_person never,
      )
      refl

-- From a database whose events have unique keys, with at most one of them unfinished for a user and a media file, and where no event is
-- finished, no sequence of watch requests leads to one where a user has a recommendation from the library.
pub get_recommendations-empty :
    (rs : List WatchRequest) (limit user_id : ℕ) (user : User) (db : Db)
    → HasOneOpen db
    → NothingFinished db
    → get_recommendations limit user_id user (serve_all rs db) ≡ []
get_recommendations-empty rs limit user_id user db one_open none_finished =
    get_recommendations-unfinished limit user_id user (serve_all rs db)
      ((serve_all-HasOneOpen rs db one_open).table)
      (serve_all-NothingFinished rs db one_open none_finished)

-- A recommended film is in the library, is not on the user's blacklist, was not started by the user, is allowed by the user's age
-- group, and is no family video where the user excludes them.
abbrev pub IsRecommended : ℕ → User → Db → RecommendationItem → Type 0
IsRecommended user_id user db item =
    (f : Film) × (get db.films item.film_id ≡ some f)
    × (mem_nat item.film_id (list_blacklist user_id db) ≡ false)
    × (is_watched db user_id item.film_id ≡ false)
    × (age_allows user f ≡ true)
    × ((user.exclude_family_from_recommendations && f.is_family_video) ≡ false)
    × (ltb 0 item.score ≡ true)

is_candidate-parts :
    (db : Db) (user_id k : ℕ) (user : User) (f : Film)
    → is_candidate db user_id user k f ≡ true
    → (mem_nat k (list_blacklist user_id db) ≡ false)
      × (is_watched db user_id k ≡ false)
      × (age_allows user f ≡ true)
      × ((user.exclude_family_from_recommendations && f.is_family_video) ≡ false)
unfolding is_candidate
is_candidate-parts db user_id k user f h = ground arith

All-scored :
    (points : ℕ → ℕ) (why : ℕ → String) (user_id : ℕ) (user : User) (db : Db) (r : Rows Film)
    → All (λ x. (is_candidate db user_id user x.0 x.1 ≡ true) × (get db.films x.0 ≡ some x.1)) r
    → All (IsRecommended user_id user db) (scored points why r)
unfolding scored
All-scored points why user_id user db [] h = tt
All-scored points why user_id user db ((k, f) ∷ r) h = elim (Bool-cases (ltb 0 (points k))) [
  | inl good ↦
      rw (good, scored)
        (let parts = is_candidate-parts db user_id k user f h.0.0 in
          (
            (f, h.0.1, parts.0, parts.1, parts.2, parts.3, good),
            All-scored points why user_id user db r h.1,
          ))
  | inr bad ↦ rw (bad, scored) (All-scored points why user_id user db r h.1)
]

-- In a library whose films have unique keys, every recommendation is such a film with a positive score, and the scores never
-- increase along the list.
pub get_recommendations-IsRecommended :
    (limit user_id : ℕ) (user : User) (db : Db)
    → IsTable db.films
    → All (IsRecommended user_id user db) (get_recommendations limit user_id user db)
      × IsSorted (by_key_desc score_of) (get_recommendations limit user_id user db)
unfolding get_recommendations
get_recommendations-IsRecommended limit user_id user db tidy =
    let genres = genre_ids (is_finished db user_id) db in
    let persons = person_ids (is_finished db user_id) db in
    let items =
      scored (score db genres persons) (match_reason db genres persons)
        (select (is_candidate db user_id user) db.films) in
    elim (Bool-cases (is_empty genres && is_empty persons)) [
      | inl nothing ↦ rw (nothing, get_recommendations) (tt, tt)
      | inr something ↦
          rw (something, get_recommendations)
            (
              All-take (IsRecommended user_id user db) limit (sort_by (by_key_desc score_of) items)
                  (All-sort_by (IsRecommended user_id user db) (by_key_desc score_of) items (
                    All-scored (score db genres persons) (match_reason db genres persons) user_id
                      user db (select (is_candidate db user_id user) db.films)
                      (All-select (is_candidate db user_id user) db.films tidy))),
              IsSorted-take (by_key_desc score_of) limit (sort_by (by_key_desc score_of) items)
                  (sort_by-IsSorted score_of items),
            )
    ]
