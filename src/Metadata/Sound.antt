-- ===== src/Metadata/Sound.antt =====
-- Where a poster comes from, in src/filmoteka/infrastructure/metadata_providers.py.
use mathlib.Core.List.{Mem, mem-cons_self, mem-cons_of_mem}
use filmoteka.Prelude.{
  ℕ, String, ◌≡◌, ◌≢◌, ◌⊎◌, refl, true, false, not, ◌&&◌, Option, none, some, List, [], ◌∷◌, str_eq,
  eq_iff, arith, Option-cases, Bool-cases, inl, inr,
}
use filmoteka.Metadata.{
  Service, Sent, Params, Asked, Item, Body, accepted, extract_poster, first_poster, from_omdb,
  body_poster, results_poster, results_or_none, body_results, request, lookup_by_id, best_poster,
  pick_best_candidate, imdb_id_of, omdb_get, omdb_get_by_imdb_id, omdb_search, omdb_v2_exact,
  omdb_v2_search_fallback, or_then, try_types, types_to_try, candidate_score, title_params,
  omdb_search_poster, omdb_search_poster_v2,
}
use filmoteka.Metadata.Best.{IsBest, pick_best_candidate-IsBest}

-- The item that shows the poster stands in the body, as its own or among its results.
abbrev pub Holds : Body → Item → Type 0
Holds body x =
    (body.item ≡ x) ⊎ ((results : List Item) × (body.search ≡ some results) × Mem x results)

-- The service has answered some request with an item of that poster.
abbrev pub IsOffered : Service → String → Type 0
IsOffered service url =
    (sent : Sent) × (params : Params) × (body : Body) × (x : Item) × (accepted (service sent params)
      ≡ some body)
    × Holds body x
    × (x.poster ≡ some url)

-- What a search may give.
abbrev pub IsSound : Service → Option (String × String) → Type 0
IsSound service none = Unit
IsSound service (some (url, source)) =
    (source ≡ "omdb") × (url ≢ "") × (url ≢ "N/A") × IsOffered service url

extract_poster-url :
    (x : Item) (url : String)
    → extract_poster x ≡ some url
    → (x.poster ≡ some url) × (url ≢ "") × (url ≢ "N/A")
unfolding extract_poster
extract_poster-url x url h = elim (Option-cases x.poster) [
  | inl missing ↦ cc (rw (missing, extract_poster) at h)
  | inr (s, shown) ↦ elim (Bool-cases (not (str_eq s "") && not (str_eq s "N/A"))) [
    | inr bad ↦ cc (rw (shown, bad, extract_poster) at h)
    | inl good ↦
        let same = rw (shown, good, extract_poster) at h in
        ground (arith, shown, same, good, eq_iff s "", eq_iff s "N/A")
  ]
]

found-IsSound :
    (service : Service) (sent : Sent) (params : Params) (body : Body) (x : Item) (url : String)
    → accepted (service sent params) ≡ some body
    → Holds body x
    → extract_poster x ≡ some url
    → IsSound service (some (url, "omdb"))
found-IsSound service sent params body x url answered holds shown =
    let facts = extract_poster-url x url shown in
    (refl, facts.1, facts.2, (sent, params, body, x, answered, holds, facts.0))

-- The own poster of a body.
body_poster-IsSound :
    (service : Service) (sent : Sent) (params : Params)
    → IsSound service (from_omdb (body_poster (accepted (service sent params))))
body_poster-IsSound service sent params = elim (Option-cases (accepted (service sent params))) [
  | inl refused ↦ rw refused tt
  | inr (body, answered) ↦ elim (Option-cases (extract_poster body.item)) [
    | inl no_poster ↦ rw (answered, no_poster) tt
    | inr (url, shown) ↦
        rw (answered, shown)
          (found-IsSound service sent params body body.item url answered (inl refl) shown)
  ]
]

-- A poster among results.
first_poster-Mem :
    (items : List Item) (url : String)
    → first_poster items ≡ some url
    → (x : Item) × Mem x items × (extract_poster x ≡ some url)
unfolding first_poster
first_poster-Mem [] url h = cc h
first_poster-Mem (x ∷ rest) url h = elim (Option-cases (extract_poster x)) [
  | inl no_poster ↦
      let (y, inside, shown) = first_poster-Mem rest url (rw (no_poster, first_poster) at h) in
      (y, mem-cons_of_mem x inside, shown)
  | inr (s, poster) ↦ (x, mem-cons_self, ground (arith, poster, rw (poster, first_poster) at h))
]

results_or_none-some :
    (o : Option (List Item)) (results : List Item)
    → results_or_none o ≡ some results
    → o ≡ some results
results_or_none-some none results h = cc h
results_or_none-some (some []) results h = cc h
results_or_none-some (some (x ∷ xs)) results h = h

body_results-some :
    (answer : Option Body) (results : List Item)
    → body_results answer ≡ some results
    → (body : Body) × (answer ≡ some body) × (body.search ≡ some results)
body_results-some none results h = cc h
body_results-some (some body) results h = (body, refl, results_or_none-some body.search results h)

-- A poster of one of the results of a search.
found_in_results :
    (service : Service) (sent : Sent) (params : Params) (results : List Item) (x : Item)
    (url : String)
    → body_results (accepted (service sent params)) ≡ some results
    → Mem x results
    → extract_poster x ≡ some url
    → IsSound service (some (url, "omdb"))
found_in_results service sent params results x url answered inside shown =
    let (body, body_is, search) =
      body_results-some (accepted (service sent params)) results answered in
    found-IsSound service sent params body x url body_is (inr (results, search, inside)) shown

results_poster-IsSound :
    (service : Service) (sent : Sent) (params : Params)
    → IsSound service (from_omdb (results_poster (body_results (accepted (service sent params)))))
results_poster-IsSound service sent params =
    elim (Option-cases (body_results (accepted (service sent params)))) [
      | inl no_results ↦ rw no_results tt
      | inr (results, answered) ↦ elim (Option-cases (first_poster results)) [
        | inl no_poster ↦ rw (answered, no_poster) tt
        | inr (url, first) ↦
            let (x, inside, shown) = first_poster-Mem results url first in
            rw (answered, first)
              (found_in_results service sent params results x url answered inside shown)
      ]
    ]

module _ (service : Service) (api_key : String) where
  lookup_by_id-IsSound :
      (imdb_id : Option String) (sent : Sent)
      → IsSound service (lookup_by_id service api_key imdb_id sent).0
  unfolding lookup_by_id omdb_get_by_imdb_id request
  lookup_by_id-IsSound none sent = tt
  lookup_by_id-IsSound (some imdb_id) sent =
      body_poster-IsSound service sent (("apikey", api_key) ∷ ("i", imdb_id) ∷ [])

  best_poster-IsSound :
      (asked : Sent) (params : Params) (results : List Item) (title : String) (year : Option ℕ)
      (best : Option Item) (sent : Sent)
      → body_results (accepted (service asked params)) ≡ some results
      → IsBest (candidate_score title year) results best
      → IsSound service (best_poster service api_key best sent).0
  unfolding best_poster
  best_poster-IsSound asked params results title year none sent answered picked = tt
  best_poster-IsSound asked params results title year (some best) sent answered picked =
      elim (Option-cases (extract_poster best)) [
        | inl no_poster ↦ rw (no_poster, best_poster) (lookup_by_id-IsSound (imdb_id_of best) sent)
        | inr (url, shown) ↦
            rw (shown, best_poster)
              (found_in_results service asked params results best url answered picked.0 shown)
      ]

  exact-IsSound :
      (title : String) (year : Option ℕ) (type : Option String) (sent : Sent)
      → IsSound service (omdb_v2_exact service api_key title year type sent).0
  unfolding omdb_v2_exact omdb_get request
  exact-IsSound title year type sent =
      body_poster-IsSound service sent (title_params api_key title year true type)

  search_fallback-IsSound :
      (title : String) (year : Option ℕ) (type : Option String) (sent : Sent)
      → IsSound service (omdb_v2_search_fallback service api_key title year type sent).0
  unfolding omdb_v2_search_fallback omdb_search omdb_get request
  search_fallback-IsSound title year type sent =
      let params = title_params api_key title year false type in
      elim (Option-cases (omdb_search service api_key title year type sent).0) [
        | inl no_results ↦ rw (no_results, omdb_v2_search_fallback) tt
        | inr (results, answered) ↦
            rw (answered, omdb_v2_search_fallback)
              (best_poster-IsSound sent params results title year
                (pick_best_candidate results title year) (params ∷ sent) answered
                (pick_best_candidate-IsBest results title year))
      ]

  or_then-IsSound :
      (r : Asked (Option (String × String))) (next : Sent → Asked (Option (String × String)))
      → IsSound service r.0
      → ((asked : Sent) → IsSound service (next asked).0)
      → IsSound service (or_then r next).0
  or_then-IsSound (some found, asked) next h more = h
  or_then-IsSound (none, asked) next h more = more asked

  try_types-IsSound :
      (title : String) (year : Option ℕ) (types : List (Option String)) (sent : Sent)
      → IsSound service (try_types service api_key title year types sent).0
  unfolding try_types omdb_search omdb_get request
  try_types-IsSound title year [] sent =
      results_poster-IsSound service sent (title_params api_key title none false none)
  try_types-IsSound title year (type ∷ types) sent =
      or_then-IsSound (omdb_v2_exact service api_key title year type sent)
        (λ asked.
          or_then (omdb_v2_search_fallback service api_key title year type asked)
            (λ later. try_types service api_key title year types later))
        (exact-IsSound title year type sent)
        (λ asked.
          or_then-IsSound (omdb_v2_search_fallback service api_key title year type asked)
            (λ later. try_types service api_key title year types later)
            (search_fallback-IsSound title year type asked)
            (λ later. try_types-IsSound title year types later))

  -- A poster that the search gives is named as one of "omdb", is neither empty nor "N/A", and stands in an answer that the service
  -- gives to a request, at the item itself or among its results.
  pub omdb_search_poster_v2-IsSound :
      (title : String) (year : Option ℕ) (type : Option String) (sent : Sent)
      → IsSound service (omdb_search_poster_v2 service api_key title year type sent).0
  unfolding omdb_search_poster_v2
  omdb_search_poster_v2-IsSound title year type sent =
      try_types-IsSound title year (types_to_try type) sent

  -- The legacy search gives posters under the same condition.
  pub omdb_search_poster-IsSound :
      (title : String) (year : Option ℕ) (sent : Sent)
      → IsSound service (omdb_search_poster service api_key title year sent).0
  unfolding omdb_search_poster omdb_search omdb_get request
  omdb_search_poster-IsSound title year sent =
      or_then-IsSound (omdb_v2_exact service api_key title year none sent)
        (λ asked.
          let results = omdb_search service api_key title year none asked in
          (from_omdb (results_poster results.0), results.1))
        (exact-IsSound title year none sent)
        (λ asked. results_poster-IsSound service asked (title_params api_key title year false none))
