-- ===== src/Metadata/Best.antt =====
-- The choice among the results of a search: `_pick_best_candidate` of src/filmoteka/infrastructure/metadata_providers.py.
use filmoteka.Prelude.{
  ℕ, String, ◌≡◌, true, Option, none, some, List, [], ◌∷◌, leb, arith, All, All-imp, IsSorted,
  sort_by, by_key_desc, sort_by-IsSorted, sort_by-perm, All-of_sort_by, Bool-cases, inl, inr,
}
use mathlib.Core.List.{Mem, mem-cons_self}
use mathlib.Core.List.Perm
use filmoteka.Metadata.{Item, candidate_score, first_if_scored, pick_best_candidate}

leb_refl : (n : ℕ) → leb n n ≡ true
leb_refl n = ground arith

-- The choice by a score among candidates: nothing where all scores are 0, or one with the greatest score.
abbrev pub IsBest : (Item → ℕ) → List Item → Option Item → Type 0
IsBest score candidates none = All (λ x. score x ≡ 0) candidates
IsBest score candidates (some best) =
    Mem best candidates
    × (leb 1 (score best) ≡ true)
    × All (λ x. leb (score x) (score best) ≡ true) candidates

first_if_scored-IsBest :
    (score : Item → ℕ) (sorted : List Item)
    → IsSorted (by_key_desc score) sorted
    → IsBest score sorted (first_if_scored score sorted)
unfolding first_if_scored
first_if_scored-IsBest score [] order = tt
first_if_scored-IsBest score (x ∷ rest) order = elim (Bool-cases (leb 1 (score x))) [
  | inl high ↦ rw (high, first_if_scored) (mem-cons_self, high, (leb_refl (score x), order.0))
  | inr low ↦
      rw (low, first_if_scored)
        (
          ground arith,
          All-imp (λ y. leb (score y) (score x) ≡ true) (λ y. score y ≡ 0) rest
              (λ y below. ground arith) order.0,
        )
]

IsBest-of_sorted :
    (score : Item → ℕ) (candidates : List Item) (chosen : Option Item)
    → IsBest score (sort_by (by_key_desc score) candidates) chosen
    → IsBest score candidates chosen
IsBest-of_sorted score candidates none h =
    All-of_sort_by (λ x. score x ≡ 0) (by_key_desc score) candidates h
IsBest-of_sorted score candidates (some best) h = (
  (Perm.mem_iff (sort_by-perm (by_key_desc score) candidates)).0 h.0,
  h.1,
  All-of_sort_by (λ x. leb (score x) (score best) ≡ true) (by_key_desc score) candidates h.2,
)

-- The candidate that is picked is one of the candidates, scores at least 1, and no candidate scores more; if none is picked, all
-- candidates score 0.
pub pick_best_candidate-IsBest :
    (candidates : List Item) (title : String) (year : Option ℕ)
    → IsBest (candidate_score title year) candidates (pick_best_candidate candidates title year)
unfolding pick_best_candidate
pick_best_candidate-IsBest candidates title year =
    let score = candidate_score title year in
    IsBest-of_sorted score candidates
      (first_if_scored score (sort_by (by_key_desc score) candidates))
      (first_if_scored-IsBest score (sort_by (by_key_desc score) candidates)
        (sort_by-IsSorted score candidates))
