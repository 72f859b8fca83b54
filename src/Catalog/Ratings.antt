-- ===== src/Catalog/Ratings.antt =====
-- The age restriction of a child's account.
use mathlib.Core.Path.{subst}
use filmoteka.Prelude.{
  ℕ, String, ◌≡◌, inl, inr, refl, Bool, true, false, none, some, List, [], ◌∷◌, arith, leb, str_eq,
  eq_iff, Bool-cases, Option-cases,
}
use filmoteka.Models.Access.{User}
use filmoteka.Models.Catalog.{Film}
use filmoteka.Catalog.{lookup, age_group_max, age_rating_values, in_allowed, age_allows}

-- A film that may be shown to a child up to an age: one without a rating, or with a known rating of at most that age.
abbrev pub is_suitable : ℕ → Film → Bool
unfolding lookup
is_suitable max_age f = elim f.age_rating [
  | none ↦ true
  | some rating ↦ elim (lookup rating age_rating_values) [ none ↦ false | some v ↦ leb v max_age ]
]

abbrev Distinct {ℓ} : {A : Type ℓ} → List (String × A) → Type ℓ
unfolding lookup
Distinct [] = Unit
Distinct ((x, a) ∷ r) = (lookup x r ≡ none) × Distinct r

in_allowed-none :
    (k : String) (m : ℕ) (r : List (String × ℕ)) → lookup k r ≡ none → in_allowed k m r ≡ false
unfolding in_allowed lookup
in_allowed-none k m [] h = refl
in_allowed-none k m ((x, v) ∷ r) h = ground (arith, in_allowed-none k m r)

in_allowed-lookup :
    (k : String) (m : ℕ) (r : List (String × ℕ))
    → Distinct r
    → in_allowed k m r ≡ elim (lookup k r) [ none ↦ false | some v ↦ leb v m ]
unfolding in_allowed lookup
in_allowed-lookup k m [] h = refl
in_allowed-lookup k m ((x, v) ∷ r) h = elim (Bool-cases (str_eq x k)) [
  | inl same ↦
      let gone : lookup k r ≡ none = subst (λ z. lookup z r ≡ none) ((eq_iff x k).0 same) (h.0) in
      ground (arith, in_allowed-none k m r gone)
  | inr differ ↦ ground (arith, in_allowed-lookup k m r h.1)
]

age_rating_values-Distinct : Distinct age_rating_values
unfolding lookup
age_rating_values-Distinct = (refl, (refl, (refl, (refl, (refl, tt)))))

-- A child of a known age group is shown exactly the films that are suitable for the age of the group.
pub age_allows-child :
    (user : User) (group : String) (max_age : ℕ) (f : Film)
    → user.role ≡ "child"
    → user.age_group ≡ some group
    → lookup group age_group_max ≡ some max_age
    → age_allows user f ≡ is_suitable max_age f
unfolding age_allows
age_allows-child user group max_age f child in_group known =
    rw (child, in_group, known, age_allows)
      (elim (Option-cases f.age_rating) [
        | inl e ↦ rw (e) refl
        | inr (rating, e) ↦
            rw (e) (in_allowed-lookup rating max_age age_rating_values age_rating_values-Distinct)
      ])
