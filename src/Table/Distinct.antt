-- ===== src/Table/Distinct.antt =====
-- Rows with keys that differ: what a selection gives, and what a sort keeps.
use filmoteka.Prelude.{
  ℕ, ◌≡◌, refl, ◌∙◌, Bool, true, false, none, some, [], ◌∷◌, ltb, leb, ◌==◌, if◌then◌else◌, All,
  All-insert_by, All-sort_by, IsSorted, sort_by, insert_by, by_key, arith, Bool-cases, inl, inr,
}
use filmoteka.Table.{Rows, Table, get, get_row, select, where_rows, key_of}
use filmoteka.Table.Laws.{IsTable, KeysBelow}

module _ {ℓ} {A : Type ℓ} where
  -- The keys of a list of rows differ.
  abbrev pub DistinctKeys : Rows A → Type 0
  DistinctKeys [] = Unit
  DistinctKeys ((i, a) ∷ r) = All (λ y. (i == y.0) ≡ false) r × DistinctKeys r

  All-differs : (i : ℕ) (r : Rows A) → get_row i r ≡ none → All (λ y. (i == y.0) ≡ false) r
  unfolding get_row
  All-differs i [] h = tt
  All-differs i ((k, a) ∷ r) h = ground (arith, All-differs i r)

  All-where {κ} :
      (P : ℕ × A → Type κ) (p : ℕ → A → Bool) (r : Rows A) → All P r → All P (where_rows p r)
  unfolding where_rows
  All-where P p [] h = tt
  All-where P p ((k, a) ∷ r) h = ground (arith, All-where P p r h.1)

  DistinctKeys-where_rows :
      (n : ℕ) (p : ℕ → A → Bool) (r : Rows A) → KeysBelow n r → DistinctKeys (where_rows p r)
  unfolding where_rows
  DistinctKeys-where_rows n p [] h = tt
  DistinctKeys-where_rows n p ((k, a) ∷ r) h = ground (
    arith,
    All-where (λ y. (k == y.0) ≡ false) p r (All-differs k r h.1),
    DistinctKeys-where_rows n p r h.2,
  )

  DistinctKeys-insert_by :
      (le : ℕ × A → ℕ × A → Bool) (i : ℕ) (a : A) (r : Rows A)
      → All (λ y. (i == y.0) ≡ false) r
      → DistinctKeys r
      → DistinctKeys (insert_by le (i, a) r)
  unfolding insert_by
  DistinctKeys-insert_by le i a [] fresh h = (tt, tt)
  DistinctKeys-insert_by le i a ((k, b) ∷ r) fresh h = elim (Bool-cases (le (i, a) (k, b))) [
    | inl before ↦ rw before (fresh, h)
    | inr after ↦ rw after (
      All-insert_by (λ y. (k == y.0) ≡ false) le (i, a) r (ground (arith, fresh.0)) h.0,
      DistinctKeys-insert_by le i a r fresh.1 h.1,
    )
  ]

  pub DistinctKeys-sort_by :
      (le : ℕ × A → ℕ × A → Bool) (r : Rows A) → DistinctKeys r → DistinctKeys (sort_by le r)
  unfolding sort_by
  DistinctKeys-sort_by le [] h = tt
  DistinctKeys-sort_by le ((i, a) ∷ r) h =
      DistinctKeys-insert_by le i a (sort_by le r) (All-sort_by (λ y. (i == y.0) ≡ false) le r h.0)
        (DistinctKeys-sort_by le r h.1)

  pub DistinctKeys-select : (p : ℕ → A → Bool) (t : Table A) → IsTable t → DistinctKeys (select p t)
  unfolding select
  DistinctKeys-select p t h = DistinctKeys-where_rows t.next_id p t.rows h

  get_row-insert_by :
      (le : ℕ × A → ℕ × A → Bool) (n i : ℕ) (a : A) (r : Rows A)
      → All (λ y. (i == y.0) ≡ false) r
      → get_row n (insert_by le (i, a) r) ≡ get_row n ((i, a) ∷ r)
  unfolding insert_by get_row
  get_row-insert_by le n i a [] fresh = refl
  get_row-insert_by le n i a ((k, b) ∷ r) fresh = elim (Bool-cases (le (i, a) (k, b))) [
    | inl before ↦ rw before refl
    | inr after ↦
        rw (after, get_row) (ground (arith, fresh.0, get_row-insert_by le n i a r fresh.1))
  ]

  -- A sort keeps what the lookup of a key finds.
  pub get_row-sort_by :
      (le : ℕ × A → ℕ × A → Bool) (n : ℕ) (r : Rows A)
      → DistinctKeys r
      → get_row n (sort_by le r) ≡ get_row n r
  unfolding sort_by get_row
  get_row-sort_by le n [] h = refl
  get_row-sort_by le n ((i, a) ∷ r) h =
      get_row-insert_by le n i a (sort_by le r) (All-sort_by (λ y. (i == y.0) ≡ false) le r h.0)
      ∙ ground (arith, get_row-sort_by le n r h.1)

  abbrev pub keys_rise : ℕ × A → ℕ × A → Bool
  keys_rise (k, a) (i, b) = ltb k i

  All-above :
      (i k : ℕ) (r : Rows A)
      → ltb i k ≡ true
      → All (λ y. ltb k y.0 ≡ true) r
      → All (λ y. ltb i y.0 ≡ true) r
  All-above i k [] low h = tt
  All-above i k ((j, b) ∷ r) low h = (ground (arith, h.0), All-above i k r low h.1)

  insert_by-rises :
      (i : ℕ) (a : A) (r : Rows A)
      → All (λ y. (i == y.0) ≡ false) r
      → IsSorted keys_rise r
      → IsSorted keys_rise (insert_by (by_key key_of) (i, a) r)
  unfolding insert_by
  insert_by-rises i a [] fresh h = (tt, tt)
  insert_by-rises i a ((k, b) ∷ r) fresh h = elim (Bool-cases (leb i k)) [
    | inl before ↦
        let low : ltb i k ≡ true = ground (arith, fresh.0) in
        rw before ((low, All-above i k r low h.0), h)
    | inr after ↦ rw after (
      All-insert_by (λ y. ltb k y.0 ≡ true) (by_key key_of) (i, a) r (ground arith) h.0,
      insert_by-rises i a r fresh.1 h.1,
    )
  ]

  -- Sorted by keys that differ, the keys rise.
  pub sort_by-rises : (r : Rows A) → DistinctKeys r → IsSorted keys_rise (sort_by (by_key key_of) r)
  unfolding sort_by
  sort_by-rises [] h = tt
  sort_by-rises ((i, a) ∷ r) h =
      insert_by-rises i a (sort_by (by_key key_of) r)
        (All-sort_by (λ y. (i == y.0) ≡ false) (by_key key_of) r h.0) (sort_by-rises r h.1)

  -- What a selection finds under a key is what the rows have there, if it satisfies the condition.
  get_row-where_rows :
      (n k : ℕ) (p : ℕ → A → Bool) (r : Rows A)
      → KeysBelow n r
      → get_row k (where_rows p r)
        ≡ elim (get_row k r) [ none ↦ none | some a ↦ if p k a then some a else none ]
  unfolding where_rows get_row
  get_row-where_rows n k p [] h = refl
  get_row-where_rows n k p ((i, a) ∷ r) h = ground (arith, h.1, get_row-where_rows n k p r h.2)

  pub get_row-select :
      (k : ℕ) (p : ℕ → A → Bool) (t : Table A)
      → IsTable t
      → get_row k (select p t)
        ≡ elim (get t k) [ none ↦ none | some a ↦ if p k a then some a else none ]
  unfolding select get
  get_row-select k p t h = get_row-where_rows t.next_id k p t.rows h

  pub get_row-differs : (i : ℕ) (r : Rows A) → All (λ y. (i == y.0) ≡ false) r → get_row i r ≡ none
  unfolding get_row
  get_row-differs i [] h = refl
  get_row-differs i ((k, a) ∷ r) h = ground (arith, h.0, get_row-differs i r h.1)
