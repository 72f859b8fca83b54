-- ===== src/Table/Laws.antt =====
-- Laws of tables: keys are unique and below the sequence, and what each operation does to a lookup.
use filmoteka.Prelude.{
  ℕ, suc, ◌<◌, ◌≤◌, ◌≡◌, refl, Bool, true, false, Option, none, some, [], ◌∷◌, ◌++◌, arith, ◌==◌,
  if◌then◌else◌, Option-cases, inl, inr, All,
}
use filmoteka.Table.{
  Rows, Table, get_row, put_row, where_rows, without_rows, first_row, get, add, put, delete, first,
  select,
}

module _ {ℓ} {A : Type ℓ} where
  -- Every key lies below `n`, and none is used twice.
  abbrev pub KeysBelow : ℕ → Rows A → Type ℓ
  KeysBelow n [] = Unit
  KeysBelow n ((i, a) ∷ r) = (i < n) × (get_row i r ≡ none) × KeysBelow n r

  abbrev pub IsTable : Table A → Type ℓ
  IsTable t = KeysBelow t.next_id t.rows

  -- A statement about every row.
  abbrev pub Each {κ} : (ℕ → A → Type κ) → Table A → Type (ℓ ⊔ κ)
  Each P t = (i : ℕ) (a : A) → get t i ≡ some a → P i a

  -- The row `k` of a table in which the rows that satisfy `p` are gone.
  abbrev pub unless : Bool → Option A → Option A
  unless b none = none
  unless b (some a) = if b then none else some a

  -- The row, if there is one, with its columns assigned.
  abbrev pub replaced : A → Option A → Option A
  replaced v none = none
  replaced v (some a) = some v

  get_row-fresh : (n k : ℕ) (r : Rows A) → KeysBelow n r → n ≤ k → get_row k r ≡ none
  unfolding get_row
  get_row-fresh n k [] h le = refl
  get_row-fresh n k ((i, a) ∷ r) h le = ground (arith, get_row-fresh n k r h.2 le)

  get_row-snoc :
      (n k : ℕ) (v : A) (r : Rows A)
      → KeysBelow n r
      → get_row k (r ++ (n, v) ∷ []) ≡ (if n == k then some v else get_row k r)
  unfolding get_row
  get_row-snoc n k v [] h = refl
  get_row-snoc n k v ((i, a) ∷ r) h = ground (arith, get_row-snoc n k v r h.2)

  get_row-put_row :
      (i k : ℕ) (v : A) (r : Rows A)
      → get_row k (put_row i v r) ≡ (if i == k then replaced v (get_row k r) else get_row k r)
  unfolding get_row put_row
  get_row-put_row i k v [] = ground arith
  get_row-put_row i k v ((j, a) ∷ r) = ground (arith, get_row-put_row i k v r)

  get_row-without_rows :
      (n k : ℕ) (p : ℕ → A → Bool) (r : Rows A)
      → KeysBelow n r
      → get_row k (without_rows p r)
        ≡ elim (get_row k r) [ none ↦ none | some a ↦ if p k a then none else some a ]
  unfolding get_row without_rows
  get_row-without_rows n k p [] h = refl
  get_row-without_rows n k p ((i, a) ∷ r) h = ground (arith, get_row-without_rows n k p r h.2)

  KeysBelow-mono : (n m : ℕ) (r : Rows A) → KeysBelow n r → n ≤ m → KeysBelow m r
  KeysBelow-mono n m [] h le = tt
  KeysBelow-mono n m ((i, a) ∷ r) h le = (omega arith, h.1, KeysBelow-mono n m r h.2 le)

  KeysBelow-snoc :
      (n : ℕ) (v : A) (r : Rows A) → KeysBelow n r → KeysBelow (suc n) (r ++ (n, v) ∷ [])
  unfolding get_row
  KeysBelow-snoc n v [] h = (omega arith, refl, tt)
  KeysBelow-snoc n v ((i, a) ∷ r) h =
      ground (arith, KeysBelow-snoc n v r h.2, get_row-snoc n i v r h.2)

  KeysBelow-put_row : (n k : ℕ) (v : A) (r : Rows A) → KeysBelow n r → KeysBelow n (put_row k v r)
  unfolding put_row
  KeysBelow-put_row n k v [] h = tt
  KeysBelow-put_row n k v ((i, a) ∷ r) h =
      ground (arith, KeysBelow-put_row n k v r h.2, get_row-put_row k i v r)

  KeysBelow-without_rows :
      (n : ℕ) (p : ℕ → A → Bool) (r : Rows A) → KeysBelow n r → KeysBelow n (without_rows p r)
  unfolding without_rows
  KeysBelow-without_rows n p [] h = tt
  KeysBelow-without_rows n p ((i, a) ∷ r) h =
      ground (arith, KeysBelow-without_rows n p r h.2, get_row-without_rows n i p r h.2)

  first_row-some :
      (n : ℕ) (p : ℕ → A → Bool) (r : Rows A) (i : ℕ) (a : A)
      → KeysBelow n r
      → first_row p r ≡ some (i, a)
      → (p i a ≡ true) × (get_row i r ≡ some a)
  unfolding first_row get_row
  first_row-some n p [] i a h e = ground arith
  first_row-some n p ((j, b) ∷ r) i a h e = ground (arith, first_row-some n p r i a h.2)

  first_row-none :
      (p : ℕ → A → Bool) (r : Rows A) (i : ℕ) (a : A)
      → first_row p r ≡ none
      → get_row i r ≡ some a
      → p i a ≡ false
  unfolding first_row get_row
  first_row-none p [] i a h e = ground arith
  first_row-none p ((j, b) ∷ r) i a h e = ground (arith, first_row-none p r i a)

  pub add-IsTable : (v : A) (t : Table A) → IsTable t → IsTable (add v t)
  unfolding add
  add-IsTable v t h = KeysBelow-snoc t.next_id v t.rows h

  pub put-IsTable : (k : ℕ) (v : A) (t : Table A) → IsTable t → IsTable (put k v t)
  unfolding put
  put-IsTable k v t h = KeysBelow-put_row t.next_id k v t.rows h

  pub delete-IsTable : (p : ℕ → A → Bool) (t : Table A) → IsTable t → IsTable (delete p t)
  unfolding delete
  delete-IsTable p t h = KeysBelow-without_rows t.next_id p t.rows h

  pub get-fresh : (k : ℕ) (t : Table A) → IsTable t → t.next_id ≤ k → get t k ≡ none
  unfolding get
  get-fresh k t h le = get_row-fresh t.next_id k t.rows h le

  pub get-add :
      (k : ℕ) (v : A) (t : Table A)
      → IsTable t
      → get (add v t) k ≡ (if t.next_id == k then some v else get t k)
  unfolding get add
  get-add k v t h = get_row-snoc t.next_id k v t.rows h

  pub get-put :
      (i k : ℕ) (v : A) (t : Table A)
      → get (put i v t) k ≡ (if i == k then replaced v (get t k) else get t k)
  unfolding get put
  get-put i k v t = get_row-put_row i k v t.rows

  pub get-delete :
      (k : ℕ) (p : ℕ → A → Bool) (t : Table A)
      → IsTable t
      → get (delete p t) k
        ≡ elim (get t k) [ none ↦ none | some a ↦ if p k a then none else some a ]
  unfolding get delete
  get-delete k p t h = get_row-without_rows t.next_id k p t.rows h

  pub first-some :
      (p : ℕ → A → Bool) (t : Table A) (i : ℕ) (a : A)
      → IsTable t
      → first p t ≡ some (i, a)
      → (p i a ≡ true) × (get t i ≡ some a)
  unfolding get first
  first-some p t i a h e = first_row-some t.next_id p t.rows i a h e

  first_row-snoc :
      (p : ℕ → A → Bool) (n : ℕ) (v : A) (r : Rows A)
      → first_row p (r ++ (n, v) ∷ [])
        ≡ elim (first_row p r) [ some x ↦ some x | none ↦ if p n v then some (n, v) else none ]
  unfolding first_row
  first_row-snoc p n v [] = refl
  first_row-snoc p n v ((i, a) ∷ r) = ground (arith, first_row-snoc p n v r)

  pub first-add :
      (p : ℕ → A → Bool) (v : A) (t : Table A)
      → first p (add v t) ≡ elim (first p t) [
        | some x ↦ some x
        | none ↦ if p t.next_id v then some (t.next_id, v) else none
      ]
  unfolding first add
  first-add p v t = first_row-snoc p t.next_id v t.rows

  pub first-none :
      (p : ℕ → A → Bool) (t : Table A) (i : ℕ) (a : A)
      → first p t ≡ none
      → get t i ≡ some a
      → p i a ≡ false
  unfolding get first
  first-none p t i a e g = first_row-none p t.rows i a e g

  where_rows-disjoint :
      (p q : ℕ → A → Bool) (r : Rows A)
      → ((i : ℕ) (a : A) → q i a ≡ true → p i a ≡ false)
      → where_rows p (without_rows q r) ≡ where_rows p r
  unfolding where_rows without_rows
  where_rows-disjoint p q [] h = refl
  where_rows-disjoint p q ((i, a) ∷ r) h = ground (arith, h i a, where_rows-disjoint p q r h)

  where_rows-same : (p : ℕ → A → Bool) (r : Rows A) → where_rows p (without_rows p r) ≡ []
  unfolding where_rows without_rows
  where_rows-same p [] = refl
  where_rows-same p ((i, a) ∷ r) = ground (arith, where_rows-same p r)

  -- A query for rows that a deletion spares, and one for the rows that it removes.
  pub select-delete_disjoint :
      (p q : ℕ → A → Bool) (t : Table A)
      → ((i : ℕ) (a : A) → q i a ≡ true → p i a ≡ false)
      → select p (delete q t) ≡ select p t
  unfolding select delete
  select-delete_disjoint p q t h = where_rows-disjoint p q t.rows h

  pub select-delete_same : (p : ℕ → A → Bool) (t : Table A) → select p (delete p t) ≡ []
  unfolding select delete
  select-delete_same p t = where_rows-same p t.rows

  All-where_rows :
      (n : ℕ) (p : ℕ → A → Bool) (r : Rows A)
      → KeysBelow n r
      → (whole : Rows A) → ((i : ℕ) (a : A) → get_row i r ≡ some a → get_row i whole ≡ some a)
      → All (λ x. (p x.0 x.1 ≡ true) × (get_row x.0 whole ≡ some x.1)) (where_rows p r)
  unfolding where_rows get_row
  All-where_rows n p [] h whole inside = tt
  All-where_rows n p ((i, a) ∷ r) h whole inside =
      let rest = All-where_rows n p r h.2 whole (λ j b e. inside j b (ground arith)) in
      ground (arith, inside i a)

  -- What a query returns satisfies it and stands in the table.
  pub All-select :
      (p : ℕ → A → Bool) (t : Table A)
      → IsTable t
      → All (λ x. (p x.0 x.1 ≡ true) × (get t x.0 ≡ some x.1)) (select p t)
  unfolding select get
  All-select p t h = All-where_rows t.next_id p t.rows h t.rows (λ i a e. e)

  All-of_where_rows {κ} :
      (P : ℕ × A → Type κ) (p : ℕ → A → Bool) (r : Rows A) (k : ℕ) (v : A)
      → All P (where_rows p r)
      → get_row k r ≡ some v
      → p k v ≡ true
      → P (k, v)
  unfolding where_rows get_row
  All-of_where_rows P p [] k v h found holds = cc
  All-of_where_rows P p ((i, a) ∷ r) k v h found holds = ground (arith, All-of_where_rows P p r k v)

  -- What holds of all that a query returns holds of each row that satisfies it.
  pub All-of_select {κ} :
      (P : ℕ × A → Type κ) (p : ℕ → A → Bool) (t : Table A) (k : ℕ) (v : A)
      → All P (select p t)
      → get t k ≡ some v
      → p k v ≡ true
      → P (k, v)
  unfolding select get
  All-of_select P p t k v h found holds = All-of_where_rows P p t.rows k v h found holds

  -- A query that only one row satisfies finds it.
  pub first_unique :
      (p : ℕ → A → Bool) (t : Table A) (k : ℕ) (v : A)
      → IsTable t
      → get t k ≡ some v
      → p k v ≡ true
      → ((i : ℕ) (a : A) → get t i ≡ some a → p i a ≡ true → i ≡ k)
      → first p t ≡ some (k, v)
  first_unique p t k v h found holds only = elim (Option-cases (first p t)) [
    | inl nothing ↦ cc (first-none p t k v nothing found)
    | inr ((i, a), some_row) ↦
        let (pi, gi) = first-some p t i a h some_row in let e = only i a gi pi in ground arith
  ]

  -- A property of all rows survives an insertion, an assignment and a deletion.
  pub Each-add {κ} :
      (P : ℕ → A → Type κ) (v : A) (t : Table A)
      → IsTable t
      → Each P t
      → P t.next_id v
      → Each P (add v t)
  Each-add P v t h each new k a e = ground (arith, get-add k v t h, each k a)

  pub Each-put {κ} :
      (P : ℕ → A → Type κ) (i : ℕ) (v : A) (t : Table A) → Each P t → P i v → Each P (put i v t)
  Each-put P i v t each new k a e = ground (arith, get-put i k v t, each k a)

  pub Each-delete {κ} :
      (P : ℕ → A → Type κ) (p : ℕ → A → Bool) (t : Table A)
      → IsTable t
      → Each P t
      → Each P (delete p t)
  Each-delete P p t h each k a e = ground (arith, get-delete k p t h, each k a)
