-- ===== src/Table.antt =====
-- A database table as the ORM session sees it: rows by primary key in the order of insertion, and
-- the next key of the table's sequence. A query without ORDER BY returns rows in that order.
pub mod Laws
pub mod Distinct
use filmoteka.Prelude.{ℕ, suc, Bool, Option, none, some, List, [], ◌∷◌, ◌++◌, ◌==◌, if◌then◌else◌}

abbrev pub Rows {ℓ} : Type ℓ → Type ℓ
Rows A = List (ℕ × A)

pub record Table {ℓ} (A : Type ℓ) : Type ℓ where
  pub next_id : ℕ
  pub rows : Rows A

module _ {ℓ} {A : Type ℓ} where
  unfoldable pub get_row : ℕ → Rows A → Option A
  get_row k [] = none
  get_row k ((i, a) ∷ r) = if i == k then some a else get_row k r

  unfoldable pub put_row : ℕ → A → Rows A → Rows A
  put_row k v [] = []
  put_row k v ((i, a) ∷ r) = (i, if i == k then v else a) ∷ put_row k v r

  -- The rows of a query with a WHERE clause.
  unfoldable pub where_rows : (ℕ → A → Bool) → Rows A → Rows A
  where_rows p [] = []
  where_rows p ((i, a) ∷ r) = if p i a then (i, a) ∷ where_rows p r else where_rows p r

  -- What a DELETE with a WHERE clause leaves.
  unfoldable pub without_rows : (ℕ → A → Bool) → Rows A → Rows A
  without_rows p [] = []
  without_rows p ((i, a) ∷ r) = if p i a then without_rows p r else (i, a) ∷ without_rows p r

  -- `query.first()`
  unfoldable pub first_row : (ℕ → A → Bool) → Rows A → Option (ℕ × A)
  first_row p [] = none
  first_row p ((i, a) ∷ r) = if p i a then some (i, a) else first_row p r

  -- `db.get(Model, k)`
  unfoldable pub get : Table A → ℕ → Option A
  unfolding get_row
  get t k = get_row k t.rows

  -- `db.add(row)` and the flush that gives it a key
  unfoldable pub add : A → Table A → Table A
  add a t = record { next_id = suc t.next_id; rows = t.rows ++ (t.next_id, a) ∷ [] }

  -- the flush of a row whose columns were assigned
  unfoldable pub put : ℕ → A → Table A → Table A
  unfolding put_row
  put k v t = record t { rows = put_row k v t.rows }

  unfoldable pub delete : (ℕ → A → Bool) → Table A → Table A
  unfolding without_rows
  delete p t = record t { rows = without_rows p t.rows }

  unfoldable pub first : (ℕ → A → Bool) → Table A → Option (ℕ × A)
  unfolding first_row
  first p t = first_row p t.rows

  unfoldable pub select : (ℕ → A → Bool) → Table A → Rows A
  unfolding where_rows
  select p t = where_rows p t.rows

abbrev pub key_of {ℓ} : {A : Type ℓ} → ℕ × A → ℕ
key_of (k, a) = k

abbrev pub no_rows {ℓ} : {A : Type ℓ} → Table A
no_rows = record { next_id = 1; rows = [] }
