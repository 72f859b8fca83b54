-- ===== src/Watching/History.antt =====
-- What the history shows, and what clearing it leaves.
use Prim.Native.Nat.{min}
use filmoteka.Prelude.{
  ℕ, zero, suc, ◌-◌, ◌≡◌, ◌≢◌, refl, ◌∙◌, ap, true, false, Option, some, List, [], ◌∷◌, arith,
  Option-cases, inl, inr, All, All-take, All-drop, length, length-take, length-drop, take, drop,
  sort_by, by_key_desc, IsSorted, sort_by-IsSorted, IsSorted-take, IsSorted-drop, All-sort_by,
  length-sort_by,
}
use filmoteka.Table.{Rows, get, select}
use filmoteka.Table.Laws.{IsTable, All-select, select-delete_disjoint, select-delete_same}
use filmoteka.Models.{Db}
use filmoteka.Models.Watching.{WatchEvent}
use filmoteka.Http.{ok}
use filmoteka.Watching.{is_recorded, clear_watch_history}
use filmoteka.Watching.Listings.{
  HistoryItem, history_item, film_of_media, all_some, started, history_page, history_reply,
  watch_history,
}

history_reply-none : (skip limit : ℕ) (db : Db) → history_reply skip limit db [] ≡ ok ([], 0)
unfolding history_reply sort_by
history_reply-none zero zero db = refl
history_reply-none zero (suc limit) db = refl
history_reply-none (suc skip) zero db = refl
history_reply-none (suc skip) (suc limit) db = refl

-- After a user clears the history, every page of it is empty and its total is 0, and every page of any other user's
-- history is as before.
pub history-clear :
    (u v skip limit : ℕ) (db : Db)
    → v ≢ u
    → (watch_history skip limit u (clear_watch_history u db).1 ≡ ok ([], 0))
      × (watch_history skip limit v (clear_watch_history u db).1 ≡ watch_history skip limit v db)
unfolding watch_history clear_watch_history history_item film_of_media
history-clear u v skip limit db other =
    let after = (clear_watch_history u db).1 in
    (
      ap (history_reply skip limit after) (select-delete_same (is_recorded u) db.events)
          ∙ history_reply-none skip limit after,
      ap (history_reply skip limit after) (
          select-delete_disjoint (is_recorded v) (is_recorded u) db.events
            (λ i e h. ground (arith, other))),
    )

module _ {ℓ κ} {A : Type ℓ} {B : Type κ} (f : A → Option B) where
  all_some-cons :
      (x : A) (xs : List A) (ys : List B)
      → all_some f (x ∷ xs) ≡ some ys
      → (z : B) × (zs : List B) × (f x ≡ some z) × (all_some f xs ≡ some zs) × (ys ≡ z ∷ zs)
  unfolding all_some
  all_some-cons x xs ys h = elim (Option-cases (f x)) [
    | inl fails ↦ cc (rw (fails, all_some) at h)
    | inr (z, e) ↦ elim (Option-cases (all_some f xs)) [
      | inl fails ↦ cc (rw (e, fails, all_some) at h)
      | inr (zs, es) ↦ (z, zs, e, es, ground arith)
    ]
  ]

  length-all_some : (xs : List A) (ys : List B) → all_some f xs ≡ some ys → length ys ≡ length xs
  unfolding all_some
  length-all_some [] ys h = ground arith
  length-all_some (x ∷ xs) ys h =
      let (z, zs, e, es, same) = all_some-cons x xs ys h in ground (arith, length-all_some xs zs es)

  All-all_some {μ ν} :
      (P : A → Type μ) (Q : B → Type ν)
      → ((x : A) (y : B) → f x ≡ some y → P x → Q y)
      → (xs : List A) (ys : List B) → all_some f xs ≡ some ys
      → All P xs
      → All Q ys
  unfolding all_some
  All-all_some P Q step [] [] h p = tt
  All-all_some P Q step [] (y ∷ ys) h p = cc
  All-all_some P Q step (x ∷ xs) ys h p =
      let (z, zs, e, es, same) = all_some-cons x xs ys h in
      rw same (step x z e p.0, All-all_some P Q step xs zs es p.1)

  -- The fields of a comprehension keep the order of its source.
  IsSorted-all_some :
      (key : A → ℕ) (key' : B → ℕ)
      → ((x : A) (y : B) → f x ≡ some y → key' y ≡ key x)
      → (xs : List A) (ys : List B) → all_some f xs ≡ some ys
      → IsSorted (by_key_desc key) xs
      → IsSorted (by_key_desc key') ys
  unfolding all_some
  IsSorted-all_some key key' same [] [] h s = tt
  IsSorted-all_some key key' same [] (y ∷ ys) h s = cc
  IsSorted-all_some key key' same (x ∷ xs) ys h s =
      let (z, zs, e, es, is) = all_some-cons x xs ys h in
      rw is (
        All-all_some (λ a. by_key_desc key x a ≡ true) (λ b. by_key_desc key' z b ≡ true)
            (λ a b fa le. ground (arith, same x z e, same a b fa)) xs zs es s.0,
        IsSorted-all_some key key' same xs zs es s.1,
      )

-- An item of the history of `u` is that of a recorded event.
abbrev pub IsHistoryOf : ℕ → Db → HistoryItem → Type 0
IsHistoryOf u db item =
    (e : WatchEvent) × (get db.events item.watch_event_id ≡ some e)
    × (e.user_id ≡ u)
    × (e.incognito ≡ false)
    × (item.started_at ≡ e.started_at)
    × (item.last_position ≡ e.last_position)

history_item-fields :
    (u : ℕ) (db : Db) (x : ℕ × WatchEvent) (item : HistoryItem)
    → history_item db x ≡ some item
    → (is_recorded u x.0 x.1 ≡ true) × (get db.events x.0 ≡ some x.1)
    → IsHistoryOf u db item
unfolding history_item
history_item-fields u db (i, e) item h (recorded, stored) =
    (e, ground arith, ground arith, ground arith, ground arith, ground arith)

history_item-started :
    (db : Db) (x : ℕ × WatchEvent) (item : HistoryItem)
    → history_item db x ≡ some item
    → item.started_at ≡ x.1.started_at
unfolding history_item
history_item-started db (i, e) item h = ground arith

history_reply-ok :
    (skip limit : ℕ) (db : Db) (rows : Rows WatchEvent) (items : List HistoryItem) (total : ℕ)
    → history_reply skip limit db rows ≡ ok (items, total)
    → (all_some (history_item db) (history_page skip limit rows) ≡ some items)
      × (total ≡ length rows)
unfolding history_reply
history_reply-ok skip limit db rows items total h =
    elim (Option-cases (all_some (history_item db) (history_page skip limit rows))) [
      | inl fails ↦ ground arith
      | inr (found, e) ↦ ground arith
    ]

-- A page of the history, in a table of events with unique keys: it has the items that remain after `skip`, up to `limit`; they are
-- ordered from the most recent to the oldest; and each is the item of an event of the user that was
-- not watched incognito.
pub watch_history_page :
    (skip limit u : ℕ) (db : Db) (items : List HistoryItem) (total : ℕ)
    → IsTable db.events
    → watch_history skip limit u db ≡ ok (items, total)
    → (length items ≡ min limit (total - skip))
      × IsSorted (by_key_desc (λ (item : HistoryItem). item.started_at)) items
      × All (IsHistoryOf u db) items
unfolding watch_history history_page
watch_history_page skip limit u db items total t h =
    let rows = select (is_recorded u) db.events in
    let sorted = sort_by (by_key_desc started) rows in
    let (e, total_is) = history_reply-ok skip limit db rows items total h in
    (
      omega (
        arith,
        length-all_some (history_item db) (take limit (drop skip sorted)) items e,
        length-take limit (drop skip sorted),
        length-drop skip sorted,
        length-sort_by (by_key_desc started) rows,
      ),
      IsSorted-all_some (history_item db) started (λ (item : HistoryItem). item.started_at)
          (history_item-started db) (take limit (drop skip sorted)) items e
          (IsSorted-take (by_key_desc started) limit (drop skip sorted)
            (IsSorted-drop (by_key_desc started) skip sorted (sort_by-IsSorted started rows))),
      All-all_some (history_item db)
          (λ x. (is_recorded u x.0 x.1 ≡ true) × (get db.events x.0 ≡ some x.1)) (IsHistoryOf u db)
          (history_item-fields u db) (take limit (drop skip sorted)) items e
          (All-take
            (λ (x : ℕ × WatchEvent).
              (is_recorded u x.0 x.1 ≡ true) × (get db.events x.0 ≡ some x.1))
            limit (drop skip sorted)
            (All-drop
              (λ (x : ℕ × WatchEvent).
                (is_recorded u x.0 x.1 ≡ true) × (get db.events x.0 ≡ some x.1))
              skip sorted
              (All-sort_by
                (λ (x : ℕ × WatchEvent).
                  (is_recorded u x.0 x.1 ≡ true) × (get db.events x.0 ≡ some x.1))
                (by_key_desc started) rows (All-select (is_recorded u) db.events t)))),
    )
