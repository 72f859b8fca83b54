-- ===== src/Watching/Continue.antt =====
-- What `watch_continue` offers: each film in progress, once.
use mathlib.Core.Path.{subst}
use filmoteka.Prelude.{
  ℕ, ◌≡◌, refl, sym, true, false, ◌||◌, some, List, [], ◌∷◌, arith, Option-cases, Bool-cases, inl,
  inr, mem_nat, All, by_key_desc, sort_by, All-imp, All-of_sort_by,
}
use filmoteka.Table.{Rows, get, select}
use filmoteka.Table.Laws.{All-of_select}
use filmoteka.Models.{Db}
use filmoteka.Models.Catalog.{Film}
use filmoteka.Models.Watching.{WatchEvent}
use filmoteka.Watching.Listings.{
  film_of_media, started, ContinueItem, continue_item, continue_loop, watch_continue,
  is_in_progress,
}

-- No number stands twice in a list.
abbrev pub NoRepeat : List ℕ → Type 0
NoRepeat [] = Unit
NoRepeat (x ∷ xs) = (mem_nat x xs ≡ false) × NoRepeat xs

abbrev pub film_ids : List ContinueItem → List ℕ
film_ids [] = []
film_ids (item ∷ items) = item.film_id ∷ film_ids items

continue_loop-fresh :
    (k : ℕ) (db : Db) (seen : List ℕ) (rows : Rows WatchEvent)
    → mem_nat k seen ≡ true
    → mem_nat k (film_ids (continue_loop db seen rows)) ≡ false
unfolding continue_loop mem_nat
continue_loop-fresh k db seen [] h = refl
continue_loop-fresh k db seen ((i, e) ∷ rest) h =
    elim (Option-cases (film_of_media e.media_file_id db)) [
      | inl missing ↦ rw (missing, continue_loop) (continue_loop-fresh k db seen rest h)
      | inr ((film_id, f), found) ↦ elim (Bool-cases (mem_nat film_id seen)) [
        | inl old ↦ rw (found, old, continue_loop) (continue_loop-fresh k db seen rest h)
        | inr new ↦
            rw (found, new, continue_loop)
              (ground (arith, continue_loop-fresh k db (film_id ∷ seen) rest))
      ]
    ]

continue_loop-NoRepeat :
    (db : Db) (seen : List ℕ) (rows : Rows WatchEvent)
    → NoRepeat (film_ids (continue_loop db seen rows))
unfolding continue_loop mem_nat
continue_loop-NoRepeat db seen [] = tt
continue_loop-NoRepeat db seen ((i, e) ∷ rest) =
    elim (Option-cases (film_of_media e.media_file_id db)) [
      | inl missing ↦ rw (missing, continue_loop) (continue_loop-NoRepeat db seen rest)
      | inr ((film_id, f), found) ↦ elim (Bool-cases (mem_nat film_id seen)) [
        | inl old ↦ rw (found, old, continue_loop) (continue_loop-NoRepeat db seen rest)
        | inr new ↦
            rw (found, new, continue_loop)
              (
                continue_loop-fresh film_id db (film_id ∷ seen) rest (ground arith),
                continue_loop-NoRepeat db (film_id ∷ seen) rest,
              )
      ]
    ]

-- The film of an event, if the links are there, was seen or is listed.
abbrev IsListed : Db → List ℕ → List ContinueItem → ℕ × WatchEvent → Type 0
IsListed db seen items (_, e) =
    (film_id : ℕ) (f : Film)
    → film_of_media e.media_file_id db ≡ some (film_id, f)
    → (mem_nat film_id seen || mem_nat film_id (film_ids items)) ≡ true

continue_loop_complete :
    (db : Db) (seen : List ℕ) (rows : Rows WatchEvent)
    → All (IsListed db seen (continue_loop db seen rows)) rows
unfolding continue_loop mem_nat
continue_loop_complete db seen [] = tt
continue_loop_complete db seen ((i, e) ∷ rest) =
    let Goal = λ (items : List ContinueItem). All (IsListed db seen items) ((i, e) ∷ rest) in
    elim (Option-cases (film_of_media e.media_file_id db)) [
      | inl missing ↦
          let same : continue_loop db seen ((i, e) ∷ rest) ≡ continue_loop db seen rest =
            rw (missing, continue_loop) in
          subst Goal (sym same) (λ film_id f found. cc, continue_loop_complete db seen rest)
      | inr ((film_id, f), found) ↦ elim (Bool-cases (mem_nat film_id seen)) [
        | inl old ↦
            let same : continue_loop db seen ((i, e) ∷ rest) ≡ continue_loop db seen rest =
              rw (found, old, continue_loop) in
            subst Goal (sym same)
              (λ other g link. ground arith, continue_loop_complete db seen rest)
        | inr new ↦
            let items = continue_loop db (film_id ∷ seen) rest in
            let shown =
              continue_item film_id f e.media_file_id (get db.media e.media_file_id) e ∷ items in
            let same : continue_loop db seen ((i, e) ∷ rest) ≡ shown =
              rw (found, new, continue_loop) in
            subst Goal (sym same) (
              λ other g link. ground arith,
              All-imp (IsListed db (film_id ∷ seen) items) (IsListed db seen shown) rest
                  (λ x h other g link. ground (arith, h other g link))
                  (continue_loop_complete db (film_id ∷ seen) rest),
            )
      ]
    ]

-- No film is offered twice; and the film of every unfinished event of the user that is not incognito and whose position is
-- above 0 is offered.
pub watch_continue_exact :
    (u k film_id : ℕ) (e : WatchEvent) (f : Film) (db : Db)
    → get db.events k ≡ some e
    → is_in_progress u k e ≡ true
    → film_of_media e.media_file_id db ≡ some (film_id, f)
    → NoRepeat (film_ids (watch_continue u db))
      × (mem_nat film_id (film_ids (watch_continue u db)) ≡ true)
unfolding watch_continue mem_nat
watch_continue_exact u k film_id e f db stored open_one link =
    let rows = select (is_in_progress u) db.events in
    let sorted = sort_by (by_key_desc started) rows in
    let items = continue_loop db [] sorted in
    (
      continue_loop-NoRepeat db [] sorted,
      All-of_select (IsListed db [] items) (is_in_progress u) db.events k e
          (All-of_sort_by (IsListed db [] items) (by_key_desc started) rows
            (continue_loop_complete db [] sorted))
          stored open_one film_id f link,
    )
