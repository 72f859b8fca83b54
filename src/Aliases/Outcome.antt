-- ===== src/Aliases/Outcome.antt =====
-- What `_run_alias_generate` of src/filmoteka/api/admin.py does to each media file.
use mathlib.Core.Path.{subst}
use filmoteka.Prelude.{
  ℕ, String, ◌≡◌, refl, ap, ◌∙◌, Bool, true, false, Option, none, some, [], ◌∷◌, ◌==◌, ==_iff,
  or_else, if◌then◌else◌, All, All-imp, arith, Bool-cases, Option-cases, inl, inr,
}
use filmoteka.Paths.Suffixes.{stem}
use filmoteka.Table.{Rows, get, get_row, select}
use filmoteka.Table.Laws.{IsTable, get-put, All-select}
use filmoteka.Table.Distinct.{DistinctKeys, DistinctKeys-select, get_row-select, get_row-differs}
use filmoteka.Models.{Db}
use filmoteka.Models.Catalog.{MediaFile}
use filmoteka.Aliases.{
  Generated, alias, nothing, failing, AliasRun, record_answer, alias_loop, is_due, start_run,
  run_alias_generate,
}

-- A file after the answer for it.
abbrev pub answered : Generated → MediaFile → MediaFile
answered (alias s) m = record m { media_alias = some s; alias_processed = true }
answered nothing m = m
answered (failing e) m = record m { media_alias = some (or_else m.media_alias (stem m.file_path)) }

-- The row under a key after the answer for a row.
get-record_answer :
    (k i : ℕ) (m : MediaFile) (answer : Generated) (r : AliasRun)
    → get r.db.media i ≡ some m
    → get (record_answer (i, m) answer r).db.media k
      ≡ (if i == k then some (answered answer m) else get r.db.media k)
unfolding record_answer
get-record_answer k i m (alias s) r row =
    ground (arith, row, get-put i k (answered (alias s) m) r.db.media, ==_iff i k)
get-record_answer k i m nothing r row = ground (arith, row, ==_iff i k)
get-record_answer k i m (failing e) r row =
    ground (arith, row, get-put i k (answered (failing e) m) r.db.media, ==_iff i k)

rows-kept :
    (i : ℕ) (m : MediaFile) (answer : Generated) (r : AliasRun) (rows : Rows MediaFile)
    → get r.db.media i ≡ some m
    → All (λ y. (i == y.0) ≡ false) rows
    → All (λ x. get r.db.media x.0 ≡ some x.1) rows
    → All (λ x. get (record_answer (i, m) answer r).db.media x.0 ≡ some x.1) rows
rows-kept i m answer r [] row differ h = tt
rows-kept i m answer r ((k, n) ∷ rows) row differ h = (
  ground (arith, get-record_answer k i m answer r row, differ.0, h.0),
  rows-kept i m answer r rows row differ.1 h.1,
)

-- The answer for a row that is found, or else what is there.
abbrev found_or : Option MediaFile → (String → Generated) → Option MediaFile → Option MediaFile
found_or none generate other = other
found_or (some m) generate other = some (answered (generate (stem m.file_path)) m)

-- The row under a key after the loop, which nobody stops.
get-alias_loop :
    (generate : String → Generated) (k : ℕ) (rows : Rows MediaFile) (r : AliasRun)
    → DistinctKeys rows
    → All (λ x. get r.db.media x.0 ≡ some x.1) rows
    → get (alias_loop generate [] rows r).db.media k
      ≡ found_or (get_row k rows) generate (get r.db.media k)
unfolding alias_loop get_row
get-alias_loop generate k [] r distinct h = refl
get-alias_loop generate k ((i, m) ∷ rows) r distinct h =
    let answer = generate (stem m.file_path) in
    let later =
      get-alias_loop generate k rows (record_answer (i, m) answer r) distinct.1
        (rows-kept i m answer r rows h.0 distinct.0 h.1) in
    let here = get-record_answer k i m answer r h.0 in
    elim (Bool-cases (i == k)) [
      | inl same ↦
          let no_more : get_row k rows ≡ none =
            subst (λ j. get_row j rows ≡ none) ((==_iff i k).0 same)
              (get_row-differs i rows distinct.0) in
          later ∙ rw (no_more, same) (rw same at here)
      | inr other ↦
          let kept : get (record_answer (i, m) answer r).db.media k ≡ get r.db.media k =
            rw other at here in
          later ∙ rw other (ap (found_or (get_row k rows) generate) kept)
    ]

found_or-due :
    (generate : String → Generated) (force : Bool) (db : Db) (k : ℕ)
    → IsTable db.media
    → found_or (get_row k (select (is_due force) db.media)) generate (get db.media k)
      ≡ elim (get db.media k) [
        | none ↦ none
        | some m ↦ some (if is_due force k m then answered (generate (stem m.file_path)) m else m)
      ]
found_or-due generate force db k tidy =
    let chosen = get_row-select k (is_due force) db.media tidy in
    elim (Option-cases (get db.media k)) [
      | inl no_row ↦ rw (chosen, no_row) refl
      | inr (m, row) ↦ elim (Bool-cases (is_due force k m)) [
        | inl due ↦ rw (chosen, row, due) refl
        | inr done ↦ rw (chosen, row, done) refl
      ]
    ]

-- The file under a key after a run that nobody stops: a file that is due is as the answer for it leaves it, and every other file is
-- as it was.
pub run_alias_generate_outcome :
    (generate : String → Generated) (force : Bool) (db : Db) (k : ℕ)
    → IsTable db.media
    → get (run_alias_generate generate [] force db).2.media k ≡ elim (get db.media k) [
      | none ↦ none
      | some m ↦ some (if is_due force k m then answered (generate (stem m.file_path)) m else m)
    ]
unfolding run_alias_generate
run_alias_generate_outcome generate force db k tidy =
    let due = select (is_due force) db.media in
    let rows =
      All-imp (λ x. (is_due force x.0 x.1 ≡ true) × (get db.media x.0 ≡ some x.1))
        (λ x. get db.media x.0 ≡ some x.1) due (λ x h. h.1)
        (All-select (is_due force) db.media tidy) in
    let loop =
      get-alias_loop generate k due (start_run db)
        (DistinctKeys-select (is_due force) db.media tidy) rows in
    loop ∙ found_or-due generate force db k tidy
