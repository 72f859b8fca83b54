-- ===== src/Library/Reconciled.antt =====
-- What a reconciliation leaves of the media files, the editions and the films.
use mathlib.Core.Path.{subst}
use filmoteka.Prelude.{
  ℕ, String, ◌≡◌, refl, sym, ◌∙◌, ap, true, false, not, Option, none, some, List, [], ◌∷◌, arith,
  if◌then◌else◌, Option-cases, inl, inr, mem_nat,
}
use filmoteka.Table.{Rows, Table, get_row, get, delete}
use filmoteka.Table.Laws.{KeysBelow, IsTable, get-delete, put-IsTable}
use filmoteka.Models.{Db}
use filmoteka.Models.Catalog.{Film, MovieEdition, MediaFile}
use filmoteka.Library.{
  Disk, present, lost, moved, judge, resolve_path, move_all, lost_ids, delete_media_rows, has_media,
  drop_empty_editions, has_edition, flag_rows, flag_empty_films, clean_up, ReconcileReport,
  run_reconcile,
}
use filmoteka.Library.Moves.{
  get-move_all, move_to-some, move_all-keeps, UniquePaths, move_to-UniquePaths,
}

mem-lost_ids :
    (disk : Disk) (root : String) (n k : ℕ) (r : Rows MediaFile)
    → KeysBelow n r
    → mem_nat k (lost_ids disk root r) ≡ elim (get_row k r) [
      | none ↦ false
      | some m ↦ elim (judge disk root m) [ lost ↦ true | _ ↦ false ]
    ]
unfolding lost_ids get_row mem_nat
mem-lost_ids disk root n k [] h = refl
mem-lost_ids disk root n k ((i, m) ∷ rest) h = ground (arith, mem-lost_ids disk root n k rest h.2)

-- A media file after the verdict of the loop.
abbrev judged : Disk → String → Option MediaFile → Option MediaFile
judged disk root none = none
judged disk root (some m) = elim (judge disk root m) [
  | present ↦ some m
  | lost ↦ none
  | moved p ↦ some (record m { file_path = p })
]

-- A media file after a reconciliation: unchanged where its file is at its place, else at the place where the search finds it, else gone.
abbrev pub reconciled : Disk → String → Option MediaFile → Option MediaFile
reconciled disk root none = none
reconciled disk root (some m) =
    if disk.is_file m.file_path then some m else elim (resolve_path disk m.file_path root) [
      | none ↦ none
      | some p ↦ some (record m { file_path = p })
    ]

judged-reconciled :
    (disk : Disk) (root : String) (x : Option MediaFile)
    → judged disk root x ≡ reconciled disk root x
unfolding judge
judged-reconciled disk root none = refl
judged-reconciled disk root (some m) = ground arith

-- The databases that a reconciliation which commits goes through.
run_reconcile-some :
    (disk : Disk) (root : String) (db after : Db) (report : ReconcileReport)
    → run_reconcile disk root db ≡ some (report, after)
    → (t : Table MediaFile) × (move_all disk root db.media.rows db.media ≡ some t)
      × (after ≡ clean_up (lost_ids disk root db.media.rows) (record db { media = t }))
unfolding run_reconcile
run_reconcile-some disk root db after report e =
    elim (Option-cases (move_all disk root db.media.rows db.media)) [
      | inl fails ↦ cc (rw (fails, run_reconcile) at e)
      | inr (t, done) ↦ (t, done, ground arith)
    ]

get_row-flag_rows :
    (editions : Rows MovieEdition) (k : ℕ) (r : Rows Film)
    → get_row k (flag_rows editions r) ≡ elim (get_row k r) [
      | none ↦ none
      | some f ↦ some (if has_edition editions k then f else record f { needs_review = true })
    ]
unfolding flag_rows get_row
get_row-flag_rows editions k [] = refl
get_row-flag_rows editions k ((i, f) ∷ rest) = ground (arith, get_row-flag_rows editions k rest)

module _ (ids : List ℕ) (db : Db) where
  clean_up-editions :
      (k : ℕ)
      → IsTable db.editions
      → get (clean_up ids db).editions k
        ≡ (if has_media (clean_up ids db).media.rows k then get db.editions k else none)
  unfolding clean_up flag_empty_films drop_empty_editions delete_media_rows
  clean_up-editions k t =
      let left = delete (λ i (_ : MediaFile). mem_nat i ids) db.media in
      ground
        (arith, get-delete k (λ j (_ : MovieEdition). not (has_media left.rows j)) db.editions t)

  clean_up-films :
      (k : ℕ)
      → get (clean_up ids db).films k ≡ elim (get db.films k) [
        | none ↦ none
        | some f ↦ some (
            if has_edition (clean_up ids db).editions.rows k
            then f
            else record f { needs_review = true })
      ]
  unfolding clean_up flag_empty_films drop_empty_editions delete_media_rows get
  clean_up-films k = get_row-flag_rows (clean_up ids db).editions.rows k db.films.rows

  clean_up-media :
      (k : ℕ)
      → IsTable db.media
      → get (clean_up ids db).media k ≡ (if mem_nat k ids then none else get db.media k)
  unfolding clean_up flag_empty_films drop_empty_editions delete_media_rows
  clean_up-media k t = ground (arith, get-delete k (λ i (_ : MediaFile). mem_nat i ids) db.media t)

move_all-IsTable :
    (disk : Disk) (root : String) (r : Rows MediaFile) (t u : Table MediaFile)
    → IsTable t
    → move_all disk root r t ≡ some u
    → IsTable u
move_all-IsTable disk root r t u =
    move_all-keeps IsTable disk root
      (λ i m p a b h e.
        subst IsTable (sym (move_to-some i m p a b e).0)
          (put-IsTable i (record m { file_path = p }) a h))
      r t u

-- What becomes of each media file, in a table of media files with unique keys, when a
-- reconciliation commits: one whose file is there is unchanged, one whose file was found elsewhere
-- has the new path and is unchanged otherwise, and one whose file was not found is gone; no media
-- file is added.
pub reconcile_media :
    (disk : Disk) (root : String) (k : ℕ) (db after : Db) (report : ReconcileReport)
    → IsTable db.media
    → run_reconcile disk root db ≡ some (report, after)
    → get after.media k ≡ reconciled disk root (get db.media k)
unfolding get
reconcile_media disk root k db after report t e =
    let (u, done, after_is) = run_reconcile-some disk root db after report e in
    let rows = db.media.rows in
    let n = db.media.next_id in
    let ids = lost_ids disk root rows in
    let u_table = move_all-IsTable disk root rows db.media u t done in
    ap (λ (x : Db). get x.media k) after_is
    ∙ clean_up-media ids (record db { media = u }) k u_table
    ∙ ground (
      arith,
      get-move_all disk root n k rows db.media u t done,
      mem-lost_ids disk root n k rows t,
    )
    ∙ judged-reconciled disk root (get db.media k)

-- The editions and the films of `after`, by those of `db`.
abbrev pub IsTidied : ℕ → Db → Db → Type 0
IsTidied k db after =
    (get after.editions k ≡ (if has_media after.media.rows k then get db.editions k else none))
    × (get after.films k ≡ elim (get db.films k) [
      | none ↦ none
      | some f ↦
          some (if has_edition after.editions.rows k then f else record f { needs_review = true })
    ])

-- What becomes of each edition and each film, in a table of editions with unique keys, when a
-- reconciliation commits: exactly the editions that have a media file afterwards stay, unchanged;
-- every film stays, and exactly those that have no edition afterwards are marked for review, which
-- is all that changes of a film.
pub reconcile_catalog :
    (disk : Disk) (root : String) (k : ℕ) (db after : Db) (report : ReconcileReport)
    → IsTable db.editions
    → run_reconcile disk root db ≡ some (report, after)
    → IsTidied k db after
reconcile_catalog disk root k db after report t e =
    let (u, done, after_is) = run_reconcile-some disk root db after report e in
    let ids = lost_ids disk root db.media.rows in
    let moved_db = record db { media = u } in
    subst (IsTidied k db) (sym after_is)
      (clean_up-editions ids moved_db k t, clean_up-films ids moved_db k)

-- A reconciliation that commits leaves no two media files with one path, if there were none before and the keys of the media files
-- are unique.
pub run_reconcile-UniquePaths :
    (disk : Disk) (root : String) (db after : Db) (report : ReconcileReport)
    → IsTable db.media
    → UniquePaths db.media
    → run_reconcile disk root db ≡ some (report, after)
    → UniquePaths after.media
run_reconcile-UniquePaths disk root db after report t h e i j a b =
    let (u, done, after_is) = run_reconcile-some disk root db after report e in
    let rows = db.media.rows in
    let ids = lost_ids disk root rows in
    let moved_db = record db { media = u } in
    let u_table = move_all-IsTable disk root rows db.media u t done in
    let unique = move_all-keeps UniquePaths disk root move_to-UniquePaths rows db.media u h done in
    let at_i = ap (λ (x : Db). get x.media i) after_is ∙ clean_up-media ids moved_db i u_table in
    let at_j = ap (λ (x : Db). get x.media j) after_is ∙ clean_up-media ids moved_db j u_table in
    λ ga gb same. ground (arith, at_i, at_j, unique i j a b)
