-- ===== src/Library/Moves.antt =====
-- The UPDATEs of a re-index or a reconciliation: what becomes of each media file, and that no two
-- share a path.
use mathlib.Core.Path.{subst}
use filmoteka.Prelude.{
  ℕ, String, ◌≡◌, ◌≢◌, ◌⊎◌, refl, Bool, true, false, Option, none, some, [], ◌∷◌, arith, eq_iff,
  Option-cases, Bool-cases, inl, inr,
}
use filmoteka.Table.{Rows, Table, get_row, get, put}
use filmoteka.Table.Laws.{KeysBelow, replaced, get-put}
use filmoteka.Models.{Db}
use filmoteka.Models.Catalog.{MediaFile}
use filmoteka.Library.{
  Disk, Verdict, present, lost, moved, judge, taken, move_to, move_all, ReindexReport, run_reindex,
}

pub Verdict-cases : (v : Verdict) → (v ≡ present) ⊎ (v ≡ lost) ⊎ ((p : String) × (v ≡ moved p))
Verdict-cases present = inl refl
Verdict-cases lost = inr (inl refl)
Verdict-cases (moved p) = inr (inr (p, refl))

some-injective_at {ℓ} : {A : Type ℓ} {a b : A} → some a ≡ some b → a ≡ b
some-injective_at e = cc

-- A media file after the UPDATEs, by the verdict on it.
abbrev pub relocated : Verdict → MediaFile → MediaFile
relocated present m = m
relocated lost m = m
relocated (moved p) m = record m { file_path = p }

abbrev pub is_lost : Verdict → Bool
is_lost lost = true
is_lost _ = false

-- The row `k` of `t` after the UPDATEs of the rows `r`.
abbrev pub after_moves : Disk → String → Option MediaFile → Option MediaFile → Option MediaFile
after_moves disk root none old = old
after_moves disk root (some m) old = elim (judge disk root m) [
  | present ↦ old
  | lost ↦ old
  | moved p ↦ replaced (record m { file_path = p }) old
]

pub move_to-some :
    (i : ℕ) (m : MediaFile) (p : String) (t u : Table MediaFile)
    → move_to i m p t ≡ some u
    → (u ≡ put i (record m { file_path = p }) t) × (taken p i t.rows ≡ false)
unfolding move_to
move_to-some i m p t u h = elim (Bool-cases (taken p i t.rows)) [
  | inl yes_taken ↦ cc (rw (yes_taken, move_to) at h)
  | inr free ↦ (ground arith, free)
]

pub get-move_all :
    (disk : Disk) (root : String) (n k : ℕ) (r : Rows MediaFile) (t u : Table MediaFile)
    → KeysBelow n r
    → move_all disk root r t ≡ some u
    → get u k ≡ after_moves disk root (get_row k r) (get t k)
unfolding move_all get_row
get-move_all disk root n k [] t u h e = ground arith
get-move_all disk root n k ((i, m) ∷ rest) t u h e = elim (Verdict-cases (judge disk root m)) [
  | inl is ↦
      let e' : move_all disk root rest t ≡ some u = rw (is, move_all) at e in
      ground (arith, get-move_all disk root n k rest t u h.2 e')
  | inr (inl is) ↦
      let e' : move_all disk root rest t ≡ some u = rw (is, move_all) at e in
      ground (arith, get-move_all disk root n k rest t u h.2 e')
  | inr (inr (p, is)) ↦ elim (Option-cases (move_to i m p t)) [
    | inl fails ↦ cc (rw (is, fails, move_all) at e)
    | inr (t', done) ↦
        let e' : move_all disk root rest t' ≡ some u = rw (is, done, move_all) at e in
        let (t'_is, _) = move_to-some i m p t t' done in
        ground (
          arith,
          get-move_all disk root n k rest t' u h.2 e',
          get-put i k (record m { file_path = p }) t,
        )
  ]
]

-- What holds of a table and is kept by each UPDATE holds at the end.
pub move_all-keeps {ℓ} :
    (P : Table MediaFile → Type ℓ) (disk : Disk) (root : String)
    → ((i : ℕ) (m : MediaFile) (p : String) (t u : Table MediaFile)
        → P t
        → move_to i m p t ≡ some u
        → P u)
    → (r : Rows MediaFile) (t u : Table MediaFile) → P t
    → move_all disk root r t ≡ some u
    → P u
unfolding move_all
move_all-keeps P disk root step [] t u h e = subst P (some-injective_at e) h
move_all-keeps P disk root step ((i, m) ∷ rest) t u h e = elim (Verdict-cases (judge disk root m)) [
  | inl is ↦ move_all-keeps P disk root step rest t u h (rw (is, move_all) at e)
  | inr (inl is) ↦ move_all-keeps P disk root step rest t u h (rw (is, move_all) at e)
  | inr (inr (p, is)) ↦ elim (Option-cases (move_to i m p t)) [
    | inl fails ↦ cc (rw (is, fails, move_all) at e)
    | inr (t', done) ↦
        move_all-keeps P disk root step rest t' u (step i m p t t' h done)
          (rw (is, done, move_all) at e)
  ]
]

-- No two media files have one path.
abbrev pub UniquePaths : Table MediaFile → Type 0
UniquePaths t =
    (i j : ℕ) (a b : MediaFile)
    → get t i ≡ some a
    → get t j ≡ some b
    → a.file_path ≡ b.file_path
    → i ≡ j

taken-false :
    (p : String) (k i : ℕ) (a : MediaFile) (r : Rows MediaFile)
    → taken p k r ≡ false
    → get_row i r ≡ some a
    → i ≢ k
    → a.file_path ≢ p
unfolding taken get_row
taken-false p k i a [] free found other e = cc
taken-false p k i a ((j, m) ∷ rest) free found other e =
    ground (arith, taken-false p k i a rest, eq_iff m.file_path p)

pub move_to-UniquePaths :
    (i : ℕ) (m : MediaFile) (p : String) (t u : Table MediaFile)
    → UniquePaths t
    → move_to i m p t ≡ some u
    → UniquePaths u
unfolding get
move_to-UniquePaths i m p t u h e j k a b ga gb same =
    let (u_is, free) = move_to-some i m p t u e in
    let v = record m { file_path = p } in
    ground (
      arith,
      get-put i j v t,
      get-put i k v t,
      h j k a b,
      taken-false p i j a t.rows free,
      taken-false p i k b t.rows free,
    )

-- A re-index that commits leaves no two media files with one path, if there were none before.
pub run_reindex-UniquePaths :
    (disk : Disk) (root : String) (db after : Db) (report : ReindexReport)
    → UniquePaths db.media
    → run_reindex disk root db ≡ some (report, after)
    → UniquePaths after.media
unfolding run_reindex
run_reindex-UniquePaths disk root db after report h e =
    elim (Option-cases (move_all disk root db.media.rows db.media)) [
      | inl fails ↦ cc (rw (fails, run_reindex) at e)
      | inr (t, done) ↦
          let u =
            move_all-keeps UniquePaths disk root move_to-UniquePaths db.media.rows db.media t h
              done in
          let media_is : t ≡ after.media = ground arith in subst UniquePaths media_is u
    ]
