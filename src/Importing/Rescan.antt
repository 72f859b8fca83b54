-- ===== src/Importing/Rescan.antt =====
-- A scan that is repeated on an unchanged directory finds nothing new.
use mathlib.Core.Path.{subst}
use filmoteka.Prelude.{
  ℕ, ◌*◌, ◌^◌, String, ◌≡◌, refl, sym, ◌∙◌, ap, Bool, true, false, not, ◌||◌, Option, none, some,
  List, [], ◌∷◌, ◌++◌, arith, leb, str_eq, eq_iff, eq_refl, keep, map, Bool-cases, inl, inr, All,
  All-keep_of_All, All-sort_by,
}
use filmoteka.Paths.{parts}
use filmoteka.Table.{Rows, Table, add}
use filmoteka.Models.{Db}
use filmoteka.Models.Importing.{ImportRun, ImportCandidate, RunStatus}
use filmoteka.Importing.{
  Files, Config, is_importable, parts_le, str_mem, starts_with, existing_candidate_paths,
  collect_files, new_candidate, add_all, fresh_files, scan_downloads,
}

existing-snoc :
    (files : Files) (run_id n : ℕ) (root p f : String) (r : Rows ImportCandidate)
    → starts_with root f ≡ true
    → str_mem p (existing_candidate_paths root (r ++ (n, new_candidate files run_id f) ∷ []))
      ≡ (str_mem p (existing_candidate_paths root r) || str_eq f p)
unfolding existing_candidate_paths str_mem
existing-snoc files run_id n root p f [] below = ground (arith, below)
existing-snoc files run_id n root p f ((i, c) ∷ r) below =
    ground (arith, existing-snoc files run_id n root p f r below)

existing-add_all :
    (files : Files) (run_id : ℕ) (root p : String) (fs : List String) (t : Table ImportCandidate)
    → All (λ f. starts_with root f ≡ true) fs
    → str_mem p
        (existing_candidate_paths root (add_all (map (new_candidate files run_id) fs) t).rows)
      ≡ (str_mem p (existing_candidate_paths root t.rows) || str_mem p fs)
unfolding add_all str_mem add
existing-add_all files run_id root p [] t below = ground arith
existing-add_all files run_id root p (f ∷ fs) t below = ground (
  arith,
  existing-add_all files run_id root p fs (add (new_candidate files run_id f) t) below.1,
  existing-snoc files run_id t.next_id root p f t.rows below.0,
)

str_mem-keep :
    (q : String → Bool) (p : String) (fs : List String)
    → q p ≡ true
    → str_mem p fs ≡ true
    → str_mem p (keep q fs) ≡ true
unfolding str_mem keep
str_mem-keep q p [] good here = ground arith
str_mem-keep q p (f ∷ fs) good here = elim (Bool-cases (str_eq f p)) [
  | inl same ↦
      let kept : q f ≡ true = subst (λ x. q x ≡ true) (sym ((eq_iff f p).0 same)) good in
      ground (arith, kept, same)
  | inr other ↦ ground (arith, str_mem-keep q p fs good)
]

-- Where the second test only fails on what the first list leaves, both together leave nothing.
keep-none :
    (q : String → Bool) (fs : List String)
    → ((p : String) → str_mem p fs ≡ true → q p ≡ false)
    → keep q fs ≡ []
unfolding keep str_mem
keep-none q [] h = refl
keep-none q (f ∷ fs) h =
    let first_out : q f ≡ false = h f (ground (arith, eq_refl f)) in
    let others : (p : String) → str_mem p fs ≡ true → q p ≡ false =
      λ p m. h p (ground (arith, m)) in
    ground (arith, first_out, keep-none q fs others)

mem-of_keep :
    (q : String → Bool) (p : String) (fs : List String)
    → str_mem p (keep q fs) ≡ true
    → (str_mem p fs ≡ true) × (q p ≡ true)
unfolding str_mem keep
mem-of_keep q p [] here = ground arith
mem-of_keep q p (f ∷ fs) here = elim (Bool-cases (q f)) [
  | inl good ↦ elim (Bool-cases (str_eq f p)) [
    | inl same ↦
        let kept : q p ≡ true = subst (λ x. q x ≡ true) ((eq_iff f p).0 same) good in
        (ground (arith, same), kept)
    | inr other ↦
        let later : str_mem p (keep q fs) ≡ true = ground (arith, good, other, here) in
        let found = mem-of_keep q p fs later in (ground (arith, found.0), found.1)
  ]
  | inr bad ↦
      let later : str_mem p (keep q fs) ≡ true = ground (arith, bad, here) in
      let found = mem-of_keep q p fs later in (ground (arith, found.0), found.1)
]

-- Two tests one after the other, where the first one now also refuses what passed both before.
keep-again :
    (old small : String → Bool) (seen : String → Bool) (fs : List String)
    → ((p : String) → seen p ≡ (old p || str_mem p (keep small (keep (λ f. not (old f)) fs))))
    → keep small (keep (λ f. not (seen f)) fs) ≡ []
keep-again old small seen fs h = keep-none small (keep (λ f. not (seen f)) fs) (λ p m.
    let found = mem-of_keep (λ f. not (seen f)) p fs m in
    elim (Bool-cases (small p)) [
      | inr big ↦ big
      | inl fits ↦
          let unseen : seen p ≡ false = ground (arith, found.1) in
          let not_old : not (old p) ≡ true = ground (arith, h p) in
          let fresh =
            str_mem-keep small p (keep (λ f. not (old f)) fs) fits
              (str_mem-keep (λ f. not (old f)) p fs not_old found.0) in
          ground (arith, h p, fresh, unseen)
    ])

fresh_files-below :
    (files : Files) (config : Config) (db : Db)
    → All (λ f. starts_with config.target_root f ≡ true) (files.rglob config.target_root)
    → All (λ f. starts_with config.target_root f ≡ true) (fresh_files files config db)
unfolding fresh_files collect_files
fresh_files-below files config db below =
    let P : String → Type 0 = λ f. starts_with config.target_root f ≡ true in
    let listed = keep (is_importable files config) (files.rglob config.target_root) in
    let collected = collect_files files config in
    let unseen : String → Bool =
      λ f. not (str_mem f (existing_candidate_paths config.target_root db.candidates.rows)) in
    All-keep_of_All P (λ f. leb (files.size f) (config.max_file_size_gb * 1024 ^ 3))
      (keep unseen collected)
      (All-keep_of_All P unseen collected (
        All-sort_by P (λ p q. parts_le (parts p) (parts q)) listed
          (All-keep_of_All P (is_importable files config) (files.rglob config.target_root) below)))

fresh_files-again :
    (files : Files) (config : Config) (run_id : ℕ) (db after : Db)
    → All (λ f. starts_with config.target_root f ≡ true) (files.rglob config.target_root)
    → after.candidates
      ≡ add_all (map (new_candidate files run_id) (fresh_files files config db)) db.candidates
    → fresh_files files config after ≡ []
unfolding fresh_files
fresh_files-again files config run_id db after below after_is =
    let root = config.target_root in
    keep-again (λ f. str_mem f (existing_candidate_paths root db.candidates.rows))
      (λ f. leb (files.size f) (config.max_file_size_gb * 1024 ^ 3))
      (λ f. str_mem f (existing_candidate_paths root after.candidates.rows))
      (collect_files files config)
      (λ p.
        ap (λ (t : Table ImportCandidate). str_mem p (existing_candidate_paths root t.rows))
          after_is
        ∙ existing-add_all files run_id root p (fresh_files files config db) db.candidates
            (fresh_files-below files config db below))

scan_downloads-some :
    (files : Files) (config : Config) (now later : ℕ) (r : ℕ × ImportRun) (db after : Db)
    → scan_downloads files config now later db ≡ some (r, after)
    → (files.is_dir config.target_root ≡ true)
      × (after.candidates
          ≡ add_all
              (map (new_candidate files db.runs.next_id) (fresh_files files config db))
              db.candidates)
unfolding scan_downloads
scan_downloads-some files config now later r db after done =
    elim (Bool-cases (files.is_dir config.target_root)) [
      | inl is ↦ (
        is,
        ap
            (λ (x : Option ((ℕ × ImportRun) × Db)). elim x [
              | none ↦ db.candidates
              | some y ↦ y.1.candidates
            ])
            (sym (rw (is, scan_downloads) at done)),
      )
      | inr is_not ↦ cc (rw (is_not, scan_downloads) at done)
    ]

scan_downloads-nothing :
    (files : Files) (config : Config) (now later : ℕ) (db : Db)
    → files.is_dir config.target_root ≡ true
    → fresh_files files config db ≡ []
    → (again : ℕ × ImportRun) × (last : Db) × (scan_downloads files config now later db
        ≡ some (again, last))
      × (again.1.file_count ≡ 0)
      × (last.candidates ≡ db.candidates)
unfolding scan_downloads add_all
scan_downloads-nothing files config now later db is nothing =
    let run : ImportRun = record {
      started_at = now;
      finished_at = some later;
      status = RunStatus.completed;
      file_count = 0;
    } in
    (
      (db.runs.next_id, run),
      record db { runs = add run db.runs },
      rw (is, nothing, scan_downloads) refl,
      refl,
      refl,
    )

-- When the files that the directory lists lie below it, a second scan of a directory that did not change succeeds after a first one that
-- succeeded, makes no candidate and reports no file, whatever the candidates were before.
pub scan_downloads-again :
    (files : Files) (config : Config) (t1 t2 t3 t4 : ℕ) (r : ℕ × ImportRun) (db after : Db)
    → All (λ f. starts_with config.target_root f ≡ true) (files.rglob config.target_root)
    → scan_downloads files config t1 t2 db ≡ some (r, after)
    → (again : ℕ × ImportRun) × (last : Db) × (scan_downloads files config t3 t4 after
        ≡ some (again, last))
      × (again.1.file_count ≡ 0)
      × (last.candidates ≡ after.candidates)
scan_downloads-again files config t1 t2 t3 t4 r db after below done =
    let first_scan = scan_downloads-some files config t1 t2 r db after done in
    let nothing = fresh_files-again files config db.runs.next_id db after below first_scan.1 in
    let (again, last, second, none_new, same) =
      scan_downloads-nothing files config t3 t4 after first_scan.0 nothing in
    (again, last, second, none_new, same)
