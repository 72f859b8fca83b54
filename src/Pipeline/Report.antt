-- ===== src/Pipeline/Report.antt =====
-- What the report of an import counts, and that the media files of the catalog only grow.
use mathlib.Core.Path.{subst}
use mathlib.Core.List.{append-nil, append_assoc}
use filmoteka.Prelude.{
  ℕ, ◌+◌, String, ◌≡◌, refl, sym, ◌∙◌, ap, true, false, Option, none, some, [], ◌∷◌, ◌++◌, arith,
  length, length-append, Option-cases, Bool-cases, inl, inr, ◌==◌,
}
use filmoteka.Table.{Rows, Table, add, select}
use filmoteka.Models.{Db}
use filmoteka.Models.Catalog.{MediaFile}
use filmoteka.Models.Importing.{ImportRun, ImportCandidate}
use filmoteka.Importing.{Files, Config, MediaProbeResult, scan_downloads}
use filmoteka.Pipeline.{Services}
use filmoteka.Pipeline.Run.{
  Outcome, created, skipped, duplicate, failed, bridge_to_catalog, ImportReport, count_outcome,
  mark_imported, Stops, bridge_all, import_candidates, commit_import, run_import,
}
use filmoteka.Pipeline.Media.{
  GoodMedia, Indexing, unchanged, inserted, bridge-Indexing, Indexing-GoodMedia,
}

-- What holds between the start of the loop and a later moment.
pub record Progress (r0 : ImportReport) (db0 : Db) (r : ImportReport) (db : Db) : Type 0 where
  pub good : GoodMedia db0.media → GoodMedia db.media
  pub rows : Rows MediaFile
  pub appended : db.media.rows ≡ db0.media.rows ++ rows
  pub indexed : r.files_indexed ≡ r0.files_indexed + length rows
  pub films : r.films_created ≡ r0.films_created + length rows

Progress-here : (r : ImportReport) (db : Db) → Progress r db r db
Progress-here r db = record {
  good = λ h. h;
  rows = [];
  appended = sym (append-nil db.media.rows);
  indexed = omega arith;
  films = omega arith;
}

Progress-trans :
    {r0 r1 r2 : ImportReport} {a b c : Db}
    → Progress r0 a r1 b
    → Progress r1 b r2 c
    → Progress r0 a r2 c
Progress-trans {a} p q = record {
  good = λ h. q.good (p.good h);
  rows = p.rows ++ q.rows;
  appended = q.appended ∙ ap (◌++ q.rows) p.appended ∙ append_assoc a.media.rows p.rows q.rows;
  indexed = omega (arith, p.indexed, q.indexed, length-append p.rows q.rows);
  films = omega (arith, p.films, q.films, length-append p.rows q.rows);
}

idle-Progress :
    (r s : ImportReport) (db u : Db)
    → u.media ≡ db.media
    → s.files_indexed ≡ r.files_indexed
    → s.films_created ≡ r.films_created
    → Progress r db s u
idle-Progress r s db u is indexed films = record {
  good = λ h. subst GoodMedia (sym is) h;
  rows = [];
  appended = ap (λ (t : Table MediaFile). t.rows) is ∙ sym (append-nil db.media.rows);
  indexed = omega (arith, indexed);
  films = omega (arith, films);
}

step-Progress :
    (k : ℕ) (c : ImportCandidate) (o : Outcome) (r : ImportReport) (db u : Db)
    → Indexing db.media o u.media
    → Progress r db (count_outcome c o r) (mark_imported k c o u)
unfolding count_outcome mark_imported add
step-Progress k c created r db u (unchanged other is) = cc
step-Progress k c created r db u (inserted m made path content is) = record {
  good = Indexing-GoodMedia {o = created} (inserted m made path content is);
  rows = (db.media.next_id, m) ∷ [];
  appended = ap (λ (t : Table MediaFile). t.rows) is;
  indexed = omega arith;
  films = omega arith;
}
step-Progress k c skipped r db u (unchanged other is) = idle-Progress r _ db _ is refl refl
step-Progress k c skipped r db u (inserted m made path content is) = cc
step-Progress k c duplicate r db u (unchanged other is) = idle-Progress r _ db _ is refl refl
step-Progress k c duplicate r db u (inserted m made path content is) = cc
step-Progress k c failed r db u (unchanged other is) = idle-Progress r _ db _ is refl refl
step-Progress k c failed r db u (inserted m made path content is) = cc

module _ (services : Services) (now : ℕ) where
  round-Progress :
      (k : ℕ) (c : ImportCandidate) (r : ImportReport) (db : Db)
      → Progress r db (count_outcome c (bridge_to_catalog services now c db).0 r) (
          mark_imported k c
            (bridge_to_catalog services now c db).0
            (bridge_to_catalog services now c db).1)
  round-Progress k c r db =
      let ended = bridge_to_catalog services now c db in
      step-Progress k c ended.0 r db ended.1 (bridge-Indexing services now c db)

  bridge_all-Progress :
      (stops : Stops) (rest : Rows ImportCandidate) (r : ImportReport) (db : Db)
      → Progress r db
          (bridge_all services now stops rest (r, db)).0
          (bridge_all services now stops rest (r, db)).1
  unfolding bridge_all
  bridge_all-Progress stops [] r db = Progress-here r db
  bridge_all-Progress (true ∷ stops) ((k, c) ∷ rest) r db = Progress-here r db
  bridge_all-Progress (false ∷ stops) ((k, c) ∷ rest) r db =
      Progress-trans (round-Progress k c r db) (bridge_all-Progress stops rest _ _)
  bridge_all-Progress [] ((k, c) ∷ rest) r db =
      Progress-trans (round-Progress k c r db) (bridge_all-Progress [] rest _ _)

-- What `run_import` does to the media files, by its report: no two have one path and no two one content; those that were there stay in their places; and both counters give the number of new ones.
pub record Imported (r : ImportReport) (before after : Db) : Type 0 where
  pub good : GoodMedia after.media
  pub rows : Rows MediaFile
  pub appended : after.media.rows ≡ before.media.rows ++ rows
  pub indexed : r.files_indexed ≡ length rows
  pub films : r.films_created ≡ length rows

module _ (services : Services) (ffprobe : Option (String → Option MediaProbeResult)) (now : ℕ)
    (stops : Stops) where
  commit-Imported :
      (found : ℕ) (candidates : Rows ImportCandidate) (scanned db : Db)
      → scanned.media ≡ db.media
      → GoodMedia db.media
      → Imported
          (commit_import services ffprobe now stops found candidates scanned db).0
          db
          (commit_import services ffprobe now stops found candidates scanned db).1
  unfolding commit_import import_candidates
  commit-Imported found [] scanned db is clean = record {
    good = clean;
    rows = [];
    appended = sym (append-nil db.media.rows);
    indexed = refl;
    films = refl;
  }
  commit-Imported found (x ∷ candidates) scanned db is clean =
      let p = bridge_all-Progress services now stops _ _ _ in
      record {
        good = p.good (subst GoodMedia (sym is) clean);
        rows = p.rows;
        appended = p.appended ∙ ap (λ (t : Table MediaFile). t.rows ++ p.rows) is;
        indexed = p.indexed ∙ omega arith;
        films = p.films ∙ omega arith;
      }

  scan-media :
      (files : Files) (config : Config) (r : ℕ × ImportRun) (db after : Db)
      → scan_downloads files config now now db ≡ some (r, after)
      → after.media ≡ db.media
  unfolding scan_downloads
  scan-media files config r db after done = elim (Bool-cases (files.is_dir config.target_root)) [
    | inl is ↦
        ap (λ (x : Option ((ℕ × ImportRun) × Db)). elim x [ none ↦ db.media | some y ↦ y.1.media ])
          (sym (rw (is, scan_downloads) at done))
    | inr other ↦ cc (rw (other, scan_downloads) at done)
  ]

  -- Where the media files have unique keys, paths and contents, an import that runs to its end keeps them so, changes and removes none of those that
  -- were there, and reports as indexed, and equally as films created, the number of media files that it added.
  pub run_import-Imported :
      (files : Files) (config : Config) (report : ImportReport) (db after : Db)
      → GoodMedia db.media
      → run_import services files config ffprobe now stops db ≡ some (report, after)
      → Imported report db after
  unfolding run_import
  run_import-Imported files config report db after clean done =
      elim (Option-cases (scan_downloads files config now now db)) [
        | inl e ↦ cc (rw (e, run_import) at done)
        | inr ((r, scanned), e) ↦
            let kept = scan-media files config r db scanned e in
            let whole =
              commit-Imported r.1.file_count
                (select (λ _ c. c.import_run_id == r.0) scanned.candidates) scanned db kept clean in
            subst
              (λ (x : Option (ImportReport × Db)). elim x [
                | none ↦ Unit
                | some y ↦ Imported y.0 db y.1
              ])
              done (rw (e, run_import) whole)
      ]
