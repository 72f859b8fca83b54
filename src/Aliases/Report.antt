-- ===== src/Aliases/Report.antt =====
-- The report and the progress of `_run_alias_generate` of src/filmoteka/api/admin.py add up.
use filmoteka.Prelude.{
  ℕ, suc, ◌+◌, String, ◌≡◌, refl, ap, some, Bool, List, [], ◌∷◌, ◌++◌, length, length-append,
  length-map, map, none, arith, Bool-cases, inl, inr,
}
use filmoteka.Paths.Suffixes.{stem}
use filmoteka.Table.{Rows, select}
use filmoteka.Models.{Db}
use filmoteka.Models.Catalog.{MediaFile}
use filmoteka.Pipeline.Run.{Stops}
use filmoteka.Aliases.{
  Generated, alias, nothing, failing, queued, completed, error, AliasFileStatus, entry, AliasRun,
  record_answer, stops_now, later_stops, alias_loop, is_due, AliasReport, report_of, start_run,
  run_alias_generate,
}

abbrev pub is_queued : AliasFileStatus → ℕ
is_queued e = elim e.status [ queued ↦ 1 | _ ↦ 0 ]

-- The files that the loop did not reach.
abbrev pub count_queued : List AliasFileStatus → ℕ
count_queued [] = 0
count_queued (e ∷ entries) = is_queued e + count_queued entries

count_queued-append :
    (xs ys : List AliasFileStatus) → count_queued (xs ++ ys) ≡ count_queued xs + count_queued ys
count_queued-append [] ys = omega arith
count_queued-append (x ∷ xs) ys = omega (arith, count_queued-append xs ys)

count_queued-rows :
    (rows : Rows MediaFile) → count_queued (map (entry queued none) rows) ≡ length rows
count_queued-rows [] = refl
count_queued-rows (x ∷ rows) = omega (arith, count_queued-rows rows)

-- What a step adds to the numbers of a run.
record Counted (n : ℕ) (r s : AliasRun) : Type 0 where
  entries : length s.progress ≡ length r.progress + n
  counts :
      s.updated + length s.errors + count_queued s.progress
      ≡ r.updated + length r.errors + count_queued r.progress + n

append_entry :
    (e : AliasFileStatus) (r s : AliasRun)
    → is_queued e ≡ 0
    → s.progress ≡ r.progress ++ e ∷ []
    → s.updated + length s.errors ≡ r.updated + length r.errors + 1
    → Counted 1 r s
append_entry e r s other added more = record {
  entries = omega (arith, ap length added, length-append r.progress (e ∷ []));
  counts =
      omega (arith, other, more, ap count_queued added, count_queued-append r.progress (e ∷ []));
}

Counted-one : (n : ℕ) (r s t : AliasRun) → Counted 1 r s → Counted n s t → Counted (suc n) r t
Counted-one n r s t h k = record {
  entries = omega (arith, h.entries, k.entries);
  counts = omega (arith, h.counts, k.counts);
}

record_answer-Counted :
    (x : ℕ × MediaFile) (answer : Generated) (r : AliasRun) → Counted 1 r (record_answer x answer r)
unfolding record_answer
record_answer-Counted x (alias s) r =
    append_entry (entry completed none x) r (record_answer x (alias s) r) refl refl (omega arith)
record_answer-Counted x nothing r =
    append_entry (entry error (some "LLM returned no alias") x) r (record_answer x nothing r) refl
      refl (omega (arith, length-append r.errors (x.0 ∷ [])))
record_answer-Counted x (failing e) r =
    append_entry (entry error (some e) x) r (record_answer x (failing e) r) refl refl
      (omega (arith, length-append r.errors (x.0 ∷ [])))

alias_loop-Counted :
    (generate : String → Generated) (stops : Stops) (rows : Rows MediaFile) (r : AliasRun)
    → Counted (length rows) r (alias_loop generate stops rows r)
unfolding alias_loop
alias_loop-Counted generate stops [] r = record { entries = omega arith; counts = omega arith }
alias_loop-Counted generate stops (x ∷ rows) r = elim (Bool-cases (stops_now stops)) [
  | inl stopped ↦
      rw (stopped, alias_loop)
        (record {
          entries = omega (
            arith,
            length-append r.progress (map (entry queued none) (x ∷ rows)),
            length-map (entry queued none) (x ∷ rows),
          );
          counts = omega (
            arith,
            count_queued-append r.progress (map (entry queued none) (x ∷ rows)),
            count_queued-rows (x ∷ rows),
          );
        })
  | inr goes_on ↦
      let answer = generate (stem x.1.file_path) in
      rw (goes_on, alias_loop)
        (Counted-one (length rows) r (record_answer x answer r)
          (alias_loop generate (later_stops stops) rows (record_answer x answer r))
          (record_answer-Counted x answer r)
          (alias_loop-Counted generate (later_stops stops) rows (record_answer x answer r)))
]

-- The files that are updated, those with an error and those that stay queued make up the total, which is the number of files that
-- are due; so do the updated and the skipped ones; and the progress has an entry for each file.
pub run_alias_generate_counts :
    (generate : String → Generated) (stops : Stops) (force : Bool) (db : Db)
    → (report : AliasReport) × (progress : List AliasFileStatus) × (after : Db)
      × (run_alias_generate generate stops force db ≡ (report, progress, after))
      × (report.total ≡ length (select (is_due force) db.media))
      × (report.updated + length report.errors + count_queued progress ≡ report.total)
      × (report.updated + report.skipped ≡ report.total)
      × (length progress ≡ report.total)
unfolding run_alias_generate
run_alias_generate_counts generate stops force db =
    let due = select (is_due force) db.media in
    let r = alias_loop generate stops due (start_run db) in
    let c = alias_loop-Counted generate stops due (start_run db) in
    (
      report_of (length due) r,
      r.progress,
      r.db,
      refl,
      refl,
      omega (arith, c.counts),
      omega (arith, c.counts),
      omega (arith, c.entries),
    )
