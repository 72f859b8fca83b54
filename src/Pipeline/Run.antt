-- ===== src/Pipeline/Run.antt =====
-- `_bridge_to_catalog` to its end, and `run_import`, of src/filmoteka/domain/importing/pipeline.py. Every call sees one
-- time of the clock.
use filmoteka.Prelude.{
  ℕ, suc, String, Bool, true, false, Option, none, some, List, [], ◌∷◌, ◌++◌, ◌==◌, if◌then◌else◌,
  length,
}
use filmoteka.Table.{Rows, Table, put, select}
use filmoteka.Models.{Db}
use filmoteka.Models.Importing.{ImportCandidate, CandidateStatus, is_pending, is_probed}
use filmoteka.Importing.{Files, Config, MediaProbeResult, scan_downloads, probe_candidate}
use filmoteka.Pipeline.{
  Services, missing, unreadable, hashed, find_media_by_path, find_media_by_content,
}
use filmoteka.Pipeline.Bridge.{prepare, insert_media}

-- How a call of `_bridge_to_catalog` ends: `True`, `False`, `False` with a counted duplicate, or an exception.
pub data Outcome : Type 0 where
  created skipped duplicate failed : Outcome

module _ (services : Services) (now : ℕ) where
  -- From the lookup of the media file on.
  unfoldable pub index_file : ImportCandidate → (ℕ × ℕ) × Db → Outcome × Db
  unfolding insert_media
  index_file c (keys, db) = elim (find_media_by_path db c.file_path) [
    | some _ ↦ (skipped, db)
    | none ↦ elim (services.content c.file_path) [
      | missing ↦ (created, insert_media services now c keys none db)
      | unreadable ↦ (failed, db)
      | hashed h ↦ elim (find_media_by_content db h) [
        | some _ ↦ (duplicate, db)
        | none ↦ (created, insert_media services now c keys (some h) db)
      ]
    ]
  ]

  -- An exception before that leaves what was done so far in the session.
  abbrev pub index_prepared : ImportCandidate → Option (ℕ × ℕ) × Db → Outcome × Db
  index_prepared c (none, db) = (failed, db)
  index_prepared c (some keys, db) = index_file c (keys, db)

  unfoldable pub bridge_to_catalog : ImportCandidate → Db → Outcome × Db
  unfolding prepare index_file
  bridge_to_catalog c db = index_prepared c (prepare services now c db)

-- `ImportReport`
pub record ImportReport : Type 0 where
  pub files_found : ℕ
  pub files_probed : ℕ
  pub files_indexed : ℕ
  pub films_created : ℕ
  pub duplicates_skipped : ℕ
  pub errors : List String  -- the paths of the candidates that failed

unfoldable pub count_outcome : ImportCandidate → Outcome → ImportReport → ImportReport
count_outcome c created r = record r {
  files_indexed = suc r.files_indexed;
  films_created = suc r.films_created;
}
count_outcome c skipped r = r
count_outcome c duplicate r = record r { duplicates_skipped = suc r.duplicates_skipped }
count_outcome c failed r = record r { errors = r.errors ++ c.file_path ∷ [] }

unfoldable pub mark_imported : ℕ → ImportCandidate → Outcome → Db → Db
mark_imported k c created db = record db {
  candidates = put k (record c { status = CandidateStatus.imported }) db.candidates;
}
mark_imported k c skipped db = db
mark_imported k c duplicate db = db
mark_imported k c failed db = db

-- What `should_stop_fn` answers before each candidate.
abbrev pub Stops : Type 0
Stops = List Bool

-- The loop of step 3. No more answers mean that there is nobody to stop it.
unfoldable pub bridge_all :
    Services → ℕ → Stops → Rows ImportCandidate → ImportReport × Db → ImportReport × Db
unfolding bridge_to_catalog count_outcome mark_imported
bridge_all services now stops [] (r, db) = (r, db)
bridge_all services now (true ∷ stops) ((k, c) ∷ rest) (r, db) = (r, db)
bridge_all services now (false ∷ stops) ((k, c) ∷ rest) (r, db) =
    let ended = bridge_to_catalog services now c db in
    bridge_all services now stops rest
      (count_outcome c ended.0 r, mark_imported k c ended.0 ended.1)
bridge_all services now [] ((k, c) ∷ rest) (r, db) =
    let ended = bridge_to_catalog services now c db in
    bridge_all services now [] rest (count_outcome c ended.0 r, mark_imported k c ended.0 ended.1)

-- `probe_candidates(candidates, db)`, on the rows.
unfoldable pub probe_rows :
    (String → Option MediaProbeResult) → ℕ → Rows ImportCandidate → Rows ImportCandidate
unfolding probe_candidate
probe_rows probe now [] = []
probe_rows probe now ((k, c) ∷ rest) = (k, probe_candidate probe now c) ∷ probe_rows probe now rest

unfoldable pub save_rows : Rows ImportCandidate → Table ImportCandidate → Table ImportCandidate
save_rows [] t = t
save_rows ((k, c) ∷ rest) t = save_rows rest (put k c t)

unfoldable pub with_status : (CandidateStatus → Bool) → Rows ImportCandidate → Rows ImportCandidate
with_status p [] = []
with_status p ((k, c) ∷ rest) =
    if p c.status then (k, c) ∷ with_status p rest else with_status p rest

-- `probed or [c for c in candidates if c.status == CANDIDATE_PENDING]`
unfoldable pub to_bridge : Rows ImportCandidate → Rows ImportCandidate → Rows ImportCandidate
unfolding with_status
to_bridge [] candidates = with_status is_pending candidates
to_bridge (x ∷ probed) candidates = x ∷ probed

abbrev pub empty_report : ℕ → ImportReport
empty_report found = record {
  files_found = found;
  files_probed = 0;
  files_indexed = 0;
  films_created = 0;
  duplicates_skipped = 0;
  errors = [];
}

-- Steps 2 and 3, on the candidates of the run.
unfoldable pub import_candidates :
    Services
    → Option (String → Option MediaProbeResult)
    → ℕ
    → Stops
    → ℕ
    → Rows ImportCandidate
    → Db
    → ImportReport × Db
unfolding probe_rows save_rows with_status to_bridge bridge_all
import_candidates services ffprobe now stops found candidates db =
    let refreshed : Rows ImportCandidate = elim ffprobe [
      | none ↦ candidates
      | some probe ↦ probe_rows probe now candidates
    ] in
    let probed = with_status is_probed refreshed in
    bridge_all services now stops (to_bridge probed refreshed) (
      record (empty_report found) { files_probed = length probed },
      record db { candidates = save_rows refreshed db.candidates },
    )

-- `if not candidates: return report` leaves before the commit, so that the session's end drops the run.
unfoldable pub commit_import :
    Services
    → Option (String → Option MediaProbeResult)
    → ℕ
    → Stops
    → ℕ
    → Rows ImportCandidate
    → Db
    → Db
    → ImportReport × Db
unfolding import_candidates
commit_import services ffprobe now stops found [] scanned db = (empty_report found, db)
commit_import services ffprobe now stops found (x ∷ candidates) scanned db =
    import_candidates services ffprobe now stops found (x ∷ candidates) scanned

-- `run_import` with the end of its session: the report and the committed database; `none` is the exception of the scan.
-- `ffprobe` is `none` where the program is not on the path.
unfoldable pub run_import :
    Services
    → Files
    → Config
    → Option (String → Option MediaProbeResult)
    → ℕ
    → Stops
    → Db
    → Option (ImportReport × Db)
unfolding commit_import
run_import services files config ffprobe now stops db =
    elim (scan_downloads files config now now db) [
      | none ↦ none
      | some ((run_id, run), scanned) ↦ some (
          commit_import services ffprobe now stops run.file_count
            (select (λ _ c. c.import_run_id == run_id) scanned.candidates) scanned db)
    ]
