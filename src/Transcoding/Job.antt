-- ===== src/Transcoding/Job.antt =====
-- The job that transcodes audio, over all media files: `_run_transcode_audio` and `get_transcode_progress` of
-- src/filmoteka/api/admin.py.
use filmoteka.Prelude.{ℕ, Option, none, some, List, [], ◌∷◌, ◌++◌, length, map, if◌then◌else◌}
use filmoteka.Table.{Rows}
use filmoteka.Models.Catalog.{MediaFile}
use filmoteka.Pipeline.Run.{Stops}
use filmoteka.Aliases.{stops_now, later_stops}
use filmoteka.Transcoding.{
  queued, passed, gave_up, crashed, Step, Tools, TranscodeFileStatus, TranscodeRun, World,
  clean_orphan_ac3fix, entry, transcode_file,
}

abbrev pub leave : Rows MediaFile → TranscodeRun → TranscodeRun
leave rows r = record r { progress = r.progress ++ map (entry queued none) rows }

-- The loop. What it leaves out stays queued.
unfoldable pub transcode_loop : Tools → Stops → Rows MediaFile → TranscodeRun → Step
unfolding transcode_file
transcode_loop tools stops [] r = passed r
transcode_loop tools stops (x ∷ rows) r =
    let continued : Step = elim (transcode_file tools x r) [
      | passed s ↦ transcode_loop tools (later_stops stops) rows s
      | gave_up s ↦ gave_up (leave rows s)
      | crashed w ↦ crashed w
    ] in
    if stops_now stops then passed (leave (x ∷ rows) r) else continued

pub record TranscodeReport : Type 0 where
  pub total : ℕ
  pub transcoded : ℕ
  pub web_optimized : ℕ
  pub skipped : ℕ
  pub error_count : ℕ
  pub errors : List ℕ

abbrev pub start_run : World → TranscodeRun
start_run w = record {
  transcoded = 0;
  web_optimized = 0;
  skipped = 0;
  errors = [];
  consecutive_timeouts = 0;
  progress = [];
  world = w;
}

abbrev pub report_of : ℕ → TranscodeRun → TranscodeReport
report_of total r = record {
  total = total;
  transcoded = r.transcoded;
  web_optimized = r.web_optimized;
  skipped = r.skipped;
  error_count = length r.errors;
  errors = r.errors;
}

-- The report, or `none` for a RuntimeError or the error of a commit; with the progress, when it is known, and what is left.
abbrev pub ended : ℕ → Step → Option TranscodeReport × List TranscodeFileStatus × World
ended total (passed r) = (some (report_of total r), r.progress, r.world)
ended total (gave_up r) = (none, r.progress, r.world)
ended total (crashed w) = (none, [], w)

-- `_run_transcode_audio`
unfoldable pub run_transcode_audio :
    Tools → Stops → World → Option TranscodeReport × List TranscodeFileStatus × World
unfolding clean_orphan_ac3fix transcode_loop
run_transcode_audio tools stops w =
    let cleaned = clean_orphan_ac3fix w in
    let rows = cleaned.db.media.rows in
    ended (length rows) (transcode_loop tools stops rows (start_run cleaned))

-- `get_transcode_progress`
unfoldable pub get_transcode_progress :
    (ℕ → Option (List TranscodeFileStatus)) → ℕ → List TranscodeFileStatus × ℕ
get_transcode_progress progress job_id = elim (progress job_id) [
  | none ↦ ([], 0)
  | some entries ↦ (entries, length entries)
]
