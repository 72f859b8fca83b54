-- ===== src/Aliases.antt =====
-- The generation of aliases: `_run_alias_generate` and `get_alias_progress` of src/filmoteka/api/admin.py. The language model is a
-- parameter; an entry of the report's errors stands for the text about its file.
pub mod Outcome
pub mod Report
mod Tests
use filmoteka.Prelude.{
  ℕ, suc, ◌+◌, ◌-◌, String, Bool, true, false, not, ◌||◌, Option, none, some, List, [], ◌∷◌, ◌++◌,
  or_else, if◌then◌else◌, length, map,
}
use filmoteka.Paths.{name}
use filmoteka.Paths.Suffixes.{stem}
use filmoteka.Table.{Rows, get, put, select}
use filmoteka.Models.{Db}
use filmoteka.Models.Catalog.{MediaFile}
use filmoteka.Pipeline.Run.{Stops}

-- What `deepseek_generate_alias` gives: a text, `None`, or an exception.
pub data Generated : Type 0 where
  alias : String → Generated
  nothing : Generated
  failing : String → Generated

-- The status "processing" is only seen while the call for the file runs.
pub data FileStatus : Type 0 where
  queued processing completed error : FileStatus

pub record AliasFileStatus : Type 0 where
  pub media_id : ℕ
  pub file_name : String
  pub status : FileStatus
  pub message : Option String

abbrev pub entry : FileStatus → Option String → ℕ × MediaFile → AliasFileStatus
entry status message (k, m) = record {
  media_id = k;
  file_name = name m.file_path;
  status = status;
  message = message;
}

-- The variables of the loop, with the entries of the files that it has passed.
pub record AliasRun : Type 0 where
  pub updated : ℕ
  pub errors : List ℕ
  pub progress : List AliasFileStatus
  pub db : Db

abbrev pub save : ℕ → MediaFile → Db → Db
save k m db = record db { media = put k m db.media }

-- The body of the loop, after the call for the file.
unfoldable pub record_answer : ℕ × MediaFile → Generated → AliasRun → AliasRun
record_answer (k, m) (alias s) r = record r {
  updated = suc r.updated;
  progress = r.progress ++ entry completed none (k, m) ∷ [];
  db = save k (record m { media_alias = some s; alias_processed = true }) r.db;
}
record_answer (k, m) nothing r = record r {
  errors = r.errors ++ k ∷ [];
  progress = r.progress ++ entry error (some "LLM returned no alias") (k, m) ∷ [];
}
record_answer (k, m) (failing e) r = record r {
  errors = r.errors ++ k ∷ [];
  progress = r.progress ++ entry error (some e) (k, m) ∷ [];
  db = save k (record m { media_alias = some (or_else m.media_alias (stem m.file_path)) }) r.db;
}

abbrev pub stops_now : Stops → Bool
stops_now [] = false
stops_now (b ∷ stops) = b

abbrev pub later_stops : Stops → Stops
later_stops [] = []
later_stops (b ∷ stops) = stops

-- The loop. What it leaves out stays queued.
unfoldable pub alias_loop : (String → Generated) → Stops → Rows MediaFile → AliasRun → AliasRun
unfolding record_answer
alias_loop generate stops [] r = r
alias_loop generate stops (x ∷ rows) r =
    let continued =
      alias_loop generate (later_stops stops) rows
        (record_answer x (generate (stem x.1.file_path)) r) in
    if stops_now stops
    then record r { progress = r.progress ++ map (entry queued none) (x ∷ rows) }
    else continued

abbrev pub is_due : Bool → ℕ → MediaFile → Bool
is_due force k m = force || not m.alias_processed

pub record AliasReport : Type 0 where
  pub total : ℕ
  pub updated : ℕ
  pub skipped : ℕ
  pub errors : List ℕ

abbrev pub start_run : Db → AliasRun
start_run db = record { updated = 0; errors = []; progress = []; db = db }

abbrev pub report_of : ℕ → AliasRun → AliasReport
report_of total r = record {
  total = total;
  updated = r.updated;
  skipped = total - r.updated;
  errors = r.errors;
}

-- `_run_alias_generate`: the report, the progress it leaves in memory, and the committed database.
unfoldable pub run_alias_generate :
    (String → Generated) → Stops → Bool → Db → AliasReport × List AliasFileStatus × Db
unfolding alias_loop
run_alias_generate generate stops force db =
    let due = select (is_due force) db.media in
    let r = alias_loop generate stops due (start_run db) in
    (report_of (length due) r, r.progress, r.db)

-- `_alias_progress`: the entries of each job.
abbrev pub Progress : Type 0
Progress = ℕ → Option (List AliasFileStatus)

-- An entry as it is shown, with the alias that the file has by now.
abbrev shown_alias : Db → AliasFileStatus → Option String
shown_alias db e = elim e.status [
  | completed ↦ elim (get db.media e.media_id) [ none ↦ none | some m ↦ m.media_alias ]
  | _ ↦ none
]

-- `get_alias_progress`
unfoldable pub get_alias_progress : Progress → ℕ → Db → List (AliasFileStatus × Option String) × ℕ
get_alias_progress progress job_id db = elim (progress job_id) [
  | none ↦ ([], 0)
  | some entries ↦ (map (λ e. (e, shown_alias db e)) entries, length entries)
]
