-- ===== src/Transcoding/Kept.antt =====
-- The files that `_run_transcode_audio` of src/filmoteka/api/admin.py leaves alone.
use mathlib.Core.Path.{subst}
use filmoteka.Prelude.{
  ℕ, suc, String, ◌≡◌, ◌⊎◌, refl, Bool, true, false, List, [], ◌∷◌, All, str_eq, eq_iff, arith,
  Bool-cases, Option-cases, inl, inr, leb,
}
use filmoteka.Table.{Rows, select, delete, where_rows, without_rows}
use filmoteka.Models.Catalog.{MediaFile}
use filmoteka.Importing.{str_mem}
use filmoteka.Metadata.{is_substring}
use filmoteka.Pipeline.Run.{Stops}
use filmoteka.Library.{delete_media_rows}
use filmoteka.Layout.Move.{mem-keep}
use filmoteka.Aliases.{stops_now, later_stops}
use filmoteka.Transcoding.{
  is_taken, World, unlink, wrote, partly_wrote, is_orphan, unlink_rows, clean_orphan_ac3fix,
  TranscodeRun, temp_path, tr_mkv, tr_mp4, is_ac3, Encoding, encoded, failing, timed_out, broken,
  Tools, Step, passed, gave_up, crashed, web_optimise, place_transcoded, transcode, transcode_file,
}
use filmoteka.Transcoding.Job.{transcode_loop, start_run, ended, run_transcode_audio}

-- A path that is none of the three beside a file.
pub record IsSpared (p : String) (x : ℕ × MediaFile) : Type 0 where
  pub no_temp : str_eq (temp_path x.1.file_path) p ≡ false
  pub no_mkv : str_eq (tr_mkv x.1.file_path) p ≡ false
  pub no_mp4 : str_eq (tr_mp4 x.1.file_path) p ≡ false

-- A path that is there after a step.
abbrev StepKeeps : String → Step → Type 0
StepKeeps p (passed r) = str_mem p r.world.files ≡ true
StepKeeps p (gave_up r) = str_mem p r.world.files ≡ true
StepKeeps p (crashed w) = str_mem p w.files ≡ true

pub mem-unlink :
    (p q : String) (files : List String)
    → str_eq p q ≡ false
    → str_mem q files ≡ true
    → str_mem q (unlink p files) ≡ true
mem-unlink p q files other there = grind (arith, mem-keep p q files, eq_iff p q)

mem-wrote :
    (p q : String) (files : List String) → str_mem q files ≡ true → str_mem q (wrote p files) ≡ true
unfolding str_mem
mem-wrote p q files there = ground arith

mem-partly_wrote :
    (left : Bool) (p q : String) (files : List String)
    → str_mem q files ≡ true
    → str_mem q (partly_wrote left p files) ≡ true
mem-partly_wrote true p q files there = mem-wrote p q files there
mem-partly_wrote false p q files there = there

web_optimise-Keeps :
    (p : String) (how : Encoding) (x : ℕ × MediaFile) (row : MediaFile) (r : TranscodeRun)
    → IsSpared p x
    → str_mem p r.world.files ≡ true
    → StepKeeps p (web_optimise how x row r)
unfolding web_optimise
web_optimise-Keeps p (failing left message) (k, m) row r spared there =
    mem-partly_wrote left (tr_mp4 m.file_path) p r.world.files there
web_optimise-Keeps p (timed_out left) (k, m) row r spared there =
    mem-partly_wrote left (tr_mp4 m.file_path) p r.world.files there
web_optimise-Keeps p (broken message) (k, m) row r spared there =
    mem-unlink (tr_mp4 m.file_path) p r.world.files spared.no_mp4 there
web_optimise-Keeps p encoded (k, m) row r spared there =
    let kept =
      mem-unlink (tr_mkv m.file_path) p (wrote (tr_mp4 m.file_path) r.world.files) spared.no_mkv
        (mem-wrote (tr_mp4 m.file_path) p r.world.files there) in
    elim (Bool-cases (is_taken k (tr_mp4 m.file_path) r.world.db)) [
      | inl e ↦ rw (web_optimise, e) kept
      | inr e ↦ rw (web_optimise, e) kept
    ]

place_transcoded-Keeps :
    (p : String) (tools : Tools) (x : ℕ × MediaFile) (r : TranscodeRun)
    → IsSpared p x
    → str_mem p r.world.files ≡ true
    → StepKeeps p (place_transcoded tools x r)
unfolding place_transcoded
place_transcoded-Keeps p tools (k, m) r spared there =
    let moved =
      mem-wrote (tr_mkv m.file_path) p (unlink (temp_path m.file_path) r.world.files)
        (mem-unlink (temp_path m.file_path) p r.world.files spared.no_temp there) in
    elim (Bool-cases (is_taken k (tr_mkv m.file_path) r.world.db)) [
      | inl e ↦ rw (place_transcoded, e) moved
      | inr e ↦
          rw (place_transcoded, e)
            (web_optimise-Keeps p (tools.remux (tr_mkv m.file_path) (tr_mp4 m.file_path)) (k, m) _ _
              spared moved)
    ]

transcode-Keeps :
    (p : String) (tools : Tools) (how : Encoding) (x : ℕ × MediaFile) (r : TranscodeRun)
    → IsSpared p x
    → str_mem p r.world.files ≡ true
    → StepKeeps p (transcode tools how x r)
unfolding transcode
transcode-Keeps p tools encoded x r spared there = place_transcoded-Keeps p tools x r spared there
transcode-Keeps p tools (failing left message) (k, m) r spared there =
    mem-unlink (temp_path m.file_path) p r.world.files spared.no_temp there
transcode-Keeps p tools (broken message) (k, m) r spared there =
    mem-unlink (temp_path m.file_path) p r.world.files spared.no_temp there
transcode-Keeps p tools (timed_out left) (k, m) r spared there =
    let kept = mem-unlink (temp_path m.file_path) p r.world.files spared.no_temp there in
    elim (Bool-cases (leb 3 (suc r.consecutive_timeouts))) [
      | inl e ↦ rw (transcode, e) kept
      | inr e ↦ rw (transcode, e) kept
    ]

transcode_file-Keeps :
    (p : String) (tools : Tools) (x : ℕ × MediaFile) (r : TranscodeRun)
    → IsSpared p x
    → str_mem p r.world.files ≡ true
    → StepKeeps p (transcode_file tools x r)
unfolding transcode_file
transcode_file-Keeps p tools (k, m) r spared there =
    elim (Bool-cases (str_mem m.file_path r.world.files)) [
      | inr gone ↦ rw (transcode_file, gone) there
      | inl here ↦ elim (Option-cases (tools.probe m.file_path)) [
        | inl e ↦ rw (transcode_file, here, e) there
        | inr (codec, e) ↦ elim (Bool-cases (is_ac3 codec)) [
          | inr f ↦ rw (transcode_file, here, e, f) there
          | inl f ↦
              rw (transcode_file, here, e, f)
                (transcode-Keeps p tools (tools.to_aac m.file_path (temp_path m.file_path)) (k, m) r
                  spared there)
        ]
      ]
    ]

Step-cases :
    (s : Step)
    → ((r : TranscodeRun) × (s ≡ passed r))
      ⊎ ((r : TranscodeRun) × (s ≡ gave_up r))
      ⊎ ((w : World) × (s ≡ crashed w))
Step-cases (passed r) = inl (r, refl)
Step-cases (gave_up r) = inr (inl (r, refl))
Step-cases (crashed w) = inr (inr (w, refl))

transcode_loop-Keeps :
    (p : String) (tools : Tools) (stops : Stops) (rows : Rows MediaFile) (r : TranscodeRun)
    → All (IsSpared p) rows
    → str_mem p r.world.files ≡ true
    → StepKeeps p (transcode_loop tools stops rows r)
unfolding transcode_loop
transcode_loop-Keeps p tools stops [] r spared there = there
transcode_loop-Keeps p tools stops (x ∷ rows) r spared there =
    let kept = transcode_file-Keeps p tools x r spared.0 there in
    elim (Bool-cases (stops_now stops)) [
      | inl stopped ↦ rw (transcode_loop, stopped) there
      | inr on ↦ elim (Step-cases (transcode_file tools x r)) [
        | inl (s, e) ↦
            rw (transcode_loop, on, e)
              (transcode_loop-Keeps p tools (later_stops stops) rows s spared.1
                (subst (StepKeeps p) e kept))
        | inr (inl (s, e)) ↦ rw (transcode_loop, on, e) (subst (StepKeeps p) e kept)
        | inr (inr (w, e)) ↦ rw (transcode_loop, on, e) (subst (StepKeeps p) e kept)
      ]
    ]

unlink_rows-Keeps :
    (p : String) (rows : Rows MediaFile) (files : List String)
    → All (λ x. str_eq x.1.file_path p ≡ false) rows
    → str_mem p files ≡ true
    → str_mem p (unlink_rows rows files) ≡ true
unfolding unlink_rows
unlink_rows-Keeps p [] files other there = there
unlink_rows-Keeps p ((k, m) ∷ rows) files other there =
    unlink_rows-Keeps p rows (unlink m.file_path files) other.1
      (mem-unlink m.file_path p files other.0 there)

All-without_rows {ℓ} :
    (P : ℕ × MediaFile → Type ℓ) (q : ℕ → MediaFile → Bool) (rows : Rows MediaFile)
    → All P rows
    → All P (without_rows q rows)
unfolding without_rows
All-without_rows P q [] h = tt
All-without_rows P q ((k, m) ∷ rows) (hx, h) = elim (Bool-cases (q k m)) [
  | inl e ↦ rw (without_rows, e) (All-without_rows P q rows h)
  | inr e ↦ rw (without_rows, e) (hx, All-without_rows P q rows h)
]

-- A path without the mark of the temporary files is none of an orphan.
orphans-differ :
    (p : String) (rows : Rows MediaFile)
    → is_substring ".ac3fix" p ≡ false
    → All (λ x. str_eq x.1.file_path p ≡ false) (where_rows is_orphan rows)
unfolding where_rows
orphans-differ p [] h = tt
orphans-differ p ((k, m) ∷ rows) h = elim (Bool-cases (is_orphan k m)) [
  | inl e ↦ rw (where_rows, e) (grind (arith, eq_iff m.file_path p, e, h), orphans-differ p rows h)
  | inr e ↦ rw (where_rows, e) (orphans-differ p rows h)
]

-- However the job that transcodes audio ends, stopped, given up or with an error, a file that was there is there still, when its
-- path has no mark of a temporary file and is none of the three that are made beside a media file.
pub run_transcode_audio-Keeps :
    (tools : Tools) (stops : Stops) (w : World) (p : String)
    → is_substring ".ac3fix" p ≡ false
    → All (IsSpared p) w.db.media.rows
    → str_mem p w.files ≡ true
    → str_mem p (run_transcode_audio tools stops w).2.files ≡ true
unfolding run_transcode_audio clean_orphan_ac3fix delete_media_rows delete select
run_transcode_audio-Keeps tools stops w p unmarked spared there =
    let cleaned = clean_orphan_ac3fix w in
    let kept =
      unlink_rows-Keeps p (select is_orphan w.db.media) w.files
        (orphans-differ p w.db.media.rows unmarked) there in
    let left = All-without_rows (IsSpared p) is_orphan w.db.media.rows spared in
    ended-Keeps _ (transcode_loop tools stops cleaned.db.media.rows (start_run cleaned))
      (transcode_loop-Keeps p tools stops cleaned.db.media.rows (start_run cleaned) left kept)
  where
    ended-Keeps : (total : ℕ) (s : Step) → StepKeeps p s → str_mem p (ended total s).2.files ≡ true
    ended-Keeps total (passed r) h = h
    ended-Keeps total (gave_up r) h = h
    ended-Keeps total (crashed v) h = h
