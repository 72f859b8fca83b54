-- ===== src/Transcoding/Tests.antt =====
-- A job with two files, of which the first has AC3 audio.
use filmoteka.Prelude.{
  ℕ, String, ◌≡◌, refl, true, false, none, some, List, [], ◌∷◌, str_eq, if◌then◌else◌, arith,
}
use filmoteka.Models.Sample.{sample_db, sample_media}
use filmoteka.Table.{get}
use filmoteka.Importing.{str_mem}
use filmoteka.Transcoding.{Tools, World, encoded, failing}
use filmoteka.Transcoding.Job.{TranscodeReport, run_transcode_audio}
use filmoteka.Transcoding.Originals.{TranscodedItem, list_transcoded_files}
use filmoteka.Transcoding.Kept.{run_transcode_audio-Keeps}

abbrev tools : Tools
tools = record {
  probe = λ p. some (some (if str_eq p "/lib/a.mkv" then "AC3" else "aac"));
  to_aac = λ source target. encoded;
  remux = λ source target. encoded;
}

abbrev world : World
world = record { files = "/lib/a.mkv" ∷ "/lib/b.mkv" ∷ []; db = sample_db }

abbrev report : TranscodeReport
report = record {
  total = 2;
  transcoded = 1;
  web_optimized = 1;
  skipped = 1;
  error_count = 0;
  errors = [];
}

reported : (run_transcode_audio tools [] world).0 ≡ some report
unfolding run_transcode_audio filmoteka.Table.delete str_mem filmoteka.Table.select
    filmoteka.Prelude.any filmoteka.Paths.join filmoteka.Paths.split filmoteka.Paths.name
    filmoteka.Prelude.keep filmoteka.Table.put
reported = refl

beside_original :
    (run_transcode_audio tools [] world).2.files
    ≡ "/lib/a.tr.mp4" ∷ "/lib/a.mkv" ∷ "/lib/b.mkv" ∷ []
unfolding run_transcode_audio filmoteka.Table.delete str_mem filmoteka.Table.select
    filmoteka.Prelude.any filmoteka.Paths.join filmoteka.Paths.split filmoteka.Paths.name
    filmoteka.Prelude.keep filmoteka.Table.put
beside_original = refl

run_transcode_audio-Keeps_example :
    str_mem "/lib/a.mkv" (run_transcode_audio tools [] world).2.files ≡ true
unfolding filmoteka.Metadata.is_substring filmoteka.Transcoding.temp_path filmoteka.Paths.join
    filmoteka.Paths.split filmoteka.Paths.name filmoteka.Prelude.keep filmoteka.Transcoding.tr_mkv
    filmoteka.Transcoding.tr_mp4 str_mem
run_transcode_audio-Keeps_example =
    run_transcode_audio-Keeps tools [] world "/lib/a.mkv" refl
      (
        record { no_temp = refl; no_mkv = refl; no_mp4 = refl },
        (record { no_temp = refl; no_mkv = refl; no_mp4 = refl }, tt),
      )
      refl

-- Two files that differ in the suffix only, both with AC3 audio.
abbrev twins : World
twins = record {
  files = "/lib/a.mkv" ∷ "/lib/a.avi" ∷ [];
  db = record sample_db {
    media = record {
      next_id = 3;
      rows = (1, sample_media 1 "/lib/a.mkv") ∷ (2, sample_media 2 "/lib/a.avi") ∷ [];
    };
  };
}

abbrev all_ac3 : Tools
all_ac3 = record tools { probe = λ p. some (some "ac3") }

-- The job ends with an error, and the second row names a file that is gone.
twins_lost : str_mem "/lib/a.tr.avi" (run_transcode_audio all_ac3 [] twins).2.files ≡ false
unfolding str_mem run_transcode_audio filmoteka.Table.delete filmoteka.Table.select
    filmoteka.Prelude.any filmoteka.Paths.join filmoteka.Paths.split filmoteka.Paths.name
    filmoteka.Prelude.keep filmoteka.Table.put
twins_lost = refl

twins_row :
    get (run_transcode_audio all_ac3 [] twins).2.db.media 2
    ≡ some (record (sample_media 2 "/lib/a.avi") {
      file_path = "/lib/a.tr.avi";
      audio_codec = some "aac";
    })
unfolding get run_transcode_audio filmoteka.Table.delete str_mem filmoteka.Table.select
    filmoteka.Prelude.any filmoteka.Paths.join filmoteka.Paths.split filmoteka.Paths.name
    filmoteka.Prelude.keep filmoteka.Table.put
twins_row = refl

-- After a job the original of the transcoded file is looked for under the suffix of the copy.
abbrev looked_for : TranscodedItem
looked_for = record {
  media_id = 1;
  film_title = "A";
  transcoded_path = "/lib/a.tr.mp4";
  original_path = "/lib/a.mp4";
  original_exists = false;
}

originals_of_job :
    list_transcoded_files
      (run_transcode_audio tools [] world).2.files
      (run_transcode_audio tools [] world).2.db
    ≡ looked_for ∷ []
unfolding list_transcoded_files run_transcode_audio filmoteka.Table.delete filmoteka.Table.select
    filmoteka.Prelude.any filmoteka.Paths.join filmoteka.Paths.split filmoteka.Paths.name
    filmoteka.Prelude.keep filmoteka.Table.put get
originals_of_job = refl
