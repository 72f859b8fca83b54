-- ===== src/Library/SamplePaths.antt =====
-- The paths of the sample's media files differ.
use filmoteka.Prelude.{
  Option, ℕ, String, ◌≡◌, sym, ap, ◌∙◌, zero, suc, none, some, arith, str_eq, if◌then◌else◌,
}
use filmoteka.Table.{get, get_row}
use filmoteka.Models.Catalog.{MediaFile}
use filmoteka.Models.Sample.{sample_db}
use filmoteka.Library.Moves.{UniquePaths}

abbrev path_of : Option MediaFile → String
path_of none = ""
path_of (some m) = m.file_path

abbrev number : String → ℕ
number p = if str_eq p "/lib/a.mkv" then 1 else 2

path_at : (i : ℕ) (a : MediaFile) → get sample_db.media i ≡ some a → i ≡ number a.file_path
unfolding get get_row
path_at zero a found = ground arith
path_at (suc zero) a found = ap number (ap path_of found)
path_at (suc (suc zero)) a found = ap number (ap path_of found)
path_at (suc (suc (suc i))) a found = ground arith

pub sample_UniquePaths : UniquePaths sample_db.media
sample_UniquePaths i j a b ga gb same = path_at i a ga ∙ ap number same ∙ sym (path_at j b gb)
