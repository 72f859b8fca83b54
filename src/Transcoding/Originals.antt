-- ===== src/Transcoding/Originals.antt =====
-- The transcoded files and their originals: `list_transcoded_files` and `delete_transcoded_original` of src/filmoteka/api/admin.py.
use filmoteka.Prelude.{
  ℕ, String, ◌≡◌, Bool, true, not, none, some, List, [], ◌∷◌, eq_iff, if◌then◌else◌, arith,
  Bool-cases, inl, inr,
}
use filmoteka.Paths.{concat}
use filmoteka.Paths.Suffixes.{stem, suffix, inner_suffixes, beside}
use filmoteka.Text.Regex.{Chars, chars, text, reversed}
use filmoteka.Table.{Rows, get}
use filmoteka.Models.{Db}
use filmoteka.Models.Catalog.{MediaFile}
use filmoteka.Importing.{str_mem}
use filmoteka.DeepSeek.Unfence.{finishes}
use filmoteka.Transcoding.{unlink}
use filmoteka.Transcoding.Kept.{mem-unlink}

-- `".tr" in p.suffixes[:-1]`
unfoldable pub is_tr : String → Bool
unfolding inner_suffixes str_mem
is_tr p = str_mem "tr" (inner_suffixes p)

drop_three : Chars → Chars
drop_three (a ∷ b ∷ c ∷ s) = s
drop_three _ = []

-- `p.stem[:-3] if p.stem.endswith(".tr") else p.stem`
unfoldable pub original_stem : String → String
unfolding stem finishes drop_three text
original_stem p =
    let s = chars (stem p) in
    if finishes (chars ".tr") s then text (reversed (drop_three (reversed s [])) []) else stem p

unfoldable pub original_path : String → String
unfolding original_stem suffix beside
original_path p = beside p (concat (original_stem p) (suffix p))

pub record TranscodedItem : Type 0 where
  pub media_id : ℕ
  pub film_title : String
  pub transcoded_path : String
  pub original_path : String
  pub original_exists : Bool

unfoldable pub title_of_edition : Db → ℕ → String
title_of_edition db edition_id = elim (get db.editions edition_id) [
  | none ↦ "Unknown"
  | some e ↦ elim (get db.films e.film_id) [ none ↦ "Unknown" | some f ↦ f.title ]
]

unfoldable pub transcoded_items : List String → Db → Rows MediaFile → List TranscodedItem
unfolding is_tr original_path title_of_edition str_mem
transcoded_items files db [] = []
transcoded_items files db ((k, m) ∷ rows) =
    let others = transcoded_items files db rows in
    if is_tr m.file_path
    then record {
      media_id = k;
      film_title = title_of_edition db m.edition_id;
      transcoded_path = m.file_path;
      original_path = original_path m.file_path;
      original_exists = str_mem (original_path m.file_path) files;
    }
      ∷ others
    else others

-- `list_transcoded_files`: the items; the total is their number.
unfoldable pub list_transcoded_files : List String → Db → List TranscodedItem
unfolding transcoded_items
list_transcoded_files files db = transcoded_items files db db.media.rows

pub data Deleted : Type 0 where
  deleted refused file_not_found os_error : Deleted

-- `delete_transcoded_original`; the flag says whether `unlink` raises an OSError.
unfoldable pub delete_transcoded_original : Bool → String → List String → Deleted × List String
unfolding is_tr str_mem
delete_transcoded_original faulty p files =
    if is_tr p
    then (refused, files)
    else if not (str_mem p files)
    then (file_not_found, files)
    else if faulty
    then (os_error, files)
    else (deleted, unlink p files)

-- Whatever path is given to the deletion of an original, a transcoded file that is there stays there.
pub delete_transcoded_original-Keeps :
    (faulty : Bool) (p q : String) (files : List String)
    → is_tr q ≡ true
    → str_mem q files ≡ true
    → str_mem q (delete_transcoded_original faulty p files).1 ≡ true
unfolding delete_transcoded_original
delete_transcoded_original-Keeps faulty p q files transcoded there = elim (Bool-cases (is_tr p)) [
  | inl tr ↦ rw (delete_transcoded_original, tr) there
  | inr original ↦ elim (Bool-cases (str_mem p files)) [
    | inr gone ↦ rw (delete_transcoded_original, original, gone) there
    | inl here ↦ elim (Bool-cases faulty) [
      | inl fault ↦ rw (delete_transcoded_original, original, here, fault) there
      | inr fine ↦
          rw (delete_transcoded_original, original, here, fine)
            (mem-unlink p q files (grind (arith, eq_iff p q, transcoded, original)) there)
    ]
  ]
]
