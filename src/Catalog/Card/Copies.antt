-- ===== src/Catalog/Card/Copies.antt =====
-- Which files of an edition `_dedup_tr_media` of src/filmoteka/api/catalog.py shows.
use filmoteka.Prelude.{
  ℕ, append_snoc, append_nil, nil_append, String, ◌≡◌, refl, sym, ap, ◌∙◌, Bool, true, not, ◌&&◌,
  ◌||◌, List, [], ◌∷◌, ◌++◌, str_eq, eq_iff, if◌then◌else◌, keep, map, All, arith, Bool-cases, inl,
  inr,
}
use filmoteka.Table.{Rows}
use filmoteka.Models.Catalog.{MediaFile}
use filmoteka.Importing.{str_mem}
use filmoteka.Catalog.Card.{
  is_copy, base, dict_set, Copies, sort_out, keys, values, stem_of, without_copy, dedup_tr_media,
}

-- The stems of the originals of all copies.
unfoldable pub bases : Rows MediaFile → List String
bases [] = []
bases (x ∷ rows) = if is_copy x then base x ∷ bases rows else bases rows

-- An original of which there is no copy.
abbrev pub is_alone : Rows MediaFile → ℕ × MediaFile → Bool
is_alone rows x = not (is_copy x) && not (str_mem (stem_of x) (bases rows))

keys-dict_set :
    (s k : String) (x : ℕ × MediaFile) (copies : Copies)
    → str_mem s (keys (dict_set k x copies)) ≡ (str_eq k s || str_mem s (keys copies))
unfolding dict_set str_mem
keys-dict_set s k x [] = refl
keys-dict_set s k x ((j, y) ∷ copies) = ground (arith, keys-dict_set s k x copies, eq_iff j k)

keys-sort_out :
    (s : String) (rows : Rows MediaFile) (copies : Copies) (others : Rows MediaFile)
    → str_mem s (keys (sort_out rows copies others).0)
      ≡ (str_mem s (keys copies) || str_mem s (bases rows))
unfolding sort_out bases str_mem
keys-sort_out s [] copies others = ground arith
keys-sort_out s (x ∷ rows) copies others = ground (
  arith,
  keys-sort_out s rows (dict_set (base x) x copies) others,
  keys-sort_out s rows copies (others ++ x ∷ []),
  keys-dict_set s (base x) x copies,
)

others-sort_out :
    (rows : Rows MediaFile) (copies : Copies) (others : Rows MediaFile)
    → (sort_out rows copies others).1 ≡ others ++ keep (λ x. not (is_copy x)) rows
unfolding sort_out keep
others-sort_out [] copies others = sym (append_nil others)
others-sort_out (x ∷ rows) copies others = elim (Bool-cases (is_copy x)) [
  | inl copy ↦ rw (copy, sort_out) (others-sort_out rows (dict_set (base x) x copies) others)
  | inr original ↦
      rw (original, sort_out)
        (others-sort_out rows copies (others ++ x ∷ [])
          ∙ append_snoc others x (keep (λ y. not (is_copy y)) rows))
]

-- A copy under the stem of its original.
abbrev IsFiled : String × (ℕ × MediaFile) → Type 0
IsFiled (k, x) = (k ≡ base x) × (is_copy x ≡ true)

IsFiled-dict_set :
    (x : ℕ × MediaFile) (copies : Copies)
    → is_copy x ≡ true
    → All IsFiled copies
    → All IsFiled (dict_set (base x) x copies)
unfolding dict_set
IsFiled-dict_set x [] copy h = ((refl, copy), tt)
IsFiled-dict_set x ((j, y) ∷ copies) copy h = elim (Bool-cases (str_eq j (base x))) [
  | inl same ↦ rw same (((eq_iff j (base x)).0 same, copy), h.1)
  | inr other ↦ rw other (h.0, IsFiled-dict_set x copies copy h.1)
]

IsFiled-sort_out :
    (rows : Rows MediaFile) (copies : Copies) (others : Rows MediaFile)
    → All IsFiled copies
    → All IsFiled (sort_out rows copies others).0
unfolding sort_out
IsFiled-sort_out [] copies others h = h
IsFiled-sort_out (x ∷ rows) copies others h = elim (Bool-cases (is_copy x)) [
  | inl copy ↦
      rw (copy, sort_out)
        (IsFiled-sort_out rows (dict_set (base x) x copies) others
          (IsFiled-dict_set x copies copy h))
  | inr original ↦ rw (original, sort_out) (IsFiled-sort_out rows copies (others ++ x ∷ []) h)
]

filed-values :
    (copies : Copies)
    → All IsFiled copies
    → All (λ x. is_copy x ≡ true) (values copies) × (map base (values copies) ≡ keys copies)
filed-values [] h = (tt, refl)
filed-values ((k, x) ∷ copies) h =
    let rest = filed-values copies h.1 in ((h.0.1, rest.0), cc (h.0.0, rest.1))

without_copy-keep :
    (stems : List String) (rows all : Rows MediaFile)
    → ((s : String) → str_mem s stems ≡ str_mem s (bases all))
    → without_copy stems (keep (λ x. not (is_copy x)) rows) ≡ keep (is_alone all) rows
unfolding without_copy keep
without_copy-keep stems [] all same = refl
without_copy-keep stems (x ∷ rows) all same =
    ground (arith, without_copy-keep stems rows all same, same (stem_of x))

keys-all :
    (s : String) (rows : Rows MediaFile)
    → str_mem s (keys (sort_out rows [] []).0) ≡ str_mem s (bases rows)
unfolding str_mem
keys-all s rows = keys-sort_out s rows [] []

others-all : (rows : Rows MediaFile) → (sort_out rows [] []).1 ≡ keep (λ x. not (is_copy x)) rows
others-all rows = others-sort_out rows [] [] ∙ nil_append (keep (λ x. not (is_copy x)) rows)

-- The shown files are some copies, whose originals are those of all copies of the edition, and after them, in their order, the
-- originals whose stem is not that of the original of a copy.
pub dedup_tr_media_exact :
    (rows : Rows MediaFile)
    → (copies : Rows MediaFile) × (dedup_tr_media rows ≡ copies ++ keep (is_alone rows) rows)
      × All (λ x. is_copy x ≡ true) copies
      × ((s : String) → str_mem s (map base copies) ≡ str_mem s (bases rows))
unfolding dedup_tr_media
dedup_tr_media_exact rows =
    let sorted = sort_out rows [] [] in
    let filed = filed-values sorted.0 (IsFiled-sort_out rows [] [] tt) in
    let same = λ (s : String). keys-all s rows in
    (
      values sorted.0,
      ap (λ o. values sorted.0 ++ without_copy (keys sorted.0) o) (others-all rows)
          ∙ ap (values sorted.0 ++◌) (without_copy-keep (keys sorted.0) rows rows same),
      filed.0,
      λ s. ap (str_mem s) filed.1 ∙ same s,
    )
