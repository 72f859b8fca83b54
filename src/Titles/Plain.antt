-- ===== src/Titles/Plain.antt =====
-- What a title that `clean_title_for_omdb` of src/filmoteka/infrastructure/metadata_providers.py gives is made of.
use mathlib.Core.Path.{subst}
use Prim.Native.Char.{Char, code}
use filmoteka.Prelude.{
  zero, ◌≡◌, ◌⊎◌, refl, sym, ap, some, List, [], ◌∷◌, ◌++◌, String, All, All-append, All-imp,
  Option-cases, inl, inr,
}
use filmoteka.Text.Regex.{
  Chars, Regex, chars, text, Match, one, at_start, at_end, sub, search, match_text, before_match,
  after_match, plus, is_space, is_separator, ◌⨟◌,
}
use filmoteka.Text.Regex.Sound.{search-Lang}
use filmoteka.Text.Strip.{strip-All}
use filmoteka.FilenameParser.{is_cruft}
use filmoteka.FilenameParser.Titles.{Spaced, sub_from-All, sub_from-Spaced}
use filmoteka.Titles.Markers.{tech_markers, broadcast_tails, bracketed_groups, scene_group}
use filmoteka.Titles.{
  remove_patterns, squeeze, without_markers, bracketed_year, lone_year, take_year, is_dash,
  spaced_out, normalise_marks, is_tail_cruft, trim_cruft, clean_title_for_omdb,
}

-- A character of such a title: a blank, a dash, or no separator.
abbrev pub Plain : Char → Type 0
Plain c = Spaced c ⊎ (code c ≡ b'-')

sub-All : (r : Regex) (by s : Chars) → All Plain by → All Plain s → All Plain (sub r by s)
unfolding sub
sub-All r by s = sub_from-All Plain r by [] zero s

blank-Plain : All Plain (" " ∷ [])
blank-Plain = (inl (inl refl), tt)

squeeze-All : (s : Chars) → All Plain s → All Plain (squeeze s)
unfolding squeeze
squeeze-All s h =
    strip-All Plain (sub (plus is_space) (" " ∷ []) s)
      (sub-All (plus is_space) (" " ∷ []) s blank-Plain h)

remove_patterns-All : (s : Chars) (rs : List Regex) → All Plain s → All Plain (remove_patterns s rs)
unfolding remove_patterns
remove_patterns-All s [] h = h
remove_patterns-All s (r ∷ rs) h =
    remove_patterns-All (sub r (" " ∷ []) s) rs (sub-All r (" " ∷ []) s blank-Plain h)

without_markers-All : (raw : Chars) → All Plain (without_markers raw)
unfolding without_markers sub
without_markers-All raw =
    let ungrouped = squeeze (sub bracketed_groups (" " ∷ []) raw) in
    let spaced = sub (plus is_separator) (" " ∷ []) ungrouped in
    let marked = remove_patterns spaced tech_markers in
    let signed = sub scene_group (" " ∷ []) (squeeze marked) in
    squeeze-All (remove_patterns (squeeze signed) broadcast_tails) (
      remove_patterns-All (squeeze signed) broadcast_tails (
        squeeze-All signed (
          sub-All scene_group (" " ∷ []) (squeeze marked) blank-Plain (
            squeeze-All marked (
              remove_patterns-All spaced tech_markers (
                All-imp Spaced Plain spaced (λ c h. inl h) (sub_from-Spaced [] zero ungrouped)))))))

All-split {ℓ} : (P : Char → Type ℓ) (xs ys : Chars) → All P (xs ++ ys) → All P xs × All P ys
All-split P [] ys h = (tt, h)
All-split P (x ∷ xs) ys (hx, h) = let both = All-split P xs ys h in ((hx, both.0), both.1)

-- A blank in the place of a match.
cut-All :
    (r : Regex) (s : Chars) (m : Match)
    → search r s ≡ some m
    → All Plain s
    → All Plain (before_match m ++ " " ∷ after_match m)
cut-All r s m e h =
    let whole =
      All-split Plain (before_match m) (match_text m ++ after_match m)
        (subst (All Plain) (search-Lang r s m e).0 h) in
    All-append Plain (before_match m) (" " ∷ after_match m) whole.0
      (inl (inl refl), (All-split Plain (match_text m) (after_match m) whole.1).1)

take_year-All : (s : Chars) → All Plain s → All Plain (take_year s).1
unfolding take_year
take_year-All s h = elim (Option-cases (search bracketed_year s)) [
  | inr (m, e) ↦ rw (e, take_year) (cut-All bracketed_year s m e h)
  | inl e ↦ elim (Option-cases (search lone_year s)) [
    | inl f ↦ rw (e, f, take_year) h
    | inr (m, f) ↦ rw (e, f, take_year) (cut-All lone_year s m f h)
  ]
]

normalise_marks-All : (s : Chars) → All Plain s → All Plain (normalise_marks s)
unfolding normalise_marks
normalise_marks-All s h =
    let dashed = sub (one is_dash) ("-" ∷ []) s in
    let listed = sub (spaced_out b':') (":" ∷ " " ∷ []) dashed in
    squeeze-All (sub (spaced_out b'-') (" " ∷ "-" ∷ " " ∷ []) (squeeze listed)) (
      sub-All (spaced_out b'-') (" " ∷ "-" ∷ " " ∷ []) (squeeze listed)
        (inl (inl refl), (inr refl, (inl (inl refl), tt)))
        (squeeze-All listed (
          sub-All (spaced_out b':') (":" ∷ " " ∷ []) dashed (inl (inr refl), (inl (inl refl), tt))
            (sub-All (one is_dash) ("-" ∷ []) s (inr refl, tt) h))))

trim_cruft-All : (s : Chars) → All Plain s → All Plain (trim_cruft s)
unfolding trim_cruft
trim_cruft-All s h =
    let headed = sub (at_start ⨟ plus is_cruft) [] s in
    strip-All Plain (sub (plus is_tail_cruft ⨟ at_end) [] headed) (
      sub-All (plus is_tail_cruft ⨟ at_end) [] headed tt
        (sub-All (at_start ⨟ plus is_cruft) [] s tt h))

chars-text : (s : Chars) → chars (text s) ≡ s
unfolding text
chars-text [] = refl
chars-text (c ∷ s) = ap (c ∷◌) (chars-text s)

-- In the title that `clean_title_for_omdb` gives the only separators are blanks and dashes: no dot, underscore or line end is left.
pub clean_title_for_omdb-Plain : (raw : String) → All Plain (chars (clean_title_for_omdb raw).title)
unfolding clean_title_for_omdb
clean_title_for_omdb-Plain raw =
    let dated = (take_year (without_markers (chars raw))).1 in
    subst (All Plain) (sym (chars-text (trim_cruft (normalise_marks dated)))) (
      trim_cruft-All (normalise_marks dated) (
        normalise_marks-All dated
          (take_year-All (without_markers (chars raw)) (without_markers-All (chars raw)))))
