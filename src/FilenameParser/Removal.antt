-- ===== src/FilenameParser/Removal.antt =====
-- The loop of `_extract_markers` of src/filmoteka/infrastructure/filename_parser.py ends.
use filmoteka.Prelude.{
  ℕ, zero, suc, ◌≤◌, ◌<◌, ◌≡◌, refl, ap, Bool, true, false, ◌&&◌, ◌||◌, Option, none, some, List,
  [], ◌∷◌, ◌++◌, length, length-append, All, All-imp, arith, and-eq-true, Bool-cases, Option-cases,
  inl, inr, ◌⊎◌,
}
use filmoteka.Text.Regex.{
  Chars, Regex, empty, one, many, seq, alt, opt, group, not_behind, not_ahead, boundary, at_start,
  at_end, Match, search, match_text, before_match, after_match, cut,
}
use filmoteka.Text.Regex.Sound.{Lang, search-Lang}
use filmoteka.FilenameParser.{first_of, remove_all, extract_from, extract_markers}
use filmoteka.FilenameParser.Markers.{edition_markers, language_markers}

-- Whether every match of a pattern has a character.
abbrev pub consumes : Regex → Bool
consumes empty = false
consumes (one t) = true
consumes (many t) = false
consumes (seq r s) = consumes r || consumes s
consumes (alt r s) = consumes r && consumes s
consumes (opt r) = false
consumes (group r) = consumes r
consumes (not_behind t) = false
consumes (not_ahead t) = false
consumes boundary = false
consumes at_start = false
consumes at_end = false

pub consumes-length : (r : Regex) (w : Chars) → consumes r ≡ true → Lang r w → 1 ≤ length w
consumes-length empty w c h = cc
consumes-length (one t) w c (x, _, e) = rw (e) (ground arith)
consumes-length (many t) w c h = cc
consumes-length (seq r s) w c (u, v, e, hu, hv) = elim (Bool-cases (consumes r)) [
  | inl cr ↦ rw (e) (grind (arith, consumes-length r u cr hu, length-append u v))
  | inr cr ↦
      let cs : consumes s ≡ true = rw (cr) at c in
      rw (e) (grind (arith, consumes-length s v cs hv, length-append u v))
]
consumes-length (alt r s) w c (inl h) =
    consumes-length r w (and-eq-true (consumes r) (consumes s) c).0 h
consumes-length (alt r s) w c (inr h) =
    consumes-length s w (and-eq-true (consumes r) (consumes s) c).1 h
consumes-length (opt r) w c h = cc
consumes-length (group r) w c h = consumes-length r w c h
consumes-length (not_behind t) w c h = cc
consumes-length (not_ahead t) w c h = cc
consumes-length boundary w c h = cc
consumes-length at_start w c h = cc
consumes-length at_end w c h = cc

-- A match that is cut out leaves a shorter text.
length-cut :
    (r : Regex) (s : Chars) (m : Match)
    → consumes r ≡ true
    → search r s ≡ some m
    → length (cut m) < length s
length-cut r s m c h =
    let (whole, lang) = search-Lang r s m h in
    let some_char = consumes-length r (match_text m) c lang in
    rw (whole) (
      grind (
        arith,
        length-append (before_match m) (match_text m ++ after_match m),
        length-append (match_text m) (after_match m),
        length-append (before_match m) (after_match m),
      ))

remove_all-ends :
    (fuel : ℕ) (r : Regex) (s : Chars) (found : Option Chars)
    → consumes r ≡ true
    → length s < fuel
    → search r (remove_all fuel r s found).0 ≡ none
unfolding remove_all
remove_all-ends zero r s found c enough = ground arith
remove_all-ends (suc fuel) r s found c enough = elim (Option-cases (search r s)) [
  | inl e ↦ rw (e, remove_all) e
  | inr (m, e) ↦
      rw (e, remove_all)
        (remove_all-ends fuel r (cut m) (first_of found (match_text m)) c
          (grind (arith, length-cut r s m c e)))
]

abbrev all_consume : List Regex → Bool
all_consume [] = true
all_consume (r ∷ rs) = consumes r && all_consume rs

all_consume-All : (rs : List Regex) → all_consume rs ≡ true → All (λ r. consumes r ≡ true) rs
all_consume-All [] h = tt
all_consume-All (r ∷ rs) h =
    let both = and-eq-true (consumes r) (all_consume rs) h in (both.0, all_consume-All rs both.1)

markers-consume : All (λ r. consumes r ≡ true) (edition_markers ++ language_markers)
unfolding edition_markers language_markers
markers-consume = all_consume-All (edition_markers ++ language_markers) refl

-- For each pattern of an edition or a language, and for every text and value so far, the loop that removes the matches of the
-- pattern ends within one round more than the text has characters: in what it leaves, the pattern is found no more.
pub markers-Removed :
    All
      (λ r.
        (s : Chars) (found : Option Chars)
        → search r (remove_all (suc (length s)) r s found).0 ≡ none)
      (edition_markers ++ language_markers)
markers-Removed =
    All-imp (λ r. consumes r ≡ true)
      (λ r.
        (s : Chars) (found : Option Chars)
        → search r (remove_all (suc (length s)) r s found).0 ≡ none)
      (edition_markers ++ language_markers)
      (λ r c s found. remove_all-ends (suc (length s)) r s found c (ground arith)) markers-consume

-- A loop that had a value keeps it.
remove_all-found :
    (fuel : ℕ) (r : Regex) (s : Chars) (found : Chars)
    → (remove_all fuel r s (some found)).1 ≡ some found
unfolding remove_all
remove_all-found zero r s found = refl
remove_all-found (suc fuel) r s found = elim (Option-cases (search r s)) [
  | inl e ↦ rw (e, remove_all) refl
  | inr (m, e) ↦ rw (e, remove_all) (remove_all-found fuel r (cut m) found)
]

extract_from-found :
    (rs : List Regex) (s found : Chars) → (extract_from rs s (some found)).1 ≡ some found
unfolding extract_from
extract_from-found [] s found = refl
extract_from-found (r ∷ rs) s found =
    rw (extract_from, remove_all-found (suc (length s)) r s found)
      (extract_from-found rs (remove_all (suc (length s)) r s (some found)).0 found)

-- A list of patterns none of which is found in a text.
abbrev pub Absent : List Regex → Chars → Type 0
Absent rs s = All (λ r. search r s ≡ none) rs

-- What the markers of a text say: nothing, and then no pattern is found and the text is untouched; or the first match of the first pattern that is found.
pub extract_markers_lem :
    (rs : List Regex) (s : Chars)
    → (Absent rs s × (extract_markers s rs ≡ (s, none)))
      ⊎ ((before : List Regex) × (r : Regex) × (after : List Regex) × (m : Match) × (rs
            ≡ before ++ r ∷ after)
          × Absent before s
          × (search r s ≡ some m)
          × ((extract_markers s rs).1 ≡ some (match_text m)))
unfolding extract_markers extract_from remove_all
extract_markers_lem [] s = inl (tt, refl)
extract_markers_lem (r ∷ rs) s = elim (Option-cases (search r s)) [
  | inl e ↦ elim (extract_markers_lem rs s) [
    | inl (absent, same) ↦ inl ((e, absent), rw (extract_markers, extract_from, remove_all, e) same)
    | inr (before, q, after, m, split, absent, found, marker) ↦ inr (
      r ∷ before,
      q,
      after,
      m,
      ap (r ∷◌) split,
      (e, absent),
      found,
      rw (extract_markers, extract_from, remove_all, e) marker,
    )
  ]
  | inr (m, e) ↦
      let first : (remove_all (suc (length s)) r s none).1 ≡ some (match_text m) =
        rw (e, remove_all) (remove_all-found (length s) r (cut m) (match_text m)) in
      inr (
        [],
        r,
        rs,
        m,
        refl,
        tt,
        e,
        rw (extract_markers, extract_from, first)
            (extract_from-found rs (remove_all (suc (length s)) r s none).0 (match_text m)),
      )
]
