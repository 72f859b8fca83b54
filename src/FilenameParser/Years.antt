-- ===== src/FilenameParser/Years.antt =====
-- The year of a file name: src/filmoteka/infrastructure/filename_parser.py.
use mathlib.Core.Path.{subst}
use Prim.Native.Char.{Char, code}
use filmoteka.Prelude.{ℕ, ◌≤◌, ◌≡◌, refl, true, some, [], ◌∷◌, ◌==◌, arith, Option-cases, inl, inr}
use filmoteka.Text.Regex.{
  Chars, Test, empty, one, seq, exactly, within, is_digit, search, match_text,
}
use filmoteka.Text.Regex.Sound.{Lang, search-Lang, some_injective}
use filmoteka.FilenameParser.{number_from}
use filmoteka.FilenameParser.Markers.{series_patterns, year_pattern}
use filmoteka.FilenameParser.Parse.{find_series, rest_of, extract, extract_year, parse_stem}

-- Two characters and two more.
record FourOf (t1 t2 t3 t4 : Test) (w : Chars) : Type 0 where
  first : Char
  second : Char
  third : Char
  fourth : Char
  first_test : t1 (code first) ≡ true
  second_test : t2 (code second) ≡ true
  third_test : t3 (code third) ≡ true
  fourth_test : t4 (code fourth) ≡ true
  all : w ≡ first ∷ second ∷ third ∷ fourth ∷ []

four_of :
    (t1 t2 t3 t4 : Test) (w : Chars)
    → Lang (seq (seq (one t1) (seq (one t2) empty)) (seq (one t3) (one t4))) w
    → FourOf t1 t2 t3 t4 w
four_of t1 t2 t3 t4 w
      (
        u,
        v,
        e,
        (u1, u2, e1, (c1, h1, f1), (u3, u4, e3, (c2, h2, f2), f4)),
        (v1, v2, e5, (c3, h3, f5), (c4, h4, f6)),
      ) =
    record {
      first = c1;
      second = c2;
      third = c3;
      fourth = c4;
      first_test = h1;
      second_test = h2;
      third_test = h3;
      fourth_test = h4;
      all = rw (e, e1, f1, e3, f2, f4, e5, f5, f6) refl;
    }

year_text : (w : Chars) → Lang year_pattern w → (1900 ≤ number_from 0 w) × (number_from 0 w ≤ 2029)
unfolding year_pattern exactly
year_text w (inl h) =
    let f = four_of (◌== b'1') (◌== b'9') is_digit is_digit w h in
    let h1 = f.first_test in
    let h2 = f.second_test in
    let h3 = f.third_test in let h4 = f.fourth_test in rw (f.all) (ground arith, ground arith)
year_text w (inr h) =
    let f = four_of (◌== b'2') (◌== b'0') (within b'0' b'2') is_digit w h in
    let h1 = f.first_test in
    let h2 = f.second_test in
    let h3 = f.third_test in let h4 = f.fourth_test in rw (f.all) (ground arith, ground arith)

-- The year of a name, when there is one, is at least 1900 and at most 2029.
pub parse_stem-year :
    (s : Chars) (year : ℕ) → (parse_stem s).year ≡ some year → (1900 ≤ year) × (year ≤ 2029)
unfolding parse_stem extract_year
parse_stem-year s year h =
    let found = (extract (rest_of (find_series series_patterns s) s)).rest in
    elim (Option-cases (search year_pattern found)) [
      | inl e ↦ cc (rw (e, extract_year) at h)
      | inr (m, e) ↦
          subst (λ n. (1900 ≤ n) × (n ≤ 2029)) (some_injective (rw (e, extract_year) at h))
            (year_text (match_text m) (search-Lang year_pattern found m e).1)
    ]
