-- ===== src/FilenameParser/Titles.antt =====
-- The characters of a clean title: `_clean_title` of src/filmoteka/infrastructure/filename_parser.py.
use mathlib.Core.List.{append_assoc}
use Prim.Native.Char.{Char, code}
use filmoteka.Prelude.{
  ℕ, zero, suc, ◌-◌, ◌≤◌, ◌≡◌, ◌⊎◌, refl, sym, ap, ◌∙◌, true, false, none, some, List, [], ◌∷◌,
  ◌++◌, length, length-append, All, All-append, arith, Bool-cases, Option-cases, inl, inr,
}
use filmoteka.Text.Regex.{
  Chars, Test, Regex, Place, place, at_start, at_end, ends, first_end, many_ends, each_end, one_end,
  step, sub_from, sub, plus, is_separator, ◌⨟◌,
}
use filmoteka.Text.Regex.Sound.{ends-Ends, Ends, first_end-All}
use filmoteka.Text.Strip.{strip, strip-All}
use filmoteka.FilenameParser.{is_cruft, clean_title}
use filmoteka.FilenameParser.Removal.{consumes, consumes-length}

many_ends-filled :
    (t : Test) (seen rest : Chars) (groups : List Chars) (qs : List Place)
    → first_end (many_ends t seen rest groups ++ qs) ≡ none
    → ⊥
unfolding many_ends
many_ends-filled t seen [] groups qs h = cc
many_ends-filled t seen (c ∷ rest) groups qs h = elim (Bool-cases (t (code c))) [
  | inl e ↦
      let here : Place = record { seen = seen; rest = c ∷ rest; groups = groups } in
      let longer = many_ends t (c ∷ seen) rest groups in
      many_ends-filled t (c ∷ seen) rest groups (here ∷ qs)
        (ap first_end (sym (append_assoc longer (here ∷ []) qs)) ∙ rw (e, many_ends) at h)
  | inr e ↦ cc (rw (e, many_ends) at h)
]

-- Where a run of a kind of characters is not found, there is another character.
plus-none :
    (t : Test) (c : Char) (seen rest : Chars)
    → first_end (ends (plus t) (place seen (c ∷ rest))) ≡ none
    → t (code c) ≡ false
unfolding ends each_end one_end step
plus-none t c seen rest h = elim (Bool-cases (t (code c))) [
  | inl e ↦ absurd (many_ends-filled t (c ∷ seen) rest [] [] (rw (e) at h))
  | inr e ↦ e
]

-- A text that parts of it are cut out of, and whose characters some text replaces.
pub sub_from-All {ℓ} :
    (P : Char → Type ℓ) (r : Regex) (by seen : Chars) (skip : ℕ) (s : Chars)
    → All P by
    → All P s
    → All P (sub_from r by seen skip s)
unfolding sub_from
sub_from-All P r by seen skip [] hb h = tt
sub_from-All P r by seen (suc skip) (c ∷ s) hb (hc, h) = sub_from-All P r by (c ∷ seen) skip s hb h
sub_from-All P r by seen zero (c ∷ s) hb (hc, h) =
    elim (Option-cases (first_end (ends r (place seen (c ∷ s))))) [
      | inl e ↦ rw (e, sub_from) (hc, sub_from-All P r by (c ∷ seen) zero s hb h)
      | inr (q, e) ↦
          rw (e, sub_from)
            (chosen (λ skip. sub_from-All P r by (c ∷ seen) skip s hb h)
              (length (c ∷ s) - length q.rest))
    ]
  where
    chosen :
        ((skip : ℕ) → All P (sub_from r by (c ∷ seen) skip s))
        → (n : ℕ)
        → All P (elim n [
          | zero ↦ c ∷ sub_from r by (c ∷ seen) zero s
          | suc more ↦ by ++ sub_from r by (c ∷ seen) more s
        ])
    chosen later zero = (hc, later zero)
    chosen later (suc more) = All-append P by (sub_from r by (c ∷ seen) more s) hb (later more)

-- A character of a clean title: a blank, or no separator.
abbrev pub Spaced : Char → Type 0
Spaced c = (c ≡ " ") ⊎ (is_separator (code c) ≡ false)

-- A match that has a character moves on.
moves_on :
    (r : Regex) (seen s : Chars) (q : Place)
    → consumes r ≡ true
    → first_end (ends r (place seen s)) ≡ some q
    → 1 ≤ length s - length q.rest
moves_on r seen s q c h =
    let (w, over, lang) =
      first_end-All (Ends r (place seen s)) (ends r (place seen s)) q (ends-Ends r (place seen s))
        h in
    let some_char = consumes-length r w c lang in
    let whole : length s ≡ length (w ++ q.rest) = ap length over.rest in
    grind (arith, length-append w q.rest)

pub sub_from-Spaced :
    (seen : Chars) (skip : ℕ) (s : Chars)
    → All Spaced (sub_from (plus is_separator) (" " ∷ []) seen skip s)
unfolding sub_from
sub_from-Spaced seen skip [] = tt
sub_from-Spaced seen (suc skip) (c ∷ s) = sub_from-Spaced (c ∷ seen) skip s
sub_from-Spaced seen zero (c ∷ s) =
    elim (Option-cases (first_end (ends (plus is_separator) (place seen (c ∷ s))))) [
      | inl e ↦
          rw (e, sub_from)
            (inr (plus-none is_separator c seen s e), sub_from-Spaced (c ∷ seen) zero s)
      | inr (q, e) ↦
          rw (e, sub_from)
            (chosen (λ skip. sub_from-Spaced (c ∷ seen) skip s) (length (c ∷ s) - length q.rest)
              (moves_on (plus is_separator) seen (c ∷ s) q refl e))
    ]
  where
    chosen :
        ((skip : ℕ) → All Spaced (sub_from (plus is_separator) (" " ∷ []) (c ∷ seen) skip s))
        → (n : ℕ) → 1 ≤ n
        → All Spaced (elim n [
          | zero ↦ c ∷ sub_from (plus is_separator) (" " ∷ []) (c ∷ seen) zero s
          | suc more ↦ (" " ∷ []) ++ sub_from (plus is_separator) (" " ∷ []) (c ∷ seen) more s
        ])
    chosen later zero h = absurd (ground arith)
    chosen later (suc more) h = (inl refl, later more)

-- In a clean title, of a name as of any text, a blank is the only separator.
pub clean_title-Spaced : (raw : Chars) → All Spaced (clean_title raw)
unfolding clean_title sub
clean_title-Spaced raw =
    let spaced = strip (sub (plus is_separator) (" " ∷ []) raw) in
    let trimmed = sub (at_start ⨟ plus is_cruft) [] spaced in
    strip-All Spaced (sub (plus is_cruft ⨟ at_end) [] trimmed) (
      sub_from-All Spaced (plus is_cruft ⨟ at_end) [] [] zero trimmed tt (
        sub_from-All Spaced (at_start ⨟ plus is_cruft) [] [] zero spaced tt (
          strip-All Spaced (sub (plus is_separator) (" " ∷ []) raw) (sub_from-Spaced [] zero raw))))
