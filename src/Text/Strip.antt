-- ===== src/Text/Strip.antt =====
-- Python's `s.strip()` and `s.strip(marks)`.
use Prim.Native.Char.{Char, code}
use filmoteka.Prelude.{◌≡◌, refl, false, [], ◌∷◌, All, Bool-cases, inl, inr, if◌then◌else◌}
use filmoteka.Text.Regex.{Chars, Test, head_test, is_space}

unfoldable pub strip_left : Test → Chars → Chars
strip_left t [] = []
strip_left t (c ∷ s) = let rest = strip_left t s in if t (code c) then rest else c ∷ s

abbrev pub cons_unless : Test → Char → Chars → Chars
cons_unless t c [] = if t (code c) then [] else c ∷ []
cons_unless t c (d ∷ s) = c ∷ d ∷ s

unfoldable pub strip_right : Test → Chars → Chars
strip_right t [] = []
strip_right t (c ∷ s) = cons_unless t c (strip_right t s)

unfoldable pub strip_by : Test → Chars → Chars
unfolding strip_left strip_right
strip_by t s = strip_right t (strip_left t s)

unfoldable pub strip : Chars → Chars
unfolding strip_by
strip s = strip_by is_space s

strip_left-All {ℓ} : (P : Char → Type ℓ) (t : Test) (s : Chars) → All P s → All P (strip_left t s)
unfolding strip_left
strip_left-All P t [] h = tt
strip_left-All P t (c ∷ s) (hc, h) = elim (Bool-cases (t (code c))) [
  | inl e ↦ rw (e, strip_left) (strip_left-All P t s h)
  | inr e ↦ rw (e, strip_left) (hc, h)
]

cons_unless-All {ℓ} :
    (P : Char → Type ℓ) (t : Test) (c : Char) (s : Chars)
    → P c
    → All P s
    → All P (cons_unless t c s)
cons_unless-All P t c [] hc h = elim (Bool-cases (t (code c))) [
  | inl e ↦ rw (e) tt
  | inr e ↦ rw (e) (hc, tt)
]
cons_unless-All P t c (d ∷ s) hc h = (hc, h)

strip_right-All {ℓ} : (P : Char → Type ℓ) (t : Test) (s : Chars) → All P s → All P (strip_right t s)
unfolding strip_right
strip_right-All P t [] h = tt
strip_right-All P t (c ∷ s) (hc, h) =
    cons_unless-All P t c (strip_right t s) hc (strip_right-All P t s h)

pub strip-All {ℓ} : (P : Char → Type ℓ) (s : Chars) → All P s → All P (strip s)
unfolding strip strip_by
strip-All P s h = strip_right-All P is_space (strip_left is_space s) (strip_left-All P is_space s h)

head_test-strip_left : (t : Test) (s : Chars) → head_test t (strip_left t s) ≡ false
unfolding strip_left
head_test-strip_left t [] = refl
head_test-strip_left t (c ∷ s) = elim (Bool-cases (t (code c))) [
  | inl e ↦ rw (e, strip_left) (head_test-strip_left t s)
  | inr e ↦ rw (e, strip_left) e
]

head_test-cons_unless :
    (t : Test) (c : Char) (s : Chars) → t (code c) ≡ false → head_test t (cons_unless t c s) ≡ false
head_test-cons_unless t c [] h = rw (h) h
head_test-cons_unless t c (d ∷ s) h = h

head_test-strip_right :
    (t : Test) (s : Chars) → head_test t s ≡ false → head_test t (strip_right t s) ≡ false
unfolding strip_right
head_test-strip_right t [] h = refl
head_test-strip_right t (c ∷ s) h = head_test-cons_unless t c (strip_right t s) h

-- What is left does not begin with a character that is taken away.
pub head_test-strip_by : (t : Test) (s : Chars) → head_test t (strip_by t s) ≡ false
unfolding strip_by
head_test-strip_by t s = head_test-strip_right t (strip_left t s) (head_test-strip_left t s)
