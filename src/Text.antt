-- ===== src/Text.antt =====
-- Python's `str(n)` for a natural number, and `int(s)` of a text of decimal digits.
pub mod Case
pub mod Regex
pub mod Strip
use Prim.Native.Char.{Char, code}
use filmoteka.Prelude.{
  ℕ, zero, suc, ◌+◌, ◌-◌, ◌*◌, ◌/◌, ◌%◌, ◌≤◌, ◌<◌, String, ◌≡◌, ◌≢◌, refl, ◌∙◌, ap, true, ◌&&◌,
  Option, none, some, arith, leb, ltb, ◌==◌, if◌then◌else◌, Bool-cases, inl, inr,
}

-- The digits 0 to 9.
digit : ℕ → Char
digit zero = "0"
digit (suc zero) = "1"
digit (suc (suc zero)) = "2"
digit (suc (suc (suc zero))) = "3"
digit (suc (suc (suc (suc zero)))) = "4"
digit (suc (suc (suc (suc (suc zero))))) = "5"
digit (suc (suc (suc (suc (suc (suc zero)))))) = "6"
digit (suc (suc (suc (suc (suc (suc (suc zero))))))) = "7"
digit (suc (suc (suc (suc (suc (suc (suc (suc zero)))))))) = "8"
digit _ = "9"

digits : ℕ → ℕ → String → String
digits zero n rest = rest
digits (suc fuel) n rest =
    let more = digits fuel (n / 10) (String.◌∷◌ (digit (n % 10)) rest) in
    if n / 10 == 0 then String.◌∷◌ (digit (n % 10)) rest else more

-- `str(n)`. The number of digits is at most n + 1.
unfoldable pub show : ℕ → String
unfolding digits digit
show n = digits (suc n) n ""

-- `str(n).zfill(2)` and `f"{n:02d}"`
unfoldable pub zfill : ℕ → String
unfolding show
zfill n = if ltb n 10 then String.◌∷◌ "0" (show n) else show n

parse_from : ℕ → String → Option ℕ
parse_from n String.[] = some n
parse_from n (String.◌∷◌ c rest) =
    let more = parse_from (n * 10 + (code c - 48)) rest in
    if leb 48 (code c) && leb (code c) 57 then more else none

-- `int(s)`, where `none` is the `ValueError`. Signs, blanks and underscores, which `int` takes too,
-- are not in what the program prints.
unfoldable pub parse_int : String → Option ℕ
unfolding parse_from
parse_int String.[] = none
parse_int (String.◌∷◌ c rest) = parse_from 0 (String.◌∷◌ c rest)

code-digit : (d : ℕ) → d < 10 → code (digit d) ≡ 48 + d
unfolding digit
code-digit zero h = refl
code-digit (suc zero) h = refl
code-digit (suc (suc zero)) h = refl
code-digit (suc (suc (suc zero))) h = refl
code-digit (suc (suc (suc (suc zero)))) h = refl
code-digit (suc (suc (suc (suc (suc zero))))) h = refl
code-digit (suc (suc (suc (suc (suc (suc zero)))))) h = refl
code-digit (suc (suc (suc (suc (suc (suc (suc zero))))))) h = refl
code-digit (suc (suc (suc (suc (suc (suc (suc (suc zero)))))))) h = refl
code-digit (suc (suc (suc (suc (suc (suc (suc (suc (suc zero))))))))) h = refl
code-digit (suc (suc (suc (suc (suc (suc (suc (suc (suc (suc d)))))))))) h = absurd (omega arith)

digit_test : (c : ℕ) → 48 ≤ c → c ≤ 57 → (leb 48 c && leb c 57) ≡ true
digit_test c low high = ground arith

parse_from-digit :
    (k d : ℕ) (rest : String)
    → d < 10
    → parse_from k (String.◌∷◌ (digit d) rest) ≡ parse_from (k * 10 + d) rest
unfolding parse_from
parse_from-digit k d rest h =
    let c = code (digit d) in
    let is : c ≡ 48 + d = code-digit d h in
    let test : (leb 48 c && leb c 57) ≡ true = digit_test c (omega arith) (omega arith) in
    let value : k * 10 + (c - 48) ≡ k * 10 + d = omega arith in
    ap (λ b. if b then parse_from (k * 10 + (c - 48)) rest else none) test
    ∙ ap (λ m. parse_from m rest) value

parse_from-digits :
    (fuel n : ℕ) (rest : String) → n < fuel → parse_from 0 (digits fuel n rest) ≡ parse_from n rest
unfolding digits
parse_from-digits zero n rest h = elim h [ ]
parse_from-digits (suc fuel) n rest h = elim (Bool-cases (n / 10 == 0)) [
  | inl last ↦
      rw last (
        parse_from-digit 0 (n % 10) rest (omega arith) ∙ ap (λ m. parse_from m rest) (ground arith))
  | inr more ↦ rw more (
      parse_from-digits fuel (n / 10) (String.◌∷◌ (digit (n % 10)) rest) (ground arith)
      ∙ parse_from-digit (n / 10) (n % 10) rest (omega arith)
      ∙ ap (λ m. parse_from m rest) (omega arith))
]

parse_int-from : (s : String) → s ≢ "" → parse_int s ≡ parse_from 0 s
unfolding parse_int
parse_int-from String.[] h = absurd (h refl)
parse_int-from (String.◌∷◌ c s) h = refl

digits-ne-empty : (fuel n : ℕ) (c : Char) (rest : String) → digits fuel n (String.◌∷◌ c rest) ≢ ""
unfolding digits
digits-ne-empty zero n c rest h = cc
digits-ne-empty (suc fuel) n c rest h =
    let less = digits-ne-empty fuel (n / 10) (digit (n % 10)) (String.◌∷◌ c rest) in
    elim (Bool-cases (n / 10 == 0)) [
      | inl last ↦ let e = rw last at h in cc e
      | inr more ↦ less (rw more at h)
    ]

show-ne-empty : (n : ℕ) → show n ≢ ""
unfolding show
show-ne-empty n h = elim (Bool-cases (n / 10 == 0)) [
  | inl last ↦ let e = rw last at h in cc e
  | inr more ↦ digits-ne-empty n (n / 10) (digit (n % 10)) "" (rw more at h)
]

-- What `str` prints, `int` reads back.
pub parse_int-show : (n : ℕ) → parse_int (show n) ≡ some n
unfolding show parse_from
parse_int-show n =
    parse_int-from (show n) (show-ne-empty n) ∙ parse_from-digits (suc n) n "" (omega arith)

-- Two numbers that print alike are one.
pub show_injective : (m n : ℕ) → show m ≡ show n → m ≡ n
show_injective m n h = cc (parse_int-show m, parse_int-show n)
