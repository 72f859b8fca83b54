-- ===== src/Text/Regex/Sound.antt =====
-- What a match of a regular expression is: a word of its language, which stands in the text where the match says.
use mathlib.Core.Path.{subst}
use mathlib.Core.List.{append_assoc}
use Prim.Native.Char.{Char, code}
use filmoteka.Prelude.{
  ◌+◌, ◌-◌, ◌≡◌, ◌⊎◌, refl, sym, ap, ◌∙◌, Bool, true, false, some, List, [], ◌∷◌, ◌++◌, length,
  take, All, All-imp, All-append, append_nil, arith, Bool-cases, Option-cases, List-cases, inl, inr,
}
use filmoteka.Text.Regex.{
  Chars, Test, Regex, empty, one, many, seq, alt, opt, group, not_behind, not_ahead, boundary,
  at_start, at_end, Place, place, step, many_ends, one_end, each_end, reversed, between, captured,
  here_if, ends, Match, first_end, search_from, search, match_text, before_match, after_match,
}

-- The words of a pattern. A test of what is around a place takes the empty word.
abbrev pub Lang : Regex → Chars → Type 0
Lang empty w = w ≡ []
Lang (one t) w = (c : Char) × (t (code c) ≡ true) × (w ≡ c ∷ [])
Lang (many t) w = All (λ c. t (code c) ≡ true) w
Lang (seq r s) w = (u : Chars) × (v : Chars) × (w ≡ u ++ v) × Lang r u × Lang s v
Lang (alt r s) w = Lang r w ⊎ Lang s w
Lang (opt r) w = Lang r w ⊎ (w ≡ [])
Lang (group r) w = Lang r w
Lang (not_behind t) w = w ≡ []
Lang (not_ahead t) w = w ≡ []
Lang boundary w = w ≡ []
Lang at_start w = w ≡ []
Lang at_end w = w ≡ []

-- From one place to another over a word.
pub record Over (p q : Place) (w : Chars) : Type 0 where
  pub seen : q.seen ≡ reversed w p.seen
  pub rest : p.rest ≡ w ++ q.rest

abbrev pub Ends : Regex → Place → Place → Type 0
Ends r p q = (w : Chars) × Over p q w × Lang r w

reversed-append : (u v s : Chars) → reversed (u ++ v) s ≡ reversed v (reversed u s)
reversed-append [] v s = refl
reversed-append (c ∷ u) v s = reversed-append u v (c ∷ s)

Over-trans : (p q r : Place) (u v : Chars) → Over p q u → Over q r v → Over p r (u ++ v)
Over-trans p q r u v h k = record {
  seen = k.seen ∙ ap (reversed v) h.seen ∙ sym (reversed-append u v p.seen);
  rest = h.rest ∙ ap (u ++◌) k.rest ∙ sym (append_assoc u v r.rest);
}

stay : (p : Place) → Over p p []
stay p = record { seen = refl; rest = refl }

many_ends-Ends :
    (t : Test) (seen rest : Chars) (groups : List Chars)
    → All
        (Ends (many t) (record { seen = seen; rest = rest; groups = groups }))
        (many_ends t seen rest groups)
unfolding many_ends
many_ends-Ends t seen [] groups = (([], record { seen = refl; rest = refl }, tt), tt)
many_ends-Ends t seen (c ∷ rest) groups =
    let start : Place = record { seen = seen; rest = c ∷ rest; groups = groups } in
    let next : Place = record { seen = c ∷ seen; rest = rest; groups = groups } in
    elim (Bool-cases (t (code c))) [
      | inl yes_test ↦
          rw (yes_test, many_ends)
            (All-append (Ends (many t) start) (many_ends t (c ∷ seen) rest groups) (start ∷ [])
              (All-imp (Ends (many t) next) (Ends (many t) start)
                (many_ends t (c ∷ seen) rest groups)
                (λ q (w, over, lang). (
                  c ∷ w,
                  record { seen = over.seen; rest = ap (c ∷◌) over.rest },
                  (yes_test, lang),
                ))
                (many_ends-Ends t (c ∷ seen) rest groups))
              (([], record { seen = refl; rest = refl }, tt), tt))
      | inr no_test ↦ rw (no_test, many_ends) (([], record { seen = refl; rest = refl }, tt), tt)
    ]

one_end-Ends :
    (t : Test) (p : Place) (rest : Chars) → p.rest ≡ rest → All (Ends (one t) p) (one_end t rest p)
unfolding one_end step
one_end-Ends t p [] at = tt
one_end-Ends t p (c ∷ rest) at = elim (Bool-cases (t (code c))) [
  | inl yes_test ↦
      rw (yes_test) ((c ∷ [], record { seen = refl; rest = at }, (c, yes_test, refl)), tt)
  | inr no_test ↦ rw (no_test) tt
]

each_end-Ends :
    (r s : Regex) (p : Place) (qs : List Place)
    → ((q : Place) → All (Ends s q) (ends s q))
    → All (Ends r p) qs
    → All (Ends (seq r s) p) (each_end (ends s) qs)
unfolding each_end
each_end-Ends r s p [] each h = tt
each_end-Ends r s p (q ∷ qs) each ((u, over, lang), h) =
    All-append (Ends (seq r s) p) (ends s q) (each_end (ends s) qs)
      (All-imp (Ends s q) (Ends (seq r s) p) (ends s q)
        (λ o (v, further, tail).
          (u ++ v, Over-trans p q o u v over further, (u, v, refl, lang, tail)))
        (each q))
      (each_end-Ends r s p qs each h)

captured-Ends :
    (r : Regex) (p : Place) (qs : List Place)
    → All (Ends r p) qs
    → All (Ends (group r) p) (captured p qs)
unfolding captured
captured-Ends r p [] h = tt
captured-Ends r p (q ∷ qs) ((w, over, lang), h) =
    ((w, record { seen = over.seen; rest = over.rest }, lang), captured-Ends r p qs h)

here_if-Ends : (r : Regex) (p : Place) (b : Bool) → Lang r [] → All (Ends r p) (here_if b p)
here_if-Ends r p true lang = (([], stay p, lang), tt)
here_if-Ends r p false lang = tt

pub ends-Ends : (r : Regex) (p : Place) → All (Ends r p) (ends r p)
unfolding ends
ends-Ends empty p = (([], stay p, refl), tt)
ends-Ends (one t) p = one_end-Ends t p p.rest refl
ends-Ends (many t) p = many_ends-Ends t p.seen p.rest p.groups
ends-Ends (seq r s) p = each_end-Ends r s p (ends r p) (ends-Ends s) (ends-Ends r p)
ends-Ends (alt r s) p =
    All-append (Ends (alt r s) p) (ends r p) (ends s p)
      (All-imp (Ends r p) (Ends (alt r s) p) (ends r p) (λ q (w, over, lang). (w, over, inl lang))
        (ends-Ends r p))
      (All-imp (Ends s p) (Ends (alt r s) p) (ends s p) (λ q (w, over, lang). (w, over, inr lang))
        (ends-Ends s p))
ends-Ends (opt r) p =
    All-append (Ends (opt r) p) (ends r p) (p ∷ [])
      (All-imp (Ends r p) (Ends (opt r) p) (ends r p) (λ q (w, over, lang). (w, over, inl lang))
        (ends-Ends r p))
      (([], stay p, inr refl), tt)
ends-Ends (group r) p = captured-Ends r p (ends r p) (ends-Ends r p)
ends-Ends (not_behind t) p = here_if-Ends (not_behind t) p _ refl
ends-Ends (not_ahead t) p = here_if-Ends (not_ahead t) p _ refl
ends-Ends boundary p = here_if-Ends boundary p _ refl
ends-Ends at_start p = elim (List-cases p.seen) [
  | inl e ↦ rw (e) (([], stay _, refl), tt)
  | inr (c, s, e) ↦ rw (e) tt
]
ends-Ends at_end p = elim (List-cases p.rest) [
  | inl e ↦ rw (e) (([], stay _, refl), tt)
  | inr (c, s, e) ↦ rw (e) tt
]

length-reversed : (w s : Chars) → length (reversed w s) ≡ length w + length s
length-reversed [] s = ground arith
length-reversed (c ∷ w) s = grind (arith, length-reversed w (c ∷ s))

reversed-reversed : (w a b : Chars) → reversed (reversed w a) b ≡ reversed a (w ++ b)
reversed-reversed [] a b = refl
reversed-reversed (c ∷ w) a b = reversed-reversed w (c ∷ a) b

reversed_acc : (w s : Chars) → reversed w s ≡ reversed w [] ++ s
reversed_acc [] s = refl
reversed_acc (c ∷ w) s =
    reversed_acc w (c ∷ s)
    ∙ sym (append_assoc (reversed w []) (c ∷ []) s)
    ∙ ap (◌++ s) (sym (reversed_acc w (c ∷ [])))

take_all_first {ℓ} : {A : Type ℓ} → (xs ys : List A) → take (length xs) (xs ++ ys) ≡ xs
take_all_first [] [] = refl
take_all_first [] (y ∷ ys) = refl
take_all_first (x ∷ xs) ys = ap (x ∷◌) (take_all_first xs ys)

between-Over : (p q : Place) (w : Chars) → Over p q w → between p q ≡ w
unfolding between
between-Over p q w over =
    ap (λ seen. reversed (take (length seen - length p.seen) seen) [])
      (over.seen ∙ reversed_acc w p.seen)
    ∙ ap (λ n. reversed (take n (reversed w [] ++ p.seen)) []) counted
    ∙ ap (λ first. reversed first []) (take_all_first (reversed w []) p.seen)
    ∙ reversed-reversed w [] []
    ∙ append_nil w
  where
    counted : length (reversed w [] ++ p.seen) - length p.seen ≡ length (reversed w [])
    counted =
        rw (sym (reversed_acc w p.seen))
          (grind (arith, length-reversed w p.seen, length-reversed w []))

pub some_injective {ℓ} : {A : Type ℓ} {a b : A} → some a ≡ some b → a ≡ b
some_injective h = cc

-- What a search finds from a place on.
record FoundFrom (r : Regex) (seen rest : Chars) (m : Match) : Type 0 where
  whole : reversed m.0.seen m.0.rest ≡ reversed seen rest
  first : first_end (ends r m.0) ≡ some m.1

search_from_lem :
    (r : Regex) (seen rest : Chars) (m : Match)
    → search_from r seen rest ≡ some m
    → FoundFrom r seen rest m
unfolding search_from
search_from_lem r seen [] m h = elim (Option-cases (first_end (ends r (place seen [])))) [
  | inl e ↦ cc (rw (e, search_from) at h)
  | inr (q, e) ↦
      subst (FoundFrom r seen []) (some_injective (sym (rw (e, search_from) refl) ∙ h))
        (record { whole = refl; first = e })
]
search_from_lem r seen (c ∷ rest) m h =
    elim (Option-cases (first_end (ends r (place seen (c ∷ rest))))) [
      | inl e ↦
          let later = search_from_lem r (c ∷ seen) rest m (rw (e, search_from) at h) in
          record { whole = later.whole; first = later.first }
      | inr (q, e) ↦
          subst (FoundFrom r seen (c ∷ rest)) (some_injective (sym (rw (e, search_from) refl) ∙ h))
            (record { whole = refl; first = e })
    ]

pub first_end-All {ℓ} :
    (P : Place → Type ℓ) (ps : List Place) (q : Place) → All P ps → first_end ps ≡ some q → P q
first_end-All P [] q h e = cc
first_end-All P (p ∷ ps) q (h, _) e = subst P (some_injective e) h

-- When a search finds a match, the text is what stands before the match, the match and what follows it, and the match is a word of
-- the pattern's language.
pub search-Lang :
    (r : Regex) (s : Chars) (m : Match)
    → search r s ≡ some m
    → (s ≡ before_match m ++ (match_text m ++ after_match m)) × Lang r (match_text m)
unfolding search match_text
search-Lang r s m h =
    let found = search_from_lem r [] s m h in
    let (w, over, lang) =
      first_end-All (Ends r m.0) (ends r m.0) m.1 (ends-Ends r m.0) found.first in
    let matched = between-Over m.0 m.1 w over in
    (
      sym found.whole
          ∙ reversed_acc m.0.seen m.0.rest
          ∙ ap (reversed m.0.seen [] ++◌) (over.rest ∙ ap (◌++ m.1.rest) (sym matched)),
      subst (Lang r) (sym matched) lang,
    )
