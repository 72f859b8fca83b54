-- ===== src/Users/Blacklist.antt =====
-- The blacklist implements a set of films for each user.
use filmoteka.Prelude.{
  ℕ, ◌≡◌, refl, ◌∙◌, ap, Bool, true, false, not, ◌&&◌, ◌||◌, none, some, List, [], ◌∷◌, ◌++◌, arith,
  ◌==◌, keep, any, mem_nat, Option-cases, inl, inr,
}
use filmoteka.Table.{Table, get}
use filmoteka.Models.{Db}
use filmoteka.Models.Catalog.{Film}
use filmoteka.Users.{is_entry, films_of, list_blacklist, add_to_blacklist, remove_from_blacklist}

-- The requests of the users, each of one film by one user.
pub data Command : Type 0 where
  block unblock : ℕ → ℕ → Command

unfoldable pub serve : Command → Db → Db
unfolding add_to_blacklist remove_from_blacklist
serve (block film_id user_id) db = (add_to_blacklist film_id user_id db).1
serve (unblock film_id user_id) db = (remove_from_blacklist film_id user_id db).1

unfoldable pub serve_all : List Command → Db → Db
unfolding serve
serve_all [] db = db
serve_all (c ∷ cs) db = serve_all cs (serve c db)

-- The specification: whether user `u` has blocked film `f`, given which films exist.
unfoldable pub blocked : (ℕ → Bool) → List Command → ℕ → ℕ → Bool → Bool
blocked exists_film [] u f now = now
blocked exists_film (block g v ∷ cs) u f now =
    blocked exists_film cs u f (now || ((v == u) && (g == f) && exists_film g))
blocked exists_film (unblock g v ∷ cs) u f now =
    blocked exists_film cs u f (now && not ((v == u) && (g == f)))

abbrev pub film_exists : Table Film → ℕ → Bool
film_exists t k = elim (get t k) [ none ↦ false | some _ ↦ true ]

films_of-snoc :
    (u v f g : ℕ) (r : List (ℕ × ℕ))
    → mem_nat f (films_of u (r ++ (v, g) ∷ []))
      ≡ (mem_nat f (films_of u r) || ((v == u) && (g == f)))
unfolding films_of mem_nat
films_of-snoc u v f g [] = ground arith
films_of-snoc u v f g ((w, h) ∷ r) = ground (arith, films_of-snoc u v f g r)

films_of-keep :
    (u v f g : ℕ) (r : List (ℕ × ℕ))
    → mem_nat f (films_of u (keep (λ x. not (is_entry v g x)) r))
      ≡ (mem_nat f (films_of u r) && not ((v == u) && (g == f)))
unfolding films_of mem_nat keep
films_of-keep u v f g [] = ground arith
films_of-keep u v f g ((w, h) ∷ r) = ground (arith, films_of-keep u v f g r)

any-is_entry : (u f : ℕ) (r : List (ℕ × ℕ)) → any (is_entry u f) r ≡ mem_nat f (films_of u r)
unfolding films_of mem_nat any
any-is_entry u f [] = refl
any-is_entry u f ((w, h) ∷ r) = ground (arith, any-is_entry u f r)

serve-mem :
    (c : Command) (db : Db) (u f : ℕ)
    → mem_nat f (list_blacklist u (serve c db))
      ≡ blocked (film_exists db.films) (c ∷ []) u f (mem_nat f (list_blacklist u db))
unfolding serve blocked list_blacklist
serve-mem (block g v) db u f = elim (Option-cases (get db.films g)) [
  | inl e ↦ rw (e, serve, add_to_blacklist, blocked) (ground arith)
  | inr (a, e) ↦
      rw (e, serve, add_to_blacklist, blocked)
        (ground (arith, any-is_entry v g db.blacklist, films_of-snoc u v f g db.blacklist))
]
serve-mem (unblock g v) db u f =
    ground (arith, any-is_entry v g db.blacklist, films_of-keep u v f g db.blacklist)

serve-films : (c : Command) (db : Db) → (serve c db).films ≡ db.films
unfolding serve add_to_blacklist remove_from_blacklist
serve-films (block g v) db = elim (Option-cases (get db.films g)) [
  | inl e ↦ rw (e, serve, add_to_blacklist) refl
  | inr (a, e) ↦ rw (e, serve, add_to_blacklist) (ground arith)
]
serve-films (unblock g v) db = ground arith

-- After any sequence of additions and removals by any users, refused and repeated ones included, a film is on a user's blacklist exactly
-- when the specification, which keeps a set and ignores the films that do not exist, says so.
pub serve_all-blocked :
    (cs : List Command) (db : Db) (u f : ℕ)
    → mem_nat f (list_blacklist u (serve_all cs db))
      ≡ blocked (film_exists db.films) cs u f (mem_nat f (list_blacklist u db))
unfolding serve_all blocked
serve_all-blocked [] db u f = refl
serve_all-blocked (block g v ∷ cs) db u f =
    serve_all-blocked cs (serve (block g v) db) u f
    ∙ ap (λ t. blocked (film_exists t) cs u f (mem_nat f (list_blacklist u (serve (block g v) db))))
        (serve-films (block g v) db)
    ∙ ap (blocked (film_exists db.films) cs u f) (serve-mem (block g v) db u f)
serve_all-blocked (unblock g v ∷ cs) db u f =
    serve_all-blocked cs (serve (unblock g v) db) u f
    ∙ ap
        (λ t.
          blocked (film_exists t) cs u f (mem_nat f (list_blacklist u (serve (unblock g v) db))))
        (serve-films (unblock g v) db)
    ∙ ap (blocked (film_exists db.films) cs u f) (serve-mem (unblock g v) db u f)
