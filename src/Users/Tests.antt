-- ===== src/Users/Tests.antt =====
-- Runs of the blacklist and of the incognito mode.
use filmoteka.Prelude.{◌≡◌, refl, true, false, none, some, [], ◌∷◌, mem_nat}
use filmoteka.Table.{get}
use filmoteka.Models.Access.{User}
use filmoteka.Models.Sample.{sample_db}
use filmoteka.Access.{new_user}
use filmoteka.Users.{list_blacklist}
use filmoteka.Users.Blacklist.{block, unblock, serve_all, blocked, film_exists, serve_all-blocked}

serve_all_run :
    list_blacklist 7
      (serve_all (block 1 7 ∷ block 1 7 ∷ block 9 7 ∷ block 2 7 ∷ unblock 1 7 ∷ []) sample_db)
    ≡ 2 ∷ []
unfolding serve_all list_blacklist filmoteka.Prelude.any get filmoteka.Prelude.keep
serve_all_run = refl

serve_all-blocked_example :
    mem_nat 2 (list_blacklist 7 (serve_all (block 2 7 ∷ block 2 8 ∷ unblock 2 8 ∷ []) sample_db))
    ≡ blocked
        (film_exists sample_db.films)
        (block 2 7 ∷ block 2 8 ∷ unblock 2 8 ∷ [])
        7
        2
        (mem_nat 2 (list_blacklist 7 sample_db))
serve_all-blocked_example =
    serve_all-blocked (block 2 7 ∷ block 2 8 ∷ unblock 2 8 ∷ []) sample_db 7 2

abbrev hidden : User
hidden = record (new_user "anna" "h" 1) { incognito = true }
