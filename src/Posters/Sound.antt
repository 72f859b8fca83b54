-- ===== src/Posters/Sound.antt =====
-- What the jobs of src/filmoteka/api/admin.py that fill in posters change.
use mathlib.Core.Path.{subst}
use filmoteka.Prelude.{
  ℕ, String, ◌≡◌, ◌⊎◌, refl, sym, ap, ◌∙◌, Bool, true, false, Option, none, some, [], ◌∷◌, ◌==◌,
  ==_iff, if◌then◌else◌, All, arith, Bool-cases, Option-cases, inl, inr,
}
use filmoteka.Table.{Rows, get, select}
use filmoteka.Table.Laws.{IsTable, All-select, get-put}
use filmoteka.Models.{Db}
use filmoteka.Models.Catalog.{Film}
use filmoteka.Pipeline.{on_film}
use filmoteka.Pipeline.Run.{Stops}
use filmoteka.Metadata.{Service, Sent, omdb_search_poster_v2}
use filmoteka.Metadata.Sound.{IsSound, omdb_search_poster_v2-IsSound}
use filmoteka.Aliases.{stops_now, later_stops}
use filmoteka.Posters.{
  Search, PosterRun, with_poster, poster_search_info, record_poster, search_film, poster_loop,
  start_posters, run_posters, lacks_poster, run_fill_missing,
}

-- A film is as it was, or it was due and has a new poster that the service offered.
abbrev pub IsPostered : (ℕ → Film → Bool) → Service → ℕ → Film → Film → Type 0
IsPostered is_due service k film after =
    (after ≡ film)
    ⊎ ((is_due k film ≡ true)
        × (url : String) × (source : String) × IsSound service (some (url, source))
        × (after ≡ with_poster url source film))

abbrev pub ArePostered : (ℕ → Film → Bool) → Service → ℕ → Option Film → Option Film → Type 0
ArePostered is_due service k none none = Unit
ArePostered is_due service k none (some after) = true ≡ false
ArePostered is_due service k (some film) none = true ≡ false
ArePostered is_due service k (some film) (some after) = IsPostered is_due service k film after

-- All films of a database, compared with those of an earlier one.
record Postered (is_due : ℕ → Film → Bool) (service : Service) (before after : Db) : Type 0 where
  each : (k : ℕ) → ArePostered is_due service k (get before.films k) (get after.films k)

ArePostered-refl :
    (is_due : ℕ → Film → Bool) (service : Service) (k : ℕ) (o : Option Film)
    → ArePostered is_due service k o o
ArePostered-refl is_due service k none = tt
ArePostered-refl is_due service k (some film) = inl refl

-- One more poster for a film.
ArePostered-again :
    (is_due : ℕ → Film → Bool) (service : Service) (k : ℕ) (film : Film) (o : Option Film)
    (url source : String)
    → is_due k film ≡ true
    → IsSound service (some (url, source))
    → ArePostered is_due service k (some film) o
    → (after : Film) × (o ≡ some after)
      × IsPostered is_due service k film (with_poster url source after)
ArePostered-again is_due service k film none url source due sound h = cc h
ArePostered-again is_due service k film (some after) url source due sound (inl same) =
    (after, refl, inr (due, url, source, sound, ap (with_poster url source) same))
ArePostered-again is_due service k film (some after) url source due sound
      (inr (was_due, u, s, offered, same)) =
    (after, refl, inr (due, url, source, sound, ap (with_poster url source) same))

get-on_film :
    (i k : ℕ) (f : Film → Film) (db : Db) (film : Film)
    → get db.films i ≡ some film
    → get (on_film i f db).films k ≡ (if i == k then some (f film) else get db.films k)
unfolding on_film
get-on_film i k f db film row =
    rw (row, on_film) (ground (arith, row, get-put i k (f film) db.films, ==_iff i k))

on_film-Postered :
    (is_due : ℕ → Film → Bool) (service : Service) (before : Db) (i : ℕ) (film : Film)
    (url source : String) (db : Db)
    → get before.films i ≡ some film
    → is_due i film ≡ true
    → IsSound service (some (url, source))
    → Postered is_due service before db
    → Postered is_due service before (on_film i (with_poster url source) db)
on_film-Postered is_due service before i film url source db row due sound h = record {
  each = λ k.
      let old : ArePostered is_due service i (some film) (get db.films i) = rw row at (h.each i) in
      let (after, now_row, new) =
        ArePostered-again is_due service i film (get db.films i) url source due sound old in
      let later = get-on_film i k (with_poster url source) db after now_row in
      elim (Bool-cases (i == k)) [
        | inl same ↦
            let same_key = (==_iff i k).0 same in
            subst (λ o. ArePostered is_due service k (get before.films k) o)
              (sym (later ∙ rw same refl))
              (subst
                (λ j.
                  ArePostered is_due service j (get before.films j)
                    (some (with_poster url source after)))
                same_key (rw row new))
        | inr other ↦
            subst (λ o. ArePostered is_due service k (get before.films k) o)
              (sym (later ∙ rw other refl)) (h.each k)
      ];
}

module _ (search : Search) (is_due : ℕ → Film → Bool) (before : Db) where
  record_poster-Postered :
      (x : ℕ × Film) (found : Option (String × String)) (sent : Sent) (r : PosterRun)
      → get before.films x.0 ≡ some x.1
      → is_due x.0 x.1 ≡ true
      → IsSound search.service found
      → Postered is_due search.service before r.db
      → Postered is_due search.service before (record_poster search x found sent r).db
  unfolding record_poster
  record_poster-Postered x none sent r row due sound h = h
  record_poster-Postered x (some (url, source)) sent r row due sound h =
      on_film-Postered is_due search.service before x.0 x.1 url source r.db row due sound h

  search_film-Postered :
      (x : ℕ × Film) (r : PosterRun)
      → get before.films x.0 ≡ some x.1
      → is_due x.0 x.1 ≡ true
      → Postered is_due search.service before r.db
      → Postered is_due search.service before (search_film search x r).db
  unfolding search_film
  search_film-Postered x r row due h = elim (Option-cases (search.raises x.0)) [
    | inr (message, raised) ↦ rw (raised, search_film) h
    | inl fine ↦
        let info = poster_search_info r.db x in
        let asked =
          omdb_search_poster_v2 search.service search.api_key info.title info.year info.type
            r.sent in
        rw (fine, search_film)
          (record_poster-Postered x asked.0 asked.1 r row due
            (omdb_search_poster_v2-IsSound search.service search.api_key info.title info.year
              info.type r.sent)
            h)
  ]

  poster_loop-Postered :
      (stops : Stops) (rows : Rows Film) (r : PosterRun)
      → All (λ x. (is_due x.0 x.1 ≡ true) × (get before.films x.0 ≡ some x.1)) rows
      → Postered is_due search.service before r.db
      → Postered is_due search.service before (poster_loop search stops rows r).db
  unfolding poster_loop
  poster_loop-Postered stops [] r rows_due h = h
  poster_loop-Postered stops (x ∷ rows) r rows_due h = elim (Bool-cases (stops_now stops)) [
    | inl stopped ↦ rw (stopped, poster_loop) h
    | inr goes_on ↦
        rw (goes_on, poster_loop)
          (poster_loop-Postered (later_stops stops) rows (search_film search x r) rows_due.1
            (search_film-Postered x r rows_due.0.1 rows_due.0.0 h))
  ]

-- The row of a film after a job, whether or not it is stopped: the film is as it was, or it was due and has a poster that the
-- service offered.
run_posters-each :
    (is_due : ℕ → Film → Bool) (search : Search) (stops : Stops) (sent : Sent) (db : Db) (k : ℕ)
    → IsTable db.films
    → ArePostered is_due search.service k
        (get db.films k)
        (get (run_posters is_due search stops sent db).1.db.films k)
unfolding run_posters
run_posters-each is_due search stops sent db k tidy =
    let start : Postered is_due search.service db db = record {
      each = λ j. ArePostered-refl is_due search.service j (get db.films j);
    } in
    let done =
      poster_loop-Postered search is_due db stops (select is_due db.films) (start_posters sent db)
        (All-select is_due db.films tidy) start in
    done.each k

-- After the job for missing posters, stopped or not, a film that had a poster is as it was; and one that had none is as it was, or
-- has a poster that the service offered and is otherwise as it was.
pub run_fill_missing-IsPostered :
    (search : Search) (stops : Stops) (sent : Sent) (db : Db) (k : ℕ)
    → IsTable db.films
    → ArePostered lacks_poster search.service k
        (get db.films k)
        (get (run_fill_missing search stops sent db).1.db.films k)
unfolding run_fill_missing
run_fill_missing-IsPostered search stops sent db k tidy =
    run_posters-each lacks_poster search stops sent db k tidy
