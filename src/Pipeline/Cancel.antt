-- ===== src/Pipeline/Cancel.antt =====
-- An import that is cancelled has done the work of a shorter one.
use filmoteka.Prelude.{ℕ, zero, suc, ◌≡◌, refl, true, false, [], ◌∷◌, take}
use filmoteka.Table.{Rows}
use filmoteka.Models.{Db}
use filmoteka.Models.Importing.{ImportCandidate}
use filmoteka.Pipeline.{Services}
use filmoteka.Pipeline.Run.{ImportReport, Stops, bridge_all}

-- A cancellation that is seen before the candidate after the first `n`.
abbrev pub cancelled_after : ℕ → Stops
cancelled_after zero = true ∷ []
cancelled_after (suc n) = false ∷ cancelled_after n

-- A loop that sees a cancellation after `n` candidates leaves the report and the database of the loop over the first `n` candidates that
-- nobody cancels.
pub bridge_all-cancelled :
    (services : Services) (now n : ℕ) (rest : Rows ImportCandidate) (r : ImportReport) (db : Db)
    → bridge_all services now (cancelled_after n) rest (r, db)
      ≡ bridge_all services now [] (take n rest) (r, db)
unfolding bridge_all
bridge_all-cancelled services now zero [] r db = refl
bridge_all-cancelled services now zero (x ∷ rest) r db = refl
bridge_all-cancelled services now (suc n) [] r db = refl
bridge_all-cancelled services now (suc n) ((k, c) ∷ rest) r db =
    bridge_all-cancelled services now n rest _ _
