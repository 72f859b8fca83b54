-- ===== src/Importing/Probing.antt =====
-- A candidate is probed once.
use filmoteka.Prelude.{ℕ, String, ◌≡◌, refl, false, Option, List, [], ◌∷◌, arith}
use filmoteka.Models.Importing.{ImportCandidate, is_pending}
use filmoteka.Importing.{MediaProbeResult, probe_candidate, probe_candidates}

probe_candidate-settled :
    (probe : String → Option MediaProbeResult) (now : ℕ) (c : ImportCandidate)
    → is_pending (probe_candidate probe now c).status ≡ false
unfolding probe_candidate
probe_candidate-settled probe now c = ground arith

probe_candidate-idle :
    (probe : String → Option MediaProbeResult) (now : ℕ) (c : ImportCandidate)
    → is_pending c.status ≡ false
    → probe_candidate probe now c ≡ c
unfolding probe_candidate
probe_candidate-idle probe now c settled = ground arith

-- A second round of probing, at another time and with a probe that answers otherwise, changes no candidate of the first round, whether
-- the first probe succeeded or failed.
pub probe_candidates-again :
    (probe other : String → Option MediaProbeResult) (now later : ℕ) (cs : List ImportCandidate)
    → probe_candidates other later (probe_candidates probe now cs) ≡ probe_candidates probe now cs
unfolding probe_candidates
probe_candidates-again probe other now later [] = refl
probe_candidates-again probe other now later (c ∷ cs) = ground (
  arith,
  probe_candidate-idle other later (probe_candidate probe now c)
      (probe_candidate-settled probe now c),
  probe_candidates-again probe other now later cs,
)
