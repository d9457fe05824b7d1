-- ===== src/Host/Laws.antt =====
-- What holds of every execution of a `FrontierExecutionHost`.
use prompt_performance_engin.Prelude.{ℕ, ◌≡◌, refl, String, Option, some, arith, subst, sym}
use prompt_performance_engin.Prelude.Value.{Value}
use prompt_performance_engin.Budget.Amounts.{Amounts}
use prompt_performance_engin.Budget.Ledger.{initial}
use prompt_performance_engin.Budget.Soundness.{initial-IsSound}
use prompt_performance_engin.Host.Plan.{Frozen, fresh_host}
use prompt_performance_engin.Host.Attempt.{Digests, Dispatched, RunnerOutcome, VerifierAnswer}
use prompt_performance_engin.Host.Finish.{finish}
use prompt_performance_engin.Host.Steps.{
  System, Step, Reach, here, next, start, arrive, opening, find_flight,
}
use prompt_performance_engin.Host.Invariant.{IsPlanned, IsConsistent}
use prompt_performance_engin.Host.BeginLaws.{begin-IsConsistent}
use prompt_performance_engin.Host.FinishLaws.{finish-IsConsistent, IsConcluded}

opening-IsConsistent :
    (frozen : Frozen) (ceilings : Amounts) → IsConsistent frozen (opening ceilings)
unfolding fresh_host initial
opening-IsConsistent frozen ceilings = record {
  sound = initial-IsSound ceilings;
  mirror = refl;
  places = λ id. refl;
  once = λ id. omega arith;
  allocated = λ id. refl;
  capacity = λ id c h. omega arith;
  receipts = λ r. refl;
  unique = λ r. omega arith;
  ready = tt;
  authorized = tt;
}

Step-IsConsistent :
    (frozen : Frozen) (digests : Digests) (s t : System)
    → IsPlanned frozen
    → Step frozen digests s t
    → IsConsistent frozen s
    → IsConsistent frozen t
Step-IsConsistent frozen digests s t planned (start is_expired clock_works token a ascii e) v =
    subst (IsConsistent frozen) (sym e) (
      begin-IsConsistent frozen s.in_flight digests is_expired clock_works token a s.host planned
        ascii v)
Step-IsConsistent frozen digests s t planned (arrive id d outcome elapsed verify found e) v =
    subst (IsConsistent frozen) (sym e)
      (finish-IsConsistent frozen digests verify id d outcome elapsed s v found).0

-- After any sequence of steps on a host with a fresh ledger, where a step is the whole of what an
-- attempt does before its call of the runner, or the whole of what it does after, and whatever runners
-- and verifiers do between them: the ledger is sound and its reservations are those of the
-- attempts in flight; no slot has two attempts; no component has more attempts than its capacity; no
-- two reports have the same receipt; and a report releases output only after a success with a
-- receipt.
pub Reach-IsConsistent :
    (frozen : Frozen) (digests : Digests) (ceilings : Amounts) (s : System)
    → IsPlanned frozen
    → Reach frozen digests (opening ceilings) s
    → IsConsistent frozen s
Reach-IsConsistent frozen digests ceilings s planned here = opening-IsConsistent frozen ceilings
Reach-IsConsistent frozen digests ceilings s planned (next {t = t} path last_) =
    Step-IsConsistent frozen digests t s planned last_
      (Reach-IsConsistent frozen digests ceilings t planned path)

-- In every execution an attempt in flight can end whatever its runner and its verifier do: by an
-- outcome or by the interrupt that stopped it, never by an error of the ledger.
pub arrival_concludes :
    (frozen : Frozen) (digests : Digests) (ceilings : Amounts) (s : System)
    (verify : Value → String → VerifierAnswer) (id : String) (d : Dispatched)
    (outcome : RunnerOutcome) (elapsed : Option ℕ)
    → IsPlanned frozen
    → Reach frozen digests (opening ceilings) s
    → find_flight id s.in_flight ≡ some d
    → IsConcluded (finish frozen digests verify d outcome elapsed s.host).0
arrival_concludes frozen digests ceilings s verify id d outcome elapsed planned path found =
    (finish-IsConsistent frozen digests verify id d outcome elapsed s
      (Reach-IsConsistent frozen digests ceilings s planned path) found).1
