-- ===== src/Host/Steps.antt =====
-- The attempts of several threads on one `FrontierExecutionHost` of
-- src/prompt_performance_engine/frontier_host.py: between `begin` and `finish` an attempt is with the
-- runner, and any others may begin or finish. Here a whole `begin` is one step and a whole `finish` is
-- one: their lock regions, three in each, follow each other with no other thread in between.
use prompt_performance_engin.Prelude.{
  Bool, true, String, str_eq, Option, none, some, List, [], ◌∷◌, ◌++◌, ℕ, ◌≡◌, if◌then◌else◌,
}
use prompt_performance_engin.Prelude.Value.{Value}
use prompt_performance_engin.Prelude.Text.{is_ascii}
use prompt_performance_engin.Prelude.Result.{Result, ok, err}
use prompt_performance_engin.Budget.Amounts.{Amounts}
use prompt_performance_engin.Host.Plan.{Frozen, HostState, fresh_host}
use prompt_performance_engin.Host.Attempt.{
  Error, Arguments, Digests, Dispatched, RunnerOutcome, VerifierAnswer, begin,
}
use prompt_performance_engin.Host.Finish.{finish}

pub record System : Type 0 where
  pub host : HostState
  pub in_flight : List Dispatched

abbrev pub attempt_of : Dispatched → String
attempt_of d = d.request.slot.slot_id

unfoldable pub find_flight : String → List Dispatched → Option Dispatched
find_flight id [] = none
find_flight id (d ∷ ds) = if str_eq (attempt_of d) id then some d else find_flight id ds

unfoldable pub land : String → List Dispatched → List Dispatched
land id [] = []
land id (d ∷ ds) = if str_eq (attempt_of d) id then ds else d ∷ land id ds

-- What a `begin` leaves, by how it ended.
abbrev pub begun : List Dispatched → Result Error Dispatched × HostState → System
begun ds (ok d, host) = record { host = host; in_flight = ds ++ d ∷ [] }
begun ds (err e, host) = record { host = host; in_flight = ds }

-- `drawn`: the token is one of `secrets.token_hex`, whose digits are ASCII.
pub data Step (frozen : Frozen) (digests : Digests) (s t : System) : Type 0 where
  start :
      (is_expired clock_works : Bool) (token : String) (a : Arguments)
      → is_ascii token ≡ true
      → t ≡ begun s.in_flight (begin frozen digests is_expired clock_works token a s.host)
      → Step frozen digests s t
  arrive :
      (id : String) (d : Dispatched) (outcome : RunnerOutcome) (elapsed : Option ℕ)
      (verify : Value → String → VerifierAnswer)
      → find_flight id s.in_flight ≡ some d
      → t ≡ record {
        host = (finish frozen digests verify d outcome elapsed s.host).1;
        in_flight = land id s.in_flight;
      }
      → Step frozen digests s t

pub data Reach (frozen : Frozen) (digests : Digests) (s : System) : System → Type 0 where
  here : Reach frozen digests s s
  next :
      {t u : System} → Reach frozen digests s t → Step frozen digests t u → Reach frozen digests s u

-- A host that was just made.
abbrev pub opening : Amounts → System
opening ceilings = record { host = fresh_host ceilings; in_flight = [] }
