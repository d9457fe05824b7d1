-- ===== src/Host/RegionTests.antt =====
-- The theorem on the lock regions, at the first three regions of one attempt.
use prompt_performance_engin.Prelude.{some, [], ◌∷◌, ◌++◌, ◌≡◌, refl, true, false}
use prompt_performance_engin.Host.Tests.{
  frozen, digests, arguments, dispatched, limits, reply, verify, frozen-IsPlanned,
}
use prompt_performance_engin.Host.Attempt.{
  prepare, identifier, natural, text_argument, or_raise, claim_slot,
}
use prompt_performance_engin.Host.Orderly.{IsOrderly}
use prompt_performance_engin.Host.Regions.{
  Answers, Region, Shared, advance, Phase, advancing, claimed, reserved, running, then_region,
  none_yet, unused, claiming,
}
use prompt_performance_engin.Host.BeginLaws.{taken}
use prompt_performance_engin.Host.RegionInvariant.{Regions-IsOrderly}
use prompt_performance_engin.Host.Plan.{
  fresh_host, amounts_value, find_slot, find_binding, find_component,
}
use prompt_performance_engin.Budget.Ledger.{initial, methods}

abbrev answers : Answers
answers = record { token = "aa"; verify = verify; outcome = reply; elapsed = some 40 }

abbrev with_claim : Shared
with_claim = record {
  host = taken dispatched.request.slot (fresh_host limits);
  threads = claimed dispatched.request dispatched.component ∷ [];
}

-- The next region of the only thread.
abbrev next_of : Phase → Shared → Shared
next_of p s = record {
  host = (advance frozen digests answers p s.host).1;
  threads = [] ++ ((advance frozen digests answers p s.host).0 ++ []);
}

abbrev with_reservation : Shared
with_reservation = next_of (claimed dispatched.request dispatched.component) with_claim

abbrev with_receipt : Shared
with_receipt = next_of (running dispatched) with_reservation

claiming_slot : Region frozen digests (unused limits) with_claim
unfolding prepare identifier natural text_argument or_raise find_slot find_binding claim_slot
    methods find_component fresh_host
claiming_slot =
    claiming false true arguments dispatched.request dispatched.component
      (taken dispatched.request.slot (fresh_host limits)) refl refl refl

reserving_slot : Region frozen digests with_claim with_reservation
reserving_slot = advancing [] [] (claimed dispatched.request dispatched.component) answers refl refl

is_reserved : with_reservation.threads ≡ running dispatched ∷ []
unfolding advance reserved fresh_host initial amounts_value methods
is_reserved = refl

taking_receipt : Region frozen digests with_reservation with_receipt
taking_receipt = advancing [] [] (running dispatched) answers is_reserved refl

Regions-IsOrderly_example : IsOrderly frozen with_receipt
Regions-IsOrderly_example =
    Regions-IsOrderly frozen digests limits with_receipt frozen-IsPlanned
      (then_region (then_region (then_region none_yet claiming_slot) reserving_slot) taking_receipt)
