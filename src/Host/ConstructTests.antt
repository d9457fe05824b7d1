-- ===== src/Host/ConstructTests.antt =====
-- The theorems on the constructor of the host at a plan with one slot.
use prompt_performance_engin.Host.Construct.{construction, construct}
use prompt_performance_engin.Host.Tests.{authority, digests, arguments, receipt, limits, frozen}
use prompt_performance_engin.Prelude.{List, some, String, All, ◌≡◌, ◌≢◌, ◌∷◌, [], refl, false, true}
use prompt_performance_engin.Budget.Ledger.{methods}
use prompt_performance_engin.Host.Attempt.{
  Arguments, not_scheduled, begin, prepare, unknown_model, natural, unknown_component,
  text_argument, or_raise,
}
use prompt_performance_engin.Host.Invariant.{IsPlanned}
use prompt_performance_engin.Prelude.Result.{Result, ok, err}
use prompt_performance_engin.Prelude.Value.{Value, Fields, obj, arr, field, cons, end, int, nil, ℤ}
use prompt_performance_engin.Host.Catalog.{Refusal}
use prompt_performance_engin.Host.Placed.{IsPlaced, construct-IsPlaced}
use prompt_performance_engin.Host.Plan.{Frozen, find_slot, fresh_host}
use prompt_performance_engin.Host.Lookups.{constructed_lookups}

abbrev texts : List (String × String) → Fields → Fields
texts [] rest = rest
texts ((k, v) ∷ kvs) rest = field k (Value.str v) (texts kvs rest)

abbrev model_value : Value
model_value = obj (
    texts
      (("model_id", "model-1")
        ∷ ("provider", "acme")
        ∷ ("snapshot", "2026-01")
        ∷ ("parameters_sha256", receipt)
        ∷ ("retry_policy_sha256", receipt)
        ∷ ("cache_policy_sha256", receipt)
        ∷ ("seeds_sha256", receipt)
        ∷ ("pricing_entry_sha256", receipt)
        ∷ ("price_snapshot_sha256", receipt)
        ∷ ("pricing_currency", "USD")
        ∷ [])
      (field "allowed_seeds" (arr (cons Value.null nil)) end))

abbrev component_value : Value
component_value = obj (
    texts (("component_id", "candidate") ∷ ("role", "candidate") ∷ []) (
      field "unit_count" (int (ℤ.pos 1)) (
        field "attempts_per_unit" (int (ℤ.pos 1)) (
          field "max_input_tokens_per_attempt" (int (ℤ.pos 100)) (
            field "max_output_tokens_per_attempt" (int (ℤ.pos 50)) (
              field "max_money_microunits_per_attempt" (int (ℤ.pos 10)) (
                field "max_wall_clock_ms_per_attempt" (int (ℤ.pos 1000)) (
                  field "model_ids" (arr (cons (Value.str "model-1") nil))
                    (field "purposes" (arr (cons (Value.str "generation") nil)) end)))))))))

abbrev route_value : Value
route_value =
    obj (texts (("case_id", "case-1") ∷ ("route", "direct") ∷ ("authority_id", "route-1") ∷ []) end)

abbrev slot_value : Value
slot_value = obj (
    texts
      (("slot_id", "run-1")
        ∷ ("component_id", "candidate")
        ∷ ("unit_id", "unit-1")
        ∷ ("case_id", "case-1")
        ∷ ("model_id", "model-1")
        ∷ ("purpose", "generation")
        ∷ ("route", "direct")
        ∷ ("route_authority_id", "route-1")
        ∷ ("system_prompt_sha256", receipt)
        ∷ ("user_payload_sha256", receipt)
        ∷ [])
      (field "replicate_index" (int (ℤ.pos 0))
        (field "retry_index" (int (ℤ.pos 0)) (field "seed" Value.null end))))

abbrev plan_value : Value
plan_value = obj (
    texts
      (("schema_version", "1.0.0")
        ∷ ("plan_id", "plan-1")
        ∷ ("campaign_sha256", receipt)
        ∷ ("system_id", "system")
        ∷ ("plan_sha256", receipt)
        ∷ [])
      (field "slots" (arr (cons slot_value nil)) end))

abbrev built : Result Refusal Frozen
built =
    construct (λ v. some receipt) (record authority { campaign_sha256 = receipt })
      (arr (cons model_value nil)) (arr (cons component_value nil)) (arr (cons route_value nil))
      plan_value

abbrev the_frozen : Result Refusal Frozen → Frozen
the_frozen (ok f) = f
the_frozen (err e) = frozen

built_ok : built ≡ ok (the_frozen built)
unfolding construction methods
built_ok = refl

construct-IsPlaced_example :
    IsPlanned (the_frozen built)
    × All
        (IsPlaced (the_frozen built).components (the_frozen built).bindings)
        (the_frozen built).slots
construct-IsPlaced_example =
    construct-IsPlaced (λ v. some receipt) (record authority { campaign_sha256 = receipt })
      (arr (cons model_value nil)) (arr (cons component_value nil)) (arr (cons route_value nil))
      plan_value (the_frozen built) built_ok

abbrev late : Arguments
late = record arguments { attempt_id = Value.str "run-2" }

late_refused :
    (begin (the_frozen built) digests false true "aa" late (fresh_host limits)).0
    ≡ err not_scheduled
unfolding construction methods begin prepare natural text_argument or_raise find_slot
late_refused = refl

constructed_lookups_example : (not_scheduled ≢ unknown_model) × (not_scheduled ≢ unknown_component)
constructed_lookups_example =
    constructed_lookups (λ v. some receipt) (record authority { campaign_sha256 = receipt })
      (arr (cons model_value nil)) (arr (cons component_value nil)) (arr (cons route_value nil))
      plan_value (the_frozen built) digests false true "aa" late (fresh_host limits) not_scheduled
      built_ok late_refused
