-- ===== src/Contracts/RoundTrip.antt =====
-- Decoding an encoded request gives the request again; what is decoded is valid.
use prompt_performance_engin.Prelude.{◌≡◌, refl, List, [], ◌∷◌, String, arith, ℕ, ◌≤◌, subst}
use prompt_performance_engin.Contracts.Request.{
  request_of, text_array, validate_count, fields_of, normalize_count, text_items, validate,
  OptimizationRequest, get_or, from_dict, to_dict, request_fields, unknown_field, required_fields,
  missing_field,
}
use prompt_performance_engin.Prelude.Value.{Value, arr, obj, ℤ, keys}
use prompt_performance_engin.Prelude.Result.{ok, last_of_two, ensure, returned_by, ok_eq}
use prompt_performance_engin.Prelude.Dict.{subset}

text_array-text_items : (ss : List String) → text_array (arr (text_items ss)) ≡ ok ss
unfolding text_array text_items
text_array-text_items [] = refl
text_array-text_items (s ∷ ss) = rw (text_array-text_items ss)

-- A count that `validate` accepts is an `int` already.
normalize_count-valid : (v : Value) → validate_count v ≡ ok tt → normalize_count v ≡ v
unfolding validate_count normalize_count
normalize_count-valid (Value.int n) h = refl
normalize_count-valid _ h = cc

request_of-fields_of :
    (r : OptimizationRequest) (d : Value)
    → normalize_count r.candidate_count ≡ r.candidate_count
    → request_of (fields_of r) d ≡ ok r
unfolding request_of fields_of get_or
request_of-fields_of r d h =
    rw (text_array-text_items r.required_behaviors, text_array-text_items r.forbidden_changes, h)

-- The count is the last thing that `validate` looks at.
validate-count :
    (r : OptimizationRequest) → validate r ≡ ok tt → validate_count r.candidate_count ≡ ok tt
unfolding validate
validate-count r h = ground arith

-- A request that `validate` accepts is encoded by `to_dict`, and `from_dict` decodes that to the same
-- request, whatever the default surface.
pub from_dict-to_dict :
    (r : OptimizationRequest) (surface : String)
    → validate r ≡ ok tt
    → (to_dict r ≡ ok (obj (fields_of r))) × (from_dict (obj (fields_of r)) surface ≡ ok r)
unfolding to_dict from_dict
from_dict-to_dict r surface v = (
  rw v,
  rw (
    request_of-fields_of r (Value.str surface)
        (normalize_count-valid r.candidate_count (validate-count r v)),
    v,
  ),
)

-- An integer from one to five.
abbrev pub IsCount : Value → Type 0
IsCount v = (n : ℕ) × (v ≡ Value.int (ℤ.pos n)) × (1 ≤ n) × (n ≤ 5)

validate_count-IsCount : (v : Value) → validate_count v ≡ ok tt → IsCount v
unfolding validate_count
validate_count-IsCount (Value.int (ℤ.pos n)) h = (n, refl, ground arith, ground arith)
validate_count-IsCount _ h = cc

abbrev Decoded : OptimizationRequest → Type 0
Decoded r = (validate r ≡ ok tt) × IsCount r.candidate_count

-- What `from_dict` returns passed `validate`; its count is an integer from one to five.
pub from_dict-valid :
    (v : Value) (surface : String) (r : OptimizationRequest)
    → from_dict v surface ≡ ok r
    → (validate r ≡ ok tt) × IsCount r.candidate_count
unfolding from_dict
from_dict-valid (obj fs) surface r h =
    let (h1, _, _) = last_of_two (ensure (subset (keys fs) request_fields) unknown_field) _ r h in
    let (h2, _, _) = last_of_two (ensure (subset required_fields (keys fs)) missing_field) _ r h1 in
    let (request, checked, _) = returned_by (request_of fs (Value.str surface)) _ r h2 in
    let (same, t, valid) = last_of_two (validate request) _ r checked in
    subst Decoded (ok_eq same)
      (valid, validate_count-IsCount request.candidate_count (validate-count request valid))
from_dict-valid _ surface r h = cc
