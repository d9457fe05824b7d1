-- ===== src/Evidence.antt =====
-- src/prompt_performance_engine/evidence.py: evidence levels, the validation of an `Evidence` and
-- what one evaluation may claim. The two fixed sentences of `limitations` are kept as texts; the
-- three arguments that `infer_evidence` deletes unread are kept as arguments.
use prompt_performance_engin.Prelude.{
  ℕ, ◌≡◌, List, [], ◌∷◌, String, Bool, true, false, Option, if◌then◌else◌, str_eq, some, ◌&&◌, leb,
  none, ◌⊎◌, inl, is_empty, ◌||◌, any, ltb, refl, Bool-cases, inr, subst₂, sym,
}
use prompt_performance_engin.Prelude.Result.{Result, err, ok, ◌>>◌, ensure, raise_if}
use prompt_performance_engin.Prelude.Text.{is_blank}

-- `Evidence`, with values as `validate` may find them.
pub record Evidence : Type 0 where
  pub level : String
  pub status : String
  pub claim : String
  pub limitations : List String

-- `LEVEL_ORDER`
unfoldable pub level_order : String → Option ℕ
level_order level =
    if str_eq level "E0"
    then some 0
    else if str_eq level "E1"
    then some 1
    else if str_eq level "E2"
    then some 2
    else if str_eq level "E3"
    then some 3
    else if str_eq level "E4"
    then some 4
    else if str_eq level "E5"
    then some 5
    else none

pub data Error : Type 0 where
  unknown_level unknown_status level_too_low empty_claim no_limitations blank_limitation : Error

unfoldable pub check_level : String → Option ℕ → Result Error Unit
check_level status none = err unknown_level
check_level status (some order) = do
  ensure (str_eq status "candidate" || str_eq status "verified_scoped") unknown_status
  raise_if (str_eq status "verified_scoped" && ltb order 2) level_too_low

-- `Evidence.validate`
unfoldable pub validate : Evidence → Result Error Unit
unfolding level_order check_level is_blank
validate e = do
  check_level e.status (level_order e.level)
  raise_if (is_blank e.claim) empty_claim
  raise_if (is_empty e.limitations) no_limitations
  raise_if (any is_blank e.limitations) blank_limitation

unfoldable pub inferred_level : Bool → ℕ → Bool → String
inferred_level deterministic_checks_passed matched_cases comparative_improvement_passed =
    let level = if deterministic_checks_passed then "E1" else "E0" in
    if str_eq level "E1" && leb 5 matched_cases && comparative_improvement_passed
    then "E2"
    else level

-- The claim of a level at which evidence is verified, or is not.
unfoldable pub claim_at : Bool → String → Evidence
claim_at verified level = record {
  level = level;
  status = if verified then "verified_scoped" else "candidate";
  claim = if verified then "verified_improvement" else "optimized_candidate";
  limitations =
      "Evidence is valid only for the recorded models, settings, cases, and artifact versions."
      ∷ "Evidence does not establish universal superiority or award equivalence." ∷ [];
}

-- `LEVEL_ORDER[level] >= 2`
unfoldable pub is_verified : String → Bool
unfolding level_order
is_verified level = elim (level_order level) [ none ↦ false | some order ↦ leb 2 order ]

unfoldable pub infer_evidence : Bool → ℕ → Bool → Bool → ℕ → Bool → Evidence
unfolding inferred_level claim_at is_verified
infer_evidence deterministic_checks_passed matched_cases comparative_improvement_passed
      repeated_or_cross_model expert_reviewers independently_reproduced =
    let level =
      inferred_level deterministic_checks_passed matched_cases comparative_improvement_passed in
    claim_at (is_verified level) level

-- What a level and the claim at it come to, where `improved` tells whether it is E2.
abbrev Facts : Bool → String → Type 0
Facts improved level =
    let e = claim_at (is_verified level) level in
    (validate e ≡ ok tt)
    × ((e.level ≡ "E0") ⊎ (e.level ≡ "E1") ⊎ (e.level ≡ "E2"))
    × (str_eq e.level "E2" ≡ improved)
    × (str_eq e.status "verified_scoped" ≡ improved)

inferred_level_cases :
    (checks improved : Bool) (cases : ℕ)
    → ((inferred_level checks cases improved ≡ "E0")
        × ((checks && leb 5 cases && improved) ≡ false))
      ⊎ ((inferred_level checks cases improved ≡ "E1")
          × ((checks && leb 5 cases && improved) ≡ false))
      ⊎ ((inferred_level checks cases improved ≡ "E2")
          × ((checks && leb 5 cases && improved) ≡ true))
unfolding inferred_level
inferred_level_cases false improved cases = inl (refl, refl)
inferred_level_cases true improved cases = elim (Bool-cases (leb 5 cases && improved)) [
  | inl e ↦ inr (inr (rw e, e))
  | inr e ↦ inr (inl (rw e, e))
]

Facts-at :
    (level : String) (improved : Bool) (l : String) (b : Bool)
    → level ≡ l
    → improved ≡ b
    → Facts b l
    → Facts improved level
Facts-at level improved l b p q f = subst₂ Facts (sym q) (sym p) f

-- Whatever its arguments, `infer_evidence` returns evidence that passes `validate`, of level E0, E1
-- or E2; it is E2, and verified, exactly when the deterministic checks passed, at least five cases
-- were matched and the comparison shows an improvement. What is said of repetition, of reviewers and
-- of reproduction changes nothing.
pub infer_evidence_ceiling :
    (checks improved repeated reproduced : Bool) (cases reviewers : ℕ)
    → let e = infer_evidence checks cases improved repeated reviewers reproduced in
      (validate e ≡ ok tt)
      × ((e.level ≡ "E0") ⊎ (e.level ≡ "E1") ⊎ (e.level ≡ "E2"))
      × (str_eq e.level "E2" ≡ (checks && leb 5 cases && improved))
      × (str_eq e.status "verified_scoped" ≡ (checks && leb 5 cases && improved))
      × (e ≡ infer_evidence checks cases improved false 0 false)
unfolding infer_evidence validate
infer_evidence_ceiling checks improved repeated reproduced cases reviewers =
    let level = inferred_level checks cases improved in
    let test = checks && leb 5 cases && improved in
    let facts : Facts test level = elim (inferred_level_cases checks improved cases) [
      | inl (p, q) ↦ Facts-at level test "E0" false p q (refl, inl refl, refl, refl)
      | inr (inl (p, q)) ↦ Facts-at level test "E1" false p q (refl, inr (inl refl), refl, refl)
      | inr (inr (p, q)) ↦ Facts-at level test "E2" true p q (refl, inr (inr refl), refl, refl)
    ] in
    (facts.0, facts.1, facts.2, facts.3, refl)
