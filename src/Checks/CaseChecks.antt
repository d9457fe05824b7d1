-- ===== src/Checks/CaseChecks.antt =====
-- src/prompt_performance_engine/case_checks.py: checks of the software cases, most of which run the
-- output in a sandbox. What a verifier finds (software_execution.py) is a function given to the
-- model; `none` is a sandbox that is absent or of another class.
use prompt_performance_engin.Prelude.{
  Bool, true, false, ◌&&◌, List, [], ◌∷◌, Option, none, some, String, str_eq, if◌then◌else◌, drop,
  length, leb, ◌-◌, ◌≡◌, Option-cases, inl, arith, inr,
}
use prompt_performance_engin.Prelude.Text.{codes, starts_with}
use prompt_performance_engin.Checks.Record.{Check, all_passed}

pub data Verifier : Type 0 where
  verify_pagination verify_concurrency verify_endpoint verify_cli verify_migration : Verifier

pub record CaseVerifier : Type 0 where
  pub case_id : String
  pub check_name : String
  pub verifier : Verifier

-- `SOFTWARE_CASE_VERIFIERS`
abbrev pub software_case_verifiers : List CaseVerifier
software_case_verifiers =
    record {
      case_id = "se-normal-pagination";
      check_name = "pagination_restricted_execution";
      verifier = verify_pagination;
    }
    ∷ record {
      case_id = "se-difficult-concurrency";
      check_name = "concurrency_restricted_execution";
      verifier = verify_concurrency;
    }
    ∷ record {
      case_id = "se-adversarial-contract";
      check_name = "endpoint_contract_restricted_execution";
      verifier = verify_endpoint;
    }
    ∷ record {
      case_id = "se-normal-cli";
      check_name = "cli_contract_restricted_execution";
      verifier = verify_cli;
    }
    ∷ record {
      case_id = "se-difficult-migration";
      check_name = "migration_machine_contract";
      verifier = verify_migration;
    }
    ∷ []

-- `check_name.endswith("_restricted_execution")`
unfoldable pub requires_docker : String → Bool
unfolding starts_with
requires_docker check_name =
    let suffix = codes "_restricted_execution" in
    leb (length suffix) (length (codes check_name))
    && starts_with suffix (drop (length (codes check_name) - length suffix) (codes check_name))

unfoldable pub find_verifier : String → List CaseVerifier → Option CaseVerifier
find_verifier case_id [] = none
find_verifier case_id (v ∷ vs) =
    if str_eq v.case_id case_id then some v else find_verifier case_id vs

module _ {S : Type 0} (verify : Verifier → String → Option S → Bool) where
  -- `run` of `_software_verification`
  unfoldable pub software_verification : CaseVerifier → String → Option S → List Check
  software_verification v output none =
      if requires_docker v.check_name
      then record { check = v.check_name; passed = false; authoritative = some true } ∷ []
      else record {
        check = v.check_name;
        passed = verify v.verifier output none;
        authoritative = some true;
      }
        ∷ []
  software_verification v output (some sandbox) =
      record {
        check = v.check_name;
        passed = verify v.verifier output (some sandbox);
        authoritative = some true;
      }
      ∷ []

  unfoldable pub run_case_checks : String → String → Option S → List Check
  run_case_checks case_id output sandbox = elim (find_verifier case_id software_case_verifiers) [
    | none ↦ []
    | some v ↦ software_verification v output sandbox
  ]

-- The cases whose check needs the sandbox (`DOCKER_REQUIRED_CASE_IDS`).
unfoldable pub docker_required : String → Bool
docker_required case_id = elim (find_verifier case_id software_case_verifiers) [
  | none ↦ false
  | some v ↦ requires_docker v.check_name
]

-- Without a sandbox the check of a case that needs one fails.
pub run_case_checks-closed :
    {S : Type 0} (verify : Verifier → String → Option S → Bool) (case_id output : String)
    → docker_required case_id ≡ true
    → all_passed (run_case_checks verify case_id output none) ≡ false
unfolding run_case_checks software_verification docker_required all_passed
run_case_checks-closed verify case_id output needed =
    elim (Option-cases (find_verifier case_id software_case_verifiers)) [
      | inl e ↦ ground arith
      | inr (v, e) ↦ ground arith
    ]
