-- ===== src/Provider/Tests.antt =====
-- The attempts at a transport that is busy once.
use prompt_performance_engin.Prelude.{
  String, ◌≡◌, refl, ℕ, false, some, suc, zero, List, if◌then◌else◌, str_eq, true, ◌⊎◌, [], All,
}
use prompt_performance_engin.Prelude.Value.{Value, Fields, field, end, arr, cons, nil, ℤ, Items}
use prompt_performance_engin.Prelude.Text.{is_blank, occurs_in, find_text, starts_with}
use prompt_performance_engin.Prelude.Result.{Result, ok}
use prompt_performance_engin.Runtime.Adapter.{CompletionResponse}
use prompt_performance_engin.Provider.Output.{extract_output_text, convenience_or_listed}
use prompt_performance_engin.Provider.Attempts.{
  Error, Ended, Transport, SendFailure, complete_request, attempt_from, act, after_sleep,
  decide_attempt, retryable, outcome_of, read_body, read_text, response_of,
}
use prompt_performance_engin.Provider.Permissions.{
  ToolPermissionManifest, validate_permissions, validate_permissions_lem, filled_texts, filled_text,
  is_directory, is_timeout, permission, is_sensitive, no_directory, IsFilled, IsTimeout,
  other_object, HasNoMarker,
}
use prompt_performance_engin.Provider.AttemptLaws.{complete_request_ends, IsWithin}

abbrev body : Fields
body = field "output_text" (Value.str "hello") end

-- The world counts the requests that were sent.
abbrev busy_once : ℕ → Result SendFailure (ℕ × String) × ℕ
busy_once zero = (ok (503, ""), 1)
busy_once (suc n) = (ok (200, "{}"), suc (suc n))

abbrev transport : Transport ℕ
transport = record {
  is_cancelled = λ w. false;
  api_key = λ w. "key";
  send = busy_once;
  sleep = λ n w. (false, w);
  elapsed_ms = λ w. 0;
  decode = λ s. some body;
  join = λ parts. "";
  to_text = λ v. "text";
}

abbrev attempts_of : Ended ℕ → ℕ
attempts_of (some (ok r, w)) = r.metadata.attempts
attempts_of _ = 0

second_attempt : attempts_of (complete_request transport "m" 2 0) ≡ 2
unfolding complete_request attempt_from act after_sleep decide_attempt retryable outcome_of
    read_body read_text response_of is_blank extract_output_text convenience_or_listed
second_attempt = refl

complete_request_ends_example :
    (o : Result Error CompletionResponse) × (v : ℕ) × (complete_request transport "m" 2 0
      ≡ some (o, v))
    × IsWithin 0 3 o
complete_request_ends_example = complete_request_ends transport "m" 2 0

abbrev to_upper : String → String
to_upper name = if str_eq name "api_key" then "API_KEY" else "PATH"

abbrev permissions : ToolPermissionManifest
permissions = record {
  allowed_executables = arr (cons (Value.str "codex") nil);
  allowed_environment = arr (cons (Value.str "path") nil);
  working_directory = no_directory;
  maximum_timeout_seconds = Value.int (ℤ.pos 300);
  allow_sensitive_environment = Value.bool false;
}

permitted : validate_permissions to_upper permissions ≡ ok tt
unfolding validate_permissions filled_texts filled_text is_directory is_timeout permission
    is_sensitive is_blank occurs_in find_text starts_with
permitted = refl

validate_permissions_lem_example :
    ((executables : List String) × (items : Items) × (permissions.allowed_executables ≡ arr items)
      × IsFilled items executables
      × ¬ (executables ≡ []))
    × IsTimeout permissions.maximum_timeout_seconds
    × ¬ (permissions.working_directory ≡ other_object)
    × ((environment : List String) × (items : Items) × (permissions.allowed_environment ≡ arr items)
        × IsFilled items environment
        × ((permissions.allow_sensitive_environment ≡ Value.bool true)
            ⊎ ((permissions.allow_sensitive_environment ≡ Value.bool false)
                × All (HasNoMarker to_upper) environment)))
validate_permissions_lem_example = validate_permissions_lem to_upper permissions permitted
