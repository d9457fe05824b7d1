-- ===== src/Provider/AttemptLaws.antt =====
-- The attempts of the provider's adapter end, and are no more than the policy allows.
use prompt_performance_engin.Prelude.{
  String, Bool, true, false, ℕ, zero, suc, ◌+◌, ◌≤◌, ◌<◌, ltb, Option, none, some, ◌≡◌, refl, arith,
  if_induction, leb, not, ◌||◌,
}
use prompt_performance_engin.Prelude.Result.{Result, ok, err}
use prompt_performance_engin.Prelude.Text.{is_blank}
use prompt_performance_engin.Runtime.Adapter.{CompletionResponse}
use prompt_performance_engin.Provider.Output.{
  OutputError, extract_output_text, extract_output_text_not_blank,
}
use prompt_performance_engin.Provider.Attempts.{
  Error, Ended, Transport, Outcome, Decision, SendFailure, finished, refused, failed, stopped, give,
  stop, again, decide_attempt, outcome_of, read_body, read_text, response_of, after_sleep, act,
  attempt_from, complete_request, http_error, retryable,
}
use prompt_performance_engin.Prelude.Value.{Fields}

-- A response of one of the attempts after `low` up to `high`, with a text; any error.
abbrev pub IsWithin : ℕ → ℕ → Result Error CompletionResponse → Type 0
IsWithin low high (ok r) =
    (low < r.metadata.attempts) × (r.metadata.attempts ≤ high) × (is_blank r.text ≡ false)
IsWithin low high (err e) = Unit

abbrev EndsWithin : {W : Type 0} → ℕ → ℕ → Ended W → Type 0
EndsWithin low high none = ⊥
EndsWithin low high (some (o, w)) = IsWithin low high o

-- What an attempt gives is its own response.
abbrev IsOf : ℕ → Outcome → Type 0
IsOf attempts (finished r) = (r.metadata.attempts ≡ attempts) × (is_blank r.text ≡ false)
IsOf attempts outcome = Unit

module _ {W : Type 0} (t : Transport W) (model : String) where
  read_text-IsOf :
      (attempts elapsed : ℕ) (fs : Fields) (o : Result OutputError String)
      → ((text : String) → o ≡ ok text → is_blank text ≡ false)
      → IsOf attempts (read_text t model attempts elapsed fs o)
  unfolding read_text response_of
  read_text-IsOf attempts elapsed fs (ok text) h = (refl, h text refl)
  read_text-IsOf attempts elapsed fs (err e) h = tt

  read_body-IsOf :
      (attempts elapsed : ℕ) (o : Option Fields)
      → IsOf attempts (read_body t model attempts elapsed o)
  unfolding read_body
  read_body-IsOf attempts elapsed (some fs) =
      read_text-IsOf attempts elapsed fs (extract_output_text t.join fs)
        (extract_output_text_not_blank t.join fs)
  read_body-IsOf attempts elapsed none = tt

  outcome_of-IsOf :
      (attempts elapsed : ℕ) (sent : Result SendFailure (ℕ × String))
      → IsOf attempts (outcome_of t model attempts elapsed sent)
  unfolding outcome_of
  outcome_of-IsOf attempts elapsed (ok (status, raw)) =
      if_induction (IsOf attempts) (leb 400 status) (λ e. tt)
        (λ e. read_body-IsOf attempts elapsed (t.decode raw))
  outcome_of-IsOf attempts elapsed (err (http_error code)) = tt
  outcome_of-IsOf attempts elapsed (err SendFailure.transport_error) = tt
  outcome_of-IsOf attempts elapsed (err SendFailure.value_error) = tt
  outcome_of-IsOf attempts elapsed (err SendFailure.send_cancelled) = tt

-- An attempt is repeated while retries are left, and gives only what it came to.
abbrev Decided : ℕ → ℕ → Decision → Type 0
Decided max_retries attempts (give r) = (r.metadata.attempts ≡ attempts) × (is_blank r.text ≡ false)
Decided max_retries attempts (stop e) = Unit
Decided max_retries attempts again = attempts ≤ max_retries

decide_attempt-Decided :
    (max_retries attempts : ℕ) (outcome : Outcome)
    → IsOf attempts outcome
    → Decided max_retries attempts (decide_attempt max_retries attempts outcome)
unfolding decide_attempt
decide_attempt-Decided max_retries attempts (finished r) h = h
decide_attempt-Decided max_retries attempts (refused code) h =
    if_induction (Decided max_retries attempts) (not (retryable code) || ltb max_retries attempts)
      (λ e. tt) (λ e. ground (arith, e))
decide_attempt-Decided max_retries attempts failed h =
    if_induction (Decided max_retries attempts) (ltb max_retries attempts) (λ e. tt)
      (λ e. ground (arith, e))
decide_attempt-Decided max_retries attempts (stopped e) h = tt

wider :
    {W : Type 0} (low high : ℕ) (e : Ended W) → EndsWithin (suc low) high e → EndsWithin low high e
wider low high none h = absurd h
wider low high (some (ok r, w)) (above, below, filled) = (omega (arith, above), below, filled)
wider low high (some (err e, w)) h = tt

-- After the wait, by its result.
after_sleep-EndsWithin :
    {W : Type 0} (rest : W → Ended W) (low high : ℕ) (slept : Bool × W)
    → ((v : W) → EndsWithin (suc low) high (rest v))
    → EndsWithin low high (after_sleep rest slept)
unfolding after_sleep
after_sleep-EndsWithin rest low high (true, v) h = tt
after_sleep-EndsWithin rest low high (false, v) h = wider low high (rest v) (h v)

act-EndsWithin :
    {W : Type 0} (t : Transport W) (rest : W → Ended W) (max_retries low : ℕ) (d : Decision) (w : W)
    → Decided max_retries (suc low) d
    → low ≤ max_retries
    → ((suc low ≤ max_retries) → (v : W) → EndsWithin (suc low) (suc max_retries) (rest v))
    → EndsWithin low (suc max_retries) (act t rest (suc low) d w)
unfolding act
act-EndsWithin t rest max_retries low (give r) w (same, filled) h more =
    (omega (arith, same), omega (arith, same), filled)
act-EndsWithin t rest max_retries low (stop e) w decided h more = tt
act-EndsWithin t rest max_retries low again w decided h more =
    after_sleep-EndsWithin rest low (suc max_retries) (t.sleep (suc low) w) (more decided)

attempt_step :
    {W : Type 0} (t : Transport W) (model : String) (max_retries fuel attempts : ℕ) (w : W)
    → attempts ≤ max_retries
    → (suc attempts ≤ max_retries
        → (v : W)
        → EndsWithin
            (suc attempts)
            (suc max_retries)
            (attempt_from t model max_retries fuel (suc attempts) v))
    → EndsWithin attempts (suc max_retries) (attempt_from t model max_retries (suc fuel) attempts w)
unfolding attempt_from
attempt_step t model max_retries fuel attempts w few more =
    if_induction (EndsWithin attempts (suc max_retries)) (t.is_cancelled w) (λ e. tt)
      (λ e.
        act-EndsWithin t (attempt_from t model max_retries fuel (suc attempts)) max_retries attempts
          _ (t.send w).1
          (decide_attempt-Decided max_retries (suc attempts) _
            (outcome_of-IsOf t model (suc attempts) (t.elapsed_ms (t.send w).1) (t.send w).0))
          few more)

attempt_from-EndsWithin :
    {W : Type 0} (t : Transport W) (model : String) (max_retries fuel attempts : ℕ) (w : W)
    → fuel + attempts ≡ max_retries
    → EndsWithin attempts (suc max_retries) (attempt_from t model max_retries (suc fuel) attempts w)
attempt_from-EndsWithin t model max_retries zero attempts w enough =
    attempt_step t model max_retries zero attempts w (omega arith) (λ l. absurd (omega arith))
attempt_from-EndsWithin t model max_retries (suc fuel) attempts w enough =
    attempt_step t model max_retries (suc fuel) attempts w (omega arith)
      (λ l v. attempt_from-EndsWithin t model max_retries fuel (suc attempts) v (omega arith))

complete_request-EndsWithin :
    {W : Type 0} (t : Transport W) (model : String) (max_retries : ℕ) (w : W)
    → EndsWithin 0 (suc max_retries) (complete_request t model max_retries w)
unfolding complete_request
complete_request-EndsWithin t model max_retries w =
    if_induction (EndsWithin 0 (suc max_retries)) (t.is_cancelled w) (λ e. tt)
      (λ e.
        if_induction (EndsWithin 0 (suc max_retries)) (is_blank (t.api_key w)) (λ b. tt)
          (λ b. attempt_from-EndsWithin t model max_retries max_retries 0 w (omega arith)))

end_of :
    {W : Type 0} (low high : ℕ) (e : Ended W)
    → EndsWithin low high e
    → (o : Result Error CompletionResponse) × (v : W) × (e ≡ some (o, v)) × IsWithin low high o
end_of low high none h = absurd h
end_of low high (some (o, v)) h = (o, v, refl, h)

-- `complete` ends, on the fuel that the policy gives: a response comes from an attempt that is at least
-- the first and at most one more than the retries allowed, and its text is not blank.
pub complete_request_ends :
    {W : Type 0} (t : Transport W) (model : String) (max_retries : ℕ) (w : W)
    → (o : Result Error CompletionResponse) × (v : W) × (complete_request t model max_retries w
        ≡ some (o, v))
      × IsWithin 0 (suc max_retries) o
complete_request_ends t model max_retries w =
    end_of 0 (suc max_retries) (complete_request t model max_retries w)
      (complete_request-EndsWithin t model max_retries w)
