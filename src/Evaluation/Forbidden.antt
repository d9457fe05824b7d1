-- ===== src/Evaluation/Forbidden.antt =====
-- `_contains_unnegated_forbidden` of src/prompt_performance_engine/evaluation.py: the search for an
-- occurrence of a forbidden text that is not negated, reported or rejected. Texts are lists of code
-- points, already case-folded. The regular expressions of the function are applied by `re`, and are
-- given to the model as the tests that they make: `negation` is the end of the match, if any.
use prompt_performance_engin.Prelude.{
  ℕ, zero, suc, ◌+◌, ◌-◌, ◌≤◌, ◌<◌, ◌≡◌, refl, Bool, true, false, ◌||◌, List, [], ◌∷◌, ◌++◌, Option,
  none, some, length, ◌==◌, if◌then◌else◌, arith, Option-cases, drop, take, inl, length-drop, not,
  inr, Bool-cases, ◌∙◌, sym, ◌⊎◌,
}
use prompt_performance_engin.Prelude.Text.{find_text, starts_with}

pub record Patterns : Type 0 where
  pub negation : List ℕ → Option ℕ
  pub reversal : List ℕ → Bool
  pub reported_request : List ℕ → Bool
  pub warning_before : List ℕ → Bool
  pub warning_after : List ℕ → Bool
  pub rejection_before : List ℕ → Bool
  pub rejection_after : List ℕ → Bool

-- What lies behind the last `.`, `;`, `:` or newline.
unfoldable pub clause_of : List ℕ → List ℕ → List ℕ
clause_of seen [] = seen
clause_of seen (c ∷ cs) =
    clause_of (if c == b'.' || c == b';' || c == b':' || c == 10 then [] else seen ++ c ∷ []) cs

-- `text[max(0, len(text) - n):]`
unfoldable pub last_of : ℕ → List ℕ → List ℕ
last_of n text = drop (length text - n) text

-- What an occurrence between `prefix` and `suffix` asks of the loop: `return True`, or go on.
unfoldable pub is_reported : Patterns → List ℕ → List ℕ → Bool
unfolding clause_of last_of
is_reported p prefix suffix =
    let context = clause_of [] prefix in
    let before = last_of 240 prefix in
    let after = take 160 suffix in
    elim (p.negation context) [
      | some end ↦ p.reversal (drop end context)
      | none ↦ not (
          p.reported_request before
          || (p.warning_before before || p.warning_after after)
          || (p.rejection_before before || p.rejection_after after))
    ]

-- The loop, from `start`; `none` says that the fuel ran out.
unfoldable pub scan : Patterns → List ℕ → List ℕ → ℕ → ℕ → Option Bool
scan p lowered target zero start = none
scan p lowered target (suc fuel) start = elim (find_text target (drop start lowered)) [
  | none ↦ some false
  | some offset ↦
      elim (is_reported p (take (start + offset) lowered)
        (drop (start + offset + length target) lowered)) [
          | true ↦ some true
          | false ↦ scan p lowered target fuel (start + offset + length target)
        ]
]

-- The function, with fuel for a round at each position and one more.
unfoldable pub contains_unnegated_forbidden : Patterns → List ℕ → List ℕ → Option Bool
unfolding scan find_text is_reported
contains_unnegated_forbidden p lowered target = scan p lowered target (length lowered + 2) 0

starts_with_bound :
    (target text : List ℕ) → starts_with target text ≡ true → length target ≤ length text
unfolding starts_with
starts_with_bound [] text h = omega arith
starts_with_bound (c ∷ cs) [] h = cc
starts_with_bound (c ∷ cs) (d ∷ ds) h = ground (arith, starts_with_bound cs ds)

-- An occurrence lies within the text.
find_text_bound :
    (target text : List ℕ) (at : ℕ)
    → find_text target text ≡ some at
    → at + length target ≤ length text
unfolding find_text
find_text_bound target [] at h = ground (arith, starts_with_bound target [])
find_text_bound target (d ∷ ds) at h = elim (Option-cases (find_text target ds)) [
  | inl e ↦ ground (arith, starts_with_bound target (d ∷ ds))
  | inr (n, e) ↦ ground (arith, starts_with_bound target (d ∷ ds), find_text_bound target ds n e)
]

-- The next round starts behind the occurrence, and within the text.
next_start :
    (lowered target : List ℕ) (start offset : ℕ)
    → find_text target (drop start lowered) ≡ some offset
    → start ≤ length lowered
    → start + offset + length target ≤ length lowered
next_start lowered target start offset found h =
    omega
      (arith, find_text_bound target (drop start lowered) offset found, length-drop start lowered)

-- One round: no occurrence, one that counts, one that is passed over.
module _ (p : Patterns) (lowered target : List ℕ) (fuel start : ℕ) where
  scan_without :
      find_text target (drop start lowered) ≡ none
      → scan p lowered target (suc fuel) start ≡ some false
  unfolding scan
  scan_without e = ground arith

  scan_hit :
      (offset : ℕ)
      → find_text target (drop start lowered) ≡ some offset
      → is_reported p
          (take (start + offset) lowered)
          (drop (start + offset + length target) lowered)
        ≡ true
      → scan p lowered target (suc fuel) start ≡ some true
  unfolding scan
  scan_hit offset e hit = ground arith

  scan_pass :
      (offset : ℕ)
      → find_text target (drop start lowered) ≡ some offset
      → is_reported p
          (take (start + offset) lowered)
          (drop (start + offset + length target) lowered)
        ≡ false
      → scan p lowered target (suc fuel) start
        ≡ scan p lowered target fuel (start + offset + length target)
  unfolding scan
  scan_pass offset e pass = ground arith

scan_total :
    (p : Patterns) (lowered target : List ℕ) (fuel start : ℕ)
    → 1 ≤ length target
    → start ≤ length lowered
    → length lowered + 1 < fuel + start
    → (b : Bool) × (scan p lowered target fuel start ≡ some b)
scan_total p lowered target zero start h s m = absurd (omega arith)
scan_total p lowered target (suc fuel) start h s m =
    elim (Option-cases (find_text target (drop start lowered))) [
      | inl e ↦ (false, scan_without p lowered target fuel start e)
      | inr (offset, e) ↦
          elim (Bool-cases (
            is_reported p (take (start + offset) lowered)
              (drop (start + offset + length target) lowered))) [
                | inl hit ↦ (true, scan_hit p lowered target fuel start offset e hit)
                | inr pass ↦
                    let within = next_start lowered target start offset e s in
                    rw (scan_pass p lowered target fuel start offset e pass) (
                      scan_total p lowered target fuel (start + offset + length target) h within
                        (omega arith))
              ]
    ]

-- The search ends for every forbidden text that is not empty.
pub contains_unnegated_forbidden_total :
    (p : Patterns) (lowered target : List ℕ)
    → 1 ≤ length target
    → (b : Bool) × (contains_unnegated_forbidden p lowered target ≡ some b)
unfolding contains_unnegated_forbidden
contains_unnegated_forbidden_total p lowered target h =
    scan_total p lowered target (length lowered + 2) 0 h (omega arith) (omega arith)

-- An occurrence between `prefix` and `suffix` that does not count: it is negated in its clause and
-- nothing behind the negation takes it back, or no negation stands there and the words around it
-- report a request, warn or reject.
abbrev pub Excused : Patterns → List ℕ → List ℕ → Type 0
Excused p prefix suffix =
    ((end : ℕ) × (p.negation (clause_of [] prefix) ≡ some end)
      × (p.reversal (drop end (clause_of [] prefix)) ≡ false))
    ⊎ ((p.negation (clause_of [] prefix) ≡ none)
        × ((p.reported_request (last_of 240 prefix) ≡ true)
            ⊎ (p.warning_before (last_of 240 prefix) ≡ true)
            ⊎ (p.warning_after (take 160 suffix) ≡ true)
            ⊎ (p.rejection_before (last_of 240 prefix) ≡ true)
            ⊎ (p.rejection_after (take 160 suffix) ≡ true)))

-- From a start on, each occurrence in turn is excused, and then there is none.
pub data IsClear (p : Patterns) (lowered target : List ℕ) : ℕ → Type 0 where
  nothing :
      (start : ℕ) → find_text target (drop start lowered) ≡ none → IsClear p lowered target start
  passing :
      (start offset : ℕ)
      → find_text target (drop start lowered) ≡ some offset
      → Excused p (take (start + offset) lowered) (drop (start + offset + length target) lowered)
      → IsClear p lowered target (start + offset + length target)
      → IsClear p lowered target start

some_of_five :
    (a b c d e : Bool)
    → not (a || (b || c) || (d || e)) ≡ false
    → (a ≡ true) ⊎ (b ≡ true) ⊎ (c ≡ true) ⊎ (d ≡ true) ⊎ (e ≡ true)
some_of_five true b c d e h = inl refl
some_of_five false true c d e h = inr (inl refl)
some_of_five false false true d e h = inr (inr (inl refl))
some_of_five false false false true e h = inr (inr (inr (inl refl)))
some_of_five false false false false true h = inr (inr (inr (inr refl)))
some_of_five false false false false false h = cc

is_reported-Excused :
    (p : Patterns) (prefix suffix : List ℕ)
    → is_reported p prefix suffix ≡ false
    → Excused p prefix suffix
unfolding is_reported
is_reported-Excused p prefix suffix h = elim (Option-cases (p.negation (clause_of [] prefix))) [
  | inr (end, e) ↦ inl (end, e, rw (e, is_reported) at h)
  | inl e ↦ inr (e, some_of_five _ _ _ _ _ (rw (e, is_reported) at h))
]

scan_no_fuel :
    (p : Patterns) (lowered target : List ℕ) (start : ℕ) → scan p lowered target zero start ≡ none
unfolding scan
scan_no_fuel p lowered target start = refl

scan-IsClear :
    (p : Patterns) (lowered target : List ℕ) (fuel start : ℕ)
    → scan p lowered target fuel start ≡ some false
    → IsClear p lowered target start
scan-IsClear p lowered target zero start h = cc (sym (scan_no_fuel p lowered target start) ∙ h)
scan-IsClear p lowered target (suc fuel) start h =
    elim (Option-cases (find_text target (drop start lowered))) [
      | inl e ↦ nothing start e
      | inr (offset, e) ↦
          elim (Bool-cases (
            is_reported p (take (start + offset) lowered)
              (drop (start + offset + length target) lowered))) [
                | inl hit ↦ cc (sym (scan_hit p lowered target fuel start offset e hit) ∙ h)
                | inr pass ↦ passing start offset e (is_reported-Excused p _ _ pass) (
                    scan-IsClear p lowered target fuel (start + offset + length target)
                      (sym (scan_pass p lowered target fuel start offset e pass) ∙ h))
              ]
    ]

-- A search that finds nothing that counts has passed over excused occurrences alone.
pub contains_unnegated_forbidden-IsClear :
    (p : Patterns) (lowered target : List ℕ)
    → contains_unnegated_forbidden p lowered target ≡ some false
    → IsClear p lowered target 0
unfolding contains_unnegated_forbidden
contains_unnegated_forbidden-IsClear p lowered target h =
    scan-IsClear p lowered target (length lowered + 2) 0 h

-- What follows the start reads as a warning, so the occurrence there is passed over.
empty_round :
    (p : Patterns) (lowered : List ℕ)
    → p.negation [] ≡ none
    → p.warning_after (take 160 lowered) ≡ true
    → is_reported p [] lowered ≡ false
unfolding is_reported
empty_round p lowered h w = ground arith

-- The empty forbidden text is found at the start of every output, and the next round starts there
-- again: where no negation is seen in nothing and the words after it read as a warning, no number of
-- rounds ends the search.
pub scan_empty_diverges :
    (p : Patterns) (lowered : List ℕ) (fuel : ℕ)
    → p.negation [] ≡ none
    → p.warning_after (take 160 lowered) ≡ true
    → scan p lowered [] fuel 0 ≡ none
unfolding find_text
scan_empty_diverges p lowered zero h w = unfold scan in refl
scan_empty_diverges p [] (suc fuel) h w =
    scan_pass p [] [] fuel 0 0 refl (empty_round p [] h w) ∙ scan_empty_diverges p [] fuel h w
scan_empty_diverges p (c ∷ cs) (suc fuel) h w =
    scan_pass p (c ∷ cs) [] fuel 0 0 refl (empty_round p (c ∷ cs) h w)
    ∙ scan_empty_diverges p (c ∷ cs) fuel h w
