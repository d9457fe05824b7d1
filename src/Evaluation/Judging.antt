-- ===== src/Evaluation/Judging.antt =====
-- `_map_winner` and `_aggregate_judges` of src/prompt_performance_engine/evaluation.py, and what the
-- aggregate depends on.
use prompt_performance_engin.Prelude.{
  ℕ, ◌≡◌, refl, Bool, true, false, ◌||◌, ◌&&◌, not, List, [], ◌∷◌, map, any, count_if, ltb,
  if◌then◌else◌, All, String, inl, ◌↔◌, ap₂, subst, ◌<◌, ◌⊎◌, arith, sym, eq_iff, inr, ap,
}
use prompt_performance_engin.Evaluation.Case.{JudgeDecision, is_text, holds}
use prompt_performance_engin.Prelude.Value.{Value}

-- "win", "tie" and "loss"
pub data Outcome : Type 0 where
  win tie loss : Outcome

abbrev pub is_win : Outcome → Bool
is_win win = true
is_win _ = false

abbrev pub is_tie : Outcome → Bool
is_tie tie = true
is_tie _ = false

abbrev pub is_loss : Outcome → Bool
is_loss loss = true
is_loss _ = false

unfoldable pub map_winner : Value → Bool → Outcome
map_winner winner optimized_is_a =
    if is_text "tie" winner
    then tie
    else if (is_text "A" winner && optimized_is_a) || (is_text "B" winner && not optimized_is_a)
    then win
    else loss

-- `decision.fatal_flaw_a if optimized_is_a else decision.fatal_flaw_b`
unfoldable pub optimized_fatal : Bool → JudgeDecision → Bool
optimized_fatal optimized_is_a d =
    if optimized_is_a then holds d.fatal_flaw_a else holds d.fatal_flaw_b

unfoldable pub majority : ℕ → ℕ → Outcome
majority wins losses = if ltb losses wins then win else if ltb wins losses then loss else tie

unfoldable pub mapped_winners : Bool → List JudgeDecision → List Outcome
unfolding map_winner
mapped_winners optimized_is_a = map (λ d. map_winner d.winner optimized_is_a)

-- A fatal flaw is a loss; without one the votes decide.
abbrev pub tally : Bool → ℕ → ℕ → Outcome × Bool
tally flaw wins losses = if flaw then (loss, true) else (majority wins losses, false)

unfoldable pub aggregate_judges : List JudgeDecision → Bool → Outcome × Bool
aggregate_judges decisions optimized_is_a =
    let mapped = mapped_winners optimized_is_a decisions in
    tally (any (optimized_fatal optimized_is_a) decisions) (count_if is_win mapped)
      (count_if is_loss mapped)

-- The result of `aggregate_judges` by the fatal-flaw flag and the two counts.
votes :
    (flaw : Bool) (wins losses : ℕ)
    → let (outcome, fatal) = tally flaw wins losses in
      (fatal ≡ flaw)
      × (fatal ≡ true → outcome ≡ loss)
      × (fatal ≡ false → (outcome ≡ win) ↔ (losses < wins))
      × (fatal ≡ false → (outcome ≡ loss) ↔ (wins < losses))
unfolding majority
votes true wins losses = (refl, (λ h. refl), (λ h. cc), (λ h. cc))
votes false wins losses = ground arith

-- The same decision under the labels exchanged.
abbrev pub relabel_winner : Value → Value
relabel_winner w =
    if is_text "A" w then Value.str "B" else if is_text "B" w then Value.str "A" else w

abbrev pub relabel : JudgeDecision → JudgeDecision
relabel d = record {
  winner = relabel_winner d.winner;
  reason = d.reason;
  fatal_flaw_a = d.fatal_flaw_b;
  fatal_flaw_b = d.fatal_flaw_a;
  metadata = d.metadata;
}

-- A winner that `validate_decision` accepts.
abbrev pub IsWinner : Value → Type 0
IsWinner w = (is_text "A" w || is_text "B" w || is_text "tie" w) ≡ true

abbrev Relabels : Bool → String → Type 0
Relabels b s = map_winner (relabel_winner (Value.str s)) (not b) ≡ map_winner (Value.str s) b

Relabels-winner : (b : Bool) → Relabels b "A" × Relabels b "B" × Relabels b "tie"
unfolding map_winner
Relabels-winner true = (refl, refl, refl)
Relabels-winner false = (refl, refl, refl)

-- A text that passes the test of the winners is one of the three.
pub winner_cases : (s : String) → IsWinner (Value.str s) → (s ≡ "A") ⊎ (s ≡ "B") ⊎ (s ≡ "tie")
winner_cases s h = ground (arith, eq_iff s "A", eq_iff s "B", eq_iff s "tie")

map_winner-relabel :
    (w : Value) (b : Bool) → IsWinner w → map_winner (relabel_winner w) (not b) ≡ map_winner w b
map_winner-relabel (Value.str s) b h = elim (winner_cases s h) [
  | inl e ↦ subst (Relabels b) (sym e) (Relabels-winner b).0
  | inr (inl e) ↦ subst (Relabels b) (sym e) (Relabels-winner b).1
  | inr (inr e) ↦ subst (Relabels b) (sym e) (Relabels-winner b).2
]
map_winner-relabel w b h = cc

abbrev pub HasWinner : JudgeDecision → Type 0
HasWinner d = IsWinner d.winner

mapped_winners-relabel :
    (ds : List JudgeDecision) (b : Bool)
    → All HasWinner ds
    → mapped_winners (not b) (map relabel ds) ≡ mapped_winners b ds
unfolding mapped_winners
mapped_winners-relabel [] b h = refl
mapped_winners-relabel (d ∷ ds) b h =
    ap₂ ◌∷◌ (map_winner-relabel d.winner b h.0) (mapped_winners-relabel ds b h.1)

fatal-relabel :
    (ds : List JudgeDecision) (b : Bool)
    → any (optimized_fatal (not b)) (map relabel ds) ≡ any (optimized_fatal b) ds
unfolding optimized_fatal
fatal-relabel [] b = refl
fatal-relabel (d ∷ ds) true = cc (fatal-relabel ds true)
fatal-relabel (d ∷ ds) false = cc (fatal-relabel ds false)

-- The result does not depend on which of the outputs was shown as A: judges with valid decisions
-- who see the outputs exchanged, and answer the same with the labels exchanged, lead to the same
-- outcome and the same fatal-flaw flag.
pub aggregate_judges-relabel :
    (ds : List JudgeDecision) (b : Bool)
    → All HasWinner ds
    → aggregate_judges (map relabel ds) (not b) ≡ aggregate_judges ds b
unfolding aggregate_judges
aggregate_judges-relabel ds b h = simp (fatal-relabel ds b, mapped_winners-relabel ds b h)

-- What a decision says of the two prompts, by the label under which the optimized output was shown.
abbrev pub prefers_optimized : Bool → JudgeDecision → Bool
prefers_optimized true d = is_text "A" d.winner
prefers_optimized false d = is_text "B" d.winner

abbrev pub prefers_original : Bool → JudgeDecision → Bool
prefers_original true d = is_text "B" d.winner
prefers_original false d = is_text "A" d.winner

abbrev pub faults_optimized : Bool → JudgeDecision → Bool
faults_optimized true d = holds d.fatal_flaw_a
faults_optimized false d = holds d.fatal_flaw_b

abbrev Mapped : Bool → Value → Type 0
Mapped b w =
    (d : JudgeDecision)
    → d.winner ≡ w
    → (is_win (map_winner w b) ≡ prefers_optimized b d)
      × (is_loss (map_winner w b) ≡ prefers_original b d)

Mapped-winner :
    (b : Bool) → Mapped b (Value.str "A") × Mapped b (Value.str "B") × Mapped b (Value.str "tie")
unfolding map_winner
Mapped-winner true = (
  (λ d e. (sym (ap (is_text "A") e), sym (ap (is_text "B") e))),
  (λ d e. (sym (ap (is_text "A") e), sym (ap (is_text "B") e))),
  (λ d e. (sym (ap (is_text "A") e), sym (ap (is_text "B") e))),
)
Mapped-winner false = (
  (λ d e. (sym (ap (is_text "B") e), sym (ap (is_text "A") e))),
  (λ d e. (sym (ap (is_text "B") e), sym (ap (is_text "A") e))),
  (λ d e. (sym (ap (is_text "B") e), sym (ap (is_text "A") e))),
)

map_winner-Mapped : (w : Value) (b : Bool) → IsWinner w → Mapped b w
map_winner-Mapped (Value.str s) b h = elim (winner_cases s h) [
  | inl e ↦ subst (λ x. Mapped b (Value.str x)) (sym e) (Mapped-winner b).0
  | inr (inl e) ↦ subst (λ x. Mapped b (Value.str x)) (sym e) (Mapped-winner b).1
  | inr (inr e) ↦ subst (λ x. Mapped b (Value.str x)) (sym e) (Mapped-winner b).2
]
map_winner-Mapped w b h = cc

counted :
    (ds : List JudgeDecision) (b : Bool)
    → All HasWinner ds
    → (count_if is_win (mapped_winners b ds) ≡ count_if (prefers_optimized b) ds)
      × (count_if is_loss (mapped_winners b ds) ≡ count_if (prefers_original b) ds)
unfolding mapped_winners
counted [] b h = (refl, refl)
counted (d ∷ ds) b h =
    let (wins, losses) = map_winner-Mapped d.winner b h.0 d refl in
    let (more, fewer) = counted ds b h.1 in
    (rw wins (ground (arith, more)), rw losses (ground (arith, fewer)))

faulted :
    (ds : List JudgeDecision) (b : Bool) → any (optimized_fatal b) ds ≡ any (faults_optimized b) ds
unfolding optimized_fatal
faulted [] b = refl
faulted (d ∷ ds) true = cc (faulted ds true)
faulted (d ∷ ds) false = cc (faulted ds false)

-- The flag of the aggregate stands for a loss.
pub aggregate_judges-loss :
    (ds : List JudgeDecision) (b : Bool)
    → let (outcome, fatal) = aggregate_judges ds b in fatal ≡ true → outcome ≡ loss
unfolding aggregate_judges
aggregate_judges-loss ds b =
    (votes (any (optimized_fatal b) ds) (count_if is_win (mapped_winners b ds))
      (count_if is_loss (mapped_winners b ds))).1

-- A fatal flaw that any judge finds in the optimized output is a loss, whatever the votes. Without
-- one the outcome of valid decisions is a win, or a loss, exactly when more judges name the label of
-- the optimized output than that of the original one, or fewer.
pub aggregate_judges_lem :
    (ds : List JudgeDecision) (b : Bool)
    → All HasWinner ds
    → let wins = count_if (prefers_optimized b) ds in
      let losses = count_if (prefers_original b) ds in
      let (outcome, fatal) = aggregate_judges ds b in
      (fatal ≡ any (faults_optimized b) ds)
      × (fatal ≡ true → outcome ≡ loss)
      × (fatal ≡ false → (outcome ≡ win) ↔ (losses < wins))
      × (fatal ≡ false → (outcome ≡ loss) ↔ (wins < losses))
unfolding aggregate_judges
aggregate_judges_lem ds b h =
    let (wins, losses) = counted ds b h in
    rw (wins, losses, faulted ds b)
      (votes (any (faults_optimized b) ds) (count_if (prefers_optimized b) ds)
        (count_if (prefers_original b) ds))
