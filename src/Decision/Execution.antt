-- ===== src/Decision/Execution.antt =====
-- When a decision lets an action run (decision.py).
use clayseal_receipts.Prelude.{
  ◌≡◌, refl, ◌↔◌, ◌⊎◌, Bool, true, false, not, ◌&&◌, List, [], ◌∷◌, keep, is_nil, arith, Bool-cases,
  inl, inr, lower, strip, contains, text_eq,
}
use clayseal_receipts.Decision.{
  DecisionOutcome, allow, deny, pending_approval, pending_step_up, allow_with_obligations,
  allow_with_review, budget_reservation_required, ApprovalState, required, pending, Obligation,
  DecisionResult, fulfilled_statuses, is_fulfilled, is_unfulfilled, blocks_before_effect, allows,
  can_execute, requires_approval, requires_step_up, requires_budget_reservation,
  blocking_obligations,
}

abbrev pub LetsRun : DecisionOutcome → Type 0
LetsRun outcome =
    (outcome ≡ allow) ⊎ (outcome ≡ allow_with_obligations) ⊎ (outcome ≡ allow_with_review)

LetsRun-allows : (outcome : DecisionOutcome) → LetsRun outcome → allows outcome ≡ true
unfolding allows
LetsRun-allows outcome (inl e) = ground arith
LetsRun-allows outcome (inr (inl e)) = ground arith
LetsRun-allows outcome (inr (inr e)) = ground arith

allows-LetsRun : (outcome : DecisionOutcome) → allows outcome ≡ true → LetsRun outcome
unfolding allows
allows-LetsRun allow h = inl refl
allows-LetsRun allow_with_obligations h = inr (inl refl)
allows-LetsRun allow_with_review h = inr (inr refl)
allows-LetsRun deny h = cc
allows-LetsRun pending_approval h = cc
allows-LetsRun pending_step_up h = cc
allows-LetsRun budget_reservation_required h = cc

-- an approval that is still to be given
abbrev pub waits : ApprovalState → Bool
waits required = true
waits pending = true
waits _ = false

due_and_open : (due settled : Bool) → (due && not settled) ≡ false → due ≡ true → settled ≡ true
due_and_open true true h d = refl
due_and_open true false h d = cc
due_and_open false settled h d = cc

module _ {D : Type 0} where
  -- every obligation that is due before the effect has a status of fulfilment
  abbrev pub AllSettled : List (Obligation D) → Type 0
  AllSettled [] = Unit
  AllSettled (o ∷ os) =
      (o.required_before_effect ≡ true
        → contains fulfilled_statuses (lower (strip o.status)) ≡ true)
      × AllSettled os

  keep-AllSettled :
      (os : List (Obligation D)) → is_nil (keep blocks_before_effect os) ≡ true → AllSettled os
  unfolding blocks_before_effect is_unfulfilled is_fulfilled
  keep-AllSettled [] h = tt
  keep-AllSettled (o ∷ os) h = elim (Bool-cases (blocks_before_effect o)) [
    | inl q ↦ absurd (ground arith)
    | inr q ↦ (
      due_and_open o.required_before_effect (contains fulfilled_statuses (lower (strip o.status)))
          q,
      keep-AllSettled os (ground arith),
    )
  ]

  AllSettled-keep :
      (os : List (Obligation D)) → AllSettled os → is_nil (keep blocks_before_effect os) ≡ true
  unfolding blocks_before_effect is_unfulfilled is_fulfilled
  AllSettled-keep [] h = refl
  AllSettled-keep (o ∷ os) (settled, rest) = ground (arith, settled, AllSettled-keep os rest)

-- A decision lets an action run exactly if the policy is satisfied, the outcome is to allow, with or
-- without obligations or a review, no approval is waited for, and every obligation that is due
-- before the effect has a status of fulfilment.
pub can_execute_iff :
    {D N : Type 0}
    → (d : DecisionResult D N)
    → (can_execute d ≡ true) ↔ (
        (d.policy_satisfied ≡ true)
        × LetsRun d.outcome
        × (waits d.approval_state ≡ false)
        × AllSettled d.obligations)
unfolding can_execute requires_approval requires_step_up requires_budget_reservation
    blocking_obligations
can_execute_iff d = (
  (λ h. (
    ground arith,
    allows-LetsRun d.outcome (ground arith),
    ground arith,
    keep-AllSettled d.obligations (ground arith),
  )),
  (λ (satisfied, runs, settled, done).
      let none_open = AllSettled-keep d.obligations done in
      let runs' = LetsRun-allows d.outcome runs in
      elim runs [ inl e ↦ ground arith | inr (inl e) ↦ ground arith | inr (inr e) ↦ ground arith ]),
)
