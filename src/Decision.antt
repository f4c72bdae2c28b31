-- ===== src/Decision.antt =====
-- agentauth/core/decision.py and outcomes.py: obligations, budget effects and the decision on an
-- action. Amounts are numbers of a type N with a sum; a JSON object is the value it stands for.
pub mod Budgets
pub mod Execution
use clayseal_receipts.Prelude.{
  ℕ, String, Option, none, some, Bool, true, false, not, ◌&&◌, ◌||◌, List, [], ◌∷◌, ◌++◌, map, ◌==◌,
  string_eq, text_eq, Text, codes, strip, lower, keep, contains, is_nil, if◌then◌else◌, lookup,
}

pub data DecisionOutcome : Type 0 where
  allow deny pending_approval pending_step_up allow_with_obligations : DecisionOutcome
  allow_with_review budget_reservation_required : DecisionOutcome

pub data ApprovalState : Type 0 where
  not_required required pending approved rejected expired : ApprovalState

pub record ApprovalMetadata : Type 0 where
  pub approval_id : Option String
  pub approval_policy_ref : Option String
  pub approver_ref : Option String
  pub approved_at : Option String

-- `details` is a value of a type D
pub record Obligation (D : Type 0) : Type 0 where
  pub type : Text
  pub status : Text
  pub details : D
  pub required_before_effect : Bool
  pub required_after_effect : Bool

abbrev pub standard_obligation_types : List Text
standard_obligation_types =
    codes "log_extra"
    ∷ codes "create_case"
    ∷ codes "require_redaction"
    ∷ codes "persist_handoff"
    ∷ codes "emit_summary"
    ∷ []

pub is_standard_obligation_type : Text → Bool
is_standard_obligation_type obligation_type = contains standard_obligation_types obligation_type

abbrev pub fulfilled_statuses : List Text
fulfilled_statuses =
    codes "complete" ∷ codes "completed" ∷ codes "done" ∷ codes "fulfilled" ∷ codes "satisfied" ∷ []

module _ {D : Type 0} where
  -- `Obligation.from_value` of a text
  pub obligation_from_text : D → Text → Obligation D
  obligation_from_text empty value = record {
    type = value;
    status = codes "pending";
    details = empty;
    required_before_effect = false;
    required_after_effect = false;
  }

  unfoldable pub is_fulfilled : Obligation D → Bool
  is_fulfilled o = contains fulfilled_statuses (lower (strip o.status))

  unfoldable pub is_unfulfilled : Obligation D → Bool
  unfolding is_fulfilled
  is_unfulfilled o = not (is_fulfilled o)

  unfoldable pub blocks_before_effect : Obligation D → Bool
  unfolding is_unfulfilled
  blocks_before_effect o = o.required_before_effect && is_unfulfilled o

  unfoldable pub requires_after_effect_follow_up : Obligation D → Bool
  unfolding is_unfulfilled
  requires_after_effect_follow_up o = o.required_after_effect && is_unfulfilled o

-- what `ObligationSummary.to_dict` shows
pub record ObligationSummary (D : Type 0) : Type 0 where
  pub all : List (Obligation D)
  pub pending : List (Obligation D)
  pub blocking : List (Obligation D)
  pub after_effect : List (Obligation D)

-- a number that is missing, or is none, has no amount
pub record BudgetEffect (N : Type 0) : Type 0 where
  pub budget_id : String
  pub effect_type : Text
  pub amount : Option N
  pub status : Text
  pub notes : Option String

abbrev pub pending_statuses : List Text
pending_statuses = codes "planned" ∷ codes "pending" ∷ codes "reserved" ∷ codes "held" ∷ []

abbrev pub final_statuses : List Text
final_statuses =
    codes "applied"
    ∷ codes "committed"
    ∷ codes "completed"
    ∷ codes "failed"
    ∷ codes "released"
    ∷ codes "rejected"
    ∷ codes "canceled"
    ∷ []

abbrev pub reservation_types : List Text
reservation_types = codes "reserve" ∷ codes "reserved" ∷ codes "hold" ∷ []

abbrev pub consumption_types : List Text
consumption_types = codes "consume" ∷ codes "consumed" ∷ codes "spend" ∷ codes "debit" ∷ []

abbrev pub release_types : List Text
release_types = codes "release" ∷ codes "released" ∷ codes "credit" ∷ codes "refund" ∷ []

module _ {N : Type 0} where
  unfoldable pub is_pending : BudgetEffect N → Bool
  is_pending e = contains pending_statuses (lower (strip e.status))

  unfoldable pub is_final : BudgetEffect N → Bool
  is_final e = contains final_statuses (lower (strip e.status))

  unfoldable pub is_reservation : BudgetEffect N → Bool
  is_reservation e = contains reservation_types (lower (strip e.effect_type))

  unfoldable pub is_consumption : BudgetEffect N → Bool
  is_consumption e = contains consumption_types (lower (strip e.effect_type))

  unfoldable pub is_release : BudgetEffect N → Bool
  is_release e = contains release_types (lower (strip e.effect_type))

pub record BudgetEffectSummary (N : Type 0) : Type 0 where
  pub budget_id : String
  pub effects : List (BudgetEffect N)

-- the amounts of a summary, as its `to_dict` shows them
pub record Amounts (N : Type 0) : Type 0 where
  pub pending_amount : N
  pub final_amount : N
  pub reserved_amount : N
  pub consumed_amount : N
  pub released_amount : N

module _ {N : Type 0} (zero_amount : N) (add : N → N → N) where
  -- from the left, as `sum` does
  unfoldable pub sum_from : N → List (BudgetEffect N) → N
  sum_from total [] = total
  sum_from total (e ∷ rest) =
      sum_from (elim e.amount [ none ↦ total | some amount ↦ add total amount ]) rest

  unfoldable pub sum_amounts : List (BudgetEffect N) → N
  unfolding sum_from
  sum_amounts effects = sum_from zero_amount effects

  pub amounts : BudgetEffectSummary N → Amounts N
  unfolding sum_amounts
  amounts s = record {
    pending_amount = sum_amounts (keep is_pending s.effects);
    final_amount = sum_amounts (keep is_final s.effects);
    reserved_amount = sum_amounts (keep is_reservation s.effects);
    consumed_amount = sum_amounts (keep is_consumption s.effects);
    released_amount = sum_amounts (keep is_release s.effects);
  }

pub record DecisionResult (D N : Type 0) : Type 0 where
  pub outcome : DecisionOutcome
  pub policy_satisfied : Bool
  pub violations : List String
  pub obligations : List (Obligation D)
  pub recommended_action : Option String
  pub approval_state : ApprovalState
  pub approval_metadata : Option ApprovalMetadata
  pub budget_effects : List (BudgetEffect N)
  pub authority_version : ℕ
  pub session_id : Option String

-- `summaries.setdefault(...)` and the append to what it returns
unfoldable pub add_effect :
    {N : Type 0}
    → BudgetEffect N
    → List (String × BudgetEffectSummary N)
    → List (String × BudgetEffectSummary N)
add_effect e [] = (e.budget_id, record { budget_id = e.budget_id; effects = e ∷ [] }) ∷ []
add_effect e ((id, summary) ∷ rest) =
    let later = add_effect e rest in
    if id == e.budget_id
    then (id, record summary { effects = summary.effects ++ e ∷ [] }) ∷ rest
    else (id, summary) ∷ later

unfoldable pub add_effects :
    {N : Type 0}
    → List (String × BudgetEffectSummary N)
    → List (BudgetEffect N)
    → List (String × BudgetEffectSummary N)
unfolding add_effect
add_effects summaries [] = summaries
add_effects summaries (e ∷ rest) = add_effects (add_effect e summaries) rest

-- the outcomes that let an action run
unfoldable pub allows : DecisionOutcome → Bool
allows allow = true
allows allow_with_obligations = true
allows allow_with_review = true
allows _ = false

module _ {D N : Type 0} where
  unfoldable pub requires_approval : DecisionResult D N → Bool
  requires_approval d =
      let by_outcome : Bool = elim d.outcome [ pending_approval ↦ true | _ ↦ false ] in
      let by_state : Bool = elim d.approval_state [
        | required ↦ true
        | pending ↦ true
        | _ ↦ false
      ] in
      by_outcome || by_state

  unfoldable pub requires_step_up : DecisionResult D N → Bool
  requires_step_up d = elim d.outcome [ pending_step_up ↦ true | _ ↦ false ]

  unfoldable pub requires_review : DecisionResult D N → Bool
  requires_review d = elim d.outcome [ allow_with_review ↦ true | _ ↦ false ]

  unfoldable pub requires_budget_reservation : DecisionResult D N → Bool
  requires_budget_reservation d = elim d.outcome [ budget_reservation_required ↦ true | _ ↦ false ]

  unfoldable pub budget_effects_for : DecisionResult D N → String → List (BudgetEffect N)
  budget_effects_for d budget_id =
      keep (λ (e : BudgetEffect N). e.budget_id == budget_id) d.budget_effects

  pub pending_budget_effects : DecisionResult D N → List (BudgetEffect N)
  pending_budget_effects d = keep is_pending d.budget_effects

  pub final_budget_effects : DecisionResult D N → List (BudgetEffect N)
  final_budget_effects d = keep is_final d.budget_effects

  pub reservation_budget_effects : DecisionResult D N → List (BudgetEffect N)
  reservation_budget_effects d = keep is_reservation d.budget_effects

  unfoldable pub summarize_budget_effects :
      DecisionResult D N → List (String × BudgetEffectSummary N)
  unfolding add_effects
  summarize_budget_effects d = add_effects [] d.budget_effects

  unfoldable pub blocking_obligations : DecisionResult D N → List (Obligation D)
  blocking_obligations d = keep blocks_before_effect d.obligations

  pub obligation_summary : DecisionResult D N → ObligationSummary D
  obligation_summary d = record {
    all = d.obligations;
    pending = keep is_unfulfilled d.obligations;
    blocking = keep blocks_before_effect d.obligations;
    after_effect = keep requires_after_effect_follow_up d.obligations;
  }

  unfoldable pub can_execute : DecisionResult D N → Bool
  unfolding allows requires_approval requires_step_up requires_budget_reservation
      blocking_obligations
  can_execute d =
      if not d.policy_satisfied
      then false
      else if not (allows d.outcome)
      then false
      else if requires_approval d || requires_step_up d
      then false
      else if requires_budget_reservation d
      then false
      else is_nil (blocking_obligations d)
