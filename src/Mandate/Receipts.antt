-- ===== src/Mandate/Receipts.antt =====
-- A receipt's action and spending against a mandate (mandate.py).
use clayseal_receipts.Prelude.{
  ℕ, String, Option, none, some, Bool, false, not, ◌&&◌, ◌||◌, List, [], ◌∷◌, ◌++◌, ◌==◌, text_eq,
  string_eq, Text, leb, ltb, if◌then◌else◌, is_nil, contains,
}
use clayseal_receipts.Operations.{ActionDescriptor}
use clayseal_receipts.Decision.{BudgetEffect, is_consumption, is_reservation}
use clayseal_receipts.Mandate.{
  Numbers, CapabilityBudget, Mandate, MandateViolation, expired_or_not_yet_valid,
  action_not_allowed, resource_not_allowed, over_budget,
}

-- `item in allowed_set for item in candidates if item`
abbrev pub candidate_in : List Text → Option Text → Bool
candidate_in allowed none = false
candidate_in allowed (some item) = not (is_nil item) && contains allowed item

unfoldable pub resource_matches : List Text → ActionDescriptor → Bool
resource_matches allowed action =
    is_nil allowed
    || candidate_in allowed action.resource_ref
    || candidate_in allowed action.resource_type
    || candidate_in allowed (some action.action_name)

unfoldable pub action_matches : List Text → ActionDescriptor → Bool
action_matches allowed action = is_nil allowed || contains allowed action.action_name

module _ (num : Numbers) where
  open num use {Amount, nothing, plus, below}

  unfoldable pub mandate_is_valid_at : Mandate Amount → ℕ → Bool
  mandate_is_valid_at m at = leb m.issued_at at && ltb at m.expires_at

  -- the loop of `_effect_spend_for_budget`, with its total
  unfoldable pub spend_from : Amount → List (BudgetEffect Amount) → String → Amount
  spend_from total [] budget_id = total
  spend_from total (e ∷ rest) budget_id =
      let spent : Amount = elim e.amount [ none ↦ total | some amount ↦ plus total amount ] in
      let total' : Amount =
        if e.budget_id == budget_id && (is_consumption e || is_reservation e)
        then spent
        else total in
      spend_from total' rest budget_id

  unfoldable pub effect_spend_for_budget : List (BudgetEffect Amount) → String → Amount
  unfolding spend_from
  effect_spend_for_budget effects budget_id = spend_from nothing effects budget_id

  unfoldable pub within_limit : List (BudgetEffect Amount) → CapabilityBudget Amount → Bool
  unfolding effect_spend_for_budget
  within_limit effects budget =
      not (below budget.limit (effect_spend_for_budget effects budget.budget_id))

  unfoldable pub budget_violations :
      List (BudgetEffect Amount) → List (CapabilityBudget Amount) → List MandateViolation
  unfolding within_limit
  budget_violations effects [] = []
  budget_violations effects (budget ∷ rest) =
      let later = budget_violations effects rest in
      if within_limit effects budget then later else over_budget budget.budget_id ∷ later

  -- of the decision only the budget effects are read
  unfoldable pub check_receipt_against_mandate :
      Mandate Amount → ActionDescriptor → List (BudgetEffect Amount) → ℕ → List MandateViolation
  unfolding budget_violations mandate_is_valid_at resource_matches action_matches
  check_receipt_against_mandate m action effects at =
      let validity : List MandateViolation =
        if mandate_is_valid_at m at then [] else expired_or_not_yet_valid ∷ [] in
      let actions : List MandateViolation =
        if action_matches m.allowed_actions action then [] else action_not_allowed ∷ [] in
      let resources : List MandateViolation =
        if resource_matches m.allowed_resources action then [] else resource_not_allowed ∷ [] in
      validity ++ (actions ++ (resources ++ budget_violations effects m.budgets))
