-- ===== src/Mandate/Enforcement.antt =====
-- What a verified mandate enforces (mandate.py).
use clayseal_receipts.Prelude.{
  keep, none, false, ◌&&◌, ◌||◌, ℕ, String, ◌≡◌, refl, Option, some, Bool, true, List, [], ◌∷◌,
  ◌++◌, nil_of_append, arith, passed, ap, ◌∙◌, option_eq, option_beq_iff, string_eq, ◌==◌,
  Option-cases, Bool-cases, inl, inr, if◌then◌else◌, text_eq,
}
use clayseal_receipts.Signing.{Signature, Crypto}
use clayseal_receipts.Operations.{ActionDescriptor}
use clayseal_receipts.Decision.{BudgetEffect, is_consumption, is_reservation, sum_from, sum_amounts}
use clayseal_receipts.Mandate.{
  Numbers, CapabilityBudget, Mandate, MandateDocument, MandateViolation, grant_id_mismatch,
  commitment_mismatch, expired_or_not_yet_valid, action_not_allowed, resource_not_allowed,
}
use clayseal_receipts.Mandate.Receipts.{
  check_receipt_against_mandate, mandate_is_valid_at, action_matches, resource_matches,
  within_limit, budget_violations, spend_from, effect_spend_for_budget,
}
use clayseal_receipts.Mandate.Ancestors.{
  IsSigned, IsUnderParent, verify_mandate_envelope-IsSigned, mandate_parent_issues-IsUnderParent,
}
use clayseal_receipts.Mandate.Parents.{
  MandateSection, MandateEnv, Bundle, mandate_parent_issues, mandate_issues, verify_bundle_mandate,
  action_time, delegate_issues,
}

keep-here :
    {A : Type 0} (p : A → Bool) (x : A) (xs : List A) → p x ≡ true → keep p (x ∷ xs) ≡ x ∷ keep p xs
keep-here p x xs h = ground arith

keep-past :
    {A : Type 0} (p : A → Bool) (x : A) (xs : List A) → p x ≡ false → keep p (x ∷ xs) ≡ keep p xs
keep-past p x xs h = ground arith

module _ (num : Numbers) where
  open num use {Amount, nothing, plus, below}

  -- the effects that spend a budget
  abbrev pub spends : String → BudgetEffect Amount → Bool
  spends budget_id e = e.budget_id == budget_id && (is_consumption e || is_reservation e)

  -- The loop adds up the amounts of those effects.
  spend_from-sum_from :
      (effects : List (BudgetEffect Amount)) (total : Amount) (budget_id : String)
      → spend_from num total effects budget_id
        ≡ sum_from nothing plus total (keep (spends budget_id) effects)
  unfolding spend_from sum_from
  spend_from-sum_from [] total budget_id = refl
  spend_from-sum_from (e ∷ rest) total budget_id = elim (Bool-cases (spends budget_id e)) [
    | inl q ↦
        let spent : Amount = elim e.amount [ none ↦ total | some amount ↦ plus total amount ] in
        rw (q, keep-here (spends budget_id) e rest q) (spend_from-sum_from rest spent budget_id)
    | inr q ↦
        rw (q, keep-past (spends budget_id) e rest q) (spend_from-sum_from rest total budget_id)
  ]

  -- of each budget, the sum of the amounts that spend it is not over its limit
  abbrev pub AllWithinLimits : List (BudgetEffect Amount) → List (CapabilityBudget Amount) → Type 0
  AllWithinLimits effects [] = Unit
  AllWithinLimits effects (b ∷ rest) =
      (below b.limit (sum_amounts nothing plus (keep (spends b.budget_id) effects)) ≡ false)
      × AllWithinLimits effects rest

  within_limit-sum :
      (effects : List (BudgetEffect Amount)) (b : CapabilityBudget Amount)
      → within_limit num effects b ≡ true
      → below b.limit (sum_amounts nothing plus (keep (spends b.budget_id) effects)) ≡ false
  unfolding within_limit effect_spend_for_budget sum_amounts
  within_limit-sum effects b h =
      let same = spend_from-sum_from effects nothing b.budget_id in rw (← same) (ground arith)

  budget_violations-AllWithinLimits :
      (effects : List (BudgetEffect Amount)) (budgets : List (CapabilityBudget Amount))
      → budget_violations num effects budgets ≡ []
      → AllWithinLimits effects budgets
  unfolding budget_violations
  budget_violations-AllWithinLimits effects [] h = tt
  budget_violations-AllWithinLimits effects (b ∷ rest) h =
      elim (Bool-cases (within_limit num effects b)) [
        | inl q ↦ (
          within_limit-sum effects b q,
          budget_violations-AllWithinLimits effects rest (ground arith),
        )
        | inr q ↦ absurd (ground arith)
      ]

  -- a receipt within a mandate: in time, its action and its resource listed, its spending within
  -- the limit of each budget
  pub record IsWithin (m : Mandate Amount) (action : ActionDescriptor)
      (effects : List (BudgetEffect Amount)) (at : ℕ) : Type 0 where
    pub in_time : mandate_is_valid_at num m at ≡ true
    pub action_listed : action_matches m.allowed_actions action ≡ true
    pub resource_listed : resource_matches m.allowed_resources action ≡ true
    pub within_budgets : AllWithinLimits effects m.budgets

  check_receipt-IsWithin :
      (m : Mandate Amount) (action : ActionDescriptor) (effects : List (BudgetEffect Amount))
      (at : ℕ)
      → check_receipt_against_mandate num m action effects at ≡ []
      → IsWithin m action effects at
  unfolding check_receipt_against_mandate
  check_receipt-IsWithin m action effects at h =
      let (timely, rest) = passed (mandate_is_valid_at num m at) expired_or_not_yet_valid _ h in
      let (listed, rest') =
        passed (action_matches m.allowed_actions action) action_not_allowed _ rest in
      let (found, budgets) =
        passed (resource_matches m.allowed_resources action) resource_not_allowed
          (budget_violations num effects m.budgets) rest' in
      record {
        in_time = timely;
        action_listed = listed;
        resource_listed = found;
        within_budgets = budget_violations-AllWithinLimits effects m.budgets budgets;
      }

  module _ (c : Crypto) (hash : MandateDocument Amount → String)
      (commitment : Mandate Amount → String) (production : Bool) where
    mandate_issues-IsWithin :
        (section : MandateSection Amount) (m : Mandate Amount) (bundle : Bundle Amount) (at : ℕ)
        → mandate_issues num c hash commitment production section m bundle at ≡ some []
        → (action : ActionDescriptor) × (effects : List (BudgetEffect Amount)) × (bundle.action
            ≡ some action)
          × (bundle.decision_effects ≡ some effects)
          × IsWithin m action effects at
          × (section.commitment ≡ some (commitment m))
          × IsUnderParent num c hash commitment production section m
    unfolding mandate_issues
    mandate_issues-IsWithin section m bundle at h =
        elim (Option-cases (mandate_parent_issues num c hash commitment production section m)) [
          | inl e ↦ absurd (ground arith)
          | inr (above, e) ↦ elim (Option-cases bundle.action) [
            | inl e' ↦ absurd (ground arith)
            | inr (action, e') ↦ elim (Option-cases bundle.decision_effects) [
              | inl e'' ↦ absurd (ground arith)
              | inr (effects, e'') ↦
                  let (granted, rest) =
                    passed (section.grant_id == some m.grant_id) grant_id_mismatch _
                      (all_issues above action effects e e' e'') in
                  let (committed, rest') =
                    passed (section.commitment == some (commitment m)) commitment_mismatch _ rest in
                  let (delegated, rest'') =
                    nil_of_append
                      (delegate_issues num c hash commitment production bundle.identities m) _
                      rest' in
                  let (none_above, none_here) = nil_of_append above _ rest'' in
                  (
                    action,
                    effects,
                    e',
                    e'',
                    check_receipt-IsWithin m action effects at none_here,
                    (option_beq_iff section.commitment (some (commitment m))).0 committed,
                    mandate_parent_issues-IsUnderParent num c hash commitment production section m
                        (e ∙ ap some none_above),
                  )
            ]
          ]
        ]
      where
        all_issues :
            (above : List MandateViolation) (action : ActionDescriptor)
            (effects : List (BudgetEffect Amount))
            → mandate_parent_issues num c hash commitment production section m ≡ some above
            → bundle.action ≡ some action
            → bundle.decision_effects ≡ some effects
            → (if section.grant_id == some m.grant_id then [] else grant_id_mismatch ∷ [])
                ++ ((if section.commitment == some (commitment m)
                      then []
                      else commitment_mismatch ∷ [])
                    ++ (delegate_issues num c hash commitment production bundle.identities m
                        ++ (above ++ check_receipt_against_mandate num m action effects at)))
              ≡ []
        all_issues above action effects e e' e'' = ground (arith)

    -- If a bundle with a mandate is found without violations, the mandate's document is of the
    -- schema, signed, and signed by its issuer; the section commits to it; where it names a parent
    -- grant, the section embeds a parent that is signed in the same way and that it attenuates; and
    -- the receipt's action, resource, time and the spending of its decision are within it. Nothing is
    -- said of the effects that the bundle lists outside its decision.
    pub verify_bundle_mandate-IsWithin :
        (env : MandateEnv) (bundle : Bundle Amount) (at : Option ℕ) (now : ℕ)
        (section : MandateSection Amount)
        → bundle.mandate ≡ some section
        → verify_bundle_mandate num c hash commitment production env bundle at now ≡ some []
        → (document : MandateDocument Amount) × (s : Signature) × (m : Mandate Amount)
          × (action : ActionDescriptor) × (effects : List (BudgetEffect Amount)) × (section.document
              ≡ some document)
          × (document.fields ≡ some m)
          × IsSigned num c hash commitment production document s
          × (section.commitment ≡ some (commitment m))
          × IsUnderParent num c hash commitment production section m
          × (bundle.action ≡ some action)
          × (bundle.decision_effects ≡ some effects)
          × IsWithin m action effects
              (action_time num c hash commitment production at bundle.created_at now)
    unfolding verify_bundle_mandate
    verify_bundle_mandate-IsWithin env bundle at now section there h =
        elim (Option-cases section.document) [
          | inl e ↦ absurd (ground arith)
          | inr (document, e) ↦ elim (Option-cases section.signature) [
            | inl e' ↦ absurd (ground arith)
            | inr (s, e') ↦ elim (Option-cases document.fields) [
              | inl e'' ↦ absurd (ground arith)
              | inr (m, e'') ↦
                  let signed =
                    verify_mandate_envelope-IsSigned num c hash commitment production document s
                      (ground arith) in
                  let (action, effects, named, read, within, committed, above) =
                    mandate_issues-IsWithin section m bundle
                      (action_time num c hash commitment production at bundle.created_at now)
                      (ground arith) in
                  (
                    document, s, m, action, effects, e, e'', signed, committed, above, named, read,
                    within,
                  )
            ]
          ]
        ]
