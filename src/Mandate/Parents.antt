-- ===== src/Mandate/Parents.antt =====
-- A mandate under its parent, and on a receipt bundle (mandate.py).
use clayseal_receipts.Prelude.{
  ℕ, String, Option, none, some, Bool, true, not, ◌&&◌, List, [], ◌∷◌, ◌++◌, map, ◌==◌, ◌!=◌,
  text_eq, option_eq, string_eq, Text, ltb, if◌then◌else◌, is_nil, contains, keep,
}
use clayseal_receipts.Signing.{Signature, Crypto}
use clayseal_receipts.Operations.{ActionDescriptor}
use clayseal_receipts.Decision.{BudgetEffect}
use clayseal_receipts.Mandate.{
  Numbers, CapabilityBudget, Mandate, MandateDocument, MandateViolation, actions_exceed_parent,
  resources_exceed_parent, budget_not_on_parent, budget_exceeds_parent, parent_not_embedded,
  parent_incomplete, parent_invalid, parent_grant_mismatch, parent_delegate_mismatch,
  issued_before_parent, expires_after_parent, section_incomplete, grant_id_mismatch,
  commitment_mismatch, no_identity, delegate_mismatch, required_for_action, required_for_budgets,
  verify_mandate_envelope,
}
use clayseal_receipts.Mandate.Receipts.{check_receipt_against_mandate}

-- the items of the child that the parent does not list
unfoldable pub extra_scope : List Text → List Text → List Text
extra_scope child parent = keep (λ item. not (contains parent item)) child

unfoldable pub mandate_scope_subset :
    List Text → List Text → (List Text → MandateViolation) → List MandateViolation
unfolding extra_scope
mandate_scope_subset child parent label =
    if is_nil parent
    then []
    else if is_nil (extra_scope child parent)
    then []
    else label (extra_scope child parent) ∷ []

-- what has a truth value: a text that is missing or empty has none
abbrev pub present : Option String → Option String
present none = none
present (some s) = if s == "" then none else some s

pub record ParentSection (N : Type 0) : Type 0 where
  pub document : Option (MandateDocument N)
  pub signature : Option Signature

pub record MandateSection (N : Type 0) : Type 0 where
  pub grant_id : Option String
  pub commitment : Option String
  pub document : Option (MandateDocument N)
  pub signature : Option Signature
  pub parent : Option (ParentSection N)

-- the texts of a bundle that name an actor
pub record Identities : Type 0 where
  pub authority : List (Option String)
  pub actor_id : Option String
  pub parent_actor_id : Option String
  pub delegation_chain : List (Option String)
  pub certificate_agent_id : Option String
  pub principal_id : Option String
  pub proof_agent_id : Option String

abbrev pub present_all : List (Option String) → List String
present_all [] = []
present_all (x ∷ rest) =
    let more = present_all rest in elim (present x) [ none ↦ more | some s ↦ s ∷ more ]

-- a set, given by its elements
unfoldable pub receipt_authority_identities : Identities → List String
receipt_authority_identities i = present_all (
    i.authority
    ++ (i.actor_id ∷ i.parent_actor_id ∷ i.delegation_chain)
    ++ i.certificate_agent_id ∷ i.principal_id ∷ i.proof_agent_id ∷ [])

-- `AGENT_RECEIPTS_REQUIRE_MANDATE_ACTIONS` and `AGENT_RECEIPTS_REQUIRE_MANDATE_FOR_BUDGETS`
pub record MandateEnv : Type 0 where
  pub required_actions : List Text
  pub require_for_budgets : Bool

-- An action, and the budget effects of a decision, are `none` where `from_dict` raises on them. The
-- two lists that `_bundle_budget_effects` looks for are `none` where they are no list; a dictionary in
-- them is its text.
pub record Bundle (N : Type 0) : Type 0 where
  pub mandate : Option (MandateSection N)
  pub identities : Identities
  pub action_name : Text
  pub action : Option ActionDescriptor
  pub budget : Option (List String)
  pub decision_budget : Option (List String)
  pub decision_effects : Option (List (BudgetEffect N))
  pub created_at : Option ℕ

-- `budget.effects`, or else `decision.budget_effects`
unfoldable pub bundle_budget_effects : {N : Type 0} → Bundle N → List String
bundle_budget_effects bundle = elim bundle.budget [
  | some effects ↦ effects
  | none ↦ elim bundle.decision_budget [ some effects ↦ effects | none ↦ [] ]
]

module _ (num : Numbers) where
  open num use {Amount, below}

  -- `{budget.budget_id: float(budget.limit) for budget in parent.budgets}`: the last one counts
  unfoldable pub parent_limit : List (CapabilityBudget Amount) → String → Option Amount
  parent_limit [] budget_id = none
  parent_limit (b ∷ rest) budget_id =
      let later = parent_limit rest budget_id in
      elim later [
        | some limit ↦ some limit
        | none ↦ if b.budget_id == budget_id then some b.limit else none
      ]

  unfoldable pub mandate_budget_subset :
      List (CapabilityBudget Amount) → List (CapabilityBudget Amount) → List MandateViolation
  unfolding parent_limit
  mandate_budget_subset [] parent = []
  mandate_budget_subset (b ∷ rest) parent =
      let later = mandate_budget_subset rest parent in
      elim (parent_limit parent b.budget_id) [
        | none ↦ budget_not_on_parent b.budget_id ∷ later
        | some limit ↦
            if below limit b.limit then budget_exceeds_parent b.budget_id ∷ later else later
      ]

  -- the parent's delegate must be the issuer, where there is one
  abbrev pub is_delegate : Mandate Amount → Mandate Amount → Bool
  is_delegate child parent = elim (present parent.delegate) [
    | none ↦ true
    | some delegate ↦ child.issuer == delegate
  ]

  -- the comparison of a mandate with its verified parent
  unfoldable pub attenuation_issues : Mandate Amount → Mandate Amount → List MandateViolation
  unfolding mandate_scope_subset mandate_budget_subset
  attenuation_issues child parent =
      let grant : List MandateViolation =
        if child.parent_grant_id != some parent.grant_id then parent_grant_mismatch ∷ [] else [] in
      let delegate : List MandateViolation =
        if is_delegate child parent then [] else parent_delegate_mismatch ∷ [] in
      let issued : List MandateViolation =
        if ltb child.issued_at parent.issued_at then issued_before_parent ∷ [] else [] in
      let expires : List MandateViolation =
        if ltb parent.expires_at child.expires_at then expires_after_parent ∷ [] else [] in
      grant
      ++ (delegate
          ++ (issued
              ++ (expires
                  ++ (mandate_scope_subset child.allowed_actions parent.allowed_actions
                        actions_exceed_parent
                      ++ (mandate_scope_subset child.allowed_resources parent.allowed_resources
                            resources_exceed_parent
                          ++ mandate_budget_subset child.budgets parent.budgets)))))

  module _ (c : Crypto) (hash : MandateDocument Amount → String)
      (commitment : Mandate Amount → String) (production : Bool) where
    -- `none` is an exception of `Mandate.from_dict`
    unfoldable pub parent_section_issues :
        ParentSection Amount → Mandate Amount → Option (List MandateViolation)
    unfolding attenuation_issues
    parent_section_issues parent child = elim parent.document [
      | none ↦ some (parent_incomplete ∷ [])
      | some document ↦ elim parent.signature [
        | none ↦ some (parent_incomplete ∷ [])
        | some s ↦
            let violations =
              verify_mandate_envelope c Amount hash production (some document) (some s) in
            if is_nil violations
            then elim document.fields [
              | none ↦ none
              | some parent_mandate ↦ some (attenuation_issues child parent_mandate)
            ]
            else some (map parent_invalid violations)
      ]
    ]

    unfoldable pub mandate_parent_issues :
        MandateSection Amount → Mandate Amount → Option (List MandateViolation)
    unfolding parent_section_issues
    mandate_parent_issues section m = elim (present m.parent_grant_id) [
      | none ↦ some []
      | some id ↦ elim section.parent [
        | none ↦ some (parent_not_embedded ∷ [])
        | some parent ↦ parent_section_issues parent m
      ]
    ]

    -- of a bundle without a mandate
    unfoldable pub mandate_requirement_issues : MandateEnv → Bundle Amount → List MandateViolation
    unfolding bundle_budget_effects
    mandate_requirement_issues env bundle =
        if not (is_nil bundle.action_name) && contains env.required_actions bundle.action_name
        then required_for_action ∷ []
        else if env.require_for_budgets && not (is_nil (bundle_budget_effects bundle))
        then required_for_budgets ∷ []
        else []

    unfoldable pub delegate_issues : Identities → Mandate Amount → List MandateViolation
    unfolding receipt_authority_identities
    delegate_issues identities m =
        let known = receipt_authority_identities identities in
        elim (present m.delegate) [
          | none ↦ []
          | some delegate ↦
              if is_nil known
              then no_identity ∷ []
              else if contains known delegate
              then []
              else delegate_mismatch ∷ []
        ]

    unfoldable pub action_time : Option ℕ → Option ℕ → ℕ → ℕ
    action_time (some at) created now = at
    action_time none (some created) now = created
    action_time none none now = now

    -- the checks of a mandate whose envelope is verified
    unfoldable pub mandate_issues :
        MandateSection Amount → Mandate Amount → Bundle Amount → ℕ → Option (List MandateViolation)
    unfolding mandate_parent_issues delegate_issues
    mandate_issues section m bundle at =
        let grant : List MandateViolation =
          if section.grant_id == some m.grant_id then [] else grant_id_mismatch ∷ [] in
        let committed : List MandateViolation =
          if section.commitment == some (commitment m) then [] else commitment_mismatch ∷ [] in
        elim (mandate_parent_issues section m) [
          | none ↦ none
          | some above ↦ elim bundle.action [
            | none ↦ none
            | some action ↦ elim bundle.decision_effects [
              | none ↦ none
              | some effects ↦ some (
                  grant
                  ++ (committed
                      ++ (delegate_issues bundle.identities m
                          ++ (above ++ check_receipt_against_mandate num m action effects at))))
            ]
          ]
        ]

    -- an exception is `none`; `now` is the clock
    unfoldable pub verify_bundle_mandate :
        MandateEnv → Bundle Amount → Option ℕ → ℕ → Option (List MandateViolation)
    unfolding mandate_requirement_issues mandate_issues action_time
    verify_bundle_mandate env bundle at now = elim bundle.mandate [
      | none ↦ some (mandate_requirement_issues env bundle)
      | some section ↦ elim section.document [
        | none ↦ some (section_incomplete ∷ [])
        | some document ↦ elim section.signature [
          | none ↦ some (section_incomplete ∷ [])
          | some s ↦
              let violations =
                verify_mandate_envelope c Amount hash production (some document) (some s) in
              if is_nil violations
              then elim document.fields [
                | none ↦ none
                | some m ↦ mandate_issues section m bundle (action_time at bundle.created_at now)
              ]
              else some violations
        ]
      ]
    ]
