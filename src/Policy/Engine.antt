-- ===== src/Policy/Engine.antt =====
-- The checks of an authority and the decision of the default engine (policy_engine.py). A moment is a
-- number; `datetime.fromisoformat` and the text of a violation are arguments.
use clayseal_receipts.Prelude.{
  ℕ, String, Option, none, some, Bool, true, not, ◌&&◌, ◌||◌, List, [], ◌∷◌, ◌++◌, map, ◌==◌,
  string_eq, option_eq, ℤ, pos, leℤ, leb, Text, codes, strip, unsnoc, eqb, if◌then◌else◌, is_nil,
}
use clayseal_receipts.Operations.{ActionDescriptor}
use clayseal_receipts.Decision.{
  DecisionOutcome, allow, deny, allow_with_obligations, Obligation, not_required, DecisionResult,
}
use clayseal_receipts.Mandate.{Numbers}
use clayseal_receipts.Policy.{
  AuthorityContext, ExecutionContext, Policy, PolicyViolation, OutputValue, lease_query_missing,
  lease_query_mismatch, lease_exhausted, expires_at_invalid, authority_expired, possession_missing,
  grant_unbound, capabilities_deny, resource_scope_denies, check_output, monitoring_violations,
}
use clayseal_receipts.Policy.Trust.{is_there, is_true, is_false, trust_violations}
use clayseal_receipts.Policy.Capabilities.{
  has_capability_restrictions, authority_capabilities_allow, resource_scope_allows,
}
use clayseal_receipts.Policy.Scopes.{authority_ref_violations, task_scope_violations}

unfoldable pub default_outcome : {D : Type 0} → Bool → List (Obligation D) → DecisionOutcome
default_outcome policy_ok obligations =
    if not policy_ok then deny else if is_nil obligations then allow else allow_with_obligations

-- the text with a final `Z` written out
abbrev pub with_offset : Text → Text
with_offset text = elim (unsnoc text) [
  | none ↦ text
  | some (start, c) ↦ if eqb c b'Z' then start ++ codes "+00:00" else text
]

-- `none` is the `ValueError`, `some none` a blank text
unfoldable pub parse_timestamp : (Text → Option ℕ) → Text → Option (Option ℕ)
parse_timestamp from_iso value =
    let text = strip value in
    let parsed : Option (Option ℕ) = elim (from_iso (with_offset text)) [
      | none ↦ none
      | some t ↦ some (some t)
    ] in
    if is_nil text then some none else parsed

module _ {N : Type 0} where
  unfoldable pub lease_violations : ExecutionContext N → List PolicyViolation
  lease_violations ctx =
      let issue = if is_there ctx.query_id then lease_query_mismatch else lease_query_missing in
      if not (is_there ctx.authority.lease_query_id) || ctx.query_id == ctx.authority.lease_query_id
      then []
      else issue ∷ []

abbrev pub calls_left : Option ℤ → Bool
calls_left none = true
calls_left (some n) = not (leℤ n (pos 0))

unfoldable pub expiry_violations : (Text → Option ℕ) → ℕ → Option Text → List PolicyViolation
unfolding parse_timestamp
expiry_violations from_iso now none = []
expiry_violations from_iso now (some text) =
    if is_nil text then [] else elim (parse_timestamp from_iso text) [
      | none ↦ expires_at_invalid ∷ []
      | some none ↦ []
      | some (some t) ↦ if leb t now then authority_expired ∷ [] else []
    ]

-- `none` is the `ValueError` of the action's reference
unfoldable pub capability_violations :
    AuthorityContext → ActionDescriptor → Option (List PolicyViolation)
unfolding has_capability_restrictions
capability_violations a action =
    let checked : Option (List PolicyViolation) = elim (authority_capabilities_allow a action) [
      | none ↦ none
      | some allowed ↦ some (if allowed then [] else capabilities_deny ∷ [])
    ] in
    if not (has_capability_restrictions a) then some [] else checked

unfoldable pub resource_violations :
    AuthorityContext → ActionDescriptor → Option (List PolicyViolation)
resource_violations a action =
    let checked : Option (List PolicyViolation) =
      elim (resource_scope_allows a.resource_scope action) [
        | none ↦ none
        | some allowed ↦ some (if allowed then [] else resource_scope_denies ∷ [])
      ] in
    if is_nil a.resource_scope then some [] else checked

-- the checks that do not look at the action, after the trust tier's
unfoldable pub holder_violations : (Text → Option ℕ) → ℕ → AuthorityContext → List PolicyViolation
unfolding expiry_violations
holder_violations from_iso now a =
    expiry_violations from_iso now a.expires_at
    ++ ((if not (a.trust_tier == some "sender_constrained" && is_false a.proof_of_possession)
          then []
          else possession_missing ∷ [])
        ++ (if not (is_true a.has_capability_grant && is_false a.proof_of_possession)
            then []
            else grant_unbound ∷ []))

module _ {N : Type 0} (from_iso : Text → Option ℕ) (now : ℕ) where
  -- `none` is a `ValueError`
  unfoldable pub authority_violations :
      ExecutionContext N → Policy N → Option (List PolicyViolation)
  unfolding lease_violations trust_violations capability_violations resource_violations
      holder_violations
  authority_violations ctx policy = elim (trust_violations policy.min_trust_tier ctx.authority) [
    | none ↦ none
    | some trust ↦ elim (capability_violations ctx.authority ctx.action) [
      | none ↦ none
      | some capabilities ↦ elim (resource_violations ctx.authority ctx.action) [
        | none ↦ none
        | some resources ↦ some (
            lease_violations ctx
            ++ ((if calls_left ctx.authority.lease_remaining_calls
                  then []
                  else lease_exhausted ∷ [])
                ++ (trust
                    ++ (holder_violations from_iso now ctx.authority
                        ++ (capabilities ++ (resources ++ authority_ref_violations ctx))))))
      ]
    ]
  ]

module _ (num : Numbers) (from_iso : Text → Option ℕ) (now : ℕ) (message : PolicyViolation → String)
    (D : Type 0) where
  open num use {Amount}

  -- what the context adds, where there is one
  unfoldable pub context_violations :
      Policy Amount → Option (ExecutionContext Amount) → Option (List PolicyViolation)
  unfolding authority_violations task_scope_violations
  context_violations policy none = some []
  context_violations policy (some ctx) = elim (authority_violations from_iso now ctx policy) [
    | none ↦ none
    | some issues ↦
        some (issues ++ (task_scope_violations ctx ++ monitoring_violations num ctx policy))
  ]

  abbrev pub context_version : Option (ExecutionContext Amount) → ℕ
  context_version none = 1
  context_version (some ctx) = ctx.authority.authority_version

  abbrev pub context_session : Option (ExecutionContext Amount) → Option String
  context_session none = none
  context_session (some ctx) = ctx.authority.session_id

  unfoldable pub decided : Option (ExecutionContext Amount) → List String → DecisionResult D Amount
  unfolding default_outcome
  decided context violations = record {
    outcome = default_outcome {D = D} (is_nil violations) [];
    policy_satisfied = is_nil violations;
    violations = violations;
    obligations = [];
    recommended_action = none;
    approval_state = not_required;
    approval_metadata = none;
    budget_effects = [];
    authority_version = context_version context;
    session_id = context_session context;
  }

  -- `YamlPolicyEngine.evaluate`; `none` is a `ValueError`
  unfoldable pub evaluate :
      Policy Amount
      → List (String × OutputValue Amount)
      → Option (ExecutionContext Amount)
      → List String
      → Option (DecisionResult D Amount)
  unfolding context_violations decided
  evaluate policy output context extra = elim (context_violations policy context) [
    | none ↦ none
    | some found ↦
        some (decided context (extra ++ map message (found ++ check_output num policy output)))
  ]
