-- ===== src/Policy/Laws.antt =====
-- What an authority without violations keeps to (policy_engine.py).
use clayseal_receipts.Prelude.{
  ℕ, ◌≤◌, String, ◌≡◌, refl, ap, ◌∙◌, ◌⊎◌, inl, inr, Option, none, some, Bool, true, false, not,
  ◌&&◌, ◌||◌, List, [], ◌∷◌, ◌++◌, string_eq, option_eq, option_beq_iff, Text, arith, ltb, all_of,
  if◌then◌else◌, is_nil, contains, passed, nil_of_append, Bool-cases, Option-cases,
}
use clayseal_receipts.Operations.{ActionDescriptor}
use clayseal_receipts.Assurance.{TrustTier, tier_ordinal, parse_trust_tier, tier_meets}
use clayseal_receipts.TaskScope.{TaskScope, truthy, raw_path_matches_any, task_scope_allows_path}
use clayseal_receipts.Policy.{
  AuthorityContext, ExecutionContext, Policy, PolicyViolation, lease_exhausted,
}
use clayseal_receipts.Policy.Trust.{is_there, effective_authority_trust_tier, trust_violations}
use clayseal_receipts.Policy.Capabilities.{
  has_capability_restrictions, authority_capabilities_allow, resource_scope_allows,
}
use clayseal_receipts.Policy.Scopes.{
  authorization_approval_id, lists_approval, authority_ref_violations, path_violations,
  paths_violations,
}
use clayseal_receipts.Policy.Engine.{
  parse_timestamp, lease_violations, calls_left, expiry_violations, capability_violations,
  resource_violations, holder_violations, authority_violations,
}

-- an authority without an expiry, with a blank one, or with one that is still to come
unfoldable pub lasts_after : (Text → Option ℕ) → ℕ → Option Text → Bool
lasts_after from_iso now none = true
lasts_after from_iso now (some text) = is_nil text || elim (parse_timestamp from_iso text) [
  | none ↦ false
  | some none ↦ true
  | some (some t) ↦ ltb now t
]

-- an authority that keeps to its lease, its expiry, the policy's minimum tier, its capabilities, its
-- resource scope and its approvals in what it does
pub record IsAuthorized {N : Type 0} (from_iso : Text → Option ℕ) (now : ℕ)
    (ctx : ExecutionContext N) (policy : Policy N) : Type 0 where
  pub lease_matches :
      (is_there ctx.authority.lease_query_id ≡ false)
      ⊎ (ctx.query_id ≡ ctx.authority.lease_query_id)
  pub calls_remain : calls_left ctx.authority.lease_remaining_calls ≡ true
  pub tier_suffices :
      (truthy policy.min_trust_tier ≡ none)
      ⊎ ((text : String) × (minimum : TrustTier) × (truthy policy.min_trust_tier ≡ some text)
          × (parse_trust_tier text ≡ some minimum)
          × (tier_ordinal minimum ≤ tier_ordinal (effective_authority_trust_tier ctx.authority).0))
  pub in_time : lasts_after from_iso now ctx.authority.expires_at ≡ true
  pub capable :
      (has_capability_restrictions ctx.authority ≡ false)
      ⊎ (authority_capabilities_allow ctx.authority ctx.action ≡ some true)
  pub in_scope :
      (is_nil ctx.authority.resource_scope ≡ true)
      ⊎ (resource_scope_allows ctx.authority.resource_scope ctx.action ≡ some true)
  pub approved :
      (is_nil ctx.authority.approval_refs ≡ true)
      ⊎ ((id : String) × (authorization_approval_id ctx.authorization ≡ some id)
          × (contains ctx.authority.approval_refs id ≡ true))

lease_violations_lem :
    {N : Type 0} (ctx : ExecutionContext N)
    → lease_violations ctx ≡ []
    → (is_there ctx.authority.lease_query_id ≡ false)
      ⊎ (ctx.query_id ≡ ctx.authority.lease_query_id)
unfolding lease_violations
lease_violations_lem ctx h = elim (Bool-cases (is_there ctx.authority.lease_query_id)) [
  | inr q ↦ inl q
  | inl q ↦ inr ((option_beq_iff ctx.query_id ctx.authority.lease_query_id).0 (ground arith))
]

trust_violations_lem :
    (minimum : Option String) (a : AuthorityContext)
    → trust_violations minimum a ≡ some []
    → (truthy minimum ≡ none)
      ⊎ ((text : String) × (m : TrustTier) × (truthy minimum ≡ some text)
          × (parse_trust_tier text ≡ some m)
          × (tier_ordinal m ≤ tier_ordinal (effective_authority_trust_tier a).0))
unfolding trust_violations tier_meets
trust_violations_lem minimum a h = elim (Option-cases (truthy minimum)) [
  | inl e ↦ inl e
  | inr (text, e) ↦ elim (Option-cases (parse_trust_tier text)) [
    | inl e' ↦ absurd (ground arith)
    | inr (m, e') ↦ inr (text, m, e, e', ground arith)
  ]
]

expiry_violations_lem :
    (from_iso : Text → Option ℕ) (now : ℕ) (expires_at : Option Text)
    → expiry_violations from_iso now expires_at ≡ []
    → lasts_after from_iso now expires_at ≡ true
unfolding expiry_violations lasts_after
expiry_violations_lem from_iso now none h = refl
expiry_violations_lem from_iso now (some text) h =
    elim (Option-cases (parse_timestamp from_iso text)) [
      | inl e ↦ ground arith
      | inr (none, e) ↦ ground arith
      | inr (some t, e) ↦ ground arith
    ]

holder_violations_lem :
    (from_iso : Text → Option ℕ) (now : ℕ) (a : AuthorityContext)
    → holder_violations from_iso now a ≡ []
    → lasts_after from_iso now a.expires_at ≡ true
unfolding holder_violations
holder_violations_lem from_iso now a h =
    expiry_violations_lem from_iso now a.expires_at
      (nil_of_append (expiry_violations from_iso now a.expires_at) _ h).0

capability_violations_lem :
    (a : AuthorityContext) (action : ActionDescriptor)
    → capability_violations a action ≡ some []
    → (has_capability_restrictions a ≡ false) ⊎ (authority_capabilities_allow a action ≡ some true)
unfolding capability_violations
capability_violations_lem a action h = elim (Bool-cases (has_capability_restrictions a)) [
  | inr q ↦ inl q
  | inl q ↦ elim (Option-cases (authority_capabilities_allow a action)) [
    | inl e ↦ absurd (ground arith)
    | inr (true, e) ↦ inr e
    | inr (false, e) ↦ absurd (ground arith)
  ]
]

resource_violations_lem :
    (a : AuthorityContext) (action : ActionDescriptor)
    → resource_violations a action ≡ some []
    → (is_nil a.resource_scope ≡ true) ⊎ (resource_scope_allows a.resource_scope action ≡ some true)
unfolding resource_violations
resource_violations_lem a action h = elim (Bool-cases (is_nil a.resource_scope)) [
  | inl q ↦ inl q
  | inr q ↦ elim (Option-cases (resource_scope_allows a.resource_scope action)) [
    | inl e ↦ absurd (ground arith)
    | inr (true, e) ↦ inr e
    | inr (false, e) ↦ absurd (ground arith)
  ]
]

-- `TaskScope.allows_path` says the same of a path
path_violations_lem :
    (scope : TaskScope) (path : Text)
    → path_violations scope path ≡ []
    → task_scope_allows_path scope path ≡ true
unfolding path_violations task_scope_allows_path
path_violations_lem scope path h =
    elim (Bool-cases
      (not (is_nil scope.denied_paths) && raw_path_matches_any path scope.denied_paths)) [
        | inl q ↦ absurd (ground arith)
        | inr q ↦ ground arith
      ]

pub paths_violations_lem :
    (scope : TaskScope) (paths : List Text)
    → paths_violations scope paths ≡ []
    → all_of (task_scope_allows_path scope) paths ≡ true
unfolding paths_violations
paths_violations_lem scope [] h = refl
paths_violations_lem scope (path ∷ paths) h =
    let (here, later) =
      nil_of_append (path_violations scope path) (paths_violations scope paths) h in
    ground (arith, path_violations_lem scope path here, paths_violations_lem scope paths later)

module _ {N : Type 0} where
  approval_lem :
      (ctx : ExecutionContext N)
      → authority_ref_violations ctx ≡ []
      → (is_nil ctx.authority.approval_refs ≡ true)
        ⊎ ((id : String) × (authorization_approval_id ctx.authorization ≡ some id)
            × (contains ctx.authority.approval_refs id ≡ true))
  unfolding authority_ref_violations lists_approval
  approval_lem ctx h = elim (Bool-cases (is_nil ctx.authority.approval_refs)) [
    | inl q ↦ inl q
    | inr q ↦ elim (Option-cases (authorization_approval_id ctx.authorization)) [
      | inl e ↦ absurd (ground arith)
      | inr (id, e) ↦ inr (id, e, ground arith)
    ]
  ]

  pub authority_violations-IsAuthorized :
      (from_iso : Text → Option ℕ) (now : ℕ) (ctx : ExecutionContext N) (policy : Policy N)
      → authority_violations from_iso now ctx policy ≡ some []
      → IsAuthorized from_iso now ctx policy
  unfolding authority_violations
  authority_violations-IsAuthorized from_iso now ctx policy h =
      elim (Option-cases (trust_violations policy.min_trust_tier ctx.authority)) [
        | inl e ↦ absurd (ground arith)
        | inr (trust, e) ↦ elim (Option-cases (capability_violations ctx.authority ctx.action)) [
          | inl e' ↦ absurd (ground arith)
          | inr (caps, e') ↦ elim (Option-cases (resource_violations ctx.authority ctx.action)) [
            | inl e'' ↦ absurd (ground arith)
            | inr (res, e'') ↦
                let (lease, rest) =
                  nil_of_append (lease_violations ctx) _ (parts trust caps res e e' e'') in
                let (left, rest₁) =
                  passed (calls_left ctx.authority.lease_remaining_calls) lease_exhausted _ rest in
                let (tiers, rest₂) = nil_of_append trust _ rest₁ in
                let (holder, rest₃) =
                  nil_of_append (holder_violations from_iso now ctx.authority) _ rest₂ in
                let (capable, rest₄) = nil_of_append caps _ rest₃ in
                let (scoped, refs) = nil_of_append res (authority_ref_violations ctx) rest₄ in
                record {
                  lease_matches = lease_violations_lem ctx lease;
                  calls_remain = left;
                  tier_suffices =
                      trust_violations_lem policy.min_trust_tier ctx.authority (e ∙ ap some tiers);
                  in_time = holder_violations_lem from_iso now ctx.authority holder;
                  capable =
                      capability_violations_lem ctx.authority ctx.action (e' ∙ ap some capable);
                  in_scope =
                      resource_violations_lem ctx.authority ctx.action (e'' ∙ ap some scoped);
                  approved = approval_lem ctx refs;
                }
          ]
        ]
      ]
    where
      parts :
          (trust caps res : List PolicyViolation)
          → trust_violations policy.min_trust_tier ctx.authority ≡ some trust
          → capability_violations ctx.authority ctx.action ≡ some caps
          → resource_violations ctx.authority ctx.action ≡ some res
          → lease_violations ctx
              ++ ((if calls_left ctx.authority.lease_remaining_calls
                    then []
                    else lease_exhausted ∷ [])
                  ++ (trust
                      ++ (holder_violations from_iso now ctx.authority
                          ++ (caps ++ (res ++ authority_ref_violations ctx)))))
            ≡ []
      parts trust caps res e e' e'' = ground arith
