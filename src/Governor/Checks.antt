-- ===== src/Governor/Checks.antt =====
-- What each check of the rules of sandbox_governor.py lets pass.
use clayseal_receipts.Prelude.{
  ◌≡◌, refl, sym, ap, ◌∙◌, inl, inr, ◌⊎◌, true, false, not, ◌||◌, [], ◌==◌, string_eq, text_eq,
  option_eq, int_eq, pos, leℤ, is_nil, is_nil-snoc, contains, arith, Bool-cases, Option-cases,
  option_beq_iff,
}
use clayseal_receipts.Policy.{ExecutionContext}
use clayseal_receipts.Policy.Trust.{is_there}
use clayseal_receipts.Policy.Engine.{calls_left}
use clayseal_receipts.Governor.{
  SandboxEnforcement, deny, step_up, blocks, GovernorViolation, permit_config_missing,
  permit_ttl_invalid, query_id_missing, query_id_mismatch, lease_budget_missing, tool_denied,
  tool_steps_up, level_steps_up, level_in, is_expired,
}
use clayseal_receipts.Governor.Rules.{
  Rules, Environment, Verdict, note, no_text, no_ttl, is_some, positive, tool_of,
  permit_is_required, lease_is_required, permit_check, query_check, budget_check, expiry_check,
  tool_check,
}

-- an enforcement that a missing permit or lease has is never `allow`
pub record IsStrict {K : Type 0} (rules : Rules K) : Type 0 where
  pub permit_missing : blocks rules.permit_missing_enforcement ≡ true
  pub lease_missing : blocks rules.lease_missing_enforcement ≡ true
  pub lease_expired : blocks rules.lease_expired_enforcement ≡ true
  pub lease_exhausted : blocks rules.lease_exhausted_enforcement ≡ true
  pub query_mismatch : blocks rules.lease_query_mismatch_enforcement ≡ true

-- an enforcement blocks exactly when there is a violation
abbrev pub Agrees : Verdict → Type 0
Agrees s = blocks s.0 ≡ not (is_nil s.1)

-- a check leaves the verdict as it is and its condition holds, or it adds a violation that blocks
abbrev pub Checked : Type 0 → Verdict → Verdict → Type 0
Checked C s s' =
    ((s' ≡ s) × C)
    ⊎ ((e : SandboxEnforcement) × (v : GovernorViolation) × (s' ≡ note e v s) × (blocks e ≡ true))

pub Agrees-Checked : {C : Type 0} (s s' : Verdict) → Checked C s s' → Agrees s → Agrees s'
Agrees-Checked s s' (inl (same, c)) h = rw same h
Agrees-Checked s s' (inr (e, v, added, strict)) h =
    rw added (strict ∙ sym (ap not (is_nil-snoc s.1 v)))

pub clear-Checked : {C : Type 0} (s s' : Verdict) → Checked C s s' → s'.1 ≡ [] → (s.1 ≡ []) × C
clear-Checked s s' (inl (same, c)) h = (rw same at h, c)
clear-Checked s s' (inr (e, v, added, strict)) h = absurd (ground (arith, is_nil-snoc s.1 v))

module _ {N : Type 0} (env : Environment) (rules : Rules (env.crypto.SigningKey))
    (ctx : ExecutionContext N) where
  -- a permit that is asked for can be issued
  abbrev pub PermitReady : Type 0
  PermitReady =
      permit_is_required env rules ctx ≡ true
      → (is_some rules.permit_signing_key ≡ true)
        × (is_some (positive rules.permit_ttl_seconds) ≡ true)

  abbrev pub QueryBound : Type 0
  QueryBound =
      rules.require_query_bound_lease ≡ true
      → (is_there ctx.query_id ≡ true) × (ctx.query_id ≡ ctx.authority.lease_query_id)

  abbrev pub CallsLeft : Type 0
  CallsLeft =
      (calls_left ctx.authority.lease_remaining_calls ≡ true)
      × (rules.require_lease_call_budget ≡ true
          → is_some ctx.authority.lease_remaining_calls ≡ true)

  -- the lease has an end that has not come, or it counts calls and has no end
  abbrev pub NotExpired : Type 0
  NotExpired =
      (is_expired env.from_iso env.now ctx.authority.expires_at ≡ false)
      ⊎ ((no_text ctx.authority.expires_at ≡ true)
          × (is_some ctx.authority.lease_remaining_calls ≡ true))

  abbrev pub ToolFree : Type 0
  ToolFree =
      (contains rules.deny_tools (tool_of env rules ctx) ≡ false)
      × (contains rules.step_up_tools (tool_of env rules ctx) ≡ false)
      × (level_in ctx.action.side_effect_level rules.step_up_levels ≡ false)

  -- a lease that is asked for is bound to the query, has calls left and has not expired
  abbrev pub LeaseLive : Type 0
  LeaseLive = lease_is_required env rules ctx ≡ true → QueryBound × CallsLeft × NotExpired

module _ {N : Type 0} (env : Environment) (rules : Rules (env.crypto.SigningKey))
    (strict : IsStrict rules) (ctx : ExecutionContext N) (s : Verdict) where
  open strict use {permit_missing, lease_missing, lease_expired, lease_exhausted, query_mismatch}

  pub permit_check-Checked : Checked (PermitReady env rules ctx) s (permit_check env rules ctx s)
  unfolding permit_check
  permit_check-Checked = elim (Bool-cases (permit_is_required env rules ctx)) [
    | inr q ↦ inl (ground arith, λ t. cc)
    | inl q ↦
        elim (Bool-cases
          (not (is_some rules.permit_signing_key) || no_ttl rules.permit_ttl_seconds)) [
            | inl r ↦ inr (
              rules.permit_missing_enforcement,
              permit_config_missing,
              ground arith,
              permit_missing,
            )
            | inr r ↦ elim (Bool-cases (is_some (positive rules.permit_ttl_seconds))) [
              | inl t ↦ inl (ground arith, λ u. (ground arith, t))
              | inr t ↦ inr (
                rules.permit_missing_enforcement,
                permit_ttl_invalid,
                ground arith,
                permit_missing,
              )
            ]
          ]
  ]

  pub query_check-Checked : Checked (QueryBound env rules ctx) s (query_check env rules ctx s)
  unfolding query_check
  query_check-Checked = elim (Bool-cases rules.require_query_bound_lease) [
    | inr q ↦ inl (ground arith, λ t. cc)
    | inl q ↦ elim (Bool-cases (is_there ctx.query_id)) [
      | inr r ↦
          inr
            (rules.lease_query_mismatch_enforcement, query_id_missing, ground arith, query_mismatch)
      | inl r ↦ elim (Bool-cases (ctx.query_id == ctx.authority.lease_query_id)) [
        | inr t ↦ inr (
          rules.lease_query_mismatch_enforcement,
          query_id_mismatch,
          ground arith,
          query_mismatch,
        )
        | inl t ↦
            inl (
              ground arith,
              λ u. (r, (option_beq_iff ctx.query_id ctx.authority.lease_query_id).0 t),
            )
      ]
    ]
  ]

  pub budget_check-Checked : Checked (CallsLeft env rules ctx) s (budget_check env rules ctx s)
  unfolding budget_check
  budget_check-Checked = elim (Option-cases ctx.authority.lease_remaining_calls) [
    | inl q ↦ elim (Bool-cases rules.require_lease_call_budget) [
      | inl r ↦
          inr (rules.lease_missing_enforcement, lease_budget_missing, ground arith, lease_missing)
      | inr r ↦ inl (ground arith, (ground arith, λ t. cc))
    ]
    | inr (calls, q) ↦ elim (Bool-cases (leℤ calls (pos 0))) [
      | inl r ↦ inr (
        rules.lease_exhausted_enforcement,
        GovernorViolation.lease_exhausted,
        ground arith,
        lease_exhausted,
      )
      | inr r ↦ inl (ground arith, (ground arith, λ t. ground arith))
    ]
  ]

  pub expiry_check-Checked : Checked (NotExpired env rules ctx) s (expiry_check env rules ctx s)
  unfolding expiry_check
  expiry_check-Checked = elim (Bool-cases (no_text ctx.authority.expires_at)) [
    | inr q ↦ elim (Bool-cases (is_expired env.from_iso env.now ctx.authority.expires_at)) [
      | inl r ↦ inr (
        rules.lease_expired_enforcement,
        GovernorViolation.lease_expired,
        ground arith,
        lease_expired,
      )
      | inr r ↦ inl (ground arith, inl r)
    ]
    | inl q ↦ elim (Bool-cases (is_some ctx.authority.lease_remaining_calls)) [
      | inl r ↦ inl (ground arith, inr (q, r))
      | inr r ↦ inr (
        rules.lease_missing_enforcement,
        GovernorViolation.lease_missing,
        ground arith,
        lease_missing,
      )
    ]
  ]

  pub tool_check-Checked : Checked (ToolFree env rules ctx) s (tool_check env rules ctx s)
  unfolding tool_check
  tool_check-Checked = elim (Bool-cases (contains rules.deny_tools (tool_of env rules ctx))) [
    | inl q ↦ inr (deny, tool_denied (tool_of env rules ctx), ground arith, refl)
    | inr q ↦ elim (Bool-cases (contains rules.step_up_tools (tool_of env rules ctx))) [
      | inl r ↦ inr (step_up, tool_steps_up (tool_of env rules ctx), ground arith, refl)
      | inr r ↦ elim (Bool-cases (level_in ctx.action.side_effect_level rules.step_up_levels)) [
        | inl t ↦ inr (step_up, level_steps_up ctx.action.side_effect_level, ground arith, refl)
        | inr t ↦ inl (ground arith, (q, r, t))
      ]
    ]
  ]
