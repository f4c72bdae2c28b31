-- ===== src/Governor/Rules.antt =====
-- `RuleBasedSandboxGovernor.decide` of sandbox_governor.py. Each check is a step on the enforcement
-- and the violations so far.
use clayseal_receipts.Prelude.{
  ℕ, zero, suc, String, Option, none, some, Bool, true, false, not, ◌&&◌, ◌||◌, List, [], ◌∷◌, ◌++◌,
  ◌==◌, ◌!=◌, string_eq, text_eq, option_eq, int_eq, Text, ℤ, pos, negsuc, leℤ, if◌then◌else◌,
  is_nil, contains,
}
use clayseal_receipts.Operations.{SideEffectLevel, after_last}
use clayseal_receipts.Signing.{Crypto}
use clayseal_receipts.Permit.{ToolPermit, SignedToolPermit, Clock, issue_tool_permit}
use clayseal_receipts.Permit
use clayseal_receipts.Policy.{Fields, ExecutionContext}
use clayseal_receipts.Policy.Trust.{is_there}
use clayseal_receipts.Governor.{
  SandboxEnforcement, allow, deny, step_up, BehaviorRecommendation, BehaviorMonitorResult,
  GovernorViolation, permit_config_missing, permit_ttl_invalid, query_id_missing, query_id_mismatch,
  lease_budget_missing, lease_exhausted, lease_expired, lease_missing, monitor_denies,
  monitor_steps_up, tool_denied, tool_steps_up, level_steps_up, AuthorityPatch, Step, level_in,
  is_expired,
}

-- the arguments of the constructor
pub record Rules (SigningKey : Type 0) : Type 0 where
  pub deny_tools : List Text
  pub step_up_tools : List Text
  pub step_up_levels : List SideEffectLevel
  pub permit_required_tools : List Text
  pub permit_required_levels : List SideEffectLevel
  pub permit_ttl_seconds : Option ℤ
  pub permit_signing_key : Option SigningKey
  pub permit_missing_enforcement : SandboxEnforcement
  pub commit_required_tools : List Text
  pub commit_required_levels : List SideEffectLevel
  pub commit_implies_permit_required : Bool
  pub lease_required_tools : List Text
  pub lease_required_levels : List SideEffectLevel
  pub lease_ttl_seconds : Option ℤ
  pub lease_call_budget : Option ℤ
  pub bump_authority_version_on_lease : Bool
  pub require_active_lease : Bool
  pub lease_missing_enforcement : SandboxEnforcement
  pub lease_expired_enforcement : SandboxEnforcement
  pub lease_exhausted_enforcement : SandboxEnforcement
  pub require_query_bound_lease : Bool
  pub lease_query_mismatch_enforcement : SandboxEnforcement
  pub require_lease_call_budget : Bool
  pub consume_lease_call_budget : Bool
  pub honor_monitor_recommendations : Bool
  pub suspend_lease_renewal_on_suspicion : Bool

-- the enforcement so far, and the violations so far
abbrev pub Verdict : Type 0
Verdict = SandboxEnforcement × List GovernorViolation

-- `enforcement = e; violations.append(v)`
abbrev pub note : SandboxEnforcement → GovernorViolation → Verdict → Verdict
note e v s = (e, s.1 ++ v ∷ [])

-- what the process adds: the clock, the Ed25519 library, the hashes and a fresh id
pub record Environment : Type 1 where
  pub crypto : Crypto
  pub hash_permit : ToolPermit → String
  pub clock : Clock
  pub hash_input : Fields → String
  pub from_iso : Text → Option ℕ
  pub permit_id : String
  pub now : ℕ

-- `not expires_at`
abbrev pub no_text : Option Text → Bool
no_text none = true
no_text (some t) = is_nil t

-- a limit that is there and above zero
abbrev pub positive : Option ℤ → Option ℕ
positive (some (pos (suc n))) = some (suc n)
positive _ = none

-- `not ttl`
abbrev pub no_ttl : Option ℤ → Bool
no_ttl none = true
no_ttl (some z) = z == pos 0

abbrev pub is_some {ℓ} : {A : Type ℓ} → Option A → Bool
is_some none = false
is_some (some a) = true

-- `max(0, n - 1)`
abbrev pub one_less : ℤ → ℤ
one_less (pos zero) = pos 0
one_less (pos (suc n)) = pos n
one_less (negsuc n) = pos 0

-- a monitor only ever makes the enforcement stricter
unfoldable pub advised : Option BehaviorRecommendation → Verdict → Verdict
advised none s = s
advised (some BehaviorRecommendation.allow) s = s
advised (some BehaviorRecommendation.deny) s = elim s.0 [
  | deny ↦ s
  | step_up ↦ note deny monitor_denies s
  | allow ↦ note deny monitor_denies s
]
advised (some BehaviorRecommendation.step_up) s = elim s.0 [
  | deny ↦ s
  | step_up ↦ s
  | allow ↦ note step_up monitor_steps_up s
]

abbrev pub is_empty_patch : AuthorityPatch → Bool
is_empty_patch patch = not (
    is_some patch.expires_at
    || is_some patch.lease_remaining_calls
    || is_some patch.lease_query_id
    || is_some patch.authority_version
    || is_some patch.permit_epoch)

module _ {N : Type 0} (env : Environment) (rules : Rules (env.crypto.SigningKey)) where
  abbrev pub tool_of : ExecutionContext N → Text
  tool_of ctx = after_last b'/' ctx.action.action_name

  unfoldable pub commit_is_required : ExecutionContext N → Bool
  commit_is_required ctx =
      contains rules.commit_required_tools (tool_of ctx)
      || level_in ctx.action.side_effect_level rules.commit_required_levels

  unfoldable pub permit_is_required : ExecutionContext N → Bool
  unfolding commit_is_required
  permit_is_required ctx =
      contains rules.permit_required_tools (tool_of ctx)
      || level_in ctx.action.side_effect_level rules.permit_required_levels
      || commit_is_required ctx && rules.commit_implies_permit_required

  unfoldable pub lease_is_required : ExecutionContext N → Bool
  lease_is_required ctx =
      rules.require_active_lease
      || contains rules.lease_required_tools (tool_of ctx)
      || level_in ctx.action.side_effect_level rules.lease_required_levels

  -- what a permit is bound to
  abbrev pub permit_context : ExecutionContext N → Permit.ExecutionContext
  permit_context ctx = record {
    query_id = ctx.query_id;
    authority_id = ctx.authority.authority_id;
    authority_version = pos ctx.authority.authority_version;
    permit_epoch = ctx.authority.permit_epoch;
    action = ctx.action;
    input_hash = env.hash_input ctx.input;
  }

  -- a time to live that is not positive has been refused before
  unfoldable pub issued_permit : ExecutionContext N → Option SignedToolPermit
  issued_permit ctx = elim rules.permit_signing_key [
    | none ↦ none
    | some key ↦ elim (positive rules.permit_ttl_seconds) [
      | none ↦ none
      | some ttl ↦
          issue_tool_permit env.crypto env.hash_permit env.clock (permit_context ctx) key ttl
            env.permit_id env.now
    ]
  ]

  unfoldable pub permit_check : ExecutionContext N → Verdict → Verdict
  unfolding permit_is_required
  permit_check ctx s =
      if not (permit_is_required ctx)
      then s
      else if not (is_some rules.permit_signing_key) || no_ttl rules.permit_ttl_seconds
      then note rules.permit_missing_enforcement permit_config_missing s
      else if not (is_some (positive rules.permit_ttl_seconds))
      then note rules.permit_missing_enforcement permit_ttl_invalid s
      else s

  unfoldable pub query_check : ExecutionContext N → Verdict → Verdict
  query_check ctx s =
      if not rules.require_query_bound_lease
      then s
      else if not (is_there ctx.query_id)
      then note rules.lease_query_mismatch_enforcement query_id_missing s
      else if ctx.query_id != ctx.authority.lease_query_id
      then note rules.lease_query_mismatch_enforcement query_id_mismatch s
      else s

  unfoldable pub budget_check : ExecutionContext N → Verdict → Verdict
  budget_check ctx s = elim ctx.authority.lease_remaining_calls [
    | none ↦
        if rules.require_lease_call_budget
        then note rules.lease_missing_enforcement lease_budget_missing s
        else s
    | some calls ↦
        if leℤ calls (pos 0) then note rules.lease_exhausted_enforcement lease_exhausted s else s
  ]

  unfoldable pub expiry_check : ExecutionContext N → Verdict → Verdict
  expiry_check ctx s =
      let expires_at = ctx.authority.expires_at in
      if not (no_text expires_at) && is_expired env.from_iso env.now expires_at
      then note rules.lease_expired_enforcement lease_expired s
      else if no_text expires_at && not (is_some ctx.authority.lease_remaining_calls)
      then note rules.lease_missing_enforcement lease_missing s
      else s

  unfoldable pub lease_check : ExecutionContext N → Verdict → Verdict
  unfolding lease_is_required query_check budget_check expiry_check
  lease_check ctx s =
      if lease_is_required ctx then expiry_check ctx (budget_check ctx (query_check ctx s)) else s

  unfoldable pub tool_check : ExecutionContext N → Verdict → Verdict
  tool_check ctx s =
      let tool = tool_of ctx in
      let level = ctx.action.side_effect_level in
      if contains rules.deny_tools tool
      then note deny (tool_denied tool) s
      else if contains rules.step_up_tools tool
      then note step_up (tool_steps_up tool) s
      else if level_in level rules.step_up_levels
      then note step_up (level_steps_up level) s
      else s

  unfoldable pub monitor_check : Option (BehaviorMonitorResult N) → Verdict → Verdict
  unfolding advised
  monitor_check none s = s
  monitor_check (some m) s =
      if rules.honor_monitor_recommendations then advised m.recommendation s else s

  unfoldable pub verdict : Step N → Verdict
  unfolding permit_check lease_check tool_check monitor_check
  verdict step =
      monitor_check step.monitor
        (tool_check step.ctx (lease_check step.ctx (permit_check step.ctx (allow, []))))
