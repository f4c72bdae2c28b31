-- ===== src/Governor/Renewal.antt =====
-- The result of `RuleBasedSandboxGovernor.decide` of sandbox_governor.py: the lease is renewed, and
-- a call of it is used up.
use clayseal_receipts.Prelude.{
  suc, ◌+◌, Option, none, some, Bool, true, false, not, ◌&&◌, ◌||◌, [], string_eq, text_eq,
  option_eq, int_eq, codes, ℤ, pos, if◌then◌else◌,
}
use clayseal_receipts.Policy.{ExecutionContext}
use clayseal_receipts.Policy.Trust.{is_there}
use clayseal_receipts.Governor.{
  allow, deny, step_up, BehaviorRecommendation, BehaviorMonitorResult, AuthorityPatch, empty_patch,
  SandboxGovernorResult, Step, SandboxGovernor,
}
use clayseal_receipts.Governor.Rules.{
  Rules, Environment, positive, is_some, one_less, is_empty_patch, lease_is_required,
  permit_is_required, commit_is_required, issued_permit, verdict,
}

module _ {N : Type 0} (env : Environment) (rules : Rules (env.crypto.SigningKey)) where
  -- a monitor that does not say `allow`
  suspicious : Option (BehaviorMonitorResult N) → Bool
  suspicious none = false
  suspicious (some m) = elim m.recommendation [
    | none ↦ false
    | some r ↦ elim r [
      | BehaviorRecommendation.allow ↦ false
      | BehaviorRecommendation.step_up ↦ true
      | BehaviorRecommendation.deny ↦ true
    ]
  ]

  -- the renewed lease
  renewal : Step N → AuthorityPatch
  renewal step =
      let ttl = positive rules.lease_ttl_seconds in
      let budget = positive rules.lease_call_budget in
      record {
        expires_at = elim ttl [
          | none ↦ none
          | some seconds ↦ some (some (codes (env.clock.isoformat (env.now + seconds))))
        ];
        lease_remaining_calls = elim budget [ none ↦ none | some calls ↦ some (pos calls) ];
        lease_query_id =
            if rules.require_query_bound_lease && is_there step.ctx.query_id
            then step.ctx.query_id
            else none;
        authority_version =
            if rules.bump_authority_version_on_lease
            then some (suc step.ctx.authority.authority_version)
            else none;
        permit_epoch = none;
      }

  -- the call that the step takes from the budget
  consumed : ExecutionContext N → AuthorityPatch → AuthorityPatch
  consumed ctx patch =
      let left : Option ℤ = elim patch.lease_remaining_calls [
        | none ↦ ctx.authority.lease_remaining_calls
        | some calls ↦ some calls
      ] in
      elim left [
        | none ↦ patch
        | some calls ↦ record patch { lease_remaining_calls = some (one_less calls) }
      ]

  unfoldable pub patch_of : Step N → Option AuthorityPatch
  unfolding suspicious renewal consumed lease_is_required
  patch_of step =
      let issues =
        is_some (positive rules.lease_ttl_seconds) || is_some (positive rules.lease_call_budget) in
      let renews =
        issues && not (rules.suspend_lease_renewal_on_suspicion && suspicious step.monitor) in
      let renewed = if renews then renewal step else empty_patch in
      let patch =
        if rules.consume_lease_call_budget && lease_is_required env rules step.ctx
        then consumed step.ctx renewed
        else renewed in
      if is_empty_patch patch then none else some patch

  unfoldable pub rule_based_decide : {D : Type 0} → Step N → SandboxGovernorResult D
  unfolding verdict patch_of permit_is_required issued_permit commit_is_required
  rule_based_decide step =
      let (enforcement, violations) = verdict env rules step in
      record {
        enforcement = enforcement;
        extra_violations = violations;
        obligations = [];
        authority_patch = elim enforcement [ allow ↦ patch_of step | deny ↦ none | step_up ↦ none ];
        tool_permit =
            if permit_is_required env rules step.ctx
            then issued_permit env rules step.ctx
            else none;
        commit_required = commit_is_required env rules step.ctx;
      }

  abbrev pub rule_based : {D : Type 0} → SandboxGovernor N D
  rule_based = record { State = Unit; decide = λ s step. (s, rule_based_decide step) }
