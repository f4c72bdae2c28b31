-- ===== src/Governor/Tightening.antt =====
-- tighten_policy.py: a monitor's advice makes the authority and the enforcement stricter.
use clayseal_receipts.Prelude.{
  zero, suc, String, Option, none, some, Bool, true, false, not, ◌&&◌, List, [], ◌∷◌, ◌++◌,
  string_eq, ℤ, pos, negsuc, ltℤ, if◌then◌else◌,
}
use clayseal_receipts.Governor.{
  SandboxEnforcement, allow, deny, step_up, BehaviorRecommendation, BehaviorMonitorResult,
  GovernorViolation, tighten_mode, epoch_bumped, renewal_stopped, budget_reduced, novelty_steps_up,
  AuthorityPatch, empty_patch, SandboxGovernorResult, refusal, Step, SandboxGovernor,
}
use clayseal_receipts.Governor.Rules.{is_empty_patch}
use clayseal_receipts.Governor.DefaultDeny.{reads_only}

-- `scaled` is the product with `budget_reduction_factor`, cut to an integer
pub record TightenConfig : Type 0 where
  pub stop_renewal_on_step_up : Bool
  pub bump_epoch_on_deny : Bool
  pub reduce_budget_on_step_up : Bool
  pub scaled : ℤ → ℤ
  pub step_up_on_novelty : Bool
  pub min_budget_after_reduction : ℤ

pub record TightenResult : Type 0 where
  pub triggered : Bool
  pub reasons : List GovernorViolation
  pub authority_patch : AuthorityPatch
  pub enforcement_override : Option SandboxEnforcement

-- the stricter of two recommendations
abbrev pub stricter : BehaviorRecommendation → BehaviorRecommendation → BehaviorRecommendation
stricter worst BehaviorRecommendation.deny = BehaviorRecommendation.deny
stricter BehaviorRecommendation.deny BehaviorRecommendation.step_up = BehaviorRecommendation.deny
stricter BehaviorRecommendation.allow BehaviorRecommendation.step_up =
    BehaviorRecommendation.step_up
stricter BehaviorRecommendation.step_up BehaviorRecommendation.step_up =
    BehaviorRecommendation.step_up
stricter worst BehaviorRecommendation.allow = worst

abbrev pub max_ℤ : ℤ → ℤ → ℤ
max_ℤ a b = if ltℤ a b then b else a

-- `n + 1`
abbrev pub one_more : ℤ → ℤ
one_more (pos n) = pos (suc n)
one_more (negsuc zero) = pos 0
one_more (negsuc (suc n)) = negsuc n

unfoldable pub worst_of :
    {N : Type 0} → BehaviorRecommendation → List (BehaviorMonitorResult N) → BehaviorRecommendation
worst_of worst [] = worst
worst_of worst (m ∷ results) =
    worst_of (elim m.recommendation [ none ↦ worst | some r ↦ stricter worst r ]) results

-- the smaller budget, where there is one
unfoldable pub reduced_budget : TightenConfig → Option ℤ → Option ℤ
reduced_budget cfg none = none
reduced_budget cfg (some budget) =
    let reduced = max_ℤ cfg.min_budget_after_reduction (cfg.scaled budget) in
    if cfg.reduce_budget_on_step_up && ltℤ reduced budget then some reduced else none

abbrev pub not_triggered : TightenResult
not_triggered = record {
  triggered = false;
  reasons = [];
  authority_patch = empty_patch;
  enforcement_override = none;
}

abbrev pub reduction_reason : Option ℤ → Option ℤ → List GovernorViolation
reduction_reason (some budget) (some reduced) = budget_reduced budget reduced ∷ []
reduction_reason (some budget) none = []
reduction_reason none reduced = []

unfoldable pub tightened_by : TightenConfig → ℤ → Option ℤ → BehaviorRecommendation → TightenResult
unfolding reduced_budget
tightened_by cfg epoch budget BehaviorRecommendation.allow = not_triggered
tightened_by cfg epoch budget BehaviorRecommendation.step_up = record {
  triggered = true;
  reasons =
      (if cfg.stop_renewal_on_step_up then renewal_stopped ∷ [] else [])
      ++ (reduction_reason budget (reduced_budget cfg budget)
          ++ (if cfg.step_up_on_novelty then novelty_steps_up ∷ [] else []));
  authority_patch = record empty_patch {
    expires_at = if cfg.stop_renewal_on_step_up then some none else none;
    lease_remaining_calls = reduced_budget cfg budget;
  };
  enforcement_override = if cfg.step_up_on_novelty then some step_up else none;
}
tightened_by cfg epoch budget BehaviorRecommendation.deny = record {
  triggered = true;
  reasons =
      (if cfg.bump_epoch_on_deny then epoch_bumped (one_more epoch) ∷ [] else [])
      ++ ((if cfg.stop_renewal_on_step_up then renewal_stopped ∷ [] else [])
          ++ reduction_reason budget (reduced_budget cfg budget));
  authority_patch = record empty_patch {
    expires_at = if cfg.stop_renewal_on_step_up then some none else none;
    lease_remaining_calls = reduced_budget cfg budget;
    permit_epoch = if cfg.bump_epoch_on_deny then some (one_more epoch) else none;
  };
  enforcement_override = if cfg.bump_epoch_on_deny then some deny else none;
}

unfoldable pub evaluate_tighten_triggers :
    {N : Type 0} → List (BehaviorMonitorResult N) → ℤ → Option ℤ → TightenConfig → TightenResult
unfolding worst_of tightened_by
evaluate_tighten_triggers results epoch budget cfg =
    tightened_by cfg epoch budget (worst_of BehaviorRecommendation.allow results)

-- the fields of `TighteningGovernor` that change, over the state of the governor inside
pub record TightenState (S : Type 0) : Type 0 where
  pub inner_state : S
  pub tightened : Bool
  pub tighten_reason : Option String

module _ {S : Type 0} where
  unfoldable pub enter_tighten_mode : String → TightenState S → TightenState S
  enter_tighten_mode reason s = record s { tightened = true; tighten_reason = some reason }

  unfoldable pub exit_tighten_mode : TightenState S → TightenState S
  exit_tighten_mode s = record s { tightened = false; tighten_reason = none }

abbrev pub or_else {ℓ} : {A : Type ℓ} → Option A → Option A → Option A
or_else none b = b
or_else (some a) b = some a

-- `merged_patch or None`, after `update`
unfoldable pub merged_patch : Option AuthorityPatch → AuthorityPatch → Option AuthorityPatch
merged_patch inner patch =
    let old : AuthorityPatch = elim inner [ none ↦ empty_patch | some p ↦ p ] in
    let merged : AuthorityPatch = record {
      expires_at = or_else patch.expires_at old.expires_at;
      lease_remaining_calls = or_else patch.lease_remaining_calls old.lease_remaining_calls;
      lease_query_id = or_else patch.lease_query_id old.lease_query_id;
      authority_version = or_else patch.authority_version old.authority_version;
      permit_epoch = or_else patch.permit_epoch old.permit_epoch;
    } in
    if is_empty_patch merged then none else some merged

abbrev pub overridden : SandboxEnforcement → Option SandboxEnforcement → SandboxEnforcement
overridden e (some deny) = deny
overridden allow (some step_up) = step_up
overridden deny (some step_up) = deny
overridden step_up (some step_up) = step_up
overridden e (some allow) = e
overridden e none = e

abbrev pub is_deny : SandboxEnforcement → Bool
is_deny deny = true
is_deny allow = false
is_deny step_up = false

abbrev pub monitors {ℓ} : {A : Type ℓ} → Option A → List A
monitors none = []
monitors (some m) = m ∷ []

module _ {N D : Type 0} (inner : SandboxGovernor N D) (cfg : TightenConfig)
    (auto_tighten_on_deny : Bool) where
  -- what the triggers add to the result of the governor inside
  unfoldable pub tighten :
      TightenState inner.State
      → Step N
      → SandboxGovernorResult D
      → TightenState inner.State × SandboxGovernorResult D
  unfolding enter_tighten_mode
  tighten s step r =
      let t =
        evaluate_tighten_triggers (monitors step.monitor) step.ctx.authority.permit_epoch
          step.ctx.authority.lease_remaining_calls cfg in
      let denied : Bool = elim t.enforcement_override [ none ↦ false | some e ↦ is_deny e ] in
      if not t.triggered then (s, r) else (
        if auto_tighten_on_deny && denied then enter_tighten_mode "monitor_deny" s else s,
        record r {
          enforcement = overridden r.enforcement t.enforcement_override;
          extra_violations = r.extra_violations ++ t.reasons;
          authority_patch = merged_patch r.authority_patch t.authority_patch;
        },
      )

  -- `TighteningGovernor.decide`
  unfoldable pub tightening_decide :
      TightenState inner.State → Step N → TightenState inner.State × SandboxGovernorResult D
  tightening_decide s step =
      let (inner_state, r) = inner.decide s.inner_state step in
      let s' = record s { inner_state = inner_state } in
      if s.tightened && not (reads_only step.ctx)
      then (s, refusal step_up (tighten_mode s.tighten_reason ∷ []))
      else if is_deny r.enforcement
      then (s', r)
      else tighten s' step r

  abbrev pub tightening : SandboxGovernor N D
  tightening = record { State = TightenState inner.State; decide = tightening_decide }
