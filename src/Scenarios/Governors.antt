-- ===== src/Scenarios/Governors.antt =====
-- A write that passes all governors, and a monitor that advises against one.
use clayseal_receipts.Prelude.{
  ℕ, ◌*◌, ◌≡◌, ◌↔◌, string_eq, refl, none, some, true, false, String, Text, [], ◌∷◌, codes, pos,
  length, not, is_nil, strip, arith,
}
use clayseal_receipts.Operations.{bounded_write, privileged_mutation}
use clayseal_receipts.Signing.{sign}
use clayseal_receipts.Paths.{normalize_path}
use clayseal_receipts.Paths.Patterns.{fnmatchcase}
use clayseal_receipts.Permit.{SignedToolPermit, ToolPermit, permit_for}
use clayseal_receipts.Policy.{ExecutionContext}
use clayseal_receipts.Governor.{
  allow, deny, step_up, blocks, BehaviorRecommendation, BehaviorMonitorResult, Step, is_expired,
  SandboxGovernor, null_governor,
}
use clayseal_receipts.Governor.Rules.{Rules, Environment, verdict, permit_context, is_some}
use clayseal_receipts.Governor.Renewal.{rule_based_decide}
use clayseal_receipts.Governor.Checks.{IsStrict}
use clayseal_receipts.Governor.Verdicts.{blocks-verdict}
use clayseal_receipts.Governor.DefaultDeny.{default_deny_decide}
use clayseal_receipts.Governor.Zones.{
  Zones, protected_zone_decide, resource_refusal, zone_refusal, is_protected, is_agent_memory_ref,
}
use clayseal_receipts.Governor.Tightening.{
  TightenConfig, TightenState, tightening_decide, tighten, evaluate_tighten_triggers,
}
use clayseal_receipts.Governor.Stack.{stacked, IsSafe, stacked-IsSafe}
use clayseal_receipts.Governor.Loops.{LoopMonitor, loop_monitor, watch}
use clayseal_receipts.Governor.Loops.Patterns.{EndsInLoop}
use clayseal_receipts.Governor.Loops.History.{watch-EndsInLoop}
use clayseal_receipts.Scenarios.Platforms.{key_pairs}
use clayseal_receipts.Scenarios.Authority.{clock}
use clayseal_receipts.Scenarios.Gates.{call}

abbrev environment : Environment
environment = record {
  crypto = key_pairs;
  hash_permit = λ p. p.permit_id;
  clock = clock;
  hash_input = λ fields. "input";
  from_iso = λ (t : Text). some (length t * 10);
  permit_id = "p";
  now = 12;
}

abbrev rules : Rules String
rules = record {
  deny_tools = codes "rm" ∷ [];
  step_up_tools = [];
  step_up_levels = privileged_mutation ∷ [];
  permit_required_tools = [];
  permit_required_levels = bounded_write ∷ [];
  permit_ttl_seconds = some (pos 5);
  permit_signing_key = some "key";
  permit_missing_enforcement = deny;
  commit_required_tools = [];
  commit_required_levels = [];
  commit_implies_permit_required = true;
  lease_required_tools = [];
  lease_required_levels = [];
  lease_ttl_seconds = none;
  lease_call_budget = none;
  bump_authority_version_on_lease = true;
  require_active_lease = true;
  lease_missing_enforcement = step_up;
  lease_expired_enforcement = step_up;
  lease_exhausted_enforcement = step_up;
  require_query_bound_lease = true;
  lease_query_mismatch_enforcement = step_up;
  require_lease_call_budget = true;
  consume_lease_call_budget = true;
  honor_monitor_recommendations = true;
  suspend_lease_renewal_on_suspicion = true;
}

rules-IsStrict : IsStrict rules
rules-IsStrict = record {
  permit_missing = refl;
  lease_missing = refl;
  lease_expired = refl;
  lease_exhausted = refl;
  query_mismatch = refl;
}

abbrev config : TightenConfig
config = record {
  stop_renewal_on_step_up = true;
  bump_epoch_on_deny = true;
  reduce_budget_on_step_up = true;
  scaled = λ n. n;
  step_up_on_novelty = true;
  min_budget_after_reduction = pos 1;
}

abbrev zones : Zones
zones = record {
  explicit_allow = [];
  allow_agent_memory_writes = false;
  config = record {
    protected_patterns = codes "repo://auth/*" ∷ [];
    deny_on_write = true;
    step_up_on_read = true;
    deny_egress = true;
  };
}

abbrev write : ExecutionContext ℕ
write = record call {
  action = record call.action {
    resource_ref = some (codes "repo_write://src/a");
    side_effect_level = bounded_write;
  };
}

abbrev calm_step : Step ℕ
calm_step = record { ctx = write; monitor = none; structural_violations = none }

abbrev denied_step : Step ℕ
denied_step = record calm_step {
  monitor = some (record {
    risk_score = some 9;
    recommendation = some BehaviorRecommendation.deny;
    reasons = [];
  });
}

blocks-verdict_example :
    blocks (verdict environment rules denied_step).0
    ≡ not (is_nil (verdict environment rules denied_step).1)
blocks-verdict_example = blocks-verdict environment rules rules-IsStrict denied_step

abbrev governor : SandboxGovernor ℕ ℕ
governor = stacked ℕ environment rules config zones true false true

abbrev start : governor.State
start = record {
  inner_state = record { inner_state = tt; tightened = false; tighten_reason = none };
  step_up_approvals = [];
}

passes : (governor.decide start calm_step).1.enforcement ≡ allow
unfolding default_deny_decide protected_zone_decide resource_refusal zone_refusal is_protected
    is_agent_memory_ref tightening_decide tighten evaluate_tighten_triggers rule_based_decide
    is_expired fnmatchcase normalize_path strip
passes = refl

stacked-IsSafe_example : IsSafe ℕ environment rules config zones true false true start calm_step
stacked-IsSafe_example =
    stacked-IsSafe ℕ environment rules config zones true false true rules-IsStrict refl refl start
      calm_step passes

abbrev alert : BehaviorMonitorResult ℕ
alert = record {
  risk_score = some 9;
  recommendation = some BehaviorRecommendation.deny;
  reasons = [];
}

abbrev within : SandboxGovernor ℕ ℕ
within = null_governor

abbrev calm : TightenState within.State
calm = record { inner_state = tt; tightened = false; tighten_reason = none }

abbrev earlier : SignedToolPermit
earlier =
    let permit = permit_for clock (permit_context environment rules write) 5 "p" 10 in
    record {
      permit = permit;
      signature = sign key_pairs (λ (p : ToolPermit). p.permit_id) "key" permit;
    }

-- two calls that alternate, three times
abbrev alternating : LoopMonitor String
alternating = record { window = 8; pattern_len = 2; repeats = 3; recent = [] }

watch-EndsInLoop_example :
    (is_some (watch {N = ℕ} 1 alternating ("x" ∷ "a" ∷ "b" ∷ "a" ∷ "b" ∷ "a" ∷ []) "b") ≡ true)
    ↔ EndsInLoop {S = String} 2 3 ("x" ∷ "a" ∷ "b" ∷ "a" ∷ "b" ∷ "a" ∷ "b" ∷ [])
watch-EndsInLoop_example =
    watch-EndsInLoop {N = ℕ} 1 8 2 3 alternating ("x" ∷ "a" ∷ "b" ∷ "a" ∷ "b" ∷ "a" ∷ []) "b"
      (unfold loop_monitor in refl) (omega arith)
