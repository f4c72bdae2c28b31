-- ===== src/Governor.antt =====
-- agentauth/receipts/sandbox_governor.py: the binding decision on a step, and the governor by rules.
-- A governor is a state and a step on it, so that governors can be put around one another. The
-- instant of a call is one number, and the messages of violations are constructors.
pub mod Rules
pub mod Renewal
pub mod DefaultDeny
pub mod Tightening
pub mod Zones
pub mod Loops
pub mod Checks
pub mod Verdicts
pub mod Passes
pub mod Stack
use clayseal_receipts.Prelude.{
  ℕ, zero, suc, String, Option, none, some, Bool, true, false, not, ◌&&◌, ◌||◌, List, [], ◌∷◌, ◌++◌,
  ◌==◌, ◌!=◌, string_eq, text_eq, option_eq, Text, codes, ℤ, pos, negsuc, if◌then◌else◌, is_nil, Eq,
  ◌↔◌, ◌≡◌, leb, eqb, any_of,
}
use clayseal_receipts.Operations.{
  SideEffectLevel, read_only, bounded_write, external_side_effect, privileged_mutation,
}
use clayseal_receipts.Decision.{DecisionOutcome, Obligation}
use clayseal_receipts.Policy.{AuthorityContext, ExecutionContext}
use clayseal_receipts.Permit.{SignedToolPermit}

pub data SandboxEnforcement : Type 0 where
  allow deny step_up : SandboxEnforcement

-- what a behaviour monitor advises
pub data BehaviorRecommendation : Type 0 where
  allow step_up deny : BehaviorRecommendation

-- the score is of the type N
pub record BehaviorMonitorResult (N : Type 0) : Type 0 where
  pub risk_score : Option N
  pub recommendation : Option BehaviorRecommendation
  pub reasons : List Text

pub data GovernorViolation : Type 0 where
  permit_config_missing permit_ttl_invalid : GovernorViolation
  query_id_missing query_id_mismatch lease_budget_missing lease_exhausted : GovernorViolation
  lease_expired lease_missing monitor_denies monitor_steps_up : GovernorViolation
  tool_denied tool_steps_up : Text → GovernorViolation
  level_steps_up : SideEffectLevel → GovernorViolation
  authority_id_missing authority_expired resource_scope_empty : GovernorViolation
  memory_write_denied memory_write_not_listed : Text → GovernorViolation
  egress_denied read_steps_up write_denied : Text → GovernorViolation
  tighten_mode : Option String → GovernorViolation
  epoch_bumped : ℤ → GovernorViolation
  renewal_stopped novelty_steps_up : GovernorViolation
  budget_reduced : ℤ → ℤ → GovernorViolation

-- the keys that governors write; `none` is a key that is not there
pub record AuthorityPatch : Type 0 where
  pub expires_at : Option (Option Text)
  pub lease_remaining_calls : Option ℤ
  pub lease_query_id : Option String
  pub authority_version : Option ℕ
  pub permit_epoch : Option ℤ

abbrev pub empty_patch : AuthorityPatch
empty_patch = record {
  expires_at = none;
  lease_remaining_calls = none;
  lease_query_id = none;
  authority_version = none;
  permit_epoch = none;
}

pub record SandboxGovernorResult (D : Type 0) : Type 0 where
  pub enforcement : SandboxEnforcement
  pub extra_violations : List GovernorViolation
  pub obligations : List (Obligation D)
  pub authority_patch : Option AuthorityPatch
  pub tool_permit : Option SignedToolPermit
  pub commit_required : Bool

module _ {D : Type 0} where
  unfoldable pub decision_outcome : SandboxGovernorResult D → DecisionOutcome
  decision_outcome r = elim r.enforcement [
    | deny ↦ DecisionOutcome.deny
    | step_up ↦ DecisionOutcome.pending_step_up
    | allow ↦ DecisionOutcome.allow
  ]

abbrev pub blocks : SandboxEnforcement → Bool
blocks allow = false
blocks deny = true
blocks step_up = true

unfoldable pub is_blocking : {D : Type 0} → SandboxGovernorResult D → Bool
is_blocking r = blocks r.enforcement

-- a result that carries an enforcement and its reasons only
abbrev pub refusal :
    {D : Type 0} → SandboxEnforcement → List GovernorViolation → SandboxGovernorResult D
refusal enforcement violations = record {
  enforcement = enforcement;
  extra_violations = violations;
  obligations = [];
  authority_patch = none;
  tool_permit = none;
  commit_required = false;
}

-- the arguments of `decide`
pub record Step (N : Type 0) : Type 0 where
  pub ctx : ExecutionContext N
  pub monitor : Option (BehaviorMonitorResult N)
  pub structural_violations : Option (List Text)

-- the protocol `SandboxGovernor`
pub record SandboxGovernor (N D : Type 0) : Type 1 where
  pub State : Type 0
  pub decide : State → Step N → State × SandboxGovernorResult D

abbrev pub null_governor : {N D : Type 0} → SandboxGovernor N D
null_governor = record { State = Unit; decide = λ s step. (s, refusal allow []) }

abbrev pub level_beq : SideEffectLevel → SideEffectLevel → Bool
level_beq read_only read_only = true
level_beq bounded_write bounded_write = true
level_beq external_side_effect external_side_effect = true
level_beq privileged_mutation privileged_mutation = true
level_beq _ _ = false

-- `ctx.action.side_effect_level in levels`
abbrev pub level_in : SideEffectLevel → List SideEffectLevel → Bool
level_in level levels = any_of (level_beq level) levels

-- `expires_at.replace("Z", "+00:00")`
unfoldable pub replace_zulu : Text → Text
replace_zulu [] = []
replace_zulu (c ∷ cs) =
    let rest = replace_zulu cs in if eqb c b'Z' then codes "+00:00" ++ rest else c ∷ rest

-- `from_iso` reads a time as an instant, as UTC where it has no zone
unfoldable pub is_expired : (Text → Option ℕ) → ℕ → Option Text → Bool
unfolding replace_zulu
is_expired from_iso now none = true
is_expired from_iso now (some text) =
    if is_nil text
    then true
    else elim (from_iso (replace_zulu text)) [ none ↦ true | some at ↦ leb at now ]

-- `hasattr` and `setattr` for the keys of a patch
abbrev pub set_or {ℓ} : {A : Type ℓ} → Option A → A → A
set_or none old = old
set_or (some new) old = new

abbrev set_some {ℓ} : {A : Type ℓ} → Option A → Option A → Option A
set_some none old = old
set_some (some new) old = some new

unfoldable pub apply_authority_patch : AuthorityContext → Option AuthorityPatch → AuthorityContext
apply_authority_patch authority none = authority
apply_authority_patch authority (some patch) = record authority {
  expires_at = set_or patch.expires_at authority.expires_at;
  lease_remaining_calls = set_some patch.lease_remaining_calls authority.lease_remaining_calls;
  lease_query_id = set_some patch.lease_query_id authority.lease_query_id;
  authority_version = set_or patch.authority_version authority.authority_version;
  permit_epoch = set_or patch.permit_epoch authority.permit_epoch;
}
