-- ===== src/Policy.antt =====
-- agentauth/receipts/policy.py and policy_engine.py: the checks of an action against a policy and
-- an authority. `AuthorityContext` is that of core/runtime.py; an output is its fields. Numbers can
-- be compared, so none is a NaN.
pub mod Trust
pub mod Capabilities
pub mod Scopes
pub mod Engine
pub mod Tiers
pub mod Laws
pub mod Decisions
pub mod Arguments
pub mod Hosts
pub mod Egress
pub mod Credentials
pub mod Artifacts
pub mod Gate
use clayseal_receipts.Prelude.{
  ℕ, String, Option, none, some, Bool, true, false, not, ◌&&◌, ◌||◌, List, [], ◌∷◌, ◌++◌, ◌==◌,
  string_eq, text_eq, Text, ℤ, if◌then◌else◌, lookup, contains,
}
use clayseal_receipts.Operations.{
  RawCapability, ActionDescriptor, SideEffectLevel, read_only, bounded_write, external_side_effect,
  privileged_mutation,
}
use clayseal_receipts.Mandate.{Numbers}
use clayseal_receipts.TaskScope.{TaskScope}

-- a JSON value; a number, a Boolean and null are `scalar`
mutual
  pub data Value : Type 0 where
    text : Text → Value
    object : Fields → Value
    array : Items → Value
    scalar : Value

  pub data Fields : Type 0 where
    no_fields : Fields
    field_of : Text → Value → Fields → Fields

  pub data Items : Type 0 where
    no_items : Items
    item_of : Value → Items → Items

pub record AuthorityContext : Type 0 where
  pub authority_id : String
  pub workload_principal : Option String
  pub authority_version : ℕ
  pub session_id : Option String
  pub capabilities : List Text
  pub scope_claims : List Text
  pub capability_rules : List RawCapability
  pub attestation_type : Option String
  pub expires_at : Option Text
  pub lease_query_id : Option String
  pub lease_remaining_calls : Option ℤ
  pub permit_epoch : ℤ
  pub trust_tier : Option String
  pub proof_of_possession : Option Bool
  pub presenter_key_hash : Option String
  pub has_capability_grant : Option Bool
  pub resource_scope : List Text
  pub budget_refs : List String
  pub approval_refs : List String
  pub evidence_verified : Bool

-- what the engine reads of the authorization dictionary; the score is that of its monitoring part
pub record Authorization (N : Type 0) : Type 0 where
  pub approval_id : Option String
  pub nested_approval_id : Option String
  pub budget_id : Option String
  pub gateway_token : Option Text
  pub task_scope : Option TaskScope
  pub monitoring_score : Option N

-- an input that is no dictionary is one without fields
pub record ExecutionContext (N : Type 0) : Type 0 where
  pub action : ActionDescriptor
  pub authority : AuthorityContext
  pub query_id : Option String
  pub authorization : Option (Authorization N)
  pub input : Fields

-- the overrides of a side-effect class
pub record Thresholds (N : Type 0) : Type 0 where
  pub review : Option N
  pub block : Option N

pub record MonitoringPolicy (N : Type 0) : Type 0 where
  pub enabled : Bool
  pub review_threshold : N
  pub block_threshold : Option N
  pub history_window : ℤ
  pub thresholds_by_side_effect : List (String × Thresholds N)

pub record NumericRange (N : Type 0) : Type 0 where
  pub field : String
  pub min : N
  pub max : N

pub record GovernedRuntimePolicy : Type 0 where
  pub require_gateway : Bool
  pub block_ungoverned_tool_actions : Bool

pub record EgressPolicy : Type 0 where
  pub enabled : Bool
  pub default_deny : Bool
  pub allowed_hosts : List Text
  pub network_tools : List Text

pub record CredentialAccessPolicy : Type 0 where
  pub enabled : Bool
  pub default_deny : Bool
  pub denied_paths : List Text
  pub allowed_paths : List Text
  pub read_tools : List Text

pub record ArtifactGuardPolicy : Type 0 where
  pub enabled : Bool
  pub deny_secret_in_artifacts : Bool
  pub require_publication_capability : Bool
  pub publication_tools : List Text

pub record Policy (N : Type 0) : Type 0 where
  pub egress : EgressPolicy
  pub credential_access : CredentialAccessPolicy
  pub artifact_guard : ArtifactGuardPolicy
  pub governed_runtime : GovernedRuntimePolicy
  pub numeric_ranges : List (NumericRange N)
  pub allowed_tools : Option (List String)
  pub output_schema_required : List String
  pub min_trust_tier : Option String
  pub monitoring : MonitoringPolicy N

-- a field of an output: a number, or anything else
pub data OutputValue (N : Type 0) : Type 0 where
  number : N → OutputValue N
  other : OutputValue N

pub data PolicyViolation : Type 0 where
  tool_not_allowed missing_field missing_numeric_field not_numeric : String → PolicyViolation
  out_of_range : String → PolicyViolation
  lease_query_missing lease_query_mismatch lease_exhausted trust_tier_unknown : PolicyViolation
  trust_tier_unbacked trust_tier_low expires_at_invalid authority_expired : PolicyViolation
  possession_missing grant_unbound capabilities_deny resource_scope_denies : PolicyViolation
  approval_missing budget_not_listed budget_missing monitoring_blocks : PolicyViolation
  path_denied path_not_allowed : Text → PolicyViolation
  ungoverned_tool_call secrets_in_payload : PolicyViolation
  egress_denied credential_denied publication_denied : Text → PolicyViolation

abbrev pub side_effect_value : SideEffectLevel → String
side_effect_value read_only = "read_only"
side_effect_value bounded_write = "bounded_write"
side_effect_value external_side_effect = "external_side_effect"
side_effect_value privileged_mutation = "privileged_mutation"

abbrev pub or_else {ℓ} : {A : Type ℓ} → Option A → A → A
or_else none d = d
or_else (some a) d = a

-- the thresholds to review and to block; an override without a value does not count
unfoldable pub thresholds_for : {N : Type 0} → MonitoringPolicy N → SideEffectLevel → N × Option N
thresholds_for m level = elim (lookup (side_effect_value level) m.thresholds_by_side_effect) [
  | none ↦ (m.review_threshold, m.block_threshold)
  | some t ↦ (
    or_else t.review m.review_threshold,
    elim t.block [ none ↦ m.block_threshold | some b ↦ some b ],
  )
]

unfoldable pub check_tool : {N : Type 0} → Policy N → String → List PolicyViolation
check_tool policy tool_name = elim policy.allowed_tools [
  | none ↦ []
  | some tools ↦ if contains tools tool_name then [] else tool_not_allowed tool_name ∷ []
]

module _ (num : Numbers) where
  open num use {Amount, below}

  unfoldable pub in_range : NumericRange Amount → Amount → Bool
  in_range r n = not (below n r.min || below r.max n)

  unfoldable pub range_violations :
      List (String × OutputValue Amount) → NumericRange Amount → List PolicyViolation
  unfolding in_range
  range_violations output r = elim (lookup r.field output) [
    | none ↦ missing_numeric_field r.field ∷ []
    | some other ↦ not_numeric r.field ∷ []
    | some (number n) ↦ if in_range r n then [] else out_of_range r.field ∷ []
  ]

  unfoldable pub required_violations :
      List (String × OutputValue Amount) → List String → List PolicyViolation
  required_violations output [] = []
  required_violations output (field ∷ fields) =
      let later = required_violations output fields in
      elim (lookup field output) [ some value ↦ later | none ↦ missing_field field ∷ later ]

  unfoldable pub ranges_violations :
      List (String × OutputValue Amount) → List (NumericRange Amount) → List PolicyViolation
  unfolding range_violations
  ranges_violations output [] = []
  ranges_violations output (r ∷ rest) = range_violations output r ++ ranges_violations output rest

  unfoldable pub check_output :
      Policy Amount → List (String × OutputValue Amount) → List PolicyViolation
  unfolding required_violations ranges_violations
  check_output policy output =
      required_violations output policy.output_schema_required
      ++ ranges_violations output policy.numeric_ranges

  -- a signal blocks when its score is not below the threshold
  unfoldable pub monitoring_violations :
      ExecutionContext Amount → Policy Amount → List PolicyViolation
  unfolding thresholds_for
  monitoring_violations ctx policy =
      let scored : Option Amount → List PolicyViolation = λ score. elim score [
        | none ↦ []
        | some s ↦ elim (thresholds_for policy.monitoring ctx.action.side_effect_level).1 [
          | none ↦ []
          | some block ↦ if below s block then [] else monitoring_blocks ∷ []
        ]
      ] in
      if not policy.monitoring.enabled
      then []
      else elim ctx.authorization [ none ↦ [] | some a ↦ scored a.monitoring_score ]
