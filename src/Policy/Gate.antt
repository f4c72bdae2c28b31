-- ===== src/Policy/Gate.antt =====
-- What is checked before and after the side effects of an action (policy_engine.py). The notes that
-- the guards leave in the authorization are not modelled.
pub mod Gateway
pub mod Laws
use clayseal_receipts.Prelude.{
  ℕ, String, Option, none, some, Bool, true, false, not, ◌&&◌, ◌||◌, List, [], ◌∷◌, ◌++◌, Text,
  if◌then◌else◌, is_nil,
}
use clayseal_receipts.Operations.{ActionDescriptor, after_last}
use clayseal_receipts.Mandate.{Numbers}
use clayseal_receipts.Policy.{
  Fields, AuthorityContext, ExecutionContext, Policy, PolicyViolation, monitoring_violations,
}
use clayseal_receipts.Policy.Scopes.{task_scope_violations, governed_runtime_violations}
use clayseal_receipts.Policy.Engine.{authority_violations}
use clayseal_receipts.Policy.Egress.{Url, evaluate_egress}
use clayseal_receipts.Policy.Credentials.{evaluate_credential_access}
use clayseal_receipts.Policy.Artifacts.{evaluate_artifact_publication}

module _ {N : Type 0} where
  abbrev pub tool_name_of : ExecutionContext N → Text
  tool_name_of ctx = after_last b'/' ctx.action.action_name

  -- an authority without a resource scope takes the one that was compiled
  unfoldable pub with_compiled_scope : List Text → ExecutionContext N → ExecutionContext N
  with_compiled_scope compiled ctx =
      if not (is_nil compiled) && is_nil ctx.authority.resource_scope
      then record ctx { authority = record ctx.authority { resource_scope = compiled } }
      else ctx

  -- `none` is an URL that raises
  unfoldable pub egress_violations :
      (Text → Option Url)
      → (Fields → String)
      → ExecutionContext N
      → Policy N
      → Option (List PolicyViolation)
  egress_violations urlparse hash_arguments ctx policy =
      let checked : Option (List PolicyViolation) =
        elim (evaluate_egress urlparse hash_arguments (tool_name_of ctx) ctx.input policy.egress
          ctx.authority) [ none ↦ none | some (violations, attestation) ↦ some violations ] in
      if policy.egress.enabled then checked else some []

  unfoldable pub credential_access_violations : ExecutionContext N → Policy N → List PolicyViolation
  credential_access_violations ctx policy =
      if not policy.credential_access.enabled
      then []
      else (evaluate_credential_access (tool_name_of ctx) ctx.input policy.credential_access
          ctx.authority none).0

  unfoldable pub artifact_guard_violations :
      (Text → ℕ) → ExecutionContext N → Policy N → List PolicyViolation
  artifact_guard_violations secrets ctx policy =
      if not policy.artifact_guard.enabled
      then []
      else evaluate_artifact_publication secrets (tool_name_of ctx) ctx.input policy.artifact_guard
          ctx.authority none

  -- with the text of the output, where there is one
  unfoldable pub artifact_payload_violations :
      (Text → ℕ) → ExecutionContext N → Policy N → Option Text → List PolicyViolation
  artifact_payload_violations secrets ctx policy payload =
      if not policy.artifact_guard.enabled
      then []
      else if not policy.artifact_guard.deny_secret_in_artifacts
      then []
      else evaluate_artifact_publication secrets (tool_name_of ctx) ctx.input policy.artifact_guard
          ctx.authority payload

  pub post_execution_violations :
      (Text → ℕ) → ExecutionContext N → Policy N → Option Text → List PolicyViolation
  unfolding artifact_payload_violations
  post_execution_violations secrets ctx policy payload =
      artifact_payload_violations secrets ctx policy payload

-- what the checks use of other code
pub record Services : Type 0 where
  pub from_iso : Text → Option ℕ
  pub urlparse : Text → Option Url
  pub hash_arguments : Fields → String
  pub secrets : Text → ℕ

module _ (num : Numbers) (services : Services) (now : ℕ) where
  open num use {Amount}
  open services use {from_iso, urlparse, hash_arguments, secrets}

  unfoldable pub violations_of :
      ExecutionContext Amount → Policy Amount → Option (List PolicyViolation)
  unfolding egress_violations credential_access_violations artifact_guard_violations
  violations_of ctx policy = elim (authority_violations from_iso now ctx policy) [
    | none ↦ none
    | some authority ↦ elim (egress_violations urlparse hash_arguments ctx policy) [
      | none ↦ none
      | some egress ↦ some (
          authority
          ++ (task_scope_violations ctx
              ++ (governed_runtime_violations policy.governed_runtime ctx
                  ++ (monitoring_violations num ctx policy
                      ++ (egress
                          ++ (credential_access_violations ctx policy
                              ++ artifact_guard_violations secrets ctx policy))))))
    ]
  ]

  -- the violations, for the authority with the compiled scope; `none` is a `ValueError`
  unfoldable pub pre_execution_violations :
      ExecutionContext Amount → Policy Amount → List Text → Option (List PolicyViolation)
  unfolding with_compiled_scope violations_of
  pre_execution_violations ctx policy compiled =
      violations_of (with_compiled_scope compiled ctx) policy
