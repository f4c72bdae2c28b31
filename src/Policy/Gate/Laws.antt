-- ===== src/Policy/Gate/Laws.antt =====
-- What an action that passes the gate keeps to (policy_engine.py).
use clayseal_receipts.Prelude.{
  ℕ, ◌≡◌, ap, ◌∙◌, none, some, some-inj, true, not, ◌&&◌, List, [], ◌++◌, text_eq, Text, arith,
  is_nil, nil_of_append, Bool-cases, Option-cases, inl, inr, strip,
}
use clayseal_receipts.Mandate.{Numbers}
use clayseal_receipts.Policy.{
  text, ExecutionContext, Policy, PolicyViolation, monitoring_violations,
}
use clayseal_receipts.Policy.Scopes.{task_scope_violations, governed_runtime_violations}
use clayseal_receipts.Policy.Engine.{authority_violations}
use clayseal_receipts.Policy.Laws.{IsAuthorized, authority_violations-IsAuthorized}
use clayseal_receipts.Policy.Decisions.{
  within_task_scope, within_task_scope_lem, below_block, below_block_lem,
}
use clayseal_receipts.Policy.Hosts.{host_allowed}
use clayseal_receipts.Policy.Arguments.{get}
use clayseal_receipts.Policy.Egress.{NetworkDestination, evaluate_egress}
use clayseal_receipts.Policy.Egress.Destinations.{HasUrl, evaluate_egress-host_allowed}
use clayseal_receipts.Policy.Credentials.{path_allowed}
use clayseal_receipts.Policy.Credentials.Paths.{
  is_path_argument, evaluate_credential_access-path_allowed,
}
use clayseal_receipts.Policy.Gate.Gateway.{through_gateway, through_gateway_lem}
use clayseal_receipts.Policy.Gate.{
  Services, tool_name_of, with_compiled_scope, egress_violations, credential_access_violations,
  artifact_guard_violations, violations_of, pre_execution_violations,
}

module _ (num : Numbers) (services : Services) (now : ℕ) where
  open num use {Amount}
  open services use {from_iso, urlparse, hash_arguments, secrets}

  -- what an action keeps to before its side effects
  pub record IsGated (ctx : ExecutionContext Amount) (policy : Policy Amount) : Type 0 where
    pub authorized : IsAuthorized from_iso now ctx policy
    pub in_task_scope : within_task_scope ctx ≡ true
    pub gateway : through_gateway policy.governed_runtime ctx ≡ true
    pub unblocked : below_block num ctx policy ≡ true

  violations_of-IsGated :
      (ctx : ExecutionContext Amount) (policy : Policy Amount)
      → violations_of num services now ctx policy ≡ some []
      → IsGated ctx policy
        × (egress_violations urlparse hash_arguments ctx policy ≡ some [])
        × (credential_access_violations ctx policy ≡ [])
        × (artifact_guard_violations secrets ctx policy ≡ [])
  unfolding violations_of
  violations_of-IsGated ctx policy h =
      elim (Option-cases (authority_violations from_iso now ctx policy)) [
        | inl e ↦ absurd (ground arith)
        | inr (authority, e) ↦
            elim (Option-cases (egress_violations urlparse hash_arguments ctx policy)) [
              | inl e' ↦ absurd (ground arith)
              | inr (egress, e') ↦
                  let (a, rest₁) = nil_of_append authority _ (parts authority egress e e') in
                  let (t, rest₂) = nil_of_append (task_scope_violations ctx) _ rest₁ in
                  let (g, rest₃) =
                    nil_of_append (governed_runtime_violations policy.governed_runtime ctx) _
                      rest₂ in
                  let (m, rest₄) = nil_of_append (monitoring_violations num ctx policy) _ rest₃ in
                  let (n, rest₅) = nil_of_append egress _ rest₄ in
                  let (c, p) =
                    nil_of_append (credential_access_violations ctx policy)
                      (artifact_guard_violations secrets ctx policy) rest₅ in
                  (
                    record {
                      authorized =
                          authority_violations-IsAuthorized from_iso now ctx policy (e ∙ ap some a);
                      in_task_scope = within_task_scope_lem ctx t;
                      gateway = through_gateway_lem policy.governed_runtime ctx g;
                      unblocked = below_block_lem num ctx policy m;
                    },
                    e' ∙ ap some n,
                    c,
                    p,
                  )
            ]
      ]
    where
      parts :
          (authority egress : List PolicyViolation)
          → authority_violations from_iso now ctx policy ≡ some authority
          → egress_violations urlparse hash_arguments ctx policy ≡ some egress
          → authority
              ++ (task_scope_violations ctx
                  ++ (governed_runtime_violations policy.governed_runtime ctx
                      ++ (monitoring_violations num ctx policy
                          ++ (egress
                              ++ (credential_access_violations ctx policy
                                  ++ artifact_guard_violations secrets ctx policy)))))
            ≡ []
      parts authority egress e e' = ground arith

  egress_violations-host_allowed :
      (ctx : ExecutionContext Amount) (policy : Policy Amount) (key raw : Text)
      (dest : NetworkDestination)
      → policy.egress.enabled ≡ true
      → HasUrl urlparse ctx.input key raw dest
      → egress_violations urlparse hash_arguments ctx policy ≡ some []
      → host_allowed policy.egress ctx.authority (tool_name_of ctx) dest.host ≡ true
  unfolding egress_violations
  egress_violations-host_allowed ctx policy key raw dest on u e =
      elim (Option-cases (
        evaluate_egress urlparse hash_arguments (tool_name_of ctx) ctx.input policy.egress
          ctx.authority)) [
            | inl e' ↦ absurd (ground arith)
            | inr ((violations, attestation), e') ↦
                let nothing : violations ≡ [] = some-inj (ground arith) in
                evaluate_egress-host_allowed urlparse hash_arguments (tool_name_of ctx) ctx.input
                  policy.egress ctx.authority key raw dest attestation on u
                  (e' ∙ ap (λ vs. some (vs, attestation)) nothing)
          ]

  credential_access_violations-path_allowed :
      (ctx : ExecutionContext Amount) (policy : Policy Amount) (key raw : Text)
      → policy.credential_access.enabled ≡ true
      → get key ctx.input ≡ some (text raw)
      → is_path_argument key raw ≡ true
      → credential_access_violations ctx policy ≡ []
      → path_allowed policy.credential_access ctx.authority (strip raw) ≡ true
  unfolding credential_access_violations
  credential_access_violations-path_allowed ctx policy key raw on given looks e =
      evaluate_credential_access-path_allowed (tool_name_of ctx) ctx.input policy.credential_access
        ctx.authority none key raw on given looks (ground arith)

  -- If the gate finds no violation, then with the resource scope that was compiled the authority
  -- is one that authorizes the action, its paths are in the task scope, a tool is called through the
  -- gateway where the policy asks for it, and its monitoring score does not block it.
  pub pre_execution_violations-IsGated :
      (ctx : ExecutionContext Amount) (policy : Policy Amount) (compiled : List Text)
      → pre_execution_violations num services now ctx policy compiled ≡ some []
      → IsGated (with_compiled_scope compiled ctx) policy
  unfolding pre_execution_violations
  pre_execution_violations-IsGated ctx policy compiled h =
      (violations_of-IsGated (with_compiled_scope compiled ctx) policy h).0

  with_compiled_scope_input :
      (ctx : ExecutionContext Amount) (compiled : List Text)
      → (with_compiled_scope compiled ctx).input ≡ ctx.input
  unfolding with_compiled_scope
  with_compiled_scope_input ctx compiled =
      elim (Bool-cases (not (is_nil compiled) && is_nil ctx.authority.resource_scope)) [
        | inl q ↦ rw q
        | inr q ↦ rw q
      ]

  -- If the policy checks egress and the gate finds no violation, then the host of a URL in one of
  -- the URL arguments of the call is allowed, for the authority with the compiled scope.
  pub pre_execution_violations-host_allowed :
      (ctx : ExecutionContext Amount) (policy : Policy Amount) (compiled : List Text)
      (key raw : Text) (dest : NetworkDestination)
      → policy.egress.enabled ≡ true
      → HasUrl urlparse ctx.input key raw dest
      → pre_execution_violations num services now ctx policy compiled ≡ some []
      → (let gated = with_compiled_scope compiled ctx in
          host_allowed policy.egress gated.authority (tool_name_of gated) dest.host)
        ≡ true
  unfolding pre_execution_violations
  pre_execution_violations-host_allowed ctx policy compiled key raw dest on u h =
      egress_violations-host_allowed (with_compiled_scope compiled ctx) policy key raw dest on
        (rw (with_compiled_scope_input ctx compiled) u)
        (violations_of-IsGated (with_compiled_scope compiled ctx) policy h).1

  -- If the policy checks credential access and the gate finds no violation, then a text argument of
  -- the call that is looked at as a path is allowed, for the authority with the compiled scope.
  pub pre_execution_violations-path_allowed :
      (ctx : ExecutionContext Amount) (policy : Policy Amount) (compiled : List Text)
      (key raw : Text)
      → policy.credential_access.enabled ≡ true
      → get key ctx.input ≡ some (text raw)
      → is_path_argument key raw ≡ true
      → pre_execution_violations num services now ctx policy compiled ≡ some []
      → path_allowed policy.credential_access
          (with_compiled_scope compiled ctx).authority
          (strip raw)
        ≡ true
  unfolding pre_execution_violations
  pre_execution_violations-path_allowed ctx policy compiled key raw on given looks h =
      credential_access_violations-path_allowed (with_compiled_scope compiled ctx) policy key raw on
        (rw (with_compiled_scope_input ctx compiled) given) looks
        (violations_of-IsGated (with_compiled_scope compiled ctx) policy h).2
