-- ===== src/Policy/Gate/Gateway.antt =====
-- A tool call without a violation of the gateway's policy came through it (governed_runtime.py).
use clayseal_receipts.Prelude.{
  ◌≡◌, refl, Option, none, some, Bool, true, false, not, ◌&&◌, ◌||◌, [], ◌∷◌, ◌==◌, text_eq, Text,
  codes, arith, if◌then◌else◌,
}
use clayseal_receipts.Policy.{
  Authorization, ungoverned_tool_call, ExecutionContext, PolicyViolation, GovernedRuntimePolicy,
}
use clayseal_receipts.Policy.Scopes.{
  gateway_token_of, is_tool_action, evaluate_governed_tool_call, governed_runtime_violations,
}

abbrev pub is_gateway : Option Text → Bool
is_gateway none = false
is_gateway (some token) = token == codes "receipted_mcp_gateway"

-- no tool is called, or the policy asks for nothing, or the gateway's token is there
unfoldable pub through_gateway : {N : Type 0} → GovernedRuntimePolicy → ExecutionContext N → Bool
through_gateway policy ctx =
    not (is_tool_action ctx.action.action_name)
    || (not policy.require_gateway && not policy.block_ungoverned_tool_actions)
    || elim ctx.authorization [ none ↦ false | some a ↦ is_gateway a.gateway_token ]

governed_lem :
    (tool by_gateway require block : Bool) (v : PolicyViolation)
    → (if not require && not block
        then []
        else if not tool
        then []
        else if by_gateway
        then []
        else if require
        then v ∷ []
        else if block
        then v ∷ []
        else [])
      ≡ []
    → not tool || (not require && not block) || by_gateway ≡ true
governed_lem false by_gateway require block v h = refl
governed_lem true by_gateway require block v h = ground arith

evaluate_governed_tool_call_lem :
    (name : Text) (policy : GovernedRuntimePolicy) (token : Option Text)
    → evaluate_governed_tool_call name policy token ≡ []
    → not (is_tool_action name)
        || (not policy.require_gateway && not policy.block_ungoverned_tool_actions)
        || is_gateway token
      ≡ true
unfolding evaluate_governed_tool_call
evaluate_governed_tool_call_lem name policy token h =
    governed_lem (is_tool_action name) (is_gateway token) policy.require_gateway
      policy.block_ungoverned_tool_actions ungoverned_tool_call h

is_gateway-gateway_token_of :
    (token : Option Text) → is_gateway (gateway_token_of token) ≡ is_gateway token
is_gateway-gateway_token_of none = refl
is_gateway-gateway_token_of (some []) = refl
is_gateway-gateway_token_of (some (c ∷ cs)) = refl

pub through_gateway_lem :
    {N : Type 0} (policy : GovernedRuntimePolicy) (ctx : ExecutionContext N)
    → governed_runtime_violations policy ctx ≡ []
    → through_gateway policy ctx ≡ true
unfolding governed_runtime_violations through_gateway
through_gateway_lem {N} policy ctx h = by_token ctx.authorization (
    evaluate_governed_tool_call_lem ctx.action.action_name policy
      (elim ctx.authorization [ none ↦ none | some a ↦ gateway_token_of a.gateway_token ]) h)
  where
    by_token :
        (o : Option (Authorization N))
        → not (is_tool_action ctx.action.action_name)
            || (not policy.require_gateway && not policy.block_ungoverned_tool_actions)
            || is_gateway (elim o [ none ↦ none | some a ↦ gateway_token_of a.gateway_token ])
          ≡ true
        → not (is_tool_action ctx.action.action_name)
            || (not policy.require_gateway && not policy.block_ungoverned_tool_actions)
            || elim o [ none ↦ false | some a ↦ is_gateway a.gateway_token ]
          ≡ true
    by_token none e = e
    by_token (some a) e = rw (← is_gateway-gateway_token_of a.gateway_token) e
