-- ===== src/Policy/Scopes.antt =====
-- The references and the task scope of an authorization (policy_engine.py), and the tool calls that
-- must come from the gateway (governed_runtime.py).
use clayseal_receipts.Prelude.{
  String, Option, none, some, Bool, true, false, not, ◌&&◌, ◌||◌, List, [], ◌∷◌, ◌++◌, ◌==◌,
  string_eq, text_eq, Text, codes, lower, if◌then◌else◌, is_nil, contains, any_of, starts_with,
  split_at,
}
use clayseal_receipts.Operations.{read_only}
use clayseal_receipts.TaskScope.{TaskScope, truthy, action_path_candidates, raw_path_matches_any}
use clayseal_receipts.Policy.{
  Authorization, ExecutionContext, GovernedRuntimePolicy, PolicyViolation, approval_missing,
  budget_not_listed, budget_missing, path_denied, path_not_allowed, ungoverned_tool_call,
}

-- the dictionary's own approval, or that of its approval part
unfoldable pub authorization_approval_id : {N : Type 0} → Option (Authorization N) → Option String
authorization_approval_id none = none
authorization_approval_id (some a) = elim (truthy a.approval_id) [
  | some id ↦ some id
  | none ↦ truthy a.nested_approval_id
]

abbrev pub authorization_budget_id : {N : Type 0} → Option (Authorization N) → Option String
authorization_budget_id none = none
authorization_budget_id (some a) = truthy a.budget_id

unfoldable pub lists_approval : List String → Option String → Bool
lists_approval refs none = false
lists_approval refs (some id) = contains refs id

-- a path against the scope's lists; one that is denied is not looked up among those allowed
unfoldable pub path_violations : TaskScope → Text → List PolicyViolation
path_violations scope path =
    if not (is_nil scope.denied_paths) && raw_path_matches_any path scope.denied_paths
    then path_denied path ∷ []
    else if not (is_nil scope.allowed_paths) && not (raw_path_matches_any path scope.allowed_paths)
    then path_not_allowed path ∷ []
    else []

unfoldable pub paths_violations : TaskScope → List Text → List PolicyViolation
unfolding path_violations
paths_violations scope [] = []
paths_violations scope (path ∷ paths) = path_violations scope path ++ paths_violations scope paths

module _ {N : Type 0} where
  unfoldable pub authority_ref_violations : ExecutionContext N → List PolicyViolation
  unfolding lists_approval
  authority_ref_violations ctx =
      let a = ctx.authority in
      let budget_id = authorization_budget_id ctx.authorization in
      let read : Bool = elim ctx.action.side_effect_level [ read_only ↦ true | _ ↦ false ] in
      let named : List PolicyViolation = elim budget_id [
        | none ↦ if read then [] else budget_missing ∷ []
        | some id ↦ if contains a.budget_refs id then [] else budget_not_listed ∷ []
      ] in
      (if is_nil a.approval_refs
          || lists_approval a.approval_refs (authorization_approval_id ctx.authorization)
        then []
        else approval_missing ∷ [])
      ++ (if is_nil a.budget_refs then [] else named)

  unfoldable pub task_scope_violations : ExecutionContext N → List PolicyViolation
  unfolding paths_violations
  task_scope_violations ctx =
      let paths = action_path_candidates ctx.action.resource_ref [] in
      elim ctx.authorization [
        | none ↦ []
        | some a ↦ elim a.task_scope [ none ↦ [] | some scope ↦ paths_violations scope paths ]
      ]

abbrev tool_action_markers : List Text
tool_action_markers = codes "mcp." ∷ codes "tool." ∷ codes "tools/" ∷ []

-- `part in text`
abbrev pub contains_text : Text → Text → Bool
contains_text text part = elim (split_at part text) [ none ↦ false | some around ↦ true ]

unfoldable pub is_tool_action : Text → Bool
is_tool_action action_name =
    let lowered = lower action_name in
    any_of (contains_text lowered) tool_action_markers || starts_with (codes "tool_") lowered

unfoldable pub evaluate_governed_tool_call :
    Text → GovernedRuntimePolicy → Option Text → List PolicyViolation
unfolding is_tool_action
evaluate_governed_tool_call action_name policy gateway_token =
    let by_gateway : Bool = elim gateway_token [
      | none ↦ false
      | some token ↦ token == codes "receipted_mcp_gateway"
    ] in
    if not policy.require_gateway && not policy.block_ungoverned_tool_actions
    then []
    else if not (is_tool_action action_name)
    then []
    else if by_gateway
    then []
    else if policy.require_gateway
    then ungoverned_tool_call ∷ []
    else if policy.block_ungoverned_tool_actions
    then ungoverned_tool_call ∷ []
    else []

-- an empty token is none
abbrev pub gateway_token_of : Option Text → Option Text
gateway_token_of none = none
gateway_token_of (some token) = if is_nil token then none else some token

unfoldable pub governed_runtime_violations :
    {N : Type 0} → GovernedRuntimePolicy → ExecutionContext N → List PolicyViolation
unfolding evaluate_governed_tool_call
governed_runtime_violations policy ctx =
    let token : Option Text = elim ctx.authorization [
      | none ↦ none
      | some a ↦ gateway_token_of a.gateway_token
    ] in
    evaluate_governed_tool_call ctx.action.action_name policy token
