-- ===== src/Policy/Decisions.antt =====
-- What an action that the default engine lets run keeps to (policy_engine.py, policy.py).
use clayseal_receipts.Prelude.{
  ℕ, String, ◌≡◌, refl, sym, ap, ◌∙◌, Option, none, some, some-inj, Bool, true, false, not, ◌||◌,
  List, [], ◌∷◌, ◌++◌, map, string_eq, Text, arith, all_of, is_nil, lookup, nil_of_append,
  Option-cases, inl, inr,
}
use clayseal_receipts.Decision.{
  DecisionResult, can_execute, allows, requires_approval, requires_step_up,
  requires_budget_reservation, blocking_obligations,
}
use clayseal_receipts.Mandate.{Numbers}
use clayseal_receipts.TaskScope.{action_path_candidates, task_scope_allows_path}
use clayseal_receipts.Policy.{
  ExecutionContext, Policy, PolicyViolation, NumericRange, OutputValue, number, other, in_range,
  range_violations, required_violations, ranges_violations, check_output, monitoring_violations,
  thresholds_for,
}
use clayseal_receipts.Policy.Scopes.{task_scope_violations}
use clayseal_receipts.Policy.Engine.{
  authority_violations, context_violations, decided, default_outcome, evaluate,
}
use clayseal_receipts.Policy.Laws.{
  IsAuthorized, authority_violations-IsAuthorized, paths_violations_lem,
}

-- every path of the action is one that its task scope, where it has one, allows
unfoldable pub within_task_scope : {N : Type 0} → ExecutionContext N → Bool
within_task_scope ctx = elim ctx.authorization [
  | none ↦ true
  | some a ↦ elim a.task_scope [
    | none ↦ true
    | some scope ↦
        all_of (task_scope_allows_path scope) (action_path_candidates ctx.action.resource_ref [])
  ]
]

pub within_task_scope_lem :
    {N : Type 0} (ctx : ExecutionContext N)
    → task_scope_violations ctx ≡ []
    → within_task_scope ctx ≡ true
unfolding task_scope_violations within_task_scope
within_task_scope_lem ctx h = elim (Option-cases ctx.authorization) [
  | inl e ↦ ground arith
  | inr (a, e) ↦ elim (Option-cases a.task_scope) [
    | inl e' ↦ ground arith
    | inr (scope, e') ↦
        ground
          (arith, paths_violations_lem scope (action_path_candidates ctx.action.resource_ref []))
  ]
]

map-nil :
    (message : PolicyViolation → String) (xs : List PolicyViolation) → map message xs ≡ [] → xs ≡ []
map-nil message [] h = refl
map-nil message (x ∷ xs) h = cc

nil_of_is_nil : (xs : List String) → is_nil xs ≡ true → xs ≡ []
nil_of_is_nil [] h = refl
nil_of_is_nil (x ∷ xs) h = cc

module _ (num : Numbers) where
  open num use {Amount, below}

  -- a field that is a number of the range
  unfoldable pub range_holds : List (String × OutputValue Amount) → NumericRange Amount → Bool
  range_holds output r = elim (lookup r.field output) [
    | none ↦ false
    | some other ↦ false
    | some (number n) ↦ in_range num r n
  ]

  abbrev pub has_field : List (String × OutputValue Amount) → String → Bool
  has_field output field = elim (lookup field output) [ none ↦ false | some value ↦ true ]

  required_violations_lem :
      (output : List (String × OutputValue Amount)) (fields : List String)
      → required_violations num output fields ≡ []
      → all_of (has_field output) fields ≡ true
  unfolding required_violations
  required_violations_lem output [] h = refl
  required_violations_lem output (field ∷ fields) h = elim (Option-cases (lookup field output)) [
    | inl e ↦ absurd (ground arith)
    | inr (value, e) ↦ ground (arith, required_violations_lem output fields)
  ]

  range_violations_lem :
      (output : List (String × OutputValue Amount)) (r : NumericRange Amount)
      → range_violations num output r ≡ []
      → range_holds output r ≡ true
  unfolding range_violations range_holds
  range_violations_lem output r h = elim (Option-cases (lookup r.field output)) [
    | inl e ↦ absurd (ground arith)
    | inr (other, e) ↦ absurd (ground arith)
    | inr (number n, e) ↦ ground arith
  ]

  ranges_violations_lem :
      (output : List (String × OutputValue Amount)) (rs : List (NumericRange Amount))
      → ranges_violations num output rs ≡ []
      → all_of (range_holds output) rs ≡ true
  unfolding ranges_violations
  ranges_violations_lem output [] h = refl
  ranges_violations_lem output (r ∷ rs) h =
      let (here, later) =
        nil_of_append (range_violations num output r) (ranges_violations num output rs) h in
      ground (arith, range_violations_lem output r here, ranges_violations_lem output rs later)

  check_output_lem :
      (policy : Policy Amount) (output : List (String × OutputValue Amount))
      → check_output num policy output ≡ []
      → (all_of (has_field output) policy.output_schema_required ≡ true)
        × (all_of (range_holds output) policy.numeric_ranges ≡ true)
  unfolding check_output
  check_output_lem policy output h =
      let (there, within) =
        nil_of_append (required_violations num output policy.output_schema_required)
          (ranges_violations num output policy.numeric_ranges) h in
      (
        required_violations_lem output policy.output_schema_required there,
        ranges_violations_lem output policy.numeric_ranges within,
      )

  -- a monitoring score, where there is one, is below the threshold to block
  unfoldable pub below_block : ExecutionContext Amount → Policy Amount → Bool
  below_block ctx policy =
      let scored : Option Amount → Bool = λ score. elim score [
        | none ↦ true
        | some s ↦ elim (thresholds_for policy.monitoring ctx.action.side_effect_level).1 [
          | none ↦ true
          | some block ↦ below s block
        ]
      ] in
      not policy.monitoring.enabled
      || elim ctx.authorization [ none ↦ true | some a ↦ scored a.monitoring_score ]

  pub below_block_lem :
      (ctx : ExecutionContext Amount) (policy : Policy Amount)
      → monitoring_violations num ctx policy ≡ []
      → below_block ctx policy ≡ true
  unfolding monitoring_violations below_block
  below_block_lem ctx policy h = elim (Option-cases ctx.authorization) [
    | inl e ↦ ground arith
    | inr (a, e) ↦ elim (Option-cases a.monitoring_score) [
      | inl e' ↦ ground arith
      | inr (s, e') ↦
          elim (Option-cases (thresholds_for policy.monitoring ctx.action.side_effect_level).1) [
            | inl e'' ↦ ground arith
            | inr (block, e'') ↦ ground arith
          ]
    ]
  ]

  -- what a decision that lets an action run says of the action, its context and its output
  pub record IsCleared (from_iso : Text → Option ℕ) (now : ℕ) (policy : Policy Amount)
      (output : List (String × OutputValue Amount)) (ctx : ExecutionContext Amount) : Type 0 where
    pub authorized : IsAuthorized from_iso now ctx policy
    pub in_task_scope : within_task_scope ctx ≡ true
    pub unblocked : below_block ctx policy ≡ true
    pub fields_there : all_of (has_field output) policy.output_schema_required ≡ true
    pub in_ranges : all_of (range_holds output) policy.numeric_ranges ≡ true

  cleared :
      (from_iso : Text → Option ℕ) (now : ℕ) (policy : Policy Amount)
      (output : List (String × OutputValue Amount)) (ctx : ExecutionContext Amount)
      (issues : List PolicyViolation)
      → authority_violations from_iso now ctx policy ≡ some issues
      → (issues ++ (task_scope_violations ctx ++ monitoring_violations num ctx policy))
          ++ check_output num policy output
        ≡ []
      → IsCleared from_iso now policy output ctx
  cleared from_iso now policy output ctx issues e h =
      let (found, wrong) =
        nil_of_append
          (issues ++ (task_scope_violations ctx ++ monitoring_violations num ctx policy))
          (check_output num policy output) h in
      let (none_found, rest) =
        nil_of_append issues (task_scope_violations ctx ++ monitoring_violations num ctx policy)
          found in
      let (scoped, monitored) =
        nil_of_append (task_scope_violations ctx) (monitoring_violations num ctx policy) rest in
      let (there, within) = check_output_lem policy output wrong in
      record {
        authorized =
            authority_violations-IsAuthorized from_iso now ctx policy (e ∙ ap some none_found);
        in_task_scope = within_task_scope_lem ctx scoped;
        unblocked = below_block_lem ctx policy monitored;
        fields_there = there;
        in_ranges = within;
      }

  module _ (from_iso : Text → Option ℕ) (now : ℕ) (message : PolicyViolation → String)
      (D : Type 0) where
    can_execute-decided :
        (context : Option (ExecutionContext Amount)) (violations : List String)
        → can_execute (decided num from_iso now message D context violations) ≡ is_nil violations
    unfolding decided default_outcome can_execute allows requires_approval requires_step_up
        requires_budget_reservation blocking_obligations
    can_execute-decided context [] = refl
    can_execute-decided context (v ∷ vs) = refl

    -- If the engine decides on an action with a context and the decision lets it run, then there was
    -- no other violation, the authority is one that authorizes the action, its paths are in the task
    -- scope, its monitoring score does not block it, and its output has the required fields and
    -- numbers within the policy's ranges.
    pub evaluate-IsCleared :
        (policy : Policy Amount) (output : List (String × OutputValue Amount))
        (ctx : ExecutionContext Amount) (extra : List String) (d : DecisionResult D Amount)
        → evaluate num from_iso now message D policy output (some ctx) extra ≡ some d
        → can_execute d ≡ true
        → (extra ≡ []) × IsCleared from_iso now policy output ctx
    unfolding evaluate context_violations
    evaluate-IsCleared policy output ctx extra d h runs =
        elim (Option-cases (authority_violations from_iso now ctx policy)) [
          | inl e ↦ absurd (ground arith)
          | inr (issues, e) ↦
              let found =
                (issues ++ (task_scope_violations ctx ++ monitoring_violations num ctx policy))
                ++ check_output num policy output in
              let made : decided num from_iso now message D (some ctx) (extra ++ map message found)
                  ≡ d =
                some-inj (ground arith) in
              let (alone, nothing) = nil_of_append extra (map message found) (
                nil_of_is_nil (extra ++ map message found) (
                  sym (can_execute-decided (some ctx) (extra ++ map message found))
                  ∙ ap can_execute made
                  ∙ runs)) in
              (
                alone,
                cleared from_iso now policy output ctx issues e (map-nil message found nothing),
              )
        ]
