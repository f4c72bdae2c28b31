-- ===== src/Decision/Budgets.antt =====
-- Budget effects are grouped by budget and have one kind each (decision.py).
use clayseal_receipts.Prelude.{
  String, ◌≡◌, refl, ◌∙◌, Option, none, some, true, false, not, List, [], ◌∷◌, ◌++◌, ◌==◌,
  string_eq, Text, text_eq, text_beq_iff, strip, lower, keep, contains, all_of, is_nil, lookup,
  arith, eq_iff, Option-cases, Bool-cases, inl, inr, if◌then◌else◌,
}
use clayseal_receipts.Decision.{
  BudgetEffect, BudgetEffectSummary, DecisionResult, add_effect, add_effects,
  summarize_budget_effects, budget_effects_for, is_pending, is_final, is_reservation,
  is_consumption, is_release, pending_statuses, final_statuses, reservation_types,
  consumption_types, release_types,
}

-- a member of the one list is no member of the other
disjoint_lem :
    (xs ys : List Text) (t : Text)
    → all_of (λ x. not (contains ys x)) xs ≡ true
    → contains xs t ≡ true
    → contains ys t ≡ false
disjoint_lem [] ys t apart h = cc
disjoint_lem (x ∷ xs) ys t apart h = elim (Bool-cases (x == t)) [
  | inl q ↦ ground (arith, text_beq_iff x t)
  | inr q ↦ disjoint_lem xs ys t (ground arith) (ground arith)
]

module _ {N : Type 0} where
  -- what a dictionary of summaries holds for a budget after more effects of it
  abbrev grown :
      String
      → Option (BudgetEffectSummary N)
      → List (BudgetEffect N)
      → Option (BudgetEffectSummary N)
  grown id none [] = none
  grown id none (e ∷ es) = some (record { budget_id = id; effects = e ∷ es })
  grown id (some s) es = some (record s { effects = s.effects ++ es })

  abbrev of_budget : String → List (BudgetEffect N) → List (BudgetEffect N)
  of_budget id es = keep (λ (e : BudgetEffect N). e.budget_id == id) es

  append_nil : (xs : List (BudgetEffect N)) → xs ++ [] ≡ xs
  append_nil [] = refl
  append_nil (x ∷ xs) = cc (append_nil xs)

  grown_nil : (id : String) (o : Option (BudgetEffectSummary N)) → grown id o [] ≡ o
  grown_nil id none = refl
  grown_nil id (some s) = ground (arith, append_nil s.effects)

  lookup-add_effect :
      (id : String) (e : BudgetEffect N) (m : List (String × BudgetEffectSummary N))
      → lookup id (add_effect e m) ≡ grown id (lookup id m) (of_budget id (e ∷ []))
  unfolding add_effect
  lookup-add_effect id e [] = ground (arith, eq_iff e.budget_id id)
  lookup-add_effect id e ((j, s) ∷ m) = elim (Bool-cases (j == e.budget_id)) [
    | inl q ↦ ground (
      arith,
      append_nil s.effects,
      eq_iff e.budget_id id,
      eq_iff j id,
      eq_iff j e.budget_id,
      grown_nil id (lookup id m),
    )
    | inr q ↦ ground (
      arith,
      lookup-add_effect id e m,
      eq_iff e.budget_id id,
      eq_iff j id,
      append_nil s.effects,
      grown_nil id (lookup id m),
    )
  ]

  append_assoc : (xs ys zs : List (BudgetEffect N)) → (xs ++ ys) ++ zs ≡ xs ++ (ys ++ zs)
  append_assoc [] ys zs = refl
  append_assoc (x ∷ xs) ys zs = cc (append_assoc xs ys zs)

  grown-grown :
      (id : String) (o : Option (BudgetEffectSummary N)) (e : BudgetEffect N)
      (es : List (BudgetEffect N))
      → grown id (grown id o (of_budget id (e ∷ []))) (of_budget id es)
        ≡ grown id o (of_budget id (e ∷ es))
  grown-grown id none e es = ground (arith, eq_iff e.budget_id id)
  grown-grown id (some s) e es =
      ground (arith, append_assoc s.effects (e ∷ []) (of_budget id es), append_nil s.effects)

  lookup-add_effects :
      (id : String) (es : List (BudgetEffect N)) (m : List (String × BudgetEffectSummary N))
      → lookup id (add_effects m es) ≡ grown id (lookup id m) (of_budget id es)
  unfolding add_effects
  lookup-add_effects id [] m = elim (Option-cases (lookup id m)) [
    | inl q ↦ ground arith
    | inr (s, q) ↦ ground (arith, append_nil s.effects)
  ]
  lookup-add_effects id (e ∷ es) m =
      lookup-add_effects id es (add_effect e m)
      ∙ (rw (lookup-add_effect id e m) (grown-grown id (lookup id m) e es))

  -- The summary of a budget holds exactly the effects of that budget, in their order, and a budget
  -- without effects has no summary.
  pub lookup-summarize_budget_effects :
      {D : Type 0}
      → (d : DecisionResult D N) (budget_id : String)
      → lookup budget_id (summarize_budget_effects d) ≡ (
          if is_nil (budget_effects_for d budget_id)
          then none
          else some (record { budget_id = budget_id; effects = budget_effects_for d budget_id }))
  unfolding summarize_budget_effects budget_effects_for
  lookup-summarize_budget_effects d budget_id =
      lookup-add_effects budget_id d.budget_effects []
      ∙ nothing_before (of_budget budget_id d.budget_effects)
    where
      nothing_before :
          (es : List (BudgetEffect N))
          → grown budget_id none es
            ≡ (if is_nil es then none else some (record { budget_id = budget_id; effects = es }))
      nothing_before [] = refl
      nothing_before (e ∷ es) = refl

  -- An effect is never both pending and final, nor two of a reservation, a consumption and a
  -- release.
  pub effect_kinds_disjoint :
      (e : BudgetEffect N)
      → (is_pending e ≡ true → is_final e ≡ false)
        × (is_reservation e ≡ true → is_consumption e ≡ false)
        × (is_reservation e ≡ true → is_release e ≡ false)
        × (is_consumption e ≡ true → is_release e ≡ false)
  unfolding is_pending is_final is_reservation is_consumption is_release
  effect_kinds_disjoint e =
      let kind = lower (strip e.effect_type) in
      (
        disjoint_lem pending_statuses final_statuses (lower (strip e.status)) refl,
        disjoint_lem reservation_types consumption_types kind refl,
        disjoint_lem reservation_types release_types kind refl,
        disjoint_lem consumption_types release_types kind refl,
      )
