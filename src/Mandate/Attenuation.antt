-- ===== src/Mandate/Attenuation.antt =====
-- What a mandate keeps of its parent's bounds (mandate.py).
use clayseal_receipts.Prelude.{
  ap, any_of, ◌==◌, ℕ, String, Text, Option, ◌≡◌, refl, none, some, Bool, true, false, ◌||◌, List,
  [], ◌∷◌, ◌++◌, nil_of_append, passed, arith, ltb, Option-cases, Bool-cases, inl, inr, ◌⊎◌,
  if◌then◌else◌, ◌!=◌, string_eq, option_eq, option_beq_iff, eq_iff, contains, is_nil, text_eq,
  text_beq_iff,
}
use clayseal_receipts.Operations.{ActionDescriptor}
use clayseal_receipts.Mandate.{
  Numbers, CapabilityBudget, Mandate, MandateViolation, actions_exceed_parent,
  resources_exceed_parent, parent_delegate_mismatch, parent_grant_mismatch, issued_before_parent,
  expires_after_parent,
}
use clayseal_receipts.Mandate.Receipts.{
  mandate_is_valid_at, action_matches, resource_matches, candidate_in,
}
use clayseal_receipts.Mandate.Parents.{
  mandate_scope_subset, extra_scope, present, parent_limit, mandate_budget_subset, is_delegate,
  attenuation_issues,
}

-- a test that adds an element where it holds, before others
failed_not :
    {A : Type 0}
    → (test : Bool) (issue : A) (rest : List A) → (if test then issue ∷ [] else []) ++ rest ≡ []
    → (test ≡ false) × (rest ≡ [])
failed_not true issue rest h = cc
failed_not false issue rest h = (refl, h)

-- A list that is not empty and stays within the parent's lists nothing that the parent does not.
extra_scope_lem :
    (child parent : List Text) (item : Text)
    → extra_scope child parent ≡ []
    → contains child item ≡ true
    → contains parent item ≡ true
unfolding extra_scope
extra_scope_lem [] parent item h listed = cc
extra_scope_lem (x ∷ child) parent item h listed = elim (Bool-cases (contains parent x)) [
  | inr q ↦ absurd (ground arith)
  | inl q ↦ elim (Bool-cases (contains child item)) [
    | inl r ↦ extra_scope_lem child parent item (ground arith) r
    | inr r ↦ ground (arith, text_beq_iff x item)
  ]
]

-- If no excess of a mandate's scope list over its parent's is found, the parent's lists every item
-- that the mandate's does, or is empty.
mandate_scope_subset_sound :
    (child parent : List Text) (label : List Text → MandateViolation) (item : Text)
    → mandate_scope_subset child parent label ≡ []
    → contains child item ≡ true
    → (is_nil parent ≡ true) ⊎ (contains parent item ≡ true)
unfolding mandate_scope_subset
mandate_scope_subset_sound child parent label item h listed = elim (Bool-cases (is_nil parent)) [
  | inl q ↦ inl q
  | inr q ↦ inr (
      extra_scope_lem child parent item (no_extra (extra_scope child parent) (ground arith)) listed)
]
  where
    no_extra : (xs : List Text) → (if is_nil xs then [] else label xs ∷ []) ≡ [] → xs ≡ []
    no_extra [] e = refl
    no_extra (x ∷ xs) e = cc

-- A list that is not empty lets no action match that the parent's does not.
action_matches-subset :
    (child parent : List Text) (label : List Text → MandateViolation)
    → mandate_scope_subset child parent label ≡ []
    → is_nil child ≡ false
    → (action : ActionDescriptor) → action_matches child action ≡ true
    → action_matches parent action ≡ true
unfolding action_matches
action_matches-subset child parent label h some_scope action matches =
    ground (arith, mandate_scope_subset_sound child parent label action.action_name h)

candidate_in-subset :
    (child parent : List Text) (label : List Text → MandateViolation) (item : Option Text)
    → mandate_scope_subset child parent label ≡ []
    → candidate_in child item ≡ true
    → (is_nil parent || candidate_in parent item) ≡ true
candidate_in-subset child parent label none h named = cc
candidate_in-subset child parent label (some item) h named =
    ground (arith, mandate_scope_subset_sound child parent label item h)

resource_matches-subset :
    (child parent : List Text) (label : List Text → MandateViolation)
    → mandate_scope_subset child parent label ≡ []
    → is_nil child ≡ false
    → (action : ActionDescriptor) → resource_matches child action ≡ true
    → resource_matches parent action ≡ true
unfolding resource_matches
resource_matches-subset child parent label h some_scope action matches = ground (
  arith,
  candidate_in-subset child parent label action.resource_ref h,
  candidate_in-subset child parent label action.resource_type h,
  candidate_in-subset child parent label (some action.action_name) h,
)

module _ (num : Numbers) where
  open num use {Amount, below}

  -- the parent's last budget of that name has a limit that is not below
  abbrev pub HasLimit : List (CapabilityBudget Amount) → CapabilityBudget Amount → Type 0
  HasLimit parent b =
      (earlier : List (CapabilityBudget Amount)) × (p : CapabilityBudget Amount) × (later : List
        (CapabilityBudget Amount))
      × (parent ≡ earlier ++ p ∷ later)
      × (p.budget_id ≡ b.budget_id)
      × (any_of (λ (q : CapabilityBudget Amount). q.budget_id == b.budget_id) later ≡ false)
      × (below p.limit b.limit ≡ false)

  abbrev pub AllHaveLimits :
      List (CapabilityBudget Amount) → List (CapabilityBudget Amount) → Type 0
  AllHaveLimits parent [] = Unit
  AllHaveLimits parent (b ∷ rest) = HasLimit parent b × AllHaveLimits parent rest

  parent_limit-none :
      (parent : List (CapabilityBudget Amount)) (id : String)
      → parent_limit num parent id ≡ none
      → any_of (λ (q : CapabilityBudget Amount). q.budget_id == id) parent ≡ false
  unfolding parent_limit
  parent_limit-none [] id h = refl
  parent_limit-none (p ∷ rest) id h = elim (Option-cases (parent_limit num rest id)) [
    | inl e ↦ ground (arith, parent_limit-none rest id e)
    | inr (limit, e) ↦ absurd (ground arith)
  ]

  parent_limit-HasLimit :
      (parent : List (CapabilityBudget Amount)) (b : CapabilityBudget Amount) (limit : Amount)
      → parent_limit num parent b.budget_id ≡ some limit
      → below limit b.limit ≡ false
      → HasLimit parent b
  unfolding parent_limit
  parent_limit-HasLimit [] b limit h low = cc
  parent_limit-HasLimit (p ∷ rest) b limit h low =
      elim (Option-cases (parent_limit num rest b.budget_id)) [
        | inr (limit', e) ↦
            let (earlier, q, later, whole, named, last, kept) =
              parent_limit-HasLimit rest b limit' e (ground arith) in
            (p ∷ earlier, q, later, ap (λ t. p ∷ t) whole, named, last, kept)
        | inl e ↦ elim (Bool-cases (p.budget_id == b.budget_id)) [
          | inr q ↦ absurd (ground arith)
          | inl q ↦ (
            [],
            p,
            rest,
            refl,
            (eq_iff p.budget_id b.budget_id).0 q,
            parent_limit-none rest b.budget_id e,
            ground arith,
          )
        ]
      ]

  mandate_budget_subset-AllHaveLimits :
      (child parent : List (CapabilityBudget Amount))
      → mandate_budget_subset num child parent ≡ []
      → AllHaveLimits parent child
  unfolding mandate_budget_subset
  mandate_budget_subset-AllHaveLimits [] parent h = tt
  mandate_budget_subset-AllHaveLimits (b ∷ rest) parent h =
      elim (Option-cases (parent_limit num parent b.budget_id)) [
        | inl e ↦ absurd (ground arith)
        | inr (limit, e) ↦ elim (Bool-cases (below limit b.limit)) [
          | inl q ↦ absurd (ground arith)
          | inr q ↦ (
            parent_limit-HasLimit parent b limit e q,
            mandate_budget_subset-AllHaveLimits rest parent (ground arith),
          )
        ]
      ]

  -- what a mandate keeps of its parent; a scope list that is empty keeps nothing
  pub record IsAttenuated (child parent : Mandate Amount) : Type 0 where
    pub grant : child.parent_grant_id ≡ some parent.grant_id
    pub window :
        (at : ℕ)
        → mandate_is_valid_at num child at ≡ true
        → mandate_is_valid_at num parent at ≡ true
    pub issuer :
        (delegate : String) → present parent.delegate ≡ some delegate → child.issuer ≡ delegate
    pub actions :
        is_nil child.allowed_actions ≡ false
        → (action : ActionDescriptor) → action_matches child.allowed_actions action ≡ true
        → action_matches parent.allowed_actions action ≡ true
    pub resources :
        is_nil child.allowed_resources ≡ false
        → (action : ActionDescriptor) → resource_matches child.allowed_resources action ≡ true
        → resource_matches parent.allowed_resources action ≡ true
    pub budgets : AllHaveLimits parent.budgets child.budgets

  within :
      (child parent : Mandate Amount)
      → ltb child.issued_at parent.issued_at ≡ false
      → ltb parent.expires_at child.expires_at ≡ false
      → (at : ℕ) → mandate_is_valid_at num child at ≡ true
      → mandate_is_valid_at num parent at ≡ true
  unfolding mandate_is_valid_at
  within child parent issued expires at valid = ground arith

  issued_by :
      (child parent : Mandate Amount)
      → is_delegate num child parent ≡ true
      → (delegate : String) → present parent.delegate ≡ some delegate
      → child.issuer ≡ delegate
  issued_by child parent h delegate e = ground (arith, eq_iff child.issuer delegate)

  pub attenuation_issues_sound :
      (child parent : Mandate Amount)
      → attenuation_issues num child parent ≡ []
      → IsAttenuated child parent
  unfolding attenuation_issues
  attenuation_issues_sound child parent h =
      let (grant, h1) =
        failed_not (child.parent_grant_id != some parent.grant_id) parent_grant_mismatch _ h in
      let (delegated, h2) = passed (is_delegate num child parent) parent_delegate_mismatch _ h1 in
      let (issued, h3) =
        failed_not (ltb child.issued_at parent.issued_at) issued_before_parent _ h2 in
      let (expires, h4) =
        failed_not (ltb parent.expires_at child.expires_at) expires_after_parent _ h3 in
      let (actions, h5) =
        nil_of_append
          (mandate_scope_subset child.allowed_actions parent.allowed_actions actions_exceed_parent)
          _ h4 in
      let (resources, budgets) =
        nil_of_append
          (mandate_scope_subset child.allowed_resources parent.allowed_resources
            resources_exceed_parent)
          (mandate_budget_subset num child.budgets parent.budgets) h5 in
      record {
        grant = ground (arith, option_beq_iff child.parent_grant_id (some parent.grant_id));
        window = within child parent issued expires;
        issuer = issued_by child parent delegated;
        actions =
            action_matches-subset child.allowed_actions parent.allowed_actions actions_exceed_parent
              actions;
        resources =
            resource_matches-subset child.allowed_resources parent.allowed_resources
              resources_exceed_parent resources;
        budgets = mandate_budget_subset-AllHaveLimits child.budgets parent.budgets budgets;
      }
