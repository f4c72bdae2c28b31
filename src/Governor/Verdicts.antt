-- ===== src/Governor/Verdicts.antt =====
-- What the rules of sandbox_governor.py let pass.
use clayseal_receipts.Prelude.{
  ◌≡◌, refl, sym, ap, inl, inr, ◌⊎◌, Option, none, some, true, not, List, [], ◌∷◌, string_eq,
  text_eq, option_eq, int_eq, is_nil, is_nil-snoc, arith, Bool-cases, some-inj,
}
use clayseal_receipts.Policy.{ExecutionContext}
use clayseal_receipts.Governor.{
  SandboxEnforcement, allow, deny, step_up, blocks, GovernorViolation, monitor_denies,
  monitor_steps_up, BehaviorRecommendation, BehaviorMonitorResult, Step,
}
use clayseal_receipts.Governor.Rules.{
  Rules, Environment, Verdict, lease_is_required, permit_check, query_check, budget_check,
  lease_check, tool_check, advised, monitor_check, verdict,
}
use clayseal_receipts.Governor.Checks.{
  IsStrict, Agrees, Agrees-Checked, clear-Checked, LeaseLive, ToolFree, PermitReady,
  permit_check-Checked, query_check-Checked, budget_check-Checked, expiry_check-Checked,
  tool_check-Checked,
}

-- a monitor that is heeded advises nothing against the step
abbrev pub Approved : {N K : Type 0} → Rules K → Option (BehaviorMonitorResult N) → Type 0
Approved {N} rules monitor =
    rules.honor_monitor_recommendations ≡ true
    → (m : BehaviorMonitorResult N) → monitor ≡ some m
    → (m.recommendation ≡ none) ⊎ (m.recommendation ≡ some BehaviorRecommendation.allow)

advised-Agrees : (r : Option BehaviorRecommendation) (s : Verdict) → Agrees s → Agrees (advised r s)
unfolding advised
advised-Agrees none s h = h
advised-Agrees (some BehaviorRecommendation.allow) s h = h
advised-Agrees (some BehaviorRecommendation.deny) (allow, vs) h = sym (ap not (is_nil-snoc vs _))
advised-Agrees (some BehaviorRecommendation.deny) (step_up, vs) h = sym (ap not (is_nil-snoc vs _))
advised-Agrees (some BehaviorRecommendation.deny) (deny, vs) h = h
advised-Agrees (some BehaviorRecommendation.step_up) (allow, vs) h = sym (ap not (is_nil-snoc vs _))
advised-Agrees (some BehaviorRecommendation.step_up) (step_up, vs) h = h
advised-Agrees (some BehaviorRecommendation.step_up) (deny, vs) h = h

advised-clear :
    (r : Option BehaviorRecommendation) (s : Verdict)
    → Agrees s
    → (advised r s).1 ≡ []
    → (s.1 ≡ []) × ((r ≡ none) ⊎ (r ≡ some BehaviorRecommendation.allow))
unfolding advised
advised-clear none s h e = (e, inl refl)
advised-clear (some BehaviorRecommendation.allow) s h e = (e, inr refl)
advised-clear (some BehaviorRecommendation.deny) (allow, vs) h e =
    absurd (ground (arith, is_nil-snoc vs monitor_denies))
advised-clear (some BehaviorRecommendation.deny) (step_up, vs) h e =
    absurd (ground (arith, is_nil-snoc vs monitor_denies))
advised-clear (some BehaviorRecommendation.deny) (deny, vs) h e = absurd (ground arith)
advised-clear (some BehaviorRecommendation.step_up) (allow, vs) h e =
    absurd (ground (arith, is_nil-snoc vs monitor_steps_up))
advised-clear (some BehaviorRecommendation.step_up) (step_up, vs) h e = absurd (ground arith)
advised-clear (some BehaviorRecommendation.step_up) (deny, vs) h e = absurd (ground arith)

module _ {N : Type 0} (env : Environment) (rules : Rules (env.crypto.SigningKey)) where
  -- what a step that the rules allow has been checked for
  pub record IsCleared (step : Step N) : Type 0 where
    pub tool_free : ToolFree env rules step.ctx
    pub permit_ready : PermitReady env rules step.ctx
    pub lease_live : LeaseLive env rules step.ctx
    pub approved : Approved rules step.monitor

none_of :
    (e : SandboxEnforcement) (vs : List GovernorViolation)
    → blocks e ≡ not (is_nil vs)
    → e ≡ allow
    → vs ≡ []
none_of e [] h same = refl
none_of e (v ∷ vs) h same = absurd (ground (arith, ap blocks same))

module _ {N : Type 0} (env : Environment) (rules : Rules (env.crypto.SigningKey))
    (strict : IsStrict rules) where
  monitor_check-Agrees :
      (m : Option (BehaviorMonitorResult N)) (s : Verdict)
      → Agrees s
      → Agrees (monitor_check env rules m s)
  unfolding monitor_check
  monitor_check-Agrees none s h = h
  monitor_check-Agrees (some m) s h = elim (Bool-cases rules.honor_monitor_recommendations) [
    | inl q ↦ rw q (advised-Agrees m.recommendation s h)
    | inr q ↦ rw q h
  ]

  monitor_check-clear :
      (m : Option (BehaviorMonitorResult N)) (s : Verdict)
      → Agrees s
      → (monitor_check env rules m s).1 ≡ []
      → (s.1 ≡ []) × Approved rules m
  unfolding monitor_check
  monitor_check-clear none s h e = (e, λ t m q. cc)
  monitor_check-clear (some m) s h e = elim (Bool-cases rules.honor_monitor_recommendations) [
    | inr q ↦ (rw q at e, λ t. cc)
    | inl q ↦
        let (before, free) = advised-clear m.recommendation s h (rw q at e) in
        (before, λ t m' same. rw (sym (some-inj same)) free)
  ]

  lease_check-Agrees :
      (ctx : ExecutionContext N) (s : Verdict) → Agrees s → Agrees (lease_check env rules ctx s)
  unfolding lease_check
  lease_check-Agrees ctx s h = elim (Bool-cases (lease_is_required env rules ctx)) [
    | inr q ↦ rw q h
    | inl q ↦
        let s1 = query_check env rules ctx s in
        let s2 = budget_check env rules ctx s1 in
        rw q (
          Agrees-Checked s2 _ (expiry_check-Checked env rules strict ctx s2) (
            Agrees-Checked s1 _ (budget_check-Checked env rules strict ctx s1)
              (Agrees-Checked s _ (query_check-Checked env rules strict ctx s) h)))
  ]

  lease_check-clear :
      (ctx : ExecutionContext N) (s : Verdict)
      → (lease_check env rules ctx s).1 ≡ []
      → (s.1 ≡ []) × LeaseLive env rules ctx
  unfolding lease_check
  lease_check-clear ctx s e = elim (Bool-cases (lease_is_required env rules ctx)) [
    | inr q ↦ (rw q at e, λ t. cc)
    | inl q ↦
        let s1 = query_check env rules ctx s in
        let s2 = budget_check env rules ctx s1 in
        let (e2, alive) =
          clear-Checked s2 _ (expiry_check-Checked env rules strict ctx s2) (rw q at e) in
        let (e1, calls) = clear-Checked s1 _ (budget_check-Checked env rules strict ctx s1) e2 in
        let (e0, bound) = clear-Checked s _ (query_check-Checked env rules strict ctx s) e1 in
        (e0, λ t. (bound, calls, alive))
  ]

  -- the verdict before the monitor is heard
  abbrev before_monitor : ExecutionContext N → Verdict
  before_monitor ctx =
      tool_check env rules ctx (lease_check env rules ctx (permit_check env rules ctx (allow, [])))

  before_monitor-Agrees : (ctx : ExecutionContext N) → Agrees (before_monitor ctx)
  before_monitor-Agrees ctx =
      let s1 = permit_check env rules ctx (allow, []) in
      Agrees-Checked (lease_check env rules ctx s1) _ (tool_check-Checked env rules strict ctx _) (
        lease_check-Agrees ctx s1 (
          Agrees-Checked (allow, []) _ (permit_check-Checked env rules strict ctx (allow, []))
            refl))

  -- Where no missing permit or lease is let pass, the rules block a step exactly when they report
  -- a violation.
  pub blocks-verdict :
      (step : Step N) → blocks (verdict env rules step).0 ≡ not (is_nil (verdict env rules step).1)
  unfolding verdict
  blocks-verdict step =
      monitor_check-Agrees step.monitor (before_monitor step.ctx) (before_monitor-Agrees step.ctx)

  -- Where no missing permit or lease is let pass, a step that the rules allow calls a tool that is
  -- not denied and neither it nor its level needs a step-up; a permit or a lease that it needs is
  -- there and, the lease, live; and a monitor that is heeded advises nothing against it.
  pub verdict-IsCleared :
      (step : Step N) → (verdict env rules step).0 ≡ allow → IsCleared env rules step
  unfolding verdict
  verdict-IsCleared step passes =
      let agrees = blocks-verdict step in
      let s0 = permit_check env rules step.ctx (allow, []) in
      let s1 = lease_check env rules step.ctx s0 in
      let (e2, approved) =
        monitor_check-clear step.monitor (before_monitor step.ctx) (before_monitor-Agrees step.ctx)
          (none_of (verdict env rules step).0 (verdict env rules step).1 agrees passes) in
      let (e1, free) = clear-Checked s1 _ (tool_check-Checked env rules strict step.ctx s1) e2 in
      let (e0, live) = lease_check-clear step.ctx s0 e1 in
      let (e, ready) =
        clear-Checked (allow, []) s0 (permit_check-Checked env rules strict step.ctx (allow, []))
          e0 in
      record { tool_free = free; permit_ready = ready; lease_live = live; approved = approved }
