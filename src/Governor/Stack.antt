-- ===== src/Governor/Stack.antt =====
-- The governors around one another: what passes all of them, and what a monitor's advice changes.
use clayseal_receipts.Prelude.{◌≡◌, Bool, true, false, not, ◌&&◌, List, [], ◌∷◌}
use clayseal_receipts.Policy.{ExecutionContext}
use clayseal_receipts.Governor.{
  allow, step_up, SandboxGovernorResult, Step, SandboxGovernor, apply_authority_patch,
}
use clayseal_receipts.Governor.Rules.{Rules, Environment}
use clayseal_receipts.Governor.Renewal.{rule_based, rule_based_decide}
use clayseal_receipts.Governor.Checks.{IsStrict}
use clayseal_receipts.Governor.Verdicts.{IsCleared, verdict-IsCleared}
use clayseal_receipts.Governor.DefaultDeny.{reads_only, default_deny}
use clayseal_receipts.Governor.Zones.{Zones, protected_zone}
use clayseal_receipts.Governor.Tightening.{
  TightenConfig, TightenState, tightening_decide, tightening,
}
use clayseal_receipts.Governor.Passes.{
  HasAuthority, StaysInZone, default_deny_passes, protected_zone_passes, tightening_passes,
  resource_refusal-StaysInZone,
}

module _ {N : Type 0} (D : Type 0) (env : Environment) (rules : Rules (env.crypto.SigningKey))
    (cfg : TightenConfig) (zones : Zones)
    (auto_tighten_on_deny require_resource_scope allow_read_without_lease : Bool) where
  -- the rules, in tightening, in default deny, in protected zones: the stack that the repository runs
  -- in python/tests/test_integrated_sandboxing.py
  abbrev pub stacked : SandboxGovernor N D
  stacked =
      protected_zone
        (default_deny env.from_iso env.now
          (tightening (rule_based env rules) cfg auto_tighten_on_deny) require_resource_scope
          allow_read_without_lease)
        zones

  pub record IsSafe (s : stacked.State) (step : Step N) : Type 0 where
    pub authority :
        HasAuthority env.from_iso env.now require_resource_scope allow_read_without_lease step.ctx
    pub zone : StaysInZone zones s.step_up_approvals step.ctx
    pub mode : (s.inner_state.tightened && not (reads_only step.ctx)) ≡ false
    pub cleared : IsCleared env rules step

  -- Where no missing permit or lease is let pass and the zones are guarded, a step that all four
  -- governors allow names its authority, whose lease has not expired unless the step only reads and
  -- reads may pass without one, and which lists resources where that is asked for unless the step
  -- only reads; it stays out of protected zones and of the agent's memory but for listed resources,
  -- is no change while the governor is tightened, and has been cleared by the rules.
  pub stacked-IsSafe :
      IsStrict rules
      → zones.config.deny_on_write ≡ true
      → zones.config.step_up_on_read ≡ true
      → (s : stacked.State) (step : Step N) → (stacked.decide s step).1.enforcement ≡ allow
      → IsSafe s step
  unfolding rule_based_decide
  stacked-IsSafe strict write read s step passes =
      let rules_only = rule_based env rules in
      let tightened = tightening rules_only cfg auto_tighten_on_deny in
      let denying =
        default_deny env.from_iso env.now tightened require_resource_scope
          allow_read_without_lease in
      let (refused, e2) = protected_zone_passes denying zones s step passes in
      let (authority, e1) =
        default_deny_passes env.from_iso env.now tightened require_resource_scope
          allow_read_without_lease s.inner_state step e2 in
      let (mode, e0) =
        tightening_passes rules_only cfg auto_tighten_on_deny s.inner_state step e1 in
      record {
        authority = authority;
        zone = resource_refusal-StaysInZone zones s.step_up_approvals step.ctx write read refused;
        mode = mode;
        cleared = verdict-IsCleared env rules strict step e0;
      }

module _ {N D : Type 0} (inner : SandboxGovernor N D) (cfg : TightenConfig)
    (auto_tighten_on_deny : Bool) where
  -- the steps of a session one after the other, without an exit from tighten mode
  pub session : TightenState inner.State → List (Step N) → List (Step N × SandboxGovernorResult D)
  session s [] = []
  session s (step ∷ steps) =
      let (s', r) = tightening_decide inner cfg auto_tighten_on_deny s step in
      (step, r) ∷ session s' steps

  abbrev pub ChangesStepUp : List (Step N × SandboxGovernorResult D) → Type 0
  ChangesStepUp [] = Unit
  ChangesStepUp ((step, r) ∷ rest) =
      (reads_only step.ctx ≡ false → r.enforcement ≡ step_up) × ChangesStepUp rest

module _ {N D : Type 0} (inner : SandboxGovernor N D) (cfg : TightenConfig) (env : Environment)
    (rules : Rules (env.crypto.SigningKey)) where
  -- the context after the governor's patch
  abbrev pub patched : Step N → SandboxGovernorResult D → ExecutionContext N
  patched step r = record step.ctx {
    authority = apply_authority_patch step.ctx.authority r.authority_patch;
  }
