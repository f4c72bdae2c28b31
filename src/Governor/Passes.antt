-- ===== src/Governor/Passes.antt =====
-- What passes each governor that stands around another one.
use clayseal_receipts.Prelude.{
  ℕ, ◌≡◌, refl, ap, inl, inr, Option, none, some, Bool, true, false, not, ◌&&◌, ◌||◌, List, [], ◌∷◌,
  ◌==◌, string_eq, Text, is_nil, arith, Bool-cases, Option-cases, nil_of_append,
}
use clayseal_receipts.Operations.{or_empty}
use clayseal_receipts.Policy.{ExecutionContext}
use clayseal_receipts.Governor.{
  SandboxEnforcement, allow, deny, step_up, blocks, GovernorViolation, authority_id_missing,
  authority_expired, SandboxGovernorResult, refusal, Step, SandboxGovernor, is_expired,
}
use clayseal_receipts.Governor.DefaultDeny.{
  reads_only, unless, default_deny_violations, default_deny_decide,
}
use clayseal_receipts.Governor.Zones.{
  Zones, ZoneState, zone_refusal, memory_refusal, resource_refusal, is_agent_memory_ref,
  is_explicitly_allowed, is_protected, protected_zone_decide,
}
use clayseal_receipts.Governor.Tightening.{
  TightenConfig, TightenState, overridden, is_deny, monitors, evaluate_tighten_triggers, tighten,
  tightening_decide,
}

refused_or :
    {S D : Type 0} (s : S) (vs : List GovernorViolation) (r : S × SandboxGovernorResult D)
    → (let out : S × SandboxGovernorResult D = elim vs [
      | [] ↦ r
      | v ∷ more ↦ (s, refusal deny (v ∷ more))
    ] in
        out.1.enforcement)
      ≡ allow
    → (vs ≡ []) × (r.1.enforcement ≡ allow)
refused_or s [] r h = (refl, h)
refused_or s (v ∷ vs) r h = absurd (ground (arith, ap blocks h))

unless-none : (b : Bool) (v : GovernorViolation) → unless b v ≡ [] → b ≡ true
unless-none true v h = refl
unless-none false v h = cc

module _ {N : Type 0} (from_iso : Text → Option ℕ) (now : ℕ)
    (require_resource_scope allow_read_without_lease : Bool) where
  -- a name; an end that has not come, unless the step only reads and may do so without a lease; and
  -- resources where they are asked for, unless the step only reads
  pub record HasAuthority (ctx : ExecutionContext N) : Type 0 where
    pub named : (ctx.authority.authority_id == "") ≡ false
    pub current :
        (reads_only ctx && allow_read_without_lease
          || not (is_expired from_iso now ctx.authority.expires_at))
        ≡ true
    pub scoped :
        (not require_resource_scope || not (is_nil ctx.authority.resource_scope) || reads_only ctx)
        ≡ true

module _ {N D : Type 0} (from_iso : Text → Option ℕ) (now : ℕ) (inner : SandboxGovernor N D)
    (require_resource_scope allow_read_without_lease : Bool) where
  pub default_deny_passes :
      (s : inner.State) (step : Step N)
      → (default_deny_decide from_iso now inner require_resource_scope allow_read_without_lease s
          step).1.enforcement
        ≡ allow
      → HasAuthority from_iso now require_resource_scope allow_read_without_lease step.ctx
        × ((inner.decide s step).1.enforcement ≡ allow)
  unfolding default_deny_decide default_deny_violations
  default_deny_passes s step h =
      let ctx = step.ctx in
      let (clear, passes) =
        refused_or s
          (default_deny_violations from_iso now inner require_resource_scope
            allow_read_without_lease ctx)
          (inner.decide s step) h in
      let (e1, rest) =
        nil_of_append (unless (not (ctx.authority.authority_id == "")) authority_id_missing) _
          clear in
      let (e2, e3) =
        nil_of_append
          (unless
            (reads_only ctx && allow_read_without_lease
              || not (is_expired from_iso now ctx.authority.expires_at))
            authority_expired)
          _ rest in
      let named = unless-none _ _ e1 in
      (
        record { named = ground arith; current = unless-none _ _ e2; scoped = unless-none _ _ e3 },
        passes,
      )

module _ {N : Type 0} (zones : Zones) (approvals : List Text) (ctx : ExecutionContext N) where
  zone_refusal-blocks :
      (ref : Text) (u : SandboxEnforcement × GovernorViolation)
      → zone_refusal zones approvals ctx ref ≡ some u
      → blocks u.0 ≡ true
  unfolding zone_refusal
  zone_refusal-blocks ref u h = ground arith

  memory_refusal-blocks :
      (ref : Text) (u : SandboxEnforcement × GovernorViolation)
      → memory_refusal zones approvals ctx ref ≡ some u
      → blocks u.0 ≡ true
  unfolding memory_refusal
  memory_refusal-blocks ref u h = ground arith

  resource_refusal-blocks :
      (u : SandboxEnforcement × GovernorViolation)
      → resource_refusal zones approvals ctx ≡ some u
      → blocks u.0 ≡ true
  unfolding resource_refusal
  resource_refusal-blocks u h =
      let ref = or_empty ctx.action.resource_ref in
      ground (arith, zone_refusal-blocks ref u, memory_refusal-blocks ref u)

module _ {N : Type 0} (zones : Zones) (approvals : List Text) (ctx : ExecutionContext N) where
  -- memory is written, and a protected resource is reached, only where the resource is listed
  abbrev pub StaysInZone : Type 0
  StaysInZone =
      (ref : Text)
      → ctx.action.resource_ref ≡ some ref
      → is_nil ref ≡ false
      → ((not (reads_only ctx) && is_agent_memory_ref ref) ≡ true
          → (zones.allow_agent_memory_writes ≡ true)
            × (is_explicitly_allowed zones approvals ref ctx ≡ true))
        × ((not (reads_only ctx) && is_agent_memory_ref ref) ≡ false
            → is_protected zones.config.protected_patterns ref ≡ true
            → is_explicitly_allowed zones approvals ref ctx ≡ true)

  pub resource_refusal-StaysInZone :
      zones.config.deny_on_write ≡ true
      → zones.config.step_up_on_read ≡ true
      → resource_refusal zones approvals ctx ≡ none
      → StaysInZone
  unfolding resource_refusal zone_refusal memory_refusal
  resource_refusal-StaysInZone write read h ref there full =
      (λ memory. (ground arith, ground arith), λ other protected. ground arith)

module _ {N D : Type 0} (inner : SandboxGovernor N D) (zones : Zones) where
  pub protected_zone_passes :
      (s : ZoneState inner.State) (step : Step N)
      → (protected_zone_decide inner zones s step).1.enforcement ≡ allow
      → (resource_refusal zones s.step_up_approvals step.ctx ≡ none)
        × ((inner.decide s.inner_state step).1.enforcement ≡ allow)
  unfolding protected_zone_decide
  protected_zone_passes s step h =
      elim (Option-cases (resource_refusal zones s.step_up_approvals step.ctx)) [
        | inl e ↦ (e, rw (protected_zone_decide, e) at h)
        | inr (u, q) ↦
            let strict = resource_refusal-blocks zones s.step_up_approvals step.ctx u q in
            let same = rw (protected_zone_decide, q) at h in absurd (ground (arith, ap blocks same))
      ]

overridden-allow :
    (e : SandboxEnforcement) (o : Option SandboxEnforcement) → overridden e o ≡ allow → e ≡ allow
overridden-allow allow o h = refl
overridden-allow deny none h = h
overridden-allow deny (some allow) h = h
overridden-allow deny (some deny) h = h
overridden-allow deny (some step_up) h = cc
overridden-allow step_up none h = h
overridden-allow step_up (some allow) h = h
overridden-allow step_up (some deny) h = cc
overridden-allow step_up (some step_up) h = cc

module _ {N D : Type 0} (inner : SandboxGovernor N D) (cfg : TightenConfig)
    (auto_tighten_on_deny : Bool) where
  tighten_passes :
      (s : TightenState inner.State) (step : Step N) (r : SandboxGovernorResult D)
      → (tighten inner cfg auto_tighten_on_deny s step r).1.enforcement ≡ allow
      → r.enforcement ≡ allow
  unfolding tighten
  tighten_passes s step r h =
      let t =
        evaluate_tighten_triggers (monitors step.monitor) step.ctx.authority.permit_epoch
          step.ctx.authority.lease_remaining_calls cfg in
      elim (Bool-cases t.triggered) [
        | inr q ↦ rw q at h
        | inl q ↦ overridden-allow r.enforcement t.enforcement_override (rw q at h)
      ]

  pub tightening_passes :
      (s : TightenState inner.State) (step : Step N)
      → (tightening_decide inner cfg auto_tighten_on_deny s step).1.enforcement ≡ allow
      → ((s.tightened && not (reads_only step.ctx)) ≡ false)
        × ((inner.decide s.inner_state step).1.enforcement ≡ allow)
  unfolding tightening_decide
  tightening_passes s step h =
      let r = (inner.decide s.inner_state step).1 in
      elim (Bool-cases (s.tightened && not (reads_only step.ctx))) [
        | inl q ↦ absurd (ground (arith, q, h))
        | inr q ↦ elim (Bool-cases (is_deny r.enforcement)) [
          | inl d ↦ (q, ground (arith, q, d, h))
          | inr d ↦ (q, tighten_passes _ step r (rw (q, d) at h))
        ]
      ]

  tighten_stays :
      (s : TightenState inner.State) (step : Step N) (r : SandboxGovernorResult D)
      → s.tightened ≡ true
      → (tighten inner cfg auto_tighten_on_deny s step r).0.tightened ≡ true
  unfolding tighten
  tighten_stays s step r h = ground arith

  -- In tighten mode the governor stays in it, and a step that does not only read needs a step-up.
  pub tightened_step :
      (s : TightenState inner.State) (step : Step N)
      → s.tightened ≡ true
      → ((tightening_decide inner cfg auto_tighten_on_deny s step).0.tightened ≡ true)
        × (reads_only step.ctx ≡ false
            → (tightening_decide inner cfg auto_tighten_on_deny s step).1.enforcement ≡ step_up)
  unfolding tightening_decide
  tightened_step s step h =
      let r = (inner.decide s.inner_state step).1 in
      elim (Bool-cases (reads_only step.ctx)) [
        | inr q ↦ (ground (arith, q, h), λ t. ground (arith, q, h))
        | inl q ↦ elim (Bool-cases (is_deny r.enforcement)) [
          | inl d ↦ (ground (arith, q, d, h), λ t. cc)
          | inr d ↦ (
            ground (
              arith,
              q,
              d,
              h,
              tighten_stays (record s { inner_state = (inner.decide s.inner_state step).0 }) step r
                  h,
            ),
            λ t. cc,
          )
        ]
      ]
