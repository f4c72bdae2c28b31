-- ===== src/Governor/DefaultDeny.antt =====
-- default_deny_governor.py: no action but a read passes without a live authority.
use clayseal_receipts.Prelude.{
  ℕ, Option, Bool, true, false, not, ◌&&◌, ◌||◌, List, [], ◌∷◌, ◌++◌, ◌==◌, string_eq, Text, is_nil,
}
use clayseal_receipts.Operations.{read_only}
use clayseal_receipts.Policy.{ExecutionContext}
use clayseal_receipts.Governor.{
  deny, GovernorViolation, authority_id_missing, authority_expired, resource_scope_empty,
  SandboxGovernorResult, refusal, Step, SandboxGovernor, level_beq, is_expired,
}

abbrev pub reads_only : {N : Type 0} → ExecutionContext N → Bool
reads_only ctx = level_beq ctx.action.side_effect_level read_only

-- a violation where a test fails
abbrev pub unless : Bool → GovernorViolation → List GovernorViolation
unless true v = []
unless false v = v ∷ []

module _ {N D : Type 0} (from_iso : Text → Option ℕ) (now : ℕ) (inner : SandboxGovernor N D)
    (require_resource_scope allow_read_without_lease : Bool) where
  unfoldable pub default_deny_violations : ExecutionContext N → List GovernorViolation
  default_deny_violations ctx =
      unless (not (ctx.authority.authority_id == "")) authority_id_missing
      ++ (unless
            (reads_only ctx && allow_read_without_lease
              || not (is_expired from_iso now ctx.authority.expires_at))
            authority_expired
          ++ unless
              (not require_resource_scope
                || not (is_nil ctx.authority.resource_scope)
                || reads_only ctx)
              resource_scope_empty)

  -- `DefaultDenySandboxGovernor.decide`
  unfoldable pub default_deny_decide : inner.State → Step N → inner.State × SandboxGovernorResult D
  unfolding default_deny_violations
  default_deny_decide s step = elim (default_deny_violations step.ctx) [
    | [] ↦ inner.decide s step
    | v ∷ vs ↦ (s, refusal deny (v ∷ vs))
  ]

  abbrev pub default_deny : SandboxGovernor N D
  default_deny = record { State = inner.State; decide = default_deny_decide }
