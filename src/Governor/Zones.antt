-- ===== src/Governor/Zones.antt =====
-- protected_zone_governor.py, with the memory patterns of instruction_surfaces.py: a protected
-- resource is reached only where the control plane has listed it.
use clayseal_receipts.Prelude.{
  ◌-◌, Option, none, some, Bool, not, ◌&&◌, ◌||◌, List, [], ◌∷◌, ◌++◌, map, ◌==◌, text_eq, Text,
  codes, strip, starts_with, eqb, if◌then◌else◌, is_nil, any_of, length, take, drop,
}
use clayseal_receipts.Paths.{normalize_path}
use clayseal_receipts.Paths.Patterns.{fnmatchcase}
use clayseal_receipts.Operations.{or_empty}
use clayseal_receipts.Policy.{ExecutionContext}
use clayseal_receipts.Policy.Credentials.{ends_with}
use clayseal_receipts.Governor.{
  SandboxEnforcement, deny, step_up, GovernorViolation, memory_write_denied,
  memory_write_not_listed, egress_denied, read_steps_up, write_denied, SandboxGovernorResult,
  refusal, Step, SandboxGovernor,
}
use clayseal_receipts.Governor.DefaultDeny.{reads_only}

-- `AGENT_MEMORY_DENY_PATTERNS`
abbrev pub memory_patterns : List Text
memory_patterns =
    codes ".devin/knowledge.md" ∷ codes ".devin/**" ∷ codes "**/.devin/knowledge.md" ∷ []

-- `_DEFAULT_PROTECTED_PATTERNS`
abbrev pub default_protected_patterns : List Text
default_protected_patterns = map codes (
    "repo://keys/*" ∷ "repo://.ssh/*" ∷ "repo://.env*" ∷ "repo://*.pem" ∷ "repo://*.key"
    ∷ "repo://auth/*" ∷ "repo://identity/*" ∷ "repo://deploy/*" ∷ "repo://terraform/*"
    ∷ "repo://helm/*" ∷ "repo://k8s/*" ∷ "repo://.github/workflows/*" ∷ "repo://.agentauth/*"
    ∷ "repo://.devin/*" ∷ "repo://.cursor/*" ∷ "repo://.vscode/*" ∷ "repo://AGENTS.md"
    ∷ "repo://*/AGENTS.md" ∷ "repo://CLAUDE.md" ∷ "repo://*/CLAUDE.md" ∷ "repo://.cursorrules"
    ∷ "repo://*/.cursorrules" ∷ "repo://DELEGATION.md" ∷ "repo://*/DELEGATION.md"
    ∷ "repo://**/*.mdc" ∷ "secrets://*" ∷ "net://*" ∷ [])

-- `s.lstrip("/")`
abbrev pub lstrip_slashes : Text → Text
lstrip_slashes [] = []
lstrip_slashes (c ∷ cs) = let rest = lstrip_slashes cs in if eqb c b'/' then rest else c ∷ cs

-- `pattern.replace("**/", "")`
unfoldable pub without_globstars : Text → Text
without_globstars [] = []
without_globstars (c ∷ []) = c ∷ []
without_globstars (c ∷ d ∷ []) = c ∷ d ∷ []
without_globstars (c ∷ d ∷ e ∷ rest) =
    let after = without_globstars rest in
    let past = without_globstars (d ∷ e ∷ rest) in
    if eqb c b'*' && eqb d b'*' && eqb e b'/' then after else c ∷ past

-- the schemes of a path, in the order that the code tries them
abbrev pub path_schemes : List Text
path_schemes = codes "repo_write://" ∷ codes "repo_read://" ∷ codes "repo://" ∷ codes "file:" ∷ []

-- what follows the first of the prefixes that the text starts with
abbrev pub after_scheme : List Text → Text → Option Text
after_scheme [] t = none
after_scheme (p ∷ ps) t =
    let later = after_scheme ps t in if starts_with p t then some (drop (length p) t) else later

-- `_normalize_path` of instruction_surfaces.py; a backslash is 92
unfoldable pub surface_path : Text → Text
surface_path path = lstrip_slashes (strip (map (λ c. if eqb c 92 then b'/' else c) path))

unfoldable pub matches_path_pattern : Text → List Text → Bool
unfolding surface_path without_globstars
matches_path_pattern path patterns =
    let normalized = surface_path path in
    let bare : Text = elim (after_scheme path_schemes normalized) [
      | none ↦ normalized
      | some rest ↦ lstrip_slashes rest
    ] in
    any_of
      (λ (pattern : Text). fnmatchcase bare (without_globstars pattern) || fnmatchcase bare pattern)
      patterns

unfoldable pub is_agent_memory_path : Text → Bool
unfolding matches_path_pattern
is_agent_memory_path path = matches_path_pattern path memory_patterns

-- `_strip_scheme`
unfoldable pub strip_scheme : Text → Text
strip_scheme ref = elim (after_scheme path_schemes ref) [
  | none ↦ ref
  | some rest ↦ normalize_path rest
]

pub record ProtectedZoneConfig : Type 0 where
  pub protected_patterns : List Text
  pub deny_on_write : Bool
  pub step_up_on_read : Bool
  pub deny_egress : Bool

-- the fields of the governor; approvals of a step-up are the state
pub record Zones : Type 0 where
  pub explicit_allow : List Text
  pub allow_agent_memory_writes : Bool
  pub config : ProtectedZoneConfig

-- a directory matches the pattern of what is in it
abbrev pub covers : Text → Text → Bool
covers bare_ref bare_pattern =
    fnmatchcase bare_ref bare_pattern
    || ends_with (codes "/*") bare_pattern
      && bare_ref == take (length bare_pattern - 2) bare_pattern

unfoldable pub is_protected : List Text → Text → Bool
unfolding strip_scheme
is_protected patterns resource_ref =
    any_of
      (λ (pattern : Text).
        fnmatchcase resource_ref pattern
        || covers (strip_scheme resource_ref) (strip_scheme pattern))
      patterns
    || starts_with (codes "net://") resource_ref

-- one entry of the allowed resources; an entry for reading grants no write
unfoldable pub grants : Text → Text → Bool
unfolding strip_scheme
grants resource_ref entry =
    entry == resource_ref
    || fnmatchcase resource_ref entry
    || fnmatchcase (strip_scheme resource_ref) (strip_scheme entry)
      && not (
          starts_with (codes "repo_write://") resource_ref
          && starts_with (codes "repo_read://") entry)

-- the union is a list, since only membership is asked for
unfoldable pub is_explicitly_allowed :
    {N : Type 0} → Zones → List Text → Text → ExecutionContext N → Bool
unfolding grants
is_explicitly_allowed zones approvals resource_ref ctx =
    any_of (grants resource_ref)
      (zones.explicit_allow ++ (approvals ++ map codes ctx.authority.approval_refs))

unfoldable pub is_agent_memory_ref : Text → Bool
unfolding is_agent_memory_path strip_scheme
is_agent_memory_ref ref = is_agent_memory_path (strip_scheme ref) || is_agent_memory_path ref

-- the refusal of the zone itself; `none` hands the step to the governor inside
module _ {N : Type 0} (zones : Zones) (approvals : List Text) (ctx : ExecutionContext N) where
  unfoldable pub zone_refusal : Text → Option (SandboxEnforcement × GovernorViolation)
  zone_refusal ref =
      let outside =
        not (is_protected zones.config.protected_patterns ref)
        || is_explicitly_allowed zones approvals ref ctx in
      if outside
      then none
      else if starts_with (codes "net://") ref && zones.config.deny_egress
      then some (deny, egress_denied ref)
      else if reads_only ctx && zones.config.step_up_on_read
      then some (step_up, read_steps_up ref)
      else if not (reads_only ctx) && zones.config.deny_on_write
      then some (deny, write_denied ref)
      else none

  unfoldable pub memory_refusal : Text → Option (SandboxEnforcement × GovernorViolation)
  memory_refusal ref =
      if not zones.allow_agent_memory_writes
      then some (deny, memory_write_denied ref)
      else if not (is_explicitly_allowed zones approvals ref ctx)
      then some (deny, memory_write_not_listed ref)
      else none

  -- an action without a resource, or with an empty one, meets no test
  unfoldable pub resource_refusal : Option (SandboxEnforcement × GovernorViolation)
  resource_refusal =
      let ref = or_empty ctx.action.resource_ref in
      if is_nil ref
      then none
      else if not (reads_only ctx) && is_agent_memory_ref ref
      then memory_refusal ref
      else zone_refusal ref

-- the approvals, over the state of the governor inside
pub record ZoneState (S : Type 0) : Type 0 where
  pub inner_state : S
  pub step_up_approvals : List Text

unfoldable pub approve_resource : {S : Type 0} → Text → ZoneState S → ZoneState S
approve_resource resource_ref s = record s {
  step_up_approvals = resource_ref ∷ s.step_up_approvals;
}

module _ {N D : Type 0} (inner : SandboxGovernor N D) (zones : Zones) where
  -- `ProtectedZoneGovernor.decide`
  unfoldable pub protected_zone_decide :
      ZoneState inner.State → Step N → ZoneState inner.State × SandboxGovernorResult D
  protected_zone_decide s step =
      let (inner_state, r) = inner.decide s.inner_state step in
      elim (resource_refusal zones s.step_up_approvals step.ctx) [
        | some (e, v) ↦ (s, refusal e (v ∷ []))
        | none ↦ (record s { inner_state = inner_state }, r)
      ]

  abbrev pub protected_zone : SandboxGovernor N D
  protected_zone = record { State = ZoneState inner.State; decide = protected_zone_decide }
