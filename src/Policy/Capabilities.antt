-- ===== src/Policy/Capabilities.antt =====
-- Whether an authority's capabilities and resource scope allow an action (policy_engine.py).
use clayseal_receipts.Prelude.{
  Option, none, some, Bool, false, not, ◌&&◌, ◌||◌, List, [], ◌∷◌, ◌++◌, ◌==◌, text_eq, nat_eq,
  Text, codes, strip, keep, map, any_of, all_of, if◌then◌else◌, is_nil, contains, starts_with,
  remove_prefix, split_at,
}
use clayseal_receipts.Operations.{RawCapability, ActionDescriptor, or_empty, after_last}
use clayseal_receipts.Resources.{ResourceRef, parse_resource_ref}
use clayseal_receipts.Paths.Patterns.{fnmatchcase}
use clayseal_receipts.TaskScope.{action_path_candidates, raw_path_matches_any}
use clayseal_receipts.Policy.{AuthorityContext}

abbrev pub if_there : Option Text → List Text
if_there none = []
if_there (some t) = if is_nil t then [] else t ∷ []

abbrev pub category_names : ActionDescriptor → List Text
category_names action =
    if is_nil action.action_category || action.action_category == codes "custom"
    then []
    else action.action_category ∷ []

-- `parsed_resource_ref`: `none` is its `ValueError`
unfoldable pub parsed_resource_ref : ActionDescriptor → Option (Option ResourceRef)
parsed_resource_ref action = elim action.resource_ref [
  | none ↦ some none
  | some ref ↦
      if is_nil ref
      then some none
      else elim (parse_resource_ref ref) [ none ↦ none | some r ↦ some (some r) ]
]

abbrev pub action_names : ActionDescriptor → List Text
action_names action =
    let dotted : List Text =
      if contains action.action_name b'.' then after_last b'.' action.action_name ∷ [] else [] in
    let slashed : List Text =
      if contains action.action_name b'/' then after_last b'/' action.action_name ∷ [] else [] in
    action.action_name ∷ (dotted ++ slashed)

-- `_action_candidates`, whose sets are lists; `none` is the `ValueError`
unfoldable pub resource_names : ActionDescriptor → Option (List Text)
unfolding parsed_resource_ref
resource_names action =
    let names =
      if_there action.resource_type ++ (category_names action ++ if_there action.resource_ref) in
    elim (parsed_resource_ref action) [
      | none ↦ none
      | some none ↦ some names
      | some (some r) ↦ some (names ++ r.kind ∷ [])
    ]

unfoldable pub rule_allows : List Text → List Text → RawCapability → Bool
rule_allows resources actions item =
    let resource = strip (or_empty item.resource) in
    let action = strip (or_empty item.action) in
    not (is_nil resource)
    && not (is_nil action)
    && contains resources resource
    && (action == codes "*" || contains actions action)

unfoldable pub claim_allows : ActionDescriptor → List Text → List Text → Text → Bool
claim_allows action resources actions scope = elim (split_at (codes ":") scope) [
  | none ↦ scope == action.action_name
  | some (resource, capability) ↦
      contains resources resource && (capability == codes "*" || contains actions capability)
]

unfoldable pub has_capability_restrictions : AuthorityContext → Bool
has_capability_restrictions a =
    not (is_nil a.capability_rules) || not (is_nil a.scope_claims) || not (is_nil a.capabilities)

unfoldable pub authority_capabilities_allow : AuthorityContext → ActionDescriptor → Option Bool
unfolding resource_names rule_allows claim_allows
authority_capabilities_allow a action = elim (resource_names action) [
  | none ↦ none
  | some resources ↦ some (
      any_of (rule_allows resources (action_names action)) a.capability_rules
      || any_of (claim_allows action resources (action_names action))
          (a.scope_claims ++ a.capabilities))
]

abbrev pub file_patterns : List Text → List Text
file_patterns scopes =
    map (remove_prefix (codes "file:")) (keep (starts_with (codes "file:")) scopes)

abbrev pub structured_scopes : List Text → List Text
structured_scopes scopes = keep (λ scope. not (starts_with (codes "file:") scope)) scopes

abbrev pub repo_kind : Text → Bool
repo_kind kind = kind == codes "repo_read" || kind == codes "repo_write" || kind == codes "repo"

-- a structured scope that is a reference, against the action's reference and its paths
unfoldable pub ref_allows : ActionDescriptor → Option ResourceRef → List Text → ResourceRef → Bool
ref_allows action none paths allowed =
    allowed.kind == or_empty action.resource_type && allowed.value == codes "*"
ref_allows action (some actual) paths allowed =
    let wild =
      (contains allowed.value b'*' || contains allowed.value b'?')
      && fnmatchcase actual.value allowed.value in
    let by_path = repo_kind allowed.kind && any_of (λ path. fnmatchcase path allowed.value) paths in
    allowed.kind == actual.kind
    && (allowed.value == codes "*" || allowed.value == actual.value || wild || by_path)

unfoldable pub scope_allows :
    ActionDescriptor → List Text → Option ResourceRef → List Text → Text → Bool
unfolding ref_allows
scope_allows action candidates actual paths scope =
    let by_ref : Bool = elim (parse_resource_ref scope) [
      | none ↦ false
      | some allowed ↦ ref_allows action actual paths allowed
    ] in
    if starts_with (codes "resource:") scope
    then contains candidates (remove_prefix (codes "resource:") scope)
    else contains candidates scope || by_ref

-- `none` is the `ValueError` of the action's own reference
unfoldable pub resource_scope_allows : List Text → ActionDescriptor → Option Bool
unfolding scope_allows parsed_resource_ref
resource_scope_allows scopes action =
    let files = file_patterns scopes in
    let structured = structured_scopes scopes in
    let paths = action_path_candidates action.resource_ref [] in
    let both = not (is_nil files) && not (is_nil paths) in
    let candidates =
      if_there action.resource_ref ++ (if_there action.resource_type ++ category_names action) in
    let by_structure : Option Bool = elim (parsed_resource_ref action) [
      | none ↦ none
      | some actual ↦ some (any_of (scope_allows action candidates actual paths) structured)
    ] in
    if both && not (all_of (λ path. raw_path_matches_any path files) paths)
    then some false
    else if is_nil structured
    then some both
    else by_structure
