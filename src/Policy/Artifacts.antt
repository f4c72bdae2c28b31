-- ===== src/Policy/Artifacts.antt =====
-- agentauth/receipts/artifact_guard.py: whether a tool call may publish an artifact. The number of
-- secrets that the patterns find in a payload is an argument.
use clayseal_receipts.Prelude.{
  ℕ, Option, none, some, Bool, not, ◌&&◌, ◌||◌, List, [], ◌∷◌, ◌++◌, ◌==◌, text_eq, ltb, Text,
  codes, lower, if◌then◌else◌, is_nil, contains, any_of, starts_with,
}
use clayseal_receipts.Policy.{
  text, Fields, AuthorityContext, ArtifactGuardPolicy, PolicyViolation, publication_denied,
  secrets_in_payload,
}
use clayseal_receipts.Policy.Scopes.{contains_text}
use clayseal_receipts.Policy.Arguments.{get}

abbrev publish_tool_markers : List Text
publish_tool_markers =
    codes "upload"
    ∷ codes "publish"
    ∷ codes "artifact"
    ∷ codes "attach"
    ∷ codes "release"
    ∷ codes "deploy"
    ∷ codes "cache"
    ∷ []

abbrev artifact_arg_keys : List Text
artifact_arg_keys =
    codes "artifact"
    ∷ codes "artifact_path"
    ∷ codes "artifact_name"
    ∷ codes "destination"
    ∷ codes "bucket"
    ∷ codes "cache_key"
    ∷ []

unfoldable pub is_artifact_publication_tool : ArtifactGuardPolicy → Text → Bool
is_artifact_publication_tool policy tool_name =
    if is_nil policy.publication_tools
    then any_of (contains_text (lower tool_name)) publish_tool_markers
    else contains policy.publication_tools tool_name

unfoldable pub authority_allows_publication : AuthorityContext → Text → Bool
authority_allows_publication authority target =
    any_of
      (λ scope.
        starts_with (codes "artifact:") scope
        && (scope == codes "artifact:*" || contains_text (lower scope) (lower target)))
      authority.resource_scope
    || any_of
        (λ capability.
          contains (codes "artifact:*" ∷ codes "artifact:publish" ∷ codes "ci:publish" ∷ [])
            capability
          || (starts_with (codes "artifact:") capability
              && contains_text (lower capability) (lower target)))
        authority.capabilities

-- the first argument of those names that is a text
unfoldable pub publication_target : Fields → Text → List Text → Text
publication_target args tool_name [] = tool_name
publication_target args tool_name (key ∷ keys) =
    let later = publication_target args tool_name keys in
    elim (get key args) [ some (text t) ↦ t | _ ↦ later ]

-- the violations; the tool is looked at only where the policy is enabled
unfoldable pub evaluate_artifact_publication :
    (Text → ℕ)
    → Text
    → Fields
    → ArtifactGuardPolicy
    → AuthorityContext
    → Option Text
    → List PolicyViolation
unfolding is_artifact_publication_tool authority_allows_publication publication_target
evaluate_artifact_publication secrets tool_name args policy authority payload =
    let target = publication_target args tool_name artifact_arg_keys in
    let denied : List PolicyViolation =
      if policy.require_publication_capability
        && not (authority_allows_publication authority target)
      then publication_denied target ∷ []
      else [] in
    let scanned : List PolicyViolation = elim payload [
      | none ↦ []
      | some t ↦
          if policy.deny_secret_in_artifacts && ltb 0 (secrets t)
          then secrets_in_payload ∷ []
          else []
    ] in
    if not policy.enabled
    then []
    else if not (is_artifact_publication_tool policy tool_name)
    then []
    else denied ++ scanned
