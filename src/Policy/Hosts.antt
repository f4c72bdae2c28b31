-- ===== src/Policy/Hosts.antt =====
-- The hosts that a policy or an authority allows (egress.py).
use clayseal_receipts.Prelude.{
  Bool, not, ◌&&◌, ◌||◌, List, [], ◌∷◌, ◌++◌, map, text_eq, Text, codes, strip, lower, is_nil,
  contains, any_of, keep, starts_with, remove_prefix,
}
use clayseal_receipts.Operations.{RawCapability, or_empty}
use clayseal_receipts.Paths.Patterns.{fnmatchcase}
use clayseal_receipts.Policy.{AuthorityContext, EgressPolicy}

unfoldable pub host_matches_allowlist : Text → List Text → Bool
host_matches_allowlist host patterns =
    any_of (λ pattern. fnmatchcase (lower host) (remove_prefix (codes "network:") (lower pattern)))
      patterns

unfoldable pub rule_allows_host : Text → Text → RawCapability → Bool
unfolding host_matches_allowlist
rule_allows_host tool_name host item =
    let resource = strip (or_empty item.resource) in
    let action = strip (or_empty item.action) in
    contains (codes "network" ∷ codes "egress" ∷ codes "http" ∷ codes "mcp_tool" ∷ []) resource
    && (is_nil item.hosts || host_matches_allowlist host item.hosts)
    && contains (tool_name ∷ codes "call" ∷ codes "http_request" ∷ codes "*" ∷ []) action

abbrev pub is_network_scope : Text → Bool
is_network_scope scope = starts_with (codes "network:") scope

unfoldable pub authority_allows_network : AuthorityContext → Text → Text → Bool
unfolding rule_allows_host
authority_allows_network authority tool_name host =
    let h = lower host in
    let scopes =
      map (remove_prefix (codes "network:")) (keep is_network_scope authority.resource_scope) in
    host_matches_allowlist h scopes
    || any_of
        (λ scope.
          (is_network_scope scope && host_matches_allowlist h (scope ∷ []))
          || contains (tool_name ∷ (codes "network:" ++ h) ∷ codes "network:*" ∷ []) scope)
        authority.scope_claims
    || any_of (rule_allows_host tool_name h) authority.capability_rules
    || any_of
        (λ capability.
          (is_network_scope capability && host_matches_allowlist h (capability ∷ []))
          || contains (codes "network:*" ∷ codes "egress:*" ∷ []) capability)
        authority.capabilities

unfoldable pub host_allowed : EgressPolicy → AuthorityContext → Text → Text → Bool
host_allowed policy authority tool_name host =
    host_matches_allowlist host policy.allowed_hosts
    || authority_allows_network authority tool_name host
    || not policy.default_deny
