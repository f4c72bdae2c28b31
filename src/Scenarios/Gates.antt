-- ===== src/Scenarios/Gates.antt =====
-- The checks of a policy at concrete inputs.
use clayseal_receipts.Prelude.{
  ℕ, ◌+◌, ◌≤◌, String, ◌≡◌, refl, Option, none, some, true, List, [], ◌∷◌, Text, codes, pos,
  text_eq, nat_eq, strip, lower, ltb,
}
use clayseal_receipts.Operations.{read_only}
use clayseal_receipts.Decision.{can_execute}
use clayseal_receipts.Mandate.{Numbers}
use clayseal_receipts.Paths.Patterns.{fnmatchcase}
use clayseal_receipts.Resources.{parse_resource_ref}
use clayseal_receipts.Assurance.{tier_ordinal, sender_constrained, tier_meets, parse_trust_tier}
use clayseal_receipts.TaskScope.{raw_path_matches_any, TaskScope, action_path_candidates}
use clayseal_receipts.Policy.{
  monitoring_violations, check_output, AuthorityContext, ExecutionContext, Policy, PolicyViolation,
  OutputValue, number, no_fields, field_of, text,
}
use clayseal_receipts.Policy.Tiers.{supports, effective_authority_trust_tier_greatest}
use clayseal_receipts.Policy.Trust.{effective_authority_trust_tier}
use clayseal_receipts.Policy.Engine.{authority_violations, evaluate, decided}
use clayseal_receipts.Policy.Decisions.{IsCleared, evaluate-IsCleared}
use clayseal_receipts.Policy.Hosts.{authority_allows_network, host_allowed}
use clayseal_receipts.Policy.Scopes.{
  authority_ref_violations, authorization_approval_id, task_scope_violations,
  governed_runtime_violations,
}
use clayseal_receipts.Policy.Capabilities.{authority_capabilities_allow, resource_scope_allows}
use clayseal_receipts.Policy.Artifacts.{evaluate_artifact_publication}
use clayseal_receipts.Policy.Arguments.{collect_fields}
use clayseal_receipts.Policy.Egress.{
  evaluate_egress, add_destination, add_url, add_host, add_value, is_network_tool, host_from_url,
  NetworkDestination,
}
use clayseal_receipts.Policy.Credentials.{
  evaluate_credential_access, path_allowed, default_denied_patterns,
}
use clayseal_receipts.Policy.Gate.{
  Services, tool_name_of, with_compiled_scope, pre_execution_violations,
}
use clayseal_receipts.Policy.Gate.Laws.{
  IsGated, pre_execution_violations-IsGated, pre_execution_violations-host_allowed,
  pre_execution_violations-path_allowed,
}

-- an agent with verified evidence, whose lease has three calls left
abbrev agent : AuthorityContext
agent = record {
  authority_id = "a";
  workload_principal = none;
  authority_version = 2;
  session_id = some "s";
  capabilities = codes "http:fetch" ∷ codes "network:*" ∷ [];
  scope_claims = [];
  capability_rules = [];
  attestation_type = none;
  expires_at = some (codes "20");
  lease_query_id = some "q";
  lease_remaining_calls = some (pos 3);
  permit_epoch = pos 0;
  trust_tier = some "signed";
  proof_of_possession = some true;
  presenter_key_hash = some "k";
  has_capability_grant = some true;
  resource_scope = [];
  budget_refs = [];
  approval_refs = "ap" ∷ [];
  evidence_verified = true;
}

effective_authority_trust_tier_greatest_example :
    (supports agent (effective_authority_trust_tier agent).0 ≡ true)
    × (tier_ordinal sender_constrained ≤ tier_ordinal (effective_authority_trust_tier agent).0)
effective_authority_trust_tier_greatest_example =
    effective_authority_trust_tier_greatest agent sender_constrained (unfold supports in refl)

abbrev naturals : Numbers
naturals = record { Amount = ℕ; nothing = 0; plus = λ a b. a + b; below = ltb }

abbrev file_scope : TaskScope
file_scope = record {
  allowed_paths = codes "src/*" ∷ [];
  denied_paths = codes "*.pem" ∷ [];
  allowed_actions = [];
  allowed_resources = [];
  task_summary = none;
  mandate_id = none;
  source_schema = none;
}

abbrev pub call : ExecutionContext ℕ
call = record {
  action = record {
    action_name = codes "mcp.tools/call/fetch";
    action_category = codes "custom";
    resource_type = some (codes "http");
    resource_ref = some (codes "file:src/a");
    side_effect_level = read_only;
  };
  authority = agent;
  query_id = some "q";
  authorization = some (record {
    approval_id = some "ap";
    nested_approval_id = none;
    budget_id = none;
    gateway_token = some (codes "receipted_mcp_gateway");
    task_scope = some file_scope;
    monitoring_score = some 2;
  });
  input =
      field_of (codes "url") (text (codes "http://b"))
        (field_of (codes "path") (text (codes "notes.txt")) no_fields);
}

abbrev pub rules : Policy ℕ
rules = record {
  egress = record { enabled = true; default_deny = true; allowed_hosts = []; network_tools = [] };
  credential_access = record {
    enabled = true;
    default_deny = true;
    denied_paths = default_denied_patterns;
    allowed_paths = [];
    read_tools = [];
  };
  artifact_guard = record {
    enabled = true;
    deny_secret_in_artifacts = true;
    require_publication_capability = true;
    publication_tools = [];
  };
  governed_runtime = record { require_gateway = true; block_ungoverned_tool_actions = true };
  numeric_ranges = record { field = "n"; min = 1; max = 9 } ∷ [];
  allowed_tools = none;
  output_schema_required = "n" ∷ [];
  min_trust_tier = some "sender_constrained";
  monitoring = record {
    enabled = true;
    review_threshold = 3;
    block_threshold = some 7;
    history_window = pos 32;
    thresholds_by_side_effect = [];
  };
}

abbrev output : List (String × OutputValue ℕ)
output = ("n", number 5) ∷ []

abbrev clock : Text → Option ℕ
clock t = some 20

abbrev message : PolicyViolation → String
message v = "violation"

decides :
    evaluate naturals clock 12 message ℕ rules output (some call) []
    ≡ some (decided naturals clock 12 message ℕ (some call) [])
unfolding evaluate authority_violations parse_trust_tier authority_capabilities_allow
    parse_resource_ref tier_ordinal tier_meets authority_ref_violations authorization_approval_id
    action_path_candidates raw_path_matches_any monitoring_violations check_output strip lower
    fnmatchcase
decides = refl

evaluate-IsCleared_example :
    (◌≡◌ {A = List String} [] []) × IsCleared naturals clock 12 rules output call
evaluate-IsCleared_example =
    evaluate-IsCleared naturals clock 12 message ℕ rules output call []
      (decided naturals clock 12 message ℕ (some call) []) decides
      (unfold can_execute decided in refl)

abbrev services : Services
services = record {
  from_iso = clock;
  urlparse = λ t.
      some (record {
        scheme = codes "http";
        hostname = some (codes "b");
        port = some none;
        path = [];
      });
  hash_arguments = λ fields. "hash";
  secrets = λ t. 0;
}

abbrev compiled : List Text
compiled = codes "file:src/*" ∷ []

abbrev gated : ExecutionContext ℕ
gated = with_compiled_scope compiled call

passes : pre_execution_violations naturals services 12 call rules compiled ≡ some []
unfolding pre_execution_violations authority_violations parse_trust_tier
    authority_capabilities_allow parse_resource_ref resource_scope_allows tier_ordinal tier_meets
    authority_ref_violations authorization_approval_id action_path_candidates raw_path_matches_any
    monitoring_violations evaluate_egress add_url add_host is_network_tool collect_fields add_value
    authority_allows_network evaluate_credential_access evaluate_artifact_publication
    task_scope_violations governed_runtime_violations strip lower fnmatchcase add_destination
    host_allowed
passes = refl

pre_execution_violations-IsGated_example : IsGated naturals services 12 gated rules
pre_execution_violations-IsGated_example =
    pre_execution_violations-IsGated naturals services 12 call rules compiled passes

abbrev host_b : NetworkDestination
host_b = record {
  host = codes "b";
  scheme = some (codes "http");
  port = none;
  path = none;
  source = codes "url";
}

pre_execution_violations-host_allowed_example :
    host_allowed rules.egress gated.authority (tool_name_of gated) (codes "b") ≡ true
pre_execution_violations-host_allowed_example =
    pre_execution_violations-host_allowed naturals services 12 call rules compiled (codes "url")
      (codes "http://b") host_b refl
      (record {
        named = refl;
        given = refl;
        url = refl;
        parsed = unfold host_from_url strip lower in refl;
        host_there = refl;
      })
      passes

pre_execution_violations-path_allowed_example :
    path_allowed rules.credential_access gated.authority (strip (codes "notes.txt")) ≡ true
pre_execution_violations-path_allowed_example =
    pre_execution_violations-path_allowed naturals services 12 call rules compiled (codes "path")
      (codes "notes.txt") refl refl (unfold strip in refl) passes
