-- ===== src/Scenarios/Delegations.antt =====
-- Capabilities and delegations at concrete inputs.
use clayseal_receipts.Prelude.{
  String, ◌≡◌, refl, ◌↔◌, none, some, true, List, [], ◌∷◌, ◌++◌, Text, codes, pos, text_eq,
  string_eq, strip,
}
use clayseal_receipts.Signing.{Signature, sign, verify}
use clayseal_receipts.Operations.{
  RawCapability, CapabilityOperation, capability_subset, capability_allows, mcp_tool,
  operation_for_mcp_tool,
}
use clayseal_receipts.Operations.Attenuation.{capability_subset_iff}
use clayseal_receipts.Delegation.{
  chain_violations, delegation_from_envelope, link, sign_delegation, capabilities_from_raw, Link,
  DelegationToken, root, child, Document, Envelope, lone, with_parent, is_valid_at,
  verify_delegation_chain, verify_delegation_envelope, asked_operation, delegation_schema,
}
use clayseal_receipts.Delegation.Chain.{AllAllow, IsVouched, verify_delegation_chain-AllAllow}
use clayseal_receipts.Delegation.Envelopes.{AllAuthentic, verify_delegation_envelope-AllAuthentic}
use clayseal_receipts.Delegation.Issue.{Request, issue_delegation, issue_under, issued_link}
use clayseal_receipts.Delegation.Issuance.{issue_delegation-extends}
use clayseal_receipts.Delegation.Roundtrip.{verify_delegation_envelope-sign_delegation}
use clayseal_receipts.Scenarios.Platforms.{key_pairs, key_pairs-SignsCorrectly}

abbrev any_tool : List RawCapability
any_tool = record { resource = some mcp_tool; action = some (codes "*"); hosts = [] } ∷ []

abbrev one_tool : List RawCapability
one_tool =
    record { resource = some (codes " mcp_tool"); action = some (codes "pay"); hosts = [] } ∷ []

capability_subset_iff_example : (capability_subset one_tool any_tool "chain" ≡ []) ↔ (
    (resource action : Text)
    → capability_allows one_tool resource action ≡ true
    → capability_allows any_tool resource action ≡ true)
capability_subset_iff_example = capability_subset_iff one_tool any_tool "chain"

abbrev link_of : List RawCapability → Link
link_of capabilities = record {
  delegation_id = "d";
  delegate_agent_id = "agent";
  capabilities = capabilities;
  depth = 0;
  issued_at = 10;
  expires_at = 20;
  principal_id = none;
  organization = none;
}

abbrev token : DelegationToken
token = child (link_of one_tool) (root (link_of any_tool))

abbrev hash_claim : Document → String
hash_claim document = elim document.parent_commitment [ none ↦ "root" | some above ↦ "child" ]

abbrev pay : CapabilityOperation
pay = record { resource = mcp_tool; action = codes "pay" }

abbrev pub signature_of : String → Signature
signature_of text = record {
  alg = some "ed25519";
  key_id = some "key";
  public_key = some "key";
  signature = some text;
  role = none;
}

abbrev envelope : Envelope
envelope =
    with_parent
      (some (record {
        schema = some delegation_schema;
        fields = some (link_of one_tool);
        parent = none;
        parent_commitment = some "root";
      }))
      (some (signature_of "child"))
      (lone
        (some (record {
          schema = some delegation_schema;
          fields = some (link_of any_tool);
          parent = none;
          parent_commitment = none;
        }))
        (some (signature_of "root")))

verify_delegation_envelope-AllAuthentic_example : AllAuthentic key_pairs hash_claim envelope
verify_delegation_envelope-AllAuthentic_example =
    verify_delegation_envelope-AllAuthentic key_pairs hash_claim envelope
      (unfold verify_delegation_envelope verify in refl)

verify_delegation_chain-AllAllow_example :
    (is_valid_at token 15 ≡ true)
    × IsVouched key_pairs hash_claim token true (some envelope)
    × AllAllow pay token
verify_delegation_chain-AllAllow_example =
    verify_delegation_chain-AllAllow key_pairs hash_claim 15 token none (some (codes "pay"))
      (some envelope) true pay (unfold asked_operation operation_for_mcp_tool in refl)
      (unfold verify_delegation_chain verify_delegation_envelope verify operation_for_mcp_tool
          capability_allows strip capability_subset in
        refl)

abbrev parent_envelope : Envelope
parent_envelope =
    lone
      (some (record {
        schema = some delegation_schema;
        fields = some (link_of any_tool);
        parent = none;
        parent_commitment = none;
      }))
      (some (signature_of "root"))

verify_delegation_envelope-sign_delegation_example :
    verify_delegation_envelope key_pairs hash_claim true envelope ≡ []
verify_delegation_envelope-sign_delegation_example =
    verify_delegation_envelope-sign_delegation key_pairs hash_claim key_pairs-SignsCorrectly token
      "key" (some parent_envelope) envelope
      (unfold sign_delegation verify_delegation_envelope sign verify capabilities_from_raw in refl)

abbrev request : Request
request = record {
  delegate_agent_id = "helper";
  capabilities = one_tool ++ any_tool;
  certificate = none;
  ttl_seconds = pos 5;
  principal_id = none;
  organization = some "";
}

-- the parent in the envelope, whose capabilities come without hosts
abbrev principal_token : DelegationToken
principal_token = root (link_of any_tool)

abbrev issued_token : DelegationToken
issued_token = child (issued_link 12 "e" 1 request) principal_token

issue_delegation-extends_example :
    ((link issued_token).depth ≡ 1)
    × (chain_violations key_pairs hash_claim issued_token
        ≡ chain_violations key_pairs hash_claim principal_token)
    × ((operation : CapabilityOperation)
        → AllAllow operation issued_token ↔ (
            (capability_allows request.capabilities operation.resource operation.action ≡ true)
            × AllAllow operation principal_token))
unfolding issued_link
issue_delegation-extends_example =
    issue_delegation-extends key_pairs hash_claim 12 "e" none request (some parent_envelope)
      issued_token principal_token refl
      (unfold issue_delegation issue_under verify_delegation_envelope delegation_from_envelope
          capabilities_from_raw capability_subset strip verify in
        refl)
