-- ===== src/Delegation.antt =====
-- agentauth/core/delegation.py: delegation tokens, their signed envelopes and their chains.
-- Instants are numbers; identifiers are text; a JSON document is the value that it stands for.
pub mod Chain
pub mod Envelopes
pub mod Issue
pub mod Issuance
pub mod Roundtrip
use clayseal_receipts.Prelude.{
  ℕ, suc, ◌+◌, String, Option, none, some, Bool, true, false, not, ◌&&◌, ◌||◌, List, [], ◌∷◌, ◌++◌,
  map, ◌==◌, ◌!=◌, ◌⊎◌, inl, inr, string_eq, option_eq, Text, leb, ltb, if◌then◌else◌, is_nil,
}
use clayseal_receipts.Signing.{Signature, Crypto, sign, verify}
use clayseal_receipts.Operations.{
  RawCapability, CapabilityOperation, ActionDescriptor, Excess, capability_allows,
  capability_subset, operation_for_action, operation_for_mcp_tool, or_empty,
}

-- the fields of a `DelegationToken` but for its parent
pub record Link : Type 0 where
  pub delegation_id : String
  pub delegate_agent_id : String
  pub capabilities : List RawCapability
  pub depth : ℕ
  pub issued_at : ℕ
  pub expires_at : ℕ
  pub principal_id : Option String
  pub organization : Option String

pub data DelegationToken : Type 0 where
  root : Link → DelegationToken
  child : Link → DelegationToken → DelegationToken

abbrev pub link : DelegationToken → Link
link (root l) = l
link (child l parent) = l

-- a signed document; its fields are `none` where `from_dict` raises on them
pub record Document : Type 0 where
  pub schema : Option String
  pub fields : Option Link
  pub parent : Option DelegationToken
  pub parent_commitment : Option String

pub data Envelope : Type 0 where
  lone : Option Document → Option Signature → Envelope
  with_parent : Option Document → Option Signature → Envelope → Envelope

pub data DelegationViolation : Type 0 where
  document_missing unsupported_schema nested_parent signature_invalid : DelegationViolation
  missing_parent_envelope parent_unreadable parent_mismatch : DelegationViolation
  parent_without_commitment not_signed document_unreadable token_mismatch : DelegationViolation
  expired_or_not_yet_valid : DelegationViolation
  not_allowed : CapabilityOperation → DelegationViolation
  exceeds_parent : Excess → DelegationViolation

abbrev pub delegation_schema : String
delegation_schema = "agent-receipts.delegation.v1"

-- `_capabilities_from_raw`: both texts must be there and not empty
unfoldable pub capabilities_from_raw : List RawCapability → List RawCapability
capabilities_from_raw [] = []
capabilities_from_raw (raw ∷ rest) =
    let out = capabilities_from_raw rest in
    if not (is_nil (or_empty raw.resource)) && not (is_nil (or_empty raw.action))
    then record raw { hosts = [] } ∷ out
    else out

unfoldable pub is_valid_at : DelegationToken → ℕ → Bool
is_valid_at token at = leb (link token).issued_at at && ltb at (link token).expires_at

-- the fields that `from_dict` reads
unfoldable pub read_link : Link → Link
unfolding capabilities_from_raw
read_link l = record l { capabilities = capabilities_from_raw l.capabilities }

-- `DelegationToken.from_dict`
unfoldable pub from_dict : Document → Option DelegationToken
unfolding read_link
from_dict document = elim document.fields [
  | none ↦ none
  | some l ↦ elim document.parent [
    | none ↦ some (root (read_link l))
    | some parent ↦ some (child (read_link l) parent)
  ]
]

-- a token whose parent is that of the envelope
abbrev pub with_parent_token : DelegationToken → DelegationToken → DelegationToken
with_parent_token token parent = child (link token) parent

unfoldable pub delegation_from_document : Option Document → Option DelegationToken
unfolding from_dict
delegation_from_document none = none
delegation_from_document (some document) = from_dict document

unfoldable pub delegation_from_envelope : Envelope → Option DelegationToken
unfolding delegation_from_document
delegation_from_envelope (lone document signature) = delegation_from_document document
delegation_from_envelope (with_parent document signature parent) =
    let parent_token = delegation_from_envelope parent in
    elim (delegation_from_document document) [
      | none ↦ none
      | some token ↦ elim parent_token [ none ↦ none | some p ↦ some (with_parent_token token p) ]
    ]

module _ (c : Crypto) (hash : Document → String) where
  -- `to_signing_dict` and `commitment`
  unfoldable pub commitment : DelegationToken → String
  commitment (root l) = hash (record {
    schema = some delegation_schema;
    fields = some l;
    parent = none;
    parent_commitment = none;
  })
  commitment (child l parent) =
      let above = commitment parent in
      hash (record {
        schema = some delegation_schema;
        fields = some l;
        parent = none;
        parent_commitment = some above;
      })

  unfoldable pub to_signing_dict : DelegationToken → Document
  unfolding commitment
  to_signing_dict (root l) = record {
    schema = some delegation_schema;
    fields = some l;
    parent = none;
    parent_commitment = none;
  }
  to_signing_dict (child l parent) = record {
    schema = some delegation_schema;
    fields = some l;
    parent = none;
    parent_commitment = some (commitment parent);
  }

  unfoldable pub verify_delegation_signature : Option Document → Option Signature → Bool
  verify_delegation_signature none signature = false
  verify_delegation_signature (some document) none = false
  verify_delegation_signature (some document) (some signature) = verify c hash document signature

  -- the tests of one envelope without its parent
  unfoldable pub own_violations : Option Document → Option Signature → List DelegationViolation
  unfolding verify_delegation_signature
  own_violations none signature = document_missing ∷ []
  own_violations (some document) signature =
      let schema : List DelegationViolation =
        if document.schema == some delegation_schema then [] else unsupported_schema ∷ [] in
      let nested : List DelegationViolation = elim document.parent [
        | none ↦ []
        | some p ↦ nested_parent ∷ []
      ] in
      let signed : List DelegationViolation =
        if verify_delegation_signature (some document) signature
        then []
        else signature_invalid ∷ [] in
      schema ++ (nested ++ signed)

  abbrev pub claimed_parent : Option Document → Option String
  claimed_parent none = none
  claimed_parent (some document) = document.parent_commitment

  -- the parent's token against the commitment of the child
  unfoldable pub parent_match : Option DelegationToken → String → List DelegationViolation
  unfolding commitment
  parent_match none claimed = parent_unreadable ∷ []
  parent_match (some parent) claimed =
      if commitment parent != claimed then parent_mismatch ∷ [] else []

  -- the flag is `verify_chain`
  unfoldable pub verify_delegation_envelope : Bool → Envelope → List DelegationViolation
  unfolding own_violations parent_match delegation_from_envelope
  verify_delegation_envelope chain (lone document signature) =
      let violations = own_violations document signature in
      if not chain || not (is_nil violations) then violations else elim (claimed_parent document) [
        | none ↦ []
        | some claimed ↦ missing_parent_envelope ∷ []
      ]
  verify_delegation_envelope chain (with_parent document signature parent) =
      let violations = own_violations document signature in
      let above = verify_delegation_envelope true parent in
      if not chain || not (is_nil violations) then violations else elim (claimed_parent document) [
        | none ↦ parent_without_commitment ∷ []
        | some claimed ↦
            if is_nil above then parent_match (delegation_from_envelope parent) claimed else above
      ]

  -- the comparison of a token with its signed envelope
  unfoldable pub signed_violations :
      DelegationToken → Bool → Option Envelope → List DelegationViolation
  unfolding verify_delegation_envelope
  signed_violations token false envelope = []
  signed_violations token true none = not_signed ∷ []
  signed_violations token true (some envelope) =
      let violations = verify_delegation_envelope true envelope in
      if not (is_nil violations) then violations else elim (delegation_from_envelope envelope) [
        | none ↦ document_unreadable ∷ []
        | some signed ↦ if commitment signed != commitment token then token_mismatch ∷ [] else []
      ]

  unfoldable pub asked_operation :
      Option ActionDescriptor → Option Text → Option CapabilityOperation
  asked_operation (some action) tool_name = some (operation_for_action action)
  asked_operation none (some tool_name) = some (operation_for_mcp_tool tool_name)
  asked_operation none none = none

  unfoldable pub operation_violations :
      List RawCapability → Option CapabilityOperation → List DelegationViolation
  operation_violations capabilities none = []
  operation_violations capabilities (some operation) =
      if capability_allows capabilities operation.resource operation.action
      then []
      else not_allowed operation ∷ []

  -- the walk along the parents
  unfoldable pub chain_violations : DelegationToken → List DelegationViolation
  chain_violations (root l) = []
  chain_violations (child l parent) =
      map exceeds_parent (capability_subset l.capabilities (link parent).capabilities "chain")
      ++ chain_violations parent

  -- `at` is the clock
  unfoldable pub verify_delegation_chain :
      ℕ
      → Option DelegationToken
      → Option ActionDescriptor
      → Option Text
      → Option Envelope
      → Bool
      → List DelegationViolation
  unfolding signed_violations operation_violations asked_operation chain_violations is_valid_at
  verify_delegation_chain at none action tool_name envelope require_signature = []
  verify_delegation_chain at (some token) action tool_name envelope require_signature =
      let valid : List DelegationViolation =
        if is_valid_at token at then [] else expired_or_not_yet_valid ∷ [] in
      signed_violations token require_signature envelope
      ++ (valid
          ++ (operation_violations (link token).capabilities (asked_operation action tool_name)
              ++ chain_violations token))

  pub data SignError : Type 0 where
    parent_envelope_required : SignError
    parent_rejected : List DelegationViolation → SignError
    parent_envelope_unreadable parent_envelope_mismatch : SignError

  abbrev pub parent_of : DelegationToken → Option DelegationToken
  parent_of (root l) = none
  parent_of (child l parent) = some parent

  -- a parent envelope for a token without a parent raises: it has no commitment to compare
  unfoldable pub sign_delegation :
      DelegationToken → c.SigningKey → Option Envelope → Envelope ⊎ SignError
  unfolding to_signing_dict verify_delegation_envelope commitment
  sign_delegation token key none =
      let document = to_signing_dict token in
      elim (parent_of token) [
        | none ↦ inl (lone (some document) (some (sign c hash key document)))
        | some parent ↦ inr parent_envelope_required
      ]
  sign_delegation token key (some parent_envelope) =
      let document = to_signing_dict token in
      let violations = verify_delegation_envelope true parent_envelope in
      if not (is_nil violations)
      then inr (parent_rejected violations)
      else elim (delegation_from_envelope parent_envelope) [
        | none ↦ inr parent_envelope_unreadable
        | some parent_token ↦ elim (parent_of token) [
          | none ↦ inr parent_envelope_mismatch
          | some parent ↦
              if commitment parent_token != commitment parent
              then inr parent_envelope_mismatch
              else inl
                  (with_parent (some document) (some (sign c hash key document)) parent_envelope)
        ]
      ]
