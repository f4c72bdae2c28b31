-- ===== src/Delegation/Chain.antt =====
-- What an accepted delegation chain allows (delegation.py).
use clayseal_receipts.Prelude.{
  ℕ, String, ◌≡◌, refl, Option, some, Bool, true, List, [], ◌∷◌, map, Text, arith, nil_of_append,
  passed, none, not, is_nil, if◌then◌else◌, false, Option-cases, inl, inr, eq_iff, string_eq,
}
use clayseal_receipts.Signing.{Crypto}
use clayseal_receipts.Operations.{
  CapabilityOperation, ActionDescriptor, RawCapability, capability_allows,
}
use clayseal_receipts.Operations.Attenuation.{capability_subset_iff}
use clayseal_receipts.Delegation.{
  DelegationToken, root, child, link, Document, Envelope, exceeds_parent, expired_or_not_yet_valid,
  is_valid_at, asked_operation, signed_violations, operation_violations, chain_violations,
  verify_delegation_chain, DelegationViolation, verify_delegation_envelope,
  delegation_from_envelope, commitment,
}
use clayseal_receipts.Delegation.Envelopes.{AllAuthentic, verify_delegation_envelope-AllAuthentic}

-- Every link from the token up to the root of its chain allows the operation.
abbrev pub AllAllow : CapabilityOperation → DelegationToken → Type 0
AllAllow operation (root l) =
    capability_allows l.capabilities operation.resource operation.action ≡ true
AllAllow operation (child l parent) =
    (capability_allows l.capabilities operation.resource operation.action ≡ true)
    × AllAllow operation parent

map_nil : {A B : Type 0} (f : A → B) (xs : List A) → map f xs ≡ [] → xs ≡ []
map_nil f [] h = refl
map_nil f (x ∷ xs) h = cc

module _ (c : Crypto) (hash : Document → String) where
  chain_violations-AllAllow :
      (operation : CapabilityOperation) (token : DelegationToken)
      → chain_violations c hash token ≡ []
      → capability_allows (link token).capabilities operation.resource operation.action ≡ true
      → AllAllow operation token
  unfolding chain_violations
  chain_violations-AllAllow operation (root l) h allowed = allowed
  chain_violations-AllAllow operation (child l parent) h allowed =
      let (none_here, none_above) = nil_of_append _ (chain_violations c hash parent) h in
      let shrinks =
        (capability_subset_iff l.capabilities (link parent).capabilities "chain").0
          (map_nil exceeds_parent _ none_here) in
      (
        allowed,
        chain_violations-AllAllow operation parent none_above
            (shrinks operation.resource operation.action allowed),
      )

  operation_violations_nil :
      (capabilities : List RawCapability) (operation : CapabilityOperation)
      → operation_violations c hash capabilities (some operation) ≡ []
      → capability_allows capabilities operation.resource operation.action ≡ true
  unfolding operation_violations
  operation_violations_nil capabilities operation h = ground arith

  -- where a signature is required, the envelope is authentic up to the root and holds the token
  abbrev pub IsVouched : DelegationToken → Bool → Option Envelope → Type 0
  IsVouched token require_signature envelope =
      require_signature ≡ true
      → (e : Envelope) × (signed : DelegationToken) × (envelope ≡ some e)
        × AllAuthentic c hash e
        × (delegation_from_envelope e ≡ some signed)
        × (commitment c hash signed ≡ commitment c hash token)

  compared :
      (own rest : List DelegationViolation)
      → (if not (is_nil own) then own else rest) ≡ []
      → (own ≡ []) × (rest ≡ [])
  compared [] rest h = (refl, h)
  compared (v ∷ own) rest h = cc

  signed_violations-IsVouched :
      (token : DelegationToken) (require_signature : Bool) (envelope : Option Envelope)
      → signed_violations c hash token require_signature envelope ≡ []
      → IsVouched token require_signature envelope
  unfolding signed_violations
  signed_violations-IsVouched token false envelope h required = cc
  signed_violations-IsVouched token true none h required = cc
  signed_violations-IsVouched token true (some e) h required =
      let (authentic, same) = compared (verify_delegation_envelope c hash true e) _ h in
      elim (Option-cases (delegation_from_envelope e)) [
        | inl q ↦ absurd (ground arith)
        | inr (signed, q) ↦ (
          e,
          signed,
          refl,
          verify_delegation_envelope-AllAuthentic c hash e authentic,
          q,
          ground (arith, eq_iff (commitment c hash signed) (commitment c hash token)),
        )
      ]

  -- If no violation is found for a token and an operation, the token's own window holds that time;
  -- where a signature is required, its envelope is authentic at every level and holds a token of its
  -- commitment; and every link of the chain allows the operation, from the token to the root. The
  -- windows of the links above are not compared with the time.
  pub verify_delegation_chain-AllAllow :
      (at : ℕ) (token : DelegationToken) (action : Option ActionDescriptor)
      (tool_name : Option Text) (envelope : Option Envelope) (require_signature : Bool)
      (operation : CapabilityOperation)
      → asked_operation c hash action tool_name ≡ some operation
      → verify_delegation_chain c hash at (some token) action tool_name envelope require_signature
        ≡ []
      → (is_valid_at token at ≡ true)
        × IsVouched token require_signature envelope
        × AllAllow operation token
  unfolding verify_delegation_chain operation_violations
  verify_delegation_chain-AllAllow at token action tool_name envelope require_signature operation
        asked h =
      let (signed, rest) =
        nil_of_append (signed_violations c hash token require_signature envelope) _ h in
      let (timely, rest') = passed (is_valid_at token at) expired_or_not_yet_valid _ rest in
      let (allowed, shrinking) =
        nil_of_append
          (operation_violations c hash (link token).capabilities
            (asked_operation c hash action tool_name))
          (chain_violations c hash token) rest' in
      (
        timely,
        signed_violations-IsVouched token require_signature envelope signed,
        chain_violations-AllAllow operation token shrinking
            (operation_violations_nil (link token).capabilities operation (cc (allowed, asked))),
      )
