-- ===== src/Delegation/Roundtrip.antt =====
-- A delegation envelope that is signed verifies (delegation.py).
use clayseal_receipts.Prelude.{
  ◌≡◌, String, inl, inr, Option, none, some, true, [], arith, string_eq, option_eq, eq_iff,
  beq_self, Option-cases,
}
use clayseal_receipts.Signing.{Crypto, SignsCorrectly, sign}
use clayseal_receipts.Signing.Laws.{verify-sign}
use clayseal_receipts.Delegation.{
  DelegationToken, root, child, Document, Envelope, delegation_schema, commitment, own_violations,
  parent_match, delegation_from_envelope, verify_delegation_signature, verify_delegation_envelope,
  sign_delegation, to_signing_dict,
}

module _ (c : Crypto) (hash : Document → String) (correct : SignsCorrectly c) where
  own_violations-sign :
      (token : DelegationToken) (key : c.SigningKey)
      → own_violations c hash
          (some (to_signing_dict c hash token))
          (some (sign c hash key (to_signing_dict c hash token)))
        ≡ []
  unfolding own_violations verify_delegation_signature to_signing_dict
  own_violations-sign (root l) key = ground (
    arith,
    verify-sign c hash correct key (to_signing_dict c hash (root l)),
    beq_self delegation_schema,
  )
  own_violations-sign (child l parent) key = ground (
    arith,
    verify-sign c hash correct key (to_signing_dict c hash (child l parent)),
    beq_self delegation_schema,
  )

  -- Whenever signing a delegation returns an envelope, the envelope verifies with its chain, if the
  -- Ed25519 library accepts its own signatures.
  pub verify_delegation_envelope-sign_delegation :
      (token : DelegationToken) (key : c.SigningKey) (parent_envelope : Option Envelope)
      (e : Envelope)
      → sign_delegation c hash token key parent_envelope ≡ inl e
      → verify_delegation_envelope c hash true e ≡ []
  unfolding sign_delegation verify_delegation_envelope parent_match to_signing_dict
  verify_delegation_envelope-sign_delegation (root l) key none e h =
      ground (arith, own_violations-sign (root l) key)
  verify_delegation_envelope-sign_delegation (child l parent) key none e h = cc
  verify_delegation_envelope-sign_delegation (root l) key (some above) e h =
      elim (Option-cases (delegation_from_envelope above)) [
        | inl q ↦ absurd (ground arith)
        | inr (t, q) ↦ absurd (ground arith)
      ]
  verify_delegation_envelope-sign_delegation (child l parent) key (some above) e h =
      elim (Option-cases (delegation_from_envelope above)) [
        | inl q ↦ absurd (ground arith)
        | inr (t, q) ↦ ground (
          arith,
          own_violations-sign (child l parent) key,
          eq_iff (commitment c hash t) (commitment c hash parent),
        )
      ]
