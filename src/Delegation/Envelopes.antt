-- ===== src/Delegation/Envelopes.antt =====
-- What a verified delegation envelope holds (delegation.py).
use clayseal_receipts.Prelude.{
  String, ◌≡◌, refl, Option, none, some, true, List, [], ◌∷◌, arith, is_nil, string_eq, option_eq,
  option_beq_iff, eq_iff, Option-cases, inl, inr, not, ◌||◌, if◌then◌else◌,
}
use clayseal_receipts.Signing.{Signature, Crypto, verify}
use clayseal_receipts.Delegation.{
  DelegationToken, Document, Envelope, lone, with_parent, DelegationViolation, delegation_schema,
  commitment, own_violations, claimed_parent, parent_match, delegation_from_envelope,
  verify_delegation_signature, verify_delegation_envelope,
}

module _ (c : Crypto) (hash : Document → String) where
  -- a document of the schema, without a nested parent, whose signature is accepted
  pub record Authentic (document : Document) (signature : Option Signature) : Type 0 where
    pub of_schema : document.schema ≡ some delegation_schema
    pub not_nested : document.parent ≡ none
    pub signed : (s : Signature) × (signature ≡ some s) × (verify c hash document s ≡ true)

  -- every envelope up to the root is authentic, and each names the commitment of the one above
  abbrev pub AllAuthentic : Envelope → Type 0
  AllAuthentic (lone d signature) =
      (document : Document) × (d ≡ some document)
      × Authentic document signature
      × (document.parent_commitment ≡ none)
  AllAuthentic (with_parent d signature parent) =
      (document : Document) × (parent_token : DelegationToken) × (d ≡ some document)
      × Authentic document signature
      × (delegation_from_envelope parent ≡ some parent_token)
      × (document.parent_commitment ≡ some (commitment c hash parent_token))
      × AllAuthentic parent

  own_violations-Authentic :
      (d : Option Document) (signature : Option Signature)
      → own_violations c hash d signature ≡ []
      → (document : Document) × (d ≡ some document) × Authentic document signature
  unfolding own_violations verify_delegation_signature
  own_violations-Authentic none signature h = cc
  own_violations-Authentic (some document) none h = absurd (ground arith)
  own_violations-Authentic (some document) (some s) h = elim (Option-cases document.parent) [
    | inr (p, e) ↦ absurd (ground arith)
    | inl e ↦ (
      document,
      refl,
      record {
        of_schema = ground (arith, option_beq_iff document.schema (some delegation_schema));
        not_nested = e;
        signed = (s, refl, ground arith);
      },
    )
  ]

  -- an early return of violations that are none goes on to the rest
  no_early_return :
      (own rest : List DelegationViolation)
      → (if not true || not (is_nil own) then own else rest) ≡ []
      → (own ≡ []) × (rest ≡ [])
  no_early_return [] rest h = (refl, h)
  no_early_return (v ∷ own) rest h = cc

  -- If an envelope verifies with its chain, then it and every envelope above it has the schema, is
  -- signed and embeds no parent, each names the commitment of the token above, and the last names
  -- none.
  pub verify_delegation_envelope-AllAuthentic :
      (e : Envelope) → verify_delegation_envelope c hash true e ≡ [] → AllAuthentic e
  unfolding verify_delegation_envelope parent_match
  verify_delegation_envelope-AllAuthentic (lone d signature) h =
      let (own, rest) = no_early_return (own_violations c hash d signature) _ h in
      let (document, here, ok) = own_violations-Authentic d signature own in
      elim (Option-cases (claimed_parent c hash d)) [
        | inr (x, q) ↦ cc (rest, q)
        | inl q ↦ (document, here, ok, cc (here, q))
      ]
  verify_delegation_envelope-AllAuthentic (with_parent d signature parent) h =
      let (own, rest) = no_early_return (own_violations c hash d signature) _ h in
      let (document, here, ok) = own_violations-Authentic d signature own in
      elim (Option-cases (claimed_parent c hash d)) [
        | inl q ↦ absurd (ground arith)
        | inr (x, q) ↦ elim (Option-cases (delegation_from_envelope parent)) [
          | inl r ↦ absurd (ground arith)
          | inr (token, r) ↦ (
            document,
            token,
            here,
            ok,
            r,
            ground (arith, eq_iff (commitment c hash token) x),
            verify_delegation_envelope-AllAuthentic parent (ground arith),
          )
        ]
      ]
