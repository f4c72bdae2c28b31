-- ===== src/Signing/Laws.antt =====
-- Signing and verification agree (signing.py).
use clayseal_receipts.Prelude.{
  String, ◌≡◌, refl, some, true, arith, eq_iff, string_eq, option_eq, Option-cases, inl, inr,
}
use clayseal_receipts.Signing.{
  Signature, Crypto, SignsCorrectly, sign, verify, signature_key_id_matches, ed25519_check,
}

module _ (c : Crypto) {V : Type 0} (hash : V → String) where
  -- A document signed with a key is accepted, if the Ed25519 library accepts its own signatures.
  pub verify-sign :
      SignsCorrectly c
      → (k : c.SigningKey) (value : V) → verify c hash value (sign c hash k value) ≡ true
  unfolding verify sign signature_key_id_matches ed25519_check
  verify-sign correct k value = ground (
    arith,
    correct k (hash value),
    eq_iff (c.key_hash (c.public_key_hex k)) (c.key_hash (c.public_key_hex k)),
    eq_iff "ed25519" "ed25519",
  )

  -- An accepted signature names the algorithm Ed25519, a public key whose hash is its key id, and
  -- a signature that the Ed25519 library accepts under that key for the document's hash.
  verify_sound :
      (value : V) (s : Signature)
      → verify c hash value s ≡ true
      → (pk : String) × (sig : String) × (s.alg ≡ some "ed25519")
        × (s.public_key ≡ some pk)
        × (s.key_id ≡ some (c.key_hash pk))
        × (s.signature ≡ some sig)
        × (c.ed25519_verify pk sig (hash value) ≡ true)
  unfolding verify signature_key_id_matches ed25519_check
  verify_sound value s h = elim (Option-cases s.public_key) [
    | inl e ↦ absurd (ground arith)
    | inr (pk, e) ↦ elim (Option-cases s.signature) [
      | inl e' ↦ absurd (ground arith)
      | inr (sig, e') ↦ elim (Option-cases s.key_id) [
        | inl e'' ↦ absurd (ground arith)
        | inr (id, e'') ↦ elim (Option-cases s.alg) [
          | inl a ↦ absurd (ground arith)
          | inr (alg, a) ↦ (
            pk,
            sig,
            ground (arith, eq_iff alg "ed25519"),
            e,
            ground (arith, eq_iff alg "ed25519", eq_iff id (c.key_hash pk)),
            e',
            ground (arith),
          )
        ]
      ]
    ]
  ]

  -- The descriptor names the signer.
  pub sign_public_key :
      (k : c.SigningKey) (value : V) → (sign c hash k value).public_key ≡ some (c.public_key_hex k)
  unfolding sign
  sign_public_key k value = refl
