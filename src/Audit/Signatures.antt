-- ===== src/Audit/Signatures.antt =====
-- The record signatures of `AuditChain` (audit.py).
use clayseal_receipts.Prelude.{
  ℕ, ◌≡◌, refl, String, Option, none, some, List, [], ◌∷◌, ◌++◌, arith, pos, option_eq, string_eq,
  beq_self, ◌⊎◌, inl, inr, Option-cases, ◌∙◌,
}
use clayseal_receipts.Signing.{Signature, SignsCorrectly, sign}
use clayseal_receipts.Signing.Laws.{verify-sign, sign_public_key}
use clayseal_receipts.Revocation.{SignerRevocationRegistry, record_revocation_issues}
use clayseal_receipts.Audit.{
  Platform, AuditChain, AuditRow, append, verify_signatures, verify_rows, check_signature,
  record_issues, first_issue, signature_for, record_document, registry_or,
}

module _ (p : Platform) where
  open p use {crypto, Context, hash_document}

  verify_rows-snoc :
      (expected : Option String) (registry : Option SignerRevocationRegistry)
      (rows : List (AuditRow Context)) (r : AuditRow Context)
      → verify_rows p expected registry rows ≡ none
      → verify_rows p expected registry (rows ++ r ∷ [])
        ≡ check_signature p expected registry r.seq r.columns.record_hash r.signature
  unfolding verify_rows
  verify_rows-snoc expected registry [] r h =
      elim (Option-cases
        (check_signature p expected registry r.seq r.columns.record_hash r.signature)) [
          | inl e ↦ ground arith
          | inr (x, e) ↦ ground arith
        ]
  verify_rows-snoc expected registry (x ∷ rows) r h =
      elim (Option-cases
        (check_signature p expected registry x.seq x.columns.record_hash x.signature)) [
          | inl e ↦ ground (arith, verify_rows-snoc expected registry rows r)
          | inr (y, e) ↦ absurd (ground arith)
        ]

  not_revoked :
      (registry : Option SignerRevocationRegistry) (s : Signature) (pk : String) (seq : ℕ)
      → s.public_key ≡ some pk
      → ((r : SignerRevocationRegistry)
          → registry ≡ some r
          → record_revocation_issues r (some pk) (pos seq) ≡ [])
      → first_issue p seq (record_issues p registry s seq) ≡ none
  unfolding first_issue record_issues
  not_revoked none s pk seq key h = refl
  not_revoked (some r) s pk seq key h = rw (key, h r refl)

  check_signature-sign :
      SignsCorrectly crypto
      → (k : crypto.SigningKey) (expected : Option String)
        (registry : Option SignerRevocationRegistry) (seq : ℕ) (record_hash : String)
      → ((expected ≡ none) ⊎ (expected ≡ some (crypto.public_key_hex k)))
      → ((r : SignerRevocationRegistry)
          → registry ≡ some r
          → record_revocation_issues r (some (crypto.public_key_hex k)) (pos seq) ≡ [])
      → check_signature p expected registry seq record_hash
          (some (sign crypto hash_document k (record_document record_hash)))
        ≡ none
  unfolding check_signature
  check_signature-sign correct k expected registry seq record_hash key valid =
      let s = sign crypto hash_document k (record_document record_hash) in
      ground (
        arith,
        not_revoked registry s (crypto.public_key_hex k) seq
            (sign_public_key crypto hash_document k (record_document record_hash)) valid,
        verify-sign crypto hash_document correct k (record_document record_hash),
        sign_public_key crypto hash_document k (record_document record_hash),
        beq_self (crypto.public_key_hex k),
      )

  signed_row :
      SignsCorrectly crypto
      → (k : crypto.SigningKey) (expected : Option String)
        (registry : Option SignerRevocationRegistry) (seq : ℕ) (record_hash : String)
        (own : Option crypto.SigningKey)
      → own ≡ some k
      → ((expected ≡ none) ⊎ (expected ≡ some (crypto.public_key_hex k)))
      → ((r : SignerRevocationRegistry)
          → registry ≡ some r
          → record_revocation_issues r (some (crypto.public_key_hex k)) (pos seq) ≡ [])
      → check_signature p expected registry seq record_hash (signature_for p own record_hash) ≡ none
  unfolding signature_for
  signed_row correct k expected registry seq record_hash own signs key valid =
      rw signs (check_signature-sign correct k expected registry seq record_hash key valid)

  -- If the record signatures of a log verify, they verify after an append that signs with a key,
  -- when that is the expected key or none is expected, the key is not revoked at the new record's
  -- sequence number, and the Ed25519 library accepts its own signatures.
  pub append-verify_signatures :
      SignsCorrectly crypto
      → (c : AuditChain p) (k : crypto.SigningKey) (expected : Option String)
        (registry : Option SignerRevocationRegistry) (proof_id proof_hash action : String)
        (ctx : Context) (created_at : String)
      → c.signing_key ≡ some k
      → ((expected ≡ none) ⊎ (expected ≡ some (crypto.public_key_hex k)))
      → ((r : SignerRevocationRegistry)
          → registry_or p registry c.revocation_registry ≡ some r
          → record_revocation_issues r (some (crypto.public_key_hex k)) (pos c.next_seq) ≡ [])
      → verify_signatures p c expected registry ≡ none
      → verify_signatures p
          (append p c proof_id proof_hash action ctx created_at).0
          expected
          registry
        ≡ none
  unfolding verify_signatures append
  append-verify_signatures correct c k expected registry proof_id proof_hash action ctx created_at
        signs key valid h =
      let reg = registry_or p registry c.revocation_registry in
      verify_rows-snoc expected reg c.rows _ h
      ∙ signed_row correct k expected reg c.next_seq _ c.signing_key signs key valid
