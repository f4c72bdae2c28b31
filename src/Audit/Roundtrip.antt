-- ===== src/Audit/Roundtrip.antt =====
-- A log accepts the checkpoint that it signs (audit.py).
use clayseal_receipts.Prelude.{
  ℕ, ◌≡◌, refl, String, Option, none, some, true, List, [], arith, ℤ, pos, option_eq, string_eq,
  int_eq, beq_self, length, Option-cases, inl, inr,
}
use clayseal_receipts.Signing.{Signature, SignsCorrectly, sign}
use clayseal_receipts.Signing.Laws.{verify-sign, sign_public_key}
use clayseal_receipts.Revocation.{
  SignerRevocationRegistry, record_revocation_issues, checkpoint_revocation_issues,
}
use clayseal_receipts.C2sp.{Bytes, c2sp_hasher}
use clayseal_receipts.Merkle.{rfc6962_root}
use clayseal_receipts.Audit.{
  Platform, AuditChain, Checkpoint, CheckpointBody, checkpoint_document, rfc6962_entries,
  merkle_root, current_core, checkpoint_signature, signed_checkpoint, registry_or, tip_hash,
  genesis,
}
use clayseal_receipts.Audit.Checkpoints.{core_beq, verify_checkpoint, checkpoint_issues}

module _ (p : Platform) where
  open p use {crypto, hash_document}

  pub core_beq_self : (core : CheckpointBody) → core_beq p core core ≡ true
  unfolding core_beq
  core_beq_self core = ground (
    arith,
    beq_self core.count,
    beq_self core.tip_hash,
    beq_self core.merkle_root,
    beq_self core.genesis,
  )

  current_core_lem :
      (c : AuditChain p) (entries : List Bytes)
      → rfc6962_entries p c ≡ some entries
      → (core : CheckpointBody) × (current_core p c ≡ some core)
        × (core.count ≡ some (pos (length c.rows)))
  unfolding current_core merkle_root
  current_core_lem c entries read = (
    record {
      count = some (pos (length c.rows));
      tip_hash = some (tip_hash p c);
      merkle_root = some (p.hex (rfc6962_root (c2sp_hasher p.sha256) entries));
      genesis = some (genesis p);
    },
    ground arith,
    refl,
  )

  no_issues :
      (registry : Option SignerRevocationRegistry) (checkpoint : Checkpoint)
      → ((r : SignerRevocationRegistry)
          → registry ≡ some r
          → checkpoint_revocation_issues r checkpoint.signature checkpoint.core.count ≡ [])
      → checkpoint_issues p registry checkpoint ≡ []
  unfolding checkpoint_issues
  no_issues none checkpoint h = refl
  no_issues (some r) checkpoint h = h r refl

  signer_lem :
      (r : SignerRevocationRegistry) (s : Signature) (key : String) (count : Option ℤ) (n : ℕ)
      → s.public_key ≡ some key
      → count ≡ some (pos n)
      → record_revocation_issues r (some key) (pos n) ≡ []
      → checkpoint_revocation_issues r (some s) count ≡ []
  unfolding checkpoint_revocation_issues
  signer_lem r s key count n signer size valid = rw (size, signer) valid

  -- A log whose hashes are hexadecimal signs a checkpoint that it accepts, when the key that it
  -- signs with, if any, is not revoked at the log's size and the Ed25519 library accepts its own
  -- signatures.
  pub verify_checkpoint-signed_checkpoint :
      SignsCorrectly crypto
      → (c : AuditChain p) (entries : List Bytes) (registry : Option SignerRevocationRegistry)
      → rfc6962_entries p c ≡ some entries
      → ((r : SignerRevocationRegistry) (k : crypto.SigningKey)
          → registry_or p registry c.revocation_registry ≡ some r
          → c.signing_key ≡ some k
          → record_revocation_issues r (some (crypto.public_key_hex k)) (pos (length c.rows)) ≡ [])
      → (checkpoint : Checkpoint) × (signed_checkpoint p c ≡ some checkpoint)
        × (verify_checkpoint p c checkpoint 0 none registry ≡ some true)
  unfolding signed_checkpoint verify_checkpoint checkpoint_signature
  verify_checkpoint-signed_checkpoint correct c entries registry read valid =
      let (core, now, size) = current_core_lem c entries read in
      let registry' = registry_or p registry c.revocation_registry in
      elim (Option-cases c.signing_key) [
        | inl e ↦
            let checkpoint : Checkpoint = record {
              core = core;
              signature = none;
              witness_cosignatures = [];
            } in
            (
              checkpoint,
              ground arith,
              ground (
                arith,
                core_beq_self core,
                no_issues registry' checkpoint
                    (λ r known. unfold checkpoint_revocation_issues in refl),
              ),
            )
        | inr (k, e) ↦
            let s = sign crypto hash_document k (checkpoint_document core) in
            let checkpoint : Checkpoint = record {
              core = core;
              signature = some s;
              witness_cosignatures = [];
            } in
            (
              checkpoint,
              ground arith,
              ground (
                arith,
                core_beq_self core,
                verify-sign crypto hash_document correct k (checkpoint_document core),
                no_issues registry' checkpoint (λ r known.
                    signer_lem r s (crypto.public_key_hex k) core.count (length c.rows)
                      (sign_public_key crypto hash_document k (checkpoint_document core)) size
                      (valid r k known e)),
              ),
            )
      ]
