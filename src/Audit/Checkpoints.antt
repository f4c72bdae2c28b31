-- ===== src/Audit/Checkpoints.antt =====
-- Trust in a checkpoint (audit.py): the log's signature, the signer, the witnesses, revocation.
use clayseal_receipts.Prelude.{
  ℕ, String, Option, none, some, Bool, true, false, not, ◌&&◌, ◌||◌, List, [], ◌∷◌, ◌++◌, map, ◌==◌,
  string_eq, option_eq, int_eq, ltb, if◌then◌else◌, length, contains, is_nil,
}
use clayseal_receipts.Signing.{Signature, verify}
use clayseal_receipts.Signing.Bundles.{listed}
use clayseal_receipts.Revocation.{
  SignerRevocationRegistry, RevocationIssue, checkpoint_revocation_issues,
}
use clayseal_receipts.Audit.{
  Platform, AuditChain, Checkpoint, CheckpointBody, checkpoint_document, current_core, registry_or,
}

pub data CheckpointReason : Type 0 where
  unsigned_checkpoint invalid_signature no_trust_policy untrusted_signer : CheckpointReason

pub record CheckpointCheck : Type 0 where
  pub valid : Bool
  pub signed : Bool
  pub cryptographically_valid : Bool
  pub trust_configured : Bool
  pub trusted : Bool
  pub reasons : List CheckpointReason

pub data TrustIssue : Type 0 where
  reason : CheckpointReason → TrustIssue
  signer_revoked : RevocationIssue → TrustIssue
  bad_witness_setting : TrustIssue
  no_quorum : ℕ → ℕ → TrustIssue

-- the environment variables that stand in for arguments left out; `none` is a `ValueError`
pub record AuditEnv : Type 0 where
  pub public_keys : List String
  pub key_ids : List String
  pub witness_keys : List String
  pub required_witnesses : Option ℕ

abbrev or_env {ℓ} : {A : Type ℓ} → Option A → A → A
or_env none d = d
or_env (some a) d = a

module _ (p : Platform) where
  open p use {crypto, hash_document}

  unfoldable pub verify_signed_checkpoint : Checkpoint → List String → List String → CheckpointCheck
  verify_signed_checkpoint checkpoint trusted_public_keys trusted_key_ids =
      let configured = not (is_nil trusted_public_keys) || not (is_nil trusted_key_ids) in
      elim checkpoint.signature [
        | none ↦ record {
          valid = false;
          signed = false;
          cryptographically_valid = false;
          trust_configured = configured;
          trusted = false;
          reasons = unsigned_checkpoint ∷ [];
        }
        | some s ↦
            let trusted =
              listed s.public_key trusted_public_keys || listed s.key_id trusted_key_ids in
            if not (verify crypto hash_document (checkpoint_document checkpoint.core) s)
            then record {
              valid = false;
              signed = true;
              cryptographically_valid = false;
              trust_configured = configured;
              trusted = false;
              reasons = invalid_signature ∷ [];
            }
            else if not configured
            then record {
              valid = false;
              signed = true;
              cryptographically_valid = true;
              trust_configured = false;
              trusted = false;
              reasons = no_trust_policy ∷ [];
            }
            else record {
              valid = trusted;
              signed = true;
              cryptographically_valid = true;
              trust_configured = true;
              trusted = trusted;
              reasons = if trusted then [] else untrusted_signer ∷ [];
            }
      ]

  -- the loop of `count_valid_witness_cosignatures`, with its set of keys
  unfoldable pub witness_keys :
      CheckpointBody → Option (List String) → List String → List Signature → List String
  witness_keys core trusted seen [] = seen
  witness_keys core trusted seen (s ∷ rest) =
      let counts : Option String = elim s.public_key [
        | none ↦ none
        | some key ↦
            let known : Bool = elim trusted [ none ↦ true | some keys ↦ contains keys key ] in
            if contains seen key
            then none
            else if not known
            then none
            else if verify crypto hash_document (checkpoint_document core) s
            then some key
            else none
      ] in
      witness_keys core trusted (elim counts [ none ↦ seen | some key ↦ key ∷ seen ]) rest

  unfoldable pub count_valid_witness_cosignatures : Checkpoint → Option (List String) → ℕ
  unfolding witness_keys
  count_valid_witness_cosignatures checkpoint trusted_keys =
      length (witness_keys checkpoint.core trusted_keys [] checkpoint.witness_cosignatures)

  witness_quorum : Checkpoint → AuditEnv → Option (List String) → ℕ → List TrustIssue
  unfolding count_valid_witness_cosignatures
  witness_quorum checkpoint env trusted_witness_keys required =
      let count =
        count_valid_witness_cosignatures checkpoint
          (some (or_env trusted_witness_keys env.witness_keys)) in
      if ltb 0 required && ltb count required then no_quorum count required ∷ [] else []

  unfoldable pub checkpoint_issues :
      Option SignerRevocationRegistry → Checkpoint → List RevocationIssue
  checkpoint_issues none checkpoint = []
  checkpoint_issues (some registry) checkpoint =
      checkpoint_revocation_issues registry checkpoint.signature checkpoint.core.count

  unfoldable pub checkpoint_trust_issues :
      AuditEnv
      → Checkpoint
      → Option (List String)
      → Option (List String)
      → Option ℕ
      → Option (List String)
      → Option SignerRevocationRegistry
      → List TrustIssue
  unfolding verify_signed_checkpoint witness_quorum checkpoint_issues
  checkpoint_trust_issues env checkpoint public_keys key_ids required trusted_witness_keys
        registry =
      let keys = or_env public_keys env.public_keys in
      let ids = or_env key_ids env.key_ids in
      let check = verify_signed_checkpoint checkpoint keys ids in
      let signer : List TrustIssue = if check.valid then [] else map reason check.reasons in
      let revocation = map signer_revoked (checkpoint_issues registry checkpoint) in
      let quorum : List TrustIssue = elim required [
        | some n ↦ witness_quorum checkpoint env trusted_witness_keys n
        | none ↦ elim env.required_witnesses [
          | some n ↦ witness_quorum checkpoint env trusted_witness_keys n
          | none ↦ bad_witness_setting ∷ []
        ]
      ] in
      if is_nil keys && is_nil ids then [] else signer ++ (revocation ++ quorum)

  unfoldable pub core_beq : CheckpointBody → CheckpointBody → Bool
  core_beq a b =
      a.count == b.count
      && a.tip_hash == b.tip_hash
      && a.merkle_root == b.merkle_root
      && a.genesis == b.genesis

  -- `none` where a column of the log is not hexadecimal
  unfoldable pub verify_checkpoint :
      AuditChain p
      → Checkpoint
      → ℕ
      → Option (List String)
      → Option SignerRevocationRegistry
      → Option Bool
  unfolding core_beq count_valid_witness_cosignatures checkpoint_issues
  verify_checkpoint c checkpoint required_witnesses trusted_witness_keys registry =
      let accepted : CheckpointBody → Bool = λ current.
        let signature_ok : Bool = elim checkpoint.signature [
          | none ↦ true
          | some s ↦ verify crypto hash_document (checkpoint_document current) s
        ] in
        let enough = not (
          ltb 0 required_witnesses
          && ltb (count_valid_witness_cosignatures checkpoint trusted_witness_keys)
              required_witnesses) in
        core_beq checkpoint.core current
        && signature_ok
        && enough
        && is_nil (checkpoint_issues (registry_or p registry c.revocation_registry) checkpoint) in
      elim (current_core p c) [ none ↦ none | some current ↦ some (accepted current) ]
