-- ===== src/Witness.antt =====
-- agentauth/receipts/witness.py: a witness signs a log's checkpoints only as the log grows.
pub mod Laws
pub mod Honest
use clayseal_receipts.Prelude.{
  String, Option, none, some, Bool, true, false, not, ◌&&◌, List, [], ◌∷◌, ◌++◌, ◌==◌, ◌!=◌,
  string_eq, option_eq, ℤ, pos, negsuc, ltb, eqb, if◌then◌else◌, ℕ,
}
use clayseal_receipts.Signing.{Signature, sign, verify}
use clayseal_receipts.Audit.{Platform, Checkpoint, CheckpointBody, Document, checkpoint_document}
use clayseal_receipts.Audit.Checkpoints.{AuditEnv, core_beq}
use clayseal_receipts.Audit.Proofs.{ConsistencyProof, TrustArguments, verify_consistency}

pub data WitnessRefusal : Type 0 where
  not_pinned_key invalid_log_signature no_valid_count regresses split_view : WitnessRefusal
  needs_proof inconsistent_history : WitnessRefusal

-- `failed` is any other exception, such as a proof that is not hexadecimal
pub data Cosigned : Type 0 where
  cosigned : Checkpoint → Cosigned
  refused : WitnessRefusal → Cosigned
  failed : Cosigned

-- what a witness is asked to sign
pub record Request : Type 0 where
  pub checkpoint : Checkpoint
  pub proof : Option ConsistencyProof

module _ (p : Platform) where
  open p use {crypto, hash_document}

  pub record Witness : Type 0 where
    pub signing_key : crypto.SigningKey
    pub log_public_key : Option String
    pub last_seen : Option CheckpointBody

  -- with `allow_unsafe`, which `cosign` passes
  pub add_witness_cosignature : Checkpoint → crypto.SigningKey → Checkpoint
  add_witness_cosignature checkpoint key =
      let descriptor = sign crypto hash_document key (checkpoint_document checkpoint.core) in
      record checkpoint {
        witness_cosignatures =
            checkpoint.witness_cosignatures ++ record descriptor { role = some "witness" } ∷ [];
      }

  -- the first test: a pinned log key must have signed the checkpoint
  log_key_refusal : Option String → Checkpoint → Option WitnessRefusal
  log_key_refusal none checkpoint = none
  log_key_refusal (some key) checkpoint = elim checkpoint.signature [
    | none ↦ some not_pinned_key
    | some s ↦
        if s.public_key != some key
        then some not_pinned_key
        else if not (verify crypto hash_document (checkpoint_document checkpoint.core) s)
        then some invalid_log_signature
        else none
  ]

  -- no argument of `verify_consistency` asks for trusted signers here
  abbrev pub no_trust : TrustArguments p
  no_trust = record { public_keys = []; key_ids = []; required_witnesses = 0; witness_keys = none }

  abbrev pub bare : CheckpointBody → Checkpoint
  bare core = record { core = core; signature = none; witness_cosignatures = [] }

  pub data Growth : Type 0 where
    accepted : Growth
    rejected : WitnessRefusal → Growth
    raised : Growth

  growth_by : AuditEnv → CheckpointBody → Checkpoint → Option ConsistencyProof → Growth
  growth_by env last checkpoint none = rejected needs_proof
  growth_by env last checkpoint (some proof) =
      elim (verify_consistency p env no_trust (bare last) checkpoint proof) [
        | none ↦ raised
        | some ok ↦ if ok then accepted else rejected inconsistent_history
      ]

  -- the second test, against the last core that was signed; its count is never negative
  pub growth : AuditEnv → Option CheckpointBody → Checkpoint → Option ConsistencyProof → ℕ → Growth
  unfolding growth_by core_beq
  growth env none checkpoint proof new_count = accepted
  growth env (some last) checkpoint proof new_count =
      let against : ℕ → Growth = λ last_count.
        if ltb new_count last_count
        then rejected regresses
        else if eqb new_count last_count
        then (if core_beq p checkpoint.core last then accepted else rejected split_view)
        else growth_by env last checkpoint proof in
      elim last.count [ none ↦ raised | some z ↦ elim z [ pos n ↦ against n | negsuc n ↦ raised ] ]

  valid_count : Option ℤ → Option ℕ
  valid_count none = none
  valid_count (some (pos n)) = some n
  valid_count (some (negsuc n)) = none

  unfoldable pub cosign :
      AuditEnv → Witness → Checkpoint → Option ConsistencyProof → Cosigned × Witness
  unfolding add_witness_cosignature log_key_refusal growth valid_count
  cosign env w checkpoint proof = elim (log_key_refusal w.log_public_key checkpoint) [
    | some reason ↦ (refused reason, w)
    | none ↦ elim (valid_count checkpoint.core.count) [
      | none ↦ (refused no_valid_count, w)
      | some new_count ↦ elim (growth env w.last_seen checkpoint proof new_count) [
        | rejected reason ↦ (refused reason, w)
        | raised ↦ (failed, w)
        | accepted ↦ (
          cosigned (add_witness_cosignature checkpoint w.signing_key),
          record w { last_seen = some checkpoint.core },
        )
      ]
    ]
  ]

  -- the cores that a witness signs as it serves requests one after the other
  core_of : Checkpoint → Cosigned → List CheckpointBody → List CheckpointBody
  core_of checkpoint (cosigned c) rest = checkpoint.core ∷ rest
  core_of checkpoint (refused r) rest = rest
  core_of checkpoint failed rest = rest

  pub signed_cores : AuditEnv → Witness → List Request → List CheckpointBody
  unfolding core_of
  signed_cores env w [] = []
  signed_cores env w (r ∷ rest) =
      let (outcome, w') = cosign env w r.checkpoint r.proof in
      core_of r.checkpoint outcome (signed_cores env w' rest)
