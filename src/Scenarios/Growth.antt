-- ===== src/Scenarios/Growth.antt =====
-- A log that grows by a record, its consistency proof, and a witness that signs the growth.
use clayseal_receipts.Prelude.{
  ℕ, ◌≡◌, refl, none, some, true, List, [], ◌∷◌, length, ◌++◌, some-inj,
}
use clayseal_receipts.Merkle.{rfc6962_root}
use clayseal_receipts.Merkle.Split.{largest_power_of_two_below}
use clayseal_receipts.Audit.{AuditRow, Checkpoint, append, signed_checkpoint}
use clayseal_receipts.Audit.Proofs.{ConsistencyProof, consistency_proof, verify_consistency}
use clayseal_receipts.Audit.Consistency.{verify_consistency-consistency_proof}
use clayseal_receipts.Witness.{Witness, cosign, cosigned, no_trust, add_witness_cosignature}
use clayseal_receipts.Witness.Honest.{cosign-signed_checkpoint}
use clayseal_receipts.Scenarios.Platforms.{toy, from_unary-unary, key_pairs-SignsCorrectly}
use clayseal_receipts.Scenarios.Logs.{
  one_record, two_records, fresh, environment, hashes, hashes_read, checkpoint_of,
}

abbrev appended : List (AuditRow ℕ)
appended = (append toy one_record "p2" "h2" "ab" 0 "t2").1 ∷ []

appended_grows : two_records.rows ≡ one_record.rows ++ appended
unfolding append
appended_grows = refl

verify_consistency-consistency_proof_example :
    (old : Checkpoint) × (new : Checkpoint) × (proof : ConsistencyProof) × (signed_checkpoint toy
        one_record
      ≡ some old)
    × (signed_checkpoint toy two_records ≡ some new)
    × (consistency_proof toy two_records (length one_record.rows) none ≡ some proof)
    × (verify_consistency toy environment (no_trust toy) old new proof ≡ some true)
verify_consistency-consistency_proof_example =
    verify_consistency-consistency_proof toy from_unary-unary environment (no_trust toy) one_record
      two_records appended hashes refl refl refl appended_grows hashes_read

-- the log's key is pinned, and its first checkpoint was signed
abbrev pinning : Witness toy
pinning = record fresh {
  log_public_key = some "log";
  last_seen = some (checkpoint_of one_record).core;
}

first_signed : signed_checkpoint toy one_record ≡ some (checkpoint_of one_record)
unfolding signed_checkpoint append rfc6962_root largest_power_of_two_below
first_signed = refl

cosign-signed_checkpoint_example :
    (new : Checkpoint) × (proof : ConsistencyProof) × (signed_checkpoint toy two_records ≡ some new)
    × (consistency_proof toy two_records (length one_record.rows) none ≡ some proof)
    × (cosign toy environment pinning new (some proof) ≡ (
      cosigned (add_witness_cosignature toy new "witness"),
      record pinning { last_seen = some new.core },
    ))
cosign-signed_checkpoint_example =
    cosign-signed_checkpoint toy from_unary-unary key_pairs-SignsCorrectly environment pinning
      one_record two_records appended hashes (checkpoint_of one_record) appended_grows hashes_read
      first_signed refl (λ key pinned. ("log", unfold append in refl, some-inj pinned))
