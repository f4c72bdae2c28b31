-- ===== src/Scenarios/Logs.antt =====
-- A log of two records, its checkpoint, and a witness that signs it.
use clayseal_receipts.Prelude.{
  ℕ, ◌<◌, String, ◌≡◌, refl, ◌⊎◌, inr, none, some, true, List, [], ◌∷◌, ◌++◌, map, contains,
  string_eq, get_elem?, pos,
}
use native.Mathlib.Decide.{ℕ_discrete}
use clayseal_receipts.Merkle.{rfc6962_consistency_roots, rfc6962_root, rfc6962_root_from_path}
use clayseal_receipts.Merkle.Split.{largest_power_of_two_below}
use clayseal_receipts.C2sp.{Bytes}
use clayseal_receipts.C2sp.Soundness.{Collision}
use clayseal_receipts.Audit.{
  AuditChain, AuditRow, CheckpointBody, Checkpoint, append, rfc6962_entries, record_hashes,
  signed_checkpoint, verify_signatures, verify_chain,
}
use clayseal_receipts.Audit.Checkpoints.{AuditEnv, verify_checkpoint}
use clayseal_receipts.Audit.Roundtrip.{verify_checkpoint-signed_checkpoint}
use clayseal_receipts.Audit.Proofs.{
  InclusionProof, ConsistencyProof, rfc6962_inclusion_proof, verify_inclusion, verify_consistency,
}
use clayseal_receipts.Audit.History.{IsLinked, append-IsLinked, BodyCollision, tip_hash_commits}
use clayseal_receipts.Audit.Inclusion.{verify_inclusion-inclusion_proof, verify_inclusion_sound}
use clayseal_receipts.Audit.Signatures.{append-verify_signatures}
use clayseal_receipts.Witness.{
  Witness, cosign, signed_cores, bare, no_trust, add_witness_cosignature,
}
use clayseal_receipts.Witness.Laws.{NoSplitView, signed_cores-NoSplitView, cosign-grows}
use clayseal_receipts.Scenarios.Platforms.{
  toy, checksum, checksum_size, unary, from_unary, from_unary-unary, key_pairs-SignsCorrectly,
}

abbrev pub empty_log : AuditChain toy
empty_log = record { rows = []; next_seq = 1; signing_key = some "log"; revocation_registry = none }

abbrev pub one_record : AuditChain toy
one_record = (append toy empty_log "p1" "h1" "a" 0 "t1").0

abbrev pub two_records : AuditChain toy
two_records = (append toy one_record "p2" "h2" "ab" 0 "t2").0

empty_log-IsLinked : IsLinked toy empty_log
empty_log-IsLinked = record { accepted = unfold verify_chain in refl; in_step = tt }

append-IsLinked_example : IsLinked toy one_record
append-IsLinked_example = append-IsLinked toy empty_log "p1" "h1" "a" 0 "t1" empty_log-IsLinked

two_records-IsLinked : IsLinked toy two_records
two_records-IsLinked =
    append-IsLinked toy one_record "p2" "h2" "ab" 0 "t2"
      (append-IsLinked toy empty_log "p1" "h1" "a" 0 "t1" empty_log-IsLinked)

tip_hash_commits_example :
    (map (λ (r : AuditRow ℕ). r.payload) two_records.rows
      ≡ map (λ (r : AuditRow ℕ). r.payload) two_records.rows)
    ⊎ BodyCollision toy
tip_hash_commits_example =
    tip_hash_commits toy ℕ_discrete two_records two_records two_records-IsLinked
      two_records-IsLinked refl refl

append-verify_signatures_example : verify_signatures toy one_record (some "log") none ≡ none
append-verify_signatures_example =
    append-verify_signatures toy key_pairs-SignsCorrectly empty_log "log" (some "log") none "p1"
      "h1" "a" 0 "t1" refl (inr refl) (λ r none_known. cc) (unfold verify_signatures in refl)

abbrev pub hashes : List Bytes
hashes = (1 ∷ []) ∷ (2 ∷ []) ∷ []

pub hashes_read : rfc6962_entries toy two_records ≡ some hashes
unfolding rfc6962_entries append record_hashes
hashes_read = refl

-- the hash of the second record
abbrev second : String
second = unary (2 ∷ [])

second_listed : contains (record_hashes toy two_records) second ≡ true
unfolding append record_hashes
second_listed = refl

verify_inclusion-inclusion_proof_example :
    (proof : InclusionProof) × (checkpoint : Checkpoint) × (rfc6962_inclusion_proof toy two_records
        second
      ≡ some proof)
    × (signed_checkpoint toy two_records ≡ some checkpoint)
    × (verify_inclusion toy second proof checkpoint ≡ some true)
verify_inclusion-inclusion_proof_example =
    verify_inclusion-inclusion_proof toy from_unary-unary two_records second hashes hashes_read
      second_listed

abbrev pub environment : AuditEnv
environment = record {
  public_keys = [];
  key_ids = [];
  witness_keys = [];
  required_witnesses = none;
}

abbrev pub no_core : CheckpointBody
no_core = record { count = none; tip_hash = none; merkle_root = none; genesis = none }

abbrev pub checkpoint_of : AuditChain toy → Checkpoint
checkpoint_of c = elim (signed_checkpoint toy c) [
  | none ↦ bare toy no_core
  | some checkpoint ↦ checkpoint
]

-- the checkpoints of the log at one record and at two
abbrev first_checkpoint : Checkpoint
first_checkpoint = record {
  core = record {
    count = some (pos 1);
    tip_hash = some (unary (1 ∷ []));
    merkle_root = some (unary (checksum (0 ∷ 1 ∷ [])));
    genesis = none;
  };
  signature = none;
  witness_cosignatures = [];
}

abbrev second_checkpoint : Checkpoint
second_checkpoint = record {
  core = record {
    count = some (pos 2);
    tip_hash = some second;
    merkle_root = some (unary (checksum (1 ∷ checksum (0 ∷ 1 ∷ []) ++ checksum (0 ∷ 2 ∷ []))));
    genesis = none;
  };
  signature = none;
  witness_cosignatures = [];
}

abbrev growth_proof : ConsistencyProof
growth_proof = record {
  old_size = some (pos 1);
  new_size = some (pos 2);
  path = unary (checksum (0 ∷ 2 ∷ [])) ∷ [];
}

abbrev pub fresh : Witness toy
fresh = record { signing_key = "witness"; log_public_key = none; last_seen = none }

abbrev seen_first : Witness toy
seen_first = record fresh { last_seen = some first_checkpoint.core }

signed_cores-NoSplitView_example : NoSplitView toy (
    signed_cores toy environment fresh (
      record { checkpoint = first_checkpoint; proof = none }
      ∷ record { checkpoint = second_checkpoint; proof = some growth_proof }
      ∷ []))
signed_cores-NoSplitView_example = signed_cores-NoSplitView toy environment fresh (
    record { checkpoint = first_checkpoint; proof = none }
    ∷ record { checkpoint = second_checkpoint; proof = some growth_proof }
    ∷ [])

cosign-grows_example :
    (some second_checkpoint.core ≡ some second_checkpoint.core)
    × ((second_checkpoint.core ≡ first_checkpoint.core)
        ⊎ ((n : ℕ) × (cp : ConsistencyProof) × (second_checkpoint.core.count ≡ some (pos n))
            × (1 < n)
            × (some growth_proof ≡ some cp)
            × (verify_consistency toy environment
                  (no_trust toy)
                  (bare toy first_checkpoint.core)
                  second_checkpoint
                  cp
                ≡ some true)))
cosign-grows_example =
    cosign-grows toy environment seen_first
      (record fresh { last_seen = some second_checkpoint.core }) first_checkpoint.core 1
      second_checkpoint (add_witness_cosignature toy second_checkpoint "witness")
      (some growth_proof) refl refl
      (unfold cosign verify_consistency rfc6962_consistency_roots in refl)

abbrev second_proof_at : InclusionProof
second_proof_at = record {
  leaf_index = pos 1;
  leaf_hash = unary (checksum (0 ∷ 2 ∷ []));
  tree_size = some (pos 2);
  path = unary (checksum (0 ∷ 1 ∷ [])) ∷ [];
  root = unary (checksum (1 ∷ checksum (0 ∷ 1 ∷ []) ++ checksum (0 ∷ 2 ∷ [])));
}

verify_inclusion_sound_example :
    ((entry : Bytes) × (i : ℕ) × (from_unary second ≡ some entry)
      × (second_proof_at.leaf_index ≡ pos i)
      × (get_elem? hashes i ≡ some entry))
    ⊎ Collision checksum
verify_inclusion_sound_example =
    verify_inclusion_sound toy from_unary-unary checksum_size two_records second second_proof_at
      (checkpoint_of two_records) hashes hashes_read
      (unfold signed_checkpoint append largest_power_of_two_below rfc6962_root in refl)
      (unfold verify_inclusion signed_checkpoint append rfc6962_root_from_path rfc6962_root
          largest_power_of_two_below in
        refl)

verify_checkpoint-signed_checkpoint_example :
    (checkpoint : Checkpoint) × (signed_checkpoint toy two_records ≡ some checkpoint)
    × (verify_checkpoint toy two_records checkpoint 0 none none ≡ some true)
verify_checkpoint-signed_checkpoint_example =
    verify_checkpoint-signed_checkpoint toy key_pairs-SignsCorrectly two_records hashes none
      hashes_read (λ r k known signs. unfold append in cc)

-- three record hashes
abbrev leaves : List String
leaves = unary (1 ∷ []) ∷ second ∷ unary (3 ∷ []) ∷ []
