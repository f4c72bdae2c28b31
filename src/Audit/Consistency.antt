-- ===== src/Audit/Consistency.antt =====
-- A log that has grown proves its growth: consistency proofs of audit.py between two checkpoints.
use clayseal_receipts.Prelude.{
  ℕ, ◌≤◌, ◌≡◌, refl, sym, ap, ◌∙◌, inl, inr, String, true, Option, none, some, List, [], ◌∷◌, ◌++◌,
  map, arith, pos, eqb, length, take, length-append, option_eq, string_eq, int_eq, beq_self,
  Bool-cases, Option-cases, some-inj,
}
use mathlib.Core.List.{map-append}
use clayseal_receipts.C2sp.{Bytes, c2sp_hasher}
use clayseal_receipts.Signing.{sign}
use clayseal_receipts.Merkle.{rfc6962_root, rfc6962_consistency_path}
use clayseal_receipts.Merkle.Subproofs.{take_all}
use clayseal_receipts.Merkle.Consistency.{consistency_roots-consistency_path}
use clayseal_receipts.Audit.{
  Platform, AuditChain, AuditRow, Checkpoint, traverse, record_hashes, rfc6962_entries,
  signed_checkpoint, current_core, merkle_root, tip_hash, checkpoint_signature, checkpoint_document,
}
use clayseal_receipts.Audit.Checkpoints.{AuditEnv}
use clayseal_receipts.Audit.Proofs.{
  ConsistencyProof, TrustArguments, consistency_proof, verify_consistency,
}
use clayseal_receipts.Audit.Inclusion.{
  traverse-cons, traverse-map, length-traverse, length-record_hashes, checkpoint_made,
}

traverse-prefix :
    {A B : Type 0} (f : A → Option B) (xs ys : List A) (zs : List B)
    → traverse f (xs ++ ys) ≡ some zs
    → traverse f xs ≡ some (take (length xs) zs)
traverse-prefix f [] ys zs h = refl
traverse-prefix f (x ∷ xs) ys zs h =
    let (y, rest, first, tail, shape) = traverse-cons f x (xs ++ ys) zs h in
    rw shape (ground (arith, first, traverse-prefix f xs ys rest tail))

module _ (p : Platform) where
  open p use {sha256, hex, from_hex}

  abbrev pub root_of : List Bytes → String
  root_of entries = hex (rfc6962_root (c2sp_hasher sha256) entries)

  -- the entries of the log before it grew
  pub entries_before :
      (c c' : AuditChain p) (entries : List Bytes)
      → (more : List String) × (record_hashes p c' ≡ record_hashes p c ++ more)
      → rfc6962_entries p c' ≡ some entries
      → (rfc6962_entries p c ≡ some (take (length c.rows) entries))
        × (length entries ≡ length c'.rows)
        × (length c.rows ≤ length entries)
  unfolding rfc6962_entries
  entries_before c c' entries (more, grown) read =
      let size = length-traverse from_hex (record_hashes p c') entries read in
      let before = traverse-prefix from_hex (record_hashes p c) more entries (rw grown at read) in
      let rows = length-record_hashes p c in
      let rows' = length-record_hashes p c' in
      let total = ap length grown ∙ length-append (record_hashes p c) more in
      (rw rows at before, omega arith, omega arith)

  pub record_hashes_grown :
      (c c' : AuditChain p) (more : List (AuditRow p.Context))
      → c'.rows ≡ c.rows ++ more
      → (hashes : List String) × (record_hashes p c' ≡ record_hashes p c ++ hashes)
  unfolding record_hashes
  record_hashes_grown c c' more grown = (
    map (λ (r : AuditRow p.Context). r.columns.record_hash) more,
    rw grown (map-append _ c.rows more),
  )

  path_zero :
      (entries : List Bytes) (m : ℕ)
      → m ≡ 0
      → rfc6962_consistency_path (c2sp_hasher sha256) m entries ≡ some []
  unfolding rfc6962_consistency_path
  path_zero entries m h = ground arith

  -- what a checkpoint that a log signs is made of
  signed_checkpoint_made :
      (c : AuditChain p) (a : Checkpoint)
      → signed_checkpoint p c ≡ some a
      → (current_core p c ≡ some a.core)
        × (a.core.count ≡ some (pos (length c.rows)))
        × (a.signature ≡ checkpoint_signature p c.signing_key a.core)
  unfolding signed_checkpoint
  signed_checkpoint_made c a made = elim (Option-cases (merkle_root p c)) [
    | inl e ↦ absurd (ground arith)
    | inr (root, e) ↦ (ground arith, ground arith, ground arith)
  ]

  -- the core depends on the rows only
  pub core_of_rows :
      (c c' : AuditChain p) (a b : Checkpoint)
      → c'.rows ≡ c.rows
      → signed_checkpoint p c ≡ some a
      → signed_checkpoint p c' ≡ some b
      → b.core ≡ a.core
  unfolding current_core merkle_root rfc6962_entries record_hashes tip_hash
  core_of_rows c c' a b same made made' =
      let now : current_core p c' ≡ current_core p c = rw same in
      some-inj
        (sym (signed_checkpoint_made c' b made').0 ∙ now ∙ (signed_checkpoint_made c a made).0)

  pub signed_checkpoint_count :
      (c : AuditChain p) (a : Checkpoint)
      → signed_checkpoint p c ≡ some a
      → a.core.count ≡ some (pos (length c.rows))
  signed_checkpoint_count c a made = (signed_checkpoint_made c a made).1

  pub signed_checkpoint_signature :
      (c : AuditChain p) (a : Checkpoint) (k : p.crypto.SigningKey)
      → signed_checkpoint p c ≡ some a
      → c.signing_key ≡ some k
      → a.signature ≡ some (sign p.crypto p.hash_document k (checkpoint_document a.core))
  unfolding checkpoint_signature
  signed_checkpoint_signature c a k made has =
      (signed_checkpoint_made c a made).2 ∙ ap (λ k. checkpoint_signature p k a.core) has

  module _ (from_hex-hex : (b : Bytes) → from_hex (hex b) ≡ some b) where
    pub proof_made :
        (env : AuditEnv) (t : TrustArguments p) (c : AuditChain p) (entries : List Bytes) (m : ℕ)
        (old new : Checkpoint)
        → t.public_keys ≡ []
        → t.key_ids ≡ []
        → t.required_witnesses ≡ 0
        → rfc6962_entries p c ≡ some entries
        → m ≤ length entries
        → old.core.count ≡ some (pos m)
        → old.core.merkle_root ≡ some (root_of (take m entries))
        → new.core.count ≡ some (pos (length entries))
        → new.core.merkle_root ≡ some (root_of entries)
        → (proof : ConsistencyProof) × (consistency_proof p c m none ≡ some proof)
          × (verify_consistency p env t old new proof ≡ some true)
    unfolding consistency_proof verify_consistency
    proof_made env t c entries m old new keys ids none_asked read inside count root count' root' =
        let n = length entries in
        let whole = take_all n entries (omega arith) in
        let made : List Bytes → ConsistencyProof = λ path. record {
          old_size = some (pos m);
          new_size = some (pos n);
          path = map hex path;
        } in
        elim (Bool-cases (eqb m 0)) [
          | inl q ↦ (made [], ground (arith, whole, q, path_zero entries m), ground arith)
          | inr q ↦
              let (path, produced, roots) =
                consistency_roots-consistency_path (c2sp_hasher sha256) entries m (ground arith)
                  inside in
              (
                made path,
                ground (arith, whole, produced),
                ground (
                  arith,
                  traverse-map hex from_hex from_hex-hex path,
                  from_hex-hex (rfc6962_root (c2sp_hasher sha256) (take m entries)),
                  roots,
                  beq_self (root_of (take m entries)),
                  beq_self (root_of entries),
                  q,
                ),
              )
        ]

    -- When a log has grown by some rows, the checkpoints of the log before and after, and the
    -- consistency proof that the grown log makes from the earlier size, exist, and the proof
    -- verifies between the checkpoints where no signer is asked for.
    pub verify_consistency-consistency_proof :
        (env : AuditEnv) (t : TrustArguments p) (c c' : AuditChain p)
        (more : List (AuditRow p.Context)) (entries : List Bytes)
        → t.public_keys ≡ []
        → t.key_ids ≡ []
        → t.required_witnesses ≡ 0
        → c'.rows ≡ c.rows ++ more
        → rfc6962_entries p c' ≡ some entries
        → (old : Checkpoint) × (new : Checkpoint) × (proof : ConsistencyProof) × (signed_checkpoint
              p c
            ≡ some old)
          × (signed_checkpoint p c' ≡ some new)
          × (consistency_proof p c' (length c.rows) none ≡ some proof)
          × (verify_consistency p env t old new proof ≡ some true)
    verify_consistency-consistency_proof env t c c' more entries keys ids none_asked grown read =
        let (earlier, size, inside) =
          entries_before c c' entries (record_hashes_grown c c' more grown) read in
        let (old, old_made, count, root) =
          checkpoint_made p c (take (length c.rows) entries) earlier in
        let (new, new_made, count', root') = checkpoint_made p c' entries read in
        let (proof, proved, accepted) =
          proof_made env t c' entries (length c.rows) old new keys ids none_asked read inside count
            root (rw size count') root' in
        (old, new, proof, old_made, new_made, proved, accepted)
