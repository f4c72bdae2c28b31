-- ===== src/Witness/Honest.antt =====
-- A witness signs the growth of an honest log (witness.py with audit.py).
use clayseal_receipts.Prelude.{
  ℕ, ◌≤◌, ◌≡◌, refl, ap, ◌∙◌, inl, inr, Option, none, some, String, true, List, [], ◌∷◌, ◌++◌,
  arith, pos, length, length-append, beq_self, option_eq, int_eq, string_eq, Bool-cases, eqb,
}
use mathlib.Core.List.{append-nil}
use clayseal_receipts.C2sp.{Bytes}
use clayseal_receipts.Signing.{SignsCorrectly}
use clayseal_receipts.Signing.Laws.{verify-sign, sign_public_key}
use clayseal_receipts.Audit.{
  Platform, AuditChain, AuditRow, Checkpoint, CheckpointBody, checkpoint_document, rfc6962_entries,
  signed_checkpoint,
}
use clayseal_receipts.Audit.Checkpoints.{AuditEnv}
use clayseal_receipts.Audit.Proofs.{ConsistencyProof, consistency_proof, verify_consistency}
use clayseal_receipts.Audit.Roundtrip.{core_beq_self}
use clayseal_receipts.Audit.Consistency.{
  verify_consistency-consistency_proof, signed_checkpoint_count, core_of_rows,
  signed_checkpoint_signature,
}
use clayseal_receipts.Witness.{
  Witness, cosigned, accepted, no_trust, bare, growth, growth_by, valid_count, log_key_refusal,
  add_witness_cosignature, cosign,
}

append_none {ℓ} : {A : Type ℓ} (xs ys : List A) → length ys ≡ 0 → xs ++ ys ≡ xs
append_none xs [] h = append-nil xs
append_none xs (y ∷ ys) h = absurd (omega arith)

module _ (p : Platform) where
  open p use {crypto, hash_document}

  -- a pinned key, if any, is the log's own
  log_key_accepted :
      SignsCorrectly crypto
      → (c : AuditChain p) (checkpoint : Checkpoint) (pinned : Option String)
      → signed_checkpoint p c ≡ some checkpoint
      → ((key : String)
          → pinned ≡ some key
          → (k : crypto.SigningKey) × (c.signing_key ≡ some k) × (crypto.public_key_hex k ≡ key))
      → log_key_refusal p pinned checkpoint ≡ none
  unfolding log_key_refusal
  log_key_accepted correct c checkpoint none made own = refl
  log_key_accepted correct c checkpoint (some key) made own =
      let (k, has, same) = own key refl in
      ground (
        arith,
        signed_checkpoint_signature p c checkpoint k made has,
        sign_public_key crypto hash_document k (checkpoint_document checkpoint.core),
        beq_self (some key),
        verify-sign crypto hash_document correct k (checkpoint_document checkpoint.core),
      )

  -- a growth that the last size and the proof allow
  growth_lem :
      (env : AuditEnv) (last : CheckpointBody) (checkpoint : Checkpoint) (proof : ConsistencyProof)
      (m n : ℕ)
      → last.count ≡ some (pos m)
      → m ≤ n
      → (n ≡ m → checkpoint.core ≡ last)
      → verify_consistency p env (no_trust p) (bare p last) checkpoint proof ≡ some true
      → growth p env (some last) checkpoint (some proof) n ≡ accepted
  unfolding growth growth_by
  growth_lem env last checkpoint proof m n count le same verified = elim (Bool-cases (eqb n m)) [
    | inl q ↦ ground (arith, same (ground arith), core_beq_self p last)
    | inr q ↦ ground arith
  ]

  module _ (from_hex-hex : (b : Bytes) → p.from_hex (p.hex b) ≡ some b) where
    -- A witness that last signed a checkpoint of a log, and pins no key or the log's own, signs
    -- the checkpoint of the grown log when it is given the proof that the grown log makes from the
    -- earlier size, and remembers it.
    pub cosign-signed_checkpoint :
        SignsCorrectly crypto
        → (env : AuditEnv) (w : Witness p) (c c' : AuditChain p) (more : List (AuditRow p.Context))
          (entries : List Bytes) (last : Checkpoint)
        → c'.rows ≡ c.rows ++ more
        → rfc6962_entries p c' ≡ some entries
        → signed_checkpoint p c ≡ some last
        → w.last_seen ≡ some last.core
        → ((key : String)
            → w.log_public_key ≡ some key
            → (k : crypto.SigningKey) × (c'.signing_key ≡ some k) × (crypto.public_key_hex k ≡ key))
        → (new : Checkpoint) × (proof : ConsistencyProof) × (signed_checkpoint p c' ≡ some new)
          × (consistency_proof p c' (length c.rows) none ≡ some proof)
          × (cosign p env w new (some proof) ≡ (
            cosigned (add_witness_cosignature p new w.signing_key),
            record w { last_seen = some new.core },
          ))
    unfolding cosign valid_count
    cosign-signed_checkpoint correct env w c c' more entries last grown read before seen own =
        let (old, new, proof, made, made', proved, verified) =
          verify_consistency-consistency_proof p from_hex-hex env (no_trust p) c c' more entries
            refl refl refl grown read in
        let same : old ≡ last = cc in
        let total = ap length grown ∙ length-append c.rows more in
        let no_more : length c'.rows ≡ length c.rows → c'.rows ≡ c.rows =
          λ e. grown ∙ append_none c.rows more (omega arith) in
        let growing : growth p env (some last.core) new (some proof) (length c'.rows) ≡ accepted =
          growth_lem env last.core new proof (length c.rows) (length c'.rows)
            (signed_checkpoint_count p c last before) (omega arith)
            (λ e. core_of_rows p c c' last new (no_more e) before made')
            (unfold verify_consistency in rw same at verified) in
        let key = log_key_accepted correct c' new w.log_public_key made' own in
        (new, proof, made', proved, ground (arith, signed_checkpoint_count p c' new made'))
