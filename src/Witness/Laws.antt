-- ===== src/Witness/Laws.antt =====
-- A witness never signs two histories (witness.py).
use clayseal_receipts.Prelude.{
  ◌≡◌, ◌≢◌, ltb→lt, refl, ◌⊎◌, inl, inr, Option, none, some, true, List, [], ◌∷◌, ℤ, pos, negsuc,
  ltb, ℕ, arith, ◌≤◌, ◌<◌, Option-cases, Bool-cases, option_beq_iff, int_eq, string_eq, ◌∙◌,
}
use clayseal_receipts.Audit.{Platform, Checkpoint, CheckpointBody}
use clayseal_receipts.Audit.Checkpoints.{AuditEnv, core_beq}
use clayseal_receipts.Audit.Proofs.{ConsistencyProof, verify_consistency}
use clayseal_receipts.Witness.{
  Witness, cosigned, Growth, accepted, rejected, raised, no_trust, bare, growth_by, growth,
  valid_count, log_key_refusal, add_witness_cosignature, cosign, Request, signed_cores, core_of,
}

module _ (p : Platform) where
  core_beq-true : (a b : CheckpointBody) → core_beq p a b ≡ true → a ≡ b
  unfolding core_beq
  core_beq-true a b h = ground (
    arith,
    option_beq_iff a.count b.count,
    option_beq_iff a.tip_hash b.tip_hash,
    option_beq_iff a.merkle_root b.merkle_root,
    option_beq_iff a.genesis b.genesis,
  )

  valid_count-some : (z : Option ℤ) (n : ℕ) → valid_count p z ≡ some n → z ≡ some (pos n)
  unfolding valid_count
  valid_count-some none n h = cc
  valid_count-some (some (pos m)) n h = cc
  valid_count-some (some (negsuc m)) n h = cc

  -- what an accepted growth has been checked for
  growth_accepted :
      (env : AuditEnv) (last : CheckpointBody) (ck : Checkpoint) (proof : Option ConsistencyProof)
      (m n : ℕ)
      → last.count ≡ some (pos m)
      → growth p env (some last) ck proof n ≡ accepted
      → (m ≤ n)
        × (n ≡ m → ck.core ≡ last)
        × (m < n
            → (cp : ConsistencyProof) × (proof ≡ some cp)
              × (verify_consistency p env (no_trust p) (bare p last) ck cp ≡ some true))
  unfolding growth growth_by
  growth_accepted env last ck proof m n count h =
      (ground arith, (λ e. core_beq-true ck.core last (ground arith)), grown)
    where
      grown :
          m < n
          → (cp : ConsistencyProof) × (proof ≡ some cp)
            × (verify_consistency p env (no_trust p) (bare p last) ck cp ≡ some true)
      grown lt = elim (Option-cases proof) [
        | inl e ↦ absurd (ground arith)
        | inr (cp, e) ↦
            elim (Option-cases (verify_consistency p env (no_trust p) (bare p last) ck cp)) [
              | inl q ↦ absurd (ground arith)
              | inr (b, q) ↦ (cp, e, ground arith)
            ]
      ]

  -- either the witness signs, or it stays as it was and signs nothing
  abbrev Signs : AuditEnv → Witness p → Checkpoint → Option ConsistencyProof → Type 0
  Signs env w ck proof =
      (n : ℕ) × (ck.core.count ≡ some (pos n))
      × (growth p env w.last_seen ck proof n ≡ accepted)
      × (cosign p env w ck proof ≡ (
        cosigned (add_witness_cosignature p ck w.signing_key),
        record w { last_seen = some ck.core },
      ))

  abbrev Declines : AuditEnv → Witness p → Checkpoint → Option ConsistencyProof → Type 0
  Declines env w ck proof =
      ((cosign p env w ck proof).1 ≡ w)
      × ((rest : List CheckpointBody) → core_of p ck (cosign p env w ck proof).0 rest ≡ rest)
      × ((ck' : Checkpoint) → (cosign p env w ck proof).0 ≢ cosigned ck')

  Growth-cases : (g : Growth p) → (g ≡ accepted) ⊎ (((r : _) × (g ≡ rejected r)) ⊎ (g ≡ raised))
  Growth-cases accepted = inl refl
  Growth-cases (rejected r) = inr (inl (r, refl))
  Growth-cases raised = inr (inr refl)

  cosign-cases :
      (env : AuditEnv) (w : Witness p) (ck : Checkpoint) (proof : Option ConsistencyProof)
      → Signs env w ck proof ⊎ Declines env w ck proof
  unfolding cosign core_of
  cosign-cases env w ck proof = elim (Option-cases (log_key_refusal p w.log_public_key ck)) [
    | inr (r, e) ↦ inr (ground arith, λ rest. ground arith, λ ck' made. ground arith)
    | inl e ↦ elim (Option-cases (valid_count p ck.core.count)) [
      | inl v ↦ inr (ground arith, λ rest. ground arith, λ ck' made. ground arith)
      | inr (n, v) ↦ elim (Growth-cases (growth p env w.last_seen ck proof n)) [
        | inl g ↦ inl (n, valid_count-some ck.core.count n v, g, ground arith)
        | inr (inl (r, g)) ↦ inr (ground arith, λ rest. ground arith, λ ck' made. ground arith)
        | inr (inr g) ↦ inr (ground arith, λ rest. ground arith, λ ck' made. ground arith)
      ]
    ]
  ]

  -- every core is at least as large as the given one, and is that one if it is as large
  abbrev pub Above : ℕ → CheckpointBody → List CheckpointBody → Type 0
  Above m last [] = Unit
  Above m last (b ∷ bs) =
      ((n : ℕ) × (b.count ≡ some (pos n)) × (m ≤ n) × (n ≡ m → b ≡ last)) × Above m last bs

  -- no two cores of one size differ, and the sizes never fall
  abbrev pub NoSplitView : List CheckpointBody → Type 0
  NoSplitView [] = Unit
  NoSplitView (b ∷ bs) = ((n : ℕ) × (b.count ≡ some (pos n)) × Above n b bs) × NoSplitView bs

  Above-weaken :
      (m n : ℕ) (a b : CheckpointBody) (bs : List CheckpointBody)
      → m ≤ n
      → (n ≡ m → b ≡ a)
      → Above n b bs
      → Above m a bs
  Above-weaken m n a b [] le same h = tt
  Above-weaken m n a b (c ∷ bs) le same ((k, count, up, eq), rest) = (
    (k, count, omega arith, λ e. eq (omega arith) ∙ same (omega arith)),
    Above-weaken m n a b bs le same rest,
  )

  signed_cores-Above :
      (env : AuditEnv) (w : Witness p) (last : CheckpointBody) (m : ℕ) (reqs : List Request)
      → w.last_seen ≡ some last
      → last.count ≡ some (pos m)
      → Above m last (signed_cores p env w reqs)
  unfolding signed_cores core_of
  signed_cores-Above env w last m [] seen count = tt
  signed_cores-Above env w last m (r ∷ rest) seen count =
      elim (cosign-cases env w r.checkpoint r.proof) [
        | inr (same, none_signed, _) ↦
            rw (none_signed, same) (signed_cores-Above env w last m rest seen count)
        | inl (n, size, grew, signed) ↦
            let (up, eq, _) =
              growth_accepted env last r.checkpoint r.proof m n count (rw seen at grew) in
            rw signed (
              (n, size, up, eq),
              Above-weaken m n last r.checkpoint.core _ up eq (
                  signed_cores-Above env (record w { last_seen = some r.checkpoint.core })
                    r.checkpoint.core n rest refl size),
            )
      ]

  -- Whatever checkpoints and proofs a witness is given, the sizes of those that it signs never
  -- fall, and any two of one size have one core.
  pub signed_cores-NoSplitView :
      (env : AuditEnv) (w : Witness p) (reqs : List Request)
      → NoSplitView (signed_cores p env w reqs)
  unfolding signed_cores core_of
  signed_cores-NoSplitView env w [] = tt
  signed_cores-NoSplitView env w (r ∷ rest) = elim (cosign-cases env w r.checkpoint r.proof) [
    | inr (same, none_signed, _) ↦ rw (none_signed, same) (signed_cores-NoSplitView env w rest)
    | inl (n, size, grew, signed) ↦ rw signed (
      (
        n,
        size,
        signed_cores-Above env (record w { last_seen = some r.checkpoint.core }) r.checkpoint.core n
            rest refl size,
      ),
      signed_cores-NoSplitView env (record w { last_seen = some r.checkpoint.core }) rest,
    )
  ]

  -- A witness that has signed a checkpoint of m records signs one of more only on a consistency
  -- proof from the one to the other that verifies, and one of m only with the same core; after
  -- that the new core is the one that it compares with.
  pub cosign-grows :
      (env : AuditEnv) (w w' : Witness p) (last : CheckpointBody) (m : ℕ) (ck ck' : Checkpoint)
      (proof : Option ConsistencyProof)
      → w.last_seen ≡ some last
      → last.count ≡ some (pos m)
      → cosign p env w ck proof ≡ (cosigned ck', w')
      → (w'.last_seen ≡ some ck.core)
        × ((ck.core ≡ last)
            ⊎ ((n : ℕ) × (cp : ConsistencyProof) × (ck.core.count ≡ some (pos n))
                × (m < n)
                × (proof ≡ some cp)
                × (verify_consistency p env (no_trust p) (bare p last) ck cp ≡ some true)))
  cosign-grows env w w' last m ck ck' proof seen count h = elim (cosign-cases env w ck proof) [
    | inr (same, none_signed, never) ↦ absurd (never ck' (cc))
    | inl (n, size, grew, signed) ↦
        let (up, eq, proved) = growth_accepted env last ck proof m n count (rw seen at grew) in
        (
          cc,
          elim (Bool-cases (ltb m n)) [
            | inl more ↦
                let (cp, given, ok) = proved (ltb→lt m n more) in
                inr (n, cp, size, ltb→lt m n more, given, ok)
            | inr same ↦ inl (eq (ground arith))
          ],
        )
  ]
