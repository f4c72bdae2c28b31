-- ===== src/Audit/History.antt =====
-- The hash chain of `AuditChain` (audit.py): what `verify_chain` accepts, and what the tip says.
use clayseal_receipts.Prelude.{
  String-discrete, map, length, ◌≢◌, ◌⊎◌, inl, inr, sym, ◌∙◌, ap, ◌≡◌, refl, String, none, List, [],
  ◌∷◌, ◌++◌, arith, eq_iff, string_eq,
}
use clayseal_receipts.Audit.{
  Body, Platform, AuditChain, AuditRow, genesis, tip_after, tip_hash, append, verify_links,
  verify_chain,
}

module _ (p : Platform) where
  open p use {Context, hash_body}

  -- Each row's columns say what its payload says.
  abbrev pub InStep : List (AuditRow Context) → Type 0
  InStep [] = Unit
  InStep (r ∷ rows) = (r.columns ≡ r.payload) × InStep rows

  -- a well-formed log: the hash chain is accepted, and the columns agree with the payloads
  pub record IsLinked (c : AuditChain p) : Type 0 where
    pub accepted : verify_chain p c ≡ none
    pub in_step : InStep c.rows

  InStep-snoc :
      (rows : List (AuditRow Context)) (r : AuditRow Context)
      → InStep rows
      → r.columns ≡ r.payload
      → InStep (rows ++ r ∷ [])
  InStep-snoc [] r h e = (e, tt)
  InStep-snoc (x ∷ rows) r h e = (h.0, InStep-snoc rows r h.1 e)

  verify_links-snoc :
      (tip : String) (rows : List (AuditRow Context)) (r : AuditRow Context)
      → InStep rows
      → verify_links p tip rows ≡ none
      → r.payload.body.prev_hash ≡ tip_after p tip rows
      → hash_body r.payload.body ≡ r.payload.record_hash
      → verify_links p tip (rows ++ r ∷ []) ≡ none
  unfolding verify_links tip_after
  verify_links-snoc tip [] r s h prev own = ground (
    arith,
    eq_iff r.payload.body.prev_hash tip,
    eq_iff (hash_body r.payload.body) r.payload.record_hash,
  )
  verify_links-snoc tip (x ∷ rows) r s h prev own =
      ground (arith, verify_links-snoc x.payload.record_hash rows r s.1)

  -- Appending to a well-formed log gives a well-formed log.
  pub append-IsLinked :
      (c : AuditChain p) (proof_id proof_hash action : String) (ctx : Context) (created_at : String)
      → IsLinked c
      → IsLinked (append p c proof_id proof_hash action ctx created_at).0
  unfolding append verify_chain tip_hash
  append-IsLinked c proof_id proof_hash action ctx created_at h = record {
    accepted = verify_links-snoc (genesis p) c.rows _ h.in_step h.accepted refl refl;
    in_step = InStep-snoc c.rows _ h.in_step refl;
  }

  -- two bodies with one hash
  abbrev pub BodyCollision : Type 0
  BodyCollision = (a : Body Context) × (b : Body Context) × (a ≢ b) × (hash_body a ≡ hash_body b)

  verify_links-cons :
      (tip : String) (r : AuditRow Context) (rows : List (AuditRow Context))
      → verify_links p tip (r ∷ rows) ≡ none
      → (r.payload.body.prev_hash ≡ tip)
        × (hash_body r.payload.body ≡ r.payload.record_hash)
        × (verify_links p r.payload.record_hash rows ≡ none)
  unfolding verify_links
  verify_links-cons tip r rows h = ground (
    arith,
    eq_iff r.payload.body.prev_hash tip,
    eq_iff (hash_body r.payload.body) r.payload.record_hash,
  )

  module _ (Context-discrete : Discrete Context) where
    Body-discrete : Discrete (Body Context)
    Body-discrete = hlevel (Context-discrete, String-discrete)

    abbrev SameHistory :
        String → String → List (AuditRow Context) → List (AuditRow Context) → Type 0
    SameHistory s t xs ys =
        ((s ≡ t)
          × (map (λ (r : AuditRow Context). r.payload) xs
              ≡ map (λ (r : AuditRow Context). r.payload) ys))
        ⊎ BodyCollision

    same_history :
        (s t : String) (xs ys : List (AuditRow Context))
        → InStep xs
        → InStep ys
        → verify_links p s xs ≡ none
        → verify_links p t ys ≡ none
        → length xs ≡ length ys
        → tip_after p s xs ≡ tip_after p t ys
        → SameHistory s t xs ys
    unfolding tip_after
    same_history s t [] [] i j h k n e = inl (e, refl)
    same_history s t [] (y ∷ ys) i j h k n e = absurd (omega arith)
    same_history s t (x ∷ xs) [] i j h k n e = absurd (omega arith)
    same_history s t (x ∷ xs) (y ∷ ys) i j h k n e =
        let (prev, own, links) = verify_links-cons s x xs h in
        let (prev', own', links') = verify_links-cons t y ys k in
        let tips : tip_after p x.payload.record_hash xs ≡ tip_after p y.payload.record_hash ys =
          cc in
        elim (same_history x.payload.record_hash y.payload.record_hash xs ys i.1 j.1 links links'
          (omega arith) tips) [
            | inr c ↦ inr c
            | inl (hashes, rest) ↦ elim (Body-discrete x.payload.body y.payload.body) [
              | no differ ↦ inr (x.payload.body, y.payload.body, differ, own ∙ hashes ∙ sym own')
              | yes same ↦
                  inl (sym prev ∙ ap (λ (b : Body Context). b.prev_hash) same ∙ prev', ground arith)
            ]
          ]

    -- Two well-formed logs of one length with one tip hash hold the same records, or two different
    -- record bodies have one hash: an earlier record cannot be rewritten under an unchanged tip.
    pub tip_hash_commits :
        (c d : AuditChain p)
        → IsLinked c
        → IsLinked d
        → length c.rows ≡ length d.rows
        → tip_hash p c ≡ tip_hash p d
        → (map (λ (r : AuditRow Context). r.payload) c.rows
            ≡ map (λ (r : AuditRow Context). r.payload) d.rows)
          ⊎ BodyCollision
    unfolding verify_chain tip_hash
    tip_hash_commits c d h k n e =
        elim (same_history (genesis p) (genesis p) c.rows d.rows h.in_step k.in_step h.accepted
          k.accepted n e) [ inl (_, same) ↦ inl same | inr found ↦ inr found ]
