-- ===== src/Audit/Inclusion.antt =====
-- Every record of a log has an inclusion proof that verifies against the log's checkpoint, and a
-- proof that verifies is of a record of the log (audit.py).
use clayseal_receipts.Prelude.{
  ℕ, zero, suc, ◌<◌, ◌≡◌, ◌⊎◌, inl, inr, refl, String, Option, some, true, List, [], ◌∷◌, map,
  arith, eq_iff, length, ◌==◌, string_eq, option_eq, int_eq, pos, get_elem?, beq_self,
  option_beq_iff, ℤ-cases, some-inj, contains, Bool-cases, Option-cases, ◌∙◌, sym, ap,
}
use clayseal_receipts.C2sp.{Bytes, rfc6962_leaf_hash, c2sp_hasher}
use clayseal_receipts.C2sp.Soundness.{Collision, inclusion_sound}
use clayseal_receipts.Merkle.{rfc6962_root, rfc6962_inclusion_path, rfc6962_root_from_path}
use clayseal_receipts.Merkle.Inclusion.{root_from_path-inclusion_path}
use clayseal_receipts.Audit.{
  Platform, AuditChain, AuditRow, Checkpoint, CheckpointBody, tip_hash, genesis,
  checkpoint_signature, traverse, record_hashes, rfc6962_entries, signed_checkpoint,
}
use clayseal_receipts.Audit.Proofs.{
  InclusionProof, index_of, rfc6962_inclusion_proof, verify_inclusion,
}

-- the first place of a text that is listed
index_of_place :
    (h : String) (xs : List String)
    → contains xs h ≡ true
    → (i : ℕ) × (index_of h xs ≡ some i) × (i < length xs) × (get_elem? xs i ≡ some h)
index_of_place h [] e = cc
index_of_place h (x ∷ xs) e = elim (Bool-cases (x == h)) [
  | inl same ↦ (zero, ground arith, omega arith, ground (arith, eq_iff x h))
  | inr other ↦
      let (i, found, inside, there) = index_of_place h xs (ground arith) in
      (suc i, ground arith, omega arith, there)
]

module _ {A B : Type 0} (f : A → Option B) where
  pub traverse-cons :
      (a : A) (xs : List A) (ys : List B)
      → traverse f (a ∷ xs) ≡ some ys
      → (y : B) × (zs : List B) × (f a ≡ some y) × (traverse f xs ≡ some zs) × (ys ≡ y ∷ zs)
  traverse-cons a xs ys h = elim (Option-cases (f a)) [
    | inl e ↦ absurd (ground arith)
    | inr (y, e) ↦ elim (Option-cases (traverse f xs)) [
      | inl e' ↦ absurd (ground arith)
      | inr (zs, e') ↦ (y, zs, e, e', ground arith)
    ]
  ]

  traverse-get_elem? :
      (xs : List A) (ys : List B) (i : ℕ) (x : A)
      → traverse f xs ≡ some ys
      → get_elem? xs i ≡ some x
      → (y : B) × (f x ≡ some y) × (get_elem? ys i ≡ some y)
  traverse-get_elem? [] ys i x h e = cc
  traverse-get_elem? (a ∷ xs) ys zero x h e =
      let (y, zs, first, rest, shape) = traverse-cons a xs ys h in (y, ground arith, rw shape refl)
  traverse-get_elem? (a ∷ xs) ys (suc i) x h e =
      let (y, zs, first, rest, shape) = traverse-cons a xs ys h in
      let (z, here, there) = traverse-get_elem? xs zs i x rest e in (z, here, rw shape there)

  pub length-traverse :
      (xs : List A) (ys : List B) → traverse f xs ≡ some ys → length ys ≡ length xs
  length-traverse [] ys h = ground arith
  length-traverse (a ∷ xs) ys h =
      let (y, zs, first, rest, shape) = traverse-cons a xs ys h in
      rw shape (ap suc (length-traverse xs zs rest))

pub traverse-map :
    {A B : Type 0} (f : A → B) (g : B → Option A) (back : (a : A) → g (f a) ≡ some a) (xs : List A)
    → traverse g (map f xs) ≡ some xs
traverse-map f g back [] = refl
traverse-map f g back (x ∷ xs) = rw (back x, traverse-map f g back xs)

module _ (p : Platform) where
  open p use {sha256, hex, from_hex}

  -- the proof and the checkpoint of a record whose place, entry and path are known
  module _ (c : AuditChain p) (record_hash : String) (entries path : List Bytes) (entry : Bytes)
      (i : ℕ) (found : index_of record_hash (record_hashes p c) ≡ some i)
      (read : rfc6962_entries p c ≡ some entries)
      (produced : rfc6962_inclusion_path (c2sp_hasher sha256) i entries ≡ some path)
      (at : get_elem? entries i ≡ some entry) where
    abbrev made_proof : InclusionProof
    made_proof = record {
      leaf_index = pos i;
      leaf_hash = hex (rfc6962_leaf_hash sha256 entry);
      tree_size = some (pos (length (record_hashes p c)));
      path = map hex path;
      root = hex (rfc6962_root (c2sp_hasher sha256) entries);
    }

    inclusion_proof_made : rfc6962_inclusion_proof p c record_hash ≡ some made_proof
    unfolding rfc6962_inclusion_proof
    inclusion_proof_made = ground arith

    verify_made :
        (from_hex-hex : (b : Bytes) → from_hex (hex b) ≡ some b) (checkpoint : Checkpoint)
        → from_hex record_hash ≡ some entry
        → rfc6962_root_from_path
            (c2sp_hasher sha256)
            (rfc6962_leaf_hash sha256 entry)
            i
            (length (record_hashes p c))
            path
          ≡ some (rfc6962_root (c2sp_hasher sha256) entries)
        → checkpoint.core.count ≡ some (pos (length (record_hashes p c)))
        → checkpoint.core.merkle_root ≡ some (hex (rfc6962_root (c2sp_hasher sha256) entries))
        → verify_inclusion p record_hash made_proof checkpoint ≡ some true
    unfolding verify_inclusion
    verify_made from_hex-hex checkpoint raw leads count root = ground (
      arith,
      traverse-map hex from_hex from_hex-hex path,
      beq_self (hex (rfc6962_root (c2sp_hasher sha256) entries)),
    )

  pub length-record_hashes : (c : AuditChain p) → length (record_hashes p c) ≡ length c.rows
  unfolding record_hashes
  length-record_hashes c = go c.rows
    where
      go :
          (rows : List (AuditRow p.Context))
          → length (map (λ (r : AuditRow p.Context). r.columns.record_hash) rows) ≡ length rows
      go [] = refl
      go (r ∷ rows) = ap suc (go rows)

  -- the checkpoint of a log with readable hashes
  pub checkpoint_made :
      (c : AuditChain p) (entries : List Bytes)
      → rfc6962_entries p c ≡ some entries
      → (checkpoint : Checkpoint) × (signed_checkpoint p c ≡ some checkpoint)
        × (checkpoint.core.count ≡ some (pos (length c.rows)))
        × (checkpoint.core.merkle_root ≡ some (hex (rfc6962_root (c2sp_hasher sha256) entries)))
  unfolding signed_checkpoint
  checkpoint_made c entries read =
      let core : CheckpointBody = record {
        count = some (pos (length c.rows));
        tip_hash = some (tip_hash p c);
        merkle_root = some (hex (rfc6962_root (c2sp_hasher sha256) entries));
        genesis = some (genesis p);
      } in
      (
        record {
          core = core;
          signature = checkpoint_signature p c.signing_key core;
          witness_cosignatures = [];
        },
        ground arith,
        refl,
        refl,
      )

  -- hexadecimal text is read back
  module _ (from_hex-hex : (b : Bytes) → from_hex (hex b) ≡ some b) where
    -- If the hashes of a log are hexadecimal, each of them has an inclusion proof, and the proof
    -- verifies against the checkpoint of that log.
    pub verify_inclusion-inclusion_proof :
        (c : AuditChain p) (record_hash : String) (entries : List Bytes)
        → rfc6962_entries p c ≡ some entries
        → contains (record_hashes p c) record_hash ≡ true
        → (proof : InclusionProof) × (checkpoint : Checkpoint) × (rfc6962_inclusion_proof p c
              record_hash
            ≡ some proof)
          × (signed_checkpoint p c ≡ some checkpoint)
          × (verify_inclusion p record_hash proof checkpoint ≡ some true)
    verify_inclusion-inclusion_proof c record_hash entries read listed =
        let (i, found, inside, there) = index_of_place record_hash (record_hashes p c) listed in
        let (entry, raw, at) =
          traverse-get_elem? from_hex (record_hashes p c) entries i record_hash
            (unfold rfc6962_entries in read) there in
        let size : length entries ≡ length (record_hashes p c) =
          length-traverse from_hex (record_hashes p c) entries (unfold rfc6962_entries in read) in
        let (path, entry', produced, at', leads) =
          root_from_path-inclusion_path (c2sp_hasher sha256) entries i (omega arith) in
        let same : entry' ≡ entry = cc in
        let (checkpoint, made, count, root) = checkpoint_made c entries read in
        (
          made_proof c record_hash entries path entry i found read produced at,
          checkpoint,
          inclusion_proof_made c record_hash entries path entry i found read produced at,
          made,
          verify_made c record_hash entries path entry i found read produced at from_hex-hex
              checkpoint raw (rw (same, size) at leads) (rw (length-record_hashes c) count) root,
        )

    -- what an accepted inclusion proof is made of
    verify_inclusion-split :
        (record_hash : String) (proof : InclusionProof) (checkpoint : Checkpoint) (n : ℕ)
        → checkpoint.core.count ≡ some (pos n)
        → verify_inclusion p record_hash proof checkpoint ≡ some true
        → (entry : Bytes) × (i : ℕ) × (path : List Bytes) × (root : Bytes) × (from_hex record_hash
            ≡ some entry)
          × (proof.leaf_index ≡ pos i)
          × (rfc6962_root_from_path (c2sp_hasher sha256) (rfc6962_leaf_hash sha256 entry) i n path
              ≡ some root)
          × (some (hex root) ≡ checkpoint.core.merkle_root)
    unfolding verify_inclusion
    verify_inclusion-split record_hash proof checkpoint n count ok =
        let sizes = option_beq_iff proof.tree_size checkpoint.core.count in
        elim (Option-cases (from_hex record_hash)) [
          | inl e ↦ absurd (ground arith)
          | inr (entry, e) ↦ elim (Option-cases (traverse from_hex proof.path)) [
            | inl q ↦ absurd (ground arith)
            | inr (path, q) ↦ elim (ℤ-cases proof.leaf_index) [
              | inr (i, z) ↦ absurd (ground arith)
              | inl (i, z) ↦
                  elim (Option-cases (
                    rfc6962_root_from_path (c2sp_hasher sha256) (rfc6962_leaf_hash sha256 entry) i n
                      path)) [
                        | inl w ↦ absurd (ground arith)
                        | inr (root, w) ↦ (
                          entry,
                          i,
                          path,
                          root,
                          e,
                          z,
                          w,
                          (option_beq_iff (some (hex root)) checkpoint.core.merkle_root).0
                              (ground arith),
                        )
                      ]
            ]
          ]
        ]

    -- SHA-256 returns 32 bytes
    module _ (digest_size : (b : Bytes) → length (sha256 b) ≡ 32) where
      -- If an inclusion proof for a record hash verifies against the checkpoint of a log whose
      -- hashes are hexadecimal, then the bytes of that hash are the log's entry at the proof's
      -- index, or SHA-256 has a collision.
      pub verify_inclusion_sound :
          (c : AuditChain p) (record_hash : String) (proof : InclusionProof)
          (checkpoint : Checkpoint) (entries : List Bytes)
          → rfc6962_entries p c ≡ some entries
          → signed_checkpoint p c ≡ some checkpoint
          → verify_inclusion p record_hash proof checkpoint ≡ some true
          → ((entry : Bytes) × (i : ℕ) × (from_hex record_hash ≡ some entry)
              × (proof.leaf_index ≡ pos i)
              × (get_elem? entries i ≡ some entry))
            ⊎ Collision sha256
      verify_inclusion_sound c record_hash proof checkpoint entries read made ok =
          let (checkpoint', made', count', root') = checkpoint_made c entries read in
          let same : checkpoint' ≡ checkpoint = cc in
          let size : length (record_hashes p c) ≡ length entries = sym (
            length-traverse from_hex (record_hashes p c) entries
              (unfold rfc6962_entries in read)) in
          let rows : length c.rows ≡ length entries = sym (length-record_hashes c) ∙ size in
          let count : checkpoint.core.count ≡ some (pos (length entries)) =
            rw (same, rows) at count' in
          let (entry, i, path, root, raw, place, leads, committed) =
            verify_inclusion-split record_hash proof checkpoint (length entries) count ok in
          let hexes : hex root ≡ hex (rfc6962_root (c2sp_hasher sha256) entries) =
            some-inj (committed ∙ (rw same at root')) in
          let roots : root ≡ rfc6962_root (c2sp_hasher sha256) entries =
            some-inj (sym (from_hex-hex root) ∙ ap from_hex hexes ∙ from_hex-hex _) in
          elim (inclusion_sound sha256 digest_size entries i entry path (leads ∙ ap some roots)) [
            | inl there ↦ inl (entry, i, raw, place, there)
            | inr found ↦ inr found
          ]
