-- ===== src/Audit/Proofs.antt =====
-- Inclusion and consistency proofs of `AuditChain` and their verification (audit.py).
use clayseal_receipts.Prelude.{
  ℕ, zero, suc, String, Option, none, some, Bool, false, not, ◌&&◌, ◌||◌, List, [], ◌∷◌, map, ◌==◌,
  ◌!=◌, string_eq, option_eq, int_eq, ℤ, pos, negsuc, eqb, leb, if◌then◌else◌, length, take,
  get_elem?, is_nil,
}
use clayseal_receipts.C2sp.{Bytes, rfc6962_leaf_hash, c2sp_hasher}
use clayseal_receipts.Merkle.{
  rfc6962_root, rfc6962_inclusion_path, rfc6962_root_from_path, rfc6962_consistency_path,
  rfc6962_consistency_roots,
}
use clayseal_receipts.Audit.{
  Platform, AuditChain, Checkpoint, traverse, record_hashes, rfc6962_entries,
}
use clayseal_receipts.Audit.Checkpoints.{AuditEnv, checkpoint_trust_issues}

pub record InclusionProof : Type 0 where
  pub leaf_index : ℤ
  pub leaf_hash : String
  pub tree_size : Option ℤ
  pub path : List String
  pub root : String

pub record ConsistencyProof : Type 0 where
  pub old_size : Option ℤ
  pub new_size : Option ℤ
  pub path : List String

-- `leaves.index(record_hash)`
abbrev pub index_of : String → List String → Option ℕ
index_of h [] = none
index_of h (x ∷ xs) =
    let rest : Option ℕ = elim (index_of h xs) [ none ↦ none | some i ↦ some (suc i) ] in
    if x == h then some zero else rest

module _ (p : Platform) where
  open p use {sha256, hex, from_hex}

  -- `none` for the `KeyError`, and for a column that is not hexadecimal
  unfoldable pub rfc6962_inclusion_proof : AuditChain p → String → Option InclusionProof
  rfc6962_inclusion_proof c record_hash =
      let proof : ℕ → List Bytes → Bytes → List Bytes → InclusionProof = λ index entries entry path.
        record {
          leaf_index = pos index;
          leaf_hash = hex (rfc6962_leaf_hash sha256 entry);
          tree_size = some (pos (length (record_hashes p c)));
          path = map hex path;
          root = hex (rfc6962_root (c2sp_hasher sha256) entries);
        } in
      elim (index_of record_hash (record_hashes p c)) [
        | none ↦ none
        | some index ↦ elim (rfc6962_entries p c) [
          | none ↦ none
          | some entries ↦ elim (rfc6962_inclusion_path (c2sp_hasher sha256) index entries) [
            | none ↦ none
            | some path ↦ elim (get_elem? entries index) [
              | none ↦ none
              | some entry ↦ some (proof index entries entry path)
            ]
          ]
        ]
      ]

  -- `0 <= index < tree_size` fails on negative numbers
  unfoldable pub proof_root : Bytes → ℤ → ℤ → List Bytes → Option Bytes
  proof_root leaf (pos index) (pos size) path =
      rfc6962_root_from_path (c2sp_hasher sha256) leaf index size path
  proof_root leaf (pos index) (negsuc size) path = none
  proof_root leaf (negsuc index) size path = none

  -- an exception, on a size or a text that cannot be read, is `none`
  unfoldable pub verify_inclusion : String → InclusionProof → Checkpoint → Option Bool
  unfolding proof_root
  verify_inclusion record_hash proof checkpoint =
      let matches : Option Bytes → Bool =
        λ root. elim root [ none ↦ false | some r ↦ some (hex r) == checkpoint.core.merkle_root ] in
      if proof.tree_size != checkpoint.core.count then some false else elim (from_hex record_hash) [
        | none ↦ none
        | some entry ↦ elim proof.tree_size [
          | none ↦ none
          | some size ↦ elim (traverse from_hex proof.path) [
            | none ↦ none
            | some path ↦
                some
                  (matches (proof_root (rfc6962_leaf_hash sha256 entry) proof.leaf_index size path))
          ]
        ]
      ]

  -- the `ValueError` on sizes out of range, and a column that is not hexadecimal, are `none`
  unfoldable pub consistency_proof : AuditChain p → ℕ → Option ℕ → Option ConsistencyProof
  consistency_proof c old_size new_size =
      let proof : ℕ → List Bytes → ConsistencyProof = λ new path. record {
        old_size = some (pos old_size);
        new_size = some (pos new);
        path = map hex path;
      } in
      let from_entries : List Bytes → ℕ → Option ConsistencyProof = λ entries new.
        if leb old_size new && leb new (length entries)
        then elim (rfc6962_consistency_path (c2sp_hasher sha256) old_size (take new entries)) [
          | none ↦ none
          | some path ↦ some (proof new path)
        ]
        else none in
      elim (rfc6962_entries p c) [
        | none ↦ none
        | some entries ↦ from_entries entries (elim new_size [ none ↦ length entries | some n ↦ n ])
      ]

  -- the comparison of the reconstructed roots; `none` is an exception
  consistent : ℕ → ℕ → List String → Option String → Option String → Option Bool
  consistent old new path none new_root = none
  consistent old new path (some old_root) new_root =
      let matches : Option (Bytes × Bytes) → Bool = λ roots. elim roots [
        | none ↦ false
        | some (r, s) ↦ hex r == old_root && some (hex s) == new_root
      ] in
      elim (traverse from_hex path) [
        | none ↦ none
        | some nodes ↦ elim (from_hex old_root) [
          | none ↦ none
          | some root ↦
              some (matches (rfc6962_consistency_roots (c2sp_hasher sha256) old new nodes root))
        ]
      ]

  -- the sizes of two checkpoints; a negative count has no result here
  consistent_sizes :
      Option ℤ → Option ℤ → ConsistencyProof → Option String → Option String → Option Bool
  unfolding consistent
  consistent_sizes none new proof old_root new_root = some false
  consistent_sizes (some old) none proof old_root new_root = some false
  consistent_sizes (some old) (some (negsuc new)) proof old_root new_root =
      if proof.old_size != some old || proof.new_size != some (negsuc new) then some false else none
  consistent_sizes (some (negsuc old)) (some new) proof old_root new_root =
      if proof.old_size != some (negsuc old) || proof.new_size != some new then some false else none
  consistent_sizes (some (pos old)) (some (pos new)) proof old_root new_root =
      if proof.old_size != some (pos old) || proof.new_size != some (pos new)
      then some false
      else if eqb old 0
      then some (is_nil proof.path)
      else consistent old new proof.path old_root new_root

  -- the signers and witnesses that a caller asks for
  pub record TrustArguments : Type 0 where
    pub public_keys : List String
    pub key_ids : List String
    pub required_witnesses : ℕ
    pub witness_keys : Option (List String)

  distrusted : AuditEnv → TrustArguments → Checkpoint → Bool
  distrusted env t checkpoint = not (
      is_nil (
        checkpoint_trust_issues p env checkpoint (some t.public_keys) (some t.key_ids)
          (some t.required_witnesses) t.witness_keys none))

  unfoldable pub verify_consistency :
      AuditEnv → TrustArguments → Checkpoint → Checkpoint → ConsistencyProof → Option Bool
  unfolding consistent_sizes distrusted
  verify_consistency env t old new proof =
      let asked =
        not (is_nil t.public_keys) || not (is_nil t.key_ids) || not (eqb t.required_witnesses 0) in
      if asked && (distrusted env t old || distrusted env t new)
      then some false
      else consistent_sizes old.core.count new.core.count proof old.core.merkle_root
          new.core.merkle_root
