-- ===== src/Audit/Hexadecimal.antt =====
-- The tree of audit.py over record hashes in hexadecimal, without domain separation: a leaf is its
-- own hash, and a node is the digest of two texts joined. Its functions are those of Merkle.
use clayseal_receipts.Prelude.{
  ℕ, ◌<◌, String, ◌≡◌, Option, some, List, ◌++◌, codes, length, get_elem?,
}
use clayseal_receipts.Merkle.{
  Hasher, rfc6962_root, rfc6962_inclusion_path, rfc6962_root_from_path, rfc6962_consistency_path,
  rfc6962_consistency_roots,
}
use clayseal_receipts.Merkle.Inclusion.{root_from_path-inclusion_path}
use clayseal_receipts.Audit.{Platform, genesis}

module _ (p : Platform) where
  open p use {sha256, hex}

  -- `sha256_hex((left + right).encode("utf-8"))`, of ASCII texts
  unfoldable pub hash_children : String → String → String
  hash_children left right = hex (sha256 (codes left ++ codes right))

  unfoldable pub hex_hasher : Hasher String String
  unfolding hash_children
  hex_hasher = record { empty = genesis p; leaf = λ l. l; node = hash_children }

  unfoldable pub hex_merkle_root : List String → String
  hex_merkle_root leaves = rfc6962_root hex_hasher leaves

  unfoldable pub inclusion_path : ℕ → List String → Option (List String)
  inclusion_path index leaves = rfc6962_inclusion_path hex_hasher index leaves

  -- the leaf is the third argument
  unfoldable pub root_from_inclusion_path : ℕ → ℕ → String → List String → Option String
  root_from_inclusion_path index tree_size leaf_hash path =
      rfc6962_root_from_path hex_hasher leaf_hash index tree_size path

  pub consistency_path : ℕ → List String → Option (List String)
  consistency_path old_size leaves = rfc6962_consistency_path hex_hasher old_size leaves

  pub root_pair_from_consistency_path : ℕ → ℕ → List String → String → Option (String × String)
  root_pair_from_consistency_path old_size new_size path old_root =
      rfc6962_consistency_roots hex_hasher old_size new_size path old_root

  -- In the hexadecimal tree every index of a list of record hashes has an audit path, and the path
  -- leads from the hash there to the root.
  pub root_from_inclusion_path-inclusion_path :
      (leaves : List String) (index : ℕ)
      → index < length leaves
      → (path : List String) × (leaf_hash : String) × (inclusion_path index leaves ≡ some path)
        × (get_elem? leaves index ≡ some leaf_hash)
        × (root_from_inclusion_path index (length leaves) leaf_hash path
            ≡ some (hex_merkle_root leaves))
  unfolding inclusion_path root_from_inclusion_path hex_merkle_root hex_hasher
  root_from_inclusion_path-inclusion_path leaves index inside =
      root_from_path-inclusion_path hex_hasher leaves index inside
