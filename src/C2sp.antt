-- ===== src/C2sp.antt =====
-- The hashes of agentauth/receipts/c2sp.py, over a SHA-256 that is a parameter: bytes are numbers.
pub mod Soundness
use clayseal_receipts.Prelude.{ℕ, List, [], ◌∷◌, ◌++◌}
use clayseal_receipts.Merkle.{Hasher}

abbrev pub Bytes : Type 0
Bytes = List ℕ

module _ (sha256 : Bytes → Bytes) where
  abbrev pub rfc6962_leaf_hash : Bytes → Bytes
  rfc6962_leaf_hash entry = sha256 (0 ∷ entry)

  abbrev pub node_hash : Bytes → Bytes → Bytes
  node_hash left right = sha256 (1 ∷ left ++ right)

  abbrev pub c2sp_hasher : Hasher Bytes Bytes
  c2sp_hasher = record { empty = sha256 []; leaf = rfc6962_leaf_hash; node = node_hash }
