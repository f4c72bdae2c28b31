-- ===== src/Merkle.antt =====
-- Roots, audit paths and their verification: c2sp.py, over any leaf hash and node hash.
pub mod Split
pub mod Root
pub mod TreeHash
pub mod Inclusion
pub mod Soundness
pub mod Powers
pub mod Replay
pub mod Replays
pub mod Subproofs
pub mod Consistency
use clayseal_receipts.Prelude.{
  ℕ, zero, suc, ◌-◌, ◌/◌, ◌%◌, Bool, true, false, not, ◌&&◌, ◌||◌, Option, none, some, List, [],
  ◌∷◌, ◌++◌, ltb, leb, eqb, if◌then◌else◌, length, take, drop, is_nil, unsnoc, Eq, option_eq, ◌==◌,
}
use Prim.Native.Nat.{bit_and}
use clayseal_receipts.Merkle.Split.{largest_power_of_two_below}

-- what the tree is built from: `rfc6962_leaf_hash`, `_node_hash` and the hash of the empty tree
pub record Hasher (E H : Type 0) : Type 0 where
  pub empty : H
  pub leaf : E → H
  pub node : H → H → H

module _ {E H : Type 0} (h : Hasher E H) where
  -- the number of leaves is fuel enough: Merkle/Root
  pub root_fuel : ℕ → List E → H
  root_fuel zero xs = h.empty
  root_fuel (suc fuel) [] = h.empty
  root_fuel (suc fuel) (x ∷ []) = h.leaf x
  root_fuel (suc fuel) (x ∷ y ∷ xs) =
      let k = largest_power_of_two_below (length (x ∷ y ∷ xs)) in
      h.node (root_fuel fuel (take k (x ∷ y ∷ xs))) (root_fuel fuel (drop k (x ∷ y ∷ xs)))

  unfoldable pub rfc6962_root : List E → H
  unfolding root_fuel
  rfc6962_root entries = root_fuel (length entries) entries

  -- the `IndexError` is `none`
  inclusion_fuel : ℕ → ℕ → List E → Option (List H)
  inclusion_fuel zero index entries = none
  inclusion_fuel (suc fuel) index entries =
      let n = length entries in
      let k = largest_power_of_two_below n in
      let left : Option (List H) = elim (inclusion_fuel fuel index (take k entries)) [
        | none ↦ none
        | some p ↦ some (p ++ rfc6962_root (drop k entries) ∷ [])
      ] in
      let right : Option (List H) = elim (inclusion_fuel fuel (index - k) (drop k entries)) [
        | none ↦ none
        | some p ↦ some (p ++ rfc6962_root (take k entries) ∷ [])
      ] in
      if ltb index n
      then (if eqb n 1 then some [] else if ltb index k then left else right)
      else none

  pub rfc6962_inclusion_path : ℕ → List E → Option (List H)
  unfolding inclusion_fuel
  rfc6962_inclusion_path index entries = inclusion_fuel (length entries) index entries

  -- the inner function `recon`
  recon : ℕ → H → ℕ → ℕ → List H → Option H
  recon zero leaf_hash idx size p = none
  recon (suc fuel) leaf_hash idx size p =
      let k = largest_power_of_two_below size in
      let siblings : Option H = elim (unsnoc p) [
        | none ↦ none
        | some (rest, sib) ↦
            let left : Option H = elim (recon fuel leaf_hash idx k rest) [
              | none ↦ none
              | some hash ↦ some (h.node hash sib)
            ] in
            let right : Option H = elim (recon fuel leaf_hash (idx - k) (size - k) rest) [
              | none ↦ none
              | some hash ↦ some (h.node sib hash)
            ] in
            if ltb idx k then left else right
      ] in
      if eqb size 1 then (if is_nil p then some leaf_hash else none) else siblings

  unfoldable pub rfc6962_root_from_path : H → ℕ → ℕ → List H → Option H
  unfolding recon
  rfc6962_root_from_path leaf_hash index tree_size path =
      if ltb index tree_size then recon tree_size leaf_hash index tree_size path else none

  pub rfc6962_verify_inclusion : ⦃e : Eq H⦄ → H → ℕ → ℕ → List H → H → Bool
  unfolding rfc6962_root_from_path
  rfc6962_verify_inclusion leaf_hash index tree_size path root =
      rfc6962_root_from_path leaf_hash index tree_size path == some root

  -- no call reaches fuel 0
  pub subproof : ℕ → ℕ → List E → Bool → List H
  subproof zero m entries b = []
  subproof (suc fuel) m entries b =
      let k = largest_power_of_two_below (length entries) in
      let left = subproof fuel m (take k entries) b ++ rfc6962_root (drop k entries) ∷ [] in
      let right =
        subproof fuel (m - k) (drop k entries) false ++ rfc6962_root (take k entries) ∷ [] in
      if eqb m (length entries)
      then (if b then [] else rfc6962_root entries ∷ [])
      else if leb m k
      then left
      else right

  -- the `ValueError` is `none`
  unfoldable pub rfc6962_consistency_path : ℕ → List E → Option (List H)
  unfolding subproof
  rfc6962_consistency_path old_size entries =
      if leb old_size (length entries)
      then (if eqb old_size 0 || eqb old_size (length entries)
          then some []
          else some (subproof (length entries) old_size entries true))
      else none

-- `while fn & 1: fn >>= 1; sn >>= 1`; the number falls, so its value is fuel enough
pub strip_ones : ℕ → ℕ → ℕ → ℕ × ℕ
strip_ones zero fn sn = (fn, sn)
strip_ones (suc fuel) fn sn =
    let rest = strip_ones fuel (fn / 2) (sn / 2) in if eqb (fn % 2) 1 then rest else (fn, sn)

-- `while fn != 0 and (fn & 1) == 0: fn >>= 1; sn >>= 1`
pub strip_zeros : ℕ → ℕ → ℕ → ℕ × ℕ
strip_zeros zero fn sn = (fn, sn)
strip_zeros (suc fuel) fn sn =
    let rest = strip_zeros fuel (fn / 2) (sn / 2) in
    if not (eqb fn 0) && eqb (fn % 2) 0 then rest else (fn, sn)

-- `n & (n - 1) == 0`
pub is_power_of_two : ℕ → Bool
is_power_of_two n = eqb (bit_and n (n - 1)) 0

module _ {E H : Type 0} (h : Hasher E H) where
  -- `for c in nodes`, and the test of `sn` after it
  pub replay_nodes : List H → ℕ → ℕ → H → H → Option (H × H)
  unfolding strip_zeros
  replay_nodes [] fn sn fr sr = if eqb sn 0 then some (fr, sr) else none
  replay_nodes (c ∷ nodes) fn sn fr sr =
      let (fn', sn') = strip_zeros fn fn sn in
      let both = replay_nodes nodes (fn' / 2) (sn' / 2) (h.node c fr) (h.node c sr) in
      let one = replay_nodes nodes (fn / 2) (sn / 2) fr (h.node sr c) in
      if eqb sn 0 then none else if eqb (fn % 2) 1 || eqb fn sn then both else one

  unfoldable pub rfc6962_consistency_roots : ℕ → ℕ → List H → H → Option (H × H)
  unfolding strip_ones is_power_of_two replay_nodes
  rfc6962_consistency_roots old_size new_size path old_root =
      let (fn, sn) = strip_ones old_size (old_size - 1) (new_size - 1) in
      if eqb old_size 0 || ltb new_size old_size
      then none
      else if eqb old_size new_size
      then (if is_nil path then some (old_root, old_root) else none)
      else if is_power_of_two old_size
      then replay_nodes path fn sn old_root old_root
      else elim path [ [] ↦ none | seed ∷ nodes ↦ replay_nodes nodes fn sn seed seed ]
