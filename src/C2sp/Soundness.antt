-- ===== src/C2sp/Soundness.antt =====
-- Inclusion proofs of c2sp.py bind a log, up to a collision of SHA-256.
use native.Mathlib.Decide.{ℕ_discrete}
use clayseal_receipts.Prelude.{
  ℕ, ◌≡◌, ◌≢◌, ◌⊎◌, refl, ap, inl, inr, List, [], ◌∷◌, ◌++◌, some, arith, length, length-append,
  get_elem?,
}
use clayseal_receipts.Merkle.{rfc6962_root, rfc6962_root_from_path}
use clayseal_receipts.Merkle.Soundness.{root_from_path_sound}
use clayseal_receipts.C2sp.{Bytes, rfc6962_leaf_hash, node_hash, c2sp_hasher}

Bytes-discrete : Discrete Bytes
Bytes-discrete = hlevel ℕ_discrete

-- two texts with one digest
abbrev pub Collision : (Bytes → Bytes) → Type 0
Collision sha256 = (x : Bytes) × (y : Bytes) × (x ≢ y) × (sha256 x ≡ sha256 y)

append_left_cancel :
    (l l' r r' : Bytes) → length l ≡ length l' → l ++ r ≡ l' ++ r' → (l ≡ l') × (r ≡ r')
append_left_cancel [] [] r r' n e = (refl, e)
append_left_cancel [] (y ∷ l') r r' n e = absurd (omega arith)
append_left_cancel (x ∷ l) [] r r' n e = absurd (omega arith)
append_left_cancel (x ∷ l) (y ∷ l') r r' n e =
    let (same, rest) = append_left_cancel l l' r r' (omega arith) (cc) in (cc, rest)

module _ (sha256 : Bytes → Bytes) where
  same_or_Collision : (x y : Bytes) → sha256 x ≡ sha256 y → (x ≡ y) ⊎ Collision sha256
  same_or_Collision x y e = elim (Bytes-discrete x y) [ yes p ↦ inl p | no p ↦ inr (x, y, p, e) ]

  node_left :
      (l r l' r' : Bytes)
      → length l ≡ 32
      → length l' ≡ 32
      → node_hash sha256 l r ≡ node_hash sha256 l' r'
      → (l ≡ l') ⊎ Collision sha256
  node_left l r l' r' m n e = elim (same_or_Collision (1 ∷ l ++ r) (1 ∷ l' ++ r') e) [
    | inl p ↦ inl (append_left_cancel l l' r r' (omega arith) (cc)).0
    | inr c ↦ inr c
  ]

  node_right :
      (l r l' r' : Bytes)
      → length r ≡ 32
      → length r' ≡ 32
      → node_hash sha256 l r ≡ node_hash sha256 l' r'
      → (r ≡ r') ⊎ Collision sha256
  node_right l r l' r' m n e = elim (same_or_Collision (1 ∷ l ++ r) (1 ∷ l' ++ r') e) [
    | inl p ↦
        let tails : l ++ r ≡ l' ++ r' = cc in
        let sizes : length l ≡ length l' =
          omega (arith, ap length tails, length-append l r, length-append l' r') in
        inl (append_left_cancel l l' r r' sizes tails).1
    | inr c ↦ inr c
  ]

  -- SHA-256 returns 32 bytes
  module _ (digest_size : (b : Bytes) → length (sha256 b) ≡ 32) where
    -- If the audit path for an entry leads to the root of a log, at an index and at the log's
    -- size, then the log holds that entry at that index, or SHA-256 has a collision.
    pub inclusion_sound :
        (entries : List Bytes) (index : ℕ) (entry : Bytes) (path : List Bytes)
        → rfc6962_root_from_path
            (c2sp_hasher sha256)
            (rfc6962_leaf_hash sha256 entry)
            index
            (length entries)
            path
          ≡ some (rfc6962_root (c2sp_hasher sha256) entries)
        → (get_elem? entries index ≡ some entry) ⊎ Collision sha256
    inclusion_sound entries index entry path e =
        elim (root_from_path_sound (c2sp_hasher sha256) (λ b. length b ≡ 32) (Collision sha256)
          (λ b. digest_size (0 ∷ b)) (λ l r. digest_size (1 ∷ l ++ r)) node_left node_right entries
          index _ path (digest_size _) e) [
            | inr c ↦ inr c
            | inl (b, there, hash) ↦ elim (same_or_Collision (0 ∷ entry) (0 ∷ b) hash) [
              | inl p ↦ inl (cc)
              | inr c ↦ inr c
            ]
          ]
