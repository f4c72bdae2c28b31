-- ===== src/Merkle/Soundness.antt =====
-- What an audit path that leads to a log's root says of the log (verification in c2sp.py), for
-- node hashes that are injective on one side at a time, but for collisions.
use clayseal_receipts.Prelude.{
  ℕ, zero, suc, ◌+◌, ◌-◌, ◌≤◌, ◌<◌, ◌≡◌, ◌⊎◌, refl, inl, inr, List, [], ◌∷◌, some, arith, ltb,
  length, take, drop, get_elem?, get_elem?-take, get_elem?-drop, unsnoc, Bool-cases, Option-cases,
  ltb→lt, sym, ◌∙◌, ap,
}
use mathlib.Core.Path.{subst}
use clayseal_receipts.Merkle.Split.{largest_power_of_two_below, largest_power_of_two_below_bounds}
use clayseal_receipts.Merkle.Root.{rfc6962_root_split, length-take_split, length-drop_split}
use clayseal_receipts.Merkle.{Hasher, rfc6962_root, recon, rfc6962_root_from_path}

module _ {E H : Type 0} (h : Hasher E H) where
  -- what the last step of a reconstruction did
  recon_split :
      (f i n : ℕ) (lh root : H) (p : List H)
      → 2 ≤ n
      → i < n
      → recon h (suc f) lh i n p ≡ some root
      → (rest : List H) × (s : H) × (r : H) × (((i < largest_power_of_two_below n)
            × (recon h f lh i (largest_power_of_two_below n) rest ≡ some r)
            × (root ≡ h.node r s))
          ⊎ ((largest_power_of_two_below n ≤ i)
              × (recon h f lh
                    (i - largest_power_of_two_below n)
                    (n - largest_power_of_two_below n)
                    rest
                  ≡ some r)
              × (root ≡ h.node s r)))
  unfolding recon
  recon_split f i n lh root p two inside e = elim (Option-cases (unsnoc p)) [
    | inl q ↦ absurd (ground (arith, q))
    | inr (u, q) ↦ elim (Bool-cases (ltb i (largest_power_of_two_below n))) [
      | inl left ↦ elim (Option-cases (recon h f lh i (largest_power_of_two_below n) u.0)) [
        | inl w ↦ absurd (ground arith)
        | inr (r, w) ↦ (u.0, u.1, r, inl (ltb→lt _ _ left, w, ground arith))
      ]
      | inr right ↦
          elim (Option-cases (
            recon h f lh (i - largest_power_of_two_below n) (n - largest_power_of_two_below n)
              u.0)) [
                | inl w ↦ absurd (ground arith)
                | inr (r, w) ↦ (u.0, u.1, r, inr (ground arith, w, ground arith))
              ]
    ]
  ]

-- `Good` is the shape of a digest, and `Collision` a collision of the hash function.
module _ {E H : Type 0} (h : Hasher E H) (Good : H → Type 0) (Collision : Type 0)
    (good_leaf : (e : E) → Good (h.leaf e)) (good_node : (l r : H) → Good (h.node l r))
    (left_injective : (l r l' r' : H)
      → Good l
      → Good l'
      → h.node l r ≡ h.node l' r'
      → (l ≡ l') ⊎ Collision)
    (right_injective : (l r l' r' : H)
      → Good r
      → Good r'
      → h.node l r ≡ h.node l' r'
      → (r ≡ r') ⊎ Collision) where
  root-Good : (xs : List E) → 1 ≤ length xs → Good (rfc6962_root h xs)
  unfolding rfc6962_root
  root-Good [] p = absurd (omega arith)
  root-Good (x ∷ []) p = good_leaf x
  root-Good (x ∷ y ∷ xs) p = good_node _ _

  recon-Good :
      (f i n : ℕ) (lh root : H) (p : List H)
      → Good lh
      → i < n
      → recon h f lh i n p ≡ some root
      → Good root
  unfolding recon
  recon-Good zero i n lh root p good inside e = absurd (ground arith)
  recon-Good (suc f) i zero lh root p good inside e = absurd (omega arith)
  recon-Good (suc f) i (suc zero) lh root [] good inside e = subst Good (ground arith) good
  recon-Good (suc f) i (suc zero) lh root (x ∷ p) good inside e = absurd (ground arith)
  recon-Good (suc f) i (suc (suc n)) lh root p good inside e =
      let (rest, s, r, side) = recon_split h f i (suc (suc n)) lh root p (omega arith) inside e in
      elim side [
        | inl (left, w, eq) ↦ subst Good (sym eq) (good_node r s)
        | inr (right, w, eq) ↦ subst Good (sym eq) (good_node s r)
      ]

  -- the entry at i has the hash that the path began with
  abbrev Committed : ℕ → List E → H → Type 0
  Committed i xs lh = ((e : E) × (get_elem? xs i ≡ some e) × (lh ≡ h.leaf e)) ⊎ Collision

  module _ (f i : ℕ) (xs : List E) (two : 2 ≤ length xs) (r s lh : H) (rest : List H) where
    -- if the reconstructed half is not the log's half, the two are a collision
    Committed-left :
        i < largest_power_of_two_below (length xs)
        → Good r
        → recon h f lh i (largest_power_of_two_below (length xs)) rest ≡ some r
        → rfc6962_root h xs ≡ h.node r s
        → (recon h f lh i (length (take (largest_power_of_two_below (length xs)) xs)) rest
              ≡ some (rfc6962_root h (take (largest_power_of_two_below (length xs)) xs))
            → Committed i (take (largest_power_of_two_below (length xs)) xs) lh)
        → Committed i xs lh
    Committed-left left good w eq rec =
        let k = largest_power_of_two_below (length xs) in
        let b = largest_power_of_two_below_bounds (length xs) two in
        elim (left_injective _ _ _ _ good
          (root-Good (take k xs) (omega (arith, length-take_split xs two)))
          (sym eq ∙ rfc6962_root_split h xs two)) [
            | inr c ↦ inr c
            | inl same ↦ elim (rec (rw (length-take_split xs two) (w ∙ ap some same))) [
              | inr c ↦ inr c
              | inl (e, there, hash) ↦ inl (e, sym (get_elem?-take k i xs left) ∙ there, hash)
            ]
          ]

    Committed-right :
        largest_power_of_two_below (length xs) ≤ i
        → Good r
        → recon h f lh
            (i - largest_power_of_two_below (length xs))
            (length xs - largest_power_of_two_below (length xs))
            rest
          ≡ some r
        → rfc6962_root h xs ≡ h.node s r
        → (recon h f lh
                (i - largest_power_of_two_below (length xs))
                (length (drop (largest_power_of_two_below (length xs)) xs))
                rest
              ≡ some (rfc6962_root h (drop (largest_power_of_two_below (length xs)) xs))
            → Committed
                (i - largest_power_of_two_below (length xs))
                (drop (largest_power_of_two_below (length xs)) xs)
                lh)
        → Committed i xs lh
    Committed-right right good w eq rec =
        let k = largest_power_of_two_below (length xs) in
        let b = largest_power_of_two_below_bounds (length xs) two in
        let size : length (drop k xs) ≡ length xs - k = omega (arith, length-drop_split xs two) in
        let place : k + (i - k) ≡ i = omega arith in
        elim (right_injective _ _ _ _ good (root-Good (drop k xs) (omega arith))
          (sym eq ∙ rfc6962_root_split h xs two)) [
            | inr c ↦ inr c
            | inl same ↦ elim (rec (rw size (w ∙ ap some same))) [
              | inr c ↦ inr c
              | inl (e, there, hash) ↦
                  inl (e, (rw place at (sym (get_elem?-drop k (i - k) xs))) ∙ there, hash)
            ]
          ]

  committed :
      (f i : ℕ) (xs : List E) (lh : H) (p : List H)
      → i < length xs
      → Good lh
      → recon h f lh i (length xs) p ≡ some (rfc6962_root h xs)
      → Committed i xs lh
  unfolding recon rfc6962_root
  committed zero i xs lh p inside good e = absurd (ground arith)
  committed (suc f) i [] lh p inside good e = absurd (omega arith)
  committed (suc f) zero (x ∷ []) lh [] inside good e = inl (x, refl, ground arith)
  committed (suc f) zero (x ∷ []) lh (s ∷ p) inside good e = absurd (ground arith)
  committed (suc f) (suc i) (x ∷ []) lh p inside good e = absurd (omega arith)
  committed (suc f) i (x ∷ y ∷ xs) lh p inside good e =
      let n = length (x ∷ y ∷ xs) in
      let k = largest_power_of_two_below n in
      let b = largest_power_of_two_below_bounds n (omega arith) in
      let l = length-take_split (x ∷ y ∷ xs) (omega arith) in
      let m = length-drop_split (x ∷ y ∷ xs) (omega arith) in
      let (rest, s, r, side) = recon_split h f i n lh _ p (omega arith) inside e in
      elim side [
        | inl (left, w, eq) ↦
            Committed-left f i (x ∷ y ∷ xs) (omega arith) r s lh rest left
              (recon-Good f i k lh r rest good left w) w eq
              (committed f i (take k (x ∷ y ∷ xs)) lh rest (omega arith) good)
        | inr (right, w, eq) ↦
            Committed-right f i (x ∷ y ∷ xs) (omega arith) r s lh rest right
              (recon-Good f (i - k) (n - k) lh r rest good (omega arith) w) w eq
              (committed f (i - k) (drop k (x ∷ y ∷ xs)) lh rest (omega arith) good)
      ]

  -- If a path from a digest leads to the root of a log at the log's size, then the digest is the
  -- hash of the entry at the path's index, or the hash function has a collision.
  pub root_from_path_sound :
      (entries : List E) (index : ℕ) (leaf_hash : H) (path : List H)
      → Good leaf_hash
      → rfc6962_root_from_path h leaf_hash index (length entries) path
        ≡ some (rfc6962_root h entries)
      → ((e : E) × (get_elem? entries index ≡ some e) × (leaf_hash ≡ h.leaf e)) ⊎ Collision
  unfolding rfc6962_root_from_path
  root_from_path_sound entries index leaf_hash path good e =
      elim (Bool-cases (ltb index (length entries))) [
        | inl inside ↦
            committed (length entries) index entries leaf_hash path (ltb→lt _ _ inside) good
              (ground arith)
        | inr outside ↦ absurd (ground arith)
      ]
