-- ===== src/Merkle/Subproofs.antt =====
-- The parts of a consistency proof: `subproof` of `rfc6962_consistency_path` (c2sp.py).
use clayseal_receipts.Prelude.{
  ℕ, zero, suc, ◌-◌, ◌*◌, ◌≤◌, ◌<◌, ◌≡◌, refl, sym, ◌∙◌, Bool, false, List, [], ◌∷◌, ◌++◌, arith,
  if◌then◌else◌, length, take, drop, length-take, ap₂,
}
use clayseal_receipts.Merkle.Split.{largest_power_of_two_below}
use clayseal_receipts.Merkle.Root.{rfc6962_root_split}
use clayseal_receipts.Merkle.Powers.{place, largest_power_of_two_below-place, place_pos}
use clayseal_receipts.Merkle.{Hasher, rfc6962_root, subproof}

module _ {ℓ} {A : Type ℓ} where
  pub take_all : (n : ℕ) (xs : List A) → length xs ≤ n → take n xs ≡ xs
  take_all zero [] h = refl
  take_all zero (x ∷ xs) h = absurd (omega arith)
  take_all (suc n) [] h = refl
  take_all (suc n) (x ∷ xs) h = rw (take_all n xs (omega arith))

  take-nil : (n : ℕ) → take {A = A} n [] ≡ []
  take-nil zero = refl
  take-nil (suc n) = refl

  pub take-take : (m k : ℕ) (xs : List A) → m ≤ k → take m (take k xs) ≡ take m xs
  take-take zero k xs h = refl
  take-take (suc m) zero xs h = absurd (omega arith)
  take-take (suc m) (suc k) [] h = refl
  take-take (suc m) (suc k) (x ∷ xs) h = rw (take-take m k xs (omega arith))

  pub drop-take : (m k : ℕ) (xs : List A) → k ≤ m → drop k (take m xs) ≡ take (m - k) (drop k xs)
  drop-take m zero xs h = rw (let e : m - 0 ≡ m = omega arith in e)
  drop-take zero (suc k) xs h = absurd (omega arith)
  drop-take (suc m) (suc k) [] h = sym (take-nil (suc m - suc k))
  drop-take (suc m) (suc k) (x ∷ xs) h =
      rw (let e : suc m - suc k ≡ m - k = omega arith in e) (drop-take m k xs (omega arith))

module _ {E H : Type 0} (h : Hasher E H) where
  pub subproof_whole :
      (f : ℕ) (xs : List E) (b : Bool)
      → subproof h (suc f) (length xs) xs b ≡ (if b then [] else rfc6962_root h xs ∷ [])
  unfolding subproof
  subproof_whole f xs b = ground arith

  pub subproof_left :
      (f m : ℕ) (xs : List E) (b : Bool)
      → m < length xs
      → m ≤ largest_power_of_two_below (length xs)
      → subproof h (suc f) m xs b
        ≡ subproof h f m (take (largest_power_of_two_below (length xs)) xs) b
          ++ rfc6962_root h (drop (largest_power_of_two_below (length xs)) xs) ∷ []
  unfolding subproof
  subproof_left f m xs b less left = ground arith

  pub subproof_right :
      (f m : ℕ) (xs : List E) (b : Bool)
      → m < length xs
      → largest_power_of_two_below (length xs) < m
      → subproof h (suc f) m xs b
        ≡ subproof h f
            (m - largest_power_of_two_below (length xs))
            (drop (largest_power_of_two_below (length xs)) xs)
            false
          ++ rfc6962_root h (take (largest_power_of_two_below (length xs)) xs) ∷ []
  unfolding subproof
  subproof_right f m xs b less right = ground arith

  -- The root of the leaves up to m, where m is past the split point of the whole.
  pub root_take_split :
      (e m : ℕ) (xs : List E)
      → m ≤ length xs
      → place e 1 < m
      → m ≤ 2 * place e 1
      → rfc6962_root h (take m xs)
        ≡ h.node
            (rfc6962_root h (take (place e 1) xs))
            (rfc6962_root h (take (m - place e 1) (drop (place e 1) xs)))
  root_take_split e m xs inside low high =
      let one = place_pos e 1 (omega arith) in
      let size : length (take m xs) ≡ m = omega (arith, length-take m xs) in
      let k = largest_power_of_two_below-place e m low high in
      let split = rw (size, k) at (rfc6962_root_split h (take m xs) (omega arith)) in
      split
      ∙ ap₂ h.node (rw (take-take (place e 1) m xs (omega arith)))
          (rw (drop-take m (place e 1) xs (omega arith)))
