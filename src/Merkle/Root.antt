-- ===== src/Merkle/Root.antt =====
-- The recursion equation of the Merkle root, which the source states, and the values of its fuel.
use clayseal_receipts.Prelude.{
  ℕ, zero, suc, ◌+◌, ◌≤◌, ◌≡◌, refl, List, [], ◌∷◌, arith, length, take, drop, length-take,
  length-drop,
}
use clayseal_receipts.Merkle.Split.{largest_power_of_two_below, largest_power_of_two_below_bounds}
use clayseal_receipts.Merkle.{Hasher, root_fuel, rfc6962_root}

module _ {E : Type 0} (xs : List E) (two : 2 ≤ length xs) where
  -- The left subtree of a split list has the split point's size, and the right one the rest.
  pub length-take_split :
      length (take (largest_power_of_two_below (length xs)) xs)
      ≡ largest_power_of_two_below (length xs)
  length-take_split = omega (
    arith,
    length-take (largest_power_of_two_below (length xs)) xs,
    largest_power_of_two_below_bounds (length xs) two,
  )

  pub length-drop_split :
      length (drop (largest_power_of_two_below (length xs)) xs)
        + largest_power_of_two_below (length xs)
      ≡ length xs
  length-drop_split = omega (
    arith,
    length-drop (largest_power_of_two_below (length xs)) xs,
    largest_power_of_two_below_bounds (length xs) two,
  )

module _ {E H : Type 0} (h : Hasher E H) where
  -- Fuel for each element is enough: more changes nothing.
  pub root_fuel_enough :
      (f g : ℕ) (xs : List E) → length xs ≤ f → length xs ≤ g → root_fuel h f xs ≡ root_fuel h g xs
  unfolding root_fuel
  root_fuel_enough zero zero xs p q = refl
  root_fuel_enough zero (suc g) [] p q = refl
  root_fuel_enough (suc f) zero [] p q = refl
  root_fuel_enough (suc f) (suc g) [] p q = refl
  root_fuel_enough zero (suc g) (x ∷ xs) p q = absurd (omega arith)
  root_fuel_enough (suc f) zero (x ∷ xs) p q = absurd (omega arith)
  root_fuel_enough (suc f) (suc g) (x ∷ []) p q = refl
  root_fuel_enough (suc f) (suc g) (x ∷ y ∷ xs) p q =
      let k = largest_power_of_two_below (length (x ∷ y ∷ xs)) in
      let b = largest_power_of_two_below_bounds (length (x ∷ y ∷ xs)) (omega arith) in
      let l = length-take_split (x ∷ y ∷ xs) (omega arith) in
      let r = length-drop_split (x ∷ y ∷ xs) (omega arith) in
      cc (
        root_fuel_enough f g (take k (x ∷ y ∷ xs)) (omega arith) (omega arith),
        root_fuel_enough f g (drop k (x ∷ y ∷ xs)) (omega arith) (omega arith),
      )

  -- A list of two or more leaves has the node over the roots of its two parts for root.
  pub rfc6962_root_split :
      (xs : List E)
      → 2 ≤ length xs
      → let k = largest_power_of_two_below (length xs) in
        rfc6962_root h xs ≡ h.node (rfc6962_root h (take k xs)) (rfc6962_root h (drop k xs))
  unfolding rfc6962_root
  rfc6962_root_split [] p = absurd (omega arith)
  rfc6962_root_split (x ∷ []) p = absurd (omega arith)
  rfc6962_root_split (x ∷ y ∷ xs) p =
      let k = largest_power_of_two_below (length (x ∷ y ∷ xs)) in
      let b = largest_power_of_two_below_bounds (length (x ∷ y ∷ xs)) p in
      let l = length-take_split (x ∷ y ∷ xs) p in
      let r = length-drop_split (x ∷ y ∷ xs) p in
      cc (
        root_fuel_enough (suc (length xs)) (length (take k (x ∷ y ∷ xs))) (take k (x ∷ y ∷ xs))
            (omega arith) (omega arith),
        root_fuel_enough (suc (length xs)) (length (drop k (x ∷ y ∷ xs))) (drop k (x ∷ y ∷ xs))
            (omega arith) (omega arith),
      )
