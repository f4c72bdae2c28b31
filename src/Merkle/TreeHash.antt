-- ===== src/Merkle/TreeHash.antt =====
-- The tree hash as RFC 6962 defines it, and the root that c2sp.py computes.
use clayseal_receipts.Prelude.{
  ℕ, zero, suc, ◌^◌, ◌≤◌, ◌≡◌, refl, sym, ap, ap₂, ◌∙◌, ◌↔◌, List, [], ◌∷◌, ◌++◌, arith, length,
  take, drop, length-append, take-append-drop,
}
use clayseal_receipts.Merkle.Split.{
  largest_power_of_two_below, largest_power_of_two_below_bounds, largest_power_of_two_below_pow,
}
use clayseal_receipts.Merkle.Powers.{place-pow, largest_power_of_two_below-place}
use clayseal_receipts.Merkle.Root.{rfc6962_root_split, length-take_split, length-drop_split}
use clayseal_receipts.Merkle.{Hasher, rfc6962_root}

module _ {E H : Type 0} (h : Hasher E H) where
  -- MTH of RFC 6962: the left part of a list has a power of two of entries, the right part at least
  -- one and no more than the left
  pub data Mth : List E → H → Type 0 where
    nothing : Mth [] h.empty
    entry : (e : E) → Mth (e ∷ []) (h.leaf e)
    split :
        (d : ℕ) (xs ys : List E) (l r : H)
        → length xs ≡ 2 ^ d
        → 1 ≤ length ys
        → length ys ≤ length xs
        → Mth xs l
        → Mth ys r
        → Mth (xs ++ ys) (h.node l r)

take-append : {E : Type 0} (xs ys : List E) → take (length xs) (xs ++ ys) ≡ xs
take-append [] ys = refl
take-append (x ∷ xs) ys = ap (λ t. x ∷ t) (take-append xs ys)

drop-append : {E : Type 0} (xs ys : List E) → drop (length xs) (xs ++ ys) ≡ ys
drop-append [] ys = refl
drop-append (x ∷ xs) ys = drop-append xs ys

-- The split point is the power of two that the definition asks for.
largest_power_of_two_below-length :
    {E : Type 0} (d : ℕ) (xs ys : List E)
    → length xs ≡ 2 ^ d
    → 1 ≤ length ys
    → length ys ≤ length xs
    → largest_power_of_two_below (length (xs ++ ys)) ≡ length xs
largest_power_of_two_below-length d xs ys power some_right small =
    let size = length-append xs ys in
    let same = place-pow d in
    largest_power_of_two_below-place d (length (xs ++ ys)) (omega arith) (omega arith)
    ∙ same
    ∙ sym power

module _ {E H : Type 0} (h : Hasher E H) where
  root-split :
      (d : ℕ) (xs ys : List E)
      → length xs ≡ 2 ^ d
      → 1 ≤ length ys
      → length ys ≤ length xs
      → rfc6962_root h (xs ++ ys) ≡ h.node (rfc6962_root h xs) (rfc6962_root h ys)
  root-split d xs ys power some_right small =
      let k = largest_power_of_two_below-length d xs ys power some_right small in
      let whole = rfc6962_root_split h (xs ++ ys) (omega (arith, length-append xs ys)) in
      rw (k, take-append xs ys, drop-append xs ys) at whole

  Mth-unique : (xs : List E) (r : H) → Mth h xs r → r ≡ rfc6962_root h xs
  unfolding rfc6962_root
  Mth-unique xs r nothing = refl
  Mth-unique xs r (entry e) = refl
  Mth-unique xs r (split d ls rs a b power some_right small left right) =
      ap₂ h.node (Mth-unique ls a left) (Mth-unique rs b right)
      ∙ sym (root-split d ls rs power some_right small)

  Mth-split :
      (xs : List E)
      → 2 ≤ length xs
      → let k = largest_power_of_two_below (length xs) in
        Mth h (take k xs) (rfc6962_root h (take k xs))
        → Mth h (drop k xs) (rfc6962_root h (drop k xs))
        → Mth h xs (rfc6962_root h xs)
  Mth-split xs two left right =
      let k = largest_power_of_two_below (length xs) in
      let (d, power) = largest_power_of_two_below_pow (length xs) in
      let bounds = largest_power_of_two_below_bounds (length xs) two in
      let l = length-take_split xs two in
      let r = length-drop_split xs two in
      let whole =
        split d (take k xs) (drop k xs) _ _ (l ∙ power) (omega arith) (omega arith) left right in
      rw (rfc6962_root_split h xs two) (rw (take-append-drop k xs) at whole)

  root-Mth : (f : ℕ) (xs : List E) → length xs ≤ f → Mth h xs (rfc6962_root h xs)
  unfolding rfc6962_root
  root-Mth f [] enough = nothing
  root-Mth f (x ∷ []) enough = entry x
  root-Mth zero (x ∷ y ∷ xs) enough = absurd (omega arith)
  root-Mth (suc f) (x ∷ y ∷ xs) enough =
      let two : 2 ≤ length (x ∷ y ∷ xs) = omega arith in
      let k = largest_power_of_two_below (length (x ∷ y ∷ xs)) in
      let bounds = largest_power_of_two_below_bounds (length (x ∷ y ∷ xs)) two in
      let l = length-take_split (x ∷ y ∷ xs) two in
      let r = length-drop_split (x ∷ y ∷ xs) two in
      Mth-split (x ∷ y ∷ xs) two (root-Mth f (take k (x ∷ y ∷ xs)) (omega arith))
        (root-Mth f (drop k (x ∷ y ∷ xs)) (omega arith))

  -- The root of a list of entries is the one hash that the definition of RFC 6962 gives it.
  pub rfc6962_root-Mth : (xs : List E) (r : H) → Mth h xs r ↔ (r ≡ rfc6962_root h xs)
  rfc6962_root-Mth xs r = (Mth-unique xs r, λ e. rw e (root-Mth (length xs) xs (omega arith)))
