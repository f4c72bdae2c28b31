-- ===== src/Merkle/Split.antt =====
-- `_largest_power_of_two_below` of c2sp.py and audit.py: where a tree of n leaves is split.
use clayseal_receipts.Prelude.{
  ℕ, zero, suc, ◌+◌, ◌*◌, ◌^◌, ◌≤◌, ◌<◌, ◌≡◌, refl, sym, inl, inr, arith, ltb, Bool-cases,
  if◌then◌else◌,
}
use native.Mathlib.Nat.{pow-suc}

-- `while (k << 1) < n: k <<= 1`, with fuel
grow : ℕ → ℕ → ℕ → ℕ
grow zero k n = k
grow (suc fuel) k n = let rest = grow fuel (k * 2) n in if ltb (k * 2) n then rest else k

-- the loop doubles k from 1, so n rounds are enough
unfoldable pub largest_power_of_two_below : ℕ → ℕ
unfolding grow
largest_power_of_two_below n = grow n 1 n

grow_bounds :
    (fuel k n : ℕ)
    → 1 ≤ k
    → k < n
    → n ≤ k + fuel
    → (1 ≤ grow fuel k n) × (grow fuel k n < n) × (n ≤ grow fuel k n * 2)
unfolding grow
grow_bounds zero k n pos below enough = absurd (omega arith)
grow_bounds (suc fuel) k n pos below enough = ground (arith, grow_bounds fuel (k * 2) n)

grow_pow : (fuel k n e : ℕ) → k ≡ 2 ^ e → (d : ℕ) × (grow fuel k n ≡ 2 ^ d)
unfolding grow
grow_pow zero k n e h = (e, h)
grow_pow (suc fuel) k n e h = elim (Bool-cases (ltb (k * 2) n)) [
  | inl more ↦ rw more (grow_pow fuel (k * 2) n (suc e) (rw h (sym (pow-suc 2 e))))
  | inr done ↦ rw done (e, h)
]

-- For n of at least 2 the split point is below n and at least half of it.
pub largest_power_of_two_below_bounds :
    (n : ℕ)
    → 2 ≤ n
    → (1 ≤ largest_power_of_two_below n)
      × (largest_power_of_two_below n < n)
      × (n ≤ largest_power_of_two_below n * 2)
unfolding largest_power_of_two_below
largest_power_of_two_below_bounds n h = grow_bounds n 1 n (omega arith) (omega arith) (omega arith)

-- The split point is a power of two.
pub largest_power_of_two_below_pow : (n : ℕ) → (d : ℕ) × (largest_power_of_two_below n ≡ 2 ^ d)
unfolding largest_power_of_two_below
largest_power_of_two_below_pow n = grow_pow n 1 n 0 refl
