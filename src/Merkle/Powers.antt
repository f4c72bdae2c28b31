-- ===== src/Merkle/Powers.antt =====
-- Powers of two: the test `n & (n - 1) == 0` of c2sp.py, split points and shifted numbers.
use clayseal_receipts.Prelude.{
  ℕ, zero, suc, ◌+◌, ◌-◌, ◌*◌, ◌/◌, ◌%◌, ◌^◌, ◌≤◌, ◌<◌, ◌≡◌, refl, sym, ap, ◌∙◌, inl, inr,
  Bool-cases, true, false, arith, eqb, ltb, ltb→lt,
}
use Prim.Native.Nat.{min, bit_and, digits, bit_and-bitwise}
use native.Mathlib.Nat.{pow-suc}
use clayseal_receipts.Merkle.Split.{
  largest_power_of_two_below, largest_power_of_two_below_bounds, largest_power_of_two_below_pow,
}
use clayseal_receipts.Merkle.{is_power_of_two}

-- `a << e`
unfoldable pub place : ℕ → ℕ → ℕ
place zero a = a
place (suc e) a = place e (2 * a)

pub place-add : (e a b : ℕ) → place e (a + b) ≡ place e a + place e b
unfolding place
place-add zero a b = refl
place-add (suc e) a b =
    let split : 2 * (a + b) ≡ 2 * a + 2 * b = omega arith in rw split (place-add e (2 * a) (2 * b))

pub place_double : (e a : ℕ) → place e (2 * a) ≡ 2 * place e a
place_double e a =
    let twice : 2 * a ≡ a + a = omega arith in rw twice (omega (arith, place-add e a a))

pub place-suc : (e a : ℕ) → place (suc e) a ≡ 2 * place e a
unfolding place
place-suc e a = place_double e a

pub place_shift : (e a : ℕ) → place (suc e) a ≡ place e (2 * a)
unfolding place
place_shift e a = refl

pub place_odd : (e a : ℕ) → place e (2 * a + 1) ≡ place (suc e) a + place e 1
unfolding place
place_odd e a = place-add e (2 * a) 1

pub place_pos : (e a : ℕ) → 1 ≤ a → a ≤ place e a
unfolding place
place_pos zero a h = omega arith
place_pos (suc e) a h = omega (arith, place_pos e (2 * a))

-- enough room for any number
pub le-place : (n : ℕ) → n ≤ place n 1
le-place zero = omega arith
le-place (suc n) = omega (arith, place-suc n 1, le-place n, place_pos n 1)

pub place-pow : (e : ℕ) → place e 1 ≡ 2 ^ e
place-pow zero = unfold place in refl
place-pow (suc e) = place-suc e 1 ∙ omega (arith, place-pow e, pow-suc 2 e)

pub place_zero : (e : ℕ) → place e 0 ≡ 0
unfolding place
place_zero zero = refl
place_zero (suc e) = place_zero e

-- A number lies between one power of two and the next for one exponent.
power_unique :
    (d j x : ℕ)
    → place d 1 < x
    → x ≤ 2 * place d 1
    → place j 1 < x
    → x ≤ 2 * place j 1
    → place d 1 ≡ place j 1
power_unique zero zero x a b c d = refl
power_unique zero (suc j) x a b c d =
    absurd (unfold place in omega (arith, place-suc j 1, place_pos j 1 (omega arith)))
power_unique (suc i) zero x a b c d =
    absurd (unfold place in omega (arith, place-suc i 1, place_pos i 1 (omega arith)))
power_unique (suc i) (suc j) x a b c d = omega (
  arith,
  place-suc i 1,
  place-suc j 1,
  power_unique i j ((x + 1) / 2) (omega (arith, place-suc i 1)) (omega (arith, place-suc i 1))
      (omega (arith, place-suc j 1)) (omega (arith, place-suc j 1)),
)

-- Between a power of two and the next one the split point is that power.
pub largest_power_of_two_below-place :
    (e n : ℕ) → place e 1 < n → n ≤ 2 * place e 1 → largest_power_of_two_below n ≡ place e 1
largest_power_of_two_below-place e n low high =
    let (d, pow) = largest_power_of_two_below_pow n in
    let one = place_pos e 1 (omega arith) in
    let b = largest_power_of_two_below_bounds n (omega arith) in
    let same : largest_power_of_two_below n ≡ place d 1 = pow ∙ sym (place-pow d) in
    same ∙ power_unique d e n (omega arith) (omega arith) low high

-- Binary `x & y` read off at most `room` digits; past the digits of `x` more room changes nothing.
abbrev common_bits : ℕ → ℕ → ℕ → ℕ
common_bits x y room = digits (λ rest. zero) min room x y

zero-common_bits : (y room : ℕ) → common_bits 0 y room ≡ 0
zero-common_bits y zero = refl
zero-common_bits y (suc room) = refl

common_bits_settled : (x y : ℕ) (r s : ℕ) → x ≤ r → x ≤ s → common_bits x y r ≡ common_bits x y s
common_bits_settled zero y r s u v = zero-common_bits y r ∙ sym (zero-common_bits y s)
common_bits_settled (suc x) y zero s u v = absurd (omega arith)
common_bits_settled (suc x) y (suc r) zero u v = absurd (omega arith)
common_bits_settled (suc x) y (suc r) (suc s) u v =
    let tail = common_bits_settled (suc x / 2) (y / 2) r s (omega arith) (omega arith) in
    omega (arith, tail)

empty-bit_and : (y : ℕ) → bit_and 0 y ≡ 0
empty-bit_and y = bit_and-bitwise 0 y ∙ zero-common_bits y 0

-- the last binary digit set apart
bit_and_halves : (x y : ℕ) → bit_and x y ≡ min (x % 2) (y % 2) + 2 * bit_and (x / 2) (y / 2)
bit_and_halves zero y = omega (arith, empty-bit_and y, empty-bit_and (y / 2))
bit_and_halves (suc x) y =
    let half = suc x / 2 in
    let tail = common_bits_settled half (y / 2) x half (omega arith) (omega arith) in
    omega (arith, tail, bit_and-bitwise half (y / 2), bit_and-bitwise (suc x) y)

bit_and_self_fuel : (n a : ℕ) → a ≤ n → bit_and a a ≡ a
bit_and_self_fuel n zero h = empty-bit_and 0
bit_and_self_fuel zero (suc a) h = absurd (omega arith)
bit_and_self_fuel (suc n) (suc a) h =
    omega (arith, bit_and_halves (suc a) (suc a), bit_and_self_fuel n (suc a / 2) (omega arith))

bit_and_self : (a : ℕ) → bit_and a a ≡ a
bit_and_self a = bit_and_self_fuel a a (omega arith)

bit_and_even : (q : ℕ) → 1 ≤ q → bit_and (2 * q) (2 * q - 1) ≡ bit_and q (q - 1) * 2
bit_and_even q h =
    let a : (2 * q) / 2 ≡ q = omega arith in
    let b : (2 * q - 1) / 2 ≡ q - 1 = omega arith in
    let law = rw (a, b) at (bit_and_halves (2 * q) (2 * q - 1)) in omega arith

bit_and_odd : (q : ℕ) → bit_and (2 * q + 1) (2 * q) ≡ q * 2
bit_and_odd q =
    let a : (2 * q + 1) / 2 ≡ q = omega arith in
    let b : (2 * q) / 2 ≡ q = omega arith in
    let law = rw (a, b) at (bit_and_halves (2 * q + 1) (2 * q)) in omega (arith, bit_and_self q)

even_power : (q : ℕ) → 1 ≤ q → is_power_of_two (2 * q) ≡ is_power_of_two q
unfolding is_power_of_two
even_power q h = ground (arith, bit_and_even q h)

odd_power : (q : ℕ) → 1 ≤ q → is_power_of_two (2 * q + 1) ≡ false
unfolding is_power_of_two
odd_power q h =
    let less : 2 * q + 1 - 1 ≡ 2 * q = omega arith in rw less (ground (arith, bit_and_odd q))

pub is_power_of_two-place : (e : ℕ) → is_power_of_two (place e 1) ≡ true
is_power_of_two-place zero = unfold is_power_of_two place in refl
is_power_of_two-place (suc e) =
    rw (place-suc e 1) (even_power (place e 1) (place_pos e 1 (omega arith)))
    ∙ is_power_of_two-place e

-- Strictly between a power of two and the next one the test fails.
pub is_power_of_two_between :
    (e n : ℕ) → place e 1 < n → n < 2 * place e 1 → is_power_of_two n ≡ false
is_power_of_two_between zero n low high = absurd (unfold place in omega arith)
is_power_of_two_between (suc e) n low high =
    let twice = place-suc e 1 in
    let one = place_pos e 1 (omega arith) in
    elim (Bool-cases (eqb (n % 2) 0)) [
      | inl even ↦
          let half : n ≡ 2 * (n / 2) = ground arith in
          (ap is_power_of_two half)
          ∙ even_power (n / 2) (omega arith)
          ∙ is_power_of_two_between e (n / 2) (omega arith) (omega arith)
      | inr odd ↦
          let half : n ≡ 2 * (n / 2) + 1 = ground arith in
          (ap is_power_of_two half) ∙ odd_power (n / 2) (omega arith)
    ]

-- A number below the next power splits into a part from the power up and a part below it.
pub place_upper :
    (e c s : ℕ)
    → s < place (suc e) 1
    → (c' : ℕ) × (s' : ℕ) × (place (suc e) c + s ≡ place e c' + s')
      × (s' < place e 1)
      × (c' / 2 ≡ c)
      × (2 * c ≤ c')
place_upper e c s small = elim (Bool-cases (ltb s (place e 1))) [
  | inl low ↦ (
    2 * c,
    s,
    omega (arith, place-suc e c, place_double e c),
    ltb→lt s (place e 1) low,
    omega arith,
    omega arith,
  )
  | inr high ↦ (
    2 * c + 1,
    s - place e 1,
    ground (arith, place_odd e c),
    ground (arith, place-suc e 1),
    omega arith,
    omega arith,
  )
]
