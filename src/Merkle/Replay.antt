-- ===== src/Merkle/Replay.antt =====
-- The loop of `rfc6962_consistency_roots` (c2sp.py) as single steps, and its shifts.
use clayseal_receipts.Prelude.{
  ℕ, zero, suc, ◌+◌, ◌-◌, ◌/◌, ◌%◌, ◌≤◌, ◌<◌, ◌≡◌, refl, sym, ◌∙◌, inl, inr, ◌||◌, Bool-cases,
  Option, none, some, List, [], ◌∷◌, ◌++◌, arith, eqb, if◌then◌else◌, Option-cases, some-inj,
}
use clayseal_receipts.Merkle.Powers.{place, place-suc, place_pos}
use clayseal_receipts.Merkle.{Hasher, strip_ones, strip_zeros, replay_nodes}

-- Ones below an even number are shifted out, of both numbers.
pub strip_ones-place :
    (e fuel a c s : ℕ)
    → a % 2 ≡ 0
    → s < place e 1
    → place e a + (place e 1 - 1) ≤ fuel
    → strip_ones fuel (place e a + (place e 1 - 1)) (place e c + s) ≡ (a, c)
unfolding strip_ones
strip_ones-place zero zero a c s even small enough = unfold place in ground arith
strip_ones-place zero (suc fuel) a c s even small enough = unfold place in ground arith
strip_ones-place (suc e) zero a c s even small enough =
    absurd (omega (arith, place-suc e 1, place_pos e 1))
strip_ones-place (suc e) (suc fuel) a c s even small enough =
    let whole = place-suc e 1 in
    let one = place_pos e 1 (omega arith) in
    let odd : (place (suc e) a + (place (suc e) 1 - 1)) % 2 ≡ 1 = omega (arith, place-suc e a) in
    let left : (place (suc e) a + (place (suc e) 1 - 1)) / 2 ≡ place e a + (place e 1 - 1) =
      omega (arith, place-suc e a) in
    let right : (place (suc e) c + s) / 2 ≡ place e c + s / 2 = omega (arith, place-suc e c) in
    rw (odd, left, right)
      (strip_ones-place e fuel a c (s / 2) even (omega arith) (omega (arith, place-suc e a)))

-- Zeros below an odd number are shifted out.
pub strip_zeros-place :
    (t fuel o : ℕ)
    → o % 2 ≡ 1
    → place t o ≤ fuel
    → strip_zeros fuel (place t o) (place t o) ≡ (o, o)
unfolding strip_zeros
strip_zeros-place zero zero o odd enough = unfold place in refl
strip_zeros-place zero (suc fuel) o odd enough = unfold place in ground arith
strip_zeros-place (suc t) zero o odd enough = absurd (omega (arith, place_pos (suc t) o))
strip_zeros-place (suc t) (suc fuel) o odd enough =
    let twice = place-suc t o in
    let pos = place_pos t o (omega arith) in
    let even : place (suc t) o % 2 ≡ 0 = omega arith in
    let half : place (suc t) o / 2 ≡ place t o = omega arith in
    ground (arith, strip_zeros-place t fuel o odd)

strip_zeros_odd : (fuel fn sn : ℕ) → fn % 2 ≡ 1 → strip_zeros fuel fn sn ≡ (fn, sn)
unfolding strip_zeros
strip_zeros_odd zero fn sn odd = refl
strip_zeros_odd (suc fuel) fn sn odd = ground arith

Option-eta {ℓ} : {A : Type ℓ} (o : Option A) → elim o [ none ↦ none | some a ↦ some a ] ≡ o
Option-eta none = refl
Option-eta (some a) = refl

module _ {E H : Type 0} (h : Hasher E H) where
  -- one round of the loop: the shifted numbers and the two hashes
  pub step : H → ℕ × ℕ × H × H → Option (ℕ × ℕ × H × H)
  step c (fn, sn, fr, sr) =
      let (fn', sn') = strip_zeros fn fn sn in
      if eqb sn 0
      then none
      else if eqb (fn % 2) 1 || eqb fn sn
      then some (fn' / 2, sn' / 2, h.node c fr, h.node c sr)
      else some (fn / 2, sn / 2, fr, h.node sr c)

  unfoldable pub run : List H → ℕ × ℕ × H × H → Option (ℕ × ℕ × H × H)
  run [] s = some s
  run (c ∷ nodes) s = elim (step c s) [ none ↦ none | some t ↦ run nodes t ]

  pub run-snoc :
      (nodes : List H) (c : H) (s t : ℕ × ℕ × H × H)
      → run nodes s ≡ some t
      → run (nodes ++ c ∷ []) s ≡ step c t
  unfolding run
  run-snoc [] c s t e = rw (some-inj e) (Option-eta (step c t))
  run-snoc (n ∷ nodes) c s t e = elim (Option-cases (step n s)) [
    | inl q ↦ ground (arith, q)
    | inr (u, q) ↦ rw (run, q) (run-snoc nodes c u t (ground (arith, q)))
  ]

  run-step :
      (nodes : List H) (c : H) (s t : ℕ × ℕ × H × H)
      → step c s ≡ some t
      → run (c ∷ nodes) s ≡ run nodes t
  unfolding run
  run-step nodes c s t e = ground (arith, e)

  pub replay_nodes-run :
      (nodes : List H) (fn sn : ℕ) (fr sr : H) (x : ℕ) (o n : H)
      → run nodes (fn, sn, fr, sr) ≡ some (x, 0, o, n)
      → replay_nodes h nodes fn sn fr sr ≡ some (o, n)
  unfolding run step replay_nodes
  replay_nodes-run [] fn sn fr sr x o n e = ground arith
  replay_nodes-run (c ∷ nodes) fn sn fr sr x o n e =
      let z = strip_zeros fn fn sn in
      let s : ℕ × ℕ × H × H = (fn, sn, fr, sr) in
      elim (Bool-cases (eqb sn 0)) [
        | inl p ↦ absurd (ground (arith, p))
        | inr p ↦ elim (Bool-cases (eqb (fn % 2) 1 || eqb fn sn)) [
          | inl q ↦
              rw (p, q)
                (replay_nodes-run nodes (z.0 / 2) (z.1 / 2) (h.node c fr) (h.node c sr) x o n
                  (sym (run-step nodes c s _ (rw (p, q))) ∙ e))
          | inr q ↦
              rw (p, q)
                (replay_nodes-run nodes (fn / 2) (sn / 2) fr (h.node sr c) x o n
                  (sym (run-step nodes c s _ (rw (p, q))) ∙ e))
        ]
      ]

  -- a round at an even number that differs
  pub step_left :
      (c fr sr : H) (fn sn : ℕ)
      → fn % 2 ≡ 0
      → fn < sn
      → step c (fn, sn, fr, sr) ≡ some (fn / 2, sn / 2, fr, h.node sr c)
  unfolding step
  step_left c fr sr fn sn even less = ground arith

  pub step_odd :
      (c fr sr : H) (fn sn : ℕ)
      → fn % 2 ≡ 1
      → 1 ≤ sn
      → step c (fn, sn, fr, sr) ≡ some (fn / 2, sn / 2, h.node c fr, h.node c sr)
  unfolding step
  step_odd c fr sr fn sn odd pos = ground (arith, strip_zeros_odd fn fn sn odd)

  pub step_equal :
      (c fr sr : H) (t o : ℕ)
      → o % 2 ≡ 1
      → step c (place t o, place t o, fr, sr) ≡ some (o / 2, o / 2, h.node c fr, h.node c sr)
  unfolding step
  step_equal c fr sr t o odd = ground (arith, strip_zeros-place t (place t o) o odd, place_pos t o)
