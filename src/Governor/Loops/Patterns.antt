-- ===== src/Governor/Loops/Patterns.antt =====
-- The monitor of behavior_monitor.py reports a loop exactly when the last calls are one.
use clayseal_receipts.Prelude.{
  ℕ, zero, suc, ◌+◌, ◌-◌, ◌*◌, ◌≤◌, ◌≡◌, ◌↔◌, refl, sym, ap, ap₂, ◌∙◌, inl, inr, Bool, true, false,
  List, [], ◌∷◌, ◌++◌, arith, ltb, length, take, drop, length-take, length-drop, length-append,
  take-append-drop, Bool-cases, Eq, if◌then◌else◌,
}
use native.Mathlib.Nat.{suc-mul, mul_comm}
use clayseal_receipts.Governor.Loops.{LoopMonitor, last, list_beq_iff, slices_match, is_looping}

module _ {ℓ} {A : Type ℓ} where
  take_append : (xs ys : List A) → take (length xs) (xs ++ ys) ≡ xs
  take_append [] ys = refl
  take_append (x ∷ xs) ys = rw (take_append xs ys)

  drop_append : (xs ys : List A) → drop (length xs) (xs ++ ys) ≡ ys
  drop_append [] ys = refl
  drop_append (x ∷ xs) ys = drop_append xs ys

  pub drop-append_within :
      (n : ℕ) (xs ys : List A) → n ≤ length xs → drop n (xs ++ ys) ≡ drop n xs ++ ys
  drop-append_within zero xs ys h = refl
  drop-append_within (suc n) [] ys h = absurd (omega arith)
  drop-append_within (suc n) (x ∷ xs) ys h = drop-append_within n xs ys (omega arith)

  pub drop-nil : (n : ℕ) → drop {A = A} n [] ≡ []
  drop-nil zero = refl
  drop-nil (suc n) = refl

  pub drop-drop : (a b : ℕ) (xs : List A) → drop b (drop a xs) ≡ drop (a + b) xs
  drop-drop zero b xs = rw (let e : 0 + b ≡ b = omega arith in e)
  drop-drop (suc a) b [] = drop-nil b ∙ sym (drop-nil (suc a + b))
  drop-drop (suc a) b (x ∷ xs) =
      rw (let e : suc a + b ≡ suc (a + b) = omega arith in e) (drop-drop a b xs)

module _ {S : Type 0} ⦃e : Eq S⦄ where
  -- k copies of a pattern
  abbrev pub repeated : ℕ → List S → List S
  repeated zero pattern = []
  repeated (suc k) pattern = pattern ++ repeated k pattern

  pub length-repeated :
      (k : ℕ) (pattern : List S) → length (repeated k pattern) ≡ k * length pattern
  length-repeated zero pattern = omega arith
  length-repeated (suc k) pattern = omega (
    arith,
    suc-mul k (length pattern),
    length-append pattern (repeated k pattern),
    length-repeated k pattern,
  )

  slices_match_iff :
      (i n : ℕ) (pattern rest : List S)
      → length pattern ≡ n
      → length rest ≡ i * n
      → (slices_match i n pattern rest ≡ true) ↔ (rest ≡ repeated i pattern)
  unfolding slices_match
  slices_match_iff zero n pattern [] size room = ((λ h. refl), (λ h. refl))
  slices_match_iff zero n pattern (x ∷ xs) size room = absurd (omega arith)
  slices_match_iff (suc i) n pattern rest size room =
      let first = list_beq_iff (take n rest) pattern in
      let later =
        slices_match_iff i n pattern (drop n rest) size
          (omega (arith, length-drop n rest, suc-mul i n)) in
      (
        (λ h.
            sym (take-append-drop n rest)
            ∙ ap₂ ◌++◌ (first.0 (ground arith)) (later.0 (ground arith))),
        (λ h.
            let start : take n rest ≡ pattern =
              rw (h, ← size) (take_append pattern (repeated i pattern)) in
            let back : drop n rest ≡ repeated i pattern =
              rw (h, ← size) (drop_append pattern (repeated i pattern)) in
            ground (arith, first.1 start, later.1 back)),
      )

  -- the list ends in k copies of a pattern of n elements
  abbrev pub EndsInLoop : ℕ → ℕ → List S → Type 0
  EndsInLoop n k xs =
      (earlier : List S) × (pattern : List S) × (length pattern ≡ n)
      × (xs ≡ earlier ++ repeated k pattern)

  -- the test on the last calls
  tail_matches : ℕ → ℕ → List S → Bool
  tail_matches n k xs =
      if ltb (length xs) (n * k)
      then false
      else slices_match (k - 1) n (take n (last (n * k) xs)) (drop n (last (n * k) xs))

  tail_matches-EndsInLoop :
      (n i : ℕ) (xs : List S) → tail_matches n (suc i) xs ≡ true → EndsInLoop n (suc i) xs
  unfolding tail_matches
  tail_matches-EndsInLoop n i xs h = elim (Bool-cases (ltb (length xs) (n * suc i))) [
    | inl q ↦ absurd (ground (arith, q))
    | inr q ↦
        let a = length xs - n * suc i in
        let tail = drop a xs in
        let total : n * suc i ≡ i * n + n = omega (arith, mul_comm n (suc i), suc-mul i n) in
        let one : suc i - 1 ≡ i = omega arith in
        let size : length tail ≡ n * suc i = ground (arith, length-drop a xs) in
        let first : length (take n tail) ≡ n = omega (arith, length-take n tail) in
        let more : length (drop n tail) ≡ i * n = omega (arith, length-drop n tail) in
        let later =
          (slices_match_iff i n (take n tail) (drop n tail) first more).0 (rw (q, one) at h) in
        (
          take a xs,
          take n tail,
          first,
          sym (take-append-drop a xs)
              ∙ ap (λ t. take a xs ++ t)
                  (sym (take-append-drop n tail) ∙ ap (λ t. take n tail ++ t) later),
        )
  ]

  EndsInLoop-tail_matches :
      (n i : ℕ) (xs : List S) → EndsInLoop n (suc i) xs → tail_matches n (suc i) xs ≡ true
  unfolding tail_matches
  EndsInLoop-tail_matches n i xs (earlier, pattern, size, whole) =
      let a = length xs - n * suc i in
      let loop = repeated (suc i) pattern in
      let mul : suc i * length pattern ≡ n * suc i =
        ap (λ t. suc i * t) size ∙ mul_comm (suc i) n in
      let total : n * suc i ≡ i * n + n = omega (arith, mul_comm n (suc i), suc-mul i n) in
      let long : length xs ≡ length earlier + n * suc i =
        ap length whole
        ∙ length-append earlier loop
        ∙ omega (arith, length-repeated (suc i) pattern) in
      let start : a ≡ length earlier = omega arith in
      let tail : drop a xs ≡ loop = rw (start, whole) (drop_append earlier loop) in
      let first : take n loop ≡ pattern = rw (← size) (take_append pattern (repeated i pattern)) in
      let rest : drop n loop ≡ repeated i pattern =
        rw (← size) (drop_append pattern (repeated i pattern)) in
      let room : length (repeated i pattern) ≡ i * n =
        length-repeated i pattern ∙ ap (λ t. i * t) size in
      let one : suc i - 1 ≡ i = omega arith in
      let matches = (slices_match_iff i n pattern (repeated i pattern) size room).1 refl in
      ground (arith, tail, first, rest, one, matches)

  pub is_looping_iff :
      (m : LoopMonitor S)
      → 1 ≤ m.repeats
      → (is_looping m ≡ true) ↔ EndsInLoop m.pattern_len m.repeats m.recent
  unfolding is_looping tail_matches
  is_looping_iff m pos = go m.repeats pos
    where
      go :
          (k : ℕ)
          → 1 ≤ k
          → (tail_matches m.pattern_len k m.recent ≡ true) ↔ EndsInLoop m.pattern_len k m.recent
      go zero p = absurd (omega arith)
      go (suc i) p = (
        tail_matches-EndsInLoop m.pattern_len i m.recent,
        EndsInLoop-tail_matches m.pattern_len i m.recent,
      )
