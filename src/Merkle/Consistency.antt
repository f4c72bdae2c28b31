-- ===== src/Merkle/Consistency.antt =====
-- Consistency proofs of c2sp.py: the proof that a log makes for a prefix of it leads to both roots.
use clayseal_receipts.Prelude.{
  ℕ, zero, suc, ◌+◌, ◌-◌, ◌*◌, ◌/◌, ◌%◌, ◌≤◌, ◌<◌, ◌≡◌, refl, sym, ap, ◌∙◌, inl, inr, Bool, true,
  false, Bool-cases, some, List, [], ◌∷◌, arith, eqb, leb, length, take, drop, length-take,
  length-drop,
}
use clayseal_receipts.Merkle.Powers.{
  place, place-suc, place_shift, place_odd, le-place, place_pos, place_zero, place_upper,
  is_power_of_two-place,
}
use clayseal_receipts.Merkle.Replay.{run, replay_nodes-run, step_odd, step_equal, strip_ones-place}
use clayseal_receipts.Merkle.Replays.{start, Replays, Replays-left, Replays-right}
use clayseal_receipts.Merkle.Subproofs.{take_all, take-take, subproof_whole}
use clayseal_receipts.Merkle.{
  Hasher, rfc6962_root, subproof, strip_ones, is_power_of_two, rfc6962_consistency_path,
  rfc6962_consistency_roots,
}

module _ {E H : Type 0} (h : Hasher E H) where
  full_whole :
      (e f : ℕ) (xs : List E) (b : Bool) (a c s fuel : ℕ) (r : H)
      → length xs ≡ place e 1
      → s < place e 1
      → a % 2 ≡ 0
      → place e a + (place e 1 - 1) ≤ fuel
      → (b ≡ true → r ≡ rfc6962_root h xs)
      → Replays h b
          (place e 1)
          r
          (subproof h (suc f) (place e 1) xs b)
          (strip_ones fuel (place e a + (place e 1 - 1)) (place e c + s))
          xs
          a
          c
  unfolding start run
  full_whole e f xs true a c s fuel r size small even enough old = cc (
    rw size at (subproof_whole h f xs true),
    is_power_of_two-place e,
    strip_ones-place e fuel a c s even small enough,
    take_all (place e 1) xs (omega arith),
    old refl,
  )
  full_whole e f xs false a c s fuel r size small even enough old = cc (
    rw size at (subproof_whole h f xs false),
    strip_ones-place e fuel a c s even small enough,
    take_all (place e 1) xs (omega arith),
  )

  -- In a full tree of 2 ^ e leaves: m - 1 stands below a, and a number of the tree's right below c.
  full :
      (e f m : ℕ) (xs : List E) (b : Bool) (a c s fuel : ℕ) (r : H)
      → length xs ≡ place e 1
      → length xs ≤ f
      → 1 ≤ m
      → m ≤ place e 1
      → s < place e 1
      → a < c
      → (m ≡ place e 1 → a % 2 ≡ 0)
      → place e a + (m - 1) ≤ fuel
      → (b ≡ true → r ≡ rfc6962_root h (take m xs))
      → Replays h b m r
          (subproof h f m xs b)
          (strip_ones fuel (place e a + (m - 1)) (place e c + s))
          xs
          a
          c
  full e zero m xs b a c s fuel r size room pos inside small less even enough old =
      absurd (omega (arith, place_pos e 1))
  full zero (suc f) m xs b a c s fuel r size room pos inside small less even enough old =
      let one : place 0 1 ≡ 1 = unfold place in refl in
      let whole : m ≡ place 0 1 = omega arith in
      rw whole (
        full_whole 0 f xs b a c s fuel r size small (even whole) (omega arith)
          (λ t. old t ∙ ap (rfc6962_root h) (take_all m xs (omega arith))))
  full (suc e) (suc f) m xs b a c s fuel r size room pos inside small less even enough old =
      let two = place-suc e 1 in
      let one = place_pos e 1 (omega arith) in
      let k = place e 1 in
      let p = strip_ones fuel (place (suc e) a + (m - 1)) (place (suc e) c + s) in
      let (c', s', lower, small', half, twice) = place_upper e c s small in
      elim (Bool-cases (eqb m (place (suc e) 1))) [
        | inl q ↦
            let whole : m ≡ place (suc e) 1 = ground arith in
            rw whole (
              full_whole (suc e) f xs b a c s fuel r size small (even whole) (omega arith)
                (λ t. old t ∙ ap (rfc6962_root h) (take_all m xs (omega arith))))
        | inr q ↦ elim (Bool-cases (leb m k)) [
          | inl l ↦
              let left : m ≤ k = ground arith in
              let start : place (suc e) a ≡ place e (2 * a) = unfold place in refl in
              let tree : length (take k xs) ≡ k = omega (arith, length-take k xs) in
              let back : (2 * a) / 2 ≡ a = omega arith in
              let ih =
                full e f m (take k xs) b (2 * a) c' s' fuel r tree (omega arith) pos left small'
                  (omega arith) (λ t. omega arith) (omega arith)
                  (λ t. old t ∙ ap (rfc6962_root h) (sym (take-take m k xs left))) in
              let whole =
                Replays-left h e f m xs (omega arith) (omega arith) (ground arith)
                  (strip_ones fuel (place e (2 * a) + (m - 1)) (place e c' + s')) r b (2 * a) c'
                  left (omega arith) (omega arith) ih in
              cc
          | inr l ↦
              let right : k < m = ground arith in
              let start : place (suc e) a + (m - 1) ≡ place e (2 * a + 1) + (m - k - 1) =
                omega (arith, place_odd e a) in
              let tree : length (drop k xs) ≡ k = omega (arith, length-drop k xs) in
              let back : (2 * a + 1) / 2 ≡ a = omega arith in
              let ih =
                full e f (m - k) (drop k xs) false (2 * a + 1) c' s' fuel r tree (omega arith)
                  (omega arith) (omega arith) small' (omega arith) (λ t. absurd (ground arith))
                  (omega arith) (λ t. cc) in
              let whole =
                Replays-right h e f m xs (omega arith) (omega arith) (ground arith)
                  (strip_ones fuel (place e (2 * a + 1) + (m - k - 1)) (place e c' + s')) r b
                  (2 * a + 1) c' ((2 * a + 1) / 2) (c' / 2) right
                  (λ c fr sr. step_odd h c fr sr (2 * a + 1) c' (omega arith) (omega arith)) ih in
              cc
        ]
      ]

  -- In any tree: where both numbers start at a, the replay ends with them equal, at a shifted left.
  any :
      (e f m : ℕ) (xs : List E) (b : Bool) (a fuel : ℕ) (r : H)
      → length xs ≤ place e 1
      → length xs ≤ f
      → 1 ≤ m
      → m < length xs
      → place e a + (m - 1) ≤ fuel
      → (b ≡ true → r ≡ rfc6962_root h (take m xs))
      → (t : ℕ) × Replays h b m r
          (subproof h f m xs b)
          (strip_ones fuel (place e a + (m - 1)) (place e a + (length xs - 1)))
          xs
          (place t a)
          (place t a)
  any e zero m xs b a fuel r size room pos inside enough old = absurd (omega arith)
  any zero (suc f) m xs b a fuel r size room pos inside enough old =
      absurd (let one : place 0 1 ≡ 1 = unfold place in refl in omega arith)
  any (suc e) (suc f) m xs b a fuel r size room pos inside enough old =
      let two = place-suc e 1 in
      let one = place_pos e 1 (omega arith) in
      let k = place e 1 in
      let n = length xs in
      let same : place 0 a ≡ a = unfold place in refl in
      elim (Bool-cases (leb n k)) [
        | inl q ↦
            let (t, ih) =
              any e (suc f) m xs b (2 * a) fuel r (ground arith) room pos inside
                (omega (arith, place_shift e a)) old in
            (suc t, cc (place_shift e a, place_shift t a))
        | inr q ↦ elim (Bool-cases (leb m k)) [
          | inl l ↦
              let left : m ≤ k = ground arith in
              let start : place (suc e) a ≡ place e (2 * a) = unfold place in refl in
              let tree : length (take k xs) ≡ k = ground (arith, length-take k xs) in
              let last : place (suc e) a + (n - 1) ≡ place e (2 * a + 1) + (n - k - 1) =
                ground (arith, place_odd e a) in
              let back : (2 * a) / 2 ≡ a = omega arith in
              let back' : (2 * a + 1) / 2 ≡ a = omega arith in
              let ih =
                full e f m (take k xs) b (2 * a) (2 * a + 1) (n - k - 1) fuel r tree (ground arith)
                  pos left (ground arith) (omega arith) (λ t. omega arith) (omega arith)
                  (λ t. old t ∙ ap (rfc6962_root h) (sym (take-take m k xs left))) in
              let whole =
                Replays-left h e f m xs (ground arith) (omega arith) inside
                  (strip_ones fuel (place e (2 * a) + (m - 1)) (place e (2 * a + 1) + (n - k - 1)))
                  r b (2 * a) (2 * a + 1) left (omega arith) (omega arith) ih in
              (0, cc)
          | inr l ↦
              let right : k < m = ground arith in
              let tree : length (drop k xs) ≡ n - k = length-drop k xs in
              let first : place (suc e) a + (m - 1) ≡ place e (2 * a + 1) + (m - k - 1) =
                omega (arith, place_odd e a) in
              let last : place (suc e) a + (n - 1) ≡ place e (2 * a + 1) + (n - k - 1) =
                omega (arith, place_odd e a) in
              let back : (2 * a + 1) / 2 ≡ a = omega arith in
              let (t, ih) =
                any e f (m - k) (drop k xs) false (2 * a + 1) fuel r (omega arith) (omega arith)
                  (omega arith) (omega arith) (omega arith) (λ u. cc) in
              let whole =
                Replays-right h e f m xs (omega arith) (omega arith) inside
                  (strip_ones fuel (place e (2 * a + 1) + (m - k - 1))
                    (place e (2 * a + 1) + (length (drop k xs) - 1)))
                  r b (place t (2 * a + 1)) (place t (2 * a + 1)) ((2 * a + 1) / 2)
                  ((2 * a + 1) / 2) right
                  (λ c fr sr. step_equal h c fr sr t (2 * a + 1) (omega arith)) ih in
              (0, cc)
        ]
      ]

  consistency_roots-start :
      (m n : ℕ) (path : List H) (r : H) (x : ℕ) (old new : H)
      → 1 ≤ m
      → m < n
      → start h (is_power_of_two m) r path (strip_ones m (m - 1) (n - 1)) ≡ some (x, 0, old, new)
      → rfc6962_consistency_roots h m n path r ≡ some (old, new)
  unfolding start rfc6962_consistency_roots
  consistency_roots-start m n [] r x old new pos less e =
      let p = strip_ones m (m - 1) (n - 1) in
      elim (Bool-cases (is_power_of_two m)) [
        | inl q ↦ ground (arith, replay_nodes-run h [] p.0 p.1 r r x old new (rw q at e), q)
        | inr q ↦ absurd (let e' = rw q at e in cc)
      ]
  consistency_roots-start m n (seed ∷ nodes) r x old new pos less e =
      let p = strip_ones m (m - 1) (n - 1) in
      elim (Bool-cases (is_power_of_two m)) [
        | inl q ↦
            ground (arith, replay_nodes-run h (seed ∷ nodes) p.0 p.1 r r x old new (rw q at e), q)
        | inr q ↦
            ground (arith, replay_nodes-run h nodes p.0 p.1 seed seed x old new (rw q at e), q)
      ]

  -- For every size m of a log's past, the log makes a consistency proof, and the replay of this
  -- proof from the root of the first m entries returns that root and the root of the whole log.
  pub consistency_roots-consistency_path :
      (entries : List E) (m : ℕ)
      → 1 ≤ m
      → m ≤ length entries
      → (path : List H) × (rfc6962_consistency_path h m entries ≡ some path)
        × (rfc6962_consistency_roots h m (length entries) path (rfc6962_root h (take m entries))
            ≡ some (rfc6962_root h (take m entries), rfc6962_root h entries))
  unfolding rfc6962_consistency_path rfc6962_consistency_roots
  consistency_roots-consistency_path entries m pos inside =
      elim (Bool-cases (eqb m (length entries))) [
        | inl q ↦ ([], ground (arith, q), ground (arith, q, take_all m entries))
        | inr q ↦
            let (t, ih) =
              any (length entries) (length entries) m entries true 0 m
                (rfc6962_root h (take m entries)) (le-place (length entries)) (omega arith) pos
                (ground arith) (omega (arith, place_zero (length entries))) (λ u. refl) in
            let none_below : (z : ℕ) → place (length entries) 0 + z ≡ z =
              λ z. omega (arith, place_zero (length entries)) in
            let ends = place_zero t in
            (
              subproof h (length entries) m entries true,
              ground (arith, q),
              consistency_roots-start m (length entries)
                  (subproof h (length entries) m entries true) (rfc6962_root h (take m entries)) 0
                  (rfc6962_root h (take m entries)) (rfc6962_root h entries) pos (ground arith)
                  (rw (none_below (m - 1), none_below (length entries - 1), ends) at ih),
            )
      ]
