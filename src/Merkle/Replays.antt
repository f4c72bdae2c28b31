-- ===== src/Merkle/Replays.antt =====
-- What a replay of a consistency proof reaches, and its last round (c2sp.py).
use clayseal_receipts.Prelude.{
  ℕ, suc, ◌-◌, ◌*◌, ◌/◌, ◌%◌, ◌≤◌, ◌<◌, ◌≡◌, refl, Bool, true, false, ◌&&◌, Option, none, some,
  List, [], ◌∷◌, ◌++◌, arith, length, take, drop,
}
use clayseal_receipts.Merkle.Root.{rfc6962_root_split}
use clayseal_receipts.Merkle.Powers.{
  place, place_pos, largest_power_of_two_below-place, is_power_of_two_between,
}
use clayseal_receipts.Merkle.Replay.{step, run, run-snoc, step_left}
use clayseal_receipts.Merkle.Subproofs.{take-take, subproof_left, subproof_right, root_take_split}
use clayseal_receipts.Merkle.{Hasher, rfc6962_root, subproof, is_power_of_two}

module _ {E H : Type 0} (h : Hasher E H) where
  -- the start of a replay: from the old root, or from the first node of the path
  unfoldable pub start : Bool → H → List H → ℕ × ℕ → Option (ℕ × ℕ × H × H)
  start true r path (fn, sn) = run h path (fn, sn, r, r)
  start false r [] (fn, sn) = none
  start false r (seed ∷ nodes) (fn, sn) = run h nodes (fn, sn, seed, seed)

  pub start-snoc :
      (b : Bool) (r : H) (path : List H) (c : H) (p : ℕ × ℕ) (t : ℕ × ℕ × H × H)
      → start b r path p ≡ some t
      → start b r (path ++ c ∷ []) p ≡ step h c t
  unfolding start
  start-snoc true r path c (fn, sn) t e = run-snoc h path c (fn, sn, r, r) t e
  start-snoc false r [] c (fn, sn) t e = cc
  start-snoc false r (seed ∷ nodes) c (fn, sn) t e = run-snoc h nodes c (fn, sn, seed, seed) t e

  start_any : (r r' : H) (path : List H) (p : ℕ × ℕ) → start false r path p ≡ start false r' path p
  unfolding start
  start_any r r' [] (fn, sn) = refl
  start_any r r' (seed ∷ nodes) (fn, sn) = refl

  -- a replay reaches the numbers x and y with the roots of the first m leaves and of all
  abbrev pub Replays : Bool → ℕ → H → List H → ℕ × ℕ → List E → ℕ → ℕ → Type 0
  Replays b m r path p xs x y =
      start (b && is_power_of_two m) r path p
      ≡ some (x, y, rfc6962_root h (take m xs), rfc6962_root h xs)

  module _ (e f m : ℕ) (xs : List E) (low : place e 1 < length xs)
      (high : length xs ≤ 2 * place e 1) (less : m < length xs) (p : ℕ × ℕ) (r : H) where
    pub Replays-left :
        (b : Bool) (fn sn : ℕ)
        → m ≤ place e 1
        → fn % 2 ≡ 0
        → fn < sn
        → Replays b m r (subproof h f m (take (place e 1) xs) b) p (take (place e 1) xs) fn sn
        → Replays b m r (subproof h (suc f) m xs b) p xs (fn / 2) (sn / 2)
    Replays-left b fn sn left even lt ih =
        let k = largest_power_of_two_below-place e (length xs) low high in
        let one = place_pos e 1 (omega arith) in
        let path = rw k at (subproof_left h f m xs b less (omega arith)) in
        let whole = rw k at (rfc6962_root_split h xs (omega arith)) in
        cc (
          path,
          whole,
          take-take m (place e 1) xs left,
          start-snoc (b && is_power_of_two m) r (subproof h f m (take (place e 1) xs) b)
              (rfc6962_root h (drop (place e 1) xs)) p _ ih,
          step_left h (rfc6962_root h (drop (place e 1) xs))
              (rfc6962_root h (take m (take (place e 1) xs))) (rfc6962_root h (take (place e 1) xs))
              fn sn even lt,
        )

    pub Replays-right :
        (b : Bool) (fn sn x y : ℕ)
        → place e 1 < m
        → ((c fr sr : H) → step h c (fn, sn, fr, sr) ≡ some (x, y, h.node c fr, h.node c sr))
        → Replays false
            (m - place e 1)
            r
            (subproof h f (m - place e 1) (drop (place e 1) xs) false)
            p
            (drop (place e 1) xs)
            fn
            sn
        → Replays b m r (subproof h (suc f) m xs b) p xs x y
    Replays-right b fn sn x y right round ih =
        let k = largest_power_of_two_below-place e (length xs) low high in
        let one = place_pos e 1 (omega arith) in
        let path = rw k at (subproof_right h f m xs b less (omega arith)) in
        let whole = rw k at (rfc6962_root_split h xs (omega arith)) in
        let flag : (b && is_power_of_two m) ≡ false = ground (arith, is_power_of_two_between e m) in
        cc (
          path,
          whole,
          flag,
          root_take_split h e m xs (omega arith) right (omega arith),
          start-snoc false r (subproof h f (m - place e 1) (drop (place e 1) xs) false)
              (rfc6962_root h (take (place e 1) xs)) p _ ih,
          round (rfc6962_root h (take (place e 1) xs))
              (rfc6962_root h (take (m - place e 1) (drop (place e 1) xs)))
              (rfc6962_root h (drop (place e 1) xs)),
        )
