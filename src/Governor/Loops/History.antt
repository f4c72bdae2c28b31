-- ===== src/Governor/Loops/History.antt =====
-- The loop monitor of behavior_monitor.py over a whole history of calls, through its window.
use clayseal_receipts.Prelude.{
  ℕ, ◌+◌, ◌-◌, ◌*◌, ◌≤◌, ◌≡◌, ◌↔◌, sym, ap, ◌∙◌, inl, inr, true, some, List, [], ◌∷◌, ◌++◌, arith,
  ltb, length, take, drop, length-drop, length-append, take-append-drop, Bool-cases, Eq,
}
use mathlib.Core.List.{append_assoc}
use native.Mathlib.Nat.{mul_comm}
use clayseal_receipts.Governor.Rules.{is_some}
use clayseal_receipts.Governor.Loops.{LoopMonitor, loop_monitor, last, is_looping, observe, watch}
use clayseal_receipts.Governor.Loops.Patterns.{
  repeated, EndsInLoop, drop-append_within, drop-drop, drop-nil, length-repeated, is_looping_iff,
}

module _ {S : Type 0} where
  -- One more call after a window is the window after one more call.
  last-last : (w : ℕ) (h : List S) (s : S) → last w (last w h ++ s ∷ []) ≡ last w (h ++ s ∷ [])
  last-last w h s =
      let a = length h - w in
      let more = length-append h (s ∷ []) in
      let inside : drop a h ++ s ∷ [] ≡ drop a (h ++ s ∷ []) =
        sym (drop-append_within a h (s ∷ []) (omega arith)) in
      let size : length (drop a (h ++ s ∷ [])) ≡ length (h ++ s ∷ []) - a =
        length-drop a (h ++ s ∷ []) in
      let place : a + (length (drop a (h ++ s ∷ [])) - w) ≡ length (h ++ s ∷ []) - w =
        omega arith in
      rw inside (
        drop-drop a (length (drop a (h ++ s ∷ [])) - w) (h ++ s ∷ [])
        ∙ ap (λ t. drop t (h ++ s ∷ [])) place)

module _ {S : Type 0} ⦃e : Eq S⦄ {N : Type 0} (full_score : N) where
  -- what a monitor keeps of a history
  pub record Remembers (w n k : ℕ) (h : List S) (m : LoopMonitor S) : Type 0 where
    pub window_kept : m.window ≡ w
    pub length_kept : m.pattern_len ≡ n
    pub repeats_kept : m.repeats ≡ k
    pub recent_kept : m.recent ≡ last w h

  observe-Remembers :
      (w n k : ℕ) (h : List S) (m : LoopMonitor S) (s : S)
      → Remembers w n k h m
      → Remembers w n k (h ++ s ∷ []) (observe full_score m s).0
  unfolding observe
  observe-Remembers w n k h m s r =
      let seen = m.recent ++ s ∷ [] in
      let kept : seen ≡ last w h ++ s ∷ [] = ap (λ t. t ++ s ∷ []) r.recent_kept in
      let short : length seen ≤ w → drop (length seen - w) seen ≡ seen =
        λ le. let none_cut : length seen - w ≡ 0 = omega arith in rw none_cut in
      let whole : last w seen ≡ last w (h ++ s ∷ []) = ap (last w) kept ∙ last-last w h s in
      record {
        window_kept = r.window_kept;
        length_kept = r.length_kept;
        repeats_kept = r.repeats_kept;
        recent_kept = elim (Bool-cases (ltb m.window (length seen))) [
          | inl q ↦ rw q (ap (λ v. last v seen) r.window_kept ∙ whole)
          | inr q ↦ rw q (sym (short (ground (arith, q, r.window_kept))) ∙ whole)
        ];
      }

  -- a loop at the end of a window is one at the end of the history, and the other way round
  last-EndsInLoop :
      (w n k : ℕ) (h : List S) → n * k ≤ w → EndsInLoop n k (last w h) ↔ EndsInLoop n k h
  last-EndsInLoop w n k h room = (
    (λ (earlier, pattern, size, whole). (
      take (length h - w) h ++ earlier,
      pattern,
      size,
      sym (take-append-drop (length h - w) h)
          ∙ ap (λ t. take (length h - w) h ++ t) whole
          ∙ sym (append_assoc (take (length h - w) h) earlier (repeated k pattern)),
    )),
    (λ (earlier, pattern, size, whole).
        let loop = repeated k pattern in
        let long : length loop ≡ n * k =
          length-repeated k pattern ∙ ap (λ t. k * t) size ∙ mul_comm k n in
        let total = ap length whole ∙ length-append earlier loop in
        (
          drop (length h - w) earlier,
          pattern,
          size,
          ap (λ t. drop (length h - w) t) whole
              ∙ drop-append_within (length h - w) earlier loop (omega arith),
        )),
  )

  looping_iff :
      (w n k : ℕ) (h : List S) (m : LoopMonitor S)
      → 1 ≤ k
      → Remembers w n k h m
      → (is_looping m ≡ true) ↔ EndsInLoop n k (last w h)
  looping_iff w n k h m pos r =
      let (sound, complete) = is_looping_iff m (omega (arith, r.repeats_kept)) in
      (
        (λ t.
            let (earlier, pattern, size, whole) = sound t in
            (
              earlier,
              pattern,
              size ∙ r.length_kept,
              sym r.recent_kept ∙ whole ∙ ap (λ j. earlier ++ repeated j pattern) r.repeats_kept,
            )),
        (λ (earlier, pattern, size, whole). complete (
          earlier,
          pattern,
          size ∙ sym r.length_kept,
          r.recent_kept ∙ whole ∙ ap (λ j. earlier ++ repeated j pattern) (sym r.repeats_kept),
        )),
      )

  reports-is_looping :
      (m : LoopMonitor S) (s : S)
      → is_some (observe full_score m s).1 ≡ is_looping (observe full_score m s).0
  unfolding observe
  reports-is_looping m s = ground arith

  watch_iff :
      (w n k : ℕ) (h : List S) (m : LoopMonitor S) (later : List S) (s : S)
      → 1 ≤ k
      → n * k ≤ w
      → Remembers w n k h m
      → (is_some (watch full_score m later s) ≡ true) ↔ EndsInLoop n k (h ++ (later ++ s ∷ []))
  unfolding watch
  watch_iff w n k h m [] s pos room r =
      let m' = (observe full_score m s).0 in
      let (sound, complete) =
        looping_iff w n k (h ++ s ∷ []) m' pos (observe-Remembers w n k h m s r) in
      let (grows, shrinks) = last-EndsInLoop w n k (h ++ s ∷ []) room in
      let same = reports-is_looping m s in
      ((λ t. grows (sound (sym same ∙ t))), (λ t. same ∙ complete (shrinks t)))
  watch_iff w n k h m (x ∷ later) s pos room r =
      let next =
        watch_iff w n k (h ++ x ∷ []) (observe full_score m x).0 later s pos room
          (observe-Remembers w n k h m x r) in
      rw (← append_assoc h (x ∷ []) (later ++ s ∷ [])) next

  -- A monitor that is made for a pattern length, a number of repeats and a window that holds them
  -- reports a call exactly when the calls up to it end in that number of copies of one pattern of
  -- that length.
  pub watch-EndsInLoop :
      (window pattern_len repeats : ℕ) (m : LoopMonitor S) (earlier : List S) (signature : S)
      → loop_monitor window pattern_len repeats ≡ some m
      → pattern_len * repeats ≤ window
      → (is_some (watch full_score m earlier signature) ≡ true)
        ↔ EndsInLoop pattern_len repeats (earlier ++ signature ∷ [])
  unfolding loop_monitor
  watch-EndsInLoop window pattern_len repeats m earlier signature made room =
      let fresh : Remembers window pattern_len repeats [] m = record {
        window_kept = ground arith;
        length_kept = ground arith;
        repeats_kept = ground arith;
        recent_kept = ground (arith, drop-nil {A = S} (0 - window));
      } in
      watch_iff window pattern_len repeats [] m earlier signature (ground arith) room fresh
