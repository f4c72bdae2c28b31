-- ===== src/Governor/Loops.antt =====
-- behavior_monitor.py: `LoopingToolCallMonitor` looks for a pattern of calls that repeats. Its two
-- methods differ only in where the signature of a call comes from, which is an argument here.
pub mod Patterns
pub mod History
use clayseal_receipts.Prelude.{
  ℕ, zero, suc, ◌+◌, ◌-◌, ◌*◌, ◌≤◌, ◌<◌, ◌≡◌, ◌↔◌, refl, sym, ap, ap₂, ◌∙◌, inl, inr, Bool, true,
  false, ◌&&◌, Option, none, some, List, [], ◌∷◌, ◌++◌, arith, ltb, if◌then◌else◌, length, take,
  drop, length-take, length-drop, length-append, take-append-drop, Bool-cases, Eq, Text, codes,
}
use mathlib.Core.List.{append-nil, append_assoc}
use clayseal_receipts.Governor.{BehaviorMonitorResult, BehaviorRecommendation}

pub record LoopMonitor (S : Type 0) : Type 0 where
  pub window : ℕ
  pub pattern_len : ℕ
  pub repeats : ℕ
  pub recent : List S

-- the tests of the constructor; `none` is the `ValueError`
unfoldable pub loop_monitor : {S : Type 0} → ℕ → ℕ → ℕ → Option (LoopMonitor S)
loop_monitor window pattern_len repeats =
    if ltb 0 window && ltb 0 pattern_len && ltb 1 repeats
    then some
        (record { window = window; pattern_len = pattern_len; repeats = repeats; recent = [] })
    else none

-- `xs[-n:]` of a list that is longer than n, and the list itself else
abbrev pub last {ℓ} : {A : Type ℓ} → ℕ → List A → List A
last n xs = drop (length xs - n) xs

module _ {S : Type 0} ⦃e : Eq S⦄ where
  abbrev pub list_beq : List S → List S → Bool
  list_beq [] [] = true
  list_beq [] (y ∷ ys) = false
  list_beq (x ∷ xs) [] = false
  list_beq (x ∷ xs) (y ∷ ys) = e.beq x y && list_beq xs ys

  pub list_beq_iff : (xs ys : List S) → (list_beq xs ys ≡ true) ↔ (xs ≡ ys)
  list_beq_iff [] [] = ((λ h. refl), (λ h. refl))
  list_beq_iff [] (y ∷ ys) = ((λ h. cc), (λ h. cc))
  list_beq_iff (x ∷ xs) [] = ((λ h. cc), (λ h. cc))
  list_beq_iff (x ∷ xs) (y ∷ ys) = ground (arith, e.beq_iff x y, list_beq_iff xs ys)

  -- the loop over the slices after the first one
  unfoldable pub slices_match : ℕ → ℕ → List S → List S → Bool
  slices_match zero n pattern rest = true
  slices_match (suc i) n pattern rest =
      list_beq (take n rest) pattern && slices_match i n pattern (drop n rest)

  unfoldable pub is_looping : LoopMonitor S → Bool
  unfolding slices_match
  is_looping m =
      let tail = last (m.pattern_len * m.repeats) m.recent in
      if ltb (length m.recent) (m.pattern_len * m.repeats)
      then false
      else slices_match (m.repeats - 1) m.pattern_len (take m.pattern_len tail)
          (drop m.pattern_len tail)

  -- the score is 1.0
  unfoldable pub observe :
      {N : Type 0} → N → LoopMonitor S → S → LoopMonitor S × Option (BehaviorMonitorResult N)
  unfolding is_looping
  observe {N} full_score m signature =
      let seen = m.recent ++ signature ∷ [] in
      let m' = record m {
        recent = if ltb m.window (length seen) then last m.window seen else seen;
      } in
      let result : BehaviorMonitorResult N = record {
        risk_score = some full_score;
        recommendation = some BehaviorRecommendation.step_up;
        reasons = codes "detected repeating tool-call pattern" ∷ [];
      } in
      (m', if is_looping m' then some result else none)

  -- the result at a call, after the calls before it
  pub watch : {N : Type 0} → N → LoopMonitor S → List S → S → Option (BehaviorMonitorResult N)
  unfolding observe
  watch full_score m [] signature = (observe full_score m signature).1
  watch full_score m (x ∷ earlier) signature =
      watch full_score (observe full_score m x).0 earlier signature
