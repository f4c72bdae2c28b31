-- ===== src/Monitor/Window.antt =====
-- A monitor remembers the last actions of a session (action_monitor.py).
use mathlib.Core.List.{append-nil, append_assoc}
use clayseal_receipts.Prelude.{
  ℕ, zero, suc, ◌-◌, ◌≤◌, String, ◌≡◌, refl, ap, sym, ◌∙◌, Bool, true, false, List, [], ◌∷◌, ◌++◌,
  ◌==◌, string_eq, eq_iff, ltb, length, drop, length-append, length-drop, pos, arith, if◌then◌else◌,
  Bool-cases, inl, inr,
}
use clayseal_receipts.Policy.{ExecutionContext}
use clayseal_receipts.Monitor.{
  MonitoredAction, monitored_action, SessionActionMonitor, trimmed, remembered, remember,
  session_of, prior_action_count, commit,
}

-- the last `w` of a list
abbrev pub last_of : ℕ → List MonitoredAction → List MonitoredAction
last_of w xs = drop (length xs - w) xs

drop_nil : (k : ℕ) → drop {A = MonitoredAction} k [] ≡ []
drop_nil zero = refl
drop_nil (suc k) = refl

if_true : (b : Bool) (us vs : List MonitoredAction) → b ≡ true → (if b then us else vs) ≡ us
if_true true us vs h = refl
if_true false us vs h = cc

if_false : (b : Bool) (us vs : List MonitoredAction) → b ≡ false → (if b then us else vs) ≡ vs
if_false false us vs h = refl
if_false true us vs h = cc

drop-append :
    (k : ℕ) (xs ys : List MonitoredAction) → k ≤ length xs → drop k (xs ++ ys) ≡ drop k xs ++ ys
drop-append zero xs ys h = refl
drop-append (suc k) [] ys h = absurd (omega arith)
drop-append (suc k) (x ∷ xs) ys h = drop-append k xs ys (omega arith)

drop-drop : (k : ℕ) (xs : List MonitoredAction) → drop 1 (drop k xs) ≡ drop (suc k) xs
drop-drop zero [] = refl
drop-drop zero (x ∷ xs) = refl
drop-drop (suc k) [] = refl
drop-drop (suc k) (x ∷ xs) = drop-drop k xs

trimmed_long :
    (w : ℕ) (ys : List MonitoredAction)
    → length ys ≡ suc (suc w)
    → trimmed (pos (suc w)) ys ≡ drop 1 ys
unfolding trimmed
trimmed_long w ys h =
    let one : length ys - suc w ≡ 1 = omega arith in
    let over : ltb (suc w) (length ys) ≡ true = ground arith in rw (over, one)

trimmed_short :
    (w : ℕ) (ys : List MonitoredAction) → length ys ≤ suc w → trimmed (pos (suc w)) ys ≡ ys
unfolding trimmed
trimmed_short w ys h = let within : ltb (suc w) (length ys) ≡ false = ground arith in rw within

trimmed-last_of :
    (w : ℕ) (xs : List MonitoredAction) (a : MonitoredAction)
    → trimmed (pos (suc w)) (last_of (suc w) xs ++ a ∷ []) ≡ last_of (suc w) (xs ++ a ∷ [])
trimmed-last_of w xs a = elim (Bool-cases (ltb (length xs) (suc w))) [
  | inl q ↦
      let none_over : length xs - suc w ≡ 0 = ground arith in
      let none_over' : length (xs ++ a ∷ []) - suc w ≡ 0 =
        ground (arith, length-append xs (a ∷ [])) in
      rw (none_over, none_over')
        (trimmed_short w (xs ++ a ∷ []) (ground (arith, length-append xs (a ∷ []))))
  | inr q ↦
      let k = length xs - suc w in
      let next : length (xs ++ a ∷ []) - suc w ≡ suc k =
        ground (arith, length-append xs (a ∷ [])) in
      rw next (
        trimmed_long w (drop k xs ++ a ∷ [])
          (ground (arith, length-append (drop k xs) (a ∷ []), length-drop k xs))
        ∙ ap (drop 1) (sym (drop-append k xs (a ∷ []) (omega arith)))
        ∙ drop-drop k (xs ++ a ∷ []))
]

remembered-remember :
    (session s : String) (actions : List MonitoredAction)
    (history : List (String × List MonitoredAction))
    → remembered s (remember session actions history)
      ≡ (if session == s then actions else remembered s history)
remembered-remember session s actions [] = ground (arith, eq_iff session s)
remembered-remember session s actions ((t, old) ∷ rest) = ground (
  arith,
  eq_iff session s,
  eq_iff t session,
  eq_iff t s,
  remembered-remember session s actions rest,
)

module _ {N : Type 0} where
  -- the actions of a session among those of all sessions
  abbrev pub actions_of : String → List (ExecutionContext N) → List MonitoredAction
  actions_of s [] = []
  actions_of s (ctx ∷ ctxs) =
      let rest = actions_of s ctxs in
      if session_of ctx == s then monitored_action ctx.action ∷ rest else rest

  abbrev pub commit_all :
      List (ExecutionContext N) → SessionActionMonitor N → SessionActionMonitor N
  commit_all [] monitor = monitor
  commit_all (ctx ∷ ctxs) monitor = commit_all ctxs (commit ctx monitor)

  commit_same :
      (w : ℕ) (ctx : ExecutionContext N) (monitor : SessionActionMonitor N) (s : String)
      (xs : List MonitoredAction)
      → (session_of ctx == s) ≡ true
      → monitor.monitoring.history_window ≡ pos (suc w)
      → remembered s monitor.history ≡ last_of (suc w) xs
      → remembered s (commit ctx monitor).history
        ≡ last_of (suc w) (xs ++ monitored_action ctx.action ∷ [])
  unfolding commit
  commit_same w ctx monitor s xs same window known =
      let a = monitored_action ctx.action in
      let session : session_of ctx ≡ s = (eq_iff (session_of ctx) s).0 same in
      remembered-remember (session_of ctx) s _ monitor.history
      ∙ if_true (session_of ctx == s) _ _ same
      ∙ ap
          (λ (t : String).
            trimmed monitor.monitoring.history_window (remembered t monitor.history ++ a ∷ []))
          session
      ∙ ap (λ z. trimmed z (remembered s monitor.history ++ a ∷ [])) window
      ∙ ap (λ old. trimmed (pos (suc w)) (old ++ a ∷ [])) known
      ∙ trimmed-last_of w xs a

  commit_other :
      (ctx : ExecutionContext N) (monitor : SessionActionMonitor N) (s : String)
      → (session_of ctx == s) ≡ false
      → remembered s (commit ctx monitor).history ≡ remembered s monitor.history
  unfolding commit
  commit_other ctx monitor s other =
      remembered-remember (session_of ctx) s _ monitor.history
      ∙ if_false (session_of ctx == s) _ _ other

  commit_window :
      (ctx : ExecutionContext N) (monitor : SessionActionMonitor N)
      → (commit ctx monitor).monitoring.history_window ≡ monitor.monitoring.history_window
  unfolding commit
  commit_window ctx monitor = refl

  -- what a session is remembered by after further commits, if it is by the last of some actions
  commit_all-last_of :
      (w : ℕ) (ctxs : List (ExecutionContext N)) (monitor : SessionActionMonitor N) (s : String)
      (xs : List MonitoredAction)
      → monitor.monitoring.history_window ≡ pos (suc w)
      → remembered s monitor.history ≡ last_of (suc w) xs
      → remembered s (commit_all ctxs monitor).history ≡ last_of (suc w) (xs ++ actions_of s ctxs)
  commit_all-last_of w [] monitor s xs window known =
      known ∙ ap (last_of (suc w)) (sym (append-nil xs))
  commit_all-last_of w (ctx ∷ ctxs) monitor s xs window known =
      elim (Bool-cases (session_of ctx == s)) [
        | inl q ↦
            rw (q, ← append_assoc xs (monitored_action ctx.action ∷ []) (actions_of s ctxs))
              (commit_all-last_of w ctxs (commit ctx monitor) s
                (xs ++ monitored_action ctx.action ∷ []) (commit_window ctx monitor ∙ window)
                (commit_same w ctx monitor s xs q window known))
        | inr q ↦ rw q (
            commit_all-last_of w ctxs (commit ctx monitor) s xs (commit_window ctx monitor ∙ window)
              (commit_other ctx monitor s q ∙ known))
      ]

  -- A monitor with a window of at least one that starts without a history remembers exactly the last
  -- actions of each session, as many as its window, and the count of them is within the window.
  pub commit_all_remembers :
      (w : ℕ) (ctxs : List (ExecutionContext N)) (monitor : SessionActionMonitor N) (s : String)
      → monitor.monitoring.history_window ≡ pos (suc w)
      → monitor.history ≡ []
      → (remembered s (commit_all ctxs monitor).history ≡ last_of (suc w) (actions_of s ctxs))
        × (prior_action_count (commit_all ctxs monitor) s ≤ suc w)
  unfolding prior_action_count
  commit_all_remembers w ctxs monitor s window fresh =
      let known =
        commit_all-last_of w ctxs monitor s [] window
          (ap (remembered s) fresh ∙ sym (drop_nil (length {A = MonitoredAction} [] - suc w))) in
      (
        known,
        ground (arith, known, length-drop (length (actions_of s ctxs) - suc w) (actions_of s ctxs)),
      )
