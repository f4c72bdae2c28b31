-- ===== src/Monitor.antt =====
-- agentauth/receipts/action_monitor.py: the actions that a monitor remembers of each session. The
-- scores of an action are not modelled.
pub mod Window
use clayseal_receipts.Prelude.{
  ℕ, zero, suc, ◌-◌, String, Option, none, some, Bool, List, [], ◌∷◌, ◌++◌, ◌==◌, string_eq, Text,
  codes, ltb, length, drop, lookup, ℤ, pos, negsuc, if◌then◌else◌, starts_with,
}
use clayseal_receipts.Operations.{SideEffectLevel, ActionDescriptor, after_last}
use clayseal_receipts.TaskScope.{or_string}
use clayseal_receipts.Policy.{ExecutionContext, MonitoringPolicy}

pub record MonitoredAction : Type 0 where
  pub action_name : Text
  pub action_category : Text
  pub resource_ref : Option Text
  pub side_effect_level : SideEffectLevel
  pub tool_name : Option Text

-- `from_execution_context`
unfoldable pub monitored_action : ActionDescriptor → MonitoredAction
monitored_action action = record {
  action_name = action.action_name;
  action_category = action.action_category;
  resource_ref = action.resource_ref;
  side_effect_level = action.side_effect_level;
  tool_name =
      if starts_with (codes "mcp.tools/call/") action.action_name
      then some (after_last b'/' action.action_name)
      else none;
}

-- session -> its remembered actions, the oldest first
pub record SessionActionMonitor (N : Type 0) : Type 0 where
  pub monitoring : MonitoringPolicy N
  pub history : List (String × List MonitoredAction)

-- `del history[:-window]` where the history is longer than the window: nothing for a window of zero,
-- and the first ones for a negative window
unfoldable pub trimmed : ℤ → List MonitoredAction → List MonitoredAction
trimmed (pos zero) history = history
trimmed (pos (suc w)) history =
    if ltb (suc w) (length history) then drop (length history - suc w) history else history
trimmed (negsuc w) history = drop (suc w) history

-- `d.get(session, [])`
abbrev pub remembered : String → List (String × List MonitoredAction) → List MonitoredAction
remembered session history = elim (lookup session history) [ none ↦ [] | some actions ↦ actions ]

-- `d[session] = actions`
abbrev pub remember :
    String
    → List MonitoredAction
    → List (String × List MonitoredAction)
    → List (String × List MonitoredAction)
remember session actions [] = (session, actions) ∷ []
remember session actions ((s, old) ∷ rest) =
    let later = remember session actions rest in
    if s == session then (session, actions) ∷ rest else (s, old) ∷ later

abbrev forget : String → List (String × List MonitoredAction) → List (String × List MonitoredAction)
forget session [] = []
forget session ((s, old) ∷ rest) =
    let later = forget session rest in if s == session then rest else (s, old) ∷ later

module _ {N : Type 0} where
  abbrev pub session_of : ExecutionContext N → String
  session_of ctx = or_string ctx.authority.session_id "default"

  pub configure : MonitoringPolicy N → SessionActionMonitor N → SessionActionMonitor N
  configure monitoring monitor = record monitor { monitoring = monitoring }

  pub reset : Option String → SessionActionMonitor N → SessionActionMonitor N
  reset none monitor = record monitor { history = [] }
  reset (some session) monitor = record monitor { history = forget session monitor.history }

  unfoldable pub prior_action_count : SessionActionMonitor N → String → ℕ
  prior_action_count monitor session = length (remembered session monitor.history)

  unfoldable pub commit : ExecutionContext N → SessionActionMonitor N → SessionActionMonitor N
  unfolding monitored_action trimmed
  commit ctx monitor =
      let session = session_of ctx in
      let longer = remembered session monitor.history ++ monitored_action ctx.action ∷ [] in
      record monitor {
        history =
            remember session (trimmed monitor.monitoring.history_window longer) monitor.history;
      }
