-- ===== src/Recovery.antt =====
-- The recovery policy of crates/metrics-engine/src/recovery.rs. A text is the list of its characters'
-- codes; the reading of YAML into entries and the event that `apply` logs are I/O.
pub mod Policy
mod Tests
use aether_radio_sim.Base.{
  ℕ, List, [], ◌∷◌, ◌++◌, map, Option, none, some, Bool, true, false, if◌then◌else◌,
}
use aether_radio_sim.Base.Text.{
  bytes_of, to_ascii_lowercase, text_eq, text_lookup, trim, trim_start,
}

pub data RecoveryAction : Type 0 where
  mark_invalid_continue : RecoveryAction
  recover_sequence : RecoveryAction
  drop_oldest_resync_slot : RecoveryAction
  restart_stream : RecoveryAction
  alert_and_continue : RecoveryAction
  record_and_drop : RecoveryAction
  unknown : RecoveryAction

unfoldable pub as_str : RecoveryAction → List ℕ
as_str mark_invalid_continue = bytes_of "mark_invalid_continue"
as_str recover_sequence = bytes_of "recover_sequence"
as_str drop_oldest_resync_slot = bytes_of "drop_oldest_resync_slot"
as_str restart_stream = bytes_of "restart_stream"
as_str alert_and_continue = bytes_of "alert_and_continue"
as_str record_and_drop = bytes_of "record_and_drop"
as_str unknown = bytes_of "unknown"

-- the `match` of `parse`
unfoldable pub named : List ℕ → RecoveryAction
unfolding text_eq
named s =
    if text_eq s (bytes_of "mark_invalid_continue")
    then mark_invalid_continue
    else if text_eq s (bytes_of "recover_sequence")
    then recover_sequence
    else if text_eq s (bytes_of "drop_oldest_resync_slot")
    then drop_oldest_resync_slot
    else if text_eq s (bytes_of "restart_stream")
    then restart_stream
    else if text_eq s (bytes_of "alert_and_continue")
    then alert_and_continue
    else if text_eq s (bytes_of "record_and_drop")
    then record_and_drop
    else unknown

unfoldable pub parse : List ℕ → RecoveryAction
parse s = named (to_ascii_lowercase (trim s))

-- The file as it is read: the action's name for each class of faults.
pub record RecoveryPolicyFile : Type 0 where
  pub id : List ℕ
  pub actions : List (List ℕ × List ℕ)

pub record RecoveryPolicy : Type 0 where
  pub id : List ℕ
  pub actions : List (List ℕ × RecoveryAction)

-- the rest of `from_yaml_str`
unfoldable pub policy_of : RecoveryPolicyFile → RecoveryPolicy
policy_of file = record {
  id = file.id;
  actions = map (λ entry. (entry.0, parse entry.1)) file.actions;
}

-- `unwrap_or(Unknown)`
abbrev pub or_unknown : Option RecoveryAction → RecoveryAction
or_unknown none = unknown
or_unknown (some action) = action

unfoldable pub action_for : List ℕ → RecoveryPolicy → RecoveryAction
unfolding text_lookup
action_for fault_class policy = or_unknown (text_lookup fault_class policy.actions)

pub record RecoveryExecutor : Type 0 where
  pub policy : RecoveryPolicy
  pub applied : List (List ℕ × RecoveryAction)

unfoldable pub executor_new : RecoveryPolicy → RecoveryExecutor
executor_new policy = record { policy = policy; applied = [] }

unfoldable pub apply : List ℕ → RecoveryExecutor → RecoveryExecutor × RecoveryAction
apply fault_class executor =
    let action = action_for fault_class executor.policy in
    (record executor { applied = executor.applied ++ ((fault_class, action) ∷ []) }, action)
