-- ===== src/Recovery/Policy.antt =====
-- What the policy of crates/metrics-engine/src/recovery.rs answers, and what its executor records.
use aether_radio_sim.Base.{
  ℕ, ◌≡◌, refl, ap, ap₂, ◌∙◌, ◌↔◌, ◌≢◌, List, [], ◌∷◌, ◌++◌, map, Option, none, some, append_assoc,
  append-nil, arith,
}
use aether_radio_sim.Base.Text.{
  bytes_of, to_ascii_lowercase, text_eq, text_eq-eq, text_lookup, trim,
}
use aether_radio_sim.Recovery.{
  RecoveryAction, mark_invalid_continue, recover_sequence, drop_oldest_resync_slot, restart_stream,
  alert_and_continue, record_and_drop, unknown, as_str, named, parse, RecoveryPolicyFile, policy_of,
  or_unknown, action_for, RecoveryExecutor, executor_new, apply,
}

named-as_str : (a : RecoveryAction) → named (as_str a) ≡ a
unfolding named as_str text_eq
named-as_str mark_invalid_continue = refl
named-as_str recover_sequence = refl
named-as_str drop_oldest_resync_slot = refl
named-as_str restart_stream = refl
named-as_str alert_and_continue = refl
named-as_str record_and_drop = refl
named-as_str unknown = refl

named-eq : (s : List ℕ) (a : RecoveryAction) → named s ≡ a → a ≢ unknown → s ≡ as_str a
unfolding named as_str
named-eq s a e known = ground (
  arith,
  known,
  e,
  text_eq-eq s (bytes_of "mark_invalid_continue"),
  text_eq-eq s (bytes_of "recover_sequence"),
  text_eq-eq s (bytes_of "drop_oldest_resync_slot"),
  text_eq-eq s (bytes_of "restart_stream"),
  text_eq-eq s (bytes_of "alert_and_continue"),
  text_eq-eq s (bytes_of "record_and_drop"),
)

-- `parse` gives an action other than Unknown exactly for its name, in any case and with white space at
-- either end.
pub parse_iff :
    (s : List ℕ) (a : RecoveryAction)
    → a ≢ unknown
    → (parse s ≡ a) ↔ (to_ascii_lowercase (trim s) ≡ as_str a)
unfolding parse
parse_iff s a known =
    (λ e. named-eq (to_ascii_lowercase (trim s)) a e known, λ e. ap named e ∙ named-as_str a)

-- The name of every action, Unknown included, is parsed to it.
pub parse-as_str : (a : RecoveryAction) → parse (as_str a) ≡ a
unfolding parse as_str trim named text_eq to_ascii_lowercase
parse-as_str mark_invalid_continue = refl
parse-as_str recover_sequence = refl
parse-as_str drop_oldest_resync_slot = refl
parse-as_str restart_stream = refl
parse-as_str alert_and_continue = refl
parse-as_str record_and_drop = refl
parse-as_str unknown = refl

-- What the entry that is found says, if one is.
abbrev pub parsed : Option (List ℕ) → RecoveryAction
parsed none = unknown
parsed (some action) = parse action

-- What the file says about a class of faults.
unfoldable pub action_in : RecoveryPolicyFile → List ℕ → RecoveryAction
action_in file fault_class = parsed (text_lookup fault_class file.actions)

lookup_parsed :
    (key : List ℕ) (entries : List (List ℕ × List ℕ))
    → or_unknown (text_lookup key (map (λ entry. (entry.0, parse entry.1)) entries))
      ≡ parsed (text_lookup key entries)
unfolding text_lookup
lookup_parsed key [] = refl
lookup_parsed key (entry ∷ entries) = ground (arith, lookup_parsed key entries)

action_for-policy_of :
    (file : RecoveryPolicyFile) (fault_class : List ℕ)
    → action_for fault_class (policy_of file) ≡ action_in file fault_class
unfolding action_for policy_of action_in
action_for-policy_of file fault_class = lookup_parsed fault_class file.actions

-- A sequence of faults, with the answers.
unfoldable pub apply_all : List (List ℕ) → RecoveryExecutor → RecoveryExecutor × List RecoveryAction
apply_all [] executor = (executor, [])
apply_all (c ∷ cs) executor =
    let (executor', action) = apply c executor in
    let (final, actions) = apply_all cs executor' in (final, action ∷ actions)

abbrev recorded : RecoveryPolicyFile → List (List ℕ) → List (List ℕ × RecoveryAction)
recorded file classes = map (λ c. (c, action_in file c)) classes

apply_all_lem :
    (file : RecoveryPolicyFile) (classes : List (List ℕ)) (executor : RecoveryExecutor)
    → executor.policy ≡ policy_of file
    → let (executor', actions) = apply_all classes executor in
      (actions ≡ map (action_in file) classes)
      × (executor'.applied ≡ executor.applied ++ recorded file classes)
      × (executor'.policy ≡ policy_of file)
unfolding apply_all apply
apply_all_lem file [] executor e = (refl, rw append-nil, e)
apply_all_lem file (c ∷ cs) executor e =
    let answer : action_for c executor.policy ≡ action_in file c =
      ap (action_for c) e ∙ action_for-policy_of file c in
    let (actions, applied, kept) = apply_all_lem file cs (apply c executor).0 e in
    (
      ap₂ (λ a rest. a ∷ rest) answer actions,
      applied
          ∙ (append_assoc executor.applied ((c, action_for c executor.policy) ∷ [])
                (recorded file cs)
              ∙ ap (λ a. executor.applied ++ ((c, a) ∷ recorded file cs)) answer),
      kept,
    )

-- An executor of the policy that a file gives answers every fault with the parsed action of its class,
-- and with Unknown where the file has none, whatever was applied before; and it records them in order.
pub apply_all_new :
    (file : RecoveryPolicyFile) (classes : List (List ℕ))
    → let (executor, actions) = apply_all classes (executor_new (policy_of file)) in
      (actions ≡ map (action_in file) classes)
      × (executor.applied ≡ map (λ c. (c, action_in file c)) classes)
      × (executor.policy ≡ policy_of file)
unfolding executor_new
apply_all_new file classes = apply_all_lem file classes (executor_new (policy_of file)) refl
