-- ===== src/Recovery/Tests.antt =====
-- A concrete policy of crates/metrics-engine/src/recovery.rs.
use aether_radio_sim.Base.{ℕ, ◌≡◌, ◌≢◌, ◌↔◌, List, [], ◌∷◌, map, arith}
use aether_radio_sim.Base.Text.{bytes_of, to_ascii_lowercase, trim}
use aether_radio_sim.Recovery.{
  recover_sequence, unknown, as_str, parse, RecoveryPolicyFile, policy_of, executor_new,
}
use aether_radio_sim.Recovery.Policy.{parse_iff, parse-as_str, action_in, apply_all, apply_all_new}

abbrev file : RecoveryPolicyFile
file = record {
  id = bytes_of "policy";
  actions =
      (bytes_of "sequence_gap", bytes_of " Recover_Sequence ")
      ∷ (bytes_of "late_packet", bytes_of "record_and_drop")
      ∷ [];
}

abbrev faults : List (List ℕ)
faults = bytes_of "late_packet" ∷ bytes_of "sequence_gap" ∷ bytes_of "buffer_overflow" ∷ []

apply_all_new_example :
    let (executor, actions) = apply_all faults (executor_new (policy_of file)) in
    (actions ≡ map (action_in file) faults)
    × (executor.applied ≡ map (λ c. (c, action_in file c)) faults)
    × (executor.policy ≡ policy_of file)
apply_all_new_example = apply_all_new file faults

parse-as_str_example : parse (as_str unknown) ≡ unknown
parse-as_str_example = parse-as_str unknown

is_known : recover_sequence ≢ unknown
is_known = λ e. ground arith

parse_iff_example :
    (parse (bytes_of " Recover_Sequence ") ≡ recover_sequence)
    ↔ (to_ascii_lowercase (trim (bytes_of " Recover_Sequence ")) ≡ as_str recover_sequence)
parse_iff_example = parse_iff (bytes_of " Recover_Sequence ") recover_sequence is_known
