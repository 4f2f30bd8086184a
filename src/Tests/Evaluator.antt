-- ===== src/Tests/Evaluator.antt =====
-- The evaluator on a policy with one occurrence spent.
use xrp_payguard.Base.{◌≡◌, ◌≢◌, refl, ◌⊎◌, false}
use xrp_payguard.Base.Int.{pos, ◌+ℤ◌, ◌-ℤ◌, ◌*ℤ◌, ◌/ℤ◌, ◌%ℤ◌}
use xrp_payguard.Text.{Text}
use xrp_payguard.Failure.{ok}
use xrp_payguard.Protocol.Types.{
  ActionRequest, EvaluationResult, PublicReasonClass, allow, reason_ok,
}
use xrp_payguard.Protocol.SpendWindow.{SpendWindowTotals}
use xrp_payguard.Protocol.Violations.{priority}
use xrp_payguard.Protocol.Violations.Laws.{decide_by}
use xrp_payguard.Protocol.Evaluator.Step.{done}
use xrp_payguard.Protocol.Evaluator.Allow.{IsApproved, evaluate_policy-allow}
use xrp_payguard.Protocol.Evaluator.Chain.{IsReplayed, replay_spend_history-IsReplayed}
use xrp_payguard.Protocol.Evaluator.Denial.{IsDenied, Grants, evaluate_policy-outcome}
use xrp_payguard.Protocol.Evaluator.Priority.{fails, judge-decide_by}
use xrp_payguard.Tests.Toy.{toy, hash32}
use xrp_payguard.Tests.Inputs.{policy, request_at, state}
use xrp_payguard.Text.{
  lower, to_lower_case, text_eq, same_hex, is_hex_digit, is_hex_run, is_hex_digits, is_hex32,
  is_hex, text_leb, insert_sorted, sort,
}
use xrp_payguard.Protocol.Schedule.{out_of_range, close_window, window_at, schedule_window}
use xrp_payguard.Protocol.SpendWindow.{
  is_bad_entry, add_checked, sum_entries, is_bad_window, spend_window_totals,
}
use xrp_payguard.Protocol.Violations.{
  flag, reason_of, mask_from, policy_violation_mask, and_not, has_flag, first_reason,
  compose_policy_decision, raise,
}
use xrp_payguard.Protocol.Codec.Primitives.{
  bytes32, uint, bounded_uint, map_result, has_duplicate_neighbours, distinct, address,
  lower_address, sorted_addresses, sorted_bytes32,
}
use xrp_payguard.Protocol.Codec.Normalize.{
  normalize_identifiers, is_bad_schedule, normalize_times, check_ftso_feed, normalize_domain,
  is_incomplete_fdc, is_unexpected_fdc, check_fdc, normalize_fdc, normalize_limits,
}
use xrp_payguard.Protocol.Codec.Policy.{normalize_policy}
use xrp_payguard.Protocol.Codec.Encoding.{
  encode_policy, policy_commitment, optional_bytes32, hash_values, policy_input_commitment,
  genesis_spend_checkpoint, fdc_snapshot_values, fdc_trigger_snapshot_commitment,
}
use xrp_payguard.Protocol.Codec.Digests.{
  binding_values, encode_policy_binding, policy_binding_digest, receipt_values,
  policy_receipt_digest, encode_fcc_attestation, fcc_attestation_digest,
  policy_receipt_attestation_digest, request_values, encode_action_request, action_request_hash,
  decision_code, evaluation_digest, evaluation_attestation_digest,
}
use xrp_payguard.Protocol.Evaluator.Inputs.{
  denial, contains, reference_value, matches_policy_domain, ftso_reference_value, next_checkpoint,
  fdc_matches, valid_fdc_snapshot, input_commitment_matches,
}
use xrp_payguard.Protocol.Evaluator.History.{
  last_accounting, is_malformed_entry, entry_value, check_entry_fdc, mismatch_reason, replay_entry,
  replay_from, is_stale_history, replay_spend_history,
}
use xrp_payguard.Protocol.Evaluator.Rules.{
  is_malformed_input, is_stale_position, is_wrong_genesis, is_stale, is_malformed_request,
  is_outside_term, is_outside_window, is_off_schedule, is_nonempty, is_target_denied,
  is_requester_denied, is_action_denied, is_exhausted, is_cooling_down, is_over_cap,
  plain_violations, priced_amount, value_or_amount, bind_input, cap_violations, feed_violations,
  is_unbound_input, rule_violations,
}
use xrp_payguard.Protocol.Evaluator.Evaluate.{
  approval, conclude, judge, evaluate_steps, settle, evaluate_policy,
}
use xrp_payguard.Tests.Toy.{is_toy_address, toy_address}

abbrev request : ActionRequest
request = request_at 75 2 4600

-- One over the cap of a single action.
abbrev dear_request : ActionRequest
dear_request = request_at 101 2 4600

abbrev totals : SpendWindowTotals
totals = record { daily_spend = pos 50; rolling_spend = pos 50 }

approves : (approval request (hash32 b'a') (pos 4650)).decision ≡ allow
unfolding approval
approves = refl

abbrev denied : EvaluationResult
denied = denial dear_request PublicReasonClass.cap_exceeded (pos 4650)

-- What the evaluator makes of the requests and their histories.
runs :
    (evaluate_policy toy policy request state ≡ ok (approval request (hash32 b'a') (pos 4650)))
    × (evaluate_policy toy policy dear_request state
        ≡ ok (denial dear_request PublicReasonClass.cap_exceeded (pos 4650)))
    × (replay_spend_history toy policy (hash32 b'a') state ≡ done totals)
    × (is_malformed_request toy policy dear_request (pos 4650) ≡ false)
    × (is_unbound_input toy policy dear_request state ≡ done false)
unfolding lower to_lower_case text_eq same_hex is_hex_digit is_hex_run is_hex_digits is_hex32 is_hex
    text_leb insert_sorted sort out_of_range close_window window_at schedule_window is_bad_entry
    add_checked sum_entries is_bad_window spend_window_totals flag reason_of mask_from
    policy_violation_mask and_not has_flag first_reason compose_policy_decision raise bytes32 uint
    bounded_uint map_result has_duplicate_neighbours distinct address lower_address sorted_addresses
    sorted_bytes32 normalize_identifiers is_bad_schedule normalize_times check_ftso_feed
    normalize_domain is_incomplete_fdc is_unexpected_fdc check_fdc normalize_fdc normalize_limits
    normalize_policy encode_policy policy_commitment optional_bytes32 hash_values
    policy_input_commitment genesis_spend_checkpoint fdc_snapshot_values
    fdc_trigger_snapshot_commitment binding_values encode_policy_binding policy_binding_digest
    receipt_values policy_receipt_digest encode_fcc_attestation fcc_attestation_digest
    policy_receipt_attestation_digest request_values encode_action_request action_request_hash
    decision_code evaluation_digest evaluation_attestation_digest denial contains reference_value
    matches_policy_domain ftso_reference_value next_checkpoint fdc_matches valid_fdc_snapshot
    input_commitment_matches last_accounting is_malformed_entry entry_value check_entry_fdc
    mismatch_reason replay_entry replay_from is_stale_history replay_spend_history
    is_malformed_input is_stale_position is_wrong_genesis is_stale is_malformed_request
    is_outside_term is_outside_window is_off_schedule is_nonempty is_target_denied
    is_requester_denied is_action_denied is_exhausted is_cooling_down is_over_cap plain_violations
    priced_amount value_or_amount bind_input cap_violations feed_violations is_unbound_input
    rule_violations approval conclude judge evaluate_steps settle evaluate_policy is_toy_address
    toy_address ◌+ℤ◌ ◌-ℤ◌ ◌*ℤ◌ ◌/ℤ◌ ◌%ℤ◌
runs = (refl, refl, refl, refl, refl)

evaluate_policy-allow_example :
    IsApproved toy policy request state (approval request (hash32 b'a') (pos 4650))
evaluate_policy-allow_example =
    evaluate_policy-allow toy policy request state (approval request (hash32 b'a') (pos 4650))
      runs.0 approves

evaluate_policy-outcome_example :
    ((why : PublicReasonClass) × (why ≢ reason_ok) × IsDenied dear_request why denied)
    ⊎ ((checkpoint : Text) × (next_checkpoint toy dear_request (pos 101) (pos 1 +ℤ pos 1) (pos 4650)
          ≡ ok checkpoint)
        × Grants dear_request checkpoint denied)
evaluate_policy-outcome_example =
    evaluate_policy-outcome toy policy dear_request state
      (denial dear_request PublicReasonClass.cap_exceeded (pos 4650)) runs.1

replay_spend_history-IsReplayed_example : IsReplayed toy policy (hash32 b'a') state totals
replay_spend_history-IsReplayed_example =
    replay_spend_history-IsReplayed toy policy (hash32 b'a') state totals runs.2

judge-decide_by_example :
    judge toy policy (hash32 b'a') dear_request state
    ≡ conclude toy dear_request state
        (decide_by (fails toy policy dear_request state totals false) priority).decision
        (decide_by (fails toy policy dear_request state totals false) priority).public_reason_class
judge-decide_by_example =
    judge-decide_by toy policy (hash32 b'a') dear_request state totals false runs.2 runs.3 runs.4
      refl
