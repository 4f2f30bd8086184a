-- ===== src/Tests/Codec.antt =====
-- The normal form of a policy, its commitment and its plaintext.
use mathlib.Core.List.Perm
use xrp_payguard.Base.{◌≡◌, refl, [], ◌∷◌}
use xrp_payguard.Base.Int.{◌+ℤ◌, ◌-ℤ◌, ◌*ℤ◌, ◌/ℤ◌, ◌%ℤ◌}
use xrp_payguard.Failure.{ok}
use xrp_payguard.Protocol.Types.{Policy}
use xrp_payguard.Protocol.Codec.Commitment.{
  with_lists, policy_commitment-perm, policy_commitment-normalize_policy,
}
use xrp_payguard.Protocol.PrivateWire.{object, wire_of}
use xrp_payguard.Protocol.PrivateWire.Laws.{parse_private_policy-serialize}
use xrp_payguard.Tests.Toy.{toy, toy_laws, address40, hash32, is_toy_address, toy_address}
use xrp_payguard.Tests.Inputs.{policy}
use xrp_payguard.Text.{
  lower, to_lower_case, text_eq, same_hex, is_hex_digit, is_hex_run, is_hex_digits, is_hex32,
  is_hex, text_leb, insert_sorted, sort,
}
use xrp_payguard.Protocol.Schedule.{out_of_range, close_window, window_at, schedule_window}
use xrp_payguard.Protocol.Codec.Primitives.{
  bytes32, uint, bounded_uint, map_result, has_duplicate_neighbours, distinct, address,
  lower_address, sorted_addresses, sorted_bytes32,
}
use xrp_payguard.Protocol.Codec.Normalize.{
  normalize_identifiers, is_bad_schedule, normalize_times, check_ftso_feed, normalize_domain,
  is_incomplete_fdc, is_unexpected_fdc, check_fdc, normalize_fdc, normalize_limits,
}
use xrp_payguard.Protocol.Codec.Policy.{normalize_policy}
use xrp_payguard.Protocol.PrivateWire.{get_field}
use xrp_payguard.Protocol.PrivateWire.Items.{
  is_unknown_key, quoted, unsigned, hex_entry, hex_list, flag_item, hex_item,
}
use xrp_payguard.Protocol.PrivateWire.Parse.{
  read_head, read_bounds, read_lists, read_fdc, parse_fields, parse_private_policy,
}
use xrp_payguard.Protocol.PrivateWire.Write.{serialize_private_policy}
use xrp_payguard.Protocol.Codec.Encoding.{
  encode_policy, policy_commitment, optional_bytes32, hash_values, policy_input_commitment,
  genesis_spend_checkpoint, fdc_snapshot_values, fdc_trigger_snapshot_commitment,
}
use xrp_payguard.Protocol.Codec.Digests.{
  binding_values, encode_policy_binding, policy_binding_digest, receipt_values,
  policy_receipt_digest, encode_fcc_attestation, fcc_attestation_digest,
  policy_receipt_attestation_digest, request_values, encode_action_request, action_request_hash,
  decision_code, evaluation_digest, evaluation_attestation_digest,
}

-- The policy with two targets, in two orders.
abbrev swapped : Policy
swapped = record policy { allow_targets = address40 b'7' ∷ address40 b'6' ∷ [] }

abbrev wide : Policy
wide = record policy { allow_targets = address40 b'6' ∷ address40 b'7' ∷ [] }

-- The normal form and the plaintext.
runs :
    (normalize_policy toy swapped ≡ ok wide)
    × (serialize_private_policy toy wide ≡ ok (object (wire_of wide)))
unfolding lower to_lower_case text_eq same_hex is_hex_digit is_hex_run is_hex_digits is_hex32 is_hex
    text_leb insert_sorted sort out_of_range close_window window_at schedule_window bytes32 uint
    bounded_uint map_result has_duplicate_neighbours distinct address lower_address sorted_addresses
    sorted_bytes32 normalize_identifiers is_bad_schedule normalize_times check_ftso_feed
    normalize_domain is_incomplete_fdc is_unexpected_fdc check_fdc normalize_fdc normalize_limits
    normalize_policy get_field is_unknown_key quoted unsigned hex_entry hex_list flag_item hex_item
    read_head read_bounds read_lists read_fdc parse_fields parse_private_policy
    serialize_private_policy encode_policy policy_commitment optional_bytes32 hash_values
    policy_input_commitment genesis_spend_checkpoint fdc_snapshot_values
    fdc_trigger_snapshot_commitment binding_values encode_policy_binding policy_binding_digest
    receipt_values policy_receipt_digest encode_fcc_attestation fcc_attestation_digest
    policy_receipt_attestation_digest request_values encode_action_request action_request_hash
    decision_code evaluation_digest evaluation_attestation_digest is_toy_address toy_address ◌+ℤ◌
    ◌-ℤ◌ ◌*ℤ◌ ◌/ℤ◌ ◌%ℤ◌
runs = (refl, refl)

policy_commitment-perm_example :
    policy_commitment toy wide
    ≡ policy_commitment toy
        (with_lists wide (address40 b'7' ∷ address40 b'6' ∷ []) [] [] (hash32 b'a' ∷ []))
policy_commitment-perm_example =
    policy_commitment-perm toy toy_laws wide (address40 b'7' ∷ address40 b'6' ∷ []) [] []
      (hash32 b'a' ∷ []) (Perm.swap (address40 b'7') (address40 b'6') []) Perm.nil Perm.nil
      (Perm.refl (hash32 b'a' ∷ []))

policy_commitment-normalize_policy_example :
    (normalize_policy toy wide ≡ ok wide)
    × (policy_commitment toy wide ≡ policy_commitment toy swapped)
policy_commitment-normalize_policy_example =
    policy_commitment-normalize_policy toy toy_laws swapped wide runs.0

parse_private_policy-serialize_example :
    (q : Policy) × (normalize_policy toy wide ≡ ok q)
    × (parse_private_policy toy (object (wire_of wide)) ≡ ok q)
parse_private_policy-serialize_example =
    parse_private_policy-serialize toy toy_laws wide (object (wire_of wide)) runs.1
