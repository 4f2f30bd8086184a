-- ===== src/Protocol/Constants.antt =====
-- packages/protocol/src/constants.ts: the domain tags, the zero values and the reason codes.
use xrp_payguard.Base.{ℕ}
use xrp_payguard.Text.{Text, codes}
use xrp_payguard.Viem.{Viem}
use xrp_payguard.Protocol.Types.{
  PublicReasonClass, reason_ok, policy_denied, malformed, wrong_domain, stale_input,
  dependency_unavailable, expired, stopped, insufficient_balance, cap_exceeded, occurrence_exceeded,
  target_denied, requester_denied, action_denied, ftso_invalid, cooldown, fdc_invalid,
}

module _ (V : Viem) where
  open V use {keccak256, string_to_hex, pad_right32}

  abbrev pub policy_schema : Text
  policy_schema = keccak256 (string_to_hex (codes "POLICY_SCHEMA_V1"))

  abbrev pub policy_receipt : Text
  policy_receipt = keccak256 (string_to_hex (codes "POLICY_RECEIPT_V1"))

  abbrev pub action_request : Text
  action_request = keccak256 (string_to_hex (codes "ACTION_REQUEST_V1"))

  abbrev pub spend_checkpoint_domain : Text
  spend_checkpoint_domain = keccak256 (string_to_hex (codes "SPEND_CHECKPOINT_V1"))

  abbrev pub evaluation_result : Text
  evaluation_result = keccak256 (string_to_hex (codes "EVALUATION_RESULT_V1"))

  abbrev pub fdc_trigger_snapshot : Text
  fdc_trigger_snapshot = keccak256 (string_to_hex (codes "FDC_TRIGGER_SNAPSHOT_V1"))

  abbrev pub policy_input : Text
  policy_input = keccak256 (string_to_hex (codes "POLICY_INPUT_V1"))

  abbrev pub fdc_xrp_payment : Text
  fdc_xrp_payment = pad_right32 (string_to_hex (codes "XRPPayment"))

  abbrev pub action_ftestxrp_transfer : Text
  action_ftestxrp_transfer = keccak256 (string_to_hex (codes "FTESTXRP_TRANSFER_V1"))

  abbrev pub fcc_policy_receipt_prefix : Text
  fcc_policy_receipt_prefix = pad_right32 (string_to_hex (codes "PAYGUARD_POLICY_RECEIPT_V1"))

  abbrev pub fcc_evaluation_prefix : Text
  fcc_evaluation_prefix = pad_right32 (string_to_hex (codes "PAYGUARD_EVALUATION_V1"))

  abbrev pub fcc_policy_ingress_prefix : Text
  fcc_policy_ingress_prefix = pad_right32 (string_to_hex (codes "PAYGUARD_POLICY_INGRESS_V1"))

unfoldable pub reason_code : PublicReasonClass → ℕ
reason_code reason_ok = 0
reason_code policy_denied = 1
reason_code malformed = 2
reason_code wrong_domain = 3
reason_code stale_input = 4
reason_code dependency_unavailable = 5
reason_code expired = 6
reason_code stopped = 7
reason_code insufficient_balance = 8
reason_code cap_exceeded = 9
reason_code occurrence_exceeded = 10
reason_code target_denied = 11
reason_code requester_denied = 12
reason_code action_denied = 13
reason_code ftso_invalid = 14
reason_code cooldown = 15
reason_code fdc_invalid = 16
