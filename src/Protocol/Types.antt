-- ===== src/Protocol/Types.antt =====
-- packages/protocol/src/types.ts: the records that the policy machines exchange. `bigint` and
-- `number` are integers, `Hex` is a text, an optional property is an `Option`. The version suffix
-- V1 is dropped. A `[Hex, Hex, Hex]` is a list: the source checks no length that its type gives.
use xrp_payguard.Base.{Bool, Option, List}
use xrp_payguard.Base.Int.{ℤ}
use xrp_payguard.Text.{Text}

pub data Decision : Type 0 where
  allow deny : Decision

pub data PublicReasonClass : Type 0 where
  reason_ok policy_denied malformed wrong_domain stale_input : PublicReasonClass
  dependency_unavailable expired stopped insufficient_balance cap_exceeded : PublicReasonClass
  occurrence_exceeded target_denied requester_denied action_denied : PublicReasonClass
  ftso_invalid cooldown fdc_invalid : PublicReasonClass

pub record Policy : Type 0 where
  pub schema_version : ℤ
  pub chain_id : ℤ
  pub registry : Text
  pub vault : Text
  pub router : Text
  pub owner : Text
  pub policy_id : Text
  pub policy_version : ℤ
  pub asset : Text
  pub reference_currency : Text
  pub max_per_action : ℤ
  pub daily_cap : ℤ
  pub rolling_cap : ℤ
  pub rolling_window_seconds : ℤ
  pub start_at : ℤ
  pub end_at : ℤ
  pub schedule_interval_seconds : ℤ
  pub schedule_grace_seconds : ℤ
  pub cooldown_seconds : ℤ
  pub max_occurrences : ℤ
  pub allow_targets : List Text
  pub deny_targets : List Text
  pub allow_requesters : List Text
  pub allow_action_types : List Text
  pub require_ftso : Bool
  pub ftso_feed_id : Text
  pub max_price_age_seconds : ℤ
  pub require_fdc : Bool
  pub fdc_attestation_type : Text
  pub fdc_source_id : Text
  pub fdc_source_address_hash : Text
  pub fdc_receiving_address_hash : Text
  pub fdc_memo_mode : ℤ
  pub fdc_require_destination_tag : Bool
  pub fdc_destination_tag : ℤ
  pub fdc_min_received_amount : ℤ
  pub fdc_max_received_amount : ℤ
  pub max_fdc_age_seconds : ℤ
  pub fdc_consumer : Text
  pub private_salt : Text
  pub submission_nonce : Text

pub record PolicyBinding : Type 0 where
  pub chain_id : ℤ
  pub registry : Text
  pub vault : Text
  pub router : Text
  pub owner : Text
  pub policy_id : Text
  pub policy_version : ℤ
  pub policy_commitment : Text
  pub schema : Text
  pub extension_id : Text
  pub code_version : Text
  pub machine_ids : List Text
  pub key_fingerprints : List Text
  pub custody_threshold : ℤ
  pub result_threshold : ℤ
  pub policy_nonce : ℤ

pub record PolicyReceipt : Type 0 where
  pub binding : PolicyBinding
  pub machine_id : Text
  pub key_fingerprint : Text
  pub submission_nonce : Text
  pub receipt_nonce : ℤ
  pub issued_at : ℤ
  pub expiry : ℤ

pub record ActionRequest : Type 0 where
  pub chain_id : ℤ
  pub registry : Text
  pub vault : Text
  pub router : Text
  pub policy_id : Text
  pub policy_version : ℤ
  pub policy_commitment : Text
  pub request_id : Text
  pub request_nonce : ℤ
  pub attempt : ℤ
  pub requester : Text
  pub target : Text
  pub asset : Text
  pub action_type : Text
  pub amount : ℤ
  pub schedule_slot : ℤ
  pub occurrence : ℤ
  pub spend_checkpoint : Text
  pub balance_checkpoint : Text
  pub input_commitment : Text
  pub created_at : ℤ
  pub grace_deadline : ℤ
  pub expiry : ℤ

pub record FtsoSnapshot : Type 0 where
  pub feed_id : Text
  pub value : ℤ
  pub decimals : ℤ
  pub timestamp : ℤ
  pub checkpoint : Text

pub record FdcTriggerSnapshot : Type 0 where
  pub attestation_type : Text
  pub source_id : Text
  pub transaction_id : Text
  pub proof_owner : Text
  pub consumer : Text
  pub input_commitment : Text
  pub proof_commitment : Text
  pub source_address_hash : Text
  pub receiving_address_hash : Text
  pub received_amount : ℤ
  pub has_memo_data : Bool
  pub memo_data_hash : Text
  pub has_destination_tag : Bool
  pub destination_tag : ℤ
  pub block_number : ℤ
  pub block_timestamp : ℤ
  pub transaction_consumed : Bool
  pub proof_consumed : Bool
  pub request_id : Text
  pub router_request_hash : Text
  pub router_request_status : ℤ

pub record SpendHistoryEntry : Type 0 where
  pub request : ActionRequest
  pub accounted_at : ℤ
  pub ftso : Option FtsoSnapshot
  pub fdc : Option FdcTriggerSnapshot

pub record SpendState : Type 0 where
  pub available_balance : ℤ
  pub history : List SpendHistoryEntry
  pub occurrence_count : ℤ
  pub last_accounting_at : ℤ
  pub spend_checkpoint : Text
  pub balance_checkpoint : Text
  pub now : ℤ
  pub ftso : Option FtsoSnapshot
  pub fdc : Option FdcTriggerSnapshot

pub record EvaluationResult : Type 0 where
  pub request : ActionRequest
  pub decision : Decision
  pub public_reason_class : PublicReasonClass
  pub reserved_amount : ℤ
  pub resulting_checkpoint : Text
  pub result_nonce : Text
  pub attempt : ℤ
  pub issued_at : ℤ
  pub expiry : ℤ
  pub machine_id : Text
  pub key_fingerprint : Text
