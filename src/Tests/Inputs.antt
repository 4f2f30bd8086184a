-- ===== src/Tests/Inputs.antt =====
-- A policy, its history, and the request that follows it.
use xrp_payguard.Base.{ℕ, ◌+◌, false, [], ◌∷◌, none}
use xrp_payguard.Base.Int.{pos}
use xrp_payguard.Text.{zero_bytes32, zero_address}
use xrp_payguard.Protocol.Types.{Policy, ActionRequest, SpendHistoryEntry, SpendState}
use xrp_payguard.Tests.Toy.{hash32, address40}

-- At most 100 at once, 200 a day and 300 in a day's length, each hour from 1000 on with a grace of
-- 100 seconds.
abbrev pub policy : Policy
policy = record {
  schema_version = pos 1;
  chain_id = pos 114;
  registry = address40 b'2';
  vault = address40 b'3';
  router = address40 b'4';
  owner = address40 b'1';
  policy_id = hash32 b'1';
  policy_version = pos 1;
  asset = address40 b'5';
  reference_currency = hash32 b'2';
  max_per_action = pos 100;
  daily_cap = pos 200;
  rolling_cap = pos 300;
  rolling_window_seconds = pos 86400;
  start_at = pos 1000;
  end_at = pos 10000;
  schedule_interval_seconds = pos 3600;
  schedule_grace_seconds = pos 100;
  cooldown_seconds = pos 60;
  max_occurrences = pos 5;
  allow_targets = address40 b'6' ∷ [];
  deny_targets = [];
  allow_requesters = [];
  allow_action_types = hash32 b'a' ∷ [];
  require_ftso = false;
  ftso_feed_id = zero_bytes32;
  max_price_age_seconds = pos 0;
  require_fdc = false;
  fdc_attestation_type = zero_bytes32;
  fdc_source_id = zero_bytes32;
  fdc_source_address_hash = zero_bytes32;
  fdc_receiving_address_hash = zero_bytes32;
  fdc_memo_mode = pos 0;
  fdc_require_destination_tag = false;
  fdc_destination_tag = pos 0;
  fdc_min_received_amount = pos 0;
  fdc_max_received_amount = pos 0;
  max_fdc_age_seconds = pos 0;
  fdc_consumer = zero_address;
  private_salt = hash32 b'3';
  submission_nonce = hash32 b'4';
}

-- A request of an amount in the window of an occurrence.
abbrev pub request_at : ℕ → ℕ → ℕ → ActionRequest
request_at amount occurrence slot = record {
  chain_id = pos 114;
  registry = address40 b'2';
  vault = address40 b'3';
  router = address40 b'4';
  policy_id = hash32 b'1';
  policy_version = pos 1;
  policy_commitment = hash32 b'a';
  request_id = hash32 b'7';
  request_nonce = pos 1;
  attempt = pos 1;
  requester = address40 b'1';
  target = address40 b'6';
  asset = address40 b'5';
  action_type = hash32 b'a';
  amount = pos amount;
  schedule_slot = pos slot;
  occurrence = pos occurrence;
  spend_checkpoint = hash32 b'a';
  balance_checkpoint = hash32 b'b';
  input_commitment = zero_bytes32;
  created_at = pos (slot + 10);
  grace_deadline = pos (slot + 100);
  expiry = pos (slot + 100);
}

abbrev pub past_entry : SpendHistoryEntry
past_entry = record {
  request = request_at 50 1 1000;
  accounted_at = pos 1050;
  ftso = none;
  fdc = none;
}

abbrev pub state : SpendState
state = record {
  available_balance = pos 1000;
  history = past_entry ∷ [];
  occurrence_count = pos 1;
  last_accounting_at = pos 1050;
  spend_checkpoint = hash32 b'a';
  balance_checkpoint = hash32 b'b';
  now = pos 4650;
  ftso = none;
  fdc = none;
}
