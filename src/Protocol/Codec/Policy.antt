-- ===== src/Protocol/Codec/Policy.antt =====
-- packages/protocol/src/codec.ts, `normalizePolicy` as a whole: the groups of Normalize in the order
-- of the source, and the object that it returns.
use xrp_payguard.Base.{not}
use xrp_payguard.Base.Int.{ℤ, pos, ◌==ℤ◌}
use xrp_payguard.Failure.{Result, ok, thrown, ◌>>=◌, ◌>>◌, throw_if}
use xrp_payguard.Viem.{Viem}
use xrp_payguard.Protocol.Types.{Policy}
use xrp_payguard.Protocol.Codec.Primitives.{bounded_uint}
use xrp_payguard.Protocol.Codec.Normalize.{
  Domain, Identifiers, Times, FdcDescriptor, Limits, normalize_domain, normalize_identifiers,
  normalize_times, check_ftso_feed, normalize_fdc, normalize_limits,
}

abbrev pub domain_of : Policy → Domain
domain_of p = record {
  chain_id = p.chain_id;
  registry = p.registry;
  vault = p.vault;
  router = p.router;
  owner = p.owner;
  asset = p.asset;
}

abbrev pub identifiers_of : Policy → Identifiers
identifiers_of p = record {
  policy_id = p.policy_id;
  reference_currency = p.reference_currency;
  private_salt = p.private_salt;
  submission_nonce = p.submission_nonce;
}

abbrev pub times_of : Policy → Times
times_of p = record {
  end_at = p.end_at;
  start_at = p.start_at;
  rolling_window_seconds = p.rolling_window_seconds;
  schedule_interval_seconds = p.schedule_interval_seconds;
  schedule_grace_seconds = p.schedule_grace_seconds;
}

abbrev pub fdc_of : Policy → FdcDescriptor
fdc_of p = record {
  attestation_type = p.fdc_attestation_type;
  source_id = p.fdc_source_id;
  source_address_hash = p.fdc_source_address_hash;
  receiving_address_hash = p.fdc_receiving_address_hash;
  memo_mode = p.fdc_memo_mode;
  destination_tag = p.fdc_destination_tag;
  min_received_amount = p.fdc_min_received_amount;
  max_received_amount = p.fdc_max_received_amount;
  max_age_seconds = p.max_fdc_age_seconds;
  consumer = p.fdc_consumer;
}

abbrev pub limits_of : Policy → Limits
limits_of p = record {
  policy_version = p.policy_version;
  max_per_action = p.max_per_action;
  daily_cap = p.daily_cap;
  rolling_cap = p.rolling_cap;
  cooldown_seconds = p.cooldown_seconds;
  max_occurrences = p.max_occurrences;
  allow_targets = p.allow_targets;
  deny_targets = p.deny_targets;
  allow_requesters = p.allow_requesters;
  allow_action_types = p.allow_action_types;
  ftso_feed_id = p.ftso_feed_id;
}

-- `{ ...policy, … }`: every field but the schema version and the flags is given anew.
abbrev pub assemble : Policy → Domain → Identifiers → Times → ℤ → FdcDescriptor → Limits → Policy
assemble policy d i t max_price_age_seconds f l = record policy {
  chain_id = d.chain_id;
  registry = d.registry;
  vault = d.vault;
  router = d.router;
  owner = d.owner;
  asset = d.asset;
  policy_id = i.policy_id;
  reference_currency = i.reference_currency;
  private_salt = i.private_salt;
  submission_nonce = i.submission_nonce;
  end_at = t.end_at;
  start_at = t.start_at;
  rolling_window_seconds = t.rolling_window_seconds;
  schedule_interval_seconds = t.schedule_interval_seconds;
  schedule_grace_seconds = t.schedule_grace_seconds;
  fdc_attestation_type = f.attestation_type;
  fdc_source_id = f.source_id;
  fdc_source_address_hash = f.source_address_hash;
  fdc_receiving_address_hash = f.receiving_address_hash;
  fdc_memo_mode = f.memo_mode;
  fdc_destination_tag = f.destination_tag;
  fdc_min_received_amount = f.min_received_amount;
  fdc_max_received_amount = f.max_received_amount;
  max_fdc_age_seconds = f.max_age_seconds;
  fdc_consumer = f.consumer;
  policy_version = l.policy_version;
  max_per_action = l.max_per_action;
  daily_cap = l.daily_cap;
  rolling_cap = l.rolling_cap;
  cooldown_seconds = l.cooldown_seconds;
  max_occurrences = l.max_occurrences;
  allow_targets = l.allow_targets;
  deny_targets = l.deny_targets;
  allow_requesters = l.allow_requesters;
  allow_action_types = l.allow_action_types;
  ftso_feed_id = l.ftso_feed_id;
  max_price_age_seconds = max_price_age_seconds;
}

unfoldable pub normalize_policy : Viem → Policy → Result Policy
normalize_policy V policy = do
  throw_if (not (policy.schema_version ==ℤ pos 1)) (thrown "unsupported policy schema")
  d ← normalize_domain V (domain_of policy)
  i ← normalize_identifiers (identifiers_of policy)
  t ← normalize_times policy.rolling_cap (times_of policy)
  check_ftso_feed policy.require_ftso policy.ftso_feed_id
  max_price_age_seconds ← bounded_uint policy.max_price_age_seconds 64 "maxPriceAgeSeconds"
  f ← normalize_fdc V policy.require_fdc policy.fdc_require_destination_tag (fdc_of policy)
  l ← normalize_limits V (limits_of policy)
  ok (assemble policy d i t max_price_age_seconds f l)
