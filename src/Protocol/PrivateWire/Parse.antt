-- ===== src/Protocol/PrivateWire/Parse.antt =====
-- packages/protocol/src/private-wire.ts, lines 74 to 130: the plaintext's fields, in the order in which they are
-- read.
use xrp_payguard.Base.{Bool, ◌||◌, not, any, List, length, ◌==◌}
use xrp_payguard.Base.Int.{ℤ}
use xrp_payguard.Text.{Text, codes}
use xrp_payguard.Failure.{Result, ok, err, thrown, ◌>>=◌, ◌>>◌, throw_if}
use xrp_payguard.Viem.{Viem}
use xrp_payguard.Protocol.Types.{Policy}
use xrp_payguard.Protocol.Codec.Policy.{normalize_policy}
use xrp_payguard.Protocol.PrivateWire.{
  Field, Plaintext, not_json, not_an_object, object, fields, get_field,
}
use xrp_payguard.Protocol.PrivateWire.Items.{
  is_unknown_key, quoted, unsigned, hex_list, flag_item, hex_item,
}

-- The fields in the order in which the object literal reads them, in four runs.
pub record PolicyHead : Type 0 where
  pub schema_version : ℤ
  pub chain_id : ℤ
  pub registry : Text
  pub vault : Text
  pub router : Text
  pub owner : Text
  pub policy_id : Text
  pub policy_version : ℤ
  pub asset : Text
  pub reference_currency : Text

pub record PolicyBounds : Type 0 where
  pub max_per_action : ℤ
  pub daily_cap : ℤ
  pub rolling_cap : ℤ
  pub rolling_window_seconds : ℤ
  pub start_at : ℤ
  pub end_at : ℤ
  pub schedule_interval_seconds : ℤ
  pub schedule_grace_seconds : ℤ
  pub cooldown_seconds : ℤ
  pub max_occurrences : ℤ

pub record PolicyLists : Type 0 where
  pub allow_targets : List Text
  pub deny_targets : List Text
  pub allow_requesters : List Text
  pub allow_action_types : List Text
  pub ftso_feed_id : Text
  pub max_price_age_seconds : ℤ
  pub private_salt : Text
  pub submission_nonce : Text

pub record FdcFields : Type 0 where
  pub fdc_attestation_type : Text
  pub fdc_source_id : Text
  pub fdc_source_address_hash : Text
  pub fdc_receiving_address_hash : Text
  pub fdc_memo_mode : ℤ
  pub fdc_destination_tag : ℤ
  pub fdc_min_received_amount : ℤ
  pub fdc_max_received_amount : ℤ
  pub max_fdc_age_seconds : ℤ
  pub fdc_consumer : Text

-- The policy of the flags and the four runs.
abbrev pub policy_of :
    Bool → Bool → Bool → PolicyHead → PolicyBounds → PolicyLists → FdcFields → Policy
policy_of require_ftso require_fdc require_tag h b l f = record {
  schema_version = h.schema_version;
  chain_id = h.chain_id;
  registry = h.registry;
  vault = h.vault;
  router = h.router;
  owner = h.owner;
  policy_id = h.policy_id;
  policy_version = h.policy_version;
  asset = h.asset;
  reference_currency = h.reference_currency;
  max_per_action = b.max_per_action;
  daily_cap = b.daily_cap;
  rolling_cap = b.rolling_cap;
  rolling_window_seconds = b.rolling_window_seconds;
  start_at = b.start_at;
  end_at = b.end_at;
  schedule_interval_seconds = b.schedule_interval_seconds;
  schedule_grace_seconds = b.schedule_grace_seconds;
  cooldown_seconds = b.cooldown_seconds;
  max_occurrences = b.max_occurrences;
  allow_targets = l.allow_targets;
  deny_targets = l.deny_targets;
  allow_requesters = l.allow_requesters;
  allow_action_types = l.allow_action_types;
  require_ftso = require_ftso;
  ftso_feed_id = l.ftso_feed_id;
  max_price_age_seconds = l.max_price_age_seconds;
  require_fdc = require_fdc;
  fdc_attestation_type = f.fdc_attestation_type;
  fdc_source_id = f.fdc_source_id;
  fdc_source_address_hash = f.fdc_source_address_hash;
  fdc_receiving_address_hash = f.fdc_receiving_address_hash;
  fdc_memo_mode = f.fdc_memo_mode;
  fdc_require_destination_tag = require_tag;
  fdc_destination_tag = f.fdc_destination_tag;
  fdc_min_received_amount = f.fdc_min_received_amount;
  fdc_max_received_amount = f.fdc_max_received_amount;
  max_fdc_age_seconds = f.max_fdc_age_seconds;
  fdc_consumer = f.fdc_consumer;
  private_salt = l.private_salt;
  submission_nonce = l.submission_nonce;
}

module _ (V : Viem) where
  unfoldable pub read_head : List Field → Result PolicyHead
  read_head fs = do
    schema_version ← unsigned (get_field (codes "schemaVersion") fs) "schemaVersion"
    chain_id ← quoted (get_field (codes "chainId") fs) "chainId"
    registry ← hex_item V (get_field (codes "registry") fs) "registry"
    vault ← hex_item V (get_field (codes "vault") fs) "vault"
    router ← hex_item V (get_field (codes "router") fs) "router"
    owner ← hex_item V (get_field (codes "owner") fs) "owner"
    policy_id ← hex_item V (get_field (codes "policyId") fs) "policyId"
    policy_version ← unsigned (get_field (codes "policyVersion") fs) "policyVersion"
    asset ← hex_item V (get_field (codes "asset") fs) "asset"
    reference_currency ← hex_item V (get_field (codes "referenceCurrency") fs) "referenceCurrency"
    ok (record {
      schema_version = schema_version;
      chain_id = chain_id;
      registry = registry;
      vault = vault;
      router = router;
      owner = owner;
      policy_id = policy_id;
      policy_version = policy_version;
      asset = asset;
      reference_currency = reference_currency;
    })

  unfoldable pub read_bounds : List Field → Result PolicyBounds
  read_bounds fs = do
    max_per_action ← quoted (get_field (codes "maxPerAction") fs) "maxPerAction"
    daily_cap ← quoted (get_field (codes "dailyCap") fs) "dailyCap"
    rolling_cap ← quoted (get_field (codes "rollingCap") fs) "rollingCap"
    rolling_window_seconds ←
        quoted (get_field (codes "rollingWindowSeconds") fs) "rollingWindowSeconds"
    start_at ← quoted (get_field (codes "startAt") fs) "startAt"
    end_at ← quoted (get_field (codes "endAt") fs) "endAt"
    schedule_interval_seconds ←
        quoted (get_field (codes "scheduleIntervalSeconds") fs) "scheduleIntervalSeconds"
    schedule_grace_seconds ←
        quoted (get_field (codes "scheduleGraceSeconds") fs) "scheduleGraceSeconds"
    cooldown_seconds ← quoted (get_field (codes "cooldownSeconds") fs) "cooldownSeconds"
    max_occurrences ← unsigned (get_field (codes "maxOccurrences") fs) "maxOccurrences"
    ok (record {
      max_per_action = max_per_action;
      daily_cap = daily_cap;
      rolling_cap = rolling_cap;
      rolling_window_seconds = rolling_window_seconds;
      start_at = start_at;
      end_at = end_at;
      schedule_interval_seconds = schedule_interval_seconds;
      schedule_grace_seconds = schedule_grace_seconds;
      cooldown_seconds = cooldown_seconds;
      max_occurrences = max_occurrences;
    })

  unfoldable pub read_lists : List Field → Result PolicyLists
  read_lists fs = do
    allow_targets ← hex_list (get_field (codes "allowTargets") fs) "allowTargets"
    deny_targets ← hex_list (get_field (codes "denyTargets") fs) "denyTargets"
    allow_requesters ← hex_list (get_field (codes "allowRequesters") fs) "allowRequesters"
    allow_action_types ← hex_list (get_field (codes "allowActionTypes") fs) "allowActionTypes"
    ftso_feed_id ← hex_item V (get_field (codes "ftsoFeedId") fs) "ftsoFeedId"
    max_price_age_seconds ← quoted (get_field (codes "maxPriceAgeSeconds") fs) "maxPriceAgeSeconds"
    private_salt ← hex_item V (get_field (codes "privateSalt") fs) "privateSalt"
    submission_nonce ← hex_item V (get_field (codes "submissionNonce") fs) "submissionNonce"
    ok (record {
      allow_targets = allow_targets;
      deny_targets = deny_targets;
      allow_requesters = allow_requesters;
      allow_action_types = allow_action_types;
      ftso_feed_id = ftso_feed_id;
      max_price_age_seconds = max_price_age_seconds;
      private_salt = private_salt;
      submission_nonce = submission_nonce;
    })

  unfoldable pub read_fdc : List Field → Result FdcFields
  read_fdc fs = do
    fdc_attestation_type ←
        hex_item V (get_field (codes "fdcAttestationType") fs) "fdcAttestationType"
    fdc_source_id ← hex_item V (get_field (codes "fdcSourceId") fs) "fdcSourceId"
    fdc_source_address_hash ←
        hex_item V (get_field (codes "fdcSourceAddressHash") fs) "fdcSourceAddressHash"
    fdc_receiving_address_hash ←
        hex_item V (get_field (codes "fdcReceivingAddressHash") fs) "fdcReceivingAddressHash"
    fdc_memo_mode ← unsigned (get_field (codes "fdcMemoMode") fs) "fdcMemoMode"
    fdc_destination_tag ← unsigned (get_field (codes "fdcDestinationTag") fs) "fdcDestinationTag"
    fdc_min_received_amount ←
        quoted (get_field (codes "fdcMinReceivedAmount") fs) "fdcMinReceivedAmount"
    fdc_max_received_amount ←
        quoted (get_field (codes "fdcMaxReceivedAmount") fs) "fdcMaxReceivedAmount"
    max_fdc_age_seconds ← quoted (get_field (codes "maxFdcAgeSeconds") fs) "maxFdcAgeSeconds"
    fdc_consumer ← hex_item V (get_field (codes "fdcConsumer") fs) "fdcConsumer"
    ok (record {
      fdc_attestation_type = fdc_attestation_type;
      fdc_source_id = fdc_source_id;
      fdc_source_address_hash = fdc_source_address_hash;
      fdc_receiving_address_hash = fdc_receiving_address_hash;
      fdc_memo_mode = fdc_memo_mode;
      fdc_destination_tag = fdc_destination_tag;
      fdc_min_received_amount = fdc_min_received_amount;
      fdc_max_received_amount = fdc_max_received_amount;
      max_fdc_age_seconds = max_fdc_age_seconds;
      fdc_consumer = fdc_consumer;
    })

  unfoldable pub parse_fields : List Field → Result Policy
  parse_fields fs = do
    throw_if (not (length fs == length fields) || any is_unknown_key fs)
        (thrown "encrypted policy plaintext has unknown or missing fields")
    require_ftso ← flag_item (get_field (codes "requireFtso") fs) "requireFtso"
    require_fdc ← flag_item (get_field (codes "requireFdc") fs) "requireFdc"
    require_tag ←
        flag_item (get_field (codes "fdcRequireDestinationTag") fs) "fdcRequireDestinationTag"
    h ← read_head fs
    b ← read_bounds fs
    l ← read_lists fs
    f ← read_fdc fs
    normalize_policy V (policy_of require_ftso require_fdc require_tag h b l f)

  unfoldable pub parse_private_policy : Plaintext → Result Policy
  parse_private_policy not_json = err (thrown "encrypted policy plaintext must be JSON")
  parse_private_policy not_an_object = err (thrown "encrypted policy plaintext must be an object")
  parse_private_policy (object fs) = parse_fields fs
