-- ===== src/Protocol/Codec/Normalize.antt =====
-- packages/protocol/src/codec.ts, lines 134 to 216: `normalizePolicy`. The function is one sequence of
-- checks; here it is cut into the groups of fields that it goes through in order, each a record of
-- the fields that the group reads and returns. The `typeof` tests hold by the types of the model.
use xrp_payguard.Base.{
  Bool, true, false, ◌||◌, ◌&&◌, not, List, [], ◌∷◌, any, Option, none, some, same_bool,
}
use xrp_payguard.Base.Int.{ℤ, pos, ltb_ℤ, leb_ℤ, ◌==ℤ◌}
use xrp_payguard.Text.{Text, text_eq, same_hex, zero_bytes32, zero_address}
use xrp_payguard.Failure.{Result, ok, thrown, ◌>>=◌, ◌>>◌, throw_if}
use xrp_payguard.Viem.{Viem}
use xrp_payguard.Protocol.Constants.{fdc_xrp_payment}
use xrp_payguard.Protocol.Schedule.{ScheduleWindow, schedule_window}
use xrp_payguard.Protocol.Codec.Primitives.{
  bytes32, uint, bounded_uint, address, sorted_addresses, sorted_bytes32,
}

pub record Domain : Type 0 where
  pub chain_id : ℤ
  pub registry : Text
  pub vault : Text
  pub router : Text
  pub owner : Text
  pub asset : Text

pub record Identifiers : Type 0 where
  pub policy_id : Text
  pub reference_currency : Text
  pub private_salt : Text
  pub submission_nonce : Text

pub record Times : Type 0 where
  pub end_at : ℤ
  pub start_at : ℤ
  pub rolling_window_seconds : ℤ
  pub schedule_interval_seconds : ℤ
  pub schedule_grace_seconds : ℤ

pub record FdcDescriptor : Type 0 where
  pub attestation_type : Text
  pub source_id : Text
  pub source_address_hash : Text
  pub receiving_address_hash : Text
  pub memo_mode : ℤ
  pub destination_tag : ℤ
  pub min_received_amount : ℤ
  pub max_received_amount : ℤ
  pub max_age_seconds : ℤ
  pub consumer : Text

-- The fields that the object literal at the end checks itself.
pub record Limits : Type 0 where
  pub policy_version : ℤ
  pub max_per_action : ℤ
  pub daily_cap : ℤ
  pub rolling_cap : ℤ
  pub cooldown_seconds : ℤ
  pub max_occurrences : ℤ
  pub allow_targets : List Text
  pub deny_targets : List Text
  pub allow_requesters : List Text
  pub allow_action_types : List Text
  pub ftso_feed_id : Text

unfoldable pub normalize_identifiers : Identifiers → Result Identifiers
normalize_identifiers p = do
  policy_id ← bytes32 p.policy_id "policyId"
  reference_currency ← bytes32 p.reference_currency "referenceCurrency"
  private_salt ← bytes32 p.private_salt "privateSalt"
  submission_nonce ← bytes32 p.submission_nonce "submissionNonce"
  throw_if
      (text_eq policy_id zero_bytes32
        || (text_eq reference_currency zero_bytes32
            || (text_eq private_salt zero_bytes32 || text_eq submission_nonce zero_bytes32)))
      (thrown "policy identifiers and nonces must be non-zero")
  ok (record {
    policy_id = policy_id;
    reference_currency = reference_currency;
    private_salt = private_salt;
    submission_nonce = submission_nonce;
  })

unfoldable pub is_bad_schedule : Option ScheduleWindow → ℤ → Bool
is_bad_schedule none end_at = true
is_bad_schedule (some first_window) end_at =
    not (end_at ==ℤ pos 0) && ltb_ℤ end_at first_window.deadline

unfoldable pub normalize_times : ℤ → Times → Result Times
normalize_times rolling_cap p = do
  end_at ← bounded_uint p.end_at 64 "endAt"
  start_at ← bounded_uint p.start_at 64 "startAt"
  throw_if (not (end_at ==ℤ pos 0) && leb_ℤ end_at start_at) (thrown "endAt must be after startAt")
  rolling_window ← bounded_uint p.rolling_window_seconds 64 "rollingWindowSeconds"
  throw_if (not (rolling_cap ==ℤ pos 0) && rolling_window ==ℤ pos 0)
      (thrown "rolling window is required")
  interval ← bounded_uint p.schedule_interval_seconds 64 "scheduleIntervalSeconds"
  grace ← bounded_uint p.schedule_grace_seconds 64 "scheduleGraceSeconds"
  throw_if (not (same_bool (interval ==ℤ pos 0) (grace ==ℤ pos 0)))
      (thrown "schedule interval and grace must both be zero or positive")
  throw_if
      (not (interval ==ℤ pos 0)
        && is_bad_schedule (schedule_window start_at interval grace (pos 1)) end_at)
      (thrown "invalid recurring schedule")
  ok (record {
    end_at = end_at;
    start_at = start_at;
    rolling_window_seconds = rolling_window;
    schedule_interval_seconds = interval;
    schedule_grace_seconds = grace;
  })

-- The two tests of the FTSO feed, on the text as it was given.
unfoldable pub check_ftso_feed : Bool → Text → Result (Unit {0})
check_ftso_feed require_ftso ftso_feed_id = do
  throw_if (require_ftso && text_eq ftso_feed_id zero_bytes32) (thrown "FTSO feed is required")
  throw_if (not require_ftso && not (text_eq ftso_feed_id zero_bytes32))
      (thrown "unexpected FTSO feed")

module _ (V : Viem) where
  unfoldable pub normalize_domain : Domain → Result Domain
  normalize_domain p = do
    chain_id ← uint p.chain_id "chainId"
    throw_if (chain_id ==ℤ pos 0) (thrown "chainId must be non-zero")
    registry ← address V p.registry "registry"
    vault ← address V p.vault "vault"
    router ← address V p.router "router"
    owner ← address V p.owner "owner"
    asset ← address V p.asset "asset"
    throw_if
        (any (λ value. text_eq value zero_address) (registry ∷ vault ∷ router ∷ owner ∷ asset ∷ []))
        (thrown "policy addresses must be non-zero")
    ok (record {
      chain_id = chain_id;
      registry = registry;
      vault = vault;
      router = router;
      owner = owner;
      asset = asset;
    })

  unfoldable pub is_incomplete_fdc : FdcDescriptor → Bool
  is_incomplete_fdc f =
      not (same_hex f.attestation_type (fdc_xrp_payment V))
      || (text_eq f.source_id zero_bytes32
          || (text_eq f.source_address_hash zero_bytes32
              || (text_eq f.receiving_address_hash zero_bytes32
                  || (not (f.memo_mode ==ℤ pos 1)
                      || (f.min_received_amount ==ℤ pos 0
                          || (ltb_ℤ f.max_received_amount f.min_received_amount
                              || (f.max_age_seconds ==ℤ pos 0
                                  || text_eq f.consumer zero_address)))))))

  unfoldable pub is_unexpected_fdc : Bool → FdcDescriptor → Bool
  is_unexpected_fdc require_destination_tag f =
      not (text_eq f.attestation_type zero_bytes32)
      || (not (text_eq f.source_id zero_bytes32)
          || (not (text_eq f.source_address_hash zero_bytes32)
              || (not (text_eq f.receiving_address_hash zero_bytes32)
                  || (not (f.memo_mode ==ℤ pos 0)
                      || (require_destination_tag
                          || (not (f.destination_tag ==ℤ pos 0)
                              || (not (f.min_received_amount ==ℤ pos 0)
                                  || (not (f.max_received_amount ==ℤ pos 0)
                                      || (not (f.max_age_seconds ==ℤ pos 0)
                                          || not (text_eq f.consumer zero_address))))))))))

  unfoldable pub check_fdc : Bool → Bool → FdcDescriptor → Result (Unit {0})
  check_fdc true _ f =
      throw_if (is_incomplete_fdc f) (thrown "required FDC descriptor is incomplete")
  check_fdc false require_destination_tag f =
      throw_if (is_unexpected_fdc require_destination_tag f) (thrown "unexpected FDC descriptor")

  unfoldable pub normalize_fdc : Bool → Bool → FdcDescriptor → Result FdcDescriptor
  normalize_fdc require_fdc require_destination_tag p = do
    attestation_type ← bytes32 p.attestation_type "fdcAttestationType"
    source_id ← bytes32 p.source_id "fdcSourceId"
    source_address_hash ← bytes32 p.source_address_hash "fdcSourceAddressHash"
    receiving_address_hash ← bytes32 p.receiving_address_hash "fdcReceivingAddressHash"
    memo_mode ← bounded_uint p.memo_mode 8 "fdcMemoMode"
    destination_tag ← bounded_uint p.destination_tag 32 "fdcDestinationTag"
    min_received_amount ← uint p.min_received_amount "fdcMinReceivedAmount"
    max_received_amount ← uint p.max_received_amount "fdcMaxReceivedAmount"
    max_age_seconds ← bounded_uint p.max_age_seconds 64 "maxFdcAgeSeconds"
    consumer ← address V p.consumer "fdcConsumer"
    let f : FdcDescriptor = record {
      attestation_type = attestation_type;
      source_id = source_id;
      source_address_hash = source_address_hash;
      receiving_address_hash = receiving_address_hash;
      memo_mode = memo_mode;
      destination_tag = destination_tag;
      min_received_amount = min_received_amount;
      max_received_amount = max_received_amount;
      max_age_seconds = max_age_seconds;
      consumer = consumer;
    }
    check_fdc require_fdc require_destination_tag f
    ok f

  unfoldable pub normalize_limits : Limits → Result Limits
  normalize_limits p = do
    policy_version ← bounded_uint p.policy_version 32 "policyVersion"
    max_per_action ← uint p.max_per_action "maxPerAction"
    daily_cap ← uint p.daily_cap "dailyCap"
    rolling_cap ← uint p.rolling_cap "rollingCap"
    cooldown_seconds ← bounded_uint p.cooldown_seconds 64 "cooldownSeconds"
    max_occurrences ← bounded_uint p.max_occurrences 32 "maxOccurrences"
    allow_targets ← sorted_addresses V p.allow_targets "allowTargets"
    deny_targets ← sorted_addresses V p.deny_targets "denyTargets"
    allow_requesters ← sorted_addresses V p.allow_requesters "allowRequesters"
    allow_action_types ← sorted_bytes32 p.allow_action_types "allowActionTypes"
    ftso_feed_id ← bytes32 p.ftso_feed_id "ftsoFeedId"
    ok (record {
      policy_version = policy_version;
      max_per_action = max_per_action;
      daily_cap = daily_cap;
      rolling_cap = rolling_cap;
      cooldown_seconds = cooldown_seconds;
      max_occurrences = max_occurrences;
      allow_targets = allow_targets;
      deny_targets = deny_targets;
      allow_requesters = allow_requesters;
      allow_action_types = allow_action_types;
      ftso_feed_id = ftso_feed_id;
    })
