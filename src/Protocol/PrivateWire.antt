-- ===== src/Protocol/PrivateWire.antt =====
-- packages/protocol/src/private-wire.ts: the plaintext of an encrypted policy. A JSON text stands here
-- for the value that it spells, so `JSON.parse` takes what `JSON.stringify` writes back to the value,
-- and a text that spells none is `not_json`. The keys of an object are distinct.
pub mod Write
pub mod Parse
pub mod Items
pub mod Readers
pub mod Facts
pub mod Laws
use Prim.Native.String.{String}
use xrp_payguard.Base.{
  ℕ, Bool, true, false, ◌&&◌, ◌||◌, not, any, List, [], ◌∷◌, map, length, ◌==◌, Option, none, some,
  if◌then◌else◌,
}
use xrp_payguard.Base.Int.{ℤ, pos, ltb_ℤ}
use xrp_payguard.Text.{Text, codes, text_eq, is_hex}
use xrp_payguard.Text.Decimal.{is_decimal, decimal_value, to_string}
use xrp_payguard.Failure.{Result, ok, err, thrown, labelled, ◌>>=◌, ◌>>◌, throw_if}
use xrp_payguard.Viem.{Viem}
use xrp_payguard.Protocol.Types.{Policy}
use xrp_payguard.Protocol.Codec.Primitives.{map_result}
use xrp_payguard.Protocol.Codec.Policy.{normalize_policy}

-- A member of an array, and a field's value: `other` is any other value.
pub data Entry : Type 0 where
  text : Text → Entry
  other : Entry

pub data Wire : Type 0 where
  string : Text → Wire
  integer : ℤ → Wire
  boolean : Bool → Wire
  array : List Entry → Wire
  other : Wire

pub record Field : Type 0 where
  pub key : Text
  pub value : Wire

pub data Plaintext : Type 0 where
  not_json : Plaintext
  not_an_object : Plaintext
  object : List Field → Plaintext

abbrev pub fields : List Text
fields =
    codes "schemaVersion"
    ∷ codes "chainId"
    ∷ codes "registry"
    ∷ codes "vault"
    ∷ codes "router"
    ∷ codes "owner"
    ∷ codes "policyId"
    ∷ codes "policyVersion"
    ∷ codes "asset"
    ∷ codes "referenceCurrency"
    ∷ codes "maxPerAction"
    ∷ codes "dailyCap"
    ∷ codes "rollingCap"
    ∷ codes "rollingWindowSeconds"
    ∷ codes "startAt"
    ∷ codes "endAt"
    ∷ codes "scheduleIntervalSeconds"
    ∷ codes "scheduleGraceSeconds"
    ∷ codes "cooldownSeconds"
    ∷ codes "maxOccurrences"
    ∷ codes "allowTargets"
    ∷ codes "denyTargets"
    ∷ codes "allowRequesters"
    ∷ codes "allowActionTypes"
    ∷ codes "requireFtso"
    ∷ codes "ftsoFeedId"
    ∷ codes "maxPriceAgeSeconds"
    ∷ codes "requireFdc"
    ∷ codes "fdcAttestationType"
    ∷ codes "fdcSourceId"
    ∷ codes "fdcSourceAddressHash"
    ∷ codes "fdcReceivingAddressHash"
    ∷ codes "fdcMemoMode"
    ∷ codes "fdcRequireDestinationTag"
    ∷ codes "fdcDestinationTag"
    ∷ codes "fdcMinReceivedAmount"
    ∷ codes "fdcMaxReceivedAmount"
    ∷ codes "maxFdcAgeSeconds"
    ∷ codes "fdcConsumer"
    ∷ codes "privateSalt"
    ∷ codes "submissionNonce"
    ∷ []

-- `record[key]`
unfoldable pub get_field : Text → List Field → Wire
get_field key [] = Wire.other
get_field key (f ∷ fs) = if text_eq f.key key then f.value else get_field key fs

abbrev field : String → Wire → Field
field key value = record { key = codes key; value = value }

abbrev hexes : List Text → Wire
hexes ts = array (map text ts)

-- The object that is written for a policy in normal form.
abbrev pub wire_of : Policy → List Field
wire_of p =
    field "schemaVersion" (integer p.schema_version)
    ∷ field "chainId" (string (to_string p.chain_id))
    ∷ field "registry" (string p.registry)
    ∷ field "vault" (string p.vault)
    ∷ field "router" (string p.router)
    ∷ field "owner" (string p.owner)
    ∷ field "policyId" (string p.policy_id)
    ∷ field "policyVersion" (integer p.policy_version)
    ∷ field "asset" (string p.asset)
    ∷ field "referenceCurrency" (string p.reference_currency)
    ∷ field "maxPerAction" (string (to_string p.max_per_action))
    ∷ field "dailyCap" (string (to_string p.daily_cap))
    ∷ field "rollingCap" (string (to_string p.rolling_cap))
    ∷ field "rollingWindowSeconds" (string (to_string p.rolling_window_seconds))
    ∷ field "startAt" (string (to_string p.start_at))
    ∷ field "endAt" (string (to_string p.end_at))
    ∷ field "scheduleIntervalSeconds" (string (to_string p.schedule_interval_seconds))
    ∷ field "scheduleGraceSeconds" (string (to_string p.schedule_grace_seconds))
    ∷ field "cooldownSeconds" (string (to_string p.cooldown_seconds))
    ∷ field "maxOccurrences" (integer p.max_occurrences)
    ∷ field "allowTargets" (hexes p.allow_targets)
    ∷ field "denyTargets" (hexes p.deny_targets)
    ∷ field "allowRequesters" (hexes p.allow_requesters)
    ∷ field "allowActionTypes" (hexes p.allow_action_types)
    ∷ field "requireFtso" (boolean p.require_ftso)
    ∷ field "ftsoFeedId" (string p.ftso_feed_id)
    ∷ field "maxPriceAgeSeconds" (string (to_string p.max_price_age_seconds))
    ∷ field "requireFdc" (boolean p.require_fdc)
    ∷ field "fdcAttestationType" (string p.fdc_attestation_type)
    ∷ field "fdcSourceId" (string p.fdc_source_id)
    ∷ field "fdcSourceAddressHash" (string p.fdc_source_address_hash)
    ∷ field "fdcReceivingAddressHash" (string p.fdc_receiving_address_hash)
    ∷ field "fdcMemoMode" (integer p.fdc_memo_mode)
    ∷ field "fdcRequireDestinationTag" (boolean p.fdc_require_destination_tag)
    ∷ field "fdcDestinationTag" (integer p.fdc_destination_tag)
    ∷ field "fdcMinReceivedAmount" (string (to_string p.fdc_min_received_amount))
    ∷ field "fdcMaxReceivedAmount" (string (to_string p.fdc_max_received_amount))
    ∷ field "maxFdcAgeSeconds" (string (to_string p.max_fdc_age_seconds))
    ∷ field "fdcConsumer" (string p.fdc_consumer)
    ∷ field "privateSalt" (string p.private_salt)
    ∷ field "submissionNonce" (string p.submission_nonce)
    ∷ []
