-- ===== src/Protocol/PrivateWire/Readers.antt =====
-- What the readers of the plaintext give back of the fields that are written.
use Prim.Native.String.{String}
use xrp_payguard.Base.{ℕ, ◌≡◌, refl, subst, sym, true, all, List, [], ◌∷◌, map, and-true, arith}
use xrp_payguard.Base.Int.{ℤ, pos}
use xrp_payguard.Text.{Text, text_eq, is_hex}
use xrp_payguard.Text.Decimal.{is_decimal-decimal, decimal_value-decimal, to_string}
use xrp_payguard.Failure.{ok, bind_ok}
use xrp_payguard.Viem.{Viem, ViemLaws}
use xrp_payguard.Protocol.Types.{Policy}
use xrp_payguard.Protocol.Codec.Primitives.{map_result}
use xrp_payguard.Protocol.PrivateWire.{text, string, integer, array, get_field, wire_of}
use xrp_payguard.Protocol.PrivateWire.Items.{quoted, unsigned, hex_entry, hex_list, hex_item}
use xrp_payguard.Protocol.PrivateWire.Parse.{read_head, read_bounds, read_lists, read_fdc}

abbrev pub IsNatural : ℤ → Type 0
IsNatural n = (k : ℕ) × (n ≡ pos k)

abbrev pub IsHex : Text → Type 0
IsHex t = is_hex t ≡ true

abbrev pub AreHex : List Text → Type 0
AreHex ts = all is_hex ts ≡ true

quoted-to_string : (key : String) (n : ℤ) → IsNatural n → quoted (string (to_string n)) key ≡ ok n
unfolding quoted
quoted-to_string key n (k, e) =
    subst (λ m. quoted (string (to_string m)) key ≡ ok m) (sym e)
      (rw (is_decimal-decimal k, decimal_value-decimal k) refl)

unsigned-integer : (key : String) (n : ℤ) → IsNatural n → unsigned (integer n) key ≡ ok n
unfolding unsigned
unsigned-integer key n (k, e) = subst (λ m. unsigned (integer m) key ≡ ok m) (sym e) (ground arith)

map_result-hex_entry :
    (key : String) (ts : List Text) → AreHex ts → map_result (hex_entry key) (map text ts) ≡ ok ts
unfolding map_result hex_entry
map_result-hex_entry key [] h = refl
map_result-hex_entry key (t ∷ ts) h =
    let (first, rest) = and-true (is_hex t) (all is_hex ts) h in
    rw (first, map_result-hex_entry key ts rest) refl

hex_list-array :
    (key : String) (ts : List Text) → AreHex ts → hex_list (array (map text ts)) key ≡ ok ts
unfolding hex_list
hex_list-array key ts h = map_result-hex_entry key ts h

module _ (V : Viem) (L : ViemLaws V) where
  hex_item-string : (key : String) (t : Text) → IsHex t → hex_item V (string t) key ≡ ok t
  unfolding hex_item
  hex_item-string key t h =
      let (n, e) = L.hex_to_bytes_length-is_hex t h in rw (h, e) (ground arith)

  pub read_head-wire_of :
      (q : Policy)
      → IsNatural q.schema_version
      → IsNatural q.chain_id
      → IsHex q.registry
      → IsHex q.vault
      → IsHex q.router
      → IsHex q.owner
      → IsHex q.policy_id
      → IsNatural q.policy_version
      → IsHex q.asset
      → IsHex q.reference_currency
      → read_head V (wire_of q)
        ≡ ok (record {
          schema_version = q.schema_version;
          chain_id = q.chain_id;
          registry = q.registry;
          vault = q.vault;
          router = q.router;
          owner = q.owner;
          policy_id = q.policy_id;
          policy_version = q.policy_version;
          asset = q.asset;
          reference_currency = q.reference_currency;
        })
  unfolding read_head get_field text_eq
  read_head-wire_of q e1 e2 e3 e4 e5 e6 e7 e8 e9 e10 =
      bind_ok _ (unsigned-integer "schemaVersion" q.schema_version e1) (
        bind_ok _ (quoted-to_string "chainId" q.chain_id e2) (
          bind_ok _ (hex_item-string "registry" q.registry e3) (
            bind_ok _ (hex_item-string "vault" q.vault e4) (
              bind_ok _ (hex_item-string "router" q.router e5) (
                bind_ok _ (hex_item-string "owner" q.owner e6) (
                  bind_ok _ (hex_item-string "policyId" q.policy_id e7) (
                    bind_ok _ (unsigned-integer "policyVersion" q.policy_version e8) (
                      bind_ok _ (hex_item-string "asset" q.asset e9) (
                        bind_ok _ (hex_item-string "referenceCurrency" q.reference_currency e10)
                          refl)))))))))

  pub read_bounds-wire_of :
      (q : Policy)
      → IsNatural q.max_per_action
      → IsNatural q.daily_cap
      → IsNatural q.rolling_cap
      → IsNatural q.rolling_window_seconds
      → IsNatural q.start_at
      → IsNatural q.end_at
      → IsNatural q.schedule_interval_seconds
      → IsNatural q.schedule_grace_seconds
      → IsNatural q.cooldown_seconds
      → IsNatural q.max_occurrences
      → read_bounds V (wire_of q)
        ≡ ok (record {
          max_per_action = q.max_per_action;
          daily_cap = q.daily_cap;
          rolling_cap = q.rolling_cap;
          rolling_window_seconds = q.rolling_window_seconds;
          start_at = q.start_at;
          end_at = q.end_at;
          schedule_interval_seconds = q.schedule_interval_seconds;
          schedule_grace_seconds = q.schedule_grace_seconds;
          cooldown_seconds = q.cooldown_seconds;
          max_occurrences = q.max_occurrences;
        })
  unfolding read_bounds get_field text_eq
  read_bounds-wire_of q e1 e2 e3 e4 e5 e6 e7 e8 e9 e10 =
      bind_ok _ (quoted-to_string "maxPerAction" q.max_per_action e1) (
        bind_ok _ (quoted-to_string "dailyCap" q.daily_cap e2) (
          bind_ok _ (quoted-to_string "rollingCap" q.rolling_cap e3) (
            bind_ok _ (quoted-to_string "rollingWindowSeconds" q.rolling_window_seconds e4) (
              bind_ok _ (quoted-to_string "startAt" q.start_at e5) (
                bind_ok _ (quoted-to_string "endAt" q.end_at e6) (
                  bind_ok _
                    (quoted-to_string "scheduleIntervalSeconds" q.schedule_interval_seconds e7)
                    (bind_ok _ (quoted-to_string "scheduleGraceSeconds" q.schedule_grace_seconds e8)
                      (bind_ok _ (quoted-to_string "cooldownSeconds" q.cooldown_seconds e9) (
                        bind_ok _ (unsigned-integer "maxOccurrences" q.max_occurrences e10)
                          refl)))))))))

  pub read_lists-wire_of :
      (q : Policy)
      → AreHex q.allow_targets
      → AreHex q.deny_targets
      → AreHex q.allow_requesters
      → AreHex q.allow_action_types
      → IsHex q.ftso_feed_id
      → IsNatural q.max_price_age_seconds
      → IsHex q.private_salt
      → IsHex q.submission_nonce
      → read_lists V (wire_of q)
        ≡ ok (record {
          allow_targets = q.allow_targets;
          deny_targets = q.deny_targets;
          allow_requesters = q.allow_requesters;
          allow_action_types = q.allow_action_types;
          ftso_feed_id = q.ftso_feed_id;
          max_price_age_seconds = q.max_price_age_seconds;
          private_salt = q.private_salt;
          submission_nonce = q.submission_nonce;
        })
  unfolding read_lists get_field text_eq
  read_lists-wire_of q e1 e2 e3 e4 e5 e6 e7 e8 =
      bind_ok _ (hex_list-array "allowTargets" q.allow_targets e1) (
        bind_ok _ (hex_list-array "denyTargets" q.deny_targets e2) (
          bind_ok _ (hex_list-array "allowRequesters" q.allow_requesters e3) (
            bind_ok _ (hex_list-array "allowActionTypes" q.allow_action_types e4) (
              bind_ok _ (hex_item-string "ftsoFeedId" q.ftso_feed_id e5) (
                bind_ok _ (quoted-to_string "maxPriceAgeSeconds" q.max_price_age_seconds e6) (
                  bind_ok _ (hex_item-string "privateSalt" q.private_salt e7)
                    (bind_ok _ (hex_item-string "submissionNonce" q.submission_nonce e8) refl)))))))

  pub read_fdc-wire_of :
      (q : Policy)
      → IsHex q.fdc_attestation_type
      → IsHex q.fdc_source_id
      → IsHex q.fdc_source_address_hash
      → IsHex q.fdc_receiving_address_hash
      → IsNatural q.fdc_memo_mode
      → IsNatural q.fdc_destination_tag
      → IsNatural q.fdc_min_received_amount
      → IsNatural q.fdc_max_received_amount
      → IsNatural q.max_fdc_age_seconds
      → IsHex q.fdc_consumer
      → read_fdc V (wire_of q)
        ≡ ok (record {
          fdc_attestation_type = q.fdc_attestation_type;
          fdc_source_id = q.fdc_source_id;
          fdc_source_address_hash = q.fdc_source_address_hash;
          fdc_receiving_address_hash = q.fdc_receiving_address_hash;
          fdc_memo_mode = q.fdc_memo_mode;
          fdc_destination_tag = q.fdc_destination_tag;
          fdc_min_received_amount = q.fdc_min_received_amount;
          fdc_max_received_amount = q.fdc_max_received_amount;
          max_fdc_age_seconds = q.max_fdc_age_seconds;
          fdc_consumer = q.fdc_consumer;
        })
  unfolding read_fdc get_field text_eq
  read_fdc-wire_of q e1 e2 e3 e4 e5 e6 e7 e8 e9 e10 =
      bind_ok _ (hex_item-string "fdcAttestationType" q.fdc_attestation_type e1) (
        bind_ok _ (hex_item-string "fdcSourceId" q.fdc_source_id e2) (
          bind_ok _ (hex_item-string "fdcSourceAddressHash" q.fdc_source_address_hash e3) (
            bind_ok _ (hex_item-string "fdcReceivingAddressHash" q.fdc_receiving_address_hash e4) (
              bind_ok _ (unsigned-integer "fdcMemoMode" q.fdc_memo_mode e5) (
                bind_ok _ (unsigned-integer "fdcDestinationTag" q.fdc_destination_tag e6) (
                  bind_ok _ (quoted-to_string "fdcMinReceivedAmount" q.fdc_min_received_amount e7) (
                    bind_ok _ (quoted-to_string "fdcMaxReceivedAmount" q.fdc_max_received_amount e8)
                      (bind_ok _ (quoted-to_string "maxFdcAgeSeconds" q.max_fdc_age_seconds e9)
                        (bind_ok _ (hex_item-string "fdcConsumer" q.fdc_consumer e10) refl)))))))))
