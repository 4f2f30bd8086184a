-- ===== src/Protocol/PrivateWire/Laws.antt =====
-- Parsing the plaintext of a policy gives its normal form.
use xrp_payguard.Base.{◌≡◌, refl, subst, false, not, any, arith}
use xrp_payguard.Base.Int.{pos, ◌==ℤ◌, ==ℤ_iff}
use xrp_payguard.Text.{codes, text_eq}
use xrp_payguard.Failure.{ok, thrown, >>=-eq-ok, throw_if_then, ok-injective, bind_ok, pass}
use xrp_payguard.Viem.{Viem, ViemLaws}
use xrp_payguard.Protocol.Types.{Policy}
use xrp_payguard.Protocol.Codec.Primitives.{bounded_uint}
use xrp_payguard.Protocol.Codec.Normalize.{
  normalize_domain, normalize_identifiers, normalize_times, check_ftso_feed, normalize_fdc,
  normalize_limits,
}
use xrp_payguard.Protocol.Codec.Policy.{
  domain_of, identifiers_of, times_of, fdc_of, limits_of, assemble, normalize_policy,
}
use xrp_payguard.Protocol.Codec.Idempotence.{normalize_policy_idem}
use xrp_payguard.Protocol.PrivateWire.{get_field, wire_of, Plaintext}
use xrp_payguard.Protocol.PrivateWire.Items.{flag_item, is_unknown_key}
use xrp_payguard.Protocol.PrivateWire.Parse.{
  read_head, read_bounds, read_lists, read_fdc, parse_fields, parse_private_policy,
}
use xrp_payguard.Protocol.PrivateWire.Write.{serialize_private_policy}
use xrp_payguard.Protocol.PrivateWire.Readers.{
  IsNatural, read_head-wire_of, read_bounds-wire_of, read_lists-wire_of, read_fdc-wire_of,
}
use xrp_payguard.Protocol.PrivateWire.Facts.{
  bounded_uint-IsNatural, identifiers_facts, times_facts, domain_facts, fdc_facts, limits_facts,
}

-- A policy whose fields the readers give back.
abbrev IsReadable : Viem → Policy → Type 0
IsReadable V q =
    (read_head V (wire_of q)
      ≡ ok (record {
        schema_version = q.schema_version;
        chain_id = q.chain_id;
        registry = q.registry;
        vault = q.vault;
        router = q.router;
        owner = q.owner;
        policy_id = q.policy_id;
        policy_version = q.policy_version;
        asset = q.asset;
        reference_currency = q.reference_currency;
      }))
    × (read_bounds V (wire_of q)
        ≡ ok (record {
          max_per_action = q.max_per_action;
          daily_cap = q.daily_cap;
          rolling_cap = q.rolling_cap;
          rolling_window_seconds = q.rolling_window_seconds;
          start_at = q.start_at;
          end_at = q.end_at;
          schedule_interval_seconds = q.schedule_interval_seconds;
          schedule_grace_seconds = q.schedule_grace_seconds;
          cooldown_seconds = q.cooldown_seconds;
          max_occurrences = q.max_occurrences;
        }))
    × (read_lists V (wire_of q)
        ≡ ok (record {
          allow_targets = q.allow_targets;
          deny_targets = q.deny_targets;
          allow_requesters = q.allow_requesters;
          allow_action_types = q.allow_action_types;
          ftso_feed_id = q.ftso_feed_id;
          max_price_age_seconds = q.max_price_age_seconds;
          private_salt = q.private_salt;
          submission_nonce = q.submission_nonce;
        }))
    × (read_fdc V (wire_of q)
        ≡ ok (record {
          fdc_attestation_type = q.fdc_attestation_type;
          fdc_source_id = q.fdc_source_id;
          fdc_source_address_hash = q.fdc_source_address_hash;
          fdc_receiving_address_hash = q.fdc_receiving_address_hash;
          fdc_memo_mode = q.fdc_memo_mode;
          fdc_destination_tag = q.fdc_destination_tag;
          fdc_min_received_amount = q.fdc_min_received_amount;
          fdc_max_received_amount = q.fdc_max_received_amount;
          max_fdc_age_seconds = q.max_fdc_age_seconds;
          fdc_consumer = q.fdc_consumer;
        }))

known_keys : (q : Policy) → any is_unknown_key (wire_of q) ≡ false
unfolding is_unknown_key text_eq
known_keys q = refl

flags_of :
    (q : Policy)
    → (flag_item (get_field (codes "requireFtso") (wire_of q)) "requireFtso" ≡ ok q.require_ftso)
      × (flag_item (get_field (codes "requireFdc") (wire_of q)) "requireFdc" ≡ ok q.require_fdc)
      × (flag_item
            (get_field (codes "fdcRequireDestinationTag") (wire_of q))
            "fdcRequireDestinationTag"
          ≡ ok q.fdc_require_destination_tag)
unfolding flag_item get_field text_eq
flags_of q = (refl, refl, refl)

module _ (V : Viem) (L : ViemLaws V) where
  IsReadable-normal : (p q : Policy) → normalize_policy V p ≡ ok q → IsReadable V q
  unfolding normalize_policy
  IsReadable-normal p q h =
      let (g, h1) =
        throw_if_then (not (p.schema_version ==ℤ pos 1)) (thrown "unsupported policy schema") _ h in
      let (d, e1, h2) = >>=-eq-ok (normalize_domain V (domain_of p)) _ h1 in
      let (i, e2, h3) = >>=-eq-ok (normalize_identifiers (identifiers_of p)) _ h2 in
      let (t, e3, h4) = >>=-eq-ok (normalize_times p.rolling_cap (times_of p)) _ h3 in
      let (u, _, h5) = >>=-eq-ok (check_ftso_feed p.require_ftso p.ftso_feed_id) _ h4 in
      let (age, e5, h6) =
        >>=-eq-ok (bounded_uint p.max_price_age_seconds 64 "maxPriceAgeSeconds") _ h5 in
      let (f, e6, h7) =
        >>=-eq-ok (normalize_fdc V p.require_fdc p.fdc_require_destination_tag (fdc_of p)) _ h6 in
      let (l, e7, h8) = >>=-eq-ok (normalize_limits V (limits_of p)) _ h7 in
      let version : IsNatural p.schema_version =
        (1, (==ℤ_iff p.schema_version (pos 1)).0 (ground arith)) in
      let (d1, d2, d3, d4, d5, d6) = domain_facts V L (domain_of p) d e1 in
      let (i1, i2, i3, i4) = identifiers_facts (identifiers_of p) i e2 in
      let (t1, t2, t3, t4, t5) = times_facts p.rolling_cap (times_of p) t e3 in
      let (f1, f2, f3, f4, f5, f6, f7, f8, f9, f10) =
        fdc_facts V L p.require_fdc p.fdc_require_destination_tag (fdc_of p) f e6 in
      let (l1, l2, l3, l4, l5, l6, l7, l8, l9, l10, l11) = limits_facts V L (limits_of p) l e7 in
      let x : Policy = assemble p d i t age f l in
      let e : x ≡ q = ok-injective h8 in
      let readable : IsReadable V x = (
        read_head-wire_of V L x version d1 d2 d3 d4 d5 i1 l1 d6 i2,
        read_bounds-wire_of V L x l2 l3 l4 t3 t2 t1 t4 t5 l5 l6,
        read_lists-wire_of V L x l7 l8 l9 l10 l11 (bounded_uint-IsNatural _ age _ _ e5) i3 i4,
        read_fdc-wire_of V L x f1 f2 f3 f4 f5 f6 f7 f8 f9 f10,
      ) in
      subst (IsReadable V) e readable

  parse_fields-wire_of :
      (q : Policy)
      → IsReadable V q
      → normalize_policy V q ≡ ok q
      → parse_fields V (wire_of q) ≡ ok q
  unfolding parse_fields
  parse_fields-wire_of q (head, bounds, lists, fdc) again =
      let (ftso, required, tag) = flags_of q in
      pass (thrown "encrypted policy plaintext has unknown or missing fields") (known_keys q) (
        bind_ok _ ftso (
          bind_ok _ required (
            bind_ok _ tag
              (bind_ok _ head (bind_ok _ bounds (bind_ok _ lists (bind_ok _ fdc again)))))))

  -- The plaintext that is written for a policy parses to the policy's normal form, every field of it
  -- unchanged. It rests on what viem documents of addresses, and on JSON's own round trip.
  pub parse_private_policy-serialize :
      (p : Policy) (w : Plaintext)
      → serialize_private_policy V p ≡ ok w
      → (q : Policy) × (normalize_policy V p ≡ ok q) × (parse_private_policy V w ≡ ok q)
  unfolding serialize_private_policy parse_private_policy
  parse_private_policy-serialize p w h =
      let (q, normal, h1) = >>=-eq-ok (normalize_policy V p) _ h in
      (
        q,
        normal,
        subst (λ x. parse_private_policy V x ≡ ok q) (ok-injective h1)
            (parse_fields-wire_of q (IsReadable-normal p q normal)
              (normalize_policy_idem V L p q normal)),
      )
