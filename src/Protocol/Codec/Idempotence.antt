-- ===== src/Protocol/Codec/Idempotence.antt =====
-- `normalizePolicy` is a normalisation, and a commitment does not depend on the order of the lists.
use xrp_payguard.Base.{
  ℕ, zero, suc, replicate, ◌≡◌, refl, subst, Bool, true, not, [], ◌∷◌, ◌==◌, arith, and-true,
}
use xrp_payguard.Base.Int.{pos, ◌==ℤ◌}
use xrp_payguard.Text.{Text, lower, to_lower_case, text_eq, is_hex32, zero_bytes32}
use Prim.Native.String.{String}
use xrp_payguard.Text.Laws.{zero_digit, x_letter}
use xrp_payguard.Failure.{Result, ok, thrown, >>=-eq-ok, throw_if_then, ok-injective, bind_ok, pass}
use xrp_payguard.Viem.{Viem, ViemLaws}
use xrp_payguard.Protocol.Types.{Policy}
use xrp_payguard.Protocol.Codec.Primitives.{
  bytes32, uint, bounded_uint, address, sorted_addresses, sorted_bytes32,
}
use xrp_payguard.Protocol.Codec.Blocks.{
  fdc_block-eq-ok, fdc_block-ok, limits_block-eq-ok, limits_block-ok,
}
use xrp_payguard.Protocol.Codec.Lists.{sorted_addresses_idem, sorted_bytes32_idem}
use xrp_payguard.Protocol.Codec.Normalize.{
  FdcDescriptor, Limits, normalize_domain, normalize_identifiers, normalize_times, normalize_fdc,
  normalize_limits, check_fdc, check_ftso_feed,
}
use xrp_payguard.Protocol.Codec.Policy.{
  domain_of, identifiers_of, times_of, fdc_of, limits_of, assemble, normalize_policy,
}
use xrp_payguard.Protocol.Codec.Canonical.{
  bytes32-eq-ok, bytes32_idem, uint-eq, uint_idem, bounded_uint_idem, address_idem,
  normalize_domain_idem, normalize_identifiers_idem, normalize_times_idem,
}

no_check : Limits → Result (Unit {0})
no_check l = ok tt

module _ (V : Viem) (L : ViemLaws V) where
  normalize_fdc_idem :
      (require tag : Bool) (p q : FdcDescriptor)
      → normalize_fdc V require tag p ≡ ok q
      → normalize_fdc V require tag q ≡ ok q
  unfolding normalize_fdc
  normalize_fdc_idem require tag p q h =
      let (a, b, c, d, m, f, i, j, k, o, checked) =
        fdc_block-eq-ok (bytes32 p.attestation_type "fdcAttestationType")
          (bytes32 p.source_id "fdcSourceId") (bytes32 p.source_address_hash "fdcSourceAddressHash")
          (bytes32 p.receiving_address_hash "fdcReceivingAddressHash")
          (bounded_uint p.memo_mode 8 "fdcMemoMode")
          (bounded_uint p.destination_tag 32 "fdcDestinationTag")
          (uint p.min_received_amount "fdcMinReceivedAmount")
          (uint p.max_received_amount "fdcMaxReceivedAmount")
          (bounded_uint p.max_age_seconds 64 "maxFdcAgeSeconds")
          (address V p.consumer "fdcConsumer") (check_fdc V require tag) q h in
      fdc_block-ok _ _ _ _ _ _ _ _ _ _ (check_fdc V require tag) q (bytes32_idem _ _ _ a)
        (bytes32_idem _ _ _ b) (bytes32_idem _ _ _ c) (bytes32_idem _ _ _ d)
        (bounded_uint_idem _ _ _ _ m) (bounded_uint_idem _ _ _ _ f) (uint_idem _ _ _ i)
        (uint_idem _ _ _ j) (bounded_uint_idem _ _ _ _ k) (address_idem V L _ _ _ o) checked

  -- The limits of the normal form are normal, and its rolling cap is the one given.
  normalize_limits_idem :
      (p q : Limits)
      → normalize_limits V p ≡ ok q
      → (normalize_limits V q ≡ ok q)
        × (p.rolling_cap ≡ q.rolling_cap)
        × (bytes32 p.ftso_feed_id "ftsoFeedId" ≡ ok q.ftso_feed_id)
  unfolding normalize_limits no_check
  normalize_limits_idem p q h =
      let (a, b, c, d, e, f, i, j, k, m, o, u) =
        limits_block-eq-ok (bounded_uint p.policy_version 32 "policyVersion")
          (uint p.max_per_action "maxPerAction") (uint p.daily_cap "dailyCap")
          (uint p.rolling_cap "rollingCap") (bounded_uint p.cooldown_seconds 64 "cooldownSeconds")
          (bounded_uint p.max_occurrences 32 "maxOccurrences")
          (sorted_addresses V p.allow_targets "allowTargets")
          (sorted_addresses V p.deny_targets "denyTargets")
          (sorted_addresses V p.allow_requesters "allowRequesters")
          (sorted_bytes32 p.allow_action_types "allowActionTypes")
          (bytes32 p.ftso_feed_id "ftsoFeedId") no_check q h in
      (
        limits_block-ok _ _ _ _ _ _ _ _ _ _ _ no_check q (bounded_uint_idem _ _ _ _ a)
            (uint_idem _ _ _ b) (uint_idem _ _ _ c) (uint_idem _ _ _ d)
            (bounded_uint_idem _ _ _ _ e) (bounded_uint_idem _ _ _ _ f)
            (sorted_addresses_idem V L _ _ _ i) (sorted_addresses_idem V L _ _ _ j)
            (sorted_addresses_idem V L _ _ _ k) (sorted_bytes32_idem _ _ _ m) (bytes32_idem _ _ _ o)
            u,
        uint-eq _ _ _ d,
        o,
      )

lower-zero : (c : ℕ) → (lower c == b'0') ≡ (c == b'0')
unfolding lower
lower-zero c = ground arith

zeros-to_lower_case :
    (n : ℕ) (t : Text) → text_eq (to_lower_case t) (replicate n b'0') ≡ text_eq t (replicate n b'0')
unfolding to_lower_case text_eq
zeros-to_lower_case zero [] = refl
zeros-to_lower_case zero (c ∷ t) = refl
zeros-to_lower_case (suc n) [] = refl
zeros-to_lower_case (suc n) (c ∷ t) = rw (lower-zero c, zeros-to_lower_case n t) refl

-- A zero identifier is zero in either case.
zero_bytes32-to_lower_case :
    (t : Text) → is_hex32 t ≡ true → text_eq (to_lower_case t) zero_bytes32 ≡ text_eq t zero_bytes32
unfolding is_hex32 to_lower_case text_eq
zero_bytes32-to_lower_case [] h = cc
zero_bytes32-to_lower_case (z ∷ []) h = cc
zero_bytes32-to_lower_case (z ∷ x ∷ t) h =
    let (first, rest) = and-true _ _ h in
    let (second, _) = and-true _ _ rest in
    rw (zero_digit z first, x_letter x second, zeros-to_lower_case 64 t, first, second) refl

check_ftso_feed_idem :
    (require : Bool) (t u : Text) (l : String)
    → bytes32 t l ≡ ok u
    → check_ftso_feed require t ≡ ok tt
    → check_ftso_feed require u ≡ ok tt
unfolding check_ftso_feed
check_ftso_feed_idem require t u l e h =
    let (shaped, low) = bytes32-eq-ok t u l e in
    subst (λ x. check_ftso_feed require x ≡ ok tt) low (rw (zero_bytes32-to_lower_case t shaped) h)

module _ (V : Viem) (L : ViemLaws V) where
  -- What a policy that is normalised becomes is its own normal form.
  pub normalize_policy_idem :
      (p q : Policy) → normalize_policy V p ≡ ok q → normalize_policy V q ≡ ok q
  unfolding normalize_policy
  normalize_policy_idem p q h =
      let (g, h1) =
        throw_if_then (not (p.schema_version ==ℤ pos 1)) (thrown "unsupported policy schema") _ h in
      let (d, e1, h2) = >>=-eq-ok (normalize_domain V (domain_of p)) _ h1 in
      let (i, e2, h3) = >>=-eq-ok (normalize_identifiers (identifiers_of p)) _ h2 in
      let (t, e3, h4) = >>=-eq-ok (normalize_times p.rolling_cap (times_of p)) _ h3 in
      let (u, e4, h5) = >>=-eq-ok (check_ftso_feed p.require_ftso p.ftso_feed_id) _ h4 in
      let (age, e5, h6) =
        >>=-eq-ok (bounded_uint p.max_price_age_seconds 64 "maxPriceAgeSeconds") _ h5 in
      let (f, e6, h7) =
        >>=-eq-ok (normalize_fdc V p.require_fdc p.fdc_require_destination_tag (fdc_of p)) _ h6 in
      let (l, e7, h8) = >>=-eq-ok (normalize_limits V (limits_of p)) _ h7 in
      let (again, cap_eq, feed) = normalize_limits_idem V L (limits_of p) l e7 in
      let x : Policy = assemble p d i t age f l in
      let e : x ≡ q = ok-injective h8 in
      let times : normalize_times x.rolling_cap (times_of x) ≡ ok t =
        subst (λ c. normalize_times c t ≡ ok t) cap_eq
          (normalize_times_idem p.rolling_cap (times_of p) t e3) in
      let goal : normalize_policy V x ≡ ok x = pass (thrown "unsupported policy schema") g (
        bind_ok _ (normalize_domain_idem V L (domain_of p) d e1) (
          bind_ok _ (normalize_identifiers_idem (identifiers_of p) i e2) (
            bind_ok _ times (
              bind_ok _
                (check_ftso_feed_idem p.require_ftso p.ftso_feed_id l.ftso_feed_id "ftsoFeedId" feed
                  e4)
                (bind_ok _
                  (bounded_uint_idem p.max_price_age_seconds age 64 "maxPriceAgeSeconds" e5)
                  (bind_ok _
                    (normalize_fdc_idem V L p.require_fdc p.fdc_require_destination_tag (fdc_of p) f
                      e6)
                    (bind_ok _ again refl))))))) in
      subst (λ y. normalize_policy V y ≡ ok y) e goal
