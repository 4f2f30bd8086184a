-- ===== src/Protocol/PrivateWire/Facts.antt =====
-- What a normal form is made of: numbers without a sign, and hexadecimal texts.
use Prim.Native.String.{String}
use xrp_payguard.Base.{
  ℕ, ◌^◌, ◌≡◌, refl, sym, subst, ◌∙◌, Bool, true, false, ◌&&◌, all, not, same_bool, List, [], ◌∷◌,
  inl, inr, Bool-cases, and-true, arith,
}
use xrp_payguard.Base.Int.{ℤ, pos, ltb_ℤ, leb_ℤ, ◌==ℤ◌}
use xrp_payguard.Text.{Text, is_hex32}
use xrp_payguard.Text.Laws.{is_hex-is_hex32, is_hex32-to_lower_case}
use xrp_payguard.Failure.{ok, thrown, >>=-eq-ok, throw_if_then, ok-injective}
use xrp_payguard.Viem.{Viem, ViemLaws}
use xrp_payguard.Protocol.Schedule.{schedule_window}
use xrp_payguard.Protocol.Codec.Primitives.{
  bytes32, uint, bounded_uint, address, sorted_addresses, sorted_bytes32,
}
use xrp_payguard.Protocol.Codec.Lists.{sorted_addresses-tested, sorted_bytes32-tested}
use xrp_payguard.Protocol.Codec.Canonical.{bytes32-eq-ok}
use xrp_payguard.Protocol.Codec.Normalize.{
  Domain, Identifiers, Times, FdcDescriptor, Limits, normalize_domain, normalize_identifiers,
  normalize_times, normalize_fdc, normalize_limits, check_fdc, is_bad_schedule,
}
use xrp_payguard.Protocol.Codec.Blocks.{fdc_block-eq-ok, limits_block-eq-ok}
use xrp_payguard.Protocol.PrivateWire.Readers.{IsNatural, IsHex, AreHex}

natural : (n : ℤ) → ltb_ℤ n (pos 0) ≡ false → IsNatural n
natural (pos k) h = (k, refl)
natural (ℤ.negsuc k) h = absurd (ground arith)

pub uint-IsNatural : (n m : ℤ) (l : String) → uint n l ≡ ok m → IsNatural m
unfolding uint
uint-IsNatural n m l h = elim (Bool-cases (ltb_ℤ n (pos 0))) [
  | inl bad ↦ cc (rw bad at h)
  | inr good ↦ subst IsNatural (ok-injective (rw good at h)) (natural n good)
]

pub bounded_uint-IsNatural :
    (n m : ℤ) (b : ℕ) (l : String) → bounded_uint n b l ≡ ok m → IsNatural m
unfolding bounded_uint
bounded_uint-IsNatural n m b l h =
    let (r, e, h1) = >>=-eq-ok (uint n l) _ h in
    elim (Bool-cases (leb_ℤ (pos (2 ^ b)) r)) [
      | inl bad ↦ cc (rw bad at h1)
      | inr good ↦ subst IsNatural (ok-injective (rw good at h1)) (uint-IsNatural n r l e)
    ]

pub bytes32-IsHex : (t u : Text) (l : String) → bytes32 t l ≡ ok u → IsHex u
bytes32-IsHex t u l h =
    let (shaped, low) = bytes32-eq-ok t u l h in
    is_hex-is_hex32 u (subst (λ x. is_hex32 x ≡ true) low (is_hex32-to_lower_case t shaped))

all-AreHex :
    (test : Text → Bool)
    → ((t : Text) → test t ≡ true → IsHex t)
    → (ts : List Text) → all test ts ≡ true
    → AreHex ts
all-AreHex test f [] h = refl
all-AreHex test f (t ∷ ts) h =
    let (first, rest) = and-true (test t) (all test ts) h in
    rw (f t first, all-AreHex test f ts rest) refl

pub identifiers_facts :
    (p q : Identifiers)
    → normalize_identifiers p ≡ ok q
    → IsHex q.policy_id
      × IsHex q.reference_currency
      × IsHex q.private_salt
      × IsHex q.submission_nonce
unfolding normalize_identifiers
identifiers_facts p q h =
    let (a, e1, h1) = >>=-eq-ok (bytes32 p.policy_id "policyId") _ h in
    let (b, e2, h2) = >>=-eq-ok (bytes32 p.reference_currency "referenceCurrency") _ h1 in
    let (c, e3, h3) = >>=-eq-ok (bytes32 p.private_salt "privateSalt") _ h2 in
    let (d, e4, h4) = >>=-eq-ok (bytes32 p.submission_nonce "submissionNonce") _ h3 in
    let (g, h5) = throw_if_then _ _ _ h4 in
    subst
      (λ x.
        IsHex x.policy_id
        × IsHex x.reference_currency
        × IsHex x.private_salt
        × IsHex x.submission_nonce)
      (ok-injective h5)
      (
        bytes32-IsHex _ a _ e1,
        bytes32-IsHex _ b _ e2,
        bytes32-IsHex _ c _ e3,
        bytes32-IsHex _ d _ e4,
      )

pub times_facts :
    (rolling_cap : ℤ) (p q : Times)
    → normalize_times rolling_cap p ≡ ok q
    → IsNatural q.end_at
      × IsNatural q.start_at
      × IsNatural q.rolling_window_seconds
      × IsNatural q.schedule_interval_seconds
      × IsNatural q.schedule_grace_seconds
unfolding normalize_times
times_facts rolling_cap p q h =
    let (a, e1, h1) = >>=-eq-ok (bounded_uint p.end_at 64 "endAt") _ h in
    let (b, e2, h2) = >>=-eq-ok (bounded_uint p.start_at 64 "startAt") _ h1 in
    let (_, h3) =
      throw_if_then (not (a ==ℤ pos 0) && leb_ℤ a b) (thrown "endAt must be after startAt") _ h2 in
    let (c, e3, h4) =
      >>=-eq-ok (bounded_uint p.rolling_window_seconds 64 "rollingWindowSeconds") _ h3 in
    let (_, h5) =
      throw_if_then (not (rolling_cap ==ℤ pos 0) && c ==ℤ pos 0)
        (thrown "rolling window is required") _ h4 in
    let (d, e4, h6) =
      >>=-eq-ok (bounded_uint p.schedule_interval_seconds 64 "scheduleIntervalSeconds") _ h5 in
    let (f, e5, h7) =
      >>=-eq-ok (bounded_uint p.schedule_grace_seconds 64 "scheduleGraceSeconds") _ h6 in
    let (_, h8) =
      throw_if_then (not (same_bool (d ==ℤ pos 0) (f ==ℤ pos 0)))
        (thrown "schedule interval and grace must both be zero or positive") _ h7 in
    let (_, h9) =
      throw_if_then (not (d ==ℤ pos 0) && is_bad_schedule (schedule_window b d f (pos 1)) a)
        (thrown "invalid recurring schedule") _ h8 in
    subst
      (λ x.
        IsNatural x.end_at
        × IsNatural x.start_at
        × IsNatural x.rolling_window_seconds
        × IsNatural x.schedule_interval_seconds
        × IsNatural x.schedule_grace_seconds)
      (ok-injective h9)
      (
        bounded_uint-IsNatural _ a _ _ e1,
        bounded_uint-IsNatural _ b _ _ e2,
        bounded_uint-IsNatural _ c _ _ e3,
        bounded_uint-IsNatural _ d _ _ e4,
        bounded_uint-IsNatural _ f _ _ e5,
      )

module _ (V : Viem) (L : ViemLaws V) where
  pub address-IsHex : (t u : Text) (l : String) → address V t l ≡ ok u → IsHex u
  unfolding address
  address-IsHex t u l h = elim (Bool-cases (V.is_address t)) [
    | inr bad ↦ cc (rw bad at h)
    | inl good ↦
        subst IsHex (ok-injective (sym (L.get_address_lem t good) ∙ (rw good at h)))
          (L.is_address-is_hex (L.checksum t good) (L.checksum-is_address t good))
  ]

  pub domain_facts :
      (p q : Domain)
      → normalize_domain V p ≡ ok q
      → IsNatural q.chain_id
        × IsHex q.registry
        × IsHex q.vault
        × IsHex q.router
        × IsHex q.owner
        × IsHex q.asset
  unfolding normalize_domain
  domain_facts p q h =
      let (n, e1, h1) = >>=-eq-ok (uint p.chain_id "chainId") _ h in
      let (_, h2) = throw_if_then _ _ _ h1 in
      let (a, e2, h3) = >>=-eq-ok (address V p.registry "registry") _ h2 in
      let (b, e3, h4) = >>=-eq-ok (address V p.vault "vault") _ h3 in
      let (c, e4, h5) = >>=-eq-ok (address V p.router "router") _ h4 in
      let (d, e5, h6) = >>=-eq-ok (address V p.owner "owner") _ h5 in
      let (e, e6, h7) = >>=-eq-ok (address V p.asset "asset") _ h6 in
      let (_, h8) = throw_if_then _ _ _ h7 in
      subst
        (λ x.
          IsNatural x.chain_id
          × IsHex x.registry
          × IsHex x.vault
          × IsHex x.router
          × IsHex x.owner
          × IsHex x.asset)
        (ok-injective h8)
        (
          uint-IsNatural _ n _ e1,
          address-IsHex _ a _ e2,
          address-IsHex _ b _ e3,
          address-IsHex _ c _ e4,
          address-IsHex _ d _ e5,
          address-IsHex _ e _ e6,
        )

  pub fdc_facts :
      (require tag : Bool) (p q : FdcDescriptor)
      → normalize_fdc V require tag p ≡ ok q
      → IsHex q.attestation_type
        × IsHex q.source_id
        × IsHex q.source_address_hash
        × IsHex q.receiving_address_hash
        × IsNatural q.memo_mode
        × IsNatural q.destination_tag
        × IsNatural q.min_received_amount
        × IsNatural q.max_received_amount
        × IsNatural q.max_age_seconds
        × IsHex q.consumer
  unfolding normalize_fdc
  fdc_facts require tag p q h =
      let (a, b, c, d, m, f, i, j, k, o, checked) =
        fdc_block-eq-ok (bytes32 p.attestation_type "fdcAttestationType")
          (bytes32 p.source_id "fdcSourceId") (bytes32 p.source_address_hash "fdcSourceAddressHash")
          (bytes32 p.receiving_address_hash "fdcReceivingAddressHash")
          (bounded_uint p.memo_mode 8 "fdcMemoMode")
          (bounded_uint p.destination_tag 32 "fdcDestinationTag")
          (uint p.min_received_amount "fdcMinReceivedAmount")
          (uint p.max_received_amount "fdcMaxReceivedAmount")
          (bounded_uint p.max_age_seconds 64 "maxFdcAgeSeconds")
          (address V p.consumer "fdcConsumer") (check_fdc V require tag) q h in
      (
        bytes32-IsHex _ _ _ a,
        bytes32-IsHex _ _ _ b,
        bytes32-IsHex _ _ _ c,
        bytes32-IsHex _ _ _ d,
        bounded_uint-IsNatural _ _ _ _ m,
        bounded_uint-IsNatural _ _ _ _ f,
        uint-IsNatural _ _ _ i,
        uint-IsNatural _ _ _ j,
        bounded_uint-IsNatural _ _ _ _ k,
        address-IsHex _ _ _ o,
      )

  pub limits_facts :
      (p q : Limits)
      → normalize_limits V p ≡ ok q
      → IsNatural q.policy_version
        × IsNatural q.max_per_action
        × IsNatural q.daily_cap
        × IsNatural q.rolling_cap
        × IsNatural q.cooldown_seconds
        × IsNatural q.max_occurrences
        × AreHex q.allow_targets
        × AreHex q.deny_targets
        × AreHex q.allow_requesters
        × AreHex q.allow_action_types
        × IsHex q.ftso_feed_id
  unfolding normalize_limits
  limits_facts p q h =
      let (a, b, c, d, e, f, i, j, k, m, o, _) =
        limits_block-eq-ok (bounded_uint p.policy_version 32 "policyVersion")
          (uint p.max_per_action "maxPerAction") (uint p.daily_cap "dailyCap")
          (uint p.rolling_cap "rollingCap") (bounded_uint p.cooldown_seconds 64 "cooldownSeconds")
          (bounded_uint p.max_occurrences 32 "maxOccurrences")
          (sorted_addresses V p.allow_targets "allowTargets")
          (sorted_addresses V p.deny_targets "denyTargets")
          (sorted_addresses V p.allow_requesters "allowRequesters")
          (sorted_bytes32 p.allow_action_types "allowActionTypes")
          (bytes32 p.ftso_feed_id "ftsoFeedId") (λ l. ok tt) q h in
      (
        bounded_uint-IsNatural _ _ _ _ a,
        uint-IsNatural _ _ _ b,
        uint-IsNatural _ _ _ c,
        uint-IsNatural _ _ _ d,
        bounded_uint-IsNatural _ _ _ _ e,
        bounded_uint-IsNatural _ _ _ _ f,
        all-AreHex V.is_address L.is_address-is_hex q.allow_targets
            (sorted_addresses-tested V L _ _ _ i),
        all-AreHex V.is_address L.is_address-is_hex q.deny_targets
            (sorted_addresses-tested V L _ _ _ j),
        all-AreHex V.is_address L.is_address-is_hex q.allow_requesters
            (sorted_addresses-tested V L _ _ _ k),
        all-AreHex is_hex32 is_hex-is_hex32 q.allow_action_types (sorted_bytes32-tested _ _ _ m),
        bytes32-IsHex _ _ _ o,
      )
