-- ===== src/Protocol/Codec/Canonical.antt =====
-- Normalising what is normal changes nothing, for each group of fields.
use Prim.Native.String.{String}
use xrp_payguard.Base.{
  ℕ, ◌^◌, ◌≡◌, refl, sym, ◌∙◌, subst, true, ◌&&◌, not, same_bool, inl, inr, Bool-cases,
}
use xrp_payguard.Base.Int.{ℤ, pos, ltb_ℤ, leb_ℤ, ◌==ℤ◌}
use xrp_payguard.Text.{Text, to_lower_case, is_hex32}
use xrp_payguard.Text.Laws.{to_lower_case_idem, is_hex32-to_lower_case}
use xrp_payguard.Failure.{ok, thrown, >>=-eq-ok, throw_if_then, ok-injective, bind_ok, pass}
use xrp_payguard.Viem.{Viem, ViemLaws}
use xrp_payguard.Protocol.Schedule.{schedule_window}
use xrp_payguard.Protocol.Codec.Primitives.{bytes32, uint, bounded_uint, address}
use xrp_payguard.Protocol.Codec.Normalize.{
  Domain, Identifiers, Times, normalize_domain, normalize_identifiers, normalize_times,
  is_bad_schedule,
}

pub bytes32-eq-ok :
    (t u : Text) (l : String) → bytes32 t l ≡ ok u → (is_hex32 t ≡ true) × (to_lower_case t ≡ u)
unfolding bytes32
bytes32-eq-ok t u l h = elim (Bool-cases (is_hex32 t)) [
  | inr bad ↦ cc (rw bad at h)
  | inl good ↦ (good, ok-injective (rw good at h))
]

pub bytes32_idem : (t u : Text) (l : String) → bytes32 t l ≡ ok u → bytes32 u l ≡ ok u
unfolding bytes32
bytes32_idem t u l h = elim (Bool-cases (is_hex32 t)) [
  | inr bad ↦ cc (rw bad at h)
  | inl good ↦
      subst (λ x. bytes32 x l ≡ ok x) (ok-injective (rw good at h))
        (rw (is_hex32-to_lower_case t good, to_lower_case_idem t) refl)
]

pub uint-eq : (n m : ℤ) (l : String) → uint n l ≡ ok m → n ≡ m
unfolding uint
uint-eq n m l h = elim (Bool-cases (ltb_ℤ n (pos 0))) [
  | inl bad ↦ cc (rw bad at h)
  | inr good ↦ ok-injective (rw good at h)
]

pub uint_idem : (n m : ℤ) (l : String) → uint n l ≡ ok m → uint m l ≡ ok m
uint_idem n m l h = subst (λ x. uint x l ≡ ok m) (uint-eq n m l h) h

pub bounded_uint-eq : (n m : ℤ) (b : ℕ) (l : String) → bounded_uint n b l ≡ ok m → n ≡ m
unfolding bounded_uint
bounded_uint-eq n m b l h =
    let (r, e, h1) = >>=-eq-ok (uint n l) _ h in
    elim (Bool-cases (leb_ℤ (pos (2 ^ b)) r)) [
      | inl bad ↦ cc (rw bad at h1)
      | inr good ↦ uint-eq n r l e ∙ ok-injective (rw good at h1)
    ]

pub bounded_uint_idem :
    (n m : ℤ) (b : ℕ) (l : String) → bounded_uint n b l ≡ ok m → bounded_uint m b l ≡ ok m
bounded_uint_idem n m b l h = subst (λ x. bounded_uint x b l ≡ ok m) (bounded_uint-eq n m b l h) h

pub normalize_identifiers_idem :
    (p q : Identifiers) → normalize_identifiers p ≡ ok q → normalize_identifiers q ≡ ok q
unfolding normalize_identifiers
normalize_identifiers_idem p q h =
    let (a, e1, h1) = >>=-eq-ok (bytes32 p.policy_id "policyId") _ h in
    let (b, e2, h2) = >>=-eq-ok (bytes32 p.reference_currency "referenceCurrency") _ h1 in
    let (c, e3, h3) = >>=-eq-ok (bytes32 p.private_salt "privateSalt") _ h2 in
    let (d, e4, h4) = >>=-eq-ok (bytes32 p.submission_nonce "submissionNonce") _ h3 in
    let (g, h5) = throw_if_then _ _ _ h4 in
    let x : Identifiers = record {
      policy_id = a;
      reference_currency = b;
      private_salt = c;
      submission_nonce = d;
    } in
    let e : x ≡ q = ok-injective h5 in
    let again : normalize_identifiers x ≡ ok x = bind_ok _ (bytes32_idem p.policy_id a _ e1) (
      bind_ok _ (bytes32_idem p.reference_currency b _ e2) (
        bind_ok _ (bytes32_idem p.private_salt c _ e3)
          (bind_ok _ (bytes32_idem p.submission_nonce d _ e4) (pass _ g refl)))) in
    subst (λ y. normalize_identifiers y ≡ ok y) e again

pub normalize_times_idem :
    (rolling_cap : ℤ) (p q : Times)
    → normalize_times rolling_cap p ≡ ok q
    → normalize_times rolling_cap q ≡ ok q
unfolding normalize_times
normalize_times_idem rolling_cap p q h =
    let (a, e1, h1) = >>=-eq-ok (bounded_uint p.end_at 64 "endAt") _ h in
    let (b, e2, h2) = >>=-eq-ok (bounded_uint p.start_at 64 "startAt") _ h1 in
    let (g1, h3) =
      throw_if_then (not (a ==ℤ pos 0) && leb_ℤ a b) (thrown "endAt must be after startAt") _ h2 in
    let (c, e3, h4) =
      >>=-eq-ok (bounded_uint p.rolling_window_seconds 64 "rollingWindowSeconds") _ h3 in
    let (g2, h5) =
      throw_if_then (not (rolling_cap ==ℤ pos 0) && c ==ℤ pos 0)
        (thrown "rolling window is required") _ h4 in
    let (d, e4, h6) =
      >>=-eq-ok (bounded_uint p.schedule_interval_seconds 64 "scheduleIntervalSeconds") _ h5 in
    let (f, e5, h7) =
      >>=-eq-ok (bounded_uint p.schedule_grace_seconds 64 "scheduleGraceSeconds") _ h6 in
    let (g3, h8) =
      throw_if_then (not (same_bool (d ==ℤ pos 0) (f ==ℤ pos 0)))
        (thrown "schedule interval and grace must both be zero or positive") _ h7 in
    let (g4, h9) =
      throw_if_then (not (d ==ℤ pos 0) && is_bad_schedule (schedule_window b d f (pos 1)) a)
        (thrown "invalid recurring schedule") _ h8 in
    let x : Times = record {
      end_at = a;
      start_at = b;
      rolling_window_seconds = c;
      schedule_interval_seconds = d;
      schedule_grace_seconds = f;
    } in
    let e : x ≡ q = ok-injective h9 in
    let again : normalize_times rolling_cap x ≡ ok x =
      bind_ok _ (bounded_uint_idem p.end_at a _ _ e1) (
        bind_ok _ (bounded_uint_idem p.start_at b _ _ e2) (
          pass (thrown "endAt must be after startAt") g1 (
            bind_ok _ (bounded_uint_idem p.rolling_window_seconds c _ _ e3) (
              pass (thrown "rolling window is required") g2 (
                bind_ok _ (bounded_uint_idem p.schedule_interval_seconds d _ _ e4) (
                  bind_ok _ (bounded_uint_idem p.schedule_grace_seconds f _ _ e5) (
                    pass (thrown "schedule interval and grace must both be zero or positive") g3
                      (pass (thrown "invalid recurring schedule") g4 refl)))))))) in
    subst (λ y. normalize_times rolling_cap y ≡ ok y) e again

module _ (V : Viem) (L : ViemLaws V) where
  pub address_idem : (t u : Text) (l : String) → address V t l ≡ ok u → address V u l ≡ ok u
  unfolding address
  address_idem t u l h = elim (Bool-cases (V.is_address t)) [
    | inr bad ↦ cc (rw bad at h)
    | inl good ↦
        subst (λ x. address V x l ≡ ok x)
          (ok-injective (sym (L.get_address_lem t good) ∙ (rw good at h)))
          (rw (L.checksum-is_address t good, L.checksum_again t good) refl)
  ]

  pub normalize_domain_idem :
      (p q : Domain) → normalize_domain V p ≡ ok q → normalize_domain V q ≡ ok q
  unfolding normalize_domain
  normalize_domain_idem p q h =
      let (n, e1, h1) = >>=-eq-ok (uint p.chain_id "chainId") _ h in
      let (g1, h2) = throw_if_then _ _ _ h1 in
      let (a, e2, h3) = >>=-eq-ok (address V p.registry "registry") _ h2 in
      let (b, e3, h4) = >>=-eq-ok (address V p.vault "vault") _ h3 in
      let (c, e4, h5) = >>=-eq-ok (address V p.router "router") _ h4 in
      let (d, e5, h6) = >>=-eq-ok (address V p.owner "owner") _ h5 in
      let (e', e6, h7) = >>=-eq-ok (address V p.asset "asset") _ h6 in
      let (g2, h8) = throw_if_then _ _ _ h7 in
      let x : Domain = record {
        chain_id = n;
        registry = a;
        vault = b;
        router = c;
        owner = d;
        asset = e';
      } in
      let e : x ≡ q = ok-injective h8 in
      let again : normalize_domain V x ≡ ok x = bind_ok _ (uint_idem p.chain_id n _ e1) (
        pass _ g1 (
          bind_ok _ (address_idem p.registry a _ e2) (
            bind_ok _ (address_idem p.vault b _ e3) (
              bind_ok _ (address_idem p.router c _ e4) (
                bind_ok _ (address_idem p.owner d _ e5)
                  (bind_ok _ (address_idem p.asset e' _ e6) (pass _ g2 refl))))))) in
      subst (λ y. normalize_domain V y ≡ ok y) e again
