-- ===== src/Protocol/Codec/Blocks.antt =====
-- The two longest groups of fields, as a sequence of results: what a run that succeeds went through,
-- and that it succeeds when every step does.
use xrp_payguard.Base.{◌≡◌, refl, subst, List}
use xrp_payguard.Base.Int.{ℤ}
use xrp_payguard.Text.{Text}
use xrp_payguard.Failure.{Result, ok, err, ◌>>=◌, ◌>>◌, >>=-eq-ok, ok-injective}
use xrp_payguard.Protocol.Codec.Normalize.{FdcDescriptor, Limits}

abbrev pub fdc_block :
    Result Text
    → Result Text
    → Result Text
    → Result Text
    → Result ℤ
    → Result ℤ
    → Result ℤ
    → Result ℤ
    → Result ℤ
    → Result Text
    → (FdcDescriptor → Result (Unit {0}))
    → Result FdcDescriptor
fdc_block r1 r2 r3 r4 r5 r6 r7 r8 r9 r10 check = do
  v1 ← r1
  v2 ← r2
  v3 ← r3
  v4 ← r4
  v5 ← r5
  v6 ← r6
  v7 ← r7
  v8 ← r8
  v9 ← r9
  v10 ← r10
  let x : FdcDescriptor = record {
    attestation_type = v1;
    source_id = v2;
    source_address_hash = v3;
    receiving_address_hash = v4;
    memo_mode = v5;
    destination_tag = v6;
    min_received_amount = v7;
    max_received_amount = v8;
    max_age_seconds = v9;
    consumer = v10;
  }
  check x
  ok x

-- What a run of the block that succeeds went through, field by field.
pub fdc_block-eq-ok :
    (r1 : Result Text) (r2 : Result Text) (r3 : Result Text) (r4 : Result Text) (r5 : Result ℤ)
    (r6 : Result ℤ) (r7 : Result ℤ) (r8 : Result ℤ) (r9 : Result ℤ) (r10 : Result Text)
    (check : FdcDescriptor → Result (Unit {0})) (q : FdcDescriptor)
    → fdc_block r1 r2 r3 r4 r5 r6 r7 r8 r9 r10 check ≡ ok q
    → (r1 ≡ ok q.attestation_type)
      × (r2 ≡ ok q.source_id)
      × (r3 ≡ ok q.source_address_hash)
      × (r4 ≡ ok q.receiving_address_hash)
      × (r5 ≡ ok q.memo_mode)
      × (r6 ≡ ok q.destination_tag)
      × (r7 ≡ ok q.min_received_amount)
      × (r8 ≡ ok q.max_received_amount)
      × (r9 ≡ ok q.max_age_seconds)
      × (r10 ≡ ok q.consumer)
      × (check q ≡ ok tt)
fdc_block-eq-ok (err e) r2 r3 r4 r5 r6 r7 r8 r9 r10 check q h = cc
fdc_block-eq-ok (ok v1) (err e) r3 r4 r5 r6 r7 r8 r9 r10 check q h = cc
fdc_block-eq-ok (ok v1) (ok v2) (err e) r4 r5 r6 r7 r8 r9 r10 check q h = cc
fdc_block-eq-ok (ok v1) (ok v2) (ok v3) (err e) r5 r6 r7 r8 r9 r10 check q h = cc
fdc_block-eq-ok (ok v1) (ok v2) (ok v3) (ok v4) (err e) r6 r7 r8 r9 r10 check q h = cc
fdc_block-eq-ok (ok v1) (ok v2) (ok v3) (ok v4) (ok v5) (err e) r7 r8 r9 r10 check q h = cc
fdc_block-eq-ok (ok v1) (ok v2) (ok v3) (ok v4) (ok v5) (ok v6) (err e) r8 r9 r10 check q h = cc
fdc_block-eq-ok (ok v1) (ok v2) (ok v3) (ok v4) (ok v5) (ok v6) (ok v7) (err e) r9 r10 check q h =
    cc
fdc_block-eq-ok (ok v1) (ok v2) (ok v3) (ok v4) (ok v5) (ok v6) (ok v7) (ok v8) (err e) r10 check q
      h =
    cc
fdc_block-eq-ok (ok v1) (ok v2) (ok v3) (ok v4) (ok v5) (ok v6) (ok v7) (ok v8) (ok v9) (err e)
      check q h =
    cc
fdc_block-eq-ok (ok v1) (ok v2) (ok v3) (ok v4) (ok v5) (ok v6) (ok v7) (ok v8) (ok v9) (ok v10)
      check q h =
    let x : FdcDescriptor = record {
      attestation_type = v1;
      source_id = v2;
      source_address_hash = v3;
      receiving_address_hash = v4;
      memo_mode = v5;
      destination_tag = v6;
      min_received_amount = v7;
      max_received_amount = v8;
      max_age_seconds = v9;
      consumer = v10;
    } in
    let (u, checked, h1) = >>=-eq-ok (check x) _ h in
    let e : x ≡ q = ok-injective h1 in
    subst
      (λ y.
        (ok v1 ≡ ok y.attestation_type)
        × (ok v2 ≡ ok y.source_id)
        × (ok v3 ≡ ok y.source_address_hash)
        × (ok v4 ≡ ok y.receiving_address_hash)
        × (ok v5 ≡ ok y.memo_mode)
        × (ok v6 ≡ ok y.destination_tag)
        × (ok v7 ≡ ok y.min_received_amount)
        × (ok v8 ≡ ok y.max_received_amount)
        × (ok v9 ≡ ok y.max_age_seconds)
        × (ok v10 ≡ ok y.consumer)
        × (check y ≡ ok tt))
      e (refl, refl, refl, refl, refl, refl, refl, refl, refl, refl, checked)

pub fdc_block-ok :
    (r1 : Result Text) (r2 : Result Text) (r3 : Result Text) (r4 : Result Text) (r5 : Result ℤ)
    (r6 : Result ℤ) (r7 : Result ℤ) (r8 : Result ℤ) (r9 : Result ℤ) (r10 : Result Text)
    (check : FdcDescriptor → Result (Unit {0})) (q : FdcDescriptor)
    → r1 ≡ ok q.attestation_type
    → r2 ≡ ok q.source_id
    → r3 ≡ ok q.source_address_hash
    → r4 ≡ ok q.receiving_address_hash
    → r5 ≡ ok q.memo_mode
    → r6 ≡ ok q.destination_tag
    → r7 ≡ ok q.min_received_amount
    → r8 ≡ ok q.max_received_amount
    → r9 ≡ ok q.max_age_seconds
    → r10 ≡ ok q.consumer
    → check q ≡ ok tt
    → fdc_block r1 r2 r3 r4 r5 r6 r7 r8 r9 r10 check ≡ ok q
fdc_block-ok r1 r2 r3 r4 r5 r6 r7 r8 r9 r10 check q e1 e2 e3 e4 e5 e6 e7 e8 e9 e10 c =
    rw (e1, e2, e3, e4, e5, e6, e7, e8, e9, e10, c) refl

abbrev pub limits_block :
    Result ℤ
    → Result ℤ
    → Result ℤ
    → Result ℤ
    → Result ℤ
    → Result ℤ
    → Result (List Text)
    → Result (List Text)
    → Result (List Text)
    → Result (List Text)
    → Result Text
    → (Limits → Result (Unit {0}))
    → Result Limits
limits_block r1 r2 r3 r4 r5 r6 r7 r8 r9 r10 r11 check = do
  v1 ← r1
  v2 ← r2
  v3 ← r3
  v4 ← r4
  v5 ← r5
  v6 ← r6
  v7 ← r7
  v8 ← r8
  v9 ← r9
  v10 ← r10
  v11 ← r11
  let x : Limits = record {
    policy_version = v1;
    max_per_action = v2;
    daily_cap = v3;
    rolling_cap = v4;
    cooldown_seconds = v5;
    max_occurrences = v6;
    allow_targets = v7;
    deny_targets = v8;
    allow_requesters = v9;
    allow_action_types = v10;
    ftso_feed_id = v11;
  }
  check x
  ok x

-- What a run of the block that succeeds went through, field by field.
pub limits_block-eq-ok :
    (r1 : Result ℤ) (r2 : Result ℤ) (r3 : Result ℤ) (r4 : Result ℤ) (r5 : Result ℤ) (r6 : Result ℤ)
    (r7 : Result (List Text)) (r8 : Result (List Text)) (r9 : Result (List Text))
    (r10 : Result (List Text)) (r11 : Result Text) (check : Limits → Result (Unit {0})) (q : Limits)
    → limits_block r1 r2 r3 r4 r5 r6 r7 r8 r9 r10 r11 check ≡ ok q
    → (r1 ≡ ok q.policy_version)
      × (r2 ≡ ok q.max_per_action)
      × (r3 ≡ ok q.daily_cap)
      × (r4 ≡ ok q.rolling_cap)
      × (r5 ≡ ok q.cooldown_seconds)
      × (r6 ≡ ok q.max_occurrences)
      × (r7 ≡ ok q.allow_targets)
      × (r8 ≡ ok q.deny_targets)
      × (r9 ≡ ok q.allow_requesters)
      × (r10 ≡ ok q.allow_action_types)
      × (r11 ≡ ok q.ftso_feed_id)
      × (check q ≡ ok tt)
limits_block-eq-ok (err e) r2 r3 r4 r5 r6 r7 r8 r9 r10 r11 check q h = cc
limits_block-eq-ok (ok v1) (err e) r3 r4 r5 r6 r7 r8 r9 r10 r11 check q h = cc
limits_block-eq-ok (ok v1) (ok v2) (err e) r4 r5 r6 r7 r8 r9 r10 r11 check q h = cc
limits_block-eq-ok (ok v1) (ok v2) (ok v3) (err e) r5 r6 r7 r8 r9 r10 r11 check q h = cc
limits_block-eq-ok (ok v1) (ok v2) (ok v3) (ok v4) (err e) r6 r7 r8 r9 r10 r11 check q h = cc
limits_block-eq-ok (ok v1) (ok v2) (ok v3) (ok v4) (ok v5) (err e) r7 r8 r9 r10 r11 check q h = cc
limits_block-eq-ok (ok v1) (ok v2) (ok v3) (ok v4) (ok v5) (ok v6) (err e) r8 r9 r10 r11 check q h =
    cc
limits_block-eq-ok (ok v1) (ok v2) (ok v3) (ok v4) (ok v5) (ok v6) (ok v7) (err e) r9 r10 r11 check
      q h =
    cc
limits_block-eq-ok (ok v1) (ok v2) (ok v3) (ok v4) (ok v5) (ok v6) (ok v7) (ok v8) (err e) r10 r11
      check q h =
    cc
limits_block-eq-ok (ok v1) (ok v2) (ok v3) (ok v4) (ok v5) (ok v6) (ok v7) (ok v8) (ok v9) (err e)
      r11 check q h =
    cc
limits_block-eq-ok (ok v1) (ok v2) (ok v3) (ok v4) (ok v5) (ok v6) (ok v7) (ok v8) (ok v9) (ok v10)
      (err e) check q h =
    cc
limits_block-eq-ok (ok v1) (ok v2) (ok v3) (ok v4) (ok v5) (ok v6) (ok v7) (ok v8) (ok v9) (ok v10)
      (ok v11) check q h =
    let x : Limits = record {
      policy_version = v1;
      max_per_action = v2;
      daily_cap = v3;
      rolling_cap = v4;
      cooldown_seconds = v5;
      max_occurrences = v6;
      allow_targets = v7;
      deny_targets = v8;
      allow_requesters = v9;
      allow_action_types = v10;
      ftso_feed_id = v11;
    } in
    let (u, checked, h1) = >>=-eq-ok (check x) _ h in
    let e : x ≡ q = ok-injective h1 in
    subst
      (λ y.
        (ok v1 ≡ ok y.policy_version)
        × (ok v2 ≡ ok y.max_per_action)
        × (ok v3 ≡ ok y.daily_cap)
        × (ok v4 ≡ ok y.rolling_cap)
        × (ok v5 ≡ ok y.cooldown_seconds)
        × (ok v6 ≡ ok y.max_occurrences)
        × (ok v7 ≡ ok y.allow_targets)
        × (ok v8 ≡ ok y.deny_targets)
        × (ok v9 ≡ ok y.allow_requesters)
        × (ok v10 ≡ ok y.allow_action_types)
        × (ok v11 ≡ ok y.ftso_feed_id)
        × (check y ≡ ok tt))
      e (refl, refl, refl, refl, refl, refl, refl, refl, refl, refl, refl, checked)

pub limits_block-ok :
    (r1 : Result ℤ) (r2 : Result ℤ) (r3 : Result ℤ) (r4 : Result ℤ) (r5 : Result ℤ) (r6 : Result ℤ)
    (r7 : Result (List Text)) (r8 : Result (List Text)) (r9 : Result (List Text))
    (r10 : Result (List Text)) (r11 : Result Text) (check : Limits → Result (Unit {0})) (q : Limits)
    → r1 ≡ ok q.policy_version
    → r2 ≡ ok q.max_per_action
    → r3 ≡ ok q.daily_cap
    → r4 ≡ ok q.rolling_cap
    → r5 ≡ ok q.cooldown_seconds
    → r6 ≡ ok q.max_occurrences
    → r7 ≡ ok q.allow_targets
    → r8 ≡ ok q.deny_targets
    → r9 ≡ ok q.allow_requesters
    → r10 ≡ ok q.allow_action_types
    → r11 ≡ ok q.ftso_feed_id
    → check q ≡ ok tt
    → limits_block r1 r2 r3 r4 r5 r6 r7 r8 r9 r10 r11 check ≡ ok q
limits_block-ok r1 r2 r3 r4 r5 r6 r7 r8 r9 r10 r11 check q e1 e2 e3 e4 e5 e6 e7 e8 e9 e10 e11 c =
    rw (e1, e2, e3, e4, e5, e6, e7, e8, e9, e10, e11, c) refl
