-- ===== src/Integrations/Redemption/Accept.antt =====
-- The two operations that accept a settlement, each of which settles an open leg.
use xrp_payguard.Base.{
  not-false, ◌≡◌, refl, sym, subst, true, false, not, any, List, Option, none, some, or-false,
}
use xrp_payguard.Base.Int.{ℤ, pos, ◌==ℤ◌, max_uint256, max_uint64}
use xrp_payguard.Text.{Text, same_hex, to_lower_case, text_eq}
use xrp_payguard.Failure.{
  Result, Error, throw_if, ◌>>=◌, ◌>>◌, ok, thrown, >>=-eq-ok, throw_if_then, throw_if-eq-ok,
  ok-injective,
}
use xrp_payguard.Viem.{Viem}
use xrp_payguard.Integrations.Redemption.{
  RedemptionLegState, requested, underlying_paid, collateral_default, RedemptionLeg, RedemptionJob,
}
use xrp_payguard.Integrations.Redemption.Checks.{
  is_nonzero_hash, is_uint, checked_add, require_same,
}
use xrp_payguard.Integrations.Redemption.Integrity.{
  is_pending, check_settlement, is_bad_spent, is_bad_payment, is_bad_default, is_uint_there,
  add_there, assert_redemption_job_integrity,
}
use xrp_payguard.Integrations.Redemption.Events.{
  PerformedEvent, DefaultEvent, EventVerifier, performed_invalid, performed_drift, default_invalid,
  default_drift, is_requested, checked_commitment, answer_of, verify_settlement_event,
  performed_event_hash, default_event_hash, check_performed, check_default,
}
use xrp_payguard.Integrations.Redemption.Step.{
  is_replayed, find_open_leg, settle_leg, paid_leg, defaulted_leg, accept_redemption_performed,
  accept_redemption_default,
}
use xrp_payguard.Integrations.Redemption.Laws.{IsIntact, assert_sound}
use xrp_payguard.Integrations.Redemption.Settle.{
  Unsettled, IsSettlement, find_open_leg_sound, leg-Unsettled, settle_leg-IsSettlement,
}
use xrp_payguard.Integrations.Redemption.Replaced.{requested_only}

commitment-nonzero :
    (used : List Text) (o : Option Text) (c : Text)
    → checked_commitment used o ≡ ok c
    → is_nonzero_hash (some c) ≡ true
unfolding checked_commitment
commitment-nonzero used none c h = cc
commitment-nonzero used (some d) c h =
    let (g, h1) =
      throw_if_then (not (is_nonzero_hash (some d))) (thrown "redemption event proof invalid") _
        h in
    let (_, h2) =
      throw_if_then (any (λ u. text_eq u (to_lower_case d)) used) (thrown "redemption event replay")
        (ok d) h1 in
    subst (λ x. is_nonzero_hash (some x) ≡ true) (ok-injective h2) (not-false _ g)

verified-nonzero :
    {E : Type 0} (event : E) (verifier : Option (EventVerifier E)) (used : List Text) (c : Text)
    → verify_settlement_event event verifier used ≡ ok c
    → is_nonzero_hash (some c) ≡ true
unfolding verify_settlement_event
verified-nonzero event none used c h = cc
verified-nonzero event (some verify) used c h =
    let (answer, _, h1) = >>=-eq-ok (answer_of (verify event)) _ h in
    commitment-nonzero used answer c h1

-- A leg in a final state, by a proof, for the request of another.
record IsSettled (s : RedemptionLegState) (c : Text) (leg new : RedemptionLeg) : Type 0 where
  same : new.request ≡ leg.request
  state : new.state ≡ s
  proof : new.settlement_proof ≡ some c
  checked : check_settlement s new ≡ ok tt

paid_leg-IsSettled :
    (event : PerformedEvent) (c : Text) (leg : RedemptionLeg)
    → is_nonzero_hash (some event.flare_transaction_hash) ≡ true
    → is_nonzero_hash (some event.transaction_hash) ≡ true
    → is_nonzero_hash (some c) ≡ true
    → is_bad_spent (some event.spent_underlying) ≡ false
    → Unsettled leg
    → IsSettled underlying_paid c leg (paid_leg event c leg)
unfolding check_settlement is_bad_payment paid_leg
paid_leg-IsSettled event c leg a b d e u = record {
  same = refl;
  state = refl;
  proof = refl;
  checked = rw (a, b, d, e, u.vault, u.pool) refl;
}

defaulted_leg-IsSettled :
    (event : DefaultEvent) (c : Text) (leg : RedemptionLeg) (sum : ℤ)
    → is_nonzero_hash (some event.flare_transaction_hash) ≡ true
    → is_nonzero_hash (some c) ≡ true
    → is_uint event.vault_collateral max_uint256 ≡ true
    → is_uint event.pool_collateral max_uint256 ≡ true
    → checked_add event.vault_collateral event.pool_collateral ≡ ok sum
    → (sum ==ℤ pos 0) ≡ false
    → Unsettled leg
    → IsSettled collateral_default c leg (defaulted_leg event c leg)
unfolding check_settlement is_bad_default defaulted_leg is_uint_there add_there
defaulted_leg-IsSettled event c leg sum a b d e added nonzero u = record {
  same = refl;
  state = refl;
  proof = refl;
  checked = rw (a, b, u.underlying, u.spent, d, e, added, nonzero) refl;
}

module _ (V : Viem) where
  check_performed_sound :
      (job : RedemptionJob) (event : PerformedEvent) (u : Unit {0})
      → check_performed V job event ≡ ok u
      → (job.state ≡ requested)
        × (is_nonzero_hash (some event.flare_transaction_hash) ≡ true)
        × (is_nonzero_hash (some event.transaction_hash) ≡ true)
        × (is_bad_spent (some event.spent_underlying) ≡ false)
  unfolding check_performed
  check_performed_sound job event u h =
      let (g, h1) = throw_if_then _ performed_invalid _ h in
      let (_, _, h2) =
        >>=-eq-ok (require_same V event.redeemer job.intent.redeemer performed_invalid) _ h1 in
      let g' = throw_if-eq-ok _ performed_invalid h2 in
      let (g1, k1) = or-false (not (is_requested job.state)) _ g in
      let (g2, k2) = or-false (not (is_nonzero_hash (some event.flare_transaction_hash))) _ k1 in
      let (g3, _) = or-false (not (is_nonzero_hash (some event.transaction_hash))) _ k2 in
      let (_, k4) = or-false (not (is_uint event.request_id max_uint64)) _ g' in
      let (_, spent) = or-false (not (is_uint event.redemption_amount max_uint256)) _ k4 in
      (requested_only job.state (not-false _ g1), not-false _ g2, not-false _ g3, spent)

  check_default_sound :
      (job : RedemptionJob) (event : DefaultEvent) (u : Unit {0})
      → check_default V job event ≡ ok u
      → (job.state ≡ requested)
        × (is_nonzero_hash (some event.flare_transaction_hash) ≡ true)
        × (is_uint event.vault_collateral max_uint256 ≡ true)
        × (is_uint event.pool_collateral max_uint256 ≡ true)
        × ((sum : ℤ) × (checked_add event.vault_collateral event.pool_collateral ≡ ok sum)
            × ((sum ==ℤ pos 0) ≡ false))
  unfolding check_default
  check_default_sound job event u h =
      let (g, h1) = throw_if_then _ default_invalid _ h in
      let (_, _, h2) =
        >>=-eq-ok (require_same V event.redeemer job.intent.redeemer default_invalid) _ h1 in
      let (g', h3) = throw_if_then _ default_invalid _ h2 in
      let (sum, added, h4) =
        >>=-eq-ok (checked_add event.vault_collateral event.pool_collateral) _ h3 in
      let nonzero = throw_if-eq-ok (sum ==ℤ pos 0) default_invalid h4 in
      let (g1, k1) = or-false (not (is_requested job.state)) _ g in
      let (g2, _) = or-false (not (is_nonzero_hash (some event.flare_transaction_hash))) _ k1 in
      let (_, k4) = or-false (not (is_uint event.request_id max_uint64)) _ g' in
      let (_, k5) = or-false (not (is_uint event.redemption_amount max_uint256)) _ k4 in
      let (g3, g4) = or-false (not (is_uint event.vault_collateral max_uint256)) _ k5 in
      (
        requested_only job.state (not-false _ g1),
        not-false _ g2,
        not-false _ g3,
        not-false _ g4,
        (sum, added, nonzero),
      )

  -- What is left of an acceptance once the event has passed its own tests.
  abbrev settles :
      RedemptionJob
      → ℤ
      → Text
      → ℤ
      → Error
      → Result Text
      → Result Text
      → List Text
      → (Text → RedemptionLeg → RedemptionLeg)
      → Result RedemptionJob
  settles job id vault amount drift hashed verified used new = do
    leg ← find_open_leg V job id vault amount drift
    event_hash ← hashed
    commitment ← verified
    assert_redemption_job_integrity V job
    throw_if (is_replayed used job.requests commitment) (thrown "redemption event replay")
    again ← hashed
    throw_if (not (same_hex again event_hash)) drift
    settle_leg V job id (new commitment leg)

  settles-IsSettlement :
      (job : RedemptionJob) (id : ℤ) (vault : Text) (amount : ℤ) (drift : Error)
      (hashed verified : Result Text) (used : List Text)
      (new : Text → RedemptionLeg → RedemptionLeg) (s : RedemptionLegState) (j : RedemptionJob)
      → IsIntact V job
      → job.state ≡ requested
      → is_pending s ≡ false
      → ((c : Text) (leg : RedemptionLeg)
          → verified ≡ ok c
          → Unsettled leg
          → IsSettled s c leg (new c leg))
      → settles job id vault amount drift hashed verified used new ≡ ok j
      → (c : Text) × IsSettlement V job id s c j
        × (verified ≡ ok c)
        × (is_replayed used job.requests c ≡ false)
  settles-IsSettlement job id vault amount drift hashed verified used new s j i st closed settled
        h =
      let (leg, there, h1) = >>=-eq-ok (find_open_leg V job id vault amount drift) _ h in
      let (hash, _, h2) = >>=-eq-ok hashed _ h1 in
      let (c, proved, h3) = >>=-eq-ok verified _ h2 in
      let (u, _, h4) = >>=-eq-ok (assert_redemption_job_integrity V job) _ h3 in
      let (unused, h5) =
        throw_if_then (is_replayed used job.requests c) (thrown "redemption event replay") _ h4 in
      let (again, _, h6) = >>=-eq-ok hashed _ h5 in
      let (_, h7) =
        throw_if_then (not (same_hex again hash)) drift (settle_leg V job id (new c leg)) h6 in
      let (at, waiting) = find_open_leg_sound V job id vault amount drift leg there in
      let n = settled c leg proved (leg-Unsettled V job id leg i at waiting) in
      (
        c,
        settle_leg-IsSettlement V job id s (new c leg) leg c used j i st at waiting n.same n.state
            closed n.proof
            (subst (λ x. check_settlement x (new c leg) ≡ ok tt) (sym n.state) n.checked) unused h7,
        proved,
        unused,
      )

  pub accept_redemption_performed-IsSettlement :
      (job : RedemptionJob) (event : PerformedEvent)
      (verifier : Option (EventVerifier PerformedEvent)) (used : List Text) (j : RedemptionJob)
      → accept_redemption_performed V job event verifier used ≡ ok j
      → (c : Text) × IsSettlement V job event.request_id underlying_paid c j
        × (verify_settlement_event event verifier used ≡ ok c)
        × (is_replayed used job.requests c ≡ false)
  unfolding accept_redemption_performed
  accept_redemption_performed-IsSettlement job event verifier used j h =
      let (_, intact, h1) = >>=-eq-ok (assert_redemption_job_integrity V job) _ h in
      let (u, checked, h2) = >>=-eq-ok (check_performed V job event) _ h1 in
      let (st, a, b, spent) = check_performed_sound job event u checked in
      settles-IsSettlement job event.request_id event.agent_vault event.redemption_amount
        performed_drift (performed_event_hash V event) (verify_settlement_event event verifier used)
        used (paid_leg event) underlying_paid j (assert_sound V job intact) st refl
        (λ c leg proved e.
          paid_leg-IsSettled event c leg a b (verified-nonzero event verifier used c proved) spent
            e)
        h2

  pub accept_redemption_default-IsSettlement :
      (job : RedemptionJob) (event : DefaultEvent) (verifier : Option (EventVerifier DefaultEvent))
      (used : List Text) (j : RedemptionJob)
      → accept_redemption_default V job event verifier used ≡ ok j
      → (c : Text) × IsSettlement V job event.request_id collateral_default c j
        × (verify_settlement_event event verifier used ≡ ok c)
        × (is_replayed used job.requests c ≡ false)
  unfolding accept_redemption_default
  accept_redemption_default-IsSettlement job event verifier used j h =
      let (_, intact, h1) = >>=-eq-ok (assert_redemption_job_integrity V job) _ h in
      let (u, checked, h2) = >>=-eq-ok (check_default V job event) _ h1 in
      let (st, a, vault, pool, (sum, added, nonzero)) = check_default_sound job event u checked in
      settles-IsSettlement job event.request_id event.agent_vault event.redemption_amount
        default_drift (default_event_hash V event) (verify_settlement_event event verifier used)
        used (defaulted_leg event) collateral_default j (assert_sound V job intact) st refl
        (λ c leg proved e.
          defaulted_leg-IsSettled event c leg sum a (verified-nonzero event verifier used c proved)
            vault pool added nonzero e)
        h2
