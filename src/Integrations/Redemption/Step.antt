-- ===== src/Integrations/Redemption/Step.antt =====
-- packages/integrations/src/redemption.ts, lines 324 to 390: the settlement of a leg, and the outcome. A job is
-- a value, so a second check of it after a call answers as the first did; it is kept.
use xrp_payguard.Base.{
  ℕ, suc, Bool, true, false, ◌||◌, not, any, all, length, ◌==◌, List, [], ◌∷◌, Option, none, some,
  if◌then◌else◌,
}
use xrp_payguard.Base.Int.{ℤ, ◌==ℤ◌}
use xrp_payguard.Text.{Text, text_eq, same_hex, to_lower_case}
use xrp_payguard.Failure.{Result, ok, err, Error, thrown, ◌>>=◌, ◌>>◌, throw_if}
use xrp_payguard.Viem.{Viem}
use xrp_payguard.Integrations.Redemption.{
  RedemptionJobState, created, requested, settled, underlying_paid, collateral_default,
  RedemptionOutcome, not_requested, still_pending, all_paid, all_defaulted, mixed, RedemptionLeg,
  RedemptionJob,
}
use xrp_payguard.Integrations.Redemption.Checks.{require_same}
use xrp_payguard.Integrations.Redemption.Hashes.{checkpoint_redemption_job}
use xrp_payguard.Integrations.Redemption.Integrity.{is_pending, assert_redemption_job_integrity}
use xrp_payguard.Integrations.Redemption.Events.{
  PerformedEvent, DefaultEvent, EventVerifier, performed_drift, default_drift,
  verify_settlement_event, performed_event_hash, default_event_hash, check_performed, check_default,
}

-- `job.requests[job.requests.findIndex(…)]`
unfoldable pub find_leg : ℤ → List RedemptionLeg → Option RedemptionLeg
find_leg id [] = none
find_leg id (leg ∷ legs) = if leg.request.request_id ==ℤ id then some leg else find_leg id legs

-- The legs with the one that `find_leg` finds replaced.
unfoldable pub set_leg : ℤ → RedemptionLeg → List RedemptionLeg → List RedemptionLeg
set_leg id new [] = []
set_leg id new (leg ∷ legs) =
    if leg.request.request_id ==ℤ id then new ∷ legs else leg ∷ set_leg id new legs

unfoldable pub is_used_by : Text → RedemptionLeg → Bool
is_used_by commitment leg = elim leg.settlement_proof [
  | none ↦ false
  | some c ↦ same_hex c commitment
]

-- The sets of used commitments hold lower case.
unfoldable pub is_replayed : List Text → List RedemptionLeg → Text → Bool
is_replayed used legs commitment =
    any (λ c. text_eq c (to_lower_case commitment)) used || any (is_used_by commitment) legs

abbrev pub settled_or_requested : List RedemptionLeg → RedemptionJobState
settled_or_requested legs = elim (all (λ l. not (is_pending l.state)) legs) [
  | true ↦ settled
  | false ↦ requested
]

unfoldable pub paid_leg : PerformedEvent → Text → RedemptionLeg → RedemptionLeg
paid_leg event commitment leg = record leg {
  state = underlying_paid;
  flare_transaction_hash = some event.flare_transaction_hash;
  underlying_transaction_hash = some event.transaction_hash;
  spent_underlying = some event.spent_underlying;
  settlement_proof = some commitment;
}

unfoldable pub defaulted_leg : DefaultEvent → Text → RedemptionLeg → RedemptionLeg
defaulted_leg event commitment leg = record leg {
  state = collateral_default;
  flare_transaction_hash = some event.flare_transaction_hash;
  vault_collateral = some event.vault_collateral;
  pool_collateral = some event.pool_collateral;
  settlement_proof = some commitment;
}

unfoldable pub count_paid : List RedemptionLeg → ℕ
count_paid [] = 0
count_paid (leg ∷ legs) = elim leg.state [
  | underlying_paid ↦ suc (count_paid legs)
  | _ ↦ count_paid legs
]

-- What the counts of a settled job say.
unfoldable pub settled_outcome : ℕ → ℕ → RedemptionOutcome
settled_outcome paid legs =
    if paid == legs then all_paid else if paid == 0 then all_defaulted else mixed

unfoldable pub outcome_of : RedemptionJobState → List RedemptionLeg → RedemptionOutcome
outcome_of created legs = not_requested
outcome_of requested legs = still_pending
outcome_of settled legs = settled_outcome (count_paid legs) (length legs)

module _ (V : Viem) where
  -- The leg that an event is about, which is open, its vault's and its amount's.
  unfoldable pub find_open_leg : RedemptionJob → ℤ → Text → ℤ → Error → Result RedemptionLeg
  find_open_leg job id agent_vault amount drift = elim (find_leg id job.requests) [
    | none ↦ err drift
    | some leg ↦ (do
      throw_if (not (is_pending leg.state)) drift
      require_same V leg.request.agent_vault agent_vault drift
      throw_if (not (leg.request.value ==ℤ amount)) drift
      ok leg)
  ]

  -- The job with a leg settled.
  unfoldable pub settle_leg : RedemptionJob → ℤ → RedemptionLeg → Result RedemptionJob
  settle_leg job id new =
      let requests = set_leg id new job.requests in
      checkpoint_redemption_job V
        (record job { state = settled_or_requested requests; requests = requests })

  unfoldable pub accept_redemption_performed :
      RedemptionJob
      → PerformedEvent
      → Option (EventVerifier PerformedEvent)
      → List Text
      → Result RedemptionJob
  accept_redemption_performed job event verifier used = do
    assert_redemption_job_integrity V job
    check_performed V job event
    leg ←
        find_open_leg job event.request_id event.agent_vault event.redemption_amount performed_drift
    event_hash ← performed_event_hash V event
    commitment ← verify_settlement_event event verifier used
    assert_redemption_job_integrity V job
    throw_if (is_replayed used job.requests commitment) (thrown "redemption event replay")
    again ← performed_event_hash V event
    throw_if (not (same_hex again event_hash)) performed_drift
    settle_leg job event.request_id (paid_leg event commitment leg)

  unfoldable pub accept_redemption_default :
      RedemptionJob
      → DefaultEvent
      → Option (EventVerifier DefaultEvent)
      → List Text
      → Result RedemptionJob
  accept_redemption_default job event verifier used = do
    assert_redemption_job_integrity V job
    check_default V job event
    leg ← find_open_leg job event.request_id event.agent_vault event.redemption_amount default_drift
    event_hash ← default_event_hash V event
    commitment ← verify_settlement_event event verifier used
    assert_redemption_job_integrity V job
    throw_if (is_replayed used job.requests commitment) (thrown "redemption event replay")
    again ← default_event_hash V event
    throw_if (not (same_hex again event_hash)) default_drift
    settle_leg job event.request_id (defaulted_leg event commitment leg)

  unfoldable pub redemption_outcome : RedemptionJob → Result RedemptionOutcome
  redemption_outcome job = do
    assert_redemption_job_integrity V job
    ok (outcome_of job.state job.requests)
