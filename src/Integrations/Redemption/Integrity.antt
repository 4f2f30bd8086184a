-- ===== src/Integrations/Redemption/Integrity.antt =====
-- packages/integrations/src/redemption.ts, lines 199 to 246: a job's creation, and the check of its
-- integrity. The loop over the legs carries the total and the three sets.
use xrp_payguard.Base.{
  ◌^◌, ◌-◌, Bool, true, false, ◌||◌, not, any, all, same_bool, is_some, List, [], ◌∷◌, Option, none,
  some,
}
use xrp_payguard.Base.Int.{ℤ, pos, negsuc, ltb_ℤ, leb_ℤ, ◌==ℤ◌}
use xrp_payguard.Text.{Text, text_eq, same_hex, to_lower_case}
use xrp_payguard.Failure.{Result, ok, err, Error, thrown, ◌>>=◌, ◌>>◌, throw_if}
use xrp_payguard.Viem.{Viem}
use xrp_payguard.Integrations.Redemption.{
  RedemptionJobState, created, requested, settled, RedemptionLegState, pending, underlying_paid,
  collateral_default, RedemptionIntent, LegRequest, RedemptionLeg, RedemptionJob,
}
use xrp_payguard.Integrations.Redemption.Checks.{
  is_nonzero_hash, is_uint, checked_add, validate_intent, validate_requested_leg,
}
use xrp_payguard.Integrations.Redemption.Hashes.{
  build_redemption_intent_hash, build_redemption_checkpoint_hash, checkpoint_redemption_job,
}

abbrev pub job_drift : Error
job_drift = thrown "redemption job drift"

-- `total`, `requestIds`, `paymentReferences` and `agentVaults`.
pub record Seen : Type 0 where
  pub total : ℤ
  pub request_ids : List ℤ
  pub payment_references : List Text
  pub agent_vaults : List Text

abbrev pub nothing_seen : Seen
nothing_seen = record {
  total = pos 0;
  request_ids = [];
  payment_references = [];
  agent_vaults = [];
}

unfoldable pub is_seen : Seen → ℤ → Text → Text → Bool
is_seen seen request_id payment_reference agent_vault =
    any (λ x. x ==ℤ request_id) seen.request_ids
    || (any (λ x. text_eq x payment_reference) seen.payment_references
        || any (λ x. text_eq x agent_vault) seen.agent_vaults)

abbrev pub is_pending : RedemptionLegState → Bool
is_pending pending = true
is_pending _ = false

-- `state === "SETTLED"` of legs of which some or none are left.
unfoldable pub state_of : List RedemptionLeg → RedemptionJobState
state_of [] = created
state_of (leg ∷ legs) = elim (all (λ l. not (is_pending l.state)) (leg ∷ legs)) [
  | true ↦ settled
  | false ↦ requested
]

unfoldable pub same_state : RedemptionJobState → RedemptionJobState → Bool
same_state created created = true
same_state requested requested = true
same_state settled settled = true
same_state _ _ = false

abbrev pub is_created : RedemptionJobState → Bool
is_created created = true
is_created _ = false

-- `isUint(value!)` of a value that may be missing.
unfoldable pub is_uint_there : Option ℤ → Bool
unfolding is_uint
is_uint_there none = false
is_uint_there (some n) = is_uint n (pos (2 ^ 256 - 1))

-- `spent === undefined`, or it is out of range.
unfoldable pub is_bad_spent : Option ℤ → Bool
is_bad_spent none = true
is_bad_spent (some n) =
    ltb_ℤ n (negsuc (2 ^ 255 - 1)) || (ltb_ℤ (pos (2 ^ 255 - 1)) n || leb_ℤ n (pos 0))

-- The sum of two collaterals that are there.
unfoldable pub add_there : Option ℤ → Option ℤ → Result ℤ
add_there (some a) (some b) = checked_add a b
add_there _ _ = err job_drift

unfoldable pub has_settlement : RedemptionLeg → Bool
has_settlement leg =
    is_some leg.flare_transaction_hash
    || (is_some leg.underlying_transaction_hash
        || (is_some leg.spent_underlying
            || (is_some leg.vault_collateral
                || (is_some leg.pool_collateral || is_some leg.settlement_proof))))

unfoldable pub is_bad_payment : RedemptionLeg → Bool
is_bad_payment leg =
    not (is_nonzero_hash leg.flare_transaction_hash)
    || (not (is_nonzero_hash leg.underlying_transaction_hash)
        || (not (is_nonzero_hash leg.settlement_proof)
            || (is_bad_spent leg.spent_underlying
                || (is_some leg.vault_collateral || is_some leg.pool_collateral))))

unfoldable pub is_bad_default : RedemptionLeg → Bool
is_bad_default leg =
    not (is_nonzero_hash leg.flare_transaction_hash)
    || (is_some leg.underlying_transaction_hash
        || (not (is_nonzero_hash leg.settlement_proof)
            || (is_some leg.spent_underlying
                || (not (is_uint_there leg.vault_collateral)
                    || not (is_uint_there leg.pool_collateral)))))

-- What a leg's state says of its fields.
unfoldable pub check_settlement : RedemptionLegState → RedemptionLeg → Result (Unit {0})
check_settlement underlying_paid leg = throw_if (is_bad_payment leg) job_drift
check_settlement collateral_default leg = do
  throw_if (is_bad_default leg) job_drift
  sum ← add_there leg.vault_collateral leg.pool_collateral
  throw_if (sum ==ℤ pos 0) job_drift
check_settlement pending leg = throw_if (has_settlement leg) job_drift

-- The amounts of a job that is no longer new.
unfoldable pub check_amounts : RedemptionIntent → ℤ → Option ℤ → Option ℤ → Result (Unit {0})
check_amounts intent total (some redeemed) (some remaining) = do
  throw_if (not (redeemed ==ℤ total)) job_drift
  sum ← checked_add redeemed remaining
  throw_if (not (sum ==ℤ intent.requested_amount)) job_drift
check_amounts intent total _ _ = err job_drift

unfoldable pub is_misstated : RedemptionJob → Bool
is_misstated job =
    not (same_state job.state (state_of job.requests))
    || (not (same_bool (is_created job.state) (not (is_some job.request_transaction_hash)))
        || (not (same_bool (is_created job.state) (not (is_some job.redeemed_amount)))
            || not (same_bool (is_created job.state) (not (is_some job.remaining_amount)))))

unfoldable pub check_totals : RedemptionJobState → RedemptionJob → ℤ → Result (Unit {0})
check_totals created job total = ok tt
check_totals _ job total = do
  throw_if (not (is_nonzero_hash job.request_transaction_hash)) job_drift
  check_amounts job.intent total job.redeemed_amount job.remaining_amount

module _ (V : Viem) where
  unfoldable pub visit : RedemptionIntent → Error → Seen → LegRequest → Result Seen
  visit job drift seen leg = do
    validate_requested_leg V job leg
    agent_vault ← V.get_address leg.agent_vault
    throw_if (is_seen seen leg.request_id (to_lower_case leg.payment_reference) agent_vault) drift
    total ← checked_add seen.total leg.value
    ok (record {
      total = total;
      request_ids = leg.request_id ∷ seen.request_ids;
      payment_references = to_lower_case leg.payment_reference ∷ seen.payment_references;
      agent_vaults = agent_vault ∷ seen.agent_vaults;
    })

  unfoldable pub check_legs : RedemptionIntent → Seen → List RedemptionLeg → Result Seen
  check_legs job seen [] = ok seen
  check_legs job seen (leg ∷ legs) = do
    next ← visit job job_drift seen leg.request
    check_settlement leg.state leg
    check_legs job next legs

  unfoldable pub create_redemption_job : RedemptionIntent → Result RedemptionJob
  create_redemption_job intent = do
    intent_hash ← build_redemption_intent_hash V intent
    checkpoint_redemption_job V (record {
      intent = intent;
      intent_hash = intent_hash;
      checkpoint_hash = [];
      state = created;
      request_transaction_hash = none;
      redeemed_amount = none;
      remaining_amount = none;
      requests = [];
    })

  unfoldable pub assert_redemption_job_integrity : RedemptionJob → Result (Unit {0})
  assert_redemption_job_integrity job = do
    validate_intent V job.intent
    seen ← check_legs job.intent nothing_seen job.requests
    intent_hash ← build_redemption_intent_hash V job.intent
    throw_if (not (same_hex intent_hash job.intent_hash)) job_drift
    checkpoint ← build_redemption_checkpoint_hash V job
    throw_if (not (same_hex checkpoint job.checkpoint_hash) || is_misstated job) job_drift
    check_totals job.state job seen.total
