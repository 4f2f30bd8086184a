-- ===== src/Integrations/Redemption/Sending.antt =====
-- packages/integrations/src/redemption.ts, lines 253 to 285: the request of a redemption. A job is a value, so
-- a second check of it after a call answers as the first did; it is kept.
use xrp_payguard.Base.{◌||◌, not, length, ltb, ◌==◌, List, [], ◌∷◌, map, Option, none, some}
use xrp_payguard.Base.Int.{ℤ, pos, leb_ℤ, ◌==ℤ◌, max_uint256}
use xrp_payguard.Text.{Text}
use xrp_payguard.Failure.{Result, ok, err, Error, thrown, ◌>>=◌, ◌>>◌, throw_if}
use xrp_payguard.Viem.{Viem}
use xrp_payguard.Integrations.Redemption.{
  requested, pending, RedemptionIntent, LegRequest, RedemptionLeg, RedemptionJob,
}
use xrp_payguard.Integrations.Redemption.Checks.{
  is_nonzero_hash, is_uint, checked_add, require_same,
}
use xrp_payguard.Integrations.Redemption.Hashes.{checkpoint_redemption_job}
use xrp_payguard.Integrations.Redemption.Integrity.{
  Seen, nothing_seen, is_created, visit, assert_redemption_job_integrity,
}

pub record RedemptionReceipt : Type 0 where
  pub transaction_hash : Text
  pub asset_manager : Text
  pub f_asset : Text
  pub redeemer : Text
  pub requested_amount : ℤ
  pub redeemed_amount : ℤ
  pub remaining_amount : ℤ
  pub requests : List LegRequest

abbrev pub RedemptionClient : Type 0
RedemptionClient = RedemptionJob → Result RedemptionReceipt

abbrev pub receipt_drift : Error
receipt_drift = thrown "redemption receipt drift"

-- `{ ...request, state: "REQUESTED" }`
abbrev pub open_leg : LegRequest → RedemptionLeg
open_leg request = record {
  request = request;
  state = pending;
  flare_transaction_hash = none;
  underlying_transaction_hash = none;
  spent_underlying = none;
  vault_collateral = none;
  pool_collateral = none;
  settlement_proof = none;
}

module _ (V : Viem) where
  unfoldable pub visit_all : RedemptionIntent → Seen → List LegRequest → Result Seen
  visit_all job seen [] = ok seen
  visit_all job seen (leg ∷ legs) = do
    next ← visit V job receipt_drift seen leg
    visit_all job next legs

  -- `!isAddress(a) || getAddress(a) !== getAddress(b)`
  unfoldable pub check_same : Text → Text → Error → Result (Unit {0})
  check_same a b e = do throw_if (not (V.is_address a)) e; require_same V a b e

  unfoldable pub request_with : RedemptionJob → RedemptionClient → Result RedemptionJob
  request_with job client = do
    receipt ← client job
    assert_redemption_job_integrity V job
    throw_if (not (is_nonzero_hash (some receipt.transaction_hash))) receipt_drift
    check_same receipt.asset_manager job.intent.asset_manager receipt_drift
    check_same receipt.f_asset job.intent.f_asset receipt_drift
    check_same receipt.redeemer job.intent.redeemer receipt_drift
    throw_if
        (not (receipt.requested_amount ==ℤ job.intent.requested_amount)
          || (leb_ℤ receipt.redeemed_amount (pos 0)
              || (not (is_uint receipt.redeemed_amount max_uint256)
                  || not (is_uint receipt.remaining_amount max_uint256))))
        receipt_drift
    sum ← checked_add receipt.redeemed_amount receipt.remaining_amount
    throw_if
        (not (sum ==ℤ job.intent.requested_amount)
          || (length receipt.requests == 0 || ltb 256 (length receipt.requests)))
        receipt_drift
    seen ← visit_all job.intent nothing_seen receipt.requests
    throw_if (not (seen.total ==ℤ receipt.redeemed_amount)) receipt_drift
    checkpoint_redemption_job V (record job {
      state = requested;
      request_transaction_hash = some receipt.transaction_hash;
      redeemed_amount = some receipt.redeemed_amount;
      remaining_amount = some receipt.remaining_amount;
      requests = map open_leg receipt.requests;
    })

  unfoldable pub request_redemption : RedemptionJob → Option RedemptionClient → Result RedemptionJob
  request_redemption job client = do
    assert_redemption_job_integrity V job
    throw_if (not (is_created job.state)) (thrown "redemption client unavailable")
    elim client [
      | none ↦ err (thrown "redemption client unavailable")
      | some c ↦ request_with job c
    ]
