-- ===== src/Integrations/Funding/Integrity.antt =====
-- packages/integrations/src/funding.ts: a job's creation, and the check of its integrity.
use xrp_payguard.Base.{Bool, ◌||◌, not, [], none, some}
use xrp_payguard.Base.Int.{◌==ℤ◌}
use xrp_payguard.Text.{same_hex, is_hex32}
use xrp_payguard.Failure.{Result, thrown, ◌>>=◌, ◌>>◌, throw_if}
use xrp_payguard.Viem.{Viem}
use xrp_payguard.Integrations.Fdc.{same_address}
use xrp_payguard.Integrations.Funding.{
  created, FundingInput, FundingJob, is_nonzero_hex32, drift, has_other_fields, is_misshapen,
}
use xrp_payguard.Integrations.Funding.Hashes.{
  build_payment_expectation_hash, build_funding_checkpoint_hash, checkpoint_funding_job,
  build_operation_hash,
}

-- The amount and the memo of the expected payment are those of the job.
unfoldable pub is_other_payment : FundingInput → Bool
is_other_payment i =
    not (i.expected_payment.amount_drops ==ℤ i.amount)
    || not (same_hex i.expected_payment.memo_hash i.memo_hash)

module _ (V : Viem) where
  unfoldable pub create_funding_job : FundingInput → Result FundingJob
  create_funding_job i = do
    throw_if
        (not (is_nonzero_hex32 (some i.job_id))
          || (not (is_hex32 i.expected_payment.source_id)
              || (not (is_hex32 i.expected_payment.tx_hash)
                  || (not (is_hex32 i.expected_payment.memo_hash) || is_other_payment i))))
        (thrown "funding values invalid")
    same_destination ← same_address V i.expected_payment.destination i.destination
    throw_if (not same_destination) (thrown "funding values invalid")
    operation_hash ← build_operation_hash V i
    expected_payment_hash ← build_payment_expectation_hash V i.expected_payment
    checkpoint_funding_job V (record {
      input = i;
      operation_hash = operation_hash;
      expected_payment_hash = expected_payment_hash;
      checkpoint_hash = [];
      state = created;
      fdc_request_id = none;
      proof_commitment = none;
      execution_allowed_at = none;
      mint_transaction_hash = none;
    })

  unfoldable pub assert_funding_job_integrity : FundingJob → Result (Unit {0})
  assert_funding_job_integrity job = do
    throw_if (is_misshapen job) drift
    operation ← build_operation_hash V job.input
    throw_if (not (same_hex operation job.operation_hash)) drift
    expectation ← build_payment_expectation_hash V job.input.expected_payment
    throw_if (not (same_hex expectation job.expected_payment_hash)) drift
    checkpoint ← build_funding_checkpoint_hash V job
    throw_if (not (same_hex checkpoint job.checkpoint_hash) || is_other_payment job.input) drift
    same_destination ← same_address V job.input.expected_payment.destination job.input.destination
    throw_if (not same_destination || has_other_fields job) drift
