-- ===== src/Integrations/Funding/Step.antt =====
-- packages/integrations/src/funding.ts, lines 140 to 198: the operations that take a funding job from
-- one state to the next.
use xrp_payguard.Base.{Bool, true, false, ◌||◌, not, [], ◌∷◌, Option, none, some}
use xrp_payguard.Base.Int.{ℤ, pos, ltb_ℤ, ◌==ℤ◌, max_uint64}
use xrp_payguard.Text.{Text, codes, text_eq, same_hex}
use xrp_payguard.Failure.{Result, ok, err, Error, thrown, ◌>>=◌, ◌>>◌, throw_if}
use xrp_payguard.Viem.{Viem}
use xrp_payguard.Integrations.Fdc.{
  ExpectedXrplPayment, XrplPaymentProof, same_network, same_address, matches_expected_xrpl_payment,
  verify_xrpl_payment_proof, FdcProofVerifier, FdcVerification, verified, refused,
}
use xrp_payguard.Integrations.Funding.{
  FundingState, created, payment_observed, fdc_requested, proof_ready, direct_minted, delayed,
  FundingJob, is_nonzero_hex32,
}
use xrp_payguard.Integrations.Funding.Hashes.{checkpoint_funding_job}
use xrp_payguard.Integrations.Funding.Integrity.{assert_funding_job_integrity}

-- `job.state !== state`
unfoldable pub is_not_in : FundingState → FundingState → Bool
is_not_in created created = false
is_not_in payment_observed payment_observed = false
is_not_in fdc_requested fdc_requested = false
is_not_in proof_ready proof_ready = false
is_not_in direct_minted direct_minted = false
is_not_in delayed delayed = false
is_not_in FundingState.failed FundingState.failed = false
is_not_in _ _ = true

pub record XrplObservation : Type 0 where
  pub payment : ExpectedXrplPayment
  pub validated : Bool
  pub result : Text
  pub ledger_index : ℤ

pub record DirectMintReceipt : Type 0 where
  pub transaction_hash : Text
  pub operation_hash : Text
  pub owner : Text
  pub personal_account : Text
  pub destination : Text
  pub asset : Text
  pub amount : ℤ
  pub executor_fee : ℤ
  pub nonce : ℤ

-- What the mint client answers; `unknown` is any other status.
pub data MintOutcome : Type 0 where
  minted : DirectMintReceipt → MintOutcome
  postponed : Text → ℤ → MintOutcome
  unknown : MintOutcome

abbrev pub DirectMintClient : Type 0
DirectMintClient = FundingJob → XrplPaymentProof → Result MintOutcome

abbrev pub mismatch : Error
mismatch = thrown "XRPL payment mismatch"

-- The commitment of a verification that succeeded.
unfoldable pub accepted_commitment : FdcVerification → Result Text
accepted_commitment (refused _) = err (thrown "FDC proof rejected")
accepted_commitment (verified commitment) = do
  throw_if (not (is_nonzero_hex32 (some commitment))) (thrown "FDC proof rejected: PROOF_INVALID")
  ok commitment

abbrev pub receipt_drift : Error
receipt_drift = thrown "direct mint receipt drift"

-- `!job.proofCommitment || proof.responseCommitment… !== …` where the commitment is there.
unfoldable pub is_other_commitment : Option Text → Text → Bool
is_other_commitment none response = true
is_other_commitment (some []) response = true
is_other_commitment (some (c ∷ t)) response = not (same_hex response (c ∷ t))

unfoldable pub is_not_resumable : Option ℤ → ℤ → Bool
is_not_resumable none now = true
is_not_resumable (some allowed_at) now =
    ltb_ℤ now (pos 0) || (ltb_ℤ max_uint64 now || ltb_ℤ now allowed_at)

module _ (V : Viem) where
  unfoldable pub check_address : Text → Text → Error → Result (Unit {0})
  check_address a b e = do same ← same_address V a b; throw_if (not same) e

  unfoldable pub observe_xrpl_payment : FundingJob → XrplObservation → Result FundingJob
  observe_xrpl_payment job o = do
    assert_funding_job_integrity V job
    throw_if (is_not_in job.state created) (thrown "payment checkpoint is not expected")
    throw_if
        (not o.validated
          || (not (text_eq o.result (codes "tesSUCCESS"))
              || (not (same_network o.payment.network job.input.expected_payment.network)
                  || (not (same_hex o.payment.source_id job.input.expected_payment.source_id)
                      || (not (same_hex o.payment.tx_hash job.input.expected_payment.tx_hash)
                          || not (text_eq o.payment.source job.input.expected_payment.source))))))
        mismatch
    check_address o.payment.proof_owner job.input.expected_payment.proof_owner mismatch
    check_address o.payment.destination job.input.expected_payment.destination mismatch
    throw_if
        (not (o.payment.amount_drops ==ℤ job.input.expected_payment.amount_drops)
          || (not (same_hex o.payment.memo_hash job.input.expected_payment.memo_hash)
              || ltb_ℤ o.ledger_index job.input.expected_payment.min_ledger_index))
        mismatch
    checkpoint_funding_job V (record job { state = payment_observed })

  unfoldable pub mark_fdc_requested : FundingJob → Text → Result FundingJob
  mark_fdc_requested job request_id = do
    assert_funding_job_integrity V job
    throw_if (is_not_in job.state payment_observed || not (is_nonzero_hex32 (some request_id)))
        (thrown "FDC request checkpoint invalid")
    checkpoint_funding_job V
        (record job { state = fdc_requested; fdc_request_id = some request_id })

  unfoldable pub accept_fdc_proof :
      FundingJob → XrplPaymentProof → Option FdcProofVerifier → Result FundingJob
  accept_fdc_proof job proof verifier = do
    assert_funding_job_integrity V job
    throw_if (is_not_in job.state fdc_requested) (thrown "FDC proof is not expected")
    verification ← verify_xrpl_payment_proof V proof job.input.expected_payment verifier []
    commitment ← accepted_commitment verification
    checkpoint_funding_job V
        (record job { state = proof_ready; proof_commitment = some commitment })

  unfoldable pub check_receipt : FundingJob → DirectMintReceipt → Result (Unit {0})
  check_receipt job r = do
    throw_if
        (not (is_nonzero_hex32 (some r.transaction_hash))
          || not (same_hex r.operation_hash job.operation_hash))
        receipt_drift
    check_address r.owner job.input.owner receipt_drift
    check_address r.personal_account job.input.personal_account receipt_drift
    check_address r.destination job.input.destination receipt_drift
    check_address r.asset job.input.asset receipt_drift
    throw_if
        (not (r.amount ==ℤ job.input.amount)
          || (not (r.executor_fee ==ℤ job.input.executor_fee) || not (r.nonce ==ℤ job.input.nonce)))
        receipt_drift

  unfoldable pub settle_mint : FundingJob → MintOutcome → Result FundingJob
  settle_mint job (minted r) = do
    check_receipt job r
    checkpoint_funding_job V
        (record job { state = direct_minted; mint_transaction_hash = some r.transaction_hash })
  settle_mint job (postponed operation_hash allowed_at) = do
    throw_if
        (not (same_hex operation_hash job.operation_hash)
          || (ltb_ℤ allowed_at (pos 0) || ltb_ℤ max_uint64 allowed_at))
        (thrown "unknown direct mint outcome")
    checkpoint_funding_job V
        (record job { state = delayed; execution_allowed_at = some allowed_at })
  settle_mint job unknown = err (thrown "unknown direct mint outcome")

  unfoldable pub execute_with : FundingJob → XrplPaymentProof → DirectMintClient → Result FundingJob
  execute_with job proof client = do
    throw_if
        (is_other_commitment job.proof_commitment proof.response_commitment || not proof.finalized)
        (thrown "direct mint proof drift")
    matches ← matches_expected_xrpl_payment V proof job.input.expected_payment
    throw_if (not matches) (thrown "direct mint proof drift")
    outcome ← client job proof
    settle_mint job outcome

  unfoldable pub execute_direct_mint :
      FundingJob → XrplPaymentProof → Option DirectMintClient → Result FundingJob
  execute_direct_mint job proof client = do
    assert_funding_job_integrity V job
    throw_if (is_not_in job.state proof_ready) (thrown "direct mint unavailable")
    elim client [
      | none ↦ err (thrown "direct mint unavailable")
      | some c ↦ execute_with job proof c
    ]

  unfoldable pub resume_delayed : FundingJob → ℤ → Result FundingJob
  resume_delayed job now = do
    assert_funding_job_integrity V job
    throw_if (is_not_in job.state delayed || is_not_resumable job.execution_allowed_at now)
        (thrown "direct mint is not resumable")
    checkpoint_funding_job V (record job { state = proof_ready; execution_allowed_at = none })
