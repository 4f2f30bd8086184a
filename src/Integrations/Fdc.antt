-- ===== src/Integrations/Fdc.antt =====
-- packages/integrations/src/fdc.ts: a payment proof against the payment that was expected.
use xrp_payguard.Base.{
  Bool, true, false, ◌||◌, ◌&&◌, not, any, List, Option, none, some, if◌then◌else◌,
}
use xrp_payguard.Base.Int.{ℤ, pos, leb_ℤ, ◌==ℤ◌}
use xrp_payguard.Text.{Text, codes, text_eq, same_hex, to_lower_case, is_hex32, zero_address}
use xrp_payguard.Failure.{Result, ok, err, ◌>>=◌}
use xrp_payguard.Viem.{Viem}

pub data Network : Type 0 where
  testnet mainnet : Network

unfoldable pub same_network : Network → Network → Bool
same_network testnet testnet = true
same_network mainnet mainnet = true
same_network _ _ = false

pub record ExpectedXrplPayment : Type 0 where
  pub network : Network
  pub source_id : Text
  pub tx_hash : Text
  pub source : Text
  pub proof_owner : Text
  pub destination : Text
  pub amount_drops : ℤ
  pub memo_hash : Text
  pub min_ledger_index : ℤ

pub record XrplPaymentProof : Type 0 where
  pub attestation_type : Text
  pub source_id : Text
  pub response_commitment : Text
  pub voting_round : ℤ
  pub finalized : Bool
  pub network : Network
  pub tx_hash : Text
  pub source : Text
  pub proof_owner : Text
  pub destination : Text
  pub amount_drops : ℤ
  pub memo_hash : Text
  pub ledger_index : ℤ

pub data FdcFailure : Type 0 where
  attestation_type not_finalized source_mismatch payment_mismatch replay proof_invalid : FdcFailure
  verifier_unavailable : FdcFailure

pub data FdcVerification : Type 0 where
  verified : Text → FdcVerification
  refused : FdcFailure → FdcVerification

-- `verifier.verify(proof)`, which may reject.
abbrev pub FdcProofVerifier : Type 0
FdcProofVerifier = XrplPaymentProof → Result Bool

module _ (V : Viem) where
  -- `getAddress(a) === getAddress(b)`
  unfoldable pub same_address : Text → Text → Result Bool
  same_address a b = do first ← V.get_address a; second ← V.get_address b; ok (text_eq first second)

  -- `getAddress(a) !== "0x000…"`
  unfoldable pub is_nonzero_address : Text → Result Bool
  is_nonzero_address a = do
    checksummed ← V.get_address a
    ok (not (text_eq checksummed zero_address))

  unfoldable pub matches_expected_xrpl_payment :
      XrplPaymentProof → ExpectedXrplPayment → Result Bool
  matches_expected_xrpl_payment proof expected =
      if not (V.is_address proof.proof_owner && V.is_address expected.proof_owner)
      then ok false
      else (do
        owned ← is_nonzero_address proof.proof_owner
        expected_owned ← is_nonzero_address expected.proof_owner
        same_owner ← same_address proof.proof_owner expected.proof_owner
        if not (
              owned
              && (expected_owned
                  && (same_owner
                      && (same_network proof.network expected.network
                          && (same_hex proof.source_id expected.source_id
                              && (same_hex proof.tx_hash expected.tx_hash
                                  && text_eq proof.source expected.source))))))
            then ok false
            else (do
              same_destination ← same_address proof.destination expected.destination
              ok (
                  same_destination
                  && (proof.amount_drops ==ℤ expected.amount_drops
                      && (same_hex proof.memo_hash expected.memo_hash
                          && leb_ℤ expected.min_ledger_index proof.ledger_index)))))

  unfoldable pub is_malformed_proof : XrplPaymentProof → ExpectedXrplPayment → Bool
  is_malformed_proof proof expected =
      not (is_hex32 proof.source_id)
      || (not (is_hex32 proof.response_commitment)
          || (leb_ℤ proof.voting_round (pos 0)
              || (not (is_hex32 proof.tx_hash)
                  || (not (is_hex32 proof.memo_hash)
                      || (not (V.is_address proof.proof_owner)
                          || (not (V.is_address expected.proof_owner)
                              || (not (V.is_address proof.destination)
                                  || not (V.is_address expected.destination))))))))

  -- `verifier.verify(proof)` under `try`.
  unfoldable pub settle_verifier : XrplPaymentProof → Result Bool → FdcVerification
  settle_verifier proof (ok true) = verified proof.response_commitment
  settle_verifier proof (ok false) = refused proof_invalid
  settle_verifier proof (err _) = refused verifier_unavailable

  unfoldable pub verify_with :
      XrplPaymentProof → ExpectedXrplPayment → List Text → FdcProofVerifier → Result FdcVerification
  verify_with proof expected used verifier =
      if any (λ c. text_eq c (to_lower_case proof.response_commitment)) used
      then ok (refused replay)
      else if is_malformed_proof proof expected
      then ok (refused source_mismatch)
      else (do
        matches ← matches_expected_xrpl_payment proof expected
        if matches
            then ok (settle_verifier proof (verifier proof))
            else ok (refused payment_mismatch))

  unfoldable pub verify_xrpl_payment_proof :
      XrplPaymentProof
      → ExpectedXrplPayment
      → Option FdcProofVerifier
      → List Text
      → Result FdcVerification
  verify_xrpl_payment_proof proof expected verifier used =
      if not (text_eq proof.attestation_type (codes "XRPPayment"))
      then ok (refused attestation_type)
      else if not proof.finalized
      then ok (refused not_finalized)
      else elim verifier [
        | none ↦ ok (refused verifier_unavailable)
        | some v ↦ verify_with proof expected used v
      ]
