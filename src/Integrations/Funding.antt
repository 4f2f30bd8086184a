-- ===== src/Integrations/Funding.antt =====
-- packages/integrations/src/funding.ts: the funding job of a smart account, from the expected payment
-- to the direct mint. `keccak256(new TextEncoder().encode(text))` is the digest of the text's UTF-8
-- bytes, which `stringToHex` spells.
pub mod Integrity
pub mod Hashes
pub mod Step
pub mod Laws
pub mod Transitions
pub mod Life
use Prim.Native.String.{String}
use xrp_payguard.Base.{
  ℕ, Bool, true, false, ◌||◌, ◌&&◌, not, same_bool, is_some, List, [], ◌∷◌, Option, none, some,
  if◌then◌else◌,
}
use xrp_payguard.Base.Int.{ℤ, pos, ltb_ℤ, leb_ℤ, ◌==ℤ◌, max_uint256, max_uint64}
use xrp_payguard.Text.{
  Text, codes, text_eq, same_hex, to_lower_case, is_hex32, zero_bytes32, zero_address,
}
use xrp_payguard.Failure.{Result, ok, err, Error, thrown, ◌>>=◌, ◌>>◌, throw_if}
use xrp_payguard.Viem.{Viem, AbiType, AbiValue, number, hex}
use xrp_payguard.Protocol.Codec.Encoding.{hash_values}
use xrp_payguard.Integrations.Fdc.{
  Network, testnet, mainnet, ExpectedXrplPayment, XrplPaymentProof, same_network, same_address,
  matches_expected_xrpl_payment, verify_xrpl_payment_proof, FdcProofVerifier, verified, refused,
}

pub data FundingState : Type 0 where
  created payment_observed fdc_requested proof_ready direct_minted delayed failed : FundingState

abbrev pub funding_state_code : FundingState → ℤ
funding_state_code created = pos 0
funding_state_code payment_observed = pos 1
funding_state_code fdc_requested = pos 2
funding_state_code proof_ready = pos 3
funding_state_code direct_minted = pos 4
funding_state_code delayed = pos 5
funding_state_code failed = pos 6

-- `FundingJobInput`.
pub record FundingInput : Type 0 where
  pub job_id : Text
  pub owner : Text
  pub personal_account : Text
  pub destination : Text
  pub asset : Text
  pub amount : ℤ
  pub executor_fee : ℤ
  pub nonce : ℤ
  pub memo_hash : Text
  pub expected_payment : ExpectedXrplPayment

-- `SmartAccountFundingJob`, whose first fields are those of its input.
pub record FundingJob : Type 0 where
  pub input : FundingInput
  pub operation_hash : Text
  pub expected_payment_hash : Text
  pub checkpoint_hash : Text
  pub state : FundingState
  pub fdc_request_id : Option Text
  pub proof_commitment : Option Text
  pub execution_allowed_at : Option ℤ
  pub mint_transaction_hash : Option Text

unfoldable pub is_nonzero_hex32 : Option Text → Bool
is_nonzero_hex32 none = false
is_nonzero_hex32 (some t) = is_hex32 t && not (text_eq (to_lower_case t) zero_bytes32)

unfoldable pub out_of_uint256 : ℤ → Bool
out_of_uint256 n = ltb_ℤ n (pos 0) || ltb_ℤ max_uint256 n

abbrev pub requires_fdc_request : FundingState → Bool
requires_fdc_request fdc_requested = true
requires_fdc_request proof_ready = true
requires_fdc_request delayed = true
requires_fdc_request direct_minted = true
requires_fdc_request _ = false

abbrev pub requires_proof : FundingState → Bool
requires_proof proof_ready = true
requires_proof delayed = true
requires_proof direct_minted = true
requires_proof _ = false

abbrev pub is_delayed : FundingState → Bool
is_delayed delayed = true
is_delayed _ = false

abbrev pub is_minted : FundingState → Bool
is_minted direct_minted = true
is_minted _ = false

abbrev pub drift : Error
drift = thrown "funding job drift"

-- The fields that a state needs are there, and no other.
unfoldable pub has_other_fields : FundingJob → Bool
has_other_fields job =
    not (same_bool (requires_fdc_request job.state) (is_nonzero_hex32 job.fdc_request_id))
    || (not (same_bool (requires_proof job.state) (is_nonzero_hex32 job.proof_commitment))
        || (not (same_bool (is_delayed job.state) (is_some job.execution_allowed_at))
            || not (same_bool (is_minted job.state) (is_nonzero_hex32 job.mint_transaction_hash))))

unfoldable pub is_misshapen : FundingJob → Bool
is_misshapen job =
    not (is_nonzero_hex32 (some job.input.job_id))
    || (not (is_hex32 job.operation_hash)
        || (not (is_hex32 job.expected_payment_hash) || not (is_hex32 job.checkpoint_hash)))

module _ (V : Viem) where
  -- `!isAddress(address) || getAddress(address) === zeroAddress`
  unfoldable pub is_refused_address : Text → Result Bool
  is_refused_address a =
      if not (V.is_address a)
      then ok true
      else (do checksummed ← V.get_address a; ok (text_eq checksummed zero_address))
