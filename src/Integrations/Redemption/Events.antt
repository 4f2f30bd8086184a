-- ===== src/Integrations/Redemption/Events.antt =====
-- packages/integrations/src/redemption.ts, lines 58 to 78 and 287 to 322: the events that settle a leg, their
-- hashes, their tests and their verification.
use xrp_payguard.Base.{Bool, true, false, ◌||◌, not, any, List, [], ◌∷◌, Option, none, some}
use xrp_payguard.Base.Int.{ℤ, pos, ◌==ℤ◌, max_uint256, max_uint64}
use xrp_payguard.Text.{Text, text_eq, to_lower_case}
use xrp_payguard.Failure.{Result, ok, err, Error, thrown, ◌>>=◌, ◌>>◌, throw_if}
use xrp_payguard.Viem.{Viem, AbiType, number, hex}
use xrp_payguard.Protocol.Codec.Encoding.{hash_values}
use xrp_payguard.Integrations.Redemption.{RedemptionJobState, requested, RedemptionJob}
use xrp_payguard.Integrations.Redemption.Checks.{
  is_nonzero_hash, is_uint, checked_add, require_same,
}
use xrp_payguard.Integrations.Redemption.Hashes.{text_digest}
use xrp_payguard.Integrations.Redemption.Integrity.{is_bad_spent}

pub record PerformedEvent : Type 0 where
  pub flare_transaction_hash : Text
  pub agent_vault : Text
  pub redeemer : Text
  pub request_id : ℤ
  pub transaction_hash : Text
  pub redemption_amount : ℤ
  pub spent_underlying : ℤ

pub record DefaultEvent : Type 0 where
  pub flare_transaction_hash : Text
  pub agent_vault : Text
  pub redeemer : Text
  pub request_id : ℤ
  pub redemption_amount : ℤ
  pub vault_collateral : ℤ
  pub pool_collateral : ℤ

-- A verifier's answer is a commitment, or `false`.
abbrev pub EventVerifier : Type 0 → Type 0
EventVerifier E = E → Result (Option Text)

abbrev pub performed_invalid : Error
performed_invalid = thrown "redemption performed event invalid"

abbrev pub performed_drift : Error
performed_drift = thrown "redemption performed event drift"

abbrev pub default_invalid : Error
default_invalid = thrown "redemption default event invalid"

abbrev pub default_drift : Error
default_drift = thrown "redemption default event drift"

abbrev pub is_requested : RedemptionJobState → Bool
is_requested requested = true
is_requested _ = false

unfoldable pub checked_commitment : List Text → Option Text → Result Text
checked_commitment used commitment = elim commitment [
  | none ↦ err (thrown "redemption event proof invalid")
  | some c ↦ (do
    throw_if (not (is_nonzero_hash (some c))) (thrown "redemption event proof invalid")
    throw_if (any (λ u. text_eq u (to_lower_case c)) used) (thrown "redemption event replay")
    ok c)
]

unfoldable pub answer_of : Result (Option Text) → Result (Option Text)
answer_of (ok a) = ok a
answer_of (err _) = err (thrown "redemption event verifier unavailable")

unfoldable pub verify_settlement_event :
    {E : Type 0} → E → Option (EventVerifier E) → List Text → Result Text
verify_settlement_event event none used = err (thrown "redemption event verifier unavailable")
verify_settlement_event event (some verify) used = do
  answer ← answer_of (verify event)
  checked_commitment used answer

module _ (V : Viem) where
  unfoldable pub performed_event_hash : PerformedEvent → Result Text
  unfolding text_digest
  performed_event_hash event = do
    agent_vault ← V.get_address event.agent_vault
    redeemer ← V.get_address event.redeemer
    hash_values V
        (AbiType.bytes32
          ∷ AbiType.bytes32
          ∷ AbiType.address
          ∷ AbiType.address
          ∷ AbiType.uint 64
          ∷ AbiType.bytes32
          ∷ AbiType.uint 256
          ∷ AbiType.int 256
          ∷ [])
        (hex (text_digest V "PAYGUARD_REDEMPTION_PERFORMED_EVENT_V1")
          ∷ hex event.flare_transaction_hash
          ∷ hex agent_vault
          ∷ hex redeemer
          ∷ number event.request_id
          ∷ hex event.transaction_hash
          ∷ number event.redemption_amount
          ∷ number event.spent_underlying
          ∷ [])

  unfoldable pub default_event_hash : DefaultEvent → Result Text
  unfolding text_digest
  default_event_hash event = do
    agent_vault ← V.get_address event.agent_vault
    redeemer ← V.get_address event.redeemer
    hash_values V
        (AbiType.bytes32
          ∷ AbiType.bytes32
          ∷ AbiType.address
          ∷ AbiType.address
          ∷ AbiType.uint 64
          ∷ AbiType.uint 256
          ∷ AbiType.uint 256
          ∷ AbiType.uint 256
          ∷ [])
        (hex (text_digest V "PAYGUARD_REDEMPTION_DEFAULT_EVENT_V1")
          ∷ hex event.flare_transaction_hash
          ∷ hex agent_vault
          ∷ hex redeemer
          ∷ number event.request_id
          ∷ number event.redemption_amount
          ∷ number event.vault_collateral
          ∷ number event.pool_collateral
          ∷ [])

  -- The test of the addresses is the code's, whose errors are one.
  unfoldable pub check_performed : RedemptionJob → PerformedEvent → Result (Unit {0})
  check_performed job event = do
    throw_if
        (not (is_requested job.state)
          || (not (is_nonzero_hash (some event.flare_transaction_hash))
              || (not (is_nonzero_hash (some event.transaction_hash))
                  || (not (V.is_address event.agent_vault) || not (V.is_address event.redeemer)))))
        performed_invalid
    require_same V event.redeemer job.intent.redeemer performed_invalid
    throw_if
        (not (is_uint event.request_id max_uint64)
          || (not (is_uint event.redemption_amount max_uint256)
              || is_bad_spent (some event.spent_underlying)))
        performed_invalid

  unfoldable pub check_default : RedemptionJob → DefaultEvent → Result (Unit {0})
  check_default job event = do
    throw_if
        (not (is_requested job.state)
          || (not (is_nonzero_hash (some event.flare_transaction_hash))
              || (not (V.is_address event.agent_vault) || not (V.is_address event.redeemer))))
        default_invalid
    require_same V event.redeemer job.intent.redeemer default_invalid
    throw_if
        (not (is_uint event.request_id max_uint64)
          || (not (is_uint event.redemption_amount max_uint256)
              || (not (is_uint event.vault_collateral max_uint256)
                  || not (is_uint event.pool_collateral max_uint256))))
        default_invalid
    sum ← checked_add event.vault_collateral event.pool_collateral
    throw_if (sum ==ℤ pos 0) default_invalid
