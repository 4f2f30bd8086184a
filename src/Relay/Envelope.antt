-- ===== src/Relay/Envelope.antt =====
-- apps/relay/src/relay.ts, lines 259 to 281: `isValidEnvelope`.
pub mod Laws
use xrp_payguard.Base.{
  ℕ, Bool, true, false, ◌||◌, ◌&&◌, not, List, [], ◌∷◌, Option, none, some, if◌then◌else◌,
}
use xrp_payguard.Base.Int.{ℤ, ltb_ℤ, ◌==ℤ◌}
use xrp_payguard.Text.{Text, text_eq, same_hex, is_hex32, is_hex}
use xrp_payguard.Failure.{Result, ok, recover, ◌>>=◌}
use xrp_payguard.Viem.{Viem}
use xrp_payguard.Protocol.Types.{ActionRequest}
use xrp_payguard.Protocol.Codec.Digests.{
  action_request_hash, evaluation_digest, evaluation_attestation_digest,
}
use xrp_payguard.Relay.Types.{MachineDescriptor, EvaluationEnvelope}

-- `machines.find(…)`
unfoldable pub find_machine : Text → List MachineDescriptor → Option MachineDescriptor
find_machine id [] = none
find_machine id (m ∷ ms) = if same_hex m.machine_id id then some m else find_machine id ms

module _ (V : Viem) where
  unfoldable pub is_malformed_envelope : EvaluationEnvelope → Bool
  is_malformed_envelope e =
      not (is_hex32 e.digest)
      || (not (is_hex32 e.result.machine_id)
          || (not (is_hex32 e.result.key_fingerprint)
              || (not (V.is_address e.signer) || not (is_hex e.signature))))

  unfoldable pub is_untimely : EvaluationEnvelope → ActionRequest → ℤ → Bool
  is_untimely e request now =
      ltb_ℤ now e.result.issued_at
      || (ltb_ℤ e.result.expiry now || not (e.result.expiry ==ℤ request.expiry))

  -- The signer of the machine, and of the attestation.
  unfoldable pub is_signed_by : EvaluationEnvelope → Option MachineDescriptor → Result Bool
  is_signed_by e none = ok false
  is_signed_by e (some m) =
      if not (same_hex m.key_fingerprint e.result.key_fingerprint) then ok false else (do
        claimed ← V.get_address e.signer
        expected ← V.get_address m.signer
        attested ← evaluation_attestation_digest V e.result
        recovered ← V.recover_message_address attested e.signature
        signer ← V.get_address recovered
        ok (text_eq claimed expected && text_eq signer expected))

  -- The `try` block. Where the source returns before it computes the next digest, the answer is
  -- false, as it is where that digest throws.
  unfoldable pub check_envelope :
      EvaluationEnvelope → ActionRequest → List MachineDescriptor → ℤ → Result Bool
  check_envelope e request machines now = do
    answered ← action_request_hash V e.result.request
    asked ← action_request_hash V request
    digest ← evaluation_digest V e.result
    signed ← is_signed_by e (find_machine e.result.machine_id machines)
    ok (
        not (is_malformed_envelope e)
        && (text_eq e.result.request.request_id request.request_id
            && (text_eq answered asked
                && (same_hex digest e.digest && (not (is_untimely e request now) && signed)))))

  unfoldable pub is_valid_envelope :
      EvaluationEnvelope → ActionRequest → List MachineDescriptor → ℤ → Bool
  is_valid_envelope e request machines now = recover (check_envelope e request machines now) false
