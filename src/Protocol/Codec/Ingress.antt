-- ===== src/Protocol/Codec/Ingress.antt =====
-- packages/protocol/src/codec.ts, lines 300 to 318 and 349 to 351: the digest that authorizes the
-- ingress of a policy's ciphertext, and the code of a reason.
use xrp_payguard.Base.{ℕ, [], ◌∷◌}
use xrp_payguard.Base.Int.{ℤ}
use xrp_payguard.Text.{Text}
use xrp_payguard.Failure.{Result, ◌>>=◌}
use xrp_payguard.Viem.{Viem, number, hex}
use xrp_payguard.Protocol.Types.{PolicyBinding, PublicReasonClass}
use xrp_payguard.Protocol.Constants.{fcc_policy_ingress_prefix, reason_code}
use xrp_payguard.Protocol.Codec.Primitives.{bytes32, bounded_uint}
use xrp_payguard.Protocol.Codec.Parameters.{ingress_authorization_parameters}
use xrp_payguard.Protocol.Codec.Encoding.{hash_values}
use xrp_payguard.Protocol.Codec.Digests.{policy_binding_digest}

pub record PolicyIngressAuthorization : Type 0 where
  pub binding : PolicyBinding
  pub submission_nonce : Text
  pub issued_at : ℤ
  pub expiry : ℤ
  pub ciphertext_hash : Text
  pub machine_id : Text
  pub key_fingerprint : Text

unfoldable pub policy_ingress_authorization_digest : Viem → PolicyIngressAuthorization → Result Text
policy_ingress_authorization_digest V input = do
  binding ← policy_binding_digest V input.binding
  submission_nonce ← bytes32 input.submission_nonce "submissionNonce"
  issued_at ← bounded_uint input.issued_at 64 "issuedAt"
  expiry ← bounded_uint input.expiry 64 "expiry"
  ciphertext_hash ← bytes32 input.ciphertext_hash "ciphertextHash"
  machine_id ← bytes32 input.machine_id "machineId"
  key_fingerprint ← bytes32 input.key_fingerprint "keyFingerprint"
  hash_values V ingress_authorization_parameters (
      hex (fcc_policy_ingress_prefix V)
      ∷ hex binding
      ∷ hex submission_nonce
      ∷ number issued_at
      ∷ number expiry
      ∷ hex ciphertext_hash
      ∷ hex machine_id
      ∷ hex key_fingerprint
      ∷ [])

unfoldable pub public_reason_code : PublicReasonClass → ℕ
public_reason_code reason = reason_code reason
