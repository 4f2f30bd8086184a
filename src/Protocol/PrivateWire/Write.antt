-- ===== src/Protocol/PrivateWire/Write.antt =====
-- packages/protocol/src/private-wire.ts, lines 23 to 68: the plaintext of a policy.
use xrp_payguard.Failure.{Result, ok, ◌>>=◌}
use xrp_payguard.Viem.{Viem}
use xrp_payguard.Protocol.Types.{Policy}
use xrp_payguard.Protocol.Codec.Policy.{normalize_policy}
use xrp_payguard.Protocol.PrivateWire.{Plaintext, object, wire_of}

module _ (V : Viem) where
  unfoldable pub serialize_private_policy : Policy → Result Plaintext
  serialize_private_policy policy = do
    value ← normalize_policy V policy
    ok (object (wire_of value))
