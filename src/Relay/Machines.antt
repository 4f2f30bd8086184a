-- ===== src/Relay/Machines.antt =====
-- apps/relay/src/relay.ts, lines 203 to 227 and 255 to 257: `validateMachines`.
pub mod Laws
use xrp_payguard.Base.{
  ℕ, zero, suc, Bool, true, false, ◌||◌, ◌&&◌, not, any, ◌==◌, length, List, [], ◌∷◌, map,
  if◌then◌else◌,
}
use xrp_payguard.Text.{Text, codes, text_eq, to_lower_case, is_hex32}
use xrp_payguard.Failure.{Result, ok, err, Error, thrown, ◌>>=◌, ◌>>◌, throw_if}
use xrp_payguard.Viem.{Viem}
use xrp_payguard.Relay.Types.{MachineDescriptor, Url, Platform}

-- `set.has(text)`
unfoldable pub has : List Text → Text → Bool
has set text = any (λ t. text_eq t text) set

unfoldable pub is_local_endpoint : Url → Bool
is_local_endpoint endpoint =
    text_eq endpoint.protocol (codes "http:")
    && has (codes "localhost" ∷ codes "127.0.0.1" ∷ codes "::1" ∷ []) endpoint.hostname

-- A text that is not empty is truthy.
abbrev is_truthy : Text → Bool
is_truthy [] = false
is_truthy (_ ∷ _) = true

unfoldable pub is_refused_endpoint : Url → Bool
is_refused_endpoint endpoint =
    is_truthy endpoint.username
    || (is_truthy endpoint.password
        || not (text_eq endpoint.protocol (codes "https:")) && not (is_local_endpoint endpoint))

module _ (V : Viem) (P : Platform) where
  unfoldable pub is_malformed_machine : MachineDescriptor → Bool
  is_malformed_machine m =
      not (is_hex32 m.machine_id)
      || (not (is_hex32 m.key_fingerprint) || not (V.is_address m.signer))

  -- The body of the map, over the sets of the machines before it.
  unfoldable pub validate_machine :
      List Text → List Text → List Text → MachineDescriptor → Result MachineDescriptor
  validate_machine ids fingerprints signers m = do
    throw_if (is_malformed_machine m) (thrown "machine metadata is malformed")
    signer ← V.get_address m.signer
    throw_if
        (has ids (to_lower_case m.machine_id)
          || (has fingerprints (to_lower_case m.key_fingerprint)
              || has signers (to_lower_case signer)))
        (thrown "machine identities, fingerprints, and signers must be distinct")
    endpoint ← P.parse_url m.endpoint
    throw_if (is_refused_endpoint endpoint) (thrown "machine endpoints must use HTTPS")
    ok (record {
      machine_id = m.machine_id;
      key_fingerprint = m.key_fingerprint;
      signer = signer;
      endpoint = m.endpoint;
    })

  unfoldable pub validate_from :
      List Text → List Text → List Text → List MachineDescriptor → Result (List MachineDescriptor)
  validate_from ids fingerprints signers [] = ok []
  validate_from ids fingerprints signers (m ∷ ms) = do
    descriptor ← validate_machine ids fingerprints signers m
    descriptors ←
        validate_from (to_lower_case m.machine_id ∷ ids)
          (to_lower_case m.key_fingerprint ∷ fingerprints)
          (to_lower_case descriptor.signer ∷ signers) ms
    ok (descriptor ∷ descriptors)

  unfoldable pub validate_machines : List MachineDescriptor → Result (List MachineDescriptor)
  validate_machines machines = do
    throw_if (not (length machines == 3)) (thrown "exactly three frozen machines are required")
    validate_from [] [] [] machines
