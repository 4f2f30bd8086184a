-- ===== src/Protocol/Codec/Parameters.antt =====
-- packages/protocol/src/codec.ts, lines 28 to 88: the ABI parameter lists.
use xrp_payguard.Base.{List, [], ◌∷◌, ◌++◌}
use xrp_payguard.Viem.{AbiType}

abbrev pub policy_parameters : List AbiType
policy_parameters =
    (AbiType.uint 16)
    ∷ (AbiType.uint 256)
    ∷ AbiType.address
    ∷ AbiType.address
    ∷ AbiType.address
    ∷ AbiType.address
    ∷ AbiType.bytes32
    ∷ (AbiType.uint 32)
    ∷ AbiType.address
    ∷ AbiType.bytes32
    ∷ (AbiType.uint 256)
    ∷ (AbiType.uint 256)
    ∷ (AbiType.uint 256)
    ∷ (AbiType.uint 64)
    ∷ (AbiType.uint 64)
    ∷ (AbiType.uint 64)
    ∷ (AbiType.uint 64)
    ∷ (AbiType.uint 64)
    ∷ (AbiType.uint 64)
    ∷ (AbiType.uint 32)
    ∷ (AbiType.array AbiType.address)
    ∷ (AbiType.array AbiType.address)
    ∷ (AbiType.array AbiType.address)
    ∷ (AbiType.array AbiType.bytes32)
    ∷ AbiType.bool
    ∷ AbiType.bytes32
    ∷ (AbiType.uint 64)
    ∷ AbiType.bool
    ∷ AbiType.bytes32
    ∷ AbiType.bytes32
    ∷ AbiType.bytes32
    ∷ AbiType.bytes32
    ∷ (AbiType.uint 8)
    ∷ AbiType.bool
    ∷ (AbiType.uint 32)
    ∷ (AbiType.uint 256)
    ∷ (AbiType.uint 256)
    ∷ (AbiType.uint 64)
    ∷ AbiType.address
    ∷ AbiType.bytes32
    ∷ AbiType.bytes32
    ∷ []

abbrev pub fdc_snapshot_parameters : List AbiType
fdc_snapshot_parameters =
    AbiType.bytes32
    ∷ AbiType.bytes32
    ∷ AbiType.bytes32
    ∷ AbiType.bytes32
    ∷ AbiType.address
    ∷ AbiType.address
    ∷ AbiType.bytes32
    ∷ AbiType.bytes32
    ∷ AbiType.bytes32
    ∷ AbiType.bytes32
    ∷ (AbiType.uint 256)
    ∷ AbiType.bool
    ∷ AbiType.bytes32
    ∷ AbiType.bool
    ∷ (AbiType.uint 32)
    ∷ (AbiType.uint 64)
    ∷ (AbiType.uint 64)
    ∷ AbiType.bool
    ∷ AbiType.bool
    ∷ AbiType.bytes32
    ∷ AbiType.bytes32
    ∷ (AbiType.uint 8)
    ∷ []

abbrev pub policy_binding_parameters : List AbiType
policy_binding_parameters =
    AbiType.bytes32
    ∷ (AbiType.uint 256)
    ∷ AbiType.address
    ∷ AbiType.address
    ∷ AbiType.address
    ∷ AbiType.address
    ∷ AbiType.bytes32
    ∷ (AbiType.uint 32)
    ∷ AbiType.bytes32
    ∷ AbiType.bytes32
    ∷ AbiType.bytes32
    ∷ AbiType.bytes32
    ∷ (AbiType.fixed_array AbiType.bytes32 3)
    ∷ (AbiType.fixed_array AbiType.bytes32 3)
    ∷ (AbiType.uint 8)
    ∷ (AbiType.uint 8)
    ∷ (AbiType.uint 64)
    ∷ []

abbrev pub receipt_parameters : List AbiType
receipt_parameters =
    policy_binding_parameters
    ++ (AbiType.bytes32
        ∷ AbiType.bytes32
        ∷ AbiType.bytes32
        ∷ (AbiType.uint 64)
        ∷ (AbiType.uint 64)
        ∷ (AbiType.uint 64)
        ∷ [])

abbrev pub request_parameters : List AbiType
request_parameters =
    AbiType.bytes32
    ∷ (AbiType.uint 256)
    ∷ AbiType.address
    ∷ AbiType.address
    ∷ AbiType.address
    ∷ AbiType.bytes32
    ∷ (AbiType.uint 32)
    ∷ AbiType.bytes32
    ∷ AbiType.bytes32
    ∷ (AbiType.uint 256)
    ∷ (AbiType.uint 32)
    ∷ AbiType.address
    ∷ AbiType.address
    ∷ AbiType.address
    ∷ AbiType.bytes32
    ∷ (AbiType.uint 256)
    ∷ (AbiType.uint 64)
    ∷ (AbiType.uint 32)
    ∷ AbiType.bytes32
    ∷ AbiType.bytes32
    ∷ AbiType.bytes32
    ∷ (AbiType.uint 64)
    ∷ (AbiType.uint 64)
    ∷ (AbiType.uint 64)
    ∷ []

abbrev pub result_parameters : List AbiType
result_parameters =
    (AbiType.bytes32 ∷ [])
    ++ (request_parameters
        ++ (AbiType.bytes32
            ∷ (AbiType.uint 8)
            ∷ (AbiType.uint 8)
            ∷ (AbiType.uint 256)
            ∷ AbiType.bytes32
            ∷ AbiType.bytes32
            ∷ (AbiType.uint 32)
            ∷ (AbiType.uint 64)
            ∷ (AbiType.uint 64)
            ∷ []))

abbrev pub fcc_attestation_parameters : List AbiType
fcc_attestation_parameters = AbiType.bytes32 ∷ (AbiType.uint 256) ∷ AbiType.bytes32 ∷ []

abbrev pub ingress_authorization_parameters : List AbiType
ingress_authorization_parameters =
    AbiType.bytes32
    ∷ AbiType.bytes32
    ∷ AbiType.bytes32
    ∷ (AbiType.uint 64)
    ∷ (AbiType.uint 64)
    ∷ AbiType.bytes32
    ∷ AbiType.bytes32
    ∷ AbiType.bytes32
    ∷ []
