-- ===== src/Protocol/Codec/Commitment.antt =====
-- A commitment is to the normal form of a policy, and does not depend on the order of its lists.
use mathlib.Core.List.{Perm}
use xrp_payguard.Base.{◌≡◌, refl, sym, ◌∙◌, List}
use xrp_payguard.Text.{Text, is_hex32}
use xrp_payguard.Failure.{ok, labelled}
use xrp_payguard.Viem.{Viem, ViemLaws}
use xrp_payguard.Protocol.Types.{Policy}
use xrp_payguard.Protocol.Codec.Primitives.{sorted_addresses, sorted_bytes32}
use xrp_payguard.Protocol.Codec.Lists.{
  canonical-perm, sorted_addresses-canonical, sorted_bytes32-canonical,
}
use xrp_payguard.Protocol.Codec.Normalize.{normalize_limits}
use xrp_payguard.Protocol.Codec.Policy.{normalize_policy}
use xrp_payguard.Protocol.Codec.Idempotence.{normalize_policy_idem}
use xrp_payguard.Protocol.Codec.Encoding.{encode_policy, policy_commitment}
use Prim.Native.String.{String}

-- The lists of a policy in another order.
abbrev pub with_lists : Policy → List Text → List Text → List Text → List Text → Policy
with_lists p targets denied requesters types = record p {
  allow_targets = targets;
  deny_targets = denied;
  allow_requesters = requesters;
  allow_action_types = types;
}

module _ (V : Viem) (L : ViemLaws V) where
  sorted_addresses-perm :
      {ts us : List Text} (label : String)
      → Perm ts us
      → sorted_addresses V ts label ≡ sorted_addresses V us label
  sorted_addresses-perm {ts} {us} label h =
      sorted_addresses-canonical V L ts label
      ∙ canonical-perm V.is_address (labelled label "must be an address") label h
      ∙ sym (sorted_addresses-canonical V L us label)

  sorted_bytes32-perm :
      {ts us : List Text} (label : String)
      → Perm ts us
      → sorted_bytes32 ts label ≡ sorted_bytes32 us label
  sorted_bytes32-perm {ts} {us} label h =
      sorted_bytes32-canonical ts label
      ∙ canonical-perm is_hex32 (labelled label "must be bytes32") label h
      ∙ sym (sorted_bytes32-canonical us label)

  normalize_policy-perm :
      (p : Policy) {a b c d : List Text}
      → Perm p.allow_targets a
      → Perm p.deny_targets b
      → Perm p.allow_requesters c
      → Perm p.allow_action_types d
      → normalize_policy V p ≡ normalize_policy V (with_lists p a b c d)
  unfolding normalize_policy normalize_limits
  normalize_policy-perm p ha hb hc hd =
      rw
        (
          sorted_addresses-perm "allowTargets" ha,
          sorted_addresses-perm "denyTargets" hb,
          sorted_addresses-perm "allowRequesters" hc,
          sorted_bytes32-perm "allowActionTypes" hd,
        )
        refl

  -- The commitment to a policy is the same whatever the order in which its four lists are given, and it
  -- is refused for the same reason. It rests on what viem documents of addresses.
  pub policy_commitment-perm :
      (p : Policy) (a b c d : List Text)
      → Perm p.allow_targets a
      → Perm p.deny_targets b
      → Perm p.allow_requesters c
      → Perm p.allow_action_types d
      → policy_commitment V p ≡ policy_commitment V (with_lists p a b c d)
  unfolding policy_commitment encode_policy
  policy_commitment-perm p a b c d ha hb hc hd = rw (normalize_policy-perm p ha hb hc hd) refl

  -- A policy that normalisation returns is its own normal form, and the commitment to it is the one to
  -- the policy that was normalised. It rests on what viem documents of addresses.
  pub policy_commitment-normalize_policy :
      (p q : Policy)
      → normalize_policy V p ≡ ok q
      → (normalize_policy V q ≡ ok q) × (policy_commitment V q ≡ policy_commitment V p)
  unfolding policy_commitment encode_policy
  policy_commitment-normalize_policy p q h =
      let again = normalize_policy_idem V L p q h in (again, rw (again, h) refl)
