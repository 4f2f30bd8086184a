-- ===== src/Integrations/Vault/Laws.antt =====
-- A decoded snapshot conserves its balances, and is what its own wire form decodes to.
use xrp_payguard.Base.{◌≡◌, refl, ◌∙◌, ap, subst, true, false, not, all, List, [], ◌∷◌, arith}
use xrp_payguard.Base.Int.{ℤ, pos, negsuc, ◌+ℤ◌, ◌==ℤ◌, max_uint256, max_uint32}
use xrp_payguard.Text.{codes, text_eq}
use xrp_payguard.Failure.{ok, thrown, >>=-eq-ok, throw_if_then, ok-injective}
use xrp_payguard.Viem.{Viem, ViemLaws}
use xrp_payguard.Integrations.Vault.{
  Field, Unknown, object, not_an_object, VaultSnapshot, get_field, quoted_uint, sum_checked,
  decode_checkpoint, decode_stopped, public_address, decode_fields, decode_public_vault_snapshot,
  wire_of, is_there, encode_public_vault_snapshot, is_wire_field, wire_fields,
}
use xrp_payguard.Integrations.Vault.Fields.{
  quoted_uint_sound, quoted_uint_back, public_address_sound, public_address_back,
  decode_checkpoint_sound, decode_checkpoint_back, sum_checked_sound, IsUint, IsPublic,
  IsCheckpoint, sum_from, balances,
}

module _ (V : Viem) where
  record IsSnapshot (s : VaultSnapshot) : Type 0 where
    chain_id : IsUint max_uint256 s.chain_id
    chain_nonzero : (s.chain_id ==ℤ pos 0) ≡ false
    vault : IsPublic V s.vault
    asset : IsPublic V s.asset
    deposited : IsUint max_uint256 s.deposited
    available : IsUint max_uint256 s.available
    reserved : IsUint max_uint256 s.reserved
    spent : IsUint max_uint256 s.spent
    withdrawn : IsUint max_uint256 s.withdrawn
    refunded : IsUint max_uint256 s.refunded
    checkpoint : IsCheckpoint s.checkpoint
    policy_count : IsUint max_uint32 s.policy_count
    summed : (c : ℤ) × (sum_checked (pos 0) (balances s) ≡ ok c) × (not (c ==ℤ s.deposited) ≡ false)

  decode_fields_sound :
      ViemLaws V → (fs : List Field) (s : VaultSnapshot) → decode_fields V fs ≡ ok s → IsSnapshot s
  unfolding decode_fields
  decode_fields_sound L fs s h =
      let (chain, e1, h1) =
        >>=-eq-ok (quoted_uint (get_field (codes "chainId") fs) "chainId" max_uint256) _ h in
      let (nonzero, h2) = throw_if_then (chain ==ℤ pos 0) _ _ h1 in
      let (vault, e2, h3) =
        >>=-eq-ok (public_address V (get_field (codes "vault") fs) "vault") _ h2 in
      let (asset, e3, h4) =
        >>=-eq-ok (public_address V (get_field (codes "asset") fs) "asset") _ h3 in
      let (deposited, e4, h5) =
        >>=-eq-ok (quoted_uint (get_field (codes "deposited") fs) "deposited" max_uint256) _ h4 in
      let (available, e5, h6) =
        >>=-eq-ok (quoted_uint (get_field (codes "available") fs) "available" max_uint256) _ h5 in
      let (reserved, e6, h7) =
        >>=-eq-ok (quoted_uint (get_field (codes "reserved") fs) "reserved" max_uint256) _ h6 in
      let (spent, e7, h8) =
        >>=-eq-ok (quoted_uint (get_field (codes "spent") fs) "spent" max_uint256) _ h7 in
      let (withdrawn, e8, h9) =
        >>=-eq-ok (quoted_uint (get_field (codes "withdrawn") fs) "withdrawn" max_uint256) _ h8 in
      let (refunded, e9, h10) =
        >>=-eq-ok (quoted_uint (get_field (codes "refunded") fs) "refunded" max_uint256) _ h9 in
      let (checkpoint, e10, h11) =
        >>=-eq-ok (decode_checkpoint (get_field (codes "checkpoint") fs)) _ h10 in
      let (stopped, e11, h12) =
        >>=-eq-ok (decode_stopped (get_field (codes "emergencyStopped") fs)) _ h11 in
      let (count, e12, h13) =
        >>=-eq-ok (quoted_uint (get_field (codes "policyCount") fs) "policyCount" max_uint32) _
          h12 in
      let (accounted, e13, h14) =
        >>=-eq-ok (sum_checked (pos 0) (available ∷ reserved ∷ spent ∷ withdrawn ∷ refunded ∷ [])) _
          h13 in
      let (conserved, h15) = throw_if_then (not (accounted ==ℤ deposited)) _ _ h14 in
      subst IsSnapshot (ok-injective h15) (record {
        chain_id = quoted_uint_sound _ _ _ _ e1;
        chain_nonzero = nonzero;
        vault = public_address_sound V L _ _ _ e2;
        asset = public_address_sound V L _ _ _ e3;
        deposited = quoted_uint_sound _ _ _ _ e4;
        available = quoted_uint_sound _ _ _ _ e5;
        reserved = quoted_uint_sound _ _ _ _ e6;
        spent = quoted_uint_sound _ _ _ _ e7;
        withdrawn = quoted_uint_sound _ _ _ _ e8;
        refunded = quoted_uint_sound _ _ _ _ e9;
        checkpoint = decode_checkpoint_sound _ _ e10;
        policy_count = quoted_uint_sound _ _ _ _ e12;
        summed = (accounted, e13, conserved);
      })

  decode_fields_back : (s : VaultSnapshot) → IsSnapshot s → decode_fields V (wire_of V s) ≡ ok s
  unfolding decode_fields get_field text_eq decode_stopped
  decode_fields_back s d =
      rw
        (
          quoted_uint_back "chainId" max_uint256 s.chain_id d.chain_id,
          d.chain_nonzero,
          public_address_back V "vault" s.vault d.vault,
          public_address_back V "asset" s.asset d.asset,
          quoted_uint_back "deposited" max_uint256 s.deposited d.deposited,
          quoted_uint_back "available" max_uint256 s.available d.available,
          quoted_uint_back "reserved" max_uint256 s.reserved d.reserved,
          quoted_uint_back "spent" max_uint256 s.spent d.spent,
          quoted_uint_back "withdrawn" max_uint256 s.withdrawn d.withdrawn,
          quoted_uint_back "refunded" max_uint256 s.refunded d.refunded,
          decode_checkpoint_back s.checkpoint d.checkpoint,
          quoted_uint_back "policyCount" max_uint32 s.policy_count d.policy_count,
          d.summed.1,
          d.summed.2,
        )
        refl

  known_keys : (s : VaultSnapshot) → all (λ f. is_wire_field f.key) (wire_of V s) ≡ true
  unfolding is_wire_field text_eq
  known_keys s = refl

  required_keys :
      (s : VaultSnapshot) → all (λ key. is_there (get_field key (wire_of V s))) wire_fields ≡ true
  unfolding get_field text_eq
  required_keys s = refl

  decode-IsSnapshot :
      ViemLaws V
      → (u : Unknown) (s : VaultSnapshot) → decode_public_vault_snapshot V u ≡ ok s
      → IsSnapshot s
  unfolding decode_public_vault_snapshot
  decode-IsSnapshot L not_an_object s h = cc
  decode-IsSnapshot L (object fs) s h =
      let (_, h1) =
        throw_if_then (not (all (λ f. is_wire_field f.key) fs))
          (thrown "unknown public vault field") _ h in
      let (_, h2) =
        throw_if_then (not (all (λ key. is_there (get_field key fs)) wire_fields))
          (thrown "missing public vault field") (decode_fields V fs) h1 in
      decode_fields_sound L fs s h2

  decode-wire_of :
      (s : VaultSnapshot)
      → IsSnapshot s
      → decode_public_vault_snapshot V (object (wire_of V s)) ≡ ok s
  unfolding decode_public_vault_snapshot
  decode-wire_of s d = rw (known_keys s, required_keys s, decode_fields_back s d) refl

zero_add : (n : ℤ) → n ≡ pos 0 +ℤ n
unfolding ◌+ℤ◌
zero_add (pos n) = ground arith
zero_add (negsuc n) = ground arith

balanced : (c d : ℤ) → not (c ==ℤ d) ≡ false → c ≡ d
balanced c d h = ground arith

from_zero :
    (s : VaultSnapshot)
    → sum_from (pos 0) (balances s) ≡ s.deposited
    → s.available +ℤ s.reserved +ℤ s.spent +ℤ s.withdrawn +ℤ s.refunded ≡ s.deposited
from_zero s h =
    ap (λ n. n +ℤ s.reserved +ℤ s.spent +ℤ s.withdrawn +ℤ s.refunded) (zero_add s.available) ∙ h

-- A decoded snapshot encodes, its wire form decodes to the snapshot itself, and its deposit is the sum
-- of what is available, reserved, spent, withdrawn and refunded. It rests on what viem documents of
-- checksummed addresses.
pub decode_public_vault_snapshot-encode :
    (V : Viem) (L : ViemLaws V) (u : Unknown) (s : VaultSnapshot)
    → decode_public_vault_snapshot V u ≡ ok s
    → (wire : Unknown) × (encode_public_vault_snapshot V s ≡ ok wire)
      × (decode_public_vault_snapshot V wire ≡ ok s)
      × (s.available +ℤ s.reserved +ℤ s.spent +ℤ s.withdrawn +ℤ s.refunded ≡ s.deposited)
unfolding encode_public_vault_snapshot
decode_public_vault_snapshot-encode V L u s h =
    let d = decode-IsSnapshot V L u s h in
    let back = decode-wire_of V s d in
    let (c, summed, conserved) = d.summed in
    (
      object (wire_of V s),
      rw back refl,
      back,
      from_zero s
          (sum_checked_sound (pos 0) (balances s) c summed ∙ balanced c s.deposited conserved),
    )
