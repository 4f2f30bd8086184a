-- ===== src/Tests/Vault.antt =====
-- A snapshot of a vault, from its wire form.
use xrp_payguard.Base.{◌≡◌, refl, false}
use xrp_payguard.Base.Int.{pos, ◌+ℤ◌, ◌-ℤ◌, ◌*ℤ◌, ◌/ℤ◌, ◌%ℤ◌}
use xrp_payguard.Failure.{ok}
use xrp_payguard.Integrations.Vault.{
  Unknown, object, VaultSnapshot, wire_of, ready, available_state, vault_read_state,
}
use xrp_payguard.Integrations.Vault.Laws.{decode_public_vault_snapshot-encode}
use xrp_payguard.Integrations.Vault.Reading.{vault_read_state-decode}
use xrp_payguard.Tests.Toy.{toy, toy_laws, hash32, address40}
use xrp_payguard.Text.{
  lower, to_lower_case, text_eq, same_hex, is_hex_digit, is_hex_run, is_hex_digits, is_hex32,
  is_hex, text_leb, insert_sorted, sort,
}
use xrp_payguard.Text.Decimal.{digits, decimal, value_from, decimal_value, is_digit, is_decimal}
use xrp_payguard.Integrations.Vault.{
  is_wire_field, get_field, quoted_uint, checked_add, sum_checked, decode_checkpoint,
  decode_stopped, public_address, decode_fields, decode_public_vault_snapshot,
  encode_public_vault_snapshot,
}
use xrp_payguard.Tests.Toy.{is_toy_address, toy_address}

abbrev snapshot : VaultSnapshot
snapshot = record {
  chain_id = pos 114;
  vault = address40 b'3';
  asset = address40 b'5';
  deposited = pos 120;
  available = pos 60;
  reserved = pos 25;
  spent = pos 20;
  withdrawn = pos 10;
  refunded = pos 5;
  checkpoint = hash32 b'c';
  emergency_stopped = false;
  policy_count = pos 2;
}

decodes : decode_public_vault_snapshot toy (object (wire_of toy snapshot)) ≡ ok snapshot
unfolding lower to_lower_case text_eq same_hex is_hex_digit is_hex_run is_hex_digits is_hex32 is_hex
    text_leb insert_sorted sort digits decimal value_from decimal_value is_digit is_decimal
    is_wire_field get_field quoted_uint checked_add sum_checked decode_checkpoint decode_stopped
    public_address decode_fields decode_public_vault_snapshot encode_public_vault_snapshot
    is_toy_address toy_address ◌+ℤ◌ ◌-ℤ◌ ◌*ℤ◌ ◌/ℤ◌ ◌%ℤ◌
decodes = refl

decode_public_vault_snapshot-encode_example :
    (wire : Unknown) × (encode_public_vault_snapshot toy snapshot ≡ ok wire)
    × (decode_public_vault_snapshot toy wire ≡ ok snapshot)
    × (pos 60 +ℤ pos 25 +ℤ pos 20 +ℤ pos 10 +ℤ pos 5 ≡ pos 120)
decode_public_vault_snapshot-encode_example =
    decode_public_vault_snapshot-encode toy toy_laws (object (wire_of toy snapshot)) snapshot
      decodes

vault_read_state-decode_example :
    vault_read_state toy snapshot ≡ ok (available_state ready snapshot)
vault_read_state-decode_example =
    vault_read_state-decode toy toy_laws (object (wire_of toy snapshot)) snapshot decodes
