-- ===== src/Integrations/Vault/Reading.antt =====
-- The state that is shown of a decoded snapshot.
use xrp_payguard.Base.{◌≡◌, refl, if◌then◌else◌}
use xrp_payguard.Failure.{ok}
use xrp_payguard.Viem.{Viem, ViemLaws}
use xrp_payguard.Integrations.Vault.{
  Unknown, VaultSnapshot, decode_public_vault_snapshot, available_state, ready, emergency,
  vault_read_state,
}
use xrp_payguard.Integrations.Vault.Laws.{decode_public_vault_snapshot-encode}

-- The state of the vault that is shown for a decoded snapshot is the snapshot itself, as stopped when its
-- flag says so and as ready otherwise. It rests on what viem documents of checksummed addresses.
pub vault_read_state-decode :
    (V : Viem) (L : ViemLaws V) (u : Unknown) (s : VaultSnapshot)
    → decode_public_vault_snapshot V u ≡ ok s
    → vault_read_state V s
      ≡ ok (available_state (if s.emergency_stopped then emergency else ready) s)
unfolding vault_read_state
vault_read_state-decode V L u s h =
    let (wire, encoded, decoded, _) = decode_public_vault_snapshot-encode V L u s h in
    rw encoded (rw decoded refl)
