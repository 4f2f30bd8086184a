-- ===== src/Integrations/Ftso.antt =====
-- packages/integrations/src/ftso.ts: the validation of a feed's snapshot, and the conversion of an
-- amount that rounds upward. The text of a checkpoint is zero as a number when it is the zero hash.
pub mod Laws
use xrp_payguard.Base.{◌^◌, ◌||◌, ◌&&◌, not, if◌then◌else◌}
use xrp_payguard.Base.Int.{
  ℤ, pos, pos_part, ◌+ℤ◌, ◌-ℤ◌, ◌*ℤ◌, ◌/ℤ◌, ltb_ℤ, leb_ℤ, ◌==ℤ◌, max_uint256,
}
use xrp_payguard.Text.{Text, text_eq, same_hex, is_hex32, zero_bytes32}
use xrp_payguard.Failure.{Result, ok, thrown, ◌>>◌, throw_if}
use xrp_payguard.Protocol.Types.{FtsoSnapshot}

pub data FtsoFailure : Type 0 where
  feed_mismatch value_invalid stale future checkpoint_missing overflow : FtsoFailure

pub data FtsoValidation : Type 0 where
  accepted : FtsoValidation
  refused : FtsoFailure → FtsoValidation

unfoldable pub validate_ftso_snapshot : FtsoSnapshot → Text → ℤ → ℤ → FtsoValidation
validate_ftso_snapshot snapshot feed_id now max_age_seconds =
    if not (same_hex snapshot.feed_id feed_id)
    then refused feed_mismatch
    else if leb_ℤ snapshot.value (pos 0)
        || (ltb_ℤ snapshot.decimals (pos 0) || ltb_ℤ (pos 36) snapshot.decimals)
    then refused value_invalid
    else if ltb_ℤ now snapshot.timestamp
    then refused future
    else if ltb_ℤ max_age_seconds (now -ℤ snapshot.timestamp)
    then refused stale
    else if not (is_hex32 snapshot.checkpoint) || text_eq snapshot.checkpoint zero_bytes32
    then refused checkpoint_missing
    else accepted

-- The value after the guards.
unfoldable pub round_up : ℤ → ℤ → ℤ → ℤ
round_up amount value scale = (amount *ℤ value +ℤ scale -ℤ pos 1) /ℤ scale

unfoldable pub reference_value_ceil : ℤ → FtsoSnapshot → Result ℤ
reference_value_ceil amount snapshot = do
  throw_if
      (ltb_ℤ amount (pos 0)
        || (leb_ℤ snapshot.value (pos 0)
            || (ltb_ℤ snapshot.decimals (pos 0) || ltb_ℤ (pos 36) snapshot.decimals)))
      (thrown "FTSO input invalid")
  throw_if (not (amount ==ℤ pos 0) && ltb_ℤ (max_uint256 /ℤ amount) snapshot.value)
      (thrown "FTSO conversion overflow")
  throw_if
      (ltb_ℤ max_uint256 (round_up amount snapshot.value (pos (10 ^ pos_part snapshot.decimals))))
      (thrown "FTSO conversion overflow")
  ok (round_up amount snapshot.value (pos (10 ^ pos_part snapshot.decimals)))
