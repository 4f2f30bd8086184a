-- ===== src/Integrations/Redemption/Checks.antt =====
-- packages/integrations/src/redemption.ts, lines 111 to 142 and 188 to 201: the validators of an intent and of
-- a requested leg.
use xrp_payguard.Base.{
  ℕ, ◌+◌, Bool, true, false, ◌||◌, ◌&&◌, not, any, [], ◌∷◌, Option, none, some, is_some, ltb, leb,
  if◌then◌else◌,
}
use xrp_payguard.Base.Int.{ℤ, pos, ◌+ℤ◌, ltb_ℤ, leb_ℤ, ◌==ℤ◌, max_uint256, max_uint64, max_uint32}
use xrp_payguard.Text.{Text, text_eq, to_lower_case, is_hex32, zero_bytes32, zero_address}
use xrp_payguard.Failure.{Result, ok, err, Error, thrown, ◌>>=◌, ◌>>◌, throw_if}
use xrp_payguard.Viem.{Viem}
use xrp_payguard.Integrations.Redemption.{
  RedemptionMethod, amount, with_tag, RedemptionIntent, LegRequest,
}

unfoldable pub is_nonzero_hash : Option Text → Bool
is_nonzero_hash none = false
is_nonzero_hash (some t) = is_hex32 t && not (text_eq (to_lower_case t) zero_bytes32)

unfoldable pub is_uint : ℤ → ℤ → Bool
is_uint value max = leb_ℤ (pos 0) value && leb_ℤ value max

unfoldable pub checked_add : ℤ → ℤ → Result ℤ
unfolding is_uint
checked_add left right =
    if not (is_uint (left +ℤ right) max_uint256)
    then err (thrown "redemption uint256 overflow")
    else ok (left +ℤ right)

-- The bytes of UTF-8 for a code unit that is no half of a pair; a lone half becomes U+FFFD.
abbrev unit_size : ℕ → ℕ
unit_size c = if ltb c 0x80 then 1 else if ltb c 0x800 then 2 else 3

abbrev is_high : ℕ → Bool
is_high c = leb 0xD800 c && leb c 0xDBFF

abbrev is_low : ℕ → Bool
is_low c = leb 0xDC00 c && leb c 0xDFFF

-- `new TextEncoder().encode(value).length`
unfoldable pub utf8_length : Text → ℕ
utf8_length [] = 0
utf8_length (c ∷ []) = unit_size c
utf8_length (c ∷ d ∷ t) =
    let pair = 4 + utf8_length t in
    let single = unit_size c + utf8_length (d ∷ t) in if is_high c && is_low d then pair else single

unfoldable pub is_public_payment_address : Text → Bool
is_public_payment_address [] = false
is_public_payment_address (c ∷ t) = leb (utf8_length (c ∷ t)) 256

unfoldable pub is_valid_tag : RedemptionMethod → Option ℤ → Bool
unfolding is_uint
is_valid_tag with_tag (some tag) = is_uint tag max_uint32
is_valid_tag with_tag none = false
is_valid_tag amount tag = not (is_some tag)

abbrev pub intent_invalid : Error
intent_invalid = thrown "redemption intent invalid"

abbrev pub event_invalid : Error
event_invalid = thrown "redemption request event invalid"

-- `job.method === "WITH_TAG" ? leg.destinationTag !== job.destinationTag : leg.destinationTag !== undefined`
unfoldable pub is_other_tag : RedemptionMethod → Option ℤ → Option ℤ → Bool
is_other_tag amount job_tag leg_tag = is_some leg_tag
is_other_tag with_tag none none = false
is_other_tag with_tag (some a) (some b) = not (a ==ℤ b)
is_other_tag with_tag _ _ = true

-- The tests of a leg between its redeemer and its executor.
unfoldable pub is_bad_request : RedemptionIntent → LegRequest → Bool
unfolding is_uint is_nonzero_hash
is_bad_request job leg =
    not (is_uint leg.request_id max_uint64)
    || (leg.request_id ==ℤ pos 0
        || (not (text_eq leg.payment_address job.payment_address)
            || (leb_ℤ leg.value (pos 0)
                || (ltb_ℤ max_uint256 leg.value
                    || (not (is_uint leg.fee max_uint256)
                        || (leb_ℤ leg.value leg.fee
                            || (not (is_uint leg.first_underlying_block max_uint64)
                                || (not (is_uint leg.last_underlying_block max_uint64)
                                    || (ltb_ℤ leg.last_underlying_block leg.first_underlying_block
                                        || (not (is_uint leg.last_underlying_timestamp max_uint64)
                                            || (leg.last_underlying_timestamp ==ℤ pos 0
                                                || not (
                                                    is_nonzero_hash
                                                      (some leg.payment_reference)))))))))))))

module _ (V : Viem) where
  -- `isAddress(a)`, then `getAddress(a) === zeroAddress`.
  unfoldable pub refuse_zero : Text → Error → Result (Unit {0})
  refuse_zero a e = do c ← V.get_address a; throw_if (text_eq c zero_address) e

  -- `getAddress(a) !== getAddress(b)`
  unfoldable pub require_same : Text → Text → Error → Result (Unit {0})
  require_same a b e = do x ← V.get_address a; y ← V.get_address b; throw_if (not (text_eq x y)) e

  unfoldable pub validate_intent : RedemptionIntent → Result (Unit {0})
  validate_intent i = do
    throw_if
        (not (is_nonzero_hash (some i.job_id))
          || any (λ a. not (V.is_address a))
              (i.asset_manager ∷ i.f_asset ∷ i.redeemer ∷ i.executor ∷ []))
        intent_invalid
    refuse_zero i.asset_manager intent_invalid
    refuse_zero i.f_asset intent_invalid
    refuse_zero i.redeemer intent_invalid
    throw_if
        (not (is_public_payment_address i.payment_address)
          || (not (is_uint i.requested_amount max_uint256)
              || (i.requested_amount ==ℤ pos 0 || not (is_valid_tag i.method i.destination_tag))))
        intent_invalid

  unfoldable pub validate_requested_leg : RedemptionIntent → LegRequest → Result (Unit {0})
  validate_requested_leg job leg = do
    throw_if (not (V.is_address leg.agent_vault)) event_invalid
    refuse_zero leg.agent_vault event_invalid
    throw_if (not (V.is_address leg.redeemer)) event_invalid
    require_same leg.redeemer job.redeemer event_invalid
    throw_if (is_bad_request job leg || not (V.is_address leg.executor)) event_invalid
    require_same leg.executor job.executor event_invalid
    throw_if (not (is_uint leg.executor_fee max_uint256)) event_invalid
    executor ← V.get_address job.executor
    throw_if
        (text_eq executor zero_address && not (leg.executor_fee ==ℤ pos 0)
          || is_other_tag job.method job.destination_tag leg.destination_tag)
        event_invalid
