-- ===== src/Integrations/FdcRound.antt =====
-- packages/integrations/src/fdc-round.ts: the voting round of a request's block, by the Relay contract
-- that the chain has, whose read is a parameter.
pub mod Laws
use xrp_payguard.Base.{◌||◌, not, Option, none, some, if◌then◌else◌}
use xrp_payguard.Base.Int.{ℤ, pos, ltb_ℤ, leb_ℤ, max_uint64}
use xrp_payguard.Text.{Text, text_eq, zero_address}
use xrp_payguard.Text.Decimal.{is_decimal, decimal_value}
use xrp_payguard.Viem.{Viem}
use xrp_payguard.Failure.{Result, ok, err}

pub data FdcRoundFailure : Type 0 where
  invalid_input unavailable malformed drift : FdcRoundFailure

pub data RoundResult (A : Type 0) : Type 0 where
  given : A → RoundResult A
  fails : FdcRoundFailure → RoundResult A

infixl 5 ◌>>=◌
abbrev pub ◌>>=◌ : {A B : Type 0} → RoundResult A → (A → RoundResult B) → RoundResult B
given a >>= f = f a
fails r >>= f = fails r

pub record VotingRound : Type 0 where
  pub chain_id : ℤ
  pub relay_address : Text
  pub block_timestamp : ℤ
  pub voting_round_id : ℤ

-- What a contract read returns: a `bigint`, a `number` that is an integer, a string, or anything else.
pub data Answered : Type 0 where
  bigint : ℤ → Answered
  integer : ℤ → Answered
  string : Text → Answered
  other : Answered

abbrev pub coston2_chain_id : ℤ
coston2_chain_id = pos 114

abbrev max_safe_integer : ℤ
max_safe_integer = pos 9007199254740991

unfoldable pub normalize_timestamp : ℤ → RoundResult ℤ
normalize_timestamp value =
    if leb_ℤ value (pos 0) || ltb_ℤ max_uint64 value then fails invalid_input else given value

-- The number that an answer spells, if it is one.
unfoldable pub round_of : Answered → Option ℤ
round_of (bigint n) = some n
round_of (integer n) = if ltb_ℤ n (pos 0) || ltb_ℤ max_safe_integer n then none else some n
round_of (string t) = if is_decimal t then some (pos (decimal_value t)) else none
round_of other = none

unfoldable pub check_round : Option ℤ → RoundResult ℤ
check_round none = fails malformed
check_round (some round) =
    if leb_ℤ round (pos 0) || ltb_ℤ max_uint64 round then fails drift else given round

unfoldable pub normalize_round : Answered → RoundResult ℤ
normalize_round value = check_round (round_of value)

module _ (V : Viem) where
  unfoldable pub checked_address : Result Text → RoundResult Text
  checked_address (err _) = fails invalid_input
  checked_address (ok a) = if text_eq a zero_address then fails invalid_input else given a

  unfoldable pub normalize_address : Text → RoundResult Text
  normalize_address value =
      if not (V.is_address value)
      then fails invalid_input
      else checked_address (V.get_address value)

  -- `reader.readContract` under `try`.
  unfoldable pub read_round : Result Answered → RoundResult Answered
  read_round (ok value) = given value
  read_round (err _) = fails unavailable

  unfoldable pub derive_coston2_fdc_voting_round :
      (Text → ℤ → Result Answered) → Text → ℤ → RoundResult VotingRound
  derive_coston2_fdc_voting_round read relay_address block_timestamp = do
    relay ← normalize_address relay_address
    timestamp ← normalize_timestamp block_timestamp
    value ← read_round (read relay timestamp)
    round ← normalize_round value
    given (record {
      chain_id = coston2_chain_id;
      relay_address = relay;
      block_timestamp = timestamp;
      voting_round_id = round;
    })
