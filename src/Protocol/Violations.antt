-- ===== src/Protocol/Violations.antt =====
-- packages/protocol/src/evaluator.ts, lines 11 to 40: the violation flags, their priority, and the
-- decision that they compose to. `violations & ~mask` of a number that is not negative is what the
-- mask does not cover.
pub mod Laws
use Prim.Native.Nat.{bit_and, bit_or}
use xrp_payguard.Base.{ℕ, ◌-◌, ◌^◌, Bool, ◌||◌, not, ◌==◌, List, [], ◌∷◌, if◌then◌else◌}
use xrp_payguard.Base.Int.{ℤ, pos, ltb_ℤ, pos_part}
use xrp_payguard.Protocol.Types.{Decision, allow, deny, PublicReasonClass, reason_ok, malformed}

-- The keys of `POLICY_VIOLATION_V1`, in the order in which it lists them.
pub data Violation : Type 0 where
  policy_denied : Violation
  target_denied : Violation
  requester_denied : Violation
  action_denied : Violation
  occurrence_exceeded : Violation
  cooldown : Violation
  insufficient_balance : Violation
  fdc_invalid : Violation
  ftso_invalid : Violation
  cap_exceeded : Violation

unfoldable pub flag : Violation → ℕ
flag Violation.policy_denied = 2 ^ 0
flag Violation.target_denied = 2 ^ 1
flag Violation.requester_denied = 2 ^ 2
flag Violation.action_denied = 2 ^ 3
flag Violation.occurrence_exceeded = 2 ^ 4
flag Violation.cooldown = 2 ^ 5
flag Violation.insufficient_balance = 2 ^ 6
flag Violation.fdc_invalid = 2 ^ 9
flag Violation.ftso_invalid = 2 ^ 7
flag Violation.cap_exceeded = 2 ^ 8

unfoldable pub reason_of : Violation → PublicReasonClass
reason_of Violation.policy_denied = PublicReasonClass.policy_denied
reason_of Violation.target_denied = PublicReasonClass.target_denied
reason_of Violation.requester_denied = PublicReasonClass.requester_denied
reason_of Violation.action_denied = PublicReasonClass.action_denied
reason_of Violation.occurrence_exceeded = PublicReasonClass.occurrence_exceeded
reason_of Violation.cooldown = PublicReasonClass.cooldown
reason_of Violation.insufficient_balance = PublicReasonClass.insufficient_balance
reason_of Violation.fdc_invalid = PublicReasonClass.fdc_invalid
reason_of Violation.ftso_invalid = PublicReasonClass.ftso_invalid
reason_of Violation.cap_exceeded = PublicReasonClass.cap_exceeded

abbrev pub priority : List Violation
priority =
    Violation.policy_denied ∷ Violation.target_denied ∷ Violation.requester_denied
    ∷ Violation.action_denied ∷ Violation.occurrence_exceeded ∷ Violation.cooldown
    ∷ Violation.insufficient_balance ∷ Violation.fdc_invalid ∷ Violation.ftso_invalid
    ∷ Violation.cap_exceeded ∷ []

-- `Object.values(POLICY_VIOLATION_V1).reduce((mask, violation) => mask | violation, 0n)`
unfoldable pub mask_from : ℕ → List Violation → ℕ
unfolding flag
mask_from mask [] = mask
mask_from mask (v ∷ vs) = mask_from (bit_or mask (flag v)) vs

unfoldable pub policy_violation_mask : ℕ
unfolding mask_from
policy_violation_mask = mask_from 0 priority

-- `n & ~m`
unfoldable pub and_not : ℕ → ℕ → ℕ
and_not n m = n - bit_and n m

unfoldable pub has_flag : ℕ → Violation → Bool
has_flag violations v = not (bit_and violations (flag v) == 0)

pub record Composed : Type 0 where
  pub decision : Decision
  pub public_reason_class : PublicReasonClass

-- The loop over the priorities.
unfoldable pub first_reason : ℕ → List Violation → Composed
first_reason violations [] = record { decision = allow; public_reason_class = reason_ok }
first_reason violations (v ∷ vs) =
    if has_flag violations v
    then record { decision = deny; public_reason_class = reason_of v }
    else first_reason violations vs

unfoldable pub compose_policy_decision : ℤ → Composed
compose_policy_decision violations =
    if ltb_ℤ violations (pos 0) || not (and_not (pos_part violations) policy_violation_mask == 0)
    then record { decision = deny; public_reason_class = malformed }
    else first_reason (pos_part violations) priority

-- `violations |= flag` under a test.
unfoldable pub raise : Bool → Violation → ℕ → ℕ
raise test v violations = if test then bit_or violations (flag v) else violations
