-- ===== src/Protocol/Violations/Laws.antt =====
-- The composed decision is the first violation in the order of the source, for every word of flags;
-- and raising a flag makes it part of the word for good.
use xrp_payguard.Base.{
  or_false, ℕ, ◌/◌, ◌%◌, ◌^◌, ◌<◌, ◌≡◌, refl, Bool, true, false, ◌||◌, ◌&&◌, not, ◌==◌, List, [],
  ◌∷◌, if◌then◌else◌, all_below, all_below_sound, arith, ==_iff, Bool-cases, inl, inr, leb, ltb,
}
use xrp_payguard.Base.Int.{ℤ, pos, negsuc, ltb_ℤ, pos_part}
use xrp_payguard.Base.Bits.{bit_and-le}
use xrp_payguard.Protocol.Types.{Decision, allow, deny, reason_ok, malformed}
use xrp_payguard.Protocol.Violations.{
  Violation, flag, reason_of, priority, policy_violation_mask, and_not, has_flag, Composed,
  first_reason, compose_policy_decision, raise,
}

-- The position of a violation's bit.
abbrev pub position : Violation → ℕ
position Violation.policy_denied = 0
position Violation.target_denied = 1
position Violation.requester_denied = 2
position Violation.action_denied = 3
position Violation.occurrence_exceeded = 4
position Violation.cooldown = 5
position Violation.insufficient_balance = 6
position Violation.fdc_invalid = 9
position Violation.ftso_invalid = 7
position Violation.cap_exceeded = 8

-- The word holds the violation's bit.
abbrev pub holds : ℕ → Violation → Bool
holds n v = n / 2 ^ position v % 2 == 1

-- What a priority list decides about a word.
abbrev pub decide_by : (Violation → Bool) → List Violation → Composed
decide_by p [] = record { decision = allow; public_reason_class = reason_ok }
decide_by p (v ∷ vs) =
    if p v then record { decision = deny; public_reason_class = reason_of v } else decide_by p vs

agree : ℕ → Violation → Bool
agree n v = elim (has_flag n v) [ true ↦ holds n v | false ↦ not (holds n v) ]

has_flag_table : (v : Violation) → all_below 1024 (λ n. agree n v) ≡ true
unfolding all_below agree has_flag flag
has_flag_table Violation.policy_denied = refl
has_flag_table _ = refl

-- Below the mask the mask covers everything, and above it something is left.
mask_table : all_below 1024 (λ n. and_not n policy_violation_mask == 0) ≡ true
unfolding all_below and_not policy_violation_mask flag
mask_table = refl

mask_above : (n : ℕ) → 1023 < n → (and_not n policy_violation_mask == 0) ≡ false
unfolding and_not policy_violation_mask flag
mask_above n h = ground (arith, bit_and-le n 1023)

pub has_flag-eq-holds : (n : ℕ) (v : Violation) → n < 1024 → has_flag n v ≡ holds n v
unfolding agree
has_flag-eq-holds n v h =
    ground (arith, all_below_sound 1024 (λ n. agree n v) n (has_flag_table v) h)

not_negative : (n : ℕ) → ltb_ℤ (pos n) (pos 0) ≡ false
not_negative n = ground arith

negative : (n : ℕ) → ltb_ℤ (negsuc n) (pos 0) ≡ true
negative n = ground arith

first_reason-eq :
    (n : ℕ) (vs : List Violation) → n < 1024 → first_reason n vs ≡ decide_by (holds n) vs
unfolding first_reason
first_reason-eq n [] h = refl
first_reason-eq n (v ∷ vs) h = rw (has_flag-eq-holds n v h, first_reason-eq n vs h)

-- Of every word of flags: a negative word and one with a bit outside the ten flags is malformed;
-- any other is denied for the first of its violations in the order of the source, and allowed when
-- it has none.
pub compose_policy_decision-eq :
    (violations : ℤ)
    → compose_policy_decision violations ≡ (
        if ltb_ℤ violations (pos 0) || leb 1024 (pos_part violations)
        then record { decision = deny; public_reason_class = malformed }
        else decide_by (holds (pos_part violations)) priority)
unfolding compose_policy_decision
compose_policy_decision-eq (negsuc n) = rw (negative n)
compose_policy_decision-eq (pos n) = elim (Bool-cases (leb 1024 n)) [
  | inl large ↦ rw (not_negative n, large, mask_above n (ground arith))
  | inr small ↦
      let bound : n < 1024 = ground arith in
      rw (not_negative n, small, all_below_sound 1024 _ n mask_table bound)
        (first_reason-eq n priority bound)
]

is_denied : Decision → Bool
is_denied allow = false
is_denied deny = true

zero_table :
    all_below 1024 (λ n. n == 0 || is_denied (decide_by (holds n) priority).decision) ≡ true
unfolding all_below is_denied
zero_table = refl

-- Nothing but the empty word is allowed.
pub compose-allow : (n : ℕ) → (compose_policy_decision (pos n)).decision ≡ allow → n ≡ 0
unfolding is_denied
compose-allow n e =
    let spec : (if ltb_ℤ (pos n) (pos 0) || leb 1024 n
          then record { decision = deny; public_reason_class = malformed }
          else decide_by (holds n) priority).decision
        ≡ allow =
      rw (compose_policy_decision-eq (pos n)) at e in
    elim (Bool-cases (leb 1024 n)) [
      | inl large ↦ cc (rw (not_negative n, large) at spec)
      | inr small ↦
          let allowed : (decide_by (holds n) priority).decision ≡ allow =
            rw (not_negative n, small) at spec in
          let tested = all_below_sound 1024 _ n zero_table (ground arith) in
          (==_iff n 0).0 (rw (allowed, or_false) at tested)
    ]

raise_table :
    (v : Violation)
    → all_below 1024 (λ n. not (raise true v n == 0) && ltb (raise true v n) 1024) ≡ true
unfolding all_below raise flag
raise_table Violation.policy_denied = refl
raise_table _ = refl

-- Raising keeps the word within the mask, and leaves it empty only where nothing was raised.
pub raise_bound : (b : Bool) (v : Violation) (n : ℕ) → n < 1024 → raise b v n < 1024
raise_bound true v n h = ground (arith, all_below_sound 1024 _ n (raise_table v) h)
raise_bound false v n h = unfold raise in h

pub raise-eq-zero :
    (b : Bool) (v : Violation) (n : ℕ) → n < 1024 → raise b v n ≡ 0 → (b ≡ false) × (n ≡ 0)
raise-eq-zero true v n h e = ground (arith, all_below_sound 1024 _ n (raise_table v) h)
raise-eq-zero false v n h e = (refl, unfold raise in e)
