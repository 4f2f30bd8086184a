-- ===== src/Text/Decimal.antt =====
-- `BigInt.prototype.toString` and `BigInt(text)` on unsigned decimals, and the regular expression
-- `/^(0|[1-9][0-9]*)$/`. The fuel of the digits is one more than the number, and each digit divides
-- the number by ten.
use xrp_payguard.Base.{
  ℕ, zero, suc, ◌+◌, ◌-◌, ◌*◌, ◌/◌, ◌%◌, ◌<◌, ◌≡◌, refl, ◌∙◌, Bool, true, false, ◌&&◌, ◌||◌, ltb,
  leb, ◌==◌, [], ◌∷◌, ◌++◌, all, inl, inr, Bool-cases, arith, if◌then◌else◌,
}
use xrp_payguard.Base.Int.{ℤ, pos, negsuc}
use xrp_payguard.Text.{Text}

unfoldable pub digits : ℕ → ℕ → Text
digits zero n = []
digits (suc fuel) n =
    let rest = digits fuel (n / 10) in
    if ltb n 10 then (b'0' + n) ∷ [] else rest ++ ((b'0' + n % 10) ∷ [])

unfoldable pub decimal : ℕ → Text
unfolding digits
decimal n = digits (suc n) n

unfoldable pub value_from : ℕ → Text → ℕ
value_from acc [] = acc
value_from acc (c ∷ t) = value_from (acc * 10 + (c - b'0')) t

-- `BigInt(text)` of a text that the regular expression accepts.
unfoldable pub decimal_value : Text → ℕ
unfolding value_from
decimal_value t = value_from 0 t

unfoldable pub is_digit : ℕ → Bool
is_digit c = leb b'0' c && leb c b'9'

abbrev is_empty : Text → Bool
is_empty [] = true
is_empty (_ ∷ _) = false

unfoldable pub is_decimal : Text → Bool
unfolding is_digit
is_decimal [] = false
is_decimal (c ∷ t) = c == b'0' && is_empty t || leb b'1' c && (leb c b'9' && all is_digit t)

-- What a positive number is written as: no leading zero.
is_positive : Text → Bool
is_positive [] = false
is_positive (c ∷ t) = leb b'1' c && (leb c b'9' && all is_digit t)

is_digit-last : (n : ℕ) → is_digit (b'0' + n % 10) ≡ true
unfolding is_digit
is_digit-last n = ground arith

all-snoc :
    (t : Text) (c : ℕ)
    → all is_digit t ≡ true
    → is_digit c ≡ true
    → all is_digit (t ++ (c ∷ [])) ≡ true
all-snoc [] c h k = rw k refl
all-snoc (d ∷ t) c h k = ground (arith, all-snoc t c)

is_positive-snoc :
    (t : Text) (n : ℕ) → is_positive t ≡ true → is_positive (t ++ ((b'0' + n % 10) ∷ [])) ≡ true
unfolding is_positive
is_positive-snoc [] n h = cc
is_positive-snoc (c ∷ t) n h = ground (arith, all-snoc t (b'0' + n % 10), is_digit-last n)

is_positive-digits : (fuel n : ℕ) → n < fuel → 0 < n → is_positive (digits fuel n) ≡ true
unfolding digits is_positive
is_positive-digits zero n h k = absurd (omega arith)
is_positive-digits (suc fuel) n h k = elim (Bool-cases (ltb n 10)) [
  | inl small ↦ rw small (ground arith)
  | inr large ↦ rw large (
      is_positive-snoc (digits fuel (n / 10)) n
        (is_positive-digits fuel (n / 10) (ground arith) (ground arith)))
]

is_positive-is_decimal : (t : Text) → is_positive t ≡ true → is_decimal t ≡ true
unfolding is_positive is_decimal
is_positive-is_decimal [] h = cc
is_positive-is_decimal (c ∷ t) h = ground arith

pub is_decimal-decimal : (n : ℕ) → is_decimal (decimal n) ≡ true
unfolding decimal
is_decimal-decimal zero = unfold is_decimal digits in refl
is_decimal-decimal (suc n) =
    is_positive-is_decimal (decimal (suc n))
      (is_positive-digits (suc (suc n)) (suc n) (omega arith) (omega arith))

value_from-snoc :
    (acc : ℕ) (t : Text) (c : ℕ)
    → value_from acc (t ++ (c ∷ [])) ≡ value_from acc t * 10 + (c - b'0')
unfolding value_from
value_from-snoc acc [] c = refl
value_from-snoc acc (d ∷ t) c = value_from-snoc (acc * 10 + (d - b'0')) t c

value_from-digits : (fuel n : ℕ) → n < fuel → value_from 0 (digits fuel n) ≡ n
unfolding digits
value_from-digits zero n h = absurd (omega arith)
value_from-digits (suc fuel) n h = elim (Bool-cases (ltb n 10)) [
  | inl small ↦ rw small (unfold value_from in omega arith)
  | inr large ↦ rw large (
      value_from-snoc 0 (digits fuel (n / 10)) (b'0' + n % 10)
      ∙ (rw (value_from-digits fuel (n / 10) (ground arith)) (omega arith)))
]

-- A number read back from its decimal spelling is the number.
pub decimal_value-decimal : (n : ℕ) → decimal_value (decimal n) ≡ n
unfolding decimal_value decimal
decimal_value-decimal n = value_from-digits (suc n) n (omega arith)

-- `value.toString()` of a `bigint`.
abbrev pub to_string : ℤ → Text
to_string (pos n) = decimal n
to_string (negsuc n) = b'-' ∷ decimal (suc n)
