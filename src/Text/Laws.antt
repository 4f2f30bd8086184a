-- ===== src/Text/Laws.antt =====
-- Equality of texts, and of hexadecimal texts whatever their case.
use xrp_payguard.Base.{ℕ, zero, suc, ◌≡◌, refl, ◌↔◌, true, [], ◌∷◌, arith, ◌==◌, and-true}
use xrp_payguard.Text.{
  Text, lower, to_lower_case, text_eq, same_hex, is_hex_digit, is_hex_run, is_hex32, is_hex_digits,
  is_hex,
}

pub text_eq_iff : (s t : Text) → (text_eq s t ≡ true) ↔ (s ≡ t)
unfolding text_eq
text_eq_iff [] [] = ground arith
text_eq_iff [] (b ∷ t) = ground arith
text_eq_iff (a ∷ s) [] = ground arith
text_eq_iff (a ∷ s) (b ∷ t) = ground (arith, text_eq_iff s t)

pub text_eq_refl : (s : Text) → text_eq s s ≡ true
text_eq_refl s = (text_eq_iff s s).1 refl

pub same_hex_iff : (s t : Text) → (same_hex s t ≡ true) ↔ (to_lower_case s ≡ to_lower_case t)
unfolding same_hex
same_hex_iff s t = text_eq_iff (to_lower_case s) (to_lower_case t)

lower_idem : (c : ℕ) → lower (lower c) ≡ lower c
unfolding lower
lower_idem c = ground arith

pub to_lower_case_idem : (t : Text) → to_lower_case (to_lower_case t) ≡ to_lower_case t
unfolding to_lower_case
to_lower_case_idem [] = refl
to_lower_case_idem (c ∷ t) = cc (lower_idem c, to_lower_case_idem t)

is_hex_digit-lower : (c : ℕ) → is_hex_digit c ≡ true → is_hex_digit (lower c) ≡ true
unfolding is_hex_digit lower
is_hex_digit-lower c h = ground arith

pub is_hex_run-to_lower_case :
    (n : ℕ) (t : Text) → is_hex_run n t ≡ true → is_hex_run n (to_lower_case t) ≡ true
unfolding is_hex_run to_lower_case
is_hex_run-to_lower_case zero [] h = refl
is_hex_run-to_lower_case zero (c ∷ t) h = cc
is_hex_run-to_lower_case (suc n) [] h = cc
is_hex_run-to_lower_case (suc n) (c ∷ t) h =
    ground (arith, is_hex_digit-lower c, is_hex_run-to_lower_case n t)

pub zero_digit : (z : ℕ) → (z == b'0') ≡ true → lower z ≡ b'0'
unfolding lower
zero_digit z h = ground arith

pub x_letter : (x : ℕ) → (x == b'x') ≡ true → lower x ≡ b'x'
unfolding lower
x_letter x h = ground arith

-- Folding the case keeps the shape of a bytes32.
pub is_hex32-to_lower_case : (t : Text) → is_hex32 t ≡ true → is_hex32 (to_lower_case t) ≡ true
unfolding is_hex32 to_lower_case
is_hex32-to_lower_case [] h = cc
is_hex32-to_lower_case (z ∷ []) h = cc
is_hex32-to_lower_case (z ∷ x ∷ t) h =
    let (first, rest) = and-true _ _ h in
    let (second, digits) = and-true _ _ rest in
    rw (zero_digit z first, x_letter x second, is_hex_run-to_lower_case 64 t digits)

pub is_hex_digits-is_hex_run :
    (n : ℕ) (t : Text) → is_hex_run (suc n) t ≡ true → is_hex_digits t ≡ true
unfolding is_hex_run is_hex_digits
is_hex_digits-is_hex_run n [] h = cc
is_hex_digits-is_hex_run zero (c ∷ []) h = ground arith
is_hex_digits-is_hex_run zero (c ∷ d ∷ t) h = ground arith
is_hex_digits-is_hex_run (suc n) (c ∷ []) h = ground arith
is_hex_digits-is_hex_run (suc n) (c ∷ d ∷ t) h =
    let (first, rest) = and-true (is_hex_digit c) (is_hex_run (suc n) (d ∷ t)) h in
    rw (first, is_hex_digits-is_hex_run n (d ∷ t) rest) refl

pub is_hex-is_hex32 : (t : Text) → is_hex32 t ≡ true → is_hex t ≡ true
unfolding is_hex32 is_hex
is_hex-is_hex32 [] h = cc
is_hex-is_hex32 (z ∷ []) h = cc
is_hex-is_hex32 (z ∷ x ∷ t) h =
    let (first, rest) = and-true (z == b'0') _ h in
    let (second, digits) = and-true (x == b'x') (is_hex_run 64 t) rest in
    rw (first, second, is_hex_digits-is_hex_run 63 t digits) refl
