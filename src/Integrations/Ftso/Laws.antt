-- ===== src/Integrations/Ftso/Laws.antt =====
-- The conversion of an amount agrees with the evaluator's.
use native.Mathlib.Nat.{le-div_iff_mul-le, one-le-pow}
use xrp_payguard.Base.{
  ℕ, zero, suc, ◌+◌, ◌-◌, ◌*◌, ◌/◌, ◌^◌, ◌≤◌, ◌<◌, ◌≡◌, refl, ap, true, false, or-false, ◌||◌, some,
  leb, arith,
}
use xrp_payguard.Base.Int.{ℤ, pos, pos_part, ◌+ℤ◌, ◌-ℤ◌, ◌*ℤ◌, ◌/ℤ◌, ltb_ℤ, leb_ℤ, max_uint256}
use xrp_payguard.Failure.{ok}
use xrp_payguard.Protocol.Types.{FtsoSnapshot}
use xrp_payguard.Protocol.Evaluator.Inputs.{reference_value}
use xrp_payguard.Protocol.Evaluator.Reference.{reference_value-ceil, guards, out_of_bounds}
use xrp_payguard.Integrations.Ftso.{round_up, reference_value_ceil}

div_unique : (m n s : ℕ) → 0 < s → n * s ≤ m → m < n * s + s → m / s ≡ n
div_unique m n s h low high =
    let below : n ≤ m / s = (le-div_iff_mul-le {k = s} {x = n} {y = m} h).1 low in
    let above : ¬ (suc n ≤ m / s) =
      λ q. let z = (le-div_iff_mul-le {k = s} {x = suc n} {y = m} h).0 q in omega arith in
    omega arith

le-mul : (n s : ℕ) → 0 < s → n ≤ n * s
le-mul n zero h = absurd (omega arith)
le-mul n (suc s) h = omega arith

quotient_fits : (n s q : ℕ) → 0 < s → n * s < q + s → n ≤ q
quotient_fits zero s q h high = omega arith
quotient_fits (suc n) s q h high = let m : n ≤ n * s = le-mul n s h in omega (arith, m)

rounded :
    (a p n s : ℕ)
    → 0 < s
    → a * p ≤ n * s
    → n * s < a * p + s
    → round_up (pos a) (pos p) (pos s) ≡ pos n
unfolding round_up ◌+ℤ◌ ◌-ℤ◌ ◌*ℤ◌ ◌/ℤ◌
rounded a p n s h low high =
    let e : leb 1 (a * p + s) ≡ true = ground arith in
    rw e (ap pos (div_unique (a * p + s - 1) n s h (omega arith) (omega arith)))

same_guards :
    (amount price decimals : ℤ)
    → out_of_bounds amount price decimals ≡ false
    → (ltb_ℤ amount (pos 0)
        || (leb_ℤ price (pos 0) || (ltb_ℤ decimals (pos 0) || ltb_ℤ (pos 36) decimals)))
      ≡ false
unfolding out_of_bounds
same_guards amount price decimals h =
    let (a, h1) = or-false (ltb_ℤ amount (pos 0)) _ h in
    let (_, h2) = or-false (ltb_ℤ max_uint256 amount) _ h1 in
    let (b, h3) = or-false (leb_ℤ price (pos 0)) _ h2 in
    let (_, h4) = or-false (ltb_ℤ max_uint256 price) _ h3 in rw (a, b) h4

fits : (n : ℕ) → n ≤ 2 ^ 256 - 1 → ltb_ℤ max_uint256 (pos n) ≡ false
fits n h = ground arith

value_of :
    (amount price decimals v : ℤ)
    → reference_value amount price decimals ≡ some v
    → (round_up amount price (pos (10 ^ pos_part decimals)) ≡ v) × (ltb_ℤ max_uint256 v ≡ false)
value_of amount price decimals v h =
    let (a, p, d, n, ea, ep, ed, ev, _, product, low, high) =
      reference_value-ceil amount price decimals v h in
    let scale = one-le-pow d 10 (omega arith) in
    let few = quotient_fits n (10 ^ d) (a * p) scale high in
    rw (ea, ep, ed, ev)
      (rounded a p n (10 ^ d) scale low high, fits n (omega (arith, few, product)))

-- Where the evaluator converts an amount, the conversion of the integrations gives the same value.
pub reference_value_ceil-reference_value :
    (amount v : ℤ) (snapshot : FtsoSnapshot)
    → reference_value amount snapshot.value snapshot.decimals ≡ some v
    → reference_value_ceil amount snapshot ≡ ok v
unfolding reference_value_ceil
reference_value_ceil-reference_value amount v snapshot h =
    let (good, product, _) = guards amount snapshot.value snapshot.decimals v h in
    let (value, bounded) = value_of amount snapshot.value snapshot.decimals v h in
    rw (same_guards amount snapshot.value snapshot.decimals good, product, value, bounded) refl
