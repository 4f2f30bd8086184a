-- ===== src/Protocol/Evaluator/Reference.antt =====
-- The conversion of an amount by a feed's price is the exact quotient rounded upward.
use native.Mathlib.Nat.{mul_comm, one-le-pow, div-add-mod', mod-lt, le-div_iff_mul-le}
use xrp_payguard.Base.{
  some-injective, ℕ, zero, suc, ◌+◌, ◌-◌, ◌*◌, ◌/◌, ◌%◌, ◌^◌, ◌≤◌, ◌<◌, ◌≡◌, refl, sym, ◌∙◌, subst,
  inl, inr, Bool, false, ◌||◌, ◌&&◌, not, some, ◌==◌, ltb, ==_iff, Bool-cases, or-false, arith,
  if◌then◌else◌,
}
use xrp_payguard.Base.Int.{
  ℤ, pos, negsuc, pos_part, ◌+ℤ◌, ◌*ℤ◌, ◌/ℤ◌, ◌%ℤ◌, ltb_ℤ, leb_ℤ, ◌==ℤ◌, max_uint256,
}
use xrp_payguard.Protocol.Evaluator.Inputs.{reference_value}

-- The quotient rounded upward, over the naturals.
ceiling : ℕ → ℕ → ℕ
ceiling p s = p / s + (if p % s == 0 then 0 else 1)

ceiling-bounds : (p s : ℕ) → 0 < s → (p ≤ ceiling p s * s) × (ceiling p s * s < p + s)
unfolding ceiling
ceiling-bounds p s h =
    let e = div-add-mod' p s in
    let r = mod-lt p h in
    elim (Bool-cases (p % s == 0)) [
      | inl exact ↦
          rw exact (let z : p % s ≡ 0 = (==_iff (p % s) 0).0 exact in (omega arith, omega arith))
      | inr more ↦ rw more (let z : 0 < p % s = ground arith in (omega arith, omega arith))
    ]

sign_of : (n : ℤ) → ltb_ℤ n (pos 0) ≡ false → (k : ℕ) × (n ≡ pos k)
sign_of (pos k) h = (k, refl)
sign_of (negsuc k) h = absurd (ground arith)

weaken : (n : ℤ) → leb_ℤ n (pos 0) ≡ false → ltb_ℤ n (pos 0) ≡ false
weaken n h = ground arith

product-bound :
    (a p : ℕ) → (not (a == 0) && ltb ((2 ^ 256 - 1) / a) p) ≡ false → a * p ≤ 2 ^ 256 - 1
product-bound zero p h = omega arith
product-bound (suc a) p h =
    let le : p ≤ (2 ^ 256 - 1) / suc a = ground arith in
    let m = (le-div_iff_mul-le {k = suc a} {x = p} {y = 2 ^ 256 - 1} (omega arith)).0 le in
    omega (arith, m, mul_comm (suc a) p)

-- The guards that a conversion has passed, and its value.
unfoldable pub out_of_bounds : ℤ → ℤ → ℤ → Bool
out_of_bounds amount price decimals =
    ltb_ℤ amount (pos 0)
    || (ltb_ℤ max_uint256 amount
        || (leb_ℤ price (pos 0)
            || (ltb_ℤ max_uint256 price || (ltb_ℤ decimals (pos 0) || ltb_ℤ (pos 36) decimals))))

pub guards :
    (amount price decimals v : ℤ)
    → reference_value amount price decimals ≡ some v
    → (out_of_bounds amount price decimals ≡ false)
      × ((not (amount ==ℤ pos 0) && ltb_ℤ (max_uint256 /ℤ amount) price) ≡ false)
      × (amount *ℤ price /ℤ pos (10 ^ pos_part decimals)
            +ℤ (if amount *ℤ price %ℤ pos (10 ^ pos_part decimals) ==ℤ pos 0 then pos 0 else pos 1)
          ≡ v)
unfolding reference_value out_of_bounds
guards amount price decimals v h = elim (Bool-cases (out_of_bounds amount price decimals)) [
  | inl bad ↦ cc (rw bad at h)
  | inr good ↦ elim (Bool-cases (not (amount ==ℤ pos 0) && ltb_ℤ (max_uint256 /ℤ amount) price)) [
    | inl large ↦ cc (rw (good, large) at h)
    | inr small ↦ (good, small, some-injective (rw (good, small) at h))
  ]
]

product_guard :
    (a p : ℕ)
    → (not (pos a ==ℤ pos 0) && ltb_ℤ (max_uint256 /ℤ pos a) (pos p)) ≡ false
    → (not (a == 0) && ltb ((2 ^ 256 - 1) / a) p) ≡ false
unfolding ◌/ℤ◌
product_guard a p h = ground arith

in_bounds :
    (amount price decimals : ℤ)
    → out_of_bounds amount price decimals ≡ false
    → (ltb_ℤ amount (pos 0) ≡ false)
      × (ltb_ℤ price (pos 0) ≡ false)
      × (ltb_ℤ decimals (pos 0) ≡ false)
      × (ltb_ℤ (pos 36) decimals ≡ false)
unfolding out_of_bounds
in_bounds amount price decimals h =
    let (a, h1) = or-false (ltb_ℤ amount (pos 0)) _ h in
    let (_, h2) = or-false (ltb_ℤ max_uint256 amount) _ h1 in
    let (b, h3) = or-false (leb_ℤ price (pos 0)) _ h2 in
    let (_, h4) = or-false (ltb_ℤ max_uint256 price) _ h3 in
    let (c, d) = or-false (ltb_ℤ decimals (pos 0)) (ltb_ℤ (pos 36) decimals) h4 in
    (a, weaken price b, c, d)

quotient :
    (p s : ℕ)
    → pos p /ℤ pos s +ℤ (if pos p %ℤ pos s ==ℤ pos 0 then pos 0 else pos 1) ≡ pos (ceiling p s)
unfolding ceiling ◌/ℤ◌ ◌%ℤ◌ ◌+ℤ◌
quotient p s = ground arith

at_naturals :
    (a p d : ℕ) (v : ℤ)
    → reference_value (pos a) (pos p) (pos d) ≡ some v
    → (n : ℕ) × (v ≡ pos n)
      × (d ≤ 36)
      × (a * p ≤ 2 ^ 256 - 1)
      × (a * p ≤ n * 10 ^ d)
      × (n * 10 ^ d < a * p + 10 ^ d)
unfolding ◌*ℤ◌
at_naturals a p d v h =
    let (good, small, e) = guards (pos a) (pos p) (pos d) v h in
    let (_, _, _, most) = in_bounds (pos a) (pos p) (pos d) good in
    let (low, high) = ceiling-bounds (a * p) (10 ^ d) (one-le-pow d 10 (omega arith)) in
    (
      ceiling (a * p) (10 ^ d),
      sym e ∙ quotient (a * p) (10 ^ d),
      ground arith,
      product-bound a p (product_guard a p small),
      low,
      high,
    )

-- The amount, the price and the decimals of a conversion that gives a value are natural numbers, the
-- decimals at most 36 and the product of amount and price below 2 ^ 256, and the value is the exact
-- quotient of that product by the power of ten, rounded upward.
pub reference_value-ceil :
    (amount price decimals v : ℤ)
    → reference_value amount price decimals ≡ some v
    → (a : ℕ) × (p : ℕ) × (d : ℕ) × (n : ℕ) × (amount ≡ pos a)
      × (price ≡ pos p)
      × (decimals ≡ pos d)
      × (v ≡ pos n)
      × (d ≤ 36)
      × (a * p ≤ 2 ^ 256 - 1)
      × (a * p ≤ n * 10 ^ d)
      × (n * 10 ^ d < a * p + 10 ^ d)
reference_value-ceil amount price decimals v h =
    let (good, small, e) = guards amount price decimals v h in
    let (ha, hp, hd, hm) = in_bounds amount price decimals good in
    let (a, ea) = sign_of amount ha in
    let (p, ep) = sign_of price hp in
    let (d, ed) = sign_of decimals hd in
    let (n, ev, most, product, low, high) = at_naturals a p d v (
      subst (λ x. reference_value (pos a) (pos p) x ≡ some v) ed
        (subst (λ x. reference_value (pos a) x decimals ≡ some v) ep
          (subst (λ x. reference_value x price decimals ≡ some v) ea h))) in
    (a, p, d, n, ea, ep, ed, ev, most, product, low, high)
