-- ===== src/Base/Bits.antt =====
-- A mask bounds what it lets through.
use Prim.Native.Nat.{ℕ, zero, suc, ◌/◌, ◌≤◌, min, bit_and, digits, bit_and-bitwise}
use native.Mathlib.Omega.{arith}

digits-le : (n a b : ℕ) → digits (λ _. zero) min n a b ≤ b
digits-le zero zero b = omega arith
digits-le zero (suc a) b = omega arith
digits-le (suc n) zero b = omega arith
digits-le (suc n) (suc a) b = omega (arith, digits-le n (suc a / 2) (b / 2))

pub bit_and-le : (a b : ℕ) → bit_and a b ≤ b
bit_and-le a b = rw (bit_and-bitwise a b) (digits-le a a b)
