-- ===== src/Prelude/Division.antt =====
-- Quotient and remainder of native numbers.
use Prim.Native.Nat.div
use Prim.Native.Nat.mod
use Prim.Native.Nat.{ℕ, zero, suc, ◌+◌, ◌*◌, ◌/◌, ◌%◌, ◌≤◌, ◌<◌, div_helper, mod_helper}
use mathlib.Core.Path.{◌≡◌, sym}
use native.Mathlib.Omega.{arith}

helpers_lem :
    (k l m n j : ℕ)
    → l + j ≡ m
    → (div_helper k m n j * suc m + mod_helper l m n j ≡ k * suc m + (l + n))
      × (mod_helper l m n j ≤ m)
helpers_lem k l m zero j h = (omega arith, omega arith)
helpers_lem k l m (suc n) zero h = omega (arith, helpers_lem (suc k) 0 m n m (omega arith))
helpers_lem k l m (suc n) (suc j) h = omega (arith, helpers_lem k (suc l) m n j (omega arith))

pub div_mod : (a b : ℕ) → 0 < b → ((a / b) * b + a % b ≡ a) × (a % b < b)
div_mod a zero h = omega arith
div_mod a (suc m) h = omega (arith, helpers_lem 0 0 m a m (omega arith), div.suc a m, mod.suc a m)

factor_le : (q w b : ℕ) → 0 < b → q * b ≤ w * b → q ≤ w
factor_le zero w b h k = omega arith
factor_le (suc q) zero b h k = omega arith
factor_le (suc q) (suc w) b h k = omega (arith, factor_le q w b h (omega arith))

pub div_bound : (w a b : ℕ) → 0 < b → a ≤ w * b → a / b ≤ w
div_bound w a b h k = factor_le (a / b) w b h (omega (arith, div_mod a b h))

-- Nothing is left of a number whose quotient is the bound.
pub mod_bound : (w a b : ℕ) → 0 < b → a ≤ w * b → a / b ≡ w → a % b ≡ 0
mod_bound w a b h k e = let whole : w * b + a % b ≡ a = rw (sym e) (div_mod a b h).0 in omega arith

pub mul_mono : (a b w : ℕ) → a ≤ b → a * w ≤ b * w
mul_mono zero b w h = omega arith
mul_mono (suc a) zero w h = omega arith
mul_mono (suc a) (suc b) w h = omega (arith, mul_mono a b w (omega arith))
