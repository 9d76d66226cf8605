-- ===== src/Prelude/Products.antt =====
-- Products by a common factor, which the linear arithmetic does not read.
use Prim.Native.Nat.{ℕ, ◌+◌, ◌-◌, ◌*◌, ◌≤◌}
use mathlib.Core.Path.{◌≡◌, ap}
use native.Mathlib.Omega.{arith}

pub mul_mono_left : (a b c : ℕ) → a ≤ b → a * c ≤ b * c
mul_mono_left a b c h = grind arith

pub elapsed_split : (a c r : ℕ) → a ≤ c → (c - a) * r + a * r ≡ c * r
elapsed_split a c r h =
    let e : c - a + a ≡ c = omega arith in omega (arith, ap (λ (x : ℕ). x * r) e)
