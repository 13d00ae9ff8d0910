-- ===== src/Base/Int.antt =====
-- Signed results of calls, under the library's name over the native numbers.
use Prim.Native.Nat.{ℕ}
use mathlib.Core.Path.{◌≡◌}
use mathlib.Core.Logic.{◌↔◌}
use mathlib.Core.Bool.{Bool, true, false}
use native.Mathlib.Omega.{arith}
use signal_tests.Base.Tests.{◌==◌ as nat_beq}

-- `negsuc n` is -(n + 1).
pub data ℤ : Type 0 where
  pos : ℕ → ℤ
  negsuc : ℕ → ℤ

infix 50 ◌=ℤ=◌
abbrev pub ◌=ℤ=◌ : ℤ → ℤ → Bool
pos a =ℤ= pos b = nat_beq a b
negsuc a =ℤ= negsuc b = nat_beq a b
_ =ℤ= _ = false

pub =ℤ=_iff : (a b : ℤ) → ((a =ℤ= b) ≡ true) ↔ (a ≡ b)
=ℤ=_iff (pos a) (pos b) = ground arith
=ℤ=_iff (pos a) (negsuc b) = ground arith
=ℤ=_iff (negsuc a) (pos b) = ground arith
=ℤ=_iff (negsuc a) (negsuc b) = ground arith

-- `x < 0`
abbrev pub negative : ℤ → Bool
negative (pos a) = false
negative (negsuc a) = true
