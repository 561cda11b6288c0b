-- ===== src/Prelude/Int.antt =====
-- Signed integers: `i32` and `i64`. `negsuc n` is -(n + 1).
use Prim.Native.Nat.{ℕ, ◌<◌, ◌^◌}
use mathlib.Core.Path.{◌≡◌}
use mathlib.Core.Logic.{◌↔◌}
use mathlib.Core.Bool.{Bool, true, false}
use native.Mathlib.Omega.{arith}
use ilink_gateway.Prelude.Tests.{nat_eq}

pub data ℤ : Type 0 where
  pos : ℕ → ℤ
  negsuc : ℕ → ℤ

abbrev pub int_eq : ℤ → ℤ → Bool
int_eq (pos n) (pos m) = nat_eq n m
int_eq (negsuc n) (negsuc m) = nat_eq n m
int_eq _ _ = false

pub int_eq_iff : (a b : ℤ) → (int_eq a b ≡ true) ↔ (a ≡ b)
int_eq_iff (pos n) (pos m) = ground arith
int_eq_iff (negsuc n) (negsuc m) = ground arith
int_eq_iff (pos n) (negsuc m) = ground arith
int_eq_iff (negsuc n) (pos m) = ground arith

-- The range of an `i64`.
abbrev pub IsI64 : ℤ → Type 0
IsI64 (pos n) = n < 2 ^ 63
IsI64 (negsuc n) = n < 2 ^ 63
