-- ===== src/Base/Int.antt =====
-- Signed integers: the values of Rust's `i64`, with their order.
use Prim.Native.Nat.{ℕ, suc, ◌-◌, ◌^◌, compare, Ordering}
use mathlib.Core.Bool.{Bool, false}
use dbobj.Base.Tests.{ltb, ◌==◌, if◌then◌else◌}

-- `negsuc n` is -(n + 1).
pub data ℤ : Type 0 where
  pos : ℕ → ℤ
  negsuc : ℕ → ℤ

abbrev pub int_beq : ℤ → ℤ → Bool
int_beq (pos a) (pos b) = a == b
int_beq (negsuc a) (negsuc b) = a == b
int_beq _ _ = false

abbrev pub int_cmp : ℤ → ℤ → Ordering
int_cmp (pos a) (pos b) = compare a b
int_cmp (pos a) (negsuc b) = Ordering.gt
int_cmp (negsuc a) (pos b) = Ordering.lt
int_cmp (negsuc a) (negsuc b) = compare b a

-- `i as i64` of a `u64`: the upper half of the range wraps to the negative numbers.
abbrev pub as_i64 : ℕ → ℤ
as_i64 i = if ltb i (2 ^ 63) then pos i else negsuc (2 ^ 64 - suc i)
