-- ===== src/Core/Float.antt =====
-- `f64` is a parameter, with what IEEE 754 says of `==`.
use Prim.Native.Nat.{Ordering}
use dbobj.Base.{ℕ, ◌≡◌, Bool, true, Option}

pub record Float (F : Type 0) : Type 0 where
  -- `a == b`, which fails on a NaN and holds of 0.0 and -0.0
  pub eq : F → F → Bool
  pub partial_cmp : F → F → Option Ordering
  pub is_nan : F → Bool
  pub to_bits : F → ℕ
  pub zero_f64 : F
  pub eq_sym : (a b : F) → eq a b ≡ true → eq b a ≡ true
  pub eq_trans : (a b c : F) → eq a b ≡ true → eq b c ≡ true → eq a c ≡ true
