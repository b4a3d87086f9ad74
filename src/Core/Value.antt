-- ===== src/Core/Value.antt =====
-- src/core/value.rs: `Value`, its equality, its key in a hash map and its order.
use Prim.Native.Nat.{compare, Ordering}
use dbobj.Base.{
  ℕ, ◌≡◌, refl, Bool, true, false, ◌&&◌, none, some, List, arith, ◌==◌, Text, text_beq,
  text_beq_refl, text_beq_sound, text_cmp, if◌then◌else◌,
}
use dbobj.Base.Int.{ℤ, int_beq, int_cmp}
use dbobj.Core.Float.{Float}
use dbobj.Map.{Key}

pub data Value (F : Type 0) : Type 0 where
  null : Value F
  integer : ℤ → Value F
  float : F → Value F
  string : Text → Value F
  interned_string : ℕ → Value F
  boolean : Bool → Value F
  blob : List ℕ → Value F

unfoldable pub is_null : {F : Type 0} → Value F → Bool
is_null null = true
is_null v = false

abbrev pub bool_beq : Bool → Bool → Bool
bool_beq true true = true
bool_beq false false = true
bool_beq _ _ = false

abbrev pub cmp_bool : Bool → Bool → Ordering
cmp_bool false true = Ordering.lt
cmp_bool true false = Ordering.gt
cmp_bool _ _ = Ordering.eq

module _ {F : Type 0} ⦃fl : Float F⦄ where
  -- The derived `PartialEq`.
  unfoldable pub value_beq : Value F → Value F → Bool
  value_beq null null = true
  value_beq (integer a) (integer b) = int_beq a b
  value_beq (float a) (float b) = fl.eq a b
  value_beq (string a) (string b) = text_beq a b
  value_beq (interned_string a) (interned_string b) = a == b
  value_beq (boolean a) (boolean b) = bool_beq a b
  value_beq (blob a) (blob b) = text_beq a b
  value_beq _ _ = false

  -- What a hash map finds under a key: an equal value with the same hash. The hash of a float is
  -- that of its bits, so 0.0 and -0.0, which are equal, are two keys; any other two equal values
  -- have one hash.
  unfoldable pub same_value : Value F → Value F → Bool
  same_value (float a) (float b) = fl.eq a b && fl.to_bits a == fl.to_bits b
  same_value v w = value_beq v w

  -- `Ord for Value`, arm by arm.
  unfoldable pub cmp_float : F → F → Ordering
  cmp_float a b = elim (fl.partial_cmp a b) [
    | some o ↦ o
    | none ↦
        if fl.is_nan a && fl.is_nan b
        then Ordering.eq
        else if fl.is_nan a
        then Ordering.lt
        else Ordering.gt
  ]

  unfoldable pub value_cmp : Value F → Value F → Ordering
  value_cmp null null = Ordering.eq
  value_cmp null _ = Ordering.lt
  value_cmp _ null = Ordering.gt
  value_cmp (integer a) (integer b) = int_cmp a b
  value_cmp (integer _) _ = Ordering.lt
  value_cmp _ (integer _) = Ordering.gt
  value_cmp (float a) (float b) = cmp_float a b
  value_cmp (float _) _ = Ordering.lt
  value_cmp _ (float _) = Ordering.gt
  value_cmp (string a) (string b) = text_cmp a b
  value_cmp (string _) _ = Ordering.lt
  value_cmp _ (string _) = Ordering.gt
  value_cmp (interned_string a) (interned_string b) = compare a b
  value_cmp (interned_string _) _ = Ordering.lt
  value_cmp _ (interned_string _) = Ordering.gt
  value_cmp (boolean a) (boolean b) = cmp_bool a b
  value_cmp (boolean _) _ = Ordering.lt
  value_cmp _ (boolean _) = Ordering.gt
  value_cmp (blob a) (blob b) = text_cmp a b

  same_value_sym : (a b : Value F) → same_value a b ≡ true → same_value b a ≡ true
  unfolding same_value value_beq
  same_value_sym null null h = refl
  same_value_sym (integer a) (integer b) h = ground arith
  same_value_sym (float a) (float b) h = ground (arith, fl.eq_sym a b)
  same_value_sym (string a) (string b) h = ground (arith, text_beq_sound a b, text_beq_refl a)
  same_value_sym (interned_string a) (interned_string b) h = ground arith
  same_value_sym (boolean a) (boolean b) h = ground arith
  same_value_sym (blob a) (blob b) h = ground (arith, text_beq_sound a b, text_beq_refl a)
  same_value_sym _ _ h = cc

  same_value_trans :
      (a b c : Value F) → same_value a b ≡ true → same_value b c ≡ true → same_value a c ≡ true
  unfolding same_value value_beq
  same_value_trans (float a) (float b) (float c) g h = ground (arith, fl.eq_trans a b c)
  same_value_trans (string a) (string b) (string c) g h =
      ground (arith, text_beq_sound a b, text_beq_sound b c)
  same_value_trans (blob a) (blob b) (blob c) g h =
      ground (arith, text_beq_sound a b, text_beq_sound b c)
  same_value_trans (integer a) (integer b) (integer c) g h = ground arith
  same_value_trans (interned_string a) (interned_string b) (interned_string c) g h = ground arith
  same_value_trans (boolean a) (boolean b) (boolean c) g h = ground arith
  same_value_trans null null null g h = refl
  same_value_trans _ _ _ g h = cc

  instance unfoldable pub value_key : Key (Value F)
  unfolding same_value_sym same_value_trans
  value_key = record { same = same_value; same_sym = same_value_sym; same_trans = same_value_trans }
