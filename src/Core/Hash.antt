-- ===== src/Core/Hash.antt =====
-- src/core/value.rs: `Hash for Value`. A hasher (ahash in the program) is a function of what is
-- written to it, one item for each call of `hash`.
use dbobj.Base.{ℕ, ◌≡◌, refl, arith, Bool, true, false, List, [], ◌∷◌, Text, text_beq_sound}
use dbobj.Base.Int.{ℤ, pos, negsuc, int_beq}
use dbobj.Core.Float.{Float}
use dbobj.Core.Value.{
  Value, null, integer, float, string, interned_string, boolean, blob, value_beq, same_value,
}

-- The types whose `hash` the code calls; `hash_i32` is for the tags.
pub data Written : Type 0 where
  hash_i32 : ℕ → Written
  hash_i64 : ℤ → Written
  hash_u64 : ℕ → Written
  hash_str : Text → Written
  hash_symbol : ℕ → Written
  hash_bool : Bool → Written
  hash_bytes : List ℕ → Written

module _ {F : Type 0} ⦃fl : Float F⦄ where
  unfoldable pub hash : Value F → List Written
  hash null = hash_i32 0 ∷ []
  hash (integer i) = hash_i32 1 ∷ hash_i64 i ∷ []
  hash (float f) = hash_i32 2 ∷ hash_u64 (fl.to_bits f) ∷ []
  hash (string s) = hash_i32 3 ∷ hash_str s ∷ []
  hash (interned_string id) = hash_i32 3 ∷ hash_symbol id ∷ []
  hash (boolean b) = hash_i32 4 ∷ hash_bool b ∷ []
  hash (blob b) = hash_i32 5 ∷ hash_bytes b ∷ []

  -- `hasher.hash_one(&val)`
  unfoldable pub hash_by : (List Written → ℕ) → Value F → ℕ
  unfolding hash
  hash_by hasher v = hasher (hash v)

int_beq_sound : (a b : ℤ) → int_beq a b ≡ true → a ≡ b
int_beq_sound (pos a) (pos b) h = ground arith
int_beq_sound (negsuc a) (negsuc b) h = ground arith
int_beq_sound (pos a) (negsuc b) h = cc
int_beq_sound (negsuc a) (pos b) h = cc

module _ {F : Type 0} ⦃fl : Float F⦄ where
  -- Two values that are one key of a hash map write the same.
  pub hash-same_value : (v w : Value F) → same_value v w ≡ true → hash v ≡ hash w
  unfolding hash same_value value_beq
  hash-same_value null null h = refl
  hash-same_value (integer a) (integer b) h = rw (int_beq_sound a b h) refl
  hash-same_value (float a) (float b) h = ground arith
  hash-same_value (string a) (string b) h = rw (text_beq_sound a b h) refl
  hash-same_value (interned_string a) (interned_string b) h = ground arith
  hash-same_value (boolean true) (boolean true) h = refl
  hash-same_value (boolean false) (boolean false) h = refl
  hash-same_value (blob a) (blob b) h = rw (text_beq_sound a b h) refl
  hash-same_value _ _ h = cc
