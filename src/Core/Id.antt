-- ===== src/Core/Id.antt =====
-- src/core/id.rs: the type `Id`, here `RowId`, its equality and its value in the virtual column `id`.
use dbobj.Base.{
  ℕ, ◌≡◌, Bool, true, false, arith, ◌==◌, Text, text_beq, text_beq_refl, text_beq_sound,
}
use dbobj.Base.Int.{as_i64}
use dbobj.Core.Value.{Value}
use dbobj.Map.{Key}

pub data RowId : Type 0 where
  integer : ℕ → RowId
  string : Text → RowId

unfoldable pub id_beq : RowId → RowId → Bool
id_beq (integer a) (integer b) = a == b
id_beq (string a) (string b) = text_beq a b
id_beq _ _ = false

unfoldable pub to_value : {F : Type 0} → RowId → Value F
to_value (integer i) = Value.integer (as_i64 i)
to_value (string s) = Value.string s

pub id_beq_refl : (a : RowId) → id_beq a a ≡ true
unfolding id_beq
id_beq_refl (integer a) = ground arith
id_beq_refl (string s) = text_beq_refl s

pub id_beq_sound : (a b : RowId) → id_beq a b ≡ true → a ≡ b
unfolding id_beq
id_beq_sound (integer a) (integer b) h = ground arith
id_beq_sound (string s) (string t) h = ground (arith, text_beq_sound s t)
id_beq_sound _ _ h = ground arith

pub id_beq_sym : (a b : RowId) → id_beq a b ≡ true → id_beq b a ≡ true
id_beq_sym a b h = ground (arith, id_beq_sound a b, id_beq_refl a)

pub id_beq_trans : (a b c : RowId) → id_beq a b ≡ true → id_beq b c ≡ true → id_beq a c ≡ true
id_beq_trans a b c g h = ground (arith, id_beq_sound a b, id_beq_sound b c)

instance unfoldable pub id_key : Key RowId
id_key = record { same = id_beq; same_sym = id_beq_sym; same_trans = id_beq_trans }

text_beq_sym : (a b : Text) → text_beq a b ≡ true → text_beq b a ≡ true
text_beq_sym a b h = ground (arith, text_beq_sound a b, text_beq_refl a)

text_beq_trans : (a b c : Text) → text_beq a b ≡ true → text_beq b c ≡ true → text_beq a c ≡ true
text_beq_trans a b c g h = ground (arith, text_beq_sound a b, text_beq_sound b c)

instance unfoldable pub text_key : Key Text
unfolding text_beq_sym text_beq_trans
text_key = record { same = text_beq; same_sym = text_beq_sym; same_trans = text_beq_trans }
