-- ===== src/Tests/Instances.antt =====
-- Instances of the parameters: floats that are natural numbers, strings that are numbered in a list,
-- and a journal that is the list of its entries.
use Prim.Native.Nat.{compare}
use mathlib.Core.Option
use dbobj.Base.{
  ℕ, zero, suc, ◌≡◌, refl, true, false, Option, none, some, List, [], ◌∷◌, ◌++◌, arith, ◌==◌,
  if◌then◌else◌, Text, text_beq, text_beq_refl, text_beq_sound, get_elem?, Option-cases, inl, inr,
}
use dbobj.Core.Float.{Float}
use dbobj.Core.Pool.{Interner}
use dbobj.Database.{Journal, WalEntry}
use dbobj.Sql.Parser.{ParseFloat}

==_sym : (a b : ℕ) → (a == b) ≡ true → (b == a) ≡ true
==_sym a b h = ground arith

==_trans : (a b c : ℕ) → (a == b) ≡ true → (b == c) ≡ true → (a == c) ≡ true
==_trans a b c g h = ground arith

instance unfoldable pub nat_float : Float ℕ
unfolding ==_sym ==_trans
nat_float = record {
  eq = λ a b. a == b;
  partial_cmp = λ a b. some (compare a b);
  is_nan = λ a. false;
  to_bits = λ a. a;
  zero_f64 = 0;
  eq_sym = ==_sym;
  eq_trans = ==_trans;
}

abbrev index_of : List Text → Text → Option ℕ
index_of [] s = none
index_of (x ∷ xs) s = if text_beq x s then some 0 else Option.map suc (index_of xs s)

abbrev intern_in : List Text → Text → ℕ × List Text
intern_in [] s = (0, s ∷ [])
intern_in (x ∷ xs) s =
    if text_beq x s then (0, x ∷ xs) else (let (k, ys) = intern_in xs s in (suc k, x ∷ ys))

resolve-intern : (p : List Text) (s : Text) → get_elem? (intern_in p s).1 (intern_in p s).0 ≡ some s
resolve-intern [] s = refl
resolve-intern (x ∷ xs) s = ground (arith, resolve-intern xs s, text_beq_sound x s)

resolve-intern_old :
    (p : List Text) (s : Text) (k : ℕ) (t : Text)
    → get_elem? p k ≡ some t
    → get_elem? (intern_in p s).1 k ≡ some t
resolve-intern_old [] s k t h = cc
resolve-intern_old (x ∷ xs) s zero t h = ground arith
resolve-intern_old (x ∷ xs) s (suc k) t h = ground (arith, resolve-intern_old xs s k t)

intern_old : (p : List Text) (s : Text) (k : ℕ) → index_of p s ≡ some k → intern_in p s ≡ (k, p)
intern_old [] s k h = cc
intern_old (x ∷ xs) s k h = elim (Option-cases (index_of xs s)) [
  | inl e ↦ ground (arith, e)
  | inr (n, e) ↦ ground (arith, e, intern_old xs s n e)
]

get-intern : (p : List Text) (s : Text) → index_of (intern_in p s).1 s ≡ some (intern_in p s).0
get-intern [] s = ground (arith, text_beq_refl s)
get-intern (x ∷ xs) s = ground (arith, get-intern xs s)

get-intern_old :
    (p : List Text) (s t : Text) (k : ℕ)
    → index_of p t ≡ some k
    → index_of (intern_in p s).1 t ≡ some k
get-intern_old [] s t k h = cc
get-intern_old (x ∷ xs) s t k h = elim (Option-cases (index_of xs t)) [
  | inl e ↦ ground (arith, e)
  | inr (n, e) ↦ ground (arith, e, get-intern_old xs s t n e)
]

resolve-get : (p : List Text) (s : Text) (k : ℕ) → index_of p s ≡ some k → get_elem? p k ≡ some s
resolve-get [] s k h = cc
resolve-get (x ∷ xs) s k h = elim (Option-cases (index_of xs s)) [
  | inl e ↦ ground (arith, e, text_beq_sound x s)
  | inr (n, e) ↦ ground (arith, e, resolve-get xs s n e, text_beq_sound x s)
]

instance unfoldable pub list_interner : Interner (List Text)
unfolding resolve-intern resolve-intern_old intern_old get-intern get-intern_old resolve-get
list_interner = record {
  empty = [];
  get_or_intern = intern_in;
  get = index_of;
  resolve = get_elem?;
  iter = λ p. p;
  resolve-intern = resolve-intern;
  resolve-intern_old = resolve-intern_old;
  intern_old = intern_old;
  get-intern = get-intern;
  get-intern_old = get-intern_old;
  resolve-get = resolve-get;
}

instance unfoldable pub list_journal : {F : Type 0} → Journal F (List (WalEntry F))
list_journal = record { append = λ e w. w ++ e ∷ []; read_all = λ w. some w }

-- no number with a point is read
instance abbrev pub nat_floats : ParseFloat ℕ
nat_floats = record { parse_f64 = λ s. none }
