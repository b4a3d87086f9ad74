-- ===== src/Core/Pool.antt =====
-- `StringPool` of src/core/value.rs. The crate string-interner under it is a parameter, with what
-- its documentation says of symbols.
use dbobj.Base.{ℕ, ◌≡◌, Option, some, List, [], ◌∷◌, Text}

-- A `StringInterner`: a symbol is the number of its string.
pub record Interner (P : Type 0) : Type 0 where
  pub empty : P
  pub get_or_intern : P → Text → ℕ × P
  pub get : P → Text → Option ℕ
  pub resolve : P → ℕ → Option Text
  -- the strings, in the order of their symbols
  pub iter : P → List Text
  -- a symbol resolves to its string, and goes on doing so
  pub resolve-intern :
      (p : P) (s : Text) → resolve (get_or_intern p s).1 (get_or_intern p s).0 ≡ some s
  pub resolve-intern_old :
      (p : P) (s : Text) (k : ℕ) (t : Text)
      → resolve p k ≡ some t
      → resolve (get_or_intern p s).1 k ≡ some t
  -- a string that has a symbol keeps it
  pub intern_old : (p : P) (s : Text) (k : ℕ) → get p s ≡ some k → get_or_intern p s ≡ (k, p)
  pub get-intern : (p : P) (s : Text) → get (get_or_intern p s).1 s ≡ some (get_or_intern p s).0
  pub get-intern_old :
      (p : P) (s t : Text) (k : ℕ) → get p t ≡ some k → get (get_or_intern p s).1 t ≡ some k
  pub resolve-get : (p : P) (s : Text) (k : ℕ) → get p s ≡ some k → resolve p k ≡ some s

-- The pool, with the surrogate that is archived.
pub record StringPool (P : Type 0) : Type 0 where
  pub interner : P
  pub strings : List Text

module _ {P : Type 0} ⦃it : Interner P⦄ where
  unfoldable pub intern : StringPool P → Text → ℕ × StringPool P
  intern pool s = let (k, p) = it.get_or_intern pool.interner s in (k, record pool { interner = p })

  unfoldable pub get_id : StringPool P → Text → Option ℕ
  get_id pool s = it.get pool.interner s

  unfoldable pub resolve : StringPool P → ℕ → Option Text
  resolve pool k = it.resolve pool.interner k

  unfoldable pub prepare_for_archive : StringPool P → StringPool P
  prepare_for_archive pool = record pool { strings = it.iter pool.interner }

  -- the loop of `rebuild_from_archive`
  unfoldable pub intern_all : P → List Text → P
  intern_all p [] = p
  intern_all p (s ∷ rest) = intern_all (it.get_or_intern p s).1 rest

  unfoldable pub rebuild_from_archive : StringPool P → StringPool P
  unfolding intern_all
  rebuild_from_archive pool = record pool { interner = intern_all it.empty pool.strings }
