-- ===== src/Base/Slice.antt =====
-- Slices of a flat vector: rows of a fixed width, one behind the other.
use Prim.Native.Nat.{ℕ, zero, suc, ◌+◌, ◌-◌, ◌≤◌, ◌<◌}
use mathlib.Core.Path.{◌≡◌, refl, ap}
use mathlib.Core.List.{List, [], ◌∷◌, ◌++◌}
use mathlib.Core.Option.{Option, none, some}
use native.Mathlib.Omega.{arith}
use dbobj.Base.Tests.{leb, ltb, ◌==◌, if◌then◌else◌}
use dbobj.Base.Lists.{length, take, drop, get_elem?, length-append, length-drop}

module _ {ℓ} {A : Type ℓ} where
  -- `&xs[start..start + len]`, which panics (`none`) past the end.
  unfoldable pub slice : List A → ℕ → ℕ → Option (List A)
  slice xs start len =
      if leb (start + len) (length xs) then some (take len (drop start xs)) else none

  pub get_elem?-lt : (xs : List A) (i : ℕ) → i < length xs → (x : A) × (get_elem? xs i ≡ some x)
  get_elem?-lt [] i h = absurd (omega arith)
  get_elem?-lt (x ∷ xs) zero h = (x, refl)
  get_elem?-lt (x ∷ xs) (suc i) h = get_elem?-lt xs i (omega arith)

  pub lt_of_get_elem? : (xs : List A) (i : ℕ) {x : A} → get_elem? xs i ≡ some x → i < length xs
  lt_of_get_elem? [] i h = cc
  lt_of_get_elem? (x ∷ xs) zero h = omega arith
  lt_of_get_elem? (x ∷ xs) (suc i) h = omega (arith, lt_of_get_elem? xs i h)

  pub get_elem?-append_left :
      (xs ys : List A) (i : ℕ) → i < length xs → get_elem? (xs ++ ys) i ≡ get_elem? xs i
  get_elem?-append_left [] ys i h = absurd (omega arith)
  get_elem?-append_left (x ∷ xs) ys zero h = refl
  get_elem?-append_left (x ∷ xs) ys (suc i) h = get_elem?-append_left xs ys i (omega arith)

  pub get_elem?-append_right :
      (xs ys : List A) (i : ℕ)
      → length xs ≤ i
      → get_elem? (xs ++ ys) i ≡ get_elem? ys (i - length xs)
  get_elem?-append_right [] ys i h = ap (get_elem? ys) (omega arith)
  get_elem?-append_right (x ∷ xs) ys zero h = absurd (omega arith)
  get_elem?-append_right (x ∷ xs) ys (suc i) h =
      rw (get_elem?-append_right xs ys i (omega arith)) (ap (get_elem? ys) (omega arith))

  take-append : (n : ℕ) (xs ys : List A) → n ≤ length xs → take n (xs ++ ys) ≡ take n xs
  take-append zero xs ys h = refl
  take-append (suc n) [] ys h = absurd (omega arith)
  take-append (suc n) (x ∷ xs) ys h = ap (λ l. x ∷ l) (take-append n xs ys (omega arith))

  drop-append : (n : ℕ) (xs ys : List A) → n ≤ length xs → drop n (xs ++ ys) ≡ drop n xs ++ ys
  drop-append zero xs ys h = refl
  drop-append (suc n) [] ys h = absurd (omega arith)
  drop-append (suc n) (x ∷ xs) ys h = drop-append n xs ys (omega arith)

  pub drop-length : (xs : List A) → drop (length xs) xs ≡ []
  drop-length [] = refl
  drop-length (x ∷ xs) = drop-length xs

  pub take-length : (xs : List A) → take (length xs) xs ≡ xs
  take-length [] = refl
  take-length (x ∷ xs) = ap (λ l. x ∷ l) (take-length xs)

  -- what is stored further on does not change a slice
  pub slice-append_left :
      (xs ys : List A) (start len : ℕ)
      → start + len ≤ length xs
      → slice (xs ++ ys) start len ≡ slice xs start len
  unfolding slice
  slice-append_left xs ys start len h = ground (
    arith,
    length-append xs ys,
    drop-append start xs ys,
    take-append len (drop start xs) ys,
    length-drop start xs,
  )

  -- the last slice is what was appended
  pub slice-append_right :
      (xs ys : List A) (start len : ℕ)
      → start ≡ length xs
      → len ≡ length ys
      → slice (xs ++ ys) start len ≡ some ys
  unfolding slice
  slice-append_right xs ys start len h k =
      ground (arith, length-append xs ys, drop-append start xs ys, drop-length xs, take-length ys)

  pub slice-le :
      (xs : List A) (start len : ℕ)
      → start + len ≤ length xs
      → (vs : List A) × (slice xs start len ≡ some vs)
  unfolding slice
  slice-le xs start len h = (take len (drop start xs), ground arith)

module _ {ℓ} {A : Type ℓ} where
  pub get_elem?-snoc :
      (xs : List A) (x : A) (i : ℕ)
      → get_elem? (xs ++ x ∷ []) i
        ≡ (if ltb i (length xs) then get_elem? xs i else if i == length xs then some x else none)
  get_elem?-snoc [] x zero = refl
  get_elem?-snoc [] x (suc i) = ground arith
  get_elem?-snoc (y ∷ xs) x zero = ground arith
  get_elem?-snoc (y ∷ xs) x (suc i) = ground (arith, get_elem?-snoc xs x i)
