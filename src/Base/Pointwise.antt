-- ===== src/Base/Pointwise.antt =====
-- Slices item by item.
use Prim.Native.Nat.{ℕ, zero, suc, ◌+◌, ◌-◌, ◌≤◌, ◌<◌}
use mathlib.Core.Path.{◌≡◌, refl, ap, ◌∙◌}
use mathlib.Core.Bool.{◌&&◌}
use mathlib.Core.List.{List, [], ◌∷◌}
use mathlib.Core.Option.{none, some}
use native.Mathlib.Omega.{arith}
use dbobj.Base.Lists.{length, take, drop, get_elem?, set}
use dbobj.Base.Slice.{slice, take-length}
use dbobj.Base.Tests.{ltb, ◌==◌, if◌then◌else◌}

module _ {ℓ} {A : Type ℓ} where
  -- Two lists are equal if they agree at each index.
  pub list_ext : (xs ys : List A) → ((k : ℕ) → get_elem? xs k ≡ get_elem? ys k) → xs ≡ ys
  list_ext [] [] h = refl
  list_ext [] (y ∷ ys) h = cc (h 0)
  list_ext (x ∷ xs) [] h = cc (h 0)
  list_ext (x ∷ xs) (y ∷ ys) h = cc (h 0, list_ext xs ys (λ k. h (suc k)))

  pub get_elem?-drop :
      (n : ℕ) (xs : List A) (k : ℕ) → get_elem? (drop n xs) k ≡ get_elem? xs (n + k)
  get_elem?-drop zero xs k = ap (get_elem? xs) (omega arith)
  get_elem?-drop (suc n) [] k = ground arith
  get_elem?-drop (suc n) (x ∷ xs) k = get_elem?-drop n xs k ∙ ground arith

  pub get_elem?-take :
      (n : ℕ) (xs : List A) (k : ℕ)
      → get_elem? (take n xs) k ≡ (if ltb k n then get_elem? xs k else none)
  get_elem?-take zero xs k = ground arith
  get_elem?-take (suc n) [] k = ground arith
  get_elem?-take (suc n) (x ∷ xs) zero = ground arith
  get_elem?-take (suc n) (x ∷ xs) (suc k) = get_elem?-take n xs k ∙ ground arith

  pub get_elem?-set :
      (xs : List A) (i : ℕ) (v : A) (k : ℕ)
      → get_elem? (set xs i v) k
        ≡ (if (k == i) && ltb i (length xs) then some v else get_elem? xs k)
  get_elem?-set [] i v k = ground arith
  get_elem?-set (x ∷ xs) zero v zero = ground arith
  get_elem?-set (x ∷ xs) zero v (suc k) = ground arith
  get_elem?-set (x ∷ xs) (suc i) v zero = ground arith
  get_elem?-set (x ∷ xs) (suc i) v (suc k) = get_elem?-set xs i v k ∙ ground arith

  -- Two slices are equal if they agree item by item.
  pub slice-ext :
      (xs ys : List A) (s s' n : ℕ)
      → s + n ≤ length xs
      → s' + n ≤ length ys
      → ((k : ℕ) → k < n → get_elem? xs (s + k) ≡ get_elem? ys (s' + k))
      → slice xs s n ≡ slice ys s' n
  unfolding slice
  slice-ext xs ys s s' n h h' e = ground (
    arith,
    list_ext (take n (drop s xs)) (take n (drop s' ys)) λ k. ground (
      arith,
      get_elem?-take n (drop s xs) k,
      get_elem?-take n (drop s' ys) k,
      get_elem?-drop s xs k,
      get_elem?-drop s' ys k,
      e k,
    ),
  )

  slice_all : (vs : List A) (n : ℕ) → length vs ≡ n → slice vs 0 n ≡ some vs
  unfolding slice
  slice_all vs n w = ground (arith, take-length vs)

  -- a slice that is known item by item
  pub slice-eq :
      (xs vs : List A) (s n : ℕ)
      → s + n ≤ length xs
      → length vs ≡ n
      → ((k : ℕ) → k < n → get_elem? xs (s + k) ≡ get_elem? vs k)
      → slice xs s n ≡ some vs
  slice-eq xs vs s n h w e =
      slice-ext xs vs s 0 n h (omega (arith, w)) (λ k q. e k q ∙ ap (get_elem? vs) (omega arith))
      ∙ slice_all vs n w

module _ {ℓ} {A : Type ℓ} where
  pub get_elem?-cons :
      (x : A) (xs : List A) (k : ℕ)
      → get_elem? (x ∷ xs) k ≡ (if k == 0 then some x else get_elem? xs (k - 1))
  get_elem?-cons x xs zero = ground arith
  get_elem?-cons x xs (suc k) = ground arith
