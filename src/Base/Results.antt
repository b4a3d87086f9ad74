-- ===== src/Base/Results.antt =====
-- The result of a Rust call, and calls that change a state: `&mut self` methods.
use mathlib.Core.List.{List, [], ◌∷◌, ◌++◌}
use mathlib.Core.Path.{◌≡◌, refl, sym, ap, subst}
use mathlib.Core.Option.{Option, none, some}

-- A value, an `Err`, or a panic.
pub data Res {ℓ κ} (E : Type ℓ) (A : Type κ) : Type (ℓ ⊔ κ) where
  ok : A → Res E A
  err : E → Res E A
  panic : Res E A

-- A method on a state `S`. An error keeps what was changed before it.
abbrev pub Call {ℓ κ μ} : Type ℓ → Type κ → Type μ → Type (ℓ ⊔ κ ⊔ μ)
Call S E A = S → S × Res E A

module _ {ℓ κ μ ν} {S : Type ℓ} {E : Type κ} {A : Type μ} {B : Type ν} where
  abbrev pub after : S × Res E A → (A → Call S E B) → S × Res E B
  after (s, Res.ok a) f = f a s
  after (s, Res.err e) f = (s, Res.err e)
  after (s, Res.panic) f = (s, Res.panic)

  infixl 5 ◌>>=◌
  abbrev pub ◌>>=◌ : Call S E A → (A → Call S E B) → Call S E B
  ◌>>=◌ m f s = after (m s) f

module _ {ℓ κ μ} {S : Type ℓ} {E : Type κ} {A : Type μ} where
  abbrev pub pure : A → Call S E A
  pure a s = (s, Res.ok a)

  abbrev pub lift : Res E A → Call S E A
  lift r s = (s, r)

  -- what may panic and changes nothing
  abbrev pub or_panic : Option A → Call S E A
  or_panic none s = (s, Res.panic)
  or_panic (some a) s = (s, Res.ok a)

  -- `opt.ok_or_else(…)?`
  abbrev pub ok_or : Option A → E → Call S E A
  ok_or none e s = (s, Res.err e)
  ok_or (some a) e s = (s, Res.ok a)

-- A loop that runs a call for each item and collects the results.
module _ {ℓ κ μ ν} {S : Type ℓ} {E : Type κ} {A : Type μ} {B : Type ν} where
  unfoldable pub each : (A → Call S E B) → List A → Call S E (List B)
  each f [] = pure []
  each f (x ∷ xs) = do y ← f x; ys ← each f xs; pure (y ∷ ys)

module _ {ℓ κ μ ν} {S : Type ℓ} {E : Type κ} {A : Type μ} {B : Type ν} where
  -- inversion of a successful call with a rest
  pub after-ok :
      (r : S × Res E A) (k : A → Call S E B) {s' : S} {b : B}
      → after r k ≡ (s', Res.ok b)
      → (s : S) × (a : A) × (r ≡ (s, Res.ok a)) × (k a s ≡ (s', Res.ok b))
  after-ok (s, Res.ok a) k e = (s, a, refl, e)
  after-ok (s, Res.err x) k e = cc (ap (λ p. p.1) e)
  after-ok (s, Res.panic) k e = cc (ap (λ p. p.1) e)

module _ {ℓ κ μ ν} {S : Type ℓ} {E : Type κ} {A : Type μ} {B : Type ν} where
  -- An error ends the loop; what the items before it changed stays.
  pub each-err :
      (f : A → Call S E B) (xs : List A) (y : A) (ys : List A) (s : S) {s' s'' : S} {bs : List B}
      {e : E}
      → each f xs s ≡ (s', Res.ok bs)
      → f y s' ≡ (s'', Res.err e)
      → each f (xs ++ y ∷ ys) s ≡ (s'', Res.err e)
  unfolding each
  each-err f [] y ys s {s'' = s''} {e = e} h k =
      let same = ap (λ (r : S × Res E (List B)). r.0) h in
      rw (subst (λ z. f y z ≡ (s'', Res.err e)) (sym same) k) refl
  each-err f (x ∷ xs) y ys s {s'' = s''} {e = e} h k =
      let (s1, b, p, q) = after-ok (f x s) _ h in
      let (s2, bs', p', q') = after-ok (each f xs s1) _ q in
      let same = ap (λ (r : S × Res E (List B)). r.0) q' in
      rw p (rw (each-err f xs y ys s1 p' (subst (λ z. f y z ≡ (s'', Res.err e)) (sym same) k)) refl)
