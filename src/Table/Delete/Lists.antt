-- ===== src/Table/Delete/Lists.antt =====
-- The vectors that `delete` shortens, item by item.
use dbobj.Base.{
  ℕ, zero, suc, ◌+◌, ◌-◌, ◌<◌, ◌≤◌, ◌≡◌, ◌∙◌, ap, refl, ◌&&◌, none, some, List, length, get_elem?,
  get_elem?-lt, get_elem?-set, get_elem?-take, length-take, set, length-set, arith, ltb, leb, ◌==◌,
  if◌then◌else◌,
}
use dbobj.Table.Delete.{pop, last?, swap_remove, copy_cells}

module _ {ℓ} {A : Type ℓ} where
  pub length-pop : (xs : List A) → length (pop xs) ≡ length xs - 1
  unfolding pop
  length-pop xs = length-take (length xs - 1) xs ∙ omega arith

  pub get_elem?-pop :
      (xs : List A) (k : ℕ)
      → get_elem? (pop xs) k ≡ (if ltb k (length xs - 1) then get_elem? xs k else none)
  unfolding pop
  get_elem?-pop xs k = get_elem?-take (length xs - 1) xs k

  pub last?-some : (xs : List A) → 0 < length xs → (x : A) × (last? xs ≡ some x)
  unfolding last?
  last?-some xs h = get_elem?-lt xs (length xs - 1) (omega arith)

  pub length-swap_remove :
      (i : ℕ) (xs : List A) → i < length xs → length (swap_remove i xs) ≡ length xs - 1
  unfolding swap_remove
  length-swap_remove i xs h =
      let (x, e) = last?-some xs (omega arith) in
      rw (e, swap_remove) (length-pop (set xs i x) ∙ ap (λ n. n - 1) (length-set xs i x))

  pub get_elem?-swap_remove :
      (i : ℕ) (xs : List A) (k : ℕ)
      → i < length xs
      → get_elem? (swap_remove i xs) k
        ≡ (if ltb k (length xs - 1) then if k == i then last? xs else get_elem? xs k else none)
  unfolding swap_remove
  get_elem?-swap_remove i xs k h =
      let (x, e) = last?-some xs (omega arith) in
      rw (e, swap_remove)
        (ground (arith, get_elem?-pop (set xs i x) k, get_elem?-set xs i x k, length-set xs i x))

-- at level 0, where the tests on the positions are split
module _ {A : Type 0} where
  pub copy_cells-ok :
      (n start last : ℕ) (cells : List A)
      → start + n ≤ last
      → last + n ≤ length cells
      → (cells' : List A) × (copy_cells n start last cells ≡ some cells')
        × (length cells' ≡ length cells)
        × ((k : ℕ)
            → get_elem? cells' k ≡ (
                if leb start k && ltb k (start + n)
                then get_elem? cells (last + (k - start))
                else get_elem? cells k))
  unfolding copy_cells
  copy_cells-ok zero start last cells h l = (cells, refl, refl, λ k. ground arith)
  copy_cells-ok (suc n) start last cells h l =
      let (v, e) = get_elem?-lt cells last (omega (arith, l)) in
      let (cells', p, q, at) =
        copy_cells-ok n (suc start) (suc last) (set cells start v) (omega (arith, h))
          (omega (arith, l, length-set cells start v)) in
      (
        cells',
        rw (e, copy_cells) (ground (arith, p)),
        q ∙ length-set cells start v,
        λ k.
            at k
            ∙ ground (
              arith,
              get_elem?-set cells start v k,
              get_elem?-set cells start v (suc last + (k - suc start)),
              λ (h : start < k). ap (get_elem? cells) (next_cell last start k h),
            ),
      )
    where
      next_cell : (last start k : ℕ) → start < k → suc last + (k - suc start) ≡ last + (k - start)
      next_cell last start k h = omega arith
