-- ===== src/Table/Update/Cells.antt =====
-- table.rs: the vector after `write_cells`.
use native.Mathlib.Decide.{dec_lt}
use dbobj.Base.{
  inl, inr, ℕ, suc, ◌+◌, ◌-◌, ◌*◌, ◌<◌, ◌≤◌, ◌≡◌, ◌≢◌, ◌⊎◌, ◌∙◌, refl, ◌&&◌, some, List, [], ◌∷◌,
  length, get_elem?, set, length-set, get_elem?-set, get_elem?-cons, arith, ltb, leb, if◌then◌else◌,
}
use dbobj.Core.Value.{Value}
use dbobj.Table.Update.{write_cells}

module _ {F : Type 0} where
  pub write_cells-ok :
      (start : ℕ) (vs cells : List (Value F))
      → start + length vs ≤ length cells
      → (cells' : List (Value F)) × (write_cells start vs cells ≡ some cells')
        × (length cells' ≡ length cells)
        × ((k : ℕ)
            → get_elem? cells' k ≡ (
                if leb start k && ltb k (start + length vs)
                then get_elem? vs (k - start)
                else get_elem? cells k))
  unfolding write_cells
  write_cells-ok start [] cells h = (cells, refl, refl, λ k. ground arith)
  write_cells-ok start (v ∷ vs) cells h =
      let (cells', e, l, at) =
        write_cells-ok (suc start) vs (set cells start v)
          (omega (arith, length-set cells start v)) in
      (
        cells',
        ground (arith, e),
        l ∙ length-set cells start v,
        λ k. at k ∙ ground (arith, get_elem?-set cells start v k, get_elem?-cons v vs (k - start)),
      )

-- the rows of a flat vector before and after row `idx`
pub row_apart :
    (i idx w k : ℕ) → i ≢ idx → k < w → (i * w + k < idx * w) ⊎ (idx * w + w ≤ i * w + k)
row_apart i idx w k n h = elim (dec_lt i idx) [
  | yes p ↦ inl (grind arith)
  | no p ↦ inr (grind arith)
]
