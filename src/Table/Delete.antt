-- ===== src/Table/Delete.antt =====
-- table.rs: `delete`, which moves the last row into the gap.
pub mod Lists
pub mod Moved
pub mod Shrunk
pub mod Methods
pub mod Indexes
use mathlib.Core.Option
use dbobj.Base.{
  ℕ, zero, suc, ◌+◌, ◌-◌, ◌*◌, Bool, true, false, Option, none, some, List, [], ◌∷◌, Res, ok, err,
  panic, ◌>>=◌, after, or_panic, ltb, leb, if◌then◌else◌, length, get_elem?, set, take,
}
use dbobj.Core.Id.{RowId, id_key}
use dbobj.Core.Value.{Value}
use dbobj.Map
use dbobj.Table.{Row, TableError, Table}
use dbobj.Table.Insert.{Method, leave_sequential}
use dbobj.Table.Read.{get_index, get_row_by_index}

-- the last item, and the items before it
unfoldable pub pop {ℓ} : {A : Type ℓ} → List A → List A
pop xs = take (length xs - 1) xs

unfoldable pub last? {ℓ} : {A : Type ℓ} → List A → Option A
last? xs = get_elem? xs (length xs - 1)

-- vec.swap_remove(i) at an `i` in range
unfoldable pub swap_remove {ℓ} : {A : Type ℓ} → ℕ → List A → List A
unfolding pop last?
swap_remove i xs = elim (last? xs) [ none ↦ xs | some x ↦ pop (set xs i x) ]

-- the loop `self.data[start + i] = self.data[last_start + i].clone()`; `none` is a panic
unfoldable pub copy_cells {ℓ} : {A : Type ℓ} → ℕ → ℕ → ℕ → List A → Option (List A)
copy_cells zero start last_start cells = some cells
copy_cells (suc n) start last_start cells = elim (get_elem? cells last_start) [
  | none ↦ none
  | some v ↦
      if leb (suc start) (length cells)
      then copy_cells n (suc start) (suc last_start) (set cells start v)
      else none
]

module _ {F P : Type 0} where
  -- the branch `idx < last_idx`
  unfoldable pub fill_gap :
      ℕ → ℕ → Option RowId → Option (List (Value F)) → Table F P → Option (Table F P)
  unfolding swap_remove
  fill_gap idx last_idx (some last_id) (some cells) t = some (record t {
    cells = cells;
    ids = swap_remove idx t.ids;
    versions = swap_remove idx t.versions;
    id_map = Map.insert last_id idx t.id_map;
  })
  fill_gap idx last_idx _ _ t = none

  unfoldable pub remove_row : ℕ → Table F P → Option (Table F P)
  unfolding copy_cells fill_gap pop
  remove_row idx t =
      let last_idx = length t.ids - 1 in
      if ltb idx last_idx
      then fill_gap idx last_idx (last? t.ids)
          (copy_cells t.num_columns (idx * t.num_columns) (last_idx * t.num_columns) t.cells) t
      else some (record t { ids = pop t.ids; versions = pop t.versions })

  unfoldable pub truncate : Table F P → Table F P
  truncate t = record t { cells = take (length t.ids * t.num_columns) t.cells }

  unfoldable pub delete_at : RowId → ℕ → Method F P (Option (Row F))
  unfolding leave_sequential get_row_by_index remove_row truncate
  delete_at id idx t =
      let t1 = leave_sequential t in
      let t2 = record t1 { id_map = Map.remove id t1.id_map } in
      after (or_panic (get_row_by_index idx t2) t2) (λ row t3. elim (remove_row idx t3) [
        | none ↦ (t3, panic)
        | some t4 ↦ (truncate t4, ok (some row))
      ])

  -- `ok none` is the answer that there is no such row. The indexes are not touched.
  unfoldable pub delete : RowId → Method F P (Option (Row F))
  unfolding get_index delete_at
  delete id t = elim (get_index id t) [ none ↦ (t, ok none) | some idx ↦ delete_at id idx t ]
