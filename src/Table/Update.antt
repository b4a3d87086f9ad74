-- ===== src/Table/Update.antt =====
-- table.rs: `update` and `update_values`.
pub mod Cells
pub mod Rows
pub mod Methods
use mathlib.Core.Option
use dbobj.Base.{
  ℕ, zero, suc, ◌+◌, ◌*◌, ◌%◌, ◌^◌, Bool, not, Option, none, some, List, [], ◌∷◌, Res, ok, err,
  panic, ◌>>=◌, after, ok_or, ◌==◌, leb, if◌then◌else◌, length, get_elem?, set,
}
use dbobj.Core.Float.{Float}
use dbobj.Core.Id.{RowId, id_beq, id_key}
use dbobj.Core.Pool.{Interner}
use dbobj.Core.Value.{Value, value_beq, value_key}
use dbobj.Map
use dbobj.Table.{TableError, schema_violation, row_width, id_not_found, RowData, Index, Table}
use dbobj.Table.Convert.{validate_and_convert, intern_row}
use dbobj.Table.Insert.{Method, push_plain, each_index}
use dbobj.Table.Read.{get_index}

-- list.retain(|x| x != id)
unfoldable pub without : RowId → List RowId → List RowId
without id [] = []
without id (x ∷ xs) = let rest = without id xs in if id_beq x id then rest else x ∷ rest

-- the loop `self.data[start + i] = val`; `none` is a panic
unfoldable pub write_cells :
    {F : Type 0} → ℕ → List (Value F) → List (Value F) → Option (List (Value F))
write_cells start [] cells = some cells
write_cells start (v ∷ vs) cells =
    let rest = write_cells (suc start) vs (set cells start v) in
    if leb (suc start) (length cells) then rest else none

module _ {F : Type 0} ⦃fl : Float F⦄ where
  -- the row's entry moves from its old value to its new one
  unfoldable pub moved_index : RowId → Value F → Value F → Index F → Index F
  unfolding without
  moved_index id old_val new_val ix =
      if value_beq old_val new_val
      then ix
      else push_plain new_val id (record ix { map = Map.alter old_val (without id) ix.map })

  unfoldable pub move_entry :
      RowId → Option (Value F) → Option (Value F) → Index F → Option (Index F)
  move_entry id (some old_val) (some new_val) ix = some (moved_index id old_val new_val ix)
  move_entry id _ _ ix = none

module _ {F P : Type 0} ⦃fl : Float F⦄ where
  -- the body of the loop over the indexes: of a unique index too it is `map` that is changed
  unfoldable pub reindex_row : RowId → ℕ → List (Value F) → Table F P → Index F → Option (Index F)
  unfolding move_entry
  reindex_row id idx values t ix =
      move_entry id (get_elem? t.cells (idx * t.num_columns + ix.col_idx))
        (get_elem? values ix.col_idx) ix

module _ {F P : Type 0} where
  unfoldable pub set_row : Option (List (Value F)) → Option ℕ → ℕ → Method F P (Unit {0})
  set_row (some cells) (some version) idx t =
      (record t { cells = cells; versions = set t.versions idx ((version + 1) % 2 ^ 64) }, ok tt)
  set_row _ _ idx t = (t, panic)

  unfoldable pub overwrite_row : ℕ → List (Value F) → Method F P (Unit {0})
  unfolding write_cells set_row
  overwrite_row idx values t =
      set_row (write_cells (idx * t.num_columns) values t.cells) (get_elem? t.versions idx) idx t

module _ {F P : Type 0} ⦃fl : Float F⦄ ⦃it : Interner P⦄ where
  -- what both methods do with the values of the row at `idx`
  unfoldable pub replace_row : RowId → List (Value F) → ℕ → Method F P (Unit {0})
  unfolding intern_row reindex_row each_index overwrite_row
  replace_row id values idx t =
      let (row, pool) = intern_row values t.string_pool in
      after (each_index (reindex_row id idx row) (record t { string_pool = pool }))
        (λ _. overwrite_row idx row)

  unfoldable pub update_values : RowId → List (Value F) → Method F P (Unit {0})
  update_values id values t =
      if not (length values == t.num_columns)
      then (t, err (schema_violation (row_width (length values) t.num_columns)))
      else after (ok_or (get_index id t) (schema_violation (id_not_found id)) t)
          (replace_row id values)

  -- `update` asks `id_map` alone for the position.
  unfoldable pub update : RowId → RowData F → Method F P (Unit {0})
  update id entries t =
      after (t, validate_and_convert entries t)
        (λ values t.
          after (ok_or (Map.get id t.id_map) (schema_violation (id_not_found id)) t)
            (replace_row id values))
