-- ===== src/Table/Delete/Indexes.antt =====
-- table.rs: the indexes of a table after `delete`.
use dbobj.Base.{
  ℕ, ◌-◌, ◌*◌, ◌≡◌, refl, ◌∙◌, inl, inr, Option, none, some, Option-cases, List, ok, panic, after,
  or_panic, arith, ltb, length, Bool-cases,
}
use dbobj.Core.Id.{RowId, id_key}
use dbobj.Core.Value.{Value}
use dbobj.Map
use dbobj.Table.{Row, Table, TableError}
use dbobj.Table.Delete.{delete, delete_at, remove_row, fill_gap, truncate, last?, copy_cells}
use dbobj.Table.Insert.{leave_sequential}
use dbobj.Table.Read.{get_index, get_row_by_index}

module _ {F P : Type 0} where
  fill_gap-indexes :
      (idx last_idx : ℕ) (o : Option RowId) (cells : Option (List (Value F))) (t t' : Table F P)
      → fill_gap idx last_idx o cells t ≡ some t'
      → t'.indexes ≡ t.indexes
  unfolding fill_gap
  fill_gap-indexes idx last_idx (some id) (some cells) t t' e = ground arith
  fill_gap-indexes idx last_idx _ _ t t' e = cc

  remove_row-indexes :
      (idx : ℕ) (t t' : Table F P) → remove_row idx t ≡ some t' → t'.indexes ≡ t.indexes
  unfolding remove_row
  remove_row-indexes idx t t' e = elim (Bool-cases (ltb idx (length t.ids - 1))) [
    | inl q ↦
        fill_gap-indexes idx (length t.ids - 1) (last? t.ids)
          (copy_cells t.num_columns (idx * t.num_columns) ((length t.ids - 1) * t.num_columns)
            t.cells)
          t t' (ground (arith, q, e))
    | inr q ↦ ground (arith, q, e)
  ]

  leave_sequential-indexes : (t : Table F P) → (leave_sequential t).indexes ≡ t.indexes
  unfolding leave_sequential
  leave_sequential-indexes t = ground arith

  taken_out-indexes :
      (idx : ℕ) (o : Option (Row F)) (t : Table F P)
      → (after {B = Option (Row F)} (or_panic {E = TableError} o t) (λ row t3.
          elim (remove_row idx t3) [
            | none ↦ (t3, panic)
            | some t4 ↦ (truncate t4, ok (some row))
          ])).0.indexes
        ≡ t.indexes
  unfolding truncate
  taken_out-indexes idx none t = refl
  taken_out-indexes idx (some row) t = elim (Option-cases (remove_row idx t)) [
    | inl e ↦ ground (arith, e)
    | inr (t4, e) ↦ ground (arith, e, remove_row-indexes idx t t4 e)
  ]

  delete_at-indexes :
      (id : RowId) (idx : ℕ) (t : Table F P) → (delete_at id idx t).0.indexes ≡ t.indexes
  unfolding delete_at truncate
  delete_at-indexes id idx t =
      taken_out-indexes idx (get_row_by_index idx t2) t2 ∙ leave_sequential-indexes t
    where
      t2 : Table F P
      t2 = record (leave_sequential t) { id_map = Map.remove id (leave_sequential t).id_map }

  -- `delete` leaves the indexes of the table as they were, whatever the table and the identifier.
  pub delete-indexes : (id : RowId) (t : Table F P) → (delete id t).0.indexes ≡ t.indexes
  unfolding delete
  delete-indexes id t = elim (Option-cases (get_index id t)) [
    | inl e ↦ ground (arith, e)
    | inr (idx, e) ↦ ground (arith, e, delete_at-indexes id idx t)
  ]
