-- ===== src/Database/Snapshot.antt =====
-- database.rs: `snapshot` and `from_snapshot`, and the batches that change rows in place.
pub mod Laws
use dbobj.Base.{
  ℕ, ◌+◌, ◌*◌, ◌%◌, ◌^◌, Option, none, some, List, [], ◌∷◌, Text, Res, ok, panic, ◌>>=◌, pure,
  length, set, ltb, if◌then◌else◌,
}
use dbobj.Core.Float.{Float}
use dbobj.Core.Id.{RowId, text_key}
use dbobj.Core.Pool.{Interner, StringPool}
use dbobj.Core.Value.{Value}
use dbobj.Database.{
  Database, DbMethod, Journal, VersionEntry, prepare_log, rebuild_log, set_table, with_table,
  on_table,
}
use dbobj.Database.Log.{log_deleted}
use dbobj.Database.Write.{not_found}
use dbobj.Map
use dbobj.Map.{HashMap}
use dbobj.Table.{Row, Table}
use dbobj.Table.Archive.{prepare_for_archive, rebuild_from_archive}
use dbobj.Table.Convert.{intern_value}
use dbobj.Table.Delete
use dbobj.Table.Insert.{Method}
use dbobj.Table.Read.{get_index}

pub record DatabaseSnapshot (F P : Type 0) : Type 0 where
  pub name : Text
  pub tables : List (Text × Table F P)
  pub version_log : List (VersionEntry F)

-- the loop over the tables
unfoldable pub each_table :
    {F P : Type 0} → (Table F P → Table F P) → List (Text × Table F P) → List (Text × Table F P)
each_table f [] = []
each_table f ((name, t) ∷ rest) = (name, f t) ∷ each_table f rest

module _ {F P W : Type 0} ⦃fl : Float F⦄ ⦃it : Interner P⦄ where
  unfoldable pub snapshot : Database F P W → DatabaseSnapshot F P
  unfolding each_table prepare_log prepare_for_archive
  snapshot db = record {
    name = db.name;
    tables = each_table prepare_for_archive db.tables;
    version_log = prepare_log db.version_log;
  }

  unfoldable pub from_snapshot : DatabaseSnapshot F P → Database F P W
  unfolding each_table rebuild_log rebuild_from_archive
  from_snapshot s = record {
    name = s.name;
    tables = Map.collect [] (each_table rebuild_from_archive s.tables);
    version_log = rebuild_log s.version_log;
    wal = none;
  }

module _ {F P : Type 0} ⦃it : Interner P⦄ where
  -- `table.data[start + col_idx] = final_val`: the index is that of the vector, not of the row
  unfoldable pub write_cell : ℕ → ℕ → Value F → Method F P (Unit {0})
  unfolding intern_value
  write_cell idx col_idx v t =
      let (final_val, pool) = intern_value v t.string_pool in
      let at = idx * t.num_columns + col_idx in
      if ltb at (length t.cells)
      then (record t { string_pool = pool; cells = set t.cells at final_val }, ok tt)
      else (record t { string_pool = pool }, panic)

  unfoldable pub write_row_cells : ℕ → List (ℕ × Value F) → Method F P (Unit {0})
  unfolding write_cell
  write_row_cells idx [] = pure tt
  write_row_cells idx ((col_idx, v) ∷ rest) = do
    _ ← write_cell idx col_idx v
    write_row_cells idx rest

  -- an identifier that is not found is passed over
  unfoldable pub write_at : Option ℕ → List (ℕ × Value F) → Method F P (Unit {0})
  unfolding write_row_cells
  write_at none updates = pure tt
  write_at (some idx) updates = write_row_cells idx updates

  unfoldable pub write_batch : List (RowId × List (ℕ × Value F)) → Method F P (Unit {0})
  unfolding write_at get_index
  write_batch [] = pure tt
  write_batch ((id, updates) ∷ rest) = do
    _ ← (λ t. write_at (get_index id t) updates t)
    write_batch rest

module _ {F P W : Type 0} ⦃it : Interner P⦄ where
  unfoldable pub update_batch_by_indices :
      Text → List (RowId × List (ℕ × Value F)) → DbMethod F P W (Unit {0})
  unfolding on_table write_batch
  update_batch_by_indices name batch =
      on_table name (not_found name) (write_batch batch) (λ u t. pure u)

  unfoldable pub update_row_by_indices :
      Text → RowId → List (ℕ × Value F) → DbMethod F P W (Unit {0})
  unfolding update_batch_by_indices
  update_row_by_indices name id updates = update_batch_by_indices name ((id, updates) ∷ [])
