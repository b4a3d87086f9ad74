-- ===== src/Database/Write.antt =====
-- database.rs: the methods that write rows, and what they log.
use dbobj.Base.{ℕ, Bool, Option, none, some, List, map, Text, err, ◌>>=◌, pure}
use dbobj.Base.Int.{ℤ}
use dbobj.Core.Float.{Float}
use dbobj.Core.Id.{RowId, text_key}
use dbobj.Core.Pool.{Interner}
use dbobj.Core.Value.{Value, string, integer, boolean}
use dbobj.Database.{DbMethod, Journal, ChangeType, on_table}
use dbobj.Database.Log.{
  log_version, log_batch, log_wal, log_inserted, each_id, log_insert, log_deleted,
}
use dbobj.Table.{
  RowData, TableError, schema_violation, table_not_found, row_not_found, invalid_column,
}
use dbobj.Table.Delete
use dbobj.Table.Find
use dbobj.Table.Flat
use dbobj.Table.Insert
use dbobj.Table.Update

abbrev pub not_found : Text → TableError
not_found name = schema_violation (table_not_found name)

module _ {F P W : Type 0} where
  unfoldable pub create_index :
      ⦃fl : Float F⦄ → ⦃it : Interner P⦄ → Text → Text → DbMethod F P W (Unit {0})
  unfolding on_table Find.create_index
  create_index name column =
      on_table name (invalid_column name) (Find.create_index column) (λ u t. pure u)

  unfoldable pub create_unique_index :
      ⦃fl : Float F⦄ → ⦃it : Interner P⦄ → Text → Text → DbMethod F P W (Unit {0})
  unfolding on_table Find.create_unique_index
  create_unique_index name column =
      on_table name (invalid_column name) (Find.create_unique_index column) (λ u t. pure u)

module _ {F P W : Type 0} ⦃jo : Journal F W⦄ ⦃it : Interner P⦄ where
  -- the body of the batch inserts that look each row up
  unfoldable pub insert_many :
      ℕ → Text → Insert.Method F P (List RowId) → DbMethod F P W (List RowId)
  unfolding on_table each_id log_inserted log_batch
  insert_many now name f =
      on_table name (not_found name) f
        (λ ids t. do _ ← each_id (log_inserted name t) ids; _ ← log_batch now name ids; pure ids)

  -- the body of those that call `log_insert`
  unfoldable pub insert_flat :
      ℕ → Text → Insert.Method F P (List RowId) → DbMethod F P W (List RowId)
  unfolding on_table log_insert
  insert_flat now name f =
      on_table name (not_found name) f (λ ids t. do _ ← log_insert now name t ids; pure ids)

module _ {F P W : Type 0} ⦃fl : Float F⦄ ⦃it : Interner P⦄ ⦃jo : Journal F W⦄ where
  unfoldable pub insert_batch : ℕ → Text → List (RowData F) → DbMethod F P W (List RowId)
  unfolding insert_many Insert.insert_batch
  insert_batch now name batch = insert_many now name (Insert.insert_batch batch)

  unfoldable pub insert_batch_raw : ℕ → Text → List (List (Value F)) → DbMethod F P W (List RowId)
  unfolding insert_many Insert.insert_batch_raw
  insert_batch_raw now name batch = insert_many now name (Insert.insert_batch_raw batch)

  unfoldable pub insert_batch_values :
      ℕ → Text → List (List (Value F)) → DbMethod F P W (List RowId)
  unfolding insert_many Insert.insert_batch_values
  insert_batch_values now name batch = insert_many now name (Insert.insert_batch_values batch)

  unfoldable pub insert_batch_flat_i64 : ℕ → Text → List ℤ → ℕ → DbMethod F P W (List RowId)
  unfolding insert_many Flat.insert_batch_flat_i64
  insert_batch_flat_i64 now name values n =
      insert_many now name (Flat.insert_batch_flat_i64 values n)

  unfoldable pub insert_batch_flat_string : ℕ → Text → List Text → ℕ → DbMethod F P W (List RowId)
  unfolding insert_flat Flat.insert_batch_flat_string
  insert_batch_flat_string now name values n =
      insert_flat now name (Flat.insert_batch_flat_string values n)

  unfoldable pub insert_batch_flat_bool : ℕ → Text → List Bool → ℕ → DbMethod F P W (List RowId)
  unfolding insert_flat Flat.insert_batch_flat_bool
  insert_batch_flat_bool now name values n =
      insert_flat now name (Flat.insert_batch_flat_bool values n)

  unfoldable pub insert_batch_flat_values :
      ℕ → Text → List (Value F) → ℕ → DbMethod F P W (List RowId)
  unfolding insert_flat Flat.insert_batch_flat_values
  insert_batch_flat_values now name values n =
      insert_flat now name (Flat.insert_batch_flat_values values n)

  unfoldable pub insert_batch_flat_f64 : ℕ → Text → List F → ℕ → DbMethod F P W (List RowId)
  unfolding insert_flat Flat.insert_batch_flat_f64
  insert_batch_flat_f64 now name values n =
      insert_flat now name (Flat.insert_batch_flat_f64 values n)

  unfoldable pub insert_values : ℕ → Text → List (Value F) → DbMethod F P W RowId
  unfolding on_table Insert.insert_values log_inserted log_version
  insert_values now name values =
      on_table name (not_found name) (Insert.insert_values values) (λ id t. do
        _ ← log_inserted name t id
        _ ← log_version now name id ChangeType.insert none
        pure id)

  unfoldable pub insert_values_i64 : ℕ → Text → List ℤ → DbMethod F P W RowId
  unfolding insert_values
  insert_values_i64 now name values = insert_values now name (map integer values)

  unfoldable pub insert_values_string : ℕ → Text → List Text → DbMethod F P W RowId
  unfolding insert_values
  insert_values_string now name values = insert_values now name (map string values)

  unfoldable pub insert_values_bool : ℕ → Text → List Bool → DbMethod F P W RowId
  unfolding insert_values
  insert_values_bool now name values = insert_values now name (map boolean values)

  unfoldable pub insert_row : ℕ → Text → RowData F → Option RowId → DbMethod F P W RowId
  unfolding on_table Insert.insert log_inserted log_version
  insert_row now name row_data custom_id =
      on_table name (not_found name) (Insert.insert row_data custom_id) (λ id t. do
        _ ← log_version now name id ChangeType.insert none
        _ ← log_inserted name t id
        pure id)

  unfoldable pub update_row : ℕ → Text → RowId → RowData F → DbMethod F P W (Unit {0})
  unfolding on_table Update.update log_version log_wal
  update_row now name id row_data =
      on_table name (not_found name) (Update.update id row_data) (λ _ t. do
        _ ← log_version now name id ChangeType.update (some row_data)
        log_wal (record {
          table_name = name;
          row_id = id;
          change_type = ChangeType.update;
          row_data = some row_data;
        }))

  -- nothing is logged
  unfoldable pub update_values : Text → RowId → List (Value F) → DbMethod F P W (Unit {0})
  unfolding on_table Update.update_values
  update_values name id values =
      on_table name (not_found name) (Update.update_values id values) (λ u t. pure u)

module _ {F P W : Type 0} ⦃jo : Journal F W⦄ where
  unfoldable pub delete_row : ℕ → Text → RowId → DbMethod F P W (Unit {0})
  unfolding on_table Delete.delete log_deleted
  delete_row now name id = on_table name (not_found name) (Delete.delete id) (λ deleted t.
      elim deleted [
        | none ↦ (λ db. (db, err (schema_violation (row_not_found id))))
        | some _ ↦ log_deleted now name id
      ])
