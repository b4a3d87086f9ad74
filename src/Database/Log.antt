-- ===== src/Database/Log.antt =====
-- database.rs: what the methods that write rows add to the version log and the write-ahead log.
use dbobj.Base.{
  ℕ, suc, Option, none, some, List, [], ◌∷◌, Text, ok, panic, ◌>>=◌, or_panic, pure, lift, length,
}
use dbobj.Core.Id.{RowId, text_key}
use dbobj.Core.Pool.{Interner}
use dbobj.Database.{DbMethod, Journal, ChangeType, WalEntry, record_change}
use dbobj.Table.{Row, RowData, Table}
use dbobj.Table.Convert.{values_to_row}
use dbobj.Table.Read

module _ {F P W : Type 0} where
  unfoldable pub log_version :
      ℕ → Text → RowId → ChangeType → Option (RowData F) → DbMethod F P W (Unit {0})
  unfolding record_change
  log_version now name id change row_data db =
      (record db { version_log = record_change now name id change row_data db.version_log }, ok tt)

  -- the single entry of a batch, if it has a row
  unfoldable pub log_batch : ℕ → Text → List RowId → DbMethod F P W (Unit {0})
  unfolding log_version
  log_batch now name [] = pure tt
  log_batch now name (id ∷ ids) =
      log_version now name id (ChangeType.batch_insert (suc (length ids))) none

module _ {F P W : Type 0} ⦃jo : Journal F W⦄ where
  unfoldable pub log_wal : WalEntry F → DbMethod F P W (Unit {0})
  log_wal entry db = elim db.wal [
    | none ↦ (db, ok tt)
    | some w ↦ (record db { wal = some (jo.append entry w) }, ok tt)
  ]

module _ {F P W : Type 0} ⦃jo : Journal F W⦄ ⦃it : Interner P⦄ where
  -- `table.get(id).unwrap()` and `values_to_row`, which may panic
  unfoldable pub log_stored_row :
      Text → RowId → Option (Row F) → Table F P → DbMethod F P W (Unit {0})
  unfolding log_wal values_to_row
  log_stored_row name id none t = lift panic
  log_stored_row name id (some row) t = do
    row_data ← or_panic (values_to_row row.values t)
    log_wal (record {
      table_name = name;
      row_id = id;
      change_type = ChangeType.insert;
      row_data = some row_data;
    })

  -- what is logged of a row that was inserted; without a log nothing is looked up
  unfoldable pub log_inserted : Text → Table F P → RowId → DbMethod F P W (Unit {0})
  unfolding log_stored_row Read.get
  log_inserted name t id db = elim db.wal [
    | none ↦ (db, ok tt)
    | some _ ↦ elim (Read.get id t) [
      | none ↦ (db, panic)
      | some found ↦ log_stored_row name id found t db
    ]
  ]

  -- `log_insert` skips a row that is not found.
  unfoldable pub log_found : Text → Table F P → RowId → DbMethod F P W (Unit {0})
  unfolding log_stored_row Read.get
  log_found name t id db = elim db.wal [
    | none ↦ (db, ok tt)
    | some _ ↦ elim (Read.get id t) [
      | none ↦ (db, panic)
      | some none ↦ (db, ok tt)
      | some (some row) ↦ log_stored_row name id (some row) t db
    ]
  ]

  unfoldable pub each_id :
      (RowId → DbMethod F P W (Unit {0})) → List RowId → DbMethod F P W (Unit {0})
  each_id f [] = pure tt
  each_id f (id ∷ ids) = do _ ← f id; each_id f ids

  unfoldable pub log_insert : ℕ → Text → Table F P → List RowId → DbMethod F P W (Unit {0})
  unfolding each_id log_found log_batch
  log_insert now name t ids = do _ ← each_id (log_found name t) ids; log_batch now name ids

module _ {F P W : Type 0} ⦃jo : Journal F W⦄ where
  unfoldable pub log_deleted : ℕ → Text → RowId → DbMethod F P W (Unit {0})
  unfolding log_version log_wal
  log_deleted now name id = do
    _ ← log_version now name id ChangeType.delete none
    log_wal (record {
      table_name = name;
      row_id = id;
      change_type = ChangeType.delete;
      row_data = none;
    })
