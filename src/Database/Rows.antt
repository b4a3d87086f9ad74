-- ===== src/Database/Rows.antt =====
-- database.rs: `delete_row`, with the method of the table under it and both logs.
use mathlib.Core.Option
use dbobj.Base.{
  ℕ, ◌≡◌, refl, ◌∙◌, inl, inr, none, some, Option-cases, Text, text_beq, text_beq_sound, ok, err,
  arith, if◌then◌else◌,
}
use dbobj.Core.Id.{RowId, text_key}
use dbobj.Core.Pool.{Interner}
use dbobj.Database.{
  Database, Journal, ChangeType, WalEntry, record_change, set_table, with_table, on_table,
  get_table,
}
use dbobj.Database.Log.{log_deleted, log_version, log_wal}
use dbobj.Database.Write.{delete_row}
use dbobj.Map.{get-insert}
use dbobj.Table.{Row, Table, schema_violation, row_not_found}
use dbobj.Table.Delete
use dbobj.Table.Delete.Methods.{Deleted, delete-Deleted, delete_missing}
use dbobj.Table.Read.{get}
use dbobj.Table.Valid.{IsValid}

module _ {F P W : Type 0} ⦃it : Interner P⦄ ⦃jo : Journal F W⦄ (db : Database F P W) (now : ℕ)
    (name : Text) (id : RowId) where
  abbrev deletion : WalEntry F
  deletion = record {
    table_name = name;
    row_id = id;
    change_type = ChangeType.delete;
    row_data = none;
  }

  -- `db'` is `db` with a new table under the name, and the deletion in both logs
  pub record RowDeleted (t' : Table F P) (db' : Database F P W) : Type 0 where
    pub tables :
        (n : Text) → get_table n db' ≡ (if text_beq name n then some t' else get_table n db)
    pub version_log :
        db'.version_log ≡ record_change now name id ChangeType.delete none db.version_log
    pub wal : db'.wal ≡ Option.map (jo.append deletion) db.wal

  get_table-set_table :
      (t' : Table F P) (n : Text)
      → get_table n (set_table name t' db) ≡ (if text_beq name n then some t' else get_table n db)
  unfolding get_table set_table text_key
  get_table-set_table t' n = get-insert name n t' db.tables

  log_deleted_lem :
      (db : Database F P W)
      → log_deleted now name id db ≡ (
        record db {
          version_log = record_change now name id ChangeType.delete none db.version_log;
          wal = Option.map (jo.append deletion) db.wal;
        },
        ok tt,
      )
  unfolding log_deleted log_version log_wal
  log_deleted_lem db = elim (Option-cases db.wal) [
    | inl e ↦ ground (arith, e)
    | inr (w, e) ↦ ground (arith, e)
  ]

  module _ (t : Table F P) (here : get_table name db ≡ some t) (valid : IsValid t) where
    found_step :
        (t' : Table F P) (row : Row F)
        → Delete.delete id t ≡ (t', ok (some row))
        → delete_row now name id db ≡ log_deleted now name id (set_table name t' db)
    unfolding delete_row on_table with_table get_table
    found_step t' row r = ground (arith, here, r)

    missing_step :
        Delete.delete id t ≡ (t, ok none)
        → delete_row now name id db
          ≡ (set_table name t db, err (schema_violation (row_not_found id)))
    unfolding delete_row on_table with_table get_table
    missing_step r = ground (arith, here, r)

    -- the table that is there is written again
    same_tables : (n : Text) → get_table n (set_table name t db) ≡ get_table n db
    same_tables n = get_table-set_table t n ∙ ground (arith, here, text_beq_sound name n)

    -- When a name has a valid table in which `get` finds a row under an identifier, `delete_row` of
    -- the database succeeds: the table under that name becomes a valid one that reads as before
    -- without the row, every other name keeps its table, and the deletion is the one new entry of
    -- the version log and, if there is one, of the write-ahead log.
    pub delete_row-RowDeleted :
        (row : Row F)
        → get id t ≡ some (some row)
        → (t' : Table F P) × (db' : Database F P W) × (delete_row now name id db ≡ (db', ok tt))
          × RowDeleted t' db'
          × Deleted t id t'
    delete_row-RowDeleted row e =
        let (t', r, d) = delete-Deleted t valid id row e in
        let db1 = set_table name t' db in
        (
          t',
          record db1 {
            version_log = record_change now name id ChangeType.delete none db1.version_log;
            wal = Option.map (jo.append deletion) db1.wal;
          },
          found_step t' row r ∙ log_deleted_lem db1,
          record {
            tables = λ n. unfold get_table in get_table-set_table t' n;
            version_log = unfold set_table in refl;
            wal = unfold set_table in refl;
          },
          d,
        )

    -- When a name has a valid table in which `get` finds no row under an identifier, `delete_row`
    -- of the database is the error that the row is not found; nothing is logged and every name
    -- keeps its table.
    pub delete_row_missing :
        get id t ≡ some none
        → (db' : Database F P W) × (delete_row now name id db
            ≡ (db', err (schema_violation (row_not_found id))))
          × (db'.version_log ≡ db.version_log)
          × (db'.wal ≡ db.wal)
          × ((n : Text) → get_table n db' ≡ get_table n db)
    delete_row_missing e =
        let r = delete_missing t valid id e in
        (
          set_table name t db,
          missing_step r,
          unfold set_table in refl,
          unfold set_table in refl,
          same_tables,
        )
