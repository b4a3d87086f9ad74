-- ===== src/Database.antt =====
-- src/core/database.rs, with src/versioning/mod.rs: the tables by name, the version log and the
-- write-ahead log. A method holds the locks it needs for its whole run, so it is one step on the
-- state here.
pub mod Log
pub mod Write
pub mod Join
pub mod Query
pub mod Recover
pub mod Rollback
pub mod Rows
pub mod Snapshot
use dbobj.Base.{ℕ, Option, none, some, List, [], ◌∷◌, ◌++◌, map, Text, Res, err, Call, after}
use dbobj.Core.Id.{RowId, text_key}
use dbobj.Core.Pool.{Interner}
use dbobj.Map
use dbobj.Map.{HashMap}
use dbobj.Table.{
  ColumnDefinition, Schema, Row, RowData, Table, TableError, schema_violation, table_not_found,
  invalid_column,
}
use dbobj.Table.Read

-- `ChangeType`, `VersionEntry` and `VersionLog` of the versioning module.
pub data ChangeType : Type 0 where
  insert update delete : ChangeType
  batch_insert : ℕ → ChangeType

pub record VersionEntry (F : Type 0) : Type 0 where
  pub timestamp_ms : ℕ
  pub table_name : Text
  pub row_id : RowId
  pub change_type : ChangeType
  pub row_data : Option (RowData F)
  pub data_snapshot : Option (RowData F)

-- `WalEntry` of src/storage/wal.rs.
pub record WalEntry (F : Type 0) : Type 0 where
  pub table_name : Text
  pub row_id : RowId
  pub change_type : ChangeType
  pub row_data : Option (RowData F)

-- The file of a `Wal`: what it holds after an append, whose error the callers drop, and what
-- `read_all` gives, with `none` for an error.
pub record Journal (F W : Type 0) : Type 0 where
  pub append : WalEntry F → W → W
  pub read_all : W → Option (List (WalEntry F))

pub record Database (F P W : Type 0) : Type 0 where
  pub name : Text
  pub tables : HashMap Text (Table F P)
  pub version_log : List (VersionEntry F)
  pub wal : Option W

abbrev pub DbMethod : Type 0 → Type 0 → Type 0 → Type 0 → Type 0
DbMethod F P W A = Call (Database F P W) TableError A

module _ {F : Type 0} where
  -- `record` and `record_batch`, at a time of the clock
  unfoldable pub record_change :
      ℕ
      → Text
      → RowId
      → ChangeType
      → Option (RowData F)
      → List (VersionEntry F)
      → List (VersionEntry F)
  record_change now name id change row_data log =
      log
      ++ record {
        timestamp_ms = now;
        table_name = name;
        row_id = id;
        change_type = change;
        row_data = row_data;
        data_snapshot = none;
      }
        ∷ []

  -- VersionEntry::prepare_for_archive and rebuild_from_archive: the snapshot is the map's entries
  unfoldable pub prepare_entry : VersionEntry F → VersionEntry F
  prepare_entry e = elim e.row_data [
    | none ↦ e
    | some row_data ↦ record e { data_snapshot = some row_data }
  ]

  unfoldable pub rebuild_entry : VersionEntry F → VersionEntry F
  rebuild_entry e = elim e.data_snapshot [
    | none ↦ record e { data_snapshot = none }
    | some snapshot ↦ record e { row_data = some (Map.collect [] snapshot); data_snapshot = none }
  ]

  unfoldable pub prepare_log : List (VersionEntry F) → List (VersionEntry F)
  unfolding prepare_entry
  prepare_log = map prepare_entry

  unfoldable pub rebuild_log : List (VersionEntry F) → List (VersionEntry F)
  unfolding rebuild_entry
  rebuild_log = map rebuild_entry

module _ {F P W : Type 0} where
  unfoldable pub new : Text → Database F P W
  new name = record { name = name; tables = []; version_log = []; wal = none }

  unfoldable pub with_wal : W → Database F P W → Database F P W
  with_wal w db = record db { wal = some w }

  unfoldable pub set_table : Text → Table F P → Database F P W → Database F P W
  set_table name t db = record db { tables = Map.insert name t db.tables }

  unfoldable pub create_table : ⦃it : Interner P⦄ → Text → Schema → Database F P W → Database F P W
  unfolding set_table Read.new
  create_table name schema db = set_table name (Read.new name schema) db

  unfoldable pub drop_table : Text → DbMethod F P W (Unit {0})
  drop_table name db = elim (Map.get name db.tables) [
    | none ↦ (db, err (schema_violation (table_not_found name)))
    | some _ ↦ (record db { tables = Map.remove name db.tables }, Res.ok tt)
  ]

  unfoldable pub get_table : Text → Database F P W → Option (Table F P)
  get_table name db = Map.get name db.tables

  -- tables.get(name).ok_or_else(…)? and what follows, with the table
  unfoldable pub with_table :
      {A : Type 0} → Text → TableError → (Table F P → DbMethod F P W A) → DbMethod F P W A
  with_table name e f db = elim (Map.get name db.tables) [ none ↦ (db, err e) | some t ↦ f t db ]

  -- A method of the table, through its lock: what an error leaves of it stays.
  unfoldable pub on_table :
      {A B : Type 0}
      → Text
      → TableError
      → Call (Table F P) TableError A
      → (A → Table F P → DbMethod F P W B)
      → DbMethod F P W B
  unfolding with_table set_table
  on_table name e f k =
      with_table name e (λ t db. let (t', r) = f t in after (set_table name t' db, r) (λ a. k a t'))

  -- the `Transaction`: a copy of each table
  unfoldable pub begin_transaction : Database F P W → HashMap Text (Table F P)
  begin_transaction db = Map.collect [] db.tables

  unfoldable pub rollback : HashMap Text (Table F P) → Database F P W → Database F P W
  rollback original_tables db = record db { tables = Map.collect db.tables original_tables }
