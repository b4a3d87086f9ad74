-- ===== src/Table.antt =====
-- src/core/table.rs: the types of a table. The methods are in the modules below.
pub mod Valid
pub mod Read
pub mod Convert
pub mod Insert
pub mod Flat
pub mod Update
pub mod Delete
pub mod Find
pub mod Spread
pub mod Archive
pub mod Export
use dbobj.Base.{ℕ, Bool, List, Text}
use dbobj.Core.Id.{RowId}
use dbobj.Core.Pool.{StringPool}
use dbobj.Core.Value.{Value}
use dbobj.Map.{HashMap}

-- `DataType` and `ColumnDefinition` of src/core/mod.rs.
pub data DataType : Type 0 where
  integer float string boolean blob : DataType

pub record ColumnDefinition : Type 0 where
  pub name : Text
  pub data_type : DataType
  pub nullable : Bool

pub record Schema : Type 0 where
  pub columns : List ColumnDefinition

-- `SchemaViolation(String)`: the message is kept as the kind of its text and the values in it.
pub data Violation : Type 0 where
  -- a row or an update has so many columns, expected so many
  row_width : ℕ → ℕ → Violation
  flat_columns : ℕ → ℕ → Violation
  not_divisible : Violation
  type_mismatch : Text → DataType → Violation
  not_nullable : Text → Violation
  id_not_found : RowId → Violation
  row_not_found : RowId → Violation
  table_not_found : Text → Violation
  column_not_found : Text → Violation
  column_not_found_in : Text → Text → Violation

pub data TableError : Type 0 where
  duplicate_id : RowId → TableError
  invalid_column : Text → TableError
  schema_violation : Violation → TableError

abbrev pub RowData : Type 0 → Type 0
RowData F = HashMap Text (Value F)

pub record Row (F : Type 0) : Type 0 where
  pub id : RowId
  pub values : List (Value F)
  pub version : ℕ

-- The fields `…_data` are the surrogates that are archived in place of the hash maps.
pub record Index (F : Type 0) : Type 0 where
  pub col_idx : ℕ
  pub is_unique : Bool
  pub map : HashMap (Value F) (List RowId)
  pub map_data : List (Value F × List RowId)
  pub unique_map : HashMap (Value F) ℕ
  pub unique_map_data : List (Value F × ℕ)

-- The field `cells` is `data`: the rows, one behind the other.
pub record Table (F P : Type 0) : Type 0 where
  pub name : Text
  pub schema : Schema
  pub column_map : HashMap Text ℕ
  pub column_map_data : List (Text × ℕ)
  pub num_columns : ℕ
  pub cells : List (Value F)
  pub ids : List RowId
  pub versions : List ℕ
  pub id_map : HashMap RowId ℕ
  pub id_map_data : List (RowId × ℕ)
  pub string_pool : StringPool P
  pub next_int_id : ℕ
  pub indexes : HashMap Text (Index F)
  pub indexes_data : List (Text × Index F)
  pub is_sequential_ids : Bool
