-- ===== src/Table/Read.antt =====
-- table.rs: `new`, and the methods that look at rows and columns.
pub mod Index
pub mod New
use mathlib.Core.Option
use dbobj.Base.{
  ℕ, zero, suc, ◌+◌, ◌*◌, Bool, true, false, Option, none, some, List, [], ◌∷◌, Text, text_beq,
  codes, ltb, if◌then◌else◌, length, get_elem?, slice,
}
use dbobj.Core.Id.{RowId, id_beq, id_key, text_key, to_value}
use dbobj.Core.Pool.{Interner, StringPool}
use dbobj.Core.Value.{Value, interned_string}
use dbobj.Map
use dbobj.Map.{HashMap}
use dbobj.Table.{ColumnDefinition, Schema, Row, RowData, Table}

-- the loop of `new`: a later column of the same name takes the entry over
unfoldable pub column_positions : ℕ → List ColumnDefinition → HashMap Text ℕ → HashMap Text ℕ
column_positions i [] m = m
column_positions i (col ∷ cols) m = column_positions (suc i) cols (Map.insert col.name i m)

module _ {F P : Type 0} ⦃it : Interner P⦄ where
  unfoldable pub new : Text → Schema → Table F P
  unfolding column_positions
  new name schema = record {
    name = name;
    schema = schema;
    column_map = column_positions 0 schema.columns [];
    column_map_data = [];
    num_columns = length schema.columns;
    cells = [];
    ids = [];
    versions = [];
    id_map = [];
    id_map_data = [];
    string_pool = record { interner = it.empty; strings = [] };
    next_int_id = 0;
    indexes = [];
    indexes_data = [];
    is_sequential_ids = true;
  }

-- the test of the sequential case: position `i` holds the identifier `i`
unfoldable pub at_own_position : ℕ → List RowId → Bool
at_own_position i ids = elim (get_elem? ids i) [
  | none ↦ false
  | some id ↦ id_beq id (RowId.integer i)
]

unfoldable pub sequential_index : RowId → List RowId → Option ℕ
unfolding at_own_position
sequential_index (RowId.integer i) ids =
    if ltb i (length ids) then if at_own_position i ids then some i else none else none
sequential_index (RowId.string s) ids = none

unfoldable pub or_else : Option ℕ → Option ℕ → Option ℕ
or_else none o = o
or_else (some i) o = some i

unfoldable pub sequential_position : RowId → List RowId → Option ℕ
sequential_position (RowId.integer i) ids = if ltb i (length ids) then some i else none
sequential_position (RowId.string s) ids = none

unfoldable pub row_of :
    {F : Type 0} → Option (List (Value F)) → Option RowId → Option ℕ → Option (Row F)
row_of (some vs) (some id) (some version) =
    some (record { id = id; values = vs; version = version })
row_of _ _ _ = none

module _ {F P : Type 0} where
  unfoldable pub get_index : RowId → Table F P → Option ℕ
  unfolding sequential_index or_else
  get_index id t =
      or_else (if t.is_sequential_ids then sequential_index id t.ids else none)
        (Map.get id t.id_map)

  -- `none` is a panic: a row past the end.
  unfoldable pub get_row_by_index : ℕ → Table F P → Option (Row F)
  unfolding row_of
  get_row_by_index index t =
      row_of (slice t.cells (index * t.num_columns) t.num_columns) (get_elem? t.ids index)
        (get_elem? t.versions index)

-- The column of `get_column_index`: -1 stands for the virtual column `id`.
pub data Column : Type 0 where
  virtual_id : Column
  position : ℕ → Column

module _ {F P : Type 0} where
  unfoldable pub get_column_index : Text → Table F P → Option Column
  get_column_index name t =
      if text_beq name (codes "id")
      then if Map.contains_key (codes "id") t.column_map
        then Option.map position (Map.get (codes "id") t.column_map)
        else some virtual_id
      else Option.map position (Map.get name t.column_map)

  -- `none` is a panic, here and in `get_value_ref`.
  unfoldable pub get_value_by_index : ℕ → Column → Table F P → Option (Value F)
  get_value_by_index row virtual_id t = Option.map to_value (get_elem? t.ids row)
  get_value_by_index row (position col) t = get_elem? t.cells (row * t.num_columns + col)

  unfoldable pub get_value_ref : ℕ → ℕ → Table F P → Option (Value F)
  get_value_ref row col t = get_elem? t.cells (row * t.num_columns + col)

  -- `get`: a panic is `none`, and `some none` is the answer that there is no such row.
  unfoldable pub lookup_row : Option ℕ → Table F P → Option (Option (Row F))
  lookup_row none t = some none
  lookup_row (some i) t = Option.map some (get_row_by_index i t)

  unfoldable pub get : RowId → Table F P → Option (Option (Row F))
  unfolding lookup_row sequential_position
  get id t =
      lookup_row
        (or_else (if t.is_sequential_ids then sequential_position id t.ids else none)
          (Map.get id t.id_map))
        t

  unfoldable pub get_index_handle : Text → Table F P → Option ℕ
  get_index_handle name t = Map.get name t.column_map
