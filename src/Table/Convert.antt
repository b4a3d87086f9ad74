-- ===== src/Table/Convert.antt =====
-- table.rs: `validate_and_convert`, `row_to_values`, `values_to_row`, `get_row_values` and
-- `intern_row`.
use mathlib.Core.Option
use dbobj.Base.{
  ℕ, ◌*◌, Bool, true, false, not, ◌&&◌, Option, none, some, List, [], ◌∷◌, map, Text, Res, ok, err,
  panic, leb, ltb, if◌then◌else◌, length, get_elem?, set, replicate, slice,
}
use dbobj.Core.Id.{text_key}
use dbobj.Core.Pool
use dbobj.Core.Pool.{Interner, StringPool}
use dbobj.Core.Value.{Value, null, string, interned_string, is_null}
use dbobj.Map
use dbobj.Map.{HashMap}
use dbobj.Table.{
  DataType, ColumnDefinition, TableError, schema_violation, type_mismatch, not_nullable, RowData,
  Table,
}

module _ {F : Type 0} where
  -- the match on the column's type and the value
  unfoldable pub type_ok : DataType → Bool → Value F → Bool
  type_ok DataType.integer nullable (Value.integer i) = true
  type_ok DataType.float nullable (Value.float f) = true
  type_ok DataType.string nullable (string s) = true
  type_ok DataType.boolean nullable (Value.boolean b) = true
  type_ok DataType.blob nullable (Value.blob b) = true
  type_ok _ nullable null = nullable
  type_ok _ nullable _ = false

  -- `values[idx] = val`
  unfoldable pub write_value : ℕ → Value F → List (Value F) → Res TableError (List (Value F))
  write_value idx v values = if ltb idx (length values) then ok (set values idx v) else panic

  unfoldable pub check_type :
      Option ColumnDefinition → ℕ → Value F → List (Value F) → Res TableError (List (Value F))
  unfolding type_ok write_value
  check_type none idx v values = panic
  check_type (some col) idx v values =
      if type_ok col.data_type col.nullable v
      then write_value idx v values
      else err (schema_violation (type_mismatch col.name col.data_type))

  -- the body of the loop over the entries of the row; an unknown column is skipped
  unfoldable pub convert_at :
      List ColumnDefinition → Option ℕ → Value F → List (Value F) → Res TableError (List (Value F))
  unfolding is_null check_type write_value
  convert_at columns none v values = ok values
  convert_at columns (some idx) v values =
      if is_null v
      then write_value idx v values
      else check_type (get_elem? columns idx) idx v values

  abbrev pub then_convert :
      Res TableError (List (Value F))
      → (List (Value F) → Res TableError (List (Value F)))
      → Res TableError (List (Value F))
  then_convert (ok values) k = k values
  then_convert (err e) k = err e
  then_convert panic k = panic

  unfoldable pub convert_entries :
      List ColumnDefinition
      → HashMap Text ℕ
      → RowData F
      → List (Value F)
      → Res TableError (List (Value F))
  unfolding convert_at
  convert_entries columns positions [] values = ok values
  convert_entries columns positions ((name, v) ∷ rest) values =
      then_convert (convert_at columns (Map.get name positions) v values)
        (convert_entries columns positions rest)

  -- the loop over the columns behind it: `values[i]` of each column
  unfoldable pub missing_column : List ColumnDefinition → List (Value F) → Res TableError (Unit {0})
  unfolding is_null
  missing_column [] values = ok tt
  missing_column (col ∷ cols) [] = panic
  missing_column (col ∷ cols) (v ∷ values) =
      let rest = missing_column cols values in
      if is_null v && not col.nullable then err (schema_violation (not_nullable col.name)) else rest

  abbrev pub keep : Res TableError (Unit {0}) → List (Value F) → Res TableError (List (Value F))
  keep (ok _) values = ok values
  keep (err e) values = err e
  keep panic values = panic

module _ {F P : Type 0} where
  unfoldable pub validate_and_convert : RowData F → Table F P → Res TableError (List (Value F))
  unfolding convert_entries missing_column
  validate_and_convert entries t =
      then_convert
        (convert_entries t.schema.columns t.column_map entries
          (replicate (length t.schema.columns) null))
        (λ values. keep (missing_column t.schema.columns values) values)

  unfoldable pub row_to_values : RowData F → Table F P → List (Value F)
  row_to_values entries t =
      map (λ (col : ColumnDefinition). Option.get_or (Map.get col.name entries) null)
        t.schema.columns

module _ {F P : Type 0} ⦃it : Interner P⦄ where
  unfoldable pub resolve_value : StringPool P → Value F → Value F
  resolve_value pool (interned_string k) = elim (Pool.resolve pool k) [
    | some s ↦ string s
    | none ↦ interned_string k
  ]
  resolve_value pool v = v

  -- the loop of `values_to_row`: `values[idx]` of each column; `none` is a panic
  unfoldable pub row_entries :
      StringPool P → List ColumnDefinition → List (Value F) → RowData F → Option (RowData F)
  unfolding resolve_value
  row_entries pool [] values entries = some entries
  row_entries pool (col ∷ cols) [] entries = none
  row_entries pool (col ∷ cols) (v ∷ values) entries =
      row_entries pool cols values (Map.insert col.name (resolve_value pool v) entries)

  unfoldable pub values_to_row : List (Value F) → Table F P → Option (RowData F)
  unfolding row_entries
  values_to_row values t = row_entries t.string_pool t.schema.columns values []

  unfoldable pub get_row_values : ℕ → Table F P → Option (Option (List (Value F)))
  unfolding resolve_value
  get_row_values row t =
      if leb (length t.ids) row
      then some none
      else Option.map (λ vs. some (map (resolve_value t.string_pool) vs))
          (slice t.cells (row * t.num_columns) t.num_columns)

  -- one value of `intern_row`
  unfoldable pub intern_value : Value F → StringPool P → Value F × StringPool P
  intern_value (string s) pool = let (k, pool') = Pool.intern pool s in (interned_string k, pool')
  intern_value v pool = (v, pool)

  unfoldable pub intern_row : List (Value F) → StringPool P → List (Value F) × StringPool P
  unfolding intern_value
  intern_row [] pool = ([], pool)
  intern_row (v ∷ vs) pool =
      let (v', pool') = intern_value v pool in
      let (vs', pool'') = intern_row vs pool' in (v' ∷ vs', pool'')
