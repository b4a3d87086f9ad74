-- ===== src/Database/Query.antt =====
-- database.rs: the methods that look for rows, and those that delete or replace by what they find.
pub mod Threads
use mathlib.Core.Option
use dbobj.Base.{
  ℕ, zero, suc, ◌+◌, ◌%◌, ◌^◌, Bool, true, false, Option, none, some, List, [], ◌∷◌, Text, Res, ok,
  err, panic, Call, after, ◌>>=◌, pure, length, get_elem?, if◌then◌else◌,
}
use dbobj.Core.Float.{Float}
use dbobj.Core.Id.{RowId, text_key}
use dbobj.Core.Pool.{Interner}
use dbobj.Core.Value.{Value}
use dbobj.Database.{Database, DbMethod, Journal, ChangeType, on_table, set_table, with_table}
use dbobj.Database.Log.{log_deleted}
use dbobj.Database.Write.{not_found, update_values, insert_values}
use dbobj.Map
use dbobj.Query.{Expr, QueryPlan, plan, is_true}
use dbobj.Table.{
  ColumnDefinition, Schema, Row, Table, TableError, schema_violation, column_not_found,
}
use dbobj.Table.Delete
use dbobj.Table.Find.{select, find_by_column, append_parts}
use dbobj.Table.Read.{get_row_by_index}
use dbobj.Table.Spread.{each_index, spread}

abbrev pub Rows : Type 0 → Type 0
Rows F = Res TableError (List (Row F))

abbrev pub of_rows : {F : Type 0} → Option (List (Row F)) → Rows F
of_rows none = panic
of_rows (some rows) = ok rows

pub record TableInfo : Type 0 where
  pub name : Text
  pub columns : List ColumnDefinition
  pub row_count : ℕ

module _ {F P W : Type 0} where
  -- the table under a name, and what is done with it
  abbrev pub in_table : Text → Database F P W → (Table F P → Rows F) → Rows F
  in_table name db f = elim (Map.get name db.tables) [ none ↦ err (not_found name) | some t ↦ f t ]

  unfoldable pub table_info : Text → Database F P W → Option TableInfo
  unfolding Map.get text_key
  table_info name db =
      Option.map
        (λ (t : Table F P). record {
          name = t.name;
          columns = t.schema.columns;
          row_count = length t.ids;
        })
        (Map.get name db.tables)

  unfoldable pub query : ℕ → Text → (Row F → Bool) → Database F P W → Rows F
  unfolding select Map.get text_key
  query num_threads name predicate db =
      in_table name db (λ t. of_rows (select num_threads predicate t))

module _ {F : Type 0} where
  -- A test of a row that may panic, as the predicate of `select` and of a filter.
  abbrev pub row_if : Option (Row F) → (Row F → Option Bool) → Option (List (Row F))
  row_if none test = none
  row_if (some row) test = elim (test row) [
    | none ↦ none
    | some true ↦ some (row ∷ [])
    | some false ↦ some []
  ]

  unfoldable pub filter_rows : (Row F → Option Bool) → List (Row F) → Option (List (Row F))
  filter_rows test [] = some []
  filter_rows test (row ∷ rows) = append_parts (row_if (some row) test) (filter_rows test rows)

  -- the identifier of the first row that is found; an error of the search counts as none
  unfoldable pub existing_id : Rows F → Res TableError (Option RowId)
  existing_id (Res.ok []) = ok none
  existing_id (Res.ok (row ∷ rows)) = ok (some row.id)
  existing_id (Res.err e) = ok none
  existing_id Res.panic = panic

module _ {F P : Type 0} ⦃fl : Float F⦄ ⦃it : Interner P⦄ where
  -- `select` with the test of an expression
  unfoldable pub select_expr : ℕ → Expr F → Table F P → Option (List (Row F))
  unfolding spread is_true get_row_by_index
  select_expr num_threads expr t =
      spread (λ i. row_if (get_row_by_index i t) (λ row. is_true expr row t.column_map t))
        num_threads (length t.ids)

  unfoldable pub filter_candidates :
      Option (List (Row F)) → Expr F → Table F P → Option (List (Row F))
  unfolding filter_rows is_true
  filter_candidates none expr t = none
  filter_candidates (some rows) expr t = filter_rows (λ row. is_true expr row t.column_map t) rows

module _ {F P W : Type 0} ⦃fl : Float F⦄ ⦃it : Interner P⦄ where
  unfoldable pub find : Text → Text → Value F → Database F P W → Rows F
  unfolding find_by_column Map.get text_key
  find name column value db = in_table name db (λ t. of_rows (find_by_column column value t))

  unfoldable pub execute_plan : ℕ → QueryPlan F → Database F P W → Rows F
  unfolding select_expr filter_candidates find_by_column Map.get text_key
  execute_plan num_threads (QueryPlan.full_scan name expr) db =
      in_table name db (λ t. of_rows (select_expr num_threads expr t))
  execute_plan num_threads (QueryPlan.index_scan name col val) db =
      in_table name db (λ t. of_rows (find_by_column col val t))
  execute_plan num_threads (QueryPlan.index_filtered_scan name col val expr) db =
      in_table name db (λ t. of_rows (filter_candidates (find_by_column col val t) expr t))

  unfoldable pub query_expr : ℕ → Text → Expr F → Database F P W → Rows F
  unfolding plan execute_plan Map.get text_key
  query_expr num_threads name expr db =
      in_table name db (λ t. execute_plan num_threads (plan expr t) db)

module _ {F P W : Type 0} ⦃fl : Float F⦄ ⦃it : Interner P⦄ ⦃jo : Journal F W⦄ where
  unfoldable pub replace_or_insert :
      ℕ → Text → List (Value F) → Res TableError (Option RowId) → DbMethod F P W RowId
  unfolding update_values insert_values
  replace_or_insert now name values (Res.ok (some id)) = do
    _ ← update_values name id values
    pure id
  replace_or_insert now name values (Res.ok none) = insert_values now name values
  replace_or_insert now name values (Res.err e) = λ db. (db, err e)
  replace_or_insert now name values Res.panic = λ db. (db, panic)

  -- the value at a position of the row; none is an index past its end
  unfoldable pub replace_by :
      ℕ → Text → List (Value F) → Text → Option (Value F) → DbMethod F P W RowId
  unfolding find existing_id replace_or_insert
  replace_by now name values column none db = (db, panic)
  replace_by now name values column (some unique_val) db =
      replace_or_insert now name values (existing_id (find name column unique_val db)) db

  unfoldable pub insert_or_replace : ℕ → Text → List (Value F) → Text → DbMethod F P W RowId
  unfolding with_table replace_by Map.get text_key
  insert_or_replace now name values unique_column = with_table name (not_found name) (λ t db.
      elim (Map.get unique_column t.column_map) [
        | none ↦ (db, err (schema_violation (column_not_found unique_column)))
        | some col_idx ↦ replace_by now name values unique_column (get_elem? values col_idx) db
      ])

module _ {F P W : Type 0} ⦃jo : Journal F W⦄ where
  -- The loop of `delete_batch`: what was found is logged and counted, in a `u32`.
  unfoldable pub delete_each : ℕ → Text → List RowId → DbMethod F P W ℕ
  unfolding on_table Delete.delete log_deleted
  delete_each now name [] = pure 0
  delete_each now name (id ∷ ids) = do
    hit ← on_table name (not_found name) (Delete.delete id) (λ deleted t. elim deleted [
      | none ↦ pure 0
      | some _ ↦ (do _ ← log_deleted now name id; pure 1)
    ])
    rest ← delete_each now name ids
    pure ((hit + rest) % 2 ^ 32)

  unfoldable pub delete_batch : ℕ → Text → List RowId → DbMethod F P W ℕ
  unfolding with_table delete_each
  delete_batch now name ids = with_table name (not_found name) (λ t. delete_each now name ids)
