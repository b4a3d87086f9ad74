-- ===== src/Sql/Executor.antt =====
-- extensions/sql/src/executor.rs: placeholders, prepared statements and the cache of statements.
pub mod Cache
pub mod Placeholders
pub mod Filled
use dbobj.Base.{
  ℕ, suc, ◌+◌, Bool, Option, none, some, List, [], ◌∷◌, Text, Res, ok, err, panic, Call, ◌>>=◌,
  pure, lift, after, each, leb, ◌==◌, if◌then◌else◌, length, get_elem?,
}
use dbobj.Core.Id.{text_key}
use dbobj.Core.Value.{Value}
use dbobj.Map
use dbobj.Map.{HashMap}
use dbobj.Sql.Ast.{Expr, Select, Assignment, Statement}
use dbobj.Sql.Parser.{ParseFloat, Stop}
use dbobj.Sql.Parser.Statement.{parse}

-- The messages of a failed call; `statement_failed` is one of the database.
pub data SqlError : Type 0 where
  parse_failed : Stop → SqlError
  expected_parameters : ℕ → ℕ → SqlError
  statement_failed : Text → SqlError

-- A substitution moves the index of the next parameter; a missing one is an `unwrap` of an error.
abbrev pub Fill : Type 0 → Type 0
Fill A = Call ℕ SqlError A

module _ {F : Type 0} where
  -- `count` is the counter before and, in the result, after.
  unfoldable pub count_expr_placeholders : Expr F → ℕ → ℕ
  count_expr_placeholders Expr.placeholder count = count + 1
  count_expr_placeholders (Expr.binary l op r) count =
      count_expr_placeholders r (count_expr_placeholders l count)
  count_expr_placeholders (Expr.nested e) count = count_expr_placeholders e count
  count_expr_placeholders e count = count

  unfoldable pub count_row : List (Expr F) → ℕ → ℕ
  unfolding count_expr_placeholders
  count_row [] count = count
  count_row (e ∷ es) count = count_row es (count_expr_placeholders e count)

  unfoldable pub count_rows : List (List (Expr F)) → ℕ → ℕ
  unfolding count_row
  count_rows [] count = count
  count_rows (row ∷ rows) count = count_rows rows (count_row row count)

  unfoldable pub count_assignments : List (Assignment F) → ℕ → ℕ
  unfolding count_expr_placeholders
  count_assignments [] count = count
  count_assignments (a ∷ rest) count =
      count_assignments rest (count_expr_placeholders a.value count)

  unfoldable pub count_selection : Option (Expr F) → ℕ → ℕ
  unfolding count_expr_placeholders
  count_selection none count = count
  count_selection (some e) count = count_expr_placeholders e count

  unfoldable pub count_stmt_placeholders : Statement F → ℕ → ℕ
  unfolding count_rows count_assignments count_selection
  count_stmt_placeholders (Statement.select s) count = count_selection s.selection count
  count_stmt_placeholders (Statement.insert table columns values) count = count_rows values count
  count_stmt_placeholders (Statement.update table assignments selection) count =
      count_selection selection (count_assignments assignments count)
  count_stmt_placeholders (Statement.delete table selection) count = count_selection selection count
  count_stmt_placeholders stmt count = count

  unfoldable pub count_from : List (Statement F) → ℕ → ℕ
  unfolding count_stmt_placeholders
  count_from [] count = count
  count_from (s ∷ stmts) count = count_from stmts (count_stmt_placeholders s count)

  unfoldable pub count_params : List (Statement F) → ℕ
  unfolding count_from
  count_params stmts = count_from stmts 0

  unfoldable pub next_param : Option (Value F) → Fill (Expr F)
  next_param none idx = (idx, panic)
  next_param (some v) idx = (idx + 1, ok (Expr.literal v))

  module _ (params : List (Value F)) where
    unfoldable pub substitute_expr : Expr F → Fill (Expr F)
    unfolding next_param
    substitute_expr Expr.placeholder = λ idx. next_param (get_elem? params idx) idx
    substitute_expr (Expr.binary l op r) = do
      left ← substitute_expr l
      right ← substitute_expr r
      pure (Expr.binary left op right)
    substitute_expr (Expr.nested e) = do inner ← substitute_expr e; pure (Expr.nested inner)
    substitute_expr (Expr.agg f e) = do arg ← substitute_expr e; pure (Expr.agg f arg)
    substitute_expr e = pure e

    unfoldable pub substitute_selection : Option (Expr F) → Fill (Option (Expr F))
    unfolding substitute_expr
    substitute_selection none = pure none
    substitute_selection (some e) = do e' ← substitute_expr e; pure (some e')

    unfoldable pub substitute_assignment : Assignment F → Fill (Assignment F)
    unfolding substitute_expr
    substitute_assignment a = do
      value ← substitute_expr a.value
      pure (record { column = a.column; value = value })

    unfoldable pub substitute_statement : Statement F → Fill (Statement F)
    unfolding substitute_selection substitute_assignment each
    substitute_statement (Statement.select s) = do
      selection ← substitute_selection s.selection
      pure (Statement.select (record s { selection = selection }))
    substitute_statement (Statement.insert table columns values) = do
      new_values ← each (each substitute_expr) values
      pure (Statement.insert table columns new_values)
    substitute_statement (Statement.update table assignments selection) = do
      new_assignments ← each substitute_assignment assignments
      new_selection ← substitute_selection selection
      pure (Statement.update table new_assignments new_selection)
    substitute_statement (Statement.delete table selection) = do
      new_selection ← substitute_selection selection
      pure (Statement.delete table new_selection)
    substitute_statement stmt = pure stmt

pub record PreparedStatement (F : Type 0) : Type 0 where
  pub statements : List (Statement F)
  pub param_count : ℕ

-- What runs one statement on the database `D` is an argument.
module _ {F D R : Type 0} (execute_statement : Statement F → Call D SqlError R) where
  -- the loop of `execute`
  unfoldable pub run_all : R → List (Statement F) → Call D SqlError R
  run_all last [] = pure last
  run_all last (s ∷ stmts) = do r ← execute_statement s; run_all r stmts

  -- the loop of `execute_prepared`, with the index of the next parameter
  unfoldable pub run_resolved : List (Value F) → ℕ → R → List (Statement F) → Call D SqlError R
  unfolding substitute_statement
  run_resolved params idx last [] d = (d, ok last)
  run_resolved params idx last (s ∷ stmts) d =
      let (idx', filled) = substitute_statement params s idx in
      (do resolved ← lift filled; r ← execute_statement resolved; run_resolved params idx' r stmts)
        d

  -- `start` is `SqlResult::Ok`.
  unfoldable pub execute_prepared : R → PreparedStatement F → List (Value F) → Call D SqlError R
  unfolding run_resolved
  execute_prepared start stmt params d =
      if length params == stmt.param_count
      then run_resolved params 0 start stmt.statements d
      else (d, err (expected_parameters stmt.param_count (length params)))

abbrev pub StatementCache : Type 0 → Type 0
StatementCache F = HashMap Text (List (Statement F))

unfoldable pub max_cache_size : ℕ
max_cache_size = 512

module _ {F : Type 0} where
  unfoldable pub make_room : StatementCache F → StatementCache F
  unfolding max_cache_size
  make_room cache = if leb max_cache_size (length cache) then [] else cache

  unfoldable pub remember :
      Text → Res Stop (List (Statement F)) → Call (StatementCache F) SqlError (List (Statement F))
  unfolding make_room Map.insert text_key
  remember sql (Res.ok parsed) cache = (Map.insert sql parsed (make_room cache), ok parsed)
  remember sql (Res.err e) cache = (cache, err (parse_failed e))
  remember sql Res.panic cache = (cache, panic)

  unfoldable pub cached_or :
      Option (List (Statement F))
      → Call (StatementCache F) SqlError (List (Statement F))
      → Call (StatementCache F) SqlError (List (Statement F))
  cached_or none other cache = other cache
  cached_or (some stmts) other cache = (cache, ok stmts)

module _ {F : Type 0} ⦃pf : ParseFloat F⦄ where
  unfoldable pub get_or_parse : Text → Call (StatementCache F) SqlError (List (Statement F))
  unfolding cached_or remember parse Map.get text_key
  get_or_parse sql cache = cached_or (Map.get sql cache) (remember sql (parse sql)) cache

  unfoldable pub prepare : Text → Call (StatementCache F) SqlError (PreparedStatement F)
  unfolding get_or_parse count_params
  prepare sql = do
    stmts ← get_or_parse sql
    pure (record { statements = stmts; param_count = count_params stmts })

  module _ {D R : Type 0} (execute_statement : Statement F → Call D SqlError R) where
    unfoldable pub run_parsed : R → Res SqlError (List (Statement F)) → D → D × Res SqlError R
    unfolding run_all
    run_parsed start (Res.ok stmts) d = run_all execute_statement start stmts d
    run_parsed start (Res.err e) d = (d, err e)
    run_parsed start Res.panic d = (d, panic)

    -- The cache and the database change together.
    unfoldable pub execute : R → Text → Call (StatementCache F × D) SqlError R
    unfolding get_or_parse run_parsed
    execute start sql (cache, d) =
        let (cache', parsed) = get_or_parse sql cache in
        let (d', result) = run_parsed start parsed d in ((cache', d'), result)
