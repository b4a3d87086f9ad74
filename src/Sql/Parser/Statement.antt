-- ===== src/Sql/Parser/Statement.antt =====
-- local_parser/mod.rs: the parser of statements.
use dbobj.Base.{
  ℕ, zero, suc, Bool, false, Option, none, some, List, [], ◌∷◌, Text, length, Res, ◌>>=◌, pure,
}
use dbobj.Sql.Ast.{
  Token, token_beq, Expr, ColumnDef, SelectColumn, SelectColumns, Assignment, Statement,
  unexpected_token,
}
use dbobj.Sql.Parser.{
  Stop, Parse, ParseFloat, new, advance, raise, give_up, when, expect, current_ident_owned, name_of,
  parse_expr,
}
use dbobj.Sql.Parser.Parts.{
  parse_data_type, until_paren, while_comma, parse_drop_table, parse_alter_table, parse_order_by,
  parse_count, maybe_join, insert_columns,
}

-- `n` is the fuel of each loop and of each expression.
module _ {F : Type 0} ⦃pf : ParseFloat F⦄ (n : ℕ) where
  unfoldable pub parse_where : Parse (Option (Expr F))
  unfolding advance parse_expr token_beq
  parse_where = when Token.kw_where (do _ ← advance; e ← parse_expr n; pure (some e)) (pure none)

  -- the options of a column, in any order; the last of a kind counts
  unfoldable pub column_options :
      ℕ → Option Bool → Option (Expr F) → Parse (Option Bool × Option (Expr F))
  unfolding advance expect parse_expr token_beq
  column_options zero nullable default_value = give_up
  column_options (suc k) nullable default_value =
      when Token.kw_not
        (do _ ← advance; _ ← expect Token.kw_null; column_options k (some false) default_value)
        (when Token.kw_default
          (do _ ← advance; e ← parse_expr n; column_options k nullable (some e))
          (pure (nullable, default_value)))

  unfoldable pub column_def : Parse (ColumnDef F)
  unfolding advance current_ident_owned parse_data_type column_options
  column_def = do
    col_name ← name_of
    data_type ← parse_data_type
    opts ← column_options n none none
    pure (record {
      name = col_name;
      data_type = data_type;
      nullable = opts.0;
      default_value = opts.1;
    })

  unfoldable pub parse_create_table : Parse (Statement F)
  unfolding advance expect current_ident_owned until_paren column_def
  parse_create_table = do
    _ ← expect Token.kw_create
    _ ← expect Token.kw_table
    name ← name_of
    _ ← expect Token.left_paren
    columns ← until_paren column_def n
    _ ← expect Token.right_paren
    pure (Statement.create_table name columns)

  unfoldable pub values_row : Parse (List (Expr F))
  unfolding expect until_paren parse_expr
  values_row = do
    _ ← expect Token.left_paren
    row ← until_paren (parse_expr n) n
    _ ← expect Token.right_paren
    pure row

  unfoldable pub parse_insert : Parse (Statement F)
  unfolding advance expect current_ident_owned insert_columns values_row while_comma
  parse_insert = do
    _ ← expect Token.kw_insert
    _ ← expect Token.kw_into
    table ← name_of
    columns ← insert_columns n
    _ ← expect Token.kw_values
    all_values ← while_comma values_row n
    pure (Statement.insert table columns all_values)

  unfoldable pub assignment : Parse (Assignment F)
  unfolding advance expect current_ident_owned parse_expr
  assignment = do
    column ← name_of
    _ ← expect Token.equals
    value ← parse_expr n
    pure (record { column = column; value = value })

  unfoldable pub parse_update : Parse (Statement F)
  unfolding advance expect current_ident_owned assignment while_comma parse_where
  parse_update = do
    _ ← expect Token.kw_update
    table ← name_of
    _ ← expect Token.kw_set
    assignments ← while_comma assignment n
    selection ← parse_where
    pure (Statement.update table assignments selection)

  unfoldable pub parse_delete : Parse (Statement F)
  unfolding advance expect current_ident_owned parse_where
  parse_delete = do
    _ ← expect Token.kw_delete
    _ ← expect Token.kw_from
    table ← name_of
    selection ← parse_where
    pure (Statement.delete table selection)

  unfoldable pub select_column : Parse (SelectColumn F)
  unfolding advance current_ident_owned parse_expr token_beq
  select_column = do
    expr ← parse_expr n
    alias ← when Token.kw_as (do _ ← advance; name ← name_of; pure (some name)) (pure none)
    pure (record { expr = expr; alias = alias })

  unfoldable pub select_columns : Parse (SelectColumns F)
  unfolding advance select_column while_comma token_beq
  select_columns =
      when Token.star (do _ ← advance; pure SelectColumns.star)
        (do cols ← while_comma select_column n; pure (SelectColumns.list cols))

  unfoldable pub parse_select : Parse (Statement F)
  unfolding advance expect current_ident_owned select_columns maybe_join parse_where parse_order_by
      parse_count
  parse_select = do
    _ ← expect Token.kw_select
    columns ← select_columns
    _ ← expect Token.kw_from
    table ← name_of
    join ← maybe_join table
    selection ← parse_where
    order_by ← parse_order_by
    limit ← parse_count Token.kw_limit
    offset ← parse_count Token.kw_offset
    pure (
        Statement.select (record {
          columns = columns;
          table = table;
          selection = selection;
          join = join;
          order_by = order_by;
          limit = limit;
          offset = offset;
        }))

  unfoldable pub statement_of : Token → Parse (Statement F)
  unfolding parse_create_table parse_drop_table parse_alter_table parse_insert parse_update
      parse_delete parse_select
  statement_of Token.kw_create = parse_create_table
  statement_of Token.kw_drop = parse_drop_table
  statement_of Token.kw_alter = parse_alter_table
  statement_of Token.kw_insert = parse_insert
  statement_of Token.kw_update = parse_update
  statement_of Token.kw_delete = parse_delete
  statement_of Token.kw_select = parse_select
  statement_of t = raise (unexpected_token t)

  unfoldable pub parse_statement : Parse (Statement F)
  unfolding statement_of
  parse_statement p = statement_of p.current p

  unfoldable pub parse_statements : ℕ → Parse (List (Statement F))
  unfolding parse_statement advance token_beq
  parse_statements zero = give_up
  parse_statements (suc k) = when Token.eof (pure []) (do
    stmt ← parse_statement
    _ ← when Token.semicolon advance (pure tt)
    stmts ← parse_statements k
    pure (stmt ∷ stmts))

-- A text has at most as many tokens as characters.
unfoldable pub parse_fuel : Text → ℕ
parse_fuel input = suc (length input)

-- `Parser::new(input).parse_statements()`
unfoldable pub parse : {F : Type 0} ⦃pf : ParseFloat F⦄ → Text → Res Stop (List (Statement F))
unfolding parse_fuel new parse_statements
parse input = (parse_statements (parse_fuel input) (parse_fuel input) (new input)).1
