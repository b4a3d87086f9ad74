-- ===== src/Sql/Parser/Parts.antt =====
-- local_parser/mod.rs: the parts of statements that hold no expression, and the loops over items.
use dbobj.Base.{
  ℕ, zero, suc, Bool, true, false, Option, none, some, List, [], ◌∷◌, Text, text_beq, ok, ◌>>=◌,
  pure, if◌then◌else◌,
}
use dbobj.Sql.Ast.{Token, token_beq, OrderBy, AlterOperation, Join, Statement, expected_data_type}
use dbobj.Sql.Parser.{
  Parse, advance, raise, give_up, when, expect, current_ident_owned, name_of, parse_u64,
}
use dbobj.Table.{DataType}

unfoldable pub data_type_of : Token → Option DataType
data_type_of Token.kw_integer = some DataType.integer
data_type_of Token.kw_int = some DataType.integer
data_type_of Token.kw_big_int = some DataType.integer
data_type_of Token.kw_float = some DataType.float
data_type_of Token.kw_double = some DataType.float
data_type_of Token.kw_real = some DataType.float
data_type_of Token.kw_string = some DataType.string
data_type_of Token.kw_text = some DataType.string
data_type_of Token.kw_varchar = some DataType.string
data_type_of Token.kw_char = some DataType.string
data_type_of Token.kw_boolean = some DataType.boolean
data_type_of Token.kw_blob = some DataType.blob
data_type_of Token.kw_bytea = some DataType.blob
data_type_of Token.kw_varbinary = some DataType.blob
data_type_of Token.kw_binary = some DataType.blob
data_type_of t = none

-- the size behind a type, of which one token is skipped
unfoldable pub skip_size : DataType → Parse DataType
unfolding advance expect token_beq
skip_size dt =
    when Token.left_paren (do _ ← advance; _ ← advance; _ ← expect Token.right_paren; pure dt)
      (pure dt)

unfoldable pub type_or_error : Option DataType → Parse DataType
unfolding advance skip_size
type_or_error none p = raise (expected_data_type p.current) p
type_or_error (some dt) p = (do _ ← advance; skip_size dt) p

unfoldable pub parse_data_type : Parse DataType
unfolding data_type_of type_or_error
parse_data_type p = type_or_error (data_type_of p.current) p

-- A loop that reads items up to a `)`, with a comma between two of them.
unfoldable pub until_paren {ℓ} : {A : Type ℓ} → Parse A → ℕ → Parse (List A)
unfolding expect token_beq
until_paren item zero = give_up
until_paren item (suc n) = do
  x ← item
  when Token.right_paren (pure (x ∷ []))
      (do _ ← expect Token.comma; xs ← until_paren item n; pure (x ∷ xs))

-- A loop that reads items for as long as a comma follows.
unfoldable pub while_comma {ℓ} : {A : Type ℓ} → Parse A → ℕ → Parse (List A)
unfolding advance token_beq
while_comma item zero = give_up
while_comma item (suc n) = do
  x ← item
  when Token.comma (do _ ← advance; xs ← while_comma item n; pure (x ∷ xs)) (pure (x ∷ []))

unfoldable pub parse_drop_table : {F : Type 0} → Parse (Statement F)
unfolding advance expect current_ident_owned
parse_drop_table = do
  _ ← expect Token.kw_drop
  _ ← expect Token.kw_table
  name ← name_of
  pure (Statement.drop_table name)

unfoldable pub parse_alter_table : {F : Type 0} → Parse (Statement F)
unfolding advance expect current_ident_owned parse_data_type token_beq
parse_alter_table = do
  _ ← expect Token.kw_alter
  _ ← expect Token.kw_table
  name ← name_of
  _ ← expect Token.kw_add
  _ ← when Token.kw_column advance (pure tt)
  col_name ← name_of
  data_type ← parse_data_type
  pure (
      Statement.alter_table name (
        AlterOperation.add_column (record {
          name = col_name;
          data_type = data_type;
          nullable = none;
          default_value = none;
        })))

-- The columns are put left and right by the name of the table before the first dot.
unfoldable pub oriented : Text → Text → Text → Text → Text → Text → Join
oriented left_table right_table a x b y =
    if text_beq a left_table
    then record {
      table = right_table;
      left_table = a;
      left_col = x;
      right_table = b;
      right_col = y;
    }
    else record {
      table = right_table;
      left_table = b;
      left_col = y;
      right_table = a;
      right_col = x;
    }

unfoldable pub parse_join : Text → Parse Join
unfolding advance expect current_ident_owned token_beq oriented
parse_join left_table = do
  _ ← when Token.kw_inner advance (pure tt)
  _ ← expect Token.kw_join
  right_table ← name_of
  _ ← expect Token.kw_on
  left_col ← name_of
  _ ← expect Token.dot
  left_name ← name_of
  _ ← expect Token.equals
  right_col ← name_of
  _ ← expect Token.dot
  right_name ← name_of
  pure (oriented left_table right_table left_col left_name right_col right_name)

unfoldable pub parse_direction : Parse Bool
unfolding advance token_beq
parse_direction =
    when Token.kw_desc (do _ ← advance; pure true)
      (when Token.kw_asc (do _ ← advance; pure false) (pure false))

unfoldable pub parse_order_by : Parse (Option OrderBy)
unfolding advance expect current_ident_owned parse_direction token_beq
parse_order_by =
    when Token.kw_order
      (do
        _ ← advance
        _ ← expect Token.kw_by
        col ← name_of
        descending ← parse_direction
        pure (some (record { column = col; descending = descending })))
      (pure none)

-- `LIMIT` and `OFFSET`
unfoldable pub parse_count : Token → Parse (Option ℕ)
unfolding advance parse_u64 token_beq
parse_count t = when t (do _ ← advance; n ← parse_u64; pure (some n)) (pure none)

unfoldable pub is_join : Token → Bool
is_join Token.kw_inner = true
is_join Token.kw_join = true
is_join t = false

unfoldable pub maybe_join : Text → Parse (Option Join)
unfolding is_join parse_join
maybe_join table p =
    if is_join p.current then (do j ← parse_join table; pure (some j)) p else (p, ok none)

-- the names in parentheses, if there are any
unfoldable pub insert_columns : ℕ → Parse (List Text)
unfolding advance expect current_ident_owned until_paren token_beq
insert_columns n =
    when Token.left_paren
      (do _ ← advance; cols ← until_paren name_of n; _ ← expect Token.right_paren; pure cols)
      (pure [])
