-- ===== src/Sql/Ast.antt =====
-- extensions/sql/src/local_parser/ast.rs: tokens, errors and statements.
use dbobj.Base.{ℕ, Bool, Option, List, [], Text, ◌==◌, ◌&&◌, text_beq}
use dbobj.Core.Value.{Value}
use dbobj.Query.{Operator}
use dbobj.Table.{DataType}

pub data Token : Type 0 where
  kw_create kw_table kw_alter kw_add kw_column kw_insert kw_into kw_values kw_update : Token
  kw_set kw_delete kw_from kw_select kw_where kw_inner kw_join kw_on kw_and kw_or : Token
  kw_like kw_not kw_order kw_by kw_asc kw_desc kw_limit kw_offset kw_drop kw_default : Token
  kw_count kw_sum kw_min kw_max kw_true kw_false kw_null kw_as kw_integer kw_int : Token
  kw_big_int kw_float kw_double kw_real kw_string kw_text kw_varchar kw_char kw_boolean : Token
  kw_blob kw_bytea kw_varbinary kw_binary left_paren right_paren comma semicolon dot : Token
  star equals question : Token
  ident number single_quoted_string : Text → Token
  op_not_eq op_gt_eq op_lt_eq op_gt op_lt eof : Token

-- The derived `PartialEq` compares the variant and its text.
unfoldable pub tag : Token → ℕ
tag Token.kw_create = 0
tag Token.kw_table = 1
tag Token.kw_alter = 2
tag Token.kw_add = 3
tag Token.kw_column = 4
tag Token.kw_insert = 5
tag Token.kw_into = 6
tag Token.kw_values = 7
tag Token.kw_update = 8
tag Token.kw_set = 9
tag Token.kw_delete = 10
tag Token.kw_from = 11
tag Token.kw_select = 12
tag Token.kw_where = 13
tag Token.kw_inner = 14
tag Token.kw_join = 15
tag Token.kw_on = 16
tag Token.kw_and = 17
tag Token.kw_or = 18
tag Token.kw_like = 19
tag Token.kw_not = 20
tag Token.kw_order = 21
tag Token.kw_by = 22
tag Token.kw_asc = 23
tag Token.kw_desc = 24
tag Token.kw_limit = 25
tag Token.kw_offset = 26
tag Token.kw_drop = 27
tag Token.kw_default = 28
tag Token.kw_count = 29
tag Token.kw_sum = 30
tag Token.kw_min = 31
tag Token.kw_max = 32
tag Token.kw_true = 33
tag Token.kw_false = 34
tag Token.kw_null = 35
tag Token.kw_as = 36
tag Token.kw_integer = 37
tag Token.kw_int = 38
tag Token.kw_big_int = 39
tag Token.kw_float = 40
tag Token.kw_double = 41
tag Token.kw_real = 42
tag Token.kw_string = 43
tag Token.kw_text = 44
tag Token.kw_varchar = 45
tag Token.kw_char = 46
tag Token.kw_boolean = 47
tag Token.kw_blob = 48
tag Token.kw_bytea = 49
tag Token.kw_varbinary = 50
tag Token.kw_binary = 51
tag Token.left_paren = 52
tag Token.right_paren = 53
tag Token.comma = 54
tag Token.semicolon = 55
tag Token.dot = 56
tag Token.star = 57
tag Token.equals = 58
tag Token.question = 59
tag (Token.ident s) = 60
tag (Token.number s) = 61
tag (Token.single_quoted_string s) = 62
tag Token.op_not_eq = 63
tag Token.op_gt_eq = 64
tag Token.op_lt_eq = 65
tag Token.op_gt = 66
tag Token.op_lt = 67
tag Token.eof = 68

unfoldable pub payload : Token → Text
payload (Token.ident s) = s
payload (Token.number s) = s
payload (Token.single_quoted_string s) = s
payload t = []

unfoldable pub token_beq : Token → Token → Bool
unfolding tag payload text_beq
token_beq a b = tag a == tag b && text_beq (payload a) (payload b)

-- The text of an error is kept as its kind and the values in it.
pub data Message : Type 0 where
  expected_eq_after_bang : Message
  unexpected_character : ℕ → Message
  unterminated_string_literal : Message
  unterminated_double_quoted_string : Message
  expected_token : Token → Token → Message
  expected_identifier : Token → Message
  unexpected_token : Token → Message
  expected_data_type : Token → Message
  invalid_number : Text → Message
  expected_number : Token → Message
  invalid_float : Text → Message
  invalid_integer : Text → Message
  unexpected_token_in_expression : Token → Message

pub record ParseError : Type 0 where
  pub message : Message
  pub position : ℕ

pub data AggFunc : Type 0 where
  count sum min max : AggFunc

pub data Expr (F : Type 0) : Type 0 where
  literal : Value F → Expr F
  column : Text → Expr F
  compound_column : Text → Text → Expr F
  placeholder : Expr F
  binary : Expr F → Operator → Expr F → Expr F
  nested : Expr F → Expr F
  agg : AggFunc → Expr F → Expr F

pub record ColumnDef (F : Type 0) : Type 0 where
  pub name : Text
  pub data_type : DataType
  pub nullable : Option Bool
  pub default_value : Option (Expr F)

pub record SelectColumn (F : Type 0) : Type 0 where
  pub expr : Expr F
  pub alias : Option Text

pub data SelectColumns (F : Type 0) : Type 0 where
  star : SelectColumns F
  list : List (SelectColumn F) → SelectColumns F

pub record OrderBy : Type 0 where
  pub column : Text
  pub descending : Bool

pub record Assignment (F : Type 0) : Type 0 where
  pub column : Text
  pub value : Expr F

pub data AlterOperation (F : Type 0) : Type 0 where
  add_column : ColumnDef F → AlterOperation F

pub record Join : Type 0 where
  pub table : Text
  pub left_table : Text
  pub left_col : Text
  pub right_table : Text
  pub right_col : Text

pub record Select (F : Type 0) : Type 0 where
  pub columns : SelectColumns F
  pub table : Text
  pub selection : Option (Expr F)
  pub join : Option Join
  pub order_by : Option OrderBy
  pub limit : Option ℕ
  pub offset : Option ℕ

pub data Statement (F : Type 0) : Type 0 where
  create_table : Text → List (ColumnDef F) → Statement F
  alter_table : Text → AlterOperation F → Statement F
  insert : Text → List Text → List (List (Expr F)) → Statement F
  update : Text → List (Assignment F) → Option (Expr F) → Statement F
  delete : Text → Option (Expr F) → Statement F
  select : Select F → Statement F
  drop_table : Text → Statement F
