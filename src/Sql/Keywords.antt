-- ===== src/Sql/Keywords.antt =====
-- tokenizer.rs: the words that `scan_ident_or_keyword` tells from identifiers.
use dbobj.Base.{
  ℕ, ◌-◌, ◌&&◌, Option, none, some, List, [], ◌∷◌, map, Text, codes, text_beq, leb, if◌then◌else◌,
}
use dbobj.Sql.Ast.{Token}

unfoldable pub to_ascii_uppercase : ℕ → ℕ
to_ascii_uppercase c = if leb b'a' c && leb c b'z' then c - 32 else c

unfoldable pub keywords : List (Text × Token)
keywords =
    (codes "CREATE", Token.kw_create)
    ∷ (codes "TABLE", Token.kw_table)
    ∷ (codes "ALTER", Token.kw_alter)
    ∷ (codes "ADD", Token.kw_add)
    ∷ (codes "COLUMN", Token.kw_column)
    ∷ (codes "INSERT", Token.kw_insert)
    ∷ (codes "INTO", Token.kw_into)
    ∷ (codes "VALUES", Token.kw_values)
    ∷ (codes "UPDATE", Token.kw_update)
    ∷ (codes "SET", Token.kw_set)
    ∷ (codes "DELETE", Token.kw_delete)
    ∷ (codes "FROM", Token.kw_from)
    ∷ (codes "SELECT", Token.kw_select)
    ∷ (codes "WHERE", Token.kw_where)
    ∷ (codes "INNER", Token.kw_inner)
    ∷ (codes "JOIN", Token.kw_join)
    ∷ (codes "ON", Token.kw_on)
    ∷ (codes "AND", Token.kw_and)
    ∷ (codes "OR", Token.kw_or)
    ∷ (codes "TRUE", Token.kw_true)
    ∷ (codes "FALSE", Token.kw_false)
    ∷ (codes "NULL", Token.kw_null)
    ∷ (codes "AS", Token.kw_as)
    ∷ (codes "INTEGER", Token.kw_integer)
    ∷ (codes "INT", Token.kw_int)
    ∷ (codes "LIKE", Token.kw_like)
    ∷ (codes "NOT", Token.kw_not)
    ∷ (codes "ORDER", Token.kw_order)
    ∷ (codes "BY", Token.kw_by)
    ∷ (codes "ASC", Token.kw_asc)
    ∷ (codes "DESC", Token.kw_desc)
    ∷ (codes "LIMIT", Token.kw_limit)
    ∷ (codes "OFFSET", Token.kw_offset)
    ∷ (codes "DROP", Token.kw_drop)
    ∷ (codes "DEFAULT", Token.kw_default)
    ∷ (codes "COUNT", Token.kw_count)
    ∷ (codes "SUM", Token.kw_sum)
    ∷ (codes "MIN", Token.kw_min)
    ∷ (codes "MAX", Token.kw_max)
    ∷ (codes "BIGINT", Token.kw_big_int)
    ∷ (codes "FLOAT", Token.kw_float)
    ∷ (codes "DOUBLE", Token.kw_double)
    ∷ (codes "REAL", Token.kw_real)
    ∷ (codes "STRING", Token.kw_string)
    ∷ (codes "TEXT", Token.kw_text)
    ∷ (codes "VARCHAR", Token.kw_varchar)
    ∷ (codes "CHAR", Token.kw_char)
    ∷ (codes "BOOLEAN", Token.kw_boolean)
    ∷ (codes "BLOB", Token.kw_blob)
    ∷ (codes "BYTEA", Token.kw_bytea)
    ∷ (codes "VARBINARY", Token.kw_varbinary)
    ∷ (codes "BINARY", Token.kw_binary)
    ∷ []

unfoldable pub keyword : Text → List (Text × Token) → Option Token
keyword upper [] = none
keyword upper ((k, t) ∷ rest) = if text_beq upper k then some t else keyword upper rest

unfoldable pub ident_or_keyword : Text → Token
unfolding to_ascii_uppercase keywords keyword
ident_or_keyword ident = elim (keyword (map to_ascii_uppercase ident) keywords) [
  | some t ↦ t
  | none ↦ Token.ident ident
]
