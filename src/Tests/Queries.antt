-- ===== src/Tests/Queries.antt =====
-- Expressions over the sample tables, and a transaction.
use dbobj.Base.{ℕ, ◌≡◌, refl, Bool, true, false, none, some, List, [], ◌∷◌, Text, codes, text_beq}
use dbobj.Base.Int.{pos}
use dbobj.Core.Id.{RowId, text_key}
use dbobj.Core.Pool
use dbobj.Core.Value.{Value}
use dbobj.Database.{Database, begin_transaction, rollback, get_table}
use dbobj.Database.Rollback.{get_table-rollback}
use dbobj.Map
use dbobj.Query.{Operator, Expr, plan, is_true}
use dbobj.Query.Like.{like_texts}
use dbobj.Query.Laws.{Meaning, plan-Meaning, is_true-equal, is_true-not_equal}
use dbobj.Query.Termination.{like_texts-ends}
use dbobj.Table.{Row}
use dbobj.Tests.Instances.{nat_float, list_interner}
use dbobj.Tests.Tables.{two_rows}

like_texts-ends_example : (b : Bool) × (like_texts (codes "abcbc") (codes "a%bc") ≡ some b)
like_texts-ends_example = like_texts-ends (codes "abcbc") (codes "a%bc")

-- a pattern that has to come back once, and one that does not match
like_runs :
    (like_texts (codes "abcbc") (codes "a%bc") ≡ some true)
    × (like_texts (codes "abc") (codes "a_d%") ≡ some false)
unfolding like_texts
like_runs = (refl, refl)

abbrev first_row : Row ℕ
first_row = record {
  id = RowId.integer 0;
  values = Value.integer (pos 7) ∷ Value.interned_string 0 ∷ [];
  version = 1;
}

abbrev s_is_a : Expr ℕ
s_is_a = Expr.binary (Expr.column (codes "s")) Operator.eq (Expr.literal (Value.string (codes "a")))

column_s : Map.get (codes "s") two_rows.column_map ≡ some 1
unfolding Map.get text_key text_beq
column_s = refl

symbol_a : Pool.get_id two_rows.string_pool (codes "a") ≡ some 0
unfolding Pool.get_id list_interner text_beq
symbol_a = refl

is_true-equal_example :
    is_true s_is_a first_row two_rows.column_map two_rows ≡ some (text_beq (codes "a") (codes "a"))
is_true-equal_example =
    is_true-equal two_rows first_row two_rows.column_map (codes "s") 1 column_s refl (codes "a")
      (codes "a") 0 refl symbol_a

is_true-not_equal_example :
    is_true (Expr.not_expr s_is_a) first_row two_rows.column_map two_rows ≡ some true
is_true-not_equal_example =
    is_true-not_equal two_rows first_row two_rows.column_map (codes "s") 1 column_s refl (codes "a")
      (codes "a") 0 refl symbol_a

abbrev n_is_7 : Expr ℕ
n_is_7 = Expr.binary (Expr.column (codes "n")) Operator.eq (Expr.literal (Value.integer (pos 7)))

plan-Meaning_example :
    Meaning two_rows
      (Expr.binary n_is_7 Operator.and s_is_a)
      (plan (Expr.binary n_is_7 Operator.and s_is_a) two_rows)
plan-Meaning_example = plan-Meaning two_rows (Expr.binary n_is_7 Operator.and s_is_a)

abbrev db : Database ℕ (List Text) Unit
db = record { name = codes "db"; tables = (codes "t", two_rows) ∷ []; version_log = []; wal = none }

abbrev emptied : Database ℕ (List Text) Unit
emptied = record db {
  tables =
      (codes "t", record two_rows { cells = []; ids = []; versions = []; next_int_id = 0 }) ∷ [];
}

one_table : Map.IsMap db.tables
unfolding Map.get
one_table = (refl, tt)

get_table-rollback_example :
    (get_table (codes "t") (rollback (begin_transaction db) emptied)
      ≡ Map.first (get_table (codes "t") db) (get_table (codes "t") emptied))
    × ((rollback (begin_transaction db) emptied).version_log ≡ emptied.version_log)
    × ((rollback (begin_transaction db) emptied).wal ≡ emptied.wal)
get_table-rollback_example = get_table-rollback db one_table emptied (codes "t")
