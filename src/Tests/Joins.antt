-- ===== src/Tests/Joins.antt =====
-- Joins and queries on the sample tables.
use Prim.Native.Nat.{Ordering}
use dbobj.Base.{
  ℕ, ◌+◌, ◌^◌, ◌==◌, ◌≡◌, refl, arith, true, false, ◌&&◌, none, some, List, [], ◌∷◌, Text, text_beq,
  codes, ok, slice,
}
use dbobj.Base.Int.{pos}
use dbobj.Core.Id.{RowId, text_key}
use dbobj.Core.Float.{Float}
use dbobj.Core.Hash.{Written, hash_i32, hash_u64, hash_by}
use dbobj.Core.Value.{Value, is_null, value_beq, value_cmp, same_value}
use dbobj.Database.{Database}
use dbobj.Database.Join.{column_values, joined, join_rows}
use dbobj.Database.Join.Equal.{join_rows-value_beq}
use dbobj.Database.Join.HashJoin.{nested_join, join_rows-nested_join}
use dbobj.Database.Query.{query_expr}
use dbobj.Database.Query.Threads.{query_expr-threads}
use dbobj.Query.{Operator, Expr}
use dbobj.Table.{DataType, Row, Table}
use dbobj.Table.Read.{position, get_row_by_index, get_value_by_index, get_value_ref}
use dbobj.Table.Spread.{each_index}
use dbobj.Tests.Instances.{nat_float, list_interner, list_journal}
use dbobj.Tests.Tables.{two_rows}

-- a hasher with collisions: it adds what is written
abbrev weight : Written → ℕ
weight (hash_i32 n) = n
weight (hash_u64 n) = n
weight w = 1

abbrev sum_up : List Written → ℕ
sum_up [] = 0
sum_up (w ∷ ws) = weight w + sum_up ws

no_id : (text_beq (codes "n") (codes "id") && two_rows.is_sequential_ids) ≡ false
unfolding text_beq
no_id = refl

join_rows-nested_join_example :
    join_rows 4 sum_up (codes "n") (codes "n") two_rows two_rows true (position 0) (position 0)
    ≡ nested_join two_rows two_rows
        (position 0)
        (position 0)
        true
        (λ v w. value_beq v w && hash_by sum_up v == hash_by sum_up w)
join_rows-nested_join_example =
    join_rows-nested_join 4 sum_up (codes "n") (codes "n") two_rows two_rows true (position 0)
      (position 0) refl no_id no_id

-- equal floats have equal bits, since they are numbers here
equal_bits : (v w : Value ℕ) → value_beq v w ≡ true → same_value v w ≡ true
unfolding same_value value_beq nat_float
equal_bits (Value.float a) (Value.float b) h = ground (arith, h)
equal_bits v w h = h

join_rows-value_beq_example :
    join_rows 4 sum_up (codes "n") (codes "n") two_rows two_rows true (position 0) (position 0)
    ≡ nested_join two_rows two_rows (position 0) (position 0) true value_beq
join_rows-value_beq_example =
    join_rows-value_beq 4 sum_up (codes "n") (codes "n") two_rows two_rows true (position 0)
      (position 0) refl no_id no_id (λ idx i v w d e. equal_bits v w)

abbrev row_of_7 : Row ℕ
row_of_7 = record {
  id = RowId.integer 0;
  values = Value.integer (pos 7) ∷ Value.interned_string 0 ∷ [];
  version = 1;
}

abbrev row_of_8 : Row ℕ
row_of_8 = record {
  id = RowId.integer 1;
  values = Value.integer (pos 8) ∷ Value.null ∷ [];
  version = 1;
}

-- each row is joined with itself, though all rows share a bucket
join_runs :
    join_rows 4 sum_up (codes "n") (codes "n") two_rows two_rows true (position 0) (position 0)
    ≡ some ((row_of_7, row_of_7) ∷ (row_of_8, row_of_8) ∷ [])
unfolding join_rows get_row_by_index text_beq value_beq get_value_by_index get_value_ref slice
join_runs = refl

abbrev db : Database ℕ (List Text) (Unit {0})
db = record { name = codes "db"; tables = (codes "t", two_rows) ∷ []; version_log = []; wal = none }

abbrev n_is_8 : Expr ℕ
n_is_8 = Expr.binary (Expr.column (codes "n")) Operator.gt (Expr.literal (Value.integer (pos 7)))

query_expr-threads_example : query_expr 4 (codes "t") n_is_8 db ≡ query_expr 1 (codes "t") n_is_8 db
query_expr-threads_example = query_expr-threads 4 1 (codes "t") n_is_8 db

query_runs : query_expr 4 (codes "t") n_is_8 db ≡ ok (row_of_8 ∷ [])
unfolding query_expr text_beq slice value_cmp
query_runs = refl

-- 0.0 and -0.0, which are equal
data Zero : Type 0 where
  plus minus : Zero

abbrev zero_bits : Zero → ℕ
zero_bits Zero.plus = 0
zero_bits Zero.minus = 2 ^ 63

instance unfoldable zero_float : Float Zero
zero_float = record {
  eq = λ a b. true;
  partial_cmp = λ a b. some Ordering.eq;
  is_nan = λ a. false;
  to_bits = zero_bits;
  zero_f64 = Zero.plus;
  eq_sym = λ a b e. refl;
  eq_trans = λ a b c d e. refl;
}

-- a table of one row
abbrev holding : Zero → Table Zero (List Text)
holding z = record {
  name = codes "z";
  schema = record {
    columns = record { name = codes "f"; data_type = DataType.float; nullable = false } ∷ [];
  };
  column_map = (codes "f", 0) ∷ [];
  column_map_data = [];
  num_columns = 1;
  cells = Value.float z ∷ [];
  ids = RowId.integer 0 ∷ [];
  versions = 1 ∷ [];
  id_map = [];
  id_map_data = [];
  string_pool = record { interner = []; strings = [] };
  next_int_id = 1;
  indexes = [];
  indexes_data = [];
  is_sequential_ids = true;
}

-- `hash_join` finds no pair where a loop that compares the values finds one.
zeros_missed :
    join_rows 4 sum_up
      (codes "f")
      (codes "f")
      (holding Zero.plus)
      (holding Zero.minus)
      false
      (position 0)
      (position 0)
    ≡ some []
unfolding join_rows text_beq value_beq get_value_by_index zero_float
zeros_missed = refl

abbrev row_of : Zero → Row Zero
row_of z = record { id = RowId.integer 0; values = Value.float z ∷ []; version = 1 }

zeros_equal :
    nested_join (holding Zero.plus) (holding Zero.minus) (position 0) (position 0) false value_beq
    ≡ some ((row_of Zero.plus, row_of Zero.minus) ∷ [])
unfolding nested_join value_beq get_value_by_index get_row_by_index slice column_values each_index
    is_null zero_float joined
zeros_equal = refl
