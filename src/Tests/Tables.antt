-- ===== src/Tests/Tables.antt =====
-- The tables of the tests: two columns, an index, and two rows.
use mathlib.Core.Path.{subst}
use dbobj.Base.{
  ℕ, zero, suc, ◌<◌, ◌≡◌, refl, true, false, some, List, [], ◌∷◌, Text, codes, arith, get_elem?,
}
use dbobj.Base.Int.{pos}
use dbobj.Core.Id.{RowId, id_beq, id_key, text_key}
use dbobj.Core.Value.{Value}
use dbobj.Map
use dbobj.Table.{DataType, Schema, Index, Table}
use dbobj.Table.Insert.{leave_sequential}
use dbobj.Table.Insert.Sequential.{leave_sequential-IsLaid}
use dbobj.Table.Valid.{IsLaid, IsValid}

abbrev pub Cell : Type 0
Cell = Value ℕ

abbrev pub Sample : Type 0
Sample = Table ℕ (List Text)

abbrev pub schema : Schema
schema = record {
  columns =
      record { name = codes "n"; data_type = DataType.integer; nullable = false }
      ∷ record { name = codes "s"; data_type = DataType.string; nullable = true }
      ∷ [];
}

abbrev pub by_n : Index ℕ
by_n = record {
  col_idx = 0;
  is_unique = false;
  map =
      (Value.integer (pos 7), RowId.integer 0 ∷ [])
      ∷ (Value.integer (pos 8), RowId.integer 1 ∷ [])
      ∷ [];
  map_data = [];
  unique_map = [];
  unique_map_data = [];
}

-- the rows (7, "a") and (8, null)
abbrev pub two_rows : Sample
two_rows = record {
  name = codes "t";
  schema = schema;
  column_map = (codes "n", 0) ∷ (codes "s", 1) ∷ [];
  column_map_data = [];
  num_columns = 2;
  cells = Value.integer (pos 7) ∷ Value.interned_string 0 ∷ Value.integer (pos 8) ∷ Value.null ∷ [];
  ids = RowId.integer 0 ∷ RowId.integer 1 ∷ [];
  versions = 1 ∷ 1 ∷ [];
  id_map = [];
  id_map_data = [];
  string_pool = record { interner = codes "a" ∷ []; strings = [] };
  next_int_id = 2;
  indexes = (codes "n", by_n) ∷ [];
  indexes_data = [];
  is_sequential_ids = true;
}

position_lt :
    (name : Text) (i : ℕ) → Map.get name ((codes "n", 0) ∷ (codes "s", 1) ∷ []) ≡ some i → i < 2
unfolding Map.get
position_lt name i e = ground arith

own_position : (i : ℕ) → i < 2 → get_elem? two_rows.ids i ≡ some (RowId.integer i)
own_position zero h = refl
own_position (suc zero) h = refl
own_position (suc (suc i)) h = absurd (omega arith)

pub two_rows-IsValid : IsValid two_rows
two_rows-IsValid = record {
  laid = record {
    columns = refl;
    cells_len = refl;
    versions_len = refl;
    positions = position_lt;
    index_cols = (omega arith, tt);
    sequential = λ _. record { own = own_position; unused = refl };
    mapped = λ q. absurd (cc q);
  };
  numbered = λ _. refl;
}

-- the same rows, with `id_map` in use
abbrev pub mapped_rows : Sample
mapped_rows = record two_rows {
  is_sequential_ids = false;
  id_map = (RowId.integer 0, 0) ∷ (RowId.integer 1, 1) ∷ [];
}

left : leave_sequential two_rows ≡ mapped_rows
unfolding leave_sequential Map.insert id_key id_beq
left = refl

pub mapped_rows-IsValid : IsValid mapped_rows
mapped_rows-IsValid = record {
  laid = subst IsLaid left (leave_sequential-IsLaid two_rows two_rows-IsValid.laid);
  numbered = λ q. absurd (cc q);
}

-- values for a new row
abbrev pub new_values : List Cell
new_values = Value.integer (pos 9) ∷ Value.string (codes "b") ∷ []
