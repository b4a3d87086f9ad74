-- ===== src/Table/Read/New.antt =====
-- table.rs: the positions that `new` gives the columns.
use dbobj.Base.{ℕ, suc, ◌+◌, ◌<◌, ◌≡◌, refl, List, [], ◌∷◌, some, Text, length, arith}
use dbobj.Core.Id.{text_key}
use dbobj.Core.Pool.{Interner}
use dbobj.Map
use dbobj.Map.{HashMap, get-insert}
use dbobj.Table.{ColumnDefinition, Schema}
use dbobj.Table.Read.{column_positions, new}
use dbobj.Table.Valid.{IsValid}

-- every position of the map is that of a column
column_positions-lt :
    (k : ℕ) (cols : List ColumnDefinition) (m : HashMap Text ℕ) (name : Text) (i : ℕ)
    → ((j : Text) (n : ℕ) → Map.get j m ≡ some n → n < k)
    → Map.get name (column_positions k cols m) ≡ some i
    → i < k + length cols
unfolding column_positions
column_positions-lt k [] m name i below e = omega (arith, below name i e)
column_positions-lt k (col ∷ cols) m name i below e = omega (
  arith,
  column_positions-lt (suc k) cols (Map.insert col.name k m) name i
      (λ j n q. ground (arith, get-insert col.name j k m, below j n)) e,
)

-- The table that `new` makes is valid, whatever its name and its schema.
pub new-IsValid :
    {F P : Type 0} ⦃it : Interner P⦄ (name : Text) (schema : Schema)
    → IsValid (new {F = F} {P = P} name schema)
unfolding new
new-IsValid name schema = record {
  laid = record {
    columns = refl;
    cells_len = omega arith;
    versions_len = refl;
    positions = λ column i e. omega (
      arith,
      column_positions-lt 0 schema.columns [] column i (unfold Map.get in λ j n q. cc q) e,
    );
    index_cols = tt;
    sequential = λ _. record { own = λ i h. absurd (omega arith); unused = refl };
    mapped = λ q. absurd (cc q);
  };
  numbered = λ _. refl;
}
