-- ===== src/Table/Export.antt =====
-- table.rs: `export_column_i64`, `_string`, `_bool` and `_f64`.
use mathlib.Core.Option
use dbobj.Base.{
  ℕ, zero, suc, ◌+◌, ◌*◌, Bool, false, Option, none, some, List, [], ◌∷◌, Text, length, get_elem?,
}
use dbobj.Base.Int.{ℤ, pos}
use dbobj.Core.Float.{Float}
use dbobj.Core.Id.{text_key}
use dbobj.Core.Pool
use dbobj.Core.Pool.{Interner, StringPool}
use dbobj.Core.Value.{Value}
use dbobj.Map
use dbobj.Table.{Table}

module _ {F A P : Type 0} where
  -- the loop over the rows: `none` is a panic
  unfoldable pub export_rows : (Value F → A) → ℕ → ℕ → ℕ → Table F P → Option (List A)
  export_rows f col zero i t = some []
  export_rows f col (suc n) i t = elim (get_elem? t.cells (i * t.num_columns + col)) [
    | none ↦ none
    | some v ↦ Option.map (λ (rest : List A). f v ∷ rest) (export_rows f col n (suc i) t)
  ]

  -- `some none` is the answer that there is no such column
  unfoldable pub export_column : (Value F → A) → Text → Table F P → Option (Option (List A))
  unfolding export_rows
  export_column f name t = elim (Map.get name t.column_map) [
    | none ↦ some none
    | some col ↦ Option.map some (export_rows f col (length t.ids) 0 t)
  ]

module _ {F : Type 0} where
  unfoldable pub as_integer : Value F → ℤ
  as_integer (Value.integer v) = v
  as_integer _ = pos 0

  unfoldable pub as_bool : Value F → Bool
  as_bool (Value.boolean b) = b
  as_bool _ = false

module _ {F : Type 0} ⦃fl : Float F⦄ where
  unfoldable pub as_float : Value F → F
  as_float (Value.float x) = x
  as_float _ = fl.zero_f64

module _ {F P : Type 0} ⦃it : Interner P⦄ where
  -- `fallback` is `format!("<interned:{}>", id)`
  unfoldable pub as_string : (ℕ → Text) → StringPool P → Value F → Text
  as_string fallback pool (Value.string s) = s
  as_string fallback pool (Value.interned_string k) =
      Option.get_or (Pool.resolve pool k) (fallback k)
  as_string fallback pool _ = []

  unfoldable pub export_column_string : (ℕ → Text) → Text → Table F P → Option (Option (List Text))
  unfolding as_string export_column
  export_column_string fallback name t = export_column (as_string fallback t.string_pool) name t

module _ {F P : Type 0} where
  unfoldable pub export_column_i64 : Text → Table F P → Option (Option (List ℤ))
  unfolding as_integer export_column
  export_column_i64 = export_column as_integer

  unfoldable pub export_column_bool : Text → Table F P → Option (Option (List Bool))
  unfolding as_bool export_column
  export_column_bool = export_column as_bool

module _ {F P : Type 0} ⦃fl : Float F⦄ where
  unfoldable pub export_column_f64 : Text → Table F P → Option (Option (List F))
  unfolding as_float export_column
  export_column_f64 = export_column as_float
