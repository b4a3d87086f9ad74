-- ===== src/Table/Find.antt =====
-- table.rs: `select`, `find_by_column`, `find_unique_by_id` and the creation of indexes.
pub mod Select
use mathlib.Core.Option
use dbobj.Base.{
  ℕ, zero, suc, ◌+◌, ◌-◌, ◌*◌, ◌/◌, Bool, true, false, ◌||◌, Option, none, some, List, [], ◌∷◌,
  ◌++◌, Text, ok, panic, after, ok_or, ltb, leb, ◌==◌, if◌then◌else◌, length, get_elem?,
}
use dbobj.Core.Float.{Float}
use dbobj.Core.Id.{RowId, id_key, text_key, to_value}
use dbobj.Core.Pool
use dbobj.Core.Pool.{Interner, StringPool}
use dbobj.Core.Value.{Value, string, interned_string, value_beq, value_key}
use dbobj.Map
use dbobj.Map.{HashMap}
use dbobj.Table.{invalid_column, Row, Index, Table}
use dbobj.Table.Insert.{Method, push_unique, push_plain}
use dbobj.Table.Read.{Column, virtual_id, position, get_row_by_index, get_column_index, get}

module _ {A : Type 0} where
  abbrev pub cons_if : Bool → A → Option (List A) → Option (List A)
  cons_if hit a none = none
  cons_if true a (some as') = some (a ∷ as')
  cons_if false a (some as') = some as'

  abbrev pub append_parts : Option (List A) → Option (List A) → Option (List A)
  append_parts none rest = none
  append_parts (some as') none = none
  append_parts (some as') (some bs) = some (as' ++ bs)

unfoldable pub div_ceil : ℕ → ℕ → ℕ
div_ceil a b = (a + (b - 1)) / b

module _ {F P : Type 0} where
  -- the loop over `idx` in `start..start + n`; `none` is a panic
  unfoldable pub scan : (Row F → Bool) → ℕ → ℕ → Table F P → Option (List (Row F))
  scan predicate zero start t = some []
  scan predicate (suc n) start t = elim (get_row_by_index start t) [
    | none ↦ none
    | some row ↦ cons_if (predicate row) row (scan predicate n (suc start) t)
  ]

  -- the threads `i..num_threads`, each with a chunk of the rows, and their results in order
  unfoldable pub scan_chunks : (Row F → Bool) → ℕ → ℕ → ℕ → Table F P → Option (List (Row F))
  unfolding scan
  scan_chunks predicate zero i chunk_size t = some []
  scan_chunks predicate (suc n) i chunk_size t =
      let start = i * chunk_size in
      let num_rows = length t.ids in
      let end = if ltb num_rows (start + chunk_size) then num_rows else start + chunk_size in
      let rest = scan_chunks predicate n (suc i) chunk_size t in
      if leb num_rows start
      then some []
      else append_parts (scan predicate (end - start) start t) rest

  unfoldable pub select : ℕ → (Row F → Bool) → Table F P → Option (List (Row F))
  unfolding scan_chunks div_ceil
  select num_threads predicate t =
      let num_rows = length t.ids in
      if ltb num_rows 5000 || leb num_threads 1
      then scan predicate num_rows 0 t
      else scan_chunks predicate num_threads 0 (div_ceil num_rows num_threads) t

module _ {F P : Type 0} ⦃it : Interner P⦄ where
  -- a string is looked up by its symbol, if it has one
  unfoldable pub lookup_value : StringPool P → Value F → Value F
  lookup_value pool (string s) = elim (Pool.get_id pool s) [
    | some k ↦ interned_string k
    | none ↦ string s
  ]
  lookup_value pool v = v

abbrev pub one_row : {F : Type 0} → Option (Row F) → Option (List (Row F))
one_row none = none
one_row (some row) = some (row ∷ [])

module _ {F P : Type 0} where
  -- ids.iter().filter_map(|id| self.get(id))
  unfoldable pub rows_of : List RowId → Table F P → Option (List (Row F))
  rows_of [] t = some []
  rows_of (id ∷ ids) t = elim (get id t) [
    | none ↦ none
    | some none ↦ rows_of ids t
    | some (some row) ↦ cons_if true row (rows_of ids t)
  ]

abbrev pub add_match :
    {F : Type 0} → Option Bool → Option (Row F) → Option (List (Row F)) → Option (List (Row F))
add_match none row rest = none
add_match (some false) row rest = rest
add_match (some true) none rest = none
add_match (some true) (some row) rest = cons_if true row rest

abbrev pub new_index : {F : Type 0} → ℕ → Bool → Index F
new_index col_idx is_unique = record {
  col_idx = col_idx;
  is_unique = is_unique;
  map = [];
  map_data = [];
  unique_map = [];
  unique_map_data = [];
}

module _ {F P : Type 0} ⦃fl : Float F⦄ where
  -- the branch of `find_by_column` that has an index
  unfoldable pub find_indexed : Index F → Value F → Table F P → Option (List (Row F))
  unfolding rows_of
  find_indexed ix val t =
      if ix.is_unique
      then elim (Map.get val ix.unique_map) [
        | none ↦ some []
        | some idx ↦ one_row (get_row_by_index idx t)
      ]
      else elim (Map.get val ix.map) [ none ↦ some [] | some ids ↦ rows_of ids t ]

  -- `&self.ids[i].to_value() == &lookup_val`, or the same of a cell
  unfoldable pub cell_matches : Column → Value F → ℕ → Table F P → Option Bool
  cell_matches virtual_id val i t =
      Option.map (λ id. value_beq (to_value id) val) (get_elem? t.ids i)
  cell_matches (position col) val i t =
      Option.map (λ v. value_beq v val) (get_elem? t.cells (i * t.num_columns + col))

  -- the linear scan
  unfoldable pub find_scan : Column → Value F → ℕ → ℕ → Table F P → Option (List (Row F))
  unfolding cell_matches
  find_scan column val zero i t = some []
  find_scan column val (suc n) i t =
      add_match (cell_matches column val i t) (get_row_by_index i t)
        (find_scan column val n (suc i) t)

  -- the loop that fills a new index
  unfoldable pub fill_index : ℕ → ℕ → Table F P → Index F → Option (Index F)
  fill_index zero i t ix = some ix
  fill_index (suc n) i t ix = elim (get_elem? t.cells (i * t.num_columns + ix.col_idx)) [
    | none ↦ none
    | some val ↦ elim (get_elem? t.ids i) [
      | none ↦ none
      | some id ↦
          fill_index n (suc i) t
            (if ix.is_unique then push_unique val i ix else push_plain val id ix)
    ]
  ]

  unfoldable pub add_index : Text → Option (Index F) → Method F P (Unit {0})
  add_index name none t = (t, panic)
  add_index name (some ix) t = (record t { indexes = Map.insert name ix t.indexes }, ok tt)

  unfoldable pub create_index_internal : Text → Bool → Method F P (Unit {0})
  unfolding fill_index add_index
  create_index_internal name is_unique t =
      after (ok_or (Map.get name t.column_map) (invalid_column name) t) (λ col_idx t.
        add_index name (fill_index (length t.ids) 0 t (new_index col_idx is_unique)) t)

  unfoldable pub create_index : Text → Method F P (Unit {0})
  unfolding create_index_internal
  create_index name = create_index_internal name false

  unfoldable pub create_unique_index : Text → Method F P (Unit {0})
  unfolding create_index_internal
  create_unique_index name = create_index_internal name true

-- self.indexes.values().find(|idx| idx.col_idx == column_idx)
unfoldable pub index_of_column : {F : Type 0} → ℕ → HashMap Text (Index F) → Option (Index F)
index_of_column col [] = none
index_of_column col ((name, ix) ∷ rest) =
    if ix.col_idx == col then some ix else index_of_column col rest

module _ {F P : Type 0} ⦃fl : Float F⦄ ⦃it : Interner P⦄ where
  unfoldable pub find_by_column : Text → Value F → Table F P → Option (List (Row F))
  unfolding find_indexed lookup_value find_scan get_column_index
  find_by_column name v t = elim (Map.get name t.indexes) [
    | some ix ↦ find_indexed ix (lookup_value t.string_pool v) t
    | none ↦ elim (get_column_index name t) [
      | none ↦ some []
      | some column ↦ find_scan column (lookup_value t.string_pool v) (length t.ids) 0 t
    ]
  ]

  -- `some none` is the answer that there is no such row
  unfoldable pub find_unique_by_id : ℕ → Value F → Table F P → Option (Option (Row F))
  unfolding index_of_column lookup_value
  find_unique_by_id col v t = elim (index_of_column col t.indexes) [
    | none ↦ some none
    | some ix ↦
        if ix.is_unique
        then elim (Map.get (lookup_value t.string_pool v) ix.unique_map) [
          | none ↦ some none
          | some idx ↦ Option.map some (get_row_by_index idx t)
        ]
        else some none
  ]
