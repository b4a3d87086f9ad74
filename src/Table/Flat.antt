-- ===== src/Table/Flat.antt =====
-- table.rs: the inserts of many rows from one flat vector, and `update_indexes_parallel`.
use mathlib.Core.Option
use dbobj.Base.{
  ℕ, zero, suc, ◌+◌, ◌*◌, ◌/◌, ◌%◌, ◌^◌, Bool, not, Option, none, some, List, [], ◌∷◌, ◌++◌, Res,
  ok, err, panic, pure, after, ◌==◌, if◌then◌else◌, length, get_elem?, replicate, map, Text,
}
use dbobj.Base.Int.{ℤ}
use dbobj.Core.Float.{Float}
use dbobj.Core.Id.{RowId, id_key}
use dbobj.Core.Pool
use dbobj.Core.Pool.{Interner, StringPool}
use dbobj.Core.Value.{Value, value_key, interned_string}
use dbobj.Map
use dbobj.Map.{HashMap}
use dbobj.Table.{TableError, schema_violation, flat_columns, not_divisible, Index, Table}
use dbobj.Table.Convert.{intern_row}
use dbobj.Table.Insert.{Method, push_unique, push_plain, each_index}

-- `Id::Integer(start_id + i)` for `i` in `0..batch_size`
unfoldable pub id_range : ℕ → ℕ → List RowId
id_range start zero = []
id_range start (suc n) = RowId.integer (start % 2 ^ 64) ∷ id_range (suc start) n

-- the loop `id_map.insert(Id::Integer(start_id + i), starting_idx + i)`
unfoldable pub add_range : List RowId → ℕ → HashMap RowId ℕ → HashMap RowId ℕ
add_range [] index m = m
add_range (id ∷ ids) index m = add_range ids (suc index) (Map.insert id index m)

-- The checks at the head of each of these methods. `len / 0` panics.
unfoldable pub flat_rows : {F P : Type 0} → ℕ → ℕ → Table F P → Res TableError ℕ
flat_rows len num_columns t =
    if not (num_columns == t.num_columns)
    then err (schema_violation (flat_columns num_columns t.num_columns))
    else if num_columns == 0
    then panic
    else if len % num_columns == 0
    then ok (len / num_columns)
    else err (schema_violation not_divisible)

module _ {F P : Type 0} ⦃fl : Float F⦄ where
  -- `data[actual_idx * num_columns + col_idx]` for one row of the batch
  unfoldable pub index_one : Table F P → ℕ → Index F → Option (Index F)
  index_one t actual_idx ix = elim (get_elem? t.cells (actual_idx * t.num_columns + ix.col_idx)) [
    | none ↦ none
    | some val ↦
        if ix.is_unique
        then some (push_unique val actual_idx ix)
        else Option.map (λ id. push_plain val id ix) (get_elem? t.ids actual_idx)
  ]

  -- the loop over `row_offset`
  unfoldable pub index_rows : ℕ → ℕ → Table F P → Index F → Option (Index F)
  unfolding index_one
  index_rows zero actual_idx t ix = some ix
  index_rows (suc n) actual_idx t ix = elim (index_one t actual_idx ix) [
    | none ↦ none
    | some ix' ↦ index_rows n (suc actual_idx) t ix'
  ]

  -- Of a large batch a thread of its own updates each index: no index is shared, so both branches
  -- run this loop for each.
  unfoldable pub update_indexes_parallel : ℕ → ℕ → Method F P (Unit {0})
  unfolding index_rows each_index
  update_indexes_parallel starting_idx batch_size = each_index (index_rows batch_size starting_idx)

  -- the cells, the identifiers `start_id + i`, the versions and `id_map`
  unfoldable pub append_block : ℕ → List (Value F) → StringPool P → Table F P → Table F P
  unfolding id_range add_range
  append_block batch_size cells pool t =
      let ids = id_range t.next_int_id batch_size in
      record t {
        next_int_id = (t.next_int_id + batch_size) % 2 ^ 64;
        string_pool = pool;
        cells = t.cells ++ cells;
        ids = t.ids ++ ids;
        versions = t.versions ++ replicate batch_size 1;
        id_map = if t.is_sequential_ids then t.id_map else add_range ids (length t.ids) t.id_map;
      }

  unfoldable pub store_block : ℕ → List (Value F) → StringPool P → Method F P (List RowId)
  unfolding append_block update_indexes_parallel
  store_block batch_size cells pool t =
      after
        (update_indexes_parallel (length t.ids) batch_size (append_block batch_size cells pool t))
        (λ _. pure (id_range t.next_int_id batch_size))

  unfoldable pub insert_batch_flat_i64 : List ℤ → ℕ → Method F P (List RowId)
  unfolding flat_rows store_block
  insert_batch_flat_i64 values num_columns t =
      after (t, flat_rows (length values) num_columns t)
        (λ batch_size t. store_block batch_size (map Value.integer values) t.string_pool t)

  unfoldable pub insert_batch_flat_bool : List Bool → ℕ → Method F P (List RowId)
  unfolding flat_rows store_block
  insert_batch_flat_bool values num_columns t =
      after (t, flat_rows (length values) num_columns t)
        (λ batch_size t. store_block batch_size (map Value.boolean values) t.string_pool t)

  unfoldable pub insert_batch_flat_f64 : List F → ℕ → Method F P (List RowId)
  unfolding flat_rows store_block
  insert_batch_flat_f64 values num_columns t =
      after (t, flat_rows (length values) num_columns t)
        (λ batch_size t. store_block batch_size (map Value.float values) t.string_pool t)

module _ {F P : Type 0} ⦃fl : Float F⦄ ⦃it : Interner P⦄ where
  -- all strings are interned first
  unfoldable pub intern_strings : List Text → StringPool P → List (Value F) × StringPool P
  intern_strings [] pool = ([], pool)
  intern_strings (s ∷ ss) pool =
      let (k, pool') = Pool.intern pool s in
      let (vs, pool'') = intern_strings ss pool' in (interned_string k ∷ vs, pool'')

  unfoldable pub insert_batch_flat_string : List Text → ℕ → Method F P (List RowId)
  unfolding flat_rows store_block intern_strings
  insert_batch_flat_string values num_columns t =
      after (t, flat_rows (length values) num_columns t)
        (λ batch_size t.
          let (cells, pool) = intern_strings values t.string_pool in
          store_block batch_size cells pool t)

  unfoldable pub insert_batch_flat_values : List (Value F) → ℕ → Method F P (List RowId)
  unfolding flat_rows store_block intern_row
  insert_batch_flat_values values num_columns t =
      after (t, flat_rows (length values) num_columns t)
        (λ batch_size t.
          let (cells, pool) = intern_row values t.string_pool in
          store_block batch_size cells pool t)
