-- ===== src/Table/Insert.antt =====
-- table.rs: `insert`, `insert_batch`, `insert_batch_raw`, `insert_batch_values` and
-- `insert_values`. (What `reserve` does is not seen.)
pub mod Append
pub mod Indexes
pub mod Store
pub mod Stored
pub mod Sequential
pub mod Methods
pub mod RoundTrip
pub mod Raw
pub mod Entries
pub mod Batch
use mathlib.Core.Option
use dbobj.Base.{
  ℕ, zero, suc, ◌+◌, ◌*◌, ◌%◌, ◌^◌, Bool, true, false, not, Option, none, some, List, [], ◌∷◌, ◌++◌,
  Res, ok, err, panic, Call, ◌>>=◌, pure, lift, or_panic, after, each, ◌==◌, if◌then◌else◌, length,
  get_elem?, Text,
}
use dbobj.Core.Float.{Float}
use dbobj.Core.Id.{RowId, id_key}
use dbobj.Core.Pool.{Interner}
use dbobj.Core.Value.{Value, value_key}
use dbobj.Map
use dbobj.Map.{HashMap}
use dbobj.Table.{TableError, duplicate_id, schema_violation, row_width, RowData, Index, Table}
use dbobj.Table.Convert.{validate_and_convert, intern_row}

-- the loop that fills `id_map` when a table stops to be sequential
unfoldable pub add_ids : ℕ → List RowId → HashMap RowId ℕ → HashMap RowId ℕ
add_ids i [] m = m
add_ids i (id ∷ ids) m = add_ids (suc i) ids (Map.insert id i m)

abbrev pub Method : Type 0 → Type 0 → Type 0 → Type 0
Method F P A = Call (Table F P) TableError A

module _ {F : Type 0} where
  abbrev pub both :
      Text → Option (Index F) → Option (HashMap Text (Index F)) → Option (HashMap Text (Index F))
  both name none rest = none
  both name (some ix) none = none
  both name (some ix) (some rest) = some ((name, ix) ∷ rest)

  -- the loop over `indexes.values_mut()`, which changes each index by itself; `none` is a panic
  unfoldable pub update_all :
      (Index F → Option (Index F)) → HashMap Text (Index F) → Option (HashMap Text (Index F))
  update_all f [] = some []
  update_all f ((name, ix) ∷ rest) = both name (f ix) (update_all f rest)

module _ {F P : Type 0} where
  unfoldable pub leave_sequential : Table F P → Table F P
  unfolding add_ids
  leave_sequential t =
      if t.is_sequential_ids
      then record t { is_sequential_ids = false; id_map = add_ids 0 t.ids t.id_map }
      else t

  -- `Id::Integer(self.next_int_id)`, and `self.next_int_id += 1` on a `u64`
  unfoldable pub fresh_id : Method F P RowId
  fresh_id t =
      (record t { next_int_id = (t.next_int_id + 1) % 2 ^ 64 }, ok (RowId.integer t.next_int_id))

  unfoldable pub choose_id : Option RowId → Method F P RowId
  unfolding fresh_id leave_sequential
  choose_id none t = fresh_id t
  choose_id (some id) t =
      let t' = leave_sequential t in
      (t', if Map.contains_key id t'.id_map then err (duplicate_id id) else ok id)

  abbrev pub record_id : RowId → ℕ → Table F P → HashMap RowId ℕ
  record_id id index t = if t.is_sequential_ids then t.id_map else Map.insert id index t.id_map

  unfoldable pub set_indexes : Option (HashMap Text (Index F)) → Method F P (Unit {0})
  set_indexes none t = (t, panic)
  set_indexes (some ixs) t = (record t { indexes = ixs }, ok tt)

  unfoldable pub each_index : (Table F P → Index F → Option (Index F)) → Method F P (Unit {0})
  unfolding update_all set_indexes
  each_index f t = set_indexes (update_all (f t) t.indexes) t

module _ {F : Type 0} ⦃fl : Float F⦄ where
  abbrev pub push_unique : Value F → ℕ → Index F → Index F
  push_unique val index ix = record ix { unique_map = Map.insert val index ix.unique_map }

  abbrev pub push_plain : Value F → RowId → Index F → Index F
  push_plain val id ix = record ix { map = Map.push_at val id ix.map }

module _ {F P : Type 0} ⦃fl : Float F⦄ where
  -- the body of the loop in `insert` and `insert_batch_values`
  unfoldable pub index_row : ℕ → RowId → Table F P → Index F → Option (Index F)
  index_row index id t ix =
      Option.map (λ val. if ix.is_unique then push_unique val index ix else push_plain val id ix)
        (get_elem? t.cells (index * t.num_columns + ix.col_idx))

  -- the body of the loop in `insert_batch` and `insert_batch_raw`, which does not ask whether the
  -- index is unique
  unfoldable pub index_row_plain : ℕ → RowId → Table F P → Index F → Option (Index F)
  index_row_plain index id t ix =
      Option.map (λ val. push_plain val id ix)
        (get_elem? t.cells (index * t.num_columns + ix.col_idx))

module _ {F P : Type 0} ⦃it : Interner P⦄ where
  -- the new row: strings are interned, and the four vectors and `id_map` grow
  unfoldable pub append_row : List (Value F) → RowId → Table F P → Table F P
  append_row values id t =
      let (row, pool) = intern_row values t.string_pool in
      record t {
        string_pool = pool;
        cells = t.cells ++ row;
        ids = t.ids ++ id ∷ [];
        versions = t.versions ++ 1 ∷ [];
        id_map = record_id id (length t.ids) t;
      }

module _ {F P : Type 0} ⦃fl : Float F⦄ ⦃it : Interner P⦄ where
  unfoldable pub store_row : List (Value F) → RowId → Method F P RowId
  unfolding append_row index_row each_index
  store_row values id t =
      after (each_index (index_row (length t.ids) id) (append_row values id t)) (λ _. pure id)

  unfoldable pub store_row_plain : List (Value F) → RowId → Method F P RowId
  unfolding append_row index_row_plain each_index
  store_row_plain values id t =
      after (each_index (index_row_plain (length t.ids) id) (append_row values id t)) (λ _. pure id)

  unfoldable pub insert : RowData F → Option RowId → Method F P RowId
  insert entries custom_id t =
      after (t, validate_and_convert entries t)
        (λ values. do id ← choose_id custom_id; store_row values id)

  -- the body of the loop of `insert_batch`
  unfoldable pub insert_entries : RowData F → Method F P RowId
  insert_entries entries t =
      after (t, validate_and_convert entries t)
        (λ values. do id ← fresh_id; store_row_plain values id)

  -- An error in a later row leaves the rows before it in the table.
  unfoldable pub insert_batch : List (RowData F) → Method F P (List RowId)
  insert_batch = each insert_entries

  unfoldable pub check_width : List (Value F) → Method F P (Unit {0})
  check_width values t = (
    t,
    if length values == t.num_columns
        then ok tt
        else err (schema_violation (row_width (length values) t.num_columns)),
  )

  unfoldable pub insert_raw : List (Value F) → Method F P RowId
  insert_raw values = do _ ← check_width values; id ← fresh_id; store_row_plain values id

  unfoldable pub insert_batch_raw : List (List (Value F)) → Method F P (List RowId)
  insert_batch_raw = each insert_raw

  -- the body of the loop of `insert_batch_values`
  unfoldable pub insert_row_values : List (Value F) → Method F P RowId
  insert_row_values values = do _ ← check_width values; id ← fresh_id; store_row values id

  unfoldable pub insert_batch_values : List (List (Value F)) → Method F P (List RowId)
  insert_batch_values = each insert_row_values

  abbrev pub first_id : List RowId → Method F P RowId
  first_id [] t = (t, panic)
  first_id (id ∷ ids) t = (t, ok id)

  -- `ids.remove(0)` of a batch of one row
  unfoldable pub insert_values : List (Value F) → Method F P RowId
  insert_values values = do ids ← insert_batch_values (values ∷ []); first_id ids
