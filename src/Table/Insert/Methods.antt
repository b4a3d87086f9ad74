-- ===== src/Table/Insert/Methods.antt =====
-- `insert`, `insert_values` and `insert_batch_values` against the table as a map from identifiers
-- to rows.
use dbobj.Base.{
  suc, ◌+◌, ◌%◌, ◌^◌, ◌<◌, ◌≡◌, ap, refl, none, some, List, ok, each, length, arith, if◌then◌else◌,
  ==_refl,
}
use dbobj.Core.Float.{Float}
use dbobj.Core.Id.{RowId, id_beq, id_key}
use dbobj.Core.Pool.{Interner}
use dbobj.Core.Value.{Value}
use dbobj.Map
use dbobj.Map.{contains_key-get, get-contains_key}
use dbobj.Table.{Table}
use dbobj.Table.Convert.{intern_row}
use dbobj.Table.Insert.{
  store_row, insert_row_values, insert_batch_values, insert_values, fresh_id, check_width,
}
use dbobj.Table.Insert.Store.{new_row, get-set_indexes, fresh_id-IsLaid}
use dbobj.Table.Insert.Stored.{Stored, store_row-Stored}
use dbobj.Table.Read.{get}
use dbobj.Table.Valid.{IsValid}

-- `t'` is a valid table that reads as `t`, but for one row more
pub record Inserted {F P : Type 0} ⦃it : Interner P⦄ (t : Table F P) (values : List (Value F))
    (id : RowId) (t' : Table F P) : Type 0 where
  pub valid : IsValid t'
  pub length_ids : length t'.ids ≡ suc (length t.ids)
  pub pool : t'.string_pool ≡ (intern_row values t.string_pool).1
  pub width : t'.num_columns ≡ t.num_columns
  pub reads :
      (j : RowId) → get j t' ≡ (if id_beq id j then some (some (new_row values id t)) else get j t)

-- the same, under the next integer
pub record InsertedNext {F P : Type 0} ⦃it : Interner P⦄ (t : Table F P) (values : List (Value F))
    (t' : Table F P) : Type 0 where
  pub inserted : Inserted t values (RowId.integer t.next_int_id) t'
  pub sequential : t'.is_sequential_ids ≡ t.is_sequential_ids
  pub next : t'.next_int_id ≡ (t.next_int_id + 1) % 2 ^ 64

module _ {F P : Type 0} ⦃it : Interner P⦄ (t : Table F P) (valid : IsValid t)
    (values : List (Value F)) where
  next-Inserted :
      (t' : Table F P)
      → suc (length t.ids) < 2 ^ 64
      → Stored (fresh_id t).0 values (RowId.integer t.next_int_id) t'
      → InsertedNext t values t'
  unfolding fresh_id
  next-Inserted t' room s = record {
    inserted = record {
      valid = record {
        laid = s.laid;
        numbered = λ q. ground (arith, s.sequential, s.next, s.length_ids, valid.numbered);
      };
      length_ids = s.length_ids;
      pool = s.pool;
      width = s.width;
      reads = λ j.
          rw (s.reads j) (rw (get-set_indexes t t.indexes ((t.next_int_id + 1) % 2 ^ 64) j) refl);
    };
    sequential = s.sequential;
    next = s.next;
  }

module _ {F P : Type 0} ⦃fl : Float F⦄ ⦃it : Interner P⦄ (t : Table F P) (valid : IsValid t)
    (values : List (Value F)) (w : length values ≡ t.num_columns) where
  -- storing under the next integer
  pub store_fresh :
      suc (length t.ids) < 2 ^ 64
      → Map.get (RowId.integer t.next_int_id) t.id_map ≡ none
      → (t' : Table F P) × (store_row values (RowId.integer t.next_int_id) (fresh_id t).0
          ≡ (t', ok (RowId.integer t.next_int_id)))
        × InsertedNext t values t'
  store_fresh room fresh =
      let (t', e, s) =
        store_row-Stored (fresh_id t).0 (fresh_id-IsLaid t valid.laid) values
          (RowId.integer t.next_int_id) (unfold fresh_id in w)
          (unfold fresh_id in λ q. ap RowId.integer (valid.numbered q))
          (unfold fresh_id in fresh) in
      (t', e, next-Inserted t valid values t' room s)

  -- `insert_row_values`, the body of the batch and of the single insert
  pub insert_row_values-Inserted :
      suc (length t.ids) < 2 ^ 64
      → Map.get (RowId.integer t.next_int_id) t.id_map ≡ none
      → (t' : Table F P) × (insert_row_values values t ≡ (t', ok (RowId.integer t.next_int_id)))
        × InsertedNext t values t'
  insert_row_values-Inserted room fresh =
      let (t', e, r) = store_fresh room fresh in
      (
        t',
        unfold insert_row_values check_width fresh_id in rw (w, ==_refl) (unfold fresh_id in e),
        r,
      )

  -- In a valid table of less than 2^64 - 1 rows whose next integer is not in `id_map`,
  -- `insert_values` with as many values as columns returns the next integer; the table stays valid
  -- in the same identifier mode with the counter advanced, `get` finds the new row under that
  -- integer, and every other identifier reads as before.
  pub insert_values-Inserted :
      suc (length t.ids) < 2 ^ 64
      → Map.get (RowId.integer t.next_int_id) t.id_map ≡ none
      → (t' : Table F P) × (insert_values values t ≡ (t', ok (RowId.integer t.next_int_id)))
        × InsertedNext t values t'
  insert_values-Inserted room fresh =
      let (t', e, r) = insert_row_values-Inserted room fresh in
      (t', unfold insert_values insert_batch_values each in rw e refl, r)
