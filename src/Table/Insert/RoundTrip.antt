-- ===== src/Table/Insert/RoundTrip.antt =====
-- table.rs: values that `insert_values` interns, read and resolved.
use dbobj.Base.{
  ℕ, suc, ◌<◌, ◌^◌, ◌≡◌, refl, ◌∙◌, none, some, List, [], ◌∷◌, map, Text, arith, length, ok,
}
use dbobj.Core.Float.{Float}
use dbobj.Core.Id.{RowId, id_key, id_beq_refl}
use dbobj.Core.Pool
use dbobj.Core.Pool.{Interner, StringPool}
use dbobj.Core.Value.{Value, string, interned_string}
use dbobj.Map
use dbobj.Table.{Row, Table}
use dbobj.Table.Convert.{intern_value, intern_row, resolve_value}
use dbobj.Table.Insert.{insert_values}
use dbobj.Table.Insert.Methods.{insert_values-Inserted}
use dbobj.Table.Insert.Store.{new_row}
use dbobj.Table.Read.{get}
use dbobj.Table.Valid.{IsValid}

-- values from outside hold no symbols
abbrev pub IsPlain : {F : Type 0} → Value F → Type 0
IsPlain (interned_string k) = ⊥
IsPlain _ = Unit

abbrev pub ArePlain : {F : Type 0} → List (Value F) → Type 0
ArePlain [] = Unit
ArePlain (v ∷ vs) = IsPlain v × ArePlain vs

module _ {F P : Type 0} ⦃it : Interner P⦄ where
  -- a symbol goes on resolving to its text
  resolve-intern_value_old :
      (v : Value F) (pool : StringPool P) (k : ℕ) (s : Text)
      → Pool.resolve pool k ≡ some s
      → Pool.resolve (intern_value v pool).1 k ≡ some s
  unfolding intern_value Pool.intern Pool.resolve
  resolve-intern_value_old (string t) pool k s e = it.resolve-intern_old pool.interner t k s e
  resolve-intern_value_old _ pool k s e = e

  resolve-intern_row_old :
      (vs : List (Value F)) (pool : StringPool P) (k : ℕ) (s : Text)
      → Pool.resolve pool k ≡ some s
      → Pool.resolve (intern_row vs pool).1 k ≡ some s
  unfolding intern_row
  resolve-intern_row_old [] pool k s e = e
  resolve-intern_row_old (v ∷ vs) pool k s e =
      resolve-intern_row_old vs (intern_value v pool).1 k s (resolve-intern_value_old v pool k s e)

  -- one value, under any pool that resolves what this one does
  resolve_value-intern_value :
      (v : Value F) (pool later : StringPool P)
      → IsPlain v
      → ((k : ℕ) (s : Text)
          → Pool.resolve (intern_value v pool).1 k ≡ some s
          → Pool.resolve later k ≡ some s)
      → resolve_value later (intern_value v pool).0 ≡ v
  unfolding resolve_value intern_value Pool.intern Pool.resolve
  resolve_value-intern_value (string t) pool later h keeps =
      ground
        (arith, keeps (it.get_or_intern pool.interner t).0 t (it.resolve-intern pool.interner t))
  resolve_value-intern_value (interned_string k) pool later h keeps = elim h [ ]
  resolve_value-intern_value _ pool later h keeps = refl

  map-resolve_value-intern_row :
      (vs : List (Value F)) (pool : StringPool P)
      → ArePlain vs
      → map (resolve_value (intern_row vs pool).1) (intern_row vs pool).0 ≡ vs
  unfolding intern_row
  map-resolve_value-intern_row [] pool h = refl
  map-resolve_value-intern_row (v ∷ vs) pool h = cc (
    resolve_value-intern_value v pool (intern_row vs (intern_value v pool).1).1 h.0
        (resolve-intern_row_old vs (intern_value v pool).1),
    map-resolve_value-intern_row vs (intern_value v pool).1 h.1,
  )

module _ {F P : Type 0} ⦃fl : Float F⦄ ⦃it : Interner P⦄ (t : Table F P) (valid : IsValid t)
    (values : List (Value F)) (w : length values ≡ t.num_columns) where
  -- In a valid table of less than 2^64 - 1 rows whose next integer is not in `id_map`, after
  -- `insert_values` with as many values as columns, none of them a symbol, `get` finds a row under
  -- the returned integer whose values, resolved in the string pool of the new table, are the values
  -- that were given.
  pub get-insert_values :
      suc (length t.ids) < 2 ^ 64
      → Map.get (RowId.integer t.next_int_id) t.id_map ≡ none
      → ArePlain values
      → (t' : Table F P) × (row : Row F) × (insert_values values t
          ≡ (t', ok (RowId.integer t.next_int_id)))
        × (get (RowId.integer t.next_int_id) t' ≡ some (some row))
        × (map (resolve_value t'.string_pool) row.values ≡ values)
  get-insert_values room fresh plain =
      let (t', e, r) = insert_values-Inserted t valid values w room fresh in
      (
        t',
        new_row values (RowId.integer t.next_int_id) t,
        e,
        r.inserted.reads (RowId.integer t.next_int_id)
            ∙ rw (id_beq_refl (RowId.integer t.next_int_id)) refl,
        rw r.inserted.pool (map-resolve_value-intern_row values t.string_pool plain),
      )
