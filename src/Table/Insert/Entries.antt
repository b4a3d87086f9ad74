-- ===== src/Table/Insert/Entries.antt =====
-- `insert`: a row of named values, under the next integer or under a given identifier.
use dbobj.Base.{
  ℕ, suc, ◌^◌, ◌<◌, ◌≡◌, ◌∙◌, sym, ap, refl, true, Option, none, some, List, [], ◌∷◌, Text, Res, ok,
  err, panic, length, arith, replicate, length-replicate, length-set, Option-ext,
}
use dbobj.Core.Float.{Float}
use dbobj.Core.Id.{RowId, id_key, text_key}
use dbobj.Core.Pool.{Interner}
use dbobj.Core.Value.{Value, null}
use dbobj.Map
use dbobj.Map.{HashMap, contains_key-get, get-contains_key}
use dbobj.Table.{ColumnDefinition, RowData, Table, TableError, duplicate_id}
use dbobj.Table.Convert.{
  validate_and_convert, convert_entries, convert_at, check_type, write_value, missing_column,
  then_convert, keep,
}
use dbobj.Table.Insert.{insert, fresh_id, choose_id, leave_sequential}
use dbobj.Table.Insert.Methods.{Inserted, InsertedNext, store_fresh}
use dbobj.Table.Insert.Sequential.{
  leave_sequential-IsLaid, leave_sequential_off, get-leave_sequential, leave_sequential_lem,
}
use dbobj.Table.Insert.Stored.{Stored, store_row-Stored}
use dbobj.Table.Read.{get, get_index}
use dbobj.Table.Read.Index.{get_index_iff}
use dbobj.Table.Valid.{IsValid}

module _ {F : Type 0} where
  then_convert-ok :
      (r : Res TableError (List (Value F))) (k : List (Value F) → Res TableError (List (Value F)))
      {ws : List (Value F)}
      → then_convert r k ≡ ok ws
      → (vs : List (Value F)) × (r ≡ ok vs) × (k vs ≡ ok ws)
  then_convert-ok (ok vs) k e = (vs, refl, e)
  then_convert-ok (err x) k e = cc
  then_convert-ok panic k e = cc

  keep-ok :
      (r : Res TableError (Unit {0})) (vs : List (Value F)) {ws : List (Value F)}
      → keep r vs ≡ ok ws
      → vs ≡ ws
  keep-ok (ok _) vs e = cc
  keep-ok (err x) vs e = cc
  keep-ok panic vs e = cc

  convert_at-length :
      (columns : List ColumnDefinition) (o : Option ℕ) (v : Value F) (values : List (Value F))
      {ws : List (Value F)}
      → convert_at columns o v values ≡ ok ws
      → length ws ≡ length values
  unfolding convert_at check_type write_value
  convert_at-length columns none v values e = ground arith
  convert_at-length columns (some i) v values e = ground (arith, length-set values i v)

  convert_entries-length :
      (columns : List ColumnDefinition) (m : HashMap Text ℕ) (entries : RowData F)
      (values : List (Value F)) {ws : List (Value F)}
      → convert_entries columns m entries values ≡ ok ws
      → length ws ≡ length values
  unfolding convert_entries
  convert_entries-length columns m [] values e = ground arith
  convert_entries-length columns m ((name, v) ∷ rest) values e =
      let (vs, p, q) =
        then_convert-ok (convert_at columns (Map.get name m) v values)
          (convert_entries columns m rest) e in
      convert_entries-length columns m rest vs q
      ∙ convert_at-length columns (Map.get name m) v values p

module _ {F P : Type 0} where
  -- Accepted values are as many as the columns.
  pub length-validate_and_convert :
      (entries : RowData F) (t : Table F P) {values : List (Value F)}
      → validate_and_convert entries t ≡ ok values
      → length values ≡ length t.schema.columns
  unfolding validate_and_convert
  length-validate_and_convert entries t e =
      let none_yet = replicate (length t.schema.columns) null in
      let (vs, p, q) =
        then_convert-ok (convert_entries t.schema.columns t.column_map entries none_yet)
          (λ values. keep (missing_column t.schema.columns values) values) e in
      ap length (sym (keep-ok (missing_column t.schema.columns vs) vs q))
      ∙ convert_entries-length t.schema.columns t.column_map entries none_yet p
      ∙ length-replicate (length t.schema.columns) null

module _ {F P : Type 0} ⦃fl : Float F⦄ ⦃it : Interner P⦄ (t : Table F P) (entries : RowData F) where
  module _ (valid : IsValid t) {values : List (Value F)}
      (accepted : validate_and_convert entries t ≡ ok values) where
    width : length values ≡ t.num_columns
    width = length-validate_and_convert entries t accepted ∙ sym valid.laid.columns

    -- In a valid table of less than 2^64 - 1 rows whose next integer is not in `id_map`, `insert`
    -- of accepted entries without an identifier stores the converted row under the next integer;
    -- the table stays valid and every other identifier reads as before.
    pub insert_next :
        suc (length t.ids) < 2 ^ 64
        → Map.get (RowId.integer t.next_int_id) t.id_map ≡ none
        → (t' : Table F P) × (insert entries none t ≡ (t', ok (RowId.integer t.next_int_id)))
          × InsertedNext t values t'
    insert_next room fresh =
        let (t', e, r) = store_fresh t valid values width room fresh in
        (t', unfold insert choose_id fresh_id in rw accepted (unfold fresh_id in e), r)

    mapped_get : (id : RowId) → Map.get id (leave_sequential t).id_map ≡ get_index id t
    mapped_get id =
        let laid' = leave_sequential-IsLaid t valid.laid in
        Option-ext _ _ λ i. ground (
          arith,
          (laid'.mapped (leave_sequential_off t)).sound id i,
          (laid'.mapped (leave_sequential_off t)).complete id i,
          get_index_iff (leave_sequential t) laid' id i,
          get_index_iff t valid.laid id i,
          leave_sequential_lem t,
        )

    -- In a valid table, `insert` of accepted entries under an identifier that is taken is the error
    -- for a duplicate identifier; all that it changes is the identifier mode, and no lookup by
    -- `get` changes.
    pub insert_duplicate :
        (id : RowId) (i : ℕ)
        → get_index id t ≡ some i
        → (insert entries (some id) t ≡ (leave_sequential t, err (duplicate_id id)))
          × ((j : RowId) → get j (leave_sequential t) ≡ get j t)
    insert_duplicate id i taken =
        let has : Map.contains_key id (leave_sequential t).id_map ≡ true =
          ground (arith, contains_key-get id (leave_sequential t).id_map, mapped_get id) in
        (unfold insert choose_id in rw accepted (rw has refl), get-leave_sequential t valid.laid)

    custom-Inserted :
        {id : RowId} (t' : Table F P)
        → Stored (leave_sequential t) values id t'
        → Inserted t values id t'
    custom-Inserted {id} t' s = record {
      valid = record { laid = s.laid; numbered = λ q. cc (leave_sequential_off t, s.sequential) };
      length_ids = s.length_ids ∙ rw (leave_sequential_lem t) refl;
      pool = s.pool ∙ rw (leave_sequential_lem t) refl;
      width = s.width ∙ rw (leave_sequential_lem t) refl;
      reads =
          λ j. s.reads j ∙ rw (get-leave_sequential t valid.laid j, leave_sequential_lem t) refl;
    }

    -- In a valid table, `insert` of accepted entries under an identifier that `get_index` does not
    -- find returns that identifier; the table stays valid, the converted row is found under it, and
    -- every other identifier reads as before.
    pub insert_custom :
        (id : RowId)
        → get_index id t ≡ none
        → (t' : Table F P) × (insert entries (some id) t ≡ (t', ok id)) × Inserted t values id t'
    insert_custom id free =
        let t1 = leave_sequential t in
        let w : length values ≡ t1.num_columns = rw (leave_sequential_lem t) width in
        let (t', e, s) =
          store_row-Stored t1 (leave_sequential-IsLaid t valid.laid) values id w
            (λ q. cc (leave_sequential_off t)) (mapped_get id ∙ free) in
        (
          t',
          unfold insert choose_id in
              rw accepted
                (rw (get-contains_key id (leave_sequential t).id_map (mapped_get id ∙ free)) e),
          custom-Inserted t' s,
        )
