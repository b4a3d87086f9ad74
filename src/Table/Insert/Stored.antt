-- ===== src/Table/Insert/Stored.antt =====
-- table.rs: `store_row` against the table as a map from identifiers to rows.
use dbobj.Base.{
  suc, ◌*◌, ◌<◌, ◌≡◌, ◌∙◌, refl, true, Option, none, some, List, [], ◌∷◌, Text, ok, after, pure,
  length, arith, length-append, if◌then◌else◌,
}
use dbobj.Core.Float.{Float}
use dbobj.Core.Id.{RowId, id_beq, id_key}
use dbobj.Core.Pool.{Interner}
use dbobj.Core.Value.{Value}
use dbobj.Map
use dbobj.Map.{HashMap}
use dbobj.Table.{Index, Table}
use dbobj.Table.Convert.{intern_row}
use dbobj.Table.Insert.{
  append_row, store_row, store_row_plain, each_index, index_row, index_row_plain,
}
use dbobj.Table.Insert.Append.{append_row-IsLaid}
use dbobj.Table.Insert.Indexes.{each_index-ok, index_row-Keeps, index_row_plain-Keeps, Keeps}
use dbobj.Table.Read.{get}
use dbobj.Table.Insert.Store.{new_row, get-append_row, get-set_indexes, set_indexes-IsLaid}
use dbobj.Table.Valid.{IsLaid, IndexesFit}

-- what a method that stored a row gives: the table is valid, and reads as before but for the row
pub record Stored {F P : Type 0} ⦃it : Interner P⦄ (t : Table F P) (values : List (Value F))
    (id : RowId) (t' : Table F P) : Type 0 where
  pub laid : IsLaid t'
  pub length_ids : length t'.ids ≡ suc (length t.ids)
  pub sequential : t'.is_sequential_ids ≡ t.is_sequential_ids
  pub next : t'.next_int_id ≡ t.next_int_id
  pub pool : t'.string_pool ≡ (intern_row values t.string_pool).1
  pub width : t'.num_columns ≡ t.num_columns
  pub reads :
      (j : RowId) → get j t' ≡ (if id_beq id j then some (some (new_row values id t)) else get j t)

module _ {F P : Type 0} ⦃fl : Float F⦄ ⦃it : Interner P⦄ (t : Table F P) (laid : IsLaid t)
    (values : List (Value F)) (id : RowId) (w : length values ≡ t.num_columns)
    (own : t.is_sequential_ids ≡ true → id ≡ RowId.integer (length t.ids))
    (fresh : Map.get id t.id_map ≡ none) where
  append_row-Stored :
      (ixs : HashMap Text (Index F))
      → IndexesFit t.num_columns ixs
      → Stored t values id (record (append_row values id t) { indexes = ixs })
  append_row-Stored ixs fit = record {
    laid =
        set_indexes-IsLaid (append_row values id t) ixs
          (append_row-IsLaid t laid values id w own fresh) (unfold append_row in fit);
    length_ids = unfold append_row in omega (arith, length-append t.ids (id ∷ []));
    sequential = unfold append_row in refl;
    next = unfold append_row in refl;
    pool = unfold append_row in refl;
    width = unfold append_row in refl;
    reads = λ j.
        get-set_indexes (append_row values id t) ixs _ j
        ∙ get-append_row t laid values id w own fresh j;
  }

  -- a method that appends the row and runs a loop over the indexes
  store_with :
      (f : Table F P → Index F → Option (Index F))
      → ((t' : Table F P)
          → length t'.cells ≡ length t'.ids * t'.num_columns
          → length t.ids < length t'.ids
          → (ix : Index F) → ix.col_idx < t'.num_columns
          → Keeps (f t') ix)
      → (t' : Table F P) × (after (each_index f (append_row values id t)) (λ _. pure id)
          ≡ (t', ok id))
        × Stored t values id t'
  store_with f keeps =
      let t1 = append_row values id t in
      let laid1 = append_row-IsLaid t laid values id w own fresh in
      let more : length t.ids < length t1.ids =
        unfold append_row in omega (arith, length-append t.ids (id ∷ [])) in
      let (ixs, e, fit) = each_index-ok f t1 (keeps t1 laid1.cells_len more) laid1.index_cols in
      (record t1 { indexes = ixs }, rw e refl, append_row-Stored ixs (unfold append_row in fit))

  -- `store_row` has a result, which is the table with the row.
  pub store_row-Stored :
      (t' : Table F P) × (store_row values id t ≡ (t', ok id)) × Stored t values id t'
  unfolding store_row
  store_row-Stored =
      store_with (index_row (length t.ids) id) (λ t' c h. index_row-Keeps t' c (length t.ids) id h)

  pub store_row_plain-Stored :
      (t' : Table F P) × (store_row_plain values id t ≡ (t', ok id)) × Stored t values id t'
  unfolding store_row_plain
  store_row_plain-Stored =
      store_with (index_row_plain (length t.ids) id)
        (λ t' c h. index_row_plain-Keeps t' c (length t.ids) id h)
