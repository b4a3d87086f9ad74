-- ===== src/Table/Insert/Store.antt =====
-- `store_row` and the methods that call it, against the table as a map from identifiers to rows.
use mathlib.Core.Option
use dbobj.Base.{
  ℕ, ◌<◌, ◌≡◌, ap, refl, inl, inr, true, Bool-cases, Option, none, some, Option-ext, ◌≢◌, List,
  Text, length, get_elem?, arith, if◌then◌else◌, get_elem?-snoc, lt_of_get_elem?,
}
use dbobj.Core.Id.{RowId, id_beq, id_beq_refl, id_beq_sound, id_key}
use dbobj.Core.Pool.{Interner}
use dbobj.Core.Value.{Value}
use dbobj.Map
use dbobj.Map.{HashMap}
use dbobj.Table.{Row, Index, Table}
use dbobj.Table.Convert.{intern_row}
use dbobj.Table.Insert.{append_row, fresh_id}
use dbobj.Table.Insert.Append.{
  append_row-IsLaid, get_row_by_index-append_row_old, get_row_by_index-append_row_new,
}
use dbobj.Table.Read.{get_index, get_row_by_index, lookup_row, get}
use dbobj.Table.Read.Index.{get_index_iff, get-eq-get_index}
use dbobj.Table.Valid.{IsLaid, IndexesFit}

module _ {F P : Type 0} where
  -- the layout does not depend on the entries of the indexes
  pub set_indexes-IsLaid :
      (t : Table F P) (ixs : HashMap Text (Index F))
      → IsLaid t
      → IndexesFit t.num_columns ixs
      → IsLaid (record t { indexes = ixs })
  set_indexes-IsLaid t ixs h fit = record {
    columns = h.columns;
    cells_len = h.cells_len;
    versions_len = h.versions_len;
    positions = h.positions;
    index_cols = fit;
    sequential = λ q. record { own = (h.sequential q).own; unused = (h.sequential q).unused };
    mapped = λ q.
        let m = h.mapped q in record { is_map = m.is_map; sound = m.sound; complete = m.complete };
  }

  pub fresh_id-IsLaid : (t : Table F P) → IsLaid t → IsLaid (fresh_id t).0
  unfolding fresh_id
  fresh_id-IsLaid t h = record {
    columns = h.columns;
    cells_len = h.cells_len;
    versions_len = h.versions_len;
    positions = h.positions;
    index_cols = h.index_cols;
    sequential = λ q. record { own = (h.sequential q).own; unused = (h.sequential q).unused };
    mapped = λ q.
        let m = h.mapped q in record { is_map = m.is_map; sound = m.sound; complete = m.complete };
  }

  -- what `get` finds does not depend on the indexes nor on the next integer
  lookup_row-set_indexes :
      (t : Table F P) (ixs : HashMap Text (Index F)) (n : ℕ) (o : Option ℕ)
      → lookup_row o (record t { indexes = ixs; next_int_id = n }) ≡ lookup_row o t
  unfolding lookup_row get_row_by_index
  lookup_row-set_indexes t ixs n none = refl
  lookup_row-set_indexes t ixs n (some i) = refl

  pub get-set_indexes :
      (t : Table F P) (ixs : HashMap Text (Index F)) (n : ℕ) (j : RowId)
      → get j (record t { indexes = ixs; next_int_id = n }) ≡ get j t
  unfolding get
  get-set_indexes t ixs n j = lookup_row-set_indexes t ixs n _

-- the row that is stored
abbrev pub new_row : {F P : Type 0} ⦃it : Interner P⦄ → List (Value F) → RowId → Table F P → Row F
new_row values id t = record { id = id; values = (intern_row values t.string_pool).0; version = 1 }

module _ {F P : Type 0} ⦃it : Interner P⦄ (t : Table F P) (laid : IsLaid t)
    (values : List (Value F)) (id : RowId) (w : length values ≡ t.num_columns)
    (own : t.is_sequential_ids ≡ true → id ≡ RowId.integer (length t.ids))
    (fresh : Map.get id t.id_map ≡ none) where
  absent : (i : ℕ) → get_elem? t.ids i ≢ some id
  absent i e = elim (Bool-cases t.is_sequential_ids) [
    | inl q ↦ ground (arith, own q, (laid.sequential q).own i, lt_of_get_elem? t.ids i {x = id})
    | inr q ↦ ground (arith, (laid.mapped q).complete id i)
  ]

  laid' : IsLaid (append_row values id t)
  laid' = append_row-IsLaid t laid values id w own fresh

  -- the position of an identifier in the longer table
  get_index-append_row :
      (j : RowId)
      → get_index j (append_row values id t)
        ≡ (if id_beq id j then some (length t.ids) else get_index j t)
  unfolding append_row
  get_index-append_row j = Option-ext _ _ λ i. ground (
    arith,
    get_index_iff (append_row values id t) laid' j i,
    get_index_iff t laid j i,
    get_elem?-snoc t.ids id i,
    lt_of_get_elem? t.ids i {x = j},
    absent i,
    id_beq_sound id j,
    id_beq_refl id,
  )

  lookup_row-append_row :
      (o : Option ℕ)
      → ((i : ℕ) → o ≡ some i → i < length t.ids)
      → lookup_row o (append_row values id t) ≡ lookup_row o t
  unfolding lookup_row
  lookup_row-append_row none h = refl
  lookup_row-append_row (some i) h =
      ap (Option.map some) (get_row_by_index-append_row_old t laid values id i (h i refl))

  -- The new row is found under its identifier, and every other row is found as before.
  pub get-append_row :
      (j : RowId)
      → get j (append_row values id t)
        ≡ (if id_beq id j then some (some (new_row values id t)) else get j t)
  get-append_row j =
      rw
        (
          get-eq-get_index (append_row values id t) laid' j,
          get-eq-get_index t laid j,
          get_index-append_row j,
        )
        (elim (Bool-cases (id_beq id j)) [
          | inl q ↦ rw q (
              unfold lookup_row in
              ap (Option.map some) (get_row_by_index-append_row_new t laid values id w))
          | inr q ↦ rw q (
              lookup_row-append_row (get_index j t)
                (λ i e. lt_of_get_elem? t.ids i ((get_index_iff t laid j i).0 e)))
        ])
