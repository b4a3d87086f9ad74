-- ===== src/Table/Insert/Indexes.antt =====
-- table.rs: the loops over the indexes on a table that is laid out well.
use dbobj.Base.{
  ℕ, ◌+◌, ◌*◌, ◌<◌, ◌≡◌, refl, Option, some, [], ◌∷◌, Text, ok, length, get_elem?, arith,
  if◌then◌else◌, get_elem?-lt,
}
use dbobj.Core.Float.{Float}
use dbobj.Core.Id.{RowId}
use dbobj.Core.Value.{value_key}
use dbobj.Map.{HashMap}
use dbobj.Table.{Index, Table}
use dbobj.Table.Insert.{
  update_all, set_indexes, each_index, index_row, index_row_plain, push_unique, push_plain,
}
use dbobj.Table.Valid.{IndexesFit}

-- `f` has a result on the index, over the same column
abbrev pub Keeps : {F : Type 0} → (Index F → Option (Index F)) → Index F → Type 0
Keeps {F} f ix = (ix' : Index F) × (f ix ≡ some ix') × (ix'.col_idx ≡ ix.col_idx)

update_all-Keeps :
    {F : Type 0} (n : ℕ) (f : Index F → Option (Index F))
    → ((ix : Index F) → ix.col_idx < n → Keeps f ix)
    → (ixs : HashMap Text (Index F)) → IndexesFit n ixs
    → (ixs' : HashMap Text (Index F)) × (update_all f ixs ≡ some ixs') × IndexesFit n ixs'
unfolding update_all
update_all-Keeps n f keeps [] h = ([], refl, tt)
update_all-Keeps n f keeps ((name, ix) ∷ rest) h =
    let (ix', e, c) = keeps ix h.0 in
    let (rest', e', h') = update_all-Keeps n f keeps rest h.1 in
    ((name, ix') ∷ rest', rw (e, e') refl, (omega (arith, h.0, c), h'))

module _ {F P : Type 0} where
  -- A loop whose body has a result changes the indexes alone, and they stay over the columns.
  pub each_index-ok :
      (f : Table F P → Index F → Option (Index F)) (t : Table F P)
      → ((ix : Index F) → ix.col_idx < t.num_columns → Keeps (f t) ix)
      → IndexesFit t.num_columns t.indexes
      → (ixs : HashMap Text (Index F)) × (each_index f t ≡ (record t { indexes = ixs }, ok tt))
        × IndexesFit t.num_columns ixs
  unfolding each_index
  each_index-ok f t keeps h =
      let (ixs, e, h') = update_all-Keeps t.num_columns (f t) keeps t.indexes h in
      (ixs, rw (e, set_indexes) refl, h')

-- a cell of a row in range
pub cell_lt :
    (i n col width len : ℕ) → i < n → col < width → len ≡ n * width → i * width + col < len
cell_lt i n col width len h k e = grind arith

module _ {F P : Type 0} (t : Table F P)
    (cells_len : length t.cells ≡ length t.ids * t.num_columns) where
  pub cell_at :
      (i col : ℕ)
      → i < length t.ids
      → col < t.num_columns
      → let at = get_elem? t.cells (i * t.num_columns + col) in (v : _) × (at ≡ some v)
  cell_at i col h k =
      get_elem?-lt t.cells (i * t.num_columns + col)
        (cell_lt i (length t.ids) col t.num_columns (length t.cells) h k cells_len)

module _ {F P : Type 0} ⦃fl : Float F⦄ (t : Table F P)
    (cells_len : length t.cells ≡ length t.ids * t.num_columns) where
  pub index_row-Keeps :
      (i : ℕ) (id : RowId)
      → i < length t.ids
      → (ix : Index F) → ix.col_idx < t.num_columns
      → Keeps (index_row i id t) ix
  unfolding index_row
  index_row-Keeps i id h ix k =
      let (v, e) = cell_at t cells_len i ix.col_idx h k in
      (if ix.is_unique then push_unique v i ix else push_plain v id ix, rw e refl, ground arith)

  pub index_row_plain-Keeps :
      (i : ℕ) (id : RowId)
      → i < length t.ids
      → (ix : Index F) → ix.col_idx < t.num_columns
      → Keeps (index_row_plain i id t) ix
  unfolding index_row_plain
  index_row_plain-Keeps i id h ix k =
      let (v, e) = cell_at t cells_len i ix.col_idx h k in (push_plain v id ix, rw e refl, refl)
