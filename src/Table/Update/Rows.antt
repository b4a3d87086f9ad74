-- ===== src/Table/Update/Rows.antt =====
-- table.rs: the rows after `overwrite_row`.
use dbobj.Base.{
  ℕ, ◌+◌, ◌-◌, ◌*◌, ◌%◌, ◌^◌, ◌<◌, ◌≤◌, ◌≡◌, ◌≢◌, ap, refl, some, List, ◌&&◌, ok, length, get_elem?,
  get_elem?-lt, set, get_elem?-set, arith, ltb, leb, if◌then◌else◌, slice, slice-ext, slice-eq,
}
use dbobj.Core.Id.{RowId}
use dbobj.Core.Value.{Value}
use dbobj.Table.{Table}
use dbobj.Table.Read.{get_row_by_index, row_of}
use dbobj.Table.Read.Index.{row_span}
use dbobj.Table.Update.{set_row, overwrite_row}
use dbobj.Table.Update.Cells.{write_cells-ok, row_apart}

-- the written table
abbrev pub written : {F P : Type 0} → Table F P → ℕ → List (Value F) → ℕ → Table F P
written t idx cells version = record t {
  cells = cells;
  versions = set t.versions idx ((version + 1) % 2 ^ 64);
}

module _ {F P : Type 0} (t : Table F P) (cells_len : length t.cells ≡ length t.ids * t.num_columns)
    (versions_len : length t.versions ≡ length t.ids) (idx : ℕ) (values : List (Value F))
    (inside : idx < length t.ids) (w : length values ≡ t.num_columns) where
  module _ (cells : List (Value F)) (len : length cells ≡ length t.cells)
      (at : (k : ℕ)
        → get_elem? cells k ≡ (
            if leb (idx * t.num_columns) k && ltb k (idx * t.num_columns + length values)
            then get_elem? values (k - idx * t.num_columns)
            else get_elem? t.cells k)) where
    span : (i : ℕ) → i < length t.ids → i * t.num_columns + t.num_columns ≤ length t.cells
    span i h = row_span i (length t.ids) t.num_columns (length t.cells) h cells_len

    slice_self : slice cells (idx * t.num_columns) t.num_columns ≡ some values
    slice_self =
        slice-eq cells values (idx * t.num_columns) t.num_columns
          (omega (arith, span idx inside, len)) w
          (λ k h. ground (arith, at (idx * t.num_columns + k), w, ap (get_elem? values) (cancel k)))
      where
        cancel : (k : ℕ) → idx * t.num_columns + k - idx * t.num_columns ≡ k
        cancel k = omega arith

    slice_other :
        (i : ℕ)
        → i < length t.ids
        → i ≢ idx
        → slice cells (i * t.num_columns) t.num_columns
          ≡ slice t.cells (i * t.num_columns) t.num_columns
    slice_other i h n =
        slice-ext cells t.cells (i * t.num_columns) (i * t.num_columns) t.num_columns
          (omega (arith, span i h, len)) (span i h)
          (λ k q.
            ground (arith, at (i * t.num_columns + k), w, row_apart i idx t.num_columns k n q))

    row_self :
        {id : RowId} (version : ℕ)
        → get_elem? t.ids idx ≡ some id
        → get_row_by_index idx (written t idx cells version)
          ≡ some (record { id = id; values = values; version = (version + 1) % 2 ^ 64 })
    unfolding get_row_by_index row_of
    row_self {id} version e =
        rw (slice_self, e, get_elem?-set t.versions idx ((version + 1) % 2 ^ 64) idx)
          (ground (arith, versions_len))

    row_other :
        (version : ℕ) (i : ℕ)
        → i < length t.ids
        → i ≢ idx
        → get_row_by_index i (written t idx cells version) ≡ get_row_by_index i t
    unfolding get_row_by_index
    row_other version i h n =
        rw (slice_other i h n, get_elem?-set t.versions idx ((version + 1) % 2 ^ 64) i)
          (ground arith)

  -- Writing a row in range has a result: the row is the new one under its old identifier and the
  -- next version, and the others are as before.
  pub overwrite_row-ok :
      (cells' : List (Value F)) × (version : ℕ) × (overwrite_row idx values t
        ≡ (written t idx cells' version, ok tt))
      × (length cells' ≡ length t.cells)
      × (get_elem? t.versions idx ≡ some version)
      × ((id : RowId)
          → get_elem? t.ids idx ≡ some id
          → get_row_by_index idx (written t idx cells' version)
            ≡ some (record { id = id; values = values; version = (version + 1) % 2 ^ 64 }))
      × ((i : ℕ)
          → i < length t.ids
          → i ≢ idx
          → get_row_by_index i (written t idx cells' version) ≡ get_row_by_index i t)
  unfolding overwrite_row set_row
  overwrite_row-ok =
      let fits = row_span idx (length t.ids) t.num_columns (length t.cells) inside cells_len in
      let (cells', e, len, at) =
        write_cells-ok (idx * t.num_columns) values t.cells (omega (arith, fits, w)) in
      let (version, q) = get_elem?-lt t.versions idx (omega (arith, inside, versions_len)) in
      (
        cells',
        version,
        rw (e, q) refl,
        len,
        q,
        λ id. row_self cells' len at version,
        row_other cells' len at version,
      )
