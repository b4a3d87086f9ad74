-- ===== src/Table/Read/Index.antt =====
-- The two lookups of a row by its identifier.
use dbobj.Base.{
  ℕ, ◌+◌, ◌*◌, ◌<◌, ◌≤◌, ◌≡◌, refl, ◌↔◌, inl, inr, false, Bool-cases, some, length, get_elem?,
  arith, slice-le, get_elem?-lt, lt_of_get_elem?,
}
use dbobj.Core.Id.{RowId, id_beq_refl, id_key}
use dbobj.Map
use dbobj.Table.{Row, Table}
use dbobj.Table.Read.{
  at_own_position, sequential_index, sequential_position, or_else, get_index, row_of,
  get_row_by_index, lookup_row, get,
}
use dbobj.Table.Valid.{IsLaid, IsSequential}

module _ {F P : Type 0} (t : Table F P) where
  -- in a sequential table both lookups are the test of the range
  sequential_index-own :
      IsSequential t → (id : RowId) → sequential_index id t.ids ≡ sequential_position id t.ids
  unfolding sequential_index sequential_position at_own_position
  sequential_index-own s (RowId.integer k) = ground (arith, s.own k, id_beq_refl (RowId.integer k))
  sequential_index-own s (RowId.string k) = refl

  sequential_position_iff :
      IsSequential t
      → (id : RowId) (i : ℕ)
      → (sequential_position id t.ids ≡ some i) ↔ (get_elem? t.ids i ≡ some id)
  unfolding sequential_position
  sequential_position_iff s (RowId.integer k) i =
      ground (arith, s.own k, s.own i, lt_of_get_elem? t.ids i {x = RowId.integer k})
  sequential_position_iff s (RowId.string k) i =
      ground (arith, s.own i, lt_of_get_elem? t.ids i {x = RowId.string k})

module _ {F P : Type 0} (t : Table F P) (laid : IsLaid t) where
  -- In a table whose layout is valid, in either identifier mode, `get_index` finds a position
  -- exactly when the identifier stands there.
  pub get_index_iff :
      (id : RowId) (i : ℕ) → (get_index id t ≡ some i) ↔ (get_elem? t.ids i ≡ some id)
  unfolding get_index or_else Map.get
  get_index_iff id i = elim (Bool-cases t.is_sequential_ids) [
    | inl q ↦
        let s = laid.sequential q in
        ground (arith, s.unused, sequential_index-own t s id, sequential_position_iff t s id i)
    | inr q ↦ let m = laid.mapped q in ground (arith, m.sound id i, m.complete id i)
  ]

  -- In a table whose layout is valid, `get`, which leaves out the comparison that `get_index`
  -- makes, returns the row at the position that `get_index` finds.
  pub get-eq-get_index : (id : RowId) → get id t ≡ lookup_row (get_index id t) t
  unfolding get get_index
  get-eq-get_index id = elim (Bool-cases t.is_sequential_ids) [
    | inl q ↦ ground (arith, sequential_index-own t (laid.sequential q) id)
    | inr q ↦ ground arith
  ]

-- row `i` of the flat vector
pub row_span : (i n width len : ℕ) → i < n → len ≡ n * width → i * width + width ≤ len
row_span i n width len h e = grind arith

module _ {F P : Type 0} (t : Table F P) (laid : IsLaid t) where
  pub get_row_by_index-lt :
      (i : ℕ) → i < length t.ids → (row : Row F) × (get_row_by_index i t ≡ some row)
  unfolding get_row_by_index
  get_row_by_index-lt i h =
      let (vs, p) =
        slice-le t.cells (i * t.num_columns) t.num_columns
          (row_span i (length t.ids) t.num_columns (length t.cells) h laid.cells_len) in
      let (id, q) = get_elem?-lt t.ids i h in
      let (version, r) = get_elem?-lt t.versions i (omega (arith, laid.versions_len)) in
      (record { id = id; values = vs; version = version }, rw (p, q, r, row_of) refl)

  pub get_index_mapped :
      t.is_sequential_ids ≡ false → (id : RowId) → get_index id t ≡ Map.get id t.id_map
  unfolding get_index or_else
  get_index_mapped off id = ground arith
