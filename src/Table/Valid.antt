-- ===== src/Table/Valid.antt =====
-- The invariant of a table: the layout of its vectors, the columns that its maps name, and what
-- `id_map` says of the identifiers.
use dbobj.Base.{ℕ, ◌*◌, ◌<◌, ◌≡◌, true, false, some, [], ◌∷◌, Text, length, get_elem?}
use dbobj.Core.Id.{RowId, id_key, text_key}
use dbobj.Map
use dbobj.Map.{HashMap, IsMap}
use dbobj.Table.{Index, Table}

-- every index is over a column of the table
abbrev pub IndexesFit : {F : Type 0} → ℕ → HashMap Text (Index F) → Type 0
IndexesFit n [] = Unit
IndexesFit n ((name, ix) ∷ rest) = (ix.col_idx < n) × IndexesFit n rest

module _ {F P : Type 0} where
  -- while the identifiers are the positions, `id_map` is not used
  pub record IsSequential (t : Table F P) : Type 0 where
    pub own : (i : ℕ) → i < length t.ids → get_elem? t.ids i ≡ some (RowId.integer i)
    pub unused : t.id_map ≡ []

  -- later on `id_map` is the position of each identifier
  pub record IsMapped (t : Table F P) : Type 0 where
    pub is_map : IsMap t.id_map
    pub sound : (id : RowId) (i : ℕ) → Map.get id t.id_map ≡ some i → get_elem? t.ids i ≡ some id
    pub complete : (id : RowId) (i : ℕ) → get_elem? t.ids i ≡ some id → Map.get id t.id_map ≡ some i

  pub record IsLaid (t : Table F P) : Type 0 where
    pub columns : t.num_columns ≡ length t.schema.columns
    pub cells_len : length t.cells ≡ length t.ids * t.num_columns
    pub versions_len : length t.versions ≡ length t.ids
    pub positions : (name : Text) (i : ℕ) → Map.get name t.column_map ≡ some i → i < t.num_columns
    pub index_cols : IndexesFit t.num_columns t.indexes
    pub sequential : t.is_sequential_ids ≡ true → IsSequential t
    pub mapped : t.is_sequential_ids ≡ false → IsMapped t

  -- A valid table: the next integer of a sequential table is the position of the next row.
  pub record IsValid (t : Table F P) : Type 0 where
    pub laid : IsLaid t
    pub numbered : t.is_sequential_ids ≡ true → t.next_int_id ≡ length t.ids
