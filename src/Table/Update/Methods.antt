-- ===== src/Table/Update/Methods.antt =====
-- `update_values` and `update` against the table as a map from identifiers to rows.
use dbobj.Base.{
  ℕ, ◌+◌, ◌*◌, ◌%◌, ◌^◌, ◌<◌, ◌≡◌, ◌≢◌, ◌∙◌, sym, refl, Option, none, some, List, ok, err, length,
  get_elem?, get_elem?-lt, lt_of_get_elem?, arith, true, false, if◌then◌else◌, ==_refl, set,
  length-set, Text,
}
use dbobj.Core.Float.{Float}
use dbobj.Core.Id.{RowId, id_beq, id_beq_refl, id_beq_sound, id_key}
use dbobj.Core.Pool.{Interner, StringPool}
use dbobj.Core.Value.{Value}
use dbobj.Map
use dbobj.Map.{HashMap}
use dbobj.Table.{Row, RowData, Index, Table, schema_violation, id_not_found}
use dbobj.Table.Convert.{intern_row, validate_and_convert}
use dbobj.Table.Insert.Append.{length-intern_row}
use dbobj.Table.Insert.Entries.{length-validate_and_convert}
use dbobj.Table.Insert.Indexes.{Keeps, each_index-ok, cell_at}
use dbobj.Table.Read.{get, get_index, get_row_by_index, lookup_row, row_of}
use dbobj.Table.Read.Index.{get_index_iff, get-eq-get_index, get_index_mapped}
use dbobj.Table.Update.{moved_index, reindex_row, replace_row, update_values, update}
use dbobj.Table.Update.Rows.{written, overwrite_row-ok}
use dbobj.Table.Valid.{IsLaid, IsValid, IndexesFit}

-- `t'` is a valid table that reads as `t`, but for the row of one identifier
pub record Updated {F P : Type 0} ⦃it : Interner P⦄ (t : Table F P) (values : List (Value F))
    (id : RowId) (t' : Table F P) : Type 0 where
  pub valid : IsValid t'
  pub ids : t'.ids ≡ t.ids
  pub pool : t'.string_pool ≡ (intern_row values t.string_pool).1
  pub version : ℕ
  pub old : (row : Row F) → get id t ≡ some (some row) → row.version ≡ version
  pub reads :
      (j : RowId)
      → get j t' ≡ (
          if id_beq id j
          then some (
              some (record {
                id = id;
                values = (intern_row values t.string_pool).0;
                version = (version + 1) % 2 ^ 64;
              }))
          else get j t)

module _ {F : Type 0} ⦃fl : Float F⦄ where
  col_idx-moved_index :
      (id : RowId) (a b : Value F) (ix : Index F) → (moved_index id a b ix).col_idx ≡ ix.col_idx
  unfolding moved_index
  col_idx-moved_index id a b ix = ground arith

module _ {F P : Type 0} ⦃fl : Float F⦄ (t : Table F P)
    (cells_len : length t.cells ≡ length t.ids * t.num_columns) (id : RowId) (idx : ℕ)
    (row : List (Value F)) (inside : idx < length t.ids) (w : length row ≡ t.num_columns) where
  pub reindex_row-Keeps :
      (ix : Index F) → ix.col_idx < t.num_columns → Keeps (reindex_row id idx row t) ix
  unfolding reindex_row
  reindex_row-Keeps ix h =
      let (old_val, e) = cell_at t cells_len idx ix.col_idx inside h in
      let (new_val, q) = get_elem?-lt row ix.col_idx (omega (arith, h, w)) in
      (moved_index id old_val new_val ix, rw (e, q) refl, col_idx-moved_index id old_val new_val ix)

module _ {F P : Type 0} (t : Table F P) (laid : IsLaid t) (pool : StringPool P)
    (ixs : HashMap Text (Index F)) (fit : IndexesFit t.num_columns ixs) (idx : ℕ)
    (cells : List (Value F)) (len : length cells ≡ length t.cells) (version : ℕ) where
  abbrev result : Table F P
  result = record t {
    string_pool = pool;
    indexes = ixs;
    cells = cells;
    versions = set t.versions idx version;
  }

  result-IsLaid : IsLaid result
  result-IsLaid = record {
    columns = laid.columns;
    cells_len = len ∙ laid.cells_len;
    versions_len = length-set t.versions idx version ∙ laid.versions_len;
    positions = laid.positions;
    index_cols = fit;
    sequential = λ q. let s = laid.sequential q in record { own = s.own; unused = s.unused };
    mapped = λ q.
        let m = laid.mapped q in
        record { is_map = m.is_map; sound = m.sound; complete = m.complete };
  }

  -- the rows of the result
  module _ (id : RowId) (old : get_index id t ≡ some idx) (row' : Row F)
      (self : get_row_by_index idx result ≡ some row')
      (other : (i : ℕ)
        → i < length t.ids
        → i ≢ idx
        → get_row_by_index i result ≡ get_row_by_index i t) where
    lookup_result :
        (j : RowId) (o : Option ℕ)
        → get_index j t ≡ o
        → lookup_row o result ≡ (if id_beq id j then some (some row') else lookup_row o t)
    unfolding lookup_row
    lookup_result j none e = ground (arith, id_beq_sound id j)
    lookup_result j (some i) e = ground (
      arith,
      id_beq_sound id j,
      id_beq_refl id,
      self,
      other i,
      (get_index_iff t laid j i).0 e,
      (get_index_iff t laid id idx).0 old,
      lt_of_get_elem? t.ids i {x = j},
    )

    get_index-result : (j : RowId) → get_index j result ≡ get_index j t
    unfolding get_index
    get_index-result j = refl

    get-result : (j : RowId) → get j result ≡ (if id_beq id j then some (some row') else get j t)
    get-result j =
        rw (get-eq-get_index result result-IsLaid j, get-eq-get_index t laid j, get_index-result j)
          (lookup_result j (get_index j t) refl)

module _ {F P : Type 0} ⦃fl : Float F⦄ ⦃it : Interner P⦄ (t : Table F P) (valid : IsValid t)
    (id : RowId) (values : List (Value F)) (w : length values ≡ t.num_columns) (idx : ℕ)
    (found : get_index id t ≡ some idx) where
  row_version :
      (row : Row F) (version : ℕ)
      → get id t ≡ some (some row)
      → get_elem? t.versions idx ≡ some version
      → row.version ≡ version
  unfolding lookup_row get_row_by_index row_of
  row_version row version g v = ground (arith, get-eq-get_index t valid.laid id)

  result-Updated :
      (pool : StringPool P) (ixs : HashMap Text (Index F)) (fit : IndexesFit t.num_columns ixs)
      (cells : List (Value F)) (len : length cells ≡ length t.cells) (version : ℕ)
      → pool ≡ (intern_row values t.string_pool).1
      → get_elem? t.versions idx ≡ some version
      → (let t' = result t valid.laid pool ixs fit idx cells len ((version + 1) % 2 ^ 64) in
          (get_row_by_index idx t'
            ≡ some (record {
              id = id;
              values = (intern_row values t.string_pool).0;
              version = (version + 1) % 2 ^ 64;
            }))
          → ((i : ℕ)
              → i < length t.ids
              → i ≢ idx
              → get_row_by_index i t'
                ≡ get_row_by_index i (record t { string_pool = pool; indexes = ixs }))
          → Updated t values id t')
  result-Updated pool ixs fit cells len version p v self other = record {
    valid = record {
      laid = result-IsLaid t valid.laid pool ixs fit idx cells len ((version + 1) % 2 ^ 64);
      numbered = valid.numbered;
    };
    ids = refl;
    pool = p;
    version = version;
    old = λ row g. row_version row version g v;
    reads =
        get-result t valid.laid pool ixs fit idx cells len ((version + 1) % 2 ^ 64) id found _ self
          (unfold get_row_by_index in other);
  }

  -- what both methods do once the position is known
  replace_row-Updated :
      (t' : Table F P) × (replace_row id values idx t ≡ (t', ok tt)) × Updated t values id t'
  unfolding replace_row
  replace_row-Updated =
      let row = (intern_row values t.string_pool).0 in
      let pool = (intern_row values t.string_pool).1 in
      let wide : length row ≡ t.num_columns = length-intern_row values t.string_pool ∙ w in
      let at = (get_index_iff t valid.laid id idx).0 found in
      let inside = lt_of_get_elem? t.ids idx at in
      let t1 : Table F P = record t { string_pool = pool } in
      let (ixs, e, fit) =
        each_index-ok (reindex_row id idx row) t1
          (reindex_row-Keeps t1 valid.laid.cells_len id idx row inside wide)
          valid.laid.index_cols in
      let t2 : Table F P = record t1 { indexes = ixs } in
      let (cells, version, o, len, v, self, other) =
        overwrite_row-ok t2 valid.laid.cells_len valid.laid.versions_len idx row inside wide in
      (
        written t2 idx cells version,
        rw (e, o) refl,
        result-Updated pool ixs fit cells len version refl v (self id at) other,
      )

  -- In a valid table, `update_values` with as many values as columns, under an identifier that
  -- `get_index` finds, succeeds; the table stays valid with the same identifiers and the interned
  -- strings added; `get` then gives the interned values with the next version under that
  -- identifier, and the same as before under every other.
  pub update_values-Updated :
      (t' : Table F P) × (update_values id values t ≡ (t', ok tt)) × Updated t values id t'
  unfolding update_values
  update_values-Updated = let (t', e, u) = replace_row-Updated in (t', rw (w, ==_refl, found) e, u)

module _ {F P : Type 0} ⦃fl : Float F⦄ ⦃it : Interner P⦄ (t : Table F P) (valid : IsValid t)
    (id : RowId) (entries : RowData F) {values : List (Value F)}
    (accepted : validate_and_convert entries t ≡ ok values) where
  -- In a valid table with sequential identifiers, `update` with accepted entries fails for every
  -- identifier, one that is in the table included: the error is that the identifier is not found,
  -- and the table is unchanged.
  pub update_sequential :
      t.is_sequential_ids ≡ true
      → update id entries t ≡ (t, err (schema_violation (id_not_found id)))
  unfolding update Map.get
  update_sequential seq = rw (accepted, (valid.laid.sequential seq).unused) refl

  -- In a valid table that has left the sequential mode, `update` with accepted entries is
  -- `update_values` with the converted values.
  pub update-eq-update_values :
      t.is_sequential_ids ≡ false → update id entries t ≡ update_values id values t
  unfolding update update_values
  update-eq-update_values off =
      let w : length values ≡ t.num_columns =
        length-validate_and_convert entries t accepted ∙ sym valid.laid.columns in
      rw (accepted, w, ==_refl, get_index_mapped t valid.laid off id) refl
