-- ===== src/Table/Insert/Append.antt =====
-- table.rs: the rows and the layout after `append_row`.
use dbobj.Base.{
  ℕ, suc, ◌*◌, ◌<◌, ◌≡◌, sym, ap, refl, true, none, some, List, [], ◌∷◌, length, arith,
  length-append, slice-append_left, slice-append_right, get_elem?-append_left, get_elem?-snoc,
  lt_of_get_elem?,
}
use dbobj.Core.Id.{RowId, id_beq_refl, id_beq_sound, id_key}
use dbobj.Core.Pool.{Interner, StringPool}
use dbobj.Core.Value.{Value}
use dbobj.Map
use dbobj.Map.{get-insert, insert-IsMap}
use dbobj.Table.{Table}
use dbobj.Table.Convert.{intern_value, intern_row}
use dbobj.Table.Insert.{append_row}
use dbobj.Table.Read.{get_row_by_index}
use dbobj.Table.Read.Index.{row_span}
use dbobj.Table.Valid.{IsLaid}

module _ {F P : Type 0} ⦃it : Interner P⦄ where
  pub length-intern_row :
      (vs : List (Value F)) (pool : StringPool P) → length (intern_row vs pool).0 ≡ length vs
  unfolding intern_row
  length-intern_row [] pool = refl
  length-intern_row (v ∷ vs) pool = ap suc (length-intern_row vs (intern_value v pool).1)

module _ {F P : Type 0} ⦃it : Interner P⦄ (t : Table F P) (laid : IsLaid t)
    (values : List (Value F)) (id : RowId) where
  pub get_row_by_index-append_row_old :
      (i : ℕ)
      → i < length t.ids
      → get_row_by_index i (append_row values id t) ≡ get_row_by_index i t
  unfolding get_row_by_index append_row
  get_row_by_index-append_row_old i h = rw (
    slice-append_left t.cells (intern_row values t.string_pool).0 (i * t.num_columns) t.num_columns
        (row_span i (length t.ids) t.num_columns (length t.cells) h laid.cells_len),
    get_elem?-append_left t.ids (id ∷ []) i h,
    get_elem?-append_left t.versions (1 ∷ []) i (omega (arith, laid.versions_len)),
  )

  pub get_row_by_index-append_row_new :
      length values ≡ t.num_columns
      → get_row_by_index (length t.ids) (append_row values id t)
        ≡ some (record { id = id; values = (intern_row values t.string_pool).0; version = 1 })
  unfolding get_row_by_index append_row
  get_row_by_index-append_row_new w =
      rw
        (
          slice-append_right t.cells (intern_row values t.string_pool).0
              (length t.ids * t.num_columns) t.num_columns (sym laid.cells_len)
              (omega (arith, length-intern_row values t.string_pool)),
          get_elem?-snoc t.ids id (length t.ids),
          get_elem?-snoc t.versions 1 (length t.ids),
          laid.versions_len,
        )
        (ground arith)

  -- A new row keeps the layout, if its identifier is new.
  pub append_row-IsLaid :
      length values ≡ t.num_columns
      → (t.is_sequential_ids ≡ true → id ≡ RowId.integer (length t.ids))
      → Map.get id t.id_map ≡ none
      → IsLaid (append_row values id t)
  unfolding append_row id_key
  append_row-IsLaid w own fresh = record {
    columns = laid.columns;
    cells_len =
        rw (length-append, length-append)
          (omega (arith, laid.cells_len, w, length-intern_row values t.string_pool));
    versions_len = omega (
      arith,
      laid.versions_len,
      length-append t.versions (1 ∷ []),
      length-append t.ids (id ∷ []),
    );
    positions = laid.positions;
    index_cols = laid.index_cols;
    sequential = λ q. record {
      own = λ i h. ground (
        arith,
        get_elem?-snoc t.ids id i,
        (laid.sequential q).own i,
        length-append t.ids (id ∷ []),
        own q,
      );
      unused = ground (arith, (laid.sequential q).unused);
    };
    mapped = λ q.
        let m = laid.mapped q in
        record {
          is_map = rw q (insert-IsMap id (length t.ids) t.id_map m.is_map);
          sound = λ j i e. ground (
            arith,
            get_elem?-snoc t.ids id i,
            get-insert id j (length t.ids) t.id_map,
            m.sound j i,
            lt_of_get_elem? t.ids i {x = j},
            id_beq_sound id j,
          );
          complete = λ j i e. ground (
            arith,
            get_elem?-snoc t.ids id i,
            get-insert id j (length t.ids) t.id_map,
            m.complete j i,
            id_beq_sound id j,
            id_beq_refl id,
          );
        };
  }
