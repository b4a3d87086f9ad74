-- ===== src/Table/Delete/Methods.antt =====
-- `delete` against the table as a map from identifiers to rows.
use mathlib.Core.Option
use mathlib.Core.Path.{subst}
use dbobj.Base.{
  ℕ, suc, ◌*◌, ◌<◌, ◌≡◌, ◌∙◌, sym, ap, refl, inl, inr, Option, none, some, Option-cases, List, ok,
  length, get_elem?, lt_of_get_elem?, arith, false, ◌==◌, if◌then◌else◌, slice-ext,
}
use dbobj.Core.Id.{RowId, id_beq, id_beq_refl, id_beq_sound, id_key}
use dbobj.Core.Value.{Value}
use dbobj.Map
use dbobj.Map.{HashMap, IsMap, get-insert, get-remove, insert-IsMap, remove-IsMap}
use dbobj.Table.{Row, Table}
use dbobj.Table.Delete.{remove_row, truncate, delete_at, delete}
use dbobj.Table.Delete.Moved.{moved, IsMoved, moved-IsMapped}
use dbobj.Table.Delete.Shrunk.{Shrunk, remove_row-Shrunk}
use dbobj.Table.Insert.{leave_sequential}
use dbobj.Table.Insert.Sequential.{
  leave_sequential_off, leave_sequential_same, leave_sequential-IsLaid, get_index-leave_sequential,
  get-leave_sequential,
}
use dbobj.Table.Read.{get, get_index, get_row_by_index, lookup_row}
use dbobj.Table.Read.Index.{get_index_iff, get-eq-get_index, get_index_mapped, row_span}
use dbobj.Table.Valid.{IsLaid, IsValid}

-- `t'` is a valid table that reads as `t` without the row of one identifier
pub record Deleted {F P : Type 0} (t : Table F P) (id : RowId) (t' : Table F P) : Type 0 where
  pub valid : IsValid t'
  pub shorter : suc (length t'.ids) ≡ length t.ids
  pub reads : (j : RowId) → get j t' ≡ (if id_beq id j then some none else get j t)

module _ {F P : Type 0} (t : Table F P) (laid : IsLaid t) (off : t.is_sequential_ids ≡ false)
    (id : RowId) (idx : ℕ) (found : get_elem? t.ids idx ≡ some id) {ids : List RowId}
    {versions : List ℕ} {cells : List (Value F)} {id_map : HashMap RowId ℕ}
    (s : Shrunk (record t { id_map = Map.remove id t.id_map }) idx ids versions cells id_map) where
  abbrev pub t' : Table F P
  t' = record t { cells = cells; ids = ids; versions = versions; id_map = id_map }

  moved_lt : (i : ℕ) → i < length ids → moved idx (length ids) i < length t.ids
  moved_lt i h = ground (arith, s.shorter)

  rows_moved :
      (i : ℕ)
      → i < length ids
      → get_row_by_index i t' ≡ get_row_by_index (moved idx (length ids) i) t
  unfolding get_row_by_index
  rows_moved i h =
      rw
        (
          s.ids_at i h,
          s.versions_at i h,
          slice-ext cells t.cells (i * t.num_columns) (moved idx (length ids) i * t.num_columns)
              t.num_columns (row_span i (length ids) t.num_columns (length cells) h s.cells_len)
              (row_span (moved idx (length ids) i) (length t.ids) t.num_columns (length t.cells)
                (moved_lt i h) laid.cells_len)
              (λ k. s.cells_at i k h),
        )
        refl

  entries_moved :
      (j : RowId)
      → Map.get j id_map ≡ (
          if id_beq id j
          then none
          else Option.map (λ q. if q == length ids then idx else q) (Map.get j t.id_map))
  unfolding id_key
  entries_moved j =
      let m = laid.mapped off in
      elim (Option-cases (Map.get j t.id_map)) [
        | inl e ↦ ground (
          arith,
          s.id_map_eq,
          e,
          m.complete s.last_id (length ids) s.last,
          m.complete id idx found,
          get-remove id j t.id_map m.is_map,
          get-insert s.last_id j idx (Map.remove id t.id_map),
          id_beq_sound s.last_id j,
          id_beq_sound id j,
        )
        | inr (q, e) ↦ ground (
          arith,
          s.id_map_eq,
          e,
          m.complete s.last_id (length ids) s.last,
          m.complete id idx found,
          m.sound j q e,
          s.last,
          get-remove id j t.id_map m.is_map,
          get-insert s.last_id j idx (Map.remove id t.id_map),
          id_beq_sound s.last_id j,
          id_beq_sound id j,
          id_beq_refl j,
        )
      ]

  is_map : IsMap id_map
  is_map =
      let m = laid.mapped off in
      let removed = remove-IsMap id t.id_map m.is_map in
      ground (arith, s.id_map_eq, insert-IsMap s.last_id idx (Map.remove id t.id_map) removed)

  t'-IsMoved : IsMoved t id idx t'
  t'-IsMoved = record {
    shorter = s.shorter;
    ids_at = s.ids_at;
    rows_at = rows_moved;
    off = off;
    is_map = is_map;
    entries = entries_moved;
  }

  t'-IsLaid : IsLaid t'
  t'-IsLaid = record {
    columns = laid.columns;
    cells_len = s.cells_len;
    versions_len = s.versions_len;
    positions = laid.positions;
    index_cols = laid.index_cols;
    sequential = λ q. absurd (cc (q, off));
    mapped = λ q. moved-IsMapped t laid off id idx found t' t'-IsMoved;
  }

  get_index-t' :
      (j : RowId)
      → get_index j t' ≡ (
          if id_beq id j
          then none
          else Option.map (λ q. if q == length ids then idx else q) (get_index j t))
  get_index-t' j =
      get_index_mapped t' t'-IsLaid off j
      ∙ entries_moved j
      ∙ rw (get_index_mapped t laid off j) refl

  -- the row behind a position, before and after
  lookup_moved :
      (j : RowId) (o : Option ℕ)
      → get_index j t ≡ o
      → id_beq id j ≡ false
      → lookup_row (Option.map (λ q. if q == length ids then idx else q) o) t' ≡ lookup_row o t
  unfolding lookup_row
  lookup_moved j none e n = refl
  lookup_moved j (some q) e n =
      let at = (get_index_iff t laid j q).0 e in
      ground (
        arith,
        at,
        found,
        s.shorter,
        lt_of_get_elem? t.ids q at,
        lt_of_get_elem? t.ids idx found,
        rows_moved idx,
        rows_moved q,
        id_beq_refl j,
      )

  lookup_none : lookup_row none t' ≡ some none
  unfolding lookup_row
  lookup_none = refl

  pub removed-Deleted : Deleted t id t'
  removed-Deleted = record {
    valid = record { laid = t'-IsLaid; numbered = λ q. absurd (cc (q, off)) };
    shorter = s.shorter;
    reads = λ j.
        get-eq-get_index t' t'-IsLaid j
        ∙ rw (get_index-t' j, get-eq-get_index t laid j)
            (ground (arith, lookup_moved j (get_index j t) refl, lookup_none));
  }

module _ {F P : Type 0} (u : Table F P) (laid : IsLaid u) (off : u.is_sequential_ids ≡ false)
    (id : RowId) (idx : ℕ) (found : get_elem? u.ids idx ≡ some id) where
  abbrev u2 : Table F P
  u2 = record u { id_map = Map.remove id u.id_map }

  remove_row-Deleted : (t' : Table F P) × (remove_row idx u2 ≡ some t') × Deleted u id (truncate t')
  remove_row-Deleted =
      let (t', ids, versions, cells, id_map, e, p, s) =
        remove_row-Shrunk u2 laid.cells_len laid.versions_len idx
          (lt_of_get_elem? u.ids idx found) in
      (t', e, subst (Deleted u id) (sym p) (removed-Deleted u laid off id idx found s))

module _ {F P : Type 0} (t : Table F P) (valid : IsValid t) (id : RowId) where
  delete_at-Deleted :
      (idx : ℕ) (row : Row F)
      → get_elem? (leave_sequential t).ids idx ≡ some id
      → get_row_by_index idx (leave_sequential t) ≡ some row
      → (t' : Table F P) × (delete_at id idx t ≡ (t', ok (some row)))
        × Deleted (leave_sequential t) id t'
  unfolding delete_at get_row_by_index
  delete_at-Deleted idx row found at =
      let (t', e, d) =
        remove_row-Deleted (leave_sequential t) (leave_sequential-IsLaid t valid.laid)
          (leave_sequential_off t) id idx found in
      (truncate t', ground (arith, at, e), d)

  left-Deleted : (t' : Table F P) → Deleted (leave_sequential t) id t' → Deleted t id t'
  left-Deleted t' d = record {
    valid = d.valid;
    shorter = d.shorter ∙ ap length (leave_sequential_same t).0;
    reads = λ j. d.reads j ∙ rw (get-leave_sequential t valid.laid j) refl;
  }

  delete_found :
      (o : Option ℕ)
      → get_index id t ≡ o
      → delete id t ≡ (elim o [ none ↦ (t, ok none) | some idx ↦ delete_at id idx t ])
  unfolding delete
  delete_found o e = ap (λ o. elim o [ none ↦ (t, ok none) | some idx ↦ delete_at id idx t ]) e

  -- In a valid table, `delete` of an identifier whose row `get` returns gives that row, leaves a
  -- valid table with one row less, and `get` on it answers as before for every other identifier and
  -- finds nothing under the deleted one.
  pub delete-Deleted :
      (row : Row F)
      → get id t ≡ some (some row)
      → (t' : Table F P) × (delete id t ≡ (t', ok (some row))) × Deleted t id t'
  unfolding lookup_row
  delete-Deleted row e = elim (Option-cases (get_index id t)) [
    | inl n ↦ absurd (ground (arith, get-eq-get_index t valid.laid id))
    | inr (idx, q) ↦
        let u = leave_sequential t in
        let laid' = leave_sequential-IsLaid t valid.laid in
        let q' = get_index-leave_sequential t valid.laid id ∙ q in
        let found = (get_index_iff u laid' id idx).0 q' in
        let at : get_row_by_index idx u ≡ some row =
          ground
            (arith, get-eq-get_index u laid' id, get-leave_sequential t valid.laid id, q', e) in
        let (t', r, d) = delete_at-Deleted idx row found at in
        (t', delete_found (some idx) q ∙ r, left-Deleted t' d)
  ]

  -- In a valid table, `delete` of an identifier under which `get` finds no row returns nothing and
  -- changes nothing.
  pub delete_missing : get id t ≡ some none → delete id t ≡ (t, ok none)
  unfolding lookup_row
  delete_missing e = elim (Option-cases (get_index id t)) [
    | inl n ↦ delete_found none n
    | inr (idx, q) ↦ absurd (ground (arith, get-eq-get_index t valid.laid id, q, e))
  ]
