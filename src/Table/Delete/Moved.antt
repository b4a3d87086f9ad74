-- ===== src/Table/Delete/Moved.antt =====
-- A table whose last row fills the gap of a removed one, against the table before it.
use mathlib.Core.Option
use dbobj.Base.{
  ℕ, suc, ◌<◌, ◌≡◌, ◌∙◌, sym, inl, inr, none, some, Option-cases, false, length, get_elem?,
  lt_of_get_elem?, arith, ◌==◌, if◌then◌else◌,
}
use dbobj.Core.Id.{RowId, id_beq, id_beq_refl, id_beq_sound, id_key}
use dbobj.Map
use dbobj.Map.{HashMap, IsMap}
use dbobj.Table.{Table}
use dbobj.Table.Read.{get_row_by_index}
use dbobj.Table.Valid.{IsLaid, IsMapped}

-- the row of the longer table that stands at position `i` of the shorter one
abbrev pub moved : ℕ → ℕ → ℕ → ℕ
moved idx last i = if i == idx then last else i

pub record IsMoved {F P : Type 0} (t : Table F P) (id : RowId) (idx : ℕ) (t' : Table F P)
    : Type 0 where
  pub shorter : suc (length t'.ids) ≡ length t.ids
  pub ids_at :
      (i : ℕ)
      → i < length t'.ids
      → get_elem? t'.ids i ≡ get_elem? t.ids (moved idx (length t'.ids) i)
  pub rows_at :
      (i : ℕ)
      → i < length t'.ids
      → get_row_by_index i t' ≡ get_row_by_index (moved idx (length t'.ids) i) t
  pub off : t'.is_sequential_ids ≡ false
  pub is_map : IsMap t'.id_map
  -- the entries: the removed one is gone, and that of the last row leads to the gap
  pub entries :
      (j : RowId)
      → Map.get j t'.id_map ≡ (
          if id_beq id j
          then none
          else Option.map (λ q. if q == length t'.ids then idx else q) (Map.get j t.id_map))

module _ {F P : Type 0} (t : Table F P) (laid : IsLaid t) (off : t.is_sequential_ids ≡ false)
    (id : RowId) (idx : ℕ) (found : get_elem? t.ids idx ≡ some id) (t' : Table F P)
    (m : IsMoved t id idx t') where
  moved_sound : (j : RowId) (i : ℕ) → Map.get j t'.id_map ≡ some i → get_elem? t'.ids i ≡ some j
  moved_sound j i e =
      let q = m.entries j in
      let s = (laid.mapped off).sound j in
      let n = m.shorter in
      elim (Option-cases (Map.get j t.id_map)) [
        | inl none' ↦ ground (arith, e, q, none')
        | inr (k, some') ↦ ground (
          arith,
          e,
          q,
          some',
          s k some',
          n,
          id_beq_sound id j,
          id_beq_refl id,
          found,
          m.ids_at i,
          lt_of_get_elem? t.ids k (s k some'),
          lt_of_get_elem? t.ids idx found,
          (laid.mapped off).complete id idx found,
        )
      ]

  moved_complete : (j : RowId) (i : ℕ) → get_elem? t'.ids i ≡ some j → Map.get j t'.id_map ≡ some i
  moved_complete j i e =
      let inside = lt_of_get_elem? t'.ids i e in
      let q = m.entries j in
      let c =
        (laid.mapped off).complete j (moved idx (length t'.ids) i) (sym (m.ids_at i inside) ∙ e) in
      let d = (laid.mapped off).complete id idx found in
      ground (arith, m.shorter, inside, q, c, d, id_beq_sound id j, lt_of_get_elem? t.ids idx found)

  pub moved-IsMapped : IsMapped t'
  moved-IsMapped = record { is_map = m.is_map; sound = moved_sound; complete = moved_complete }
