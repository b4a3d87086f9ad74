-- ===== src/Table/Insert/Batch.antt =====
-- table.rs: `insert_batch_values`, row by row.
use dbobj.Base.{
  ℕ, suc, ◌+◌, ◌%◌, ◌^◌, ◌<◌, ◌≡◌, ◌≢◌, ◌∙◌, ap, refl, inl, inr, true, none, some, Option-cases,
  List, [], ◌∷◌, ok, each, length, arith, lt_of_get_elem?,
}
use dbobj.Core.Float.{Float}
use dbobj.Core.Id.{RowId, id_beq_sound, id_key}
use dbobj.Core.Pool.{Interner}
use dbobj.Core.Value.{Value}
use dbobj.Map
use dbobj.Table.{Row, Table}
use dbobj.Table.Flat.{id_range}
use dbobj.Table.Insert.{insert_batch_values}
use dbobj.Table.Insert.Methods.{InsertedNext, insert_row_values-Inserted}
use dbobj.Table.Read.{get, get_index, lookup_row}
use dbobj.Table.Read.Index.{get_index_iff, get-eq-get_index}
use dbobj.Table.Valid.{IsValid}

-- every row has so many values
abbrev pub HaveWidth : {F : Type 0} → ℕ → List (List (Value F)) → Type 0
HaveWidth n [] = Unit
HaveWidth n (row ∷ rows) = (length row ≡ n) × HaveWidth n rows

module _ {F P : Type 0} (t : Table F P) (valid : IsValid t) (seq : t.is_sequential_ids ≡ true) where
  -- the next integer of a sequential table is not an identifier of it
  next_free : (i : ℕ) → get_index (RowId.integer t.next_int_id) t ≢ some i
  next_free i e = ground (
    arith,
    (get_index_iff t valid.laid (RowId.integer t.next_int_id) i).0 e,
    (valid.laid.sequential seq).own i,
    lt_of_get_elem? t.ids i {x = RowId.integer t.next_int_id},
    valid.numbered seq,
  )

  get-next : get (RowId.integer t.next_int_id) t ≡ some none
  get-next = elim (Option-cases (get_index (RowId.integer t.next_int_id) t)) [
    | inl e ↦ rw (get-eq-get_index t valid.laid, e) (unfold lookup_row in refl)
    | inr w ↦ absurd (next_free w.0 w.1)
  ]

-- `t'` is a valid sequential table with all rows of `t` and `k` more
pub record Extends {F P : Type 0} (t : Table F P) (k : ℕ) (t' : Table F P) : Type 0 where
  pub valid : IsValid t'
  pub sequential : t'.is_sequential_ids ≡ true
  pub length_ids : length t'.ids ≡ length t.ids + k
  pub width : t'.num_columns ≡ t.num_columns
  pub keeps : (j : RowId) (row : Row F) → get j t ≡ some (some row) → get j t' ≡ some (some row)

id_range-suc :
    (n m k : ℕ)
    → n < 2 ^ 64
    → m ≡ suc n
    → RowId.integer n ∷ id_range m k ≡ RowId.integer (n % 2 ^ 64) ∷ id_range (suc n) k
id_range-suc n m k h e = ground (arith, e)

module _ {F P : Type 0} ⦃it : Interner P⦄ where
  extend :
      (k : ℕ) (row : List (Value F)) (t t1 t' : Table F P)
      → IsValid t
      → t.is_sequential_ids ≡ true
      → InsertedNext t row t1
      → Extends t1 k t'
      → Extends t (suc k) t'
  extend k row t t1 t' valid seq s x = record {
    valid = x.valid;
    sequential = x.sequential;
    length_ids = omega (arith, x.length_ids, s.inserted.length_ids);
    width = x.width ∙ s.inserted.width;
    keeps = λ j r e. x.keeps j r (
        ground (
          arith,
          s.inserted.reads j,
          get-next t valid seq,
          id_beq_sound (RowId.integer t.next_int_id) j,
        ));
  }

module _ {F P : Type 0} ⦃fl : Float F⦄ ⦃it : Interner P⦄ where
  -- In a valid table with sequential identifiers and room below 2^64 rows, `insert_batch_values` of
  -- rows of the right width returns the consecutive integers from the next one on; the table stays
  -- valid and sequential, has that many rows more, and every row that `get` found is found
  -- unchanged.
  pub insert_batch_values-Extends :
      (rows : List (List (Value F))) (t : Table F P)
      → IsValid t
      → t.is_sequential_ids ≡ true
      → HaveWidth t.num_columns rows
      → length t.ids + length rows < 2 ^ 64
      → (t' : Table F P) × (insert_batch_values rows t
          ≡ (t', ok (id_range t.next_int_id (length rows))))
        × Extends t (length rows) t'
  unfolding insert_batch_values each id_range
  insert_batch_values-Extends [] t valid seq w room = (
    t,
    refl,
    record {
      valid = valid;
      sequential = seq;
      length_ids = omega arith;
      width = refl;
      keeps = λ j row e. e;
    },
  )
  insert_batch_values-Extends (row ∷ rows) t valid seq w room =
      let next : t.next_int_id ≡ length t.ids = valid.numbered seq in
      let (t1, e, s) =
        insert_row_values-Inserted t valid row w.0 (omega (arith, room))
          (unfold Map.get in rw (valid.laid.sequential seq).unused refl) in
      let more : length t1.ids ≡ suc (length t.ids) = s.inserted.length_ids in
      let next1 : t1.next_int_id ≡ suc t.next_int_id = omega (arith, s.next, next, room) in
      let (t', e', x) =
        insert_batch_values-Extends rows t1 s.inserted.valid (s.sequential ∙ seq)
          (rw s.inserted.width w.1) (omega (arith, more, room)) in
      (
        t',
        rw (e, e')
            (ap (λ l. (t', ok l))
              (id_range-suc t.next_int_id t1.next_int_id (length rows) (omega (arith, next, room))
                next1)),
        extend (length rows) row t t1 t' valid seq s x,
      )
