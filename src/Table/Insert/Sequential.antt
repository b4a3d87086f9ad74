-- ===== src/Table/Insert/Sequential.antt =====
-- table.rs: lookups before and after `leave_sequential` fills `id_map`.
use dbobj.Base.{
  ℕ, zero, suc, ◌+◌, ◌<◌, ◌≡◌, ◌≢◌, ◌∙◌, ap, refl, inl, inr, ◌⊎◌, false, Bool-cases, Option, none,
  some, Option-ext, List, [], ◌∷◌, length, get_elem?, arith, if◌then◌else◌, lt_of_get_elem?,
}
use dbobj.Core.Id.{RowId, id_beq, id_beq_refl, id_beq_sound, id_key}
use dbobj.Map
use dbobj.Map.{HashMap, get-insert, insert-IsMap, IsMap}
use dbobj.Table.{Table}
use dbobj.Table.Insert.{add_ids, leave_sequential}
use dbobj.Table.Read.{get_index, get_row_by_index, lookup_row, get}
use dbobj.Table.Read.Index.{get_index_iff, get-eq-get_index}
use dbobj.Table.Valid.{IsLaid, IsMapped}

add_ids-IsMap : (k : ℕ) (ids : List RowId) (m : HashMap RowId ℕ) → IsMap m → IsMap (add_ids k ids m)
unfolding add_ids
add_ids-IsMap k [] m h = h
add_ids-IsMap k (x ∷ ids) m h = add_ids-IsMap (suc k) ids (Map.insert x k m) (insert-IsMap x k m h)

-- an entry is that of an identifier in the list, or was there
add_ids_sound :
    (k : ℕ) (ids : List RowId) (m : HashMap RowId ℕ) (j : RowId) (n : ℕ)
    → Map.get j (add_ids k ids m) ≡ some n
    → ((i : ℕ) × (n ≡ k + i) × (get_elem? ids i ≡ some j)) ⊎ (Map.get j m ≡ some n)
unfolding add_ids id_key
add_ids_sound k [] m j n e = inr e
add_ids_sound k (x ∷ ids) m j n e = elim (add_ids_sound (suc k) ids (Map.insert x k m) j n e) [
  | inl w ↦ inl (suc w.0, omega (arith, w.1), w.2)
  | inr e' ↦ elim (Bool-cases (id_beq x j)) [
    | inl q ↦ inl (0, ground (arith, get-insert x j k m), ap some (id_beq_sound x j q))
    | inr q ↦ inr (ground (arith, get-insert x j k m))
  ]
]

-- an identifier that is not in the list keeps its entry
add_ids_other :
    (k : ℕ) (ids : List RowId) (m : HashMap RowId ℕ) (j : RowId)
    → ((i : ℕ) → get_elem? ids i ≢ some j)
    → Map.get j (add_ids k ids m) ≡ Map.get j m
unfolding add_ids id_key
add_ids_other k [] m j h = refl
add_ids_other k (x ∷ ids) m j h = ground (
  arith,
  add_ids_other (suc k) ids (Map.insert x k m) j (λ i. h (suc i)),
  get-insert x j k m,
  h 0,
  id_beq_sound x j,
)

add_ids_complete :
    (k : ℕ) (ids : List RowId) (m : HashMap RowId ℕ) (j : RowId) (i : ℕ)
    → ((i : ℕ) → i < length ids → get_elem? ids i ≡ some (RowId.integer (k + i)))
    → get_elem? ids i ≡ some j
    → Map.get j (add_ids k ids m) ≡ some (k + i)
unfolding add_ids id_key
add_ids_complete k [] m j i own e = cc
add_ids_complete k (x ∷ ids) m j zero own e = ground (
  arith,
  add_ids_other (suc k) ids (Map.insert x k m) j
      (λ i q. ground (arith, own (suc i), own 0, lt_of_get_elem? ids i {x = j})),
  get-insert x j k m,
  id_beq_refl j,
)
add_ids_complete k (x ∷ ids) m j (suc i) own e =
    add_ids_complete (suc k) ids (Map.insert x k m) j i
      (λ n h. own (suc n) (omega arith) ∙ ap some (ap RowId.integer (omega arith))) e
    ∙ ap some (omega arith)

module _ {F P : Type 0} (t : Table F P) where
  pub leave_sequential_off : (leave_sequential t).is_sequential_ids ≡ false
  unfolding leave_sequential
  leave_sequential_off = ground arith

  abbrev filled : HashMap RowId ℕ
  filled = if t.is_sequential_ids then add_ids 0 t.ids t.id_map else t.id_map

  -- only the flag and `id_map` change
  pub leave_sequential_lem :
      leave_sequential t ≡ record t { is_sequential_ids = false; id_map = filled }
  unfolding leave_sequential
  leave_sequential_lem = ground arith

  -- the fields that stay
  pub leave_sequential_same :
      ((leave_sequential t).ids ≡ t.ids)
      × ((leave_sequential t).num_columns ≡ t.num_columns)
      × ((leave_sequential t).string_pool ≡ t.string_pool)
      × ((leave_sequential t).indexes ≡ t.indexes)
  unfolding leave_sequential
  leave_sequential_same = ground arith

module _ {F P : Type 0} (t : Table F P) (laid : IsLaid t) where
  leave_sequential-IsMapped : IsMapped (leave_sequential t)
  unfolding leave_sequential
  leave_sequential-IsMapped = elim (Bool-cases t.is_sequential_ids) [
    | inl q ↦
        let s = laid.sequential q in
        rw (q, s.unused)
          (record {
            is_map = add_ids-IsMap 0 t.ids [] tt;
            sound = λ j n e. elim (add_ids_sound 0 t.ids [] j n e) [
              | inl w ↦ ap (get_elem? t.ids) (omega (arith, w.1)) ∙ w.2
              | inr e' ↦ unfold Map.get in cc e'
            ];
            complete = λ j i e.
                add_ids_complete 0 t.ids [] j i
                  (λ i h. s.own i h ∙ ap some (ap RowId.integer (omega arith))) e
                ∙ ap some (omega arith);
          })
    | inr q ↦ simp q (laid.mapped q)
  ]

  pub leave_sequential-IsLaid : IsLaid (leave_sequential t)
  leave_sequential-IsLaid = record {
    columns = unfold leave_sequential in ground (arith, laid.columns);
    cells_len = unfold leave_sequential in ground (arith, laid.cells_len);
    versions_len = unfold leave_sequential in ground (arith, laid.versions_len);
    positions = rw (leave_sequential_lem t) laid.positions;
    index_cols = rw (leave_sequential_lem t) laid.index_cols;
    sequential = λ q. absurd (ground (arith, leave_sequential_off t));
    mapped = λ q. leave_sequential-IsMapped;
  }

  lookup_row-leave_sequential : (o : Option ℕ) → lookup_row o (leave_sequential t) ≡ lookup_row o t
  unfolding lookup_row get_row_by_index
  lookup_row-leave_sequential none = refl
  lookup_row-leave_sequential (some i) = rw (leave_sequential_lem t) refl

  pub get_index-leave_sequential : (j : RowId) → get_index j (leave_sequential t) ≡ get_index j t
  get_index-leave_sequential j = Option-ext _ _ λ i. ground (
    arith,
    get_index_iff (leave_sequential t) leave_sequential-IsLaid j i,
    get_index_iff t laid j i,
    leave_sequential_same t,
  )

  -- Filling `id_map` and leaving the sequential mode changes no lookup by `get` in a table whose
  -- layout is valid.
  pub get-leave_sequential : (j : RowId) → get j (leave_sequential t) ≡ get j t
  get-leave_sequential j =
      rw
        (
          get-eq-get_index (leave_sequential t) leave_sequential-IsLaid j,
          get-eq-get_index t laid j,
          get_index-leave_sequential j,
        )
        (lookup_row-leave_sequential (get_index j t))
