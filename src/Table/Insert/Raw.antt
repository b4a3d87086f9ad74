-- ===== src/Table/Insert/Raw.antt =====
-- table.rs: the unique indexes of a table after `insert_batch_raw`.
use mathlib.Core.Option
use dbobj.Base.{
  ℕ, ◌≡◌, refl, ◌∙◌, ap, inl, inr, Bool-cases, Option, some, Option-cases, List, [], ◌∷◌, Text, Res,
  ok, err, panic, after, each, arith, pure, length, get_elem?, ◌+◌, ◌*◌, ◌==◌,
}
use dbobj.Core.Float.{Float}
use dbobj.Core.Id.{RowId, text_key}
use dbobj.Core.Pool.{Interner}
use dbobj.Core.Value.{Value}
use dbobj.Map
use dbobj.Map.{HashMap}
use dbobj.Table.{Index, Table, TableError}
use dbobj.Table.Insert.{
  index_row_plain, update_all, set_indexes, each_index, append_row, store_row_plain, fresh_id,
  check_width, insert_raw, insert_batch_raw,
}

-- what the indexes by name answer for unique values
abbrev pub positions_of :
    {F : Type 0} → Text → HashMap Text (Index F) → Option (HashMap (Value F) ℕ)
positions_of n ixs = Option.map (λ ix. ix.unique_map) (Map.get n ixs)

index_row_plain-unique_map :
    {F P : Type 0} ⦃fl : Float F⦄ (i : ℕ) (id : RowId) (t : Table F P) (ix ix' : Index F)
    → index_row_plain i id t ix ≡ some ix'
    → ix'.unique_map ≡ ix.unique_map
unfolding index_row_plain
index_row_plain-unique_map i id t ix ix' e =
    elim (Option-cases (get_elem? t.cells (i * t.num_columns + ix.col_idx))) [
      | inl q ↦ absurd (ground (arith, e, q))
      | inr (v, q) ↦ ground (arith, e, q)
    ]

update_all-positions_of :
    {F : Type 0} (f : Index F → Option (Index F))
    → ((ix ix' : Index F) → f ix ≡ some ix' → ix'.unique_map ≡ ix.unique_map)
    → (ixs ixs' : HashMap Text (Index F)) → update_all f ixs ≡ some ixs'
    → (n : Text) → positions_of n ixs' ≡ positions_of n ixs
unfolding update_all Map.get
update_all-positions_of f keeps [] ixs' e n = ground (arith, e)
update_all-positions_of f keeps ((name, ix) ∷ rest) ixs' e n = elim (Option-cases (f ix)) [
  | inl q ↦ absurd (ground (arith, e, q))
  | inr (ix', q) ↦ elim (Option-cases (update_all f rest)) [
    | inl r ↦ absurd (ground (arith, e, q, r))
    | inr (rest', r) ↦
        ground (arith, e, q, r, keeps ix ix' q, update_all-positions_of f keeps rest rest' r n)
  ]
]

module _ {F P : Type 0} ⦃fl : Float F⦄ ⦃it : Interner P⦄ (n : Text) where
  each_index-positions_of :
      (i : ℕ) (id : RowId) (t : Table F P)
      → positions_of n (each_index (index_row_plain i id) t).0.indexes ≡ positions_of n t.indexes
  unfolding each_index set_indexes
  each_index-positions_of i id t =
      elim (Option-cases (update_all (index_row_plain i id t) t.indexes)) [
        | inl e ↦ ground (arith, e)
        | inr (ixs, e) ↦ ground (
          arith,
          e,
          update_all-positions_of (index_row_plain i id t) (index_row_plain-unique_map i id t)
              t.indexes ixs e n,
        )
      ]

  -- an `after` whose rest keeps the state
  kept :
      {A B : Type 0} (r : Table F P × Res TableError A) (b : A → B)
      → (after r (λ a. pure (b a))).0 ≡ r.0
  kept (t, ok a) b = refl
  kept (t, err e) b = refl
  kept (t, panic) b = refl

  store_row_plain-positions_of :
      (values : List (Value F)) (id : RowId) (t : Table F P)
      → positions_of n (store_row_plain values id t).0.indexes ≡ positions_of n t.indexes
  unfolding store_row_plain append_row
  store_row_plain-positions_of values id t =
      ap (λ u. positions_of n u.indexes)
        (kept (each_index (index_row_plain (length t.ids) id) (append_row values id t)) (λ _. id))
      ∙ each_index-positions_of (length t.ids) id (append_row values id t)

  insert_raw-positions_of :
      (values : List (Value F)) (t : Table F P)
      → positions_of n (insert_raw values t).0.indexes ≡ positions_of n t.indexes
  unfolding insert_raw check_width fresh_id
  insert_raw-positions_of values t = elim (Bool-cases (length values == t.num_columns)) [
    | inl e ↦
        ground (
          arith,
          e,
          store_row_plain-positions_of values (RowId.integer t.next_int_id) (fresh_id t).0,
        )
    | inr e ↦ ground (arith, e)
  ]

  -- two calls, the second of which keeps the positions
  after-positions_of :
      {A B : Type 0} (r : Table F P × Res TableError A)
      (k : A → Table F P → Table F P × Res TableError B)
      → ((a : A) (u : Table F P) → positions_of n (k a u).0.indexes ≡ positions_of n u.indexes)
      → positions_of n (after r k).0.indexes ≡ positions_of n r.0.indexes
  after-positions_of (u, ok a) k h = h a u
  after-positions_of (u, err e) k h = refl
  after-positions_of (u, panic) k h = refl

  -- `insert_batch_raw`, also where it ends in an error or a panic, leaves the field `unique_map` of
  -- the index under every name as it was, whether that index is unique or not.
  pub insert_batch_raw-positions_of :
      (batch : List (List (Value F))) (t : Table F P)
      → positions_of n (insert_batch_raw batch t).0.indexes ≡ positions_of n t.indexes
  unfolding insert_batch_raw each
  insert_batch_raw-positions_of [] t = refl
  insert_batch_raw-positions_of (values ∷ batch) t =
      after-positions_of (insert_raw values t) _ (λ y u.
        ap (λ w. positions_of n w.indexes) (kept (each insert_raw batch u) (λ ys. y ∷ ys))
        ∙ insert_batch_raw-positions_of batch u)
      ∙ insert_raw-positions_of values t
