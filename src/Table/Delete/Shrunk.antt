-- ===== src/Table/Delete/Shrunk.antt =====
-- table.rs: the vectors after `remove_row` and `truncate`.
use native.Mathlib.Decide.{dec_lt}
use dbobj.Base.{
  ℕ, zero, suc, ◌+◌, ◌-◌, ◌*◌, ◌<◌, ◌≤◌, ◌≡◌, ◌≢◌, ◌∙◌, ap, refl, some, List, length, get_elem?,
  get_elem?-lt, get_elem?-take, length-take, take, arith, ltb, leb, ◌==◌, if◌then◌else◌, ◌&&◌,
}
use dbobj.Core.Id.{RowId, id_key}
use dbobj.Core.Value.{Value}
use dbobj.Map
use dbobj.Map.{HashMap}
use dbobj.Table.{Table}
use dbobj.Table.Delete.{pop, last?, swap_remove, fill_gap, remove_row, truncate}
use dbobj.Table.Delete.Lists.{
  length-pop, get_elem?-pop, length-swap_remove, get_elem?-swap_remove, copy_cells-ok,
}
use dbobj.Table.Delete.Moved.{moved}
use dbobj.Table.Read.Index.{row_span}
use dbobj.Table.Update.Cells.{row_apart}

pub record Shrunk {F P : Type 0} (t : Table F P) (idx : ℕ) (ids : List RowId) (versions : List ℕ)
    (cells : List (Value F)) (id_map : HashMap RowId ℕ) : Type 0 where
  pub shorter : suc (length ids) ≡ length t.ids
  pub versions_len : length versions ≡ length ids
  pub cells_len : length cells ≡ length ids * t.num_columns
  pub ids_at :
      (i : ℕ) → i < length ids → get_elem? ids i ≡ get_elem? t.ids (moved idx (length ids) i)
  pub versions_at :
      (i : ℕ)
      → i < length ids
      → get_elem? versions i ≡ get_elem? t.versions (moved idx (length ids) i)
  pub cells_at :
      (i k : ℕ)
      → i < length ids
      → k < t.num_columns
      → get_elem? cells (i * t.num_columns + k)
        ≡ get_elem? t.cells (moved idx (length ids) i * t.num_columns + k)
  pub last_id : RowId
  pub last : get_elem? t.ids (length ids) ≡ some last_id
  pub id_map_eq : id_map ≡ (if idx == length ids then t.id_map else Map.insert last_id idx t.id_map)

take_rows : (a b w c l : ℕ) → suc a ≡ b → c ≡ b * w → l ≡ c → a * w ≤ l
take_rows a b w c l e f g = grind arith

in_rows : (i k a w : ℕ) → i < a → k < w → i * w + k < a * w
in_rows i k a w h q = grind arith

-- the item at a position behind the removal
swap_remove-moved :
    {A : Type 0} (idx : ℕ) (xs : List A) (last i : ℕ)
    → idx < length xs
    → suc last ≡ length xs
    → i < last
    → get_elem? (swap_remove idx xs) i ≡ get_elem? xs (moved idx last i)
unfolding last?
swap_remove-moved idx xs last i inside e h =
    ground (arith, get_elem?-swap_remove idx xs i inside, last_position)
  where
    last_position : get_elem? xs (length xs - 1) ≡ get_elem? xs last
    last_position = ap (get_elem? xs) (omega (arith, e))

module _ {F : Type 0} (cells cells' : List (Value F)) (idx last w : ℕ) (before : idx < last)
    (at : (k : ℕ)
      → get_elem? cells' k ≡ (
          if leb (idx * w) k && ltb k (idx * w + w)
          then get_elem? cells (last * w + (k - idx * w))
          else get_elem? cells k)) where
  copied-moved :
      (i k : ℕ)
      → i < last
      → k < w
      → get_elem? cells' (i * w + k) ≡ get_elem? cells (moved idx last i * w + k)
  copied-moved i k h q = ground (
    arith,
    at (i * w + k),
    λ (n : i ≢ idx). row_apart i idx w k n q,
    cancel,
    λ (e : i ≡ idx). ap (λ z. z * w) e,
  )
    where
      cancel :
          i ≡ idx
          → get_elem? cells (last * w + (i * w + k - idx * w)) ≡ get_elem? cells (last * w + k)
      cancel e =
          ap (λ z. get_elem? cells (last * w + (z * w + k - idx * w))) e
          ∙ ap (get_elem? cells) (omega arith)

module _ {F P : Type 0} (t : Table F P) (cells_len : length t.cells ≡ length t.ids * t.num_columns)
    (versions_len : length t.versions ≡ length t.ids) (idx : ℕ) (inside : idx < length t.ids) where
  -- the last row itself is removed
  popped-Shrunk :
      suc idx ≡ length t.ids
      → Shrunk t idx
          (pop t.ids)
          (pop t.versions)
          (take (length (pop t.ids) * t.num_columns) t.cells)
          t.id_map
  popped-Shrunk e =
      let (last_id, q) =
        get_elem?-lt t.ids (length (pop t.ids)) (omega (arith, length-pop t.ids)) in
      let n = length-pop t.ids in
      record {
        shorter = omega (arith, n);
        versions_len = omega (arith, n, length-pop t.versions);
        cells_len = ground (
          arith,
          length-take (length (pop t.ids) * t.num_columns) t.cells,
          take_rows (length (pop t.ids)) (length t.ids) t.num_columns (length t.cells)
              (length t.cells) (omega (arith, n)) cells_len refl,
        );
        ids_at = λ i h. ground (arith, get_elem?-pop t.ids i, n);
        versions_at = λ i h. ground (arith, get_elem?-pop t.versions i, n);
        cells_at = λ i k h q. ground (
          arith,
          get_elem?-take (length (pop t.ids) * t.num_columns) t.cells (i * t.num_columns + k),
          n,
          in_rows i k (length (pop t.ids)) t.num_columns h q,
        );
        last_id = last_id;
        last = q;
        id_map_eq = ground (arith, n);
      }

  -- the last row takes the place of an earlier one
  filled-Shrunk :
      suc idx < length t.ids
      → (cells : List (Value F)) → length cells ≡ length t.cells
      → ((k : ℕ)
          → get_elem? cells k ≡ (
              if leb (idx * t.num_columns) k && ltb k (idx * t.num_columns + t.num_columns)
              then get_elem? t.cells
                  ((length t.ids - 1) * t.num_columns + (k - idx * t.num_columns))
              else get_elem? t.cells k))
      → (last_id : RowId) → last? t.ids ≡ some last_id
      → Shrunk t idx
          (swap_remove idx t.ids)
          (swap_remove idx t.versions)
          (take (length (swap_remove idx t.ids) * t.num_columns) cells)
          (Map.insert last_id idx t.id_map)
  filled-Shrunk e cells len at last_id q =
      let n = length-swap_remove idx t.ids inside in
      let w = t.num_columns in
      record {
        shorter = omega (arith, n);
        versions_len = omega (arith, n, length-swap_remove idx t.versions (omega arith));
        cells_len = ground (
          arith,
          length-take (length (swap_remove idx t.ids) * w) cells,
          take_rows (length (swap_remove idx t.ids)) (length t.ids) w (length t.cells)
              (length cells) (omega (arith, n)) cells_len len,
        );
        ids_at = λ i h. swap_remove-moved idx t.ids _ i inside (omega (arith, n)) h;
        versions_at =
            λ i h. swap_remove-moved idx t.versions _ i (omega arith) (omega (arith, n)) h;
        cells_at = λ i k h q'.
            get_elem?-take (length (swap_remove idx t.ids) * w) cells (i * w + k)
            ∙ ground (
              arith,
              in_rows i k _ w h q',
              copied-moved t.cells cells idx (length (swap_remove idx t.ids)) w (omega (arith, n))
                  (λ k'. at k' ∙ rw n refl) i k h q',
            );
        last_id = last_id;
        last = ap (get_elem? t.ids) n ∙ unfold last? in q;
        id_map_eq = ground (arith, n);
      }

  abbrev pub shrunk : List RowId → List ℕ → List (Value F) → HashMap RowId ℕ → Table F P
  shrunk ids versions cells id_map = record t {
    cells = cells;
    ids = ids;
    versions = versions;
    id_map = id_map;
  }

  -- A row in range is removed.
  pub remove_row-Shrunk :
      (t' : Table F P) × (ids : List RowId) × (versions : List ℕ) × (cells : List (Value F))
      × (id_map : HashMap RowId ℕ) × (remove_row idx t ≡ some t')
      × (truncate t' ≡ shrunk ids versions cells id_map)
      × Shrunk t idx ids versions cells id_map
  unfolding remove_row truncate fill_gap
  remove_row-Shrunk = elim (dec_lt (suc idx) (length t.ids)) [
    | no h ↦ (_, _, _, _, _, ground arith, refl, popped-Shrunk (omega arith))
    | yes h ↦
        let (last_id, q) = get_elem?-lt t.ids (length t.ids - 1) (omega arith) in
        let q' : last? t.ids ≡ some last_id = unfold last? in q in
        let w = t.num_columns in
        let (cells, c, len, at) =
          copy_cells-ok w (idx * w) ((length t.ids - 1) * w) t.cells (before idx (length t.ids) w h)
            (fits (length t.ids) w (length t.cells) inside cells_len) in
        (_, _, _, _, _, ground (arith, q', c), refl, filled-Shrunk h cells len at last_id q')
  ]
    where
      before : (i n w : ℕ) → suc i < n → i * w + w ≤ (n - 1) * w
      before i n w h = row_span i (n - 1) w ((n - 1) * w) (omega arith) refl

      fits : (n w l : ℕ) → idx < n → l ≡ n * w → (n - 1) * w + w ≤ l
      fits zero w l h e = absurd (omega arith)
      fits (suc n) w l h e = grind arith
