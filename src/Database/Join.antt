-- ===== src/Database/Join.antt =====
-- database.rs: `join` and `hash_join`. An array that the code indexes inside its bounds is a function;
-- a row number in `heads` and `nexts` is an `Option`, with `none` for -1, so it is that of a table
-- with fewer than 2 ^ 31 rows, where `i as i32` keeps its value.
pub mod Nested
pub mod Probe
pub mod HashJoin
pub mod Equal
use mathlib.Core.Option
use dbobj.Base.{
  ℕ, zero, suc, ◌+◌, ◌-◌, ◌*◌, ◌%◌, ◌^◌, Bool, true, false, not, ◌&&◌, ◌||◌, Option, none, some,
  List, [], ◌∷◌, Text, text_beq, codes, Res, ok, err, panic, ltb, leb, ◌==◌, if◌then◌else◌, length,
}
use dbobj.Base.Int.{ℤ, pos, negsuc}
use dbobj.Core.Float.{Float}
use dbobj.Core.Id.{text_key}
use dbobj.Core.Hash.{Written, hash_by}
use dbobj.Core.Value.{Value, integer, is_null, value_beq}
use dbobj.Database.{Database}
use dbobj.Database.Write.{not_found}
use dbobj.Map
use dbobj.Table.{Row, Table, TableError, Violation, schema_violation, column_not_found_in}
use dbobj.Table.Find.{append_parts}
use dbobj.Table.Read.{
  Column, virtual_id, position, get_column_index, get_row_by_index, get_value_by_index,
  get_value_ref,
}
use dbobj.Table.Spread.{each_index, spread}

-- `idx_val as usize`
unfoldable pub as_usize : ℤ → ℕ
as_usize (pos n) = n
as_usize (negsuc n) = 2 ^ 64 - suc n

unfoldable pub power_loop : ℕ → ℕ → ℕ → ℕ
power_loop zero p n = p
power_loop (suc fuel) p n = let rest = power_loop fuel (2 * p) n in if leb n p then p else rest

unfoldable pub next_power_of_two : ℕ → ℕ
unfolding power_loop
next_power_of_two n = power_loop n 1 n

-- The bits of the filter that the code keeps in 1024 words.
abbrev pub bloom_bits : ℕ
bloom_bits = 65536

pub record Multimap : Type 0 where
  pub heads : ℕ → Option ℕ
  pub nexts : ℕ → Option ℕ
  pub build_hashes : ℕ → ℕ
  pub bloom_filter : ℕ → Bool

abbrev pub empty_multimap : Multimap
empty_multimap = record {
  heads = λ b. none;
  nexts = λ i. none;
  build_hashes = λ i. 0;
  bloom_filter = λ b. false;
}

unfoldable pub write_at {ℓ} : {A : Type ℓ} → (ℕ → A) → ℕ → A → ℕ → A
write_at f k v j = if j == k then v else f j

module _ {F : Type 0} (hash_one : Value F → ℕ) (buckets : ℕ) where
  abbrev pub bucket_of : ℕ → ℕ
  bucket_of h = h % buckets

  -- the body of the build phase
  unfoldable pub build_row : Multimap → ℕ → Value F → Multimap
  unfolding write_at is_null
  build_row mm i val =
      let h = hash_one val in
      if is_null val then mm else record {
        heads = write_at mm.heads (bucket_of h) (some i);
        nexts = write_at mm.nexts i (mm.heads (bucket_of h));
        build_hashes = write_at mm.build_hashes i h;
        bloom_filter = write_at mm.bloom_filter (h % bloom_bits) true;
      }

  unfoldable pub build_phase : Multimap → ℕ → List (Value F) → Multimap
  unfolding build_row
  build_phase mm i [] = mm
  build_phase mm i (v ∷ vs) = build_phase (build_row mm i v) (suc i) vs

module _ {F P : Type 0} where
  -- the values that the build phase reads; `none` is a panic
  unfoldable pub column_values : ℕ → ℕ → Column → Table F P → Option (List (Value F))
  column_values zero i column t = some []
  column_values (suc n) i column t = elim (get_value_by_index i column t) [
    | none ↦ none
    | some v ↦ elim (column_values n (suc i) column t) [ none ↦ none | some vs ↦ some (v ∷ vs) ]
  ]

module _ {F P : Type 0} ⦃fl : Float F⦄ (build probe : Table F P) (bc pc : Column)
    (reversed : Bool) where
  abbrev pub Pairs : Type 0
  Pairs = Option (List (Row F × Row F))

  abbrev pub one_pair : Option (Row F) → Option (Row F) → Pairs
  one_pair (some b) (some p) = some ((if reversed then (p, b) else (b, p)) ∷ [])
  one_pair _ _ = none

  unfoldable pub joined : ℕ → ℕ → Pairs
  joined idx i = one_pair (get_row_by_index idx build) (get_row_by_index i probe)

  abbrev pub equal_values : Option (Value F) → Option (Value F) → Option Bool
  equal_values (some v) (some w) = some (value_beq v w)
  equal_values _ _ = none

  -- by reference where both are columns of their tables
  unfoldable pub match_ok : Column → Column → ℕ → ℕ → Value F → Option Bool
  match_ok (position b) (position p) idx i val =
      equal_values (get_value_ref idx b build) (get_value_ref i p probe)
  match_ok b p idx i val = equal_values (get_value_by_index idx b build) (some val)

  abbrev pub when_matched : Option Bool → Pairs → Pairs
  when_matched none pairs = none
  when_matched (some true) pairs = pairs
  when_matched (some false) pairs = some []

  -- The direct join through the virtual identifiers of `inner`, from row `i` of the other table.
  unfoldable pub direct : Option (Value F) → ℕ → (ℕ → Pairs) → Pairs
  unfolding as_usize
  direct none rows pairs = none
  direct (some (integer idx_val)) rows pairs =
      if ltb (as_usize idx_val) rows then pairs (as_usize idx_val) else some []
  direct (some v) rows pairs = some []

  unfoldable pub direct_on_build : Pairs
  unfolding direct joined each_index
  direct_on_build =
      each_index
        (λ i. direct (get_value_by_index i pc probe) (length build.ids) (λ idx. joined idx i))
        (length probe.ids) 0

  unfoldable pub direct_on_probe : Pairs
  unfolding direct joined each_index
  direct_on_probe =
      each_index
        (λ i. direct (get_value_by_index i bc build) (length probe.ids) (λ idx. joined i idx))
        (length build.ids) 0

  -- the rows of a chain, on fuel
  unfoldable pub visit : Multimap → ℕ → Value F → ℕ → ℕ → Pairs
  unfolding match_ok joined
  visit mm i val h idx =
      if mm.build_hashes idx == h
      then when_matched (match_ok bc pc idx i val) (joined idx i)
      else some []

  unfoldable pub walk : Multimap → ℕ → Value F → ℕ → ℕ → Option ℕ → Pairs
  unfolding visit
  walk mm i val h fuel none = some []
  walk mm i val h zero (some idx) = none
  walk mm i val h (suc fuel) (some idx) =
      append_parts (visit mm i val h idx) (walk mm i val h fuel (mm.nexts idx))

  module _ (hash_one : Value F → ℕ) (buckets : ℕ) where
    unfoldable pub probe_value : Multimap → ℕ → Value F → Pairs
    unfolding walk is_null
    probe_value mm i val =
        let h = hash_one val in
        if is_null val
        then some []
        else if mm.bloom_filter (h % bloom_bits)
        then walk mm i val h (length build.ids) (mm.heads (bucket_of hash_one buckets h))
        else some []

    unfoldable pub probe_row : Multimap → ℕ → Pairs
    unfolding probe_value
    probe_row mm i = elim (get_value_by_index i pc probe) [
      | none ↦ none
      | some val ↦ probe_value mm i val
    ]

    unfoldable pub probe_phase : ℕ → Option (List (Value F)) → Pairs
    unfolding probe_row build_phase spread
    probe_phase num_threads none = none
    probe_phase num_threads (some values) =
        spread (probe_row (build_phase hash_one buckets empty_multimap 0 values)) num_threads
          (length probe.ids)

abbrev pub JoinResult : Type 0 → Type 0
JoinResult F = Res TableError (List (Row F × Row F))

abbrev pub of_pairs : {F : Type 0} → Option (List (Row F × Row F)) → JoinResult F
of_pairs none = panic
of_pairs (some pairs) = ok pairs

module _ {F P : Type 0} ⦃fl : Float F⦄ (num_threads : ℕ) (hasher : List Written → ℕ)
    (bcol pcol : Text) (build probe : Table F P) (reversed : Bool) where
  -- behind the lookup of the two columns
  unfoldable pub join_rows : Column → Column → Option (List (Row F × Row F))
  unfolding direct_on_build direct_on_probe probe_phase column_values next_power_of_two hash_by
  join_rows bc pc =
      if length build.ids == 0 || length probe.ids == 0
      then some []
      else if text_beq bcol (codes "id") && build.is_sequential_ids
      then direct_on_build build probe bc pc reversed
      else if text_beq pcol (codes "id") && probe.is_sequential_ids
      then direct_on_probe build probe bc pc reversed
      else probe_phase build probe bc pc reversed (hash_by hasher)
          (next_power_of_two (length build.ids * 2)) num_threads
          (column_values (length build.ids) 0 bc build)

  unfoldable pub join_on : JoinResult F
  unfolding join_rows get_column_index
  join_on = elim (get_column_index bcol build) [
    | none ↦ err (schema_violation (column_not_found_in bcol build.name))
    | some bc ↦ elim (get_column_index pcol probe) [
      | none ↦ err (schema_violation (column_not_found_in pcol probe.name))
      | some pc ↦ of_pairs (join_rows bc pc)
    ]
  ]

-- `join`: every pair of rows that the condition takes
unfoldable pub join_pair :
    {F : Type 0}
    → (Row F → Row F → Bool)
    → Option (Row F)
    → Option (Row F)
    → Option (List (Row F × Row F))
join_pair condition (some r1) (some r2) = some (if condition r1 r2 then (r1, r2) ∷ [] else [])
join_pair condition _ _ = none

module _ {F P W : Type 0} where
  abbrev pub two_tables :
      Text → Text → Database F P W → (Table F P → Table F P → JoinResult F) → JoinResult F
  two_tables table1 table2 db f = elim (Map.get table1 db.tables) [
    | none ↦ err (not_found table1)
    | some t1 ↦ elim (Map.get table2 db.tables) [
      | none ↦ err (not_found table2)
      | some t2 ↦ f t1 t2
    ]
  ]

  -- The smaller table is the one that is built; the pairs keep the order of the arguments.
  unfoldable pub hash_join :
      ⦃fl : Float F⦄
      → ℕ
      → (List Written → ℕ)
      → Text
      → Text
      → Text
      → Text
      → Database F P W
      → JoinResult F
  unfolding join_on Map.get text_key
  hash_join num_threads hasher table1 col1 table2 col2 db = two_tables table1 table2 db (λ t1 t2.
      if leb (length t1.ids) (length t2.ids)
      then join_on num_threads hasher col1 col2 t1 t2 false
      else join_on num_threads hasher col2 col1 t2 t1 true)

  unfoldable pub join : Text → Text → (Row F → Row F → Bool) → Database F P W → JoinResult F
  unfolding join_pair each_index get_row_by_index Map.get text_key
  join table1 table2 condition db = two_tables table1 table2 db (λ t1 t2. of_pairs (
      each_index
        (λ i.
          each_index (λ j. join_pair condition (get_row_by_index i t1) (get_row_by_index j t2))
            (length t2.ids) 0)
        (length t1.ids) 0))
