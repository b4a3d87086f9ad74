-- ===== src/Database/Join/HashJoin.antt =====
-- database.rs: `hash_join` through its multimap, as a whole.
use dbobj.Base.{
  ℕ, zero, suc, ◌+◌, ◌*◌, ◌%◌, ◌≤◌, ◌≡◌, refl, sym, ap, ◌∙◌, arith, Bool, Bool-cases, true, false,
  ◌&&◌, ◌||◌, Option, Option-cases, none, some, inl, inr, List, [], ◌∷◌, Text, text_beq, codes,
  ◌==◌, if◌then◌else◌, length,
}
use dbobj.Core.Float.{Float}
use dbobj.Core.Hash.{Written, hash_by}
use dbobj.Core.Value.{Value, is_null, value_beq}
use dbobj.Database.Join.{
  Multimap, empty_multimap, bloom_bits, bucket_of, build_phase, column_values, next_power_of_two,
  probe_value, probe_row, probe_phase, join_rows,
}
use dbobj.Database.Join.Nested.{
  Stands, cons_when, sits, in_bucket, entered, build_phase-Stands, empty-Stands,
}
use dbobj.Database.Join.Probe.{
  meets, pair_with, pairs_of, AreRead, walk-over, chain-pair_with, unset-pair_with,
}
use dbobj.Table.{Row, Table}
use dbobj.Table.Find.{append_parts}
use dbobj.Table.Read.{Column, get_value_by_index}
use dbobj.Table.Spread.{each_index, spread-eq-each_index}

pub each_index-cong :
    {A : Type 0} (f g : ℕ → Option (List A))
    → ((i : ℕ) → f i ≡ g i)
    → (n start : ℕ) → each_index f n start ≡ each_index g n start
unfolding each_index
each_index-cong f g h zero start = refl
each_index-cong f g h (suc n) start =
    ap (λ o. append_parts o (each_index f n (suc start))) (h start)
    ∙ ap (append_parts (g start)) (each_index-cong f g h n (suc start))

length-cons_when : (b : Bool) (i : ℕ) (l : List ℕ) → length (cons_when b i l) ≤ suc (length l)
length-cons_when true i l = omega arith
length-cons_when false i l = omega arith

module _ {F : Type 0} (hash_one : Value F → ℕ) (buckets : ℕ) where
  length-in_bucket :
      (b : ℕ) (entries : List (ℕ × Value F))
      → length (in_bucket hash_one buckets b entries) ≤ length entries
  length-in_bucket b [] = omega arith
  length-in_bucket b ((i, v) ∷ entries) = omega (
    arith,
    length-in_bucket b entries,
    length-cons_when (sits hash_one buckets b v) i (in_bucket hash_one buckets b entries),
  )

module _ {F : Type 0} where
  length-entered :
      (n : ℕ) (vs : List (Value F)) (entries : List (ℕ × Value F))
      → length (entered n vs entries) ≡ length vs + length entries
  length-entered n [] entries = omega arith
  length-entered n (v ∷ vs) entries = omega (arith, length-entered (suc n) vs ((n, v) ∷ entries))

module _ {F P : Type 0} where
  column_values-suc :
      (n i : ℕ) (vs : List (Value F)) (column : Column) (t : Table F P)
      → column_values (suc n) i column t ≡ some vs
      → (v : Value F) × (vs' : List (Value F)) × (vs ≡ v ∷ vs')
        × (get_value_by_index i column t ≡ some v)
        × (column_values n (suc i) column t ≡ some vs')
  unfolding column_values
  column_values-suc n i vs column t h = elim (Option-cases (get_value_by_index i column t)) [
    | inl e ↦ absurd (ground (arith, h, e))
    | inr (v, e) ↦ elim (Option-cases (column_values n (suc i) column t)) [
      | inl d ↦ absurd (ground (arith, h, e, d))
      | inr (vs', d) ↦ (v, vs', ground (arith, h, e, d), e, d)
    ]
  ]

module _ {F P : Type 0} ⦃fl : Float F⦄ (build probe : Table F P) (bc pc : Column)
    (reversed : Bool) where
  -- The join by a loop over both tables: for each row of the probe table, in order, the rows of the
  -- build table from the last to the first, whose value is the same.
  unfoldable pub nested_join : (Value F → Value F → Bool) → Option (List (Row F × Row F))
  nested_join same = elim (column_values (length build.ids) 0 bc build) [
    | none ↦ none
    | some vs ↦
        each_index (pairs_of build probe bc pc reversed same (entered 0 vs [])) (length probe.ids) 0
  ]

module _ {F P : Type 0} ⦃fl : Float F⦄ (build probe : Table F P) (bc pc : Column)
    (reversed : Bool) where
  pub AreRead-entered :
      (n i : ℕ) (vs : List (Value F)) (entries : List (ℕ × Value F))
      → column_values n i bc build ≡ some vs
      → AreRead build probe bc pc reversed entries
      → AreRead build probe bc pc reversed (entered i vs entries) × (length vs ≡ n)
  unfolding column_values
  AreRead-entered zero i [] entries e r = (r, refl)
  AreRead-entered zero i (v ∷ vs) entries e r = cc
  AreRead-entered (suc n) i [] entries e r =
      let (v, vs', q, g, d) = column_values-suc n i [] bc build e in cc
  AreRead-entered (suc n) i (w ∷ vs) entries e r =
      let (v, vs', q, g, d) = column_values-suc n i (w ∷ vs) bc build e in
      let rest = AreRead-entered n (suc i) vs ((i, w) ∷ entries) (d ∙ cc) (g ∙ cc, r) in
      (rest.0, ap suc rest.1)

module _ {F P : Type 0} ⦃fl : Float F⦄ (build probe : Table F P) (bc pc : Column) (reversed : Bool)
    (hash_one : Value F → ℕ) (buckets : ℕ) where
  abbrev both : Value F → Value F → Bool
  both = meets build probe bc pc reversed hash_one buckets

  probe_value-pair_with :
      (mm : Multimap) (n i : ℕ) (entries : List (ℕ × Value F)) (val : Value F)
      → Stands hash_one buckets mm n entries
      → AreRead build probe bc pc reversed entries
      → length entries ≤ length build.ids
      → get_value_by_index i pc probe ≡ some val
      → probe_value build probe bc pc reversed hash_one buckets mm i val
        ≡ (if is_null val then some [] else pair_with build probe bc pc reversed both i val entries)
  unfolding probe_value
  probe_value-pair_with mm n i entries val s r l d = elim (Bool-cases (is_null val)) [
    | inl e ↦ rw e refl
    | inr e ↦ rw e (elim (Bool-cases (mm.bloom_filter (hash_one val % bloom_bits))) [
      | inl b ↦
          let h = bucket_of hash_one buckets (hash_one val) in
          rw b (
            walk-over build probe bc pc reversed hash_one buckets mm i val (hash_one val)
              (length build.ids) (mm.heads h) (in_bucket hash_one buckets h entries) (s.linked h)
              (omega (arith, length-in_bucket hash_one buckets h entries))
            ∙ chain-pair_with build probe bc pc reversed hash_one buckets mm i val d n entries
                s.kept r)
      | inr b ↦ rw b (
          sym (
            unset-pair_with build probe bc pc reversed hash_one buckets mm i val d n entries b
              s.kept))
    ])
  ]

  probe_row-pairs_of :
      (mm : Multimap) (n i : ℕ) (entries : List (ℕ × Value F))
      → Stands hash_one buckets mm n entries
      → AreRead build probe bc pc reversed entries
      → length entries ≤ length build.ids
      → probe_row build probe bc pc reversed hash_one buckets mm i
        ≡ pairs_of build probe bc pc reversed both entries i
  unfolding probe_row
  probe_row-pairs_of mm n i entries s r l = elim (Option-cases (get_value_by_index i pc probe)) [
    | inl e ↦ ground (arith, e)
    | inr (val, e) ↦ ground (arith, e, probe_value-pair_with mm n i entries val s r l e)
  ]

  probe_phase-nested_join :
      (num_threads : ℕ)
      → probe_phase build probe bc pc reversed hash_one buckets num_threads
          (column_values (length build.ids) 0 bc build)
        ≡ nested_join build probe bc pc reversed both
  unfolding probe_phase nested_join
  probe_phase-nested_join num_threads =
      elim (Option-cases (column_values (length build.ids) 0 bc build)) [
        | inl e ↦ ground (arith, e)
        | inr (vs, e) ↦
            let mm = build_phase hash_one buckets empty_multimap 0 vs in
            let stands =
              build_phase-Stands hash_one buckets empty_multimap 0 vs []
                (empty-Stands hash_one buckets) in
            let read = AreRead-entered build probe bc pc reversed (length build.ids) 0 vs [] e tt in
            let rows =
              each_index-cong (probe_row build probe bc pc reversed hash_one buckets mm)
                (pairs_of build probe bc pc reversed both (entered 0 vs []))
                (λ i.
                  probe_row-pairs_of mm (0 + length vs) i (entered 0 vs []) stands read.0
                    (omega (arith, length-entered 0 vs [], read.1)))
                (length probe.ids) 0 in
            let whole =
              spread-eq-each_index num_threads
                (probe_row build probe bc pc reversed hash_one buckets mm) (length probe.ids) in
            ground (arith, e, rows, whole)
      ]

module _ {F P : Type 0} ⦃fl : Float F⦄ (num_threads : ℕ) (hasher : List Written → ℕ)
    (bcol pcol : Text) (build probe : Table F P) (reversed : Bool) (bc pc : Column)
    (some_rows : (length build.ids == 0 || length probe.ids == 0) ≡ false)
    (build_by_value : (text_beq bcol (codes "id") && build.is_sequential_ids) ≡ false)
    (probe_by_value : (text_beq pcol (codes "id") && probe.is_sequential_ids) ≡ false) where
  -- When both tables have a row and neither column is the virtual column of a table with sequential
  -- identifiers, the rows that `hash_join` finds through its hash multimap and its Bloom filter,
  -- for every number of threads and every hasher, are those of a loop over both tables: for each
  -- row of the probe table, in order, the rows of the build table, from the last to the first,
  -- whose value is not null, equals that of the probe row, which is not null either, and has the
  -- same hash. It panics exactly where that loop does.
  pub join_rows-nested_join :
      join_rows num_threads hasher bcol pcol build probe reversed bc pc
      ≡ nested_join build probe bc pc reversed
          (λ v w. value_beq v w && hash_by hasher v == hash_by hasher w)
  unfolding join_rows
  join_rows-nested_join = rw some_rows (
      rw build_by_value (
        rw probe_by_value (
          probe_phase-nested_join build probe bc pc reversed (hash_by hasher)
            (next_power_of_two (length build.ids * 2)) num_threads)))
