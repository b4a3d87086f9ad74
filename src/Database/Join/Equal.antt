-- ===== src/Database/Join/Equal.antt =====
-- database.rs: `hash_join` by equality alone, where equal values have one hash.
use dbobj.Base.{
  ℕ, ◌≡◌, refl, ap, ◌∙◌, arith, Bool, Bool-cases, true, false, ◌&&◌, ◌||◌, Option-cases, some, inl,
  inr, List, [], ◌∷◌, Text, text_beq, codes, ◌==◌, ==_iff, length,
}
use dbobj.Core.Float.{Float}
use dbobj.Core.Hash.{Written, hash_by, hash-same_value}
use dbobj.Core.Value.{Value, value_beq, same_value}
use dbobj.Database.Join.{column_values, join_rows}
use dbobj.Database.Join.HashJoin.{
  nested_join, each_index-cong, AreRead-entered, join_rows-nested_join,
}
use dbobj.Database.Join.Nested.{entered}
use dbobj.Database.Join.Probe.{pair_here, pair_with, pairs_of, AreRead}
use dbobj.Table.{Table}
use dbobj.Table.Find.{append_parts}
use dbobj.Table.Read.{Column, get_value_by_index}

module _ {F P : Type 0} ⦃fl : Float F⦄ (build probe : Table F P) (bc pc : Column) (reversed : Bool)
    (p q : Value F → Value F → Bool) where
  pair_with-cong :
      (i : ℕ) (val : Value F) (entries : List (ℕ × Value F))
      → ((idx : ℕ) (v : Value F) → get_value_by_index idx bc build ≡ some v → p v val ≡ q v val)
      → AreRead build probe bc pc reversed entries
      → pair_with build probe bc pc reversed p i val entries
        ≡ pair_with build probe bc pc reversed q i val entries
  pair_with-cong i val [] h r = refl
  pair_with-cong i val ((idx, v) ∷ entries) h r = rw (h idx v r.0) (
      ap (append_parts (pair_here build probe bc pc reversed q i val idx v))
        (pair_with-cong i val entries h r.1))

  -- Two tests that agree on the values of the columns make one join.
  nested_join-cong :
      ((idx i : ℕ) (v w : Value F)
        → get_value_by_index idx bc build ≡ some v
        → get_value_by_index i pc probe ≡ some w
        → p v w ≡ q v w)
      → nested_join build probe bc pc reversed p ≡ nested_join build probe bc pc reversed q
  unfolding nested_join
  nested_join-cong h = elim (Option-cases (column_values (length build.ids) 0 bc build)) [
    | inl e ↦ ground (arith, e)
    | inr (vs, e) ↦
        let all =
          each_index-cong (pairs_of build probe bc pc reversed p (entered 0 vs []))
            (pairs_of build probe bc pc reversed q (entered 0 vs []))
            (rows vs (AreRead-entered build probe bc pc reversed (length build.ids) 0 vs [] e tt).0)
            (length probe.ids) 0 in
        ground (arith, e, all)
  ]
    where
      rows :
          (vs : List (Value F))
          → AreRead build probe bc pc reversed (entered 0 vs [])
          → (i : ℕ)
          → pairs_of build probe bc pc reversed p (entered 0 vs []) i
            ≡ pairs_of build probe bc pc reversed q (entered 0 vs []) i
      rows vs r i = elim (Option-cases (get_value_by_index i pc probe)) [
        | inl e ↦ ground (arith, e)
        | inr (val, e) ↦
            ground
              (arith, e, pair_with-cong i val (entered 0 vs []) (λ idx v d. h idx i v val d e) r)
      ]

module _ {F : Type 0} ⦃fl : Float F⦄ (hasher : List Written → ℕ) where
  -- the hashes decide nothing between two values that are one key if they are equal
  equal-hash_by :
      (v w : Value F)
      → (value_beq v w ≡ true → same_value v w ≡ true)
      → (value_beq v w && hash_by hasher v == hash_by hasher w) ≡ value_beq v w
  unfolding hash_by
  equal-hash_by v w h = elim (Bool-cases (value_beq v w)) [
    | inr u ↦ rw u refl
    | inl u ↦ rw u ((==_iff _ _).1 (ap hasher (hash-same_value v w (h u))))
  ]

module _ {F P : Type 0} ⦃fl : Float F⦄ (num_threads : ℕ) (hasher : List Written → ℕ)
    (bcol pcol : Text) (build probe : Table F P) (reversed : Bool) (bc pc : Column)
    (some_rows : (length build.ids == 0 || length probe.ids == 0) ≡ false)
    (build_by_value : (text_beq bcol (codes "id") && build.is_sequential_ids) ≡ false)
    (probe_by_value : (text_beq pcol (codes "id") && probe.is_sequential_ids) ≡ false) where
  -- When both tables have a row, neither column is the virtual column of a table with sequential
  -- identifiers, and equal values of the two columns are also one key of a hash map, which for
  -- floats means that their bits are equal, the rows that `hash_join` finds, for every number of
  -- threads and every hasher, are those of a loop over both tables that compares the values alone
  -- and leaves out null.
  pub join_rows-value_beq :
      ((idx i : ℕ) (v w : Value F)
        → get_value_by_index idx bc build ≡ some v
        → get_value_by_index i pc probe ≡ some w
        → value_beq v w ≡ true
        → same_value v w ≡ true)
      → join_rows num_threads hasher bcol pcol build probe reversed bc pc
        ≡ nested_join build probe bc pc reversed value_beq
  join_rows-value_beq one_key =
      join_rows-nested_join num_threads hasher bcol pcol build probe reversed bc pc some_rows
        build_by_value probe_by_value
      ∙ nested_join-cong build probe bc pc reversed
          (λ v w. value_beq v w && hash_by hasher v == hash_by hasher w) value_beq
          (λ idx i v w d e. equal-hash_by hasher v w (one_key idx i v w d e))
