-- ===== src/Database/Join/Probe.antt =====
-- database.rs: the probe phase of `hash_join`, beside a loop over both tables.
use dbobj.Base.{
  ℕ, zero, suc, ◌%◌, ◌≤◌, ◌≡◌, refl, sym, ap, ◌∙◌, arith, Bool, Bool-cases, true, false, not, ◌&&◌,
  Option, none, some, inl, inr, List, [], ◌∷◌, ◌==◌, ==_iff, if◌then◌else◌, length,
}
use dbobj.Core.Float.{Float}
use dbobj.Core.Value.{Value, is_null, value_beq}
use dbobj.Database.Join.{
  Multimap, bloom_bits, bucket_of, joined, match_ok, equal_values, when_matched, visit, walk,
}
use dbobj.Database.Join.Nested.{Linked, Kept, cons_when, sits, sits-null, sits-value, in_bucket}
use dbobj.Table.{Row, Table}
use dbobj.Table.Find.{append_parts}
use dbobj.Table.Read.{Column, position, virtual_id, get_value_by_index, get_value_ref}

either_same : {A : Type 0} (b : Bool) (x : A) → (if b then x else x) ≡ x
either_same true x = refl
either_same false x = refl

clash : {A : Type 0} → true ≡ false → A
clash e = cc

append_parts-nil : {A : Type 0} (xs : Option (List A)) → append_parts (some []) xs ≡ xs
append_parts-nil none = refl
append_parts-nil (some xs) = refl

module _ {F P : Type 0} ⦃fl : Float F⦄ (build probe : Table F P) (bc pc : Column)
    (reversed : Bool) where
  module _ (same : Value F → Value F → Bool) where
    abbrev pub pair_here : ℕ → Value F → ℕ → Value F → Option (List (Row F × Row F))
    pair_here i val idx v =
        if not (is_null v) && same v val then joined build probe bc pc reversed idx i else some []

    -- The rows of the build table, last to first, whose value is the same as `val`; `i` is the
    -- probe row.
    abbrev pub pair_with : ℕ → Value F → List (ℕ × Value F) → Option (List (Row F × Row F))
    pair_with i val [] = some []
    pair_with i val ((idx, v) ∷ entries) =
        append_parts (pair_here i val idx v) (pair_with i val entries)

    abbrev pub pairs_of : List (ℕ × Value F) → ℕ → Option (List (Row F × Row F))
    pairs_of entries i = elim (get_value_by_index i pc probe) [
      | none ↦ none
      | some val ↦ if is_null val then some [] else pair_with i val entries
    ]

  -- the values were read from the rows
  abbrev pub AreRead : List (ℕ × Value F) → Type 0
  AreRead [] = Unit {0}
  AreRead ((idx, v) ∷ entries) = (get_value_by_index idx bc build ≡ some v) × AreRead entries

module _ {F P : Type 0} ⦃fl : Float F⦄ (build probe : Table F P) (bc pc : Column) (reversed : Bool)
    (hash_one : Value F → ℕ) (buckets : ℕ) where
  -- equal values with one hash
  abbrev pub meets : Value F → Value F → Bool
  meets v w = value_beq v w && hash_one v == hash_one w

  abbrev over : (ℕ → Option (List (Row F × Row F))) → List ℕ → Option (List (Row F × Row F))
  over f [] = some []
  over f (x ∷ xs) = append_parts (f x) (over f xs)

  pub walk-over :
      (mm : Multimap) (i : ℕ) (val : Value F) (h fuel : ℕ) (p : Option ℕ) (l : List ℕ)
      → Linked mm.nexts p l
      → length l ≤ fuel
      → walk build probe bc pc reversed mm i val h fuel p
        ≡ over (visit build probe bc pc reversed mm i val h) l
  unfolding walk
  walk-over mm i val h fuel p [] k g = rw k refl
  walk-over mm i val h zero p (x ∷ l) k g = absurd (omega arith)
  walk-over mm i val h (suc fuel) p (x ∷ l) k g = rw k.0 (
      ap (append_parts (visit build probe bc pc reversed mm i val h x))
        (walk-over mm i val h fuel (mm.nexts x) l k.1 (omega arith)))

  match-read :
      (b p : Column) (idx i : ℕ) (v val : Value F)
      → get_value_by_index idx b build ≡ some v
      → get_value_by_index i p probe ≡ some val
      → match_ok build probe bc pc reversed b p idx i val ≡ some (value_beq v val)
  unfolding match_ok get_value_by_index get_value_ref
  match-read (position x) (position y) idx i v val e d =
      ap (λ o. equal_values build probe bc pc reversed o (get_value_ref i y probe)) e
      ∙ ap (equal_values build probe bc pc reversed (some v)) d
  match-read (position x) virtual_id idx i v val e d =
      ap (λ o. equal_values build probe bc pc reversed o (some val)) e
  match-read virtual_id p idx i v val e d =
      ap (λ o. equal_values build probe bc pc reversed o (some val)) e

  -- a row of a chain, once its value is known
  visit-read :
      (mm : Multimap) (idx i : ℕ) (v val : Value F)
      → get_value_by_index idx bc build ≡ some v
      → get_value_by_index i pc probe ≡ some val
      → visit build probe bc pc reversed mm i val (hash_one val) idx ≡ (
          if mm.build_hashes idx == hash_one val
          then when_matched build probe bc pc reversed
              (some (value_beq v val))
              (joined build probe bc pc reversed idx i)
          else some [])
  unfolding visit
  visit-read mm idx i v val e d =
      ap
        (λ o.
          if mm.build_hashes idx == hash_one val
          then when_matched build probe bc pc reversed o (joined build probe bc pc reversed idx i)
          else some [])
        (match-read bc pc idx i v val e d)

  visit-unequal :
      (mm : Multimap) (idx i : ℕ) (v val : Value F)
      → get_value_by_index idx bc build ≡ some v
      → get_value_by_index i pc probe ≡ some val
      → value_beq v val ≡ false
      → visit build probe bc pc reversed mm i val (hash_one val) idx ≡ some []
  visit-unequal mm idx i v val e d u =
      visit-read mm idx i v val e d
      ∙ rw u (either_same (mm.build_hashes idx == hash_one val) (some []))

  visit-equal :
      (mm : Multimap) (idx i : ℕ) (v val : Value F)
      → get_value_by_index idx bc build ≡ some v
      → get_value_by_index i pc probe ≡ some val
      → value_beq v val ≡ true
      → mm.build_hashes idx ≡ hash_one v
      → visit build probe bc pc reversed mm i val (hash_one val) idx
        ≡ (if hash_one v == hash_one val then joined build probe bc pc reversed idx i else some [])
  visit-equal mm idx i v val e d u k = visit-read mm idx i v val e d ∙ rw k (rw u refl)

  module _ (mm : Multimap) (i : ℕ) (val : Value F)
      (d : get_value_by_index i pc probe ≡ some val) where
    abbrev pub chain : List ℕ → Option (List (Row F × Row F))
    chain = over (visit build probe bc pc reversed mm i val (hash_one val))

    abbrev here : ℕ → Value F → Option (List (Row F × Row F))
    here = pair_here build probe bc pc reversed meets i val

    abbrev bucket : ℕ
    bucket = bucket_of hash_one buckets (hash_one val)

    -- an entry of the chain that adds no row
    chain-skip :
        (b : Bool) (idx : ℕ) (l : List ℕ)
        → visit build probe bc pc reversed mm i val (hash_one val) idx ≡ some []
        → chain (cons_when b idx l) ≡ append_parts (some []) (chain l)
    chain-skip true idx l u = ap (λ x. append_parts x (chain l)) u
    chain-skip false idx l u = sym (append_parts-nil (chain l))

    chain-step :
        (idx : ℕ) (v : Value F) (l : List ℕ)
        → (is_null v ≡ false → mm.build_hashes idx ≡ hash_one v)
        → get_value_by_index idx bc build ≡ some v
        → chain
            (cons_when (sits hash_one buckets (bucket_of hash_one buckets (hash_one val)) v) idx l)
          ≡ append_parts (here idx v) (chain l)
    chain-step idx v l k e = elim (Bool-cases (is_null v)) [
      | inl n ↦
          rw (sits-null hash_one buckets (bucket_of hash_one buckets (hash_one val)) v n)
            (rw n (sym (append_parts-nil (chain l))))
      | inr n ↦ elim (Bool-cases (value_beq v val)) [
        | inr u ↦ rw n (
            rw u (
              chain-skip (sits hash_one buckets bucket v) idx l
                (visit-unequal mm idx i v val e d u)))
        | inl u ↦ elim (Bool-cases (hash_one v == hash_one val)) [
          | inl same ↦
              rw
                (sits-value hash_one buckets bucket v n
                  ∙ (==_iff _ _).1 (
                      ap (bucket_of hash_one buckets)
                        (sym ((==_iff (hash_one v) (hash_one val)).0 same))))
                (rw (visit-equal mm idx i v val e d u (k n)) (rw n (rw u refl)))
          | inr other ↦ rw n (
              rw u (
                rw other (
                  chain-skip (sits hash_one buckets bucket v) idx l
                    (visit-equal mm idx i v val e d u (k n) ∙ rw other refl))))
        ]
      ]
    ]

    pub chain-pair_with :
        (n : ℕ) (entries : List (ℕ × Value F))
        → Kept hash_one buckets mm n entries
        → AreRead build probe bc pc reversed entries
        → chain (in_bucket hash_one buckets (bucket_of hash_one buckets (hash_one val)) entries)
          ≡ pair_with build probe bc pc reversed meets i val entries
    chain-pair_with n [] k r = refl
    chain-pair_with n ((idx, v) ∷ entries) k r =
        chain-step idx v
          (in_bucket hash_one buckets (bucket_of hash_one buckets (hash_one val)) entries) k.1 r.0
        ∙ ap (append_parts (here idx v)) (chain-pair_with n entries k.3 r.1)

    -- A value whose bit is not set in the filter is the value of no row.
    pub unset-pair_with :
        (n : ℕ) (entries : List (ℕ × Value F))
        → mm.bloom_filter (hash_one val % bloom_bits) ≡ false
        → Kept hash_one buckets mm n entries
        → pair_with build probe bc pc reversed meets i val entries ≡ some []
    unset-pair_with n [] b k = refl
    unset-pair_with n ((idx, v) ∷ entries) b k =
        ap (λ o. append_parts o (pair_with build probe bc pc reversed meets i val entries))
          none_here
        ∙ append_parts-nil (pair_with build probe bc pc reversed meets i val entries)
        ∙ unset-pair_with n entries b k.3
      where
        none_here : here idx v ≡ some []
        none_here = elim (Bool-cases (is_null v)) [
          | inl n ↦ rw n refl
          | inr n ↦ elim (Bool-cases (value_beq v val)) [
            | inr u ↦ rw n (rw u refl)
            | inl u ↦ elim (Bool-cases (hash_one v == hash_one val)) [
              | inr other ↦ rw n (rw u (rw other refl))
              | inl same ↦
                  (clash (
                    sym (k.2 n)
                    ∙ ap (λ h. mm.bloom_filter (h % bloom_bits))
                        ((==_iff (hash_one v) (hash_one val)).0 same)
                    ∙ b))
            ]
          ]
        ]
