-- ===== src/Table/Spread.antt =====
-- The loops over rows that `select` (table.rs) and `hash_join` (database.rs) give to several threads
-- in chunks: each thread's results, in the order of the chunks.
use native.Mathlib.Nat.{mod-lt, div-add-mod}
use mathlib.Core.List.{append_assoc}
use dbobj.Base.{
  ℕ, zero, suc, ◌+◌, ◌-◌, ◌*◌, ◌<◌, ◌≤◌, ◌≡◌, refl, sym, ◌∙◌, ap, inl, inr, ◌⊎◌, Bool-cases, ◌||◌,
  Option, none, some, List, [], arith, ltb, leb, if◌then◌else◌,
}
use dbobj.Table.Find.{append_parts, div_ceil}

module _ {A : Type 0} (f : ℕ → Option (List A)) where
  -- the body for each of `n` indices from `start` on
  unfoldable pub each_index : ℕ → ℕ → Option (List A)
  each_index zero start = some []
  each_index (suc n) start = append_parts (f start) (each_index n (suc start))

  -- the chunks from number `i` on, of `c` indices below `l`
  unfoldable pub chunks : ℕ → ℕ → ℕ → ℕ → Option (List A)
  unfolding each_index
  chunks l zero i c = some []
  chunks l (suc n) i c =
      let start = i * c in
      let end = if ltb l (start + c) then l else start + c in
      let rest = chunks l n (suc i) c in
      if leb l start then some [] else append_parts (each_index (end - start) start) rest

  unfoldable pub spread : ℕ → ℕ → Option (List A)
  unfolding chunks div_ceil
  spread num_threads l =
      if ltb l 5000 || leb num_threads 1
      then each_index l 0
      else chunks l num_threads 0 (div_ceil l num_threads)

append_parts_assoc :
    {A : Type 0} (xs ys zs : Option (List A))
    → append_parts (append_parts xs ys) zs ≡ append_parts xs (append_parts ys zs)
append_parts_assoc none ys zs = refl
append_parts_assoc (some xs) none zs = refl
append_parts_assoc (some xs) (some ys) none = refl
append_parts_assoc (some xs) (some ys) (some zs) = ap some (append_assoc xs ys zs)

append_parts-nil : {A : Type 0} (xs : Option (List A)) → append_parts (some []) xs ≡ xs
append_parts-nil none = refl
append_parts-nil (some xs) = refl

next_reach : (l c n i : ℕ) → l ≤ (i + suc n) * c → l ≤ (suc i + n) * c
next_reach l c n i h = grind arith

none_left : (l c i : ℕ) → l ≤ (i + 0) * c → l - i * c ≡ 0
none_left l c i h = grind arith

next_start : (c i : ℕ) → suc i * c ≡ i * c + c
next_start c i = grind arith

module _ {A : Type 0} (f : ℕ → Option (List A)) where
  each_index-add :
      (m n start : ℕ)
      → each_index f (m + n) start
        ≡ append_parts (each_index f m start) (each_index f n (start + m))
  unfolding each_index
  each_index-add zero n start =
      ap (λ k. each_index f k start) (omega arith)
      ∙ sym (append_parts-nil (each_index f n start))
      ∙ ap (λ k. append_parts (some []) (each_index f n k)) (omega arith)
  each_index-add (suc m) n start =
      ap (λ k. each_index f k start) {y = suc (m + n)} (omega arith)
      ∙ ap (append_parts (f start)) (each_index-add m n (suc start))
      ∙ sym (
          append_parts_assoc (f start) (each_index f m (suc start))
            (each_index f n (suc start + m)))
      ∙ ap (λ k. append_parts (each_index f (suc m) start) (each_index f n k)) (omega arith)

  each_index_empty : (n start : ℕ) → n ≡ 0 → each_index f n start ≡ some []
  unfolding each_index
  each_index_empty n start e = rw e refl

  -- two parts of a loop, the second of which starts behind the first or is empty
  join_parts :
      (m k start next : ℕ)
      → ((k ≡ 0) ⊎ (next ≡ start + m))
      → append_parts (each_index f m start) (each_index f k next) ≡ each_index f (m + k) start
  join_parts m k start next (inl e) =
      ap (append_parts (each_index f m start))
        (each_index_empty k next e ∙ sym (each_index_empty k (start + m) e))
      ∙ sym (each_index-add m k start)
  join_parts m k start next (inr e) = rw e (sym (each_index-add m k start))

  chunks-eq-each_index :
      (l c n i : ℕ) → l ≤ (i + n) * c → chunks f l n i c ≡ each_index f (l - i * c) (i * c)
  unfolding chunks
  chunks-eq-each_index l c zero i h = sym (each_index_empty _ (i * c) (none_left l c i h))
  chunks-eq-each_index l c (suc n) i h =
      let rest = chunks-eq-each_index l c n (suc i) (next_reach l c n i h) in
      ground (
        arith,
        rest,
        next_start c i,
        each_index_empty (l - i * c) (i * c),
        join_parts (l - i * c) (l - suc i * c) (i * c) (suc i * c),
        join_parts c (l - suc i * c) (i * c) (suc i * c),
        whole,
        rejoin,
      )
    where
      whole : (l < i * c + c) → i * c < l → l - i * c + (l - suc i * c) ≡ l - i * c
      whole p q = omega (arith, next_start c i)

      rejoin : i * c + c ≤ l → c + (l - suc i * c) ≡ l - i * c
      rejoin p = omega (arith, next_start c i)

chunks_cover : (a b : ℕ) → 0 < b → a ≤ b * div_ceil a b
unfolding div_ceil
chunks_cover a b h = omega (arith, div-add-mod (a + (b - 1)) b, mod-lt (a + (b - 1)) h)

module _ {A : Type 0} (num_threads : ℕ) (f : ℕ → Option (List A)) (l : ℕ) where
  pub spread-eq-each_index : spread f num_threads l ≡ each_index f l 0
  unfolding spread
  spread-eq-each_index = elim (Bool-cases (ltb l 5000 || leb num_threads 1)) [
    | inl e ↦ ground (arith, e)
    | inr e ↦
        let several : 0 < num_threads = ground (arith, e) in
        let all =
          chunks-eq-each_index f l (div_ceil l num_threads) num_threads 0
            (omega (arith, chunks_cover l num_threads several)) in
        ground (arith, e, all)
  ]
