-- ===== src/Database/Join/Nested.antt =====
-- database.rs: the multimap of `hash_join` and the rows of the build table it stands for.
use mathlib.Core.Path.{subst}
use dbobj.Base.{
  ℕ, suc, ◌+◌, ◌%◌, ◌<◌, ◌≡◌, ◌≢◌, refl, sym, ap, ◌∙◌, arith, Bool, Bool-cases, true, false, not,
  ◌&&◌, Option, none, some, inl, inr, List, [], ◌∷◌, ◌==◌, ==_iff, length,
}
use dbobj.Core.Value.{Value, is_null}
use dbobj.Database.Join.{
  Multimap, empty_multimap, bloom_bits, bucket_of, write_at, build_row, build_phase,
}

abbrev pub cons_when : Bool → ℕ → List ℕ → List ℕ
cons_when true i l = i ∷ l
cons_when false i l = l

write_at-other {ℓ} :
    {A : Type ℓ} (f : ℕ → A) (k : ℕ) (v : A) (j : ℕ) → j ≢ k → write_at f k v j ≡ f j
unfolding write_at
write_at-other f k v j h = ground (arith, h)

write_at-same {ℓ} : {A : Type ℓ} (f : ℕ → A) (k : ℕ) (v : A) → write_at f k v k ≡ v
unfolding write_at
write_at-same f k v = ground arith

write_at-true : (f : ℕ → Bool) (k j : ℕ) → f j ≡ true → write_at f k true j ≡ true
unfolding write_at
write_at-true f k j h = ground (arith, h)

-- The chain from `p` lists these rows.
abbrev pub Linked : (ℕ → Option ℕ) → Option ℕ → List ℕ → Type 0
Linked nexts p [] = p ≡ none
Linked nexts p (i ∷ l) = (p ≡ some i) × Linked nexts (nexts i) l

abbrev pub Below : ℕ → List ℕ → Type 0
Below n [] = Unit {0}
Below n (i ∷ l) = (i < n) × Below n l

Below-cons_when : (h : Bool) (n i : ℕ) (l : List ℕ) → i < n → Below n l → Below n (cons_when h i l)
Below-cons_when true n i l p q = (p, q)
Below-cons_when false n i l p q = q

Linked-write :
    (nexts : ℕ → Option ℕ) (n : ℕ) (q p : Option ℕ) (l : List ℕ)
    → Below n l
    → Linked nexts p l
    → Linked (write_at nexts n q) p l
Linked-write nexts n q p [] k h = h
Linked-write nexts n q p (i ∷ l) k h = (
  h.0,
  subst (λ x. Linked (write_at nexts n q) x l) (sym (write_at-other nexts n q i (omega arith)))
      (Linked-write nexts n q (nexts i) l k.1 h.1),
)

module _ {F : Type 0} where
  -- the rows that a build phase from row `n` on puts before `entries`
  abbrev pub entered : ℕ → List (Value F) → List (ℕ × Value F) → List (ℕ × Value F)
  entered n [] entries = entries
  entered n (v ∷ vs) entries = entered (suc n) vs ((n, v) ∷ entries)

module _ {F : Type 0} (hash_one : Value F → ℕ) (buckets : ℕ) where
  -- a value that the build phase puts in a bucket
  pub sits : ℕ → Value F → Bool
  sits b v = not (is_null v) && b == bucket_of hash_one buckets (hash_one v)

  -- the rows with a value in a bucket, of `entries`
  abbrev pub in_bucket : ℕ → List (ℕ × Value F) → List ℕ
  in_bucket b [] = []
  in_bucket b ((i, v) ∷ entries) = cons_when (sits b v) i (in_bucket b entries)

  -- What is known of each row that was read.
  abbrev pub Kept : Multimap → ℕ → List (ℕ × Value F) → Type 0
  Kept mm n [] = Unit {0}
  Kept mm n ((i, v) ∷ entries) =
      (i < n)
      × (is_null v ≡ false → mm.build_hashes i ≡ hash_one v)
      × (is_null v ≡ false → mm.bloom_filter (hash_one v % bloom_bits) ≡ true)
      × Kept mm n entries

  pub record Stands (mm : Multimap) (n : ℕ) (entries : List (ℕ × Value F)) : Type 0 where
    pub linked : (b : ℕ) → Linked mm.nexts (mm.heads b) (in_bucket b entries)
    pub kept : Kept mm n entries

  Below-bucket :
      (mm : Multimap) (n b : ℕ) (entries : List (ℕ × Value F))
      → Kept mm n entries
      → Below n (in_bucket b entries)
  Below-bucket mm n b [] k = tt
  Below-bucket mm n b ((i, v) ∷ entries) k =
      Below-cons_when (sits b v) n i (in_bucket b entries) k.0 (Below-bucket mm n b entries k.3)

  Kept-more :
      (mm : Multimap) (n : ℕ) (entries : List (ℕ × Value F))
      → Kept mm n entries
      → Kept mm (suc n) entries
  Kept-more mm n [] k = tt
  Kept-more mm n ((i, v) ∷ entries) k = (omega arith, k.1, k.2, Kept-more mm n entries k.3)

  Kept-write :
      (mm : Multimap) (n : ℕ) (heads nexts : ℕ → Option ℕ) (h k : ℕ) (entries : List (ℕ × Value F))
      → Kept mm n entries
      → Kept
          (record {
            heads = heads;
            nexts = nexts;
            build_hashes = write_at mm.build_hashes n h;
            bloom_filter = write_at mm.bloom_filter k true;
          })
          (suc n)
          entries
  Kept-write mm n heads nexts h k [] q = tt
  Kept-write mm n heads nexts h k ((i, v) ∷ entries) q = (
    omega arith,
    (λ e. write_at-other mm.build_hashes n h i (omega arith) ∙ q.1 e),
    (λ e. write_at-true mm.bloom_filter k (hash_one v % bloom_bits) (q.2 e)),
    Kept-write mm n heads nexts h k entries q.3,
  )

  pub sits-null : (b : ℕ) (v : Value F) → is_null v ≡ true → sits b v ≡ false
  unfolding sits
  sits-null b v e = rw e refl

  pub sits-value :
      (b : ℕ) (v : Value F)
      → is_null v ≡ false
      → sits b v ≡ (b == bucket_of hash_one buckets (hash_one v))
  unfolding sits
  sits-value b v e = rw e refl

  -- the chains behind a row with a value
  chain_with :
      (mm : Multimap) (n : ℕ) (v : Value F) (entries : List (ℕ × Value F))
      → Stands mm n entries
      → is_null v ≡ false
      → (b : ℕ)
      → (let k = bucket_of hash_one buckets (hash_one v) in
          Linked
            (write_at mm.nexts n (mm.heads k))
            (write_at mm.heads k (some n) b)
            (cons_when (sits b v) n (in_bucket b entries)))
  chain_with mm n v entries s e b =
      let k = bucket_of hash_one buckets (hash_one v) in
      let fresh = Below-bucket mm n b entries s.kept in
      elim (Bool-cases (b == k)) [
        | inl same ↦
            let b-k : b ≡ k = (==_iff b k).0 same in
            rw (sits-value b v e ∙ same) (
              ap (λ x. write_at mm.heads k (some n) x) b-k ∙ write_at-same mm.heads k (some n),
              subst (λ p. Linked (write_at mm.nexts n (mm.heads k)) p (in_bucket b entries))
                  (ap mm.heads b-k ∙ sym (write_at-same mm.nexts n (mm.heads k)))
                  (Linked-write mm.nexts n (mm.heads k) (mm.heads b) (in_bucket b entries) fresh
                    (s.linked b)),
            )
        | inr other ↦ rw (sits-value b v e ∙ other) (
            subst (λ p. Linked (write_at mm.nexts n (mm.heads k)) p (in_bucket b entries))
              (sym (write_at-other mm.heads k (some n) b (λ q. cc ((==_iff b k).1 q, other))))
              (Linked-write mm.nexts n (mm.heads k) (mm.heads b) (in_bucket b entries) fresh
                (s.linked b)))
      ]

  build_row-Stands :
      (mm : Multimap) (n : ℕ) (v : Value F) (entries : List (ℕ × Value F))
      → Stands mm n entries
      → Stands (build_row hash_one buckets mm n v) (suc n) ((n, v) ∷ entries)
  unfolding build_row
  build_row-Stands mm n v entries s = elim (Bool-cases (is_null v)) [
    | inl e ↦ rw e (record {
      linked = λ b. rw (sits-null b v e) (s.linked b);
      kept = (omega arith, (λ q. cc), (λ q. cc), Kept-more mm n entries s.kept);
    })
    | inr e ↦ rw e (record {
      linked = λ b. chain_with mm n v entries s e b;
      kept = (
        omega arith,
        (λ q. write_at-same mm.build_hashes n (hash_one v)),
        (λ q. write_at-same mm.bloom_filter (hash_one v % bloom_bits) true),
        Kept-write mm n (write_at mm.heads (bucket_of hash_one buckets (hash_one v)) (some n))
            (write_at mm.nexts n (mm.heads (bucket_of hash_one buckets (hash_one v)))) (hash_one v)
            (hash_one v % bloom_bits) entries s.kept,
      );
    })
  ]

  pub build_phase-Stands :
      (mm : Multimap) (n : ℕ) (vs : List (Value F)) (entries : List (ℕ × Value F))
      → Stands mm n entries
      → Stands (build_phase hash_one buckets mm n vs) (n + length vs) (entered n vs entries)
  unfolding build_phase
  build_phase-Stands mm n [] entries s = subst (λ k. Stands mm k entries) (omega arith) s
  build_phase-Stands mm n (v ∷ vs) entries s =
      subst
        (λ k.
          Stands (build_phase hash_one buckets (build_row hash_one buckets mm n v) (suc n) vs) k
            (entered (suc n) vs ((n, v) ∷ entries)))
        (omega arith)
        (build_phase-Stands (build_row hash_one buckets mm n v) (suc n) vs ((n, v) ∷ entries)
          (build_row-Stands mm n v entries s))

  pub empty-Stands : Stands empty_multimap 0 []
  empty-Stands = record { linked = λ b. refl; kept = tt }
