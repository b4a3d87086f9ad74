-- ===== src/Map.antt =====
-- `FastHashMap`: the std `HashMap` as an association list with at most one entry for each key.
-- An entry is found by its key's `Eq` and `Hash`, which the class `Key` gives together; neither
-- has to be reflexive (a NaN is not equal to itself). The order of the entries
-- is not the program's.
use dbobj.Base.{
  ◌≡◌, refl, Bool, true, false, Option, none, some, List, [], ◌∷◌, ◌++◌, arith, if◌then◌else◌,
}

pub record Key {ℓ} (K : Type ℓ) : Type ℓ where
  pub same : K → K → Bool
  pub same_sym : (a b : K) → same a b ≡ true → same b a ≡ true
  pub same_trans : (a b c : K) → same a b ≡ true → same b c ≡ true → same a c ≡ true

abbrev pub HashMap {ℓ κ} : Type ℓ → Type κ → Type (ℓ ⊔ κ)
HashMap K V = List (K × V)

module _ {ℓ κ} {K : Type ℓ} {V : Type κ} ⦃key : Key K⦄ where
  -- map.get(k)
  unfoldable pub get : K → HashMap K V → Option V
  get k [] = none
  get k ((j, v) ∷ m) = if key.same j k then some v else get k m

  -- map.insert(k, v): an entry that is there keeps its key.
  unfoldable pub insert : K → V → HashMap K V → HashMap K V
  insert k v [] = (k, v) ∷ []
  insert k v ((j, w) ∷ m) = if key.same j k then (j, v) ∷ m else (j, w) ∷ insert k v m

  -- map.remove(k)
  unfoldable pub remove : K → HashMap K V → HashMap K V
  remove k [] = []
  remove k ((j, w) ∷ m) = if key.same j k then m else (j, w) ∷ remove k m

  -- map.contains_key(k)
  unfoldable pub contains_key : K → HashMap K V → Bool
  contains_key k [] = false
  contains_key k ((j, w) ∷ m) = if key.same j k then true else contains_key k m

  -- entries.iter().cloned().collect()
  unfoldable pub collect : HashMap K V → List (K × V) → HashMap K V
  collect m [] = m
  collect m ((k, v) ∷ rest) = collect (insert k v m) rest

  pub get-insert :
      (k j : K) (v : V) (m : HashMap K V)
      → get j (insert k v m) ≡ (if key.same k j then some v else get j m)
  unfolding get insert
  get-insert k j v [] = refl
  get-insert k j v ((i, w) ∷ m) = ground (
    arith,
    get-insert k j v m,
    key.same_trans i k j,
    key.same_sym i k,
    key.same_trans k i j,
    key.same_trans i j k,
    key.same_sym k j,
  )

  pub contains_key-get : (k : K) (m : HashMap K V) → contains_key k m ≡ false → get k m ≡ none
  unfolding get contains_key
  contains_key-get k [] h = refl
  contains_key-get k ((j, w) ∷ m) h = ground (arith, contains_key-get k m)

  -- at most one entry for each key
  abbrev pub IsMap : HashMap K V → Type κ
  IsMap [] = Unit
  IsMap ((k, v) ∷ m) = (get k m ≡ none) × IsMap m

  pub insert-IsMap : (k : K) (v : V) (m : HashMap K V) → IsMap m → IsMap (insert k v m)
  unfolding insert
  insert-IsMap k v [] h = (unfold get in refl, tt)
  insert-IsMap k v ((j, w) ∷ m) h =
      ground (arith, get-insert k j v m, insert-IsMap k v m h.1, key.same_sym k j)

  pub get-same : (k j : K) (m : HashMap K V) → key.same k j ≡ true → get k m ≡ get j m
  unfolding get
  get-same k j [] e = refl
  get-same k j ((i, w) ∷ m) e =
      ground (arith, get-same k j m, key.same_trans i k j, key.same_trans i j k, key.same_sym k j)

  pub get-remove :
      (k j : K) (m : HashMap K V)
      → IsMap m
      → get j (remove k m) ≡ (if key.same k j then none else get j m)
  unfolding get remove
  get-remove k j [] h = ground arith
  get-remove k j ((i, w) ∷ m) h = ground (
    arith,
    get-remove k j m h.1,
    get-same i k m,
    get-same k j m,
    key.same_trans i k j,
    key.same_sym i k,
    key.same_sym i j,
    key.same_trans k i j,
    key.same_trans i j k,
    key.same_sym k j,
  )

  pub remove-IsMap : (k : K) (m : HashMap K V) → IsMap m → IsMap (remove k m)
  unfolding remove
  remove-IsMap k [] h = tt
  remove-IsMap k ((j, w) ∷ m) h = ground (arith, get-remove k j m h.1, remove-IsMap k m h.1)

  pub get-contains_key : (k : K) (m : HashMap K V) → get k m ≡ none → contains_key k m ≡ false
  unfolding get contains_key
  get-contains_key k [] h = refl
  get-contains_key k ((j, w) ∷ m) h = ground (arith, get-contains_key k m)

module _ {ℓ κ} {K : Type ℓ} {A : Type κ} ⦃key : Key K⦄ where
  -- map.entry(k).or_insert_with(Vec::new).push(a)
  unfoldable pub push_at : K → A → HashMap K (List A) → HashMap K (List A)
  push_at k a [] = (k, a ∷ []) ∷ []
  push_at k a ((j, l) ∷ m) = if key.same j k then (j, l ++ a ∷ []) ∷ m else (j, l) ∷ push_at k a m

  -- if let Some(list) = map.get_mut(k) { f(list) }
  unfoldable pub alter : K → (List A → List A) → HashMap K (List A) → HashMap K (List A)
  alter k f [] = []
  alter k f ((j, l) ∷ m) = if key.same j k then (j, f l) ∷ m else (j, l) ∷ alter k f m

module _ {ℓ} {V : Type ℓ} where
  abbrev pub first : Option V → Option V → Option V
  first none o = o
  first (some v) o = some v

  pub first-none : (o : Option V) → first o none ≡ o
  first-none none = refl
  first-none (some v) = refl

module _ {ℓ κ} {K : Type ℓ} {V : Type κ} ⦃key : Key K⦄ where
  -- Collecting the entries of a map writes each of them.
  pub get-collect :
      (m l : HashMap K V) (j : K) → IsMap l → get j (collect m l) ≡ first (get j l) (get j m)
  unfolding get collect
  get-collect m [] j h = refl
  get-collect m ((k, v) ∷ l) j h =
      ground (arith, get-collect (insert k v m) l j h.1, get-insert k j v m, get-same k j l)

  pub collect-IsMap : (m l : HashMap K V) → IsMap m → IsMap (collect m l)
  unfolding collect
  collect-IsMap m [] h = h
  collect-IsMap m ((k, v) ∷ l) h = collect-IsMap (insert k v m) l (insert-IsMap k v m h)
