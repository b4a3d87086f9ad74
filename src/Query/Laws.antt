-- ===== src/Query/Laws.antt =====
-- query.rs: `evaluate_with_row` on interned strings, and `plan`.
use dbobj.Base.{
  ℕ, ◌≡◌, refl, ◌⊎◌, inl, inr, Bool, true, false, Bool-cases, none, some, Option-cases, Text,
  text_beq, text_beq_refl, text_beq_sound, ◌==◌, arith, get_elem?, if◌then◌else◌,
}
use dbobj.Core.Float.{Float}
use dbobj.Core.Id.{text_key}
use dbobj.Core.Pool
use dbobj.Core.Pool.{Interner, StringPool}
use dbobj.Core.Value.{Value, string, interned_string, boolean, value_beq}
use dbobj.Map
use dbobj.Map.{HashMap}
use dbobj.Query.{
  Operator, Expr, QueryPlan, usize_max, apply, apply_pair, against, align, operands, column_value,
  column_with_row, evaluate, evaluate_with_row, negation, truth, is_true, equality_plan,
  conjunction_plan, or_scan, plan,
}
use dbobj.Table.{Row, Table}

resolve_known :
    {P : Type 0} ⦃it : Interner P⦄ (pool : StringPool P) (s : Text) (k : ℕ)
    → Pool.get_id pool s ≡ some k
    → Pool.resolve pool k ≡ some s
unfolding Pool.get_id Pool.resolve
resolve_known ⦃it⦄ pool s k e = it.resolve-get pool.interner s k e

module _ {F P : Type 0} ⦃fl : Float F⦄ ⦃it : Interner P⦄ where
  -- `=` between a cell that holds the symbol of `t` and the text `s` compares `t` and `s`.
  pub apply-against :
      (pool : StringPool P) (t s : Text) (k : ℕ)
      → Pool.get_id pool t ≡ some k
      → apply_pair Operator.eq (against {F = F} pool k s) ≡ boolean (text_beq t s)
  unfolding apply against value_beq
  apply-against pool t s k known = elim (Option-cases (Pool.get_id pool s)) [
    | inl e ↦ ground (arith, e, resolve_known pool t k known)
    | inr (k', e) ↦ elim (Bool-cases (k == k')) [
      | inl q ↦ ground (
        arith,
        e,
        q,
        known,
        resolve_known pool t k known,
        resolve_known pool s k' e,
        text_beq_refl t,
      )
      | inr q ↦ ground (arith, e, q, known, text_beq_sound t s)
    ]
  ]

module _ {F P : Type 0} ⦃fl : Float F⦄ ⦃it : Interner P⦄ (t : Table F P) (row : Row F)
    (mapping : HashMap Text ℕ) (name : Text) (idx : ℕ) (here : Map.get name mapping ≡ some idx)
    (real : (idx == usize_max) ≡ false) (text s : Text) (k : ℕ)
    (cell : get_elem? row.values idx ≡ some (interned_string k))
    (known : Pool.get_id t.string_pool text ≡ some k) where
  abbrev equal : Expr F
  equal = Expr.binary (Expr.column name) Operator.eq (Expr.literal (string s))

  -- The test `column = text` on a row whose cell holds the symbol of a text, as inserts store it,
  -- compares the two texts, when the column is mapped to a position other than usize::MAX.
  pub is_true-equal : is_true equal row mapping t ≡ some (text_beq text s)
  unfolding is_true evaluate_with_row evaluate column_with_row operands align truth
  is_true-equal =
      ground (arith, here, real, cell, apply-against {F = F} t.string_pool text s k known)

  -- The negation of the test `column = text` is true of every row whose cell holds the symbol of a
  -- text, also when the two texts are the same, when the column is mapped to a position other than
  -- usize::MAX.
  pub is_true-not_equal : is_true (Expr.not_expr equal) row mapping t ≡ some true
  unfolding is_true evaluate_with_row evaluate column_value negation apply value_beq truth
  is_true-not_equal = ground (arith, here, real, cell)

module _ {F P : Type 0} (t : Table F P) where
  -- what a plan says of the expression that it was made from
  pub Meaning : Expr F → QueryPlan F → Type 0
  Meaning e (QueryPlan.full_scan n e') = (n ≡ t.name) × (e' ≡ e)
  Meaning e (QueryPlan.index_scan n c v) =
      (Map.contains_key c t.indexes ≡ true)
      × (n ≡ t.name)
      × ((e ≡ Expr.binary (Expr.column c) Operator.eq (Expr.literal v))
          ⊎ (e ≡ Expr.binary (Expr.literal v) Operator.eq (Expr.column c)))
  Meaning e (QueryPlan.index_filtered_scan n c v rest) =
      (other : Expr F) × (plan other t ≡ QueryPlan.index_scan n c v)
      × ((e ≡ Expr.binary other Operator.and rest) ⊎ (e ≡ Expr.binary rest Operator.and other))

  left_column :
      (c : Text) (v : Value F) (b : Bool)
      → Map.contains_key c t.indexes ≡ b
      → (let e : Expr F = Expr.binary (Expr.column c) Operator.eq (Expr.literal v) in
          Meaning e (or_scan (if b then some (QueryPlan.index_scan t.name c v) else none) e t))
  unfolding Meaning
  left_column c v true h = (h, refl, inl refl)
  left_column c v false h = (refl, refl)

  right_column :
      (c : Text) (v : Value F) (b : Bool)
      → Map.contains_key c t.indexes ≡ b
      → (let e : Expr F = Expr.binary (Expr.literal v) Operator.eq (Expr.column c) in
          Meaning e (or_scan (if b then some (QueryPlan.index_scan t.name c v) else none) e t))
  unfolding Meaning
  right_column c v true h = (h, refl, inr refl)
  right_column c v false h = (refl, refl)

  equality-Meaning :
      (l r : Expr F)
      → Meaning
          (Expr.binary l Operator.eq r)
          (or_scan (equality_plan l r t) (Expr.binary l Operator.eq r) t)
  unfolding Meaning equality_plan
  equality-Meaning (Expr.column c) (Expr.literal v) = left_column c v _ refl
  equality-Meaning (Expr.literal v) (Expr.column c) = right_column c v _ refl
  equality-Meaning _ _ = (refl, refl)

  conjunction-Meaning :
      (p q : QueryPlan F) (l r : Expr F)
      → plan l t ≡ p
      → plan r t ≡ q
      → Meaning
          (Expr.binary l Operator.and r)
          (or_scan (conjunction_plan p q l r) (Expr.binary l Operator.and r) t)
  unfolding Meaning conjunction_plan
  conjunction-Meaning (QueryPlan.index_scan n c v) q l r e f = (l, e, inl refl)
  conjunction-Meaning _ (QueryPlan.index_scan n c v) l r e f = (r, f, inr refl)
  conjunction-Meaning _ _ l r e f = (refl, refl)

  -- A plan that scans an index is for an equality between a literal and a column that has an index;
  -- a filtered scan is for a conjunction of an expression planned as such a scan with the filter;
  -- any other plan scans the table with the expression itself. The table is named in the first and
  -- the last case.
  pub plan-Meaning : (e : Expr F) → Meaning e (plan e t)
  unfolding plan Meaning
  plan-Meaning (Expr.binary l Operator.eq r) = equality-Meaning l r
  plan-Meaning (Expr.binary l Operator.and r) = conjunction-Meaning _ _ l r refl refl
  plan-Meaning _ = (refl, refl)
