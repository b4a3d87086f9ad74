-- ===== src/Query.antt =====
-- src/core/query.rs: expressions over a row, `LIKE`, and the choice of a plan.
pub mod Like
pub mod Termination
pub mod Laws
use Prim.Native.Nat.{Ordering}
use dbobj.Base.{
  ℕ, ◌+◌, ◌-◌, ◌*◌, ◌^◌, Bool, true, false, not, ◌&&◌, ◌||◌, Option, none, some, List, Text,
  text_beq, codes, ◌==◌, if◌then◌else◌, get_elem?,
}
use dbobj.Base.Int.{as_i64}
use dbobj.Core.Float.{Float}
use dbobj.Core.Id.{to_value, text_key}
use dbobj.Core.Pool
use dbobj.Core.Pool.{Interner, StringPool}
use dbobj.Core.Value.{Value, null, string, interned_string, integer, boolean, value_beq, value_cmp}
use dbobj.Map
use dbobj.Map.{HashMap}
use dbobj.Query.Like.{like_match}
use dbobj.Table.{Row, Table}

pub data Operator : Type 0 where
  eq neq gt gte lt lte and or like not_op : Operator

pub data Expr (F : Type 0) : Type 0 where
  literal : Value F → Expr F
  column : Text → Expr F
  binary : Expr F → Operator → Expr F → Expr F
  not_expr : Expr F → Expr F

pub data QueryPlan (F : Type 0) : Type 0 where
  full_scan : Text → Expr F → QueryPlan F
  index_scan : Text → Text → Value F → QueryPlan F
  index_filtered_scan : Text → Text → Value F → Expr F → QueryPlan F

-- The column mapping gives `usize::MAX` for the virtual column `id`.
abbrev pub usize_max : ℕ
usize_max = 2 ^ 64 - 1

unfoldable pub is_lt : Ordering → Bool
is_lt Ordering.lt = true
is_lt _ = false

unfoldable pub is_gt : Ordering → Bool
is_gt Ordering.gt = true
is_gt _ = false

module _ {F : Type 0} where
  unfoldable pub both_booleans : (Bool → Bool → Bool) → Value F → Value F → Value F
  both_booleans f (boolean a) (boolean b) = boolean (f a b)
  both_booleans f _ _ = boolean false

  unfoldable pub negation : Value F → Value F
  negation (boolean b) = boolean (not b)
  negation _ = boolean false

module _ {F : Type 0} ⦃fl : Float F⦄ where
  -- the match on the operator
  unfoldable pub apply : Operator → Value F → Value F → Value F
  unfolding is_lt is_gt both_booleans negation like_match
  apply Operator.eq l r = boolean (value_beq l r)
  apply Operator.neq l r = boolean (not (value_beq l r))
  apply Operator.and l r = both_booleans (λ a b. a && b) l r
  apply Operator.or l r = both_booleans (λ a b. a || b) l r
  apply Operator.gt l r = boolean (is_gt (value_cmp l r))
  apply Operator.gte l r = boolean (not (is_lt (value_cmp l r)))
  apply Operator.lt l r = boolean (is_lt (value_cmp l r))
  apply Operator.lte l r = boolean (not (is_gt (value_cmp l r)))
  apply Operator.like l r = boolean (like_match l r)
  apply Operator.not_op l r = negation l

  -- two operands, each of which may panic
  abbrev pub combine :
      (Value F → Value F → Value F) → Option (Value F) → Option (Value F) → Option (Value F)
  combine f (some l) (some r) = some (f l r)
  combine f _ _ = none

  unfoldable pub column_value : List (Value F) → Option ℕ → Option (Value F)
  column_value values none = some null
  column_value values (some idx) = if idx == usize_max then some null else get_elem? values idx

  -- `none` is a panic: a column index past the end of the row.
  unfoldable pub evaluate : Expr F → List (Value F) → HashMap Text ℕ → Option (Value F)
  unfolding apply column_value
  evaluate (Expr.literal v) values mapping = some v
  evaluate (Expr.column name) values mapping = column_value values (Map.get name mapping)
  evaluate (Expr.binary left op right) values mapping =
      combine (apply op) (evaluate left values mapping) (evaluate right values mapping)
  evaluate (Expr.not_expr e) values mapping = elim (evaluate e values mapping) [
    | none ↦ none
    | some v ↦ some (negation v)
  ]

  abbrev pub apply_pair : Operator → Value F × Value F → Value F
  apply_pair op (l, r) = apply op l r

module _ {F : Type 0} where
  unfoldable pub truth : Value F → Bool
  truth (boolean b) = b
  truth _ = false

  unfoldable pub column_with_row : Text → Row F → Option ℕ → Option (Value F)
  column_with_row name row (some idx) =
      if idx == usize_max then some (to_value row.id) else get_elem? row.values idx
  column_with_row name row none =
      if text_beq name (codes "id") then some (to_value row.id) else some null

  -- the arm of a conjunction
  unfoldable pub conjunction_plan :
      QueryPlan F → QueryPlan F → Expr F → Expr F → Option (QueryPlan F)
  conjunction_plan (QueryPlan.index_scan t c v) _ left right =
      some (QueryPlan.index_filtered_scan t c v right)
  conjunction_plan _ (QueryPlan.index_scan t c v) left right =
      some (QueryPlan.index_filtered_scan t c v left)
  conjunction_plan _ _ left right = none

module _ {F P : Type 0} ⦃fl : Float F⦄ ⦃it : Interner P⦄ where
  -- an interned string against a text: by symbol if the text has one, else by text
  unfoldable pub against : StringPool P → ℕ → Text → Value F × Value F
  against pool id s = elim (Pool.get_id pool s) [
    | some other_id ↦ (interned_string id, interned_string other_id)
    | none ↦ elim (Pool.resolve pool id) [
      | some resolved ↦ (string resolved, string s)
      | none ↦ (interned_string id, string s)
    ]
  ]

  -- the match on the two operands: two symbols become integers
  unfoldable pub align : StringPool P → Value F → Value F → Value F × Value F
  unfolding against
  align pool (interned_string id) (string s) = against pool id s
  align pool (string s) (interned_string id) = let (r, l) = against pool id s in (l, r)
  align pool (interned_string id1) (interned_string id2) =
      (integer (as_i64 id1), integer (as_i64 id2))
  align pool l r = (l, r)

  unfoldable pub like_operand : StringPool P → Value F → Value F
  like_operand pool (interned_string id) = elim (Pool.resolve pool id) [
    | none ↦ null
    | some s ↦ string s
  ]
  like_operand pool v = v

  unfoldable pub operands : Operator → StringPool P → Value F → Value F → Value F × Value F
  unfolding align like_operand
  operands Operator.like pool l r =
      let (l', r') = align pool l r in (like_operand pool l', like_operand pool r')
  operands op pool l r = align pool l r

  -- A literal and a negation go to `evaluate`, which knows neither the row's identifier nor the pool.
  unfoldable pub evaluate_with_row : Expr F → Row F → HashMap Text ℕ → Table F P → Option (Value F)
  unfolding operands apply column_with_row evaluate
  evaluate_with_row (Expr.column name) row mapping t =
      column_with_row name row (Map.get name mapping)
  evaluate_with_row (Expr.binary left op right) row mapping t =
      combine (λ l r. apply_pair op (operands op t.string_pool l r))
        (evaluate_with_row left row mapping t) (evaluate_with_row right row mapping t)
  evaluate_with_row e row mapping t = evaluate e row.values mapping

  unfoldable pub is_true : Expr F → Row F → HashMap Text ℕ → Table F P → Option Bool
  unfolding evaluate_with_row truth
  is_true e row mapping t = elim (evaluate_with_row e row mapping t) [
    | none ↦ none
    | some v ↦ some (truth v)
  ]

module _ {F P : Type 0} where
  -- the arm `column = literal`, either way round
  unfoldable pub equality_plan : Expr F → Expr F → Table F P → Option (QueryPlan F)
  equality_plan (Expr.column col) (Expr.literal v) t =
      if Map.contains_key col t.indexes then some (QueryPlan.index_scan t.name col v) else none
  equality_plan (Expr.literal v) (Expr.column col) t =
      if Map.contains_key col t.indexes then some (QueryPlan.index_scan t.name col v) else none
  equality_plan _ _ t = none

  abbrev pub or_scan : Option (QueryPlan F) → Expr F → Table F P → QueryPlan F
  or_scan (some p) e t = p
  or_scan none e t = QueryPlan.full_scan t.name e

  unfoldable pub plan : Expr F → Table F P → QueryPlan F
  unfolding equality_plan conjunction_plan
  plan (Expr.binary left Operator.eq right) t =
      or_scan (equality_plan left right t) (Expr.binary left Operator.eq right) t
  plan (Expr.binary left Operator.and right) t =
      or_scan (conjunction_plan (plan left t) (plan right t) left right)
        (Expr.binary left Operator.and right) t
  plan e t = QueryPlan.full_scan t.name e
