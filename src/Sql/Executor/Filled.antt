-- ===== src/Sql/Executor/Filled.antt =====
-- executor.rs: what `substitute_statement` does with its parameters, and a run of a prepared statement.
use dbobj.Base.{
  ℕ, zero, suc, ◌+◌, ◌≤◌, ◌<◌, ◌≡◌, refl, sym, ap, ◌∙◌, inl, inr, arith, Bool-cases, Option, none,
  some, leb, List, [], ◌∷◌, Res, ok, panic, after, after-ok, each, ==_iff, length, get_elem?,
}
use dbobj.Core.Value.{Value}
use dbobj.Sql.Ast.{Expr, Assignment, Statement}
use dbobj.Sql.Executor.{
  SqlError, Fill, count_params, next_param, substitute_expr, substitute_selection,
  substitute_assignment, substitute_statement, run_all, run_resolved, execute_prepared,
}
use dbobj.Sql.Executor.Placeholders.{
  total, AllFree, option_size, holes, assignment_holes, stmt_holes, StmtAggFree, count_from-holes,
}

-- The call moves the index to `end`, and its result holds `P`.
pub data Filled {A : Type 0} (P : A → Type 0) (end : ℕ) : ℕ × Res SqlError A → Type 0 where
  filled : {i : ℕ} {a : A} → i ≡ end → P a → Filled P end (i, ok a)

Filled-after :
    {A B : Type 0} {P : A → Type 0} {Q : B → Type 0} {m k : ℕ} {r : ℕ × Res SqlError A}
    {f : A → Fill B}
    → Filled P m r
    → ((i : ℕ) (a : A) → i ≡ m → P a → Filled Q k (f a i))
    → Filled Q k (after r f)
Filled-after (filled e h) g = g _ _ e h

Filled-at :
    {A : Type 0} {P : A → Type 0} {m : ℕ} (k : ℕ) {r : ℕ × Res SqlError A}
    → m ≡ k
    → Filled P m r
    → Filled P k r
Filled-at k e (filled d h) = filled (d ∙ e) h

get_elem?-inside :
    {A : Type 0} (xs : List A) (i : ℕ) → i < length xs → (a : A) × (get_elem? xs i ≡ some a)
get_elem?-inside [] i h = absurd (omega arith)
get_elem?-inside (x ∷ xs) zero h = (x, refl)
get_elem?-inside (x ∷ xs) (suc i) h = get_elem?-inside xs i (omega arith)

get_elem?-outside : {A : Type 0} (xs : List A) (i : ℕ) → length xs ≤ i → get_elem? xs i ≡ none
get_elem?-outside [] i h = refl
get_elem?-outside (x ∷ xs) zero h = absurd (omega arith)
get_elem?-outside (x ∷ xs) (suc i) h = get_elem?-outside xs i (omega arith)

-- A loop fills as much as its items.
each-Filled :
    {A B : Type 0} (f : A → Fill B) (size : A → ℕ) (size' : B → ℕ) (n : ℕ)
    → ((x : A) (idx : ℕ) → idx + size x ≤ n → Filled (λ b. size' b ≡ 0) (idx + size x) (f x idx))
    → (xs : List A) (idx : ℕ) → idx + total size xs ≤ n
    → Filled (λ ys. total size' ys ≡ 0) (idx + total size xs) (each f xs idx)
unfolding each
each-Filled f size size' n g [] idx h = filled (omega arith) refl
each-Filled f size size' n g (x ∷ xs) idx h = Filled-after (g x idx (omega arith)) (λ i y e p.
    Filled-after (each-Filled f size size' n g xs i (omega arith))
      (λ j ys d q. filled (omega arith) (omega arith)))

module _ {F : Type 0} (params : List (Value F)) where
  abbrev Enough : ℕ → ℕ → Type 0
  Enough idx k = idx + k ≤ length params

  substitute_expr-Filled :
      (e : Expr F) (idx : ℕ)
      → Enough idx (holes e)
      → Filled (λ x. holes x ≡ 0) (idx + holes e) (substitute_expr params e idx)
  unfolding substitute_expr holes next_param
  substitute_expr-Filled Expr.placeholder idx h =
      let (v, e) = get_elem?-inside params idx (omega arith) in rw e (filled refl refl)
  substitute_expr-Filled (Expr.binary l op r) idx h =
      Filled-after (substitute_expr-Filled l idx (omega arith)) (λ i a e p.
        Filled-after (substitute_expr-Filled r i (omega arith))
          (λ j b d q. filled (omega arith) (omega arith)))
  substitute_expr-Filled (Expr.nested e) idx h =
      Filled-after (substitute_expr-Filled e idx h) (λ i a e p. filled e p)
  substitute_expr-Filled (Expr.agg f e) idx h =
      Filled-after (substitute_expr-Filled e idx h) (λ i a e p. filled e p)
  substitute_expr-Filled (Expr.literal v) idx h = filled (omega arith) refl
  substitute_expr-Filled (Expr.column s) idx h = filled (omega arith) refl
  substitute_expr-Filled (Expr.compound_column s t) idx h = filled (omega arith) refl

  selection-Filled :
      (o : Option (Expr F)) (idx : ℕ)
      → Enough idx (option_size holes o)
      → Filled
          (λ x. option_size holes x ≡ 0)
          (idx + option_size holes o)
          (substitute_selection params o idx)
  unfolding substitute_selection
  selection-Filled none idx h = filled (omega arith) refl
  selection-Filled (some e) idx h =
      Filled-after (substitute_expr-Filled e idx h) (λ i a e p. filled e p)

  assignment-Filled :
      (a : Assignment F) (idx : ℕ)
      → Enough idx (assignment_holes a)
      → Filled
          (λ x. assignment_holes x ≡ 0)
          (idx + assignment_holes a)
          (substitute_assignment params a idx)
  unfolding substitute_assignment
  assignment-Filled a idx h =
      Filled-after (substitute_expr-Filled a.value idx h) (λ i v e p. filled e p)

  row-Filled :
      (row : List (Expr F)) (idx : ℕ)
      → Enough idx (total holes row)
      → Filled
          (λ x. total holes x ≡ 0)
          (idx + total holes row)
          (each (substitute_expr params) row idx)
  row-Filled row idx h =
      each-Filled (substitute_expr params) holes holes (length params) substitute_expr-Filled row
        idx h

  pub substitute_statement-Filled :
      (s : Statement F) (idx : ℕ)
      → Enough idx (stmt_holes s)
      → Filled (λ x. stmt_holes x ≡ 0) (idx + stmt_holes s) (substitute_statement params s idx)
  unfolding substitute_statement stmt_holes
  substitute_statement-Filled (Statement.select s) idx h =
      Filled-after (selection-Filled s.selection idx h) (λ i o e p. filled e p)
  substitute_statement-Filled (Statement.insert t c values) idx h =
      Filled-after
        (each-Filled (each (substitute_expr params)) (total holes) (total holes) (length params)
          row-Filled values idx h)
        (λ i vs e p. filled e p)
  substitute_statement-Filled (Statement.update t l o) idx h =
      Filled-after
        (each-Filled (substitute_assignment params) assignment_holes assignment_holes
          (length params) assignment-Filled l idx (omega arith))
        (λ i l' e p.
          Filled-after (selection-Filled o i (omega arith))
            (λ j o' d q. filled (omega arith) (omega arith)))
  substitute_statement-Filled (Statement.delete t o) idx h =
      Filled-after (selection-Filled o idx h) (λ i o' e p. filled e p)
  substitute_statement-Filled (Statement.create_table t c) idx h = filled (omega arith) refl
  substitute_statement-Filled (Statement.alter_table t o) idx h = filled (omega arith) refl
  substitute_statement-Filled (Statement.drop_table t) idx h = filled (omega arith) refl

panic-after :
    {A B : Type 0} (r : ℕ × Res SqlError A) (f : A → Fill B) → r.1 ≡ panic → (after r f).1 ≡ panic
panic-after (i, Res.ok a) f h = cc
panic-after (i, Res.err e) f h = cc
panic-after (i, Res.panic) f h = refl

Filled-panic :
    {A B : Type 0} {P : A → Type 0} {m : ℕ} (r : ℕ × Res SqlError A) (f : A → Fill B)
    → Filled P m r
    → ((i : ℕ) (a : A) → i ≡ m → (f a i).1 ≡ panic)
    → (after r f).1 ≡ panic
Filled-panic r f (filled e p) h = h _ _ e

module _ {F : Type 0} (params : List (Value F)) where
  -- When an expression has more placeholders, those in aggregate functions included, than there are
  -- parameters from the index on, and the index is not past the parameters, `substitute_expr`
  -- panics.
  pub substitute_expr-panics :
      (e : Expr F) (idx : ℕ)
      → idx ≤ length params
      → length params < idx + holes e
      → (substitute_expr params e idx).1 ≡ panic
  unfolding substitute_expr holes next_param
  substitute_expr-panics Expr.placeholder idx h k =
      rw (get_elem?-outside params idx (omega arith)) refl
  substitute_expr-panics (Expr.binary l op r) idx h k =
      elim (Bool-cases (leb (idx + holes l) (length params))) [
        | inl few ↦
            Filled-panic (substitute_expr params l idx) _
              (substitute_expr-Filled params l idx (ground (arith, few)))
              (λ i a e.
                panic-after (substitute_expr params r i) _
                  (substitute_expr-panics r i (ground (arith, few, e)) (omega arith)))
        | inr many ↦
            panic-after (substitute_expr params l idx) _
              (substitute_expr-panics l idx h (ground (arith, many)))
      ]
  substitute_expr-panics (Expr.nested e) idx h k =
      panic-after (substitute_expr params e idx) _ (substitute_expr-panics e idx h k)
  substitute_expr-panics (Expr.agg f e) idx h k =
      panic-after (substitute_expr params e idx) _ (substitute_expr-panics e idx h k)
  substitute_expr-panics (Expr.literal v) idx h k = absurd (omega arith)
  substitute_expr-panics (Expr.column s) idx h k = absurd (omega arith)
  substitute_expr-panics (Expr.compound_column s t) idx h k = absurd (omega arith)

filled-ok :
    {A : Type 0} {P : A → Type 0} {m : ℕ} {r : ℕ × Res SqlError A}
    → Filled P m r
    → (a : A) × (r ≡ (m, ok a)) × P a
filled-ok (filled {a = a} e h) = (a, ap (λ i. (i, ok a)) e, h)

ok-injective :
    {A : Type 0} {i j : ℕ} {x y : A} → ◌≡◌ {A = ℕ × Res SqlError A} (i, ok x) (j, ok y) → x ≡ y
ok-injective e = cc (ap (λ (p : ℕ × Res SqlError _). p.1) e)

after-cong :
    {D E A B : Type 0} (r : D × Res E A) (f g : A → D → D × Res E B)
    → ((a : A) (d : D) → f a d ≡ g a d)
    → after r f ≡ after r g
after-cong (d, Res.ok a) f g h = h a d
after-cong (d, Res.err e) f g h = refl
after-cong (d, Res.panic) f g h = refl

module _ {F D R : Type 0} (execute_statement : Statement F → D → D × Res SqlError R)
    (params : List (Value F)) where
  -- Where every statement is filled, the loop runs the filled statements.
  run_resolved-run_all :
      (l : List (Statement F)) (idx : ℕ) (last : R) (d : D) {end : ℕ}
      {resolved : List (Statement F)}
      → each (substitute_statement params) l idx ≡ (end, ok resolved)
      → run_resolved execute_statement params idx last l d
        ≡ run_all execute_statement last resolved d
  unfolding run_resolved run_all each
  run_resolved-run_all [] idx last d {resolved = resolved} h = rw (sym (ok-injective h)) refl
  run_resolved-run_all (s ∷ l) idx last d h =
      let (i, s', filled_s, h') = after-ok (substitute_statement params s idx) _ h in
      let (j, l', filled_l, h'') = after-ok (each (substitute_statement params) l i) _ h' in
      rw filled_s (
        after-cong (execute_statement s' d) _ _ (λ r d'. run_resolved-run_all l i r d' filled_l)
        ∙ ap (λ x. run_all execute_statement last x d) (ok-injective h''))

  -- When no statement of a prepared statement has, in its condition, inserted rows or assignments,
  -- a placeholder in the argument of an aggregate function, and as many parameters are given as
  -- `count_params` counts, the substitution of the parameters through all statements does not panic
  -- and takes all of them; no placeholder is left in the conditions, inserted rows and assignments
  -- of the filled statements; and `execute_prepared` does what the loop of `execute` does on the
  -- filled statements, whatever runs a single statement.
  pub execute_prepared-run_all :
      (l : List (Statement F)) (start : R) (d : D)
      → AllFree StmtAggFree l
      → length params ≡ count_params l
      → (resolved : List (Statement F)) × (each (substitute_statement params) l 0
          ≡ (length params, ok resolved))
        × (total stmt_holes resolved ≡ 0)
        × (execute_prepared execute_statement start
              (record { statements = l; param_count = count_params l })
              params
              d
            ≡ run_all execute_statement start resolved d)
  unfolding execute_prepared count_params
  execute_prepared-run_all l start d free same =
      let size : 0 + total stmt_holes l ≡ length params =
        omega (arith, same, count_from-holes l 0 free) in
      let (resolved, done, none_left) = filled-ok (
        Filled-at (length params) size (
          each-Filled (substitute_statement params) stmt_holes stmt_holes (length params)
            (substitute_statement-Filled params) l 0 (omega (arith, size)))) in
      (resolved, done, none_left, rw ((==_iff _ _).1 same) (run_resolved-run_all l 0 start d done))
