-- ===== src/Sql/Executor/Placeholders.antt =====
-- executor.rs: the placeholders of a statement and its parameters.
use dbobj.Base.{ℕ, ◌+◌, ◌≡◌, refl, arith, Option, none, some, List, [], ◌∷◌}
use dbobj.Sql.Ast.{Expr, Assignment, Statement}
use dbobj.Sql.Executor.{
  count_expr_placeholders, count_row, count_rows, count_assignments, count_selection,
  count_stmt_placeholders, count_from,
}

abbrev pub total {ℓ} : {A : Type ℓ} → (A → ℕ) → List A → ℕ
total size [] = 0
total size (x ∷ xs) = size x + total size xs

abbrev pub AllFree {ℓ} : {A : Type ℓ} → (A → Type 0) → List A → Type 0
AllFree P [] = Unit {0}
AllFree P (x ∷ xs) = P x × AllFree P xs

abbrev pub option_size {ℓ} : {A : Type ℓ} → (A → ℕ) → Option A → ℕ
option_size size none = 0
option_size size (some x) = size x

abbrev pub OptionFree {ℓ} : {A : Type ℓ} → (A → Type 0) → Option A → Type 0
OptionFree P none = Unit {0}
OptionFree P (some x) = P x

module _ {F : Type 0} where
  -- the placeholders in an expression, and those that are filled in a statement
  unfoldable pub holes : Expr F → ℕ
  holes Expr.placeholder = 1
  holes (Expr.binary l op r) = holes l + holes r
  holes (Expr.nested e) = holes e
  holes (Expr.agg f e) = holes e
  holes e = 0

  abbrev pub assignment_holes : Assignment F → ℕ
  assignment_holes a = holes a.value

  unfoldable pub stmt_holes : Statement F → ℕ
  unfolding holes
  stmt_holes (Statement.select s) = option_size holes s.selection
  stmt_holes (Statement.insert table columns values) = total (total holes) values
  stmt_holes (Statement.update table assignments selection) =
      total assignment_holes assignments + option_size holes selection
  stmt_holes (Statement.delete table selection) = option_size holes selection
  stmt_holes s = 0

  -- No placeholder stands in the argument of an aggregate function.
  unfoldable pub AggFree : Expr F → Type 0
  unfolding holes
  AggFree (Expr.binary l op r) = AggFree l × AggFree r
  AggFree (Expr.nested e) = AggFree e
  AggFree (Expr.agg f e) = holes e ≡ 0
  AggFree e = Unit {0}

  unfoldable pub StmtAggFree : Statement F → Type 0
  unfolding AggFree
  StmtAggFree (Statement.select s) = OptionFree AggFree s.selection
  StmtAggFree (Statement.insert table columns values) = AllFree (AllFree AggFree) values
  StmtAggFree (Statement.update table assignments selection) =
      AllFree (λ a. AggFree a.value) assignments × OptionFree AggFree selection
  StmtAggFree (Statement.delete table selection) = OptionFree AggFree selection
  StmtAggFree s = Unit {0}

  count-holes :
      (e : Expr F) (count : ℕ) → AggFree e → count_expr_placeholders e count ≡ count + holes e
  unfolding count_expr_placeholders holes AggFree
  count-holes Expr.placeholder count h = refl
  count-holes (Expr.binary l op r) count h =
      omega (arith, count-holes l count h.0, count-holes r (count_expr_placeholders l count) h.1)
  count-holes (Expr.nested e) count h = count-holes e count h
  count-holes (Expr.agg f e) count h = omega arith
  count-holes (Expr.literal v) count h = omega arith
  count-holes (Expr.column s) count h = omega arith
  count-holes (Expr.compound_column s t) count h = omega arith

  count-row :
      (es : List (Expr F)) (count : ℕ)
      → AllFree AggFree es
      → count_row es count ≡ count + total holes es
  unfolding count_row
  count-row [] count h = omega arith
  count-row (e ∷ es) count h =
      omega (arith, count-holes e count h.0, count-row es (count_expr_placeholders e count) h.1)

  count-rows :
      (rows : List (List (Expr F))) (count : ℕ)
      → AllFree (AllFree AggFree) rows
      → count_rows rows count ≡ count + total (total holes) rows
  unfolding count_rows
  count-rows [] count h = omega arith
  count-rows (row ∷ rows) count h =
      omega (arith, count-row row count h.0, count-rows rows (count_row row count) h.1)

  count-assignments :
      (l : List (Assignment F)) (count : ℕ)
      → AllFree (λ a. AggFree a.value) l
      → count_assignments l count ≡ count + total assignment_holes l
  unfolding count_assignments
  count-assignments [] count h = omega arith
  count-assignments (a ∷ l) count h = omega (
    arith,
    count-holes a.value count h.0,
    count-assignments l (count_expr_placeholders a.value count) h.1,
  )

  count-selection :
      (o : Option (Expr F)) (count : ℕ)
      → OptionFree AggFree o
      → count_selection o count ≡ count + option_size holes o
  unfolding count_selection
  count-selection none count h = omega arith
  count-selection (some e) count h = count-holes e count h

  count-stmt :
      (s : Statement F) (count : ℕ)
      → StmtAggFree s
      → count_stmt_placeholders s count ≡ count + stmt_holes s
  unfolding count_stmt_placeholders stmt_holes StmtAggFree
  count-stmt (Statement.select s) count h = count-selection s.selection count h
  count-stmt (Statement.insert t c values) count h = count-rows values count h
  count-stmt (Statement.update t l o) count h =
      omega
        (arith, count-assignments l count h.0, count-selection o (count_assignments l count) h.1)
  count-stmt (Statement.delete t o) count h = count-selection o count h
  count-stmt (Statement.create_table t c) count h = omega arith
  count-stmt (Statement.alter_table t o) count h = omega arith
  count-stmt (Statement.drop_table t) count h = omega arith

  pub count_from-holes :
      (l : List (Statement F)) (count : ℕ)
      → AllFree StmtAggFree l
      → count_from l count ≡ count + total stmt_holes l
  unfolding count_from
  count_from-holes [] count h = omega arith
  count_from-holes (s ∷ l) count h =
      omega
        (arith, count-stmt s count h.0, count_from-holes l (count_stmt_placeholders s count) h.1)
