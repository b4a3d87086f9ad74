-- ===== src/Database/Query/Threads.antt =====
-- database.rs: `query_expr` and `execute_plan` on several threads.
use dbobj.Base.{ℕ, ◌≡◌, refl, sym, ap, ◌∙◌, arith, Option-cases, inl, inr, Text, length}
use dbobj.Core.Float.{Float}
use dbobj.Core.Id.{text_key}
use dbobj.Core.Pool.{Interner}
use dbobj.Database.{Database}
use dbobj.Database.Query.{Rows, of_rows, select_expr, execute_plan, query_expr, in_table}
use dbobj.Map
use dbobj.Query.{Expr, QueryPlan, plan}
use dbobj.Table.{Table}
use dbobj.Table.Spread.{spread-eq-each_index}

module _ {F P : Type 0} ⦃fl : Float F⦄ ⦃it : Interner P⦄ where
  select_expr-threads :
      (n m : ℕ) (e : Expr F) (t : Table F P) → select_expr n e t ≡ select_expr m e t
  unfolding select_expr
  select_expr-threads n m e t =
      spread-eq-each_index n _ (length t.ids) ∙ sym (spread-eq-each_index m _ (length t.ids))

module _ {F P W : Type 0} where
  in_table-cong :
      (name : Text) (db : Database F P W) (f g : Table F P → Rows F)
      → ((t : Table F P) → f t ≡ g t)
      → in_table name db f ≡ in_table name db g
  in_table-cong name db f g h = elim (Option-cases (Map.get name db.tables)) [
    | inl q ↦ ground (arith, q)
    | inr (t, q) ↦ ground (arith, q, h t)
  ]

module _ {F P W : Type 0} ⦃fl : Float F⦄ ⦃it : Interner P⦄ where
  execute_plan-threads :
      (n m : ℕ) (p : QueryPlan F) (db : Database F P W) → execute_plan n p db ≡ execute_plan m p db
  unfolding execute_plan
  execute_plan-threads n m (QueryPlan.full_scan name e) db =
      in_table-cong name db (λ t. of_rows (select_expr n e t)) (λ t. of_rows (select_expr m e t))
        (λ t. ap of_rows (select_expr-threads n m e t))
  execute_plan-threads n m (QueryPlan.index_scan name col v) db = refl
  execute_plan-threads n m (QueryPlan.index_filtered_scan name col v e) db = refl

  -- `query_expr` returns the same rows, error or panic for every number of threads.
  pub query_expr-threads :
      (n m : ℕ) (name : Text) (e : Expr F) (db : Database F P W)
      → query_expr n name e db ≡ query_expr m name e db
  unfolding query_expr
  query_expr-threads n m name e db =
      in_table-cong name db (λ t. execute_plan n (plan e t) db) (λ t. execute_plan m (plan e t) db)
        (λ t. execute_plan-threads n m (plan e t) db)
