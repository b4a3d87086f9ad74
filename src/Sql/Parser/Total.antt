-- ===== src/Sql/Parser/Total.antt =====
-- local_parser/mod.rs: how many tokens the parser of statements takes.
use dbobj.Base.{
  ℕ, zero, suc, ◌≤◌, ◌≡◌, refl, arith, Bool, false, Option, none, some, inl, inr, List, [], ◌∷◌,
  Text, ◌⊎◌, length, Res, ok, err,
}
use dbobj.Sql.Ast.{Token, Expr, SelectColumns, Statement, ParseError}
use dbobj.Sql.Parser.{Parser, Stop, ParseFloat, new, parse_expr}
use dbobj.Sql.Parser.Ends.{
  left, Fits, done, stopped, Takes, Keeps, Keeps-Takes, Takes-fewer, Keeps-pure, Keeps-when,
  Takes-then, Keeps-then, Takes-down, at_down, AtToken-advance, Takes-expr,
}
use dbobj.Sql.Parser.Statement.{
  parse_where, column_options, column_def, parse_create_table, values_row, parse_insert, assignment,
  parse_update, parse_delete, select_column, select_columns, parse_select, statement_of,
  parse_statement, parse_statements, parse, parse_fuel,
}
use dbobj.Sql.Tokenizer
use dbobj.Sql.Tokenizer.{next_token}
use dbobj.Sql.Tokenizer.Progress.{weight, next_token-Spends}
use dbobj.Sql.Parser.Clauses.{
  expect_then, name_then, step_then, expect_keep, name_keep, Keeps-either, Keeps-maybe,
  Takes-data_type, Takes-until_paren, Takes-while_comma, Takes-drop_table, Takes-alter_table,
  Keeps-count, Keeps-maybe_join, Keeps-order_by, Keeps-insert_columns,
}

module _ {F : Type 0} ⦃pf : ParseFloat F⦄ (n : ℕ) where
  an_expr : (k : ℕ) → k ≤ n → Takes k (parse_expr {F = F} n)
  an_expr k l = Takes-fewer k l (Takes-expr n)

  Keeps-where : Keeps n (parse_where {F = F} n)
  unfolding parse_where weight
  Keeps-where =
      Keeps-when Token.kw_where refl
        (step_then (λ _. Keeps-then (Keeps-Takes (Takes-expr n)) (λ e. Keeps-pure (some e))))
        (Keeps-pure none)

  Keeps-options :
      (k : ℕ) (a : Option Bool) (d : Option (Expr F)) → k ≤ n → Keeps k (column_options n k a d)
  unfolding column_options weight
  Keeps-options zero a d l p h = absurd (omega arith)
  Keeps-options (suc k) a d l p h =
      Keeps-when Token.kw_not refl
        (at_down AtToken-advance
          (λ _. expect_keep Token.kw_null refl (λ _. Keeps-options k (some false) d (omega arith))))
        (Keeps-when Token.kw_default refl
          (at_down AtToken-advance (λ _.
            Keeps-then (Keeps-Takes (an_expr k (omega arith)))
              (λ e. Keeps-options k a (some e) (omega arith))))
          (Keeps-pure (a, d)))
        p h

  Takes-column_def : Takes n (column_def {F = F} n)
  unfolding column_def
  Takes-column_def = name_then (λ c. Keeps-then (Keeps-Takes Takes-data_type) (λ d.
      Keeps-then (Keeps-options n none none (omega arith)) (λ o.
        Keeps-pure (record { name = c; data_type = d; nullable = o.0; default_value = o.1 }))))

  Takes-create_table : Takes n (parse_create_table {F = F} n)
  unfolding parse_create_table weight
  Takes-create_table = expect_then Token.kw_create refl (λ _. expect_keep Token.kw_table refl (λ _.
      name_keep (λ s. expect_keep Token.left_paren refl (λ _.
        Keeps-then (Keeps-Takes (Takes-until_paren n Takes-column_def)) (λ cs.
          expect_keep Token.right_paren refl (λ _. Keeps-pure (Statement.create_table s cs)))))))

  Takes-values_row : Takes n (values_row {F = F} n)
  unfolding values_row weight
  Takes-values_row = expect_then Token.left_paren refl (λ _.
      Keeps-then (Keeps-Takes (Takes-until_paren n (Takes-expr n)))
        (λ row. expect_keep Token.right_paren refl (λ _. Keeps-pure row)))

  Takes-insert : Takes n (parse_insert {F = F} n)
  unfolding parse_insert weight
  Takes-insert = expect_then Token.kw_insert refl (λ _. expect_keep Token.kw_into refl (λ _.
      name_keep (λ t. Keeps-then (Keeps-insert_columns n) (λ cols.
        expect_keep Token.kw_values refl (λ _.
          Keeps-then (Keeps-Takes (Takes-while_comma n Takes-values_row))
            (λ vs. Keeps-pure (Statement.insert t cols vs)))))))

  Takes-assignment : Takes n (assignment {F = F} n)
  unfolding assignment weight
  Takes-assignment = name_then (λ c. expect_keep Token.equals refl (λ _.
      Keeps-then (Keeps-Takes (Takes-expr n)) (λ v. Keeps-pure (record { column = c; value = v }))))

  Takes-update : Takes n (parse_update {F = F} n)
  unfolding parse_update weight
  Takes-update = expect_then Token.kw_update refl (λ _. name_keep (λ t.
      expect_keep Token.kw_set refl (λ _.
        Keeps-then (Keeps-Takes (Takes-while_comma n Takes-assignment))
          (λ as'. Keeps-then Keeps-where (λ sel. Keeps-pure (Statement.update t as' sel))))))

  Takes-delete : Takes n (parse_delete {F = F} n)
  unfolding parse_delete weight
  Takes-delete = expect_then Token.kw_delete refl (λ _.
      expect_keep Token.kw_from refl
        (λ _. name_keep (λ t. Keeps-then Keeps-where (λ sel. Keeps-pure (Statement.delete t sel)))))

  Takes-select_column : Takes n (select_column {F = F} n)
  unfolding select_column weight
  Takes-select_column = Takes-then (Takes-expr n) (λ e.
      Keeps-then
        (Keeps-when Token.kw_as refl (step_then (λ _. name_keep (λ s. Keeps-pure (some s))))
          (Keeps-pure none))
        (λ a. Keeps-pure (record { expr = e; alias = a })))

  Keeps-select_columns : Keeps n (select_columns {F = F} n)
  unfolding select_columns weight
  Keeps-select_columns =
      Keeps-when Token.star refl (step_then (λ _. Keeps-pure SelectColumns.star)) (
        Keeps-then (Keeps-Takes (Takes-while_comma n Takes-select_column))
          (λ cs. Keeps-pure (SelectColumns.list cs)))

  Takes-select : Takes n (parse_select {F = F} n)
  unfolding parse_select weight
  Takes-select = expect_then Token.kw_select refl (λ _. Keeps-then Keeps-select_columns (λ cols.
      expect_keep Token.kw_from refl (λ _. name_keep (λ t. Keeps-then (Keeps-maybe_join t) (λ j.
        Keeps-then Keeps-where (λ sel. Keeps-then Keeps-order_by (λ o.
          Keeps-then (Keeps-count Token.kw_limit refl) (λ a.
            Keeps-then (Keeps-count Token.kw_offset refl) (λ b. Keeps-pure (
              Statement.select (record {
                columns = cols;
                table = t;
                selection = sel;
                join = j;
                order_by = o;
                limit = a;
                offset = b;
              })))))))))))

  Takes-statement_of : (t : Token) → Takes n (statement_of {F = F} n t)
  unfolding statement_of
  Takes-statement_of Token.kw_create p l = Takes-create_table p l
  Takes-statement_of Token.kw_drop p l = Takes-drop_table p l
  Takes-statement_of Token.kw_alter p l = Takes-alter_table p l
  Takes-statement_of Token.kw_insert p l = Takes-insert p l
  Takes-statement_of Token.kw_update p l = Takes-update p l
  Takes-statement_of Token.kw_delete p l = Takes-delete p l
  Takes-statement_of Token.kw_select p l = Takes-select p l
  Takes-statement_of t p l = stopped

  Keeps-statements : (k : ℕ) → k ≤ n → Keeps k (parse_statements {F = F} n k)
  unfolding parse_statements parse_statement weight
  Keeps-statements zero h p l = absurd (omega arith)
  Keeps-statements (suc k) h p l =
      Keeps-either Token.eof (Keeps-pure [])
        (Keeps-Takes (
          Takes-down (λ p l. Takes-statement_of p.current p (omega arith))
            (λ s.
              Keeps-then (Keeps-maybe Token.semicolon refl)
                (λ _. Keeps-then (Keeps-statements k (omega arith)) (λ ss. Keeps-pure (s ∷ ss))))))
        p l

left-new : (input : Text) → left (new input) ≤ length input
unfolding new left Tokenizer.new
left-new input =
    let first = next_token-Spends (Tokenizer.new input) in
    let second = next_token-Spends (next_token (Tokenizer.new input)).0 in
    omega (arith, first.shorter, second.shorter)

Fits-ends {ℓ} :
    {A : Type ℓ} {m : ℕ} {r : Parser × Res Stop A}
    → Fits m r
    → ((a : A) × (r.1 ≡ ok a)) ⊎ ((e : ParseError) × (r.1 ≡ err (Stop.failed e)))
Fits-ends (done {a = a} l) = inl (a, refl)
Fits-ends (stopped {e = e}) = inr (e, refl)

-- On every text, well-formed or not, the parser of statements ends, with a list of statements or
-- with one of its errors: it never panics, and the fuel of one more than the number of characters
-- is never spent.
pub parse-ends :
    {F : Type 0} ⦃pf : ParseFloat F⦄ (input : Text)
    → ((stmts : List (Statement F)) × (parse input ≡ ok stmts))
      ⊎ ((e : ParseError) × (parse {F = F} input ≡ err (Stop.failed e)))
unfolding parse parse_fuel
parse-ends {F} input = Fits-ends (
    Keeps-statements {F = F} (suc (length input)) (suc (length input)) (omega arith) (new input)
      (omega (arith, left-new input)))
