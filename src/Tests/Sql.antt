-- ===== src/Tests/Sql.antt =====
-- Statements of the SQL extension: tokens, parses, a cache and prepared statements.
use dbobj.Base.{
  ℕ, ◌+◌, ◌≤◌, ◌≡◌, refl, true, arith, ◌⊎◌, some, none, List, [], ◌∷◌, ◌++◌, Text, codes, each,
  text_beq, Res, ok, err, panic, length,
}
use dbobj.Base.Int.{pos}
use dbobj.Core.Id.{text_key}
use dbobj.Core.Value.{Value}
use dbobj.Map
use dbobj.Query.{Operator}
use dbobj.Sql.Ast.{Token, token_beq, ParseError, AggFunc, Expr, Statement}
use dbobj.Sql.Executor.{
  SqlError, count_params, max_cache_size, substitute_expr, substitute_statement, run_all,
  execute_prepared, get_or_parse, execute, run_parsed,
}
use dbobj.Sql.Executor.Cache.{Faithful, answer, get_or_parse-bounded, execute-parse}
use dbobj.Sql.Executor.Filled.{execute_prepared-run_all, substitute_expr-panics}
use dbobj.Sql.Executor.Placeholders.{total, AllFree, StmtAggFree, holes, stmt_holes}
use dbobj.Sql.Parser
use dbobj.Sql.Parser.{Parser, Stop, parse_expr, comparison_of, number_value}
use dbobj.Sql.Parser.Complete.{parse_expr-Writes}
use dbobj.Sql.Parser.Grammar.{
  Level, Writes, Before, Reads, name, numeral, compare, single, one_and, one_or, more_or,
}
use dbobj.Sql.Parser.Statement.{parse}
use dbobj.Sql.Parser.Total.{parse-ends}
use dbobj.Sql.Tokenizer.{at, next_token, quote, double_quote}
use dbobj.Sql.Tokenizer.Progress.{Spends, bytes, next_token-Spends}
use dbobj.Sql.Tokenizer.Quoted.{doubled, next_token-quoted, next_token-double_quoted}
use dbobj.Tests.Instances.{nat_floats}

next_token-Spends_example : Spends (codes " <> 'x") 0 (next_token (at (codes " <> 'x") 0))
next_token-Spends_example = next_token-Spends (at (codes " <> 'x") 0)

-- a text that has a quote in it
next_token-quoted_example :
    next_token (at (quote ∷ doubled (codes "it's") ++ quote ∷ codes ";") 4) ≡ (
      at (codes ";") (4 + 1 + bytes (doubled (codes "it's")) + 1),
      ok (Token.single_quoted_string (codes "it's")),
    )
next_token-quoted_example = next_token-quoted (codes "it's") (codes ";") 4 refl

next_token-double_quoted_example :
    next_token (at (double_quote ∷ codes "a b" ++ double_quote ∷ double_quote ∷ codes "c") 0) ≡ (
      at (double_quote ∷ codes "c") (0 + 1 + bytes (codes "a b") + 1),
      ok (Token.single_quoted_string (codes "a b")),
    )
next_token-double_quoted_example =
    next_token-double_quoted (codes "a b") (double_quote ∷ codes "c") 0 (refl, (refl, (refl, tt)))

parse-ends_example :
    ((stmts : List (Statement ℕ)) × (parse (codes "DELETE FROM t WHERE (a = ") ≡ ok stmts))
    ⊎ ((e : ParseError) × (parse {F = ℕ} (codes "DELETE FROM t WHERE (a = ") ≡ err (Stop.failed e)))
parse-ends_example = parse-ends {F = ℕ} (codes "DELETE FROM t WHERE (a = ")

-- A conjunction binds tighter than a disjunction.
parse_runs :
    parse {F = ℕ} (codes "delete from t where a or b and ?;")
    ≡ ok (
        Statement.delete (codes "t") (
          some (
            Expr.binary
              (Expr.column (codes "a"))
              Operator.or
              (Expr.binary (Expr.column (codes "b")) Operator.and Expr.placeholder)))
        ∷ [])
unfolding parse
parse_runs = refl

abbrev a_is_1_or_b : Expr ℕ
a_is_1_or_b =
    Expr.binary
      (Expr.binary (Expr.column (codes "a")) Operator.eq (Expr.literal (Value.integer (pos 1))))
      Operator.or (Expr.column (codes "b"))

abbrev its_tokens : List Token
its_tokens =
    Token.ident (codes "a")
    ∷ Token.equals
    ∷ Token.number (codes "1")
    ∷ Token.kw_or
    ∷ Token.ident (codes "b")
    ∷ []

its_tokens-Writes : Writes Level.disjunction a_is_1_or_b its_tokens
unfolding comparison_of number_value
its_tokens-Writes =
    more_or
      (one_or (
        one_and (
          compare Token.equals Operator.eq refl (name (codes "a"))
            (numeral (codes "1") (Value.integer (pos 1)) refl))))
      (one_and (single (name (codes "b"))))

its_tokens-Before : Before (its_tokens ++ Token.eof ∷ []) (Parser.new (codes "a=1 OR b"))
unfolding Parser.new Parser.advance text_beq
its_tokens-Before = (refl, (refl, (refl, (refl, (refl, (refl, tt))))))

parse_expr-Writes_example :
    Reads (parse_expr 6) a_is_1_or_b Token.eof [] (Parser.new (codes "a=1 OR b"))
unfolding comparison_of token_beq
parse_expr-Writes_example =
    parse_expr-Writes 6 Token.eof [] (Parser.new (codes "a=1 OR b")) its_tokens-Writes (omega arith)
      its_tokens-Before (refl, refl, refl, refl)

empty_fits : length {A = Text × List (Statement ℕ)} [] ≤ max_cache_size
unfolding max_cache_size
empty_fits = omega arith

get_or_parse-bounded_example :
    length (get_or_parse {F = ℕ} (codes "DROP TABLE t") []).0 ≤ max_cache_size
get_or_parse-bounded_example = get_or_parse-bounded {F = ℕ} (codes "DROP TABLE t") [] empty_fits

-- a database that counts the statements it runs
abbrev count_statement : Statement ℕ → ℕ → ℕ × Res SqlError (Unit {0})
count_statement s d = (d + 1, ok tt)

empty-Faithful : Faithful {F = ℕ} []
unfolding Map.get
empty-Faithful sql stmts e = cc

execute-parse_example :
    ((execute count_statement tt (codes "DROP TABLE t") ([], 5)).0.1
      ≡ (run_parsed count_statement tt (answer (parse (codes "DROP TABLE t"))) 5).0)
    × ((execute count_statement tt (codes "DROP TABLE t") ([], 5)).1
        ≡ (run_parsed count_statement tt (answer (parse (codes "DROP TABLE t"))) 5).1)
    × Faithful (execute count_statement tt (codes "DROP TABLE t") ([], 5)).0.0
execute-parse_example = execute-parse count_statement tt (codes "DROP TABLE t") [] 5 empty-Faithful

abbrev delete_where : Statement ℕ
delete_where =
    Statement.delete (codes "t")
      (some (Expr.binary (Expr.column (codes "a")) Operator.eq Expr.placeholder))

delete_where-StmtAggFree : AllFree StmtAggFree (delete_where ∷ delete_where ∷ [])
unfolding StmtAggFree
delete_where-StmtAggFree = ((tt, tt), ((tt, tt), tt))

two_counted : 2 ≡ count_params (delete_where ∷ delete_where ∷ [])
unfolding count_params
two_counted = refl

execute_prepared-run_all_example :
    (resolved : List (Statement ℕ)) × (each
        (substitute_statement (Value.null ∷ Value.boolean true ∷ []))
        (delete_where ∷ delete_where ∷ [])
        0
      ≡ (2, ok resolved))
    × (total stmt_holes resolved ≡ 0)
    × (execute_prepared count_statement tt
          (record {
            statements = delete_where ∷ delete_where ∷ [];
            param_count = count_params (delete_where ∷ delete_where ∷ []);
          })
          (Value.null ∷ Value.boolean true ∷ [])
          5
        ≡ run_all count_statement tt resolved 5)
execute_prepared-run_all_example =
    execute_prepared-run_all count_statement (Value.null ∷ Value.boolean true ∷ [])
      (delete_where ∷ delete_where ∷ []) tt 5 delete_where-StmtAggFree two_counted

one_hole : 0 + 1 ≤ 0 + holes {F = ℕ} (Expr.agg AggFunc.count Expr.placeholder)
unfolding holes
one_hole = omega arith

-- The parser accepts such an expression, and the count of its parameters is 0.
substitute_expr-panics_example :
    (substitute_expr {F = ℕ} [] (Expr.agg AggFunc.count Expr.placeholder) 0).1 ≡ panic
substitute_expr-panics_example =
    substitute_expr-panics [] (Expr.agg AggFunc.count Expr.placeholder) 0 (omega arith) one_hole

abbrev no_value : Expr ℕ
no_value = Expr.placeholder

uncounted :
    count_params (Statement.delete (codes "t") (some (Expr.agg AggFunc.count no_value)) ∷ []) ≡ 0
unfolding count_params
uncounted = refl

-- What the tokenizer refuses ends the text for the parser.
refused_runs :
    parse {F = ℕ} (codes "delete from t # where id = 1")
    ≡ ok (Statement.delete (codes "t") none ∷ [])
unfolding parse
refused_runs = refl
