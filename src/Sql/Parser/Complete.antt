-- ===== src/Sql/Parser/Complete.antt =====
-- local_parser/mod.rs: the parser on what the grammar writes, level by level.
use dbobj.Base.{
  ℕ, zero, suc, ◌≤◌, ◌<◌, ◌≡◌, refl, ap, ◌∙◌, arith, none, some, List, [], ◌∷◌, ◌++◌, length,
  length-append, ok, pure, after,
}
use dbobj.Query.{Operator}
use dbobj.Sql.Ast.{Token, token_beq, AggFunc, Expr}
use dbobj.Sql.Parser.{
  Parser, Parse, ParseFloat, advance, comparison_of, atom_of, parse_atom, compared, compared_by,
  parse_comparison, and_loop, parse_and, or_loop, parse_expr,
}
use dbobj.Sql.Parser.Grammar.{
  Level, Writes, Before, Ended, Reads, spine, spine-lt, Goal, Chain, finish_and, finish_or,
  agg_token, name, qualified, numeral, quoted, true_word, false_word, null_word, parameter, parens,
  agg, count_star, compare, single, one_and, more_and, one_or, more_or,
}
use dbobj.Sql.Parser.Atoms.{
  and_loop-goes, or_loop-goes, PlainHead-append, PlainHead-Before, compares-no_dot, regroup,
  tighter, Writes-PlainHead, Reads-constant, Reads-name, Reads-qualified, Reads-numeral,
  Reads-parens, Reads-agg, Reads-argument, Reads-star,
}

module _ {F : Type 0} ⦃pf : ParseFloat F⦄ where
  Reads-compared :
      (expr : Parse (Expr F)) (t : Token) (op : Operator) (l r : Expr F) (x : Token)
      (us : List Token) (p q : Parser)
      → comparison_of t ≡ some op
      → parse_atom expr p ≡ (q, ok l)
      → q.current ≡ t
      → Reads (parse_atom expr) r x us (advance q).0
      → Reads (parse_comparison expr) (Expr.binary l op r) x us p
  unfolding parse_comparison compared compared_by advance
  Reads-compared expr t op l r x us p q h a c (q', e, b) = (
    q',
    ap (λ s. after s (compared expr)) a
        ∙ ap (λ o. compared_by expr o l q) (ap comparison_of c ∙ h)
        ∙ ap (λ s. after s (λ y. pure (Expr.binary l op y))) e,
    b,
  )

  Reads-single :
      (expr : Parse (Expr F)) (e : Expr F) (x : Token) (us : List Token) (p : Parser)
      → comparison_of x ≡ none
      → Reads (parse_atom expr) e x us p
      → Reads (parse_comparison expr) e x us p
  unfolding parse_comparison compared compared_by
  Reads-single expr e x us p h (q, a, b) = (
    q,
    ap (λ s. after s (compared expr)) a
        ∙ ap (λ o. compared_by expr o e q) (ap comparison_of b.0 ∙ h),
    b,
  )

  -- the first operand of a chain
  Chain-first :
      (loop : ℕ → Expr F → Parse (Expr F)) (first : Parse (Expr F)) (e : Expr F) (t : Token)
      (us : List Token) (p : Parser)
      → Reads first e t us p
      → Chain loop first 0 e t us p
  Chain-first loop first e t us p (q, a, b) f k h =
      (q, ap (λ s. after s (loop f)) a ∙ ap (λ j. loop j e q) (let g : f ≡ k = omega arith in g), b)

  goal :
      {l : Level} {e : Expr F} {ts : List Token} (w : Writes l e ts) (n : ℕ) (t : Token)
      (us : List Token) (p : Parser)
      → length ts ≤ n
      → Before (ts ++ t ∷ us) p
      → Ended (tighter l) t
      → Goal l (spine w) n e t us p
  unfolding spine atom_of advance comparison_of token_beq parse_expr agg_token
  goal (name s) n t us p l b h = Reads-name (parse_expr n) s t us p h b
  goal (qualified s s') n t us p l b h = Reads-qualified (parse_expr n) s s' t us p b
  goal (numeral s v e) n t us p l b h = Reads-numeral (parse_expr n) s v t us p e b
  goal (quoted s) n t us p l b h =
      Reads-constant (parse_expr n) (Token.single_quoted_string s) _ t us p (λ q. refl) b
  goal true_word n t us p l b h = Reads-constant (parse_expr n) Token.kw_true _ t us p (λ q. refl) b
  goal false_word n t us p l b h =
      Reads-constant (parse_expr n) Token.kw_false _ t us p (λ q. refl) b
  goal null_word n t us p l b h = Reads-constant (parse_expr n) Token.kw_null _ t us p (λ q. refl) b
  goal parameter n t us p l b h =
      Reads-constant (parse_expr n) Token.question _ t us p (λ q. refl) b
  goal (parens w) zero t us p l b h = absurd (omega arith)
  goal (parens {e = e} {ts = ts} w) (suc n) t us p l b h =
      let r =
        goal w n Token.right_paren (t ∷ us) (advance p).0
          (omega (arith, length-append ts (Token.right_paren ∷ [])))
          (regroup ts Token.right_paren [] t us (advance p).0 b.1) (refl, refl, refl) in
      Reads-parens (parse_expr (suc n)) e t us p b.0 (
        finish_or (spine w) n e Token.right_paren (t ∷ us) (advance p).0
          (omega (arith, spine-lt w, length-append ts (Token.right_paren ∷ []))) refl r)
  goal (agg f w) zero t us p l b h = absurd (omega arith)
  goal (agg f {e = e} {ts = ts} w) (suc n) t us p l b h =
      let q = (advance (advance p).0).0 in
      let c = regroup ts Token.right_paren [] t us q b.1.1 in
      let r =
        goal w n Token.right_paren (t ∷ us) q
          (omega (arith, length-append ts (Token.right_paren ∷ []))) c (refl, refl, refl) in
      Reads-agg (parse_expr (suc n)) f e t us p b.0 b.1.0 (
        Reads-argument (parse_expr (suc n)) f e Token.right_paren (t ∷ us) q
          (PlainHead-Before (ts ++ Token.right_paren ∷ t ∷ us) q
            (PlainHead-append ts _ (Writes-PlainHead w)) c)
          (finish_or (spine w) n e Token.right_paren (t ∷ us) q
            (omega (arith, spine-lt w, length-append ts (Token.right_paren ∷ []))) refl r))
  goal count_star n t us p l b h =
      Reads-agg (parse_expr n) AggFunc.count _ t us p b.0 b.1.0
        (Reads-star (parse_expr n) Token.right_paren (t ∷ us) (advance (advance p).0).0 b.1.1)
  goal (compare k op {l = x} {r = y} {ts = ts} {us = vs} c wl wr) n t us p l b h =
      let (q, a, d) =
        goal wl n k (vs ++ t ∷ us) p (omega (arith, length-append ts (k ∷ vs)))
          (regroup ts k vs t us p b) (compares-no_dot k c) in
      Reads-compared (parse_expr n) k op x y t us p q c a d.0
        (goal wr n t us (advance q).0 (omega (arith, length-append ts (k ∷ vs))) d.1 h.0)
  goal (single {e = e} w) n t us p l b h =
      Reads-single (parse_expr n) e t us p h.1 (goal w n t us p l b h.0)
  goal (one_and {e = e} w) n t us p l b h =
      Chain-first (and_loop (parse_expr n)) (parse_comparison (parse_expr n)) e t us p
        (goal w n t us p l b h)
  goal (one_or {e = e} w) n t us p l b h =
      Chain-first (or_loop (parse_expr n) n) (parse_and (parse_expr n) n) e t us p (
        finish_and (spine w) n e t us p (omega (arith, spine-lt w)) h.2
          (goal w n t us p l b (h.0, h.1)))
  goal (more_and {l = x} {r = y} {ts = ts} {us = vs} wl wr) n t us p l b h = λ f k e.
      let (q, a, d) =
        goal wl n Token.kw_and (vs ++ t ∷ us) p
          (omega (arith, length-append ts (Token.kw_and ∷ vs)))
          (regroup ts Token.kw_and vs t us p b) (refl, refl) f (suc k) (omega arith) in
      let (q', a', d') =
        goal wr n t us (advance q).0 (omega (arith, length-append ts (Token.kw_and ∷ vs))) d.1 h in
      (q', a ∙ and_loop-goes (parse_expr n) q k x y q' d.0 a', d')
  goal (more_or {l = x} {r = y} {ts = ts} {us = vs} wl wr) n t us p l b h = λ f k e.
      let (q, a, d) =
        goal wl n Token.kw_or (vs ++ t ∷ us) p (omega (arith, length-append ts (Token.kw_or ∷ vs)))
          (regroup ts Token.kw_or vs t us p b) (refl, refl, refl) f (suc k) (omega arith) in
      let (q', a', d') =
        finish_and (spine wr) n y t us (advance q).0
          (omega (arith, spine-lt wr, length-append ts (Token.kw_or ∷ vs))) h.2
          (goal wr n t us (advance q).0 (omega (arith, length-append ts (Token.kw_or ∷ vs))) d.1
            (h.0, h.1)) in
      (q', a ∙ or_loop-goes (parse_expr n) q n k x y q' d.0 a', d')

  -- When tokens write an expression in the grammar where OR binds looser than AND, AND looser than
  -- a comparison of two atoms, and both chain to the left, when the parser has these tokens before
  -- it, then a token that goes on with no such operator and no dot, and the fuel is more than the
  -- number of the tokens, then `parse_expr` returns that expression and stops before that token.
  pub parse_expr-Writes :
      {e : Expr F} {ts : List Token} (n : ℕ) (t : Token) (us : List Token) (p : Parser)
      → Writes Level.disjunction e ts
      → length ts < n
      → Before (ts ++ t ∷ us) p
      → Ended Level.disjunction t
      → Reads (parse_expr n) e t us p
  unfolding parse_expr
  parse_expr-Writes zero t us p w l b h = absurd (omega arith)
  parse_expr-Writes {e = e} (suc n) t us p w l b h =
      finish_or (spine w) n e t us p (omega (arith, spine-lt w)) h.3
        (goal w n t us p (omega arith) b (h.0, h.1, h.2))
