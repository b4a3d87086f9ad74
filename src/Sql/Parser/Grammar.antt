-- ===== src/Sql/Parser/Grammar.antt =====
-- The grammar of expressions that local_parser/mod.rs reads, as a relation of its own.
use dbobj.Base.{
  ℕ, suc, ◌+◌, ◌<◌, ◌≡◌, refl, ap, ◌∙◌, arith, true, false, none, some, inr, List, [], ◌∷◌, ◌++◌,
  length, length-append, ◌-◌, Text, ok, ◌>>=◌,
}
use dbobj.Base.Int.{pos}
use dbobj.Core.Value.{Value}
use dbobj.Query.{Operator}
use dbobj.Sql.Ast.{Token, token_beq, AggFunc, Expr}
use dbobj.Sql.Parser.{
  Parser, Parse, ParseFloat, advance, comparison_of, number_value, parse_atom, parse_comparison,
  and_loop, parse_and, or_loop, parse_or, parse_expr,
}

pub data Level : Type 0 where
  atom comparison conjunction disjunction : Level

-- the name of an aggregate function
unfoldable pub agg_token : AggFunc → Token
agg_token AggFunc.count = Token.kw_count
agg_token AggFunc.sum = Token.kw_sum
agg_token AggFunc.min = Token.kw_min
agg_token AggFunc.max = Token.kw_max

-- `Writes level e ts`: the tokens `ts` write the expression `e` at that level. `AND` and `OR` group
-- to the left, and a comparison has two atoms.
module _ {F : Type 0} ⦃pf : ParseFloat F⦄ where
  pub data Writes : Level → Expr F → List Token → Type 0 where
    name : (s : Text) → Writes Level.atom (Expr.column s) (Token.ident s ∷ [])
    qualified :
        (s t : Text)
        → Writes Level.atom
            (Expr.compound_column s t)
            (Token.ident s ∷ Token.dot ∷ Token.ident t ∷ [])
    numeral :
        (s : Text) (v : Value F)
        → number_value s ≡ inr v
        → Writes Level.atom (Expr.literal v) (Token.number s ∷ [])
    quoted :
        (s : Text)
        → Writes Level.atom (Expr.literal (Value.string s)) (Token.single_quoted_string s ∷ [])
    true_word : Writes Level.atom (Expr.literal (Value.boolean true)) (Token.kw_true ∷ [])
    false_word : Writes Level.atom (Expr.literal (Value.boolean false)) (Token.kw_false ∷ [])
    null_word : Writes Level.atom (Expr.literal Value.null) (Token.kw_null ∷ [])
    parameter : Writes Level.atom Expr.placeholder (Token.question ∷ [])
    parens :
        {e : Expr F} {ts : List Token}
        → Writes Level.disjunction e ts
        → Writes Level.atom (Expr.nested e) (Token.left_paren ∷ ts ++ Token.right_paren ∷ [])
    agg :
        (f : AggFunc) {e : Expr F} {ts : List Token}
        → Writes Level.disjunction e ts
        → Writes Level.atom
            (Expr.agg f e)
            (agg_token f ∷ Token.left_paren ∷ ts ++ Token.right_paren ∷ [])
    count_star :
        Writes Level.atom
          (Expr.agg AggFunc.count (Expr.literal (Value.integer (pos 1))))
          (Token.kw_count ∷ Token.left_paren ∷ Token.star ∷ Token.right_paren ∷ [])
    compare :
        (t : Token) (op : Operator) {l r : Expr F} {ts us : List Token}
        → comparison_of t ≡ some op
        → Writes Level.atom l ts
        → Writes Level.atom r us
        → Writes Level.comparison (Expr.binary l op r) (ts ++ t ∷ us)
    single : {e : Expr F} {ts : List Token} → Writes Level.atom e ts → Writes Level.comparison e ts
    one_and :
        {e : Expr F} {ts : List Token}
        → Writes Level.comparison e ts
        → Writes Level.conjunction e ts
    more_and :
        {l r : Expr F} {ts us : List Token}
        → Writes Level.conjunction l ts
        → Writes Level.comparison r us
        → Writes Level.conjunction (Expr.binary l Operator.and r) (ts ++ Token.kw_and ∷ us)
    one_or :
        {e : Expr F} {ts : List Token}
        → Writes Level.conjunction e ts
        → Writes Level.disjunction e ts
    more_or :
        {l r : Expr F} {ts us : List Token}
        → Writes Level.disjunction l ts
        → Writes Level.conjunction r us
        → Writes Level.disjunction (Expr.binary l Operator.or r) (ts ++ Token.kw_or ∷ us)

-- the tokens that the parser has before it
abbrev pub Before : List Token → Parser → Type 0
Before [] p = Unit {0}
Before (t ∷ ts) p = (p.current ≡ t) × Before ts (advance p).0

-- No operator that binds at this level or tighter goes on.
abbrev pub Ended : Level → Token → Type 0
Ended Level.atom t = token_beq t Token.dot ≡ false
Ended Level.comparison t = (token_beq t Token.dot ≡ false) × (comparison_of t ≡ none)
Ended Level.conjunction t =
    (token_beq t Token.dot ≡ false) × (comparison_of t ≡ none) × (token_beq t Token.kw_and ≡ false)
Ended Level.disjunction t =
    (token_beq t Token.dot ≡ false)
    × (comparison_of t ≡ none)
    × (token_beq t Token.kw_and ≡ false)
    × (token_beq t Token.kw_or ≡ false)

-- The call gives `e` and stops before the token `t` and what follows it.
abbrev pub Reads {ℓ} : {A : Type ℓ} → Parse A → A → Token → List Token → Parser → Type ℓ
Reads call e t us p = (p' : Parser) × (call p ≡ (p', ok e)) × Before (t ∷ us) p'

module _ {F : Type 0} ⦃pf : ParseFloat F⦄ where
  -- The functions of the four levels, with fuel for what stands in parentheses.
  abbrev pub run : Level → ℕ → Parse (Expr F)
  run Level.atom n = parse_atom (parse_expr n)
  run Level.comparison n = parse_comparison (parse_expr n)
  run Level.conjunction n = parse_and (parse_expr n) n
  run Level.disjunction n = parse_or (parse_expr n) n

  -- the operators of the level that stand outside all parentheses
  unfoldable pub spine : {l : Level} {e : Expr F} {ts : List Token} → Writes l e ts → ℕ
  spine (more_and l r) = suc (spine l)
  spine (more_or l r) = suc (spine l)
  spine _ = 0

  pub positive : {l : Level} {e : Expr F} {ts : List Token} → Writes l e ts → 0 < length ts
  positive (single w) = positive w
  positive (one_and w) = positive w
  positive (one_or w) = positive w
  positive (compare t op {ts = ts} {us = us} h l r) = omega (arith, length-append ts (t ∷ us))
  positive (more_and {ts = ts} {us = us} l r) = omega (arith, length-append ts (Token.kw_and ∷ us))
  positive (more_or {ts = ts} {us = us} l r) = omega (arith, length-append ts (Token.kw_or ∷ us))
  positive _ = omega arith

  pub spine-lt :
      {l : Level} {e : Expr F} {ts : List Token} (w : Writes l e ts) → spine w < length ts
  unfolding spine
  spine-lt (more_and {ts = ts} {us = us} l r) =
      omega (arith, spine-lt l, length-append ts (Token.kw_and ∷ us))
  spine-lt (more_or {ts = ts} {us = us} l r) =
      omega (arith, spine-lt l, length-append ts (Token.kw_or ∷ us))
  spine-lt (single w) = positive w
  spine-lt (one_and w) = positive w
  spine-lt (one_or w) = positive w
  spine-lt (compare t op h l r) = positive (compare t op h l r)
  spine-lt (name s) = omega arith
  spine-lt _ = omega arith

  -- Reading a chain of operators leaves the loop with `k` rounds behind the expression.
  abbrev pub Chain :
      (ℕ → Expr F → Parse (Expr F))
      → Parse (Expr F)
      → ℕ
      → Expr F
      → Token
      → List Token
      → Parser
      → Type 0
  Chain loop first d e t us p =
      (f k : ℕ)
      → f ≡ d + k
      → (p' : Parser) × ((first >>= loop f) p ≡ loop k e p') × Before (t ∷ us) p'

  abbrev pub Goal : (l : Level) (d n : ℕ) → Expr F → Token → List Token → Parser → Type 0
  Goal Level.conjunction d n e t us p =
      Chain (and_loop (parse_expr n)) (parse_comparison (parse_expr n)) d e t us p
  Goal Level.disjunction d n e t us p =
      Chain (or_loop (parse_expr n) n) (parse_and (parse_expr n) n) d e t us p
  Goal l d n e t us p = Reads (run l n) e t us p

  and_loop-stops :
      (expr : Parse (Expr F)) (k : ℕ) (e : Expr F) (p : Parser)
      → token_beq p.current Token.kw_and ≡ false
      → and_loop expr (suc k) e p ≡ (p, ok e)
  unfolding and_loop
  and_loop-stops expr k e p h = rw h refl

  or_loop-stops :
      (expr : Parse (Expr F)) (m k : ℕ) (e : Expr F) (p : Parser)
      → token_beq p.current Token.kw_or ≡ false
      → or_loop expr m (suc k) e p ≡ (p, ok e)
  unfolding or_loop
  or_loop-stops expr m k e p h = rw h refl

  pub finish_and :
      (d n : ℕ) (e : Expr F) (t : Token) (us : List Token) (p : Parser)
      → d < n
      → token_beq t Token.kw_and ≡ false
      → Goal Level.conjunction d n e t us p
      → Reads (run Level.conjunction n) e t us p
  unfolding parse_and
  finish_and d n e t us p l h g =
      let (p', r, b) = g n (suc (n - d - 1)) (omega arith) in
      (
        p',
        r
            ∙ and_loop-stops (parse_expr n) (n - d - 1) e p'
                (ap (λ k. token_beq k Token.kw_and) b.0 ∙ h),
        b,
      )

  pub finish_or :
      (d n : ℕ) (e : Expr F) (t : Token) (us : List Token) (p : Parser)
      → d < n
      → token_beq t Token.kw_or ≡ false
      → Goal Level.disjunction d n e t us p
      → Reads (run Level.disjunction n) e t us p
  unfolding parse_or
  finish_or d n e t us p l h g =
      let (p', r, b) = g n (suc (n - d - 1)) (omega arith) in
      (
        p',
        r
            ∙ or_loop-stops (parse_expr n) n (n - d - 1) e p'
                (ap (λ k. token_beq k Token.kw_or) b.0 ∙ h),
        b,
      )
