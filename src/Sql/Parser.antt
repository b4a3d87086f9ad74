-- ===== src/Sql/Parser.antt =====
-- extensions/sql/src/local_parser/mod.rs: the parser, its state and expressions.
pub mod Statement
pub mod Parts
pub mod Ends
pub mod Clauses
pub mod Total
pub mod Grammar
pub mod Atoms
pub mod Complete
use dbobj.Base.{
  ℕ, zero, suc, ◌+◌, ◌*◌, ◌-◌, ◌^◌, Bool, true, false, ◌&&◌, ◌||◌, Option, none, some, List, [],
  ◌∷◌, Text, Res, ok, err, Call, ◌>>=◌, pure, ◌⊎◌, inl, inr, ltb, ◌==◌, if◌then◌else◌,
}
use dbobj.Base.Int.{pos}
use dbobj.Core.Value.{Value}
use dbobj.Query.{Operator}
use dbobj.Sql.Ast.{
  Token, token_beq, ParseError, Message, AggFunc, Expr, expected_token, expected_identifier,
  expected_number, invalid_number, invalid_float, invalid_integer, unexpected_token_in_expression,
}
use dbobj.Sql.Tokenizer
use dbobj.Sql.Tokenizer.{Tokenizer, next_token, is_digit, or_eof}

pub record Parser : Type 0 where
  pub tokenizer : Tokenizer
  pub current : Token
  pub peek : Token
  pub pos : ℕ

-- A run ends with an error of the code, or with its fuel spent.
pub data Stop : Type 0 where
  failed : ParseError → Stop
  out_of_fuel : Stop

abbrev pub Parse {ℓ} : Type ℓ → Type ℓ
Parse A = Call Parser Stop A

-- `str::parse::<f64>`
pub record ParseFloat (F : Type 0) : Type 0 where
  pub parse_f64 : Text → Option F

unfoldable pub new : Text → Parser
unfolding or_eof next_token Tokenizer.new
new input =
    let (t, current) = next_token (Tokenizer.new input) in
    let (u, peek) = next_token t in
    record { tokenizer = u; current = or_eof current; peek = or_eof peek; pos = 0 }

unfoldable pub advance : Parse (Unit {0})
unfolding or_eof next_token
advance p =
    let (t, next) = next_token p.tokenizer in
    (record { tokenizer = t; current = p.peek; peek = or_eof next; pos = p.tokenizer.pos }, ok tt)

-- an error at the position of the tokenizer
abbrev pub raise {ℓ} : {A : Type ℓ} → Message → Parse A
raise m p = (p, err (Stop.failed (record { message = m; position = p.tokenizer.pos })))

abbrev pub give_up {ℓ} : {A : Type ℓ} → Parse A
give_up p = (p, err Stop.out_of_fuel)

-- `if self.current == t`
abbrev pub when {ℓ} : {A : Type ℓ} → Token → Parse A → Parse A → Parse A
when t yes_branch no_branch p = if token_beq p.current t then yes_branch p else no_branch p

unfoldable pub expect : Token → Parse (Unit {0})
unfolding advance token_beq
expect t p =
    if token_beq p.current t
    then advance p
    else (p, err (Stop.failed (record { message = expected_token t p.current; position = p.pos })))

unfoldable pub ident_of : Token → Option Text
ident_of (Token.ident s) = some s
ident_of t = none

unfoldable pub ident_or_error : Option Text → Parse Text
ident_or_error none p = raise (expected_identifier p.current) p
ident_or_error (some s) p = (p, ok s)

unfoldable pub current_ident_owned : Parse Text
unfolding ident_of ident_or_error
current_ident_owned p = ident_or_error (ident_of p.current) p

-- An identifier, and the step behind it.
abbrev pub name_of : Parse Text
name_of = do name ← current_ident_owned; _ ← advance; pure name

-- `str::parse` of an unsigned number: digits, at least one. The tokenizer gives no sign.
unfoldable pub decimal_from : ℕ → Text → Option ℕ
unfolding is_digit
decimal_from n [] = some n
decimal_from n (c ∷ s) =
    let rest = decimal_from (10 * n + (c - b'0')) s in if is_digit c then rest else none

unfoldable pub decimal : Text → Option ℕ
unfolding decimal_from
decimal [] = none
decimal (c ∷ s) = decimal_from 0 (c ∷ s)

unfoldable pub below : ℕ → Option ℕ → Option ℕ
below bound none = none
below bound (some n) = if ltb n bound then some n else none

unfoldable pub contains_dot : Text → Bool
contains_dot [] = false
contains_dot (c ∷ s) = c == b'.' || contains_dot s

unfoldable pub number_of : Token → Option Text
number_of (Token.number s) = some s
number_of t = none

unfoldable pub u64_or_error : Text → Option ℕ → Parse ℕ
unfolding advance
u64_or_error s none = raise (invalid_number s)
u64_or_error s (some n) = do _ ← advance; pure n

unfoldable pub u64_of : Option Text → Parse ℕ
unfolding u64_or_error decimal below
u64_of none p = raise (expected_number p.current) p
u64_of (some s) p = u64_or_error s (below (2 ^ 64) (decimal s)) p

unfoldable pub parse_u64 : Parse ℕ
unfolding u64_of number_of
parse_u64 p = u64_of (number_of p.current) p

-- The comparison behind the first operand; `LIKE` is tested first.
unfoldable pub comparison_of : Token → Option Operator
comparison_of Token.kw_like = some Operator.like
comparison_of Token.equals = some Operator.eq
comparison_of Token.op_not_eq = some Operator.neq
comparison_of Token.op_gt = some Operator.gt
comparison_of Token.op_gt_eq = some Operator.gte
comparison_of Token.op_lt = some Operator.lt
comparison_of Token.op_lt_eq = some Operator.lte
comparison_of t = none

unfoldable pub is_count : AggFunc → Bool
is_count AggFunc.count = true
is_count f = false

module _ {F : Type 0} ⦃pf : ParseFloat F⦄ where
  -- the value of a number, or what is said of it
  unfoldable pub number_value : Text → Message ⊎ Value F
  unfolding contains_dot below decimal
  number_value s =
      if contains_dot s
      then elim (pf.parse_f64 s) [ some f ↦ inr (Value.float f) | none ↦ inl (invalid_float s) ]
      else elim (below (2 ^ 63) (decimal s)) [
        | some n ↦ inr (Value.integer (pos n))
        | none ↦ inl (invalid_integer s)
      ]

  -- a constant of one token
  abbrev pub constant : Value F → Parse (Expr F)
  constant v = do _ ← advance; pure (Expr.literal v)

  unfoldable pub number_atom : Message ⊎ Value F → Parse (Expr F)
  unfolding advance
  number_atom (inl m) = raise m
  number_atom (inr v) = constant v

  -- behind the name `first`
  unfoldable pub dotted : Text → Parse (Expr F)
  unfolding advance current_ident_owned token_beq
  dotted first =
      when Token.dot
        (do
          _ ← advance
          second ← current_ident_owned
          _ ← advance
          pure (Expr.compound_column first second))
        (pure (Expr.column first))

  -- `expr` is `parse_expr`, with less fuel.
  module _ (expr : Parse (Expr F)) where
    unfoldable pub agg_argument : AggFunc → Parse (Expr F)
    unfolding advance token_beq is_count
    agg_argument func p =
        if is_count func && token_beq p.current Token.star
        then constant (Value.integer (pos 1)) p
        else expr p

    unfoldable pub parse_agg_func : AggFunc → Parse (Expr F)
    unfolding advance expect agg_argument
    parse_agg_func func = do
      _ ← advance
      _ ← expect Token.left_paren
      arg ← agg_argument func
      _ ← expect Token.right_paren
      pure (Expr.agg func arg)

    unfoldable pub atom_of : Token → Parse (Expr F)
    unfolding parse_agg_func advance expect dotted number_atom number_value
    atom_of Token.kw_count = parse_agg_func AggFunc.count
    atom_of Token.kw_sum = parse_agg_func AggFunc.sum
    atom_of Token.kw_min = parse_agg_func AggFunc.min
    atom_of Token.kw_max = parse_agg_func AggFunc.max
    atom_of Token.left_paren = do
      _ ← advance
      e ← expr
      _ ← expect Token.right_paren
      pure (Expr.nested e)
    atom_of (Token.ident first) = do _ ← advance; dotted first
    atom_of (Token.number s) = number_atom (number_value s)
    atom_of (Token.single_quoted_string s) = constant (Value.string s)
    atom_of Token.kw_true = constant (Value.boolean true)
    atom_of Token.kw_false = constant (Value.boolean false)
    atom_of Token.kw_null = constant Value.null
    atom_of Token.question = do _ ← advance; pure Expr.placeholder
    atom_of t = raise (unexpected_token_in_expression t)

    unfoldable pub parse_atom : Parse (Expr F)
    unfolding atom_of
    parse_atom p = atom_of p.current p

    -- behind the first operand
    unfoldable pub compared_by : Option Operator → Expr F → Parse (Expr F)
    unfolding advance parse_atom
    compared_by none left = pure left
    compared_by (some op) left = do
      _ ← advance
      right ← parse_atom
      pure (Expr.binary left op right)

    unfoldable pub compared : Expr F → Parse (Expr F)
    unfolding compared_by comparison_of
    compared left p = compared_by (comparison_of p.current) left p

    unfoldable pub parse_comparison : Parse (Expr F)
    unfolding parse_atom compared
    parse_comparison = do left ← parse_atom; compared left

    -- The loops, on fuel.
    unfoldable pub and_loop : ℕ → Expr F → Parse (Expr F)
    unfolding advance parse_comparison token_beq
    and_loop zero left = give_up
    and_loop (suc n) left =
        when Token.kw_and
          (do
            _ ← advance
            right ← parse_comparison
            and_loop n (Expr.binary left Operator.and right))
          (pure left)

    unfoldable pub parse_and : ℕ → Parse (Expr F)
    unfolding parse_comparison and_loop
    parse_and n = do left ← parse_comparison; and_loop n left

    unfoldable pub or_loop : ℕ → ℕ → Expr F → Parse (Expr F)
    unfolding advance parse_and token_beq
    or_loop m zero left = give_up
    or_loop m (suc n) left =
        when Token.kw_or
          (do _ ← advance; right ← parse_and m; or_loop m n (Expr.binary left Operator.or right))
          (pure left)

    unfoldable pub parse_or : ℕ → Parse (Expr F)
    unfolding parse_and or_loop
    parse_or n = do left ← parse_and n; or_loop n n left

  unfoldable pub parse_expr : ℕ → Parse (Expr F)
  unfolding parse_or
  parse_expr zero = give_up
  parse_expr (suc n) = parse_or (parse_expr n) n
