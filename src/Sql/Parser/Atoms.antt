-- ===== src/Sql/Parser/Atoms.antt =====
-- local_parser/mod.rs: the parser on what the grammar writes, atom by atom.
use mathlib.Core.Path.{subst}
use mathlib.Core.List.{append_assoc}
use dbobj.Base.{
  ℕ, suc, ◌≡◌, refl, ap, ◌∙◌, true, false, some, inr, List, [], ◌∷◌, ◌++◌, Text, ok, ◌>>=◌, pure,
  after,
}
use dbobj.Base.Int.{pos}
use dbobj.Core.Value.{Value}
use dbobj.Query.{Operator}
use dbobj.Sql.Ast.{Token, tag, token_beq, AggFunc, Expr}
use dbobj.Sql.Parser.{
  Parser, Parse, ParseFloat, advance, expect, ident_of, ident_or_error, current_ident_owned,
  comparison_of, number_value, number_atom, dotted, agg_argument, parse_agg_func, atom_of,
  parse_atom, parse_comparison, and_loop, parse_and, or_loop, is_count,
}
use dbobj.Sql.Parser.Grammar.{
  Level, Writes, Before, Reads, agg_token, name, agg, compare, single, one_and, more_and, one_or,
  more_or,
}

pub expect-ok :
    (t : Token) (p : Parser)
    → token_beq t t ≡ true
    → p.current ≡ t
    → expect t p ≡ ((advance p).0, ok tt)
unfolding expect advance
expect-ok t p h e = rw (ap (λ k. token_beq k t) e ∙ h) refl

-- The head of what is written is no `*`.
abbrev pub PlainHead : List Token → Type 0
PlainHead [] = ⊥
PlainHead (t ∷ ts) = token_beq t Token.star ≡ false

pub PlainHead-append : (ts us : List Token) → PlainHead ts → PlainHead (ts ++ us)
PlainHead-append [] us h = absurd h
PlainHead-append (t ∷ ts) us h = h

pub PlainHead-Before :
    (ts : List Token) (p : Parser)
    → PlainHead ts
    → Before ts p
    → token_beq p.current Token.star ≡ false
PlainHead-Before [] p h b = absurd h
PlainHead-Before (t ∷ ts) p h b = ap (λ k. token_beq k Token.star) b.0 ∙ h

pub compares-no_dot :
    (t : Token) {op : Operator} → comparison_of t ≡ some op → token_beq t Token.dot ≡ false
unfolding comparison_of token_beq tag
compares-no_dot Token.dot h = cc
compares-no_dot (Token.ident s) h = refl
compares-no_dot t h = refl

-- what two parts write, read part by part
pub regroup :
    (ts : List Token) (x : Token) (us : List Token) (t : Token) (vs : List Token) (p : Parser)
    → Before ((ts ++ x ∷ us) ++ t ∷ vs) p
    → Before (ts ++ x ∷ (us ++ t ∷ vs)) p
regroup ts x us t vs p b = subst (λ l. Before l p) (append_assoc ts (x ∷ us) (t ∷ vs)) b

-- what must not go on where a chain of this level stops
abbrev pub tighter : Level → Level
tighter Level.conjunction = Level.comparison
tighter Level.disjunction = Level.conjunction
tighter l = l

module _ {F : Type 0} ⦃pf : ParseFloat F⦄ where
  pub Writes-PlainHead : {l : Level} {e : Expr F} {ts : List Token} → Writes l e ts → PlainHead ts
  unfolding token_beq tag agg_token
  Writes-PlainHead (single w) = Writes-PlainHead w
  Writes-PlainHead (one_and w) = Writes-PlainHead w
  Writes-PlainHead (one_or w) = Writes-PlainHead w
  Writes-PlainHead (compare t op {ts = ts} h l r) = PlainHead-append ts _ (Writes-PlainHead l)
  Writes-PlainHead (more_and {ts = ts} l r) = PlainHead-append ts _ (Writes-PlainHead l)
  Writes-PlainHead (more_or {ts = ts} l r) = PlainHead-append ts _ (Writes-PlainHead l)
  Writes-PlainHead (agg AggFunc.count w) = refl
  Writes-PlainHead (agg AggFunc.sum w) = refl
  Writes-PlainHead (agg AggFunc.min w) = refl
  Writes-PlainHead (agg AggFunc.max w) = refl
  Writes-PlainHead (name s) = refl
  Writes-PlainHead _ = refl

  pub dotted-plain :
      (s : Text) (p : Parser)
      → token_beq p.current Token.dot ≡ false
      → dotted {F = F} s p ≡ (p, ok (Expr.column s))
  unfolding dotted
  dotted-plain s p h = rw h refl

  pub dotted-more :
      (s t : Text) (p : Parser)
      → p.current ≡ Token.dot
      → (advance p).0.current ≡ Token.ident t
      → dotted {F = F} s p ≡ ((advance (advance p).0).0, ok (Expr.compound_column s t))
  unfolding dotted advance current_ident_owned ident_or_error token_beq tag ident_of
  dotted-more s t p h k = rw (ap (λ x. token_beq x Token.dot) h) (
      ap
        (λ o.
          after (ident_or_error o (advance p).0)
            (λ second. do _ ← advance; pure {A = Expr F} (Expr.compound_column s second)))
        (ap ident_of k))

  module _ (expr : Parse (Expr F)) (p : Parser) where
    at_atom : (t : Token) {r : _} → p.current ≡ t → atom_of expr t p ≡ r → parse_atom expr p ≡ r
    unfolding parse_atom
    at_atom t e h = ap (λ k. atom_of expr k p) e ∙ h

    argument-plain :
        (f : AggFunc) → token_beq p.current Token.star ≡ false → agg_argument expr f p ≡ expr p
    unfolding agg_argument is_count
    argument-plain AggFunc.count h = rw h refl
    argument-plain AggFunc.sum h = refl
    argument-plain AggFunc.min h = refl
    argument-plain AggFunc.max h = refl

    -- what stands before a closing parenthesis
    closing :
        (call : Parse (Expr F)) (g : Expr F → Expr F) (e : Expr F) (t : Token) (us : List Token)
        → Reads call e Token.right_paren (t ∷ us) p
        → Reads (do x ← call; _ ← expect Token.right_paren; pure (g x)) (g e) t us p
    unfolding token_beq tag
    closing call g e t us (p', r, b) =
        ((advance p').0, rw r (rw (expect-ok Token.right_paren p' refl b.0) refl), b.1)

    pub and_loop-goes :
        (k : ℕ) (l r : Expr F) (p' : Parser)
        → p.current ≡ Token.kw_and
        → parse_comparison expr (advance p).0 ≡ (p', ok r)
        → and_loop expr (suc k) l p ≡ and_loop expr k (Expr.binary l Operator.and r) p'
    unfolding and_loop advance token_beq tag
    and_loop-goes k l r p' e h =
        rw (ap (λ x. token_beq x Token.kw_and) e)
          (ap (λ r. after r (λ x. and_loop expr k (Expr.binary l Operator.and x))) h)

    pub or_loop-goes :
        (m k : ℕ) (l r : Expr F) (p' : Parser)
        → p.current ≡ Token.kw_or
        → parse_and expr m (advance p).0 ≡ (p', ok r)
        → or_loop expr m (suc k) l p ≡ or_loop expr m k (Expr.binary l Operator.or r) p'
    unfolding or_loop advance token_beq tag
    or_loop-goes m k l r p' e h =
        rw (ap (λ x. token_beq x Token.kw_or) e)
          (ap (λ r. after r (λ x. or_loop expr m k (Expr.binary l Operator.or x))) h)

  -- an atom of one token
  pub Reads-constant :
      (expr : Parse (Expr F)) (tok : Token) (e : Expr F) (t : Token) (us : List Token) (p : Parser)
      → ((q : Parser) → atom_of expr tok q ≡ ((advance q).0, ok e))
      → Before (tok ∷ t ∷ us) p
      → Reads (parse_atom expr) e t us p
  Reads-constant expr tok e t us p h b = ((advance p).0, at_atom expr p tok b.0 (h p), b.1)

  pub Reads-name :
      (expr : Parse (Expr F)) (s : Text) (t : Token) (us : List Token) (p : Parser)
      → token_beq t Token.dot ≡ false
      → Before (Token.ident s ∷ t ∷ us) p
      → Reads (parse_atom expr) (Expr.column s) t us p
  unfolding atom_of advance
  Reads-name expr s t us p h b = (
    (advance p).0,
    at_atom expr p (Token.ident s) b.0
        (dotted-plain s (advance p).0 (ap (λ k. token_beq k Token.dot) b.1.0 ∙ h)),
    b.1,
  )

  pub Reads-qualified :
      (expr : Parse (Expr F)) (s s' : Text) (t : Token) (us : List Token) (p : Parser)
      → Before (Token.ident s ∷ Token.dot ∷ Token.ident s' ∷ t ∷ us) p
      → Reads (parse_atom expr) (Expr.compound_column s s') t us p
  unfolding atom_of advance
  Reads-qualified expr s s' t us p b = (
    (advance (advance (advance p).0).0).0,
    at_atom expr p (Token.ident s) b.0 (dotted-more s s' (advance p).0 b.1.0 b.1.1.0),
    b.1.1.1,
  )

  pub Reads-numeral :
      (expr : Parse (Expr F)) (s : Text) (v : Value F) (t : Token) (us : List Token) (p : Parser)
      → number_value s ≡ inr v
      → Before (Token.number s ∷ t ∷ us) p
      → Reads (parse_atom expr) (Expr.literal v) t us p
  unfolding atom_of number_atom advance
  Reads-numeral expr s v t us p h b =
      ((advance p).0, at_atom expr p (Token.number s) b.0 (ap (λ x. number_atom x p) h), b.1)

  pub Reads-parens :
      (expr : Parse (Expr F)) (e : Expr F) (t : Token) (us : List Token) (p : Parser)
      → p.current ≡ Token.left_paren
      → Reads expr e Token.right_paren (t ∷ us) (advance p).0
      → Reads (parse_atom expr) (Expr.nested e) t us p
  unfolding atom_of advance
  Reads-parens expr e t us p h r =
      let (p', q, b) = closing expr (advance p).0 expr Expr.nested e t us r in
      (p', at_atom expr p Token.left_paren h q, b)

  pub agg_atom :
      (expr : Parse (Expr F)) (f : AggFunc) → atom_of expr (agg_token f) ≡ parse_agg_func expr f
  unfolding atom_of agg_token
  agg_atom expr AggFunc.count = refl
  agg_atom expr AggFunc.sum = refl
  agg_atom expr AggFunc.min = refl
  agg_atom expr AggFunc.max = refl

  pub Reads-agg :
      (expr : Parse (Expr F)) (f : AggFunc) (e : Expr F) (t : Token) (us : List Token) (p : Parser)
      → p.current ≡ agg_token f
      → (advance p).0.current ≡ Token.left_paren
      → Reads (agg_argument expr f) e Token.right_paren (t ∷ us) (advance (advance p).0).0
      → Reads (parse_atom expr) (Expr.agg f e) t us p
  unfolding parse_agg_func advance token_beq
  Reads-agg expr f e t us p h k r =
      let (p', q, b) =
        closing expr (advance (advance p).0).0 (agg_argument expr f) (Expr.agg f) e t us r in
      (
        p',
        at_atom expr p (agg_token f) h (
            ap (λ (c : Parse (Expr F)). c p) (agg_atom expr f)
            ∙ rw (expect-ok Token.left_paren (advance p).0 refl k) q),
        b,
      )

  pub Reads-argument :
      (expr : Parse (Expr F)) (f : AggFunc) (e : Expr F) (t : Token) (us : List Token) (p : Parser)
      → token_beq p.current Token.star ≡ false
      → Reads expr e t us p
      → Reads (agg_argument expr f) e t us p
  Reads-argument expr f e t us p h (p', r, b) = (p', argument-plain expr p f h ∙ r, b)

  pub Reads-star :
      (expr : Parse (Expr F)) (t : Token) (us : List Token) (p : Parser)
      → Before (Token.star ∷ t ∷ us) p
      → Reads (agg_argument expr AggFunc.count) (Expr.literal (Value.integer (pos 1))) t us p
  unfolding agg_argument is_count token_beq advance
  Reads-star expr t us p b = ((advance p).0, rw (ap (λ k. token_beq k Token.star) b.0) refl, b.1)
