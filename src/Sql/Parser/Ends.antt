-- ===== src/Sql/Parser/Ends.antt =====
-- local_parser/mod.rs: how many tokens the parser of expressions takes.
use dbobj.Base.{
  ℕ, zero, suc, ◌+◌, ◌≤◌, ◌<◌, ◌≡◌, refl, arith, ap, ◌⊎◌, ◌&&◌, Bool-cases, true, Option, none,
  some, inl, inr, Res, ok, err, ◌>>=◌, pure, after, length, Option-cases, Text, ◌∙◌,
}
use dbobj.Base.Int.{pos}
use dbobj.Core.Value.{Value}
use dbobj.Query.{Operator}
use dbobj.Sql.Ast.{Token, tag, token_beq, Message, AggFunc, Expr}
use dbobj.Sql.Parser.{
  Parser, Stop, Parse, ParseFloat, advance, raise, when, expect, ident_of, ident_or_error,
  current_ident_owned, name_of, comparison_of, compared_by, is_count, constant, number_atom,
  number_value, dotted, agg_argument, parse_agg_func, atom_of, parse_atom, compared,
  parse_comparison, and_loop, parse_and, or_loop, parse_or, parse_expr,
}
use dbobj.Sql.Tokenizer.Progress.{weight, next_token-Spends}

-- A bound on the tokens that are left.
unfoldable pub left : Parser → ℕ
unfolding weight
left p = weight p.current + weight p.peek + length p.tokenizer.rest

pub same-weight : (a b : Token) → token_beq a b ≡ true → weight a ≡ weight b
unfolding token_beq weight
same-weight a b h = ground arith

-- The run ends with an error of the code, or with fewer than `m` tokens left.
pub data Fits {ℓ} {A : Type ℓ} (m : ℕ) : Parser × Res Stop A → Type ℓ where
  done : {p : Parser} {a : A} → left p < m → Fits m (p, ok a)
  stopped : {p : Parser} {e : _} → Fits m (p, err (Stop.failed e))

module _ {ℓ κ} {A : Type ℓ} {B : Type κ} {m k : ℕ} where
  Fits-after :
      {r : Parser × Res Stop A} {f : A → Parse B}
      → Fits m r
      → ((p : Parser) (a : A) → left p < m → Fits k (f a p))
      → Fits k (after r f)
  Fits-after (done l) h = h _ _ l
  Fits-after stopped h = stopped

-- With fewer than `n` tokens left the call takes one at least, or keeps to what is left.
abbrev pub Takes {ℓ} : {A : Type ℓ} → ℕ → Parse A → Type ℓ
Takes n f = (p : Parser) → left p < n → Fits (left p) (f p)

abbrev pub Keeps {ℓ} : {A : Type ℓ} → ℕ → Parse A → Type ℓ
Keeps n f = (p : Parser) → left p < n → Fits (suc (left p)) (f p)

-- the same for a call that is made at a token
abbrev pub AtToken {ℓ} : {A : Type ℓ} → ℕ → Parse A → Type ℓ
AtToken n f = (p : Parser) → weight p.current ≡ 1 → left p < n → Fits (left p) (f p)

module _ {ℓ} {A : Type ℓ} where
  pub Fits-weaken : {m : ℕ} (k : ℕ) {r : Parser × Res Stop A} → m ≤ k → Fits m r → Fits k r
  Fits-weaken k l (done h) = done (omega arith)
  Fits-weaken k l stopped = stopped

  pub Keeps-Takes : {n : ℕ} {f : Parse A} → Takes n f → Keeps n f
  Keeps-Takes h p l = Fits-weaken _ (omega arith) (h p l)

  pub Takes-fewer : {n : ℕ} (k : ℕ) {f : Parse A} → k ≤ n → Takes n f → Takes k f
  Takes-fewer k l h p b = h p (omega arith)

  pub Takes-raise : {n : ℕ} (m : Message) → Takes n (raise {A = A} m)
  Takes-raise m p l = stopped

  pub Keeps-pure : {n : ℕ} (a : A) → Keeps n (pure a)
  Keeps-pure a p l = done (omega arith)

  pub Keeps-when :
      {n : ℕ} (t : Token) {f g : Parse A}
      → weight t ≡ 1
      → AtToken n f
      → Keeps n g
      → Keeps n (when t f g)
  Keeps-when t e hf hg p l = elim (Bool-cases (token_beq p.current t)) [
    | inl h ↦ rw h (Fits-weaken _ (omega arith) (hf p (same-weight p.current t h ∙ e) l))
    | inr h ↦ rw h (hg p l)
  ]

module _ {ℓ κ} {A : Type ℓ} {B : Type κ} {n : ℕ} {f : Parse A} {g : A → Parse B} where
  pub Takes-then : Takes n f → ((a : A) → Keeps n (g a)) → Takes n (f >>= g)
  Takes-then hf hg p l =
      Fits-after (hf p l) (λ p' a l'. Fits-weaken _ (omega arith) (hg a p' (omega arith)))

  pub Keeps-then : Keeps n f → ((a : A) → Keeps n (g a)) → Keeps n (f >>= g)
  Keeps-then hf hg p l =
      Fits-after (hf p l) (λ p' a l'. Fits-weaken _ (omega arith) (hg a p' (omega arith)))

  pub at_then : AtToken n f → ((a : A) → Keeps n (g a)) → AtToken n (f >>= g)
  at_then hf hg p e l =
      Fits-after (hf p e l) (λ p' a l'. Fits-weaken _ (omega arith) (hg a p' (omega arith)))

  -- behind a token the bound is one less
  pub Takes-down : Takes (suc n) f → ((a : A) → Keeps n (g a)) → Takes (suc n) (f >>= g)
  Takes-down hf hg p l =
      Fits-after (hf p l) (λ p' a l'. Fits-weaken _ (omega arith) (hg a p' (omega arith)))

  pub at_down : AtToken (suc n) f → ((a : A) → Keeps n (g a)) → AtToken (suc n) (f >>= g)
  at_down hf hg p e l =
      Fits-after (hf p e l) (λ p' a l'. Fits-weaken _ (omega arith) (hg a p' (omega arith)))

left-advance : (p : Parser) → left (advance p).0 + weight p.current ≤ left p
unfolding left advance
left-advance p = omega (arith, (next_token-Spends p.tokenizer).shorter)

pub AtToken-advance : {n : ℕ} → AtToken n advance
unfolding advance
AtToken-advance p e l = done (omega (arith, left-advance p))

pub Keeps-advance : {n : ℕ} → Keeps n advance
unfolding advance
Keeps-advance p l = done (omega (arith, left-advance p))

pub Takes-expect : {n : ℕ} (t : Token) → weight t ≡ 1 → Takes n (expect t)
unfolding expect
Takes-expect t e p l = elim (Bool-cases (token_beq p.current t)) [
  | inl h ↦ rw h (AtToken-advance p (same-weight p.current t h ∙ e) l)
  | inr h ↦ rw h stopped
]

ident-weight : (t : Token) {s : Text} → ident_of t ≡ some s → weight t ≡ 1
unfolding ident_of weight tag
ident-weight (Token.ident s) h = refl
ident-weight t h = cc

ident_or_error-Takes :
    (o : Option Text) (p : Parser)
    → ident_of p.current ≡ o
    → Fits (left p) ((do name ← ident_or_error o; _ ← advance; pure name) p)
unfolding ident_or_error
ident_or_error-Takes none p e = stopped
ident_or_error-Takes (some s) p e =
    Fits-after (AtToken-advance {n = suc (left p)} p (ident-weight p.current e) (omega arith))
      (λ p' a l'. done l')

pub Takes-name : {n : ℕ} → Takes n name_of
unfolding current_ident_owned
Takes-name p l = ident_or_error-Takes (ident_of p.current) p refl

comparison-weight : (t : Token) {op : Operator} → comparison_of t ≡ some op → weight t ≡ 1
unfolding comparison_of weight tag
comparison-weight Token.eof h = cc
comparison-weight t h = refl

module _ {F : Type 0} ⦃pf : ParseFloat F⦄ where
  AtToken-constant : {n : ℕ} (v : Value F) → AtToken n (constant v)
  AtToken-constant v = at_then AtToken-advance (λ _. Keeps-pure _)

  Keeps-constant : {n : ℕ} (v : Value F) → Keeps n (constant v)
  Keeps-constant v = Keeps-then Keeps-advance (λ _. Keeps-pure (Expr.literal v))

  AtToken-number : {n : ℕ} (r : Message ⊎ Value F) → AtToken n (number_atom r)
  unfolding number_atom
  AtToken-number (inr v) p e l = AtToken-constant v p e l
  AtToken-number (inl m) p e l = stopped

  dotted-rest :
      {n : ℕ} (first : Text)
      → Keeps n (do
        second ← current_ident_owned
        _ ← advance
        pure {A = Expr F} (Expr.compound_column first second))
  unfolding current_ident_owned ident_or_error
  dotted-rest first p l = elim (Option-cases (ident_of p.current)) [
    | inl e ↦ rw e stopped
    | inr (s, e) ↦ rw e (Fits-after (Keeps-advance p l) (λ p' a l'. done l'))
  ]

  Keeps-dotted : {n : ℕ} (first : Text) → Keeps n (dotted {F = F} first)
  unfolding dotted weight
  Keeps-dotted first =
      Keeps-when Token.dot refl (at_then AtToken-advance (λ _. dotted-rest first)) (Keeps-pure _)

  module _ {n : ℕ} {expr : Parse (Expr F)} (good : Takes n expr) where
    Keeps-agg_argument : (func : AggFunc) → Keeps n (agg_argument expr func)
    unfolding agg_argument
    Keeps-agg_argument func p l =
        elim (Bool-cases (is_count func && token_beq p.current Token.star)) [
          | inl h ↦ rw h (Keeps-constant (Value.integer (pos 1)) p l)
          | inr h ↦ rw h (Keeps-Takes good p l)
        ]

    AtToken-agg : (func : AggFunc) → AtToken (suc n) (parse_agg_func expr func)
    unfolding parse_agg_func weight
    AtToken-agg func = at_down AtToken-advance (λ _.
        Keeps-then (Keeps-Takes (Takes-expect Token.left_paren refl)) (λ _.
          Keeps-then (Keeps-agg_argument func) (λ arg.
            Keeps-then (Keeps-Takes (Takes-expect Token.right_paren refl))
              (λ _. Keeps-pure (Expr.agg func arg)))))

    AtToken-paren : AtToken (suc n) (atom_of expr Token.left_paren)
    unfolding atom_of weight
    AtToken-paren = at_down AtToken-advance (λ _. Keeps-then (Keeps-Takes good) (λ e.
        Keeps-then (Keeps-Takes (Takes-expect Token.right_paren refl))
          (λ _. Keeps-pure (Expr.nested e))))

    Takes-atom_of :
        (t : Token) (p : Parser) → p.current ≡ t → left p < suc n → Fits (left p) (atom_of expr t p)
    unfolding atom_of weight
    Takes-atom_of Token.kw_count p e l = AtToken-agg AggFunc.count p (ap weight e) l
    Takes-atom_of Token.kw_sum p e l = AtToken-agg AggFunc.sum p (ap weight e) l
    Takes-atom_of Token.kw_min p e l = AtToken-agg AggFunc.min p (ap weight e) l
    Takes-atom_of Token.kw_max p e l = AtToken-agg AggFunc.max p (ap weight e) l
    Takes-atom_of Token.left_paren p e l = AtToken-paren p (ap weight e) l
    Takes-atom_of (Token.ident s) p e l =
        at_then AtToken-advance (λ _. Keeps-dotted s) p (ap weight e) l
    Takes-atom_of (Token.number s) p e l = AtToken-number (number_value s) p (ap weight e) l
    Takes-atom_of (Token.single_quoted_string s) p e l = AtToken-constant _ p (ap weight e) l
    Takes-atom_of Token.kw_true p e l = AtToken-constant _ p (ap weight e) l
    Takes-atom_of Token.kw_false p e l = AtToken-constant _ p (ap weight e) l
    Takes-atom_of Token.kw_null p e l = AtToken-constant _ p (ap weight e) l
    Takes-atom_of Token.question p e l =
        at_then AtToken-advance (λ _. Keeps-pure Expr.placeholder) p (ap weight e) l
    Takes-atom_of t p e l = stopped

    Takes-atom : Takes (suc n) (parse_atom expr)
    unfolding parse_atom
    Takes-atom p l = Takes-atom_of p.current p refl l

    Keeps-compared_by :
        {k : ℕ} (o : Option Operator) (e : Expr F) → k ≤ suc n → Keeps k (compared_by expr o e)
    unfolding compared_by
    Keeps-compared_by none e l = Keeps-pure e
    Keeps-compared_by {k = k} (some op) e l = Keeps-then Keeps-advance (λ _.
        Keeps-then (Keeps-Takes (Takes-fewer k l Takes-atom))
          (λ r. Keeps-pure (Expr.binary e op r)))

    Takes-comparison : Takes (suc n) (parse_comparison expr)
    unfolding parse_comparison compared
    Takes-comparison =
        Takes-then Takes-atom (λ e p. Keeps-compared_by (comparison_of p.current) e (omega arith) p)

    Keeps-and_loop : (k : ℕ) (e : Expr F) → k ≤ suc n → Keeps k (and_loop expr k e)
    unfolding and_loop weight
    Keeps-and_loop zero e l p h = absurd (omega arith)
    Keeps-and_loop (suc k) e l p h =
        Keeps-when Token.kw_and refl
          (at_down AtToken-advance (λ _.
            Keeps-then (Keeps-Takes (Takes-fewer k (omega arith) Takes-comparison))
              (λ r. Keeps-and_loop k (Expr.binary e Operator.and r) (omega arith))))
          (Keeps-pure e) p h

    Takes-and : Takes (suc n) (parse_and expr n)
    unfolding parse_and
    Takes-and = Takes-down Takes-comparison (λ e. Keeps-and_loop n e (omega arith))

    Keeps-or_loop : (k : ℕ) (e : Expr F) → k ≤ suc n → Keeps k (or_loop expr n k e)
    unfolding or_loop weight
    Keeps-or_loop zero e l p h = absurd (omega arith)
    Keeps-or_loop (suc k) e l p h =
        Keeps-when Token.kw_or refl
          (at_down AtToken-advance (λ _.
            Keeps-then (Keeps-Takes (Takes-fewer k (omega arith) Takes-and))
              (λ r. Keeps-or_loop k (Expr.binary e Operator.or r) (omega arith))))
          (Keeps-pure e) p h

    Takes-or : Takes (suc n) (parse_or expr n)
    unfolding parse_or
    Takes-or = Takes-down Takes-and (λ e. Keeps-or_loop n e (omega arith))

  pub Takes-expr : (n : ℕ) → Takes n (parse_expr {F = F} n)
  unfolding parse_expr
  Takes-expr zero p l = absurd (omega arith)
  Takes-expr (suc n) p l = Takes-or (Takes-expr n) p l
