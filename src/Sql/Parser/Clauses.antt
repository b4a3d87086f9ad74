-- ===== src/Sql/Parser/Clauses.antt =====
-- local_parser/mod.rs: how many tokens the parts of a statement take.
use dbobj.Base.{
  ℕ, zero, suc, ◌≡◌, refl, arith, Bool-cases, true, false, Option, none, some, inl, inr, [], ◌∷◌,
  Text, ◌>>=◌, pure,
}
use dbobj.Sql.Ast.{Token, token_beq, AlterOperation, Statement}
use dbobj.Sql.Parser.{
  Parser, Parse, advance, when, expect, name_of, number_of, u64_or_error, u64_of, parse_u64,
}
use dbobj.Sql.Parser.Ends.{
  left, Fits, stopped, Takes, Keeps, AtToken, Keeps-Takes, Takes-fewer, Keeps-pure, Keeps-when,
  Takes-then, Keeps-then, at_then, Takes-down, AtToken-advance, Keeps-advance, Takes-expect,
  Takes-name,
}
use dbobj.Sql.Parser.Parts.{
  data_type_of, skip_size, type_or_error, parse_data_type, until_paren, while_comma,
  parse_drop_table, parse_alter_table, parse_join, parse_direction, parse_order_by, parse_count,
  is_join, maybe_join, insert_columns, oriented,
}
use dbobj.Sql.Tokenizer.Progress.{weight}
use dbobj.Table.{DataType}

-- a step over a token that is asked for, or over a name
module _ {ℓ} {A : Type ℓ} {n : ℕ} where
  pub expect_then :
      (t : Token) {g : Unit {0} → Parse A}
      → weight t ≡ 1
      → ((u : Unit {0}) → Keeps n (g u))
      → Takes n (expect t >>= g)
  expect_then t e h = Takes-then (Takes-expect t e) h

  pub name_then : {g : Text → Parse A} → ((s : Text) → Keeps n (g s)) → Takes n (name_of >>= g)
  name_then h = Takes-then Takes-name h

  pub step_then :
      {g : Unit {0} → Parse A} → ((u : Unit {0}) → Keeps n (g u)) → AtToken n (advance >>= g)
  step_then h = at_then AtToken-advance h

  -- the same where what follows may take nothing
  pub expect_keep :
      (t : Token) {g : Unit {0} → Parse A}
      → weight t ≡ 1
      → ((u : Unit {0}) → Keeps n (g u))
      → Keeps n (expect t >>= g)
  expect_keep t e h = Keeps-Takes (expect_then t e h)

  pub name_keep : {g : Text → Parse A} → ((s : Text) → Keeps n (g s)) → Keeps n (name_of >>= g)
  name_keep h = Keeps-Takes (name_then h)

pub Keeps-either {ℓ} :
    {A : Type ℓ} {n : ℕ} (t : Token) {f g : Parse A} → Keeps n f → Keeps n g → Keeps n (when t f g)
Keeps-either t hf hg p l = elim (Bool-cases (token_beq p.current t)) [
  | inl h ↦ rw h (hf p l)
  | inr h ↦ rw h (hg p l)
]

pub Keeps-maybe : {n : ℕ} (t : Token) → weight t ≡ 1 → Keeps n (when t advance (pure tt))
Keeps-maybe t e = Keeps-when t e AtToken-advance (Keeps-pure tt)

pub Keeps-skip_size : {n : ℕ} (dt : DataType) → Keeps n (skip_size dt)
unfolding skip_size weight
Keeps-skip_size dt =
    Keeps-when Token.left_paren refl
      (step_then (λ _.
        Keeps-then Keeps-advance (λ _. expect_keep Token.right_paren refl (λ _. Keeps-pure dt))))
      (Keeps-pure dt)

pub type-weight : (t : Token) {d : DataType} → data_type_of t ≡ some d → weight t ≡ 1
unfolding data_type_of weight
type-weight Token.eof h = cc
type-weight t h = refl

pub Takes-type :
    (o : Option DataType) (p : Parser)
    → data_type_of p.current ≡ o
    → Fits (left p) (type_or_error o p)
unfolding type_or_error
Takes-type none p e = stopped
Takes-type (some d) p e =
    step_then {n = suc (left p)} (λ _. Keeps-skip_size d) p (type-weight p.current e) (omega arith)

pub Takes-data_type : {n : ℕ} → Takes n parse_data_type
unfolding parse_data_type
Takes-data_type p l = Takes-type (data_type_of p.current) p refl

module _ {ℓ} {A : Type ℓ} {item : Parse A} where
  pub Takes-until_paren : (n : ℕ) → Takes n item → Takes n (until_paren item n)
  unfolding until_paren weight
  Takes-until_paren zero h p l = absurd (omega arith)
  Takes-until_paren (suc n) h p l =
      Takes-down h
        (λ x. Keeps-either Token.right_paren (Keeps-pure (x ∷ [])) (
          expect_keep Token.comma refl (λ _.
            Keeps-then (Keeps-Takes (Takes-until_paren n (Takes-fewer n (omega arith) h)))
              (λ xs. Keeps-pure (x ∷ xs)))))
        p l

  pub Takes-while_comma : (n : ℕ) → Takes n item → Takes n (while_comma item n)
  unfolding while_comma weight
  Takes-while_comma zero h p l = absurd (omega arith)
  Takes-while_comma (suc n) h p l =
      Takes-down h
        (λ x.
          Keeps-when Token.comma refl
            (step_then (λ _.
              Keeps-then (Keeps-Takes (Takes-while_comma n (Takes-fewer n (omega arith) h)))
                (λ xs. Keeps-pure (x ∷ xs))))
            (Keeps-pure (x ∷ [])))
        p l

pub Takes-drop_table : {F : Type 0} {n : ℕ} → Takes n (parse_drop_table {F = F})
unfolding parse_drop_table weight
Takes-drop_table = expect_then Token.kw_drop refl (λ _.
    expect_keep Token.kw_table refl (λ _. name_keep (λ s. Keeps-pure (Statement.drop_table s))))

pub Takes-alter_table : {F : Type 0} {n : ℕ} → Takes n (parse_alter_table {F = F})
unfolding parse_alter_table weight
Takes-alter_table = expect_then Token.kw_alter refl (λ _. expect_keep Token.kw_table refl (λ _.
    name_keep (λ s. expect_keep Token.kw_add refl (λ _.
      Keeps-then (Keeps-maybe Token.kw_column refl) (λ _. name_keep (λ c.
        Keeps-then (Keeps-Takes Takes-data_type) (λ d. Keeps-pure (
          Statement.alter_table s (
            AlterOperation.add_column
              (record { name = c; data_type = d; nullable = none; default_value = none }))))))))))

pub number-weight : (t : Token) {s : Text} → number_of t ≡ some s → weight t ≡ 1
unfolding number_of weight
number-weight Token.eof h = cc
number-weight t h = refl

pub u64-Fits :
    (s : Text) (o : Option ℕ) (p : Parser)
    → weight p.current ≡ 1
    → Fits (left p) (u64_or_error s o p)
unfolding u64_or_error
u64-Fits s none p e = stopped
u64-Fits s (some k) p e = step_then {n = suc (left p)} (λ _. Keeps-pure k) p e (omega arith)

pub Takes-u64 :
    (o : Option Text) (p : Parser) → number_of p.current ≡ o → Fits (left p) (u64_of o p)
unfolding u64_of
Takes-u64 none p e = stopped
Takes-u64 (some s) p e = u64-Fits s _ p (number-weight p.current e)

pub Keeps-count : {n : ℕ} (t : Token) → weight t ≡ 1 → Keeps n (parse_count t)
unfolding parse_count parse_u64
Keeps-count t e =
    Keeps-when t e
      (step_then (λ _.
        Keeps-then (Keeps-Takes (λ p l. Takes-u64 (number_of p.current) p refl))
          (λ k. Keeps-pure (some k))))
      (Keeps-pure none)

pub Takes-join : {n : ℕ} (left_table : Text) → Keeps n (parse_join left_table)
unfolding parse_join weight
Takes-join left_table = Keeps-then (Keeps-maybe Token.kw_inner refl) (λ _.
    expect_keep Token.kw_join refl (λ _. name_keep (λ r. expect_keep Token.kw_on refl (λ _.
      name_keep (λ a. expect_keep Token.dot refl (λ _. name_keep (λ x.
        expect_keep Token.equals refl (λ _. name_keep (λ b.
          expect_keep Token.dot refl
            (λ _. name_keep (λ y. Keeps-pure (oriented left_table r a x b y))))))))))))

pub Keeps-maybe_join : {n : ℕ} (table : Text) → Keeps n (maybe_join table)
unfolding maybe_join
Keeps-maybe_join table p l = elim (Bool-cases (is_join p.current)) [
  | inl h ↦ rw h (Keeps-then (Takes-join table) (λ j. Keeps-pure (some j)) p l)
  | inr h ↦ rw h (Keeps-pure none p l)
]

pub Keeps-direction : {n : ℕ} → Keeps n parse_direction
unfolding parse_direction weight
Keeps-direction =
    Keeps-when Token.kw_desc refl (step_then (λ _. Keeps-pure true))
      (Keeps-when Token.kw_asc refl (step_then (λ _. Keeps-pure false)) (Keeps-pure false))

pub Keeps-order_by : {n : ℕ} → Keeps n parse_order_by
unfolding parse_order_by weight
Keeps-order_by =
    Keeps-when Token.kw_order refl
      (step_then (λ _. expect_keep Token.kw_by refl (λ _. name_keep (λ c.
        Keeps-then Keeps-direction
          (λ d. Keeps-pure (some (record { column = c; descending = d })))))))
      (Keeps-pure none)

pub Keeps-insert_columns : (n : ℕ) → Keeps n (insert_columns n)
unfolding insert_columns weight
Keeps-insert_columns n =
    Keeps-when Token.left_paren refl
      (step_then (λ _.
        Keeps-then (Keeps-Takes (Takes-until_paren n Takes-name))
          (λ cols. expect_keep Token.right_paren refl (λ _. Keeps-pure cols))))
      (Keeps-pure [])
