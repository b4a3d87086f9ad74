-- ===== src/Sql/Tokenizer/Progress.antt =====
-- tokenizer.rs: what one token takes from the input, and the positions.
use dbobj.Base.{
  ℕ, ◌+◌, ◌-◌, ◌≤◌, ◌<◌, ◌≡◌, refl, arith, Bool, true, false, none, some, Option, [], ◌∷◌, ◌++◌,
  Text, Res, ok, err, ◌==◌, if◌then◌else◌, length,
}
use dbobj.Sql.Ast.{Token, tag, ParseError, Message}
use dbobj.Sql.Tokenizer.{
  Tokenizer, at, Scan, len_utf8, advance, advance_while, skip_whitespace, is_digit, starts_ident,
  in_ident, in_number, single_loop, scan_single_quoted_string, double_loop,
  scan_double_quoted_string, scan_ident_or_keyword, scan_number, after_bang, after_less,
  after_greater, punctuation, scan_from, token_at, next_token, or_eof, quote, double_quote,
}

-- the length of a text in bytes
unfoldable pub bytes : Text → ℕ
unfolding len_utf8
bytes [] = 0
bytes (c ∷ s) = len_utf8 c + bytes s

-- the tokens that are left to read in it
unfoldable pub weight : Token → ℕ
unfolding tag
weight t = if tag t == tag Token.eof then 0 else 1

abbrev pub Within : ℕ → Res ParseError Token → Type 0
Within n (Res.err e) = e.position ≤ n
Within n _ = Unit {0}

-- Reading from `s` at byte `pos` loses no byte, takes a character for each token and reports an
-- error inside the input.
pub record Spends (s : Text) (pos : ℕ) (r : Scan) : Type 0 where
  pub same_bytes : r.0.pos + bytes r.0.rest ≡ pos + bytes s
  pub shorter : length r.0.rest + weight (or_eof r.1) ≤ length s
  pub within : Within (pos + bytes s) r.1

pub weight_le : (t : Token) → weight t ≤ 1
unfolding weight
weight_le t = ground arith

advance_while-same_bytes :
    (test : ℕ → Bool) (s : Text) (pos : ℕ)
    → (advance_while test s pos).pos + bytes (advance_while test s pos).rest ≡ pos + bytes s
unfolding advance_while bytes
advance_while-same_bytes test [] pos = refl
advance_while-same_bytes test (c ∷ s) pos =
    ground (arith, advance_while-same_bytes test s (pos + len_utf8 c))

advance_while-shorter :
    (test : ℕ → Bool) (s : Text) (pos : ℕ) → length (advance_while test s pos).rest ≤ length s
unfolding advance_while
advance_while-shorter test [] pos = omega arith
advance_while-shorter test (c ∷ s) pos =
    ground (arith, advance_while-shorter test s (pos + len_utf8 c))

advance_while-passes :
    (test : ℕ → Bool) (c : ℕ) (s : Text) (pos : ℕ)
    → test c ≡ true
    → length (advance_while test (c ∷ s) pos).rest ≤ length s
unfolding advance_while
advance_while-passes test c s pos h =
    ground (arith, h, advance_while-shorter test s (pos + len_utf8 c))

-- the characters that the code steps over by one byte
one_byte : (c k : ℕ) → (c == k) ≡ true → k < 128 → len_utf8 c ≡ 1
unfolding len_utf8
one_byte c k h l = ground arith

module _ {s : Text} {pos : ℕ} where
  Spends-if :
      (b : Bool) {x y : Scan}
      → (b ≡ true → Spends s pos x)
      → (b ≡ false → Spends s pos y)
      → Spends s pos (if b then x else y)
  Spends-if true f g = f refl
  Spends-if false f g = g refl

  -- what is read from further on
  Spends-later :
      (s' : Text) (pos' : ℕ) {r : Scan}
      → pos' + bytes s' ≡ pos + bytes s
      → length s' ≤ length s
      → Spends s' pos' r
      → Spends s pos r
  Spends-later s' pos' {r = (u, Res.ok k)} e l h = record {
    same_bytes = omega (arith, h.same_bytes);
    shorter = omega (arith, h.shorter);
    within = tt;
  }
  Spends-later s' pos' {r = (u, Res.err x)} e l h = record {
    same_bytes = omega (arith, h.same_bytes);
    shorter = omega (arith, h.shorter);
    within = omega (arith, h.within);
  }
  Spends-later s' pos' {r = (u, Res.panic)} e l h = record {
    same_bytes = omega (arith, h.same_bytes);
    shorter = omega (arith, h.shorter);
    within = tt;
  }

  Spends-token :
      (s' : Text) (pos' : ℕ) (k : Token)
      → pos' + bytes s' ≡ pos + bytes s
      → length s' < length s
      → Spends s pos (at s' pos', ok k)
  unfolding or_eof
  Spends-token s' pos' k e l = record {
    same_bytes = e;
    shorter = omega (arith, weight_le k);
    within = tt;
  }

  Spends-error :
      (s' : Text) (pos' : ℕ) (m : Message) (p : ℕ)
      → pos' + bytes s' ≡ pos + bytes s
      → length s' ≤ length s
      → p ≤ pos + bytes s
      → Spends s pos (at s' pos', err (record { message = m; position = p }))
  unfolding or_eof weight
  Spends-error s' pos' m p e l w = record { same_bytes = e; shorter = omega arith; within = w }

-- a step over one character
step_bytes : (c : ℕ) (s : Text) (pos : ℕ) → pos + len_utf8 c + bytes s ≡ pos + bytes (c ∷ s)
unfolding bytes
step_bytes c s pos = omega arith

step_one :
    (c k : ℕ) (s : Text) (pos : ℕ)
    → (c == k) ≡ true
    → k < 128
    → pos + 1 + bytes s ≡ pos + bytes (c ∷ s)
unfolding bytes
step_one c k s pos h l = omega (arith, one_byte c k h l)

single_loop-Spends :
    (start : Text) (from : ℕ) (content s : Text) (pos : ℕ)
    → from ≤ pos + bytes s
    → Spends s pos (single_loop start from content s pos)
unfolding single_loop
single_loop-Spends start from content [] pos h =
    Spends-error [] pos _ (from - 1) refl (omega arith) (omega arith)
single_loop-Spends start from content (c ∷ []) pos h =
    Spends-if (c == quote)
      (λ q. Spends-token [] (pos + 1) _ (step_one c quote [] pos q (omega arith)) (omega arith))
      (λ q.
        Spends-error [] (pos + len_utf8 c) _ (from - 1) (step_bytes c [] pos) (omega arith)
          (omega arith))
single_loop-Spends start from content (c ∷ d ∷ s) pos h =
    Spends-if (c == quote)
      (λ q.
        let e = step_one c quote (d ∷ s) pos q (omega arith) in
        Spends-if (d == quote)
          (λ r.
            let e' = step_one d quote s (pos + 1) r (omega arith) in
            Spends-later s (pos + 1 + 1) (omega arith) (omega arith)
              (single_loop-Spends start from (content ++ quote ∷ []) s (pos + 1 + 1) (omega arith)))
          (λ r. Spends-token (d ∷ s) (pos + 1) _ e (omega arith)))
      (λ q.
        let e = step_bytes c (d ∷ s) pos in
        Spends-later (d ∷ s) (pos + len_utf8 c) e (omega arith) (
          single_loop-Spends start from (content ++ c ∷ []) (d ∷ s) (pos + len_utf8 c)
            (omega arith)))

double_loop-Spends :
    (start : Text) (from : ℕ) (end s : Text) (pos : ℕ)
    → from ≤ pos + bytes s
    → Spends s pos (double_loop start from end s pos)
unfolding double_loop
double_loop-Spends start from end [] pos h =
    Spends-error [] pos _ (from - 1) refl (omega arith) (omega arith)
double_loop-Spends start from end (c ∷ s) pos h =
    let e = step_bytes c s pos in
    Spends-if (c == double_quote)
      (λ q.
        Spends-token s (pos + 1) _ (step_one c double_quote s pos q (omega arith)) (omega arith))
      (λ q.
        Spends-later s (pos + len_utf8 c) e (omega arith)
          (double_loop-Spends start from s s (pos + len_utf8 c) (omega arith)))

module _ (c : ℕ) (s : Text) (pos : ℕ) where
  ident-Spends : starts_ident c ≡ true → Spends (c ∷ s) pos (scan_ident_or_keyword (at (c ∷ s) pos))
  unfolding scan_ident_or_keyword starts_ident in_ident
  ident-Spends h =
      Spends-token _ _ _ (advance_while-same_bytes in_ident (c ∷ s) pos)
        (let l = advance_while-passes in_ident c s pos (ground (arith, h)) in omega (arith, l))

  number-Spends : is_digit c ≡ true → Spends (c ∷ s) pos (scan_number (at (c ∷ s) pos))
  unfolding scan_number in_number
  number-Spends h =
      Spends-token _ _ _ (advance_while-same_bytes in_number (c ∷ s) pos)
        (let l = advance_while-passes in_number c s pos (ground (arith, h)) in omega (arith, l))

after_bang-Spends :
    (start : ℕ) (s : Text) (pos : ℕ) → start ≤ pos → Spends s pos (after_bang start s pos)
unfolding after_bang advance
after_bang-Spends start [] pos h = Spends-error [] pos _ start refl (omega arith) (omega arith)
after_bang-Spends start (c ∷ s) pos h =
    Spends-if (c == b'=') (λ q. Spends-token s _ _ (step_bytes c s pos) (omega arith))
      (λ q. Spends-error (c ∷ s) pos _ start refl (omega arith) (omega arith))

module _ {s : Text} {pos : ℕ} where
  after_less-Spends :
      (s' : Text) (pos' : ℕ)
      → pos' + bytes s' ≡ pos + bytes s
      → length s' < length s
      → Spends s pos (after_less s' pos')
  unfolding after_less advance
  after_less-Spends [] pos' e l = Spends-token [] pos' _ e l
  after_less-Spends (c ∷ s') pos' e l =
      let f = step_bytes c s' pos' in
      Spends-if (c == b'=') (λ q. Spends-token s' _ _ (omega arith) (omega arith))
        (λ q.
          Spends-if (c == b'>') (λ q. Spends-token s' _ _ (omega arith) (omega arith))
            (λ q. Spends-token (c ∷ s') pos' _ e l))

  after_greater-Spends :
      (s' : Text) (pos' : ℕ)
      → pos' + bytes s' ≡ pos + bytes s
      → length s' < length s
      → Spends s pos (after_greater s' pos')
  unfolding after_greater advance
  after_greater-Spends [] pos' e l = Spends-token [] pos' _ e l
  after_greater-Spends (c ∷ s') pos' e l =
      let f = step_bytes c s' pos' in
      Spends-if (c == b'=') (λ q. Spends-token s' _ _ (omega arith) (omega arith))
        (λ q. Spends-token (c ∷ s') pos' _ e l)

scan_from-Spends :
    (c : ℕ) (s : Text) (pos : ℕ) → Spends (c ∷ s) pos (scan_from c s pos (at s (pos + len_utf8 c)))
unfolding scan_from scan_single_quoted_string scan_double_quoted_string
scan_from-Spends c s pos =
    let e = step_bytes c s pos in
    let l : length s < length (c ∷ s) = omega arith in
    let p = pos + len_utf8 c in
    Spends-if (c == b'!')
      (λ _. Spends-later s p e (omega arith) (after_bang-Spends pos s p (omega arith)))
      (λ _.
        Spends-if (c == b'<') (λ _. after_less-Spends s p e l)
          (λ _.
            Spends-if (c == b'>') (λ _. after_greater-Spends s p e l)
              (λ _.
                Spends-if (c == quote)
                  (λ _.
                    Spends-later s p e (omega arith) (single_loop-Spends s p [] s p (omega arith)))
                  (λ _.
                    Spends-if (c == double_quote)
                      (λ _.
                        Spends-later s p e (omega arith)
                          (double_loop-Spends s p s s p (omega arith)))
                      (λ _. Spends-if (starts_ident c) (ident-Spends c s pos) (λ _.
                        Spends-if (is_digit c) (number-Spends c s pos) (λ _.
                          Spends-error (c ∷ s) pos _ pos refl (omega arith) (omega arith))))))))

token_at-Spends : (s : Text) (pos : ℕ) → Spends s pos (token_at s pos)
unfolding token_at advance weight or_eof
token_at-Spends [] pos = record { same_bytes = refl; shorter = omega arith; within = tt }
token_at-Spends (c ∷ s) pos = go (punctuation c)
  where
    go :
        (o : Option Token)
        → Spends (c ∷ s) pos (elim o [
          | some k ↦ (at s (pos + len_utf8 c), ok k)
          | none ↦ scan_from c s pos (at s (pos + len_utf8 c))
        ])
    go (some k) = Spends-token s _ k (step_bytes c s pos) (omega arith)
    go none = scan_from-Spends c s pos

-- `next_token`, whether it returns a token or an error, loses no byte of the text (its position and
-- the bytes left add up to what they were), has at least one character less left when its token is
-- not the end, never more, and reports an error at a position inside the text.
pub next_token-Spends : (t : Tokenizer) → Spends t.rest t.pos (next_token t)
unfolding next_token skip_whitespace
next_token-Spends t =
    Spends-later _ _ (advance_while-same_bytes _ t.rest t.pos)
      (advance_while-shorter _ t.rest t.pos) (token_at-Spends _ _)
