-- ===== src/Sql/Tokenizer/Quoted.antt =====
-- tokenizer.rs: string literals as they are written.
use mathlib.Core.List.{append-nil, append_assoc}
use dbobj.Base.{
  ℕ, ◌+◌, ◌-◌, ◌≡◌, refl, sym, ap, ◌∙◌, arith, Bool-cases, true, false, inl, inr, [], ◌∷◌, ◌++◌,
  Text, ok, ◌==◌, if◌then◌else◌, length, length-append, take,
}
use dbobj.Sql.Ast.{Token}
use dbobj.Sql.Tokenizer.{
  at, Scan, len_utf8, advance, advance_while, skip_whitespace, is_whitespace, slice, or_slice,
  single_loop, scan_single_quoted_string, double_loop, scan_double_quoted_string, punctuation,
  scan_from, token_at, next_token, quote, double_quote, replace_doubled,
}
use dbobj.Sql.Tokenizer.Progress.{bytes}

-- A text between single quotes: a quote in it is doubled.
unfoldable pub doubled : Text → Text
doubled [] = []
doubled (c ∷ s) = if c == quote then quote ∷ quote ∷ doubled s else c ∷ doubled s

abbrev pub StartsOther : ℕ → Text → Type 0
StartsOther q [] = Unit {0}
StartsOther q (c ∷ s) = (c == q) ≡ false

module _ (start : Text) (from : ℕ) (content : Text) where
  single_loop-plain :
      (c : ℕ) (s : Text) (pos : ℕ)
      → (c == quote) ≡ false
      → single_loop start from content (c ∷ s) pos
        ≡ single_loop start from (content ++ c ∷ []) s (pos + len_utf8 c)
  unfolding single_loop
  single_loop-plain c [] pos h = ground (arith, h)
  single_loop-plain c (d ∷ s) pos h = ground (arith, h)

  single_loop-pair :
      (s : Text) (pos : ℕ)
      → single_loop start from content (quote ∷ quote ∷ s) pos
        ≡ single_loop start from (content ++ quote ∷ []) s (pos + 1 + 1)
  unfolding single_loop
  single_loop-pair s pos = refl

  single_loop-end :
      (s : Text) (pos : ℕ)
      → StartsOther quote s
      → single_loop start from content (quote ∷ s) pos
        ≡ (at s (pos + 1), ok (Token.single_quoted_string (or_slice content start (quote ∷ s))))
  unfolding single_loop
  single_loop-end [] pos h = refl
  single_loop-end (d ∷ s) pos h = ground (arith, h)

doubled-quote : (s : Text) → doubled (quote ∷ s) ≡ quote ∷ quote ∷ doubled s
unfolding doubled
doubled-quote s = refl

doubled-plain : (c : ℕ) (s : Text) → (c == quote) ≡ false → doubled (c ∷ s) ≡ c ∷ doubled s
unfolding doubled
doubled-plain c s h = ground (arith, h)

-- the token, and the state behind it
abbrev literal_at : Text → Text → ℕ → Text → Scan
literal_at start rest pos content =
    (at rest pos, ok (Token.single_quoted_string (or_slice content start (quote ∷ rest))))

literal-eq :
    (start rest : Text) {p q : ℕ} {s t : Text}
    → p ≡ q
    → s ≡ t
    → literal_at start rest p s ≡ literal_at start rest q t
literal-eq start rest e f = cc

pair_bytes : (pos : ℕ) (s : Text) → pos + 1 + 1 + bytes s + 1 ≡ pos + bytes (quote ∷ quote ∷ s) + 1
unfolding bytes len_utf8
pair_bytes pos s = omega arith

plain_bytes : (c pos : ℕ) (s : Text) → pos + len_utf8 c + bytes s + 1 ≡ pos + bytes (c ∷ s) + 1
unfolding bytes
plain_bytes c pos s = omega arith

no_text :
    (start : Text) (from : ℕ) (content rest : Text) (pos : ℕ)
    → StartsOther quote rest
    → single_loop start from content (doubled [] ++ quote ∷ rest) pos
      ≡ literal_at start rest (pos + bytes (doubled []) + 1) (content ++ [])
unfolding doubled bytes
no_text start from content rest pos h =
    single_loop-end start from content rest pos h
    ∙ literal-eq start rest (omega arith) (sym (append-nil content))

single_loop-doubled :
    (start : Text) (from : ℕ) (content s rest : Text) (pos : ℕ)
    → StartsOther quote rest
    → single_loop start from content (doubled s ++ quote ∷ rest) pos
      ≡ literal_at start rest (pos + bytes (doubled s) + 1) (content ++ s)
single_loop-doubled start from content [] rest pos h = no_text start from content rest pos h
single_loop-doubled start from content (c ∷ s) rest pos h = elim (Bool-cases (c == quote)) [
  | inl q ↦ rw (is_quote q) (
      rw (doubled-quote s) (
        single_loop-pair start from content (doubled s ++ quote ∷ rest) pos
        ∙ single_loop-doubled start from (content ++ quote ∷ []) s rest (pos + 1 + 1) h
        ∙ literal-eq start rest (pair_bytes pos (doubled s)) (append_assoc content (quote ∷ []) s)))
  | inr q ↦ rw (doubled-plain c s q) (
      single_loop-plain start from content c (doubled s ++ quote ∷ rest) pos q
      ∙ single_loop-doubled start from (content ++ c ∷ []) s rest (pos + len_utf8 c) h
      ∙ literal-eq start rest (plain_bytes c pos (doubled s)) (append_assoc content (c ∷ []) s))
]
  where
    is_quote : (c == quote) ≡ true → c ≡ quote
    is_quote q = ground arith

or_slice-doubled : (s rest : Text) → or_slice s (doubled s ++ quote ∷ rest) (quote ∷ rest) ≡ s
unfolding or_slice doubled slice
or_slice-doubled [] rest =
    let e : length (quote ∷ rest) - length (quote ∷ rest) ≡ 0 = omega arith in rw e refl
or_slice-doubled (c ∷ s) rest = refl

-- A text between single quotes with each of its quotes doubled, before something that does not
-- start with a quote, is read by `next_token` as one string token with that text, and the tokenizer
-- stands behind the closing quote.
pub next_token-quoted :
    (s rest : Text) (pos : ℕ)
    → StartsOther quote rest
    → next_token (at (quote ∷ doubled s ++ quote ∷ rest) pos)
      ≡ (at rest (pos + 1 + bytes (doubled s) + 1), ok (Token.single_quoted_string s))
unfolding next_token skip_whitespace advance_while is_whitespace token_at advance punctuation
    scan_from scan_single_quoted_string len_utf8
next_token-quoted s rest pos h =
    single_loop-doubled (doubled s ++ quote ∷ rest) (pos + 1) [] s rest (pos + 1) h
    ∙ ap (λ t. (at rest (pos + 1 + bytes (doubled s) + 1), ok (Token.single_quoted_string t)))
        (or_slice-doubled s rest)

-- No double quote in a text.
abbrev pub NoDouble : Text → Type 0
NoDouble [] = Unit {0}
NoDouble (c ∷ s) = ((c == double_quote) ≡ false) × NoDouble s

double_loop-to_quote :
    (start : Text) (from : ℕ) (s rest : Text) (pos : ℕ)
    → NoDouble s
    → double_loop start from (s ++ double_quote ∷ rest) (s ++ double_quote ∷ rest) pos ≡ (
      at rest (pos + bytes s + 1),
      ok (Token.single_quoted_string (replace_doubled (slice start (double_quote ∷ rest)))),
    )
unfolding double_loop bytes
double_loop-to_quote start from [] rest pos h = ground arith
double_loop-to_quote start from (c ∷ s) rest pos h =
    ground (arith, h.0, double_loop-to_quote start from s rest (pos + len_utf8 c) h.1)

take-length-append : (s t : Text) → take (length s) (s ++ t) ≡ s
take-length-append [] t = refl
take-length-append (c ∷ s) t = ap (λ u. c ∷ u) (take-length-append s t)

slice-append : (s t : Text) → slice (s ++ t) t ≡ s
unfolding slice
slice-append s t =
    let e : length (s ++ t) - length t ≡ length s = omega (arith, length-append s t) in
    rw e (take-length-append s t)

replace_doubled-none : (s : Text) → NoDouble s → replace_doubled s ≡ s
unfolding replace_doubled
replace_doubled-none [] h = refl
replace_doubled-none (c ∷ []) h = refl
replace_doubled-none (c ∷ d ∷ s) h = ground (arith, h.0, replace_doubled-none (d ∷ s) h.1)

-- A text without a double quote, between double quotes, is read by `next_token` as a string token
-- with that text, and the tokenizer stands behind the closing quote, also where another double
-- quote follows.
pub next_token-double_quoted :
    (s rest : Text) (pos : ℕ)
    → NoDouble s
    → next_token (at (double_quote ∷ s ++ double_quote ∷ rest) pos)
      ≡ (at rest (pos + 1 + bytes s + 1), ok (Token.single_quoted_string s))
unfolding next_token skip_whitespace advance_while is_whitespace token_at advance punctuation
    scan_from scan_double_quoted_string len_utf8
next_token-double_quoted s rest pos h =
    double_loop-to_quote (s ++ double_quote ∷ rest) (pos + 1) s rest (pos + 1) h
    ∙ ap (λ t. (at rest (pos + 1 + bytes s + 1), ok (Token.single_quoted_string t)))
        (ap replace_doubled (slice-append s (double_quote ∷ rest)) ∙ replace_doubled-none s h)
