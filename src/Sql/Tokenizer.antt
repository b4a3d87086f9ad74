-- ===== src/Sql/Tokenizer.antt =====
-- extensions/sql/src/local_parser/tokenizer.rs: from a text to its tokens.
pub mod Progress
pub mod Quoted
use dbobj.Base.{
  ℕ, ◌+◌, ◌-◌, Bool, ◌&&◌, ◌||◌, Option, none, some, List, [], ◌∷◌, ◌++◌, map, Text, codes,
  text_beq, ok, err, Res, ltb, leb, ◌==◌, if◌then◌else◌, length, take,
}
use dbobj.Sql.Ast.{
  Token, ParseError, Message, expected_eq_after_bang, unexpected_character,
  unterminated_string_literal, unterminated_double_quoted_string,
}
use dbobj.Sql.Keywords.{ident_or_keyword}

-- `rest` is `input[pos..]`, whose first character is the field `ch`.
pub record Tokenizer : Type 0 where
  pub rest : Text
  pub pos : ℕ

abbrev pub at : Text → ℕ → Tokenizer
at rest pos = record { rest = rest; pos = pos }

unfoldable pub new : Text → Tokenizer
new input = at input 0

-- the bytes of a character
unfoldable pub len_utf8 : ℕ → ℕ
len_utf8 c = if ltb c 128 then 1 else if ltb c 2048 then 2 else if ltb c 65536 then 3 else 4

unfoldable pub advance : Text → ℕ → Tokenizer
unfolding len_utf8
advance [] pos = at [] pos
advance (c ∷ s) pos = at s (pos + len_utf8 c)

-- `is_ascii_whitespace`: tab, line feed, form feed, carriage return, space
unfoldable pub is_whitespace : ℕ → Bool
is_whitespace c = c == 9 || c == 10 || c == 12 || c == 13 || c == 32

unfoldable pub is_digit : ℕ → Bool
is_digit c = leb b'0' c && leb c b'9'

unfoldable pub is_alphabetic : ℕ → Bool
is_alphabetic c = (leb b'a' c && leb c b'z') || (leb b'A' c && leb c b'Z')

unfoldable pub starts_ident : ℕ → Bool
unfolding is_alphabetic
starts_ident c = is_alphabetic c || c == b'_'

unfoldable pub in_ident : ℕ → Bool
unfolding is_alphabetic is_digit
in_ident c = (is_alphabetic c || is_digit c) || c == b'_'

unfoldable pub in_number : ℕ → Bool
unfolding is_digit
in_number c = is_digit c || c == b'.'

-- A loop that advances while the character passes the test.
unfoldable pub advance_while : (ℕ → Bool) → Text → ℕ → Tokenizer
unfolding len_utf8
advance_while test [] pos = at [] pos
advance_while test (c ∷ s) pos =
    let rest = advance_while test s (pos + len_utf8 c) in if test c then rest else at (c ∷ s) pos

unfoldable pub skip_whitespace : Text → ℕ → Tokenizer
unfolding is_whitespace advance_while
skip_whitespace s pos = advance_while is_whitespace s pos

-- `input[start..end]`, from what is left at its two ends
unfoldable pub slice : Text → Text → Text
slice start end = take (length start - length end) start

abbrev pub Scan : Type 0
Scan = Tokenizer × Res ParseError Token

abbrev pub fail : Tokenizer → Message → ℕ → Scan
fail t m position = (t, err (record { message = m; position = position }))

abbrev pub quote : ℕ
quote = 39

abbrev pub double_quote : ℕ
double_quote = 34

-- an empty content is read again from the input
unfoldable pub or_slice : Text → Text → Text → Text
unfolding slice
or_slice [] start quoted = slice start quoted
or_slice (c ∷ s) start quoted = c ∷ s

-- The loop: `start` is what followed the opening quote, at byte `from`; `content` is read so far.
unfoldable pub single_loop : Text → ℕ → Text → Text → ℕ → Scan
unfolding or_slice len_utf8
single_loop start from content [] pos = fail (at [] pos) unterminated_string_literal (from - 1)
single_loop start from content (c ∷ []) pos =
    if c == quote
    then (at [] (pos + 1), ok (Token.single_quoted_string (or_slice content start (c ∷ []))))
    else fail (at [] (pos + len_utf8 c)) unterminated_string_literal (from - 1)
single_loop start from content (c ∷ d ∷ s) pos =
    let doubled = single_loop start from (content ++ quote ∷ []) s (pos + 1 + 1) in
    let plain = single_loop start from (content ++ c ∷ []) (d ∷ s) (pos + len_utf8 c) in
    if c == quote
    then if d == quote then doubled else (
      at (d ∷ s) (pos + 1),
      ok (Token.single_quoted_string (or_slice content start (c ∷ d ∷ s))),
    )
    else plain

-- `t` stands behind the opening quote.
unfoldable pub scan_single_quoted_string : Tokenizer → Scan
unfolding single_loop
scan_single_quoted_string t = single_loop t.rest t.pos [] t.rest t.pos

-- `content.replace("\"\"", "\"")`
unfoldable pub replace_doubled : Text → Text
replace_doubled [] = []
replace_doubled (c ∷ []) = c ∷ []
replace_doubled (c ∷ d ∷ s) =
    let both = c ∷ replace_doubled s in
    let one = c ∷ replace_doubled (d ∷ s) in
    if c == double_quote && d == double_quote then both else one

-- The loop; `end` is what is left behind the last character of the content.
unfoldable pub double_loop : Text → ℕ → Text → Text → ℕ → Scan
unfolding slice replace_doubled len_utf8
double_loop start from end [] pos = fail (at [] pos) unterminated_double_quoted_string (from - 1)
double_loop start from end (c ∷ s) pos =
    let rest = double_loop start from s s (pos + len_utf8 c) in
    if c == double_quote
    then (at s (pos + 1), ok (Token.single_quoted_string (replace_doubled (slice start end))))
    else rest

unfoldable pub scan_double_quoted_string : Tokenizer → Scan
unfolding double_loop
scan_double_quoted_string t = double_loop t.rest t.pos t.rest t.rest t.pos

unfoldable pub scan_ident_or_keyword : Tokenizer → Scan
unfolding in_ident advance_while slice ident_or_keyword
scan_ident_or_keyword t =
    let end = advance_while in_ident t.rest t.pos in
    (end, ok (ident_or_keyword (slice t.rest end.rest)))

unfoldable pub scan_number : Tokenizer → Scan
unfolding in_number advance_while slice
scan_number t =
    let end = advance_while in_number t.rest t.pos in
    (end, ok (Token.number (slice t.rest end.rest)))

-- behind `!`, which stood at `start`
unfoldable pub after_bang : ℕ → Text → ℕ → Scan
unfolding advance
after_bang start [] pos = fail (at [] pos) expected_eq_after_bang start
after_bang start (c ∷ s) pos =
    if c == b'='
    then (advance (c ∷ s) pos, ok Token.op_not_eq)
    else fail (at (c ∷ s) pos) expected_eq_after_bang start

unfoldable pub after_less : Text → ℕ → Scan
unfolding advance
after_less [] pos = (at [] pos, ok Token.op_lt)
after_less (c ∷ s) pos =
    if c == b'='
    then (advance (c ∷ s) pos, ok Token.op_lt_eq)
    else if c == b'>'
    then (advance (c ∷ s) pos, ok Token.op_not_eq)
    else (at (c ∷ s) pos, ok Token.op_lt)

unfoldable pub after_greater : Text → ℕ → Scan
unfolding advance
after_greater [] pos = (at [] pos, ok Token.op_gt)
after_greater (c ∷ s) pos =
    if c == b'=' then (advance (c ∷ s) pos, ok Token.op_gt_eq) else (at (c ∷ s) pos, ok Token.op_gt)

-- the tokens of one character
unfoldable pub punctuation : ℕ → Option Token
punctuation c =
    if c == b'('
    then some Token.left_paren
    else if c == b')'
    then some Token.right_paren
    else if c == b','
    then some Token.comma
    else if c == b';'
    then some Token.semicolon
    else if c == b'.'
    then some Token.dot
    else if c == b'*'
    then some Token.star
    else if c == b'='
    then some Token.equals
    else if c == b'?'
    then some Token.question
    else none

-- the arms behind the tokens of one character, with `t` behind `c`
unfoldable pub scan_from : ℕ → Text → ℕ → Tokenizer → Scan
unfolding after_bang after_less after_greater scan_single_quoted_string scan_double_quoted_string
    starts_ident is_digit scan_ident_or_keyword scan_number
scan_from c s pos t =
    if c == b'!'
    then after_bang pos t.rest t.pos
    else if c == b'<'
    then after_less t.rest t.pos
    else if c == b'>'
    then after_greater t.rest t.pos
    else if c == quote
    then scan_single_quoted_string t
    else if c == double_quote
    then scan_double_quoted_string t
    else if starts_ident c
    then scan_ident_or_keyword (at (c ∷ s) pos)
    else if is_digit c
    then scan_number (at (c ∷ s) pos)
    else fail (at (c ∷ s) pos) (unexpected_character c) pos

unfoldable pub token_at : Text → ℕ → Scan
unfolding advance punctuation scan_from
token_at [] pos = (at [] pos, ok Token.eof)
token_at (c ∷ s) pos =
    let t = advance (c ∷ s) pos in
    elim (punctuation c) [ some k ↦ (t, ok k) | none ↦ scan_from c s pos t ]

unfoldable pub next_token : Tokenizer → Scan
unfolding skip_whitespace token_at
next_token t = let u = skip_whitespace t.rest t.pos in token_at u.rest u.pos

-- `unwrap_or(Token::Eof)`, as the parser reads a token
unfoldable pub or_eof : Res ParseError Token → Token
or_eof (Res.ok t) = t
or_eof _ = Token.eof
