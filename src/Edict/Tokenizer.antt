-- ===== src/Edict/Tokenizer.antt =====
-- Tokenizer (edict/edict_compiler.h, edict/edict_compiler.cpp). `input` and `position` are the list of
-- the bytes from the position on, `rest`, beside the position itself; `input.substr` is what a loop
-- has taken. Bytes from 128 up are no white space, as in the "C" locale.
pub mod Progress
pub mod Lines
use agentc.Prelude.{
  ℕ, zero, suc, ◌+◌, ◌%◌, ◌^◌, Bool, true, false, not, ◌&&◌, ◌||◌, List, [], ◌∷◌, ◌++◌, Option,
  none, some, Bytes, codes, leb, ◌==◌, if◌then◌else◌,
}

pub data TokenType : Type 0 where
  literal identifier operator context_open context_close function_open : TokenType
  function_close string quote colon comma eof : TokenType

pub record Token : Type 0 where
  pub type : TokenType
  pub value : Bytes
  pub position : ℕ
  pub had_space_before : Bool
  pub line : ℕ
  pub col : ℕ

-- position, line_ and col_; the last two are `uint32_t`
pub record Cursor : Type 0 where
  pub position : ℕ
  pub line : ℕ
  pub col : ℕ

pub record Tokenizer : Type 0 where
  pub rest : Bytes
  pub cursor : Cursor
  pub json_mode : Bool

abbrev pub wrap32 : ℕ → ℕ
wrap32 n = n % 2 ^ 32

-- `position++`
abbrev pub skip_byte : Cursor → Cursor
skip_byte k = record k { position = k.position + 1 }

-- `++col_; position++`
abbrev pub next_col : Cursor → Cursor
next_col k = record k { position = k.position + 1; col = wrap32 (k.col + 1) }

-- `++line_; col_ = 1`
abbrev pub next_line : Cursor → Cursor
next_line k = record { position = k.position + 1; line = wrap32 (k.line + 1); col = 1 }

-- past any byte
abbrev pub pass : ℕ → Cursor → Cursor
pass c k = if c == b'\n' then next_line k else next_col k

-- std::isspace
unfoldable pub is_space : ℕ → Bool
is_space c = c == 32 || (leb 9 c && leb c 13)

-- std::isalnum
unfoldable pub is_alnum : ℕ → Bool
is_alnum c = (leb b'0' c && leb c b'9') || (leb b'A' c && leb c b'Z') || (leb b'a' c && leb c b'z')

-- One byte of `skipWhitespace`: the flag says that a comment is being skipped; `none` ends the loop.
unfoldable pub skip_step : Bool → ℕ → Cursor → Option (Bool × Cursor)
unfolding is_space
skip_step comment c k =
    if comment && not (c == b'\n')
    then some (true, skip_byte k)
    else if is_space c
    then some (false, pass c k)
    else if c == b'#'
    then some (true, skip_byte k)
    else none

pub record Skipped : Type 0 where
  pub any : Bool
  pub rest : Bytes
  pub cursor : Cursor

unfoldable pub skip_whitespace : Bool → Bool → Bytes → Cursor → Skipped
skip_whitespace any comment [] k = record { any = any; rest = []; cursor = k }
skip_whitespace any comment (c ∷ cs) k = elim (skip_step comment c k) [
  | none ↦ record { any = any; rest = c ∷ cs; cursor = k }
  | some (comment', k') ↦ skip_whitespace true comment' cs k'
]

-- What a loop has taken, and where it stopped.
pub record Scan : Type 0 where
  pub taken : Bytes
  pub rest : Bytes
  pub cursor : Cursor

abbrev pub take_byte : ℕ → Scan → Scan
take_byte c s = record s { taken = c ∷ s.taken }

abbrev pub stop : Bytes → Cursor → Scan
stop rest k = record { taken = []; rest = rest; cursor = k }

-- `depth` behind one byte of a literal
abbrev pub next_depth : ℕ → ℕ → ℕ → ℕ → ℕ
next_depth open_char close_char d c =
    if c == open_char then suc (suc d) else if c == close_char then d else suc d

-- the loop of `parseLiteral`, with the depth that it ends at
unfoldable pub literal_loop : ℕ → ℕ → ℕ → Bytes → Cursor → ℕ × Scan
literal_loop open_char close_char zero rest k = (0, stop rest k)
literal_loop open_char close_char (suc d) [] k = (suc d, stop [] k)
literal_loop open_char close_char (suc d) (c ∷ cs) k =
    let depth = next_depth open_char close_char d c in
    let (end, s) = literal_loop open_char close_char depth cs (pass c k) in (end, take_byte c s)

abbrev pub is_escape : Bool → ℕ → Bool
is_escape escaped c = not escaped && c == b'\\'

-- The loop of `parseString`. The flag says that a backslash has just been passed; behind one at the
-- end of the input the loop steps once more, over the terminating zero.
unfoldable pub string_loop : Bool → Bytes → Cursor → Scan
string_loop escaped [] k = stop [] (if escaped then next_col k else k)
string_loop escaped (c ∷ cs) k = elim (not escaped && c == b'"') [
  | true ↦ stop (c ∷ cs) k
  | false ↦
      take_byte c (
        string_loop (is_escape escaped c) cs (if is_escape escaped c then next_col k else pass c k))
]

-- the loops of `parseQuoteWord` and `parseIdentifier`
unfoldable pub span : (ℕ → Bool) → Bytes → Cursor → Scan
span keep [] k = stop [] k
span keep (c ∷ cs) k = elim (keep c) [
  | true ↦ take_byte c (span keep cs (next_col k))
  | false ↦ stop (c ∷ cs) k
]

unfoldable pub is_quote_word : ℕ → Bool
is_quote_word c = not (
    is_space c
    || c == b'('
    || c == b')'
    || c == b'{'
    || c == b'}'
    || c == b'['
    || c == b']'
    || c == b',')

unfoldable pub is_identifier : ℕ → Bool
is_identifier c =
    is_alnum c
    || c == b'_'
    || c == b'.'
    || c == b'-'
    || c == b'$'
    || c == b'*'
    || c == b'"'
    || leb 128 c

abbrev token : TokenType → Bytes → ℕ → Bool → Token
token t value position space = record {
  type = t;
  value = value;
  position = position;
  had_space_before = space;
  line = 1;
  col = 1;
}

-- A token, and where the tokenizer stands after it.
pub record Lexed : Type 0 where
  pub token : Token
  pub rest : Bytes
  pub cursor : Cursor

abbrev lexed : Token → Scan → Lexed
lexed t s = record { token = t; rest = s.rest; cursor = s.cursor }

abbrev end_literal : ℕ → Cursor → Bool → ℕ × Scan → Lexed
end_literal open_char start space (zero, s) =
    lexed (token literal (open_char ∷ s.taken) start.position space) s
end_literal open_char start space (suc d, s) = lexed (token eof [] s.cursor.position space) s

-- Each `parse` function stands at its first byte, `open_char` or `c`, with `cs` behind it.
unfoldable pub parse_literal : ℕ → Bytes → Cursor → Bool → Lexed
parse_literal open_char cs k space =
    let close_char : ℕ = if open_char == b'[' then b']' else b')' in
    end_literal open_char k space (literal_loop open_char close_char 1 cs (next_col k))

-- The closing quote is skipped if there is one.
abbrev close_string : Bytes → Cursor → Scan
close_string [] k = stop [] k
close_string (c ∷ cs) k = record { taken = c ∷ []; rest = cs; cursor = next_col k }

unfoldable pub parse_string : Bytes → Cursor → Bool → Lexed
parse_string cs k space =
    let s = string_loop false cs (next_col k) in
    let closed = close_string s.rest s.cursor in
    lexed (token string (b'"' ∷ (s.taken ++ closed.taken)) k.position space) closed

unfoldable pub parse_quote_word : Bytes → Cursor → Bool → Lexed
parse_quote_word cs k space =
    let s = span is_quote_word cs (next_col k) in lexed (token quote s.taken k.position space) s

unfoldable pub parse_identifier : Bytes → Cursor → Bool → Lexed
parse_identifier cs k space =
    let s = span is_identifier cs k in lexed (token identifier s.taken k.position space) s

abbrev starts_equal : Bytes → Bool
starts_equal [] = false
starts_equal (c ∷ cs) = c == b'='

abbrev tail_of : Bytes → Bytes
tail_of [] = []
tail_of (c ∷ cs) = cs

unfoldable pub parse_operator : ℕ → Bytes → Cursor → Bool → Lexed
parse_operator c cs k space =
    if c == b'=' && starts_equal cs
    then lexed (token operator (codes "==") k.position space)
        (stop (tail_of cs) (next_col (next_col k)))
    else lexed (token operator (c ∷ []) k.position space) (stop cs (next_col k))

unfoldable pub parse_context_operator : ℕ → Bytes → Cursor → Bool → Lexed
parse_context_operator c cs k space =
    let t : TokenType =
      if c == b'{' || c == b'<' || c == b'[' || c == b'(' then context_open else context_close in
    lexed (token t (c ∷ []) k.position space) (stop cs (next_col k))

unfoldable pub is_context : Bool → ℕ → Bool
is_context json c =
    c == b'{'
    || c == b'}'
    || c == b'<'
    || c == b'>'
    || c == b'('
    || c == b')'
    || (json && (c == b'[' || c == b']'))

unfoldable pub is_operator : ℕ → Bool
is_operator c =
    c == b'@'
    || c == b'!'
    || c == b'/'
    || c == b'^'
    || c == b':'
    || c == b','
    || c == b'&'
    || c == b'|'
    || c == b'='

-- The chain of tests of `nextToken`, behind the white space. An unknown byte is skipped, and its
-- token has the type of the end of the input.
unfoldable pub scan_token : Bool → Bool → Bytes → Cursor → Lexed
scan_token json space [] k = lexed (token eof [] k.position space) (stop [] k)
scan_token json space (c ∷ cs) k =
    if c == b'[' && not json
    then parse_literal c cs k space
    else if c == b'"'
    then parse_string cs k space
    else if c == 39
    then parse_quote_word cs k space
    else if is_context json c
    then parse_context_operator c cs k space
    else if is_operator c
    then parse_operator c cs k space
    else if is_identifier c
    then parse_identifier (c ∷ cs) k space
    else lexed (token eof (c ∷ []) k.position space) (stop cs (next_col k))

-- The token's line and column are those behind the white space.
abbrev stamp : Cursor → Bool → Lexed → Token × Tokenizer
stamp k json x = (
  record (x.token) { line = k.line; col = k.col },
  record { rest = x.rest; cursor = x.cursor; json_mode = json },
)

unfoldable pub next_token : Tokenizer → Token × Tokenizer
next_token t =
    let s = skip_whitespace false false t.rest t.cursor in
    stamp s.cursor t.json_mode (scan_token t.json_mode s.any s.rest s.cursor)

-- the constructor
unfoldable pub new_tokenizer : Bytes → Tokenizer
unfolding skip_whitespace
new_tokenizer input =
    let s = skip_whitespace false false input (record { position = 0; line = 1; col = 1 }) in
    record { rest = s.rest; cursor = s.cursor; json_mode = false }

abbrev pub set_json_mode : Bool → Tokenizer → Tokenizer
set_json_mode mode t = record t { json_mode = mode }
