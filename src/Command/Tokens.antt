-- ===== src/Command/Tokens.antt =====
-- `tokenize` of src/mem_sandbox/command_executor/parser.py.
-- The source walks the text with an index; here a loop has the text that is left. The main loop takes
-- fuel, and `none` says that it ran out; `Command.Tokens.Total` shows that it never does.
pub mod Total
pub mod Quoting
use mem_sandbox.Base.{
  leb, ◌==◌, if◌then◌else◌, length, drop, ℕ, zero, suc, ◌<◌, Bool, true, false, not, ◌&&◌, ◌||◌,
  Option, none, some, List, [], ◌∷◌, ◌++◌,
}
use mem_sandbox.Errors.{command_syntax_invalid, command_syntax_unsupported, Result, err, ok, ◌>>◌}
use mem_sandbox.Strings.{Text, codes, text_eq, has_char, starts_with}
use mem_sandbox.Lines.{newline, return}
use mem_sandbox.Command.{WordFragment, CommandWord}

pub data Operator : Type 0 where
  sequence_operator and_operator pipe_operator : Operator
  redirect_operator append_operator : Operator

pub data Token : Type 0 where
  word_token : CommandWord → Token
  operator_token : Operator → Token

-- The variables of `tokenize`: the tokens so far, and the word that is being read.
pub record Scan : Type 0 where
  pub tokens : List Token
  pub fragments : List WordFragment
  pub word_started : Bool

abbrev pub no_scan : Scan
no_scan = record { tokens = []; fragments = []; word_started = false }

-- `flush_word`
unfoldable pub flush_word : Scan → Scan
flush_word s = record {
  tokens =
      if s.word_started
      then s.tokens ++ word_token (record { fragments = s.fragments }) ∷ []
      else s.tokens;
  fragments = [];
  word_started = false;
}

-- `append_fragment`
unfoldable pub append_fragment : Scan → Text → Bool → Scan
append_fragment s text expands = record {
  tokens = s.tokens;
  fragments = s.fragments ++ record { text = text; expands_environment = expands } ∷ [];
  word_started = true;
}

abbrev pub push_operator : Scan → Operator → Scan
push_operator s o = record s { tokens = s.tokens ++ operator_token o ∷ [] }

-- `str.isspace` of one character.
unfoldable pub is_space : ℕ → Bool
is_space c =
    (leb 9 c && leb c 13)
    || (leb 28 c && leb c 32)
    || (c == 0x85 || c == 0xa0 || c == 0x1680)
    || (leb 0x2000 c && leb c 0x200a)
    || (c == 0x2028 || c == 0x2029 || c == 0x202f || c == 0x205f || c == 0x3000)

abbrev pub single_quote : ℕ
single_quote = 39

abbrev pub double_quote : ℕ
double_quote = 34

abbrev pub backslash : ℕ
backslash = 92

-- The inner loop over a quoted segment, from behind the opening quote: the segment so far, and
-- whether nothing of it is read yet (`index == start`). It returns what is left behind the quote.
unfoldable pub quoted : ℕ → Text → Text → Bool → Scan → Result (Text × Scan)
quoted quote [] segment at_start s = err command_syntax_invalid
quoted quote (c ∷ []) segment at_start s =
    if c == quote
    then ok ([], append_fragment s segment (quote == double_quote))
    else if quote == double_quote && c == backslash
    then err command_syntax_invalid
    else if c == newline || c == return
    then err command_syntax_unsupported
    else err command_syntax_invalid
quoted quote (c ∷ d ∷ t) segment at_start s =
    let literal = quoted quote (d ∷ t) (segment ++ backslash ∷ []) false s in
    let flushed =
      if not (text_eq segment []) || at_start
      then append_fragment s segment (quote == double_quote)
      else s in
    let escaped = quoted quote t [] true (append_fragment flushed (d ∷ []) false) in
    let plain = quoted quote (d ∷ t) (segment ++ c ∷ []) false s in
    if c == quote
    then ok (d ∷ t, append_fragment s segment (quote == double_quote))
    else if quote == double_quote && c == backslash
    then (if has_char d (codes "$`\"\\") then escaped else literal)
    else if c == newline || c == return
    then err command_syntax_unsupported
    else plain

-- The characters at which an unquoted run ends.
abbrev pub ends_run : ℕ → Bool
ends_run c = is_space c || has_char c (codes "'\"\\#`()<>|&;")

-- The loop over an unquoted run: the run, and what is left.
unfoldable pub run_of : Text → Text × Text
run_of [] = ([], [])
run_of (c ∷ t) = let rest = run_of t in if ends_run c then ([], c ∷ t) else (c ∷ rest.0, rest.1)

-- `text.isascii() and text.isdigit()`
unfoldable pub all_digits : Text → Bool
all_digits [] = true
all_digits (c ∷ t) = leb b'0' c && leb c b'9' && all_digits t

abbrev pub is_number : Text → Bool
is_number t = not (text_eq t []) && all_digits t

-- The forms that are refused by their first one or two characters.
unfoldable pub is_unsupported : Text → Bool
is_unsupported t =
    starts_with (codes "#") t
    || starts_with (codes "`") t
    || starts_with (codes "(") t
    || starts_with (codes ")") t
    || starts_with (codes "$(") t
    || starts_with (codes "<(") t
    || starts_with (codes ">(") t
    || starts_with (codes "||") t
    || starts_with (codes "<") t

-- The operator that a text begins with, and what is left.
unfoldable pub operator_of : Text → Option (Operator × Text)
operator_of t =
    if starts_with (codes "&&") t
    then some (and_operator, drop 2 t)
    else if starts_with (codes ">>") t
    then some (append_operator, drop 2 t)
    else if starts_with (codes ";") t
    then some (sequence_operator, drop 1 t)
    else if starts_with (codes ">") t
    then some (redirect_operator, drop 1 t)
    else none

-- An unquoted run: refused if it is a file descriptor, a fragment if not.
unfoldable pub take_run : Text → Scan → Result (Text × Scan)
take_run t s =
    let (text, rest) = run_of t in
    if not s.word_started && is_number text && starts_with (codes ">") rest
    then err command_syntax_unsupported
    else ok (rest, append_fragment s text true)

-- The character behind a backslash.
unfoldable pub escaped_character : Text → Scan → Result (Text × Scan)
escaped_character [] s = err command_syntax_invalid
escaped_character (c ∷ t) s = ok (t, append_fragment s (c ∷ []) false)

-- One round of the main loop.
unfoldable pub token_step : ℕ → Text → Scan → Result (Text × Scan)
token_step c t s =
    if is_space c
    then ok (t, flush_word s)
    else if c == single_quote || c == double_quote
    then quoted c t [] true (record s { word_started = true })
    else if c == backslash
    then escaped_character t (record s { word_started = true })
    else if is_unsupported (c ∷ t)
    then err command_syntax_unsupported
    else if c == b'|'
    then ok (t, push_operator (flush_word s) pipe_operator)
    else if c == b'&' && not (starts_with (codes "&&") (c ∷ t))
    then err command_syntax_unsupported
    else elim (operator_of (c ∷ t)) [
      | some (o, rest) ↦ ok (rest, push_operator (flush_word s) o)
      | none ↦ take_run (c ∷ t) s
    ]

-- The main loop.
unfoldable pub tokens_from : ℕ → Text → Scan → Option (Result (List Token))
tokens_from fuel [] s = some (ok (flush_word s).tokens)
tokens_from zero (c ∷ t) s = none
tokens_from (suc fuel) (c ∷ t) s = elim (token_step c t s) [
  | err e ↦ some (err e)
  | ok (rest, s') ↦ tokens_from fuel rest s'
]

unfoldable pub tokenize : Text → Option (Result (List Token))
tokenize command =
    if has_char newline command || has_char return command
    then some (err command_syntax_unsupported)
    else tokens_from (length command) command no_scan
