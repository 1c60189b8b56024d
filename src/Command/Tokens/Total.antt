-- ===== src/Command/Tokens/Total.antt =====
-- The main loop of `tokenize` ends: each round leaves a shorter text.
use mem_sandbox.Base.{
  ◌==◌, Bool-cases, Option-cases, length, ℕ, zero, suc, ◌≤◌, ◌≡◌, refl, inl, inr, Bool, true, false,
  not, ◌&&◌, ◌||◌, none, some, List, [], ◌∷◌, ◌++◌, arith,
}
use mem_sandbox.Errors.{command_syntax_unsupported, Result, err, ok}
use mem_sandbox.Strings.{Text, codes, has_char, starts_with}
use mem_sandbox.Lines.{newline, return}
use mem_sandbox.Command.Tokens.{
  Operator, Token, Scan, no_scan, append_fragment, is_space, single_quote, double_quote, backslash,
  quoted, ends_run, run_of, is_unsupported, operator_of, take_run, escaped_character, token_step,
  tokens_from, tokenize,
}

quoted-length :
    (quote : ℕ) (t segment : Text) (at_start : Bool) (s : Scan) (rest : Text) (s' : Scan)
    → quoted quote t segment at_start s ≡ ok (rest, s')
    → length rest ≤ length t
unfolding quoted
quoted-length quote [] segment at_start s rest s' h = absurd (cc h)
quoted-length quote (c ∷ []) segment at_start s rest s' h = ground arith
quoted-length quote (c ∷ d ∷ t) segment at_start s rest s' h = ground (
  arith,
  quoted-length quote (d ∷ t) (segment ++ backslash ∷ []) false s rest s',
  quoted-length quote (d ∷ t) (segment ++ c ∷ []) false s rest s',
  quoted-length quote t [] true (append_fragment s (d ∷ []) false) rest s',
  quoted-length quote t [] true
      (append_fragment (append_fragment s segment (quote == double_quote)) (d ∷ []) false) rest s',
)

run_of-length : (t : Text) → length (run_of t).1 ≤ length t
unfolding run_of
run_of-length [] = omega arith
run_of-length (c ∷ t) = elim (Bool-cases (ends_run c)) [
  | inl e ↦ rw e (omega arith)
  | inr e ↦ rw e (omega (arith, run_of-length t))
]

-- A character that no earlier test of a round took does not end a run.
run_begins :
    (c : ℕ) (t : Text)
    → is_space c ≡ false
    → (c == single_quote || c == double_quote) ≡ false
    → c == backslash ≡ false
    → is_unsupported (c ∷ t) ≡ false
    → c == b'|' ≡ false
    → (c == b'&' && not (starts_with (codes "&&") (c ∷ t))) ≡ false
    → operator_of (c ∷ t) ≡ none
    → has_char c (codes "'\"\\#`()<>|&;") ≡ false
unfolding is_unsupported operator_of starts_with has_char
run_begins c t space quote slash_ unsupported pipe background operator = ground arith

escaped-length :
    (t : Text) (s : Scan) (rest : Text) (s' : Scan)
    → escaped_character t s ≡ ok (rest, s')
    → length rest ≤ length t
unfolding escaped_character
escaped-length [] s rest s' h = absurd (cc h)
escaped-length (c ∷ t) s rest s' h = ground arith

operator_of-length :
    (c : ℕ) (t : Text) (o : Operator) (rest : Text)
    → operator_of (c ∷ t) ≡ some (o, rest)
    → length rest ≤ length t
unfolding operator_of starts_with
operator_of-length c [] o rest h = ground arith
operator_of-length c (d ∷ t) o rest h = ground arith

take_run-length :
    (c : ℕ) (t : Text) (s : Scan) (rest : Text) (s' : Scan)
    → ends_run c ≡ false
    → take_run (c ∷ t) s ≡ ok (rest, s')
    → length rest ≤ length t
unfolding take_run run_of
take_run-length c t s rest s' e h = ground (arith, run_of-length t)

-- A round that returned took a character at least.
token_step-length :
    (c : ℕ) (t : Text) (s : Scan) (rest : Text) (s' : Scan)
    → token_step c t s ≡ ok (rest, s')
    → length rest ≤ length t
unfolding token_step
token_step-length c t s rest s' h = elim (Option-cases (operator_of (c ∷ t))) [
  | inl e ↦ ground (
    arith,
    e,
    quoted-length c t [] true (record s { word_started = true }) rest s',
    escaped-length t (record s { word_started = true }) rest s',
    run_begins c t,
    take_run-length c t s rest s',
  )
  | inr ((o, left), e) ↦ ground (
    arith,
    e,
    quoted-length c t [] true (record s { word_started = true }) rest s',
    escaped-length t (record s { word_started = true }) rest s',
    operator_of-length c t o left e,
  )
]

tokens_from-total :
    (fuel : ℕ) (t : Text) (s : Scan)
    → length t ≤ fuel
    → (r : Result (List Token)) × (tokens_from fuel t s ≡ some r)
unfolding tokens_from
tokens_from-total fuel [] s h = (_, refl)
tokens_from-total zero (c ∷ t) s h = absurd (omega arith)
tokens_from-total (suc fuel) (c ∷ t) s h = go (tokens_from-total fuel) (token_step c t s) refl
  where
    go :
        ((rest : Text) (s' : Scan)
          → length rest ≤ fuel
          → (r : Result (List Token)) × (tokens_from fuel rest s' ≡ some r))
        → (r : Result (Text × Scan)) → token_step c t s ≡ r
        → (out : Result (List Token)) × (tokens_from (suc fuel) (c ∷ t) s ≡ some out)
    go more (err e) k = (err e, rw (k, tokens_from) refl)
    go more (ok (rest, s')) k =
        let (out, e) = more rest s' (omega (arith, h, token_step-length c t s rest s' k)) in
        (out, rw (k, tokens_from) e)

-- Tokenizing ends on every text, with a list of tokens or an error.
pub tokenize-total : (command : Text) → (r : Result (List Token)) × (tokenize command ≡ some r)
unfolding tokenize
tokenize-total command = elim (Bool-cases (has_char newline command || has_char return command)) [
  | inl e ↦ (err command_syntax_unsupported, rw e refl)
  | inr e ↦
      let (r, k) = tokens_from-total (length command) command no_scan (omega arith) in (r, rw e k)
]
