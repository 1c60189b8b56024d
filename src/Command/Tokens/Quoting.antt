-- ===== src/Command/Tokens/Quoting.antt =====
-- A text in single quotes is one literal word.
use mem_sandbox.Base.{
  ◌==◌, ℕ, ◌≡◌, refl, Bool, true, false, some, [], ◌∷◌, ◌++◌, append_assoc, append-nil, arith,
}
use mem_sandbox.Errors.{ok}
use mem_sandbox.Strings.{Text, has_char, has_char-append}
use mem_sandbox.Lines.{newline, return}
use mem_sandbox.Command.Tokens.{
  word_token, Scan, no_scan, flush_word, append_fragment, is_space, single_quote, quoted,
  token_step, tokens_from, tokenize,
}

-- The text between single quotes.
abbrev pub in_quotes : Text → Text
in_quotes t = single_quote ∷ (t ++ single_quote ∷ [])

-- The inner loop takes a text without quote and line ending whole.
quoted-literal :
    (t segment rest : Text) (at_start : Bool) (s : Scan)
    → has_char single_quote t ≡ false
    → has_char newline t ≡ false
    → has_char return t ≡ false
    → quoted single_quote (t ++ single_quote ∷ rest) segment at_start s
      ≡ ok (rest, append_fragment s (segment ++ t) false)
unfolding quoted has_char
quoted-literal [] segment [] at_start s q n r = rw (append-nil segment) refl
quoted-literal [] segment (d ∷ rest) at_start s q n r = rw (append-nil segment) refl
quoted-literal (c ∷ []) segment rest at_start s q n r =
    ground
      (arith, quoted-literal [] (segment ++ c ∷ []) rest false s, append-nil (segment ++ c ∷ []))
quoted-literal (c ∷ d ∷ t) segment rest at_start s q n r = ground (
  arith,
  quoted-literal (d ∷ t) (segment ++ c ∷ []) rest false s,
  append_assoc segment (c ∷ []) (d ∷ t),
)

has_char-in_quotes :
    (c : ℕ) (t : Text)
    → (single_quote == c) ≡ false
    → has_char c t ≡ false
    → has_char c (in_quotes t) ≡ false
unfolding has_char
has_char-in_quotes c t e h = ground (arith, has_char-append c t (single_quote ∷ []))

-- The round of the main loop at the opening quote.
first_round :
    (t : Text)
    → has_char single_quote t ≡ false
    → has_char newline t ≡ false
    → has_char return t ≡ false
    → token_step single_quote (t ++ single_quote ∷ []) no_scan
      ≡ ok ([], append_fragment (record no_scan { word_started = true }) t false)
unfolding token_step is_space
first_round t q n r = quoted-literal t [] [] true (record no_scan { word_started = true }) q n r

-- A text without single quote and line ending, put in single quotes, is tokenized as one word of one
-- fragment: the text itself, in which nothing is expanded.
pub tokenize-in_quotes :
    (t : Text)
    → has_char single_quote t ≡ false
    → has_char newline t ≡ false
    → has_char return t ≡ false
    → tokenize (in_quotes t)
      ≡ some (
          ok (
            word_token
              (record { fragments = record { text = t; expands_environment = false } ∷ [] })
            ∷ []))
unfolding tokenize tokens_from
tokenize-in_quotes t q n r =
    rw
      (
        has_char-in_quotes newline t refl n,
        has_char-in_quotes return t refl r,
        tokens_from,
        first_round t q n r,
      )
      (unfold tokens_from append_fragment flush_word in refl)
