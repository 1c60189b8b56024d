-- ===== src/Command/Grammar/Ends.antt =====
-- Parsing ends on every text.
use mem_sandbox.Runs.{pure, ◌>>=◌, bind-eq-pure, IsDone, bind-IsDone}
use mem_sandbox.Base.{
  Bool-cases, Option-cases, length, length-append, ℕ, zero, suc, ◌+◌, ◌≤◌, ◌<◌, ◌≡◌, refl, ap, ◌∙◌,
  inl, inr, Bool, Option, none, some, List, [], ◌∷◌, arith,
}
use mem_sandbox.Errors.{assertion_error, command_empty, command_syntax_invalid, Result, err, ok}
use mem_sandbox.Strings.{Text}
use mem_sandbox.Command.Grammar.{
  redirection_mode, check_trailing, behind_pipe, take_separator, validate_word, take_words,
  take_stages, take_destination, take_redirection, take_units, parse_tokens, parse_execution_plan,
}
use mem_sandbox.Command.{
  WordFragment, CommandWord, Connector, always, RedirectionMode, StdoutRedirection, CommandStage,
  PlanUnit, ExecutionPlan,
}
use mem_sandbox.Command.Tokens.{
  sequence_operator, and_operator, pipe_operator, redirect_operator, append_operator, Token,
  word_token, operator_token, tokenize,
}
use mem_sandbox.Command.Tokens.Total.{tokenize-total}
use mem_sandbox.Command.Expansion.{scan_expansion, validate_fragments}
use mem_sandbox.Command.Expansion.Safe.{scan_expansion-total}
use mem_sandbox.Command.Grammar.Printed.{
  print_redirection, behind_pipe-eq, take_redirection-printed, print_next, take_separator-printed,
}

check_trailing-IsDone : (ts : List Token) → IsDone (check_trailing ts)
check_trailing-IsDone [] = (_, refl)
check_trailing-IsDone (word_token w ∷ ts) = (_, refl)
check_trailing-IsDone (operator_token pipe_operator ∷ ts) = (_, refl)
check_trailing-IsDone (operator_token redirect_operator ∷ ts) = (_, refl)
check_trailing-IsDone (operator_token append_operator ∷ ts) = (_, refl)
check_trailing-IsDone (operator_token sequence_operator ∷ ts) = (_, refl)
check_trailing-IsDone (operator_token and_operator ∷ ts) = (_, refl)

take_separator-IsDone : (ts : List Token) → IsDone (take_separator ts)
unfolding take_separator
take_separator-IsDone [] = (_, refl)
take_separator-IsDone (word_token w ∷ ts) = (_, refl)
take_separator-IsDone (operator_token pipe_operator ∷ ts) = (_, refl)
take_separator-IsDone (operator_token redirect_operator ∷ ts) = (_, refl)
take_separator-IsDone (operator_token append_operator ∷ ts) = (_, refl)
take_separator-IsDone (operator_token sequence_operator ∷ []) = (_, refl)
take_separator-IsDone (operator_token sequence_operator ∷ t ∷ ts) = (_, refl)
take_separator-IsDone (operator_token and_operator ∷ []) = (_, refl)
take_separator-IsDone (operator_token and_operator ∷ t ∷ ts) = (_, refl)

module _ (is_alpha : ℕ → Bool) where
  validate_fragments-IsDone : (fs : List WordFragment) → IsDone (validate_fragments is_alpha fs)
  unfolding validate_fragments
  validate_fragments-IsDone [] = (ok tt, refl)
  validate_fragments-IsDone (f ∷ fs) =
      go (scan_expansion-total is_alpha f.text none) (validate_fragments-IsDone fs)
    where
      go :
          IsDone (scan_expansion is_alpha f.text none)
          → IsDone (validate_fragments is_alpha fs)
          → IsDone (validate_fragments is_alpha (f ∷ fs))
      go (err e, k) (r, q) = elim (Bool-cases f.expands_environment) [
        | inl b ↦ (err e, ground (arith, b, k))
        | inr b ↦ (r, ground (arith, b, q))
      ]
      go (ok v, k) (r, q) = (r, ground (arith, k, q))

  take_words-IsDone : (ts : List Token) → IsDone (take_words is_alpha ts)
  unfolding take_words
  take_words-IsDone [] = (ok ([], []), refl)
  take_words-IsDone (operator_token o ∷ ts) = (ok ([], operator_token o ∷ ts), refl)
  take_words-IsDone (word_token w ∷ ts) =
      bind-IsDone (validate_word is_alpha w) _ (validate_fragments-IsDone w.fragments) λ u h.
        bind-IsDone (take_words is_alpha ts) _ (take_words-IsDone ts) λ (ws, rest) k. (_, refl)

  take_words-length :
      (ts : List Token) (ws : List CommandWord) (rest : List Token)
      → take_words is_alpha ts ≡ pure (ws, rest)
      → length rest ≤ length ts
  unfolding take_words
  take_words-length [] ws rest h = ground arith
  take_words-length (operator_token o ∷ ts) ws rest h = ground arith
  take_words-length (word_token w ∷ ts) ws rest h =
      let (u, v, h1) = bind-eq-pure (validate_word is_alpha w) _ h in
      let ((vs, left), t, h2) = bind-eq-pure (take_words is_alpha ts) _ h1 in
      let same : left ≡ rest = cc h2 in
      omega (arith, take_words-length ts vs left t, ap length same)

  -- A word at the head was taken.
  take_words-shorter :
      (w : CommandWord) (ts : List Token) (ws : List CommandWord) (rest : List Token)
      → take_words is_alpha (word_token w ∷ ts) ≡ pure (ws, rest)
      → length rest ≤ length ts
  unfolding take_words
  take_words-shorter w ts ws rest h =
      let (u, v, h1) = bind-eq-pure (validate_word is_alpha w) _ h in
      let ((vs, left), t, h2) = bind-eq-pure (take_words is_alpha ts) _ h1 in
      let same : left ≡ rest = cc h2 in
      omega (arith, take_words-length ts vs left t, ap length same)

  take_stages-IsDone :
      (fuel : ℕ) (ts : List Token) → length ts < fuel → IsDone (take_stages is_alpha fuel ts)
  unfolding take_stages
  take_stages-IsDone zero ts l = absurd (omega arith)
  take_stages-IsDone (suc fuel) [] l = (err command_syntax_invalid, refl)
  take_stages-IsDone (suc fuel) (operator_token o ∷ ts) l = (err command_syntax_invalid, refl)
  take_stages-IsDone (suc fuel) (word_token w ∷ ts) l =
      bind-IsDone (take_words is_alpha (word_token w ∷ ts)) _
        (take_words-IsDone (word_token w ∷ ts))
        λ (ws, rest) h. elim (Option-cases (behind_pipe rest)) [
          | inl e ↦ (ok (record { words = ws } ∷ [], rest), rw e refl)
          | inr (more, e) ↦ rw e (
              bind-IsDone (take_stages is_alpha fuel more) _
                (take_stages-IsDone fuel more (
                  omega (
                    arith,
                    take_words-shorter w ts ws rest h,
                    ap length (behind_pipe-eq is_alpha rest more e),
                  )))
                λ (stages, left) k. (_, refl))
        ]

  take_stages-length :
      (fuel : ℕ) (ts : List Token) (ss : List CommandStage) (rest : List Token)
      → take_stages is_alpha fuel ts ≡ pure (ss, rest)
      → length rest < length ts
  unfolding take_stages
  take_stages-length zero ts ss rest h = absurd (cc h)
  take_stages-length (suc fuel) [] ss rest h = absurd (cc h)
  take_stages-length (suc fuel) (operator_token o ∷ ts) ss rest h = absurd (cc h)
  take_stages-length (suc fuel) (word_token w ∷ ts) ss rest h =
      let ((ws, left), t, h1) = bind-eq-pure (take_words is_alpha (word_token w ∷ ts)) _ h in
      let shorter = take_words-shorter w ts ws left t in
      elim (Option-cases (behind_pipe left)) [
        | inl e ↦
            let k : pure (record { words = ws } ∷ [], left) ≡ pure (ss, rest) = rw e at h1 in
            let same : rest ≡ left = cc k in omega (arith, shorter, ap length same)
        | inr (more, e) ↦
            let ((stages, behind), k, h2) =
              bind-eq-pure (take_stages is_alpha fuel more) _ (rw e at h1) in
            let same : rest ≡ behind = cc h2 in
            omega (
              arith,
              shorter,
              ap length same,
              take_stages-length fuel more stages behind k,
              ap length (behind_pipe-eq is_alpha left more e),
            )
      ]

  take_destination-IsDone :
      (mode : RedirectionMode) (ts : List Token) → IsDone (take_destination is_alpha mode ts)
  unfolding take_destination
  take_destination-IsDone mode [] = (err command_syntax_invalid, refl)
  take_destination-IsDone mode (operator_token o ∷ ts) = (err command_syntax_invalid, refl)
  take_destination-IsDone mode (word_token w ∷ ts) =
      bind-IsDone (validate_word is_alpha w) _ (validate_fragments-IsDone w.fragments)
        λ u h. bind-IsDone (check_trailing ts) _ (check_trailing-IsDone ts) λ u' k. (_, refl)

  take_redirection-IsDone : (ts : List Token) → IsDone (take_redirection is_alpha ts)
  unfolding take_redirection
  take_redirection-IsDone [] = (ok (none, []), refl)
  take_redirection-IsDone (word_token w ∷ ts) = (err assertion_error, refl)
  take_redirection-IsDone (operator_token o ∷ ts) = elim (Option-cases (redirection_mode o)) [
    | inl e ↦ (ok (none, operator_token o ∷ ts), rw (e, take_redirection) refl)
    | inr (mode, e) ↦
        let (r, k) = take_destination-IsDone mode ts in (r, rw (e, take_redirection) k)
  ]

  take_redirection-length :
      (ts : List Token) (r : Option StdoutRedirection) (rest : List Token)
      → take_redirection is_alpha ts ≡ pure (r, rest)
      → length rest ≤ length ts
  take_redirection-length ts r rest h = omega (
    arith,
    ap length (take_redirection-printed is_alpha ts r rest h),
    length-append {0} (print_redirection r) rest,
  )

  units_behind :
      (fuel : ℕ) (u : PlanUnit) (next : Option (Connector × List Token))
      → ((c : Connector) (more : List Token)
          → next ≡ some (c, more)
          → IsDone (take_units is_alpha fuel c more))
      → IsDone (elim next [
        | none ↦ pure (u ∷ [])
        | some (c, more) ↦ take_units is_alpha fuel c more >>= λ units. pure (u ∷ units)
      ])
  units_behind fuel u none more = (_, refl)
  units_behind fuel u (some (c, rest)) more =
      bind-IsDone (take_units is_alpha fuel c rest) _ (more c rest refl) λ units h. (_, refl)

  take_units-IsDone :
      (fuel : ℕ) (connector : Connector) (ts : List Token)
      → length ts + 1 < fuel
      → IsDone (take_units is_alpha fuel connector ts)
  unfolding take_units
  take_units-IsDone zero connector ts l = absurd (omega arith)
  take_units-IsDone (suc fuel) connector ts l =
      bind-IsDone (take_stages is_alpha fuel ts) _ (take_stages-IsDone fuel ts (omega arith))
        λ (stages, behind) s.
          bind-IsDone (take_redirection is_alpha behind) _ (take_redirection-IsDone behind)
            λ (redirection, left) r.
              bind-IsDone (take_separator left) _ (take_separator-IsDone left) λ next n.
                units_behind fuel
                  (record { connector = connector; stages = stages; redirection = redirection })
                  next
                  λ c more e. take_units-IsDone fuel c more (
                    omega (
                      arith,
                      take_stages-length fuel ts stages behind s,
                      take_redirection-length behind redirection left r,
                      ap length (take_separator-printed left next n ∙ ap print_next e),
                    ))

  parse_tokens-IsDone : (ts : List Token) → IsDone (parse_tokens is_alpha ts)
  unfolding parse_tokens
  parse_tokens-IsDone [] = (err command_empty, refl)
  parse_tokens-IsDone (t ∷ ts) =
      bind-IsDone (take_units is_alpha (length (t ∷ ts) + 2) always (t ∷ ts)) _
        (take_units-IsDone (length (t ∷ ts) + 2) always (t ∷ ts) (omega arith)) λ units h. (_, refl)

  -- Parsing ends on every text, with a plan or an exception.
  pub parse_execution_plan-total :
      (command : Text)
      → (r : Result ExecutionPlan) × (parse_execution_plan is_alpha command ≡ some r)
  unfolding parse_execution_plan
  parse_execution_plan-total command =
      bind-IsDone (tokenize command) _ (tokenize-total command) λ ts h. parse_tokens-IsDone ts
