-- ===== src/Command/Grammar/Printed.antt =====
-- The tokens of a plan, and that parsing loses none.
use mathlib.Core.Path.{subst}
use mem_sandbox.Runs.{Run, pure, ◌>>=◌, bind-eq-pure}
use mem_sandbox.Base.{
  Option-cases, length, ℕ, zero, suc, ◌+◌, ◌≡◌, refl, sym, ap, ◌∙◌, ◌≢◌, inl, inr, Bool, Option,
  none, some, List, [], ◌∷◌, ◌++◌, append_assoc, append-nil, arith,
}
use mem_sandbox.Errors.{err, ok}
use mem_sandbox.Command.Grammar.{
  check_trailing, behind_pipe, take_separator, validate_word, take_words, take_stages,
  take_destination, take_redirection, take_units, parse_tokens,
}
use mem_sandbox.Command.{
  CommandWord, Connector, always, on_success, RedirectionMode, replace_mode, append_mode,
  StdoutRedirection, CommandStage, PlanUnit, ExecutionPlan,
}
use mem_sandbox.Command.Tokens.{
  Operator, sequence_operator, and_operator, pipe_operator, redirect_operator, append_operator,
  Token, word_token, operator_token,
}

unfoldable pub print_words : List CommandWord → List Token
print_words [] = []
print_words (w ∷ ws) = word_token w ∷ print_words ws

unfoldable pub print_stages : List CommandStage → List Token
print_stages [] = []
print_stages (s ∷ []) = print_words s.words
print_stages (s ∷ t ∷ ss) =
    print_words s.words ++ operator_token pipe_operator ∷ print_stages (t ∷ ss)

abbrev pub mode_operator : RedirectionMode → Operator
mode_operator replace_mode = redirect_operator
mode_operator append_mode = append_operator

abbrev pub print_redirection : Option StdoutRedirection → List Token
print_redirection none = []
print_redirection (some r) = operator_token (mode_operator r.mode) ∷ word_token r.destination ∷ []

abbrev pub connector_operator : Connector → Operator
connector_operator always = sequence_operator
connector_operator on_success = and_operator

unfoldable pub print_unit : PlanUnit → List Token
print_unit u = print_stages u.stages ++ print_redirection u.redirection

-- The connector of a unit is the separator before it; that of the first is not printed.
unfoldable pub print_units : List PlanUnit → List Token
print_units [] = []
print_units (u ∷ []) = print_unit u
print_units (u ∷ v ∷ us) =
    print_unit u ++ operator_token (connector_operator v.connector) ∷ print_units (v ∷ us)

module _ (is_alpha : ℕ → Bool) where
  take_words-printed :
      (ts : List Token) (ws : List CommandWord) (rest : List Token)
      → take_words is_alpha ts ≡ pure (ws, rest)
      → ts ≡ print_words ws ++ rest
  unfolding take_words print_words
  take_words-printed [] ws rest h = ground arith
  take_words-printed (operator_token o ∷ ts) ws rest h = ground arith
  take_words-printed (word_token w ∷ ts) ws rest h =
      let (u, v, h1) = bind-eq-pure (validate_word is_alpha w) _ h in
      let ((vs, left), t, h2) = bind-eq-pure (take_words is_alpha ts) _ h1 in
      ground (arith, take_words-printed ts vs left t)

  pub behind_pipe-eq :
      (ts more : List Token) → behind_pipe ts ≡ some more → ts ≡ operator_token pipe_operator ∷ more
  behind_pipe-eq [] more h = absurd (cc h)
  behind_pipe-eq (word_token w ∷ ts) more h = absurd (cc h)
  behind_pipe-eq (operator_token pipe_operator ∷ ts) more h = cc h
  behind_pipe-eq (operator_token sequence_operator ∷ ts) more h = absurd (cc h)
  behind_pipe-eq (operator_token and_operator ∷ ts) more h = absurd (cc h)
  behind_pipe-eq (operator_token redirect_operator ∷ ts) more h = absurd (cc h)
  behind_pipe-eq (operator_token append_operator ∷ ts) more h = absurd (cc h)

  abbrev one_stage : List CommandWord → List CommandStage
  one_stage ws = record { words = ws } ∷ []

  nonempty-ne_nil : (s : CommandStage) (ss : List CommandStage) → (s ∷ ss) ≢ []
  nonempty-ne_nil s ss h = cc h

  print_stages-cons :
      (s : CommandStage) (ss : List CommandStage)
      → ss ≢ []
      → print_stages (s ∷ ss)
        ≡ print_words s.words ++ operator_token pipe_operator ∷ print_stages ss
  unfolding print_stages
  print_stages-cons s [] n = absurd (n refl)
  print_stages-cons s (t ∷ ss) n = refl

  take_stages-printed :
      (fuel : ℕ) (ts : List Token) (ss : List CommandStage) (rest : List Token)
      → take_stages is_alpha fuel ts ≡ pure (ss, rest)
      → (ss ≢ []) × (ts ≡ print_stages ss ++ rest)
  unfolding take_stages
  take_stages-printed zero ts ss rest h = absurd (cc h)
  take_stages-printed (suc fuel) [] ss rest h = absurd (cc h)
  take_stages-printed (suc fuel) (operator_token o ∷ ts) ss rest h = absurd (cc h)
  take_stages-printed (suc fuel) (word_token w ∷ ts) ss rest h =
      let ((ws, left), t, h1) = bind-eq-pure (take_words is_alpha (word_token w ∷ ts)) _ h in
      let p : word_token w ∷ ts ≡ print_words ws ++ left =
        take_words-printed (word_token w ∷ ts) ws left t in
      elim (Option-cases (behind_pipe left)) [
        | inl e ↦
            let k : pure (one_stage ws, left) ≡ pure (ss, rest) = rw e at h1 in
            let q : one_stage ws ≡ ss = cc k in
            let r : left ≡ rest = cc k in
            (
              λ n. nonempty-ne_nil (record { words = ws }) [] (q ∙ n),
              rw (← q, ← r) (unfold print_stages in p),
            )
        | inr (more, e) ↦
            let ((stages, behind), k, h2) =
              bind-eq-pure (take_stages is_alpha fuel more) _ (rw e at h1) in
            let (n, q) = take_stages-printed fuel more stages behind k in
            let same : record { words = ws } ∷ stages ≡ ss = cc h2 in
            let r : behind ≡ rest = cc h2 in
            (
              λ m. nonempty-ne_nil (record { words = ws }) stages (same ∙ m),
              rw (← same, ← r, print_stages-cons (record { words = ws }) stages n)
                  (p
                    ∙ ap (λ l. print_words ws ++ l)
                        (behind_pipe-eq left more e ∙ ap (λ l. operator_token pipe_operator ∷ l) q)
                    ∙ sym (
                        append_assoc (print_words ws)
                          (operator_token pipe_operator ∷ print_stages stages) behind)),
            )
      ]

  take_destination-printed :
      (mode : RedirectionMode) (ts : List Token) (r : Option StdoutRedirection) (rest : List Token)
      → take_destination is_alpha mode ts ≡ pure (r, rest)
      → operator_token (mode_operator mode) ∷ ts ≡ print_redirection r ++ rest
  unfolding take_destination
  take_destination-printed mode [] r rest h = absurd (cc h)
  take_destination-printed mode (operator_token o ∷ ts) r rest h = absurd (cc h)
  take_destination-printed mode (word_token w ∷ ts) r rest h =
      let (u, v, h1) = bind-eq-pure (validate_word is_alpha w) _ h in
      let (u', c, h2) = bind-eq-pure (check_trailing ts) _ h1 in
      let same : some (record { mode = mode; destination = w }) ≡ r = cc h2 in
      let left : ts ≡ rest = cc h2 in rw (← same, ← left) refl

  pub take_redirection-printed :
      (ts : List Token) (r : Option StdoutRedirection) (rest : List Token)
      → take_redirection is_alpha ts ≡ pure (r, rest)
      → ts ≡ print_redirection r ++ rest
  unfolding take_redirection
  take_redirection-printed [] r rest h = ground arith
  take_redirection-printed (word_token w ∷ ts) r rest h = absurd (cc h)
  take_redirection-printed (operator_token redirect_operator ∷ ts) r rest h =
      take_destination-printed replace_mode ts r rest h
  take_redirection-printed (operator_token append_operator ∷ ts) r rest h =
      take_destination-printed append_mode ts r rest h
  take_redirection-printed (operator_token sequence_operator ∷ ts) r rest h = ground arith
  take_redirection-printed (operator_token and_operator ∷ ts) r rest h = ground arith
  take_redirection-printed (operator_token pipe_operator ∷ ts) r rest h = ground arith

-- What stands before the next unit: nothing at the end, its separator elsewhere.
abbrev pub print_next : Option (Connector × List Token) → List Token
print_next none = []
print_next (some (c, more)) = operator_token (connector_operator c) ∷ more

pub take_separator-printed :
    (ts : List Token) (next : Option (Connector × List Token))
    → take_separator ts ≡ pure next
    → ts ≡ print_next next
unfolding take_separator
take_separator-printed [] next h = ground arith
take_separator-printed (word_token w ∷ ts) next h = absurd (cc h)
take_separator-printed (operator_token sequence_operator ∷ []) next h = absurd (cc h)
take_separator-printed (operator_token sequence_operator ∷ t ∷ ts) next h =
    let e : some (always, t ∷ ts) ≡ next = cc h in rw (← e) refl
take_separator-printed (operator_token and_operator ∷ []) next h = absurd (cc h)
take_separator-printed (operator_token and_operator ∷ t ∷ ts) next h =
    let e : some (on_success, t ∷ ts) ≡ next = cc h in rw (← e) refl
take_separator-printed (operator_token pipe_operator ∷ ts) next h = absurd (cc h)
take_separator-printed (operator_token redirect_operator ∷ ts) next h = absurd (cc h)
take_separator-printed (operator_token append_operator ∷ ts) next h = absurd (cc h)

-- The units begin with one of this connector, and their tokens are these.
pub record Prints (connector : Connector) (ts : List Token) (us : List PlanUnit) : Type 0 where
  pub first : PlanUnit
  pub others : List PlanUnit
  pub begins : us ≡ first ∷ others
  pub connects : first.connector ≡ connector
  pub prints : ts ≡ print_units us

abbrev units_of : Run ExecutionPlan → List PlanUnit
units_of none = []
units_of (some (err e)) = []
units_of (some (ok plan)) = plan.units

module _ (is_alpha : ℕ → Bool) where
  -- A unit, and what the loop makes of the rest.
  unit_printed :
      (u : PlanUnit) (behind left : List Token) (fuel : ℕ) (next : Option (Connector × List Token))
      (us : List PlanUnit)
      → ((c : Connector) (more : List Token) (vs : List PlanUnit)
          → take_units is_alpha fuel c more ≡ pure vs
          → Prints c more vs)
      → behind ≡ print_redirection u.redirection ++ left
      → left ≡ print_next next
      → (elim next [
        | none ↦ pure (u ∷ [])
        | some (c, more) ↦ take_units is_alpha fuel c more >>= λ units. pure (u ∷ units)
      ])
        ≡ pure us
      → Prints u.connector (print_stages u.stages ++ behind) us
  unfolding print_units print_unit
  unit_printed u behind left fuel none us more b l h =
      let same : u ∷ [] ≡ us = cc h in
      record {
        first = u;
        others = [];
        begins = sym same;
        connects = refl;
        prints = rw (← same, b, l, append-nil (print_redirection u.redirection)) refl;
      }
  unit_printed u behind left fuel (some (c, rest)) us more b l h =
      let (vs, k, h1) = bind-eq-pure (take_units is_alpha fuel c rest) _ h in
      let p = more c rest vs k in
      let same : u ∷ vs ≡ us = cc h1 in
      record {
        first = u;
        others = vs;
        begins = sym same;
        connects = refl;
        prints =
            ap (λ x. print_stages u.stages ++ x)
              (b
                ∙ ap (λ x. print_redirection u.redirection ++ x)
                    (l
                      ∙ ap (λ d. operator_token (connector_operator d) ∷ rest) (sym p.connects)
                      ∙ ap (λ x. operator_token (connector_operator p.first.connector) ∷ x)
                          (p.prints ∙ ap print_units p.begins)))
            ∙ sym (
                append_assoc (print_stages u.stages) (print_redirection u.redirection) (
                  operator_token (connector_operator p.first.connector)
                  ∷ print_units (p.first ∷ p.others)))
            ∙ ap print_units (sym (sym same ∙ ap (λ l. u ∷ l) p.begins));
      }

  take_units-printed :
      (fuel : ℕ) (connector : Connector) (ts : List Token) (us : List PlanUnit)
      → take_units is_alpha fuel connector ts ≡ pure us
      → Prints connector ts us
  unfolding take_units
  take_units-printed zero connector ts us h = absurd (cc h)
  take_units-printed (suc fuel) connector ts us h =
      let ((stages, behind), s, h1) = bind-eq-pure (take_stages is_alpha fuel ts) _ h in
      let ((redirection, left), r, h2) = bind-eq-pure (take_redirection is_alpha behind) _ h1 in
      let (next, n, h3) = bind-eq-pure (take_separator left) _ h2 in
      let (_, q) = take_stages-printed is_alpha fuel ts stages behind s in
      subst (λ l. Prints connector l us) (sym q)
        (unit_printed (record { connector = connector; stages = stages; redirection = redirection })
          behind left fuel next us (take_units-printed fuel)
          (take_redirection-printed is_alpha behind redirection left r)
          (take_separator-printed left next n) h3)

  -- A plan that the parser returns has the tokens that were parsed, in their order: none is dropped,
  -- added or moved. The first unit runs always.
  pub parse_tokens-printed :
      (ts : List Token) (plan : ExecutionPlan)
      → parse_tokens is_alpha ts ≡ pure plan
      → (ts ≡ print_units plan.units)
        × (first : PlanUnit) × (others : List PlanUnit) × (plan.units ≡ first ∷ others)
        × (first.connector ≡ always)
  unfolding parse_tokens
  parse_tokens-printed [] plan h = absurd (cc h)
  parse_tokens-printed (t ∷ ts) plan h =
      let (us, k, h1) =
        bind-eq-pure (take_units is_alpha (length (t ∷ ts) + 2) always (t ∷ ts)) _ h in
      let p = take_units-printed (length (t ∷ ts) + 2) always (t ∷ ts) us k in
      let same : us ≡ plan.units = ap units_of h1 in
      (p.prints ∙ ap print_units same, p.first, p.others, sym same ∙ p.begins, p.connects)
