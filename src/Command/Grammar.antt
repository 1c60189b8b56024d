-- ===== src/Command/Grammar.antt =====
-- `parse_execution_plan` of src/mem_sandbox/command_executor/parser.py.
-- A loop has the tokens that are left where the source has an index. The loops over stages and units
-- take fuel, and `none` says that it ran out.
pub mod Printed
pub mod Validated
pub mod Ends
use mem_sandbox.Runs.{Run, pure, fail, ◌>>=◌, ◌>>◌}
use mem_sandbox.Base.{length, ℕ, zero, suc, ◌+◌, Bool, Option, none, some, List, [], ◌∷◌}
use mem_sandbox.Errors.{assertion_error, command_empty, command_syntax_invalid}
use mem_sandbox.Strings.{Text}
use mem_sandbox.Command.{
  CommandWord, Connector, always, on_success, RedirectionMode, replace_mode, append_mode,
  StdoutRedirection, CommandStage, PlanUnit, ExecutionPlan,
}
use mem_sandbox.Command.Tokens.{
  Operator, sequence_operator, and_operator, pipe_operator, redirect_operator, append_operator,
  Token, word_token, operator_token, tokenize,
}
use mem_sandbox.Command.Expansion.{validate_fragments}

abbrev pub redirection_mode : Operator → Option RedirectionMode
redirection_mode redirect_operator = some replace_mode
redirection_mode append_operator = some append_mode
redirection_mode sequence_operator = none
redirection_mode and_operator = none
redirection_mode pipe_operator = none

-- The connector of the unit behind a separator.
abbrev pub separator_connector : Operator → Option Connector
separator_connector sequence_operator = some always
separator_connector and_operator = some on_success
separator_connector pipe_operator = none
separator_connector redirect_operator = none
separator_connector append_operator = none

-- What may stand behind the destination of a redirection.
abbrev pub check_trailing : List Token → Run (Unit {0})
check_trailing [] = pure tt
check_trailing (word_token w ∷ ts) = fail command_syntax_invalid
check_trailing (operator_token pipe_operator ∷ ts) = fail command_syntax_invalid
check_trailing (operator_token redirect_operator ∷ ts) = fail command_syntax_invalid
check_trailing (operator_token append_operator ∷ ts) = fail command_syntax_invalid
check_trailing (operator_token sequence_operator ∷ ts) = pure tt
check_trailing (operator_token and_operator ∷ ts) = pure tt

-- The tokens behind a pipe, if the text goes on with one.
abbrev pub behind_pipe : List Token → Option (List Token)
behind_pipe (operator_token pipe_operator ∷ ts) = some ts
behind_pipe ts = none

-- The separator behind a unit: the connector of the next, and the tokens of the next.
unfoldable pub take_separator : List Token → Run (Option (Connector × List Token))
take_separator [] = pure none
take_separator (word_token w ∷ ts) = fail assertion_error
take_separator (operator_token o ∷ ts) = elim (separator_connector o) [
  | none ↦ fail command_syntax_invalid
  | some c ↦ elim ts [ [] ↦ fail command_syntax_invalid | t ∷ more ↦ pure (some (c, t ∷ more)) ]
]

module _ (is_alpha : ℕ → Bool) where
  -- `_validate_word_expansions`
  abbrev pub validate_word : CommandWord → Run (Unit {0})
  validate_word w = validate_fragments is_alpha w.fragments

  -- The loop over the words of a stage.
  unfoldable pub take_words : List Token → Run (List CommandWord × List Token)
  take_words [] = pure ([], [])
  take_words (operator_token o ∷ ts) = pure ([], operator_token o ∷ ts)
  take_words (word_token w ∷ ts) = do
    validate_word w
    (ws, rest) ← take_words ts
    pure (w ∷ ws, rest)

  -- The loop over the stages of a pipeline.
  unfoldable pub take_stages : ℕ → List Token → Run (List CommandStage × List Token)
  take_stages zero ts = none
  take_stages (suc fuel) [] = fail command_syntax_invalid
  take_stages (suc fuel) (operator_token o ∷ ts) = fail command_syntax_invalid
  take_stages (suc fuel) (word_token w ∷ ts) = do
    (ws, rest) ← take_words (word_token w ∷ ts)
    elim (behind_pipe rest) [
      | none ↦ pure (record { words = ws } ∷ [], rest)
      | some more ↦ do
        (stages, left) ← take_stages fuel more
        pure (record { words = ws } ∷ stages, left)
    ]

  unfoldable pub take_destination :
      RedirectionMode → List Token → Run (Option StdoutRedirection × List Token)
  take_destination mode [] = fail command_syntax_invalid
  take_destination mode (operator_token o ∷ ts) = fail command_syntax_invalid
  take_destination mode (word_token w ∷ ts) = do
    validate_word w
    check_trailing ts
    pure (some (record { mode = mode; destination = w }), ts)

  -- The redirection of a unit, if it has one. No word stands behind the last stage: the source
  -- asserts it.
  unfoldable pub take_redirection : List Token → Run (Option StdoutRedirection × List Token)
  take_redirection [] = pure (none, [])
  take_redirection (word_token w ∷ ts) = fail assertion_error
  take_redirection (operator_token o ∷ ts) = elim (redirection_mode o) [
    | none ↦ pure (none, operator_token o ∷ ts)
    | some mode ↦ take_destination mode ts
  ]

  -- The loop over the units.
  unfoldable pub take_units : ℕ → Connector → List Token → Run (List PlanUnit)
  take_units zero connector ts = none
  take_units (suc fuel) connector ts = do
    (stages, behind) ← take_stages fuel ts
    (redirection, left) ← take_redirection behind
    next ← take_separator left
    let unit : PlanUnit = record {
      connector = connector;
      stages = stages;
      redirection = redirection;
    }
    elim next [
      | none ↦ pure (unit ∷ [])
      | some (c, more) ↦ do units ← take_units fuel c more; pure (unit ∷ units)
    ]

  unfoldable pub parse_tokens : List Token → Run ExecutionPlan
  parse_tokens [] = fail command_empty
  parse_tokens (t ∷ ts) = do
    units ← take_units (length (t ∷ ts) + 2) always (t ∷ ts)
    pure (record { units = units })

  unfoldable pub parse_execution_plan : Text → Run ExecutionPlan
  parse_execution_plan command = do tokens ← tokenize command; parse_tokens tokens
