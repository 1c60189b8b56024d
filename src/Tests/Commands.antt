-- ===== src/Tests/Commands.antt =====
-- The theorems on the command language at concrete commands.
use mem_sandbox.Runs.{pure}
use mem_sandbox.Base.{length, All, ℕ, ◌≤◌, ◌≡◌, refl, Bool, true, false, none, some, List, [], ◌∷◌}
use mem_sandbox.Errors.{Result, ok}
use mem_sandbox.Strings.{Text, codes, text_eq, has_char, starts_with}
use mem_sandbox.Utf8.{Bytes, encode_char, encode}
use mem_sandbox.Command.Grammar.{
  take_separator, take_words, take_stages, take_destination, take_redirection, take_units,
  parse_tokens, parse_execution_plan,
}
use mem_sandbox.Lines.{newline, return}
use mem_sandbox.Command.{CommandWord, always, on_success, append_mode, PlanUnit, ExecutionPlan}
use mem_sandbox.Command.Tokens.{
  word_token, flush_word, append_fragment, is_space, single_quote, quoted, run_of, all_digits,
  is_unsupported, operator_of, take_run, escaped_character, token_step, tokens_from, tokenize,
}
use mem_sandbox.Command.Tokens.Quoting.{in_quotes, tokenize-in_quotes}
use mem_sandbox.Command.Expansion.{
  is_name_start, is_name_character, all_name_characters, is_environment_name, environment_value,
  piece_value, break_at_brace, name_run, dollar, expansion_step, expand_from, scan_expansion,
  validate_fragments,
}
use mem_sandbox.Command.Grammar.Printed.{
  print_words, print_stages, print_unit, print_units, parse_tokens-printed,
}
use mem_sandbox.Command.Grammar.Validated.{IsExpandable, parse_execution_plan-IsExpandable}
use mem_sandbox.Command.Grammar.Ends.{parse_execution_plan-total}
use mem_sandbox.Utf8.Cuts.{fitting}
use mem_sandbox.Command.Output.{Collector, new_collector, joined, result, append_all, bound_text}
use mem_sandbox.Command.Output.Bounded.{bounded, append_all-bounded}

abbrev no_alpha : ℕ → Bool
no_alpha c = false

abbrev command : Text
command = codes "cat \"$HOME/a\" | sort>>out && echo 'a b'"

abbrev bare : Text → CommandWord
bare t = record { fragments = record { text = t; expands_environment = true } ∷ [] }

abbrev plan : ExecutionPlan
plan = record {
  units =
      record {
        connector = always;
        stages =
            record { words = bare (codes "cat") ∷ bare (codes "$HOME/a") ∷ [] }
            ∷ record { words = bare (codes "sort") ∷ [] }
            ∷ [];
        redirection = some (record { mode = append_mode; destination = bare (codes "out") });
      }
      ∷ record {
        connector = on_success;
        stages =
            record {
              words =
                  bare (codes "echo")
                  ∷ record {
                    fragments = record { text = codes "a b"; expands_environment = false } ∷ [];
                  }
                  ∷ [];
            }
            ∷ [];
        redirection = none;
      }
      ∷ [];
}

-- What the parser makes of the command.
record Parsed : Type 0 where
  text : parse_execution_plan no_alpha command ≡ pure plan
  tokens : parse_tokens no_alpha (print_units plan.units) ≡ pure plan
  no_quote : has_char single_quote (codes "$a; b") ≡ false
  no_newline : has_char newline (codes "$a; b") ≡ false
  no_return : has_char return (codes "$a; b") ≡ false

parsed : Parsed
unfolding parse_execution_plan parse_tokens take_units take_stages take_words take_redirection
    take_destination take_separator tokenize tokens_from token_step quoted escaped_character
    operator_of take_run run_of all_digits is_unsupported is_space flush_word append_fragment
    validate_fragments scan_expansion expand_from expansion_step dollar name_run break_at_brace
    is_name_start is_name_character all_name_characters is_environment_name piece_value
    environment_value has_char starts_with text_eq print_units print_unit print_stages print_words
parsed = record { text = refl; tokens = refl; no_quote = refl; no_newline = refl; no_return = refl }

parse_tokens-printed_example :
    (print_units plan.units ≡ print_units plan.units)
    × (first : PlanUnit) × (others : List PlanUnit) × (plan.units ≡ first ∷ others)
    × (first.connector ≡ always)
parse_tokens-printed_example =
    parse_tokens-printed no_alpha (print_units plan.units) plan parsed.tokens

parse_execution_plan-IsExpandable_example : All (IsExpandable no_alpha) (print_units plan.units)
parse_execution_plan-IsExpandable_example =
    parse_execution_plan-IsExpandable no_alpha command plan parsed.text

parse_execution_plan-total_example :
    (r : Result ExecutionPlan) × (parse_execution_plan no_alpha command ≡ some r)
parse_execution_plan-total_example = parse_execution_plan-total no_alpha command

tokenize-in_quotes_example :
    tokenize (in_quotes (codes "$a; b"))
    ≡ some (
        ok (
          word_token (record {
            fragments = record { text = codes "$a; b"; expands_environment = false } ∷ [];
          })
          ∷ []))
tokenize-in_quotes_example =
    tokenize-in_quotes (codes "$a; b") parsed.no_quote parsed.no_newline parsed.no_return

-- Two pieces of five bytes in all, cut inside the last letter.
abbrev pieces : List Text
pieces = codes "a" ∷ (233 ∷ 233 ∷ []) ∷ []

abbrev piece_bytes : Bytes
piece_bytes = 97 ∷ 195 ∷ 169 ∷ 195 ∷ 169 ∷ []

pieces_encoded : encode (joined pieces) ≡ some piece_bytes
unfolding encode encode_char
pieces_encoded = refl

append_all-bounded_example :
    (c : Collector) × (append_all 4 pieces new_collector ≡ some c)
    × (result c ≡ bounded 4 (joined pieces) piece_bytes)
    × (bound_text (joined pieces) 4 ≡ some (result c))
    × (b : Bytes) × (encode (fitting 4 (joined pieces)) ≡ some b)
    × (length b ≤ 4)
append_all-bounded_example = append_all-bounded 4 pieces piece_bytes pieces_encoded

kept_piece : fitting 4 (joined pieces) ≡ 97 ∷ 233 ∷ []
unfolding fitting encode_char
kept_piece = refl
