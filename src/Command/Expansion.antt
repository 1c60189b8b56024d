-- ===== src/Command/Expansion.antt =====
-- `expand_word` and `_scan_expansion` of src/mem_sandbox/command_executor/parser.py, with the
-- environments of models.py that it reads. `str.isalpha` of a character is a parameter.
pub mod Safe
use mem_sandbox.Base.{
  leb, ◌==◌, if◌then◌else◌, length, ℕ, zero, suc, Bool, true, false, not, ◌&&◌, ◌||◌, Option, none,
  some, List, [], ◌∷◌, ◌++◌,
}
use mem_sandbox.Errors.{value_error, command_syntax_invalid, Result, err, ok, raise_if, ◌>>=◌, ◌>>◌}
use mem_sandbox.Strings.{Text, codes, text_eq}
use mem_sandbox.Paths.{SandboxPath, name}
use mem_sandbox.Command.{WordFragment, CommandWord}

-- `_is_environment_name_start`
unfoldable pub is_name_start : ℕ → Bool
is_name_start c = c == b'_' || (leb b'A' c && leb c b'Z') || (leb b'a' c && leb c b'z')

-- `_is_environment_name_character`
unfoldable pub is_name_character : ℕ → Bool
is_name_character c = is_name_start c || (leb b'0' c && leb c b'9')

unfoldable pub all_name_characters : Text → Bool
all_name_characters [] = true
all_name_characters (c ∷ t) = is_name_character c && all_name_characters t

-- `_is_environment_name`, and the pattern of `_require_environment_name`
unfoldable pub is_environment_name : Text → Bool
is_environment_name [] = false
is_environment_name (c ∷ t) = is_name_start c && all_name_characters t

-- `CommandEnvironment`: names with values.
abbrev pub Environment : Type 0
Environment = List (Text × Text)

unfoldable pub find_value : Environment → Text → Option Text
find_value [] name = none
find_value ((k, v) ∷ l) name = if text_eq k name then some v else find_value l name

abbrev pub value_or : Option Text → Text → Text
value_or none default = default
value_or (some v) default = v

-- `CommandEnvironment.get`, with the default of the empty text.
unfoldable pub environment_get : Environment → Text → Result Text
environment_get values name = do
  raise_if (not (is_environment_name name)) value_error
  ok (value_or (find_value values name) [])

-- `CommandEnvironmentView`: the values of the overlay come before those of the base.
pub record EnvironmentView : Type 0 where
  pub base : Environment
  pub overlay : Environment

-- `CommandEnvironmentView.get`
unfoldable pub view_get : EnvironmentView → Text → Result Text
view_get v name = do
  raise_if (not (is_environment_name name)) value_error
  elim (find_value v.overlay name) [ some value ↦ ok value | none ↦ environment_get v.base name ]

-- What a word is expanded in.
pub record Scope : Type 0 where
  pub environment : EnvironmentView
  pub cwd : SandboxPath

-- `_environment_value`. A scan that only validates has no scope.
unfoldable pub environment_value : Text → Option Scope → Result Text
environment_value name none = ok []
environment_value name (some scope) =
    if text_eq name (codes "PWD") then ok scope.cwd.value else view_get scope.environment name

-- What a round of the scan adds to the output: a text, or the value of a variable.
pub data Piece : Type 0 where
  literal_piece variable_piece : Text → Piece

unfoldable pub piece_value : Option Scope → Piece → Result Text
piece_value scope (literal_piece t) = ok t
piece_value scope (variable_piece name) = environment_value name scope

-- `text.find("}", ...)`: what stands before the brace and behind it.
unfoldable pub break_at_brace : Text → Option (Text × Text)
break_at_brace [] = none
break_at_brace (c ∷ t) =
    let rest = break_at_brace t in
    if c == b'}'
    then some ([], t)
    else elim rest [ none ↦ none | some (name, behind) ↦ some (c ∷ name, behind) ]

-- The loop over the characters of a name.
unfoldable pub name_run : Text → Text × Text
name_run [] = ([], [])
name_run (c ∷ t) =
    let rest = name_run t in if is_name_character c then (c ∷ rest.0, rest.1) else ([], c ∷ t)

module _ (is_alpha : ℕ → Bool) where
  -- A round of the scan at a dollar sign, on the text behind it.
  unfoldable pub dollar : Text → Result (Piece × Text)
  dollar [] = ok (literal_piece (codes "$"), [])
  dollar (c ∷ t) =
      if c == b'{'
      then elim (break_at_brace t) [
        | none ↦ err command_syntax_invalid
        | some (name, behind) ↦
            if not (is_environment_name name)
            then err command_syntax_invalid
            else ok (variable_piece name, behind)
      ]
      else if is_name_start c
      then ok (variable_piece (c ∷ (name_run t).0), (name_run t).1)
      else if is_alpha c
      then err command_syntax_invalid
      else ok (literal_piece (codes "$"), c ∷ t)

  unfoldable pub expansion_step : ℕ → Text → Result (Piece × Text)
  expansion_step c t = if not (c == b'$') then ok (literal_piece (c ∷ []), t) else dollar t

  -- `_scan_expansion`. `none` says that the fuel ran out.
  unfoldable pub expand_from : ℕ → Text → Option Scope → Option (Result Text)
  expand_from fuel [] scope = some (ok [])
  expand_from zero (c ∷ t) scope = none
  expand_from (suc fuel) (c ∷ t) scope = elim (expansion_step c t) [
    | err e ↦ some (err e)
    | ok (piece, rest) ↦ elim (piece_value scope piece) [
      | err e ↦ some (err e)
      | ok value ↦ elim (expand_from fuel rest scope) [
        | none ↦ none
        | some (err e) ↦ some (err e)
        | some (ok out) ↦ some (ok (value ++ out))
      ]
    ]
  ]

  unfoldable pub scan_expansion : Text → Option Scope → Option (Result Text)
  scan_expansion t scope = expand_from (length t) t scope

  -- `expand_word` on the fragments of a word.
  unfoldable pub expand_fragments : List WordFragment → Scope → Option (Result Text)
  expand_fragments [] scope = some (ok [])
  expand_fragments (f ∷ fs) scope =
      let first =
        if f.expands_environment then scan_expansion f.text (some scope) else some (ok f.text) in
      elim first [
        | none ↦ none
        | some (err e) ↦ some (err e)
        | some (ok value) ↦ elim (expand_fragments fs scope) [
          | none ↦ none
          | some (err e) ↦ some (err e)
          | some (ok out) ↦ some (ok (value ++ out))
        ]
      ]

  unfoldable pub expand_word : CommandWord → Scope → Option (Result Text)
  expand_word w scope = expand_fragments w.fragments scope

  -- `_validate_word_expansions` on the fragments of a word.
  unfoldable pub validate_fragments : List WordFragment → Option (Result (Unit {0}))
  validate_fragments [] = some (ok tt)
  validate_fragments (f ∷ fs) =
      let first = if f.expands_environment then scan_expansion f.text none else some (ok []) in
      elim first [
        | none ↦ none
        | some (err e) ↦ some (err e)
        | some (ok value) ↦ validate_fragments fs
      ]
