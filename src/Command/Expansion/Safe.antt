-- ===== src/Command/Expansion/Safe.antt =====
-- A word that was validated is expanded without an error, in every environment.
use mem_sandbox.Base.{
  Bool-cases, Option-cases, length, ℕ, zero, suc, ◌≤◌, ◌≡◌, refl, inl, inr, Bool, true, Option,
  none, some, List, [], ◌∷◌, ◌++◌, arith,
}
use mem_sandbox.Errors.{Result, err, ok}
use mem_sandbox.Strings.{Text, codes, text_eq}
use mem_sandbox.Paths.{name}
use mem_sandbox.Command.{WordFragment, CommandWord}
use mem_sandbox.Command.Expansion.{
  all_name_characters, is_environment_name, Environment, find_value, value_or, environment_get,
  EnvironmentView, view_get, Scope, environment_value, Piece, literal_piece, variable_piece,
  piece_value, break_at_brace, name_run, dollar, expansion_step, expand_from, scan_expansion,
  expand_fragments, expand_word, validate_fragments,
}

break_at_brace-length :
    (t name behind : Text) → break_at_brace t ≡ some (name, behind) → length behind ≤ length t
unfolding break_at_brace
break_at_brace-length [] name behind h = absurd (cc h)
break_at_brace-length (c ∷ t) name behind h = elim (Option-cases (break_at_brace t)) [
  | inl e ↦ ground (arith, e)
  | inr ((n, b), e) ↦ ground (arith, e, break_at_brace-length t n b e)
]

name_run-length : (t : Text) → length (name_run t).1 ≤ length t
unfolding name_run
name_run-length [] = omega arith
name_run-length (c ∷ t) = ground (arith, name_run-length t)

name_run-names : (t : Text) → all_name_characters (name_run t).0 ≡ true
unfolding name_run all_name_characters
name_run-names [] = refl
name_run-names (c ∷ t) = ground (arith, name_run-names t)

-- The name of a variable is one that an environment takes.
abbrev pub IsNamed : Piece → Type 0
IsNamed (literal_piece t) = Unit
IsNamed (variable_piece name) = is_environment_name name ≡ true

module _ (is_alpha : ℕ → Bool) where
  dollar-length :
      (t : Text) (piece : Piece) (rest : Text)
      → dollar is_alpha t ≡ ok (piece, rest)
      → length rest ≤ length t
  unfolding dollar
  dollar-length [] piece rest h = ground arith
  dollar-length (c ∷ t) piece rest h = elim (Option-cases (break_at_brace t)) [
    | inl e ↦ ground (arith, e, name_run-length t)
    | inr ((name, behind), e) ↦
        ground (arith, e, break_at_brace-length t name behind e, name_run-length t)
  ]

  dollar-name :
      (t name rest : Text)
      → dollar is_alpha t ≡ ok (variable_piece name, rest)
      → is_environment_name name ≡ true
  unfolding dollar is_environment_name
  dollar-name [] name rest h = absurd (ground arith)
  dollar-name (c ∷ t) name rest h = elim (Option-cases (break_at_brace t)) [
    | inl e ↦ ground (arith, e, name_run-names t)
    | inr ((inner, behind), e) ↦ ground (arith, e, name_run-names t)
  ]

  step-length :
      (c : ℕ) (t : Text) (piece : Piece) (rest : Text)
      → expansion_step is_alpha c t ≡ ok (piece, rest)
      → length rest ≤ length t
  unfolding expansion_step
  step-length c t piece rest h = ground (arith, dollar-length t piece rest)

  step-name :
      (c : ℕ) (t : Text) (name rest : Text)
      → expansion_step is_alpha c t ≡ ok (variable_piece name, rest)
      → is_environment_name name ≡ true
  unfolding expansion_step
  step-name c t name rest h = ground (arith, dollar-name t name rest)

  environment_get_lem :
      (values : Environment) (name : Text)
      → is_environment_name name ≡ true
      → environment_get values name ≡ ok (value_or (find_value values name) [])
  unfolding environment_get
  environment_get_lem values name h = rw h refl

  view_get-total :
      (v : EnvironmentView) (name : Text)
      → is_environment_name name ≡ true
      → (value : Text) × (view_get v name ≡ ok value)
  unfolding view_get
  view_get-total v name h = elim (Option-cases (find_value v.overlay name)) [
    | inl e ↦ (value_or (find_value v.base name) [], rw (h, e) (environment_get_lem v.base name h))
    | inr (value, e) ↦ (value, rw (h, e) refl)
  ]

  -- The value of every piece that a round gave is there.
  piece_value-total :
      (c : ℕ) (t : Text) (scope : Option Scope) (piece : Piece) (rest : Text)
      → expansion_step is_alpha c t ≡ ok (piece, rest)
      → (value : Text) × (piece_value scope piece ≡ ok value)
  unfolding piece_value environment_value
  piece_value-total c t scope (literal_piece u) rest h = (u, refl)
  piece_value-total c t none (variable_piece name) rest h = ([], refl)
  piece_value-total c t (some scope) (variable_piece name) rest h =
      let (value, e) = view_get-total scope.environment name (step-name c t name rest h) in
      elim (Bool-cases (text_eq name (codes "PWD"))) [
        | inl k ↦ (scope.cwd.value, rw k refl)
        | inr k ↦ (value, rw k e)
      ]

  -- A scan that gave a text in one scope gives one in every scope.
  expand_from-scope :
      (fuel : ℕ) (t : Text) (scope other : Option Scope) (out : Text)
      → expand_from is_alpha fuel t scope ≡ some (ok out)
      → (result : Text) × (expand_from is_alpha fuel t other ≡ some (ok result))
  unfolding expand_from
  expand_from-scope fuel [] scope other out h = ([], refl)
  expand_from-scope zero (c ∷ t) scope other out h = absurd (cc h)
  expand_from-scope (suc fuel) (c ∷ t) scope other out h =
      go (expand_from-scope fuel) (expansion_step is_alpha c t) refl
    where
      step :
          ((rest : Text) (scope other : Option Scope) (out : Text)
            → expand_from is_alpha fuel rest scope ≡ some (ok out)
            → (result : Text) × (expand_from is_alpha fuel rest other ≡ some (ok result)))
          → (piece : Piece) (rest value old : Text) → expansion_step is_alpha c t ≡ ok (piece, rest)
          → piece_value other piece ≡ ok value
          → piece_value scope piece ≡ ok old
          → (r : Option (Result Text)) → expand_from is_alpha fuel rest scope ≡ r
          → (result : Text) × (expand_from is_alpha (suc fuel) (c ∷ t) other ≡ some (ok result))
      step more piece rest value old k p p0 none e = absurd (ground (arith, k, p0, e))
      step more piece rest value old k p p0 (some (err x)) e = absurd (ground (arith, k, p0, e))
      step more piece rest value old k p p0 (some (ok o)) e =
          let (result, q) = more rest scope other o e in (value ++ result, ground (arith, k, p, q))

      go :
          ((rest : Text) (scope other : Option Scope) (out : Text)
            → expand_from is_alpha fuel rest scope ≡ some (ok out)
            → (result : Text) × (expand_from is_alpha fuel rest other ≡ some (ok result)))
          → (r : Result (Piece × Text)) → expansion_step is_alpha c t ≡ r
          → (result : Text) × (expand_from is_alpha (suc fuel) (c ∷ t) other ≡ some (ok result))
      go more (err e) k = absurd (ground (arith, k))
      go more (ok (piece, rest)) k =
          let (value, p) = piece_value-total c t other piece rest k in
          let (old, p0) = piece_value-total c t scope piece rest k in
          step more piece rest value old k p p0 (expand_from is_alpha fuel rest scope) refl

  -- The scan ends: with a text, or with the error of a round.
  expand_from-total :
      (fuel : ℕ) (t : Text) (scope : Option Scope)
      → length t ≤ fuel
      → (r : Result Text) × (expand_from is_alpha fuel t scope ≡ some r)
  unfolding expand_from
  expand_from-total fuel [] scope h = (ok [], refl)
  expand_from-total zero (c ∷ t) scope h = absurd (omega arith)
  expand_from-total (suc fuel) (c ∷ t) scope h =
      go (expand_from-total fuel) (expansion_step is_alpha c t) refl
    where
      join_to :
          {piece : Piece} (value rest : Text) (r : Result Text)
          → piece_value scope piece ≡ ok value
          → expansion_step is_alpha c t ≡ ok (piece, rest)
          → expand_from is_alpha fuel rest scope ≡ some r
          → (out : Result Text) × (expand_from is_alpha (suc fuel) (c ∷ t) scope ≡ some out)
      join_to value rest (err e) p k q = (err e, ground (arith, k, p, q))
      join_to value rest (ok out) p k q = (ok (value ++ out), ground (arith, k, p, q))

      go :
          ((rest : Text) (scope : Option Scope)
            → length rest ≤ fuel
            → (r : Result Text) × (expand_from is_alpha fuel rest scope ≡ some r))
          → (r : Result (Piece × Text)) → expansion_step is_alpha c t ≡ r
          → (out : Result Text) × (expand_from is_alpha (suc fuel) (c ∷ t) scope ≡ some out)
      go more (err e) k = (err e, ground (arith, k))
      go more (ok (piece, rest)) k =
          let (value, p) = piece_value-total c t scope piece rest k in
          let (r, q) = more rest scope (omega (arith, h, step-length c t piece rest k)) in
          join_to value rest r p k q

  pub scan_expansion-total :
      (t : Text) (scope : Option Scope)
      → (r : Result Text) × (scan_expansion is_alpha t scope ≡ some r)
  unfolding scan_expansion
  scan_expansion-total t scope = expand_from-total (length t) t scope (omega arith)

  -- The first fragment of a validated word, if it expands, was scanned to a text.
  first-validated :
      (f : WordFragment) (fs : List WordFragment)
      → f.expands_environment ≡ true
      → validate_fragments is_alpha (f ∷ fs) ≡ some (ok tt)
      → (value : Text) × (scan_expansion is_alpha f.text none ≡ some (ok value))
  unfolding validate_fragments
  first-validated f fs e h = go (scan_expansion-total f.text none)
    where
      go :
          (r : Result Text) × (scan_expansion is_alpha f.text none ≡ some r)
          → (value : Text) × (scan_expansion is_alpha f.text none ≡ some (ok value))
      go (ok value, k) = (value, k)
      go (err x, k) = absurd (ground (arith, e, k))

  fragments-validated :
      (fs : List WordFragment) (scope : Scope)
      → validate_fragments is_alpha fs ≡ some (ok tt)
      → (out : Text) × (expand_fragments is_alpha fs scope ≡ some (ok out))
  unfolding validate_fragments expand_fragments scan_expansion
  fragments-validated [] scope h = ([], refl)
  fragments-validated (f ∷ fs) scope h = elim (Bool-cases f.expands_environment) [
    | inl e ↦
        let (old, k0) = first-validated f fs e h in
        let (value, k) =
          expand_from-scope (length f.text) f.text none (some scope) old
            (unfold scan_expansion in k0) in
        let (out, q) = fragments-validated fs scope (ground (arith, e, k0)) in
        (value ++ out, ground (arith, e, k, q))
    | inr e ↦
        let (out, k) = fragments-validated fs scope (ground (arith, e)) in
        (f.text ++ out, rw (e, k) refl)
  ]

  -- A word whose expansions were validated, with no environment at hand, is expanded to a text in
  -- every environment and working directory: no error is left for the time of execution.
  pub expand_word-validated :
      (w : CommandWord) (scope : Scope)
      → validate_fragments is_alpha w.fragments ≡ some (ok tt)
      → (out : Text) × (expand_word is_alpha w scope ≡ some (ok out))
  unfolding expand_word
  expand_word-validated w scope h = fragments-validated w.fragments scope h
