-- ===== src/Command/Output.antt =====
-- `BoundedOutputCollector` and `bound_text` of src/mem_sandbox/command_executor/output.py.
pub mod Retained
pub mod Appends
pub mod Bounded
use mathlib.Core.Option
use mem_sandbox.Base.{
  leb, if◌then◌else◌, length, take, ℕ, zero, suc, ◌+◌, ◌-◌, Bool, true, false, ◌||◌, Option, none,
  some, List, [], ◌∷◌, ◌++◌, map,
}
use mem_sandbox.Strings.{Text}
use mem_sandbox.Utf8.{Bytes, encode, decode, error_start}

-- `BoundedText`
pub record BoundedText : Type 0 where
  pub text : Text
  pub original_bytes : ℕ
  pub truncated : Bool

-- `BoundedOutputCollector`, but for its `_max_bytes`, which does not change.
pub record Collector : Type 0 where
  pub parts : List Text
  pub retained_bytes : ℕ
  pub original_bytes : ℕ
  pub truncated : Bool
  pub retention_closed : Bool

abbrev pub new_collector : Collector
new_collector = record {
  parts = [];
  retained_bytes = 0;
  original_bytes = 0;
  truncated = false;
  retention_closed = false;
}

-- `bool(encoded)`
abbrev pub nonempty : Bytes → Bool
nonempty [] = false
nonempty (b ∷ bs) = true

-- The loop that drops an incomplete code point from the end: the text and its bytes. `none` is the end
-- of the fuel.
unfoldable pub retain : ℕ → Bytes → Option (Text × Bytes)
retain fuel [] = some ([], [])
retain zero (b ∷ bs) = none
retain (suc fuel) (b ∷ bs) = elim (decode (b ∷ bs)) [
  | some t ↦ some (t, b ∷ bs)
  | none ↦ retain fuel (take (error_start (b ∷ bs)) (b ∷ bs))
]

-- `append`, behind the encoding; the loop has the number of bytes as fuel.
unfoldable pub append_bytes : ℕ → Text → Bytes → Collector → Option Collector
append_bytes max_bytes text encoded c =
    let counted = record c { original_bytes = c.original_bytes + length encoded } in
    if c.retention_closed
    then some (record counted { truncated = c.truncated || nonempty encoded })
    else if leb max_bytes c.retained_bytes
    then some (record counted {
      truncated = c.truncated || nonempty encoded;
      retention_closed = nonempty encoded;
    })
    else if leb (length encoded) (max_bytes - c.retained_bytes)
    then some (record counted {
      parts = c.parts ++ text ∷ [];
      retained_bytes = c.retained_bytes + length encoded;
    })
    else Option.map
        (λ kept. record counted {
          parts = c.parts ++ kept.0 ∷ [];
          retained_bytes = c.retained_bytes + length kept.1;
          truncated = true;
          retention_closed = true;
        })
        (retain (length encoded) (take (max_bytes - c.retained_bytes) encoded))

-- `append`; `none` is `UnicodeEncodeError`, or the end of the fuel.
unfoldable pub append : ℕ → Text → Collector → Option Collector
append max_bytes text c = elim (encode text) [
  | none ↦ none
  | some encoded ↦ append_bytes max_bytes text encoded c
]

-- `"".join(parts)`
abbrev pub joined : List Text → Text
joined [] = []
joined (t ∷ ts) = t ++ joined ts

abbrev pub result : Collector → BoundedText
result c = record {
  text = joined c.parts;
  original_bytes = c.original_bytes;
  truncated = c.truncated;
}

-- The calls of `append` on one collector.
unfoldable pub append_all : ℕ → List Text → Collector → Option Collector
append_all max_bytes [] c = some c
append_all max_bytes (t ∷ ts) c = elim (append max_bytes t c) [
  | none ↦ none
  | some d ↦ append_all max_bytes ts d
]

unfoldable pub bound_text : Text → ℕ → Option BoundedText
bound_text text max_bytes = Option.map result (append max_bytes text new_collector)
