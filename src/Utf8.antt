-- ===== src/Utf8.antt =====
-- `str.encode("utf-8")` and `bytes.decode("utf-8")` of Python, strict as the program calls them.
pub mod Roundtrip
pub mod Cuts
pub mod Fitting
use mathlib.Core.Option
use mem_sandbox.Base.{
  ltb, leb, ◌==◌, if◌then◌else◌, ℕ, ◌+◌, ◌-◌, ◌*◌, ◌/◌, ◌%◌, ◌&&◌, Option, none, some, List, [],
  ◌∷◌, ◌++◌, map,
}
use mem_sandbox.Strings.{Text}

abbrev pub Bytes : Type 0
Bytes = List ℕ

-- The bytes of one code point. A surrogate has none, nor has a number past the last code point.
unfoldable pub encode_char : ℕ → Option Bytes
encode_char c =
    if ltb c 0x80
    then some (c ∷ [])
    else if ltb c 0x800
    then some ((0xc0 + c / 64) ∷ (0x80 + c % 64) ∷ [])
    else if leb 0xd800 c && leb c 0xdfff
    then none
    else if ltb c 0x1_0000
    then some ((0xe0 + c / 4096) ∷ (0x80 + (c / 64) % 64) ∷ (0x80 + c % 64) ∷ [])
    else if ltb c 0x11_0000
    then some (
        (0xf0 + c / 262144)
        ∷ (0x80 + (c / 4096) % 64)
        ∷ (0x80 + (c / 64) % 64)
        ∷ (0x80 + c % 64)
        ∷ [])
    else none

-- Two encoded texts, one after the other.
abbrev pub append_encoded : Option Bytes → Option Bytes → Option Bytes
append_encoded none r = none
append_encoded (some b) none = none
append_encoded (some b) (some r) = some (b ++ r)

-- `none` is `UnicodeEncodeError`.
unfoldable pub encode : Text → Option Bytes
unfolding encode_char
encode [] = some []
encode (c ∷ t) = append_encoded (encode_char c) (encode t)

-- What the decoder expects: the bytes still to come, the bits read, the range of the next byte.
pub record Pending : Type 0 where
  pub need : ℕ
  pub bits : ℕ
  pub low : ℕ
  pub high : ℕ

abbrev pub idle : Pending
idle = record { need = 0; bits = 0; low = 0x80; high = 0xbf }

abbrev pub pending : ℕ → ℕ → ℕ → ℕ → Option (Pending × Text)
pending need bits low high = some (record { need = need; bits = bits; low = low; high = high }, [])

unfoldable pub first_byte : ℕ → Option (Pending × Text)
first_byte b =
    if ltb b 0x80
    then some (idle, b ∷ [])
    else if ltb b 0xc2
    then none
    else if ltb b 0xe0
    then pending 1 (b - 0xc0) 0x80 0xbf
    else if ltb b 0xf0
    then pending 2 (b - 0xe0) (if b == 0xe0 then 0xa0 else 0x80) (if b == 0xed then 0x9f else 0xbf)
    else if ltb b 0xf5
    then pending 3 (b - 0xf0) (if b == 0xf0 then 0x90 else 0x80) (if b == 0xf4 then 0x8f else 0xbf)
    else none

-- One byte: the new state, and the code point that it completes.
unfoldable pub decode_step : Pending → ℕ → Option (Pending × Text)
unfolding first_byte
decode_step s b =
    if s.need == 0
    then first_byte b
    else if leb s.low b && leb b s.high
    then if s.need == 1
      then some (idle, (s.bits * 64 + (b - 0x80)) ∷ [])
      else pending (s.need - 1) (s.bits * 64 + (b - 0x80)) 0x80 0xbf
    else none

unfoldable pub decode_from : Pending → Bytes → Option Text
unfolding decode_step
decode_from s [] = if s.need == 0 then some [] else none
decode_from s (b ∷ bs) = elim (decode_step s b) [
  | none ↦ none
  | some (s', out) ↦ Option.map (λ t. out ++ t) (decode_from s' bs)
]

-- `none` is `UnicodeDecodeError`.
unfoldable pub decode : Bytes → Option Text
unfolding decode_from
decode = decode_from idle

-- Where the sequence begins at which decoding fails, if it fails; `start` is where the one that is
-- being read begins, and `index` where the bytes do.
unfoldable pub error_from : Pending → ℕ → ℕ → Bytes → ℕ
unfolding decode_step
error_from s start index [] = start
error_from s start index (b ∷ bs) = elim (decode_step s b) [
  | none ↦ start
  | some (s', out) ↦ error_from s' (if s'.need == 0 then index + 1 else start) (index + 1) bs
]

-- `error.start` of `UnicodeDecodeError`
unfoldable pub error_start : Bytes → ℕ
unfolding error_from
error_start = error_from idle 0 0
