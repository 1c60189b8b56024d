-- ===== src/Lines.antt =====
-- src/mem_sandbox/workspace/text.py: lines of a text, whatever its line endings.
pub mod Laws
use mem_sandbox.Base.{◌==◌, if◌then◌else◌, init, ℕ, Bool, true, false, ◌&&◌, List, [], ◌∷◌}
use mem_sandbox.Strings.{Text, split, ends_with}

abbrev pub newline : ℕ
newline = 10

abbrev pub return : ℕ
return = 13

-- `text.replace("\r\n", "\n").replace("\r", "\n")`: a return is read together with the newline
-- behind it, and a return alone is a newline.
unfoldable pub replace_crlf : Text → Text
replace_crlf [] = []
replace_crlf (c ∷ []) = c ∷ []
replace_crlf (c ∷ d ∷ t) =
    let pair = newline ∷ replace_crlf t in
    let one = c ∷ replace_crlf (d ∷ t) in if c == return && d == newline then pair else one

unfoldable pub replace_cr : Text → Text
replace_cr [] = []
replace_cr (c ∷ t) = (if c == return then newline else c) ∷ replace_cr t

-- `normalize_line_endings`
unfoldable pub normalize_line_endings : Text → Text
normalize_line_endings t = replace_cr (replace_crlf t)

-- `split_normalized_lines` of a normalised text.
unfoldable pub split_lines : Text → List Text × Bool
split_lines [] = ([], false)
split_lines (c ∷ t) =
    if ends_with (newline ∷ []) (c ∷ t)
    then (init (split newline (c ∷ t)), true)
    else (split newline (c ∷ t), false)

-- `split_normalized_lines`
unfoldable pub split_normalized_lines : Text → List Text × Bool
split_normalized_lines t = split_lines (normalize_line_endings t)
