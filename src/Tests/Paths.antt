-- ===== src/Tests/Paths.antt =====
-- The theorems on paths at concrete paths.
use mem_sandbox.Base.{All, ◌≡◌, refl, ◌↔◌, ◌⊎◌, none, some, List, [], arith}
use mem_sandbox.Errors.{ok}
use mem_sandbox.Strings.{
  Text, codes, text_eq, has_char, starts_with, split, join, contains, ends_with,
}
use mem_sandbox.Utf8.{encode}
use mem_sandbox.Paths.{
  any_reserved, canonical_absolute, construct, root, is_root, parts, name, is_ancestor_of,
  utf8_length, resolve_segments, start_parts, is_outside, check_segments, confine, resolve,
}
use mem_sandbox.Paths.Render.{IsSegment, render}
use mem_sandbox.Paths.Canonical.{construct_iff}
use mem_sandbox.Paths.Resolve.{Fits, resolve-render, IsConfined, resolve-IsConfined}
use mem_sandbox.Tests.{
  draft_segments, target_segments, draft_segments-IsSegment, target_segments-IsSegment, draft,
  target,
}
use mem_sandbox.Paths.Ancestors.{strict_prefix, is_ancestor_of-at}

resolve_ok : resolve (codes "./notes//draft/") (some root) 4096 255 ≡ ok draft
unfolding text_eq has_char starts_with split join contains ends_with encode resolve resolve_segments
    start_parts is_outside check_segments confine utf8_length construct canonical_absolute
    any_reserved is_root parts name
resolve_ok = refl

resolve-IsConfined_example : IsConfined 4096 draft
resolve-IsConfined_example =
    resolve-IsConfined (codes "./notes//draft/") (some root) 4096 255 draft resolve_ok

draft-Fits : Fits draft_segments 4096 255
unfolding check_segments utf8_length encode
draft-Fits = record {
  segments = refl;
  size = 22;
  measured = refl;
  within = omega arith;
  path_limit = omega arith;
  segment_limit = omega arith;
}

resolve-render_example : resolve (render draft_segments) none 4096 255 ≡ ok draft
resolve-render_example =
    resolve-render draft_segments none 4096 255 draft_segments-IsSegment draft-Fits

construct_iff_example :
    (construct (codes "/workspace/./notes") ≡ ok (record { value = codes "/workspace/./notes" }))
    ↔ ((codes "/workspace/./notes" ≡ [])
        ⊎ ((ss : List Text) × All IsSegment ss × (codes "/workspace/./notes" ≡ render ss)))
construct_iff_example = construct_iff (codes "/workspace/./notes")

is_ancestor_of-at_example :
    is_ancestor_of target draft ≡ strict_prefix target_segments draft_segments
is_ancestor_of-at_example =
    is_ancestor_of-at target_segments draft_segments target_segments-IsSegment
      draft_segments-IsSegment
