-- ===== src/Strings.antt =====
-- Python's `str` as a list of code points, and the string methods that the program calls.
mod Basic
mod Pieces
mod Search
pub use Basic.{Text, codes}
unfoldable pub use Basic.{text_eq, has_char, starts_with}
pub use Basic.{text_eq_iff, text_eq_refl, has_char-append}
unfoldable pub use Pieces.{grow, split, join}
pub use Pieces.{grow, split-join, join-split, split-HasNo, split-ne-nil, split-piece}
unfoldable pub use Search.{contains, ends_with}
pub use Search.{contains-append, ends_with-append, starts_with-append, starts_with-inv}
