-- ===== src/Text.antt =====
-- What the sources use of Go's `strings` package and of `fmt`, on strings as lists of bytes. The
-- children hold `TrimSpace`, the searches and prefixes, the case mappings, decimal numbers and quoted
-- strings.
mod Trim
mod Search
mod Case
mod Decimal
mod Quote
mod Integer
unfoldable pub use Trim.*
unfoldable pub use Search.*
unfoldable pub use Case.*
unfoldable pub use Decimal.*
unfoldable pub use Quote.*
unfoldable pub use Integer.*
