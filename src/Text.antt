-- ===== src/Text.antt =====
-- The functions of Go's `strings` and `bytes` packages that the program calls, on byte strings.
-- Case mapping and white space are those of ASCII, the character set of SMTP commands.
mod Ascii
mod Search
mod Split
mod Laws
unfoldable pub use Ascii.*
unfoldable pub use Search.*
unfoldable pub use Split.*
pub use Laws.*
