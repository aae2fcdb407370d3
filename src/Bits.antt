-- ===== src/Bits.antt =====
-- `&`, `|` and complement of machine words, at variables: a word splits at any bit, and each half
-- goes by itself.
mod Digits
pub mod Fields
pub mod Test
pub use Digits.{bit_and_step, bit_or_step}
