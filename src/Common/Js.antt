-- ===== src/Common/Js.antt =====
-- What the sources use of JavaScript's numbers and regular expressions.
use nexus_panel.Common.Texts.{Text}
use Prim.Native.Nat.{ℕ}
use nexus_panel.Common.Integers.{ℤ}
use mathlib.Core.Bool.{Bool}
use mathlib.Core.Option.{Option}

-- Double-precision numbers: `Number(text)`, the number of an integer, `isNaN`, `Number.isInteger`,
-- `<`, `+`, `*`, `/` and the text of a number in a template literal. Regular expressions: the test of
-- `new RegExp(pattern)`, and `input.replace(new RegExp(pattern, 'g'), value)`; both are `none` where the
-- constructor throws.
pub record Js : Type 1 where
  pub Number : Type 0
  pub of_text : Text → Number
  pub of_ℕ : ℕ → Number
  pub of_ℤ : ℤ → Number
  pub is_nan : Number → Bool
  pub is_integer : Number → Bool
  pub less : Number → Number → Bool
  pub plus : Number → Number → Number
  pub times : Number → Number → Number
  pub over : Number → Number → Number
  pub show : Number → Text
  pub reg_exp : Text → Option (Text → Bool)
  pub replace_all : (pattern value input : Text) → Option Text
