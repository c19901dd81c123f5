-- ===== src/Base/Floating.antt =====
-- Python's floats, which the model does not define: a type and the operations that the code uses.
use Prim.Native.Nat.{ℕ}
use Prim.Native.String.{String}
use mathlib.Core.Path.{◌≡◌}
use mathlib.Core.Bool.{Bool, true, false, ◌&&◌}
use mathlib.Core.Option.{Option}
use intelliops.Base.Int.{ℤ}
use intelliops.Base.Tests.{if◌then◌else◌}

pub record Floats : Type 1 where
  pub F : Type 0
  -- the float that a literal n / 10^d names, such as `lit 14826 4` for 1.4826
  pub lit : ℤ → ℕ → F
  pub add : F → F → F
  pub sub : F → F → F
  pub mul : F → F → F
  pub div : F → F → F
  pub absolute : F → F
  -- `float(s)` of a text; `none` is a ValueError
  pub parse : String → Option F
  -- `a < b` and `a <= b`, both false on a nan
  pub lt : F → F → Bool
  pub le : F → F → Bool

-- `a == b`, false on a nan
abbrev pub feq : (fl : Floats) → fl.F → fl.F → Bool
feq fl a b = fl.le a b && fl.le b a

-- `min(a, b)` and `max(a, b)`: the second only where it is strictly below, or above, the first.
abbrev pub fmin : (fl : Floats) → fl.F → fl.F → fl.F
fmin fl a b = if fl.lt b a then b else a

abbrev pub fmax : (fl : Floats) → fl.F → fl.F → fl.F
fmax fl a b = if fl.lt a b then b else a

-- What IEEE 754 says of `<`, on a nan too: of two floats at most one is below the other.
abbrev pub Asymmetric : Floats → Type 0
Asymmetric fl = (a b : fl.F) → fl.lt a b ≡ true → fl.lt b a ≡ false
