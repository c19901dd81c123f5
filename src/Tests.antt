-- ===== src/Tests.antt =====
-- Concrete inputs for the theorems: a number type in place of the floats, a cluster that answers
-- every call, one situation of a checkout service and the playbooks for it.
pub mod Action
pub mod Bus
pub mod Correlation
pub mod Detectors
pub mod Feedback
pub mod Data
pub mod Governance
pub mod Rca
pub mod Author
pub mod Sandbox
pub mod Read
pub mod Redis
pub mod Kubernetes
pub mod Service
use Prim.Native.Char.{code}
use Prim.Native.String
use intelliops.Base.{
  ℕ, ◌+◌, ◌-◌, ◌*◌, ◌/◌, ◌^◌, ltb, leb, pos_part, ◌&&◌, String, Option, none, some, [], Floats,
  if◌then◌else◌,
}

-- Thousandths, none below zero, read from decimal digits.
abbrev read_digits : ℕ → String → Option ℕ
read_digits n String.[] = some (n * 1000)
read_digits n (String.◌∷◌ c s) =
    let rest = read_digits (n * 10 + (code c - 48)) s in
    if leb 48 (code c) && leb (code c) 57 then rest else none

abbrev pub floats : Floats
floats = record {
  F = ℕ;
  lit = λ n d. pos_part n * 1000 / 10 ^ d;
  add = λ a b. a + b;
  sub = λ a b. a - b;
  mul = λ a b. a * b / 1000;
  div = λ a b. a * 1000 / b;
  absolute = λ a. a;
  parse = read_digits 0;
  lt = ltb;
  le = leb;
}
