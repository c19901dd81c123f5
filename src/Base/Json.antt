-- ===== src/Base/Json.antt =====
-- JSON values as json.loads gives them, and what Python's `get`, `[]` and `or` do to them. `F` is the
-- type of the numbers.
use intelliops.Base.Tests.{◌==◌, if◌then◌else◌}
use intelliops.Base.Int.{pos}
use intelliops.Base.Floating.{Floats, feq}
use Prim.Native.String.{String}
use mathlib.Core.Bool.{Bool, true, false, not}
use mathlib.Core.Option.{Option, none, some}

mutual
  pub data Json (F : Type 0) : Type 0 where
    null : Json F
    flag : Bool → Json F
    num : F → Json F
    text : String → Json F
    arr : Items F → Json F
    obj : Fields F → Json F

  pub data Items (F : Type 0) : Type 0 where
    nil : Items F
    cons : Json F → Items F → Items F

  pub data Fields (F : Type 0) : Type 0 where
    end : Fields F
    field : String → Json F → Fields F → Fields F

module _ {F : Type 0} where
  -- `d.get(k)`, where a key stands once
  unfoldable pub member : String → Fields F → Option (Json F)
  member k end = none
  member k (field j v d) = let rest = member k d in if j == k then some v else rest

  -- `x[k]` of any value; `none` is a KeyError or a TypeError.
  abbrev pub at_key : String → Json F → Option (Json F)
  at_key k (obj d) = member k d
  at_key k _ = none

  -- `x[0]` of any value; `none` is an IndexError, a KeyError or a TypeError.
  abbrev pub first_item : Json F → Option (Json F)
  first_item (arr (cons x xs)) = some x
  first_item _ = none

  abbrev pub member_or : String → Fields F → Json F → Json F
  member_or k d default = elim (member k d) [ none ↦ default | some v ↦ v ]

-- `bool(x)`
abbrev pub truthy : (fl : Floats) → Json fl.F → Bool
truthy fl null = false
truthy fl (flag b) = b
truthy fl (num x) = not (feq fl x (fl.lit (pos 0) 0))
truthy fl (text s) = not (s == "")
truthy fl (arr nil) = false
truthy fl (arr (cons x xs)) = true
truthy fl (obj end) = false
truthy fl (obj (field k v d)) = true
