-- ===== src/Base/Text.antt =====
-- Python's strings: prefixes and suffixes, `strip`, and the decimal print of an int.
use Prim.Native.Nat.{ℕ, zero, suc, ◌/◌, ◌%◌}
use Prim.Native.Char.{code}
use Prim.Native.String.{String, ◌++◌ as str_append}
use mathlib.Core.Path.{◌≡◌, refl}
use mathlib.Core.Bool.{Bool, true, false, ◌&&◌, ◌||◌}
use mathlib.Core.Option.{Option, none, some}
use mathlib.Core.List.{List, [], ◌∷◌}
use intelliops.Base.Int.{ℤ, pos, negsuc}
use intelliops.Base.Tests.{nat_eq, ltb, leb, ◌==◌, if◌then◌else◌}

-- `s + t`, and what an f-string joins
infixl 65 ◌<>◌
abbrev pub ◌<>◌ : String → String → String
s <> t = str_append s t

-- `s.startswith(p)` and `s.removeprefix(p)`: what follows the prefix, if it is there.
unfoldable pub after_prefix : String → String → Option String
after_prefix String.[] s = some s
after_prefix (String.◌∷◌ c p) String.[] = none
after_prefix (String.◌∷◌ c p) (String.◌∷◌ d s) =
    if nat_eq (code c) (code d) then after_prefix p s else none

abbrev pub starts_with : String → String → Bool
starts_with p s = elim (after_prefix p s) [ none ↦ false | some _ ↦ true ]

abbrev pub remove_prefix : String → String → String
remove_prefix p s = elim (after_prefix p s) [ none ↦ s | some rest ↦ rest ]

-- `p in s`
unfoldable pub contains : String → String → Bool
contains p String.[] = starts_with p ""
contains p (String.◌∷◌ c s) = starts_with p (String.◌∷◌ c s) || contains p s

-- `sep.join(parts)`
unfoldable pub joined : String → List String → String
joined sep [] = ""
joined sep (s ∷ []) = s
joined sep (s ∷ t ∷ more) = s <> sep <> joined sep (t ∷ more)

-- `s[:-len(t)]` where `s.endswith(t)`
unfoldable pub before_suffix : String → String → Option String
before_suffix t String.[] = if t == "" then some "" else none
before_suffix t (String.◌∷◌ c s) =
    let rest = before_suffix t s in
    if String.◌∷◌ c s == t
    then some ""
    else elim rest [ none ↦ none | some r ↦ some (String.◌∷◌ c r) ]

abbrev pub is_space : ℕ → Bool
is_space c =
    leb 9 c && leb c 13
    || leb 28 c && leb c 32
    || nat_eq c 133
    || nat_eq c 160
    || nat_eq c 5760
    || leb 8192 c && leb c 8202
    || nat_eq c 8232
    || nat_eq c 8233
    || nat_eq c 8239
    || nat_eq c 8287
    || nat_eq c 12288

left_strip : String → String
left_strip String.[] = ""
left_strip (String.◌∷◌ c s) =
    let rest = left_strip s in if is_space (code c) then rest else String.◌∷◌ c s

right_strip : String → String
right_strip String.[] = ""
right_strip (String.◌∷◌ c s) =
    let rest = right_strip s in if is_space (code c) && rest == "" then "" else String.◌∷◌ c rest

-- `s.strip()`
unfoldable pub strip : String → String
unfolding left_strip right_strip
strip s = right_strip (left_strip s)

digit : ℕ → String
digit d =
    if nat_eq d 0
    then "0"
    else if nat_eq d 1
    then "1"
    else if nat_eq d 2
    then "2"
    else if nat_eq d 3
    then "3"
    else if nat_eq d 4
    then "4"
    else if nat_eq d 5
    then "5"
    else if nat_eq d 6
    then "6"
    else if nat_eq d 7
    then "7"
    else if nat_eq d 8
    then "8"
    else "9"

-- The fuel is one more than the number, which has fewer digits than that.
show_digits : ℕ → ℕ → String
unfolding digit
show_digits zero n = ""
show_digits (suc f) n =
    let rest = show_digits f (n / 10) <> digit (n % 10) in if ltb n 10 then digit n else rest

-- `str(n)` of an int
unfoldable pub show_ℤ : ℤ → String
unfolding show_digits
show_ℤ (pos n) = show_digits (suc n) n
show_ℤ (negsuc n) = "-" <> show_digits (suc (suc n)) (suc n)

show_ℤ_negative : show_ℤ (negsuc 41) ≡ "-42"
unfolding show_ℤ
show_ℤ_negative = refl

strip_limits : before_suffix "Mi" (strip " 512Mi \n") ≡ some "512"
unfolding strip before_suffix
strip_limits = refl
