-- ===== src/Base/Text.antt =====
-- Texts: `str(n)`, `str.strip()` and the order of texts.
use Prim.Native.Nat.{ℕ, zero, suc, ◌+◌, ◌/◌, ◌%◌, Ordering}
use Prim.Native.Char.{code}
use Prim.Native.String.{String, ◌∷◌, [], ◌++◌, slice, compare}
use mathlib.Core.Bool.{Bool, true, false, ◌&&◌, ◌||◌}
use mathlib.Core.Path.{◌≡◌, refl}
use text.Mathlib.Text.{◌==◌}
use estate_flow.Base.Tests.{ltb, leb, nat_eq, if◌then◌else◌}

digit : ℕ → String
digit d = slice "0123456789" d (d + 1)

-- A number below 10 ^ fuel in decimal.
decimal : ℕ → ℕ → String
decimal zero n = ""
decimal (suc fuel) n =
    let rest = decimal fuel (n / 10) in if ltb n 10 then digit n else rest ++ digit (n % 10)

-- `str(n)` of a number that is not negative: `n + 1` rounds are enough.
unfoldable pub str : ℕ → String
unfolding decimal digit
str n = decimal (n + 1) n

str_example : str 20450 ≡ "20450"
unfolding str
str_example = refl

-- `str.isspace()` of one character
abbrev is_space : ℕ → Bool
is_space c =
    (leb 9 c && leb c 13)
    || (leb 28 c && leb c 32)
    || nat_eq c 133
    || nat_eq c 160
    || nat_eq c 5760
    || (leb 8192 c && leb c 8202)
    || nat_eq c 8232
    || nat_eq c 8233
    || nat_eq c 8239
    || nat_eq c 8287
    || nat_eq c 12288

lstrip : String → String
lstrip [] = []
lstrip (c ∷ s) = let rest = lstrip s in if is_space (code c) then rest else c ∷ s

rstrip : String → String
rstrip [] = []
rstrip (c ∷ s) = let rest = rstrip s in if is_space (code c) && rest == "" then [] else c ∷ rest

-- `str.strip()`
unfoldable pub strip : String → String
unfolding lstrip rstrip
strip s = rstrip (lstrip s)

strip_example : strip "  a b " ≡ "a b"
unfolding strip
strip_example = refl

-- the order of texts, by code points
abbrev pub str_leb : String → String → Bool
str_leb s t = elim (compare s t) [ Ordering.gt ↦ false | _ ↦ true ]
