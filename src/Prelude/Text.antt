-- ===== src/Prelude/Text.antt =====
-- What the source uses of Python's `str`: `strip`, emptiness, and the characters of a text.
use Prim.Native.Nat.{ℕ, zero, suc, ◌/◌, ◌%◌}
use Prim.Native.Char.{code}
use Prim.Native.String.{String, ◌++◌, slice}
use mathlib.Core.Bool.{Bool, true, false, ◌&&◌, ◌||◌}
use mathlib.Core.List.{List, [], ◌∷◌}
use data_quality_toolkit.Prelude.Tests.{leb, eqb, if◌then◌else◌}

-- The code points of a text.
abbrev pub codes : String → List ℕ
codes String.[] = []
codes (String.◌∷◌ c s) = code c ∷ codes s

abbrev pub is_empty : String → Bool
is_empty String.[] = true
is_empty (String.◌∷◌ c s) = false

-- `str.isspace` of one character, as Unicode defines it for Python.
unfoldable pub is_space : ℕ → Bool
is_space c =
    (leb 9 c && leb c 13)
    || (leb 28 c && leb c 32)
    || eqb c 133
    || eqb c 160
    || eqb c 5760
    || (leb 8192 c && leb c 8202)
    || eqb c 8232
    || eqb c 8233
    || eqb c 8239
    || eqb c 8287
    || eqb c 12288

unfoldable pub lstrip : String → String
lstrip String.[] = ""
lstrip (String.◌∷◌ c s) = let rest = lstrip s in if is_space (code c) then rest else String.◌∷◌ c s

unfoldable pub rstrip : String → String
rstrip String.[] = ""
rstrip (String.◌∷◌ c s) =
    let rest = rstrip s in if is_empty rest && is_space (code c) then "" else String.◌∷◌ c rest

unfoldable pub strip : String → String
unfolding is_space lstrip rstrip
strip s = rstrip (lstrip s)

-- The pieces of an f-string, and `"".join`.
unfoldable pub concat : List String → String
concat [] = ""
concat (s ∷ ss) = s ++ concat ss

unfoldable pub joined : String → List String → String
joined sep [] = ""
joined sep (s ∷ []) = s
joined sep (s ∷ t ∷ ss) = s ++ (sep ++ joined sep (t ∷ ss))

-- `s[:n]`
unfoldable pub first_chars : ℕ → String → String
first_chars zero s = ""
first_chars (suc n) String.[] = ""
first_chars (suc n) (String.◌∷◌ c s) = String.◌∷◌ c (first_chars n s)

abbrev pub digit : ℕ → String
digit d = slice "0123456789" d (suc d)

-- `str(n)` of a number that is not negative. A round of fuel gives a digit, and a number has no more
-- digits than one and itself.
unfoldable pub decimal_with : ℕ → ℕ → String
decimal_with zero n = ""
decimal_with (suc fuel) n =
    let front = decimal_with fuel (n / 10) in (if leb n 9 then "" else front) ++ digit (n % 10)

unfoldable pub decimal : ℕ → String
unfolding decimal_with
decimal n = decimal_with (suc n) n
