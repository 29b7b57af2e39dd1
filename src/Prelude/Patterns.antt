-- ===== src/Prelude/Patterns.antt =====
-- Fixed-length patterns over the characters of a text: a list of tests, one for each place.
use Prim.Native.Nat.{ℕ, zero, suc}
use mathlib.Core.Bool.{Bool, true, false, ◌&&◌, ◌||◌}
use mathlib.Core.List.{List, [], ◌∷◌}
use data_quality_toolkit.Prelude.Tests.{leb, eqb}

abbrev pub Pattern : Type 0
Pattern = List (ℕ → Bool)

abbrev pub is_digit : ℕ → Bool
is_digit c = leb b'0' c && leb c b'9'

-- `[0-9a-f]`
abbrev pub is_hex : ℕ → Bool
is_hex c = is_digit c || (leb b'a' c && leb c b'f')

-- `[A-Za-z]`
abbrev pub is_letter : ℕ → Bool
is_letter c = (leb b'A' c && leb c b'Z') || (leb b'a' c && leb c b'z')

abbrev pub repeated : ℕ → (ℕ → Bool) → Pattern
repeated zero t = []
repeated (suc n) t = t ∷ repeated n t

abbrev pub literal : List ℕ → Pattern
literal [] = []
literal (c ∷ cs) = eqb c ∷ literal cs

-- The whole text fits the pattern.
unfoldable pub matches : Pattern → List ℕ → Bool
matches [] [] = true
matches [] (c ∷ cs) = false
matches (t ∷ ts) [] = false
matches (t ∷ ts) (c ∷ cs) = t c && matches ts cs

-- Python's `$` also matches before a newline that ends the text.
unfoldable pub matches_dollar : Pattern → List ℕ → Bool
matches_dollar [] [] = true
matches_dollar [] (c ∷ []) = eqb c 10
matches_dollar [] (c ∷ d ∷ cs) = false
matches_dollar (t ∷ ts) [] = false
matches_dollar (t ∷ ts) (c ∷ cs) = t c && matches_dollar ts cs
