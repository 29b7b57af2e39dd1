-- ===== src/Cleanup/Names.antt =====
-- The names of staging files: `is_owned_temp_name` of lifecycle_maintenance.py and `safe_temp_label`
-- of confirmation_capability.py. The patterns are read from the end of the name.
use data_quality_toolkit.Prelude.{
  ℕ, zero, suc, String, Bool, true, false, ◌&&◌, ◌||◌, Option, none, some, List, [], ◌∷◌, codes,
  is_digit, is_letter, length, leb, eqb, if◌then◌else◌,
}

abbrev pub reverse_onto : List ℕ → List ℕ → List ℕ
reverse_onto [] acc = acc
reverse_onto (c ∷ cs) acc = reverse_onto cs (c ∷ acc)

abbrev pub backwards : String → List ℕ
backwards s = reverse_onto (codes s) []

-- What follows a prefix, where the text has it.
unfoldable pub drop_prefix : List ℕ → List ℕ → Option (List ℕ)
drop_prefix [] cs = some cs
drop_prefix (p ∷ ps) [] = none
drop_prefix (p ∷ ps) (c ∷ cs) = let rest = drop_prefix ps cs in if eqb p c then rest else none

-- `[A-Za-z0-9._-]`
abbrev pub is_name_char : ℕ → Bool
is_name_char c = is_letter c || is_digit c || eqb c b'.' || eqb c b'_' || eqb c b'-'

-- `[a-z0-9_]`
abbrev pub is_token_char : ℕ → Bool
is_token_char c = (leb b'a' c && leb c b'z') || is_digit c || eqb c b'_'

unfoldable pub all_chars : (ℕ → Bool) → List ℕ → Bool
all_chars t [] = true
all_chars t (c ∷ cs) = t c && all_chars t cs

-- `n` characters that pass the test, and what follows.
unfoldable pub drop_chars : ℕ → (ℕ → Bool) → List ℕ → Option (List ℕ)
drop_chars zero t cs = some cs
drop_chars (suc n) t [] = none
drop_chars (suc n) t (c ∷ cs) = let rest = drop_chars n t cs in if t c then rest else none

abbrev pub then_drop : Option (List ℕ) → (List ℕ → Option (List ℕ)) → Option (List ℕ)
then_drop none f = none
then_drop (some cs) f = f cs

abbrev pub or_else : Option (List ℕ) → Option (List ℕ) → Option (List ℕ)
or_else (some cs) other = some cs
or_else none other = other

-- A dot and from one to `n` name characters.
abbrev pub is_dotted : ℕ → List ℕ → Bool
is_dotted n [] = false
is_dotted n (c ∷ cs) =
    eqb c b'.' && all_chars is_name_char cs && leb 1 (length cs) && leb (length cs) n

abbrev pub is_dotted_stem : Option (List ℕ) → Bool
is_dotted_stem none = false
is_dotted_stem (some cs) = is_dotted 110 (reverse_onto cs [])

-- `.token.tmp`, and before it `.csv` or `.csv.dqtv.json`.
unfoldable pub before_suffixes : List ℕ → Option (List ℕ)
unfolding drop_prefix drop_chars
before_suffixes cs =
    let body =
      then_drop (drop_prefix (backwards ".tmp") cs)
        (λ a. then_drop (drop_chars 8 is_token_char a) (drop_prefix (b'.' ∷ []))) in
    or_else (then_drop body (drop_prefix (backwards ".csv.dqtv.json")))
      (then_drop body (drop_prefix (backwards ".csv")))

unfoldable pub is_owned_temp_name : String → Bool
unfolding before_suffixes all_chars
is_owned_temp_name name =
    if leb (length (codes name)) 160
    then is_dotted_stem (before_suffixes (backwards name))
    else false

abbrev pub is_dotted_label : Option (List ℕ) → Bool
is_dotted_label none = false
is_dotted_label (some cs) = is_dotted 150 (reverse_onto cs [])

unfoldable pub safe_temp_label : String → String
unfolding drop_prefix all_chars
safe_temp_label name =
    if leb (length (codes name)) 160
    then if is_dotted_label (drop_prefix (backwards ".tmp") (backwards name)) then name else ""
    else ""
