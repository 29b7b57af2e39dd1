-- ===== src/Export/Redaction.antt =====
-- `redact_path_to_basename` of shared/text_redaction.py: the last component of a path, for either
-- separator.
use Prim.Native.Char.{code}
use data_quality_toolkit.Prelude.{
  ℕ, String, Bool, false, ◌&&◌, ◌||◌, Option, none, some, strip, is_empty, eqb, if◌then◌else◌,
}

abbrev pub is_separator : ℕ → Bool
is_separator c = eqb c b'/' || eqb c 92

-- `.rstrip("/")`
unfoldable pub drop_separators : String → String
drop_separators String.[] = ""
drop_separators (String.◌∷◌ c s) =
    let rest = drop_separators s in
    if is_empty rest && is_separator (code c) then "" else String.◌∷◌ c rest

unfoldable pub has_separator : String → Bool
has_separator String.[] = false
has_separator (String.◌∷◌ c s) = is_separator (code c) || has_separator s

-- `.rsplit("/", 1)[-1]`
unfoldable pub after_last : String → String
unfolding has_separator
after_last String.[] = ""
after_last (String.◌∷◌ c s) =
    let rest = after_last s in
    if has_separator s then rest else if is_separator (code c) then s else String.◌∷◌ c s

unfoldable pub ends_in_colon : String → Bool
ends_in_colon String.[] = false
ends_in_colon (String.◌∷◌ c s) =
    let rest = ends_in_colon s in if is_empty s then eqb (code c) b':' else rest

-- `_leaf`, where `None` is the empty text
unfoldable pub leaf : String → String
unfolding drop_separators after_last ends_in_colon
leaf token =
    let name = after_last (drop_separators token) in if ends_in_colon name then "" else name

unfoldable pub redact_path_to_basename : Option String → String
unfolding strip leaf
redact_path_to_basename none = ""
redact_path_to_basename (some value) = leaf (strip value)
