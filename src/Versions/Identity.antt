-- ===== src/Versions/Identity.antt =====
-- The predicates of dataset_versions.py on identities and paths.
use data_quality_toolkit.Prelude.{
  ℕ, String, Bool, true, false, not, ◌&&◌, ◌||◌, List, [], ◌∷◌, ◌++◌, ◌==◌, codes, strip, is_empty,
  any, eqb, Pattern, matches, is_hex, is_letter, repeated, literal, matches_dollar, if◌then◌else◌,
}

abbrev pub uuid_pattern : Pattern
uuid_pattern =
    repeated 8 is_hex
    ++ (eqb b'-' ∷ repeated 4 is_hex)
    ++ (eqb b'-' ∷ repeated 4 is_hex)
    ++ (eqb b'-' ∷ repeated 4 is_hex)
    ++ (eqb b'-' ∷ repeated 12 is_hex)

-- `str(uuid.UUID(value)) == value`: the canonical form, which is what `str` prints.
unfoldable pub is_uuid : String → Bool
unfolding matches
is_uuid value = matches uuid_pattern (codes value)

abbrev pub sha256_pattern : Pattern
sha256_pattern = literal (codes "sha256:") ++ repeated 64 is_hex

-- `re.compile(r"^sha256:[0-9a-f]{64}$").match`
unfoldable pub is_sha256 : String → Bool
unfolding matches_dollar
is_sha256 value = matches_dollar sha256_pattern (codes value)

-- `re.compile(r"^sha1:[0-9a-f]{40}$").match`
unfoldable pub is_sha1 : String → Bool
unfolding matches_dollar
is_sha1 value = matches_dollar (literal (codes "sha1:") ++ repeated 40 is_hex) (codes value)

-- Has the text a segment `..` between slashes? `so_far` holds whether the segment being read is
-- as yet empty, one dot, two dots, or none of these.
pub data Segment : Type 0 where
  blank one_dot two_dots plain : Segment

abbrev pub next_segment : Segment → ℕ → Segment
next_segment blank c = if eqb c b'.' then one_dot else plain
next_segment one_dot c = if eqb c b'.' then two_dots else plain
next_segment two_dots c = plain
next_segment plain c = plain

abbrev pub ends_dotted : Segment → Bool
ends_dotted two_dots = true
ends_dotted _ = false

unfoldable pub has_dotdot : Segment → List ℕ → Bool
has_dotdot so_far [] = ends_dotted so_far
has_dotdot so_far (c ∷ cs) =
    has_dotdot (if eqb c b'/' then blank else next_segment so_far c) cs
    || (eqb c b'/' && ends_dotted so_far)

-- `".." in PurePosixPath(path).parts`
abbrev pub dotdot_in_parts : List ℕ → Bool
dotdot_in_parts = has_dotdot blank

-- `re.compile(r"^[A-Za-z]:").match`
abbrev pub has_drive : List ℕ → Bool
has_drive (c ∷ d ∷ cs) = is_letter c && eqb d b':'
has_drive _ = false

abbrev pub is_absolute : List ℕ → Bool
is_absolute (c ∷ cs) = eqb c b'/'
is_absolute [] = false

-- A text; other values are refused where this is called. An absolute path begins with a slash,
-- which includes those that begin with two.
unfoldable pub is_valid_relative_path : String → Bool
unfolding strip has_dotdot
is_valid_relative_path path =
    if is_empty (strip path) || not (strip path == path)
    then false
    else if any (eqb 92) (codes path) || path == "." || is_absolute (codes path)
    then false
    else if has_drive (codes path)
    then false
    else not (dotdot_in_parts (codes path))
