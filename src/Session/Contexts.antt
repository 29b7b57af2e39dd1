-- ===== src/Session/Contexts.antt =====
-- `binding_identity`, and the validation of a context in dataset_activation.py.
use data_quality_toolkit.Prelude.{
  String, Bool, true, false, not, ◌&&◌, Option, none, some, List, [], ◌∷◌, ◌==◌, strip, is_empty,
  Result, ok, err, ◌>>=◌, ◌>>◌, if◌then◌else◌,
}
use data_quality_toolkit.Versions.{VersionRecord, ParentRef}
use data_quality_toolkit.Versions.Identity.{is_uuid, is_sha256}
use data_quality_toolkit.Session.{
  ℤ, same_int, DatasetContext, SessionError, carries_lifecycle, missing_lifecycle, missing_label,
  malformed,
}

abbrev pub same_bool : Bool → Bool → Bool
same_bool true b = b
same_bool false b = not b

abbrev pub same_text : Option String → Option String → Bool
same_text none none = true
same_text (some a) (some b) = a == b
same_text _ _ = false

-- Equality of the two `binding_identity` tuples.
unfoldable pub same_binding : DatasetContext → DatasetContext → Bool
same_binding a b =
    same_bool a.managed b.managed
    && same_text a.version_id b.version_id
    && same_text a.content_id b.content_id
    && (a.source_path == b.source_path)
    && same_int a.size_bytes b.size_bytes
    && same_int a.modified_ns b.modified_ns
    && same_bool a.large_file_mode b.large_file_mode

abbrev pub is_blank : Option String → Bool
is_blank none = true
is_blank (some s) = is_empty (strip s)

abbrev pub is_some : Option String → Bool
is_some none = false
is_some (some s) = true

abbrev pub named : Bool → String → List String → List String
named true name rest = name ∷ rest
named false name rest = rest

abbrev pub raise_if : Bool → SessionError → Result SessionError (Unit {0})
raise_if true e = err e
raise_if false e = ok tt

abbrev pub refuse_named :
    (List String → SessionError) → List String → Result SessionError (Unit {0})
refuse_named e [] = ok tt
refuse_named e (name ∷ names) = err (e (name ∷ names))

abbrev pub carried : DatasetContext → List String
carried c = named (is_some c.version_id) "version_id" (
    named (is_some c.family_id) "family_id" (
      named (is_some c.content_id) "content_id" (
        named (is_some c.root_content_id) "root_content_id" (
          named (is_some c.parent_version_id) "parent_version_id"
            (named (is_some c.version_label) "version_label" [])))))

abbrev pub missing : DatasetContext → List String
missing c = named (is_blank c.version_id) "version_id" (
    named (is_blank c.family_id) "family_id" (
      named (is_blank c.content_id) "content_id"
        (named (is_blank c.root_content_id) "root_content_id" [])))

unfoldable pub validate_legacy : DatasetContext → Result SessionError (Unit {0})
validate_legacy c = refuse_named carries_lifecycle (carried c)

unfoldable pub validate_managed_present : DatasetContext → Result SessionError (Unit {0})
validate_managed_present c = do
  refuse_named missing_lifecycle (missing c)
  raise_if (is_blank c.version_label) missing_label

-- A test of a text, which `None` does not pass.
abbrev pub holds : (String → Bool) → Option String → Bool
holds test none = false
holds test (some s) = test s

abbrev pub parent_is_bad : Option String → Bool
parent_is_bad none = false
parent_is_bad (some s) = not (is_uuid s)

unfoldable pub validate_managed_formats : DatasetContext → Result SessionError (Unit {0})
validate_managed_formats c = do
  raise_if (not (holds is_uuid c.version_id)) (malformed "version_id")
  raise_if (not (holds is_uuid c.family_id)) (malformed "family_id")
  raise_if (not (holds is_sha256 c.content_id)) (malformed "content_id")
  raise_if (not (holds is_sha256 c.root_content_id)) (malformed "root_content_id")
  raise_if (parent_is_bad c.parent_version_id) (malformed "parent_version_id")

unfoldable pub validate_dataset_context : DatasetContext → Result SessionError (Unit {0})
unfolding validate_legacy validate_managed_present validate_managed_formats
validate_dataset_context c =
    if c.managed
    then validate_managed_present c >> validate_managed_formats c
    else validate_legacy c

abbrev pub parent_version : Option ParentRef → Option String
parent_version none = none
parent_version (some p) = p.version_id

-- The file's path, name, size, time and mode are the caller's.
abbrev pub context_of_record :
    {D : Type 0} → VersionRecord D → String → String → ℤ → ℤ → Bool → DatasetContext
context_of_record r source_path display_name size_bytes modified_ns large_file_mode = record {
  source_path = source_path;
  display_name = display_name;
  size_bytes = size_bytes;
  modified_ns = modified_ns;
  large_file_mode = large_file_mode;
  managed = true;
  version_id = some r.version_id;
  family_id = some r.family_id;
  content_id = some r.content_id;
  root_content_id = some r.root_content_id;
  parent_version_id = parent_version r.parent;
  version_label = some r.label;
}

abbrev pub validated : DatasetContext → Result SessionError DatasetContext
validated c = validate_dataset_context c >>= λ u. ok c

unfoldable pub make_managed_context :
    {D : Type 0}
    → VersionRecord D
    → String
    → String
    → ℤ
    → ℤ
    → Bool
    → Result SessionError DatasetContext
make_managed_context r path name size modified large =
    validated (context_of_record r path name size modified large)
