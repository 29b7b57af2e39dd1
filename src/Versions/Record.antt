-- ===== src/Versions/Record.antt =====
-- The construction of a record: `DatasetVersionRecord.__post_init__` and the checks that it runs in
-- order, with those of `ParentRef` and `RecipeRef`. Python's constructor takes values of any type;
-- here it takes `Candidate`, and what passes the checks has the types that they establish.
use data_quality_toolkit.Prelude.{
  ℕ, String, Bool, true, false, not, Option, none, some, strip, is_empty, eqb, Result, ok, err,
  ◌>>=◌, ◌>>◌, if◌then◌else◌,
}
use data_quality_toolkit.Versions.{
  Value, null, bool, int, negative, float, str, mapping, unhashable, VersionError, not_uuid,
  not_sha256, not_sha1, not_relative_path, unsupported_schema, bad_label, size_not_int,
  size_negative, mtime_not_int, mtime_negative, not_aware, parent_required, recipe_required,
  type_error, DatasetFormat, CreationMechanism, root_import, preprocess_recipe, ParentRef,
  RecipeRef, VersionRecord,
}
use data_quality_toolkit.Versions.Identity.{is_uuid, is_sha256, is_sha1, is_valid_relative_path}

pub record Candidate (D : Type 0) : Type 0 where
  pub schema_version : Value
  pub version_id : Value
  pub family_id : Value
  pub root_content_id : Value
  pub content_id : Value
  pub dataset_id : Value
  pub label : Value
  pub file_relative_path : Value
  pub format : DatasetFormat
  pub size_bytes : Value
  pub created_at : D
  pub created_by : CreationMechanism
  pub mtime_ns : Value
  pub parent : Option ParentRef
  pub recipe : Option RecipeRef

-- `if not test(value): raise error`, for a test that no value but a text passes.
abbrev pub require_text : (String → Bool) → VersionError → Value → Result VersionError String
require_text test e (str s) = if test s then ok s else err e
require_text test e _ = err e

abbrev pub require_uuid : String → Value → Result VersionError String
require_uuid name = require_text is_uuid (not_uuid name)

abbrev pub require_sha256 : String → Value → Result VersionError String
require_sha256 name = require_text is_sha256 (not_sha256 name)

-- `value not in frozenset({1})`: `True` and 1.0 equal 1, and a list or a mapping has no hash.
abbrev pub check_schema : Value → Result VersionError (Unit {0})
check_schema (int n) = if eqb n 1 then ok tt else err unsupported_schema
check_schema (bool b) = if b then ok tt else err unsupported_schema
check_schema (float is_one) = if is_one then ok tt else err unsupported_schema
check_schema (mapping m) = err type_error
check_schema unhashable = err type_error
check_schema _ = err unsupported_schema

abbrev pub require_size : Value → Result VersionError ℕ
require_size (int n) = ok n
require_size (negative n) = err size_negative
require_size _ = err size_not_int

abbrev pub require_mtime : Value → Result VersionError (Option ℕ)
require_mtime null = ok none
require_mtime (int n) = ok (some n)
require_mtime (negative n) = err mtime_negative
require_mtime _ = err mtime_not_int

abbrev pub is_label : String → Bool
is_label s = not (is_empty (strip s))

abbrev pub require_aware : Bool → Result VersionError (Unit {0})
require_aware true = ok tt
require_aware false = err not_aware

-- `_validate_creator_refs`: the missing parent is reported first.
abbrev pub check_creator_refs :
    CreationMechanism → Option ParentRef → Option RecipeRef → Result VersionError (Unit {0})
check_creator_refs root_import parent recipe = ok tt
check_creator_refs preprocess_recipe none recipe = err parent_required
check_creator_refs preprocess_recipe (some p) none = err recipe_required
check_creator_refs preprocess_recipe (some p) (some r) = ok tt

pub record Identity : Type 0 where
  pub version_id : String
  pub family_id : String
  pub root_content_id : String
  pub content_id : String
  pub dataset_id : String

pub record Scalars : Type 0 where
  pub label : String
  pub size_bytes : ℕ
  pub mtime_ns : Option ℕ

module _ {D : Type 0} where
  unfoldable pub validate_identity : Candidate D → Result VersionError Identity
  validate_identity c = do
    version_id ← require_uuid "version_id" c.version_id
    family_id ← require_uuid "family_id" c.family_id
    root_content_id ← require_sha256 "root_content_id" c.root_content_id
    content_id ← require_sha256 "content_id" c.content_id
    dataset_id ← require_text is_sha1 (not_sha1 "dataset_id") c.dataset_id
    ok (record {
      version_id = version_id;
      family_id = family_id;
      root_content_id = root_content_id;
      content_id = content_id;
      dataset_id = dataset_id;
    })

  -- The test of the format has nothing to do: there is one.
  unfoldable pub validate_scalars : Candidate D → Result VersionError Scalars
  validate_scalars c = do
    check_schema c.schema_version
    label ← require_text is_label bad_label c.label
    size_bytes ← require_size c.size_bytes
    mtime_ns ← require_mtime c.mtime_ns
    ok (record { label = label; size_bytes = size_bytes; mtime_ns = mtime_ns })

  unfoldable pub validate_path : Candidate D → Result VersionError String
  validate_path c =
      require_text is_valid_relative_path (not_relative_path "file_relative_path")
        c.file_relative_path

  abbrev pub record_of : Candidate D → Identity → Scalars → String → VersionRecord D
  record_of c i s path = record {
    schema_version = c.schema_version;
    version_id = i.version_id;
    family_id = i.family_id;
    root_content_id = i.root_content_id;
    content_id = i.content_id;
    dataset_id = i.dataset_id;
    label = s.label;
    file_relative_path = path;
    format = c.format;
    size_bytes = s.size_bytes;
    created_at = c.created_at;
    created_by = c.created_by;
    mtime_ns = s.mtime_ns;
    parent = c.parent;
    recipe = c.recipe;
  }

-- The checks stay shut under these: a test opens them all.
unfoldable pub make_record :
    {D : Type 0} → (D → Bool) → Candidate D → Result VersionError (VersionRecord D)
make_record is_aware c = do
  identity ← validate_identity c
  scalars ← validate_scalars c
  require_aware (is_aware c.created_at)
  path ← validate_path c
  check_creator_refs c.created_by c.parent c.recipe
  ok (record_of c identity scalars path)

-- `ParentRef(version_id=…, content_id=…)`: the version id may be `None`.
unfoldable pub make_parent : Value → Value → Result VersionError ParentRef
make_parent null content_id = do
  content ← require_sha256 "parent content_id" content_id
  ok (record { version_id = none; content_id = content })
make_parent version_id content_id = do
  version ← require_uuid "parent version_id" version_id
  content ← require_sha256 "parent content_id" content_id
  ok (record { version_id = some version; content_id = content })

unfoldable pub make_recipe : Value → Value → Result VersionError RecipeRef
make_recipe digest relative_path = do
  d ← require_sha256 "recipe digest" digest
  p ← require_text is_valid_relative_path (not_relative_path "recipe relative_path") relative_path
  ok (record { digest = d; relative_path = p })
