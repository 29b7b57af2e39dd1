-- ===== src/Versions.antt =====
-- The dataset-version contract: adapters/ui/services/dataset_versions.py, below
-- src/data_quality_toolkit. The children have the identity tests, the validation of a record, its
-- mapping form, and the proofs.
-- `datetime` belongs to the standard library and is a parameter: the type `D`, and where they are
-- used its `isoformat`, `fromisoformat` and test for a time zone. Digests of files and recipes and
-- fresh UUIDs are not modelled.
pub mod Identity
pub mod Record
pub mod Mapping
pub mod RoundTrip
pub mod Accepted
pub mod Shapes
pub mod Places
pub mod WellFormed
pub mod Newline
pub mod Tests
use data_quality_toolkit.Prelude.{ℕ, String, Bool, Option}

-- A value that JSON gives. Of a float no more is used than whether it equals 1, which `float` holds;
-- `unhashable` stands for a list.
mutual
  pub data Value : Type 0 where
    null : Value
    bool : Bool → Value
    int : ℕ → Value
    negative : ℕ → Value
    float : Bool → Value
    str : String → Value
    mapping : Fields → Value
    unhashable : Value

  pub data Fields : Type 0 where
    end : Fields
    field : String → Value → Fields → Fields

-- `DatasetVersionError`, by the check that raises it; the last two carry the codes
-- `PREPROCESS_PARENT_REQUIRED` and `PREPROCESS_RECIPE_REQUIRED`. `type_error` is Python's own.
pub data VersionError : Type 0 where
  not_uuid not_sha256 not_sha1 not_relative_path : (field_name : String) → VersionError
  missing_field unsupported : (field_name : String) → VersionError
  unsupported_schema bad_label size_not_int size_negative mtime_not_int mtime_negative :
      VersionError
  not_aware created_at_not_text created_at_not_iso : VersionError
  record_not_mapping parent_not_mapping recipe_not_mapping : VersionError
  type_error : VersionError
  parent_required recipe_required : VersionError

pub data DatasetFormat : Type 0 where
  csv : DatasetFormat

pub data CreationMechanism : Type 0 where
  root_import preprocess_recipe : CreationMechanism

-- The version id is missing for an unmanaged parent.
pub record ParentRef : Type 0 where
  pub version_id : Option String
  pub content_id : String

pub record RecipeRef : Type 0 where
  pub digest : String
  pub relative_path : String

pub record VersionRecord (D : Type 0) : Type 0 where
  pub schema_version : Value
  pub version_id : String
  pub family_id : String
  pub root_content_id : String
  pub content_id : String
  pub dataset_id : String
  pub label : String
  pub file_relative_path : String
  pub format : DatasetFormat
  pub size_bytes : ℕ
  pub created_at : D
  pub created_by : CreationMechanism
  pub mtime_ns : Option ℕ
  pub parent : Option ParentRef
  pub recipe : Option RecipeRef
