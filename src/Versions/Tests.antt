-- ===== src/Versions/Tests.antt =====
-- A record, its mapping, and the theorems at them.
use data_quality_toolkit.Prelude.{
  String, ◌≡◌, refl, Bool, true, false, Option, none, some, ok, err, if◌then◌else◌, ◌==◌,
}
use data_quality_toolkit.Versions.{
  int, float, mapping, end, field, type_error, csv, preprocess_recipe, parent_required,
  VersionRecord,
}
use data_quality_toolkit.Versions.Identity.{is_uuid, is_sha256, is_sha1, is_valid_relative_path}
use data_quality_toolkit.Versions.Record.{
  make_record, validate_identity, validate_scalars, validate_path, make_parent, make_recipe,
}
use data_quality_toolkit.Versions.Mapping.{to_mapping, get, from_mapping}
use data_quality_toolkit.Versions.RoundTrip.{IsValid, from_mapping-to_mapping}
use data_quality_toolkit.Versions.WellFormed.{IsWellFormed, from_mapping-IsWellFormed}
use data_quality_toolkit.Versions.Newline.{is_sha256_newline}

-- A calendar of two instants.
abbrev iso : Bool → String
iso true = "2024-01-02T03:04:05+00:00"
iso false = "2024-01-02T03:04:05"

abbrev from_iso : String → Option Bool
from_iso s = if s == iso true then some true else if s == iso false then some false else none

abbrev aware : Bool → Bool
aware d = d

abbrev uuid_a : String
uuid_a = "0a1b2c3d-0000-4000-8000-0123456789ab"

abbrev sha_a : String
sha_a = "sha256:0123456789abcdef0123456789abcdef0123456789abcdef0123456789abcdef"

abbrev sha_newline : String
sha_newline = "sha256:0123456789abcdef0123456789abcdef0123456789abcdef0123456789abcdef\n"

abbrev derived : VersionRecord Bool
derived = record {
  schema_version = int 1;
  version_id = uuid_a;
  family_id = uuid_a;
  root_content_id = sha_a;
  content_id = sha_a;
  dataset_id = "sha1:0123456789012345678901234567890123456789";
  label = "cleaned";
  file_relative_path = "preprocessed/cleaned.csv";
  format = csv;
  size_bytes = 12;
  created_at = true;
  created_by = preprocess_recipe;
  mtime_ns = none;
  parent = some (record { version_id = none; content_id = sha_a });
  recipe = some (record { digest = sha_a; relative_path = "recipes/r.json" });
}

program : Unit {0}
unfolding from_mapping to_mapping get make_record validate_identity validate_scalars validate_path
    make_parent make_recipe is_uuid is_sha256 is_sha1 is_valid_relative_path
program = tt

derived-IsValid : IsValid aware derived
unfolding program
derived-IsValid = record {
  version = refl;
  family = refl;
  root = refl;
  content = refl;
  dataset = refl;
  schema = refl;
  label = refl;
  aware = refl;
  path = refl;
  creator = refl;
  parent = ((λ v e. cc), refl);
  recipe = (refl, refl);
}

derived_back : from_mapping from_iso aware (to_mapping iso derived) ≡ ok derived
unfolding program
derived_back = refl

no_parent :
    from_mapping from_iso aware (to_mapping iso (record derived { parent = none }))
    ≡ err parent_required
unfolding program
no_parent = refl

climbing_path : is_valid_relative_path "preprocessed/../../x.csv" ≡ false
unfolding program
climbing_path = refl

from_mapping-to_mapping_example : from_mapping from_iso aware (to_mapping iso derived) ≡ ok derived
from_mapping-to_mapping_example =
    from_mapping-to_mapping iso from_iso aware derived derived-IsValid refl

from_mapping-IsWellFormed_example : IsWellFormed aware derived
from_mapping-IsWellFormed_example =
    from_mapping-IsWellFormed from_iso aware (to_mapping iso derived) derived derived_back

float_schema :
    from_mapping from_iso aware (to_mapping iso (record derived { schema_version = float true }))
    ≡ ok (record derived { schema_version = float true })
unfolding program
float_schema = refl

-- The refusal of a schema version that is a mapping is Python's own.
unhashable_schema :
    from_mapping from_iso aware (mapping (field "schema_version" (mapping end) end))
    ≡ err type_error
unfolding program
unhashable_schema = refl

is_sha256_newline_example : (is_sha256 sha_a ≡ true) × (is_sha256 sha_newline ≡ true)
unfolding is_uuid
is_sha256_newline_example = is_sha256_newline sha_a sha_newline refl refl
