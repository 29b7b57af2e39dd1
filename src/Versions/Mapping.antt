-- ===== src/Versions/Mapping.antt =====
-- `to_mapping` and `from_mapping` of dataset_versions.py.
use data_quality_toolkit.Prelude.{
  ℕ, String, Bool, Option, none, some, ◌==◌, Result, ok, err, ◌>>=◌, ◌>>◌, if◌then◌else◌,
}
use data_quality_toolkit.Versions.{
  Value, Fields, null, int, str, mapping, end, field, VersionError, missing_field, unsupported,
  created_at_not_text, created_at_not_iso, record_not_mapping, parent_not_mapping,
  recipe_not_mapping, DatasetFormat, csv, CreationMechanism, root_import, preprocess_recipe,
  ParentRef, RecipeRef, VersionRecord,
}
use data_quality_toolkit.Versions.Record.{
  Candidate, check_schema, make_record, make_parent, make_recipe,
}

abbrev pub value_or_null : Option String → Value
value_or_null none = null
value_or_null (some s) = str s

abbrev pub mechanism_value : CreationMechanism → String
mechanism_value root_import = "root_import"
mechanism_value preprocess_recipe = "preprocess_recipe"

abbrev pub format_value : DatasetFormat → String
format_value csv = "csv"

abbrev pub parent_mapping : ParentRef → Value
parent_mapping p =
    mapping
      (field "version_id" (value_or_null p.version_id) (field "content_id" (str p.content_id) end))

abbrev pub recipe_mapping : RecipeRef → Value
recipe_mapping r =
    mapping (field "digest" (str r.digest) (field "relative_path" (str r.relative_path) end))

-- An unset optional field is omitted.
abbrev pub with_mtime : Option ℕ → Fields → Fields
with_mtime none rest = rest
with_mtime (some n) rest = field "mtime_ns" (int n) rest

abbrev pub with_parent : Option ParentRef → Fields → Fields
with_parent none rest = rest
with_parent (some p) rest = field "parent" (parent_mapping p) rest

abbrev pub with_recipe : Option RecipeRef → Fields → Fields
with_recipe none rest = rest
with_recipe (some r) rest = field "recipe" (recipe_mapping r) rest

-- `data[key]` where it is there.
unfoldable pub get : String → Fields → Option Value
get key end = none
get key (field k v rest) = if k == key then some v else get key rest

-- `_require`
abbrev pub require_field : Fields → String → Result VersionError Value
require_field m key = elim (get key m) [ none ↦ err (missing_field key) | some v ↦ ok v ]

-- `data.get(key)`
abbrev pub get_or_null : Fields → String → Value
get_or_null m key = elim (get key m) [ none ↦ null | some v ↦ v ]

abbrev pub parse_format : Value → Result VersionError DatasetFormat
parse_format (str s) = if s == "csv" then ok csv else err (unsupported "format")
parse_format _ = err (unsupported "format")

abbrev pub parse_mechanism : Value → Result VersionError CreationMechanism
parse_mechanism (str s) =
    if s == "root_import"
    then ok root_import
    else if s == "preprocess_recipe"
    then ok preprocess_recipe
    else err (unsupported "created_by")
parse_mechanism _ = err (unsupported "created_by")

abbrev pub parse_parent : Value → Result VersionError (Option ParentRef)
parse_parent null = ok none
parse_parent (mapping m) = do
  version_id ← require_field m "version_id"
  content_id ← require_field m "content_id"
  p ← make_parent version_id content_id
  ok (some p)
parse_parent _ = err parent_not_mapping

abbrev pub parse_recipe : Value → Result VersionError (Option RecipeRef)
parse_recipe null = ok none
parse_recipe (mapping m) = do
  digest ← require_field m "digest"
  relative_path ← require_field m "relative_path"
  r ← make_recipe digest relative_path
  ok (some r)
parse_recipe _ = err recipe_not_mapping

module _ {D : Type 0} (isoformat : D → String) where
  unfoldable pub to_mapping : VersionRecord D → Value
  to_mapping r = mapping (
      field "schema_version" r.schema_version (
        field "version_id" (str r.version_id) (
          field "family_id" (str r.family_id) (
            field "root_content_id" (str r.root_content_id) (
              field "content_id" (str r.content_id) (
                field "dataset_id" (str r.dataset_id) (
                  field "label" (str r.label) (
                    field "file_relative_path" (str r.file_relative_path) (
                      field "format" (str (format_value r.format)) (
                        field "size_bytes" (int r.size_bytes) (
                          field "created_at" (str (isoformat r.created_at)) (
                            field "created_by" (str (mechanism_value r.created_by)) (
                              with_mtime r.mtime_ns
                                (with_parent r.parent (with_recipe r.recipe end)))))))))))))))

abbrev pub parse_created_at : {D : Type 0} → (String → Option D) → Value → Result VersionError D
parse_created_at fromisoformat (str s) = elim (fromisoformat s) [
  | none ↦ err created_at_not_iso
  | some d ↦ ok d
]
parse_created_at fromisoformat _ = err created_at_not_text

module _ {D : Type 0} (fromisoformat : String → Option D) where
  -- The arguments of the constructor, in the order in which they are evaluated.
  abbrev pub read_candidate : Fields → Result VersionError (Candidate D)
  read_candidate m = do
    version_id ← require_field m "version_id"
    family_id ← require_field m "family_id"
    root_content_id ← require_field m "root_content_id"
    content_id ← require_field m "content_id"
    dataset_id ← require_field m "dataset_id"
    label ← require_field m "label"
    file_relative_path ← require_field m "file_relative_path"
    format_text ← require_field m "format"
    format ← parse_format format_text
    size_bytes ← require_field m "size_bytes"
    created_text ← require_field m "created_at"
    created_at ← parse_created_at fromisoformat created_text
    mechanism_text ← require_field m "created_by"
    created_by ← parse_mechanism mechanism_text
    parent ← parse_parent (get_or_null m "parent")
    recipe ← parse_recipe (get_or_null m "recipe")
    ok (record {
      schema_version = get_or_null m "schema_version";
      version_id = version_id;
      family_id = family_id;
      root_content_id = root_content_id;
      content_id = content_id;
      dataset_id = dataset_id;
      label = label;
      file_relative_path = file_relative_path;
      format = format;
      size_bytes = size_bytes;
      created_at = created_at;
      created_by = created_by;
      mtime_ns = get_or_null m "mtime_ns";
      parent = parent;
      recipe = recipe;
    })

  unfoldable pub from_mapping : (D → Bool) → Value → Result VersionError (VersionRecord D)
  from_mapping is_aware (mapping m) = do
    check_schema (get_or_null m "schema_version")
    c ← read_candidate m
    make_record is_aware c
  from_mapping is_aware _ = err record_not_mapping
