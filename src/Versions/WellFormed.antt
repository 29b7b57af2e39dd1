-- ===== src/Versions/WellFormed.antt =====
-- What a record that `from_mapping` of dataset_versions.py returns looks like, apart from the tests of
-- the source.
use data_quality_toolkit.Prelude.{
  ◌≡◌, ◌≢◌, refl, sym, ◌∙◌, ap, subst, ◌⊎◌, inl, inr, String, Bool, true, false, Option, none, some,
  ok, strip, is_empty, arith, not,
}
use data_quality_toolkit.Versions.{
  Value, null, bool, int, negative, float, str, mapping, unhashable, CreationMechanism,
  preprocess_recipe, root_import, ParentRef, RecipeRef, VersionRecord,
}
use data_quality_toolkit.Versions.Record.{check_schema, check_creator_refs}
use data_quality_toolkit.Versions.Mapping.{from_mapping}
use data_quality_toolkit.Versions.RoundTrip.{ParentIsValid, RecipeIsValid}
use data_quality_toolkit.Versions.Accepted.{from_mapping-IsValid}
use data_quality_toolkit.Versions.Shapes.{
  IsDigest, IsUuidText, is_sha256-IsDigest, is_sha1-IsDigest, is_uuid-IsUuidText,
}
use data_quality_toolkit.Versions.Places.{IsBelow, is_valid_relative_path-IsBelow}

-- A record of schema 1, the number or what Python takes for equal to it.
pub record IsWellFormed {D : Type 0} (is_aware : D → Bool) (r : VersionRecord D) : Type 0 where
  pub version : IsUuidText r.version_id
  pub family : IsUuidText r.family_id
  pub root : IsDigest "sha256:" 64 r.root_content_id
  pub content : IsDigest "sha256:" 64 r.content_id
  pub dataset : IsDigest "sha1:" 40 r.dataset_id
  pub schema :
      (r.schema_version ≡ int 1)
      ⊎ ((r.schema_version ≡ bool true) ⊎ (r.schema_version ≡ float true))
  pub label : strip r.label ≢ ""
  pub aware : is_aware r.created_at ≡ true
  pub path : IsBelow r.file_relative_path
  pub made_by_recipe :
      r.created_by ≡ preprocess_recipe
      → ((p : ParentRef) × (r.parent ≡ some p)) × ((q : RecipeRef) × (r.recipe ≡ some q))
  pub parent :
      (p : ParentRef)
      → r.parent ≡ some p
      → IsDigest "sha256:" 64 p.content_id × ((v : String) → p.version_id ≡ some v → IsUuidText v)
  pub recipe :
      (q : RecipeRef) → r.recipe ≡ some q → IsDigest "sha256:" 64 q.digest × IsBelow q.relative_path

schema_one :
    (v : Value) → check_schema v ≡ ok tt → (v ≡ int 1) ⊎ ((v ≡ bool true) ⊎ (v ≡ float true))
schema_one (int n) h = inl (ap int (ground (arith, h)))
schema_one (bool true) h = inr (inl refl)
schema_one (bool false) h = cc
schema_one (float true) h = inr (inr refl)
schema_one (float false) h = cc
schema_one null h = cc
schema_one (negative n) h = cc
schema_one (str s) h = cc
schema_one (mapping m) h = cc
schema_one unhashable h = cc

not_blank : (s : String) → not (is_empty s) ≡ true → s ≢ ""
not_blank s h e = cc (sym h ∙ ap (λ x. not (is_empty x)) e)

references :
    (made : CreationMechanism) (parent : Option ParentRef) (recipe : Option RecipeRef)
    → check_creator_refs made parent recipe ≡ ok tt
    → made ≡ preprocess_recipe
    → ((p : ParentRef) × (parent ≡ some p)) × ((q : RecipeRef) × (recipe ≡ some q))
references root_import parent recipe h e = cc
references preprocess_recipe none recipe h e = cc
references preprocess_recipe (some p) none h e = cc
references preprocess_recipe (some p) (some q) h e = ((p, refl), (q, refl))

-- A record that `from_mapping` returns has UUIDs in groups of 8, 4, 4, 4 and 12 lower-case hexadecimal
-- digits, SHA-256 and SHA-1 identities of the prefix and 64 or 40 such digits, after which a newline
-- may stand, a label that is not blank, a time with a zone, and paths, the recipe's included, that are
-- relative, without backslash, drive and segment `..`; its schema version equals 1. One made by a
-- recipe has a parent and a recipe. The parent and the recipe that it has are as well formed.
pub from_mapping-IsWellFormed :
    {D : Type 0} (fromisoformat : String → Option D) (is_aware : D → Bool) (v : Value)
    (r : VersionRecord D)
    → from_mapping fromisoformat is_aware v ≡ ok r
    → IsWellFormed is_aware r
from_mapping-IsWellFormed fromisoformat is_aware v r h =
    let valid = from_mapping-IsValid fromisoformat is_aware v r h in
    record {
      version = is_uuid-IsUuidText r.version_id valid.version;
      family = is_uuid-IsUuidText r.family_id valid.family;
      root = is_sha256-IsDigest r.root_content_id valid.root;
      content = is_sha256-IsDigest r.content_id valid.content;
      dataset = is_sha1-IsDigest r.dataset_id valid.dataset;
      schema = schema_one r.schema_version valid.schema;
      label = not_blank (strip r.label) valid.label;
      aware = valid.aware;
      path = is_valid_relative_path-IsBelow r.file_relative_path valid.path;
      made_by_recipe = references r.created_by r.parent r.recipe valid.creator;
      parent = λ p e.
          let (versions, content) = subst ParentIsValid e valid.parent in
          (is_sha256-IsDigest p.content_id content, λ v g. is_uuid-IsUuidText v (versions v g));
      recipe = λ q e.
          let (digest, path) = subst RecipeIsValid e valid.recipe in
          (is_sha256-IsDigest q.digest digest, is_valid_relative_path-IsBelow q.relative_path path);
    }
