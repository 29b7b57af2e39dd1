-- ===== src/Versions/RoundTrip.antt =====
-- A record survives the way to its mapping and back; what `DatasetVersionRecord` takes has passed its
-- tests.
use data_quality_toolkit.Prelude.{
  ℕ, String, ◌≡◌, refl, Bool, true, Option, none, some, Result, ok, >>=-eq-ok, arith, subst,
}
use data_quality_toolkit.Versions.{
  Value, Fields, null, int, str, end, VersionError, DatasetFormat, csv, CreationMechanism,
  root_import, preprocess_recipe, ParentRef, RecipeRef, VersionRecord,
}
use data_quality_toolkit.Versions.Identity.{is_uuid, is_sha256, is_sha1, is_valid_relative_path}
use data_quality_toolkit.Versions.Record.{
  Candidate, check_schema, is_label, require_mtime, require_aware, check_creator_refs, Identity,
  Scalars, validate_identity, validate_scalars, validate_path, make_record, make_parent,
  make_recipe,
}
use data_quality_toolkit.Versions.Mapping.{
  value_or_null, mechanism_value, format_value, parse_format, parse_mechanism, with_mtime,
  with_parent, with_recipe, get, get_or_null, parent_mapping, recipe_mapping, parse_parent,
  parse_recipe, parse_created_at, to_mapping, from_mapping,
}

abbrev pub ParentIsValid : Option ParentRef → Type 0
ParentIsValid none = Unit
ParentIsValid (some p) =
    ((v : String) → p.version_id ≡ some v → is_uuid v ≡ true) × (is_sha256 p.content_id ≡ true)

abbrev pub RecipeIsValid : Option RecipeRef → Type 0
RecipeIsValid none = Unit
RecipeIsValid (some r) =
    (is_sha256 r.digest ≡ true) × (is_valid_relative_path r.relative_path ≡ true)

-- The invariants of a record, those of its references included.
pub record IsValid {D : Type 0} (is_aware : D → Bool) (r : VersionRecord D) : Type 0 where
  pub version : is_uuid r.version_id ≡ true
  pub family : is_uuid r.family_id ≡ true
  pub root : is_sha256 r.root_content_id ≡ true
  pub content : is_sha256 r.content_id ≡ true
  pub dataset : is_sha1 r.dataset_id ≡ true
  pub schema : check_schema r.schema_version ≡ ok tt
  pub label : is_label r.label ≡ true
  pub aware : is_aware r.created_at ≡ true
  pub path : is_valid_relative_path r.file_relative_path ≡ true
  pub creator : check_creator_refs r.created_by r.parent r.recipe ≡ ok tt
  pub parent : ParentIsValid r.parent
  pub recipe : RecipeIsValid r.recipe

abbrev as_value : {A : Type 0} → (A → Value) → Option A → Value
as_value f none = null
as_value f (some a) = f a

module _ (m : Option ℕ) (p : Option ParentRef) (r : Option RecipeRef) where
  abbrev tail : Fields
  tail = with_mtime m (with_parent p (with_recipe r end))

  get-mtime : get_or_null tail "mtime_ns" ≡ as_value int m
  unfolding get
  get-mtime = ground arith

  get-parent : get_or_null tail "parent" ≡ as_value parent_mapping p
  unfolding get
  get-parent = ground arith

  get-recipe : get_or_null tail "recipe" ≡ as_value recipe_mapping r
  unfolding get
  get-recipe = ground arith

make_parent-value :
    (v : Option String) (c : String)
    → ((s : String) → v ≡ some s → is_uuid s ≡ true)
    → is_sha256 c ≡ true
    → make_parent (value_or_null v) (str c) ≡ ok (record { version_id = v; content_id = c })
unfolding make_parent
make_parent-value none c h k = rw k
make_parent-value (some s) c h k = rw (h s refl, k)

parse-parent :
    (p : Option ParentRef) → ParentIsValid p → parse_parent (as_value parent_mapping p) ≡ ok p
unfolding get
parse-parent none h = refl
parse-parent (some p) h = rw (make_parent-value p.version_id p.content_id h.0 h.1)

parse-recipe :
    (r : Option RecipeRef) → RecipeIsValid r → parse_recipe (as_value recipe_mapping r) ≡ ok r
unfolding get make_recipe
parse-recipe none h = refl
parse-recipe (some r) h = rw (h.0, h.1)

require_mtime-value : (m : Option ℕ) → require_mtime (as_value int m) ≡ ok m
require_mtime-value none = refl
require_mtime-value (some n) = refl

parse_format-value : (f : DatasetFormat) → parse_format (str (format_value f)) ≡ ok f
parse_format-value csv = refl

parse_mechanism-value : (m : CreationMechanism) → parse_mechanism (str (mechanism_value m)) ≡ ok m
parse_mechanism-value root_import = refl
parse_mechanism-value preprocess_recipe = refl

module _ {D : Type 0} (isoformat : D → String) (fromisoformat : String → Option D)
    (is_aware : D → Bool) where
  -- A well-formed record, written as a mapping and read back, is the same record, where
  -- `fromisoformat` reads what `isoformat` wrote.
  pub from_mapping-to_mapping :
      (r : VersionRecord D)
      → IsValid is_aware r
      → fromisoformat (isoformat r.created_at) ≡ some r.created_at
      → from_mapping fromisoformat is_aware (to_mapping isoformat r) ≡ ok r
  unfolding from_mapping to_mapping get make_record validate_identity validate_scalars validate_path
  from_mapping-to_mapping r v iso = simp (
    get-mtime r.mtime_ns r.parent r.recipe,
    get-parent r.mtime_ns r.parent r.recipe,
    get-recipe r.mtime_ns r.parent r.recipe,
    v.version,
    v.family,
    v.root,
    v.content,
    v.dataset,
    v.schema,
    v.label,
    v.aware,
    v.path,
    v.creator,
    require_mtime-value r.mtime_ns,
    created,
    parse_format-value r.format,
    parse_mechanism-value r.created_by,
    parse-parent r.parent v.parent,
    parse-recipe r.recipe v.recipe,
  )
    where
      created : parse_created_at fromisoformat (str (isoformat r.created_at)) ≡ ok r.created_at
      created = rw (iso, parse_created_at)

module _ {D : Type 0} where
  identity-IsValid :
      (c : Candidate D) (i : Identity)
      → validate_identity c ≡ ok i
      → (is_uuid i.version_id ≡ true)
        × (is_uuid i.family_id ≡ true)
        × (is_sha256 i.root_content_id ≡ true)
        × (is_sha256 i.content_id ≡ true)
        × (is_sha1 i.dataset_id ≡ true)
  unfolding validate_identity
  identity-IsValid c i h = ground arith

  scalars-IsValid :
      (c : Candidate D) (s : Scalars)
      → validate_scalars c ≡ ok s
      → (check_schema c.schema_version ≡ ok tt) × (is_label s.label ≡ true)
  unfolding validate_scalars
  scalars-IsValid c s h = ground arith

  path-IsValid :
      (c : Candidate D) (p : String) → validate_path c ≡ ok p → is_valid_relative_path p ≡ true
  unfolding validate_path
  path-IsValid c p h = ground arith

pub make_record-IsValid :
    {D : Type 0} (is_aware : D → Bool) (c : Candidate D) (r : VersionRecord D)
    → ParentIsValid c.parent
    → RecipeIsValid c.recipe
    → make_record is_aware c ≡ ok r
    → IsValid is_aware r
unfolding make_record
make_record-IsValid is_aware c r p q h =
    let (i, identity, h1) = >>=-eq-ok (validate_identity c) _ h in
    let (s, scalars, h2) = >>=-eq-ok (validate_scalars c) _ h1 in
    let (_, aware, h3) = >>=-eq-ok (require_aware (is_aware c.created_at)) _ h2 in
    let (path, placed, h4) = >>=-eq-ok (validate_path c) _ h3 in
    let (_, creator, h5) = >>=-eq-ok (check_creator_refs c.created_by c.parent c.recipe) _ h4 in
    let ids = identity-IsValid c i identity in
    let sc = scalars-IsValid c s scalars in
    subst (IsValid is_aware) (ok_inj h5) (record {
      version = ids.0;
      family = ids.1;
      root = ids.2;
      content = ids.3;
      dataset = ids.4;
      schema = sc.0;
      label = sc.1;
      aware = ground arith;
      path = path-IsValid c path placed;
      creator = creator;
      parent = p;
      recipe = q;
    })
  where
    ok_inj :
        {D : Type 0} {a b : VersionRecord D}
        → ◌≡◌ {A = Result VersionError (VersionRecord D)} (ok a) (ok b)
        → a ≡ b
    ok_inj e = cc
