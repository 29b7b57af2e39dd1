-- ===== src/Versions/Accepted.antt =====
-- What `from_mapping` accepts has passed every test of the source.
use data_quality_toolkit.Prelude.{
  String, ◌≡◌, Bool, true, Option, some, Result, ok, ◌>>=◌, Yields, Yields-bind, Yields-skip,
  Yields-of, Yields-intro, arith, Bool-cases, inl, inr,
}
use data_quality_toolkit.Versions.{Value, Fields, null, str, mapping, VersionError, VersionRecord}
use data_quality_toolkit.Versions.Identity.{is_uuid, is_sha256, is_valid_relative_path}
use data_quality_toolkit.Versions.Record.{
  Candidate, make_record, make_parent, make_recipe, check_schema, require_text,
}
use data_quality_toolkit.Versions.Mapping.{
  require_field, get_or_null, parse_format, parse_mechanism, parse_parent, parse_recipe,
  parse_created_at, read_candidate, from_mapping,
}
use data_quality_toolkit.Versions.RoundTrip.{
  ParentIsValid, RecipeIsValid, IsValid, make_record-IsValid,
}

require_text-Yields :
    (test : String → Bool) (e : VersionError) (v : Value)
    → Yields (λ s. test s ≡ true) (require_text test e v)
require_text-Yields test e (str s) = elim (Bool-cases (test s)) [
  | inl t ↦ rw (t, require_text) t
  | inr f ↦ rw (f, require_text) tt
]
require_text-Yields test e _ = tt

make_parent-Yields : (v c : Value) → Yields (λ p. ParentIsValid (some p)) (make_parent v c)
unfolding make_parent
make_parent-Yields null c =
    Yields-bind (λ p. ParentIsValid (some p)) (λ s. is_sha256 s ≡ true) _ _
      (require_text-Yields is_sha256 _ c) (λ s t. ((λ v e. cc), t))
make_parent-Yields (str v) c =
    Yields-bind (λ p. ParentIsValid (some p)) (λ s. is_uuid s ≡ true) _ _
      (require_text-Yields is_uuid _ (str v))
      λ s u.
        Yields-bind (λ p. ParentIsValid (some p)) (λ s'. is_sha256 s' ≡ true) _ _
          (require_text-Yields is_sha256 _ c) (λ s' t. ((λ v' e. ground (arith, u)), t))
make_parent-Yields _ c = tt

make_recipe-Yields : (d p : Value) → Yields (λ r. RecipeIsValid (some r)) (make_recipe d p)
unfolding make_recipe
make_recipe-Yields d p =
    Yields-bind (λ r. RecipeIsValid (some r)) (λ s. is_sha256 s ≡ true) _ _
      (require_text-Yields is_sha256 _ d)
      λ s t.
        Yields-bind (λ r. RecipeIsValid (some r)) (λ s'. is_valid_relative_path s' ≡ true) _ _
          (require_text-Yields is_valid_relative_path _ p) (λ s' t'. (t, t'))

parse_parent-Yields : (v : Value) → Yields ParentIsValid (parse_parent v)
parse_parent-Yields null = tt
parse_parent-Yields (mapping m) = Yields-skip ParentIsValid (require_field m "version_id") _ λ v.
    Yields-skip ParentIsValid (require_field m "content_id") _ λ c.
      Yields-bind ParentIsValid (λ p. ParentIsValid (some p)) (make_parent v c) _
        (make_parent-Yields v c) (λ p h. h)
parse_parent-Yields _ = tt

parse_recipe-Yields : (v : Value) → Yields RecipeIsValid (parse_recipe v)
parse_recipe-Yields null = tt
parse_recipe-Yields (mapping m) = Yields-skip RecipeIsValid (require_field m "digest") _ λ d.
    Yields-skip RecipeIsValid (require_field m "relative_path") _ λ p.
      Yields-bind RecipeIsValid (λ r. RecipeIsValid (some r)) (make_recipe d p) _
        (make_recipe-Yields d p) (λ r h. h)
parse_recipe-Yields _ = tt

module _ {D : Type 0} (fromisoformat : String → Option D) where
  abbrev RefsAreValid : Candidate D → Type 0
  RefsAreValid c = ParentIsValid c.parent × RecipeIsValid c.recipe

  -- Only the last two fields matter here.
  read_candidate-Yields : (m : Fields) → Yields RefsAreValid (read_candidate fromisoformat m)
  read_candidate-Yields m = skip "version_id" _ λ a1. skip "family_id" _ λ a2.
      skip "root_content_id" _ λ a3. skip "content_id" _ λ a4. skip "dataset_id" _ λ a5.
        skip "label" _ λ a6. skip "file_relative_path" _ λ a7. skip "format" _ λ a8.
          Yields-skip RefsAreValid (parse_format a8) _ λ a9. skip "size_bytes" _ λ a10.
            skip "created_at" _ λ a11.
              Yields-skip RefsAreValid (parse_created_at fromisoformat a11) _ λ a12.
                skip "created_by" _ λ a13. Yields-skip RefsAreValid (parse_mechanism a13) _ λ a14.
                  Yields-bind RefsAreValid ParentIsValid _ _
                    (parse_parent-Yields (get_or_null m "parent"))
                    λ p hp.
                      Yields-bind RefsAreValid RecipeIsValid _ _
                        (parse_recipe-Yields (get_or_null m "recipe")) (λ r hr. (hp, hr))
    where
      skip :
          (key : String) (f : Value → Result VersionError (Candidate D))
          → ((a : Value) → Yields RefsAreValid (f a))
          → Yields RefsAreValid (require_field m key >>= f)
      skip key f h = Yields-skip RefsAreValid (require_field m key) f h

  from_mapping-Yields :
      (is_aware : D → Bool) (v : Value)
      → Yields (IsValid is_aware) (from_mapping fromisoformat is_aware v)
  unfolding from_mapping
  from_mapping-Yields is_aware (mapping m) =
      Yields-skip (IsValid is_aware) (check_schema (get_or_null m "schema_version")) _ λ _.
        Yields-bind (IsValid is_aware) RefsAreValid _ _ (read_candidate-Yields m) λ c refs.
          Yields-intro (IsValid is_aware) (make_record is_aware c)
            (λ r. make_record-IsValid is_aware c r refs.0 refs.1)
  from_mapping-Yields is_aware _ = tt

pub from_mapping-IsValid :
    {D : Type 0} (fromisoformat : String → Option D) (is_aware : D → Bool) (v : Value)
    (r : VersionRecord D)
    → from_mapping fromisoformat is_aware v ≡ ok r
    → IsValid is_aware r
from_mapping-IsValid fromisoformat is_aware v r =
    Yields-of (IsValid is_aware) _ r (from_mapping-Yields fromisoformat is_aware v)
