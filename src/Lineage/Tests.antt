-- ===== src/Lineage/Tests.antt =====
-- A root and its child, and the theorems at them.
use data_quality_toolkit.Prelude.{
  ℕ, String, ◌≡◌, refl, true, false, Option, none, some, List, [], ◌∷◌, length, suc,
}
use data_quality_toolkit.Versions.{int, csv, root_import, VersionRecord, ParentRef}
use data_quality_toolkit.Discovery.{ok_root, DiscoveredVersion, DiscoveryResult}
use data_quality_toolkit.Lineage.{Resolution, resolved, not_verified, empty, LineageView, ready}
use data_quality_toolkit.Lineage.Relations.{
  index_into, by_version_id, reaches_cycle, resolve_parent,
}
use data_quality_toolkit.Lineage.View.{empty_lineage, project_lineage}
use data_quality_toolkit.Lineage.Chains.{reaches_cycle_iff}
use data_quality_toolkit.Lineage.Parents.{resolve_parent_iff}
use data_quality_toolkit.Lineage.Flags.{SelectsOnly, IsBounded, project_lineage-SelectsOnly}

-- A record of the family "f", with the day it was made.
abbrev made : String → String → Option ParentRef → VersionRecord ℕ
made id content parent = record {
  schema_version = int 1;
  version_id = id;
  family_id = "f";
  root_content_id = "c0";
  content_id = content;
  dataset_id = "d";
  label = id;
  file_relative_path = "preprocessed/x.csv";
  format = csv;
  size_bytes = 12;
  created_at = 7;
  created_by = root_import;
  mtime_ns = none;
  parent = parent;
  recipe = none;
}

abbrev discovered : VersionRecord ℕ → String → DiscoveredVersion ℕ
discovered r short = record {
  version_record = r;
  display = record {
    label = r.label;
    short_version_id = short;
    status_label = "valid";
    kind_label = "root";
  };
  csv_status = "valid";
  recipe_status = "valid";
  locator = record {
    sidecar_relative_posix = "x.json";
    sidecar_resolved_path = "/r/x.json";
    csv_resolved_path = none;
    recipe_resolved_path = none;
    version_id = r.version_id;
    family_id = r.family_id;
    content_id = r.content_id;
    st_dev = 1;
    st_ino = 2;
  };
}

abbrev root_version : DiscoveredVersion ℕ
root_version = discovered (made "v0" "c0" none) "s0"

abbrev child_version : DiscoveredVersion ℕ
child_version =
    discovered (made "v1" "c1" (some (record { version_id = some "v0"; content_id = "c0" }))) "s1"

-- Its parent is itself by way of another.
abbrev looped : DiscoveredVersion ℕ
looped =
    discovered (made "v2" "c2" (some (record { version_id = some "v3"; content_id = "c3" }))) "s2"

abbrev looped_back : DiscoveredVersion ℕ
looped_back =
    discovered (made "v3" "c3" (some (record { version_id = some "v2"; content_id = "c2" }))) "s3"

abbrev family : List (DiscoveredVersion ℕ)
family = root_version ∷ child_version ∷ []

abbrev scan : List (DiscoveredVersion ℕ) → DiscoveryResult ℕ
scan versions = record {
  root_status = ok_root;
  root_reason = "";
  enumeration_complete = true;
  result_complete = true;
  reopen_safe = true;
  entries_observed = 2;
  candidates_retained = 2;
  sidecars_parsed = 2;
  records_returned = 2;
  duplicate_group_count = 0;
  duplicate_member_count = 0;
  versions = versions;
  issues = [];
  duplicates = [];
  omitted_count = none;
  reason_codes = [];
}

abbrev hex : String → Option String
hex id = some id

abbrev day : ℕ → String
day n = "day"

looped-refused :
    ◌≡◌ {A = Resolution (DiscoveredVersion ℕ)}
      (resolve_parent looped (by_version_id (looped ∷ looped_back ∷ [])) 3)
      not_verified
unfolding resolve_parent index_into
looped-refused = refl

-- The view of the scan of a family, with the child as the selected version.
abbrev family_view : LineageView
unfolding project_lineage index_into
family_view = elim (project_lineage hex day (scan family) "s1" none 8) [
  | none ↦ empty_lineage empty
  | some view ↦ view
]

shown_relatives :
    (family_view.state ≡ ready)
    × (length family_view.children ≡ 0)
    × (family_view.text_alternative
        ≡ "Selected: v1 (s1), Selected. Root: v0 (s0). Direct parent: v0 (s0). Direct children: none.")
unfolding family_view index_into
shown_relatives = (refl, refl, refl)

reaches_cycle_iff_example :
    reaches_cycle child_version.version_record
      (by_version_id family)
      (suc (length (by_version_id family)))
    ≡ false
unfolding reaches_cycle index_into
reaches_cycle_iff_example =
    (reaches_cycle_iff family child_version.version_record refl).1
      (1, (root_version.version_record, refl, refl))

resolve_parent_iff_example :
    resolve_parent child_version (by_version_id family) (suc (length (by_version_id family)))
    ≡ resolved root_version
unfolding reaches_cycle index_into
resolve_parent_iff_example = (resolve_parent_iff family child_version root_version refl).1 (
  record { version_id = some "v0"; content_id = "c0" },
  "v0",
  refl,
  refl,
  refl,
  refl,
  refl,
  refl,
  (1, (root_version.version_record, refl, refl)),
)

project_lineage-SelectsOnly_example : SelectsOnly "s1" family_view × IsBounded 8 family_view
unfolding project_lineage index_into
project_lineage-SelectsOnly_example =
    project_lineage-SelectsOnly hex day (scan family) "s1" none 8 family_view refl
