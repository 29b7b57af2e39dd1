-- ===== src/Export/Alignment.antt =====
-- The verdict on the source of an export, what it leaves in the manifest and in the session, and
-- the later comparison with the active dataset.
use data_quality_toolkit.Prelude.{
  String, Bool, true, false, not, ◌&&◌, Option, none, some, [], ◌∷◌, Dict, lookup, ◌==◌, strip,
  is_empty, if◌then◌else◌,
}
use data_quality_toolkit.Session.{DatasetContext}
use data_quality_toolkit.Export.{
  ExportSourceStatus, active_managed, active_legacy, explicit_override, no_active_dataset,
  LatestExportMatch, matches_active_managed, matches_active_legacy, other_dataset, nothing_active,
  insufficient_linkage, ExportSourceAlignment, ExportArtifactContext, Part, text, other, Item,
  plain, paths,
}
use data_quality_toolkit.Export.Redaction.{redact_path_to_basename}

-- `_text`
abbrev pub text_or_blank : Option String → String
text_or_blank none = ""
text_or_blank (some s) = strip s

abbrev pub status_value : ExportSourceStatus → String
status_value active_managed = "active_managed"
status_value active_legacy = "active_legacy"
status_value explicit_override = "explicit_override"
status_value no_active_dataset = "no_active_dataset"

abbrev pub may_attach_lifecycle_identity : ExportSourceAlignment → Bool
may_attach_lifecycle_identity a = elim a.status [
  | active_managed ↦ true
  | active_legacy ↦ false
  | explicit_override ↦ false
  | no_active_dataset ↦ false
]

abbrev pub matches_active_source : ExportSourceAlignment → Bool
matches_active_source a = elim a.status [
  | active_managed ↦ true
  | active_legacy ↦ true
  | explicit_override ↦ false
  | no_active_dataset ↦ false
]

abbrev pub should_warn : ExportSourceAlignment → Bool
should_warn a = elim a.status [
  | active_managed ↦ false
  | active_legacy ↦ false
  | explicit_override ↦ a.source_present
  | no_active_dataset ↦ false
]

-- A verdict without lifecycle identities.
abbrev pub unlinked : ExportSourceStatus → String → String → ExportSourceAlignment
unlinked status display_name binding = record {
  status = status;
  display_name = display_name;
  binding = binding;
  source_present = not (is_empty binding);
  version_id = "";
  family_id = "";
  content_id = "";
}

abbrev pub linked : DatasetContext → String → String → ExportSourceAlignment
linked c display_name binding = record {
  status = active_managed;
  display_name = display_name;
  binding = binding;
  source_present = true;
  version_id = text_or_blank c.version_id;
  family_id = text_or_blank c.family_id;
  content_id = text_or_blank c.content_id;
}

abbrev pub of_active : DatasetContext → String → String → ExportSourceAlignment
of_active c display_name binding =
    if c.managed then linked c display_name binding else unlinked active_legacy display_name binding

abbrev pub export_source_warning : ExportSourceAlignment → Option String
export_source_warning a =
    if should_warn a
    then some (if is_empty a.display_name then "the selected file" else a.display_name)
    else none

pub record ManifestMetadata : Type 0 where
  pub source_version_id : String
  pub source_family_id : String
  pub source_content_id : String
  pub source_origin : String

unfoldable pub managed_manifest_metadata : ExportSourceAlignment → Option ManifestMetadata
managed_manifest_metadata a =
    if may_attach_lifecycle_identity a
    then if is_empty (strip a.version_id)
      then none
      else if is_empty (strip a.family_id)
      then none
      else if is_empty (strip a.content_id)
      then none
      else some (record {
        source_version_id = strip a.version_id;
        source_family_id = strip a.family_id;
        source_content_id = strip a.content_id;
        source_origin = "managed_version";
      })
    else none

abbrev pub when : Bool → String → String
when b s = if b then s else ""

-- `_source_linkage_fields` put into a context.
unfoldable pub with_linkage :
    Option ExportSourceAlignment → ExportArtifactContext → ExportArtifactContext
with_linkage none e = e
with_linkage (some a) e =
    let managed = may_attach_lifecycle_identity a in
    record e {
      source_status = status_value a.status;
      source_display_name = a.display_name;
      source_binding = a.binding;
      source_version_id = when managed a.version_id;
      source_family_id = when managed a.family_id;
      source_content_id = when managed a.content_id;
    }

-- `{str(key): value.strip() …}`, without the values that are no text or blank.
unfoldable pub kept_paths : Dict Part → Dict String
kept_paths [] = []
kept_paths ((key, other) ∷ d) = kept_paths d
kept_paths ((key, text value) ∷ d) =
    let rest = kept_paths d in if is_empty (strip value) then rest else (key, strip value) ∷ rest

abbrev pub item_text : Option Item → String
item_text (some (plain (text s))) = strip s
item_text (some (plain other)) = ""
item_text (some (paths d)) = ""
item_text none = ""

abbrev pub unlinked_context : Dict String → String → Dict Item → ExportArtifactContext
unlinked_context export_paths output_dir result = record {
  export_paths = export_paths;
  output_dir = strip output_dir;
  run_id = item_text (lookup "run_id" result);
  dataset_id = item_text (lookup "dataset_id" result);
  exported_at = item_text (lookup "ts" result);
  quality_db_status = item_text (lookup "quality_db_status" result);
  source_status = "";
  source_display_name = "";
  source_binding = "";
  source_version_id = "";
  source_family_id = "";
  source_content_id = "";
}

abbrev pub from_paths :
    Dict String → Dict Item → String → Option ExportSourceAlignment → Option ExportArtifactContext
from_paths [] result output_dir alignment = none
from_paths (p ∷ ps) result output_dir alignment =
    some (with_linkage alignment (unlinked_context (p ∷ ps) output_dir result))

abbrev pub from_item :
    Option Item → Dict Item → String → Option ExportSourceAlignment → Option ExportArtifactContext
from_item (some (paths d)) result output_dir alignment =
    from_paths (kept_paths d) result output_dir alignment
from_item (some (plain p)) result output_dir alignment = none
from_item none result output_dir alignment = none

unfoldable pub export_artifact_context_from_result :
    Option (Dict Item) → String → Option ExportSourceAlignment → Option ExportArtifactContext
unfolding kept_paths with_linkage lookup
export_artifact_context_from_result none output_dir alignment = none
export_artifact_context_from_result (some result) output_dir alignment =
    from_item (lookup "export_paths" result) result output_dir alignment

-- The two ids are there and are those of the active version.
abbrev pub same_version : ExportArtifactContext → DatasetContext → Bool
same_version e c =
    let version = strip e.source_version_id in
    let content = strip e.source_content_id in
    not (is_empty version)
    && not (is_empty content)
    && (version == text_or_blank c.version_id)
    && (content == text_or_blank c.content_id)

module _ (normalise : String → String) where
  unfoldable pub normalize_source_binding : Option String → String
  normalize_source_binding none = ""
  normalize_source_binding (some value) =
      if is_empty (strip value) then "" else normalise (strip value)

  unfoldable pub classify_export_source :
      Option String → Option DatasetContext → ExportSourceAlignment
  unfolding normalize_source_binding redact_path_to_basename
  classify_export_source source none =
      unlinked no_active_dataset (redact_path_to_basename source) (normalize_source_binding source)
  classify_export_source source (some c) =
      let binding = normalize_source_binding source in
      let name = redact_path_to_basename source in
      if not (is_empty binding) && (binding == normalize_source_binding (some c.source_path))
      then of_active c name binding
      else unlinked explicit_override name binding

  unfoldable pub compare_latest_export :
      ExportArtifactContext → Option DatasetContext → LatestExportMatch
  unfolding normalize_source_binding
  compare_latest_export e none = nothing_active
  compare_latest_export e (some c) =
      if is_empty (strip e.source_status)
      then insufficient_linkage
      else if c.managed
      then if same_version e c then matches_active_managed else other_dataset
      else let binding = strip e.source_binding in
        if not (is_empty binding) && (binding == normalize_source_binding (some c.source_path))
        then matches_active_legacy
        else other_dataset
