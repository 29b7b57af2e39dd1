-- ===== src/Export/Tests.antt =====
-- An export of the active managed dataset, and the theorems at it.
use data_quality_toolkit.Prelude.{
  ◌≡◌, refl, String, true, false, Option, none, some, [], strip, is_empty,
}
use data_quality_toolkit.Session.{pos, DatasetContext}
use data_quality_toolkit.Export.{matches_active_managed, ExportArtifactContext}
use data_quality_toolkit.Export.Redaction.{redact_path_to_basename}
use data_quality_toolkit.Export.Alignment.{
  ManifestMetadata, text_or_blank, with_linkage, managed_manifest_metadata, classify_export_source,
  compare_latest_export, normalize_source_binding,
}
use data_quality_toolkit.Export.Linkage.{
  compare_latest_export_sound, compare_latest_export_complete, managed_manifest_metadata_sound,
}

abbrev as_is : String → String
as_is path = path

abbrev active : DatasetContext
active = record {
  source_path = "/data/clean.csv";
  display_name = "clean.csv";
  size_bytes = pos 120;
  modified_ns = pos 7;
  large_file_mode = false;
  managed = true;
  version_id = some " v1 ";
  family_id = some "f1";
  content_id = some "c1";
  root_content_id = some "c0";
  parent_version_id = none;
  version_label = some "Cleaned";
}

abbrev exported : ExportArtifactContext
exported = record {
  export_paths = [];
  output_dir = "out";
  run_id = "r1";
  dataset_id = "d1";
  exported_at = "";
  quality_db_status = "";
  source_status = "";
  source_display_name = "";
  source_binding = "";
  source_version_id = "";
  source_family_id = "";
  source_content_id = "";
}

abbrev metadata : ManifestMetadata
metadata = record {
  source_version_id = "v1";
  source_family_id = "f1";
  source_content_id = "c1";
  source_origin = "managed_version";
}

basename : redact_path_to_basename (some "C:\\data\\raw files\\") ≡ "raw files"
unfolding redact_path_to_basename
basename = refl

bare_drive : redact_path_to_basename (some "C:\\") ≡ ""
unfolding redact_path_to_basename
bare_drive = refl

compare_latest_export_complete_example :
    compare_latest_export as_is
      (with_linkage
        (some (classify_export_source as_is (some " /data/clean.csv") (some active)))
        exported)
      (some active)
    ≡ matches_active_managed
unfolding normalize_source_binding strip
compare_latest_export_complete_example =
    compare_latest_export_complete as_is " /data/clean.csv" active exported refl refl refl refl refl

compare_latest_export_sound_example :
    (active.managed ≡ true)
    × ((c : DatasetContext) × (◌≡◌ {A = Option DatasetContext} (some active) (some c))
        × (c.managed ≡ true)
        × (text_or_blank c.version_id ≡ text_or_blank active.version_id)
        × (text_or_blank c.content_id ≡ text_or_blank active.content_id))
compare_latest_export_sound_example =
    compare_latest_export_sound as_is (some " /data/clean.csv") (some active) exported active
      compare_latest_export_complete_example

recorded :
    managed_manifest_metadata (classify_export_source as_is (some "/data/clean.csv") (some active))
    ≡ some metadata
unfolding managed_manifest_metadata classify_export_source strip
recorded = refl

managed_manifest_metadata_sound_example :
    (c : DatasetContext) × (◌≡◌ {A = Option DatasetContext} (some active) (some c))
    × (c.managed ≡ true)
    × (metadata.source_version_id ≡ text_or_blank c.version_id)
    × (metadata.source_family_id ≡ text_or_blank c.family_id)
    × (metadata.source_content_id ≡ text_or_blank c.content_id)
    × (is_empty metadata.source_version_id ≡ false)
    × (is_empty metadata.source_family_id ≡ false)
    × (is_empty metadata.source_content_id ≡ false)
managed_manifest_metadata_sound_example =
    managed_manifest_metadata_sound as_is (some "/data/clean.csv") (some active) metadata recorded
