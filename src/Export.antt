-- ===== src/Export.antt =====
-- How the source of an export relates to the active dataset:
-- adapters/ui/services/export_alignment.py and adapters/ui/state/export_context.py, with
-- `redact_path_to_basename` of shared/text_redaction.py, below src/data_quality_toolkit.
-- `os.path.normcase(os.path.normpath(text))` is the standard library's, the parameter `normalise`.
-- The check of `source.source_path` and the other fields of a verified source is left out.
pub mod Redaction
pub mod Alignment
pub mod Verdicts
pub mod Linkage
pub mod Tests
use data_quality_toolkit.Prelude.{String, Bool, Dict}

pub data ExportSourceStatus : Type 0 where
  active_managed active_legacy explicit_override no_active_dataset : ExportSourceStatus

pub data LatestExportMatch : Type 0 where
  matches_active_managed matches_active_legacy : LatestExportMatch
  other_dataset nothing_active insufficient_linkage : LatestExportMatch

pub record ExportSourceAlignment : Type 0 where
  pub status : ExportSourceStatus
  pub display_name : String
  pub binding : String
  pub source_present : Bool
  pub version_id : String
  pub family_id : String
  pub content_id : String

pub record ExportArtifactContext : Type 0 where
  pub export_paths : Dict String
  pub output_dir : String
  pub run_id : String
  pub dataset_id : String
  pub exported_at : String
  pub quality_db_status : String
  pub source_status : String
  pub source_display_name : String
  pub source_binding : String
  pub source_version_id : String
  pub source_family_id : String
  pub source_content_id : String

-- A value of an export's result: a text, the mapping of paths, in which `other` stands for a value
-- that is no text, or anything else.
pub data Part : Type 0 where
  text : String → Part
  other : Part

pub data Item : Type 0 where
  plain : Part → Item
  paths : Dict Part → Item
