-- ===== src/Discovery.antt =====
-- What a discovery scan gives: the value types of adapters/ui/services/dataset_discovery.py, below
-- src/data_quality_toolkit. The scan is I/O and is not modelled.
use data_quality_toolkit.Prelude.{ℕ, String, Bool, Option, List}
use data_quality_toolkit.Versions.{VersionRecord}

pub data RootStatus : Type 0 where
  ok_root missing not_a_directory permission_denied unresolvable : RootStatus
  unsafe_discovery_directory limit_exceeded directory_changed : RootStatus

pub data RecordStatus : Type 0 where
  valid unavailable corrupt unsupported duplicate : RecordStatus

pub record VersionDisplay : Type 0 where
  pub label : String
  pub short_version_id : String
  pub status_label : String
  pub kind_label : String

pub record InternalLocator : Type 0 where
  pub sidecar_relative_posix : String
  pub sidecar_resolved_path : String
  pub csv_resolved_path : Option String
  pub recipe_resolved_path : Option String
  pub version_id : String
  pub family_id : String
  pub content_id : String
  pub st_dev : ℕ
  pub st_ino : ℕ

pub record DiscoveredVersion (D : Type 0) : Type 0 where
  pub version_record : VersionRecord D
  pub display : VersionDisplay
  pub csv_status : String
  pub recipe_status : String
  pub locator : InternalLocator

pub record DiscoveryIssue : Type 0 where
  pub status : RecordStatus
  pub reference : String
  pub label : String
  pub reason_code : String
  pub artifact_kind : String

pub record DuplicateGroup : Type 0 where
  pub kind : String
  pub short_version_id : String
  pub member_count : ℕ
  pub member_references : List String
  pub internal_members : List InternalLocator

pub record DiscoveryResult (D : Type 0) : Type 0 where
  pub root_status : RootStatus
  pub root_reason : String
  pub enumeration_complete : Bool
  pub result_complete : Bool
  pub reopen_safe : Bool
  pub entries_observed : ℕ
  pub candidates_retained : ℕ
  pub sidecars_parsed : ℕ
  pub records_returned : ℕ
  pub duplicate_group_count : ℕ
  pub duplicate_member_count : ℕ
  pub versions : List (DiscoveredVersion D)
  pub issues : List DiscoveryIssue
  pub duplicates : List DuplicateGroup
  pub omitted_count : Option ℕ
  pub reason_codes : List String
