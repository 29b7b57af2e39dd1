-- ===== src/Confirmation.antt =====
-- The confirmation of a processed dataset version: adapters/ui/services/dataset_confirmation.py with
-- adapters/ui/services/confirmation_capability.py, below src/data_quality_toolkit. The children have
-- the parent of the new version, and the staging and publication of its three files.
-- A disk is what each path holds. What can go wrong at a path, and what the operating system and
-- the standard library answer, stands in the record `Storage`.
pub mod Parent
pub mod Targets
pub mod Reserving
pub mod Descent
pub mod Disks
pub mod Publishing
pub mod Keeping
pub mod Outcomes
pub mod Publication
pub mod Registration
pub mod Tests
use data_quality_toolkit.Prelude.{ℕ, String, Bool, Option, List}
use data_quality_toolkit.Versions.{VersionRecord}

abbrev pub Bytes : Type 0
Bytes = List ℕ

abbrev pub Disk : Type 0
Disk = String → Option Bytes

-- `FileExistsError`, or another `OSError` with its `errno` and, on Windows, its `winerror`.
pub data OsError : Type 0 where
  file_exists : OsError
  os_error : (errno : ℕ) (winerror : Option ℕ) → OsError

-- How the staging of a file goes: it is written, nothing is created, or the writing stops and leaves
-- what was written.
pub data Staging : Type 0 where
  written not_created : Staging
  cut_short : Bytes → Staging

-- `mkstemp` for a final path, what happens at staging and at linking a final path, whether an unlink
-- or a stat of a path fails, the numbers of `errno`, `Path.name`, the path below a root, and the
-- hexadecimal digits of a UUID.
pub record Storage : Type 0 where
  pub temp_for : String → Disk → String
  pub staging : String → Staging
  pub link_fault : String → Option OsError
  pub unlink_fails : String → Bool
  pub stat_fails : String → Bool
  pub errno_of : String → Option ℕ
  pub name_of : String → String
  pub relative_to : String → String → Option String
  pub uuid_hex : String → Option String

pub data ConfirmationStatus : Type 0 where
  confirmed saved_unmanaged failed : ConfirmationStatus

pub record DatasetConfirmationResult (D : Type 0) : Type 0 where
  pub status : ConfirmationStatus
  pub version_record : Option (VersionRecord D)
  pub csv_relative_path : String
  pub recipe_relative_path : String
  pub sidecar_relative_path : String
  pub csv_path : String
  pub message : String
  pub capability_unsupported : Bool
  pub temp_artifact_labels : List String

-- `_ConfirmationPlan`
pub record ConfirmationPlan (D : Type 0) : Type 0 where
  pub version_record : VersionRecord D
  pub root_abs : String
  pub csv_final : String
  pub recipe_final : String
  pub sidecar_final : String
  pub csv_bytes : Bytes
  pub recipe_bytes : Bytes
  pub sidecar_bytes : Bytes
