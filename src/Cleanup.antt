-- ===== src/Cleanup.antt =====
-- The explicit cleanup of abandoned staging files:
-- adapters/ui/services/lifecycle_maintenance.py, below src/data_quality_toolkit.
-- The file system, `os.path`, `hashlib` and the discovery of managed versions are the parameter
-- `System`, whose operations work on a state `F` of the file system. Of a diagnostics report there
-- is what a cleanup reads; the composition of the report for display is not modelled.
pub mod Names
pub mod Eligible
pub mod Requests
pub mod Deletable
pub mod Deletions
pub mod Safety
pub mod Tests
use data_quality_toolkit.Prelude.{ℕ, String, Bool, Option, List, Result}

-- What an `os` call raises.
pub data OsError : Type 0 where
  not_found permission_denied other_error : OsError

-- The parts of a `stat_result` that are read.
pub record Stat : Type 0 where
  pub is_regular : Bool
  pub is_reparse_point : Bool
  pub is_directory : Bool
  pub dev : ℕ
  pub ino : ℕ
  pub mtime_ns : ℕ

-- What cleanup reads of a `DiscoveryResult`: the paths of each version's locator, and those of the
-- sidecars of each group of duplicates.
pub record VersionPaths : Type 0 where
  pub sidecar_resolved_path : String
  pub csv_resolved_path : Option String
  pub recipe_resolved_path : Option String

pub record Discovered : Type 0 where
  pub versions : List VersionPaths
  pub duplicates : List (List String)

pub record System (F : Type 0) : Type 0 where
  -- `Path(raw).expanduser().resolve(strict=True)`
  pub resolve_user : F → String → Result OsError String
  -- `path.resolve(strict=True)`
  pub resolve : F → String → Result OsError String
  pub lstat : F → String → Result OsError Stat
  pub stat : F → String → Result OsError Stat
  pub unlink : F → String → Option OsError × F
  -- `/` and `.parent` of a path, `os.path.normcase` and `os.path.commonpath`
  pub join : String → String → String
  pub parent : String → String
  pub normcase : String → String
  pub commonpath : String → String → Option String
  -- The first twelve digits of the SHA-256 digest.
  pub digest : String → String
  pub discover_managed_versions : F → String → Discovered

-- `_Location`
pub record Location : Type 0 where
  pub root : String
  pub directory : String
  pub dev : ℕ
  pub ino : ℕ

pub record TempArtifactLocator : Type 0 where
  pub reference : String
  pub basename : String
  pub resolved_path : String
  pub parent_dev : ℕ
  pub parent_ino : ℕ
  pub mtime_ns : ℕ

pub record Report : Type 0 where
  pub scanned : Bool
  pub candidates : List TempArtifactLocator
  pub location : Option Location

pub data CleanupOutcome : Type 0 where
  deleted skipped unavailable failed : CleanupOutcome

pub record CleanupItemResult : Type 0 where
  pub reference : String
  pub label : String
  pub outcome : CleanupOutcome
  pub reason_code : String

pub data CleanupResult : Type 0 where
  completed : List CleanupItemResult → CleanupResult
  refused : (reason_code : String) → CleanupResult
