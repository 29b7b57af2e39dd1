-- ===== src/Loading.antt =====
-- The loading of a managed dataset and the source of a managed export:
-- adapters/ui/services/managed_frame_loader.py, adapters/ui/services/managed_export_gateway.py and
-- shared/managed_export_source.py, below src/data_quality_toolkit.
-- What the operating system and the standard library answer stands in the record `World`; pandas'
-- readers and the assessor are functions that the calls take.
pub mod Options
pub mod Source
pub mod Caches
pub mod Dispatch
pub mod Gateway
pub mod Authority
pub mod Minting
pub mod Exportable
pub mod Minted
pub mod Admission
pub mod Committed
pub mod Chunks
pub mod Stages
pub mod Bounded
pub mod Frames
pub mod Again
pub mod Assessments
pub mod Histories
pub mod Current
pub mod Tests
use data_quality_toolkit.Prelude.{ℕ, String, Bool, Option, List}
use data_quality_toolkit.Session.{ℤ, CanonicalFrameKey}

-- The `reason_code` of a `ManagedFrameLoadError` or a `ManagedSourceVerificationError`.
pub data LoadReason : Type 0 where
  no_valid_trust no_session_capability large_mode_refused large_header_refused : LoadReason
  full_size_exceeded source_missing source_replaced source_not_confined content_mismatch :
      LoadReason
  parse_failed assessment_invalid option_not_canonical : LoadReason

-- A load ends in a refusal, or with what the assessor raised.
pub data LoadError : Type 0 where
  refused : LoadReason → LoadError
  assessor_raised : LoadError

-- The value of a parser option: a text, or any other.
pub data OptionValue (V : Type 0) : Type 0 where
  text : String → OptionValue V
  value : V → OptionValue V

pub record AssessmentKey : Type 0 where
  pub frame_key : CanonicalFrameKey
  pub assessment_fingerprint : String

-- `os.stat_result`, as far as it is read.
pub record Stat : Type 0 where
  pub is_regular : Bool
  pub st_size : ℤ
  pub st_mtime_ns : ℤ

-- `Path.resolve(strict=True)`, the parts of a path and of a POSIX path, `os.path.normcase`,
-- `Path.stat` and the bytes of a file, with `none` for an `OSError` or a `RuntimeError`; and the
-- hexadecimal SHA-256 of bytes.
pub record World : Type 0 where
  pub resolve : String → Option String
  pub parts : String → List String
  pub posix_parts : String → List String
  pub normcase : String → String
  pub stat : String → Option Stat
  pub read_bytes : String → Option (List ℕ)
  pub sha256_hex : List ℕ → String
