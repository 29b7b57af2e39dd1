-- ===== src/Session.antt =====
-- The session of the user interface and the managed dataset that is active in it:
-- adapters/ui/state/context.py, adapters/ui/state/keys.py, adapters/ui/services/managed_trust.py and
-- adapters/ui/services/dataset_activation.py, below src/data_quality_toolkit.
-- The session is a mapping from text keys to values, in which a `del` or an assignment may raise.
-- Which of them raises is a parameter of the children: `raises n` says it of the n-th one.
pub mod Slots
pub mod Contexts
pub mod Trust
pub mod Activation
pub mod Managed
pub mod Cleared
pub mod Restoring
pub mod Atomicity
pub mod Validity
pub mod Valid
pub mod Roots
pub mod Generations
pub mod Prepared
pub mod Transaction
pub mod Tests
use data_quality_toolkit.Prelude.{ℕ, zero, suc, String, Bool, true, false, Option, List, eqb}

-- Python's `int`.
pub data ℤ : Type 0 where
  pos negsuc : ℕ → ℤ

abbrev pub is_negative : ℤ → Bool
is_negative (pos n) = false
is_negative (negsuc n) = true

abbrev pub same_int : ℤ → ℤ → Bool
same_int (pos a) (pos b) = eqb a b
same_int (negsuc a) (negsuc b) = eqb a b
same_int _ _ = false

pub record DatasetContext : Type 0 where
  pub source_path : String
  pub display_name : String
  pub size_bytes : ℤ
  pub modified_ns : ℤ
  pub large_file_mode : Bool
  pub managed : Bool
  pub version_id : Option String
  pub family_id : Option String
  pub content_id : Option String
  pub root_content_id : Option String
  pub parent_version_id : Option String
  pub version_label : Option String

pub record ManagedSourceLocator : Type 0 where
  pub display_name : String
  pub relative_posix : String
  pub absolute_path : String

pub record ManagedTrustRoot : Type 0 where
  pub generation : ℕ
  pub version_id : String
  pub family_id : String
  pub content_id : String
  pub root_content_id : String
  pub parent_version_id : Option String
  pub version_label : String
  pub locator : ManagedSourceLocator
  pub size_bytes : ℤ
  pub modified_ns : ℤ
  pub large_file_mode : Bool

-- A `SessionCapability` is nothing but its identity: the number of those made before it.
pub record TrustState : Type 0 where
  pub capability : Option ℕ
  pub generation : ℕ
  pub root : Option ManagedTrustRoot
  pub root_capability : Option ℕ

-- What the session holds under a key: the two kinds of value that this code looks for, or any
-- other, told apart by a number.
pub data Entry : Type 0 where
  context : DatasetContext → Entry
  trust : TrustState → Entry
  other : ℕ → Entry

abbrev pub Entries : Type 0
Entries = String → Option Entry

-- The key of the managed frame cache of adapters/ui/services/managed_frame_loader.py.
pub record CanonicalFrameKey : Type 0 where
  pub session_anchor : ℕ
  pub version_id : String
  pub content_id : String
  pub mode : String
  pub parser_fingerprint : String

-- The session, with the number of mutations tried, that of capabilities made, and the keys of the
-- frame cache, which the process holds.
pub record Session : Type 0 where
  pub entries : Entries
  pub mutations : ℕ
  pub capabilities : ℕ
  pub frame_cache : List CanonicalFrameKey

-- The exceptions: `mutation_failed` comes from the mapping itself.
pub data SessionError : Type 0 where
  carries_lifecycle : (fields : List String) → SessionError
  missing_lifecycle : (fields : List String) → SessionError
  missing_label not_managed : SessionError
  malformed : (field : String) → SessionError
  bad_display_name bad_relative_path no_artifact_path : SessionError
  no_capability other_capability negative_size : SessionError
  blank_identity : (fields : List String) → SessionError
  mutation_failed state_mutation : SessionError

-- A run ends with a value or an exception, and in either case with a session.
pub data Outcome (A : Type 0) : Type 0 where
  done : A → Session → Outcome A
  raised : SessionError → Session → Outcome A

abbrev pub session_after : {A : Type 0} → Outcome A → Session
session_after (done a s) = s
session_after (raised e s) = s
