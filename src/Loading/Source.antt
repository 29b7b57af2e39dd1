-- ===== src/Loading/Source.antt =====
-- `verify_managed_source` and `VerifiedManagedExportSource` of shared/managed_export_source.py.
use data_quality_toolkit.Prelude.{
  ℕ, zero, suc, ◌-◌, String, Bool, true, false, not, ◌&&◌, ◌||◌, Option, none, some, concat, List,
  [], ◌∷◌, ◌++◌, map, length, ◌==◌, strip, is_empty, codes, ltb, Result, ok, err, ◌>>◌,
  if◌then◌else◌, drop, take, same_texts,
}
use data_quality_toolkit.Versions.Identity.{is_absolute}
use data_quality_toolkit.Session.{ℤ, pos, negsuc, is_negative, same_int}
use data_quality_toolkit.Session.Trust.{has}
use data_quality_toolkit.Loading.{
  LoadReason, source_missing, source_replaced, source_not_confined, content_mismatch, Stat, World,
}

abbrev pub managed_full_max_source_bytes : ℕ
managed_full_max_source_bytes = 134217728

abbrev pub managed_source_read_chunk_bytes : ℕ
managed_source_read_chunk_bytes = 1048576

-- `size > MANAGED_FULL_MAX_SOURCE_BYTES`
abbrev pub exceeds_full : ℤ → Bool
exceeds_full (pos n) = ltb managed_full_max_source_bytes n
exceeds_full (negsuc n) = false

abbrev pub last : {A : Type 0} → ℕ → List A → List A
last n xs = drop (length xs - n) xs

-- The chunks that `handle.read(size)` gives until it gives an empty one, fed to the digest one after
-- the other: `seen` is what the digest has had. A chunk takes at least one byte, so that as many
-- rounds as there are bytes, and one, are enough.
unfoldable pub read_chunks : ℕ → ℕ → List ℕ → List ℕ → List ℕ
read_chunks zero size bytes seen = seen
read_chunks (suc fuel) size [] seen = seen
read_chunks (suc fuel) size (b ∷ bytes) seen =
    read_chunks fuel size (drop size (b ∷ bytes)) (seen ++ take size (b ∷ bytes))

module _ (world : World) where
  -- `managed_content_id_from_file`, on the bytes of the file.
  unfoldable pub content_id_of : List ℕ → String
  unfolding read_chunks
  content_id_of bytes = concat (
      "sha256:"
      ∷ world.sha256_hex (read_chunks (suc (length bytes)) managed_source_read_chunk_bytes bytes [])
      ∷ [])

  -- Stage 7.
  abbrev pub check_bytes : Option (List ℕ) → String → Option LoadReason
  check_bytes none content_id = some source_missing
  check_bytes (some bytes) content_id =
      if content_id_of bytes == content_id then none else some content_mismatch

  abbrev pub check_content : String → Option String → Option LoadReason
  check_content resolved none = none
  check_content resolved (some content_id) = check_bytes (world.read_bytes resolved) content_id

  -- Stages 4 to 7, for what `resolved.stat()` gives.
  abbrev pub check_stat : String → ℤ → ℤ → Option String → Option Stat → Option LoadReason
  check_stat resolved size_bytes modified_ns content_id none = some source_missing
  check_stat resolved size_bytes modified_ns content_id (some st) =
      if not st.is_regular
      then some source_missing
      else if not (same_int st.st_size size_bytes)
      then some content_mismatch
      else if not (same_int st.st_mtime_ns modified_ns)
      then some content_mismatch
      else check_content resolved content_id

  -- The parts at the end of the resolved path, as many as the relative path has.
  abbrev pub is_confined : String → String → Bool
  is_confined resolved relative_posix =
      let rel_parts = world.posix_parts relative_posix in
      same_texts (map world.normcase (last (length rel_parts) (world.parts resolved)))
        (map world.normcase rel_parts)

  -- Stages 2 to 7, for the resolved path.
  abbrev pub check_resolved :
      String → String → ℤ → ℤ → Option String → Option String → Option LoadReason
  check_resolved source_path relative_posix size_bytes modified_ns content_id none =
      some source_missing
  check_resolved source_path relative_posix size_bytes modified_ns content_id (some resolved) =
      if not (world.normcase resolved == world.normcase source_path)
      then some source_replaced
      else if not (is_confined resolved relative_posix)
      then some source_not_confined
      else check_stat resolved size_bytes modified_ns content_id (world.stat resolved)

  unfoldable pub verify_managed_source : String → String → ℤ → ℤ → Option String → Option LoadReason
  unfolding content_id_of
  verify_managed_source source_path relative_posix size_bytes modified_ns content_id =
      check_resolved source_path relative_posix size_bytes modified_ns content_id
        (world.resolve source_path)

-- The values of a `VerifiedManagedExportSource`.
pub record VerifiedManagedExportSource : Type 0 where
  pub version_id : String
  pub family_id : String
  pub content_id : String
  pub root_content_id : String
  pub parent_version_id : Option String
  pub version_label : String
  pub display_name : String
  pub relative_posix : String
  pub size_bytes : ℤ
  pub modified_ns : ℤ
  pub large_file_mode : Bool
  pub source_path : String

-- The `ValueError`s of `__post_init__`, in their order.
pub data ProvenanceError : Type 0 where
  blank : (name : String) → ProvenanceError
  bad_display_name bad_relative_posix bad_size full_size : ProvenanceError

abbrev pub raise_if : Bool → ProvenanceError → Result ProvenanceError (Unit {0})
raise_if true e = err e
raise_if false e = ok tt

abbrev pub require_non_blank : String → String → Result ProvenanceError (Unit {0})
require_non_blank name s = raise_if (is_empty (strip s)) (blank name)

-- `__post_init__`
unfoldable pub check_provenance :
    VerifiedManagedExportSource → Result ProvenanceError VerifiedManagedExportSource
check_provenance s = do
  require_non_blank "version_id" s.version_id
  require_non_blank "family_id" s.family_id
  require_non_blank "content_id" s.content_id
  require_non_blank "root_content_id" s.root_content_id
  require_non_blank "version_label" s.version_label
  require_non_blank "display_name" s.display_name
  require_non_blank "relative_posix" s.relative_posix
  require_non_blank "source_path" s.source_path
  raise_if (has b'/' s.display_name || has 92 s.display_name || has b':' s.display_name)
      bad_display_name
  raise_if
      (has 92 s.relative_posix || has b':' s.relative_posix || is_absolute (codes s.relative_posix))
      bad_relative_posix
  raise_if (is_negative s.size_bytes) bad_size
  raise_if (not s.large_file_mode && exceeds_full s.size_bytes) full_size
  ok s

-- `none` is no exception.
unfoldable pub verify_managed_export_source :
    World → VerifiedManagedExportSource → Option LoadReason
unfolding verify_managed_source
verify_managed_export_source world s =
    verify_managed_source world s.source_path s.relative_posix s.size_bytes s.modified_ns
      (some s.content_id)
