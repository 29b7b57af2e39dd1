-- ===== src/Loading/Gateway.antt =====
-- managed_export_gateway.py: the one place where a source of a managed export is made.
use data_quality_toolkit.Prelude.{
  Bool, true, false, not, ◌&&◌, Option, none, some, ℕ, Result, ok, err, ◌>>=◌, ◌>>◌,
}
use data_quality_toolkit.Session.{ManagedTrustRoot, Session}
use data_quality_toolkit.Session.Trust.{
  resolve_trust_authority, TrustAuthority, managed_authority, unmanaged, fail_closed,
}
use data_quality_toolkit.Loading.Source.{
  exceeds_full, VerifiedManagedExportSource, ProvenanceError, check_provenance,
}
use data_quality_toolkit.Loading.Dispatch.{peek_session_capability, is_managed}

-- The `reason_code` of a `ManagedExportRefusedError`.
pub data ExportReason : Type 0 where
  no_valid_trust managed_mirror_without_trust no_session_capability : ExportReason
  large_mode_refused full_size_exceeded provenance_invalid : ExportReason

abbrev pub fails_closed : TrustAuthority → Bool
fails_closed fail_closed = true
fails_closed managed_authority = false
fails_closed unmanaged = false

abbrev pub refuse_if : Bool → ExportReason → Result ExportReason (Unit {0})
refuse_if true reason = err reason
refuse_if false reason = ok tt

abbrev pub root_if : Bool → Option ManagedTrustRoot → Result ExportReason ManagedTrustRoot
root_if true (some root) = ok root
root_if true none = err no_valid_trust
root_if false root = err no_valid_trust

abbrev pub with_capability : Option ℕ → ManagedTrustRoot → Result ExportReason ManagedTrustRoot
with_capability none root = err no_session_capability
with_capability (some capability) root = ok root

-- `_require_export_authority`
unfoldable pub require_export_authority : Session → Result ExportReason ManagedTrustRoot
unfolding resolve_trust_authority peek_session_capability
require_export_authority s = do
  let decision = resolve_trust_authority s
  refuse_if (fails_closed decision.authority) managed_mirror_without_trust
  root ← root_if (is_managed decision.authority) decision.root
  with_capability (peek_session_capability s) root

abbrev pub root_exports : Result ExportReason ManagedTrustRoot → Bool
root_exports (err reason) = false
root_exports (ok root) = not root.large_file_mode && not (exceeds_full root.size_bytes)

unfoldable pub managed_export_available : Session → Bool
unfolding require_export_authority
managed_export_available s = root_exports (require_export_authority s)

abbrev pub provenance_of : ManagedTrustRoot → VerifiedManagedExportSource
provenance_of root = record {
  version_id = root.version_id;
  family_id = root.family_id;
  content_id = root.content_id;
  root_content_id = root.root_content_id;
  parent_version_id = root.parent_version_id;
  version_label = root.version_label;
  display_name = root.locator.display_name;
  relative_posix = root.locator.relative_posix;
  size_bytes = root.size_bytes;
  modified_ns = root.modified_ns;
  large_file_mode = root.large_file_mode;
  source_path = root.locator.absolute_path;
}

abbrev pub minted :
    Result ProvenanceError VerifiedManagedExportSource
    → Result ExportReason VerifiedManagedExportSource
minted (ok source) = ok source
minted (err raised) = err provenance_invalid

unfoldable pub build_verified_managed_export_source :
    Session → Result ExportReason VerifiedManagedExportSource
unfolding require_export_authority check_provenance
build_verified_managed_export_source s = do
  root ← require_export_authority s
  refuse_if root.large_file_mode large_mode_refused
  refuse_if (exceeds_full root.size_bytes) full_size_exceeded
  minted (check_provenance (provenance_of root))
