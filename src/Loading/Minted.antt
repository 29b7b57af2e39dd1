-- ===== src/Loading/Minted.antt =====
-- The sources that `build_verified_managed_export_source` of managed_export_gateway.py makes, value by
-- value.
use data_quality_toolkit.Prelude.{◌≡◌, ◌↔◌, ap, some, ok}
use data_quality_toolkit.Session.{ManagedTrustRoot, Session}
use data_quality_toolkit.Session.Trust.{get_valid_trust_root}
use data_quality_toolkit.Loading.Source.{VerifiedManagedExportSource}
use data_quality_toolkit.Loading.Gateway.{provenance_of, build_verified_managed_export_source}
use data_quality_toolkit.Loading.Exportable.{
  IsExportable, full_size_fits, checked-IsExportable, IsExportable-IsProvenance,
}
use data_quality_toolkit.Loading.Minting.{build_verified_managed_export_source_lem}

-- The source has the values of the root, and those of its locator.
pub record HasValuesOf (root : ManagedTrustRoot) (source : VerifiedManagedExportSource)
    : Type 0 where
  pub version_id : source.version_id ≡ root.version_id
  pub family_id : source.family_id ≡ root.family_id
  pub content_id : source.content_id ≡ root.content_id
  pub root_content_id : source.root_content_id ≡ root.root_content_id
  pub parent_version_id : source.parent_version_id ≡ root.parent_version_id
  pub version_label : source.version_label ≡ root.version_label
  pub display_name : source.display_name ≡ root.locator.display_name
  pub relative_posix : source.relative_posix ≡ root.locator.relative_posix
  pub size_bytes : source.size_bytes ≡ root.size_bytes
  pub modified_ns : source.modified_ns ≡ root.modified_ns
  pub large_file_mode : source.large_file_mode ≡ root.large_file_mode
  pub source_path : source.source_path ≡ root.locator.absolute_path

HasValuesOf-provenance_of :
    (root : ManagedTrustRoot) (source : VerifiedManagedExportSource)
    → HasValuesOf root source
    → source ≡ provenance_of root
HasValuesOf-provenance_of root source h i = record {
  version_id = h.version_id i;
  family_id = h.family_id i;
  content_id = h.content_id i;
  root_content_id = h.root_content_id i;
  parent_version_id = h.parent_version_id i;
  version_label = h.version_label i;
  display_name = h.display_name i;
  relative_posix = h.relative_posix i;
  size_bytes = h.size_bytes i;
  modified_ns = h.modified_ns i;
  large_file_mode = h.large_file_mode i;
  source_path = h.source_path i;
}

provenance_of-HasValuesOf :
    (root : ManagedTrustRoot) (source : VerifiedManagedExportSource)
    → source ≡ provenance_of root
    → HasValuesOf root source
provenance_of-HasValuesOf root source e = record {
  version_id = ap (λ x. x.version_id) e;
  family_id = ap (λ x. x.family_id) e;
  content_id = ap (λ x. x.content_id) e;
  root_content_id = ap (λ x. x.root_content_id) e;
  parent_version_id = ap (λ x. x.parent_version_id) e;
  version_label = ap (λ x. x.version_label) e;
  display_name = ap (λ x. x.display_name) e;
  relative_posix = ap (λ x. x.relative_posix) e;
  size_bytes = ap (λ x. x.size_bytes) e;
  modified_ns = ap (λ x. x.modified_ns) e;
  large_file_mode = ap (λ x. x.large_file_mode) e;
  source_path = ap (λ x. x.source_path) e;
}

-- A source of an export is made exactly of the valid trust root of the session, where its file may be
-- exported: not in large-file mode, of at most 128 MiB, the ids of the version, the label, the name
-- and the paths not blank, the display name without slash, backslash and colon, the relative path
-- without backslash and colon and not from the root of the file system. Each value of the source, the
-- parent and the path included, is that of the root or of its locator.
pub build_verified_managed_export_source_iff :
    (s : Session) (source : VerifiedManagedExportSource)
    → (build_verified_managed_export_source s ≡ ok source) ↔ (
        (root : ManagedTrustRoot) × (get_valid_trust_root s ≡ some root)
        × IsExportable root
        × HasValuesOf root source)
build_verified_managed_export_source_iff s source = (made, making)
  where
    made :
        build_verified_managed_export_source s ≡ ok source
        → (root : ManagedTrustRoot) × (get_valid_trust_root s ≡ some root)
          × IsExportable root
          × HasValuesOf root source
    made h =
        let (root, valid, small, fits, checked, same) =
          (build_verified_managed_export_source_lem s source).0 h in
        (
          root,
          valid,
          checked-IsExportable root small fits checked,
          provenance_of-HasValuesOf root source same,
        )

    making :
        ((root : ManagedTrustRoot) × (get_valid_trust_root s ≡ some root)
          × IsExportable root
          × HasValuesOf root source)
        → build_verified_managed_export_source s ≡ ok source
    making (root, valid, exportable, values) =
        (build_verified_managed_export_source_lem s source).1 (
          root,
          valid,
          exportable.full_mode,
          ((full_size_fits root.size_bytes).1 exportable.size).1,
          IsExportable-IsProvenance root exportable,
          HasValuesOf-provenance_of root source values,
        )
