-- ===== src/Loading/Current.antt =====
-- The two reads that no cache serves: a header, and the bytes of a managed export.
use data_quality_toolkit.Prelude.{
  ◌≡◌, subst, String, false, Option, none, some, List, ok, >>=-eq-ok,
}
use data_quality_toolkit.Session.{ManagedTrustRoot, Session}
use data_quality_toolkit.Session.Trust.{get_valid_trust_root}
use data_quality_toolkit.Loading.{large_header_refused, full_size_exceeded, World, OptionValue}
use data_quality_toolkit.Loading.Options.{Options}
use data_quality_toolkit.Loading.Source.{
  exceeds_full, VerifiedManagedExportSource, verify_managed_export_source,
}
use data_quality_toolkit.Loading.Caches.{Loader}
use data_quality_toolkit.Loading.Dispatch.{
  ReadOutcome, frame, require_managed_authority, revalidate_source, get_managed_header,
}
use data_quality_toolkit.Loading.Gateway.{build_verified_managed_export_source}
use data_quality_toolkit.Loading.Authority.{require_managed_authority_iff}
use data_quality_toolkit.Loading.Stages.{IsTrusted, verify_managed_source_iff}
use data_quality_toolkit.Loading.Minting.{build_verified_managed_export_source_lem}
use data_quality_toolkit.Loading.Frames.{
  not_refused, not_refused_for, read_result-ok, revalidate_source-IsTrusted,
}

-- The file of the root is the trusted one, of the given content where one is given.
abbrev pub IsCurrent : World → ManagedTrustRoot → Option String → Type 0
IsCurrent world root content_id =
    IsTrusted world root.locator.absolute_path root.locator.relative_posix root.size_bytes
      root.modified_ns content_id

-- A header that `get_managed_header` returns was read in this call, from the file of the valid trust
-- root, which is no large file, is not above the bound on the size, and is the trusted one.
pub get_managed_header_sound :
    {V F A : Type 0} (world : World)
    (digest : String → List (String × OptionValue V) → Option String)
    (reader : String → Options V → ReadOutcome (List String)) (options : Options V) (s : Loader F A)
    (columns : List String)
    → get_managed_header digest world reader options s ≡ ok columns
    → (root : ManagedTrustRoot) × (get_valid_trust_root s.session ≡ some root)
      × (root.large_file_mode ≡ false)
      × (exceeds_full root.size_bytes ≡ false)
      × IsCurrent world root none
      × (reader root.locator.absolute_path options ≡ frame columns)
unfolding get_managed_header
get_managed_header_sound world digest reader options s columns h =
    let ((root, c), authority, h1) = >>=-eq-ok (require_managed_authority s.session) _ h in
    let (small, h2) = not_refused root.large_file_mode large_header_refused _ columns h1 in
    let (fits, h3) = not_refused (exceeds_full root.size_bytes) full_size_exceeded _ columns h2 in
    let (checked, h4) = not_refused_for (revalidate_source world root) _ columns h3 in
    (
      root,
      ((require_managed_authority_iff s.session root c).0 authority).0,
      small,
      fits,
      revalidate_source-IsTrusted world root checked,
      read_result-ok (reader root.locator.absolute_path options) columns h4,
    )

-- Where a source of an export was made in a session and its verification, at any later time, finds
-- nothing wrong, the file is the one that the valid trust root of that session names, and the SHA-256
-- of its bytes is the content id of the root.
pub verify_managed_export_source_sound :
    (s : Session) (world : World) (source : VerifiedManagedExportSource)
    → build_verified_managed_export_source s ≡ ok source
    → verify_managed_export_source world source ≡ none
    → (root : ManagedTrustRoot) × (get_valid_trust_root s ≡ some root)
      × IsCurrent world root (some root.content_id)
unfolding verify_managed_export_source
verify_managed_export_source_sound s world source made verified =
    let (root, valid, small, fits, provenance, same) =
      (build_verified_managed_export_source_lem s source).0 made in
    (
      root,
      valid,
      (verify_managed_source_iff world root.locator.absolute_path root.locator.relative_posix
            root.size_bytes root.modified_ns (some root.content_id)).0
          (subst (λ x. verify_managed_export_source world x ≡ none) same verified),
    )
