-- ===== src/Loading/Minting.antt =====
-- What the sources are that managed_export_gateway.py makes, and when it makes one.
use data_quality_toolkit.Prelude.{
  ◌≡◌, ◌↔◌, refl, sym, ◌∙◌, ap, subst, String, Bool, true, false, not, ◌&&◌, ◌||◌, some, strip,
  is_empty, codes, Result, ok, err, ◌>>=◌, ◌>>◌, >>=-eq-ok,
}
use data_quality_toolkit.Versions.Identity.{is_absolute}
use data_quality_toolkit.Session.{ManagedTrustRoot, Session, is_negative}
use data_quality_toolkit.Session.Trust.{has, get_valid_trust_root}
use data_quality_toolkit.Loading.Source.{
  exceeds_full, VerifiedManagedExportSource, ProvenanceError, raise_if, check_provenance,
  bad_display_name, bad_relative_posix, bad_size, full_size, blank,
}
use data_quality_toolkit.Loading.Gateway.{
  ExportReason, refuse_if, provenance_of, minted, require_export_authority,
  build_verified_managed_export_source, large_mode_refused, full_size_exceeded,
}
use data_quality_toolkit.Loading.Authority.{require_export_authority_iff}

abbrev pub IsFilled : String → Type 0
IsFilled s = is_empty (strip s) ≡ false

-- The conditions of `__post_init__`.
pub record IsProvenance (s : VerifiedManagedExportSource) : Type 0 where
  pub version_filled : IsFilled s.version_id
  pub family_filled : IsFilled s.family_id
  pub content_filled : IsFilled s.content_id
  pub root_content_filled : IsFilled s.root_content_id
  pub label_filled : IsFilled s.version_label
  pub name_filled : IsFilled s.display_name
  pub relative_filled : IsFilled s.relative_posix
  pub path_filled : IsFilled s.source_path
  pub name_bare :
      (has b'/' s.display_name || has 92 s.display_name || has b':' s.display_name) ≡ false
  pub relative_posix :
      (has 92 s.relative_posix || has b':' s.relative_posix || is_absolute (codes s.relative_posix))
      ≡ false
  pub size_whole : is_negative s.size_bytes ≡ false
  pub full_fits : (not s.large_file_mode && exceeds_full s.size_bytes) ≡ false

passed :
    {A : Type 0} (b : Bool) (e : ProvenanceError) (m : Result ProvenanceError A) (x : A)
    → (raise_if b e >> m) ≡ ok x
    → (b ≡ false) × (m ≡ ok x)
passed true e m x h = cc
passed false e m x h = (refl, h)

check_provenance-IsProvenance :
    (s x : VerifiedManagedExportSource) → check_provenance s ≡ ok x → IsProvenance s × (s ≡ x)
unfolding check_provenance
check_provenance-IsProvenance s x h =
    let (a1, h1) = passed (is_empty (strip s.version_id)) (blank "version_id") _ x h in
    let (a2, h2) = passed (is_empty (strip s.family_id)) (blank "family_id") _ x h1 in
    let (a3, h3) = passed (is_empty (strip s.content_id)) (blank "content_id") _ x h2 in
    let (a4, h4) = passed (is_empty (strip s.root_content_id)) (blank "root_content_id") _ x h3 in
    let (a5, h5) = passed (is_empty (strip s.version_label)) (blank "version_label") _ x h4 in
    let (a6, h6) = passed (is_empty (strip s.display_name)) (blank "display_name") _ x h5 in
    let (a7, h7) = passed (is_empty (strip s.relative_posix)) (blank "relative_posix") _ x h6 in
    let (a8, h8) = passed (is_empty (strip s.source_path)) (blank "source_path") _ x h7 in
    let (a9, h9) = passed _ bad_display_name _ x h8 in
    let (a10, h10) = passed _ bad_relative_posix _ x h9 in
    let (a11, h11) = passed (is_negative s.size_bytes) bad_size _ x h10 in
    let (a12, h12) = passed _ full_size _ x h11 in
    (
      record {
        version_filled = a1;
        family_filled = a2;
        content_filled = a3;
        root_content_filled = a4;
        label_filled = a5;
        name_filled = a6;
        relative_filled = a7;
        path_filled = a8;
        name_bare = a9;
        relative_posix = a10;
        size_whole = a11;
        full_fits = a12;
      },
      cc h12,
    )

pub IsProvenance-check_provenance :
    (s : VerifiedManagedExportSource) → IsProvenance s → check_provenance s ≡ ok s
unfolding check_provenance
IsProvenance-check_provenance s p = simp (
  p.version_filled, p.family_filled, p.content_filled, p.root_content_filled, p.label_filled,
  p.name_filled, p.relative_filled, p.path_filled, p.name_bare, p.relative_posix, p.size_whole,
  p.full_fits,
)

passes :
    {A : Type 0} (b : Bool) (e : ExportReason) (m : Result ExportReason A) (x : A)
    → (refuse_if b e >> m) ≡ ok x
    → (b ≡ false) × (m ≡ ok x)
passes true e m x h = cc
passes false e m x h = (refl, h)

minted-ok :
    (r : Result ProvenanceError VerifiedManagedExportSource) (x : VerifiedManagedExportSource)
    → minted r ≡ ok x
    → r ≡ ok x
minted-ok (ok y) x h = ap ok (cc h)
minted-ok (err e) x h = cc

let_through :
    {A : Type 0} (b : Bool) (e : ExportReason) (m : Result ExportReason A) (x : A)
    → b ≡ false
    → m ≡ ok x
    → (refuse_if b e >> m) ≡ ok x
let_through true e m x h g = cc
let_through false e m x h g = g

mint :
    (r : Result ExportReason ManagedTrustRoot) (root : ManagedTrustRoot)
    (source : VerifiedManagedExportSource)
    → r ≡ ok root
    → root.large_file_mode ≡ false
    → exceeds_full root.size_bytes ≡ false
    → check_provenance (provenance_of root) ≡ ok source
    → ◌≡◌ {A = Result ExportReason VerifiedManagedExportSource}
        (do
          root ← r
          refuse_if root.large_file_mode large_mode_refused
          refuse_if (exceeds_full root.size_bytes) full_size_exceeded
          minted (check_provenance (provenance_of root)))
        (ok source)
mint r root source e small fits checked =
    subst
      (λ (x : Result ExportReason ManagedTrustRoot).
        ◌≡◌ {A = Result ExportReason VerifiedManagedExportSource}
          (do
            root ← x
            refuse_if root.large_file_mode large_mode_refused
            refuse_if (exceeds_full root.size_bytes) full_size_exceeded
            minted (check_provenance (provenance_of root)))
          (ok source))
      (sym e)
      (let_through root.large_file_mode large_mode_refused _ source small (
        let_through (exceeds_full root.size_bytes) full_size_exceeded _ source fits
          (ap minted checked)))

pub build_verified_managed_export_source_lem :
    (s : Session) (source : VerifiedManagedExportSource)
    → (build_verified_managed_export_source s ≡ ok source) ↔ (
        (root : ManagedTrustRoot) × (get_valid_trust_root s ≡ some root)
        × (root.large_file_mode ≡ false)
        × (exceeds_full root.size_bytes ≡ false)
        × IsProvenance (provenance_of root)
        × (source ≡ provenance_of root))
unfolding build_verified_managed_export_source
build_verified_managed_export_source_lem s source = (made, making)
  where
    made :
        build_verified_managed_export_source s ≡ ok source
        → (root : ManagedTrustRoot) × (get_valid_trust_root s ≡ some root)
          × (root.large_file_mode ≡ false)
          × (exceeds_full root.size_bytes ≡ false)
          × IsProvenance (provenance_of root)
          × (source ≡ provenance_of root)
    made h =
        let (root, authority, h1) = >>=-eq-ok (require_export_authority s) _ h in
        let (small, h2) = passes root.large_file_mode large_mode_refused _ source h1 in
        let (fits, h3) = passes (exceeds_full root.size_bytes) full_size_exceeded _ source h2 in
        let (valid, same) =
          check_provenance-IsProvenance (provenance_of root) source
            (minted-ok (check_provenance (provenance_of root)) source h3) in
        (root, (require_export_authority_iff s root).0 authority, small, fits, valid, sym same)

    making :
        ((root : ManagedTrustRoot) × (get_valid_trust_root s ≡ some root)
          × (root.large_file_mode ≡ false)
          × (exceeds_full root.size_bytes ≡ false)
          × IsProvenance (provenance_of root)
          × (source ≡ provenance_of root))
        → build_verified_managed_export_source s ≡ ok source
    making (root, valid, small, fits, provenance, same) =
        mint (require_export_authority s) root source
          ((require_export_authority_iff s root).1 valid) small fits
          (IsProvenance-check_provenance (provenance_of root) provenance ∙ ap ok (sym same))
