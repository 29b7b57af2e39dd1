-- ===== src/Loading/Committed.antt =====
-- The export of a dataset that was committed with a locator of `make_source_locator`: the operations
-- of managed_trust.py and of managed_export_gateway.py together.
use data_quality_toolkit.Prelude.{
  ℕ, suc, ◌≡◌, ◌↔◌, refl, sym, ◌∙◌, ap, subst, String, Bool, true, false, not, ◌&&◌, some, ok,
  >>=-eq-ok,
}
use data_quality_toolkit.Session.{ManagedTrustRoot, Session}
use data_quality_toolkit.Session.Trust.{
  make_source_locator, RootRequest, root_at, admit_commit, commit_trust_root, current_generation,
  get_valid_trust_root,
}
use data_quality_toolkit.Session.Roots.{commit_trust_root_lem}
use data_quality_toolkit.Loading.Source.{exceeds_full}
use data_quality_toolkit.Loading.Gateway.{
  provenance_of, root_exports, managed_export_available, build_verified_managed_export_source,
}
use data_quality_toolkit.Loading.Authority.{require_export_authority_iff}
use data_quality_toolkit.Loading.Minting.{IsProvenance, build_verified_managed_export_source_lem}
use data_quality_toolkit.Loading.Admission.{
  IsAdmitted, admit_commit-IsAdmitted, IsLocator, make_source_locator-IsLocator,
}

admitted-IsProvenance :
    (n : ℕ) (q : RootRequest)
    → IsAdmitted q
    → IsLocator q.locator
    → (not q.large_file_mode && exceeds_full q.size_bytes) ≡ false
    → IsProvenance (provenance_of (root_at n q))
admitted-IsProvenance n q a l fits = record {
  version_filled = a.version_filled;
  family_filled = a.family_filled;
  content_filled = a.content_filled;
  root_content_filled = a.root_content_filled;
  label_filled = a.label_filled;
  name_filled = l.name_filled;
  relative_filled = l.relative_filled;
  path_filled = l.path_filled;
  name_bare = l.name_bare;
  relative_posix = l.relative_posix;
  size_whole = a.size_whole;
  full_fits = fits;
}

both_true : (a b : Bool) → (not a && not b) ≡ true → (a ≡ false) × (b ≡ false)
both_true true b h = cc
both_true false true h = cc
both_true false false h = (refl, refl)

available :
    (s : Session) (root : ManagedTrustRoot)
    → get_valid_trust_root s ≡ some root
    → managed_export_available s ≡ root_exports (ok root)
unfolding managed_export_available
available s root h = ap root_exports ((require_export_authority_iff s root).1 h)

commit-admits :
    (c : ℕ) (q : RootRequest) (s : Session) (r : ManagedTrustRoot) (s' : Session)
    → commit_trust_root c q s ≡ ok (r, s')
    → IsAdmitted q
unfolding commit_trust_root
commit-admits c q s r s' h =
    let (t, admitted, rest) = >>=-eq-ok (admit_commit c q s) _ h in
    admit_commit-IsAdmitted c q s t admitted

-- After the commit of a request whose locator `make_source_locator` gave, the source of an export is
-- made, with the values of the committed root, exactly where `managed_export_available` says yes: the
-- validation of the source never refuses what the commit admits.
pub commit-export :
    (capability : ℕ) (q : RootRequest) (s s' : Session) (root : ManagedTrustRoot)
    (name relative path : String)
    → make_source_locator name relative path ≡ ok q.locator
    → commit_trust_root capability q s ≡ ok (root, s')
    → (managed_export_available s' ≡ true)
      ↔ (build_verified_managed_export_source s' ≡ ok (provenance_of root))
commit-export capability q s s' root name relative path located committed =
    let (made, valid, generation, cache, elsewhere) =
      commit_trust_root_lem capability q s root s' committed in
    let yes = available s' root valid in
    (
      λ h.
          let (small, fits) =
            both_true root.large_file_mode (exceeds_full root.size_bytes) (sym yes ∙ h) in
          (build_verified_managed_export_source_lem s' (provenance_of root)).1
            (root, valid, small, fits, provenance made fits, refl),
      λ h.
          let (again, valid_again, small, fits, checked, same) =
            (build_verified_managed_export_source_lem s' (provenance_of root)).0 h in
          yes ∙ (ap (λ r. root_exports (ok r)) (same_root valid valid_again) ∙ simp (small, fits)),
    )
  where
    provenance :
        root ≡ root_at (suc (current_generation s)) q
        → exceeds_full root.size_bytes ≡ false
        → IsProvenance (provenance_of root)
    provenance made fits =
        subst (λ r. IsProvenance (provenance_of r)) (sym made)
          (admitted-IsProvenance (suc (current_generation s)) q
            (commit-admits capability q s root s' committed)
            (make_source_locator-IsLocator name relative path q.locator located)
            (not_above q.large_file_mode (exceeds_full q.size_bytes)
              (subst (λ (r : ManagedTrustRoot). exceeds_full r.size_bytes ≡ false) made fits)))
      where
        not_above : (a b : Bool) → b ≡ false → (not a && b) ≡ false
        not_above true b h = refl
        not_above false b h = h

    same_root :
        {again : ManagedTrustRoot}
        → get_valid_trust_root s' ≡ some root
        → get_valid_trust_root s' ≡ some again
        → root ≡ again
    same_root e f = cc (sym e ∙ f)
