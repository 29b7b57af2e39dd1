-- ===== src/Loading/Authority.antt =====
-- When `_require_managed_authority` and `_require_export_authority` let a call pass.
use data_quality_toolkit.Prelude.{
  ℕ, ◌≡◌, ◌↔◌, refl, sym, ◌∙◌, Bool, true, false, ◌&&◌, Option, none, some, Result, ok, ◌>>=◌, ◌>>◌,
  eqb, if◌then◌else◌,
}
use data_quality_toolkit.Session.{DatasetContext, ManagedTrustRoot, TrustState, Session}
use data_quality_toolkit.Session.Slots.{get_dataset_context}
use data_quality_toolkit.Session.Trust.{
  peek_state, get_valid_trust_root, valid_root_of, live_root, same_capability, looks_managed,
  decide, resolve_trust_authority, TrustDecision, fail_closed, unmanaged,
}
use data_quality_toolkit.Loading.{LoadReason}
use data_quality_toolkit.Loading.Dispatch.{
  peek_session_capability, require_managed_authority, root_if, is_managed, capability_of,
}
use data_quality_toolkit.Loading.Gateway.{
  ExportReason, require_export_authority, refuse_if, fails_closed, with_capability,
  managed_mirror_without_trust,
}
use data_quality_toolkit.Loading.Gateway

valid_root_of-capability :
    (t : TrustState) (root : ManagedTrustRoot)
    → valid_root_of t ≡ some root
    → (c : ℕ) × (t.capability ≡ some c)
valid_root_of-capability t root h = by_root t.root h
  where
    by_capability :
        (r : ManagedTrustRoot) (o : Option ℕ)
        → t.capability ≡ o
        → ◌≡◌ {A = Option ManagedTrustRoot}
            (elim o [
              | none ↦ none
              | some c ↦
                  if same_capability t.root_capability (some c) && eqb r.generation t.generation
                  then some r
                  else none
            ])
            (some root)
        → (c : ℕ) × (t.capability ≡ some c)
    by_capability r none e g = cc
    by_capability r (some c) e g = (c, e)

    by_root :
        (o : Option ManagedTrustRoot)
        → ◌≡◌ {A = Option ManagedTrustRoot}
            (elim o [ none ↦ none | some r ↦ live_root t r ])
            (some root)
        → (c : ℕ) × (t.capability ≡ some c)
    by_root none g = cc
    by_root (some r) g = by_capability r t.capability refl g

-- A valid root goes with the live capability.
pub valid_root-capability :
    (s : Session) (root : ManagedTrustRoot)
    → get_valid_trust_root s ≡ some root
    → (c : ℕ) × (peek_session_capability s ≡ some c)
unfolding get_valid_trust_root peek_session_capability
valid_root-capability s root h = by_state (peek_state s) h
  where
    by_state :
        (o : Option TrustState)
        → ◌≡◌ {A = Option ManagedTrustRoot}
            (elim o [ none ↦ none | some t ↦ valid_root_of t ])
            (some root)
        → (c : ℕ) × (◌≡◌ {A = Option ℕ} (elim o [ none ↦ none | some t ↦ t.capability ]) (some c))
    by_state none g = cc
    by_state (some t) g = valid_root_of-capability t root g

decide-root :
    (o : Option ManagedTrustRoot) (mirror : Option DatasetContext) → (decide o mirror).root ≡ o
decide-root (some r) mirror = refl
decide-root none mirror = by_mirror (looks_managed mirror)
  where
    by_mirror :
        (b : Bool)
        → TrustDecision.root (
            if b
            then record {
              authority = fail_closed;
              root = none;
              reason_code = "MANAGED_MIRROR_WITHOUT_TRUST";
              mirror_stale = false;
            }
            else record {
              authority = unmanaged;
              root = none;
              reason_code = "UNMANAGED";
              mirror_stale = false;
            })
          ≡ none
    by_mirror true = refl
    by_mirror false = refl

authorized :
    (b : Bool) (o : Option ManagedTrustRoot) (p : Option ℕ) (root : ManagedTrustRoot) (c : ℕ)
    → ◌≡◌ {A = Result LoadReason (ManagedTrustRoot × ℕ)}
        (do r ← root_if b o; d ← capability_of p; ok (r, d))
        (ok (root, c))
    → (o ≡ some root) × (p ≡ some c)
authorized false o p root c h = cc
authorized true none p root c h = cc
authorized true (some r) none root c h = cc
authorized true (some r) (some d) root c h = (cc h, cc h)

authorize :
    (o : Option ManagedTrustRoot) (mirror : Option DatasetContext) (p : Option ℕ)
    (root : ManagedTrustRoot) (c : ℕ)
    → o ≡ some root
    → p ≡ some c
    → ◌≡◌ {A = Result LoadReason (ManagedTrustRoot × ℕ)}
        (do
          r ← root_if (is_managed (decide o mirror).authority) (decide o mirror).root
          d ← capability_of p
          ok (r, d))
        (ok (root, c))
authorize none mirror p root c e f = cc
authorize (some r) mirror none root c e f = cc
authorize (some r) mirror (some d) root c e f = cc (e, f)

-- A load has authority exactly with the valid root and the live capability.
pub require_managed_authority_iff :
    (s : Session) (root : ManagedTrustRoot) (c : ℕ)
    → (require_managed_authority s ≡ ok (root, c))
      ↔ ((get_valid_trust_root s ≡ some root) × (peek_session_capability s ≡ some c))
unfolding require_managed_authority
require_managed_authority_iff s root c = (
  λ h.
      let found =
        authorized (is_managed (resolve_trust_authority s).authority)
          (resolve_trust_authority s).root (peek_session_capability s) root c h in
      (sym (decide-root (get_valid_trust_root s) (get_dataset_context s)) ∙ found.0, found.1),
  λ e.
      authorize (get_valid_trust_root s) (get_dataset_context s) (peek_session_capability s) root c
        e.0 e.1,
)

exported :
    (a b : Bool) (o : Option ManagedTrustRoot) (p : Option ℕ) (root : ManagedTrustRoot)
    → ◌≡◌ {A = Result ExportReason ManagedTrustRoot}
        (do refuse_if a managed_mirror_without_trust; r ← Gateway.root_if b o; with_capability p r)
        (ok root)
    → o ≡ some root
exported true b o p root h = cc
exported false false o p root h = cc
exported false true none p root h = cc
exported false true (some r) none root h = cc
exported false true (some r) (some d) root h = cc h

export :
    (o : Option ManagedTrustRoot) (mirror : Option DatasetContext) (p : Option ℕ)
    (root : ManagedTrustRoot) (c : ℕ)
    → o ≡ some root
    → p ≡ some c
    → ◌≡◌ {A = Result ExportReason ManagedTrustRoot}
        (do
          refuse_if (fails_closed (decide o mirror).authority) managed_mirror_without_trust
          r ← Gateway.root_if (is_managed (decide o mirror).authority) (decide o mirror).root
          with_capability p r)
        (ok root)
export none mirror p root c e f = cc
export (some r) mirror none root c e f = cc
export (some r) mirror (some d) root c e f = cc e

-- An export has authority exactly with the valid root.
pub require_export_authority_iff :
    (s : Session) (root : ManagedTrustRoot)
    → (require_export_authority s ≡ ok root) ↔ (get_valid_trust_root s ≡ some root)
unfolding require_export_authority
require_export_authority_iff s root = (
  λ h.
      sym (decide-root (get_valid_trust_root s) (get_dataset_context s))
      ∙ exported (fails_closed (resolve_trust_authority s).authority)
          (is_managed (resolve_trust_authority s).authority) (resolve_trust_authority s).root
          (peek_session_capability s) root h,
  λ e.
      let live = valid_root-capability s root e in
      export (get_valid_trust_root s) (get_dataset_context s) (peek_session_capability s) root
        live.0 e live.1,
)
