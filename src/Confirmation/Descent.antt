-- ===== src/Confirmation/Descent.antt =====
-- What a new version descends from.
use data_quality_toolkit.Prelude.{
  ◌≡◌, refl, ap, ◌⊎◌, inl, inr, String, Bool, true, false, Option, none, some, is_empty, ok,
  if◌then◌else◌,
}
use data_quality_toolkit.Session.{DatasetContext, ManagedTrustRoot, Session}
use data_quality_toolkit.Session.Slots.{get_dataset_context}
use data_quality_toolkit.Session.Trust.{
  get_valid_trust_root, decide, looks_managed, fail_closed, unmanaged,
}
use data_quality_toolkit.Confirmation.Parent.{
  context_from_trust_root, parent_by, resolve_confirmation_parent, VersionLineage, lineage_of,
  build_lineage,
}

-- The lineage that descends from a trust root.
abbrev pub lineage_from : ManagedTrustRoot → VersionLineage
lineage_from root = record {
  family_id = root.family_id;
  root_content_id = root.root_content_id;
  parent_ref = record { version_id = some root.version_id; content_id = root.content_id };
}

resolved :
    (o : Option ManagedTrustRoot) (mirror : Option DatasetContext)
    (fallback r : Option DatasetContext)
    → parent_by (decide o mirror) fallback ≡ ok r
    → ((root : ManagedTrustRoot) × (o ≡ some root) × (r ≡ some (context_from_trust_root root)))
      ⊎ ((o ≡ none) × (looks_managed mirror ≡ false) × (r ≡ fallback))
resolved (some root) mirror fallback r h = inl (root, refl, cc h)
resolved none mirror fallback r h = by_mirror (looks_managed mirror) h
  where
    by_mirror :
        (b : Bool)
        → parent_by
            (if b
              then record {
                authority = fail_closed;
                root = none;
                reason_code = "MANAGED_MIRROR_WITHOUT_TRUST";
                mirror_stale = false;
              }
              else record {
                authority = unmanaged;
                root = none;
                reason_code = "UNMANAGED";
                mirror_stale = false;
              })
            fallback
          ≡ ok r
        → ((root : ManagedTrustRoot) × (◌≡◌ {A = Option ManagedTrustRoot} none (some root))
            × (r ≡ some (context_from_trust_root root)))
          ⊎ ((◌≡◌ {A = Option ManagedTrustRoot} none none) × (b ≡ false) × (r ≡ fallback))
    by_mirror true g = cc
    by_mirror false g = inr (refl, refl, cc g)

-- A parent that is resolved in a session is that of the valid trust root, whatever the caller passed;
-- the caller's own is taken only where there is no valid root and the active dataset is not managed.
pub resolve_confirmation_parent_sound :
    (s : Session) (fallback r : Option DatasetContext)
    → resolve_confirmation_parent (some s) fallback ≡ ok r
    → ((root : ManagedTrustRoot) × (get_valid_trust_root s ≡ some root)
        × (r ≡ some (context_from_trust_root root)))
      ⊎ ((get_valid_trust_root s ≡ none)
          × (looks_managed (get_dataset_context s) ≡ false)
          × (r ≡ fallback))
unfolding resolve_confirmation_parent
resolve_confirmation_parent_sound s fallback r h =
    resolved (get_valid_trust_root s) (get_dataset_context s) fallback r h

rooted :
    (fresh : String) (content_id_from_file : String → Option String) (root : ManagedTrustRoot)
    → is_empty root.family_id ≡ false
    → is_empty root.root_content_id ≡ false
    → is_empty root.version_id ≡ false
    → is_empty root.content_id ≡ false
    → build_lineage fresh content_id_from_file (context_from_trust_root root)
      ≡ ok (lineage_from root)
unfolding build_lineage
rooted fresh content_id_from_file root a b c d =
    by_tests (is_empty root.family_id) (is_empty root.root_content_id) (is_empty root.version_id)
      (is_empty root.content_id) a b c d
  where
    by_tests :
        (a b c d : Bool)
        → a ≡ false
        → b ≡ false
        → c ≡ false
        → d ≡ false
        → lineage_of
            (if a then none else some root.family_id)
            (if b then none else some root.root_content_id)
            (if c then none else some root.version_id)
            (if d then none else some root.content_id)
          ≡ ok (lineage_from root)
    by_tests true b c d p q r s = cc
    by_tests false true c d p q r s = cc
    by_tests false false true d p q r s = cc
    by_tests false false false true p q r s = cc
    by_tests false false false false p q r s = refl

-- In a session with a valid trust root whose ids are not empty, a new version descends from that
-- root: its family and root content are the root's, and its parent is the root's version, whatever
-- parent the caller passed and whatever a file holds.
pub confirmation-lineage :
    (s : Session) (root : ManagedTrustRoot) (fallback : Option DatasetContext) (fresh : String)
    (content_id_from_file : String → Option String)
    → get_valid_trust_root s ≡ some root
    → is_empty root.family_id ≡ false
    → is_empty root.root_content_id ≡ false
    → is_empty root.version_id ≡ false
    → is_empty root.content_id ≡ false
    → (resolve_confirmation_parent (some s) fallback ≡ ok (some (context_from_trust_root root)))
      × (build_lineage fresh content_id_from_file (context_from_trust_root root)
          ≡ ok (lineage_from root))
unfolding resolve_confirmation_parent
confirmation-lineage s root fallback fresh content_id_from_file valid a b c d = (
  by_root (get_valid_trust_root s) (get_dataset_context s) valid,
  rooted fresh content_id_from_file root a b c d,
)
  where
    by_root :
        (o : Option ManagedTrustRoot) (mirror : Option DatasetContext)
        → o ≡ some root
        → parent_by (decide o mirror) fallback ≡ ok (some (context_from_trust_root root))
    by_root none mirror e = cc
    by_root (some r) mirror e = ap (λ x. ok (some (context_from_trust_root x))) (same e)
      where
        same : some r ≡ some root → r ≡ root
        same e = cc e
