-- ===== src/Confirmation/Parent.antt =====
-- The parent of a new version, resolved from the trust root first, and the lineage it gives.
use data_quality_toolkit.Prelude.{
  String, Bool, true, false, Option, none, some, is_empty, Result, ok, err, if◌then◌else◌,
}
use data_quality_toolkit.Versions.{ParentRef}
use data_quality_toolkit.Session.{DatasetContext, ManagedTrustRoot, Session}
use data_quality_toolkit.Session.Trust.{resolve_trust_authority, TrustDecision}
use data_quality_toolkit.Loading.Dispatch.{is_managed}
use data_quality_toolkit.Loading.Gateway.{fails_closed}

-- The `_ConfirmationInputError`s that are raised here.
pub data InputError : Type 0 where
  managed_trust_required missing_identities parent_unreadable : InputError
  outside_workspace too_many_versions : InputError

-- `_context_from_trust_root`
abbrev pub context_from_trust_root : ManagedTrustRoot → DatasetContext
context_from_trust_root root = record {
  source_path = root.locator.absolute_path;
  display_name = root.locator.display_name;
  size_bytes = root.size_bytes;
  modified_ns = root.modified_ns;
  large_file_mode = root.large_file_mode;
  managed = true;
  version_id = some root.version_id;
  family_id = some root.family_id;
  content_id = some root.content_id;
  root_content_id = some root.root_content_id;
  parent_version_id = root.parent_version_id;
  version_label = some root.version_label;
}

abbrev pub parent_or :
    Option DatasetContext → Bool → Option ManagedTrustRoot → Option DatasetContext
parent_or fallback true (some root) = some (context_from_trust_root root)
parent_or fallback true none = fallback
parent_or fallback false root = fallback

abbrev pub parent_by :
    TrustDecision → Option DatasetContext → Result InputError (Option DatasetContext)
parent_by decision fallback =
    if fails_closed decision.authority
    then err managed_trust_required
    else ok (parent_or fallback (is_managed decision.authority) decision.root)

unfoldable pub resolve_confirmation_parent :
    Option Session → Option DatasetContext → Result InputError (Option DatasetContext)
unfolding resolve_trust_authority
resolve_confirmation_parent none fallback = ok fallback
resolve_confirmation_parent (some s) fallback = parent_by (resolve_trust_authority s) fallback

-- The family, the content of its root, and the reference to the parent.
pub record VersionLineage : Type 0 where
  pub family_id : String
  pub root_content_id : String
  pub parent_ref : ParentRef

-- A text that Python takes for true.
abbrev pub given : Option String → Option String
given none = none
given (some s) = if is_empty s then none else some s

abbrev pub lineage_of :
    Option String → Option String → Option String → Option String → Result InputError VersionLineage
lineage_of (some family) (some root_content) (some version) (some content) = ok (record {
  family_id = family;
  root_content_id = root_content;
  parent_ref = record { version_id = some version; content_id = content };
})
lineage_of none root_content version content = err missing_identities
lineage_of (some family) none version content = err missing_identities
lineage_of (some family) (some root_content) none content = err missing_identities
lineage_of (some family) (some root_content) (some version) none = err missing_identities

abbrev pub new_family : String → Option String → Result InputError VersionLineage
new_family family none = err parent_unreadable
new_family family (some content) = ok (record {
  family_id = family;
  root_content_id = content;
  parent_ref = record { version_id = none; content_id = content };
})

-- `_build_lineage`, with what `new_family_id` and `content_id_from_file` give.
unfoldable pub build_lineage :
    String → (String → Option String) → DatasetContext → Result InputError VersionLineage
build_lineage fresh content_id_from_file parent =
    if parent.managed
    then lineage_of (given parent.family_id) (given parent.root_content_id)
        (given parent.version_id) (given parent.content_id)
    else new_family fresh (content_id_from_file parent.source_path)
