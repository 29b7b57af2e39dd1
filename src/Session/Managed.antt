-- ===== src/Session/Managed.antt =====
-- `activate_managed_context` of dataset_activation.py: the transaction that makes a managed version
-- the active dataset. `path_name` is `Path(path).name` of the standard library. The feature flag is
-- the literal `True` of the source.
use data_quality_toolkit.Prelude.{
  ℕ, String, Bool, true, false, Option, none, some, is_empty, Result, ok, err, ◌>>◌, if◌then◌else◌,
}
use data_quality_toolkit.Session.{
  DatasetContext, ManagedSourceLocator, ManagedTrustRoot, Session, SessionError, not_managed,
  Outcome, done, raised,
}
use data_quality_toolkit.Session.Contexts.{raise_if, validate_dataset_context}
use data_quality_toolkit.Session.Trust.{
  RootRequest, make_source_locator, ensure_session_capability, current_generation,
  commit_trust_root, retire_managed_trust, reconcile_store,
}
use data_quality_toolkit.Session.Activation.{
  ActivationStatus, activated, unchanged, DatasetActivationResult, activate_dataset_context,
}

pub data ManagedActivationOutcome : Type 0 where
  managed_activated managed_unchanged disabled : ManagedActivationOutcome
  refused_pre_commit interrupted_post_commit : ManagedActivationOutcome

pub record ManagedActivationReport : Type 0 where
  pub outcome : ManagedActivationOutcome
  pub trust_committed : Bool
  pub generation : ℕ

-- `_MANAGED_ACTIVATION_ENABLED`
abbrev pub managed_activation_enabled : Bool
managed_activation_enabled = true

-- `str(value)`
abbrev pub text_of : Option String → String
text_of none = "None"
text_of (some s) = s

abbrev pub request_for : DatasetContext → ManagedSourceLocator → RootRequest
request_for c locator = record {
  version_id = text_of c.version_id;
  family_id = text_of c.family_id;
  content_id = text_of c.content_id;
  root_content_id = text_of c.root_content_id;
  parent_version_id = c.parent_version_id;
  version_label = text_of c.version_label;
  locator = locator;
  size_bytes = c.size_bytes;
  modified_ns = c.modified_ns;
  large_file_mode = c.large_file_mode;
}

-- `display_name or Path(target.source_path).name`
abbrev pub shown_name : (String → String) → Option String → String → String
shown_name path_name none path = path_name path
shown_name path_name (some name) path = if is_empty name then path_name path else name

-- The `try` before the commit.
unfoldable pub prepare :
    (String → String)
    → DatasetContext
    → String
    → Option String
    → Result SessionError ManagedSourceLocator
unfolding validate_dataset_context make_source_locator
prepare path_name target relative_posix display_name = do
  validate_dataset_context target
  raise_if (if target.managed then false else true) not_managed
  make_source_locator (shown_name path_name display_name target.source_path) relative_posix
      target.source_path

abbrev pub outcome_of : ActivationStatus → ManagedActivationOutcome
outcome_of activated = managed_activated
outcome_of unchanged = managed_unchanged

abbrev pub report : ManagedActivationOutcome → Bool → Session → Outcome ManagedActivationReport
report outcome trust_committed s =
    done
      (record {
        outcome = outcome;
        trust_committed = trust_committed;
        generation = current_generation s;
      })
      s

module _ (raises : ℕ → Bool) where
  -- Past the trust commit nothing goes back to the former authority.
  abbrev pub after_commit : Outcome DatasetActivationResult → Outcome ManagedActivationReport
  after_commit (done r s) = report (outcome_of r.status) true s
  after_commit (raised e s) = report interrupted_post_commit true (retire_managed_trust s)

  abbrev pub publish :
      DatasetContext
      → Result SessionError (ManagedTrustRoot × Session)
      → Session
      → Outcome ManagedActivationReport
  publish target (err e) s = report refused_pre_commit false s
  publish target (ok (r, s')) s = after_commit (activate_dataset_context raises target s')

  abbrev pub commit_with :
      DatasetContext → ManagedSourceLocator → Outcome ℕ → Outcome ManagedActivationReport
  commit_with target locator (raised e s) = raised e s
  commit_with target locator (done capability s) =
      publish target (commit_trust_root capability (request_for target locator) s) s

  abbrev pub commit_prepared :
      DatasetContext
      → Result SessionError ManagedSourceLocator
      → Session
      → Outcome ManagedActivationReport
  commit_prepared target (err e) s = report refused_pre_commit false s
  commit_prepared target (ok locator) s =
      commit_with target locator (ensure_session_capability raises s)

  unfoldable pub activate_managed_context :
      (String → String)
      → DatasetContext
      → String
      → Option String
      → Session
      → Outcome ManagedActivationReport
  unfolding prepare ensure_session_capability commit_trust_root activate_dataset_context
      retire_managed_trust reconcile_store current_generation
  activate_managed_context path_name target relative_posix display_name s =
      if managed_activation_enabled
      then commit_prepared target (prepare path_name target relative_posix display_name)
          (reconcile_store s)
      else report disabled false s
