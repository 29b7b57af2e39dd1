-- ===== src/Session/Tests.antt =====
-- A session with a managed dataset, a mutation that fails, and the theorems at them.
use data_quality_toolkit.Prelude.{
  strip, ℕ, ◌≡◌, ◌≢◌, refl, String, Bool, true, false, Option, none, some, [], eqb, arith,
  if◌then◌else◌, ◌==◌,
}
use data_quality_toolkit.Versions.Identity.{is_uuid, is_sha256}
use data_quality_toolkit.Session.{
  pos, DatasetContext, ManagedTrustRoot, ManagedSourceLocator, TrustState, trust, other, Entry,
  Session, session_after,
}
use data_quality_toolkit.Session.Trust.{
  peek_state, get_valid_trust_root, retire_managed_trust, reconcile_store,
}
use data_quality_toolkit.Session.Activation.{activate_dataset_context, clear_dataset_context}
use data_quality_toolkit.Session.Managed.{activate_managed_context}
use data_quality_toolkit.Session.Atomicity.{
  OneFault, Activated, Cleared, activate_dataset_context_atomic, clear_dataset_context_atomic,
}
use data_quality_toolkit.Session.Generations.{
  stop, step, reconcile, retirement, stale_root_stays_stale,
}
use data_quality_toolkit.Session.Prepared.{EndsWell}
use data_quality_toolkit.Session.Transaction.{activate_managed_context_transacts}

abbrev sha : String
sha = "sha256:0123456789abcdef0123456789abcdef0123456789abcdef0123456789abcdef"

abbrev uuid : String
uuid = "0a1b2c3d-0000-4000-8000-0123456789ab"

abbrev target : DatasetContext
target = record {
  source_path = "/data/clean.csv";
  display_name = "clean.csv";
  size_bytes = pos 120;
  modified_ns = pos 7;
  large_file_mode = false;
  managed = true;
  version_id = some uuid;
  family_id = some uuid;
  content_id = some sha;
  root_content_id = some sha;
  parent_version_id = none;
  version_label = some "Cleaned";
}

abbrev locator : ManagedSourceLocator
locator = record {
  display_name = "raw.csv";
  relative_posix = "raw.csv";
  absolute_path = "/data/raw.csv";
}

abbrev old_root : ManagedTrustRoot
old_root = record {
  generation = 3;
  version_id = uuid;
  family_id = uuid;
  content_id = sha;
  root_content_id = sha;
  parent_version_id = none;
  version_label = "Raw";
  locator = locator;
  size_bytes = pos 90;
  modified_ns = pos 1;
  large_file_mode = false;
}

abbrev store : TrustState
store = record {
  capability = some 0;
  generation = 3;
  root = some old_root;
  root_capability = some 0;
}

abbrev entries : String → Option Entry
entries key =
    if key == "_dqt_managed_trust_state"
    then some (trust store)
    else if key == "biv_col1"
    then some (other 1)
    else if key == "src_dataset_id"
    then some (other 2)
    else if key == "theme"
    then some (other 3)
    else none

abbrev session : Session
session = record { entries = entries; mutations = 0; capabilities = 1; frame_cache = [] }

-- The second mutation raises.
abbrev second_fails : ℕ → Bool
second_fails n = eqb n 1

second_fails-OneFault : OneFault second_fails
second_fails-OneFault i j h k = ground arith

abbrev base_name : String → String
base_name path = "clean.csv"

rolled_back :
    (session_after (activate_dataset_context second_fails target session)).entries "biv_col1"
    ≡ some (other 1)
unfolding activate_dataset_context strip is_uuid is_sha256
rolled_back = refl

cleared :
    (session_after (activate_dataset_context (λ n. false) target session)).entries "biv_col1" ≡ none
unfolding activate_dataset_context strip is_uuid is_sha256
cleared = refl

-- The id that the operator typed survives a first activation.
kept :
    (session_after (activate_dataset_context (λ n. false) target session)).entries "src_dataset_id"
    ≡ some (other 2)
unfolding activate_dataset_context strip is_uuid is_sha256
kept = refl

old_root_valid : get_valid_trust_root session ≡ some old_root
unfolding get_valid_trust_root
old_root_valid = refl

activate_dataset_context_atomic_example :
    Activated second_fails target session (activate_dataset_context second_fails target session)
activate_dataset_context_atomic_example =
    activate_dataset_context_atomic second_fails target session second_fails-OneFault

clear_dataset_context_atomic_example :
    Cleared second_fails session (clear_dataset_context second_fails session)
clear_dataset_context_atomic_example =
    clear_dataset_context_atomic second_fails session second_fails-OneFault

store_there : peek_state session ≡ some store
unfolding peek_state
store_there = refl

stale_root_stays_stale_example :
    get_valid_trust_root (reconcile_store (retire_managed_trust session)) ≢ some old_root
stale_root_stays_stale_example =
    stale_root_stays_stale second_fails old_root session session (retire_managed_trust session)
      (reconcile_store (retire_managed_trust session)) old_root_valid (stop session)
      (retirement session store store_there)
      (step (reconcile (retire_managed_trust session))
        (stop (reconcile_store (retire_managed_trust session))))

activate_managed_context_transacts_example :
    EndsWell target session
      (activate_managed_context second_fails base_name target "preprocessed/clean.csv" none session)
activate_managed_context_transacts_example =
    activate_managed_context_transacts second_fails base_name target "preprocessed/clean.csv" none
      session second_fails-OneFault
