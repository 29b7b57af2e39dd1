-- ===== src/Session/Trust.antt =====
-- The trust store of managed_trust.py. It is one object that the session holds under a key of its
-- own; the code changes it in place, which is no mutation of the mapping.
-- One cache-invalidation hook is registered, that of managed_frame_loader.py, which clears the
-- managed caches; it does not raise.
use data_quality_toolkit.Prelude.{
  ℕ, suc, String, Bool, true, false, not, ◌&&◌, ◌||◌, Option, none, some, List, [], strip, is_empty,
  codes, any, eqb, Result, ok, err, ◌>>=◌, ◌>>◌, if◌then◌else◌,
}
use data_quality_toolkit.Versions.Identity.{is_absolute}
use data_quality_toolkit.Session.{
  ℤ, is_negative, DatasetContext, ManagedSourceLocator, ManagedTrustRoot, TrustState, Entry,
  context, trust, other, Session, SessionError, bad_display_name, bad_relative_path,
  no_artifact_path, no_capability, other_capability, negative_size, blank_identity, Outcome, done,
  raised,
}
use data_quality_toolkit.Session.Slots.{managed_trust_state, update, get_dataset_context, mutate}
use data_quality_toolkit.Session.Contexts.{same_text, named, raise_if, refuse_named}

abbrev pub has : ℕ → String → Bool
has c s = any (eqb c) (codes s)

-- The texts that come in may be blank, not `None`.
unfoldable pub make_source_locator :
    String → String → String → Result SessionError ManagedSourceLocator
make_source_locator display_name relative_posix absolute_path = do
  let name = strip display_name
  let rel = strip relative_posix
  raise_if (is_empty name || has b'/' name || has 92 name || has b':' name) bad_display_name
  raise_if (is_empty rel || has 92 rel || has b':' rel || is_absolute (codes rel)) bad_relative_path
  raise_if (is_empty (strip absolute_path)) no_artifact_path
  ok (record { display_name = name; relative_posix = rel; absolute_path = absolute_path })

abbrev pub as_trust : Option Entry → Option TrustState
as_trust (some (trust t)) = some t
as_trust (some (context c)) = none
as_trust (some (other n)) = none
as_trust none = none

-- `_peek_state`
unfoldable pub peek_state : Session → Option TrustState
peek_state s = as_trust (s.entries managed_trust_state)

-- A change of the trust object in place.
unfoldable pub write_trust : TrustState → Session → Session
write_trust t s = record s { entries = update managed_trust_state (some (trust t)) s.entries }

abbrev pub new_trust : TrustState
new_trust = record { capability = none; generation = 0; root = none; root_capability = none }

-- `if trust.capability is None: trust.capability = SessionCapability()`
abbrev pub with_capability : TrustState → Session → Outcome ℕ
with_capability t s = elim t.capability [
  | some c ↦ done c s
  | none ↦ done s.capabilities (
      write_trust (record t { capability = some s.capabilities })
        (record s { capabilities = suc s.capabilities }))
]

abbrev pub with_new_trust : Outcome (Unit {0}) → Outcome ℕ
with_new_trust (done u s) = with_capability new_trust s
with_new_trust (raised e s) = raised e s

unfoldable pub ensure_session_capability : (ℕ → Bool) → Session → Outcome ℕ
unfolding peek_state write_trust mutate
ensure_session_capability raises s = elim (peek_state s) [
  | some t ↦ with_capability t s
  | none ↦ with_new_trust (mutate raises managed_trust_state (some (trust new_trust)) s)
]

unfoldable pub current_generation : Session → ℕ
unfolding peek_state
current_generation s = elim (peek_state s) [ none ↦ 0 | some t ↦ t.generation ]

-- `_run_invalidation_hooks`
abbrev pub run_invalidation_hooks : Session → Session
run_invalidation_hooks s = record s { frame_cache = [] }

pub record RootRequest : Type 0 where
  pub version_id : String
  pub family_id : String
  pub content_id : String
  pub root_content_id : String
  pub parent_version_id : Option String
  pub version_label : String
  pub locator : ManagedSourceLocator
  pub size_bytes : ℤ
  pub modified_ns : ℤ
  pub large_file_mode : Bool

abbrev pub root_at : ℕ → RootRequest → ManagedTrustRoot
root_at generation r = record {
  generation = generation;
  version_id = r.version_id;
  family_id = r.family_id;
  content_id = r.content_id;
  root_content_id = r.root_content_id;
  parent_version_id = r.parent_version_id;
  version_label = r.version_label;
  locator = r.locator;
  size_bytes = r.size_bytes;
  modified_ns = r.modified_ns;
  large_file_mode = r.large_file_mode;
}

abbrev pub blank_ids : RootRequest → List String
blank_ids r = named (is_empty (strip r.version_id)) "version_id" (
    named (is_empty (strip r.family_id)) "family_id" (
      named (is_empty (strip r.content_id)) "content_id" (
        named (is_empty (strip r.root_content_id)) "root_content_id"
          (named (is_empty (strip r.version_label)) "version_label" []))))

abbrev pub same_capability : Option ℕ → Option ℕ → Bool
same_capability none none = true
same_capability (some a) (some b) = eqb a b
same_capability _ _ = false

-- What precedes the commit: the live trust object, or a refusal.
unfoldable pub admit_commit : ℕ → RootRequest → Session → Result SessionError TrustState
unfolding peek_state
admit_commit capability r s = elim (peek_state s) [
  | none ↦ err no_capability
  | some t ↦ elim t.capability [
    | none ↦ err no_capability
    | some live ↦ do
      raise_if (not (eqb capability live)) other_capability
      refuse_named blank_identity (blank_ids r)
      raise_if (is_negative r.size_bytes) negative_size
      ok t
  ]
]

abbrev pub committed : ℕ → RootRequest → TrustState → TrustState
committed capability r t = record t {
  generation = suc t.generation;
  root = some (root_at (suc t.generation) r);
  root_capability = some capability;
}

unfoldable pub commit_trust_root :
    ℕ → RootRequest → Session → Result SessionError (ManagedTrustRoot × Session)
unfolding write_trust
commit_trust_root capability r s = do
  t ← admit_commit capability r s
  ok (
    root_at (suc t.generation) r,
    run_invalidation_hooks (write_trust (committed capability r t) s),
  )

-- The conditions of `get_valid_trust_root`, on the trust object.
abbrev pub live_root : TrustState → ManagedTrustRoot → Option ManagedTrustRoot
live_root t r = elim t.capability [
  | none ↦ none
  | some c ↦
      if same_capability t.root_capability (some c) && eqb r.generation t.generation
      then some r
      else none
]

abbrev pub valid_root_of : TrustState → Option ManagedTrustRoot
valid_root_of t = elim t.root [ none ↦ none | some r ↦ live_root t r ]

unfoldable pub get_valid_trust_root : Session → Option ManagedTrustRoot
unfolding peek_state
get_valid_trust_root s = elim (peek_state s) [ none ↦ none | some t ↦ valid_root_of t ]

abbrev pub retired : TrustState → TrustState
retired t = record t { generation = suc t.generation; root = none; root_capability = none }

unfoldable pub retire_managed_trust : Session → Session
unfolding peek_state write_trust
retire_managed_trust s = elim (peek_state s) [
  | none ↦ s
  | some t ↦ run_invalidation_hooks (write_trust (retired t) s)
]

pub data TrustAuthority : Type 0 where
  managed_authority unmanaged fail_closed : TrustAuthority

pub record TrustDecision : Type 0 where
  pub authority : TrustAuthority
  pub root : Option ManagedTrustRoot
  pub reason_code : String
  pub mirror_stale : Bool

abbrev pub mirror_matches : DatasetContext → ManagedTrustRoot → Bool
mirror_matches c r =
    c.managed
    && same_text c.version_id (some r.version_id)
    && same_text c.content_id (some r.content_id)

abbrev pub mirror_stale_for : ManagedTrustRoot → Option DatasetContext → Bool
mirror_stale_for r none = true
mirror_stale_for r (some c) = not (mirror_matches c r)

abbrev pub looks_managed : Option DatasetContext → Bool
looks_managed none = false
looks_managed (some c) = c.managed

abbrev pub decide : Option ManagedTrustRoot → Option DatasetContext → TrustDecision
decide (some r) mirror = record {
  authority = managed_authority;
  root = some r;
  reason_code = "ROOT_VALID";
  mirror_stale = mirror_stale_for r mirror;
}
decide none mirror =
    if looks_managed mirror
    then record {
      authority = fail_closed;
      root = none;
      reason_code = "MANAGED_MIRROR_WITHOUT_TRUST";
      mirror_stale = false;
    }
    else record {
      authority = unmanaged;
      root = none;
      reason_code = "UNMANAGED";
      mirror_stale = false;
    }

unfoldable pub resolve_trust_authority : Session → TrustDecision
unfolding get_valid_trust_root get_dataset_context
resolve_trust_authority s = decide (get_valid_trust_root s) (get_dataset_context s)

-- The change that `reconcile_managed_trust` makes; it then resolves the authority.
abbrev pub reconciled : TrustState → TrustState
reconciled t = elim (valid_root_of t) [
  | some r ↦ t
  | none ↦ elim t.root [ none ↦ t | some r ↦ record t { root = none; root_capability = none } ]
]

unfoldable pub reconcile_store : Session → Session
unfolding peek_state write_trust
reconcile_store s = elim (peek_state s) [ none ↦ s | some t ↦ write_trust (reconciled t) s ]

unfoldable pub reconcile_managed_trust : Session → Session × TrustDecision
unfolding reconcile_store resolve_trust_authority
reconcile_managed_trust s = (reconcile_store s, resolve_trust_authority (reconcile_store s))
