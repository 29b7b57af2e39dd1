-- ===== src/Loading/Dispatch.antt =====
-- `get_managed_frame`, `get_managed_header` and `get_managed_assessment`. The readers and the assessor
-- do not touch the session or the caches.
use data_quality_toolkit.Prelude.{
  ℕ, String, Bool, true, false, Option, none, some, List, any, Result, ok, err, ◌>>=◌, ◌>>◌,
  if◌then◌else◌,
}
use data_quality_toolkit.Session.{CanonicalFrameKey, ManagedTrustRoot, Session}
use data_quality_toolkit.Session.Trust.{
  peek_state, resolve_trust_authority, TrustAuthority, managed_authority, unmanaged, fail_closed,
}
use data_quality_toolkit.Loading.{
  LoadReason, no_valid_trust, no_session_capability, large_mode_refused, large_header_refused,
  full_size_exceeded, parse_failed, assessment_invalid, LoadError, refused, assessor_raised,
  AssessmentKey, World, OptionValue,
}
use data_quality_toolkit.Loading.Options.{
  Options, compute_parser_fingerprint, compute_assessment_fingerprint, fingerprint_of,
}
use data_quality_toolkit.Loading.Source.{exceeds_full, verify_managed_source}
use data_quality_toolkit.Loading.Caches.{
  frame_cache_max_entries, assessment_cache_max_entries, same_frame_key, same_assessment_key, get,
  bounded_store, Loader,
}

-- How a call of a reader ends.
pub data ReadOutcome (F : Type 0) : Type 0 where
  frame : F → ReadOutcome F
  not_a_frame read_failed : ReadOutcome F
  load_refused : LoadReason → ReadOutcome F

-- A value of the mapping that an assessor returns.
pub data AssessedValue (A F : Type 0) : Type 0 where
  plain : A → AssessedValue A F
  a_frame : F → AssessedValue A F

pub data Assessed (A F : Type 0) : Type 0 where
  assessment : List (String × AssessedValue A F) → Assessed A F
  not_a_mapping assessor_failed : Assessed A F

abbrev pub is_frame : {A F : Type 0} → AssessedValue A F → Bool
is_frame (plain a) = false
is_frame (a_frame f) = true

unfoldable pub peek_session_capability : Session → Option ℕ
unfolding peek_state
peek_session_capability s = elim (peek_state s) [ none ↦ none | some t ↦ t.capability ]

-- `TrustDecision.managed`
abbrev pub is_managed : TrustAuthority → Bool
is_managed managed_authority = true
is_managed unmanaged = false
is_managed fail_closed = false

abbrev pub root_if : Bool → Option ManagedTrustRoot → Result LoadReason ManagedTrustRoot
root_if true (some root) = ok root
root_if true none = err no_valid_trust
root_if false root = err no_valid_trust

abbrev pub capability_of : Option ℕ → Result LoadReason ℕ
capability_of (some capability) = ok capability
capability_of none = err no_session_capability

-- `_require_managed_authority`
unfoldable pub require_managed_authority : Session → Result LoadReason (ManagedTrustRoot × ℕ)
unfolding resolve_trust_authority peek_session_capability
require_managed_authority s = do
  let decision = resolve_trust_authority s
  root ← root_if (is_managed decision.authority) decision.root
  capability ← capability_of (peek_session_capability s)
  ok (root, capability)

abbrev pub refuse_if : Bool → LoadReason → Result LoadReason (Unit {0})
refuse_if true reason = err reason
refuse_if false reason = ok tt

abbrev pub refuse_for : Option LoadReason → Result LoadReason (Unit {0})
refuse_for none = ok tt
refuse_for (some reason) = err reason

abbrev pub read_result : {F : Type 0} → ReadOutcome F → Result LoadReason F
read_result (frame f) = ok f
read_result not_a_frame = err parse_failed
read_result read_failed = err parse_failed
read_result (load_refused reason) = err reason

-- `_revalidate_source`: the content is not hashed.
unfoldable pub revalidate_source : World → ManagedTrustRoot → Option LoadReason
unfolding verify_managed_source
revalidate_source world root =
    verify_managed_source world root.locator.absolute_path root.locator.relative_posix
      root.size_bytes root.modified_ns none

abbrev pub frame_key : ℕ → ManagedTrustRoot → String → CanonicalFrameKey
frame_key capability root parser_fp = record {
  session_anchor = capability;
  version_id = root.version_id;
  content_id = root.content_id;
  mode = "full";
  parser_fingerprint = parser_fp;
}

abbrev pub assessed_result :
    {A F : Type 0} → Assessed A F → Result LoadError (List (String × AssessedValue A F))
assessed_result not_a_mapping = err (refused assessment_invalid)
assessed_result assessor_failed = err assessor_raised
assessed_result {A} {F} (assessment items) =
    if any (λ (item : String × AssessedValue A F). is_frame item.1) items
    then err (refused assessment_invalid)
    else ok items

module _ {V F A : Type 0} (digest : String → List (String × OptionValue V) → Option String)
    (world : World) where
  -- A refusal leaves the session and the caches as they are.
  -- A miss: the source is checked again, read, and the frame is stored.
  abbrev pub load_frame :
      (reader : String → Options V → ReadOutcome F)
      → Options V
      → ManagedTrustRoot
      → CanonicalFrameKey
      → Loader F A
      → Result LoadReason (F × Loader F A)
  load_frame reader options root key s = do
    refuse_for (revalidate_source world root)
    f ← read_result (reader root.locator.absolute_path options)
    ok (
      f,
      record s { frames = bounded_store same_frame_key s.frames key f frame_cache_max_entries },
    )

  abbrev pub cached_or_load :
      (reader : String → Options V → ReadOutcome F)
      → Options V
      → ManagedTrustRoot
      → CanonicalFrameKey
      → Loader F A
      → Option F
      → Result LoadReason (F × Loader F A)
  cached_or_load reader options root key s (some cached) = ok (cached, s)
  cached_or_load reader options root key s none = load_frame reader options root key s

  unfoldable pub get_managed_frame :
      (reader : String → Options V → ReadOutcome F)
      → Options V
      → Loader F A
      → Result LoadReason (F × Loader F A)
  unfolding require_managed_authority fingerprint_of revalidate_source get bounded_store
  get_managed_frame reader options s = do
    (root, capability) ← require_managed_authority s.session
    refuse_if root.large_file_mode large_mode_refused
    refuse_if (exceeds_full root.size_bytes) full_size_exceeded
    parser_fp ← compute_parser_fingerprint digest options
    let key = frame_key capability root parser_fp
    cached_or_load reader options root key s (get same_frame_key key s.frames)

  unfoldable pub get_managed_header :
      (reader : String → Options V → ReadOutcome (List String))
      → Options V
      → Loader F A
      → Result LoadReason (List String)
  unfolding require_managed_authority revalidate_source
  get_managed_header reader options s = do
    (root, capability) ← require_managed_authority s.session
    refuse_if root.large_file_mode large_header_refused
    refuse_if (exceeds_full root.size_bytes) full_size_exceeded
    refuse_for (revalidate_source world root)
    read_result (reader root.locator.absolute_path options)

abbrev pub Assessment : Type 0 → Type 0 → Type 0
Assessment A F = List (String × AssessedValue A F)

module _ {V F A : Type 0} (digest : String → List (String × OptionValue V) → Option String)
    (world : World) where
  abbrev pub store_assessment :
      AssessmentKey
      → Loader F (Assessment A F)
      → Result LoadError (Assessment A F)
      → Result LoadError (Assessment A F) × Loader F (Assessment A F)
  store_assessment key s (err e) = (err e, s)
  store_assessment key s (ok items) = (
    ok items,
    record s {
      assessments =
          bounded_store same_assessment_key s.assessments key items assessment_cache_max_entries;
    },
  )

  -- Where the assessor fails, the frame stays in its cache.
  abbrev pub assess_frame :
      (assessor : F → Assessed A F)
      → AssessmentKey
      → Loader F (Assessment A F)
      → Result LoadReason (F × Loader F (Assessment A F))
      → Result LoadError (Assessment A F) × Loader F (Assessment A F)
  assess_frame assessor key s (err reason) = (err (refused reason), s)
  assess_frame assessor key s (ok (f, s')) = store_assessment key s' (assessed_result (assessor f))

  abbrev pub cached_or_assess :
      (assessor : F → Assessed A F)
      → (reader : String → Options V → ReadOutcome F) → Options V
      → Loader F (Assessment A F)
      → AssessmentKey
      → Option (Assessment A F)
      → Result LoadError (Assessment A F) × Loader F (Assessment A F)
  cached_or_assess assessor reader options s key (some cached) = (ok cached, s)
  cached_or_assess assessor reader options s key none =
      assess_frame assessor key s (get_managed_frame digest world reader options s)

  unfoldable pub assessment_key_for :
      Options V → Options V → Loader F (Assessment A F) → Result LoadReason AssessmentKey
  unfolding require_managed_authority fingerprint_of
  assessment_key_for options assessment_options s = do
    (root, capability) ← require_managed_authority s.session
    refuse_if root.large_file_mode large_mode_refused
    parser_fp ← compute_parser_fingerprint digest options
    assessment_fp ← compute_assessment_fingerprint digest assessment_options
    ok (record {
      frame_key = frame_key capability root parser_fp;
      assessment_fingerprint = assessment_fp;
    })

  abbrev pub assess_at :
      (assessor : F → Assessed A F)
      → (reader : String → Options V → ReadOutcome F) → Options V
      → Loader F (Assessment A F)
      → Result LoadReason AssessmentKey
      → Result LoadError (Assessment A F) × Loader F (Assessment A F)
  assess_at assessor reader options s (err reason) = (err (refused reason), s)
  assess_at assessor reader options s (ok key) =
      cached_or_assess assessor reader options s key (get same_assessment_key key s.assessments)

  unfoldable pub get_managed_assessment :
      (assessor : F → Assessed A F)
      → (reader : String → Options V → ReadOutcome F) → Options V
      → Options V
      → Loader F (Assessment A F)
      → Result LoadError (Assessment A F) × Loader F (Assessment A F)
  unfolding get_managed_frame assessment_key_for get bounded_store
  get_managed_assessment assessor reader options assessment_options s =
      assess_at assessor reader options s (assessment_key_for options assessment_options s)
