-- ===== src/Loading/Tests.antt =====
-- A session with a managed file, and the theorems at it.
use data_quality_toolkit.Prelude.{
  ℕ, ◌≡◌, refl, String, Bool, true, false, Option, none, some, List, [], ◌∷◌, length, ok, ◌==◌, eqb,
  if◌then◌else◌, strip, codes, concat, arith,
}
use data_quality_toolkit.Session.{
  CanonicalFrameKey, pos, ManagedTrustRoot, ManagedSourceLocator, TrustState, trust, Session,
}
use data_quality_toolkit.Session.Trust.{
  get_valid_trust_root, make_source_locator, admit_commit, commit_trust_root, RootRequest, root_at,
  run_invalidation_hooks, write_trust, committed,
}
use data_quality_toolkit.Loading.{LoadReason, content_mismatch, World, OptionValue}
use data_quality_toolkit.Loading.Options.{Options}
use data_quality_toolkit.Loading.Source.{
  exceeds_full, verify_managed_export_source, verify_managed_source, content_id_of,
}
use data_quality_toolkit.Loading.Caches.{Loader}
use data_quality_toolkit.Loading.Dispatch.{
  get_managed_header, ReadOutcome, frame, plain, Assessed, assessment, Assessment,
  get_managed_frame, get_managed_assessment,
}
use data_quality_toolkit.Loading.Gateway.{
  provenance_of, managed_export_available, build_verified_managed_export_source,
}
use data_quality_toolkit.Loading.Exportable.{any-eqb}
use data_quality_toolkit.Loading.Minted.{build_verified_managed_export_source_iff}
use data_quality_toolkit.Loading.Committed.{commit-export}
use data_quality_toolkit.Loading.Chunks.{content_id_of_whole}
use data_quality_toolkit.Loading.Stages.{verify_managed_source_iff}
use data_quality_toolkit.Loading.Frames.{IsAuthorized, IsServed, IsFramed, get_managed_frame_sound}
use data_quality_toolkit.Loading.Again.{get_managed_frame_again}
use data_quality_toolkit.Loading.Assessments.{IsKept, IsAnswered, get_managed_assessment_sound}
use data_quality_toolkit.Loading.Current.{
  IsCurrent, get_managed_header_sound, verify_managed_export_source_sound,
}
use data_quality_toolkit.Loading.Histories.{start, step, frame_served, Steps-IsKept}

abbrev locator : ManagedSourceLocator
locator = record {
  display_name = "raw.csv";
  relative_posix = "in/raw.csv";
  absolute_path = "/data/in/raw.csv";
}

abbrev request : RootRequest
request = record {
  version_id = "v";
  family_id = "f";
  content_id = "sha256:6162";
  root_content_id = "sha256:6162";
  parent_version_id = none;
  version_label = "Raw";
  locator = locator;
  size_bytes = pos 2;
  modified_ns = pos 7;
  large_file_mode = false;
}

abbrev held : ManagedTrustRoot
held = root_at 3 request

abbrev store : TrustState
store = record { capability = some 0; generation = 3; root = some held; root_capability = some 0 }

abbrev session : Session
session = record {
  entries = λ key. if key == "_dqt_managed_trust_state" then some (trust store) else none;
  mutations = 0;
  capabilities = 1;
  frame_cache = [];
}

-- The file has two bytes, and the "SHA-256" of them is their hexadecimal text.
abbrev world : World
world = record {
  resolve = λ path. some path;
  parts = λ path. "/" ∷ "data" ∷ "in" ∷ "raw.csv" ∷ [];
  posix_parts = λ path. "in" ∷ "raw.csv" ∷ [];
  normcase = λ path. path;
  stat = λ path. some (record { is_regular = true; st_size = pos 2; st_mtime_ns = pos 7 });
  read_bytes = λ path. some (97 ∷ 98 ∷ []);
  sha256_hex = λ bytes. if eqb (length bytes) 2 then "6162" else "00";
}

-- The file has grown.
abbrev later : World
later = record world {
  stat = λ path. some (record { is_regular = true; st_size = pos 3; st_mtime_ns = pos 7 });
}

abbrev digest : String → List (String × OptionValue Bool) → Option String
digest contract options = some contract

abbrev reader : String → Options Bool → ReadOutcome ℕ
reader path options = frame 42

abbrev assessor : ℕ → Assessed ℕ ℕ
assessor f = assessment (("score", plain f) ∷ [])

abbrev Seen : World → (String → Options Bool → ReadOutcome ℕ) → Type 0
Seen w r = (w ≡ world) × (r ≡ reader)

abbrev Judges : (ℕ → Assessed ℕ ℕ) → Type 0
Judges a = a ≡ assessor

abbrev loader : Loader ℕ (Assessment ℕ ℕ)
loader = record { session = session; frames = []; assessments = [] }

program : Unit {0}
unfolding get_managed_assessment managed_export_available build_verified_managed_export_source
    make_source_locator commit_trust_root verify_managed_source content_id_of strip
program = tt

verify_managed_source_iff_example :
    verify_managed_source world "/data/in/raw.csv" "in/raw.csv" (pos 2) (pos 7) (some "sha256:6162")
    ≡ none
unfolding program concat
verify_managed_source_iff_example =
    (verify_managed_source_iff world "/data/in/raw.csv" "in/raw.csv" (pos 2) (pos 7)
        (some "sha256:6162")).1
      (
        "/data/in/raw.csv",
        record { is_regular = true; st_size = pos 2; st_mtime_ns = pos 7 },
        refl,
        refl,
        refl,
        refl,
        refl,
        refl,
        refl,
        (97 ∷ 98 ∷ [], refl, refl),
      )

grown_file :
    ◌≡◌ {A = Option LoadReason}
      (verify_managed_source later "/data/in/raw.csv" "in/raw.csv" (pos 2) (pos 7) none)
      (some content_mismatch)
unfolding program
grown_file = refl

content_id_of_whole_example : content_id_of world (97 ∷ 98 ∷ []) ≡ "sha256:6162"
unfolding concat
content_id_of_whole_example = content_id_of_whole world (97 ∷ 98 ∷ [])

build_verified_managed_export_source_iff_example :
    build_verified_managed_export_source session ≡ ok (provenance_of held)
unfolding program
build_verified_managed_export_source_iff_example =
    (build_verified_managed_export_source_iff session (provenance_of held)).1 (
      held,
      refl,
      record {
        full_mode = refl;
        size = (2, refl, omega arith);
        version_filled = refl;
        family_filled = refl;
        content_filled = refl;
        root_content_filled = refl;
        label_filled = refl;
        name_filled = refl;
        relative_filled = refl;
        path_filled = refl;
        name_slash = (any-eqb b'/' (codes "raw.csv")).0 refl;
        name_backslash = (any-eqb 92 (codes "raw.csv")).0 refl;
        name_colon = (any-eqb b':' (codes "raw.csv")).0 refl;
        relative_backslash = (any-eqb 92 (codes "in/raw.csv")).0 refl;
        relative_colon = (any-eqb b':' (codes "in/raw.csv")).0 refl;
        relative_start = λ cs e. cc;
      },
      record {
        version_id = refl;
        family_id = refl;
        content_id = refl;
        root_content_id = refl;
        parent_version_id = refl;
        version_label = refl;
        display_name = refl;
        relative_posix = refl;
        size_bytes = refl;
        modified_ns = refl;
        large_file_mode = refl;
        source_path = refl;
      },
    )

abbrev after_commit : Session
unfolding write_trust
after_commit = run_invalidation_hooks (write_trust (committed 0 request store) session)

commit-export_example :
    build_verified_managed_export_source after_commit ≡ ok (provenance_of (root_at 4 request))
unfolding program after_commit admit_commit
commit-export_example =
    (commit-export 0 request session after_commit (root_at 4 request) " raw.csv" "in/raw.csv"
        "/data/in/raw.csv" refl refl).0
      refl

abbrev served : Loader ℕ (Assessment ℕ ℕ)
served = record {
  session = session;
  frames =
      (
        record {
          session_anchor = 0;
          version_id = "v";
          content_id = "sha256:6162";
          mode = "full";
          parser_fingerprint = "dqt-managed-parser/1";
        },
        42,
      )
      ∷ [];
  assessments = [];
}

serving : get_managed_frame digest world reader none loader ≡ ok (42, served)
unfolding program
serving = refl

loader-IsFramed : IsFramed digest Seen loader.frames
loader-IsFramed = (omega arith, tt)

get_managed_frame_sound_example :
    (key : CanonicalFrameKey) × IsAuthorized digest session none key
    × IsServed digest Seen world reader (refl, refl) key 42 loader served
get_managed_frame_sound_example =
    get_managed_frame_sound digest Seen world reader (refl, refl) none loader served 42
      loader-IsFramed serving

get_managed_frame_again_example :
    get_managed_frame digest later reader (some []) served ≡ ok (42, served)
unfolding program
get_managed_frame_again_example =
    get_managed_frame_again digest Seen world reader (refl, refl) none loader served 42
      loader-IsFramed serving later reader (some []) refl

get_managed_assessment_sound_example :
    IsAnswered digest Seen Judges world reader
      (refl, refl)
      assessor
      refl
      none
      none
      loader
      (get_managed_assessment digest world assessor reader none none loader)
get_managed_assessment_sound_example =
    get_managed_assessment_sound digest Seen Judges world reader (refl, refl) assessor refl none
      none loader (loader-IsFramed, omega arith, tt)

Steps-IsKept_example : IsKept digest Seen Judges served
Steps-IsKept_example =
    Steps-IsKept digest Seen Judges session
      (step start (frame_served world reader (refl, refl) none 42 serving))

abbrev header_reader : String → Options Bool → ReadOutcome (List String)
header_reader path options = frame ("a" ∷ "b" ∷ [])

get_managed_header_sound_example :
    (root : ManagedTrustRoot) × (get_valid_trust_root session ≡ some root)
    × (root.large_file_mode ≡ false)
    × (exceeds_full root.size_bytes ≡ false)
    × IsCurrent world root none
    × (header_reader root.locator.absolute_path none ≡ frame ("a" ∷ "b" ∷ []))
unfolding program get_managed_header
get_managed_header_sound_example =
    get_managed_header_sound world digest header_reader none loader ("a" ∷ "b" ∷ []) refl

verify_managed_export_source_sound_example :
    (root : ManagedTrustRoot) × (get_valid_trust_root session ≡ some root)
    × IsCurrent world root (some root.content_id)
unfolding program concat verify_managed_export_source
verify_managed_export_source_sound_example =
    verify_managed_export_source_sound session world (provenance_of held) refl refl
