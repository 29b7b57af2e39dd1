-- ===== src/Confirmation/Tests.antt =====
-- A plan with its disk, and the theorems at them.
use data_quality_toolkit.Prelude.{
  ℕ, ◌≡◌, refl, ◌⊎◌, String, Bool, true, false, Option, none, some, [], ◌∷◌, ◌==◌, ok,
  if◌then◌else◌, concat,
}
use data_quality_toolkit.Versions.{int, csv, preprocess_recipe, VersionRecord}
use data_quality_toolkit.Session.{pos, DatasetContext, ManagedTrustRoot, TrustState, trust, Session}
use data_quality_toolkit.Session.Slots.{get_dataset_context}
use data_quality_toolkit.Session.Trust.{get_valid_trust_root, looks_managed}
use data_quality_toolkit.Confirmation.{
  Disk, os_error, written, Storage, confirmed, ConfirmationPlan,
}
use data_quality_toolkit.Confirmation.Parent.{
  context_from_trust_root, resolve_confirmation_parent, build_lineage,
}
use data_quality_toolkit.Confirmation.Targets.{Targets, reserve_linked_targets}
use data_quality_toolkit.Confirmation.Reserving.{
  IsReservation, reserve_linked_targets-IsReservation,
}
use data_quality_toolkit.Confirmation.Descent.{
  lineage_from, resolve_confirmation_parent_sound, confirmation-lineage,
}
use data_quality_toolkit.Confirmation.Publishing.{execute_plan}
use data_quality_toolkit.Confirmation.Outcomes.{Ends}
use data_quality_toolkit.Confirmation.Registration.{execute_plan-Ends}

abbrev made : VersionRecord ℕ
made = record {
  schema_version = int 1;
  version_id = "v";
  family_id = "f";
  root_content_id = "c";
  content_id = "c";
  dataset_id = "d";
  label = "Cleaned";
  file_relative_path = "preprocessed/x.csv";
  format = csv;
  size_bytes = 1;
  created_at = 7;
  created_by = preprocess_recipe;
  mtime_ns = none;
  parent = none;
  recipe = none;
}

abbrev plan : ConfirmationPlan ℕ
plan = record {
  version_record = made;
  root_abs = "/w";
  csv_final = "/w/preprocessed/x.csv";
  recipe_final = "/w/recipes/x.json";
  sidecar_final = "/w/preprocessed/x.csv.dqtv.json";
  csv_bytes = 1 ∷ [];
  recipe_bytes = 2 ∷ [];
  sidecar_bytes = 3 ∷ [];
}

-- Of a disk that holds no more than the files of the plan, these are free.
abbrev temp_name : String → Disk → String
temp_name final d =
    if final == "/w/preprocessed/x.csv"
    then "a.tmp"
    else if final == "/w/recipes/x.json"
    then "b.tmp"
    else "c.tmp"

abbrev storage : Storage
storage = record {
  temp_for = temp_name;
  staging = λ final. written;
  link_fault = λ final. none;
  unlink_fails = λ path. false;
  stat_fails = λ path. false;
  errno_of = λ name. if name == "EPERM" then some 1 else none;
  name_of = λ path. path;
  relative_to = λ path root. some path;
  uuid_hex = λ id. some id;
}

-- The file system has no hard links.
abbrev linkless : Storage
linkless = record storage { link_fault = λ final. some (os_error 1 none) }

-- The recipe's path is taken.
abbrev disk : Disk
disk = λ p. if p == "/w/recipes/x.json" then some (9 ∷ []) else none

abbrev empty_disk : Disk
empty_disk = λ p. none

program : Unit {0}
unfolding execute_plan reserve_linked_targets resolve_confirmation_parent build_lineage
program = tt

unlinked :
    ((execute_plan linkless plan empty_disk).0.capability_unsupported ≡ true)
    × ((execute_plan linkless plan empty_disk).1 "a.tmp" ≡ some (1 ∷ []))
unfolding program
unlinked = (refl, refl)

registered : (execute_plan storage plan empty_disk).0.status ≡ confirmed
unfolding program
registered = refl

execute_plan-Ends_example : Ends plan disk (execute_plan storage plan disk)
unfolding execute_plan
execute_plan-Ends_example =
    execute_plan-Ends plan storage disk
      ((refl, (refl, refl, refl)), (refl, (refl, refl, refl)), (refl, (refl, refl, refl)))
      (refl, refl)

abbrev join : String → String → String
join folder name = concat ("/w/" ∷ folder ∷ "/" ∷ name ∷ [])

-- The sidecar of the first candidate is there.
abbrev exists : String → Bool
exists path = path == "/w/preprocessed/x.csv.dqtv.json"

abbrev reserved : Targets
reserved = record {
  csv = "/w/preprocessed/x-1.csv";
  recipe = "/w/recipes/x-1.json";
  sidecar = "/w/preprocessed/x-1.csv.dqtv.json";
}

first_free : reserve_linked_targets join (λ path. true) exists "x" ≡ ok reserved
unfolding program concat
first_free = refl

reserve_linked_targets-IsReservation_example :
    IsReservation join (λ path. true) exists "x" (ok reserved)
unfolding program concat
reserve_linked_targets-IsReservation_example =
    reserve_linked_targets-IsReservation join (λ path. true) exists "x"

abbrev held : ManagedTrustRoot
held = record {
  generation = 1;
  version_id = "v";
  family_id = "f";
  content_id = "c";
  root_content_id = "r";
  parent_version_id = none;
  version_label = "Raw";
  locator = record {
    display_name = "raw.csv";
    relative_posix = "raw.csv";
    absolute_path = "/w/raw.csv";
  };
  size_bytes = pos 2;
  modified_ns = pos 7;
  large_file_mode = false;
}

abbrev store : TrustState
store = record { capability = some 0; generation = 1; root = some held; root_capability = some 0 }

abbrev session : Session
session = record {
  entries = λ key. if key == "_dqt_managed_trust_state" then some (trust store) else none;
  mutations = 0;
  capabilities = 1;
  frame_cache = [];
}

confirmation-lineage_example :
    (resolve_confirmation_parent (some session) none ≡ ok (some (context_from_trust_root held)))
    × (build_lineage "new" (λ path. none) (context_from_trust_root held) ≡ ok (lineage_from held))
unfolding get_valid_trust_root
confirmation-lineage_example =
    confirmation-lineage session held none "new" (λ path. none) refl refl refl refl refl

resolve_confirmation_parent_sound_example :
    ((root : ManagedTrustRoot) × (get_valid_trust_root session ≡ some root)
      × (some (context_from_trust_root held) ≡ some (context_from_trust_root root)))
    ⊎ ((get_valid_trust_root session ≡ none)
        × (looks_managed (get_dataset_context session) ≡ false)
        × (◌≡◌ {A = Option DatasetContext} (some (context_from_trust_root held)) none))
unfolding program
resolve_confirmation_parent_sound_example =
    resolve_confirmation_parent_sound session none (some (context_from_trust_root held)) refl
