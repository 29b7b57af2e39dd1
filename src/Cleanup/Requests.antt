-- ===== src/Cleanup/Requests.antt =====
-- `execute_lifecycle_cleanup` of lifecycle_maintenance.py with what it calls.
use data_quality_toolkit.Prelude.{
  ℕ, String, Bool, true, false, not, ◌||◌, Option, none, some, List, [], ◌∷◌, ◌++◌, contains,
  length, ltb, ◌==◌, is_empty, if◌then◌else◌,
}
use data_quality_toolkit.Cleanup.{
  OsError, not_found, permission_denied, other_error, System, Location, TempArtifactLocator, Report,
  CleanupOutcome, deleted, skipped, unavailable, failed, CleanupItemResult, CleanupResult,
  completed, refused,
}
use data_quality_toolkit.Cleanup.Names.{safe_temp_label}
use data_quality_toolkit.Cleanup.Eligible.{eligible_temp, location_unchanged, referenced_paths}

abbrev pub generic_temp_label : String
generic_temp_label = "Temporary staging file"

abbrev pub max_cleanup_batch : ℕ
max_cleanup_batch = 20

abbrev pub item : String → String → CleanupOutcome → String → CleanupItemResult
item reference label outcome reason_code = record {
  reference = reference;
  label = label;
  outcome = outcome;
  reason_code = reason_code;
}

unfoldable pub temp_label : String → String
unfolding safe_temp_label
temp_label basename =
    let label = safe_temp_label basename in if is_empty label then generic_temp_label else label

-- `_selection`, with the references that were seen.
unfoldable pub select_from : List String → List String → List String
select_from seen [] = seen
select_from seen (r ∷ rs) =
    let skip = select_from seen rs in
    let keep = select_from (seen ++ r ∷ []) rs in
    if is_empty r || contains r seen then skip else keep

abbrev pub selection : List String → List String
selection = select_from []

abbrev pub no_location : Option Location → Bool
no_location none = true
no_location (some l) = false

abbrev pub no_selection : List String → Bool
no_selection [] = true
no_selection (r ∷ rs) = false

-- The empty code lets the request pass.
abbrev pub guard_request : Report → List String → Bool → String
guard_request report selected confirmed =
    if not confirmed
    then "NOT_CONFIRMED"
    else if not report.scanned || no_location report.location
    then "NOT_SCANNED"
    else if no_selection selected
    then "NOTHING_SELECTED"
    else if ltb max_cleanup_batch (length selected)
    then "BATCH_TOO_LARGE"
    else ""

-- `reference not in known` at the end, for each reference that was selected.
unfoldable pub unknown_items : List String → List String → List CleanupItemResult
unknown_items known [] = []
unknown_items known (r ∷ rs) =
    let rest = unknown_items known rs in
    if contains r known then rest else item r generic_temp_label skipped "UNKNOWN_SELECTION" ∷ rest

-- `known` after the loop: the references of the candidates that were chosen.
unfoldable pub known_references : List String → List TempArtifactLocator → List String
known_references chosen [] = []
known_references chosen (l ∷ ls) =
    let rest = known_references chosen ls in
    if contains l.reference chosen then l.reference ∷ rest else rest

abbrev pub after_unlink :
    {F : Type 0} → String → String → Option OsError × F → CleanupItemResult × F
after_unlink reference label (none, fs) = (item reference label deleted "DELETED", fs)
after_unlink reference label (some not_found, fs) =
    (item reference label unavailable "ALREADY_ABSENT", fs)
after_unlink reference label (some permission_denied, fs) =
    (item reference label failed "PERMISSION_DENIED", fs)
after_unlink reference label (some other_error, fs) =
    (item reference label failed "DELETE_FAILED", fs)

module _ {F : Type 0} (system : System F) where
  -- The comparison of a fresh locator with the one of the scan; the empty code is safe to delete.
  abbrev pub compare_locators : TempArtifactLocator → Option TempArtifactLocator → String
  compare_locators locator none = "NOT_ELIGIBLE"
  compare_locators locator (some fresh) =
      if not (fresh.reference == locator.reference)
      then "REFERENCE_MISMATCH"
      else if not (system.normcase fresh.resolved_path == system.normcase locator.resolved_path)
      then "PATH_CHANGED"
      else ""

  unfoldable pub revalidate : F → Location → TempArtifactLocator → ℕ → List String → String
  unfolding eligible_temp
  revalidate fs location locator now_ns referenced =
      compare_locators locator (eligible_temp system fs location locator.basename now_ns referenced)

  abbrev pub delete_unless : String → TempArtifactLocator → F → CleanupItemResult × F
  delete_unless reason locator fs =
      if is_empty reason
      then after_unlink locator.reference (temp_label locator.basename)
          (system.unlink fs locator.resolved_path)
      else (item locator.reference (temp_label locator.basename) skipped reason, fs)

  unfoldable pub delete_one :
      Location → ℕ → List String → TempArtifactLocator → F → CleanupItemResult × F
  unfolding revalidate temp_label
  delete_one location now_ns referenced locator fs =
      delete_unless (revalidate fs location locator now_ns referenced) locator fs

  abbrev pub cons_item : CleanupItemResult → List CleanupItemResult × F → List CleanupItemResult × F
  cons_item i (is, fs) = (i ∷ is, fs)

  -- The loop over the candidates.
  unfoldable pub delete_chosen :
      Location
      → ℕ
      → List String
      → List String
      → List TempArtifactLocator
      → F
      → List CleanupItemResult × F
  unfolding delete_one
  delete_chosen location now_ns referenced chosen [] fs = ([], fs)
  delete_chosen location now_ns referenced chosen (l ∷ ls) fs =
      let one = delete_one location now_ns referenced l fs in
      let more = delete_chosen location now_ns referenced chosen ls one.1 in
      let skip = delete_chosen location now_ns referenced chosen ls fs in
      if contains l.reference chosen then cons_item one.0 more else skip

  abbrev pub finish :
      List String → List TempArtifactLocator → List CleanupItemResult × F → CleanupResult × F
  finish selected candidates (items, fs) =
      (completed (items ++ unknown_items (known_references selected candidates) selected), fs)

  -- Past the guards.
  abbrev pub clean : Report → List String → ℕ → Location → F → CleanupResult × F
  clean report selected now_ns location fs =
      let referenced =
        referenced_paths system (system.discover_managed_versions fs location.root) in
      finish selected report.candidates
        (delete_chosen location now_ns referenced selected report.candidates fs)

  abbrev pub clean_at : Report → List String → ℕ → Option Location → F → CleanupResult × F
  clean_at report selected now_ns none fs = (refused "LOCATION_CHANGED", fs)
  clean_at report selected now_ns (some location) fs =
      if location_unchanged system fs location
      then clean report selected now_ns location fs
      else (refused "LOCATION_CHANGED", fs)

  unfoldable pub execute_lifecycle_cleanup : Report → List String → Bool → ℕ → F → CleanupResult × F
  unfolding delete_chosen location_unchanged referenced_paths unknown_items known_references
      select_from
  execute_lifecycle_cleanup report references confirmed now_ns fs =
      let selected = selection references in
      let refusal = guard_request report selected confirmed in
      if is_empty refusal
      then clean_at report selected now_ns report.location fs
      else (refused refusal, fs)
