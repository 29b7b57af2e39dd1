-- ===== src/Confirmation/Publishing.antt =====
-- `_finalize` and `_execute_plan`. They raise nothing but what the clean-up and the links are asked
-- about here.
use data_quality_toolkit.Prelude.{
  String, true, false, Option, none, some, List, [], ◌∷◌, concat, Result, ok, err, if◌then◌else◌,
}
use data_quality_toolkit.Confirmation.{
  Disk, OsError, file_exists, os_error, Storage, confirmed, saved_unmanaged, failed,
  DatasetConfirmationResult, ConfirmationPlan,
}
use data_quality_toolkit.Confirmation.Disks.{
  is_hardlink_unsupported, capability_guidance, format_short_version, relative_display, write_temp,
  publish_exclusive, cleanup, retained_temp_labels,
}

-- `_failed`
abbrev pub failed_with : {D : Type 0} → String → DatasetConfirmationResult D
failed_with message = record {
  status = failed;
  version_record = none;
  csv_relative_path = "";
  recipe_relative_path = "";
  sidecar_relative_path = "";
  csv_path = "";
  message = message;
  capability_unsupported = false;
  temp_artifact_labels = [];
}

-- The three staging files.
pub record Staged : Type 0 where
  pub csv_tmp : String
  pub recipe_tmp : String
  pub sidecar_tmp : String

abbrev pub staged_paths : Staged → List String
staged_paths t = t.csv_tmp ∷ t.recipe_tmp ∷ t.sidecar_tmp ∷ []

module _ {D : Type 0} (storage : Storage) where
  -- `_capability_unsupported`
  abbrev pub capability_unsupported_with : List String → DatasetConfirmationResult D
  capability_unsupported_with labels = record {
    status = failed;
    version_record = none;
    csv_relative_path = "";
    recipe_relative_path = "";
    sidecar_relative_path = "";
    csv_path = "";
    message = capability_guidance labels;
    capability_unsupported = true;
    temp_artifact_labels = labels;
  }

  -- `_saved_unmanaged`
  abbrev pub saved_unmanaged_for : ConfirmationPlan D → DatasetConfirmationResult D
  saved_unmanaged_for plan = record {
    status = saved_unmanaged;
    version_record = none;
    csv_relative_path = relative_display storage plan.csv_final plan.root_abs;
    recipe_relative_path = "";
    sidecar_relative_path = "";
    csv_path = "";
    message = concat (
        "Files were saved, but lifecycle confirmation did not complete. "
        ∷ "This output is not a confirmed version." ∷ []);
    capability_unsupported = false;
    temp_artifact_labels = [];
  }

  abbrev pub confirmed_for : ConfirmationPlan D → DatasetConfirmationResult D
  confirmed_for plan = record {
    status = confirmed;
    version_record = some plan.version_record;
    csv_relative_path = relative_display storage plan.csv_final plan.root_abs;
    recipe_relative_path = relative_display storage plan.recipe_final plan.root_abs;
    sidecar_relative_path = relative_display storage plan.sidecar_final plan.root_abs;
    csv_path = plan.csv_final;
    message = concat (
        "Confirmed version "
        ∷ plan.version_record.label
        ∷ " ("
        ∷ format_short_version storage.uuid_hex plan.version_record.version_id
        ∷ ")."
        ∷ []);
    capability_unsupported = false;
    temp_artifact_labels = [];
  }

  abbrev pub refused_csv : List String → OsError → Disk → DatasetConfirmationResult D
  refused_csv staged file_exists d =
      failed_with "Another file already occupies the processed dataset target."
  refused_csv staged (os_error errno winerror) d =
      if is_hardlink_unsupported storage.errno_of (os_error errno winerror)
      then capability_unsupported_with (retained_temp_labels storage staged d [])
      else failed_with "Could not write the processed dataset."

  module _ (plan : ConfirmationPlan D) where
    abbrev pub after_sidecar : Disk → Result OsError Disk → DatasetConfirmationResult D × Disk
    after_sidecar d (err e) = (saved_unmanaged_for plan, d)
    after_sidecar d (ok d') = (confirmed_for plan, d')

    abbrev pub after_recipe :
        Staged → Disk → Result OsError Disk → DatasetConfirmationResult D × Disk
    after_recipe t d (err e) = (saved_unmanaged_for plan, d)
    after_recipe t d (ok d') =
        after_sidecar d' (publish_exclusive storage t.sidecar_tmp plan.sidecar_final d')

    abbrev pub after_csv : Staged → Disk → Result OsError Disk → DatasetConfirmationResult D × Disk
    after_csv t d (err e) = (refused_csv (staged_paths t) e d, d)
    after_csv t d (ok d') =
        after_recipe t d' (publish_exclusive storage t.recipe_tmp plan.recipe_final d')

    unfoldable pub finalize_files : Staged → Disk → DatasetConfirmationResult D × Disk
    unfolding publish_exclusive retained_temp_labels capability_guidance format_short_version concat
    finalize_files t d = after_csv t d (publish_exclusive storage t.csv_tmp plan.csv_final d)

    abbrev pub not_staged : List String → Disk → DatasetConfirmationResult D × Disk
    not_staged staged d = (
      failed_with "Could not stage the processed version for confirmation.",
      cleanup storage staged d,
    )

    -- The `finally` of `_execute_plan`.
    abbrev pub clean_up :
        Staged → DatasetConfirmationResult D × Disk → DatasetConfirmationResult D × Disk
    clean_up t (outcome, d) =
        (outcome, if outcome.capability_unsupported then d else cleanup storage (staged_paths t) d)

    abbrev pub staged_three :
        String → String → Option String × Disk → DatasetConfirmationResult D × Disk
    staged_three t1 t2 (none, d) = not_staged (t1 ∷ t2 ∷ []) d
    staged_three t1 t2 (some t3, d) =
        let t : Staged = record { csv_tmp = t1; recipe_tmp = t2; sidecar_tmp = t3 } in
        clean_up t (finalize_files t d)

    abbrev pub staged_two : String → Option String × Disk → DatasetConfirmationResult D × Disk
    staged_two t1 (none, d) = not_staged (t1 ∷ []) d
    staged_two t1 (some t2, d) =
        staged_three t1 t2 (write_temp storage plan.sidecar_final plan.sidecar_bytes d)

    abbrev pub staged_one : Option String × Disk → DatasetConfirmationResult D × Disk
    staged_one (none, d) = not_staged [] d
    staged_one (some t1, d) =
        staged_two t1 (write_temp storage plan.recipe_final plan.recipe_bytes d)

    unfoldable pub execute_plan : Disk → DatasetConfirmationResult D × Disk
    unfolding finalize_files write_temp cleanup
    execute_plan d = staged_one (write_temp storage plan.csv_final plan.csv_bytes d)
