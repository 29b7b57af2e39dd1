-- ===== src/Confirmation/Outcomes.antt =====
-- What the outcomes of `_execute_plan` stand for, and its failures.
use data_quality_toolkit.Prelude.{
  ◌≡◌, refl, ◌∙◌, String, Bool, true, false, none, some, List, [], ◌∷◌, All, ◌==◌, if◌then◌else◌,
}
use data_quality_toolkit.Confirmation.{
  Disk, OsError, file_exists, os_error, Storage, ConfirmationStatus, confirmed, saved_unmanaged,
  failed, DatasetConfirmationResult, ConfirmationPlan,
}
use data_quality_toolkit.Confirmation.Disks.{is_hardlink_unsupported, cleanup, retained_temp_labels}
use data_quality_toolkit.Confirmation.Publishing.{
  failed_with, Staged, staged_paths, refused_csv, capability_unsupported_with, clean_up,
}
use data_quality_toolkit.Confirmation.Keeping.{Keeps, cleanup-elsewhere, cleanup-Keeps}

module _ {D : Type 0} (plan : ConfirmationPlan D) where
  -- What a status stands for. A confirmed version is on the disk with all its files; a version that
  -- was saved has its data file, and no record; of a failed one nothing was published.
  abbrev pub EndsAs : ConfirmationStatus → Disk → DatasetConfirmationResult D → Disk → Type 0
  EndsAs confirmed d r e =
      (r.version_record ≡ some plan.version_record)
      × (e plan.csv_final ≡ some plan.csv_bytes)
      × (e plan.recipe_final ≡ some plan.recipe_bytes)
      × (e plan.sidecar_final ≡ some plan.sidecar_bytes)
  EndsAs saved_unmanaged d r e =
      (r.version_record ≡ none)
      × (e plan.csv_final ≡ some plan.csv_bytes)
      × (e plan.sidecar_final ≡ d plan.sidecar_final)
  EndsAs failed d r e =
      (r.version_record ≡ none)
      × (e plan.csv_final ≡ d plan.csv_final)
      × (e plan.recipe_final ≡ d plan.recipe_final)
      × (e plan.sidecar_final ≡ d plan.sidecar_final)

  -- In every case a file that was there is there, with its content.
  abbrev pub Ends : Disk → DatasetConfirmationResult D × Disk → Type 0
  Ends d out = Keeps d out.1 × EndsAs out.0.status d out.0 out.1

  abbrev pub IsOff : String → Type 0
  IsOff t =
      ((plan.csv_final == t) ≡ false)
      × ((plan.recipe_final == t) ≡ false)
      × ((plan.sidecar_final == t) ≡ false)

  -- A staging file, free before, that is none of the final ones.
  abbrev pub IsTemp : Disk → String → Type 0
  IsTemp d t = (d t ≡ none) × IsOff t

  abbrev pub SameFinals : Disk → Disk → Type 0
  SameFinals d e =
      (e plan.csv_final ≡ d plan.csv_final)
      × (e plan.recipe_final ≡ d plan.recipe_final)
      × (e plan.sidecar_final ≡ d plan.sidecar_final)

  module _ (storage : Storage) where
    pub frees : (d : Disk) (ts : List String) → All (IsTemp d) ts → All (λ t. d t ≡ none) ts
    frees d [] h = tt
    frees d (t ∷ ts) ((free, off), hs) = (free, frees d ts hs)

    pub cleaned :
        (d e : Disk) (ts : List String) → All (IsTemp d) ts → SameFinals e (cleanup storage ts e)
    cleaned d e ts h = (
      cleanup-elsewhere storage ts e plan.csv_final (csv ts h),
      cleanup-elsewhere storage ts e plan.recipe_final (recipe ts h),
      cleanup-elsewhere storage ts e plan.sidecar_final (sidecar ts h),
    )
      where
        csv : (ts : List String) → All (IsTemp d) ts → All (λ t. (plan.csv_final == t) ≡ false) ts
        csv [] h = tt
        csv (t ∷ ts) ((free, off), hs) = (off.0, csv ts hs)

        recipe :
            (ts : List String) → All (IsTemp d) ts → All (λ t. (plan.recipe_final == t) ≡ false) ts
        recipe [] h = tt
        recipe (t ∷ ts) ((free, off), hs) = (off.1, recipe ts hs)

        sidecar :
            (ts : List String) → All (IsTemp d) ts → All (λ t. (plan.sidecar_final == t) ≡ false) ts
        sidecar [] h = tt
        sidecar (t ∷ ts) ((free, off), hs) = (off.2, sidecar ts hs)

    -- A failure, before anything is published.
    pub failing :
        (d e : Disk) (ts : List String) (message : String)
        → All (IsTemp d) ts
        → Keeps d e
        → SameFinals d e
        → Ends d (failed_with message, cleanup storage ts e)
    failing d e ts message h k (a, b, c) =
        let (a', b', c') = cleaned d e ts h in
        (cleanup-Keeps storage ts d e (frees d ts h) k, (refl, a' ∙ a, b' ∙ b, c' ∙ c))

    pub refusing :
        (d e : Disk) (t : Staged) (x : OsError)
        → All (IsTemp d) (staged_paths t)
        → Keeps d e
        → SameFinals d e
        → Ends d (clean_up storage plan t (refused_csv storage (staged_paths t) x e, e))
    refusing d e t file_exists h k same =
        failing d e (staged_paths t) "Another file already occupies the processed dataset target." h
          k same
    refusing d e t (os_error errno winerror) h k (a, b, c) =
        by_capability (is_hardlink_unsupported storage.errno_of (os_error errno winerror))
      where
        by_capability :
            (u : Bool)
            → Ends d (
                clean_up storage plan t (
                  if u
                      then capability_unsupported_with storage
                          (retained_temp_labels storage (staged_paths t) e [])
                      else failed_with "Could not write the processed dataset.",
                  e,
                ))
        by_capability true = (k, (refl, a, b, c))
        by_capability false =
            failing d e (staged_paths t) "Could not write the processed dataset." h k (a, b, c)
