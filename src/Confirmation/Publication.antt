-- ===== src/Confirmation/Publication.antt =====
-- How `_finalize` ends.
use data_quality_toolkit.Prelude.{
  ◌≡◌, refl, sym, ◌∙◌, subst, false, some, All, ◌==◌, Result, ok, err,
}
use data_quality_toolkit.Confirmation.{Disk, OsError, Storage, ConfirmationPlan}
use data_quality_toolkit.Confirmation.Disks.{publish_exclusive}
use data_quality_toolkit.Confirmation.Publishing.{
  Staged, staged_paths, after_sidecar, after_recipe, after_csv, finalize_files, clean_up,
  saved_unmanaged_for,
}
use data_quality_toolkit.Confirmation.Keeping.{
  Keeps, Keeps-trans, set_self, cleanup-Keeps, publish_exclusive-ok, set-Keeps,
}
use data_quality_toolkit.Confirmation.Outcomes.{Ends, IsTemp, SameFinals, cleaned, frees, refusing}

module _ {D : Type 0} (plan : ConfirmationPlan D) where
  module _ (storage : Storage) where
    -- The three final paths differ from the sidecar's.
    abbrev pub IsApart : Type 0
    IsApart =
        ((plan.sidecar_final == plan.csv_final) ≡ false)
        × ((plan.sidecar_final == plan.recipe_final) ≡ false)

    -- What holds of the disk once the data file is published.
    abbrev IsSaved : Disk → Disk → Type 0
    IsSaved d e =
        Keeps d e
        × (e plan.csv_final ≡ some plan.csv_bytes)
        × (e plan.sidecar_final ≡ d plan.sidecar_final)

    module _ (d : Disk) (t : Staged) (temps : All (IsTemp plan d) (staged_paths t)) where
      saving :
          (e : Disk)
          → IsSaved d e
          → Ends plan d (clean_up storage plan t (saved_unmanaged_for storage plan, e))
      saving e (k, csv, sidecar) =
          let (a, b, c) = cleaned plan storage d e (staged_paths t) temps in
          (
            cleanup-Keeps storage (staged_paths t) d e (frees plan storage d (staged_paths t) temps)
                k,
            (refl, a ∙ csv, c ∙ sidecar),
          )

      after_sidecar-Ends :
          (e : Disk)
          → IsSaved d e
          → e plan.recipe_final ≡ some plan.recipe_bytes
          → e t.sidecar_tmp ≡ some plan.sidecar_bytes
          → (r : Result OsError Disk)
          → publish_exclusive storage t.sidecar_tmp plan.sidecar_final e ≡ r
          → Ends plan d (clean_up storage plan t (after_sidecar storage plan e r))
      after_sidecar-Ends e saved recipe held (err x) q = saving e saved
      after_sidecar-Ends e (k, csv, sidecar) recipe held (ok e') q =
          let (free, is) =
            publish_exclusive-ok storage t.sidecar_tmp plan.sidecar_final e e' plan.sidecar_bytes
              held q in
          let kept : Keeps e e' =
            subst (Keeps e) (sym is) (set-Keeps plan.sidecar_final plan.sidecar_bytes e free) in
          let (a, b, c) = cleaned plan storage d e' (staged_paths t) temps in
          (
            cleanup-Keeps storage (staged_paths t) d e'
                (frees plan storage d (staged_paths t) temps) (Keeps-trans d e e' k kept),
            (
              refl,
              a ∙ kept plan.csv_final plan.csv_bytes csv,
              b ∙ kept plan.recipe_final plan.recipe_bytes recipe,
              c
                  ∙ subst (λ (x : Disk). x plan.sidecar_final ≡ some plan.sidecar_bytes) (sym is)
                      (set_self plan.sidecar_final plan.sidecar_bytes e),
            ),
          )

      after_recipe-Ends :
          IsApart
          → (e : Disk) → IsSaved d e
          → e t.recipe_tmp ≡ some plan.recipe_bytes
          → e t.sidecar_tmp ≡ some plan.sidecar_bytes
          → (r : Result OsError Disk)
          → publish_exclusive storage t.recipe_tmp plan.recipe_final e ≡ r
          → Ends plan d (clean_up storage plan t (after_recipe storage plan t e r))
      after_recipe-Ends apart e saved held held' (err x) q = saving e saved
      after_recipe-Ends apart e (k, csv, sidecar) held held' (ok e') q =
          let (free, is) =
            publish_exclusive-ok storage t.recipe_tmp plan.recipe_final e e' plan.recipe_bytes held
              q in
          let kept : Keeps e e' =
            subst (Keeps e) (sym is) (set-Keeps plan.recipe_final plan.recipe_bytes e free) in
          after_sidecar-Ends e'
            (
              Keeps-trans d e e' k kept,
              kept plan.csv_final plan.csv_bytes csv,
              subst (λ (x : Disk). x plan.sidecar_final ≡ e plan.sidecar_final) (sym is)
                    (simp (apart.1))
                  ∙ sidecar,
            )
            (subst (λ (x : Disk). x plan.recipe_final ≡ some plan.recipe_bytes) (sym is)
              (set_self plan.recipe_final plan.recipe_bytes e))
            (kept t.sidecar_tmp plan.sidecar_bytes held')
            (publish_exclusive storage t.sidecar_tmp plan.sidecar_final e') refl

      after_csv-Ends :
          IsApart
          → (e : Disk) → Keeps d e
          → SameFinals plan d e
          → e t.csv_tmp ≡ some plan.csv_bytes
          → e t.recipe_tmp ≡ some plan.recipe_bytes
          → e t.sidecar_tmp ≡ some plan.sidecar_bytes
          → (r : Result OsError Disk) → publish_exclusive storage t.csv_tmp plan.csv_final e ≡ r
          → Ends plan d (clean_up storage plan t (after_csv storage plan t e r))
      after_csv-Ends apart e k same held held' held'' (err x) q =
          refusing plan storage d e t x temps k same
      after_csv-Ends apart e k (a, b, c) held held' held'' (ok e') q =
          let (free, is) =
            publish_exclusive-ok storage t.csv_tmp plan.csv_final e e' plan.csv_bytes held q in
          let kept : Keeps e e' =
            subst (Keeps e) (sym is) (set-Keeps plan.csv_final plan.csv_bytes e free) in
          after_recipe-Ends apart e'
            (
              Keeps-trans d e e' k kept,
              subst (λ (x : Disk). x plan.csv_final ≡ some plan.csv_bytes) (sym is)
                  (set_self plan.csv_final plan.csv_bytes e),
              subst (λ (x : Disk). x plan.sidecar_final ≡ e plan.sidecar_final) (sym is)
                    (simp (apart.0))
                  ∙ c,
            )
            (kept t.recipe_tmp plan.recipe_bytes held')
            (kept t.sidecar_tmp plan.sidecar_bytes held'')
            (publish_exclusive storage t.recipe_tmp plan.recipe_final e') refl

      pub finalize_files-Ends :
          IsApart
          → (e : Disk) → Keeps d e
          → SameFinals plan d e
          → e t.csv_tmp ≡ some plan.csv_bytes
          → e t.recipe_tmp ≡ some plan.recipe_bytes
          → e t.sidecar_tmp ≡ some plan.sidecar_bytes
          → Ends plan d (clean_up storage plan t (finalize_files storage plan t e))
      unfolding finalize_files
      finalize_files-Ends apart e k same held held' held'' =
          after_csv-Ends apart e k same held held' held''
            (publish_exclusive storage t.csv_tmp plan.csv_final e) refl
