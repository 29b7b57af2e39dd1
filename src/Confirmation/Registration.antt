-- ===== src/Confirmation/Registration.antt =====
-- How `_execute_plan` ends.
use data_quality_toolkit.Prelude.{
  ◌≡◌, refl, sym, ◌∙◌, ap, subst, String, Option, none, some, [], ◌∷◌,
}
use data_quality_toolkit.Confirmation.{Bytes, Disk, Storage, ConfirmationPlan}
use data_quality_toolkit.Confirmation.Disks.{write_temp}
use data_quality_toolkit.Confirmation.Publishing.{
  staged_three, staged_two, staged_one, execute_plan,
}
use data_quality_toolkit.Confirmation.Keeping.{
  Keeps, Keeps-trans, Keeps-free, write_temp-Keeps, write_temp-elsewhere, write_temp-some,
}
use data_quality_toolkit.Confirmation.Outcomes.{Ends, IsOff, IsTemp, SameFinals, failing}
use data_quality_toolkit.Confirmation.Publication.{IsApart, finalize_files-Ends}

module _ {D : Type 0} (plan : ConfirmationPlan D) where
  module _ (storage : Storage) where
    -- The name that `mkstemp` gives for a final path is free, and none of the final ones.
    abbrev pub GivesTemp : String → Disk → Type 0
    GivesTemp final e =
        (e (storage.temp_for final e) ≡ none) × IsOff plan (storage.temp_for final e)

    -- So it is for the three files, each on the disk as it is by then.
    abbrev pub GivesTemps : Disk → Type 0
    GivesTemps d =
        let d1 = (write_temp storage plan.csv_final plan.csv_bytes d).1 in
        GivesTemp plan.csv_final d
        × GivesTemp plan.recipe_final d1
        × GivesTemp plan.sidecar_final (write_temp storage plan.recipe_final plan.recipe_bytes d1).1

    module _ (d : Disk) where
      -- What holds of the disk while the files are staged.
      abbrev IsStaged : Disk → Type 0
      IsStaged e = Keeps d e × SameFinals plan d e

      write_temp-IsStaged :
          (final : String) (payload : Bytes) (e : Disk)
          → GivesTemp final e
          → IsStaged e
          → IsStaged (write_temp storage final payload e).1
      write_temp-IsStaged final payload e (free, off) (k, (a, b, c)) = (
        Keeps-trans d e (write_temp storage final payload e).1 k
            (write_temp-Keeps storage final payload e free),
        (
          write_temp-elsewhere storage final payload e plan.csv_final off.0 ∙ a,
          write_temp-elsewhere storage final payload e plan.recipe_final off.1 ∙ b,
          write_temp-elsewhere storage final payload e plan.sidecar_final off.2 ∙ c,
        ),
      )

      write_temp-IsTemp :
          (final : String) (payload : Bytes) (e : Disk)
          → GivesTemp final e
          → IsStaged e
          → (t : String) → (write_temp storage final payload e).0 ≡ some t
          → IsTemp plan d t × ((write_temp storage final payload e).1 t ≡ some payload)
      write_temp-IsTemp final payload e (free, off) (k, same) t h =
          let (is, held) = write_temp-some storage final payload e t h in
          (
            (
              Keeps-free d e k t (subst (λ x. e x ≡ none) (sym is) free),
              subst (IsOff plan) (sym is) off,
            ),
            held,
          )

      module _ (apart : IsApart plan storage) where
        staged_three-Ends :
            (t1 t2 : String) (e : Disk)
            → IsTemp plan d t1
            → IsTemp plan d t2
            → GivesTemp plan.sidecar_final e
            → IsStaged e
            → e t1 ≡ some plan.csv_bytes
            → e t2 ≡ some plan.recipe_bytes
            → (w : Option String × Disk)
            → write_temp storage plan.sidecar_final plan.sidecar_bytes e ≡ w
            → Ends plan d (staged_three storage plan t1 t2 w)
        staged_three-Ends t1 t2 e temp1 temp2 names staged held1 held2 (none, e') q =
            let (k, same) =
              subst (λ (w : Option String × Disk). IsStaged w.1) q
                (write_temp-IsStaged plan.sidecar_final plan.sidecar_bytes e names staged) in
            failing plan storage d e' (t1 ∷ t2 ∷ [])
              "Could not stage the processed version for confirmation." (temp1, (temp2, tt)) k same
        staged_three-Ends t1 t2 e temp1 temp2 names staged held1 held2 (some t3, e') q =
            let (k, same) =
              subst (λ (w : Option String × Disk). IsStaged w.1) q
                (write_temp-IsStaged plan.sidecar_final plan.sidecar_bytes e names staged) in
            let keep : Keeps e e' =
              subst (λ (w : Option String × Disk). Keeps e w.1) q
                (write_temp-Keeps storage plan.sidecar_final plan.sidecar_bytes e names.0) in
            let (temp3, held3) =
              write_temp-IsTemp plan.sidecar_final plan.sidecar_bytes e names staged t3
                (ap (λ (w : Option String × Disk). w.0) q) in
            finalize_files-Ends plan storage d
              (record { csv_tmp = t1; recipe_tmp = t2; sidecar_tmp = t3 })
              (temp1, (temp2, (temp3, tt))) apart e' k same (keep t1 plan.csv_bytes held1)
              (keep t2 plan.recipe_bytes held2)
              (subst (λ (w : Option String × Disk). w.1 t3 ≡ some plan.sidecar_bytes) q held3)

        staged_two-Ends :
            (t1 : String) (e : Disk)
            → IsTemp plan d t1
            → GivesTemp plan.recipe_final e
            → GivesTemp plan.sidecar_final
                (write_temp storage plan.recipe_final plan.recipe_bytes e).1
            → IsStaged e
            → e t1 ≡ some plan.csv_bytes
            → (w : Option String × Disk)
            → write_temp storage plan.recipe_final plan.recipe_bytes e ≡ w
            → Ends plan d (staged_two storage plan t1 w)
        staged_two-Ends t1 e temp1 names names' staged held1 (none, e') q =
            let (k, same) =
              subst (λ (w : Option String × Disk). IsStaged w.1) q
                (write_temp-IsStaged plan.recipe_final plan.recipe_bytes e names staged) in
            failing plan storage d e' (t1 ∷ [])
              "Could not stage the processed version for confirmation." (temp1, tt) k same
        staged_two-Ends t1 e temp1 names names' staged held1 (some t2, e') q =
            let staged' =
              subst (λ (w : Option String × Disk). IsStaged w.1) q
                (write_temp-IsStaged plan.recipe_final plan.recipe_bytes e names staged) in
            let keep : Keeps e e' =
              subst (λ (w : Option String × Disk). Keeps e w.1) q
                (write_temp-Keeps storage plan.recipe_final plan.recipe_bytes e names.0) in
            let (temp2, held2) =
              write_temp-IsTemp plan.recipe_final plan.recipe_bytes e names staged t2
                (ap (λ (w : Option String × Disk). w.0) q) in
            staged_three-Ends t1 t2 e' temp1 temp2
              (subst (λ (w : Option String × Disk). GivesTemp plan.sidecar_final w.1) q names')
              staged' (keep t1 plan.csv_bytes held1)
              (subst (λ (w : Option String × Disk). w.1 t2 ≡ some plan.recipe_bytes) q held2)
              (write_temp storage plan.sidecar_final plan.sidecar_bytes e') refl

        staged_one-Ends :
            GivesTemps d
            → (w : Option String × Disk) → write_temp storage plan.csv_final plan.csv_bytes d ≡ w
            → Ends plan d (staged_one storage plan w)
        staged_one-Ends (names, names', names'') (none, e') q =
            let (k, same) =
              subst (λ (w : Option String × Disk). IsStaged w.1) q
                (write_temp-IsStaged plan.csv_final plan.csv_bytes d names
                  (λ p b h. h, (refl, refl, refl))) in
            failing plan storage d e' [] "Could not stage the processed version for confirmation."
              tt k same
        staged_one-Ends (names, names', names'') (some t1, e') q =
            let start : IsStaged d = (λ p b h. h, (refl, refl, refl)) in
            let staged' =
              subst (λ (w : Option String × Disk). IsStaged w.1) q
                (write_temp-IsStaged plan.csv_final plan.csv_bytes d names start) in
            let (temp1, held1) =
              write_temp-IsTemp plan.csv_final plan.csv_bytes d names start t1
                (ap (λ (w : Option String × Disk). w.0) q) in
            staged_two-Ends t1 e' temp1
              (subst (λ (w : Option String × Disk). GivesTemp plan.recipe_final w.1) q names')
              (subst
                (λ (w : Option String × Disk).
                  GivesTemp plan.sidecar_final
                    (write_temp storage plan.recipe_final plan.recipe_bytes w.1).1)
                q names'')
              staged' (subst (λ (w : Option String × Disk). w.1 t1 ≡ some plan.csv_bytes) q held1)
              (write_temp storage plan.recipe_final plan.recipe_bytes e') refl

  -- However staging, links and removals fail, and whatever stands at the final paths: a file that was
  -- on the disk is there afterwards with its content. A confirmed version has its record and its
  -- three files; one that was saved unmanaged has its data file but no record, and the path of the
  -- sidecar is as it was; of a failed one nothing was published. The sidecar's path differs from the
  -- other two, and each name that `mkstemp` gives is free then and none of the final ones.
  pub execute_plan-Ends :
      (storage : Storage)
      → (d : Disk) → GivesTemps storage d
      → IsApart plan storage
      → Ends plan d (execute_plan storage plan d)
  unfolding execute_plan
  execute_plan-Ends storage d names apart =
      staged_one-Ends storage d apart names (write_temp storage plan.csv_final plan.csv_bytes d)
        refl
