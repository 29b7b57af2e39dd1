-- ===== src/Confirmation/Reserving.antt =====
-- What `_reserve_linked_targets` of dataset_confirmation.py returns, in terms of the paths that the
-- candidates lead to.
use data_quality_toolkit.Prelude.{
  ℕ, zero, suc, ◌+◌, ◌<◌, ◌≡◌, refl, sym, ap, subst, Bool-cases, inl, inr, String, Bool, true,
  false, not, ◌||◌, concat, decimal, eqb, [], ◌∷◌, Result, ok, err, arith, if◌then◌else◌,
}
use data_quality_toolkit.Confirmation.Parent.{InputError, outside_workspace, too_many_versions}
use data_quality_toolkit.Confirmation.Targets.{
  Targets, candidate, targets_for, is_outside, is_taken, reserve_from, reserve_linked_targets,
}

-- The stem, and then the stem with a dash and 1, 2, 3, ... after it.
abbrev pub nth_name : String → ℕ → String
nth_name stem j = if eqb j 0 then stem else concat (stem ∷ "-" ∷ decimal j ∷ [])

module _ (join : String → String → String) (is_within exists : String → Bool) (stem : String) where
  abbrev pub csv_at : ℕ → String
  csv_at j = join "preprocessed" (concat (nth_name stem j ∷ ".csv" ∷ []))

  abbrev pub recipe_at : ℕ → String
  recipe_at j = join "recipes" (concat (nth_name stem j ∷ ".json" ∷ []))

  abbrev pub sidecar_at : ℕ → String
  sidecar_at j = join "preprocessed" (concat (nth_name stem j ∷ ".csv.dqtv.json" ∷ []))

  -- The three paths of a name lie in the workspace.
  abbrev pub IsInside : ℕ → Type 0
  IsInside j =
      (is_within (csv_at j) ≡ true)
      × (is_within (recipe_at j) ≡ true)
      × (is_within (sidecar_at j) ≡ true)

  -- Nothing is at the three paths of a name.
  abbrev pub IsFree : ℕ → Type 0
  IsFree j =
      (exists (csv_at j) ≡ false) × (exists (recipe_at j) ≡ false) × (exists (sidecar_at j) ≡ false)

  -- The names before the given one lead into the workspace, and each has something at one of its
  -- paths.
  abbrev pub AreTaken : ℕ → Type 0
  AreTaken n = (i : ℕ) → i < n → IsInside i × (¬ (IsFree i))

  -- The targets are the paths of the first free name; the refusals are for a name outside the
  -- workspace, before which no name is free, and for 1001 names that are not free.
  abbrev pub IsReservation : Result InputError Targets → Type 0
  IsReservation (ok t) =
      (j : ℕ) × (j < 1001)
      × AreTaken j
      × IsInside j
      × IsFree j
      × (t.csv ≡ csv_at j)
      × (t.recipe ≡ recipe_at j)
      × (t.sidecar ≡ sidecar_at j)
  IsReservation (err outside_workspace) = (j : ℕ) × (j < 1001) × AreTaken j × (¬ (IsInside j))
  IsReservation (err too_many_versions) = AreTaken 1001
  IsReservation (err _) = ⊥

  abbrev targets_at : ℕ → Targets
  targets_at j = record { csv = csv_at j; recipe = recipe_at j; sidecar = sidecar_at j }

  targets_for-candidate :
      (j : ℕ) → targets_at j ≡ targets_for join is_within exists (candidate stem j)
  unfolding candidate
  targets_for-candidate j = ap (targets_for join is_within exists) (named j)
    where
      named : (j : ℕ) → nth_name stem j ≡ candidate stem j
      named zero = refl
      named (suc j) = ground arith

  all_within :
      (a b c : Bool) → (not a || not b || not c) ≡ false → (a ≡ true) × (b ≡ true) × (c ≡ true)
  all_within true true true h = (refl, refl, refl)
  all_within false b c h = ground (arith, h)
  all_within true false c h = ground (arith, h)
  all_within true true false h = cc

  none_there : (a b c : Bool) → (a || b || c) ≡ false → (a ≡ false) × (b ≡ false) × (c ≡ false)
  none_there a b c h = ground (arith, h)

  AreTaken-next : (n : ℕ) → AreTaken n → IsInside n → ¬ (IsFree n) → AreTaken (suc n)
  AreTaken-next n before inside taken i lt = elim (Bool-cases (eqb i n)) [
    | inl e ↦ subst (λ k. IsInside k × (¬ (IsFree k))) (sym (same i e)) (inside, taken)
    | inr d ↦ before i (earlier i lt d)
  ]
    where
      same : (i : ℕ) → eqb i n ≡ true → i ≡ n
      same i e = ground (arith, e)

      earlier : (i : ℕ) → i < suc n → eqb i n ≡ false → i < n
      earlier i lt d = ground (arith, lt, d)

  one_round :
      (index : ℕ) (rest : Result InputError Targets)
      → index < 1001
      → AreTaken index
      → (AreTaken (suc index) → IsReservation rest)
      → (t : Targets) → targets_at index ≡ t
      → IsReservation (
          if is_outside join is_within exists t
          then err outside_workspace
          else if is_taken join is_within exists t
          then rest
          else ok t)
  one_round index rest lt before later t e =
      subst
        (λ t. IsReservation (
          if is_outside join is_within exists t
          then err outside_workspace
          else if is_taken join is_within exists t
          then rest
          else ok t))
        e
        (by_tests (is_outside join is_within exists (targets_at index))
          (is_taken join is_within exists (targets_at index)) refl refl)
    where
      by_tests :
          (a b : Bool)
          → is_outside join is_within exists (targets_at index) ≡ a
          → is_taken join is_within exists (targets_at index) ≡ b
          → IsReservation
              (if a then err outside_workspace else if b then rest else ok (targets_at index))
      by_tests true b f g = (index, lt, before, λ h. ground (arith, f, h))
      by_tests false true f g =
          later (AreTaken-next index before (all_within _ _ _ f) (λ h. ground (arith, g, h)))
      by_tests false false f g =
          (index, lt, before, all_within _ _ _ f, none_there _ _ _ g, refl, refl, refl)

  reserve_from-IsReservation :
      (rounds index : ℕ)
      → index + rounds ≡ 1001
      → AreTaken index
      → IsReservation (reserve_from join is_within exists rounds stem index)
  unfolding reserve_from
  reserve_from-IsReservation zero index h before = subst AreTaken (sum index h) before
    where
      sum : (k : ℕ) → k + zero ≡ 1001 → k ≡ 1001
      sum k h = omega (arith, h)
  reserve_from-IsReservation (suc rounds) index h before =
      one_round index (reserve_from join is_within exists rounds stem (suc index))
        (omega (arith, h)) before (reserve_from-IsReservation rounds (suc index) (omega (arith, h)))
        (targets_for join is_within exists (candidate stem index)) (targets_for-candidate index)

  -- The targets that are reserved are the CSV, the recipe and the sidecar path of the first of the
  -- names `stem`, `stem-1`, ..., `stem-1000` with nothing at any of the three, and lie in the
  -- workspace, as do those of the names before it. The refusal for a path outside the workspace means
  -- that a name leads outside and none before it is free; that for too many versions means that all
  -- 1001 names lead inside and none is free. There is no other refusal.
  pub reserve_linked_targets-IsReservation :
      IsReservation (reserve_linked_targets join is_within exists stem)
  unfolding reserve_linked_targets
  reserve_linked_targets-IsReservation =
      reserve_from-IsReservation 1001 0 refl (λ i lt. absurd (omega (arith, lt)))
