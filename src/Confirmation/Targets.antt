-- ===== src/Confirmation/Targets.antt =====
-- `_reserve_linked_targets`: the three final paths of a version.
use data_quality_toolkit.Prelude.{
  ℕ, zero, suc, String, Bool, not, ◌||◌, concat, decimal, Result, ok, err, [], ◌∷◌, if◌then◌else◌,
}
use data_quality_toolkit.Confirmation.Parent.{InputError, outside_workspace, too_many_versions}

abbrev pub max_collision_suffix : ℕ
max_collision_suffix = 1000

pub record Targets : Type 0 where
  pub csv : String
  pub recipe : String
  pub sidecar : String

unfoldable pub candidate : String → ℕ → String
unfolding concat decimal
candidate stem zero = stem
candidate stem (suc n) = concat (stem ∷ "-" ∷ decimal (suc n) ∷ [])

-- `root / folder / name` of pathlib, `_is_within` for the workspace, and `Path.exists`.
module _ (join : String → String → String) (is_within exists : String → Bool) where
  abbrev pub targets_for : String → Targets
  targets_for name = record {
    csv = join "preprocessed" (concat (name ∷ ".csv" ∷ []));
    recipe = join "recipes" (concat (name ∷ ".json" ∷ []));
    sidecar = join "preprocessed" (concat (name ∷ ".csv" ∷ ".dqtv.json" ∷ []));
  }

  abbrev pub is_outside : Targets → Bool
  is_outside t = not (is_within t.csv) || not (is_within t.recipe) || not (is_within t.sidecar)

  abbrev pub is_taken : Targets → Bool
  is_taken t = exists t.csv || exists t.recipe || exists t.sidecar

  -- The rounds that are left, and the index.
  unfoldable pub reserve_from : ℕ → String → ℕ → Result InputError Targets
  unfolding candidate
  reserve_from zero stem index = err too_many_versions
  reserve_from (suc rounds) stem index =
      let rest = reserve_from rounds stem (suc index) in
      let t = targets_for (candidate stem index) in
      if is_outside t then err outside_workspace else if is_taken t then rest else ok t

  unfoldable pub reserve_linked_targets : String → Result InputError Targets
  unfolding reserve_from
  reserve_linked_targets stem = reserve_from (suc max_collision_suffix) stem 0
