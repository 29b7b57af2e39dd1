-- ===== src/Session/Cleared.antt =====
-- Which keys a switch of the active dataset in dataset_activation.py clears.
use data_quality_toolkit.Prelude.{
  ◌≡◌, refl, ap, ◌∙◌, String, Bool, true, false, Bool-cases, inl, inr, not, ◌&&◌, ◌||◌, Option,
  List, [], ◌∷◌, select, contains, ◌==◌, arith, eq_iff, if◌then◌else◌,
}
use data_quality_toolkit.Session.{DatasetContext}
use data_quality_toolkit.Session.Slots.{dataset_derived_state_keys}
use data_quality_toolkit.Session.Activation.{
  is_change, has_context, is_preserved, cleared_for, keys_to_invalidate,
}

contains-select :
    (p : String → Bool) (k : String) (xs : List String)
    → contains k (select p xs) ≡ (contains k xs && p k)
contains-select p k [] = refl
contains-select p k (x ∷ xs) = elim (Bool-cases (p x)) [
  | inl h ↦ rw h (ground (arith, eq_iff k x, contains-select p k xs, h))
  | inr h ↦ rw h (ground (arith, eq_iff k x, contains-select p k xs, h))
]

-- A switch clears the keys derived from a dataset, if the binding changes. Where there was no
-- context, it leaves the two that an operator may have entered before.
abbrev pub is_cleared : Option DatasetContext → DatasetContext → String → Bool
is_cleared current target k =
    is_change current target
    && contains k dataset_derived_state_keys
    && (has_context current || not (k == "src_dataset_id" || k == "export_csv_path"))

pub cleared_for_lem :
    (current : Option DatasetContext) (target : DatasetContext) (k : String)
    → contains k (cleared_for current target) ≡ is_cleared current target k
unfolding cleared_for
cleared_for_lem current target k = by_tests (is_change current target) (has_context current)
  where
    and_true : (b : Bool) → b ≡ (b && true)
    and_true true = refl
    and_true false = refl

    kept : Bool
    kept = not (k == "src_dataset_id" || k == "export_csv_path")

    or_if : (a b : Bool) → not (if a then true else b) ≡ not (a || b)
    or_if true b = refl
    or_if false b = refl

    by_tests :
        (change had : Bool)
        → contains k (if change then keys_to_invalidate had else [])
          ≡ (change && contains k dataset_derived_state_keys && (had || kept))
    by_tests false had = refl
    by_tests true true = and_true (contains k dataset_derived_state_keys)
    by_tests true false =
        contains-select (λ key. not (is_preserved key)) k dataset_derived_state_keys
        ∙ ap (λ b. contains k dataset_derived_state_keys && b)
            (or_if (k == "src_dataset_id") (k == "export_csv_path"))
