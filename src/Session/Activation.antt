-- ===== src/Session/Activation.antt =====
-- The switch of the active dataset: `activate_dataset_context` and `clear_dataset_context` of
-- dataset_activation.py.
use data_quality_toolkit.Prelude.{
  ℕ, String, Bool, true, false, not, Option, none, some, List, [], ◌==◌, select, ok, err,
  if◌then◌else◌,
}
use data_quality_toolkit.Session.{
  DatasetContext, context, Entries, Session, state_mutation, Outcome, done, raised,
}
use data_quality_toolkit.Session.Slots.{
  dataset_context, src_dataset_id, export_csv_path, dataset_derived_state_keys, tracked_keys,
  get_dataset_context, mutate, and_then, discard_all, restore,
}
use data_quality_toolkit.Session.Contexts.{same_binding, validate_dataset_context}

pub data ActivationStatus : Type 0 where
  activated unchanged : ActivationStatus

pub record DatasetActivationResult : Type 0 where
  pub status : ActivationStatus
  pub cleared_keys : List String
  pub previous_managed : Bool
  pub new_managed : Bool
  pub previous_version_id : Option String
  pub new_version_id : Option String

-- `_FIRST_ACTIVATION_PRESERVED_KEYS`
abbrev pub is_preserved : String → Bool
is_preserved key = if key == src_dataset_id then true else key == export_csv_path

-- `_keys_to_invalidate`
abbrev pub keys_to_invalidate : Bool → List String
keys_to_invalidate had_prior_context =
    if had_prior_context
    then dataset_derived_state_keys
    else select (λ key. not (is_preserved key)) dataset_derived_state_keys

abbrev pub is_change : Option DatasetContext → DatasetContext → Bool
is_change none target = true
is_change (some current) target = not (same_binding current target)

abbrev pub has_context : Option DatasetContext → Bool
has_context none = false
has_context (some c) = true

-- The keys that a switch from `current` to `target` clears.
unfoldable pub cleared_for : Option DatasetContext → DatasetContext → List String
unfolding same_binding
cleared_for current target =
    if is_change current target then keys_to_invalidate (has_context current) else []

abbrev pub is_present : Entries → String → Bool
is_present m key = elim (m key) [ none ↦ false | some e ↦ true ]

abbrev pub was_managed : Option DatasetContext → Bool
was_managed none = false
was_managed (some c) = c.managed

abbrev pub version_of : Option DatasetContext → Option String
version_of none = none
version_of (some c) = c.version_id

abbrev pub activation_result : Session → DatasetContext → DatasetActivationResult
activation_result s target =
    let current = get_dataset_context s in
    record {
      status = if is_change current target then activated else unchanged;
      cleared_keys = select (is_present s.entries) (cleared_for current target);
      previous_managed = was_managed current;
      new_managed = target.managed;
      previous_version_id = version_of current;
      new_version_id = target.version_id;
    }

module _ (raises : ℕ → Bool) where
  -- The `except` clause: the keys of the snapshot get back what they had before.
  abbrev pub settle : {A : Type 0} → Session → A → Outcome (Unit {0}) → Outcome A
  settle before result (done u s) = done result s
  settle before result (raised e s) = elim (restore raises tracked_keys before.entries s) [
    | done u s' ↦ raised state_mutation s'
    | raised e' s' ↦ raised e' s'
  ]

  -- The body of `try` in `activate_dataset_context`.
  unfoldable pub switch : List String → DatasetContext → Session → Outcome (Unit {0})
  unfolding discard_all mutate
  switch keys target s =
      and_then raises (discard_all raises keys s)
        (mutate raises dataset_context (some (context target)))

  abbrev pub replace : DatasetContext → Session → Outcome DatasetActivationResult
  replace target s =
      settle s (activation_result s target)
        (switch (cleared_for (get_dataset_context s) target) target s)

  unfoldable pub activate_dataset_context :
      DatasetContext → Session → Outcome DatasetActivationResult
  unfolding validate_dataset_context get_dataset_context switch restore cleared_for
  activate_dataset_context target s = elim (validate_dataset_context target) [
    | err e ↦ raised e s
    | ok u ↦ replace target s
  ]

  unfoldable pub clear_dataset_context : Session → Outcome Bool
  unfolding get_dataset_context discard_all restore
  clear_dataset_context s =
      settle s (has_context (get_dataset_context s)) (discard_all raises tracked_keys s)
