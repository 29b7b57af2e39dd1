-- ===== src/Session/Slots.antt =====
-- The keys of adapters/ui/state/keys.py and the mutations of the session mapping, with `_snapshot`
-- and `_restore` of dataset_activation.py.
use data_quality_toolkit.Prelude.{
  ℕ, suc, String, Bool, Option, none, some, List, [], ◌∷◌, ◌==◌, if◌then◌else◌,
}
use data_quality_toolkit.Session.{
  DatasetContext, context, trust, other, Entry, Entries, Session, mutation_failed, Outcome, done,
  raised,
}

abbrev pub dataset_context : String
dataset_context = "dataset_context"

abbrev pub managed_trust_state : String
managed_trust_state = "_dqt_managed_trust_state"

abbrev pub src_dataset_id : String
src_dataset_id = "src_dataset_id"

abbrev pub export_csv_path : String
export_csv_path = "export_csv_path"

abbrev pub dataset_derived_state_keys : List String
dataset_derived_state_keys =
    "biv_col1" ∷ "biv_col2" ∷ export_csv_path ∷ "prep_recipe_steps" ∷ src_dataset_id
    ∷ "prep_confirmed_version" ∷ []

abbrev pub tracked_keys : List String
tracked_keys = dataset_context ∷ dataset_derived_state_keys

abbrev pub update : String → Option Entry → Entries → Entries
update key e m = λ k. if key == k then e else m k

-- `isinstance(value, DatasetContext)` of `state.get(DATASET_CONTEXT)`
abbrev pub as_context : Option Entry → Option DatasetContext
as_context (some (context c)) = some c
as_context (some (trust t)) = none
as_context (some (other n)) = none
as_context none = none

unfoldable pub get_dataset_context : Session → Option DatasetContext
get_dataset_context s = as_context (s.entries dataset_context)

module _ (raises : ℕ → Bool) where
  -- `state[key] = value` or `del state[key]`. A mutation that raises has no effect.
  unfoldable pub mutate : String → Option Entry → Session → Outcome (Unit {0})
  mutate key e s =
      if raises s.mutations
      then raised mutation_failed (record s { mutations = suc s.mutations })
      else done tt (record s { mutations = suc s.mutations; entries = update key e s.entries })

  -- `if key in state: del state[key]`
  unfoldable pub discard : String → Session → Outcome (Unit {0})
  unfolding mutate
  discard key s = elim (s.entries key) [ none ↦ done tt s | some e ↦ mutate key none s ]

  abbrev pub and_then : Outcome (Unit {0}) → (Session → Outcome (Unit {0})) → Outcome (Unit {0})
  and_then (done u s) next = next s
  and_then (raised e s) next = raised e s

  -- `for key in keys: if key in state: del state[key]`
  unfoldable pub discard_all : List String → Session → Outcome (Unit {0})
  unfolding discard
  discard_all [] s = done tt s
  discard_all (key ∷ keys) s = and_then (discard key s) (discard_all keys)

  -- One key of `_restore`.
  abbrev pub put_back : String → Option Entry → Session → Outcome (Unit {0})
  put_back key none s = discard key s
  put_back key (some e) s = mutate key (some e) s

  -- `_restore(state, _snapshot(before))` for the keys that the snapshot has.
  unfoldable pub restore : List String → Entries → Session → Outcome (Unit {0})
  unfolding discard
  restore [] before s = done tt s
  restore (key ∷ keys) before s = and_then (put_back key (before key) s) (restore keys before)
