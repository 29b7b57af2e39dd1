-- ===== src/Session/Validity.antt =====
-- What the operations of managed_trust.py do to the valid root and to the generation, and that a
-- switch of the dataset context leaves the trust store alone.
use data_quality_toolkit.Prelude.{
  ℕ, ◌≡◌, refl, ◌∙◌, String, Bool, false, Option, none, some, List, [], ◌∷◌, ◌++◌, contains, arith,
  Result, ok, err,
}
use data_quality_toolkit.Session.{
  DatasetContext, Entries, Session, SessionError, state_mutation, Outcome, done, raised,
  session_after,
}
use data_quality_toolkit.Session.Slots.{
  dataset_context, managed_trust_state, tracked_keys, get_dataset_context, discard_all, restore,
}
use data_quality_toolkit.Session.Contexts.{validate_dataset_context}
use data_quality_toolkit.Session.Activation.{
  DatasetActivationResult, activation_result, has_context, cleared_for, settle, switch, replace,
  activate_dataset_context, clear_dataset_context,
}
use data_quality_toolkit.Session.Restoring.{Ran, discard_all-Ran, restore-Ran}
use data_quality_toolkit.Session.Atomicity.{swept, switch-Ran, cleared_tracked}

module _ (raises : ℕ → Bool) where
  Ran-off :
      (keys : List String) (after : Entries) (s : Session) (o : Outcome (Unit {0})) (k : String)
      → Ran raises keys after s o
      → contains k keys ≡ false
      → after k ≡ s.entries k
      → (session_after o).entries k ≡ s.entries k
  Ran-off keys after s (done u s') k ran c off = ran.0 k ∙ off
  Ran-off keys after s (raised e s') k ran c off = ran.1 k c

  -- A key that is not tracked keeps its entry, however many mutations raise.
  settle-keeps :
      (A : Type 0) (result : A) (s : Session) (o : Outcome (Unit {0})) (k : String)
      → contains k tracked_keys ≡ false
      → (session_after o).entries k ≡ s.entries k
      → (session_after (settle raises s result o)).entries k ≡ s.entries k
  settle-keeps A result s (done u s') k c h = h
  settle-keeps A result s (raised e s') k c h = through (restore raises tracked_keys s.entries s') (
      Ran-off tracked_keys _ s' (restore raises tracked_keys s.entries s') k
        (restore-Ran raises tracked_keys s.entries s') c (rw c refl))
    where
      through :
          (o : Outcome (Unit {0}))
          → (session_after o).entries k ≡ s'.entries k
          → (session_after (elim o as (λ o. Outcome A) [
            | done u s'' ↦ raised state_mutation s''
            | raised e s'' ↦ raised e s''
          ])).entries
              k
            ≡ s.entries k
      through (done u s'') g = g ∙ h
      through (raised e s'') g = g ∙ h

  not_cleared :
      (current : Option DatasetContext) (target : DatasetContext)
      → contains managed_trust_state (cleared_for current target) ≡ false
  unfolding cleared_for
  not_cleared none target = ground arith
  not_cleared (some current) target = ground arith

  pub activate-keeps :
      (target : DatasetContext) (s : Session)
      → (session_after (activate_dataset_context raises target s)).entries managed_trust_state
        ≡ s.entries managed_trust_state
  unfolding activate_dataset_context
  activate-keeps target s = by_validation (validate_dataset_context target)
    where
      by_validation :
          (v : Result SessionError (Unit {0}))
          → (session_after (elim v as (λ v. Outcome DatasetActivationResult) [
            | err e ↦ raised e s
            | ok u ↦ replace raises target s
          ])).entries
              managed_trust_state
            ≡ s.entries managed_trust_state
      by_validation (err e) = refl
      by_validation (ok u) =
          settle-keeps DatasetActivationResult (activation_result s target) s
            (switch raises (cleared_for (get_dataset_context s) target) target s)
            managed_trust_state refl
            (Ran-off (cleared_for (get_dataset_context s) target ++ dataset_context ∷ [])
              (swept target s) s _ managed_trust_state
              (switch-Ran raises (cleared_for (get_dataset_context s) target) target s)
              (cleared_tracked raises (get_dataset_context s) target managed_trust_state refl)
              (rw (not_cleared (get_dataset_context s) target) refl))

  pub clear-keeps :
      (s : Session)
      → (session_after (clear_dataset_context raises s)).entries managed_trust_state
        ≡ s.entries managed_trust_state
  unfolding clear_dataset_context
  clear-keeps s =
      settle-keeps Bool (has_context (get_dataset_context s)) s (discard_all raises tracked_keys s)
        managed_trust_state refl
        (Ran-off tracked_keys _ s (discard_all raises tracked_keys s) managed_trust_state
          (discard_all-Ran raises tracked_keys s) refl refl)
