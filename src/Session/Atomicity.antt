-- ===== src/Session/Atomicity.antt =====
-- The switch and the clearing of the active dataset in dataset_activation.py take place as a whole
-- or not at all, where at most one mutation of the session raises.
use data_quality_toolkit.Prelude.{
  ◌==◌, eq_iff, ℕ, ◌≡◌, ◌∙◌, refl, ◌⊎◌, inl, inr, String, Bool, true, false, Bool-cases, Option,
  none, some, List, [], ◌∷◌, ◌++◌, contains, arith, Result, ok, err, if◌then◌else◌,
}
use data_quality_toolkit.Session.{
  DatasetContext, context, Entries, Session, SessionError, state_mutation, Outcome, done, raised,
}
use data_quality_toolkit.Session.Slots.{
  dataset_context, tracked_keys, update, get_dataset_context, mutate, discard_all, restore,
}
use data_quality_toolkit.Session.Contexts.{validate_dataset_context}
use data_quality_toolkit.Session.Activation.{
  DatasetActivationResult, has_context, cleared_for, activation_result, settle, switch, replace,
  activate_dataset_context, clear_dataset_context,
}
use data_quality_toolkit.Session.Cleared.{is_cleared, cleared_for_lem}
use data_quality_toolkit.Session.Restoring.{
  Fault, Ran, mutate-Ran, and_then-Ran, same_after, discard_all-Ran, restore-Ran,
}

-- At most one mutation raises.
abbrev pub OneFault : (ℕ → Bool) → Type 0
OneFault raises = (i j : ℕ) → raises i ≡ true → raises j ≡ true → i ≡ j

abbrev pub Unchanged : Session → Session → Type 0
Unchanged s s' = (k : String) → s'.entries k ≡ s.entries k

-- The entries after a switch to `target`, by the list of keys that the code clears.
abbrev pub swept : DatasetContext → Session → Entries
swept target s =
    update dataset_context (some (context target))
      (λ k. if contains k (cleared_for (get_dataset_context s) target) then none else s.entries k)

-- The entries that a switch to `target` should leave.
abbrev pub switched : DatasetContext → Session → Entries
switched target s k =
    if k == dataset_context
    then some (context target)
    else if is_cleared (get_dataset_context s) target k
    then none
    else s.entries k

swept-switched :
    (target : DatasetContext) (s : Session) (k : String) → swept target s k ≡ switched target s k
swept-switched target s k =
    rw (cleared_for_lem (get_dataset_context s) target k)
      (flip (dataset_context == k) (k == dataset_context) same)
  where
    same : (dataset_context == k) ≡ (k == dataset_context)
    same = ground (arith, eq_iff dataset_context k, eq_iff k dataset_context)

    flip :
        (a b : Bool)
        → a ≡ b
        → (if a
            then some (context target)
            else if is_cleared (get_dataset_context s) target k
            then none
            else s.entries k)
          ≡ (if b
              then some (context target)
              else if is_cleared (get_dataset_context s) target k
              then none
              else s.entries k)
    flip a b h = rw h refl

module _ (raises : ℕ → Bool) where
  -- A run with `settle` round it.
  abbrev pub Whole : {A : Type 0} → Entries → Session → A → Outcome A → Type 0
  Whole after s result (done r s') = (r ≡ result) × ((k : String) → s'.entries k ≡ after k)
  Whole after s result (raised e s') =
      (e ≡ state_mutation) × Unchanged s s' × Fault raises s.mutations s'.mutations

  restored :
      {A : Type 0} (result : A) (keys : List String) (after : Entries) (s s' : Session)
      (o : Outcome (Unit {0}))
      → OneFault raises
      → Ran raises tracked_keys
          (λ k. if contains k tracked_keys then s.entries k else s'.entries k)
          s'
          o
      → Fault raises s.mutations s'.mutations
      → ((k : String) → contains k tracked_keys ≡ false → s'.entries k ≡ s.entries k)
      → Whole after s result
          (elim o [ done u s'' ↦ raised state_mutation s'' | raised e s'' ↦ raised e s'' ])
  restored result keys after s s' (done u s'') one ran (n, h, lo, hi) keeps = (
    refl,
    λ k. back k (Bool-cases (contains k tracked_keys)),
    (n, h, lo, omega (arith, hi, ran.1)),
  )
    where
      back :
          (k : String)
          → (contains k tracked_keys ≡ true) ⊎ (contains k tracked_keys ≡ false)
          → s''.entries k ≡ s.entries k
      back k (inl c) = cc (ran.0 k, c)
      back k (inr c) = cc (ran.0 k, c, keeps k c)
  restored result keys after s s' (raised e s'') one ((m, g, lo', hi'), off) (n, h, lo, hi) keeps =
      absurd (omega (arith, one m n g h, lo', hi))

  settle-Whole :
      {A : Type 0} (result : A) (keys : List String) (after : Entries) (s : Session)
      (o : Outcome (Unit {0}))
      → OneFault raises
      → ((k : String) → contains k tracked_keys ≡ false → contains k keys ≡ false)
      → Ran raises keys after s o
      → Whole after s result (settle raises s result o)
  settle-Whole result keys after s (done u s') one within ran = (refl, ran.0)
  settle-Whole result keys after s (raised e s') one within (fault, off) =
      restored result keys after s s' (restore raises tracked_keys s.entries s') one
        (restore-Ran raises tracked_keys s.entries s') fault (λ k c. off k (within k c))

  pub switch-Ran :
      (keys : List String) (target : DatasetContext) (s : Session)
      → Ran raises
          (keys ++ dataset_context ∷ [])
          (update dataset_context
            (some (context target))
            (λ k. if contains k keys then none else s.entries k))
          s
          (switch raises keys target s)
  unfolding switch
  switch-Ran keys target s =
      and_then-Ran raises keys (dataset_context ∷ [])
        (λ k. if contains k keys then none else s.entries k) _ s (discard_all raises keys s)
        (mutate raises dataset_context (some (context target))) (discard_all-Ran raises keys s)
        (λ k c. rw c refl)
        (λ s' h.
          same_after raises (dataset_context ∷ []) _ _ s'
            (mutate raises dataset_context (some (context target)) s') (λ k. cc (h k))
            (mutate-Ran raises dataset_context (some (context target)) s'))

  -- The keys that a switch may change are tracked.
  pub cleared_tracked :
      (current : Option DatasetContext) (target : DatasetContext) (k : String)
      → contains k tracked_keys ≡ false
      → contains k (cleared_for current target ++ dataset_context ∷ []) ≡ false
  unfolding cleared_for
  cleared_tracked none target k c = ground (arith, c)
  cleared_tracked (some current) target k c = ground (arith, c)

  -- What `activate_dataset_context` may end in. If it returns, the context was valid, the result
  -- tells the switch, the pointer is the target, the keys of the switch are gone and every other
  -- key is as it was. If it raises, no key has changed: the context is not valid, or a mutation
  -- failed.
  abbrev pub Activated : DatasetContext → Session → Outcome DatasetActivationResult → Type 0
  Activated target s (done r s') =
      (validate_dataset_context target ≡ ok tt)
      × (r ≡ activation_result s target)
      × ((k : String) → s'.entries k ≡ switched target s k)
  Activated target s (raised e s') =
      Unchanged s s'
      × ((validate_dataset_context target ≡ err e)
          ⊎ ((e ≡ state_mutation) × Fault raises s.mutations s'.mutations))

  -- Where at most one mutation of the session raises, `activate_dataset_context` is atomic: it
  -- returns with the switch made, and nothing but the pointer and the derived keys that the switch
  -- clears has changed, or it raises, because the target is not valid or because a mutation failed,
  -- and every entry is as before.
  pub activate_dataset_context_atomic :
      (target : DatasetContext) (s : Session)
      → OneFault raises
      → Activated target s (activate_dataset_context raises target s)
  unfolding activate_dataset_context
  activate_dataset_context_atomic target s one =
      by_validation (validate_dataset_context target) refl
    where
      of_whole :
          (o : Outcome DatasetActivationResult)
          → validate_dataset_context target ≡ ok tt
          → Whole (swept target s) s (activation_result s target) o
          → Activated target s o
      of_whole (done r s') v w = (v, w.0, λ k. w.1 k ∙ swept-switched target s k)
      of_whole (raised e s') v w = (w.1, inr (w.0, w.2))

      by_validation :
          (v : Result SessionError (Unit {0}))
          → validate_dataset_context target ≡ v
          → Activated target s (elim v [ err e ↦ raised e s | ok u ↦ replace raises target s ])
      by_validation (err e) h = (λ k. refl, inl h)
      by_validation (ok u) h = of_whole (replace raises target s) h (
          settle-Whole (activation_result s target)
            (cleared_for (get_dataset_context s) target ++ dataset_context ∷ []) (swept target s) s
            (switch raises (cleared_for (get_dataset_context s) target) target s) one
            (cleared_tracked (get_dataset_context s) target)
            (switch-Ran (cleared_for (get_dataset_context s) target) target s))

  -- What `clear_dataset_context` may end in.
  abbrev pub Cleared : Session → Outcome Bool → Type 0
  Cleared s (done existed s') =
      (existed ≡ has_context (get_dataset_context s))
      × ((k : String) → s'.entries k ≡ (if contains k tracked_keys then none else s.entries k))
  Cleared s (raised e s') =
      Unchanged s s' × (e ≡ state_mutation) × Fault raises s.mutations s'.mutations

  -- Where at most one mutation of the session raises, `clear_dataset_context` is atomic: it returns
  -- whether a context was there, with the pointer and every derived key gone and every other key as
  -- before, or it raises `StateMutationError` because a mutation failed, and every entry is as
  -- before.
  pub clear_dataset_context_atomic :
      (s : Session) → OneFault raises → Cleared s (clear_dataset_context raises s)
  unfolding clear_dataset_context
  clear_dataset_context_atomic s one =
      of_whole
        (settle raises s (has_context (get_dataset_context s)) (discard_all raises tracked_keys s))
        (settle-Whole (has_context (get_dataset_context s)) tracked_keys
          (λ k. if contains k tracked_keys then none else s.entries k) s
          (discard_all raises tracked_keys s) one (λ k c. c)
          (discard_all-Ran raises tracked_keys s))
    where
      of_whole :
          (o : Outcome Bool)
          → Whole
              (λ k. if contains k tracked_keys then none else s.entries k)
              s
              (has_context (get_dataset_context s))
              o
          → Cleared s o
      of_whole (done r s') w = w
      of_whole (raised e s') w = (w.1, w.0, w.2)
