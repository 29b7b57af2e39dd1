-- ===== src/Session/Transaction.antt =====
-- `activate_managed_context` of dataset_activation.py as a transaction: what it may end in, and what
-- the session then holds.
use data_quality_toolkit.Prelude.{
  ℕ, suc, ◌≡◌, refl, ◌∙◌, ap, String, Bool, true, Option, none, some, Option-cases, [], Result, ok,
  err, inl, inr,
}
use data_quality_toolkit.Session.{
  DatasetContext, ManagedSourceLocator, ManagedTrustRoot, TrustState, Session, SessionError,
  Outcome, done, raised, session_after,
}
use data_quality_toolkit.Session.Slots.{get_dataset_context, dataset_context, managed_trust_state}
use data_quality_toolkit.Session.Trust.{
  RootRequest, ensure_session_capability, current_generation, commit_trust_root,
  get_valid_trust_root, retire_managed_trust, reconcile_store, peek_state,
}
use data_quality_toolkit.Session.Activation.{
  activate_dataset_context, ActivationStatus, activated, unchanged, DatasetActivationResult,
}
use data_quality_toolkit.Session.Managed.{
  text_of, outcome_of, request_for, prepare, publish, commit_with, commit_prepared, after_commit,
  activate_managed_context,
}
use data_quality_toolkit.Session.Atomicity.{OneFault, Activated, activate_dataset_context_atomic}
use data_quality_toolkit.Session.Validity.{activate-keeps}
use data_quality_toolkit.Session.Valid.{valid-absent, valid-peek, generation-peek, peek-entry}
use data_quality_toolkit.Session.Roots.{
  Committed, KeepsTrust, Anchored, commit_trust_root_lem, reconcile_store_lem,
  ensure_session_capability_lem, retire_managed_trust_lem,
}
use data_quality_toolkit.Session.Prepared.{
  IsActive, Ends, is_committed, EndsWell, KeepsTrust-trans, prepare_lem, context_at, mirror_lem,
}

text_of-some : (o : Option String) → ((v : String) × (o ≡ some v)) → o ≡ some (text_of o)
text_of-some none (v, h) = cc
text_of-some (some w) (v, h) = refl

module _ (raises : ℕ → Bool) where
  -- The switch of the context after the commit.
  after_commit_lem :
      (target : DatasetContext) (s s1 s2 : Session) (r : ManagedTrustRoot) (q : RootRequest)
      (o : Outcome DatasetActivationResult)
      → target.managed ≡ true
      → target.version_id ≡ some q.version_id
      → target.content_id ≡ some q.content_id
      → KeepsTrust s s1
      → Committed q s1 r s2
      → Activated raises target s2 o
      → (session_after o).entries managed_trust_state ≡ s2.entries managed_trust_state
      → EndsWell target s (after_commit raises o)
  after_commit_lem target s s1 s2 r q (done res s3) m v c kept now act same =
      (by_status res.status, committed res.status, refl)
    where
      peek : peek_state s3 ≡ peek_state s2
      peek = peek-entry s2 s3 same

      valid : get_valid_trust_root s3 ≡ some r
      valid = valid-peek s2 s3 peek ∙ now.1

      mirror : get_dataset_context s3 ≡ some target
      mirror = context_at s3 target (act.2 dataset_context)

      version : target.version_id ≡ some r.version_id
      version = rw now.0 v

      content : target.content_id ≡ some r.content_id
      content = rw now.0 c

      active : IsActive target s s3
      active =
          let decision = mirror_lem s3 target r m version content valid mirror in
          (
            r,
            valid,
            version,
            content,
            generation-peek s2 s3 peek ∙ now.2 ∙ ap suc kept.1,
            mirror,
            decision.0,
            decision.1,
          )

      by_status : (status : ActivationStatus) → Ends target s (outcome_of status) s3
      by_status activated = active
      by_status unchanged = active

      committed : (status : ActivationStatus) → true ≡ is_committed (outcome_of status)
      committed activated = refl
      committed unchanged = refl
  after_commit_lem target s s1 s2 r q (raised e s3) m v c kept now act same =
      ((retirement.0, retirement.1 ∙ ap suc generation), refl, refl)
    where
      peek : peek_state s3 ≡ peek_state s2
      peek = peek-entry s2 s3 same

      generation : current_generation s3 ≡ suc (current_generation s)
      generation = generation-peek s2 s3 peek ∙ now.2 ∙ ap suc kept.1

      store : (t : TrustState) × (peek_state s3 ≡ some t)
      store = elim (Option-cases (peek_state s3)) [
        | inl n ↦ cc ((valid-absent s3 n).0, valid-peek s2 s3 peek ∙ now.1)
        | inr p ↦ p
      ]

      retirement :
          (get_valid_trust_root (retire_managed_trust s3) ≡ none)
          × (current_generation (retire_managed_trust s3) ≡ suc (current_generation s3))
          × ((retire_managed_trust s3).frame_cache ≡ [])
      retirement = retire_managed_trust_lem s3 store.0 store.1

  -- `activate_managed_context` is a transaction, where at most one mutation of the session raises.
  -- If it returns, its report tells the outcome: the target became the active dataset, under a root
  -- of the next generation which is valid and the authority, with a mirror that is not stale; or it
  -- was refused before the commit, and the valid root, the generation and every other entry are as
  -- before; or it was interrupted after the commit, and no root is valid, two generations on. If it
  -- raises, the valid root, the generation and every other entry are as before.
  pub activate_managed_context_transacts :
      (path_name : String → String) (target : DatasetContext) (rel : String) (shown : Option String)
      (s : Session)
      → OneFault raises
      → EndsWell target s (activate_managed_context raises path_name target rel shown s)
  unfolding activate_managed_context
  activate_managed_context_transacts path_name target rel shown s one =
      by_preparation (prepare path_name target rel shown) refl
    where
      s0 : Session
      s0 = reconcile_store s

      start : KeepsTrust s s0 × Anchored s0
      start = reconcile_store_lem s

      by_commit :
          (locator : ManagedSourceLocator) (s1 : Session)
          (r : Result SessionError (ManagedTrustRoot × Session)) (c : ℕ)
          → prepare path_name target rel shown ≡ ok locator
          → KeepsTrust s s1
          → commit_trust_root c (request_for target locator) s1 ≡ r
          → EndsWell target s (publish raises target r s1)
      by_commit locator s1 (err e) c p kept h = (kept, refl, refl)
      by_commit locator s1 (ok (r, s2)) c p kept h =
          let facts = prepare_lem path_name target rel shown locator p in
          let q = request_for target locator in
          after_commit_lem target s s1 s2 r q (activate_dataset_context raises target s2) facts.0
            (text_of-some target.version_id facts.1) (text_of-some target.content_id facts.2) kept
            (commit_trust_root_lem c q s1 r s2 h)
            (activate_dataset_context_atomic raises target s2 one) (activate-keeps raises target s2)

      by_capability :
          (locator : ManagedSourceLocator) (o : Outcome ℕ)
          → prepare path_name target rel shown ≡ ok locator
          → KeepsTrust s0 (session_after o)
          → EndsWell target s (commit_with raises target locator o)
      by_capability locator (raised e s1) p kept = KeepsTrust-trans s s0 s1 start.0 kept
      by_capability locator (done c s1) p kept =
          by_commit locator s1 (commit_trust_root c (request_for target locator) s1) c p
            (KeepsTrust-trans s s0 s1 start.0 kept) refl

      by_preparation :
          (p : Result SessionError ManagedSourceLocator)
          → prepare path_name target rel shown ≡ p
          → EndsWell target s (commit_prepared raises target p s0)
      by_preparation (err e) h = (start.0, refl, refl)
      by_preparation (ok locator) h =
          by_capability locator (ensure_session_capability raises s0) h
            (ensure_session_capability_lem raises s0 start.1)
