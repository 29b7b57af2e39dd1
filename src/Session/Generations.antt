-- ===== src/Session/Generations.antt =====
-- Sequences of operations on a session: managed_trust.py and dataset_activation.py. The generation
-- never falls, and a binding that was retired or replaced is never valid again.
use data_quality_toolkit.Prelude.{
  ℕ, suc, ◌≤◌, ◌≡◌, ◌≢◌, sym, ◌∙◌, Bool, some, Option-cases, inl, inr, ok, arith,
}
use data_quality_toolkit.Session.{
  DatasetContext, ManagedTrustRoot, TrustState, Session, session_after,
}
use data_quality_toolkit.Session.Trust.{
  peek_state, RootRequest, commit_trust_root, current_generation, get_valid_trust_root,
  retire_managed_trust, reconcile_store, ensure_session_capability,
}
use data_quality_toolkit.Session.Activation.{activate_dataset_context, clear_dataset_context}
use data_quality_toolkit.Session.Validity.{activate-keeps, clear-keeps}
use data_quality_toolkit.Session.Valid.{
  valid-at, valid-absent, generation-peek, peek-entry, valid_root_of_lem,
}
use data_quality_toolkit.Session.Roots.{
  commit_trust_root_lem, reconcile_store_lem, ensure_generation, retire_managed_trust_lem,
}

-- The binding is dropped or replaced: by `retire_managed_trust` where there is a store, or by a
-- successful `commit_trust_root`.
pub data Renewal : Session → Session → Type 0 where
  retirement :
      (s : Session) (t : TrustState) → peek_state s ≡ some t → Renewal s (retire_managed_trust s)
  commitment :
      (c : ℕ) (q : RootRequest) (s : Session) (r : ManagedTrustRoot) (s' : Session)
      → commit_trust_root c q s ≡ ok (r, s')
      → Renewal s s'

module _ (raises : ℕ → Bool) where
  -- One operation, whether it returns or raises.
  pub data Step : Session → Session → Type 0 where
    renew : {s s' : Session} → Renewal s s' → Step s s'
    reconcile : (s : Session) → Step s (reconcile_store s)
    ensure : (s : Session) → Step s (session_after (ensure_session_capability raises s))
    activate :
        (target : DatasetContext) (s : Session)
        → Step s (session_after (activate_dataset_context raises target s))
    clear : (s : Session) → Step s (session_after (clear_dataset_context raises s))

  pub data Steps : Session → Session → Type 0 where
    stop : (s : Session) → Steps s s
    step : {s s' s'' : Session} → Step s s' → Steps s' s'' → Steps s s''

  Renewal-advances :
      {s s' : Session} → Renewal s s' → current_generation s' ≡ suc (current_generation s)
  Renewal-advances (retirement s t h) = (retire_managed_trust_lem s t h).1
  Renewal-advances (commitment c q s r s' h) = (commit_trust_root_lem c q s r s' h).2

  Step-le : {s s' : Session} → Step s s' → current_generation s ≤ current_generation s'
  Step-le (renew h) = omega (arith, Renewal-advances h)
  Step-le (reconcile s) = omega (arith, (reconcile_store_lem s).0.1)
  Step-le (ensure s) = omega (arith, ensure_generation raises s)
  Step-le (activate target s) =
      let s' = session_after (activate_dataset_context raises target s) in
      omega (arith, generation-peek s s' (peek-entry s s' (activate-keeps raises target s)))
  Step-le (clear s) =
      let s' = session_after (clear_dataset_context raises s) in
      omega (arith, generation-peek s s' (peek-entry s s' (clear-keeps raises s)))

  -- The generation never falls, whatever operations follow one another and whichever mutations of
  -- the session raise.
  pub Steps-le : {s s' : Session} → Steps s s' → current_generation s ≤ current_generation s'
  Steps-le (stop s) = omega arith
  Steps-le (step h hs) = omega (arith, Step-le h, Steps-le hs)

  valid-generation :
      (s : Session) (r : ManagedTrustRoot)
      → get_valid_trust_root s ≡ some r
      → r.generation ≡ current_generation s
  valid-generation s r h = elim (Option-cases (peek_state s)) [
    | inl n ↦ cc (h, (valid-absent s n).0)
    | inr (t, e) ↦ (valid_root_of_lem t r (sym (valid-at s t e).0 ∙ h)).0 ∙ sym (valid-at s t e).1
  ]

  -- A root that was valid is not valid again once its binding was retired or another root was
  -- committed, whatever operations come between and after, whichever of them fail, and whichever
  -- mutations of the session raise.
  pub stale_root_stays_stale :
      (r : ManagedTrustRoot) (s s1 s2 s3 : Session)
      → get_valid_trust_root s ≡ some r
      → Steps s s1
      → Renewal s1 s2
      → Steps s2 s3
      → get_valid_trust_root s3 ≢ some r
  stale_root_stays_stale r s s1 s2 s3 valid before renewal after again = omega (
    arith,
    valid-generation s r valid,
    Steps-le before,
    Renewal-advances renewal,
    Steps-le after,
    valid-generation s3 r again,
  )
