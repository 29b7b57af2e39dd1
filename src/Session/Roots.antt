-- ===== src/Session/Roots.antt =====
-- The valid root and the generation after each operation of managed_trust.py.
use data_quality_toolkit.Prelude.{
  ℕ, suc, ◌≡◌, refl, sym, ◌∙◌, ap, subst, inl, inr, String, Bool, true, false, Bool-cases, not,
  Option, none, some, List, [], ◌∷◌, ◌==◌, arith, eqb, Result, ok, err, >>=-eq-ok, ◌>>◌,
}
use data_quality_toolkit.Session.{
  ManagedTrustRoot, TrustState, trust, Session, no_capability, SessionError, Outcome, session_after,
  is_negative, negative_size, other_capability, blank_identity,
}
use data_quality_toolkit.Session.Slots.{managed_trust_state, mutate}
use data_quality_toolkit.Session.Contexts.{raise_if, refuse_named}
use data_quality_toolkit.Session.Trust.{
  peek_state, write_trust, run_invalidation_hooks, RootRequest, root_at, committed, admit_commit,
  commit_trust_root, current_generation, valid_root_of, reconciled, retired, get_valid_trust_root,
  retire_managed_trust, reconcile_store, ensure_session_capability, with_capability, with_new_trust,
  new_trust, blank_ids,
}
use data_quality_toolkit.Session.Valid.{
  write-peek, valid-at, valid-absent, written-valid, written-generation, written-elsewhere,
  reconciled_lem, valid_root_committed,
}

checks_pass :
    (t u : TrustState) (same : Bool) (names : List String) (neg : Bool)
    → (do
      raise_if (not same) other_capability
      refuse_named blank_identity names
      raise_if neg negative_size
      ok u)
      ≡ ok t
    → (u ≡ t) × (same ≡ true)
checks_pass t u false names neg h = cc
checks_pass t u true (x ∷ names) neg h = cc
checks_pass t u true [] true h = cc
checks_pass t u true [] false h = (cc, refl)

pub admit_commit_lem :
    (c : ℕ) (q : RootRequest) (s : Session) (t : TrustState)
    → admit_commit c q s ≡ ok t
    → (peek_state s ≡ some t) × (t.capability ≡ some c)
unfolding admit_commit
admit_commit_lem c q s t h = by_peek (peek_state s) refl h
  where
    by_capability :
        (u : TrustState) (cap : Option ℕ)
        → u.capability ≡ cap
        → (elim cap as (λ c. Result SessionError TrustState) [
          | none ↦ err no_capability
          | some live ↦ do
            raise_if (not (eqb c live)) other_capability
            refuse_named blank_identity (blank_ids q)
            raise_if (is_negative q.size_bytes) negative_size
            ok u
        ])
          ≡ ok t
        → (u ≡ t) × (t.capability ≡ some c)
    by_capability u none e g = cc
    by_capability u (some live) e g =
        let k = checks_pass t u (eqb c live) (blank_ids q) (is_negative q.size_bytes) g in
        (k.0, cc (sym (ap TrustState.capability k.0) ∙ e, ap some (same live k.1)))
      where
        same : (live : ℕ) → eqb c live ≡ true → c ≡ live
        same live e = ground arith

    by_peek :
        (p : Option TrustState)
        → peek_state s ≡ p
        → (elim p as (λ c. Result SessionError TrustState) [
          | none ↦ err no_capability
          | some u ↦ elim u.capability [
            | none ↦ err no_capability
            | some live ↦ do
              raise_if (not (eqb c live)) other_capability
              refuse_named blank_identity (blank_ids q)
              raise_if (is_negative q.size_bytes) negative_size
              ok u
          ]
        ])
          ≡ ok t
        → (peek_state s ≡ some t) × (t.capability ≡ some c)
    by_peek none e g = cc
    by_peek (some u) e g = let k = by_capability u u.capability refl g in (e ∙ ap some k.0, k.1)

-- What a successful `commit_trust_root` has done: the root is of the next generation and holds the
-- request, it is the valid root, no managed frame is cached, and no other entry has changed.
abbrev pub Committed : RootRequest → Session → ManagedTrustRoot → Session → Type 0
Committed q s r s' =
    (r ≡ root_at (suc (current_generation s)) q)
    × (get_valid_trust_root s' ≡ some r)
    × (current_generation s' ≡ suc (current_generation s))
    × (s'.frame_cache ≡ [])
    × ((k : String) → (managed_trust_state == k) ≡ false → s'.entries k ≡ s.entries k)

pub commit_trust_root_lem :
    (c : ℕ) (q : RootRequest) (s : Session) (r : ManagedTrustRoot) (s' : Session)
    → commit_trust_root c q s ≡ ok (r, s')
    → Committed q s r s'
unfolding commit_trust_root
commit_trust_root_lem c q s r s' h = subst (λ p. Committed q s p.0 p.1) same now
  where
    admitted :
        (t : TrustState) × (admit_commit c q s ≡ ok t)
        × (◌≡◌ {A = Result SessionError (ManagedTrustRoot × Session)}
            (ok (
              root_at (suc t.generation) q,
              run_invalidation_hooks (write_trust (committed c q t) s),
            ))
            (ok (r, s')))
    admitted = >>=-eq-ok (admit_commit c q s) _ h

    new : ManagedTrustRoot × Session
    new = (
      root_at (suc admitted.0.generation) q,
      run_invalidation_hooks (write_trust (committed c q admitted.0) s),
    )

    same : new ≡ (r, s')
    same = cc (admitted.2)

    facts : (peek_state s ≡ some admitted.0) × (admitted.0.capability ≡ some c)
    facts = admit_commit_lem c q s admitted.0 admitted.1

    facts_at :
        (get_valid_trust_root s ≡ valid_root_of admitted.0)
        × (current_generation s ≡ admitted.0.generation)
    facts_at = valid-at s admitted.0 facts.0

    now : Committed q s new.0 new.1
    now = (
      rw facts_at.1 refl,
      written-valid (committed c q admitted.0) s ∙ valid_root_committed c q admitted.0 facts.1,
      written-generation (committed c q admitted.0) s ∙ ap suc (sym facts_at.1),
      refl,
      written-elsewhere (committed c q admitted.0) s,
    )

-- Neither the valid root nor the generation changes, nor any other entry.
abbrev pub KeepsTrust : Session → Session → Type 0
KeepsTrust s s' =
    (get_valid_trust_root s' ≡ get_valid_trust_root s)
    × (current_generation s' ≡ current_generation s)
    × ((k : String) → (managed_trust_state == k) ≡ false → s'.entries k ≡ s.entries k)

-- A live capability, or no root.
abbrev pub Anchored : Session → Type 0
Anchored s = (t : TrustState) → peek_state s ≡ some t → t.capability ≡ none → t.root ≡ none

write-KeepsTrust :
    (t t' : TrustState) (s : Session)
    → peek_state s ≡ some t
    → valid_root_of t' ≡ valid_root_of t
    → t'.generation ≡ t.generation
    → KeepsTrust s (write_trust t' s)
write-KeepsTrust t t' s h v g =
    let before = valid-at s t h in
    let after = valid-at (write_trust t' s) t' (write-peek t' s) in
    (after.0 ∙ v ∙ sym before.0, after.1 ∙ g ∙ sym before.1, written-elsewhere t' s)

pub reconcile_store_lem :
    (s : Session) → KeepsTrust s (reconcile_store s) × Anchored (reconcile_store s)
unfolding reconcile_store
reconcile_store_lem s = by_peek (peek_state s) refl
  where
    by_peek :
        (p : Option TrustState)
        → peek_state s ≡ p
        → KeepsTrust s
            (elim p as (λ o. Session) [ none ↦ s | some t ↦ write_trust (reconciled t) s ])
          × Anchored (elim p as (λ o. Session) [ none ↦ s | some t ↦ write_trust (reconciled t) s ])
    by_peek none h = ((refl, refl, λ k e. refl), λ t g. cc (h, g))
    by_peek (some t) h =
        let facts = reconciled_lem t in
        (
          write-KeepsTrust t (reconciled t) s h facts.0 facts.1,
          λ u g c. rootless u (sym (write-peek (reconciled t) s) ∙ g) facts.2 c,
        )
      where
        rootless :
            (u : TrustState)
            → some (reconciled t) ≡ some u
            → ((reconciled t).capability ≡ none → (reconciled t).root ≡ none)
            → u.capability ≡ none
            → u.root ≡ none
        rootless u e r c = subst (λ (t : TrustState). t.capability ≡ none → t.root ≡ none) same r c
          where
            same : reconciled t ≡ u
            same = cc e

pub ensure_session_capability_lem :
    (raises : ℕ → Bool) (s : Session)
    → Anchored s
    → KeepsTrust s (session_after (ensure_session_capability raises s))
unfolding ensure_session_capability get_valid_trust_root current_generation
ensure_session_capability_lem raises s anchored = by_peek (peek_state s) refl
  where
    with_cap :
        (s0 : Session) (t : TrustState) (cap : Option ℕ)
        → t.capability ≡ cap
        → peek_state s0 ≡ some t
        → (t.capability ≡ none → t.root ≡ none)
        → KeepsTrust s0 (session_after (with_capability t s0))
    with_cap s0 t (some c) e h r = rw (e, with_capability) (refl, refl, λ k g. refl)
    with_cap s0 t none e h r =
        rw (e, with_capability)
          (write-KeepsTrust t (record t { capability = some s0.capabilities })
            (record s0 { capabilities = suc s0.capabilities }) h (rw (r e, valid_root_of) refl)
            refl)

    by_peek :
        (p : Option TrustState)
        → peek_state s ≡ p
        → KeepsTrust s (
            session_after (elim p as (λ o. Outcome ℕ) [
              | some t ↦ with_capability t s
              | none ↦ with_new_trust (mutate raises managed_trust_state (some (trust new_trust)) s)
            ]))
    by_peek (some t) h = with_cap s t t.capability refl h (anchored t h)
    by_peek none h =
        let before = valid-absent s h in
        elim (Bool-cases (raises s.mutations)) [
          | inl e ↦ rw (e, with_new_trust) (refl, refl, λ k g. refl)
          | inr e ↦ rw (e, with_new_trust) (sym before.0, sym before.1, λ k g. rw g refl)
        ]

pub ensure_generation :
    (raises : ℕ → Bool) (s : Session)
    → current_generation (session_after (ensure_session_capability raises s)) ≡ current_generation s
unfolding ensure_session_capability current_generation
ensure_generation raises s = by_peek (peek_state s) refl
  where
    with_cap :
        (s0 : Session) (t : TrustState) (cap : Option ℕ)
        → t.capability ≡ cap
        → peek_state s0 ≡ some t
        → current_generation (session_after (with_capability t s0)) ≡ t.generation
    with_cap s0 t (some c) e h = rw (e, with_capability) (valid-at s0 t h).1
    with_cap s0 t none e h = rw (e, with_capability) refl

    by_peek :
        (p : Option TrustState)
        → peek_state s ≡ p
        → current_generation (
            session_after (elim p as (λ o. Outcome ℕ) [
              | some t ↦ with_capability t s
              | none ↦ with_new_trust (mutate raises managed_trust_state (some (trust new_trust)) s)
            ]))
          ≡ current_generation s
    by_peek (some t) h = with_cap s t t.capability refl h ∙ sym (valid-at s t h).1
    by_peek none h = elim (Bool-cases (raises s.mutations)) [
      | inl e ↦ rw (e, with_new_trust) refl
      | inr e ↦ rw (e, with_new_trust) (sym (valid-absent s h).1)
    ]

pub retire_managed_trust_lem :
    (s : Session) (t : TrustState)
    → peek_state s ≡ some t
    → (get_valid_trust_root (retire_managed_trust s) ≡ none)
      × (current_generation (retire_managed_trust s) ≡ suc (current_generation s))
      × ((retire_managed_trust s).frame_cache ≡ [])
unfolding retire_managed_trust
retire_managed_trust_lem s t h =
    rw (h, retire_managed_trust)
      (
        written-valid (retired t) s,
        written-generation (retired t) s ∙ ap suc (sym (valid-at s t h).1),
        refl,
      )
