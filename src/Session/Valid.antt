-- ===== src/Session/Valid.antt =====
-- The valid root and the generation of a trust store of managed_trust.py, and what reconciling it
-- and committing to it do.
use data_quality_toolkit.Prelude.{
  ℕ, suc, ◌≡◌, refl, ◌∙◌, ap, String, false, ◌&&◌, Option, none, some, ◌==◌, arith, eqb,
  if◌then◌else◌,
}
use data_quality_toolkit.Session.{ManagedTrustRoot, TrustState, Session}
use data_quality_toolkit.Session.Slots.{managed_trust_state}
use data_quality_toolkit.Session.Trust.{
  peek_state, write_trust, run_invalidation_hooks, RootRequest, root_at, committed,
  current_generation, valid_root_of, live_root, same_capability, reconciled, get_valid_trust_root,
}

pub write-peek : (t : TrustState) (s : Session) → peek_state (write_trust t s) ≡ some t
unfolding peek_state write_trust
write-peek t s = refl

pub valid-peek :
    (s s' : Session)
    → peek_state s' ≡ peek_state s
    → get_valid_trust_root s' ≡ get_valid_trust_root s
unfolding get_valid_trust_root
valid-peek s s' h = rw (h, get_valid_trust_root) refl

pub generation-peek :
    (s s' : Session) → peek_state s' ≡ peek_state s → current_generation s' ≡ current_generation s
unfolding current_generation
generation-peek s s' h = rw (h, current_generation) refl

pub peek-entry :
    (s s' : Session)
    → s'.entries managed_trust_state ≡ s.entries managed_trust_state
    → peek_state s' ≡ peek_state s
unfolding peek_state
peek-entry s s' h = rw h refl

pub valid-at :
    (s : Session) (t : TrustState)
    → peek_state s ≡ some t
    → (get_valid_trust_root s ≡ valid_root_of t) × (current_generation s ≡ t.generation)
unfolding get_valid_trust_root current_generation
valid-at s t h = (rw (h, get_valid_trust_root) refl, rw (h, current_generation) refl)

pub valid-absent :
    (s : Session)
    → peek_state s ≡ none
    → (get_valid_trust_root s ≡ none) × (current_generation s ≡ 0)
unfolding get_valid_trust_root current_generation
valid-absent s h = (rw (h, get_valid_trust_root) refl, rw (h, current_generation) refl)

-- The session after a change of the trust object, with or without the caches cleared.
pub written-valid :
    (t : TrustState) (s : Session)
    → get_valid_trust_root (run_invalidation_hooks (write_trust t s)) ≡ valid_root_of t
unfolding get_valid_trust_root write_trust
written-valid t s = refl

pub written-generation :
    (t : TrustState) (s : Session)
    → current_generation (run_invalidation_hooks (write_trust t s)) ≡ t.generation
unfolding current_generation write_trust
written-generation t s = refl

pub written-elsewhere :
    (t : TrustState) (s : Session) (k : String)
    → (managed_trust_state == k) ≡ false
    → (write_trust t s).entries k ≡ s.entries k
unfolding write_trust
written-elsewhere t s k h = rw h refl

-- A root that is valid belongs to the current generation, and a live capability vouches for it.
pub valid_root_of_lem :
    (t : TrustState) (r : ManagedTrustRoot)
    → valid_root_of t ≡ some r
    → (r.generation ≡ t.generation) × (t.root ≡ some r) × ((c : ℕ) × (t.capability ≡ some c))
valid_root_of_lem t r h = by_root t.root refl h
  where
    live :
        (q : ManagedTrustRoot) (cap : Option ℕ)
        → t.capability ≡ cap
        → (elim cap as (λ c. Option ManagedTrustRoot) [
          | none ↦ none
          | some c ↦
              if same_capability t.root_capability (some c) && eqb q.generation t.generation
              then some q
              else none
        ])
          ≡ some r
        → (r.generation ≡ t.generation) × (q ≡ r) × ((c : ℕ) × (t.capability ≡ some c))
    live q none e g = cc
    live q (some c) e g = (ground (arith, g), ground (arith, g), (c, e))

    by_root :
        (root : Option ManagedTrustRoot)
        → t.root ≡ root
        → (elim root as (λ o. Option ManagedTrustRoot) [ none ↦ none | some q ↦ live_root t q ])
          ≡ some r
        → (r.generation ≡ t.generation) × (t.root ≡ some r) × ((c : ℕ) × (t.capability ≡ some c))
    by_root none e g = cc
    by_root (some q) e g = let k = live q t.capability refl g in (k.0, e ∙ ap some k.1, k.2)

-- Reconciling changes neither the valid root nor the generation. A store that was reconciled and
-- has no live capability has no root.
pub reconciled_lem :
    (t : TrustState)
    → (valid_root_of (reconciled t) ≡ valid_root_of t)
      × ((reconciled t).generation ≡ t.generation)
      × ((reconciled t).capability ≡ none → (reconciled t).root ≡ none)
reconciled_lem t = by_valid (valid_root_of t) t.root refl refl
  where
    by_valid :
        (v root : Option ManagedTrustRoot)
        → valid_root_of t ≡ v
        → t.root ≡ root
        → (valid_root_of (reconciled t) ≡ valid_root_of t)
          × ((reconciled t).generation ≡ t.generation)
          × ((reconciled t).capability ≡ none → (reconciled t).root ≡ none)
    by_valid (some r) root v e =
        let k = valid_root_of_lem t r v in rw (v, reconciled) (v, refl, λ h. cc (h, k.2.1))
    by_valid none none v e = rw (v, e, reconciled) (v, refl, λ h. e)
    by_valid none (some r) v e = rw (v, e, reconciled) (refl, refl, λ h. refl)

pub valid_root_committed :
    (c : ℕ) (q : RootRequest) (t : TrustState)
    → t.capability ≡ some c
    → valid_root_of (committed c q t) ≡ some (root_at (suc t.generation) q)
valid_root_committed c q t h = rw h (ground arith)
