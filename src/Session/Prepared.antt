-- ===== src/Session/Prepared.antt =====
-- What a target that passed the checks before the commit has, in dataset_activation.py, and when the
-- mirror of a valid root is not stale.
use data_quality_toolkit.Prelude.{
  suc, ◌≡◌, refl, ◌∙◌, String, Bool, true, false, not, Option, none, some, Result, ok, err, arith,
  eq_refl, if◌then◌else◌, ◌>>◌,
}
use data_quality_toolkit.Session.{
  DatasetContext, ManagedSourceLocator, ManagedTrustRoot, Session, SessionError, not_managed,
  context, Outcome, done, raised,
}
use data_quality_toolkit.Session.Slots.{get_dataset_context, dataset_context}
use data_quality_toolkit.Session.Contexts.{
  raise_if, holds, validate_managed_formats, validate_managed_present, validate_dataset_context,
}
use data_quality_toolkit.Versions.Identity.{is_uuid, is_sha256}
use data_quality_toolkit.Session.Trust.{
  make_source_locator, current_generation, get_valid_trust_root, managed_authority,
  resolve_trust_authority,
}
use data_quality_toolkit.Session.Managed.{
  managed_activated, managed_unchanged, disabled, refused_pre_commit, interrupted_post_commit,
  ManagedActivationOutcome, ManagedActivationReport, shown_name, prepare,
}
use data_quality_toolkit.Session.Roots.{KeepsTrust}

-- The target is the active dataset: its root is the valid one, of the next generation, it is the
-- authority, and the pointer of the session names the target.
abbrev pub IsActive : DatasetContext → Session → Session → Type 0
IsActive target s s' =
    (r : ManagedTrustRoot) × (get_valid_trust_root s' ≡ some r)
    × (target.version_id ≡ some r.version_id)
    × (target.content_id ≡ some r.content_id)
    × (current_generation s' ≡ suc (current_generation s))
    × (get_dataset_context s' ≡ some target)
    × ((resolve_trust_authority s').authority ≡ managed_authority)
    × ((resolve_trust_authority s').mirror_stale ≡ false)

-- What the session holds for each outcome.
abbrev pub Ends : DatasetContext → Session → ManagedActivationOutcome → Session → Type 0
Ends target s managed_activated s' = IsActive target s s'
Ends target s managed_unchanged s' = IsActive target s s'
Ends target s disabled s' = ⊥
Ends target s refused_pre_commit s' = KeepsTrust s s'
Ends target s interrupted_post_commit s' =
    (get_valid_trust_root s' ≡ none) × (current_generation s' ≡ suc (suc (current_generation s)))

abbrev pub is_committed : ManagedActivationOutcome → Bool
is_committed refused_pre_commit = false
is_committed disabled = false
is_committed _ = true

-- Where it raises, nothing but the trust store may have changed, and neither did the valid root.
abbrev pub EndsWell : DatasetContext → Session → Outcome ManagedActivationReport → Type 0
EndsWell target s (done r s') =
    Ends target s r.outcome s'
    × (r.trust_committed ≡ is_committed r.outcome)
    × (r.generation ≡ current_generation s')
EndsWell target s (raised e s') = KeepsTrust s s'

pub KeepsTrust-trans : (s s' s'' : Session) → KeepsTrust s s' → KeepsTrust s' s'' → KeepsTrust s s''
KeepsTrust-trans s s' s'' h g = (g.0 ∙ h.0, g.1 ∙ h.1, λ k e. g.2 k e ∙ h.2 k e)

both_ok :
    {A : Type 0} (m : Result SessionError (Unit {0})) (k : Result SessionError A) (a : A)
    → (m >> k) ≡ ok a
    → (m ≡ ok tt) × (k ≡ ok a)
both_ok (ok u) k a h = (refl, h)
both_ok (err e) k a h = cc

taken :
    (b : Bool) (x y : Result SessionError (Unit {0}))
    → b ≡ true
    → (if b then x else y) ≡ ok tt
    → x ≡ ok tt
taken true x y h e = e
taken false x y h e = cc

holds-some :
    (test : String → Bool) (o : Option String) (e : SessionError)
    → raise_if (not (holds test o)) e ≡ ok tt
    → (v : String) × (o ≡ some v)
holds-some test none e h = cc
holds-some test (some v) e h = (v, refl)

formats_lem :
    (c : DatasetContext)
    → validate_managed_formats c ≡ ok tt
    → ((v : String) × (c.version_id ≡ some v)) × ((d : String) × (c.content_id ≡ some d))
unfolding validate_managed_formats
formats_lem c h = by_checks c.version_id c.content_id _ _ _ _ _ h
  where
    by_checks :
        (v d : Option String) (family : Bool) (rest : Result SessionError (Unit {0}))
        (e1 e2 e3 : SessionError)
        → (raise_if (not (holds is_uuid v)) e1
            >> (raise_if family e2 >> (raise_if (not (holds is_sha256 d)) e3 >> rest)))
          ≡ ok tt
        → ((x : String) × (v ≡ some x)) × ((y : String) × (d ≡ some y))
    by_checks v d family rest e1 e2 e3 h =
        let third = raise_if (not (holds is_sha256 d)) e3 in
        let a =
          both_ok (raise_if (not (holds is_uuid v)) e1) (raise_if family e2 >> (third >> rest)) tt
            h in
        let b = both_ok (raise_if family e2) (third >> rest) tt a.1 in
        (holds-some is_uuid v e1 a.0, holds-some is_sha256 d e3 (both_ok third rest tt b.1).0)

-- What passed `prepare` is a managed context with the two ids.
pub prepare_lem :
    (path_name : String → String) (target : DatasetContext) (rel : String) (shown : Option String)
    (locator : ManagedSourceLocator)
    → prepare path_name target rel shown ≡ ok locator
    → (target.managed ≡ true)
      × ((v : String) × (target.version_id ≡ some v))
      × ((c : String) × (target.content_id ≡ some c))
unfolding prepare
prepare_lem path_name target rel shown locator h =
    let a = both_ok (validate_dataset_context target) (named >> located) locator h in
    let managed = is_true target.managed (both_ok named located locator a.1).0 in
    let checked =
      both_ok (validate_managed_present target) (validate_managed_formats target) tt
        (valid managed a.0) in
    let ids = formats_lem target checked.1 in (managed, ids.0, ids.1)
  where
    named : Result SessionError (Unit {0})
    named = raise_if (if target.managed then false else true) not_managed

    located : Result SessionError ManagedSourceLocator
    located =
        make_source_locator (shown_name path_name shown target.source_path) rel target.source_path

    is_true : (b : Bool) → raise_if (if b then false else true) not_managed ≡ ok tt → b ≡ true
    is_true true e = refl
    is_true false e = cc

    valid :
        target.managed ≡ true
        → validate_dataset_context target ≡ ok tt
        → (validate_managed_present target >> validate_managed_formats target) ≡ ok tt
    valid m e = taken target.managed _ _ m e

pub context_at :
    (s : Session) (target : DatasetContext)
    → s.entries dataset_context ≡ some (context target)
    → get_dataset_context s ≡ some target
unfolding get_dataset_context
context_at s target h = rw h refl

pub mirror_lem :
    (s : Session) (target : DatasetContext) (r : ManagedTrustRoot)
    → target.managed ≡ true
    → target.version_id ≡ some r.version_id
    → target.content_id ≡ some r.content_id
    → get_valid_trust_root s ≡ some r
    → get_dataset_context s ≡ some target
    → ((resolve_trust_authority s).authority ≡ managed_authority)
      × ((resolve_trust_authority s).mirror_stale ≡ false)
unfolding resolve_trust_authority
mirror_lem s target r m v c valid mirror =
    rw (valid, mirror, resolve_trust_authority, m, v, c)
      (refl, ground (arith, eq_refl r.version_id, eq_refl r.content_id))
