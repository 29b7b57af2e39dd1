-- ===== src/Loading/Admission.antt =====
-- What `commit_trust_root` and `make_source_locator` of managed_trust.py admit.
use data_quality_toolkit.Prelude.{
  ℕ, ◌≡◌, refl, subst, String, Bool, true, false, not, ◌||◌, Option, none, some, List, [], ◌∷◌,
  strip, strip_idem, is_empty, codes, eqb, Result, ok, err, ◌>>◌,
}
use data_quality_toolkit.Versions.Identity.{is_absolute}
use data_quality_toolkit.Session.{
  ManagedSourceLocator, TrustState, Session, is_negative, SessionError, no_capability,
  other_capability, blank_identity, negative_size, bad_display_name, bad_relative_path,
  no_artifact_path,
}
use data_quality_toolkit.Session.Contexts.{named, raise_if, refuse_named}
use data_quality_toolkit.Session.Trust.{
  has, peek_state, make_source_locator, RootRequest, blank_ids, admit_commit,
}
use data_quality_toolkit.Loading.Minting.{IsFilled}

none_named :
    (b : Bool) (name : String) (rest : List String)
    → named b name rest ≡ []
    → (b ≡ false) × (rest ≡ [])
none_named true name rest h = cc
none_named false name rest h = (refl, h)

-- What a request has that the commit admits.
pub record IsAdmitted (q : RootRequest) : Type 0 where
  pub version_filled : IsFilled q.version_id
  pub family_filled : IsFilled q.family_id
  pub content_filled : IsFilled q.content_id
  pub root_content_filled : IsFilled q.root_content_id
  pub label_filled : IsFilled q.version_label
  pub size_whole : is_negative q.size_bytes ≡ false

checks_pass-names :
    (t u : TrustState) (same : Bool) (names : List String) (neg : Bool)
    → (do
      raise_if (not same) other_capability
      refuse_named blank_identity names
      raise_if neg negative_size
      ok u)
      ≡ ok t
    → (names ≡ []) × (neg ≡ false)
checks_pass-names t u false names neg h = cc
checks_pass-names t u true (x ∷ names) neg h = cc
checks_pass-names t u true [] true h = cc
checks_pass-names t u true [] false h = (refl, refl)

admit_commit-names :
    (c : ℕ) (q : RootRequest) (s : Session) (t : TrustState)
    → admit_commit c q s ≡ ok t
    → (blank_ids q ≡ []) × (is_negative q.size_bytes ≡ false)
unfolding admit_commit
admit_commit-names c q s t h = by_peek (peek_state s) h
  where
    by_capability :
        (u : TrustState) (cap : Option ℕ)
        → (elim cap as (λ c. Result SessionError TrustState) [
          | none ↦ err no_capability
          | some live ↦ do
            raise_if (not (eqb c live)) other_capability
            refuse_named blank_identity (blank_ids q)
            raise_if (is_negative q.size_bytes) negative_size
            ok u
        ])
          ≡ ok t
        → (blank_ids q ≡ []) × (is_negative q.size_bytes ≡ false)
    by_capability u none g = cc
    by_capability u (some live) g =
        checks_pass-names t u (eqb c live) (blank_ids q) (is_negative q.size_bytes) g

    by_peek :
        (p : Option TrustState)
        → (elim p as (λ c. Result SessionError TrustState) [
          | none ↦ err no_capability
          | some u ↦ elim u.capability [
            | none ↦ err no_capability
            | some live ↦ do
              raise_if (not (eqb c live)) other_capability
              refuse_named blank_identity (blank_ids q)
              raise_if (is_negative q.size_bytes) negative_size
              ok u
          ]
        ])
          ≡ ok t
        → (blank_ids q ≡ []) × (is_negative q.size_bytes ≡ false)
    by_peek none g = cc
    by_peek (some u) g = by_capability u u.capability g

pub admit_commit-IsAdmitted :
    (c : ℕ) (q : RootRequest) (s : Session) (t : TrustState)
    → admit_commit c q s ≡ ok t
    → IsAdmitted q
admit_commit-IsAdmitted c q s t h =
    let (names, whole) = admit_commit-names c q s t h in
    let (a1, h1) = none_named _ "version_id" _ names in
    let (a2, h2) = none_named _ "family_id" _ h1 in
    let (a3, h3) = none_named _ "content_id" _ h2 in
    let (a4, h4) = none_named _ "root_content_id" _ h3 in
    let (a5, h5) = none_named _ "version_label" _ h4 in
    record {
      version_filled = a1;
      family_filled = a2;
      content_filled = a3;
      root_content_filled = a4;
      label_filled = a5;
      size_whole = whole;
    }

-- What a locator has that `make_source_locator` gives.
pub record IsLocator (l : ManagedSourceLocator) : Type 0 where
  pub name_filled : IsFilled l.display_name
  pub relative_filled : IsFilled l.relative_posix
  pub path_filled : IsFilled l.absolute_path
  pub name_bare :
      (has b'/' l.display_name || has 92 l.display_name || has b':' l.display_name) ≡ false
  pub relative_posix :
      (has 92 l.relative_posix || has b':' l.relative_posix || is_absolute (codes l.relative_posix))
      ≡ false

filled : (s : String) → is_empty (strip s) ≡ false → IsFilled (strip s)
filled s h = rw (strip_idem s) h

first_false : (a b c d : Bool) → (a || b || c || d) ≡ false → (a ≡ false) × ((b || c || d) ≡ false)
first_false true b c d h = cc
first_false false b c d h = (refl, h)

not_raised :
    {A : Type 0} (b : Bool) (e : SessionError) (m : Result SessionError A) (x : A)
    → (raise_if b e >> m) ≡ ok x
    → (b ≡ false) × (m ≡ ok x)
not_raised true e m x h = cc
not_raised false e m x h = (refl, h)

pub make_source_locator-IsLocator :
    (name relative path : String) (l : ManagedSourceLocator)
    → make_source_locator name relative path ≡ ok l
    → IsLocator l
unfolding make_source_locator
make_source_locator-IsLocator name relative path l h =
    let (bare, h1) =
      not_raised
        (is_empty (strip name)
          || has b'/' (strip name)
          || has 92 (strip name)
          || has b':' (strip name))
        bad_display_name _ l h in
    let (posix, h2) =
      not_raised
        (is_empty (strip relative)
          || has 92 (strip relative)
          || has b':' (strip relative)
          || is_absolute (codes (strip relative)))
        bad_relative_path _ l h1 in
    let (some_path, h3) = not_raised (is_empty (strip path)) no_artifact_path _ l h2 in
    let (some_name, bare_name) = first_false (is_empty (strip name)) _ _ _ bare in
    let (some_relative, relative_path) = first_false (is_empty (strip relative)) _ _ _ posix in
    subst IsLocator (same h3) (record {
      name_filled = filled name some_name;
      relative_filled = filled relative some_relative;
      path_filled = some_path;
      name_bare = bare_name;
      relative_posix = relative_path;
    })
  where
    made : ManagedSourceLocator
    made = record {
      display_name = strip name;
      relative_posix = strip relative;
      absolute_path = path;
    }

    same : ◌≡◌ {A = Result SessionError ManagedSourceLocator} (ok made) (ok l) → made ≡ l
    same e = cc e
