-- ===== src/Loading/Assessments.antt =====
-- Which assessments the cache of managed_frame_loader.py holds and `get_managed_assessment` returns.
use data_quality_toolkit.Prelude.{
  ℕ, ◌≤◌, ◌≡◌, refl, sym, ◌∙◌, ap, subst, String, Bool, true, false, Option, none, some, List,
  length, any, All, Result, ok, err, Yields, >>=-eq-ok, if◌then◌else◌,
}
use data_quality_toolkit.Session.{CanonicalFrameKey, ManagedTrustRoot, Session}
use data_quality_toolkit.Session.Trust.{get_valid_trust_root}
use data_quality_toolkit.Loading.{
  LoadReason, large_mode_refused, LoadError, refused, assessment_invalid, AssessmentKey, World,
  OptionValue,
}
use data_quality_toolkit.Loading.Options.{
  Options, compute_parser_fingerprint, compute_assessment_fingerprint,
}
use data_quality_toolkit.Loading.Caches.{
  assessment_cache_max_entries, same_assessment_key, get, Loader,
}
use data_quality_toolkit.Loading.Dispatch.{
  ReadOutcome, AssessedValue, Assessed, assessment, not_a_mapping, assessor_failed, is_frame,
  Assessment, assessed_result, store_assessment, assess_frame, cached_or_assess, assessment_key_for,
  assess_at, peek_session_capability, require_managed_authority, frame_key, get_managed_frame,
  get_managed_assessment,
}
use data_quality_toolkit.Loading.Authority.{require_managed_authority_iff}
use data_quality_toolkit.Loading.Bounded.{
  length-bounded_store-le, All-bounded_store, All-get, same_assessment_key-true,
}
use data_quality_toolkit.Loading.Frames.{
  IsAuthorized-key, not_refused, IsAuthorized, IsRead, IsFramed, get_managed_frame_sound,
}

module _ {V : Type 0} (digest : String → List (String × OptionValue V) → Option String) where
  -- The authority that an assessment is served by.
  pub record IsAllowed (session : Session) (options assessment_options : Options V)
      (key : AssessmentKey) : Type 0 where
    pub root : ManagedTrustRoot
    pub valid : get_valid_trust_root session ≡ some root
    pub anchored : peek_session_capability session ≡ some key.frame_key.session_anchor
    pub small : root.large_file_mode ≡ false
    pub same_key :
        key.frame_key ≡ frame_key key.frame_key.session_anchor root key.frame_key.parser_fingerprint
    pub same_parser :
        compute_parser_fingerprint digest options ≡ ok key.frame_key.parser_fingerprint
    pub same_rules :
        compute_assessment_fingerprint digest assessment_options ≡ ok key.assessment_fingerprint

  -- The frame and the assessment of one session and the same options have one frame key.
  allowed-key :
      (session : Session) (options assessment_options : Options V) (k : CanonicalFrameKey)
      (key : AssessmentKey)
      → IsAuthorized digest session options k
      → IsAllowed session options assessment_options key
      → k ≡ key.frame_key
  allowed-key session options assessment_options k key a b =
      IsAuthorized-key digest session options k a
      ∙ ((λ i. frame_key (anchor i) (roots i) (fingerprint i)) ∙ sym b.same_key)
    where
      roots : a.root ≡ b.root
      roots = cc (sym a.valid ∙ b.valid)

      anchor : k.session_anchor ≡ key.frame_key.session_anchor
      anchor = cc (sym a.anchored ∙ b.anchored)

      fingerprint : k.parser_fingerprint ≡ key.frame_key.parser_fingerprint
      fingerprint = cc (sym a.same_parser ∙ b.same_parser)

-- `Seen` are the worlds and the readers, and `Judges` the assessors, that calls are made with.
module _ {V F A : Type 0} (digest : String → List (String × OptionValue V) → Option String)
    (Seen : World → (String → Options V → ReadOutcome F) → Type 0)
    (Judges : (F → Assessed A F) → Type 0) where
  -- An assessor that a call was made with gave the assessment, in which no frame stands, of a frame
  -- that was read for the key, with options of the key's fingerprint.
  pub record IsAssessed (key : AssessmentKey) (items : Assessment A F) : Type 0 where
    pub assessed : F
    pub read : IsRead digest Seen key.frame_key assessed
    pub assessor : F → Assessed A F
    pub judges : Judges assessor
    pub result : assessor assessed ≡ assessment items
    pub frameless : any (λ (item : String × AssessedValue A F). is_frame item.1) items ≡ false
    pub options : Options V
    pub same_rules : compute_assessment_fingerprint digest options ≡ ok key.assessment_fingerprint

  -- Both caches keep to their bounds, and what they hold stands under the key it was made for.
  abbrev pub IsKept : Loader F (Assessment A F) → Type 0
  IsKept s =
      IsFramed digest Seen s.frames
      × (length s.assessments ≤ assessment_cache_max_entries)
      × All (λ (e : AssessmentKey × Assessment A F). IsAssessed e.0 e.1) s.assessments

  assessed_result-ok :
      (r : Assessed A F) (items : Assessment A F)
      → assessed_result r ≡ ok items
      → (r ≡ assessment items)
        × (any (λ (item : String × AssessedValue A F). is_frame item.1) items ≡ false)
  assessed_result-ok not_a_mapping items h = cc
  assessed_result-ok assessor_failed items h = cc
  assessed_result-ok (assessment found) items h =
      by_test (any (λ (item : String × AssessedValue A F). is_frame item.1) found) refl h
    where
      by_test :
          (b : Bool)
          → any (λ (item : String × AssessedValue A F). is_frame item.1) found ≡ b
          → ◌≡◌ {A = Result LoadError (Assessment A F)}
              (if b then err (refused assessment_invalid) else ok found)
              (ok items)
          → (◌≡◌ {A = Assessed A F} (assessment found) (assessment items))
            × (any (λ (item : String × AssessedValue A F). is_frame item.1) items ≡ false)
      by_test true e g = cc
      by_test false e g = (
        ap assessment (same g),
        subst (λ xs. any (λ (item : String × AssessedValue A F). is_frame item.1) xs ≡ false)
            (same g) e,
      )
        where
          same : ◌≡◌ {A = Result LoadError (Assessment A F)} (ok found) (ok items) → found ≡ items
          same g = cc g

  -- What becomes of a call.
  abbrev pub IsGiven :
      AssessmentKey
      → Loader F (Assessment A F)
      → Result LoadError (Assessment A F) × Loader F (Assessment A F)
      → Type 0
  IsGiven key s (r, s') =
      Yields (λ items. IsAssessed key items) r × IsKept s' × (s'.session ≡ s.session)

  stored :
      (key : AssessmentKey) (s : Loader F (Assessment A F)) (r : Result LoadError (Assessment A F))
      (world : World)
      → IsKept s
      → ((items : Assessment A F) → r ≡ ok items → IsAssessed key items)
      → IsGiven key s (store_assessment digest world key s r)
  stored key s (err e) world kept made = (tt, kept, refl)
  stored key s (ok items) world (framed, few, all) made = (
    made items refl,
    (
      framed,
      length-bounded_store-le same_assessment_key s.assessments key items 15,
      All-bounded_store same_assessment_key (λ k x. IsAssessed k x) s.assessments key items
          assessment_cache_max_entries
          (λ k e.
            subst (λ j. IsAssessed j items) (sym (same_assessment_key-true k key e))
              (made items refl))
          (made items refl) all,
    ),
    refl,
  )

  module _ (world : World) (reader : String → Options V → ReadOutcome F) (seen : Seen world reader)
      (assessor : F → Assessed A F) (judges : Judges assessor) where
    assessed_lem :
        (options assessment_options : Options V) (key : AssessmentKey)
        (s : Loader F (Assessment A F)) (o : Result LoadReason (F × Loader F (Assessment A F)))
        → IsKept s
        → IsAllowed digest s.session options assessment_options key
        → get_managed_frame digest world reader options s ≡ o
        → IsGiven key s (assess_frame digest world assessor key s o)
    assessed_lem options assessment_options key s (err reason) kept allowed e = (tt, kept, refl)
    assessed_lem options assessment_options key s (ok (f, s')) (framed, few, all) allowed e =
        let (k, authorized, (read, framed', found, session, assessments)) =
          get_managed_frame_sound digest Seen world reader seen options s s' f framed e in
        let same : k ≡ key.frame_key =
          allowed-key digest s.session options assessment_options k key authorized allowed in
        let rest : (length s'.assessments ≤ assessment_cache_max_entries)
            × All (λ (e : AssessmentKey × Assessment A F). IsAssessed e.0 e.1) s'.assessments =
          subst
            (λ (xs : List (AssessmentKey × Assessment A F)).
              (length xs ≤ assessment_cache_max_entries)
              × All (λ (e : AssessmentKey × Assessment A F). IsAssessed e.0 e.1) xs)
            (sym assessments) (few, all) in
        let (given, kept', session') =
          stored key s' (assessed_result (assessor f)) world (framed', rest.0, rest.1)
            (λ items h.
              let (result, frameless) = assessed_result-ok (assessor f) items h in
              record {
                assessed = f;
                read = subst (λ j. IsRead digest Seen j f) same read;
                assessor = assessor;
                judges = judges;
                result = result;
                frameless = frameless;
                options = assessment_options;
                same_rules = allowed.same_rules;
              }) in
        (given, kept', session' ∙ session)

    cached_lem :
        (options assessment_options : Options V) (key : AssessmentKey)
        (s : Loader F (Assessment A F)) (o : Option (Assessment A F))
        → IsKept s
        → IsAllowed digest s.session options assessment_options key
        → get same_assessment_key key s.assessments ≡ o
        → IsGiven key s (cached_or_assess digest world assessor reader options s key o)
    cached_lem options assessment_options key s none kept allowed e =
        assessed_lem options assessment_options key s
          (get_managed_frame digest world reader options s) kept allowed refl
    cached_lem options assessment_options key s (some cached) (framed, few, all) allowed e = (
      All-get same_assessment_key (λ k x. IsAssessed k x) key cached s.assessments
          (λ k q made. subst (λ j. IsAssessed j cached) (same_assessment_key-true k key q) made) all
          e,
      (framed, few, all),
      refl,
    )

    assessment_key_for-IsAllowed :
        (options assessment_options : Options V) (s : Loader F (Assessment A F))
        (key : AssessmentKey)
        → assessment_key_for digest world options assessment_options s ≡ ok key
        → IsAllowed digest s.session options assessment_options key
    unfolding assessment_key_for
    assessment_key_for-IsAllowed options assessment_options s key h =
        let ((root, c), authority, h1) = >>=-eq-ok (require_managed_authority s.session) _ h in
        let (small, h2) = not_refused root.large_file_mode large_mode_refused _ key h1 in
        let (fp, parser, h3) = >>=-eq-ok (compute_parser_fingerprint digest options) _ h2 in
        let (rules, fingerprinted, h4) =
          >>=-eq-ok (compute_assessment_fingerprint digest assessment_options) _ h3 in
        let (valid, live) = (require_managed_authority_iff s.session root c).0 authority in
        subst (IsAllowed digest s.session options assessment_options) (same root c fp rules h4)
          (record {
            root = root;
            valid = valid;
            anchored = live;
            small = small;
            same_key = refl;
            same_parser = parser;
            same_rules = fingerprinted;
          })
      where
        same :
            (root : ManagedTrustRoot) (c : ℕ) (fp rules : String)
            → ◌≡◌ {A = Result LoadReason AssessmentKey}
                (ok (record { frame_key = frame_key c root fp; assessment_fingerprint = rules }))
                (ok key)
            → ◌≡◌ {A = AssessmentKey}
                (record { frame_key = frame_key c root fp; assessment_fingerprint = rules })
                key
        same root c fp rules h = cc h

    -- What a call of `get_managed_assessment` returns and leaves.
    abbrev pub IsAnswered :
        Options V
        → Options V
        → Loader F (Assessment A F)
        → Result LoadError (Assessment A F) × Loader F (Assessment A F)
        → Type 0
    IsAnswered options assessment_options s out =
        Yields
          (λ items.
            (key : AssessmentKey) × IsAllowed digest s.session options assessment_options key
            × IsAssessed key items)
          out.0
        × IsKept out.1
        × (out.1.session ≡ s.session)

    -- An assessment that `get_managed_assessment` returns belongs to the valid trust root of the
    -- session and to the options of the call: an assessor gave it, now or before with options of the
    -- same fingerprint, of a frame that was read for the same key, and no frame stands in it. In every
    -- case, errors included, the session stays as it was and both caches keep their bounds and sense.
    pub get_managed_assessment_sound :
        (options assessment_options : Options V) (s : Loader F (Assessment A F))
        → IsKept s
        → IsAnswered options assessment_options s
            (get_managed_assessment digest world assessor reader options assessment_options s)
    unfolding get_managed_assessment
    get_managed_assessment_sound options assessment_options s kept =
        by_key (assessment_key_for digest world options assessment_options s) refl
      where
        by_key :
            (r : Result LoadReason AssessmentKey)
            → assessment_key_for digest world options assessment_options s ≡ r
            → IsAnswered options assessment_options s
                (assess_at digest world assessor reader options s r)
        by_key (err reason) e = (tt, kept, refl)
        by_key (ok key) e =
            let allowed = assessment_key_for-IsAllowed options assessment_options s key e in
            let (given, kept', session') =
              cached_lem options assessment_options key s
                (get same_assessment_key key s.assessments) kept allowed refl in
            (
              under_key
                  (cached_or_assess digest world assessor reader options s key
                    (get same_assessment_key key s.assessments)).0
                  given,
              kept',
              session',
            )
          where
            under_key :
                (r : Result LoadError (Assessment A F))
                → Yields (λ items. IsAssessed key items) r
                → Yields
                    (λ items.
                      (key : AssessmentKey) × IsAllowed digest s.session options assessment_options
                        key
                      × IsAssessed key items)
                    r
            under_key (err e) given = tt
            under_key (ok items) given =
                (key, assessment_key_for-IsAllowed options assessment_options s key e, given)
