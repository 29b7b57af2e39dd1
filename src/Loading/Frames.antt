-- ===== src/Loading/Frames.antt =====
-- Which frames the cache of managed_frame_loader.py holds and `get_managed_frame` returns.
use data_quality_toolkit.Prelude.{
  ℕ, ◌≤◌, ◌≡◌, refl, sym, ap, subst, String, Bool, true, false, Option, none, some, List, length,
  All, Result, ok, ◌>>◌, >>=-eq-ok,
}
use data_quality_toolkit.Session.{CanonicalFrameKey, ManagedTrustRoot, Session}
use data_quality_toolkit.Session.Trust.{get_valid_trust_root}
use data_quality_toolkit.Loading.{
  LoadReason, large_mode_refused, full_size_exceeded, World, OptionValue,
}
use data_quality_toolkit.Loading.Options.{Options, compute_parser_fingerprint}
use data_quality_toolkit.Loading.Source.{exceeds_full}
use data_quality_toolkit.Loading.Caches.{
  frame_cache_max_entries, same_frame_key, get, bounded_store, Loader,
}
use data_quality_toolkit.Loading.Dispatch.{
  ReadOutcome, frame, not_a_frame, read_failed, load_refused, peek_session_capability,
  require_managed_authority, refuse_if, refuse_for, read_result, revalidate_source, frame_key,
  load_frame, cached_or_load, get_managed_frame,
}
use data_quality_toolkit.Loading.Authority.{require_managed_authority_iff}
use data_quality_toolkit.Loading.Stages.{IsTrusted, verify_managed_source_iff}
use data_quality_toolkit.Loading.Bounded.{
  length-bounded_store-le, get-bounded_store, All-bounded_store, All-get, same_frame_key-true,
  same_frame_key_refl,
}

pub not_refused :
    {A : Type 0} (b : Bool) (reason : LoadReason) (m : Result LoadReason A) (x : A)
    → (refuse_if b reason >> m) ≡ ok x
    → (b ≡ false) × (m ≡ ok x)
not_refused true reason m x h = cc
not_refused false reason m x h = (refl, h)

pub not_refused_for :
    {A : Type 0} (o : Option LoadReason) (m : Result LoadReason A) (x : A)
    → (refuse_for o >> m) ≡ ok x
    → (o ≡ none) × (m ≡ ok x)
not_refused_for none m x h = (refl, h)
not_refused_for (some reason) m x h = cc

pub read_result-ok : {F : Type 0} (r : ReadOutcome F) (f : F) → read_result r ≡ ok f → r ≡ frame f
read_result-ok (frame g) f h = ap frame (cc h)
read_result-ok not_a_frame f h = cc
read_result-ok read_failed f h = cc
read_result-ok (load_refused reason) f h = cc

pub revalidate_source-IsTrusted :
    (world : World) (root : ManagedTrustRoot)
    → revalidate_source world root ≡ none
    → IsTrusted world root.locator.absolute_path root.locator.relative_posix root.size_bytes
        root.modified_ns none
unfolding revalidate_source
revalidate_source-IsTrusted world root =
    (verify_managed_source_iff world root.locator.absolute_path root.locator.relative_posix
      root.size_bytes root.modified_ns none).0

module _ {V : Type 0} (digest : String → List (String × OptionValue V) → Option String) where
  -- The authority that a frame is served by.
  pub record IsAuthorized (session : Session) (options : Options V) (key : CanonicalFrameKey)
      : Type 0 where
    pub root : ManagedTrustRoot
    pub valid : get_valid_trust_root session ≡ some root
    pub anchored : peek_session_capability session ≡ some key.session_anchor
    pub small : root.large_file_mode ≡ false
    pub fits : exceeds_full root.size_bytes ≡ false
    pub same_version : root.version_id ≡ key.version_id
    pub same_content : root.content_id ≡ key.content_id
    pub same_parser : compute_parser_fingerprint digest options ≡ ok key.parser_fingerprint
    pub full_mode : key.mode ≡ "full"

  pub IsAuthorized-key :
      (session : Session) (options : Options V) (key : CanonicalFrameKey)
      (a : IsAuthorized session options key)
      → key ≡ frame_key key.session_anchor a.root key.parser_fingerprint
  IsAuthorized-key session options key a = λ i. record {
    session_anchor = key.session_anchor;
    version_id = sym a.same_version i;
    content_id = sym a.same_content i;
    mode = a.full_mode i;
    parser_fingerprint = key.parser_fingerprint;
  }

-- `Seen` are the worlds and the readers that calls are made with.
module _ {V F : Type 0} (digest : String → List (String × OptionValue V) → Option String)
    (Seen : World → (String → Options V → ReadOutcome F) → Type 0) where
  -- A reader that a call was made with read the frame from the file of a root with the version and
  -- the content of the key, which was the trusted one then, with options of the key's fingerprint.
  pub record IsRead (key : CanonicalFrameKey) (f : F) : Type 0 where
    pub world : World
    pub reader : String → Options V → ReadOutcome F
    pub seen : Seen world reader
    pub options : Options V
    pub root : ManagedTrustRoot
    pub same_version : root.version_id ≡ key.version_id
    pub same_content : root.content_id ≡ key.content_id
    pub same_parser : compute_parser_fingerprint digest options ≡ ok key.parser_fingerprint
    pub trusted :
        IsTrusted world root.locator.absolute_path root.locator.relative_posix root.size_bytes
          root.modified_ns none
    pub read : reader root.locator.absolute_path options ≡ frame f

  -- The frame cache keeps to its bound, and each frame stands under the key it was read for.
  abbrev pub IsFramed : List (CanonicalFrameKey × F) → Type 0
  IsFramed frames =
      (length frames ≤ frame_cache_max_entries)
      × All (λ (e : CanonicalFrameKey × F). IsRead e.0 e.1) frames

  module _ {A : Type 0} (world : World) (reader : String → Options V → ReadOutcome F)
      (seen : Seen world reader) where
    -- What a frame that is returned has, and what becomes of the loader.
    abbrev pub IsServed : CanonicalFrameKey → F → Loader F A → Loader F A → Type 0
    IsServed key f s s' =
        IsRead key f
        × IsFramed s'.frames
        × (get same_frame_key key s'.frames ≡ some f)
        × (s'.session ≡ s.session)
        × (s'.assessments ≡ s.assessments)

    stored :
        (key : CanonicalFrameKey) (s : Loader F A) (f : F)
        → IsFramed s.frames
        → IsRead key f
        → IsServed key f s (record s {
          frames = bounded_store same_frame_key s.frames key f frame_cache_max_entries;
        })
    stored key s f (few, all) read = (
      read,
      (
        length-bounded_store-le same_frame_key s.frames key f 3,
        All-bounded_store same_frame_key (λ k g. IsRead k g) s.frames key f frame_cache_max_entries
            (λ k e. subst (λ j. IsRead j f) (sym (same_frame_key-true k key e)) read) read all,
      ),
      get-bounded_store same_frame_key s.frames key f frame_cache_max_entries
          (same_frame_key_refl key),
      refl,
      refl,
    )

    loaded :
        (options : Options V) (root : ManagedTrustRoot) (c : ℕ) (fp : String) (s s' : Loader F A)
        (f : F)
        → compute_parser_fingerprint digest options ≡ ok fp
        → IsFramed s.frames
        → load_frame digest world reader options root (frame_key c root fp) s ≡ ok (f, s')
        → IsServed (frame_key c root fp) f s s'
    loaded options root c fp s s' f parser framed h =
        let (checked, h1) = not_refused_for (revalidate_source world root) _ (f, s') h in
        let (g, read, h2) =
          >>=-eq-ok (read_result (reader root.locator.absolute_path options)) _ h1 in
        served g (read_result-ok (reader root.locator.absolute_path options) g read) checked h2
      where
        served :
            (g : F)
            → reader root.locator.absolute_path options ≡ frame g
            → revalidate_source world root ≡ none
            → ◌≡◌ {A = Result LoadReason (F × Loader F A)}
                (ok (
                  g,
                  record s {
                    frames =
                        bounded_store same_frame_key s.frames
                          (frame_key c root fp)
                          g
                          frame_cache_max_entries;
                  },
                ))
                (ok (f, s'))
            → IsServed (frame_key c root fp) f s s'
        served g read checked e =
            subst (λ (p : F × Loader F A). IsServed (frame_key c root fp) p.0 s p.1) (cc e)
              (stored (frame_key c root fp) s g framed (record {
                world = world;
                reader = reader;
                seen = seen;
                options = options;
                root = root;
                same_version = refl;
                same_content = refl;
                same_parser = parser;
                trusted = revalidate_source-IsTrusted world root checked;
                read = read;
              }))

    cached_or_loaded :
        (options : Options V) (root : ManagedTrustRoot) (c : ℕ) (fp : String) (s s' : Loader F A)
        (f : F) (o : Option F)
        → compute_parser_fingerprint digest options ≡ ok fp
        → IsFramed s.frames
        → get same_frame_key (frame_key c root fp) s.frames ≡ o
        → cached_or_load digest world reader options root (frame_key c root fp) s o ≡ ok (f, s')
        → IsServed (frame_key c root fp) f s s'
    cached_or_loaded options root c fp s s' f none parser framed e h =
        loaded options root c fp s s' f parser framed h
    cached_or_loaded options root c fp s s' f (some cached) parser framed e h =
        subst (λ (p : F × Loader F A). IsServed (frame_key c root fp) p.0 s p.1) (cc h)
          (
            All-get same_frame_key (λ k g. IsRead k g) (frame_key c root fp) cached s.frames
                (λ k q read.
                  subst (λ j. IsRead j cached) (same_frame_key-true k (frame_key c root fp) q) read)
                framed.1 e,
            framed,
            e,
            refl,
            refl,
          )

    -- The steps that a call has passed where it returns.
    get_managed_frame_steps :
        (options : Options V) (s s' : Loader F A) (f : F)
        → get_managed_frame digest world reader options s ≡ ok (f, s')
        → (root : ManagedTrustRoot) × (c : ℕ) × (fp : String) × (require_managed_authority s.session
            ≡ ok (root, c))
          × (root.large_file_mode ≡ false)
          × (exceeds_full root.size_bytes ≡ false)
          × (compute_parser_fingerprint digest options ≡ ok fp)
          × (cached_or_load digest world reader options root
                (frame_key c root fp)
                s
                (get same_frame_key (frame_key c root fp) s.frames)
              ≡ ok (f, s'))
    unfolding get_managed_frame
    get_managed_frame_steps options s s' f h =
        let ((root, c), authority, h1) = >>=-eq-ok (require_managed_authority s.session) _ h in
        let (small, h2) = not_refused root.large_file_mode large_mode_refused _ (f, s') h1 in
        let (fits, h3) =
          not_refused (exceeds_full root.size_bytes) full_size_exceeded _ (f, s') h2 in
        let (fp, parser, h4) = >>=-eq-ok (compute_parser_fingerprint digest options) _ h3 in
        (root, c, fp, authority, small, fits, parser, h4)

    -- A frame that `get_managed_frame` returns belongs to the valid trust root of the session: it was
    -- read, now or before, from the trusted file of a root of that version and content with options
    -- of the same fingerprint, and is the one cached under the key of the live capability. Neither
    -- the session nor the assessments change, and the frame cache keeps its bound and its sense.
    pub get_managed_frame_sound :
        (options : Options V) (s s' : Loader F A) (f : F)
        → IsFramed s.frames
        → get_managed_frame digest world reader options s ≡ ok (f, s')
        → (key : CanonicalFrameKey) × IsAuthorized digest s.session options key
          × IsServed key f s s'
    get_managed_frame_sound options s s' f framed h =
        let (root, c, fp, authority, small, fits, parser, rest) =
          get_managed_frame_steps options s s' f h in
        let (valid, live) = (require_managed_authority_iff s.session root c).0 authority in
        (
          frame_key c root fp,
          record {
            root = root;
            valid = valid;
            anchored = live;
            small = small;
            fits = fits;
            same_version = refl;
            same_content = refl;
            same_parser = parser;
            full_mode = refl;
          },
          cached_or_loaded options root c fp s s' f
              (get same_frame_key (frame_key c root fp) s.frames) parser framed refl rest,
        )
