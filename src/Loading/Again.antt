-- ===== src/Loading/Again.antt =====
-- A frame that `get_managed_frame` has returned is returned again without reading.
use data_quality_toolkit.Prelude.{
  ◌≡◌, sym, ◌∙◌, ap, subst, String, Bool, true, false, Option, some, List, Result, ok, ◌>>=◌, ◌>>◌,
}
use data_quality_toolkit.Session.{CanonicalFrameKey, ManagedTrustRoot}
use data_quality_toolkit.Loading.{
  LoadReason, large_mode_refused, full_size_exceeded, World, OptionValue,
}
use data_quality_toolkit.Loading.Options.{Options, compute_parser_fingerprint}
use data_quality_toolkit.Loading.Source.{exceeds_full}
use data_quality_toolkit.Loading.Caches.{same_frame_key, get, Loader}
use data_quality_toolkit.Loading.Dispatch.{
  ReadOutcome, require_managed_authority, refuse_if, frame_key, cached_or_load, get_managed_frame,
}
use data_quality_toolkit.Loading.Authority.{require_managed_authority_iff}
use data_quality_toolkit.Loading.Frames.{IsAuthorized-key, IsFramed, get_managed_frame_sound}

then_ok :
    {A B : Type 0} (r : Result LoadReason A) (next : A → Result LoadReason B) (a : A) (b : B)
    → r ≡ ok a
    → next a ≡ ok b
    → (r >>= next) ≡ ok b
then_ok r next a b e h = subst (λ x. (x >>= next) ≡ ok b) (sym e) h

let_through :
    {A : Type 0} (b : Bool) (reason : LoadReason) (m : Result LoadReason A) (x : A)
    → b ≡ false
    → m ≡ ok x
    → (refuse_if b reason >> m) ≡ ok x
let_through true reason m x h g = cc
let_through false reason m x h g = g

module _ {V F A : Type 0} (digest : String → List (String × OptionValue V) → Option String) where
  served :
      (world : World) (reader : String → Options V → ReadOutcome F) (options : Options V)
      (key : CanonicalFrameKey) (root : ManagedTrustRoot) (s : Loader F A) (f : F)
      → require_managed_authority s.session ≡ ok (root, key.session_anchor)
      → root.large_file_mode ≡ false
      → exceeds_full root.size_bytes ≡ false
      → compute_parser_fingerprint digest options ≡ ok key.parser_fingerprint
      → get same_frame_key (frame_key key.session_anchor root key.parser_fingerprint) s.frames
        ≡ some f
      → get_managed_frame digest world reader options s ≡ ok (f, s)
  unfolding get_managed_frame
  served world reader options key root s f authority small fits parser cached =
      then_ok (require_managed_authority s.session) _ (root, key.session_anchor) (f, s) authority
        (let_through root.large_file_mode large_mode_refused _ (f, s) small
          (let_through (exceeds_full root.size_bytes) full_size_exceeded _ (f, s) fits
            (then_ok (compute_parser_fingerprint digest options) _ key.parser_fingerprint (f, s)
              parser
              (ap
                (cached_or_load digest world reader options root
                  (frame_key key.session_anchor root key.parser_fingerprint) s)
                cached))))

  -- After a call that returned a frame, a call with options of the same fingerprint returns the same
  -- frame and changes nothing, whatever the files and the reader are by then; the cache before the
  -- first call is one that keeps its bound and its sense.
  pub get_managed_frame_again :
      (Seen : World → (String → Options V → ReadOutcome F) → Type 0) (world : World)
      (reader : String → Options V → ReadOutcome F)
      → Seen world reader
      → (options : Options V) (s s' : Loader F A) (f : F) → IsFramed digest Seen s.frames
      → get_managed_frame digest world reader options s ≡ ok (f, s')
      → (later : World) (other : String → Options V → ReadOutcome F) (again : Options V)
      → compute_parser_fingerprint digest again ≡ compute_parser_fingerprint digest options
      → get_managed_frame digest later other again s' ≡ ok (f, s')
  get_managed_frame_again Seen world reader seen options s s' f framed h later other again same =
      let (key, allowed, (read, kept, found, session, assessments)) =
        get_managed_frame_sound digest Seen world reader seen options s s' f framed h in
      let root = allowed.root in
      let anchor = key.session_anchor in
      served later other again key root s' f
        (ap require_managed_authority session
          ∙ (require_managed_authority_iff s.session root anchor).1
              (allowed.valid, allowed.anchored))
        allowed.small allowed.fits (same ∙ allowed.same_parser)
        (subst (λ k. get same_frame_key k s'.frames ≡ some f)
          (IsAuthorized-key digest s.session options key allowed) found)
