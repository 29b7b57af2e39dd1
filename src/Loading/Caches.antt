-- ===== src/Loading/Caches.antt =====
-- The two caches of managed_frame_loader.py, which keep what was stored first at the front.
use data_quality_toolkit.Prelude.{
  ℕ, Bool, ◌&&◌, Option, none, some, List, [], ◌∷◌, length, leb, eqb, ◌==◌, if◌then◌else◌,
}
use data_quality_toolkit.Session.{Session, CanonicalFrameKey}
use data_quality_toolkit.Loading.{AssessmentKey}

abbrev pub frame_cache_max_entries : ℕ
frame_cache_max_entries = 4

abbrev pub assessment_cache_max_entries : ℕ
assessment_cache_max_entries = 16

abbrev pub same_frame_key : CanonicalFrameKey → CanonicalFrameKey → Bool
same_frame_key a b =
    eqb a.session_anchor b.session_anchor
    && (a.version_id == b.version_id)
    && (a.content_id == b.content_id)
    && (a.mode == b.mode)
    && (a.parser_fingerprint == b.parser_fingerprint)

abbrev pub same_assessment_key : AssessmentKey → AssessmentKey → Bool
same_assessment_key a b =
    same_frame_key a.frame_key b.frame_key && (a.assessment_fingerprint == b.assessment_fingerprint)

module _ {K A : Type 0} where
  unfoldable pub get : (K → K → Bool) → K → List (K × A) → Option A
  get same key [] = none
  get same key ((k, a) ∷ cache) = if same k key then some a else get same key cache

  abbrev pub put : (K → K → Bool) → K → A → List (K × A) → List (K × A)
  put same key a [] = (key, a) ∷ []
  put same key a ((k, b) ∷ cache) =
      let rest = put same key a cache in if same k key then (k, a) ∷ cache else (k, b) ∷ rest

  -- `while len(cache) >= max_entries`: the oldest entry goes. Of an empty cache `next` raises, which a
  -- bound above zero rules out.
  abbrev pub evict : ℕ → List (K × A) → List (K × A)
  evict max_entries [] = []
  evict max_entries (e ∷ cache) =
      let rest = evict max_entries cache in
      if leb max_entries (length (e ∷ cache)) then rest else e ∷ cache

  unfoldable pub bounded_store : (K → K → Bool) → List (K × A) → K → A → ℕ → List (K × A)
  bounded_store same cache key a max_entries = put same key a (evict max_entries cache)

-- The session and the two caches, which the process holds.
pub record Loader (F A : Type 0) : Type 0 where
  pub session : Session
  pub frames : List (CanonicalFrameKey × F)
  pub assessments : List (AssessmentKey × A)

-- `clear_managed_caches`, which is the invalidation hook.
abbrev pub clear_managed_caches : {F A : Type 0} → Loader F A → Loader F A
clear_managed_caches s = record s { frames = []; assessments = [] }
