-- ===== src/Loading/Bounded.antt =====
-- What `_bounded_store` and a lookup do.
use data_quality_toolkit.Prelude.{
  ℕ, String, ◌&&◌, ◌==◌, eq_iff, subst, suc, ◌≤◌, ◌<◌, ◌≡◌, refl, Bool, true, false, some, List, [],
  ◌∷◌, length, All, leb, eqb, eq_refl, arith, if◌then◌else◌,
}
use data_quality_toolkit.Session.{CanonicalFrameKey}
use data_quality_toolkit.Loading.{AssessmentKey}
use data_quality_toolkit.Loading.Caches.{
  same_frame_key, same_assessment_key, get, put, evict, bounded_store,
}

both : (a b : Bool) → (a && b) ≡ true → (a ≡ true) × (b ≡ true)
both true true h = (refl, refl)
both true false h = cc
both false b h = cc

text_same : (a b : String) → (a == b) ≡ true → a ≡ b
text_same a b h = ground (arith, eq_iff a b)

number_same : (a b : ℕ) → eqb a b ≡ true → a ≡ b
number_same a b h = ground arith

pub same_frame_key-true : (a b : CanonicalFrameKey) → same_frame_key a b ≡ true → a ≡ b
same_frame_key-true a b h =
    let (h1, fingerprint) = both _ _ h in
    let (h2, mode) = both _ _ h1 in
    let (h3, content) = both _ _ h2 in
    let (anchor, version) = both _ _ h3 in
    equal (number_same a.session_anchor b.session_anchor anchor)
      (text_same a.version_id b.version_id version) (text_same a.content_id b.content_id content)
      (text_same a.mode b.mode mode)
      (text_same a.parser_fingerprint b.parser_fingerprint fingerprint)
  where
    equal :
        a.session_anchor ≡ b.session_anchor
        → a.version_id ≡ b.version_id
        → a.content_id ≡ b.content_id
        → a.mode ≡ b.mode
        → a.parser_fingerprint ≡ b.parser_fingerprint
        → a ≡ b
    equal p q r s t = λ i. record {
      session_anchor = p i;
      version_id = q i;
      content_id = r i;
      mode = s i;
      parser_fingerprint = t i;
    }

pub same_assessment_key-true : (a b : AssessmentKey) → same_assessment_key a b ≡ true → a ≡ b
same_assessment_key-true a b h =
    let (frame_same, fingerprint) = both _ _ h in
    equal (same_frame_key-true a.frame_key b.frame_key frame_same)
      (text_same a.assessment_fingerprint b.assessment_fingerprint fingerprint)
  where
    equal : a.frame_key ≡ b.frame_key → a.assessment_fingerprint ≡ b.assessment_fingerprint → a ≡ b
    equal p q = λ i. record { frame_key = p i; assessment_fingerprint = q i }

pub same_frame_key_refl : (a : CanonicalFrameKey) → same_frame_key a a ≡ true
same_frame_key_refl a = ground (
  arith,
  eq_refl a.version_id,
  eq_refl a.content_id,
  eq_refl a.mode,
  eq_refl a.parser_fingerprint,
)

module _ {K A : Type 0} (same : K → K → Bool) where
  length-evict-lt : (m : ℕ) (cache : List (K × A)) → length (evict (suc m) cache) < suc m
  length-evict-lt m [] = omega arith
  length-evict-lt m (e ∷ cache) = ground (arith, length-evict-lt m cache)

  length-put-le :
      (key : K) (a : A) (cache : List (K × A)) → length (put same key a cache) ≤ suc (length cache)
  length-put-le key a [] = omega arith
  length-put-le key a ((k, b) ∷ cache) = ground (arith, length-put-le key a cache)

  pub length-bounded_store-le :
      (cache : List (K × A)) (key : K) (a : A) (m : ℕ)
      → length (bounded_store same cache key a (suc m)) ≤ suc m
  unfolding bounded_store
  length-bounded_store-le cache key a m =
      omega (arith, length-put-le key a (evict (suc m) cache), length-evict-lt m cache)

  get-put :
      (key : K) (a : A) (cache : List (K × A))
      → same key key ≡ true
      → get same key (put same key a cache) ≡ some a
  unfolding get
  get-put key a [] h = simp h
  get-put key a ((k, b) ∷ cache) h = by_test (same k key) refl (get-put key a cache h)
    where
      by_test :
          (t : Bool)
          → same k key ≡ t
          → get same key (put same key a cache) ≡ some a
          → get same key (if t then (k, a) ∷ cache else (k, b) ∷ put same key a cache) ≡ some a
      by_test true e rest = simp e
      by_test false e rest = simp (e, rest)

  -- The value that was stored is found.
  pub get-bounded_store :
      (cache : List (K × A)) (key : K) (a : A) (m : ℕ)
      → same key key ≡ true
      → get same key (bounded_store same cache key a m) ≡ some a
  unfolding bounded_store get
  get-bounded_store cache key a m h = get-put key a (evict m cache) h

  module _ (P : K → A → Type 0) where
    All-evict :
        (m : ℕ) (cache : List (K × A))
        → All (λ (e : K × A). P e.0 e.1) cache
        → All (λ (e : K × A). P e.0 e.1) (evict m cache)
    All-evict m [] h = tt
    All-evict m (e ∷ cache) (h, hs) = by_test (leb m (length (e ∷ cache))) (All-evict m cache hs)
      where
        by_test :
            (b : Bool)
            → All (λ (e : K × A). P e.0 e.1) (evict m cache)
            → All (λ (e : K × A). P e.0 e.1) (if b then evict m cache else e ∷ cache)
        by_test true rest = rest
        by_test false rest = (h, hs)

    -- `P` of the new entry under the keys that are the same as its own.
    All-put :
        (key : K) (a : A) (cache : List (K × A))
        → ((k : K) → same k key ≡ true → P k a)
        → P key a
        → All (λ (e : K × A). P e.0 e.1) cache
        → All (λ (e : K × A). P e.0 e.1) (put same key a cache)
    All-put key a [] p q h = (q, tt)
    All-put key a ((k, b) ∷ cache) p q (h, hs) =
        by_test (same k key) refl (All-put key a cache p q hs)
      where
        by_test :
            (t : Bool)
            → same k key ≡ t
            → All (λ (e : K × A). P e.0 e.1) (put same key a cache)
            → All
                (λ (e : K × A). P e.0 e.1)
                (if t then (k, a) ∷ cache else (k, b) ∷ put same key a cache)
        by_test true e rest = (p k e, hs)
        by_test false e rest = (h, rest)

    pub All-bounded_store :
        (cache : List (K × A)) (key : K) (a : A) (m : ℕ)
        → ((k : K) → same k key ≡ true → P k a)
        → P key a
        → All (λ (e : K × A). P e.0 e.1) cache
        → All (λ (e : K × A). P e.0 e.1) (bounded_store same cache key a m)
    unfolding bounded_store
    All-bounded_store cache key a m p q h = All-put key a (evict m cache) p q (All-evict m cache h)

    pub All-get :
        (key : K) (a : A) (cache : List (K × A))
        → ((k : K) → same k key ≡ true → P k a → P key a)
        → All (λ (e : K × A). P e.0 e.1) cache
        → get same key cache ≡ some a
        → P key a
    unfolding get
    All-get key a [] p h e = cc
    All-get key a ((k, b) ∷ cache) p (h, hs) e =
        by_test (same k key) refl e (All-get key a cache p hs)
      where
        by_test :
            (t : Bool)
            → same k key ≡ t
            → (if t then some b else get same key cache) ≡ some a
            → (get same key cache ≡ some a → P key a)
            → P key a
        by_test true q g rest = p k q (subst (P k) (value g) h)
          where
            value : some b ≡ some a → b ≡ a
            value g = cc g
        by_test false q g rest = rest g
