-- ===== src/Loading/Stages.antt =====
-- The stages of `verify_managed_source` against the conditions that they check.
use data_quality_toolkit.Prelude.{
  ℕ, ◌≡◌, ◌↔◌, refl, sym, ◌∙◌, ap, subst, String, Bool, true, false, not, ◌&&◌, Option, none, some,
  List, [], ◌∷◌, map, length, ◌==◌, arith, eq_iff, eq_refl, same_texts, concat, if◌then◌else◌,
}
use data_quality_toolkit.Session.{ℤ, pos, negsuc, same_int}
use data_quality_toolkit.Loading.{
  source_missing, source_replaced, source_not_confined, content_mismatch, Stat, World,
}
use data_quality_toolkit.Loading.Source.{
  last, content_id_of, check_bytes, check_content, check_stat, is_confined, check_resolved,
  verify_managed_source,
}
use data_quality_toolkit.Loading.Chunks.{content_id_of_whole}

same_texts-true : (xs ys : List String) → same_texts xs ys ≡ true → xs ≡ ys
same_texts-true [] [] h = refl
same_texts-true [] (y ∷ ys) h = cc
same_texts-true (x ∷ xs) [] h = cc
same_texts-true (x ∷ xs) (y ∷ ys) h = both (x == y) refl h (same_texts-true xs ys)
  where
    both :
        (a : Bool)
        → (x == y) ≡ a
        → (a && same_texts xs ys) ≡ true
        → (same_texts xs ys ≡ true → xs ≡ ys)
        → x ∷ xs ≡ y ∷ ys
    both false e g rest = cc
    both true e g rest = cc (first, rest g)
      where
        first : x ≡ y
        first = ground (arith, e, eq_iff x y)

same_texts_refl : (xs : List String) → same_texts xs xs ≡ true
same_texts_refl [] = refl
same_texts_refl (x ∷ xs) = ground (arith, eq_refl x, same_texts_refl xs)

same_int-true : (a b : ℤ) → same_int a b ≡ true → a ≡ b
same_int-true (pos a) (pos b) h = ap pos (ground arith)
same_int-true (pos a) (negsuc b) h = cc
same_int-true (negsuc a) (pos b) h = cc
same_int-true (negsuc a) (negsuc b) h = ap negsuc (ground arith)

same_int_refl : (a : ℤ) → same_int a a ≡ true
same_int_refl (pos a) = ground arith
same_int_refl (negsuc a) = ground arith

module _ {A : Type 0} where
  passed :
      (b : Bool) (x : A) (m : Option A)
      → (if not b then some x else m) ≡ none
      → (b ≡ true) × (m ≡ none)
  passed true x m h = (refl, h)
  passed false x m h = cc

  passes :
      (b : Bool) (x : A) (m : Option A) → b ≡ true → m ≡ none → (if not b then some x else m) ≡ none
  passes true x m e h = h
  passes false x m e h = cc

module _ (world : World) where
  -- The file can be read, and its SHA-256 is that of the identity, where one is given.
  abbrev pub HasContent : String → Option String → Type 0
  HasContent resolved none = Unit {0}
  HasContent resolved (some content_id) =
      (bytes : List ℕ) × (world.read_bytes resolved ≡ some bytes)
      × (concat ("sha256:" ∷ world.sha256_hex bytes ∷ []) ≡ content_id)

  -- The file at the path is the one that was trusted: the path leads to itself, ends in the relative
  -- path, and there is a regular file of the given size and time, with the content.
  abbrev pub IsTrusted : String → String → ℤ → ℤ → Option String → Type 0
  IsTrusted source_path relative_posix size_bytes modified_ns content_id =
      (resolved : String) × (st : Stat) × (world.resolve source_path ≡ some resolved)
      × (world.normcase resolved ≡ world.normcase source_path)
      × (map world.normcase
            (last (length (world.posix_parts relative_posix)) (world.parts resolved))
          ≡ map world.normcase (world.posix_parts relative_posix))
      × (world.stat resolved ≡ some st)
      × (st.is_regular ≡ true)
      × (st.st_size ≡ size_bytes)
      × (st.st_mtime_ns ≡ modified_ns)
      × HasContent resolved content_id

  content_checked :
      (resolved : String) (content_id : Option String)
      → check_content world resolved content_id ≡ none
      → HasContent resolved content_id
  content_checked resolved none h = tt
  content_checked resolved (some content_id) h = by_bytes (world.read_bytes resolved) refl h
    where
      by_bytes :
          (o : Option (List ℕ))
          → world.read_bytes resolved ≡ o
          → check_bytes world o content_id ≡ none
          → HasContent resolved (some content_id)
      by_bytes none e g = cc
      by_bytes (some bytes) e g =
          (bytes, e, by_test (content_id_of world bytes == content_id) refl g)
        where
          by_test :
              (b : Bool)
              → (content_id_of world bytes == content_id) ≡ b
              → (if b then none else some content_mismatch) ≡ none
              → concat ("sha256:" ∷ world.sha256_hex bytes ∷ []) ≡ content_id
          by_test false q k = cc
          by_test true q k = sym (content_id_of_whole world bytes) ∙ same
            where
              same : content_id_of world bytes ≡ content_id
              same = ground (arith, q, eq_iff (content_id_of world bytes) content_id)

  content_checks :
      (resolved : String) (content_id : Option String)
      → HasContent resolved content_id
      → check_content world resolved content_id ≡ none
  content_checks resolved none h = refl
  content_checks resolved (some content_id) (bytes, e, same) = simp (e, test)
    where
      test : (content_id_of world bytes == content_id) ≡ true
      test =
          subst (λ x. (content_id_of world bytes == x) ≡ true)
            (content_id_of_whole world bytes ∙ same) (eq_refl (content_id_of world bytes))

  -- The file is a regular one of the size, the time and the content.
  abbrev IsSameFile : String → ℤ → ℤ → Option String → Stat → Type 0
  IsSameFile resolved size_bytes modified_ns content_id st =
      (world.stat resolved ≡ some st)
      × (st.is_regular ≡ true)
      × (st.st_size ≡ size_bytes)
      × (st.st_mtime_ns ≡ modified_ns)
      × HasContent resolved content_id

  stat_checked :
      (resolved : String) (size_bytes modified_ns : ℤ) (content_id : Option String)
      (o : Option Stat)
      → world.stat resolved ≡ o
      → check_stat world resolved size_bytes modified_ns content_id o ≡ none
      → (st : Stat) × IsSameFile resolved size_bytes modified_ns content_id st
  stat_checked resolved size_bytes modified_ns content_id none e h = cc
  stat_checked resolved size_bytes modified_ns content_id (some st) e h =
      let (regular, h1) = passed st.is_regular source_missing _ h in
      let (size, h2) = passed (same_int st.st_size size_bytes) content_mismatch _ h1 in
      let (time, h3) = passed (same_int st.st_mtime_ns modified_ns) content_mismatch _ h2 in
      (
        st,
        (
          e,
          regular,
          same_int-true st.st_size size_bytes size,
          same_int-true st.st_mtime_ns modified_ns time,
          content_checked resolved content_id h3,
        ),
      )

  stat_checks :
      (resolved : String) (size_bytes modified_ns : ℤ) (content_id : Option String) (st : Stat)
      → IsSameFile resolved size_bytes modified_ns content_id st
      → check_stat world resolved size_bytes modified_ns content_id (world.stat resolved) ≡ none
  stat_checks resolved size_bytes modified_ns content_id st (e, regular, size, time, content) =
      subst (λ o. check_stat world resolved size_bytes modified_ns content_id o ≡ none) (sym e)
        (passes st.is_regular source_missing _ regular (
          passes (same_int st.st_size size_bytes) content_mismatch _
            (subst (λ x. same_int st.st_size x ≡ true) size (same_int_refl st.st_size))
            (passes (same_int st.st_mtime_ns modified_ns) content_mismatch _
              (subst (λ x. same_int st.st_mtime_ns x ≡ true) time (same_int_refl st.st_mtime_ns))
              (content_checks resolved content_id content))))

  resolved_checked :
      (source_path relative_posix : String) (size_bytes modified_ns : ℤ)
      (content_id : Option String) (o : Option String)
      → world.resolve source_path ≡ o
      → check_resolved world source_path relative_posix size_bytes modified_ns content_id o ≡ none
      → IsTrusted source_path relative_posix size_bytes modified_ns content_id
  resolved_checked source_path relative_posix size_bytes modified_ns content_id none e h = cc
  resolved_checked source_path relative_posix size_bytes modified_ns content_id (some resolved) e
        h =
      let (target, h1) =
        passed (world.normcase resolved == world.normcase source_path) source_replaced _ h in
      let (tail, h2) =
        passed (is_confined world resolved relative_posix) source_not_confined _ h1 in
      let (st, (there, regular, size, time, content)) =
        stat_checked resolved size_bytes modified_ns content_id (world.stat resolved) refl h2 in
      (
        resolved,
        st,
        e,
        same (world.normcase resolved) (world.normcase source_path) target,
        same_texts-true _ _ tail,
        there,
        regular,
        size,
        time,
        content,
      )
    where
      same : (x y : String) → (x == y) ≡ true → x ≡ y
      same x y h = ground (arith, eq_iff x y)

  resolved_checks :
      (source_path relative_posix : String) (size_bytes modified_ns : ℤ)
      (content_id : Option String)
      → IsTrusted source_path relative_posix size_bytes modified_ns content_id
      → check_resolved world source_path relative_posix size_bytes modified_ns content_id
          (world.resolve source_path)
        ≡ none
  resolved_checks source_path relative_posix size_bytes modified_ns content_id
        (resolved, st, e, target, tail, there, regular, size, time, content) =
      subst
        (λ o.
          check_resolved world source_path relative_posix size_bytes modified_ns content_id o
          ≡ none)
        (sym e)
        (passes (world.normcase resolved == world.normcase source_path) source_replaced _
          (subst (λ x. (world.normcase resolved == x) ≡ true) target
            (eq_refl (world.normcase resolved)))
          (passes (is_confined world resolved relative_posix) source_not_confined _
            (subst
              (λ xs.
                same_texts
                  (map world.normcase
                    (last (length (world.posix_parts relative_posix)) (world.parts resolved)))
                  xs
                ≡ true)
              tail
              (same_texts_refl (
                map world.normcase
                  (last (length (world.posix_parts relative_posix)) (world.parts resolved)))))
            (stat_checks resolved size_bytes modified_ns content_id st
              (there, regular, size, time, content))))

  -- `verify_managed_source` finds nothing wrong exactly with the trusted file: the path leads to
  -- itself, its end is the relative path, and there is a regular file of the size and the time, whose
  -- SHA-256 is that of the content id where one is given.
  pub verify_managed_source_iff :
      (source_path relative_posix : String) (size_bytes modified_ns : ℤ)
      (content_id : Option String)
      → (verify_managed_source world source_path relative_posix size_bytes modified_ns content_id
          ≡ none)
        ↔ IsTrusted source_path relative_posix size_bytes modified_ns content_id
  unfolding verify_managed_source
  verify_managed_source_iff source_path relative_posix size_bytes modified_ns content_id = (
    resolved_checked source_path relative_posix size_bytes modified_ns content_id
        (world.resolve source_path) refl,
    resolved_checks source_path relative_posix size_bytes modified_ns content_id,
  )
