-- ===== src/Lineage/Chains.antt =====
-- `_reaches_cycle` of managed_version_lineage.py against the chains of parents that end.
use data_quality_toolkit.Prelude.{
  ℕ, zero, suc, ◌+◌, ◌≤◌, ◌<◌, ◌≡◌, ◌↔◌, refl, sym, ap, ◌∙◌, subst, String, Bool, true, false, inl,
  inr, ◌||◌, Option, none, some, Option-cases, List, [], ◌∷◌, Dict, lookup, insert, keys,
  lookup-insert, length, All, contains, ◌==◌, arith, eq_iff, if◌then◌else◌,
}
use data_quality_toolkit.Versions.{VersionRecord}
use data_quality_toolkit.Discovery.{DiscoveredVersion}
use data_quality_toolkit.Lineage.Relations.{
  parent_id, record_of, look_up, index_into, by_version_id, next_record, repeats, reaches_cycle,
}

-- How many of the keys have not been seen.
unseen : List String → List String → ℕ
unseen seen [] = 0
unseen seen (k ∷ ks) = (if contains k seen then 0 else 1) + unseen seen ks

unseen-le : (x : String) (seen ks : List String) → unseen (x ∷ seen) ks ≤ unseen seen ks
unfolding unseen
unseen-le x seen [] = omega arith
unseen-le x seen (k ∷ ks) = ground (arith, unseen-le x seen ks)

unseen-lt :
    (x : String) (seen ks : List String)
    → contains x ks ≡ true
    → contains x seen ≡ false
    → unseen (x ∷ seen) ks < unseen seen ks
unfolding unseen
unseen-lt x seen [] h g = cc
unseen-lt x seen (k ∷ ks) h g =
    ground (arith, eq_iff x k, eq_iff k x, unseen-le x seen ks, unseen-lt x seen ks)

unseen_all : {A : Type 0} (d : Dict A) → unseen [] (keys d) ≡ length d
unfolding unseen
unseen_all [] = refl
unseen_all ((k, a) ∷ d) = omega (arith, unseen_all d)

contains-keys :
    {A : Type 0} (k : String) (d : Dict A) (a : A)
    → lookup k d ≡ some a
    → contains k (keys d) ≡ true
unfolding lookup
contains-keys k [] a h = cc
contains-keys k ((j, b) ∷ d) a h = ground (arith, eq_iff j k, eq_iff k j, contains-keys k d a)

module _ {D : Type 0} where
  -- Each version stands under its own id.
  abbrev pub IsKeyed : Dict (DiscoveredVersion D) → Type 0
  IsKeyed d =
      (k : String) (v : DiscoveredVersion D) → lookup k d ≡ some v → v.version_record.version_id ≡ k

  insert-IsKeyed :
      (v : DiscoveredVersion D) (d : Dict (DiscoveredVersion D))
      → IsKeyed d
      → IsKeyed (insert v.version_record.version_id v d)
  insert-IsKeyed v d h k w e =
      by_key (v.version_record.version_id == k) refl
        (sym (lookup-insert v.version_record.version_id k v d) ∙ e)
    where
      by_key :
          (b : Bool)
          → (v.version_record.version_id == k) ≡ b
          → (if b then some v else lookup k d) ≡ some w
          → w.version_record.version_id ≡ k
      by_key false q g = h k w g
      by_key true q g =
          sym (ap (λ (x : DiscoveredVersion D). x.version_record.version_id) same) ∙ found
        where
          same : v ≡ w
          same = cc g

          found : v.version_record.version_id ≡ k
          found = ground (arith, q, eq_iff v.version_record.version_id k)

  pub index_into-IsKeyed :
      (d : Dict (DiscoveredVersion D)) (vs : List (DiscoveredVersion D))
      → IsKeyed d
      → IsKeyed (index_into d vs)
  unfolding index_into
  index_into-IsKeyed d [] h = h
  index_into-IsKeyed d (v ∷ vs) h =
      index_into-IsKeyed (insert v.version_record.version_id v d) vs (insert-IsKeyed v d h)

  module _ (by_vid : Dict (DiscoveredVersion D)) where
    -- The chain of parents from a record ends after `n` steps.
    abbrev pub EndsIn : ℕ → VersionRecord D → Type 0
    EndsIn zero r = next_record by_vid r ≡ none
    EndsIn (suc n) r = (r' : VersionRecord D) × (next_record by_vid r ≡ some r') × EndsIn n r'

    -- The record is the one under its id.
    abbrev pub IsIndexed : VersionRecord D → Type 0
    IsIndexed r = record_of (lookup r.version_id by_vid) ≡ some r

    EndsIn-unique : (n m : ℕ) (r : VersionRecord D) → EndsIn n r → EndsIn m r → n ≡ m
    EndsIn-unique zero zero r h g = refl
    EndsIn-unique zero (suc m) r h g = cc (h, g.1)
    EndsIn-unique (suc n) zero r h g = cc (h.1, g)
    EndsIn-unique (suc n) (suc m) r h g =
        ap suc (EndsIn-unique n m h.0 h.2 (subst (EndsIn m) same g.2))
      where
        same : g.0 ≡ h.0
        same = cc (sym g.1 ∙ h.1)

    next-IsIndexed :
        IsKeyed by_vid → (r r' : VersionRecord D) → next_record by_vid r ≡ some r' → IsIndexed r'
    unfolding next_record
    next-IsIndexed keyed r r' h = by_parent (parent_id r.parent) h
      where
        by_found :
            (id : String) (o : Option (DiscoveredVersion D))
            → lookup id by_vid ≡ o
            → record_of o ≡ some r'
            → IsIndexed r'
        by_found id none e g = cc
        by_found id (some v) e g =
            subst IsIndexed same
              (ap (λ x. record_of (lookup x by_vid)) (keyed id v e) ∙ ap record_of e)
          where
            same : v.version_record ≡ r'
            same = cc g

        by_parent : (o : Option String) → record_of (look_up by_vid o) ≡ some r' → IsIndexed r'
        by_parent none g = cc
        by_parent (some id) g = by_found id (lookup id by_vid) refl g

    IsIndexed-contains :
        (r : VersionRecord D) → IsIndexed r → contains r.version_id (keys by_vid) ≡ true
    IsIndexed-contains r h = elim (Option-cases (lookup r.version_id by_vid)) [
      | inl e ↦ cc (h, e)
      | inr (v, e) ↦ contains-keys r.version_id by_vid v e
    ]

    -- One round of the walk; `again` is what the next rounds give.
    one_round :
        IsKeyed by_vid
        → (rounds : ℕ) (seen : List String) (r : VersionRecord D)
        → unseen seen (keys by_vid) < suc rounds
        → IsIndexed r
        → ((r' : VersionRecord D)
            → unseen (r.version_id ∷ seen) (keys by_vid) < rounds
            → IsIndexed r'
            → repeats rounds by_vid (r.version_id ∷ seen) (some r') ≡ false
            → (n : ℕ) × EndsIn n r')
        → (b : Bool) → contains r.version_id seen ≡ b
        → (o : Option (VersionRecord D)) → next_record by_vid r ≡ o
        → (if b then true else repeats rounds by_vid (r.version_id ∷ seen) o) ≡ false
        → (n : ℕ) × EndsIn n r
    unfolding repeats
    one_round keyed rounds seen r lt at again true c o e g = cc
    one_round keyed rounds seen r lt at again false c none e g = (0, e)
    one_round keyed rounds seen r lt at again false c (some r') e g =
        let less = unseen-lt r.version_id seen (keys by_vid) (IsIndexed-contains r at) c in
        let rest = again r' (omega (arith, lt, less)) (next-IsIndexed keyed r r' e) g in
        (suc rest.0, (r', e, rest.1))

    -- Where the test says no, with rounds enough, the chain ends.
    repeats-false :
        IsKeyed by_vid
        → (rounds : ℕ) (seen : List String) (r : VersionRecord D)
        → unseen seen (keys by_vid) < rounds
        → IsIndexed r
        → repeats rounds by_vid seen (some r) ≡ false
        → (n : ℕ) × EndsIn n r
    unfolding repeats
    repeats-false keyed zero seen r lt at h = absurd (omega (arith, lt))
    repeats-false keyed (suc rounds) seen r lt at h =
        one_round keyed rounds seen r lt at
          (λ r' less there g. repeats-false keyed rounds (r.version_id ∷ seen) r' less there g)
          (contains r.version_id seen) refl (next_record by_vid r) refl h

    -- What was seen lies on the way: its chain is longer.
    abbrev Longer : ℕ → String → Type 0
    Longer n x =
        (m : ℕ) × (r : VersionRecord D) × (r.version_id ≡ x) × IsIndexed r × EndsIn m r × (n < m)

    seen_Longer :
        (n : ℕ) (x : String) (seen : List String)
        → All (Longer n) seen
        → contains x seen ≡ true
        → Longer n x
    seen_Longer n x [] h c = cc
    seen_Longer n x (y ∷ ys) h c = by_head (λ g. seen_Longer n x ys h.1 g) (x == y) refl c
      where
        by_head :
            (contains x ys ≡ true → Longer n x)
            → (b : Bool) → (x == y) ≡ b
            → (b || contains x ys) ≡ true
            → Longer n x
        by_head later true e g = subst (Longer n) (ground (arith, e, eq_iff x y)) h.0
        by_head later false e g = later g

    All-Longer : (n : ℕ) (xs : List String) → All (Longer (suc n)) xs → All (Longer n) xs
    All-Longer n [] h = tt
    All-Longer n (x ∷ xs) ((m, r, id, at, ends, lt), hs) =
        ((m, r, id, at, ends, omega (arith, lt)), All-Longer n xs hs)

    not_Longer :
        (n : ℕ) (r : VersionRecord D) → IsIndexed r → EndsIn n r → Longer n r.version_id → ⊥
    not_Longer n r at ends (m, q, id, there, long, lt) =
        omega (arith, lt, EndsIn-unique m n r (subst (EndsIn m) same long) ends)
      where
        found : record_of (lookup r.version_id by_vid) ≡ some q
        found = subst (λ x. record_of (lookup x by_vid) ≡ some q) id there

        same : q ≡ r
        same = cc (sym found ∙ at)

    -- One round of the walk; `again` is what the next rounds give.
    other_round :
        IsKeyed by_vid
        → (rounds : ℕ) (seen : List String) (r : VersionRecord D) (n : ℕ) → IsIndexed r
        → EndsIn n r
        → All (Longer n) seen
        → ((r' : VersionRecord D) (m : ℕ)
            → IsIndexed r'
            → EndsIn m r'
            → All (Longer m) (r.version_id ∷ seen)
            → repeats rounds by_vid (r.version_id ∷ seen) (some r') ≡ true
            → ⊥)
        → (b : Bool) → contains r.version_id seen ≡ b
        → (o : Option (VersionRecord D)) → next_record by_vid r ≡ o
        → (if b then true else repeats rounds by_vid (r.version_id ∷ seen) o) ≡ true
        → ⊥
    unfolding repeats
    other_round keyed rounds seen r n at ends h again true c o e g =
        not_Longer n r at ends (seen_Longer n r.version_id seen h c)
    other_round keyed rounds seen r n at ends h again false c none e g = cc
    other_round keyed rounds seen r zero at ends h again false c (some r') e g = cc (ends, e)
    other_round keyed rounds seen r (suc n) at ends h again false c (some r') e g =
        again r' n (next-IsIndexed keyed r r' e) (subst (EndsIn n) same ends.2)
          ((suc n, r, refl, at, ends, omega arith), All-Longer n seen h) g
      where
        same : ends.0 ≡ r'
        same = cc (sym ends.1 ∙ e)

    -- Where the test says yes, the chain does not end.
    repeats-true :
        IsKeyed by_vid
        → (rounds : ℕ) (seen : List String) (r : VersionRecord D) (n : ℕ) → IsIndexed r
        → EndsIn n r
        → All (Longer n) seen
        → repeats rounds by_vid seen (some r) ≡ true
        → ⊥
    unfolding repeats
    repeats-true keyed zero seen r n at ends h g = cc
    repeats-true keyed (suc rounds) seen r n at ends h g =
        other_round keyed rounds seen r n at ends h
          (λ r' m there long hs g.
            repeats-true keyed rounds (r.version_id ∷ seen) r' m there long hs g)
          (contains r.version_id seen) refl (next_record by_vid r) refl g

  -- The walk of `_reaches_cycle` tells whether the chain of parents goes on for ever. For an index of
  -- the versions of a scan, a record that the index has under its id, and the cap that is passed, it
  -- answers no exactly where the chain ends; the cap never cuts it short.
  pub reaches_cycle_iff :
      (versions : List (DiscoveredVersion D)) (start : VersionRecord D)
      → IsIndexed (by_version_id versions) start
      → (reaches_cycle start (by_version_id versions) (suc (length (by_version_id versions)))
          ≡ false)
        ↔ ((n : ℕ) × EndsIn (by_version_id versions) n start)
  unfolding reaches_cycle
  reaches_cycle_iff versions start at = (
    λ h. repeats-false by_vid keyed rounds [] start (omega (arith, unseen_all by_vid)) at h,
    λ e. no_repeat (repeats rounds by_vid [] (some start)) refl e,
  )
    where
      by_vid : Dict (DiscoveredVersion D)
      by_vid = by_version_id versions

      rounds : ℕ
      rounds = suc (suc (length by_vid))

      keyed : IsKeyed by_vid
      keyed = index_into-IsKeyed [] versions (λ k v e. cc)

      no_repeat :
          (b : Bool)
          → repeats rounds by_vid [] (some start) ≡ b
          → (n : ℕ) × EndsIn by_vid n start
          → repeats rounds by_vid [] (some start) ≡ false
      no_repeat false h e = h
      no_repeat true h e = absurd (repeats-true by_vid keyed rounds [] start e.0 at e.1 tt h)
