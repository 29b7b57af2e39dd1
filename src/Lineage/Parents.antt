-- ===== src/Lineage/Parents.antt =====
-- When `_resolve_parent` of managed_version_lineage.py presents a parent.
use data_quality_toolkit.Prelude.{
  ℕ, suc, ◌≡◌, ◌↔◌, refl, ap, subst, String, Bool, true, false, not, Option, none, some, List,
  lookup, length, ◌==◌, arith, eq_iff, eq_refl, if◌then◌else◌,
}
use data_quality_toolkit.Versions.{VersionRecord, ParentRef}
use data_quality_toolkit.Discovery.{DiscoveredVersion}
use data_quality_toolkit.Lineage.{Resolution, resolved, not_verified}
use data_quality_toolkit.Lineage.Relations.{
  by_version_id, reaches_cycle, check_match, follow, follow_parent, resolve_parent,
}
use data_quality_toolkit.Lineage.Chains.{EndsIn, IsIndexed, reaches_cycle_iff}

module _ {D : Type 0} (versions : List (DiscoveredVersion D)) where
  -- The version is the parent of the other: it has the id of the one reference to a parent, which is
  -- not the version's own, it is of the same family, has the content that the reference names, and
  -- the chain of parents ends.
  abbrev pub IsParent : DiscoveredVersion D → DiscoveredVersion D → Type 0
  IsParent v m =
      (p : ParentRef) × (id : String) × (v.version_record.parent ≡ some p)
      × (p.version_id ≡ some id)
      × ((id == v.version_record.version_id) ≡ false)
      × (lookup id (by_version_id versions) ≡ some m)
      × (m.version_record.family_id ≡ v.version_record.family_id)
      × (m.version_record.content_id ≡ p.content_id)
      × ((n : ℕ) × EndsIn (by_version_id versions) n v.version_record)

  abbrev pub cap : ℕ
  cap = suc (length (by_version_id versions))

  checked :
      (r : VersionRecord D) (content : String) (o : Option (DiscoveredVersion D))
      (m : DiscoveredVersion D)
      → check_match r content (by_version_id versions) cap o ≡ resolved m
      → (o ≡ some m)
        × (m.version_record.family_id ≡ r.family_id)
        × (m.version_record.content_id ≡ content)
        × (reaches_cycle r (by_version_id versions) cap ≡ false)
  checked r content none m h = cc
  checked r content (some w) m h =
      by_tests (w.version_record.family_id == r.family_id) (w.version_record.content_id == content)
        (reaches_cycle r (by_version_id versions) cap) refl refl refl h
    where
      by_tests :
          (a b c : Bool)
          → (w.version_record.family_id == r.family_id) ≡ a
          → (w.version_record.content_id == content) ≡ b
          → reaches_cycle r (by_version_id versions) cap ≡ c
          → ◌≡◌ {A = Resolution (DiscoveredVersion D)}
              (if not a
                then not_verified
                else if not b
                then not_verified
                else if c
                then not_verified
                else resolved w)
              (resolved m)
          → (some w ≡ some m)
            × (m.version_record.family_id ≡ r.family_id)
            × (m.version_record.content_id ≡ content)
            × (reaches_cycle r (by_version_id versions) cap ≡ false)
      by_tests false b c e f g k = cc
      by_tests true false c e f g k = cc
      by_tests true true true e f g k = cc
      by_tests true true false e f g k = (
        ap some same,
        subst (λ (x : DiscoveredVersion D). x.version_record.family_id ≡ r.family_id) same
            (ground (arith, e, eq_iff w.version_record.family_id r.family_id)),
        subst (λ (x : DiscoveredVersion D). x.version_record.content_id ≡ content) same
            (ground (arith, f, eq_iff w.version_record.content_id content)),
        g,
      )
        where
          same : w ≡ m
          same = cc k

  -- The tests that a version passed which is presented as the parent.
  abbrev pub HasPassed : DiscoveredVersion D → DiscoveredVersion D → Type 0
  HasPassed v m =
      (p : ParentRef) × (id : String) × (v.version_record.parent ≡ some p)
      × (p.version_id ≡ some id)
      × ((id == v.version_record.version_id) ≡ false)
      × (lookup id (by_version_id versions) ≡ some m)
      × (m.version_record.family_id ≡ v.version_record.family_id)
      × (m.version_record.content_id ≡ p.content_id)
      × (reaches_cycle v.version_record (by_version_id versions) cap ≡ false)

  followed :
      (v : DiscoveredVersion D) (p : ParentRef) (m : DiscoveredVersion D)
      → v.version_record.parent ≡ some p
      → (o : Option String) → p.version_id ≡ o
      → follow v.version_record o p.content_id (by_version_id versions) cap ≡ resolved m
      → HasPassed v m
  followed v p m e none f h = cc
  followed v p m e (some id) f h = by_self (id == v.version_record.version_id) refl h
    where
      by_self :
          (b : Bool)
          → (id == v.version_record.version_id) ≡ b
          → (if b
              then not_verified
              else check_match v.version_record p.content_id
                  (by_version_id versions)
                  cap
                  (lookup id (by_version_id versions)))
            ≡ resolved m
          → HasPassed v m
      by_self true q g = cc
      by_self false q g =
          let k = checked v.version_record p.content_id (lookup id (by_version_id versions)) m g in
          (p, id, e, f, q, k.0, k.1, k.2, k.3)

  presented :
      (v m : DiscoveredVersion D)
      → IsIndexed (by_version_id versions) v.version_record
      → IsParent v m
      → follow_parent v.version_record v.version_record.parent (by_version_id versions) cap
        ≡ resolved m
  presented v m at (p, id, e, f, q, found, family, content, ends) = simp (
    e,
    f,
    q,
    found,
    family,
    content,
    (reaches_cycle_iff versions v.version_record at).1 ends,
    eq_refl v.version_record.family_id,
    eq_refl p.content_id,
  )

  pub resolve_parent-HasPassed :
      (v m : DiscoveredVersion D)
      → resolve_parent v (by_version_id versions) cap ≡ resolved m
      → HasPassed v m
  unfolding resolve_parent
  resolve_parent-HasPassed v m h = by_parent v.version_record.parent refl h
    where
      by_parent :
          (o : Option ParentRef)
          → v.version_record.parent ≡ o
          → follow_parent v.version_record o (by_version_id versions) cap ≡ resolved m
          → HasPassed v m
      by_parent none e h = cc
      by_parent (some p) e h = followed v p m e p.version_id refl h

  -- `_resolve_parent` presents a version exactly where it is the parent, for the index and the cap
  -- that `project_lineage` passes and a version that the index has under its id.
  pub resolve_parent_iff :
      (v m : DiscoveredVersion D)
      → IsIndexed (by_version_id versions) v.version_record
      → (resolve_parent v (by_version_id versions) cap ≡ resolved m) ↔ IsParent v m
  unfolding resolve_parent
  resolve_parent_iff v m at = (
    λ h.
        let (p, id, e, f, q, found, family, content, acyclic) = resolve_parent-HasPassed v m h in
        (
          p,
          id,
          e,
          f,
          q,
          found,
          family,
          content,
          (reaches_cycle_iff versions v.version_record at).0 acyclic,
        ),
    presented v m at,
  )
