-- ===== src/Lineage/Selection.antt =====
-- The selected version of managed_version_lineage.py, and that its parent and children are other
-- ones.
use data_quality_toolkit.Prelude.{
  ℕ, suc, ◌≤◌, ◌≡◌, refl, sym, ap, ◌∙◌, subst, ◌⊎◌, inl, inr, String, Bool, true, false, not, ◌&&◌,
  Option, some, List, [], ◌∷◌, Dict, lookup, insert, lookup-insert, length, length-take-le, select,
  any, All, All-take, ◌==◌, arith, eq_iff, eq_refl, ok, err, if◌then◌else◌,
}
use data_quality_toolkit.Discovery.{DiscoveredVersion, DuplicateGroup, DiscoveryResult}
use data_quality_toolkit.Lineage.{selected_ambiguous, resolved}
use data_quality_toolkit.Lineage.Relations.{
  names, parent_id, has_short_id, the_only, is_child, index_into, by_version_id, resolve_selected,
  resolve_parent, resolve_children,
}
use data_quality_toolkit.Lineage.Chains.{index_into-IsKeyed}
use data_quality_toolkit.Lineage.Parents.{resolve_parent-HasPassed}

last_false : (a b c : Bool) → (a && b && not c) ≡ true → c ≡ false
last_false a b c h = ground arith

module _ {D : Type 0} where
  -- The version has another short id, or it is the one of that id.
  abbrev pub IsOther : DiscoveredVersion D → DiscoveredVersion D → Type 0
  IsOther v w = ((w.display.short_version_id == v.display.short_version_id) ≡ false) ⊎ (w ≡ v)

  the_only_lem :
      (vs : List (DiscoveredVersion D)) (v : DiscoveredVersion D) → the_only vs ≡ ok v → vs ≡ v ∷ []
  the_only_lem [] v h = cc
  the_only_lem (w ∷ []) v h = cc h
  the_only_lem (w ∷ x ∷ xs) v h = cc

  select_none :
      (p : DiscoveredVersion D → Bool) (xs : List (DiscoveredVersion D))
      → select p xs ≡ []
      → All (λ w. p w ≡ false) xs
  select_none p [] h = tt
  select_none p (x ∷ xs) h = by_test (p x) refl h (select_none p xs)
    where
      by_test :
          (b : Bool)
          → p x ≡ b
          → (if b then x ∷ select p xs else select p xs) ≡ []
          → (select p xs ≡ [] → All (λ w. p w ≡ false) xs)
          → (p x ≡ false) × All (λ w. p w ≡ false) xs
      by_test true e h later = cc
      by_test false e h later = (e, later h)

  -- Where one version is selected, each is that one or is not.
  select_one :
      (p : DiscoveredVersion D → Bool) (xs : List (DiscoveredVersion D)) (v : DiscoveredVersion D)
      → select p xs ≡ v ∷ []
      → (p v ≡ true) × All (λ w. (p w ≡ false) ⊎ (w ≡ v)) xs
  select_one p [] v h = cc
  select_one p (x ∷ xs) v h = by_test (p x) refl h (select_one p xs v)
    where
      weakened :
          (ys : List (DiscoveredVersion D))
          → All (λ w. p w ≡ false) ys
          → All (λ w. (p w ≡ false) ⊎ (w ≡ v)) ys
      weakened [] hs = tt
      weakened (y ∷ ys) (h, hs) = (inl h, weakened ys hs)

      by_test :
          (b : Bool)
          → p x ≡ b
          → (if b then x ∷ select p xs else select p xs) ≡ v ∷ []
          → (select p xs ≡ v ∷ [] → (p v ≡ true) × All (λ w. (p w ≡ false) ⊎ (w ≡ v)) xs)
          → (p v ≡ true) × (((p x ≡ false) ⊎ (x ≡ v)) × All (λ w. (p w ≡ false) ⊎ (w ≡ v)) xs)
      by_test false e h later = let k = later h in (k.0, (inl e, k.1))
      by_test true e h later =
          (subst (λ w. p w ≡ true) same e, (inr same, weakened xs (select_none p xs (cc h))))
        where
          same : x ≡ v
          same = cc h

  All-select :
      (P : DiscoveredVersion D → Type 0) (p : DiscoveredVersion D → Bool)
      (xs : List (DiscoveredVersion D))
      → All P xs
      → All (λ w. P w × (p w ≡ true)) (select p xs)
  All-select P p [] h = tt
  All-select P p (x ∷ xs) h = by_test (p x) refl (All-select P p xs h.1)
    where
      by_test :
          (b : Bool)
          → p x ≡ b
          → All (λ w. P w × (p w ≡ true)) (select p xs)
          → All (λ w. P w × (p w ≡ true)) (if b then x ∷ select p xs else select p xs)
      by_test true e hs = ((h.0, e), hs)
      by_test false e hs = hs

  All-lookup :
      (P : DiscoveredVersion D → Type 0) (xs : List (DiscoveredVersion D))
      (d : Dict (DiscoveredVersion D))
      → ((k : String) (m : DiscoveredVersion D) → lookup k d ≡ some m → P m)
      → All P xs
      → (k : String) (m : DiscoveredVersion D) → lookup k (index_into d xs) ≡ some m
      → P m
  unfolding index_into
  All-lookup P [] d h hs k m e = h k m e
  All-lookup P (x ∷ xs) d h hs k m e =
      All-lookup P xs (insert x.version_record.version_id x d) in_first hs.1 k m e
    where
      by_key :
          (k : String) (m : DiscoveredVersion D) (b : Bool)
          → (if b then some x else lookup k d) ≡ some m
          → P m
      by_key k m true e = subst P (same m e) hs.0
        where
          same : (m : DiscoveredVersion D) → some x ≡ some m → x ≡ m
          same m e = cc e
      by_key k m false e = h k m e

      in_first :
          (k : String) (m : DiscoveredVersion D)
          → lookup k (insert x.version_record.version_id x d) ≡ some m
          → P m
      in_first k m e =
          by_key k m (x.version_record.version_id == k)
            (sym (lookup-insert x.version_record.version_id k x d) ∙ e)

  pub resolved-IsOther :
      (result : DiscoveryResult D) (reference : String) (v : DiscoveredVersion D)
      → resolve_selected result reference ≡ ok v
      → (v.display.short_version_id ≡ reference) × All (IsOther v) result.versions
  unfolding resolve_selected
  resolved-IsOther result reference v h =
      by_duplicate (any (λ (g : DuplicateGroup). g.short_version_id == reference) result.duplicates)
        h
    where
      by_duplicate :
          (b : Bool)
          → (if b
              then err selected_ambiguous
              else the_only (select (has_short_id reference) result.versions))
            ≡ ok v
          → (v.display.short_version_id ≡ reference) × All (IsOther v) result.versions
      by_duplicate true h = cc
      by_duplicate false h =
          let one =
            select_one (has_short_id reference) result.versions v
              (the_only_lem (select (has_short_id reference) result.versions) v h) in
          let same : v.display.short_version_id ≡ reference =
            ground (arith, one.0, eq_iff v.display.short_version_id reference) in
          (
            same,
            subst
                (λ (x : String).
                  All
                    (λ (w : DiscoveredVersion D).
                      ((w.display.short_version_id == x) ≡ false) ⊎ (w ≡ v))
                    result.versions)
                (sym same) one.1,
          )

  -- The other id rules the version itself out.
  other-short :
      (v w : DiscoveredVersion D)
      → IsOther v w
      → (w.version_record.version_id == v.version_record.version_id) ≡ false
      → (w.display.short_version_id == v.display.short_version_id) ≡ false
  other-short v w (inl h) e = h
  other-short v w (inr same) e = cc (
    ap (λ (x : DiscoveredVersion D). x.version_record.version_id == v.version_record.version_id)
        same,
    eq_refl v.version_record.version_id,
    e,
  )

  is_child-other :
      (v w : DiscoveredVersion D)
      → is_child v.version_record w ≡ true
      → (w.version_record.version_id == v.version_record.version_id) ≡ false
  is_child-other v w h =
      last_false (names v.version_record.version_id (parent_id w.version_record.parent))
        (w.version_record.family_id == v.version_record.family_id)
        (w.version_record.version_id == v.version_record.version_id) h

  -- The version has another short id than `v`.
  abbrev pub HasOtherShort : DiscoveredVersion D → DiscoveredVersion D → Type 0
  HasOtherShort v w = (w.display.short_version_id == v.display.short_version_id) ≡ false

  children-HasOtherShort :
      (v : DiscoveredVersion D) (xs : List (DiscoveredVersion D))
      → All (λ w. IsOther v w × (is_child v.version_record w ≡ true)) xs
      → All (HasOtherShort v) xs
  children-HasOtherShort v [] h = tt
  children-HasOtherShort v (x ∷ xs) ((other, is), hs) =
      (other-short v x other (is_child-other v x is), children-HasOtherShort v xs hs)

  pub resolve_children-HasOtherShort :
      (v : DiscoveredVersion D) (versions : List (DiscoveredVersion D)) (max_nodes : ℕ)
      → All (IsOther v) versions
      → All (HasOtherShort v) (resolve_children v versions max_nodes).0
        × (length (resolve_children v versions max_nodes).0 ≤ max_nodes)
  unfolding resolve_children
  resolve_children-HasOtherShort v versions max_nodes h = (
    All-take (HasOtherShort v) max_nodes (select (is_child v.version_record) versions) (
        children-HasOtherShort v (select (is_child v.version_record) versions)
          (All-select (IsOther v) (is_child v.version_record) versions h)),
    length-take-le max_nodes (select (is_child v.version_record) versions),
  )

  no_entry :
      (k : String) (w : DiscoveredVersion D)
      → ◌≡◌ {A = Option (DiscoveredVersion D)} (lookup k []) (some w)
      → ⊥
  unfolding lookup
  no_entry k w e = cc

  pub parent-HasOtherShort :
      (versions : List (DiscoveredVersion D)) (v m : DiscoveredVersion D)
      → All (IsOther v) versions
      → resolve_parent v (by_version_id versions) (suc (length (by_version_id versions)))
        ≡ resolved m
      → HasOtherShort v m
  parent-HasOtherShort versions v m h e =
      let (p, id, at, f, q, found, family, content, acyclic) =
        resolve_parent-HasPassed versions v m e in
      other-short v m
        (All-lookup (IsOther v) versions [] (λ k w g. absurd (no_entry k w g)) h id m found)
        (subst (λ x. (x == v.version_record.version_id) ≡ false)
          (sym (index_into-IsKeyed [] versions (λ k w g. absurd (no_entry k w g)) id m found)) q)
