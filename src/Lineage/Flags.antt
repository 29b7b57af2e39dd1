-- ===== src/Lineage/Flags.antt =====
-- What a view of managed_version_lineage.py shows: which node is the selected one, and how many
-- children there are.
use data_quality_toolkit.Prelude.{
  ℕ, suc, ◌+◌, ◌≤◌, ◌≡◌, refl, ap, subst, String, Bool, true, false, ◌&&◌, Option, none, some, List,
  [], ◌∷◌, map, length, select, All, is_empty, leb, arith, eq_refl, Result, ok, err, if◌then◌else◌,
}
use data_quality_toolkit.Discovery.{DiscoveredVersion, DiscoveryResult}
use data_quality_toolkit.Lineage.{
  LineageState, empty, parent, child, Resolution, resolved, no_parent, not_available, not_verified,
  LineageNode, LineageView,
}
use data_quality_toolkit.Lineage.Relations.{
  in_family, by_version_id, resolve_selected, resolve_parent, resolve_root, resolve_children,
}
use data_quality_toolkit.Lineage.View.{
  empty_lineage, shown, unavailable_count, corrupt_count, max_lineage_nodes, node_for,
  project_selected, project_lineage, map_resolved, shown,
}
use data_quality_toolkit.Lineage.Selection.{
  HasOtherShort, resolved-IsOther, resolve_children-HasOtherShort, parent-HasOtherShort,
}

-- What holds of a node, where one is shown.
abbrev pub IfShown : {A : Type 0} → (A → Type 0) → Option A → Type 0
IfShown P none = Unit {0}
IfShown P (some a) = P a

module _ {D : Type 0} where
  IfShown-parent :
      (P : LineageNode → Type 0) (f : DiscoveredVersion D → LineageNode)
      (r : Resolution (DiscoveredVersion D))
      → ((m : DiscoveredVersion D) → r ≡ resolved m → P (f m))
      → IfShown P (shown (map_resolved f r))
  IfShown-parent P f (resolved m) h = h m refl
  IfShown-parent P f no_parent h = tt
  IfShown-parent P f not_available h = tt
  IfShown-parent P f not_verified h = tt

-- One node at most is flagged as the selected one, and that is the node of the reference.
abbrev pub SelectsOnly : String → LineageView → Type 0
SelectsOnly reference view =
    IfShown (λ n. (n.is_selected ≡ true) × (n.short_version_id ≡ reference)) view.selected_node
    × All (λ n. n.is_selected ≡ false) view.children
    × IfShown (λ n. n.is_selected ≡ false) view.parent_node

abbrev pub IsBounded : ℕ → LineageView → Type 0
IsBounded max_nodes view =
    (length view.children ≤ max_nodes) × (view.unavailable_relatives + view.corrupt_relatives ≤ 2)

at_most_one : {A : Type 0} (r : Resolution A) → unavailable_count r + corrupt_count r ≤ 1
at_most_one (resolved a) = omega arith
at_most_one no_parent = omega arith
at_most_one not_available = omega arith
at_most_one not_verified = omega arith

relatives_le :
    {A : Type 0} (r s : Resolution A)
    → (unavailable_count r + unavailable_count s) + (corrupt_count r + corrupt_count s) ≤ 2
relatives_le r s = omega (arith, at_most_one r, at_most_one s)

module _ {D : Type 0} (uuid_hex : String → Option String) (utc_text : D → String) where
  All-children :
      (v : DiscoveredVersion D) (active : Option String) (xs : List (DiscoveredVersion D))
      → All (HasOtherShort v) xs
      → All
          (λ n. n.is_selected ≡ false)
          (map (node_for uuid_hex utc_text v.display.short_version_id active child) xs)
  All-children v active [] h = tt
  All-children v active (x ∷ xs) (h, hs) = (h, All-children v active xs hs)

  length-children :
      (v : DiscoveredVersion D) (active : Option String) (xs : List (DiscoveredVersion D))
      → length (map (node_for uuid_hex utc_text v.display.short_version_id active child) xs)
        ≡ length xs
  length-children v active [] = refl
  length-children v active (x ∷ xs) = ap suc (length-children v active xs)

  selected-view :
      (result : DiscoveryResult D) (reference : String) (active : Option String) (max_nodes : ℕ)
      (r : Result LineageState (DiscoveredVersion D))
      → resolve_selected result reference ≡ r
      → SelectsOnly reference (project_selected uuid_hex utc_text result active max_nodes r)
        × IsBounded max_nodes (project_selected uuid_hex utc_text result active max_nodes r)
  selected-view result reference active max_nodes (err state) e =
      ((tt, tt, tt), (omega arith, omega arith))
  selected-view result reference active max_nodes (ok v) e =
      let (same, others) = resolved-IsOther result reference v e in
      let (children, few) = resolve_children-HasOtherShort v result.versions max_nodes others in
      (
        (
          (eq_refl v.display.short_version_id, same),
          All-children v active (resolve_children v result.versions max_nodes).0 children,
          IfShown-parent (λ n. n.is_selected ≡ false)
              (node_for uuid_hex utc_text v.display.short_version_id active parent)
              (resolve_parent v (by_version_id result.versions)
                (suc (length (by_version_id result.versions))))
              (λ m f. parent-HasOtherShort result.versions v m others f),
        ),
        (
          omega (
            arith,
            few,
            length-children v active (resolve_children v result.versions max_nodes).0,
          ),
          relatives_le
              (resolve_parent v (by_version_id result.versions)
                (suc (length (by_version_id result.versions))))
              (resolve_root v (select (in_family v.version_record.family_id) result.versions)),
        ),
      )

  -- A view of `project_lineage` flags the node of the given reference as the selected one, where it
  -- shows a selected node at all, and neither the parent nor a child is flagged; it shows no more
  -- children than the bound, and counts at most two unavailable and corrupt relatives together.
  pub project_lineage-SelectsOnly :
      (result : DiscoveryResult D) (reference : String) (active : Option String) (max_nodes : ℕ)
      (view : LineageView)
      → project_lineage uuid_hex utc_text result reference active max_nodes ≡ some view
      → SelectsOnly reference view × IsBounded max_nodes view
  unfolding project_lineage
  project_lineage-SelectsOnly result reference active max_nodes view h =
      by_bound (leb 1 max_nodes && leb max_nodes max_lineage_nodes) (is_empty reference) h
    where
      by_bound :
          (b c : Bool)
          → (if b
              then some (
                  if c
                  then empty_lineage empty
                  else project_selected uuid_hex utc_text result active max_nodes
                      (resolve_selected result reference))
              else none)
            ≡ some view
          → SelectsOnly reference view × IsBounded max_nodes view
      by_bound false c e = cc
      by_bound true true e =
          subst (λ w. SelectsOnly reference w × IsBounded max_nodes w) (same e)
            ((tt, tt, tt), (omega arith, omega arith))
        where
          same : {x : LineageView} → some x ≡ some view → x ≡ view
          same e = cc e
      by_bound true false e =
          subst (λ w. SelectsOnly reference w × IsBounded max_nodes w) (same e)
            (selected-view result reference active max_nodes (resolve_selected result reference)
              refl)
        where
          same : {x : LineageView} → some x ≡ some view → x ≡ view
          same e = cc e
