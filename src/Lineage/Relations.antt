-- ===== src/Lineage/Relations.antt =====
-- Which versions stand in a direct relation to the selected one.
use data_quality_toolkit.Prelude.{
  ℕ, zero, suc, String, Bool, true, false, not, ◌&&◌, Option, none, some, List, [], ◌∷◌, Dict,
  lookup, insert, length, take, select, any, contains, ltb, ◌==◌, Result, ok, err, if◌then◌else◌,
}
use data_quality_toolkit.Versions.{VersionRecord, ParentRef}
use data_quality_toolkit.Discovery.{DiscoveredVersion, DuplicateGroup, DiscoveryResult}
use data_quality_toolkit.Lineage.{
  LineageState, selected_unavailable, selected_ambiguous, Resolution, resolved, no_parent,
  not_available, not_verified,
}

abbrev pub parent_id : Option ParentRef → Option String
parent_id none = none
parent_id (some p) = p.version_id

abbrev pub is_root : Option ParentRef → Bool
is_root none = true
is_root (some p) = false

abbrev pub names : String → Option String → Bool
names id none = false
names id (some p) = p == id

module _ {D : Type 0} where
  abbrev pub has_short_id : String → DiscoveredVersion D → Bool
  has_short_id reference v = v.display.short_version_id == reference

  abbrev pub the_only : List (DiscoveredVersion D) → Result LineageState (DiscoveredVersion D)
  the_only [] = err selected_unavailable
  the_only (v ∷ []) = ok v
  the_only (v ∷ w ∷ vs) = err selected_ambiguous

  -- `_resolve_selected`
  unfoldable pub resolve_selected :
      DiscoveryResult D → String → Result LineageState (DiscoveredVersion D)
  resolve_selected result reference =
      if any (λ (g : DuplicateGroup). g.short_version_id == reference) result.duplicates
      then err selected_ambiguous
      else the_only (select (has_short_id reference) result.versions)

  -- `{version.record.version_id: version for version in result.versions}`
  unfoldable pub index_into :
      Dict (DiscoveredVersion D) → List (DiscoveredVersion D) → Dict (DiscoveredVersion D)
  unfolding insert
  index_into d [] = d
  index_into d (v ∷ vs) = index_into (insert v.version_record.version_id v d) vs

  abbrev pub by_version_id : List (DiscoveredVersion D) → Dict (DiscoveredVersion D)
  by_version_id = index_into []

  abbrev pub record_of : Option (DiscoveredVersion D) → Option (VersionRecord D)
  record_of none = none
  record_of (some v) = some v.version_record

  abbrev pub look_up : Dict (DiscoveredVersion D) → Option String → Option (DiscoveredVersion D)
  look_up by_vid none = none
  look_up by_vid (some v) = lookup v by_vid

  -- The record that the walk goes to next.
  unfoldable pub next_record :
      Dict (DiscoveredVersion D) → VersionRecord D → Option (VersionRecord D)
  unfolding lookup
  next_record by_vid r = record_of (look_up by_vid (parent_id r.parent))

  -- The loop of `_reaches_cycle`, with the rounds that the cap leaves: `cap + 1 - steps`.
  unfoldable pub repeats :
      ℕ → Dict (DiscoveredVersion D) → List String → Option (VersionRecord D) → Bool
  unfolding next_record
  repeats rounds by_vid seen none = false
  repeats zero by_vid seen (some current) = false
  repeats (suc rounds) by_vid seen (some current) =
      let rest = repeats rounds by_vid (current.version_id ∷ seen) (next_record by_vid current) in
      if contains current.version_id seen then true else rest

  unfoldable pub reaches_cycle : VersionRecord D → Dict (DiscoveredVersion D) → ℕ → Bool
  unfolding repeats
  reaches_cycle start by_vid cap = repeats (suc cap) by_vid [] (some start)

  -- The tests on the record that the reference leads to.
  abbrev pub check_match :
      VersionRecord D
      → String
      → Dict (DiscoveredVersion D)
      → ℕ
      → Option (DiscoveredVersion D)
      → Resolution (DiscoveredVersion D)
  check_match r content_id by_vid cap none = not_available
  check_match r content_id by_vid cap (some match) =
      if not (match.version_record.family_id == r.family_id)
      then not_verified
      else if not (match.version_record.content_id == content_id)
      then not_verified
      else if reaches_cycle r by_vid cap
      then not_verified
      else resolved match

  abbrev pub follow :
      VersionRecord D
      → Option String
      → String
      → Dict (DiscoveredVersion D)
      → ℕ
      → Resolution (DiscoveredVersion D)
  follow r none content_id by_vid cap = not_available
  follow r (some version_id) content_id by_vid cap =
      if version_id == r.version_id
      then not_verified
      else check_match r content_id by_vid cap (lookup version_id by_vid)

  abbrev pub follow_parent :
      VersionRecord D
      → Option ParentRef
      → Dict (DiscoveredVersion D)
      → ℕ
      → Resolution (DiscoveredVersion D)
  follow_parent r none by_vid cap = no_parent
  follow_parent r (some p) by_vid cap = follow r p.version_id p.content_id by_vid cap

  -- `_resolve_parent`
  unfoldable pub resolve_parent :
      DiscoveredVersion D → Dict (DiscoveredVersion D) → ℕ → Resolution (DiscoveredVersion D)
  unfolding reaches_cycle lookup
  resolve_parent v by_vid cap = follow_parent v.version_record v.version_record.parent by_vid cap

  abbrev pub root_among :
      VersionRecord D → List (DiscoveredVersion D) → Resolution (DiscoveredVersion D)
  root_among r [] =
      if is_root r.parent && not (r.content_id == r.root_content_id)
      then not_verified
      else not_available
  root_among r (v ∷ []) = resolved v
  root_among r (v ∷ w ∷ vs) = not_available

  abbrev pub in_family : String → DiscoveredVersion D → Bool
  in_family family v = v.version_record.family_id == family

  abbrev pub has_content : String → DiscoveredVersion D → Bool
  has_content content v = v.version_record.content_id == content

  -- `_resolve_root`
  unfoldable pub resolve_root :
      DiscoveredVersion D → List (DiscoveredVersion D) → Resolution (DiscoveredVersion D)
  resolve_root v same_family =
      root_among v.version_record
        (select (has_content v.version_record.root_content_id) same_family)

  abbrev pub is_child : VersionRecord D → DiscoveredVersion D → Bool
  is_child r v =
      names r.version_id (parent_id v.version_record.parent)
      && (v.version_record.family_id == r.family_id)
      && not (v.version_record.version_id == r.version_id)

  -- `_resolve_children`: the children that are shown, and whether there are more.
  unfoldable pub resolve_children :
      DiscoveredVersion D → List (DiscoveredVersion D) → ℕ → List (DiscoveredVersion D) × Bool
  resolve_children v versions max_nodes =
      let children = select (is_child v.version_record) versions in
      (take max_nodes children, ltb max_nodes (length children))
