-- ===== src/Lineage/View.antt =====
-- `project_lineage` and the nodes that it shows.
use data_quality_toolkit.Prelude.{
  ℕ, zero, suc, ◌+◌, String, Bool, true, false, ◌&&◌, Option, none, some, List, [], map, length,
  select, is_empty, leb, ◌==◌, Result, ok, err, if◌then◌else◌,
}
use data_quality_toolkit.Discovery.{DiscoveredVersion, DiscoveryResult}
use data_quality_toolkit.Lineage.{
  LineageState, empty, ready, corrupt_relation, truncated, LineageRelationship, selected, root,
  parent, child, Resolution, resolved, no_parent, not_available, not_verified, LineageNode,
  LineageView,
}
use data_quality_toolkit.Lineage.Relations.{
  in_family, by_version_id, resolve_selected, resolve_parent, resolve_root, resolve_children,
}
use data_quality_toolkit.Lineage.Texts.{
  message_of, family_summary, status_label, text_alternative_of,
}

abbrev pub max_lineage_nodes : ℕ
max_lineage_nodes = 64

abbrev pub empty_lineage : LineageState → LineageView
empty_lineage state = record {
  state = state;
  message = message_of state;
  selected_node = none;
  root_node = none;
  parent_node = none;
  children = [];
  unavailable_relatives = 0;
  corrupt_relatives = 0;
  is_truncated = false;
  text_alternative = message_of state;
}

abbrev pub is_reference : Option String → String → Bool
is_reference none short = false
is_reference (some r) short = short == r

-- `_count` of the two states.
abbrev pub unavailable_count : {A : Type 0} → Resolution A → ℕ
unavailable_count not_available = 1
unavailable_count (resolved a) = 0
unavailable_count no_parent = 0
unavailable_count not_verified = 0

abbrev pub corrupt_count : {A : Type 0} → Resolution A → ℕ
corrupt_count not_verified = 1
corrupt_count (resolved a) = 0
corrupt_count no_parent = 0
corrupt_count not_available = 0

-- `_overall_state`
abbrev pub overall_state : ℕ → Bool → LineageState
overall_state (suc n) more = corrupt_relation
overall_state zero true = truncated
overall_state zero false = ready

abbrev pub map_resolved : {A B : Type 0} → (A → B) → Resolution A → Resolution B
map_resolved f (resolved a) = resolved (f a)
map_resolved f no_parent = no_parent
map_resolved f not_available = not_available
map_resolved f not_verified = not_verified

abbrev pub shown : {A : Type 0} → Resolution A → Option A
shown (resolved a) = some a
shown no_parent = none
shown not_available = none
shown not_verified = none

module _ {D : Type 0} (uuid_hex : String → Option String) (utc_text : D → String) where
  -- `_node`
  abbrev pub node_for :
      String → Option String → LineageRelationship → DiscoveredVersion D → LineageNode
  node_for selected_short active_reference relationship v =
      let short = v.display.short_version_id in
      let is_selected = short == selected_short in
      let is_active = is_reference active_reference short in
      record {
        label = v.display.label;
        short_version_id = short;
        family_summary = family_summary (uuid_hex v.version_record.family_id);
        relationship = relationship;
        created_at = utc_text v.version_record.created_at;
        status_label = status_label is_active is_selected;
        is_active = is_active;
        is_selected = is_selected;
      }

  -- The view, from what was resolved.
  abbrev pub view_of :
      DiscoveredVersion D
      → Option String
      → Resolution (DiscoveredVersion D)
      → Resolution (DiscoveredVersion D)
      → List (DiscoveredVersion D) × Bool
      → LineageView
  view_of v active_reference parents roots children =
      let node = node_for v.display.short_version_id active_reference in
      let selected_node = node selected v in
      let root_node = map_resolved (node root) roots in
      let parent_node = map_resolved (node parent) parents in
      let child_nodes = map (node child) children.0 in
      let unavailable = unavailable_count parents + unavailable_count roots in
      let corrupt = corrupt_count parents + corrupt_count roots in
      let state = overall_state corrupt children.1 in
      record {
        state = state;
        message = message_of state;
        selected_node = some selected_node;
        root_node = shown root_node;
        parent_node = shown parent_node;
        children = child_nodes;
        unavailable_relatives = unavailable;
        corrupt_relatives = corrupt;
        is_truncated = children.1;
        text_alternative =
            text_alternative_of selected_node root_node parent_node child_nodes unavailable corrupt
              children.1;
      }

  abbrev pub project_selected :
      DiscoveryResult D
      → Option String
      → ℕ
      → Result LineageState (DiscoveredVersion D)
      → LineageView
  project_selected result active_reference max_nodes (err state) = empty_lineage state
  project_selected result active_reference max_nodes (ok v) =
      let by_vid = by_version_id result.versions in
      view_of v active_reference (resolve_parent v by_vid (suc (length by_vid)))
        (resolve_root v (select (in_family v.version_record.family_id) result.versions))
        (resolve_children v result.versions max_nodes)

  -- `none` is the `LineageConfigError` for a bound outside 1..64.
  unfoldable pub project_lineage :
      DiscoveryResult D → String → Option String → ℕ → Option LineageView
  unfolding resolve_selected resolve_parent resolve_root resolve_children text_alternative_of
  project_lineage result selected_reference active_reference max_nodes =
      if leb 1 max_nodes && leb max_nodes max_lineage_nodes
      then some (
          if is_empty selected_reference
          then empty_lineage empty
          else project_selected result active_reference max_nodes
              (resolve_selected result selected_reference))
      else none
