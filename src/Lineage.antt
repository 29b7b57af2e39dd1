-- ===== src/Lineage.antt =====
-- The direct lineage of a selected version: adapters/ui/services/managed_version_lineage.py, below
-- src/data_quality_toolkit. `uuid.UUID(value).hex`, which fails for a text that is no UUID, and the
-- time in UTC as a text belong to the standard library and are parameters.
pub mod Relations
pub mod Texts
pub mod View
pub mod Chains
pub mod Parents
pub mod Selection
pub mod Flags
pub mod Tests
use data_quality_toolkit.Prelude.{ℕ, String, Bool, Option, List}

pub data LineageState : Type 0 where
  empty ready selected_unavailable selected_ambiguous corrupt_relation truncated : LineageState

pub data LineageRelationship : Type 0 where
  selected root parent child unavailable : LineageRelationship

-- How a parent or a root was resolved: `node`, `none`, `unavailable` and `corrupt` in the source.
pub data Resolution (A : Type 0) : Type 0 where
  resolved : A → Resolution A
  no_parent not_available not_verified : Resolution A

pub record LineageNode : Type 0 where
  pub label : String
  pub short_version_id : String
  pub family_summary : String
  pub relationship : LineageRelationship
  pub created_at : String
  pub status_label : String
  pub is_active : Bool
  pub is_selected : Bool

pub record LineageView : Type 0 where
  pub state : LineageState
  pub message : String
  pub selected_node : Option LineageNode
  pub root_node : Option LineageNode
  pub parent_node : Option LineageNode
  pub children : List LineageNode
  pub unavailable_relatives : ℕ
  pub corrupt_relatives : ℕ
  pub is_truncated : Bool
  pub text_alternative : String
