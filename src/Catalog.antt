-- ===== src/Catalog.antt =====
-- The KPI catalogue: domain/semantics/schema.py, dag.py and validators.py, below
-- src/data_quality_toolkit. This module has the schema; the children have the dependency graph,
-- the two walks over it, the validators, and the proofs about them.
-- The pydantic checks of field types and `scale`, a float that none of this code reads, are left
-- out.
pub mod Graph
pub mod Walks
pub mod Colours
pub mod Outcome
pub mod Fuel
pub mod Order
pub mod Cycles
pub mod Detect
pub mod Agreement
pub mod Execution
pub mod Validate
pub mod Rules
pub mod Acceptance
pub mod Tests
use data_quality_toolkit.Prelude.{
  String, Bool, Option, none, some, List, [], ◌∷◌, map, ◌==◌, if◌then◌else◌,
}

pub data Grain : Type 0 where
  global dataset table column time : Grain

pub data MeasureUnit : Type 0 where
  count percent ratio currency score days hours : MeasureUnit

pub record Kpi : Type 0 where
  pub id : String
  pub title : String
  pub expression : String
  pub grain : Grain
  pub unit : MeasureUnit
  pub depends_on : List String
  pub description : Option String
  pub format_string : Option String
  pub hidden : Bool
  pub source_table : Option String
  pub source_columns : Option (List String)
  pub aggregation_rule : Option String
  pub support_status : Option String

pub record Catalogue : Type 0 where
  pub kpis : List Kpi
  pub version : String
  pub description : Option String

-- `next((k for k in self.kpis if k.id == kpi_id), None)`
unfoldable pub first_kpi : String → List Kpi → Option Kpi
first_kpi kpi_id [] = none
first_kpi kpi_id (k ∷ ks) = if k.id == kpi_id then some k else first_kpi kpi_id ks

unfoldable pub get_kpi : Catalogue → String → Option Kpi
unfolding first_kpi
get_kpi catalog kpi_id = first_kpi kpi_id catalog.kpis

-- A Python set of texts, of which the code asks only whether a text is in it.
abbrev pub kpi_ids : Catalogue → List String
kpi_ids catalog = map (λ k. k.id) catalog.kpis
