-- ===== src/Catalog/Tests.antt =====
-- Small catalogues, what the walks do on them, and the theorems at these inputs.
use data_quality_toolkit.Prelude.{
  String, ◌≡◌, ◌≢◌, ◌↔◌, ◌⊎◌, refl, true, false, none, List, [], ◌∷◌, ok, err, contains, keys, All,
}
use data_quality_toolkit.Catalog.{global, score, count, percent, Kpi, Catalogue, kpi_ids}
use data_quality_toolkit.Catalog.Graph.{
  DepGraph, unknown_kpi, cycle_at, out_of_fuel, cycles_detected, build_graph,
}
use data_quality_toolkit.Catalog.Walks.{detect_cycles, topo_sort, get_execution_order}
use data_quality_toolkit.Catalog.Fuel.{topo_sort_total}
use data_quality_toolkit.Catalog.Order.{DepsFirst, topo_sort_sorts}
use data_quality_toolkit.Catalog.Cycles.{IsCycle}
use data_quality_toolkit.Catalog.Detect.{detect_cycles_returns}
use data_quality_toolkit.Catalog.Execution.{IsExecutionOrder, get_execution_order_outcome}
use data_quality_toolkit.Catalog.Validate.{unit_mismatch, validate_semantics, validate_dax_syntax}
use data_quality_toolkit.Catalog.Rules.{IsDistinct}
use data_quality_toolkit.Catalog.Acceptance.{AllFit, validate_semantics_iff}

abbrev kpi : String → List String → Kpi
kpi id depends_on = record {
  id = id;
  title = id;
  expression = "";
  grain = global;
  unit = score;
  depends_on = depends_on;
  description = none;
  format_string = none;
  hidden = false;
  source_table = none;
  source_columns = none;
  aggregation_rule = none;
  support_status = none;
}

abbrev catalogue : List Kpi → Catalogue
catalogue kpis = record { kpis = kpis; version = "1.0.0"; description = none }

abbrev diamond : Catalogue
diamond =
    catalogue (kpi "d" ("b" ∷ "c" ∷ []) ∷ kpi "b" ("a" ∷ []) ∷ kpi "c" ("a" ∷ []) ∷ kpi "a" [] ∷ [])

diamond_order : get_execution_order diamond ≡ ok ("a" ∷ "b" ∷ "c" ∷ "d" ∷ [])
unfolding get_execution_order
diamond_order = refl

abbrev triangle : DepGraph
triangle = ("a", "b" ∷ []) ∷ ("b", "c" ∷ []) ∷ ("c", "a" ∷ []) ∷ []

triangle_cycles : detect_cycles triangle ≡ ok (("a" ∷ "c" ∷ "b" ∷ []) ∷ [])
unfolding detect_cycles
triangle_cycles = refl

triangle_raises : topo_sort triangle ≡ err (cycle_at "a")
unfolding topo_sort
triangle_raises = refl

unknown_raises :
    get_execution_order (catalogue (kpi "a" ("z" ∷ []) ∷ [])) ≡ err (unknown_kpi "a" "z")
unfolding get_execution_order
unknown_raises = refl

mixed_units :
    validate_semantics (
      catalogue (
        kpi "a" []
        ∷ record (kpi "b" ("c" ∷ [])) { unit = percent }
        ∷ record (kpi "c" []) { unit = count }
        ∷ []))
    ≡ err (unit_mismatch "b" (count ∷ []))
unfolding validate_semantics
mixed_units = refl

balanced : validate_dax_syntax "SUM('t'[x]) + (1)" ≡ true
unfolding validate_dax_syntax
balanced = refl

topo_sort_total_example : topo_sort triangle ≢ err out_of_fuel
topo_sort_total_example = topo_sort_total triangle

abbrev chain : DepGraph
chain = ("b", "a" ∷ []) ∷ ("a", []) ∷ []

chain_order : topo_sort chain ≡ ok ("a" ∷ "b" ∷ [])
unfolding topo_sort
chain_order = refl

topo_sort_sorts_example :
    DepsFirst chain [] ("a" ∷ "b" ∷ [])
    × ((k : String) → contains k ("a" ∷ "b" ∷ []) ≡ contains k (keys chain))
topo_sort_sorts_example = topo_sort_sorts chain ("a" ∷ "b" ∷ []) chain_order

detect_cycles_returns_example :
    (cycles : List (List String)) × (detect_cycles triangle ≡ ok cycles)
    × All (IsCycle triangle) cycles
detect_cycles_returns_example = detect_cycles_returns triangle

abbrev diamond_graph : DepGraph
diamond_graph = ("d", "b" ∷ "c" ∷ []) ∷ ("b", "a" ∷ []) ∷ ("c", "a" ∷ []) ∷ ("a", []) ∷ []

diamond_built : build_graph diamond ≡ ok diamond_graph
unfolding build_graph
diamond_built = refl

get_execution_order_outcome_example :
    ((order : List String) × (get_execution_order diamond ≡ ok order)
      × IsExecutionOrder diamond diamond_graph order)
    ⊎ ((cycles : List (List String)) × (get_execution_order diamond ≡ err (cycles_detected cycles))
        × (cycles ≢ [])
        × All (IsCycle diamond_graph) cycles)
get_execution_order_outcome_example =
    get_execution_order_outcome diamond diamond_graph diamond_built

validate_semantics_iff_example : (validate_semantics diamond ≡ ok tt) ↔ (
    IsDistinct (kpi_ids diamond)
    × AllFit diamond
    × ((order : List String) × (get_execution_order diamond ≡ ok order)))
validate_semantics_iff_example = validate_semantics_iff diamond
