-- ===== src/Catalog/Graph.antt =====
-- `build_graph` of domain/semantics/dag.py: the dependency graph of a catalogue.
use data_quality_toolkit.Prelude.{
  String, Option, none, some, List, [], ◌∷◌, Dict, lookup, insert, contains, Result, ok, err, ◌>>=◌,
  if◌then◌else◌,
}
use data_quality_toolkit.Catalog.{Kpi, Catalogue, kpi_ids}

-- An adjacency list, with the nodes in the order of insertion.
abbrev pub DepGraph : Type 0
DepGraph = Dict (List String)

-- The `ValueError`s and the `KeyError` of the module. `out_of_fuel` is no outcome of the program.
pub data GraphError : Type 0 where
  unknown_kpi : (kpi dep : String) → GraphError
  cycle_at : String → GraphError
  key_error : String → GraphError
  cycles_detected : List (List String) → GraphError
  out_of_fuel : GraphError

abbrev pub or_nil : Option (List String) → List String
or_nil none = []
or_nil (some vs) = vs

-- `graph.get(u, [])`
unfoldable pub deps : DepGraph → String → List String
unfolding lookup
deps g u = or_nil (lookup u g)

-- The first dependency that is no KPI of the catalogue.
unfoldable pub unknown_dep : List String → List String → Option String
unknown_dep ids [] = none
unknown_dep ids (d ∷ ds) = if contains d ids then unknown_dep ids ds else some d

abbrev pub add_node : List String → Kpi → DepGraph → Result GraphError DepGraph
add_node ids k graph = elim (unknown_dep ids k.depends_on) [
  | none ↦ ok (insert k.id k.depends_on graph)
  | some d ↦ err (unknown_kpi k.id d)
]

unfoldable pub add_nodes : List String → List Kpi → DepGraph → Result GraphError DepGraph
unfolding unknown_dep insert
add_nodes ids [] graph = ok graph
add_nodes ids (k ∷ ks) graph = add_node ids k graph >>= add_nodes ids ks

unfoldable pub build_graph : Catalogue → Result GraphError DepGraph
unfolding add_nodes
build_graph catalog = add_nodes (kpi_ids catalog) catalog.kpis []
