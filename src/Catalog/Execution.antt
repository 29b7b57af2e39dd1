-- ===== src/Catalog/Execution.antt =====
-- `get_execution_order`, from the catalogue to the order.
use data_quality_toolkit.Prelude.{
  String, ◌≡◌, ◌≢◌, refl, true, ◌||◌, Option-cases, inl, inr, none, List, [], ◌∷◌, map, insert,
  lookup-insert, keys, contains, Result, ok, err, arith, eq_iff, ◌⊎◌, All, ◌==◌, Dict, subst,
}
use data_quality_toolkit.Catalog.{Kpi, Catalogue, kpi_ids}
use data_quality_toolkit.Catalog.Graph.{
  DepGraph, GraphError, cycles_detected, deps, unknown_dep, add_node, add_nodes, build_graph,
}
use data_quality_toolkit.Catalog.Walks.{detect_cycles, topo_sort, get_execution_order}
use data_quality_toolkit.Catalog.Cycles.{IsCycle}
use data_quality_toolkit.Catalog.Detect.{detect_cycles_returns}
use data_quality_toolkit.Catalog.Agreement.{IsClosed, topo_sort_succeeds}
use data_quality_toolkit.Catalog.Order.{DepsFirst, topo_sort_sorts}

contains-keys-insert :
    {V : Type 0} (j k : String) (v : V) (m : Dict V)
    → contains j (keys (insert k v m)) ≡ (j == k || contains j (keys m))
unfolding insert
contains-keys-insert j k v [] = refl
contains-keys-insert j k v ((i, w) ∷ m) =
    ground (arith, contains-keys-insert j k v m, eq_iff i k, eq_iff j k, eq_iff j i)

unknown_dep-none :
    (ids ds : List String) (v : String)
    → unknown_dep ids ds ≡ none
    → contains v ds ≡ true
    → contains v ids ≡ true
unfolding unknown_dep
unknown_dep-none ids [] v h m = cc
unknown_dep-none ids (d ∷ ds) v h m = ground (arith, eq_iff v d, unknown_dep-none ids ds v)

-- The dependencies that are in the graph so far are KPIs.
abbrev Within : List String → DepGraph → Type 0
Within ids g = (u v : String) → contains v (deps g u) ≡ true → contains v ids ≡ true

Within-insert :
    (ids : List String) (k : String) (ds : List String) (g : DepGraph)
    → unknown_dep ids ds ≡ none
    → Within ids g
    → Within ids (insert k ds g)
unfolding deps
Within-insert ids k ds g h within u v m =
    ground (arith, lookup-insert k u ds g, within u v, unknown_dep-none ids ds v)

abbrev Extends : List String → List Kpi → DepGraph → DepGraph → Type 0
Extends ids ks g g' =
    Within ids g'
    × ((j : String)
        → contains j (keys g') ≡ (contains j (map (λ k. k.id) ks) || contains j (keys g)))

add_nodes-Extends :
    (ids : List String) (ks : List Kpi) (g g' : DepGraph)
    → add_nodes ids ks g ≡ ok g'
    → Within ids g
    → Extends ids ks g g'
unfolding add_nodes
add_nodes-Extends ids [] g g' h within =
    let same : g ≡ g' = cc in subst (Extends ids [] g) same (within, λ j. refl)
add_nodes-Extends ids (k ∷ ks) g g' h within = elim (Option-cases (unknown_dep ids k.depends_on)) [
  | inl e ↦
      let rest =
        add_nodes-Extends ids ks (insert k.id k.depends_on g) g' (rw (e, add_node) at h)
          (Within-insert ids k.id k.depends_on g e within) in
      (rest.0, λ j. ground (arith, rest.1 j, contains-keys-insert j k.id k.depends_on g))
  | inr (d, e) ↦ absurd (ok_ne_err (rw (e, add_node) at h))
]
  where
    ok_ne_err : {e : GraphError} → ◌≡◌ {A = Result GraphError DepGraph} (err e) (ok g') → ⊥
    ok_ne_err p = cc

-- The graph of a catalogue: its nodes are the KPIs, and so are all dependencies.
pub build_graph-IsClosed :
    (catalog : Catalogue) (g : DepGraph)
    → build_graph catalog ≡ ok g
    → IsClosed g × ((j : String) → contains j (keys g) ≡ contains j (kpi_ids catalog))
unfolding build_graph deps
build_graph-IsClosed catalog g h = (λ u v m. ground (arith, built.0 u v m, nodes v), nodes)
  where
    built : Extends (kpi_ids catalog) catalog.kpis [] g
    built = add_nodes-Extends (kpi_ids catalog) catalog.kpis [] g h (λ u v m. cc)

    nodes : (j : String) → contains j (keys g) ≡ contains j (kpi_ids catalog)
    nodes j = ground (arith, built.1 j)

-- An execution order: each KPI once, after all that it depends on.
abbrev pub IsExecutionOrder : Catalogue → DepGraph → List String → Type 0
IsExecutionOrder catalog g order =
    DepsFirst g [] order × ((j : String) → contains j order ≡ contains j (kpi_ids catalog))

order_of_graph :
    (catalog : Catalogue) (g : DepGraph) (order : List String)
    → build_graph catalog ≡ ok g
    → topo_sort g ≡ ok order
    → IsExecutionOrder catalog g order
order_of_graph catalog g order built sorted =
    let (first, nodes) = topo_sort_sorts g order sorted in
    (first, λ j. cc (nodes j, (build_graph-IsClosed catalog g built).1 j))

-- The outcomes of `get_execution_order` on a catalogue without unknown dependencies: either the
-- detector finds no cycle, and an execution order of all KPIs is returned, or the non-empty list of
-- the cycles found is raised, each a cycle of the graph. `topo_sort` never raises there.
pub get_execution_order_outcome :
    (catalog : Catalogue) (g : DepGraph)
    → build_graph catalog ≡ ok g
    → ((order : List String) × (get_execution_order catalog ≡ ok order)
        × IsExecutionOrder catalog g order)
      ⊎ ((cycles : List (List String)) × (get_execution_order catalog
            ≡ err (cycles_detected cycles))
          × (cycles ≢ [])
          × All (IsCycle g) cycles)
unfolding get_execution_order
get_execution_order_outcome catalog g built = go (detect_cycles_returns g)
  where
    go :
        (found : (cycles : List (List String)) × (detect_cycles g ≡ ok cycles)
          × All (IsCycle g) cycles)
        → ((order : List String) × (get_execution_order catalog ≡ ok order)
            × IsExecutionOrder catalog g order)
          ⊎ ((cycles : List (List String)) × (get_execution_order catalog
                ≡ err (cycles_detected cycles))
              × (cycles ≢ [])
              × All (IsCycle g) cycles)
    go ([], e, cs) =
        let (order, sorted) = topo_sort_succeeds g (build_graph-IsClosed catalog g built).0 e in
        inl (order, simp (built, e, sorted), order_of_graph catalog g order built sorted)
    go (c ∷ cs, e, all) = inr (c ∷ cs, simp (built, e), (λ p. cc), all)
