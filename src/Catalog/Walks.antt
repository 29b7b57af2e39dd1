-- ===== src/Catalog/Walks.antt =====
-- The depth-first walks of domain/semantics/dag.py: `detect_cycles`, `topo_sort`, and
-- `get_execution_order`, which runs one after the other.
-- A nested `dfs` recurs on fuel. Each call paints a white node, so that one more than the number of
-- nodes is enough: Catalog/Fuel.antt. The bound that Python puts on nested calls is not modelled.
use data_quality_toolkit.Prelude.{
  ℕ, zero, suc, String, Option, none, some, List, [], ◌∷◌, ◌++◌, Dict, lookup, insert, keys, length,
  Result, ok, err, ◌>>=◌, ◌==◌, if◌then◌else◌,
}
use data_quality_toolkit.Catalog.{Catalogue}
use data_quality_toolkit.Catalog.Graph.{
  DepGraph, GraphError, cycle_at, key_error, cycles_detected, out_of_fuel, deps, build_graph,
}

-- 0, 1 and 2 in the source.
pub data Colour : Type 0 where
  unvisited visiting done : Colour

-- `dict.fromkeys(graph, value)`
unfoldable pub from_keys : {A V : Type 0} → V → Dict A → Dict V
from_keys value [] = []
from_keys value ((k, a) ∷ g) = (k, value) ∷ from_keys value g

-- `for v in vs: step(v)`, where the step may raise.
unfoldable pub each :
    {S : Type 0} → (String → S → Result GraphError S) → List String → S → Result GraphError S
each step [] w = ok w
each step (v ∷ vs) w = step v w >>= each step vs

-- The variables that `detect_cycles` and its two nested functions share.
pub record Search : Type 0 where
  pub colour : Dict Colour
  pub parent : Dict (Option String)
  pub cycles : List (List String)

abbrev pub or_unvisited : Option Colour → Colour
or_unvisited none = unvisited
or_unvisited (some c) = c

abbrev pub join : Option (Option String) → Option String
join none = none
join (some o) = o

-- The `while` loop of `backtrack_cycle`: up the parents until `end`, or until there is none.
unfoldable pub climb :
    ℕ
    → Dict (Option String)
    → String
    → Option String
    → List String
    → Result GraphError (List String)
climb zero parent end cur path = err out_of_fuel
climb (suc f) parent end none path = ok path
climb (suc f) parent end (some cur) path =
    let rest = climb f parent end (join (lookup cur parent)) (path ++ cur ∷ []) in
    if cur == end then ok path else rest

-- The path that is built begins with `end`; the second `end` that the source appends is cut off.
unfoldable pub backtrack_cycle :
    Dict (Option String) → String → String → Result GraphError (List String)
unfolding climb lookup
backtrack_cycle parent start end =
    climb (suc (suc (length parent))) parent end (some start) (end ∷ [])

-- The body of the loop over the edges of `u`; `dfs` is the recursive call.
abbrev pub edge :
    (String → Search → Result GraphError Search)
    → String
    → String
    → Search
    → Result GraphError Search
edge dfs u v w = elim (or_unvisited (lookup v w.colour)) [
  | unvisited ↦ dfs v (record w { parent = insert v (some u) w.parent })
  | visiting ↦ do
    path ← backtrack_cycle w.parent u v
    ok (record w { cycles = w.cycles ++ path ∷ [] })
  | done ↦ ok w
]

-- `dfs` at a node; `dfs` here is the recursive call.
abbrev pub detect_enter :
    (String → Search → Result GraphError Search)
    → DepGraph
    → String
    → Search
    → Result GraphError Search
detect_enter dfs g u w = do
  w' ← each (edge dfs u) (deps g u) (record w { colour = insert u visiting w.colour })
  ok (record w' { colour = insert u done w'.colour })

unfoldable pub detect_dfs : DepGraph → ℕ → String → Search → Result GraphError Search
detect_dfs g zero u w = err out_of_fuel
detect_dfs g (suc f) u w = detect_enter (detect_dfs g f) g u w

-- The body of the loop over all nodes.
abbrev pub detect_root : DepGraph → ℕ → String → Search → Result GraphError Search
detect_root g f u w = elim (lookup u w.colour) [
  | none ↦ err (key_error u)
  | some unvisited ↦ detect_dfs g f u w
  | some c ↦ ok w
]

abbrev pub search_start : DepGraph → Search
search_start g = record { colour = from_keys unvisited g; parent = from_keys none g; cycles = [] }

unfoldable pub detect_cycles : DepGraph → Result GraphError (List (List String))
unfolding each detect_dfs backtrack_cycle from_keys deps lookup insert
detect_cycles g = do
  w ← each (detect_root g (suc (length g))) (keys g) (search_start g)
  ok w.cycles

pub record Sorting : Type 0 where
  pub colour : Dict Colour
  pub order : List String

-- `dfs` at a white node; `dfs` here is the recursive call.
abbrev pub topo_enter :
    (String → Sorting → Result GraphError Sorting)
    → DepGraph
    → String
    → Sorting
    → Result GraphError Sorting
topo_enter dfs g u w = do
  w' ← each dfs (deps g u) (record w { colour = insert u visiting w.colour })
  ok (record { colour = insert u done w'.colour; order = w'.order ++ u ∷ [] })

unfoldable pub topo_dfs : DepGraph → ℕ → String → Sorting → Result GraphError Sorting
topo_dfs g zero u w = err out_of_fuel
topo_dfs g (suc f) u w = elim (lookup u w.colour) [
  | none ↦ err (key_error u)
  | some visiting ↦ err (cycle_at u)
  | some done ↦ ok w
  | some unvisited ↦ topo_enter (topo_dfs g f) g u w
]

abbrev pub topo_root : DepGraph → ℕ → String → Sorting → Result GraphError Sorting
topo_root g f u w = elim (lookup u w.colour) [
  | none ↦ err (key_error u)
  | some unvisited ↦ topo_dfs g f u w
  | some c ↦ ok w
]

abbrev pub sort_start : DepGraph → Sorting
sort_start g = record { colour = from_keys unvisited g; order = [] }

unfoldable pub topo_sort : DepGraph → Result GraphError (List String)
unfolding each topo_dfs from_keys deps lookup insert
topo_sort g = do w ← each (topo_root g (suc (length g))) (keys g) (sort_start g); ok w.order

unfoldable pub get_execution_order : Catalogue → Result GraphError (List String)
unfolding build_graph detect_cycles topo_sort
get_execution_order catalog = do
  graph ← build_graph catalog
  cycles ← detect_cycles graph
  elim cycles [ [] ↦ topo_sort graph | c ∷ cs ↦ err (cycles_detected (c ∷ cs)) ]
