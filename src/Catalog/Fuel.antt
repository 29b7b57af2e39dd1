-- ===== src/Catalog/Fuel.antt =====
-- The fuel of `topo_sort` is enough, whatever the graph.
use data_quality_toolkit.Prelude.{
  ℕ, zero, suc, ◌≤◌, ◌<◌, String, ◌≡◌, ◌≢◌, refl, Option, none, some, [], ◌∷◌, ◌++◌, lookup, insert,
  keys, length, Result, ok, err, ◌>>=◌, arith,
}
use data_quality_toolkit.Catalog.Graph.{
  DepGraph, GraphError, cycle_at, key_error, out_of_fuel, deps,
}
use data_quality_toolkit.Catalog.Walks.{
  Colour, unvisited, visiting, done, Sorting, topo_enter, topo_dfs, topo_root, sort_start,
  topo_sort,
}
use data_quality_toolkit.Catalog.Colours.{
  whites, whites-insert_fresh, whites-insert-le, whites-from_keys,
}
use data_quality_toolkit.Catalog.Outcome.{Outcome, InFuel, Outcome-bind, each-Outcome}

module _ (g : DepGraph) (f : ℕ) (u : String) (w : Sorting)
    (Q : Result GraphError Sorting → Type 0) where
  -- A call of `dfs`, by the colour of its node.
  pub topo_dfs_cases :
      Q (err (key_error u))
      → Q (err (cycle_at u))
      → (lookup u w.colour ≡ some done → Q (ok w))
      → (lookup u w.colour ≡ some unvisited → Q (topo_enter (topo_dfs g f) g u w))
      → Q (topo_dfs g (suc f) u w)
  unfolding topo_dfs
  topo_dfs_cases absent grey black enter = go (lookup u w.colour) refl
    where
      go : (c : Option Colour) → lookup u w.colour ≡ c → Q (topo_dfs g (suc f) u w)
      go none e = rw (e, topo_dfs) absent
      go (some visiting) e = rw (e, topo_dfs) grey
      go (some done) e = rw (e, topo_dfs) (black e)
      go (some unvisited) e = rw (e, topo_dfs) (enter e)

  -- A round of the loop over all nodes, by the colour of its node.
  pub topo_root_cases :
      Q (err (key_error u))
      → ((c : Colour) → lookup u w.colour ≡ some c → c ≢ unvisited → Q (ok w))
      → (lookup u w.colour ≡ some unvisited → Q (topo_dfs g f u w))
      → Q (topo_root g f u w)
  topo_root_cases absent seen enter = go (lookup u w.colour) refl
    where
      go : (c : Option Colour) → lookup u w.colour ≡ c → Q (topo_root g f u w)
      go none e = rw (e, topo_root) absent
      go (some visiting) e = rw (e, topo_root) (seen visiting e (λ p. cc))
      go (some done) e = rw (e, topo_root) (seen done e (λ p. cc))
      go (some unvisited) e = rw (e, topo_root) (enter e)

abbrev AtMost : ℕ → Sorting → Type 0
AtMost n w = whites w.colour ≤ n

topo_enter_total :
    (g : DepGraph) (dfs : String → Sorting → Result GraphError Sorting) (m : ℕ)
    → ((v : String) (w : Sorting) → AtMost m w → Outcome InFuel (AtMost m) (dfs v w))
    → (u : String) (w : Sorting) → lookup u w.colour ≡ some unvisited
    → AtMost (suc m) w
    → Outcome InFuel (AtMost (suc m)) (topo_enter dfs g u w)
topo_enter_total g dfs m inner u w e le =
    Outcome-bind InFuel (AtMost m) (AtMost (suc m)) _
      (λ w'. ok (record { colour = insert u done w'.colour; order = w'.order ++ u ∷ [] }))
      (each-Outcome InFuel (AtMost m) dfs (deps g u) (λ v w' _. inner v w') _
        (omega (arith, whites-insert_fresh u visiting w.colour e refl)))
      (λ w' le'. omega (arith, whites-insert-le u done w'.colour refl))

topo_dfs_total :
    (g : DepGraph) (f n : ℕ) (u : String) (w : Sorting)
    → n < f
    → AtMost n w
    → Outcome InFuel (AtMost n) (topo_dfs g f u w)
topo_dfs_total g zero n u w h p = elim h [ ]
topo_dfs_total g (suc f) zero u w h p =
    topo_dfs_cases g f u w (Outcome InFuel (AtMost zero)) tt tt (λ _. p)
      (λ e. absurd (omega (arith, whites-insert_fresh u visiting w.colour e refl)))
topo_dfs_total g (suc f) (suc m) u w h p =
    topo_dfs_cases g f u w (Outcome InFuel (AtMost (suc m))) tt tt (λ _. p)
      λ e.
        topo_enter_total g (topo_dfs g f) m (λ v w'. topo_dfs_total g f m v w' (omega arith)) u w e
          p

topo_root_total :
    (g : DepGraph) (u : String) (w : Sorting)
    → AtMost (length g) w
    → Outcome InFuel (AtMost (length g)) (topo_root g (suc (length g)) u w)
topo_root_total g u w p =
    topo_root_cases g (suc (length g)) u w (Outcome InFuel (AtMost (length g))) tt (λ c _ _. p)
      (λ e. topo_dfs_total g (suc (length g)) (length g) u w (omega arith) p)

InFuel-ne-out_of_fuel :
    (P : Sorting → Type 0) (r : Result GraphError Sorting)
    → Outcome InFuel P r
    → (r >>= λ w. ok w.order) ≢ err out_of_fuel
InFuel-ne-out_of_fuel P (ok w) p q = cc
InFuel-ne-out_of_fuel P (err out_of_fuel) p q = p
InFuel-ne-out_of_fuel P (err _) p q = cc

-- `topo_sort` ends by itself on every graph, apart from Python's bound on nested calls: it returns an
-- order or raises, and the fuel, one more than the number of nodes, never runs out.
pub topo_sort_total : (g : DepGraph) → topo_sort g ≢ err out_of_fuel
unfolding topo_sort
topo_sort_total g = InFuel-ne-out_of_fuel (AtMost (length g)) _ (
    each-Outcome InFuel (AtMost (length g)) (topo_root g (suc (length g))) (keys g)
      (λ u w _. topo_root_total g u w) (sort_start g) (omega (arith, whites-from_keys g)))
