-- ===== src/Catalog/Agreement.antt =====
-- The two walks agree: where `detect_cycles` finds nothing, `topo_sort` takes the same steps.
use data_quality_toolkit.Prelude.{
  ℕ, zero, suc, ◌≤◌, String, ◌≡◌, ◌≢◌, refl, inl, inr, true, Option, none, some, List, [], ◌∷◌,
  ◌++◌, lookup, insert, lookup-insert, keys, contains, length, length-append, Result, ok, err,
  ◌>>=◌, arith, eq_iff, ◌⊎◌,
}
use data_quality_toolkit.Catalog.Graph.{DepGraph, GraphError, deps, out_of_fuel}
use data_quality_toolkit.Catalog.Walks.{
  Colour, unvisited, visiting, done, each, Search, backtrack_cycle, edge, detect_enter, detect_dfs,
  detect_root, search_start, detect_cycles, Sorting, topo_enter, topo_dfs, topo_root, topo_sort,
}
use data_quality_toolkit.Catalog.Colours.{lookup-from_keys}
use data_quality_toolkit.Catalog.Cycles.{is_known}
use data_quality_toolkit.Catalog.Fuel.{topo_sort_total}

-- Every dependency is a node.
abbrev pub IsClosed : DepGraph → Type 0
IsClosed g = (u v : String) → contains v (deps g u) ≡ true → contains v (keys g) ≡ true

abbrev Known : DepGraph → Search → Type 0
Known g w = (k : String) → contains k (keys g) ≡ true → is_known (lookup k w.colour) ≡ true

abbrev beside : Search → List String → Sorting
beside w o = record { colour = w.colour; order = o }

-- The search found at least `n` cycles, and if it found no more, the sort is where the search is.
abbrev Agrees : DepGraph → ℕ → Result GraphError Search → Result GraphError Sorting → Type 0
Agrees g n (ok w) t =
    Known g w
    × (n ≤ length w.cycles)
    × (length w.cycles ≡ n → ((o : List String) × (t ≡ ok (beside w o))) ⊎ (t ≡ err out_of_fuel))
Agrees g n (err e) t = Unit

Agrees-bind :
    (g : DepGraph) (n : ℕ) (r : Result GraphError Search) (t : Result GraphError Sorting)
    (f : Search → Result GraphError Search) (h : Sorting → Result GraphError Sorting)
    → Agrees g n r t
    → ((w : Search)
        → Known g w
        → (o : List String) → Agrees g (length w.cycles) (f w) (h (beside w o)))
    → Agrees g n (r >>= f) (t >>= h)
Agrees-bind g n (err e) t f h a k = tt
Agrees-bind g n (ok w) t f h (kn, le, same) k = go (f w) (k w kn)
  where
    go :
        (r : Result GraphError Search)
        → ((o : List String) → Agrees g (length w.cycles) r (h (beside w o)))
        → Agrees g n r (t >>= h)
    go (err e) a = tt
    go (ok w') a = (
      (a []).0,
      omega (arith, (a []).1),
      λ last. elim (same (omega (arith, (a []).1))) [
        | inl (o, run) ↦ rw run ((a o).2 (omega (arith, (a []).1)))
        | inr dry ↦ inr (rw dry)
      ],
    )

each-Agrees :
    (g : DepGraph) (search : String → Search → Result GraphError Search)
    (sort : String → Sorting → Result GraphError Sorting) (vs : List String)
    → ((v : String) (w : Search) (o : List String)
        → contains v vs ≡ true
        → Known g w
        → Agrees g (length w.cycles) (search v w) (sort v (beside w o)))
    → (w : Search) (o : List String) → Known g w
    → Agrees g (length w.cycles) (each search vs w) (each sort vs (beside w o))
unfolding each
each-Agrees g search sort [] h w o k = (k, omega arith, λ _. inl (o, refl))
each-Agrees g search sort (v ∷ vs) h w o k =
    Agrees-bind g (length w.cycles) (search v w) (sort v (beside w o)) (each search vs)
      (each sort vs) (h v w o (ground (arith, eq_iff v v)) k)
      λ w' k' o'. each-Agrees g search sort vs (λ x a b m. h x a b (ground arith)) w' o' k'

Known-insert :
    (g : DepGraph) (u : String) (c : Colour) (w : Search)
    → Known g w
    → Known g (record w { colour = insert u c w.colour })
Known-insert g u c w k x m = ground (arith, lookup-insert u x c w.colour, k x)

abbrev Sorts : DepGraph → ℕ → Type 0
Sorts g f =
    (v : String) (w : Search) (o : List String)
    → Known g w
    → lookup v w.colour ≡ some unvisited
    → Agrees g (length w.cycles) (detect_dfs g f v w) (topo_dfs g f v (beside w o))

topo_dfs_finished :
    (g : DepGraph) (f : ℕ) (v : String) (w : Sorting)
    → lookup v w.colour ≡ some done
    → (topo_dfs g f v w ≡ ok w) ⊎ (topo_dfs g f v w ≡ err out_of_fuel)
unfolding topo_dfs
topo_dfs_finished g zero v w e = inr refl
topo_dfs_finished g (suc f) v w e = inl (rw (e, topo_dfs))

-- A back edge adds a cycle, whatever the sort does there.
more_cycles :
    (g : DepGraph) (w : Search) (r : Result GraphError (List String))
    (t : Result GraphError Sorting)
    → Known g w
    → Agrees g (length w.cycles) (r >>= λ path. ok (record w { cycles = w.cycles ++ path ∷ [] })) t
more_cycles g w (err e) t k = tt
more_cycles g w (ok path) t k = (
  k,
  omega (arith, length-append w.cycles (path ∷ [])),
  λ same. absurd (omega (arith, length-append w.cycles (path ∷ []))),
)

module _ (g : DepGraph) (f : ℕ) where
  edge-Agrees :
      Sorts g f
      → (u v : String) (w : Search) (o : List String) → contains v (keys g) ≡ true
      → Known g w
      → Agrees g (length w.cycles) (edge (detect_dfs g f) u v w) (topo_dfs g f v (beside w o))
  edge-Agrees sorts u v w o m k = go (lookup v w.colour) refl
    where
      go :
          (c : Option Colour)
          → lookup v w.colour ≡ c
          → Agrees g (length w.cycles) (edge (detect_dfs g f) u v w) (topo_dfs g f v (beside w o))
      go none e = absurd (ground (arith, k v))
      go (some done) e =
          rw (e, edge)
            (
              k,
              omega arith,
              λ _. elim (topo_dfs_finished g f v (beside w o) e) [
                | inl run ↦ inl (o, run)
                | inr dry ↦ inr dry
              ],
            )
      go (some visiting) e = rw (e, edge) (more_cycles g w (backtrack_cycle w.parent u v) _ k)
      go (some unvisited) e =
          rw (e, edge) (sorts v (record w { parent = insert v (some u) w.parent }) o k e)

  enter-Agrees :
      IsClosed g
      → Sorts g f
      → (u : String) (w : Search) (o : List String) → Known g w
      → Agrees g
          (length w.cycles)
          (detect_enter (detect_dfs g f) g u w)
          (topo_enter (topo_dfs g f) g u (beside w o))
  enter-Agrees closed sorts u w o k =
      Agrees-bind g (length w.cycles) _ _
        (λ w'. ok (record w' { colour = insert u done w'.colour }))
        (λ w'. ok (record { colour = insert u done w'.colour; order = w'.order ++ u ∷ [] }))
        (each-Agrees g (edge (detect_dfs g f) u) (topo_dfs g f) (deps g u)
          (λ v w' o' m k'. edge-Agrees sorts u v w' o' (closed u v m) k')
          (record w { colour = insert u visiting w.colour }) o (Known-insert g u visiting w k))
        (λ w' k' o'. (Known-insert g u done w' k', omega arith, λ _. inl (o' ++ u ∷ [], refl)))

dfs-Agrees : (g : DepGraph) → IsClosed g → (f : ℕ) → Sorts g f
unfolding detect_dfs topo_dfs
dfs-Agrees g closed zero u w o k e = tt
dfs-Agrees g closed (suc f) u w o k e =
    rw (e, topo_dfs) (enter-Agrees g f closed (dfs-Agrees g closed f) u w o k)

root-Agrees :
    (g : DepGraph) (closed : IsClosed g) (f : ℕ) (u : String) (w : Search) (o : List String)
    → Known g w
    → Agrees g (length w.cycles) (detect_root g f u w) (topo_root g f u (beside w o))
root-Agrees g closed f u w o k = go (lookup u w.colour) refl
  where
    go :
        (c : Option Colour)
        → lookup u w.colour ≡ c
        → Agrees g (length w.cycles) (detect_root g f u w) (topo_root g f u (beside w o))
    go none e = rw (e, detect_root, topo_root) tt
    go (some done) e = rw (e, detect_root, topo_root) (k, omega arith, λ _. inl (o, refl))
    go (some visiting) e = rw (e, detect_root, topo_root) (k, omega arith, λ _. inl (o, refl))
    go (some unvisited) e = rw (e, detect_root, topo_root) (dfs-Agrees g closed f u w o k e)

start-Known : (g : DepGraph) → Known g (search_start g)
start-Known g k m = ground (arith, lookup-from_keys unvisited k g)

-- Where every dependency is a node and `detect_cycles` reports nothing, `topo_sort` returns.
pub topo_sort_succeeds :
    (g : DepGraph)
    → IsClosed g
    → detect_cycles g ≡ ok []
    → (order : List String) × (topo_sort g ≡ ok order)
unfolding detect_cycles topo_sort
topo_sort_succeeds g closed none_found =
    let f = suc (length g) in
    finish _ _
      (each-Agrees g (detect_root g f) (topo_root g f) (keys g)
        (λ v w o _. root-Agrees g closed f v w o) (search_start g) [] (start-Known g))
      none_found (topo_sort_total g)
  where
    finish :
        (r : Result GraphError Search) (t : Result GraphError Sorting)
        → Agrees g 0 r t
        → (r >>= λ w. ok w.cycles) ≡ ok []
        → (t >>= λ w. ok w.order) ≢ err out_of_fuel
        → (order : List String) × ((t >>= λ w. ok w.order) ≡ ok order)
    finish (err e) t a found total = cc
    finish (ok w) t a found total =
        let no_cycles : w.cycles ≡ [] = cc in
        elim (a.2 (rw no_cycles)) [ inl (o, run) ↦ (o, rw run) | inr dry ↦ absurd (total (rw dry)) ]
