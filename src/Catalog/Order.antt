-- ===== src/Catalog/Order.antt =====
-- What `topo_sort` returns is a topological order of all nodes.
use mathlib.Core.List.{append-nil, append_assoc}
use data_quality_toolkit.Prelude.{
  ℕ, zero, suc, String, ◌≡◌, ◌≢◌, refl, Bool, true, false, Option, none, some, List, [], ◌∷◌, ◌++◌,
  lookup, insert, lookup-insert, keys, contains, contains-append, All, length, Result, ok,
  >>=-eq-ok, arith, eq_iff, if◌then◌else◌, subst,
}
use data_quality_toolkit.Catalog.Graph.{DepGraph, GraphError, deps}
use data_quality_toolkit.Catalog.Walks.{
  Colour, unvisited, visiting, done, each, Sorting, topo_enter, topo_dfs, topo_root, sort_start,
  topo_sort,
}
use data_quality_toolkit.Catalog.Colours.{lookup-from_keys}
use data_quality_toolkit.Catalog.Outcome.{OnOk, Outcome-bind, Outcome-map}
use data_quality_toolkit.Catalog.Fuel.{topo_dfs_cases, topo_root_cases}

-- Every text of the list is new when it comes, and all that it depends on is seen before.
abbrev pub DepsFirst : DepGraph → List String → List String → Type 0
DepsFirst g seen [] = Unit
DepsFirst g seen (u ∷ rest) =
    (contains u seen ≡ false)
    × All (λ d. contains d seen ≡ true) (deps g u)
    × DepsFirst g (seen ++ u ∷ []) rest

pub DepsFirst-append :
    (g : DepGraph) (u : String) (seen xs : List String)
    → DepsFirst g seen xs
    → contains u (seen ++ xs) ≡ false
    → All (λ d. contains d (seen ++ xs) ≡ true) (deps g u)
    → DepsFirst g seen (xs ++ u ∷ [])
DepsFirst-append g u seen [] h new before = (rw append-nil at new, rw append-nil at before, tt)
DepsFirst-append g u seen (x ∷ xs) h new before = (
  h.0,
  h.1,
  DepsFirst-append g u (seen ++ x ∷ []) xs h.2 (rw append_assoc new) (rw append_assoc before),
)

abbrev is_grey : Option Colour → Bool
is_grey (some visiting) = true
is_grey _ = false

abbrev is_black : Option Colour → Bool
is_black (some done) = true
is_black _ = false

abbrev is_known : Option Colour → Bool
is_known none = false
is_known (some c) = true

abbrev grey : String → Sorting → Bool
grey k w = is_grey (lookup k w.colour)

abbrev black : String → Sorting → Bool
black k w = is_black (lookup k w.colour)

abbrev known : String → Sorting → Bool
known k w = is_known (lookup k w.colour)

-- The order holds the finished nodes, dependencies first.
record Inv (g : DepGraph) (w : Sorting) : Type 0 where
  finished : (k : String) → black k w ≡ contains k w.order
  ordered : DepsFirst g [] w.order

-- What a finished call has done: no node is newly open, none is unfinished again, and
-- no key has come or gone.
record Leads (w w' : Sorting) : Type 0 where
  greys : (k : String) → grey k w' ≡ grey k w
  blacks : (k : String) → black k w ≡ true → black k w' ≡ true
  keys_same : (k : String) → known k w' ≡ known k w

Leads-refl : (w : Sorting) → Leads w w
Leads-refl w = record { greys = λ k. refl; blacks = λ k h. h; keys_same = λ k. refl }

Leads-trans : {a b c : Sorting} → Leads a b → Leads b c → Leads a c
Leads-trans p q = record {
  greys = λ k. cc (p.greys k, q.greys k);
  blacks = λ k h. q.blacks k (p.blacks k h);
  keys_same = λ k. cc (p.keys_same k, q.keys_same k);
}

module _ (g : DepGraph) where
  abbrev Visited : List String → Sorting → Sorting → Type 0
  Visited vs w w' = Inv g w' × Leads w w' × All (λ v. black v w' ≡ true) vs

  All-blacks :
      (vs : List String) (a b : Sorting)
      → Leads a b
      → All (λ v. black v a ≡ true) vs
      → All (λ v. black v b ≡ true) vs
  All-blacks [] a b h k = tt
  All-blacks (v ∷ vs) a b h k = (h.blacks v k.0, All-blacks vs a b h k.1)

  -- The rule for a loop whose rounds each finish a node.
  each-Visited :
      (base : Sorting) (step : String → Sorting → Result GraphError Sorting)
      → ((v : String) (w : Sorting) → Inv g w → Leads base w → OnOk (Visited (v ∷ []) w) (step v w))
      → (vs : List String) (w : Sorting) → Inv g w
      → Leads base w
      → OnOk (Visited vs w) (each step vs w)
  unfolding each
  each-Visited base step h [] w i l = (i, Leads-refl w, tt)
  each-Visited base step h (v ∷ vs) w i l =
      Outcome-bind (λ _. Unit) (Visited (v ∷ []) w) (Visited (v ∷ vs) w) (step v w) (each step vs)
        (h v w i l)
        λ a p.
          Outcome-map (λ _. Unit) (each step vs a)
            (each-Visited base step h vs a p.0 (Leads-trans l p.1))
            (λ b q. (q.0, Leads-trans p.1 q.1, (q.1.blacks v p.2.0, q.2)))

  abbrev opened : String → Sorting → Sorting
  opened u w = record w { colour = insert u visiting w.colour }

  abbrev closed : String → Sorting → Sorting
  closed u w = record { colour = insert u done w.colour; order = w.order ++ u ∷ [] }

  opened-Inv :
      (u : String) (w : Sorting) → lookup u w.colour ≡ some unvisited → Inv g w → Inv g (opened u w)
  opened-Inv u w e i = record {
    finished = λ k.
        ground (arith, lookup-insert u k visiting w.colour, i.finished k, i.finished u, eq_iff u k);
    ordered = i.ordered;
  }

  All-finished :
      (vs : List String) (w : Sorting)
      → Inv g w
      → All (λ v. black v w ≡ true) vs
      → All (λ v. contains v w.order ≡ true) vs
  All-finished [] w i h = tt
  All-finished (v ∷ vs) w i h = (cc (i.finished v, h.0), All-finished vs w i h.1)

  module _ (u : String) (w : Sorting) (e : lookup u w.colour ≡ some unvisited) (w' : Sorting)
      (i : Inv g w') (l : Leads (opened u w) w') where
    open_node : grey u w' ≡ true
    open_node = ground (arith, l.greys u, lookup-insert u u visiting w.colour, eq_iff u u)

    closed-finished : (k : String) → black k (closed u w') ≡ contains k (w'.order ++ u ∷ [])
    closed-finished k = ground (
      arith,
      lookup-insert u k done w'.colour,
      contains-append k w'.order (u ∷ []),
      i.finished k,
      eq_iff u k,
      eq_iff k u,
    )

    closed-Inv : All (λ v. black v w' ≡ true) (deps g u) → Inv g (closed u w')
    closed-Inv before = record {
      finished = closed-finished;
      ordered =
          DepsFirst-append g u [] w'.order i.ordered (ground (arith, open_node, i.finished u))
            (All-finished (deps g u) w' i before);
    }

    closed-Leads : Leads w (closed u w')
    closed-Leads = record {
      greys = λ k. ground (
        arith,
        l.greys k,
        lookup-insert u k visiting w.colour,
        lookup-insert u k done w'.colour,
        eq_iff u k,
      );
      blacks = λ k h. ground (
        arith,
        l.blacks k,
        lookup-insert u k visiting w.colour,
        lookup-insert u k done w'.colour,
        eq_iff u k,
      );
      keys_same = λ k. ground (
        arith,
        l.keys_same k,
        lookup-insert u k visiting w.colour,
        lookup-insert u k done w'.colour,
        eq_iff u k,
      );
    }

    closed-black : black u (closed u w') ≡ true
    closed-black = ground (arith, lookup-insert u u done w'.colour, eq_iff u u)

  topo_enter-Visited :
      (dfs : String → Sorting → Result GraphError Sorting)
      → ((v : String) (w : Sorting) → Inv g w → OnOk (Visited (v ∷ []) w) (dfs v w))
      → (u : String) (w : Sorting) → lookup u w.colour ≡ some unvisited
      → Inv g w
      → OnOk (Visited (u ∷ []) w) (topo_enter dfs g u w)
  topo_enter-Visited dfs inner u w e i =
      Outcome-bind (λ _. Unit) (Visited (deps g u) (opened u w)) (Visited (u ∷ []) w) _
        (λ w'. ok (closed u w'))
        (each-Visited (opened u w) dfs (λ v w' i' _. inner v w' i') (deps g u) (opened u w)
          (opened-Inv u w e i) (Leads-refl _))
        λ w' v. (
          closed-Inv u w e w' v.0 v.1 v.2,
          closed-Leads u w e w' v.0 v.1,
          (closed-black u w e w' v.0 v.1, tt),
        )

  topo_dfs-Visited :
      (f : ℕ) (u : String) (w : Sorting) → Inv g w → OnOk (Visited (u ∷ []) w) (topo_dfs g f u w)
  unfolding topo_dfs
  topo_dfs-Visited zero u w i = tt
  topo_dfs-Visited (suc f) u w i =
      topo_dfs_cases g f u w (OnOk (Visited (u ∷ []) w)) tt tt
        (λ e. (i, Leads-refl w, (rw e refl, tt)))
        (λ e. topo_enter-Visited (topo_dfs g f) (topo_dfs-Visited f) u w e i)

  start_colour :
      (k : String)
      → lookup k (sort_start g).colour ≡ (if contains k (keys g) then some unvisited else none)
  start_colour k = lookup-from_keys unvisited k g

  start-Inv : Inv g (sort_start g)
  start-Inv = record { finished = λ k. ground (arith, start_colour k); ordered = tt }

  -- Between two rounds of the outer loop no node is open.
  topo_root-Visited :
      (f : ℕ) (u : String) (w : Sorting)
      → Inv g w
      → Leads (sort_start g) w
      → OnOk (Visited (u ∷ []) w) (topo_root g f u w)
  topo_root-Visited f u w i l =
      topo_root_cases g f u w (OnOk (Visited (u ∷ []) w)) tt
        (λ c e ne. (i, Leads-refl w, (not_open c e ne, tt))) (λ _. topo_dfs-Visited f u w i)
    where
      not_open : (c : Colour) → lookup u w.colour ≡ some c → c ≢ unvisited → black u w ≡ true
      not_open unvisited e ne = absurd (ne refl)
      not_open visiting e ne = ground (arith, l.greys u, start_colour u)
      not_open done e ne = rw e refl

All-contains :
    (w : Sorting) (k : String) (vs : List String)
    → All (λ v. black v w ≡ true) vs
    → contains k vs ≡ true
    → black k w ≡ true
All-contains w k [] h m = cc
All-contains w k (v ∷ vs) h m = ground (arith, h.0, eq_iff k v, All-contains w k vs h.1)

ok_inj : (a b : List String) → ◌≡◌ {A = Result GraphError (List String)} (ok a) (ok b) → a ≡ b
ok_inj a b e = cc

sorted_nodes :
    (g : DepGraph) (w : Sorting)
    → Visited g (keys g) (sort_start g) w
    → (k : String) → contains k w.order ≡ contains k (keys g)
sorted_nodes g w v k =
    ground (arith, v.0.finished k, v.1.keys_same k, start_colour g k, All-contains w k (keys g) v.2)

-- What `topo_sort` returns has every node once, after all the nodes that it depends on, and
-- nothing but the nodes.
pub topo_sort_sorts :
    (g : DepGraph) (order : List String)
    → topo_sort g ≡ ok order
    → DepsFirst g [] order × ((k : String) → contains k order ≡ contains k (keys g))
unfolding topo_sort
topo_sort_sorts g order h =
    let (w, run, same) = >>=-eq-ok _ (λ (w : Sorting). ok w.order) h in
    let v : Visited g (keys g) (sort_start g) w =
      subst (OnOk (Visited g (keys g) (sort_start g))) run (
        each-Visited g (sort_start g) (topo_root g (suc (length g)))
          (topo_root-Visited g (suc (length g))) (keys g) (sort_start g) (start-Inv g)
          (Leads-refl _)) in
    subst (λ o. DepsFirst g [] o × ((k : String) → contains k o ≡ contains k (keys g)))
      (ok_inj w.order order same) (v.0.ordered, sorted_nodes g w v)
