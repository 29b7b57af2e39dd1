-- ===== src/Catalog/Detect.antt =====
-- `detect_cycles` ends by itself on every graph, and what it reports are cycles.
use data_quality_toolkit.Prelude.{
  ℕ, zero, suc, ◌≤◌, ◌<◌, String, ◌≡◌, refl, Option-cases, inl, inr, true, false, Option, none,
  some, List, [], ◌∷◌, ◌++◌, lookup, insert, lookup-insert, lookup-insert_self, keys, contains, All,
  All-append, length, Result, ok, err, ◌>>=◌, arith, eq_iff, ap,
}
use data_quality_toolkit.Catalog.Graph.{DepGraph, GraphError, deps, or_nil}
use data_quality_toolkit.Catalog.Walks.{
  Colour, unvisited, visiting, done, each, Search, or_unvisited, backtrack_cycle, edge,
  detect_enter, detect_dfs, detect_root, search_start, detect_cycles,
}
use data_quality_toolkit.Catalog.Colours.{
  whites, whites-insert_fresh, whites-insert-le, whites-from_keys, length-insert, length-from_keys,
  lookup-from_keys, lookup-eq-none,
}
use data_quality_toolkit.Catalog.Outcome.{Returns, Outcome-bind, each-Outcome}
use data_quality_toolkit.Catalog.Cycles.{
  IsCycle, Chain, Chain-insert, Inv, is_grey, climb_finds, opened, closed, opened-Inv, closed-Inv,
}

-- The invariant, with at most `n` white nodes left.
abbrev Walking : DepGraph → List String → ℕ → Search → Type 0
Walking g s n w = Inv g s w × (whites w.colour ≤ n)

-- What a recursive call is asked to do.
abbrev Enters : DepGraph → ℕ → (String → Search → Result GraphError Search) → Type 0
Enters g n dfs =
    (v : String) (s : List String) (w : Search)
    → or_unvisited (lookup v w.colour) ≡ unvisited
    → Chain g w.parent v s
    → Walking g s n w
    → Returns (Walking g s n) (dfs v w)

module _ (g : DepGraph) (n : ℕ) (dfs : String → Search → Result GraphError Search)
    (enters : Enters g n dfs) (u : String) (s : List String) where
  backtrack_finds :
      (v : String) (w : Search)
      → contains v (deps g u) ≡ true
      → is_grey (lookup v w.colour) ≡ true
      → Inv g (u ∷ s) w
      → Returns (IsCycle g) (backtrack_cycle w.parent u v)
  unfolding backtrack_cycle
  backtrack_finds v w m e i =
      climb_finds g w.parent v (suc (suc (length w.parent))) u s [] (omega (arith, i.room, i.sized))
        (ground (arith, i.opens v, e)) i.chain m

  cycle-Walking :
      (w : Search) (path : List String)
      → Walking g (u ∷ s) n w
      → IsCycle g path
      → Walking g (u ∷ s) n (record w { cycles = w.cycles ++ path ∷ [] })
  cycle-Walking w path (i, le) c = (
    record {
      chain = i.chain;
      opens = i.opens;
      known = i.known;
      sound = All-append (IsCycle g) w.cycles (path ∷ []) i.sound (c, tt);
      sized = i.sized;
      room = i.room;
    },
    le,
  )

  -- The parent of a white node may be written: it is not on the stack.
  parent-Inv :
      (v : String) (w : Search)
      → is_grey (lookup v w.colour) ≡ false
      → Inv g (u ∷ s) w
      → Inv g (u ∷ s) (record w { parent = insert v (some u) w.parent })
  parent-Inv v w white i = record {
    chain = Chain-insert g w.parent v (some u) u s (ground (arith, i.opens v, white)) i.chain;
    opens = i.opens;
    known = i.known;
    sound = i.sound;
    sized = omega (arith, i.sized, length-insert v (some u) w.parent);
    room = i.room;
  }

  edge-Walking :
      (v : String) (w : Search)
      → contains v (deps g u) ≡ true
      → Walking g (u ∷ s) n w
      → Returns (Walking g (u ∷ s) n) (edge dfs u v w)
  edge-Walking v w m (i, le) = go (or_unvisited (lookup v w.colour)) refl
    where
      grey_of :
          (c : Colour)
          → or_unvisited (lookup v w.colour) ≡ c
          → is_grey (lookup v w.colour) ≡ is_grey (some c)
      grey_of c e = ground arith

      go :
          (c : Colour)
          → or_unvisited (lookup v w.colour) ≡ c
          → Returns (Walking g (u ∷ s) n) (edge dfs u v w)
      go done e = rw (e, edge) (i, le)
      go visiting e =
          rw (e, edge)
            (Outcome-bind (λ _. ⊥) (IsCycle g) (Walking g (u ∷ s) n) _
              (λ path. ok (record w { cycles = w.cycles ++ path ∷ [] }))
              (backtrack_finds v w m (grey_of visiting e) i) (λ path. cycle-Walking w path (i, le)))
      go unvisited e =
          let w' = record w { parent = insert v (some u) w.parent } in
          let i' = parent-Inv v w (grey_of unvisited e) i in
          rw (e, edge)
            (enters v (u ∷ s) w' e (lookup-insert_self v (some u) w.parent, m, i'.chain) (i', le))

  detect_inner :
      (w : Search)
      → Walking g (u ∷ s) n w
      → Returns (Walking g (u ∷ s) n) (each (edge dfs u) (deps g u) w)
  detect_inner w i =
      each-Outcome (λ _. ⊥) (Walking g (u ∷ s) n) (edge dfs u) (deps g u) edge-Walking w i

-- A node that is no key of the graph has no edges.
deps-absent :
    (g : DepGraph) (s : List String) (u : String) (w : Search)
    → Inv g s w
    → lookup u w.colour ≡ none
    → deps g u ≡ []
unfolding deps
deps-absent g s u w i e = ap or_nil (lookup-eq-none u g (ground (arith, i.known u)))

-- Such a node is painted and left at once.
absent-Inv :
    (g : DepGraph) (s : List String) (u : String) (w : Search)
    → Inv g s w
    → lookup u w.colour ≡ none
    → Inv g s (record w { colour = insert u done (insert u visiting w.colour) })
absent-Inv g s u w i e = record {
  chain = i.chain;
  opens = λ k. ground (
    arith,
    lookup-insert u k done (insert u visiting w.colour),
    lookup-insert u k visiting w.colour,
    i.opens k,
    i.opens u,
    eq_iff u k,
  );
  known = λ k m. ground (
    arith,
    lookup-insert u k done (insert u visiting w.colour),
    lookup-insert u k visiting w.colour,
    i.known k,
  );
  sound = i.sound;
  sized = i.sized;
  room = omega (
    arith,
    i.room,
    whites-insert-le u done (insert u visiting w.colour) refl,
    whites-insert-le u visiting w.colour refl,
  );
}

enter_absent :
    (g : DepGraph) (n : ℕ) (dfs : String → Search → Result GraphError Search) (s : List String)
    (u : String) (w : Search)
    → lookup u w.colour ≡ none
    → Walking g s n w
    → Returns (Walking g s n) (detect_enter dfs g u w)
unfolding each
enter_absent g n dfs s u w e (i, le) =
    rw (deps-absent g s u w i e, each)
      (
        absent-Inv g s u w i e,
        omega (
          arith,
          whites-insert-le u done (insert u visiting w.colour) refl,
          whites-insert-le u visiting w.colour refl,
        ),
      )

enter_fresh :
    (g : DepGraph) (m : ℕ) (dfs : String → Search → Result GraphError Search)
    → Enters g m dfs
    → (s : List String) (u : String) (w : Search) → lookup u w.colour ≡ some unvisited
    → Chain g w.parent u s
    → Walking g s (suc m) w
    → Returns (Walking g s (suc m)) (detect_enter dfs g u w)
enter_fresh g m dfs enters s u w e ch (i, le) =
    Outcome-bind (λ _. ⊥) (Walking g (u ∷ s) m) (Walking g s (suc m)) _ (λ w'. ok (closed g u s w'))
      (detect_inner g m dfs enters u s (opened g u s w)
        (opened-Inv g u s w i e ch, omega (arith, whites-insert_fresh u visiting w.colour e refl)))
      λ w' (i', le'). (
        closed-Inv g u s w' (ground (arith, i.opens u, e)) i',
        omega (arith, whites-insert-le u done w'.colour refl),
      )

detect_dfs-Walking : (g : DepGraph) (f n : ℕ) → n < f → Enters g n (detect_dfs g f)
unfolding detect_dfs
detect_dfs-Walking g zero n lt u s w white ch i = elim lt [ ]
detect_dfs-Walking g (suc f) zero lt u s w white ch (i, le) =
    enter_absent g zero (detect_dfs g f) s u w none_left (i, le)
  where
    none_left : lookup u w.colour ≡ none
    none_left = elim (Option-cases (lookup u w.colour)) [
      | inl e ↦ e
      | inr (c, e) ↦
          absurd (omega (arith, whites-insert_fresh u visiting w.colour (ground (arith, e)) refl))
    ]
detect_dfs-Walking g (suc f) (suc m) lt u s w white ch i = elim (Option-cases (lookup u w.colour)) [
  | inl e ↦ enter_absent g (suc m) (detect_dfs g f) s u w e i
  | inr (c, e) ↦
      enter_fresh g m (detect_dfs g f) (detect_dfs-Walking g f m (omega arith)) s u w
        (ground (arith, e)) ch i
]

start-Walking : (g : DepGraph) → Walking g [] (length g) (search_start g)
start-Walking g = (
  record {
    chain = tt;
    opens = λ k. ground (arith, lookup-from_keys unvisited k g);
    known = λ k m. ground (arith, lookup-from_keys unvisited k g);
    sound = tt;
    sized = omega (arith, length-from_keys {V = Option String} none g);
    room = omega (arith, whites-from_keys g);
  },
  omega (arith, whites-from_keys g),
)

detect_root-Walking :
    (g : DepGraph) (u : String) (w : Search)
    → contains u (keys g) ≡ true
    → Walking g [] (length g) w
    → Returns (Walking g [] (length g)) (detect_root g (suc (length g)) u w)
detect_root-Walking g u w m (i, le) = go (lookup u w.colour) refl
  where
    go :
        (c : Option Colour)
        → lookup u w.colour ≡ c
        → Returns (Walking g [] (length g)) (detect_root g (suc (length g)) u w)
    go none e = absurd (ground (arith, i.known u))
    go (some done) e = rw (e, detect_root) (i, le)
    go (some visiting) e = rw (e, detect_root) (i, le)
    go (some unvisited) e =
        rw (e, detect_root)
          (detect_dfs-Walking g (suc (length g)) (length g) (omega arith) u [] w (rw e refl) tt
            (i, le))

-- `detect_cycles` returns on every graph, apart from Python's bound on nested calls: it raises nothing,
-- the recursion and the climbs along the parents end by themselves, and each list that it reports is a
-- cycle of the graph, whose nodes stand against the direction of the dependencies.
pub detect_cycles_returns :
    (g : DepGraph)
    → (cycles : List (List String)) × (detect_cycles g ≡ ok cycles) × All (IsCycle g) cycles
unfolding detect_cycles
detect_cycles_returns g = go _ (
    each-Outcome (λ _. ⊥) (Walking g [] (length g)) (detect_root g (suc (length g))) (keys g)
      (detect_root-Walking g) (search_start g) (start-Walking g))
  where
    go :
        (r : Result GraphError Search)
        → Returns (Walking g [] (length g)) r
        → (cycles : List (List String)) × ((r >>= λ w. ok w.cycles) ≡ ok cycles)
          × All (IsCycle g) cycles
    go (ok w) (i, le) = (w.cycles, refl, i.sound)
    go (err e) p = absurd p
