-- ===== src/Catalog/Cycles.antt =====
-- What `detect_cycles` keeps while it walks. The proof follows the open nodes as a list, the stack,
-- with the innermost first; Catalog/Detect.antt has the walk itself.
use data_quality_toolkit.Prelude.{
  ℕ, zero, suc, ◌+◌, ◌≤◌, ◌<◌, String, ◌≡◌, refl, subst, Bool, Bool-cases, inl, inr, true, false,
  Option, none, some, List, [], ◌∷◌, ◌++◌, lookup, insert, lookup-insert, keys, Dict, contains, All,
  length, arith, eq_iff, ◌==◌,
}
use data_quality_toolkit.Catalog.Graph.{DepGraph, deps}
use data_quality_toolkit.Catalog.Walks.{Colour, unvisited, visiting, done, Search, climb}
use data_quality_toolkit.Catalog.Colours.{whites, whites-insert_fresh, whites-insert-le}
use data_quality_toolkit.Catalog.Outcome.{Returns}

-- Each text is a dependency of the one after it, up to and with `last`.
abbrev pub Backward : DepGraph → String → List String → String → Type 0
Backward g a [] last = contains a (deps g last) ≡ true
Backward g a (b ∷ bs) last = (contains a (deps g b) ≡ true) × Backward g b bs last

-- A closed chain: the nodes stand against the direction of `depends_on`.
abbrev pub IsCycle : DepGraph → List String → Type 0
IsCycle g [] = ⊥
IsCycle g (v ∷ vs) = Backward g v vs v

-- The stack: each node was entered from the next one, which depends on it.
abbrev pub Chain : DepGraph → Dict (Option String) → String → List String → Type 0
Chain g parent u [] = Unit
Chain g parent u (p ∷ s) =
    (lookup u parent ≡ some (some p)) × (contains u (deps g p) ≡ true) × Chain g parent p s

Backward-append :
    (g : DepGraph) (a : String) (xs : List String) (b c : String)
    → Backward g a xs b
    → contains b (deps g c) ≡ true
    → Backward g a (xs ++ b ∷ []) c
Backward-append g a [] b c h k = (h, k)
Backward-append g a (x ∷ xs) b c h k = (h.0, Backward-append g x xs b c h.1 k)

-- From a node of the stack the loop climbs to `end`, if that is on the stack.
pub climb_finds :
    (g : DepGraph) (parent : Dict (Option String)) (end : String) (f : ℕ) (u : String)
    (s xs : List String)
    → length s < f
    → contains end (u ∷ s) ≡ true
    → Chain g parent u s
    → Backward g end xs u
    → Returns (IsCycle g) (climb f parent end (some u) (end ∷ xs))
unfolding climb
climb_finds g parent end zero u s xs lt m ch b = elim lt [ ]
climb_finds g parent end (suc f) u [] xs lt m ch b =
    let hit : (u == end) ≡ true = ground (arith, eq_iff end u, eq_iff u end) in
    rw hit (subst (Backward g end xs) ((eq_iff u end).0 hit) b)
climb_finds g parent end (suc f) u (p ∷ s) xs lt m ch b = elim (Bool-cases (u == end)) [
  | inl hit ↦ rw hit (subst (Backward g end xs) ((eq_iff u end).0 hit) b)
  | inr miss ↦
      rw (miss, ch.0)
        (climb_finds g parent end f p s (xs ++ u ∷ []) (omega arith)
          (ground (arith, eq_iff end u, eq_iff u end)) ch.2 (Backward-append g end xs u p b ch.1))
]

pub Chain-insert :
    (g : DepGraph) (parent : Dict (Option String)) (v : String) (o : Option String) (u : String)
    (s : List String)
    → contains v (u ∷ s) ≡ false
    → Chain g parent u s
    → Chain g (insert v o parent) u s
Chain-insert g parent v o u [] m ch = tt
Chain-insert g parent v o u (p ∷ s) m ch = (
  ground (arith, ch.0, lookup-insert v u o parent),
  ch.1,
  Chain-insert g parent v o p s (ground arith) ch.2,
)

abbrev pub Stacked : DepGraph → Dict (Option String) → List String → Type 0
Stacked g parent [] = Unit
Stacked g parent (u ∷ s) = Chain g parent u s

Chain-Stacked :
    (g : DepGraph) (parent : Dict (Option String)) (u : String) (s : List String)
    → Chain g parent u s
    → Stacked g parent s
Chain-Stacked g parent u [] ch = tt
Chain-Stacked g parent u (p ∷ s) ch = ch.2

abbrev pub is_grey : Option Colour → Bool
is_grey (some visiting) = true
is_grey _ = false

abbrev pub is_known : Option Colour → Bool
is_known none = false
is_known (some c) = true

-- `s` is the stack of open nodes.
pub record Inv (g : DepGraph) (s : List String) (w : Search) : Type 0 where
  pub chain : Stacked g w.parent s
  pub opens : (k : String) → is_grey (lookup k w.colour) ≡ contains k s
  pub known : (k : String) → contains k (keys g) ≡ true → is_known (lookup k w.colour) ≡ true
  pub sound : All (IsCycle g) w.cycles
  pub sized : length g ≤ length w.parent
  pub room : length s + whites w.colour ≤ length g

module _ (g : DepGraph) (u : String) (s : List String) where
  abbrev pub opened : Search → Search
  opened w = record w { colour = insert u visiting w.colour }

  abbrev pub closed : Search → Search
  closed w = record w { colour = insert u done w.colour }

  pub opened-Inv :
      (w : Search)
      → Inv g s w
      → lookup u w.colour ≡ some unvisited
      → Chain g w.parent u s
      → Inv g (u ∷ s) (opened w)
  opened-Inv w i e ch = record {
    chain = ch;
    opens = λ k.
        ground (
          arith,
          lookup-insert u k visiting w.colour,
          i.opens k,
          i.opens u,
          eq_iff u k,
          eq_iff k u,
        );
    known = λ k m. ground (arith, lookup-insert u k visiting w.colour, i.known k);
    sound = i.sound;
    sized = i.sized;
    room = omega (arith, i.room, whites-insert_fresh u visiting w.colour e refl);
  }

  pub closed-Inv : (w : Search) → contains u s ≡ false → Inv g (u ∷ s) w → Inv g s (closed w)
  closed-Inv w new i = record {
    chain = Chain-Stacked g w.parent u s i.chain;
    opens = λ k.
        ground (arith, lookup-insert u k done w.colour, i.opens k, new, eq_iff u k, eq_iff k u);
    known = λ k m. ground (arith, lookup-insert u k done w.colour, i.known k);
    sound = i.sound;
    sized = i.sized;
    room = omega (arith, i.room, whites-insert-le u done w.colour refl);
  }
