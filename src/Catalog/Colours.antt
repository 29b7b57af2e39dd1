-- ===== src/Catalog/Colours.antt =====
-- The colour table of the walks.
use data_quality_toolkit.Prelude.{
  ℕ, ◌+◌, ◌≤◌, String, ◌≡◌, refl, false, none, some, [], ◌∷◌, Dict, lookup, insert, keys, contains,
  length, arith, eq_iff, if◌then◌else◌,
}
use data_quality_toolkit.Catalog.Walks.{Colour, unvisited, from_keys}

abbrev pub white : Colour → ℕ
white unvisited = 1
white _ = 0

-- How many nodes are still white.
pub whites : Dict Colour → ℕ
whites [] = 0
whites ((k, c) ∷ m) = white c + whites m

-- A visit repaints a white node; no other write makes one white.
pub whites-insert_fresh :
    (u : String) (c : Colour) (m : Dict Colour)
    → lookup u m ≡ some unvisited
    → white c ≡ 0
    → whites (insert u c m) + 1 ≡ whites m
unfolding whites lookup insert
whites-insert_fresh u c [] h z = absurd (ground arith)
whites-insert_fresh u c ((k, d) ∷ m) h z = ground (arith, whites-insert_fresh u c m)

pub whites-insert-le :
    (u : String) (c : Colour) (m : Dict Colour) → white c ≡ 0 → whites (insert u c m) ≤ whites m
unfolding whites insert
whites-insert-le u c [] z = ground arith
whites-insert-le u c ((k, d) ∷ m) z = ground (arith, whites-insert-le u c m)

pub whites-from_keys : {A : Type 0} (g : Dict A) → whites (from_keys unvisited g) ≡ length g
unfolding whites from_keys
whites-from_keys [] = refl
whites-from_keys ((k, a) ∷ g) = ground (arith, whites-from_keys g)

pub length-insert :
    {V : Type 0} (k : String) (v : V) (m : Dict V) → length m ≤ length (insert k v m)
unfolding insert
length-insert k v [] = omega arith
length-insert k v ((j, w) ∷ m) = ground (arith, length-insert k v m)

pub length-from_keys : {A V : Type 0} (v : V) (g : Dict A) → length (from_keys v g) ≡ length g
unfolding from_keys
length-from_keys v [] = refl
length-from_keys v ((k, a) ∷ g) = ground (arith, length-from_keys v g)

pub lookup-from_keys :
    {A V : Type 0} (v : V) (u : String) (g : Dict A)
    → lookup u (from_keys v g) ≡ (if contains u (keys g) then some v else none)
unfolding lookup from_keys
lookup-from_keys v u [] = refl
lookup-from_keys v u ((k, a) ∷ g) = ground (arith, eq_iff u k, eq_iff k u, lookup-from_keys v u g)

pub lookup-eq-none :
    {V : Type 0} (u : String) (g : Dict V) → contains u (keys g) ≡ false → lookup u g ≡ none
unfolding lookup
lookup-eq-none u [] h = refl
lookup-eq-none u ((k, a) ∷ g) h = ground (arith, eq_iff u k, eq_iff k u, lookup-eq-none u g)
