-- ===== src/Catalog/Outcome.antt =====
-- Postconditions of code that may raise, and the rules for `>>=` and for a loop.
use data_quality_toolkit.Prelude.{
  String, ◌≡◌, true, List, [], ◌∷◌, contains, Result, ok, err, ◌>>=◌, arith, eq_iff,
}
use data_quality_toolkit.Catalog.Graph.{GraphError, out_of_fuel}
use data_quality_toolkit.Catalog.Walks.{each}

-- `P` of the state that is returned, or `E` of the exception.
abbrev pub Outcome :
    {S : Type 0} → (GraphError → Type 0) → (S → Type 0) → Result GraphError S → Type 0
Outcome E P (ok w) = P w
Outcome E P (err e) = E e

abbrev pub InFuel : GraphError → Type 0
InFuel out_of_fuel = ⊥
InFuel _ = Unit

-- Any exception, and none.
abbrev pub OnOk : {S : Type 0} → (S → Type 0) → Result GraphError S → Type 0
OnOk = Outcome (λ _. Unit)

abbrev pub Returns : {S : Type 0} → (S → Type 0) → Result GraphError S → Type 0
Returns = Outcome (λ _. ⊥)

module _ (E : GraphError → Type 0) {S : Type 0} where
  pub Outcome-bind :
      {T : Type 0} (P : S → Type 0) (Q : T → Type 0) (r : Result GraphError S)
      (f : S → Result GraphError T)
      → Outcome E P r
      → ((w : S) → P w → Outcome E Q (f w))
      → Outcome E Q (r >>= f)
  Outcome-bind P Q (ok w) f p h = h w p
  Outcome-bind P Q (err e) f p h = p

  pub Outcome-map :
      {P Q : S → Type 0} (r : Result GraphError S)
      → Outcome E P r
      → ((w : S) → P w → Q w)
      → Outcome E Q r
  Outcome-map (ok w) p h = h w p
  Outcome-map (err e) p h = p

  -- Every round keeps `P`.
  pub each-Outcome :
      (P : S → Type 0) (step : String → S → Result GraphError S) (vs : List String)
      → ((v : String) (w : S) → contains v vs ≡ true → P w → Outcome E P (step v w))
      → (w : S) → P w
      → Outcome E P (each step vs w)
  unfolding each
  each-Outcome P step [] h w p = p
  each-Outcome P step (v ∷ vs) h w p =
      Outcome-bind P P (step v w) (each step vs) (h v w (ground (arith, eq_iff v v)) p)
        (each-Outcome P step vs (λ v' w' m. h v' w' (ground arith)))
