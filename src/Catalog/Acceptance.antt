-- ===== src/Catalog/Acceptance.antt =====
-- Which catalogues `validate_semantics` accepts.
use data_quality_toolkit.Prelude.{
  String, ◌≡◌, ◌↔◌, inl, inr, refl, Option-cases, none, some, List, [], ◌∷◌, lookup, Dict, All,
  Result, ok, err, ◌>>◌, >>=-eq-ok, subst,
}
use data_quality_toolkit.Catalog.{Kpi, Catalogue, kpi_ids}
use data_quality_toolkit.Catalog.Graph.{GraphError, DepGraph, build_graph}
use data_quality_toolkit.Catalog.Walks.{detect_cycles, get_execution_order}
use data_quality_toolkit.Catalog.Detect.{detect_cycles_returns}
use data_quality_toolkit.Catalog.Agreement.{topo_sort_succeeds}
use data_quality_toolkit.Catalog.Execution.{build_graph-IsClosed}
use data_quality_toolkit.Catalog.Validate.{
  ValidationError, check_duplicates, index_from, first_missing, look_up_all, grain_rule, unit_rule,
  check_kpi, check_kpis, check_kpi_semantics, check_graph, validate_semantics,
}
use data_quality_toolkit.Catalog.Rules.{
  IsDistinct, GrainAgrees, UnitAgrees, check_duplicates_iff, grain_rule_iff, unit_rule_iff,
}

-- A reference of `k` is a KPI of the index, and agrees with `k` in grain and unit.
abbrev pub Fits : Dict Kpi → Kpi → String → Type 0
Fits idx k r = (d : Kpi) × (lookup r idx ≡ some d) × GrainAgrees k d × UnitAgrees k d

abbrev Resolves : Dict Kpi → List String → List Kpi → Type 0
Resolves idx [] [] = Unit
Resolves idx (r ∷ rs) (d ∷ ds) = (lookup r idx ≡ some d) × Resolves idx rs ds
Resolves idx _ _ = ⊥

-- The references that resolve are looked up without a `KeyError`.
resolve :
    (idx : Dict Kpi) (rs : List String)
    → first_missing idx rs ≡ none
    → (ds : List Kpi) × (look_up_all idx rs ≡ ok ds) × Resolves idx rs ds
unfolding first_missing look_up_all
resolve idx [] h = ([], refl, tt)
resolve idx (r ∷ rs) h = elim (Option-cases (lookup r idx)) [
  | inl e ↦ cc (rw (e, first_missing) at h)
  | inr (d, e) ↦
      let (ds, found, rest) = resolve idx rs (rw (e, first_missing) at h) in
      (d ∷ ds, rw (e, look_up_all, found), (e, rest))
]

module _ (idx : Dict Kpi) (k : Kpi) where
  Fits-of_rules :
      (rs : List String) (ds : List Kpi)
      → Resolves idx rs ds
      → All (GrainAgrees k) ds
      → All (UnitAgrees k) ds
      → All (Fits idx k) rs
  Fits-of_rules [] [] r g u = tt
  Fits-of_rules (r ∷ rs) [] h g u = elim h [ ]
  Fits-of_rules [] (d ∷ ds) h g u = elim h [ ]
  Fits-of_rules (r ∷ rs) (d ∷ ds) h g u = ((d, h.0, g.0, u.0), Fits-of_rules rs ds h.1 g.1 u.1)

  rules_of_Fits :
      (rs : List String) (ds : List Kpi)
      → Resolves idx rs ds
      → All (Fits idx k) rs
      → All (GrainAgrees k) ds × All (UnitAgrees k) ds
  rules_of_Fits [] [] r h = (tt, tt)
  rules_of_Fits (r ∷ rs) [] h f = elim h [ ]
  rules_of_Fits [] (d ∷ ds) h f = elim h [ ]
  rules_of_Fits (r ∷ rs) (d ∷ ds) h f =
      let rest = rules_of_Fits rs ds h.1 f.1 in
      let (d', found, g, u) = f.0 in
      let same : d' ≡ d = some_inj (cc (found, h.0)) in
      ((subst (GrainAgrees k) same g, rest.0), (subst (UnitAgrees k) same u, rest.1))
    where
      some_inj : {a b : Kpi} → some a ≡ some b → a ≡ b
      some_inj p = cc

  none_missing : (rs : List String) → All (Fits idx k) rs → first_missing idx rs ≡ none
  unfolding first_missing
  none_missing [] h = refl
  none_missing (r ∷ rs) h = rw (h.0.1, first_missing, none_missing rs h.1)

  -- The checks of one KPI pass exactly if each of its references fits.
  check_kpi_iff : (check_kpi idx k ≡ ok tt) ↔ All (Fits idx k) k.depends_on
  unfolding check_kpi
  check_kpi_iff = (accepted, accepts)
    where
      rs : List String
      rs = k.depends_on

      rules_iff :
          (ds : List Kpi)
          → ((grain_rule k ds >> unit_rule k ds) ≡ ok tt)
            ↔ (All (GrainAgrees k) ds × All (UnitAgrees k) ds)
      rules_iff ds = (
        λ h.
            let (a, g, u) = >>=-eq-ok (grain_rule k ds) (λ _. unit_rule k ds) h in
            ((grain_rule_iff k ds).0 g, (unit_rule_iff k ds).0 u),
        λ h. simp ((grain_rule_iff k ds).1 h.0, (unit_rule_iff k ds).1 h.1),
      )

      accepted : check_kpi idx k ≡ ok tt → All (Fits idx k) rs
      accepted h = elim (Option-cases (first_missing idx rs)) [
        | inl e ↦
            let (ds, found, r) = resolve idx rs e in
            let ok_rules = (rules_iff ds).0 (rw (e, check_kpi, found) at h) in
            Fits-of_rules rs ds r ok_rules.0 ok_rules.1
        | inr (d, e) ↦ cc (rw (e, check_kpi) at h)
      ]

      accepts : All (Fits idx k) rs → check_kpi idx k ≡ ok tt
      accepts h =
          let e = none_missing rs h in
          let (ds, found, r) = resolve idx rs e in
          rw (e, check_kpi, found) ((rules_iff ds).1 (rules_of_Fits rs ds r h))

check_kpis_iff :
    (idx : Dict Kpi) (ks : List Kpi)
    → (check_kpis idx ks ≡ ok tt) ↔ All (λ k. All (Fits idx k) k.depends_on) ks
unfolding check_kpis
check_kpis_iff idx [] = (λ _. tt, λ _. refl)
check_kpis_iff idx (k ∷ ks) = (
  λ h.
      let (a, one, rest) = >>=-eq-ok (check_kpi idx k) (λ _. check_kpis idx ks) h in
      ((check_kpi_iff idx k).0 one, (check_kpis_iff idx ks).0 rest),
  λ h. simp ((check_kpi_iff idx k).1 h.0, (check_kpis_iff idx ks).1 h.1),
)

-- What the last two steps ask for: the graph is built and has no cycle.
abbrev Acyclic : Catalogue → Type 0
Acyclic c = (g : DepGraph) × (build_graph c ≡ ok g) × (detect_cycles g ≡ ok [])

Acyclic-iff : (c : Catalogue) → Acyclic c ↔ ((o : List String) × (get_execution_order c ≡ ok o))
unfolding get_execution_order
Acyclic-iff c = (forth, back)
  where
    forth : Acyclic c → (o : List String) × (get_execution_order c ≡ ok o)
    forth (g, built, no_cycle) =
        let (o, sorted) = topo_sort_succeeds g (build_graph-IsClosed c g built).0 no_cycle in
        (o, simp (built, no_cycle, sorted))

    on_cycles :
        (g : DepGraph) (cycles : List (List String)) (o : List String)
        → build_graph c ≡ ok g
        → detect_cycles g ≡ ok cycles
        → get_execution_order c ≡ ok o
        → Acyclic c
    on_cycles g [] o built found h = (g, built, found)
    on_cycles g (x ∷ xs) o built found h = cc (simp (built, found) at h)

    on_graph :
        (r : Result GraphError DepGraph) (o : List String)
        → build_graph c ≡ r
        → get_execution_order c ≡ ok o
        → Acyclic c
    on_graph (err e) o built h = cc (simp built at h)
    on_graph (ok g) o built h =
        let (cycles, found, _) = detect_cycles_returns g in on_cycles g cycles o built found h

    back : ((o : List String) × (get_execution_order c ≡ ok o)) → Acyclic c
    back (o, h) = on_graph (build_graph c) o refl h

check_graph-Acyclic : (c : Catalogue) → check_graph c ≡ ok tt → Acyclic c
check_graph-Acyclic c = on_graph (build_graph c) refl
  where
    on_cycles :
        (g : DepGraph) (cycles : List (List String))
        → build_graph c ≡ ok g
        → detect_cycles g ≡ ok cycles
        → check_graph c ≡ ok tt
        → Acyclic c
    on_cycles g [] built found h = (g, built, found)
    on_cycles g (x ∷ xs) built found h = cc (simp (built, found) at h)

    on_graph :
        (r : Result GraphError DepGraph) → build_graph c ≡ r → check_graph c ≡ ok tt → Acyclic c
    on_graph (err e) built h = cc (simp built at h)
    on_graph (ok g) built h =
        let (cycles, found, _) = detect_cycles_returns g in on_cycles g cycles built found h

-- Where each reference of each KPI is a KPI of the catalogue (the last of its id) that agrees in
-- grain and unit.
abbrev pub AllFit : Catalogue → Type 0
AllFit c = All (λ k. All (Fits (index_from [] c.kpis) k) k.depends_on) c.kpis

-- `validate_semantics` accepts exactly the catalogues with distinct ids, references that are KPIs
-- and agree in grain and unit, and an execution order.
pub validate_semantics_iff :
    (c : Catalogue)
    → (validate_semantics c ≡ ok tt) ↔ (
        IsDistinct (kpi_ids c)
        × AllFit c
        × ((order : List String) × (get_execution_order c ≡ ok order)))
unfolding validate_semantics
validate_semantics_iff c = (accepted, accepts)
  where
    rest : Result ValidationError (Unit {0})
    rest = do check_kpi_semantics c; check_graph c

    accepted :
        validate_semantics c ≡ ok tt
        → IsDistinct (kpi_ids c)
          × AllFit c
          × ((order : List String) × (get_execution_order c ≡ ok order))
    accepted h =
        let (_, unique, h') = >>=-eq-ok (check_duplicates c) (λ _. rest) h in
        let (_, fits, h'') = >>=-eq-ok (check_kpi_semantics c) (λ _. check_graph c) h' in
        (
          (check_duplicates_iff c).0 unique,
          (check_kpis_iff _ c.kpis).0 fits,
          (Acyclic-iff c).0 (check_graph-Acyclic c h''),
        )

    accepts :
        (IsDistinct (kpi_ids c)
          × AllFit c
          × ((order : List String) × (get_execution_order c ≡ ok order)))
        → validate_semantics c ≡ ok tt
    accepts (unique, fits, ordered) =
        let (g, built, no_cycle) = (Acyclic-iff c).1 ordered in
        simp (
          (check_duplicates_iff c).1 unique,
          (check_kpis_iff (index_from [] c.kpis) c.kpis).1 fits,
          built,
          no_cycle,
        )
