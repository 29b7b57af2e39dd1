-- ===== src/Catalog/Validate.antt =====
-- domain/semantics/validators.py: the checks of a catalogue before it is used, and the balance test
-- of a DAX expression. Messages are left out; an exception carries the values that it names.
use data_quality_toolkit.Prelude.{
  ℕ, ◌+◌, ◌%◌, String, Bool, false, true, not, ◌&&◌, ◌||◌, Option, none, some, List, [], ◌∷◌, map,
  lookup, insert, Dict, contains, select, any, length, codes, eqb, ltb, Result, ok, err, ◌>>=◌,
  ◌>>◌, ◌==◌, if◌then◌else◌,
}
use data_quality_toolkit.Catalog.{
  Grain, global, dataset, table, column, time, MeasureUnit, count, percent, ratio, currency, score,
  days, hours, Kpi, Catalogue, kpi_ids,
}
use data_quality_toolkit.Catalog.Graph.{GraphError, build_graph}
use data_quality_toolkit.Catalog.Walks.{detect_cycles}

pub data ValidationError : Type 0 where
  duplicate_ids : List String → ValidationError
  unknown_reference : (kpi dep : String) → ValidationError
  grain_mismatch : String → List Grain → ValidationError
  unit_mismatch : String → List MeasureUnit → ValidationError
  missing_key : String → ValidationError
  graph_error : GraphError → ValidationError
  cycles_found : List (List String) → ValidationError

abbrev pub grain_code : Grain → ℕ
grain_code global = 0
grain_code dataset = 1
grain_code table = 2
grain_code column = 3
grain_code time = 4

abbrev pub same_grain : Grain → Grain → Bool
same_grain a b = eqb (grain_code a) (grain_code b)

abbrev pub unit_code : MeasureUnit → ℕ
unit_code count = 0
unit_code percent = 1
unit_code ratio = 2
unit_code currency = 3
unit_code score = 4
unit_code days = 5
unit_code hours = 6

abbrev pub same_unit : MeasureUnit → MeasureUnit → Bool
same_unit a b = eqb (unit_code a) (unit_code b)

-- `set(xs)`, of which only the size and the members matter.
unfoldable pub distinct : List String → List String
distinct [] = []
distinct (x ∷ xs) = let rest = distinct xs in if contains x xs then rest else x ∷ rest

-- `xs.count(x)`
unfoldable pub occurrences : String → List String → ℕ
occurrences x [] = 0
occurrences x (y ∷ ys) = (if x == y then 1 else 0) + occurrences x ys

unfoldable pub check_duplicates : Catalogue → Result ValidationError (Unit {0})
unfolding distinct occurrences
check_duplicates cat =
    let ids = kpi_ids cat in
    if eqb (length (distinct ids)) (length ids)
    then ok tt
    else err (duplicate_ids (select (λ x. ltb 1 (occurrences x ids)) (distinct ids)))

-- `{k.id: k for k in cat.kpis}`: of two KPIs with one id the last stays.
unfoldable pub index_from : Dict Kpi → List Kpi → Dict Kpi
unfolding insert
index_from idx [] = idx
index_from idx (k ∷ ks) = index_from (insert k.id k idx) ks

-- The first dependency that the index does not have.
unfoldable pub first_missing : Dict Kpi → List String → Option String
unfolding lookup
first_missing idx [] = none
first_missing idx (d ∷ ds) = elim (lookup d idx) [ none ↦ some d | some k ↦ first_missing idx ds ]

-- `[idx[d] for d in ds]`
unfoldable pub look_up_all : Dict Kpi → List String → Result ValidationError (List Kpi)
unfolding lookup
look_up_all idx [] = ok []
look_up_all idx (d ∷ ds) = elim (lookup d idx) [
  | none ↦ err (missing_key d)
  | some k ↦ do ks ← look_up_all idx ds; ok (k ∷ ks)
]

abbrev pub is_nil : {A : Type 0} → List A → Bool
is_nil [] = true
is_nil (x ∷ xs) = false

-- Dependencies have the grain of the KPI, or `global`.
abbrev pub grain_rule : Kpi → List Kpi → Result ValidationError (Unit {0})
grain_rule k ds =
    let dep_grains = map (λ d. d.grain) ds in
    let invalid = select (λ g. not (same_grain g global || same_grain g k.grain)) dep_grains in
    if is_nil invalid then ok tt else err (grain_mismatch k.id dep_grains)

-- Units mix with `score`, and are those of the KPI otherwise.
abbrev pub unit_rule : Kpi → List Kpi → Result ValidationError (Unit {0})
unit_rule k ds =
    let dep_units = map (λ d. d.unit) ds in
    let non_score = select (λ u. not (same_unit u score)) dep_units in
    if not (is_nil non_score)
      && not (same_unit k.unit score)
      && any (λ u. not (same_unit u k.unit)) non_score
    then err (unit_mismatch k.id dep_units)
    else ok tt

unfoldable pub check_kpi : Dict Kpi → Kpi → Result ValidationError (Unit {0})
unfolding first_missing look_up_all
check_kpi idx k = elim (first_missing idx k.depends_on) [
  | some d ↦ err (unknown_reference k.id d)
  | none ↦ do ds ← look_up_all idx k.depends_on; grain_rule k ds; unit_rule k ds
]

unfoldable pub check_kpis : Dict Kpi → List Kpi → Result ValidationError (Unit {0})
unfolding check_kpi
check_kpis idx [] = ok tt
check_kpis idx (k ∷ ks) = check_kpi idx k >> check_kpis idx ks

unfoldable pub check_kpi_semantics : Catalogue → Result ValidationError (Unit {0})
unfolding index_from check_kpis
check_kpi_semantics cat = check_kpis (index_from [] cat.kpis) cat.kpis

abbrev pub as_validation : {A : Type 0} → Result GraphError A → Result ValidationError A
as_validation (ok a) = ok a
as_validation (err e) = err (graph_error e)

-- The graph checks at the end of `validate_semantics`.
abbrev pub check_graph : Catalogue → Result ValidationError (Unit {0})
check_graph catalog = do
  graph ← as_validation (build_graph catalog)
  cycles ← as_validation (detect_cycles graph)
  if is_nil cycles then ok tt else err (cycles_found cycles)

unfoldable pub validate_semantics : Catalogue → Result ValidationError (Unit {0})
unfolding check_duplicates check_kpi_semantics build_graph detect_cycles
validate_semantics catalog = do
  check_duplicates catalog
  check_kpi_semantics catalog
  check_graph catalog

-- `expression.count(c)` of one character
unfoldable pub count_code : ℕ → List ℕ → ℕ
count_code c [] = 0
count_code c (x ∷ xs) = (if eqb x c then 1 else 0) + count_code c xs

-- As many opening as closing parentheses and brackets, and an even number of quotes.
unfoldable pub validate_dax_syntax : String → Bool
unfolding count_code
validate_dax_syntax expression =
    let cs = codes expression in
    if not (eqb (count_code b'(' cs) (count_code b')' cs))
    then false
    else if not (eqb (count_code b'[' cs) (count_code b']' cs))
    then false
    else if not (eqb (count_code 0x27 cs % 2) 0)
    then false
    else true
