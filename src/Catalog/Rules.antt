-- ===== src/Catalog/Rules.antt =====
-- The rules that the validators enforce, stated without the code.
use data_quality_toolkit.Prelude.{
  ◌≤◌, String, ◌≡◌, ◌↔◌, ◌⊎◌, inl, inr, refl, Bool, Bool-cases, false, true, not, ◌&&◌, ◌||◌, List,
  [], ◌∷◌, map, contains, select, any, All, length, ok, arith,
}
use data_quality_toolkit.Catalog.{Grain, global, MeasureUnit, score, Kpi, Catalogue, kpi_ids}
use data_quality_toolkit.Catalog.Validate.{
  same_grain, same_unit, distinct, check_duplicates, is_nil, grain_rule, unit_rule,
}

abbrev pub IsDistinct : List String → Type 0
IsDistinct [] = Unit
IsDistinct (x ∷ xs) = (contains x xs ≡ false) × IsDistinct xs

length-distinct-le : (xs : List String) → length (distinct xs) ≤ length xs
unfolding distinct
length-distinct-le [] = omega arith
length-distinct-le (x ∷ xs) = ground (arith, length-distinct-le xs)

distinct_iff : (xs : List String) → (length (distinct xs) ≡ length xs) ↔ IsDistinct xs
unfolding distinct
distinct_iff [] = (λ _. tt, λ _. refl)
distinct_iff (x ∷ xs) = (
  λ h. (
    ground (arith, length-distinct-le xs),
    (distinct_iff xs).0 (ground (arith, length-distinct-le xs)),
  ),
  λ h. ground (arith, h.0, (distinct_iff xs).1 h.1),
)

pub check_duplicates_iff : (c : Catalogue) → (check_duplicates c ≡ ok tt) ↔ IsDistinct (kpi_ids c)
unfolding check_duplicates
check_duplicates_iff c = (
  λ h. (distinct_iff (kpi_ids c)).0 (ground arith),
  λ h. ground (arith, (distinct_iff (kpi_ids c)).1 h),
)

same_grain_iff : (a b : Grain) → (same_grain a b ≡ true) ↔ (a ≡ b)
same_grain_iff a b = (λ h. ground arith, λ h. ground arith)

same_unit_iff : (a b : MeasureUnit) → (same_unit a b ≡ true) ↔ (a ≡ b)
same_unit_iff a b = (λ h. ground arith, λ h. ground arith)

-- A dependency `d` of the KPI `k` has its grain, or is global.
abbrev pub GrainAgrees : Kpi → Kpi → Type 0
GrainAgrees k d = (d.grain ≡ global) ⊎ (d.grain ≡ k.grain)

-- The units are the same, or one of the two is a score.
abbrev pub UnitAgrees : Kpi → Kpi → Type 0
UnitAgrees k d = (d.unit ≡ score) ⊎ (k.unit ≡ score) ⊎ (d.unit ≡ k.unit)

module _ {A : Type 0} (f : Kpi → A) where
  none_selected :
      (p : A → Bool) (ds : List Kpi)
      → (is_nil (select p (map f ds)) ≡ true) ↔ All (λ d. p (f d) ≡ false) ds
  none_selected p [] = (λ _. tt, λ _. refl)
  none_selected p (d ∷ ds) = (
    λ h. (ground arith, (none_selected p ds).0 (ground arith)),
    λ h. ground (arith, h.0, (none_selected p ds).1 h.1),
  )

  any_selected :
      (p q : A → Bool) (ds : List Kpi)
      → (any q (select p (map f ds)) ≡ false) ↔ All (λ d. (p (f d) && q (f d)) ≡ false) ds
  any_selected p q [] = (λ _. tt, λ _. refl)
  any_selected p q (d ∷ ds) = (
    λ h. (ground arith, (any_selected p q ds).0 (ground arith)),
    λ h. ground (arith, h.0, (any_selected p q ds).1 h.1),
  )

any-is_nil : {A : Type 0} (q : A → Bool) (xs : List A) → is_nil xs ≡ true → any q xs ≡ false
any-is_nil q [] h = refl
any-is_nil q (x ∷ xs) h = cc

module _ {P Q : Kpi → Type 0} (h : (d : Kpi) → P d ↔ Q d) where
  All-iff : (ds : List Kpi) → All P ds ↔ All Q ds
  All-iff [] = (λ _. tt, λ _. tt)
  All-iff (d ∷ ds) =
      (λ a. ((h d).0 a.0, (All-iff ds).0 a.1), λ a. ((h d).1 a.0, (All-iff ds).1 a.1))

grain_test_iff :
    (k d : Kpi)
    → (not (same_grain d.grain global || same_grain d.grain k.grain) ≡ false) ↔ GrainAgrees k d
grain_test_iff k d = (
  λ h. elim (Bool-cases (same_grain d.grain global)) [
    | inl e ↦ inl ((same_grain_iff d.grain global).0 e)
    | inr e ↦ inr ((same_grain_iff d.grain k.grain).0 (ground arith))
  ],
  λ h. elim h [
    | inl e ↦ ground (arith, (same_grain_iff d.grain global).1 e)
    | inr e ↦ ground (arith, (same_grain_iff d.grain k.grain).1 e)
  ],
)

pub grain_rule_iff : (k : Kpi) (ds : List Kpi) → (grain_rule k ds ≡ ok tt) ↔ All (GrainAgrees k) ds
grain_rule_iff k ds =
    let bad = λ (g : Grain). not (same_grain g global || same_grain g k.grain) in
    let chosen = none_selected (λ d. d.grain) bad ds in
    (
      λ h. (All-iff (grain_test_iff k) ds).0 (chosen.0 (ground arith)),
      λ h. ground (arith, chosen.1 ((All-iff (grain_test_iff k) ds).1 h)),
    )

unit_test_iff :
    (k d : Kpi)
    → same_unit k.unit score ≡ false
    → ((not (same_unit d.unit score) && not (same_unit d.unit k.unit)) ≡ false) ↔ UnitAgrees k d
unit_test_iff k d no_score = (
  λ h. elim (Bool-cases (same_unit d.unit score)) [
    | inl e ↦ inl ((same_unit_iff d.unit score).0 e)
    | inr e ↦ inr (inr ((same_unit_iff d.unit k.unit).0 (ground arith)))
  ],
  λ h. elim h [
    | inl e ↦ ground (arith, (same_unit_iff d.unit score).1 e)
    | inr (inl e) ↦ ground (arith, (same_unit_iff k.unit score).1 e)
    | inr (inr e) ↦ ground (arith, (same_unit_iff d.unit k.unit).1 e)
  ],
)

All-of : {P : Kpi → Type 0} (ds : List Kpi) → ((d : Kpi) → P d) → All P ds
All-of [] h = tt
All-of (d ∷ ds) h = (h d, All-of ds h)

pub unit_rule_iff : (k : Kpi) (ds : List Kpi) → (unit_rule k ds ≡ ok tt) ↔ All (UnitAgrees k) ds
unit_rule_iff k ds = elim (Bool-cases (same_unit k.unit score)) [
  | inl e ↦
      (λ _. All-of ds (λ d. inr (inl ((same_unit_iff k.unit score).0 e))), λ _. ground (arith, e))
  | inr e ↦
      let p = λ (u : MeasureUnit). not (same_unit u score) in
      let q = λ (u : MeasureUnit). not (same_unit u k.unit) in
      let xs = map (λ (d : Kpi). d.unit) ds in
      let chosen = any_selected (λ d. d.unit) p q ds in
      (
        λ h.
            (All-iff (λ d. unit_test_iff k d e) ds).0
              (chosen.0 (ground (arith, any-is_nil q (select p xs)))),
        λ h. ground (arith, chosen.1 ((All-iff (λ d. unit_test_iff k d e) ds).1 h)),
      )
]
