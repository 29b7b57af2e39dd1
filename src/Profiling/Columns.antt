-- ===== src/Profiling/Columns.antt =====
-- The dtype that `DtypeInferencer` gives for one column.
use data_quality_toolkit.Prelude.{
  ◌≡◌, refl, sym, ◌∙◌, ap, subst, String, Bool, true, false, ◌||◌, Option, none, some, List, [],
  ◌∷◌, Dict, lookup, insert, lookup-insert, contains, arith, ◌==◌, eq_iff, if◌then◌else◌,
}
use data_quality_toolkit.Profiling.{Dtype, DtypeTests, Chunk}
use data_quality_toolkit.Profiling.Widening.{normalize_dtype, widen_idem, widen_self}
use data_quality_toolkit.Profiling.Aggregators.{
  column_seen, stored_in, seen_in, update_column, update, update_all, from_columns, or_object,
  finalize, infer_dtypes,
}

abbrev shown_seen : Option (Option Dtype) → Option Dtype
shown_seen none = none
shown_seen (some o) = some (or_object o)

lookup-finalize :
    (c : String) (seen : Dict (Option Dtype))
    → lookup c (finalize seen) ≡ shown_seen (lookup c seen)
unfolding lookup
lookup-finalize c [] = refl
lookup-finalize c ((col, o) ∷ rest) = by_test (col == c) (lookup-finalize c rest)
  where
    by_test :
        (b : Bool)
        → lookup c (finalize rest) ≡ shown_seen (lookup c rest)
        → (if b then some (or_object o) else lookup c (finalize rest))
          ≡ shown_seen (if b then some o else lookup c rest)
    by_test true h = refl
    by_test false h = h

lookup-from_columns :
    (c : String) (cols : List String) (seen : Dict (Option Dtype))
    → lookup c (from_columns cols seen) ≡ (if contains c cols then some none else lookup c seen)
unfolding from_columns
lookup-from_columns c [] seen = refl
lookup-from_columns c (col ∷ cols) seen = ground (
  arith,
  lookup-from_columns c cols (insert col none seen),
  lookup-insert col c none seen,
  eq_iff col c,
  eq_iff c col,
)

module _ {T : Type 0} (tests : DtypeTests T) where
  -- The value in `_seen` for a column, without the other columns.
  unfoldable pub fold_column : String → Option Dtype → List (Chunk T) → Option Dtype
  fold_column c o [] = o
  fold_column c o (chunk ∷ chunks) =
      fold_column c (column_seen tests o (lookup c chunk.columns)) chunks

  column_seen_idem :
      (o : Option Dtype) (d : Option T)
      → column_seen tests (column_seen tests o d) d ≡ column_seen tests o d
  column_seen_idem o none = refl
  column_seen_idem none (some dtype) = ap some (widen_self (normalize_dtype tests dtype))
  column_seen_idem (some current) (some dtype) =
      ap some (widen_idem current (normalize_dtype tests dtype))

  lookup-update_column :
      (c col : String) (chunk : Chunk T) (seen : Dict (Option Dtype)) (o : Option Dtype)
      → lookup c seen ≡ some o
      → lookup c (update_column tests chunk col seen)
        ≡ some (if col == c then column_seen tests o (lookup c chunk.columns) else o)
  lookup-update_column c col chunk seen o h =
      by_found (lookup col chunk.columns) refl (col == c) refl
    where
      same : (col == c) ≡ true → col ≡ c
      same e = ground (arith, e, eq_iff col c)

      by_found :
          (f : Option T)
          → lookup col chunk.columns ≡ f
          → (b : Bool) → (col == c) ≡ b
          → lookup c (elim f [
            | none ↦ seen
            | some dtype ↦ insert col (column_seen tests (seen_in col seen) (some dtype)) seen
          ])
            ≡ some (if b then column_seen tests o (lookup c chunk.columns) else o)
      by_found none e false q = h
      by_found none e true q =
          h
          ∙ ap (λ x. some (column_seen tests o x))
              (sym (subst (λ k. lookup k chunk.columns ≡ none) (same q) e))
      by_found (some d) e false q =
          lookup-insert col c (column_seen tests (seen_in col seen) (some d)) seen ∙ simp (q, h)
      by_found (some d) e true q =
          lookup-insert col c (column_seen tests (seen_in col seen) (some d)) seen
          ∙ (simp q (
              ap some (
                ap (λ x. column_seen tests x (some d)) before
                ∙ ap (column_seen tests o)
                    (sym (subst (λ k. lookup k chunk.columns ≡ some d) (same q) e)))))
        where
          before : seen_in col seen ≡ o
          before = subst (λ k. seen_in k seen ≡ o) (sym (same q)) (found h)
            where
              found : lookup c seen ≡ some o → seen_in c seen ≡ o
              found g = ap stored_in g

  update-nil : (chunk : Chunk T) (seen : Dict (Option Dtype)) → update tests [] chunk seen ≡ seen
  unfolding update
  update-nil chunk seen = refl

  update-cons :
      (col : String) (cols : List String) (chunk : Chunk T) (seen : Dict (Option Dtype))
      → update tests (col ∷ cols) chunk seen
        ≡ update tests cols chunk (update_column tests chunk col seen)
  unfolding update
  update-cons col cols chunk seen = refl

  lookup-update :
      (c : String) (cols : List String) (chunk : Chunk T) (seen : Dict (Option Dtype))
      (o : Option Dtype)
      → lookup c seen ≡ some o
      → lookup c (update tests cols chunk seen)
        ≡ some (if contains c cols then column_seen tests o (lookup c chunk.columns) else o)
  lookup-update c [] chunk seen o h = ap (lookup c) (update-nil chunk seen) ∙ h
  lookup-update c (col ∷ cols) chunk seen o h =
      ap (lookup c) (update-cons col cols chunk seen)
      ∙ (lookup-update c cols chunk (update_column tests chunk col seen)
            (if col == c then column_seen tests o (lookup c chunk.columns) else o)
            (lookup-update_column c col chunk seen o h)
          ∙ ap some (joined (col == c) (c == col) (contains c cols) (symmetric col c)))
    where
      symmetric : (x y : String) → (x == y) ≡ (y == x)
      symmetric x y = ground (arith, eq_iff x y, eq_iff y x)

      joined :
          (a b d : Bool)
          → a ≡ b
          → (if d
              then column_seen tests
                  (if a then column_seen tests o (lookup c chunk.columns) else o)
                  (lookup c chunk.columns)
              else if a
              then column_seen tests o (lookup c chunk.columns)
              else o)
            ≡ (if b || d then column_seen tests o (lookup c chunk.columns) else o)
      joined true true true e = column_seen_idem o (lookup c chunk.columns)
      joined true true false e = refl
      joined false false true e = refl
      joined false false false e = refl
      joined true false d e = cc
      joined false true d e = cc

  update_all-nil :
      (cols : List String) (seen : Dict (Option Dtype)) → update_all tests cols [] seen ≡ seen
  unfolding update_all
  update_all-nil cols seen = refl

  update_all-cons :
      (cols : List String) (chunk : Chunk T) (chunks : List (Chunk T)) (seen : Dict (Option Dtype))
      → update_all tests cols (chunk ∷ chunks) seen
        ≡ update_all tests cols chunks (update tests cols chunk seen)
  unfolding update_all
  update_all-cons cols chunk chunks seen = refl

  lookup-update_all :
      (c : String) (cols : List String) (chunks : List (Chunk T)) (seen : Dict (Option Dtype))
      (o : Option Dtype)
      → contains c cols ≡ true
      → lookup c seen ≡ some o
      → lookup c (update_all tests cols chunks seen) ≡ some (fold_column c o chunks)
  unfolding fold_column
  lookup-update_all c cols [] seen o m h = ap (lookup c) (update_all-nil cols seen) ∙ h
  lookup-update_all c cols (chunk ∷ chunks) seen o m h =
      ap (lookup c) (update_all-cons cols chunk chunks seen)
      ∙ lookup-update_all c cols chunks (update tests cols chunk seen)
          (column_seen tests o (lookup c chunk.columns)) m
          (lookup-update c cols chunk seen o h ∙ simp m)

  infer_dtypes-update_all :
      (cols : List String) (chunks : List (Chunk T))
      → infer_dtypes tests cols chunks
        ≡ finalize (update_all tests cols chunks (from_columns cols []))
  unfolding infer_dtypes
  infer_dtypes-update_all cols chunks = refl

  -- The columns do not meet: each gives what its own dtypes give.
  pub lookup-infer_dtypes :
      (c : String) (cols : List String) (chunks : List (Chunk T))
      → contains c cols ≡ true
      → lookup c (infer_dtypes tests cols chunks) ≡ some (or_object (fold_column c none chunks))
  lookup-infer_dtypes c cols chunks m =
      ap (lookup c) (infer_dtypes-update_all cols chunks)
      ∙ (lookup-finalize c (update_all tests cols chunks (from_columns cols []))
          ∙ ap shown_seen (
              lookup-update_all c cols chunks (from_columns cols []) none m
                (lookup-from_columns c cols [] ∙ simp m)))
