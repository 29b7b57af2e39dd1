-- ===== src/Profiling/Inferred.antt =====
-- What the dtype that `DtypeInferencer` gives says of the chunks.
use data_quality_toolkit.Prelude.{
  ◌≡◌, refl, sym, ◌∙◌, ap, String, Bool, true, false, ◌&&◌, Option, none, some, List, [], ◌∷◌,
  lookup, contains,
}
use data_quality_toolkit.Profiling.{Dtype, object, DtypeTests, Chunk}
use data_quality_toolkit.Profiling.Widening.{normalize_dtype, widen, is_below, widen-is_below}
use data_quality_toolkit.Profiling.Aggregators.{column_seen, or_object, infer_dtypes}
use data_quality_toolkit.Profiling.Columns.{fold_column, lookup-infer_dtypes}

abbrev pub with_dtype : Option Dtype → List Dtype → List Dtype
with_dtype none ds = ds
with_dtype (some d) ds = d ∷ ds

abbrev pub all_below : List Dtype → Dtype → Bool
all_below [] u = true
all_below (d ∷ ds) u = is_below d u && all_below ds u

-- The dtype is `object` for a column without dtypes; else it is the least one above all of them: the
-- dtypes above it are just those above all of them.
abbrev pub IsInferred : List Dtype → Dtype → Type 0
IsInferred [] d = d ≡ object
IsInferred (e ∷ es) d = (u : Dtype) → is_below d u ≡ all_below (e ∷ es) u

and_true : (b : Bool) → (b && true) ≡ b
and_true true = refl
and_true false = refl

and_assoc : (a b c : Bool) → ((a && b) && c) ≡ (a && (b && c))
and_assoc true b c = refl
and_assoc false b c = refl

module _ {T : Type 0} (tests : DtypeTests T) where
  abbrev pub dtype_of : Option T → Option Dtype
  dtype_of none = none
  dtype_of (some t) = some (normalize_dtype tests t)

  -- The canonical dtypes of a column in the chunks that have it.
  abbrev pub dtypes_in : String → List (Chunk T) → List Dtype
  dtypes_in c [] = []
  dtypes_in c (chunk ∷ chunks) = with_dtype (dtype_of (lookup c chunk.columns)) (dtypes_in c chunks)

  fold_column-below :
      (c : String) (d : Dtype) (chunks : List (Chunk T)) (u : Dtype)
      → is_below (or_object (fold_column tests c (some d) chunks)) u
        ≡ (is_below d u && all_below (dtypes_in c chunks) u)
  unfolding fold_column
  fold_column-below c d [] u = sym (and_true (is_below d u))
  fold_column-below c d (chunk ∷ chunks) u =
      by_column (lookup c chunk.columns) (λ e. fold_column-below c e chunks u)
    where
      by_column :
          (o : Option T)
          → ((e : Dtype)
              → is_below (or_object (fold_column tests c (some e) chunks)) u
                ≡ (is_below e u && all_below (dtypes_in c chunks) u))
          → is_below (or_object (fold_column tests c (column_seen tests (some d) o) chunks)) u
            ≡ (is_below d u && all_below (with_dtype (dtype_of o) (dtypes_in c chunks)) u)
      by_column none rest = rest d
      by_column (some t) rest =
          rest (widen d (normalize_dtype tests t))
          ∙ (ap (λ b. b && all_below (dtypes_in c chunks) u)
                (widen-is_below d (normalize_dtype tests t) u)
              ∙ and_assoc (is_below d u) (is_below (normalize_dtype tests t) u)
                  (all_below (dtypes_in c chunks) u))

  fold_column-IsInferred :
      (c : String) (chunks : List (Chunk T))
      → IsInferred (dtypes_in c chunks) (or_object (fold_column tests c none chunks))
  unfolding fold_column
  fold_column-IsInferred c [] = refl
  fold_column-IsInferred c (chunk ∷ chunks) =
      by_column (lookup c chunk.columns) (fold_column-IsInferred c chunks)
    where
      by_column :
          (o : Option T)
          → IsInferred (dtypes_in c chunks) (or_object (fold_column tests c none chunks))
          → IsInferred
              (with_dtype (dtype_of o) (dtypes_in c chunks))
              (or_object (fold_column tests c (column_seen tests none o) chunks))
      by_column none rest = rest
      by_column (some t) rest = fold_column-below c (normalize_dtype tests t) chunks

  -- For a column of the inferencer: the dtype that it gives after the chunks is the least one above
  -- the canonical dtypes of the chunks that have the column, and `object` where none has it.
  pub infer_dtypes-IsInferred :
      (columns : List String) (chunks : List (Chunk T)) (c : String)
      → contains c columns ≡ true
      → (d : Dtype) × (lookup c (infer_dtypes tests columns chunks) ≡ some d)
        × IsInferred (dtypes_in c chunks) d
  infer_dtypes-IsInferred columns chunks c m = (
    or_object (fold_column tests c none chunks),
    lookup-infer_dtypes tests c columns chunks m,
    fold_column-IsInferred c chunks,
  )
