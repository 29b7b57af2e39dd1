-- ===== src/Profiling/Tests.antt =====
-- Three chunks, of which one lacks a column, and the theorems at them.
use data_quality_toolkit.Prelude.{ℕ, String, ◌≡◌, refl, some, List, [], ◌∷◌, lookup, eqb}
use data_quality_toolkit.Profiling.{Dtype, bool, int64, float64, object, DtypeTests, Chunk}
use data_quality_toolkit.Profiling.Aggregators.{count_rows, infer_dtypes}
use data_quality_toolkit.Profiling.Inferred.{IsInferred, infer_dtypes-IsInferred}
use data_quality_toolkit.Profiling.Bags.{dtype_in, rows_in, infer_dtypes-refines}

-- Dtypes as numbers.
abbrev tests : DtypeTests ℕ
tests = record {
  is_bool_dtype = eqb 0;
  is_integer_dtype = eqb 1;
  is_float_dtype = eqb 2;
  is_datetime64_any_dtype = eqb 3;
}

abbrev columns : List String
columns = "a" ∷ "b" ∷ "c" ∷ []

abbrev chunks : List (Chunk ℕ)
chunks =
    record { rows = 3; columns = ("a", 1) ∷ ("b", 3) ∷ [] }
    ∷ record { rows = 2; columns = ("a", 2) ∷ [] }
    ∷ record { rows = 1; columns = ("a", 0) ∷ ("b", 0) ∷ [] }
    ∷ []

inferred : infer_dtypes tests columns chunks ≡ ("a", float64) ∷ ("b", object) ∷ ("c", object) ∷ []
unfolding infer_dtypes
inferred = refl

infer_dtypes-IsInferred_example :
    (d : Dtype) × (lookup "a" (infer_dtypes tests columns chunks) ≡ some d)
    × IsInferred (int64 ∷ float64 ∷ bool ∷ []) d
unfolding lookup
infer_dtypes-IsInferred_example = infer_dtypes-IsInferred tests columns chunks "a" refl

infer_dtypes-refines_example :
    (lookup "b" (infer_dtypes tests columns chunks) ≡ some object) × (count_rows 0 chunks ≡ 6)
unfolding dtype_in rows_in lookup
infer_dtypes-refines_example = infer_dtypes-refines tests columns chunks "b" refl
