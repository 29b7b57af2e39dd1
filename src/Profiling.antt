-- ===== src/Profiling.antt =====
-- The streaming aggregators of domain/profiling/core/chunked_aggregators.py, below
-- src/data_quality_toolkit. The dtypes of pandas are the type `T`, with the tests of
-- `pandas.api.types`; of a chunk the model has the number of its rows and the dtypes of its columns.
pub mod Widening
pub mod Aggregators
pub mod Columns
pub mod Inferred
pub mod Bags
pub mod Tests
use data_quality_toolkit.Prelude.{ℕ, String, Bool, Dict}

-- The canonical dtypes: the texts "bool", "int64", "float64", "datetime64[ns]" and "object".
pub data Dtype : Type 0 where
  bool int64 float64 datetime64 object : Dtype

pub record DtypeTests (T : Type 0) : Type 0 where
  pub is_bool_dtype : T → Bool
  pub is_integer_dtype : T → Bool
  pub is_float_dtype : T → Bool
  pub is_datetime64_any_dtype : T → Bool

pub record Chunk (T : Type 0) : Type 0 where
  pub rows : ℕ
  pub columns : Dict T
