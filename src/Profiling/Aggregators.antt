-- ===== src/Profiling/Aggregators.antt =====
-- `RowCounter` and `DtypeInferencer`, fed with a list of chunks.
use data_quality_toolkit.Prelude.{
  ℕ, ◌+◌, String, Option, none, some, List, [], ◌∷◌, Dict, lookup, insert,
}
use data_quality_toolkit.Profiling.{Dtype, object, DtypeTests, Chunk}
use data_quality_toolkit.Profiling.Widening.{normalize_dtype, widen}

module _ {T : Type 0} where
  -- `RowCounter.update` for each chunk; the count is what `finalize` gives under "rows".
  unfoldable pub count_rows : ℕ → List (Chunk T) → ℕ
  count_rows count [] = count
  count_rows count (chunk ∷ chunks) = count_rows (count + chunk.rows) chunks

-- What a chunk makes of the dtype seen in a column before; `none` is `None`.
abbrev pub widen_seen : Option Dtype → Dtype → Dtype
widen_seen none incoming = incoming
widen_seen (some current) incoming = widen current incoming

abbrev pub stored_in : Option (Option Dtype) → Option Dtype
stored_in none = none
stored_in (some d) = d

-- The value in `_seen`, which has every column.
abbrev pub seen_in : String → Dict (Option Dtype) → Option Dtype
seen_in col seen = stored_in (lookup col seen)

-- `dict.fromkeys(columns)`
unfoldable pub from_columns : List String → Dict (Option Dtype) → Dict (Option Dtype)
unfolding insert
from_columns [] seen = seen
from_columns (col ∷ cols) seen = from_columns cols (insert col none seen)

abbrev pub or_object : Option Dtype → Dtype
or_object none = object
or_object (some d) = d

-- `DtypeInferencer.finalize`
abbrev pub finalize : Dict (Option Dtype) → Dict Dtype
finalize [] = []
finalize ((col, seen) ∷ rest) = (col, or_object seen) ∷ finalize rest

module _ {T : Type 0} (tests : DtypeTests T) where
  abbrev pub column_seen : Option Dtype → Option T → Option Dtype
  column_seen current none = current
  column_seen current (some dtype) = some (widen_seen current (normalize_dtype tests dtype))

  -- One column of `DtypeInferencer.update`.
  abbrev pub update_column : Chunk T → String → Dict (Option Dtype) → Dict (Option Dtype)
  update_column chunk col seen = elim (lookup col chunk.columns) [
    | none ↦ seen
    | some dtype ↦ insert col (column_seen (seen_in col seen) (some dtype)) seen
  ]

  unfoldable pub update : List String → Chunk T → Dict (Option Dtype) → Dict (Option Dtype)
  unfolding lookup insert widen
  update [] chunk seen = seen
  update (col ∷ cols) chunk seen = update cols chunk (update_column chunk col seen)

  unfoldable pub update_all :
      List String → List (Chunk T) → Dict (Option Dtype) → Dict (Option Dtype)
  unfolding update
  update_all columns [] seen = seen
  update_all columns (chunk ∷ chunks) seen = update_all columns chunks (update columns chunk seen)

  -- The inferencer on the chunks in their order.
  unfoldable pub infer_dtypes : List String → List (Chunk T) → Dict Dtype
  unfolding update_all from_columns
  infer_dtypes columns chunks = finalize (update_all columns chunks (from_columns columns []))
