-- ===== src/Profiling/Bags.antt =====
-- The aggregators of chunked_aggregators.py against a description of their results on a bag of chunks,
-- that is, on the chunks without their order.
use mathlib.Core.Quot
use mathlib.Core.Quot.{Quot}
use mathlib.Core.List.{Permᴰ}
use native.Mathlib.Nat.{ℕ_set}
use data_quality_toolkit.Prelude.{
  ℕ, ◌+◌, ◌≡◌, refl, sym, ◌∙◌, ap, String, Bool, true, false, ◌||◌, Option, none, some, List, [],
  ◌∷◌, lookup, contains, any, arith, if◌then◌else◌,
}
use data_quality_toolkit.Profiling.{
  Dtype, bool, int64, float64, datetime64, object, DtypeTests, Chunk,
}
use data_quality_toolkit.Profiling.Widening.{normalize_dtype, same_dtype, widen}
use data_quality_toolkit.Profiling.Aggregators.{count_rows, column_seen, or_object, infer_dtypes}
use data_quality_toolkit.Profiling.Columns.{fold_column, lookup-infer_dtypes}
use data_quality_toolkit.Profiling.Inferred.{with_dtype, dtype_of, dtypes_in}

-- Chunks up to their order.
abbrev pub ChunkBag : Type 0 → Type 0
ChunkBag T = Quot (Permᴰ {A = Chunk T})

abbrev pub in_any_order : {T : Type 0} → List (Chunk T) → ChunkBag T
in_any_order = Quot.mk

-- A value of a list that one more element changes by a step, where two steps may change places, is the
-- same for each order.
pub value_perm :
    {A S : Type 0} (step : A → S → S) (value : List A → S)
    → ((x : A) (xs : List A) → value (x ∷ xs) ≡ step x (value xs))
    → ((a b : A) (s : S) → step a (step b s) ≡ step b (step a s))
    → {xs ys : List A} → Permᴰ xs ys
    → value xs ≡ value ys
value_perm step value at_cons swaps Permᴰ.nil = refl
value_perm step value at_cons swaps (Permᴰ.cons {a} {b} {l₁} {l₂} e p) =
    at_cons a l₁
    ∙ (ap (step a) (value_perm step value at_cons swaps p)
        ∙ (ap (λ x. step x (value l₂)) e ∙ sym (at_cons b l₂)))
value_perm step value at_cons swaps (Permᴰ.swap {a} {b} {a'} {b'} {l} e f) =
    at_cons a (b ∷ l)
    ∙ (ap (step a) (at_cons b l)
        ∙ (swaps a b (value l)
            ∙ (sym (ap (step b) (at_cons a l))
                ∙ (sym (at_cons b (a ∷ l)) ∙ (λ i. value (f i ∷ e i ∷ l))))))
value_perm step value at_cons swaps (Permᴰ.trans p q) =
    value_perm step value at_cons swaps p ∙ value_perm step value at_cons swaps q

module _ {T : Type 0} where
  abbrev pub total_rows : List (Chunk T) → ℕ
  total_rows [] = 0
  total_rows (chunk ∷ chunks) = chunk.rows + total_rows chunks

  -- The sum of the rows of the chunks.
  unfoldable pub rows_in : ChunkBag T → ℕ
  rows_in = Quot.lift ℕ_set total_rows (λ cs ds p.
      value_perm (λ (chunk : Chunk T) n. chunk.rows + n) total_rows (λ chunk chunks. refl)
        (λ a b n. omega arith) p)

  count_rows-total_rows :
      (n : ℕ) (chunks : List (Chunk T)) → count_rows n chunks ≡ n + total_rows chunks
  unfolding count_rows
  count_rows-total_rows n [] = omega arith
  count_rows-total_rows n (chunk ∷ chunks) =
      omega (arith, count_rows-total_rows (n + chunk.rows) chunks)

-- The dtype for the kinds of dtypes that occur: `object` where it occurs, or `datetime64` beside
-- another, or nothing at all; `datetime64` alone; else the widest numeric one.
abbrev pub dtype_for : (Dtype → Bool) → Dtype
dtype_for occurs =
    if occurs object
    then object
    else if occurs datetime64
    then if occurs bool || occurs int64 || occurs float64 then object else datetime64
    else if occurs float64
    then float64
    else if occurs int64
    then int64
    else if occurs bool
    then bool
    else object

-- A dtype that occurs widened with another, beside more that occur.
widened :
    (d e : Dtype) (more : Dtype → Bool)
    → dtype_for (λ k. same_dtype k (widen d e) || more k)
      ≡ dtype_for (λ k. same_dtype k d || (same_dtype k e || more k))
unfolding widen
widened d e more = ground arith

module _ {T : Type 0} (tests : DtypeTests T) (c : String) where
  abbrev pub occurs_in : List (Chunk T) → Dtype → Bool
  occurs_in chunks d = any (same_dtype d) (dtypes_in tests c chunks)

  pub occurs_in-perm :
      {cs ds : List (Chunk T)} → Permᴰ cs ds → (d : Dtype) → occurs_in cs d ≡ occurs_in ds d
  occurs_in-perm p d =
      value_perm (λ (chunk : Chunk T) b. here (dtype_of tests (lookup c chunk.columns)) || b)
        (λ cs. occurs_in cs d)
        (λ chunk chunks.
          at_cons (dtype_of tests (lookup c chunk.columns)) (dtypes_in tests c chunks))
        (λ x y b.
          or_swap (here (dtype_of tests (lookup c x.columns)))
            (here (dtype_of tests (lookup c y.columns))) b)
        p
    where
      here : Option Dtype → Bool
      here none = false
      here (some e) = same_dtype d e

      at_cons :
          (o : Option Dtype) (ds : List Dtype)
          → any (same_dtype d) (with_dtype o ds) ≡ (here o || any (same_dtype d) ds)
      at_cons none ds = refl
      at_cons (some e) ds = refl

      or_swap : (a b c : Bool) → (a || (b || c)) ≡ (b || (a || c))
      or_swap a b c = ground arith

  -- The dtype for those that the column has in the chunks.
  unfoldable pub dtype_in : ChunkBag T → Dtype
  dtype_in =
      Quot.lift (hlevel) (λ cs. dtype_for (occurs_in cs))
        (λ cs ds p i. dtype_for (λ d. occurs_in-perm p d i))

  fold_column-dtype_for :
      (d : Dtype) (chunks : List (Chunk T))
      → or_object (fold_column tests c (some d) chunks)
        ≡ dtype_for (λ k. same_dtype k d || occurs_in chunks k)
  unfolding fold_column
  fold_column-dtype_for d [] = alone d
    where
      alone : (d : Dtype) → d ≡ dtype_for (λ k. same_dtype k d || false)
      alone d = ground arith
  fold_column-dtype_for d (chunk ∷ chunks) =
      by_column (lookup c chunk.columns) (λ e. fold_column-dtype_for e chunks)
    where
      by_column :
          (o : Option T)
          → ((e : Dtype)
              → or_object (fold_column tests c (some e) chunks)
                ≡ dtype_for (λ k. same_dtype k e || occurs_in chunks k))
          → or_object (fold_column tests c (column_seen tests (some d) o) chunks)
            ≡ dtype_for (λ k.
              same_dtype k d
              || any (same_dtype k) (with_dtype (dtype_of tests o) (dtypes_in tests c chunks)))
      by_column none rest = rest d
      by_column (some t) rest =
          rest (widen d (normalize_dtype tests t))
          ∙ widened d (normalize_dtype tests t) (occurs_in chunks)

  column-dtype_for :
      (chunks : List (Chunk T))
      → or_object (fold_column tests c none chunks) ≡ dtype_for (occurs_in chunks)
  unfolding fold_column
  column-dtype_for [] = refl
  column-dtype_for (chunk ∷ chunks) = by_column (lookup c chunk.columns) (column-dtype_for chunks)
    where
      by_column :
          (o : Option T)
          → or_object (fold_column tests c none chunks) ≡ dtype_for (occurs_in chunks)
          → or_object (fold_column tests c (column_seen tests none o) chunks)
            ≡ dtype_for
                (λ k. any (same_dtype k) (with_dtype (dtype_of tests o) (dtypes_in tests c chunks)))
      by_column none rest = rest
      by_column (some t) rest = fold_column-dtype_for (normalize_dtype tests t) chunks

-- The streaming aggregators implement functions of the bag of chunks, whatever the order in which the
-- chunks come. The count is the sum of the rows. The dtype of a column of the inferencer is told by
-- which canonical dtypes the column has in the chunks: `object` where it has `object`, or
-- `datetime64` beside another, or none at all; `datetime64` where it has no other; else the last of
-- `bool`, `int64` and `float64` that it has.
pub infer_dtypes-refines :
    {T : Type 0} (tests : DtypeTests T) (columns : List String) (chunks : List (Chunk T))
    (c : String)
    → contains c columns ≡ true
    → (lookup c (infer_dtypes tests columns chunks) ≡ some (dtype_in tests c (in_any_order chunks)))
      × (count_rows 0 chunks ≡ rows_in (in_any_order chunks))
unfolding dtype_in rows_in
infer_dtypes-refines tests columns chunks c m = (
  lookup-infer_dtypes tests c columns chunks m ∙ ap some (column-dtype_for tests c chunks),
  count_rows-total_rows 0 chunks ∙ omega arith,
)
