-- ===== src/Profiling/Widening.antt =====
-- `_widen` as the join of an order on the dtypes.
use data_quality_toolkit.Prelude.{
  ℕ, ◌≡◌, Bool, true, false, ◌&&◌, ◌||◌, Option, none, some, leb, arith, if◌then◌else◌,
}
use data_quality_toolkit.Profiling.{Dtype, bool, int64, float64, datetime64, object, DtypeTests}

-- `_normalize_dtype`
abbrev pub normalize_dtype : {T : Type 0} → DtypeTests T → T → Dtype
normalize_dtype tests dtype =
    if tests.is_bool_dtype dtype
    then bool
    else if tests.is_integer_dtype dtype
    then int64
    else if tests.is_float_dtype dtype
    then float64
    else if tests.is_datetime64_any_dtype dtype
    then datetime64
    else object

-- Equality of the texts.
abbrev pub same_dtype : Dtype → Dtype → Bool
same_dtype bool bool = true
same_dtype int64 int64 = true
same_dtype float64 float64 = true
same_dtype datetime64 datetime64 = true
same_dtype object object = true
same_dtype _ _ = false

-- `"datetime64" in dtype`
abbrev pub is_datetime : Dtype → Bool
is_datetime datetime64 = true
is_datetime _ = false

-- `_WIDEN_RANK`
abbrev pub widen_rank : Dtype → Option ℕ
widen_rank bool = some 0
widen_rank int64 = some 1
widen_rank float64 = some 2
widen_rank _ = none

abbrev pub wider_of : Dtype → Dtype → Option ℕ → Option ℕ → Dtype
wider_of current incoming (some m) (some n) = if leb n m then current else incoming
wider_of current incoming (some m) none = object
wider_of current incoming none n = object

unfoldable pub widen : Dtype → Dtype → Dtype
widen current incoming =
    if same_dtype current incoming
    then current
    else if is_datetime current || is_datetime incoming
    then object
    else wider_of current incoming (widen_rank current) (widen_rank incoming)

-- The order of the dtypes: `bool`, `int64` and `float64` stand in this order, and all below `object`.
abbrev pub is_below : Dtype → Dtype → Bool
is_below d object = true
is_below bool bool = true
is_below bool int64 = true
is_below bool float64 = true
is_below int64 int64 = true
is_below int64 float64 = true
is_below float64 float64 = true
is_below datetime64 datetime64 = true
is_below _ _ = false

pub widen_idem : (a b : Dtype) → widen (widen a b) b ≡ widen a b
unfolding widen
widen_idem a b = ground arith

-- The wider dtype is the least one above both.
pub widen-is_below : (a b c : Dtype) → is_below (widen a b) c ≡ (is_below a c && is_below b c)
unfolding widen
widen-is_below a b c = ground arith

pub is_below_refl : (a : Dtype) → is_below a a ≡ true
is_below_refl a = ground arith

pub is_below_antisym : (a b : Dtype) → is_below a b ≡ true → is_below b a ≡ true → a ≡ b
is_below_antisym a b h g = ground arith

pub widen_self : (a : Dtype) → widen a a ≡ a
unfolding widen
widen_self a = ground arith
