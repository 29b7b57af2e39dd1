-- ===== src/Prelude/Stripping.antt =====
-- `strip` on a text that is stripped.
use Prim.Native.Char.{code}
use Prim.Native.String.{String}
use mathlib.Core.Path.{◌≡◌, refl, ◌∙◌, ap}
use mathlib.Core.Logic.{inl, inr}
use mathlib.Core.Bool.{Bool, true, false, ◌&&◌}
use data_quality_toolkit.Prelude.Tests.{if◌then◌else◌, Bool-cases}
use data_quality_toolkit.Prelude.Text.{is_empty, is_space, lstrip, rstrip, strip}

rstrip_idem : (s : String) → rstrip (rstrip s) ≡ rstrip s
unfolding rstrip
rstrip_idem String.[] = refl
rstrip_idem (String.◌∷◌ c s) = elim (Bool-cases (is_empty (rstrip s) && is_space (code c))) [
  | inl h ↦ rw (h, rstrip) refl
  | inr h ↦ rw (h, rstrip) (rw (rstrip_idem s, h, rstrip) refl)
]

lstrip-rstrip : (s : String) → lstrip (rstrip (lstrip s)) ≡ rstrip (lstrip s)
unfolding rstrip lstrip
lstrip-rstrip String.[] = refl
lstrip-rstrip (String.◌∷◌ c s) = elim (Bool-cases (is_space (code c))) [
  | inl h ↦ rw (h, lstrip) (lstrip-rstrip s)
  | inr h ↦ rw (h, lstrip) (kept (is_empty (rstrip s)) h)
]
  where
    kept :
        (b : Bool)
        → is_space (code c) ≡ false
        → lstrip (if b && is_space (code c) then "" else String.◌∷◌ c (rstrip s))
          ≡ (if b && is_space (code c) then "" else String.◌∷◌ c (rstrip s))
    kept true h = rw (h, lstrip) (rw (h, lstrip) refl)
    kept false h = rw (h, lstrip) refl

pub strip_idem : (s : String) → strip (strip s) ≡ strip s
unfolding strip
strip_idem s = ap rstrip (lstrip-rstrip s) ∙ rstrip_idem (lstrip s)
