-- ===== src/Versions/Places.antt =====
-- The paths that `_is_valid_relative_path` of dataset_versions.py lets pass, written out.
use data_quality_toolkit.Prelude.{
  ℕ, ◌≤◌, ◌≡◌, ◌≢◌, refl, sym, ap, ◌∙◌, ◌⊎◌, String, Bool, true, false, not, ◌&&◌, ◌||◌, List, [],
  ◌∷◌, All, codes, strip, is_empty, any, eqb, eq_iff, arith, if◌then◌else◌, ◌==◌, is_letter, subst,
}
use data_quality_toolkit.Versions.Identity.{
  Segment, blank, one_dot, two_dots, plain, next_segment, ends_dotted, has_dotdot, dotdot_in_parts,
  has_drive, is_absolute, is_valid_relative_path,
}

abbrev with_first : ℕ → List (List ℕ) → List (List ℕ)
with_first c [] = (c ∷ []) ∷ []
with_first c (seg ∷ segs) = (c ∷ seg) ∷ segs

-- The text cut at its slashes.
abbrev pub segments : List ℕ → List (List ℕ)
segments [] = [] ∷ []
segments (c ∷ cs) = let rest = segments cs in if eqb c 47 then [] ∷ rest else with_first c rest

-- A path below the workspace: without white space around it, not empty and not `.`, not from the root
-- of the file system and not with a drive letter, without a backslash, and with no segment `..`.
pub record IsBelow (s : String) : Type 0 where
  pub stripped : strip s ≡ s
  pub filled : s ≢ ""
  pub not_dot : s ≢ "."
  pub start : (cs : List ℕ) → codes s ≢ (47 ∷ cs)
  pub no_drive :
      (c : ℕ) (cs : List ℕ)
      → codes s ≡ c ∷ 58 ∷ cs
      → ¬ (((65 ≤ c) × (c ≤ 90)) ⊎ ((97 ≤ c) × (c ≤ 122)))
  pub no_backslash : All (λ c. c ≢ 92) (codes s)
  pub no_climb : All (λ seg. seg ≢ (46 ∷ 46 ∷ [])) (segments (codes s))

-- What the rest of a segment is not, after what was read of it.
abbrev IsPlainAfter : Segment → List ℕ → Type 0
IsPlainAfter blank seg = seg ≢ (46 ∷ 46 ∷ [])
IsPlainAfter one_dot seg = seg ≢ (46 ∷ [])
IsPlainAfter two_dots seg = seg ≢ []
IsPlainAfter plain seg = Unit

abbrev ArePlainAfter : Segment → List (List ℕ) → Type 0
ArePlainAfter so_far [] = ⊥
ArePlainAfter so_far (seg ∷ segs) = IsPlainAfter so_far seg × All (λ seg. seg ≢ (46 ∷ 46 ∷ [])) segs

ended : (so_far : Segment) → ends_dotted so_far ≡ false → IsPlainAfter so_far []
ended blank h = λ e. cc
ended one_dot h = λ e. cc
ended two_dots h = cc
ended plain h = tt

head_same : {a b : ℕ} {xs ys : List ℕ} → ◌≡◌ {A = List ℕ} (a ∷ xs) (b ∷ ys) → a ≡ b
head_same e = cc e

tail_same : {a b : ℕ} {xs ys : List ℕ} → ◌≡◌ {A = List ℕ} (a ∷ xs) (b ∷ ys) → xs ≡ ys
tail_same e = cc e

dot : (c : ℕ) → c ≡ 46 → eqb c b'.' ≡ true
dot c e = ground (arith, e)

one_more :
    (so_far : Segment) (c : ℕ) (seg : List ℕ)
    → IsPlainAfter (next_segment so_far c) seg
    → IsPlainAfter so_far (c ∷ seg)
one_more blank c seg h = λ e.
    subst (λ b. IsPlainAfter (if b then one_dot else plain) seg) (dot c (head_same e)) h
      (tail_same e)
one_more one_dot c seg h = λ e.
    subst (λ b. IsPlainAfter (if b then two_dots else plain) seg) (dot c (head_same e)) h
      (tail_same e)
one_more two_dots c seg h = λ e. cc
one_more plain c seg h = tt

one_more_first :
    (so_far : Segment) (c : ℕ) (segs : List (List ℕ))
    → ArePlainAfter (next_segment so_far c) segs
    → ArePlainAfter so_far (with_first c segs)
one_more_first so_far c [] h = absurd h
one_more_first so_far c (seg ∷ segs) h = (one_more so_far c seg h.0, h.1)

from_blank :
    (segs : List (List ℕ)) → ArePlainAfter blank segs → All (λ seg. seg ≢ (46 ∷ 46 ∷ [])) segs
from_blank [] h = absurd h
from_blank (seg ∷ segs) h = h

neither : (a b : Bool) → (a || b) ≡ false → (a ≡ false) × (b ≡ false)
neither true b h = cc
neither false b h = (refl, h)

has_dotdot-ArePlainAfter :
    (so_far : Segment) (cs : List ℕ)
    → has_dotdot so_far cs ≡ false
    → ArePlainAfter so_far (segments cs)
unfolding has_dotdot
has_dotdot-ArePlainAfter so_far [] h = (ended so_far h, tt)
has_dotdot-ArePlainAfter so_far (c ∷ cs) h =
    by_slash (eqb c b'/') h (has_dotdot-ArePlainAfter blank cs)
      (has_dotdot-ArePlainAfter (next_segment so_far c) cs)
  where
    by_slash :
        (b : Bool)
        → (has_dotdot (if b then blank else next_segment so_far c) cs || (b && ends_dotted so_far))
          ≡ false
        → (has_dotdot blank cs ≡ false → ArePlainAfter blank (segments cs))
        → (has_dotdot (next_segment so_far c) cs ≡ false
            → ArePlainAfter (next_segment so_far c) (segments cs))
        → ArePlainAfter so_far (if b then [] ∷ segments cs else with_first c (segments cs))
    by_slash true h at_blank on =
        let (rest, here) = neither (has_dotdot blank cs) (ends_dotted so_far) h in
        (ended so_far here, from_blank (segments cs) (at_blank rest))
    by_slash false h at_blank on =
        one_more_first so_far c (segments cs)
          (on (neither (has_dotdot (next_segment so_far c) cs) false h).0)

refused :
    (a b c d e f g : Bool)
    → (if a || not b then false else if c || d || e then false else if f then false else not g)
      ≡ true
    → (a ≡ false) × (b ≡ true) × (c ≡ false) × (d ≡ false) × (e ≡ false) × (f ≡ false) × (g ≡ false)
refused a b c d e f g h = ground (arith, h)

any-false-All : (xs : List ℕ) → any (eqb 92) xs ≡ false → All (λ c. c ≢ 92) xs
any-false-All [] h = tt
any-false-All (x ∷ xs) h =
    let (here, there) = neither (eqb 92 x) (any (eqb 92) xs) h in
    (λ e. ground (arith, here, e), any-false-All xs there)

not_absolute : (xs cs : List ℕ) → is_absolute xs ≡ false → xs ≢ (47 ∷ cs)
not_absolute [] cs h = λ e. cc
not_absolute (x ∷ xs) cs h = λ e. slash (head_same e) h
  where
    slash : x ≡ 47 → eqb x b'/' ≡ false → ⊥
    slash e h = ground (arith, e, h)

is_letter-true : (c : ℕ) → ((65 ≤ c) × (c ≤ 90)) ⊎ ((97 ≤ c) × (c ≤ 122)) → is_letter c ≡ true
is_letter-true c h = ground (arith, h)

not_drive :
    (xs : List ℕ) (c : ℕ) (cs : List ℕ)
    → has_drive xs ≡ false
    → xs ≡ c ∷ 58 ∷ cs
    → ¬ (((65 ≤ c) × (c ≤ 90)) ⊎ ((97 ≤ c) × (c ≤ 122)))
not_drive xs c cs h e letter =
    clash (is_letter-true c letter) (subst (λ x. has_drive x ≡ false) e h)
  where
    clash : is_letter c ≡ true → (is_letter c && true) ≡ false → ⊥
    clash t f = ground (arith, t, f)

pub is_valid_relative_path-IsBelow : (s : String) → is_valid_relative_path s ≡ true → IsBelow s
unfolding is_valid_relative_path
is_valid_relative_path-IsBelow s h =
    let (filled, whole, backslash, dotted, slash, drive, climb) =
      refused (is_empty (strip s)) (strip s == s) (any (eqb 92) (codes s)) (s == ".")
        (is_absolute (codes s)) (has_drive (codes s)) (dotdot_in_parts (codes s)) h in
    let kept = same (strip s) s whole in
    record {
      stripped = kept;
      filled = λ e. filled_lem (strip s) filled (kept ∙ e);
      not_dot = other dotted;
      start = λ cs. not_absolute (codes s) cs slash;
      no_drive = λ c cs e. not_drive (codes s) c cs drive e;
      no_backslash = any-false-All (codes s) backslash;
      no_climb = from_blank (segments (codes s)) (has_dotdot-ArePlainAfter blank (codes s) climb);
    }
  where
    same : (a b : String) → (a == b) ≡ true → a ≡ b
    same a b e = ground (arith, e, eq_iff a b)

    filled_lem : (a : String) → is_empty a ≡ false → a ≢ ""
    filled_lem a f e = cc (sym f ∙ ap is_empty e)

    other : (s == ".") ≡ false → s ≢ "."
    other f e = ground (arith, f, e, eq_iff s ".")
