-- ===== src/Versions/Shapes.antt =====
-- The texts that the identity tests of dataset_versions.py let pass, written out.
use data_quality_toolkit.Prelude.{
  ℕ, zero, suc, ◌≤◌, ◌≡◌, refl, sym, ◌∙◌, ap, subst, ◌⊎◌, inl, inr, String, Bool, true, false, ◌&&◌,
  List, [], ◌∷◌, ◌++◌, length, All, codes, eqb, leb, Pattern, matches, matches_dollar, is_hex,
  repeated, literal, arith, Bool-cases,
}
use data_quality_toolkit.Versions.Identity.{is_uuid, is_sha256, is_sha1}

-- `0` to `9` and `a` to `f`.
abbrev pub IsHexDigit : ℕ → Type 0
IsHexDigit c = ((48 ≤ c) × (c ≤ 57)) ⊎ ((97 ≤ c) × (c ≤ 102))

-- So many hexadecimal digits.
abbrev pub AreHexDigits : ℕ → List ℕ → Type 0
AreHexDigits n cs = (length cs ≡ n) × All IsHexDigit cs

-- A prefix, so many hexadecimal digits, and at the end nothing or a newline.
abbrev pub IsDigest : String → ℕ → String → Type 0
IsDigest prefix n s =
    (hex end : List ℕ) × (codes s ≡ codes prefix ++ (hex ++ end))
    × AreHexDigits n hex
    × ((end ≡ []) ⊎ (end ≡ 10 ∷ []))

-- Groups of 8, 4, 4, 4 and 12 hexadecimal digits with dashes between, and nothing else.
abbrev pub IsUuidText : String → Type 0
IsUuidText s =
    (a b c d e : List ℕ) × (codes s ≡ a ++ 45 ∷ (b ++ 45 ∷ (c ++ 45 ∷ (d ++ 45 ∷ e))))
    × AreHexDigits 8 a
    × AreHexDigits 4 b
    × AreHexDigits 4 c
    × AreHexDigits 4 d
    × AreHexDigits 12 e

both : (a b : Bool) → (a && b) ≡ true → (a ≡ true) × (b ≡ true)
both true b h = (refl, h)
both false b h = cc

is_hex-IsHexDigit : (c : ℕ) → is_hex c ≡ true → IsHexDigit c
is_hex-IsHexDigit c h = elim (Bool-cases (leb b'0' c && leb c b'9')) [
  | inl t ↦ inl (ground (arith, t), ground (arith, t))
  | inr f ↦ inr (ground (arith, f, h), ground (arith, f, h))
]

same_code : (a b : ℕ) → eqb a b ≡ true → b ≡ a
same_code a b h = ground (arith, h)

module _ (fits : Pattern → List ℕ → Bool)
    (empty : (t : ℕ → Bool) (p : Pattern) → fits (t ∷ p) [] ≡ false)
    (more : (t : ℕ → Bool) (p : Pattern) (c : ℕ) (cs : List ℕ)
      → fits (t ∷ p) (c ∷ cs) ≡ (t c && fits p cs)) where
  hex_first :
      (n : ℕ) (p : Pattern) (cs : List ℕ)
      → fits (repeated n is_hex ++ p) cs ≡ true
      → (hex rest : List ℕ) × (cs ≡ hex ++ rest) × AreHexDigits n hex × (fits p rest ≡ true)
  hex_first zero p cs h = ([], cs, refl, (refl, tt), h)
  hex_first (suc n) p [] h = cc (sym (empty is_hex (repeated n is_hex ++ p)) ∙ h)
  hex_first (suc n) p (c ∷ cs) h =
      let (digit, h1) =
        both (is_hex c) (fits (repeated n is_hex ++ p) cs)
          (sym (more is_hex (repeated n is_hex ++ p) c cs) ∙ h) in
      let (hex, rest, e, (len, all), g) = hex_first n p cs h1 in
      (c ∷ hex, rest, ap (◌∷◌ c) e, (ap suc len, (is_hex-IsHexDigit c digit, all)), g)

  literal_first :
      (l : List ℕ) (p : Pattern) (cs : List ℕ)
      → fits (literal l ++ p) cs ≡ true
      → (rest : List ℕ) × (cs ≡ l ++ rest) × (fits p rest ≡ true)
  literal_first [] p cs h = (cs, refl, h)
  literal_first (x ∷ l) p [] h = cc (sym (empty (eqb x) (literal l ++ p)) ∙ h)
  literal_first (x ∷ l) p (c ∷ cs) h =
      let (same, h1) =
        both (eqb x c) (fits (literal l ++ p) cs) (sym (more (eqb x) (literal l ++ p) c cs) ∙ h) in
      let (rest, e, g) = literal_first l p cs h1 in (rest, (λ i. same_code x c same i ∷ e i), g)

no_match : (t : ℕ → Bool) (p : Pattern) → matches (t ∷ p) [] ≡ false
unfolding matches
no_match t p = refl

next_match :
    (t : ℕ → Bool) (p : Pattern) (c : ℕ) (cs : List ℕ)
    → matches (t ∷ p) (c ∷ cs) ≡ (t c && matches p cs)
unfolding matches
next_match t p c cs = refl

no_dollar : (t : ℕ → Bool) (p : Pattern) → matches_dollar (t ∷ p) [] ≡ false
unfolding matches_dollar
no_dollar t p = refl

next_dollar :
    (t : ℕ → Bool) (p : Pattern) (c : ℕ) (cs : List ℕ)
    → matches_dollar (t ∷ p) (c ∷ cs) ≡ (t c && matches_dollar p cs)
unfolding matches_dollar
next_dollar t p c cs = refl

at_end : (cs : List ℕ) → matches_dollar [] cs ≡ true → (cs ≡ []) ⊎ (cs ≡ 10 ∷ [])
unfolding matches_dollar
at_end [] h = inl refl
at_end (c ∷ []) h = inr (ap (λ x. x ∷ []) (ground (arith, h)))
at_end (c ∷ d ∷ cs) h = cc

nothing_left : (cs : List ℕ) → matches [] cs ≡ true → cs ≡ []
unfolding matches
nothing_left [] h = refl
nothing_left (c ∷ cs) h = cc

pattern-IsDigest :
    (prefix : String) (n : ℕ) (s : String)
    → matches_dollar (literal (codes prefix) ++ (repeated n is_hex ++ [])) (codes s) ≡ true
    → IsDigest prefix n s
pattern-IsDigest prefix n s h =
    let (rest, e, h1) =
      literal_first matches_dollar no_dollar next_dollar (codes prefix) (repeated n is_hex ++ [])
        (codes s) h in
    let (hex, end, f, digits, h2) = hex_first matches_dollar no_dollar next_dollar n [] rest h1 in
    (hex, end, e ∙ ap (λ cs. codes prefix ++ cs) f, digits, at_end end h2)

append_nil : {A : Type 0} (xs : List A) → xs ++ [] ≡ xs
append_nil [] = refl
append_nil (x ∷ xs) = ap (◌∷◌ x) (append_nil xs)

pub is_sha256-IsDigest : (s : String) → is_sha256 s ≡ true → IsDigest "sha256:" 64 s
unfolding is_sha256
is_sha256-IsDigest s h = pattern-IsDigest "sha256:" 64 s h

pub is_sha1-IsDigest : (s : String) → is_sha1 s ≡ true → IsDigest "sha1:" 40 s
unfolding is_sha1
is_sha1-IsDigest s h = pattern-IsDigest "sha1:" 40 s h

-- A group, and the dash after it.
group :
    (n : ℕ) (p : Pattern) (cs : List ℕ)
    → matches (repeated n is_hex ++ (eqb 45 ∷ p)) cs ≡ true
    → (hex rest : List ℕ) × (cs ≡ hex ++ 45 ∷ rest) × AreHexDigits n hex × (matches p rest ≡ true)
group n p cs h =
    let (hex, tail, e, digits, h1) = hex_first matches no_match next_match n (eqb 45 ∷ p) cs h in
    let (rest, f, h2) = literal_first matches no_match next_match (45 ∷ []) p tail h1 in
    (hex, rest, e ∙ ap (λ x. hex ++ x) f, digits, h2)

pub is_uuid-IsUuidText : (s : String) → is_uuid s ≡ true → IsUuidText s
unfolding is_uuid
is_uuid-IsUuidText s h =
    let (a, r1, e1, d1, h1) = group 8 from_second (codes s) h in
    let (b, r2, e2, d2, h2) = group 4 from_third r1 h1 in
    let (c, r3, e3, d3, h3) = group 4 from_fourth r2 h2 in
    let (d, r4, e4, d4, h4) = group 4 (repeated 12 is_hex) r3 h3 in
    let (e, r5, e5, d5, h5) =
      hex_first matches no_match next_match 12 [] r4 (subst (λ p. matches p r4 ≡ true) fifth h4) in
    (
      a,
      b,
      c,
      d,
      e,
      e1
          ∙ ap (λ x. a ++ 45 ∷ x)
              (e2
                ∙ ap (λ x. b ++ 45 ∷ x)
                    (e3
                      ∙ ap (λ x. c ++ 45 ∷ x)
                          (e4
                            ∙ ap (λ x. d ++ 45 ∷ x)
                                (e5 ∙ (ap (λ x. e ++ x) (nothing_left r5 h5) ∙ append_nil e))))),
      d1,
      d2,
      d3,
      d4,
      d5,
    )
  where
    from_fourth : Pattern
    from_fourth = repeated 4 is_hex ++ (eqb 45 ∷ repeated 12 is_hex)

    from_third : Pattern
    from_third = repeated 4 is_hex ++ (eqb 45 ∷ from_fourth)

    from_second : Pattern
    from_second = repeated 4 is_hex ++ (eqb 45 ∷ from_third)

    fifth : repeated 12 is_hex ≡ (repeated 12 is_hex ++ [])
    fifth = refl
