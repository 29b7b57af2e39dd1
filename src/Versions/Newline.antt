-- ===== src/Versions/Newline.antt =====
-- The `$` of the identity patterns lets a newline pass at the end.
use data_quality_toolkit.Prelude.{
  String, ◌≡◌, refl, true, List, [], ◌∷◌, ◌++◌, codes, Pattern, matches, matches_dollar, arith, ℕ,
}
use data_quality_toolkit.Versions.Identity.{sha256_pattern, is_sha256}

dollar_exact : (p : Pattern) (cs : List ℕ) → matches p cs ≡ true → matches_dollar p cs ≡ true
unfolding matches matches_dollar
dollar_exact [] [] h = refl
dollar_exact [] (c ∷ cs) h = cc
dollar_exact (t ∷ ts) [] h = cc
dollar_exact (t ∷ ts) (c ∷ cs) h = ground (arith, dollar_exact ts cs)

dollar_newline :
    (p : Pattern) (cs : List ℕ) → matches p cs ≡ true → matches_dollar p (cs ++ 10 ∷ []) ≡ true
unfolding matches matches_dollar
dollar_newline [] [] h = refl
dollar_newline [] (c ∷ cs) h = cc
dollar_newline (t ∷ ts) [] h = cc
dollar_newline (t ∷ ts) (c ∷ cs) h = ground (arith, dollar_newline ts cs)

-- Where a text is `sha256:` and 64 hexadecimal digits, `_is_sha256` accepts it, and also the
-- different text `t` that has a newline after it.
pub is_sha256_newline :
    (s t : String)
    → matches sha256_pattern (codes s) ≡ true
    → codes t ≡ codes s ++ 10 ∷ []
    → (is_sha256 s ≡ true) × (is_sha256 t ≡ true)
unfolding is_sha256
is_sha256_newline s t h e =
    (dollar_exact sha256_pattern (codes s) h, rw e (dollar_newline sha256_pattern (codes s) h))
