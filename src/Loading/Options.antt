-- ===== src/Loading/Options.antt =====
-- The fingerprints of managed_frame_loader.py. `json.dumps` with the SHA-256 of its text is a
-- parameter, which fails for a value that JSON does not have.
use data_quality_toolkit.Prelude.{
  ℕ, String, Bool, false, ◌&&◌, ◌||◌, Option, none, some, List, [], ◌∷◌, codes, eqb, is_letter,
  Result, ok, err, ◌>>=◌, if◌then◌else◌,
}
use data_quality_toolkit.Loading.{LoadReason, option_not_canonical, OptionValue, text, value}

abbrev pub is_slash : ℕ → Bool
is_slash c = eqb c b'/' || eqb c 92

-- `_ABSOLUTE_PATH_LIKE.match` on the characters of a text.
abbrev pub absolute_path_like : List ℕ → Bool
absolute_path_like (a ∷ b ∷ c ∷ cs) = is_slash a || (is_letter a && eqb b b':' && is_slash c)
absolute_path_like (a ∷ cs) = is_slash a
absolute_path_like [] = false

-- The options of a call; `none` is the `None` of the source.
abbrev pub Options : Type 0 → Type 0
Options V = Option (List (String × OptionValue V))

abbrev pub dumped : Option String → Result LoadReason String
dumped none = err option_not_canonical
dumped (some fingerprint) = ok fingerprint

module _ {V : Type 0} where
  abbrev pub is_path_like : OptionValue V → Bool
  is_path_like (text s) = absolute_path_like (codes s)
  is_path_like (value v) = false

  -- The loop over the keys. They are sorted there, which changes neither whether a value is refused
  -- nor the digest, for which JSON sorts the keys again.
  unfoldable pub canonical_items :
      List (String × OptionValue V) → Result LoadReason (List (String × OptionValue V))
  canonical_items [] = ok []
  canonical_items ((k, v) ∷ options) =
      let rest = canonical_items options in
      if is_path_like v then err option_not_canonical else rest >>= λ items. ok ((k, v) ∷ items)

  unfoldable pub canonical_options : Options V → Result LoadReason (List (String × OptionValue V))
  unfolding canonical_items
  canonical_options none = ok []
  canonical_options (some options) = canonical_items options

  module _ (digest : String → List (String × OptionValue V) → Option String) where
    -- `_digest`: the test in `_canonical_options` that JSON has the values fails where this does.
    unfoldable pub fingerprint_of : String → Options V → Result LoadReason String
    unfolding canonical_options
    fingerprint_of contract options =
        canonical_options options >>= λ canonical. dumped (digest contract canonical)

    abbrev pub compute_parser_fingerprint : Options V → Result LoadReason String
    compute_parser_fingerprint = fingerprint_of "dqt-managed-parser/1"

    abbrev pub compute_assessment_fingerprint : Options V → Result LoadReason String
    compute_assessment_fingerprint = fingerprint_of "dqt-managed-assessment/1"
