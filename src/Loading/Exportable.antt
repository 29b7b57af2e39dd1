-- ===== src/Loading/Exportable.antt =====
-- Which trust roots managed_export_gateway.py makes a source of: the tests of the gateway and of
-- `__post_init__`, written out.
use data_quality_toolkit.Prelude.{
  ℕ, ◌*◌, ◌≤◌, ◌≡◌, ◌≢◌, ◌↔◌, ap, inl, inr, Bool-cases, refl, String, Bool, true, false, ◌||◌, List,
  [], ◌∷◌, codes, any, All, eqb, ltb, arith,
}
use data_quality_toolkit.Versions.Identity.{is_absolute}
use data_quality_toolkit.Session.{ℤ, pos, negsuc, is_negative, ManagedTrustRoot}
use data_quality_toolkit.Session.Trust.{has}
use data_quality_toolkit.Loading.Source.{exceeds_full}
use data_quality_toolkit.Loading.Gateway.{provenance_of}
use data_quality_toolkit.Loading.Minting.{IsFilled, IsProvenance}

-- The character is not in the text.
abbrev pub Avoids : ℕ → String → Type 0
Avoids c s = All (λ x. x ≢ c) (codes s)

-- A size from 0 to 128 MiB.
abbrev pub FitsFull : ℤ → Type 0
FitsFull size = (n : ℕ) × (size ≡ pos n) × (n ≤ 128 * (1024 * 1024))

-- The root of a file that may be exported: not in large-file mode and of at most 128 MiB, the ids of
-- the version, the label, the name and the paths not blank, the display name without slash, backslash
-- and colon, and the relative path without backslash and colon and not from the root of the file
-- system.
pub record IsExportable (root : ManagedTrustRoot) : Type 0 where
  pub full_mode : root.large_file_mode ≡ false
  pub size : FitsFull root.size_bytes
  pub version_filled : IsFilled root.version_id
  pub family_filled : IsFilled root.family_id
  pub content_filled : IsFilled root.content_id
  pub root_content_filled : IsFilled root.root_content_id
  pub label_filled : IsFilled root.version_label
  pub name_filled : IsFilled root.locator.display_name
  pub relative_filled : IsFilled root.locator.relative_posix
  pub path_filled : IsFilled root.locator.absolute_path
  pub name_slash : Avoids b'/' root.locator.display_name
  pub name_backslash : Avoids 92 root.locator.display_name
  pub name_colon : Avoids b':' root.locator.display_name
  pub relative_backslash : Avoids 92 root.locator.relative_posix
  pub relative_colon : Avoids b':' root.locator.relative_posix
  pub relative_start : (cs : List ℕ) → codes root.locator.relative_posix ≢ (b'/' ∷ cs)

three_false : (a b c : Bool) → ((a || b || c) ≡ false) ↔ ((a ≡ false) × (b ≡ false) × (c ≡ false))
three_false true true c = (λ h. cc, λ h. cc)
three_false true false c = (λ h. cc, λ h. cc)
three_false false true c = (λ h. cc, λ h. cc)
three_false false false c = (λ h. (refl, refl, h), λ h. h.2)

eqb-false : (c x : ℕ) → (eqb c x ≡ false) ↔ (x ≢ c)
eqb-false c x = (λ h e. ground (arith, h, e), λ h. ground (arith, h))

pub any-eqb : (c : ℕ) (xs : List ℕ) → (any (eqb c) xs ≡ false) ↔ All (λ x. x ≢ c) xs
any-eqb c [] = (λ h. tt, λ h. refl)
any-eqb c (x ∷ xs) = (
  λ h.
      let (here, there, end) = (three_false (eqb c x) (any (eqb c) xs) false).0 (simp h) in
      ((eqb-false c x).0 here, (any-eqb c xs).0 there),
  λ h. simp ((eqb-false c x).1 h.0, (any-eqb c xs).1 h.1),
)

is_absolute-false : (xs : List ℕ) → (is_absolute xs ≡ false) ↔ ((cs : List ℕ) → xs ≢ (b'/' ∷ cs))
is_absolute-false [] = (λ h cs e. cc, λ h. refl)
is_absolute-false (x ∷ xs) = (
  λ h cs e. cc,
  λ h. elim (Bool-cases (eqb x b'/')) [
    | inl t ↦ absurd (h xs (ap (λ y. y ∷ xs) (same t)))
    | inr f ↦ f
  ],
)
  where
    same : eqb x b'/' ≡ true → x ≡ b'/'
    same t = ground (arith, t)

pub full_size_fits :
    (size : ℤ) → ((is_negative size ≡ false) × (exceeds_full size ≡ false)) ↔ FitsFull size
full_size_fits (pos n) = (λ h. (n, refl, ground (arith, h.1)), λ h. (refl, fits h))
  where
    fits : FitsFull (pos n) → ltb 134217728 n ≡ false
    fits (m, e, le) = ground (arith, le, same e)
      where
        same : {a b : ℕ} → pos a ≡ pos b → a ≡ b
        same e = cc e
full_size_fits (negsuc n) = (λ h. cc, λ h. cc)

pub checked-IsExportable :
    (root : ManagedTrustRoot)
    → root.large_file_mode ≡ false
    → exceeds_full root.size_bytes ≡ false
    → IsProvenance (provenance_of root)
    → IsExportable root
checked-IsExportable root small fits p =
    let (no_slash, no_backslash, no_colon) =
      (three_false (has b'/' name) (has 92 name) (has b':' name)).0 p.name_bare in
    let (backslash, colon, start) =
      (three_false (has 92 relative) (has b':' relative) (is_absolute (codes relative))).0
        p.relative_posix in
    record {
      full_mode = small;
      size = (full_size_fits root.size_bytes).0 (p.size_whole, fits);
      version_filled = p.version_filled;
      family_filled = p.family_filled;
      content_filled = p.content_filled;
      root_content_filled = p.root_content_filled;
      label_filled = p.label_filled;
      name_filled = p.name_filled;
      relative_filled = p.relative_filled;
      path_filled = p.path_filled;
      name_slash = (any-eqb b'/' (codes name)).0 no_slash;
      name_backslash = (any-eqb 92 (codes name)).0 no_backslash;
      name_colon = (any-eqb b':' (codes name)).0 no_colon;
      relative_backslash = (any-eqb 92 (codes relative)).0 backslash;
      relative_colon = (any-eqb b':' (codes relative)).0 colon;
      relative_start = (is_absolute-false (codes relative)).0 start;
    }
  where
    name : String
    name = root.locator.display_name

    relative : String
    relative = root.locator.relative_posix

pub IsExportable-IsProvenance :
    (root : ManagedTrustRoot) → IsExportable root → IsProvenance (provenance_of root)
IsExportable-IsProvenance root x = record {
  version_filled = x.version_filled;
  family_filled = x.family_filled;
  content_filled = x.content_filled;
  root_content_filled = x.root_content_filled;
  label_filled = x.label_filled;
  name_filled = x.name_filled;
  relative_filled = x.relative_filled;
  path_filled = x.path_filled;
  name_bare = (three_false _ _ _).1 (
    (any-eqb b'/' _).1 x.name_slash,
    (any-eqb 92 _).1 x.name_backslash,
    (any-eqb b':' _).1 x.name_colon,
  );
  relative_posix = (three_false _ _ _).1 (
    (any-eqb 92 _).1 x.relative_backslash,
    (any-eqb b':' _).1 x.relative_colon,
    (is_absolute-false _).1 x.relative_start,
  );
  size_whole = ((full_size_fits root.size_bytes).1 x.size).0;
  full_fits = simp (x.full_mode, ((full_size_fits root.size_bytes).1 x.size).1);
}
