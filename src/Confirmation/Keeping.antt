-- ===== src/Confirmation/Keeping.antt =====
-- What the operations of dataset_confirmation.py on files leave as it was.
use data_quality_toolkit.Prelude.{
  ◌≡◌, refl, sym, ◌∙◌, ap, subst, String, Bool, true, false, Bool-cases, Option, none, some, inl,
  inr, List, [], ◌∷◌, All, arith, ◌==◌, eq_iff, eq_refl, Result, ok, err, if◌then◌else◌,
}
use data_quality_toolkit.Confirmation.{
  Bytes, Disk, OsError, Staging, written, not_created, cut_short, Storage,
}
use data_quality_toolkit.Confirmation.Disks.{
  set, unset, staged_as, write_temp, link_to, publish_exclusive, cleanup,
}

-- What stood on the disk still stands there as it was.
abbrev pub Keeps : Disk → Disk → Type 0
Keeps d e = (p : String) (b : Bytes) → d p ≡ some b → e p ≡ some b

pub Keeps-trans : (a b c : Disk) → Keeps a b → Keeps b c → Keeps a c
Keeps-trans a b c h k p x e = k p x (h p x e)

-- What is free now was free before.
pub Keeps-free : (d e : Disk) → Keeps d e → (p : String) → e p ≡ none → d p ≡ none
Keeps-free d e k p h = by_old (d p) refl
  where
    by_old : (o : Option Bytes) → d p ≡ o → d p ≡ none
    by_old none q = q
    by_old (some b) q = cc (k p b q, h)

pub set-Keeps :
    (path : String) (bytes : Bytes) (d : Disk) → d path ≡ none → Keeps d (set path bytes d)
set-Keeps path bytes d free p b h = by_path (p == path) refl
  where
    by_path : (t : Bool) → (p == path) ≡ t → (if t then some bytes else d p) ≡ some b
    by_path false q = h
    by_path true q = cc (ap d same, h, free)
      where
        same : p ≡ path
        same = ground (arith, q, eq_iff p path)

pub set_self : (path : String) (bytes : Bytes) (d : Disk) → set path bytes d path ≡ some bytes
set_self path bytes d = simp (eq_refl path)

-- A path that is taken is no path that is free.
pub taken-free :
    (d : Disk) (p t : String) (b : Bytes) → d p ≡ none → d t ≡ some b → (p == t) ≡ false
taken-free d p t b free taken = elim (Bool-cases (p == t)) [
  | inl e ↦ cc (ap d (same e), free, taken)
  | inr e ↦ e
]
  where
    same : (p == t) ≡ true → p ≡ t
    same e = ground (arith, e, eq_iff p t)

module _ (storage : Storage) where
  -- A clean-up touches the paths given.
  pub cleanup-elsewhere :
      (paths : List String) (d : Disk) (p : String)
      → All (λ t. (p == t) ≡ false) paths
      → cleanup storage paths d p ≡ d p
  unfolding cleanup
  cleanup-elsewhere [] d p h = refl
  cleanup-elsewhere (t ∷ ts) d p (h, hs) =
      cleanup-elsewhere ts (if storage.unlink_fails t then d else unset t d) p hs
      ∙ by_unlink (storage.unlink_fails t)
    where
      by_unlink : (b : Bool) → (if b then d else unset t d) p ≡ d p
      by_unlink true = refl
      by_unlink false = simp h

  -- Files at paths that were free before are all that a clean-up removes.
  pub cleanup-Keeps :
      (paths : List String) (d e : Disk)
      → All (λ t. d t ≡ none) paths
      → Keeps d e
      → Keeps d (cleanup storage paths e)
  cleanup-Keeps paths d e free k p b h = cleanup-elsewhere paths e p (others paths free) ∙ k p b h
    where
      differs : (t : String) → d t ≡ none → (p == t) ≡ false
      differs t f = elim (Bool-cases (p == t)) [ inl q ↦ cc (ap d (same q), f, h) | inr q ↦ q ]
        where
          same : (p == t) ≡ true → p ≡ t
          same q = ground (arith, q, eq_iff p t)

      others : (ts : List String) → All (λ t. d t ≡ none) ts → All (λ t. (p == t) ≡ false) ts
      others [] hs = tt
      others (t ∷ ts) (f, fs) = (differs t f, others ts fs)

  pub write_temp-Keeps :
      (final : String) (payload : Bytes) (d : Disk)
      → d (storage.temp_for final d) ≡ none
      → Keeps d (write_temp storage final payload d).1
  unfolding write_temp
  write_temp-Keeps final payload d fresh = by_staging (storage.staging final)
    where
      by_staging :
          (g : Staging) → Keeps d (staged_as storage g (storage.temp_for final d) payload d).1
      by_staging written = set-Keeps (storage.temp_for final d) payload d fresh
      by_staging not_created = λ p b h. h
      by_staging (cut_short part) = set-Keeps (storage.temp_for final d) part d fresh

  -- Staging touches the temporary path.
  pub write_temp-elsewhere :
      (final : String) (payload : Bytes) (d : Disk) (p : String)
      → (p == storage.temp_for final d) ≡ false
      → (write_temp storage final payload d).1 p ≡ d p
  unfolding write_temp
  write_temp-elsewhere final payload d p h = by_staging (storage.staging final)
    where
      by_staging :
          (g : Staging) → (staged_as storage g (storage.temp_for final d) payload d).1 p ≡ d p
      by_staging written = simp h
      by_staging not_created = refl
      by_staging (cut_short part) = simp h

  pub write_temp-some :
      (final : String) (payload : Bytes) (d : Disk) (t : String)
      → (write_temp storage final payload d).0 ≡ some t
      → (t ≡ storage.temp_for final d) × ((write_temp storage final payload d).1 t ≡ some payload)
  unfolding write_temp
  write_temp-some final payload d t h = by_staging (storage.staging final) h
    where
      by_staging :
          (g : Staging)
          → (staged_as storage g (storage.temp_for final d) payload d).0 ≡ some t
          → (t ≡ storage.temp_for final d)
            × ((staged_as storage g (storage.temp_for final d) payload d).1 t ≡ some payload)
      by_staging written e = (
        same e,
        subst (λ x. set (storage.temp_for final d) payload d x ≡ some payload) (sym (same e))
            (set_self (storage.temp_for final d) payload d),
      )
        where
          same : some (storage.temp_for final d) ≡ some t → t ≡ storage.temp_for final d
          same e = cc e
      by_staging not_created e = cc
      by_staging (cut_short part) e = cc

  -- What a publication that succeeded has done.
  pub publish_exclusive-ok :
      (tmp final : String) (d e : Disk) (payload : Bytes)
      → d tmp ≡ some payload
      → publish_exclusive storage tmp final d ≡ ok e
      → (d final ≡ none) × (e ≡ set final payload d)
  unfolding publish_exclusive
  publish_exclusive-ok tmp final d e payload h k = by_fault (storage.link_fault final) k
    where
      by_files :
          (o : Option Bytes)
          → d final ≡ o
          → link_to storage (some payload) o final d ≡ ok e
          → (d final ≡ none) × (e ≡ set final payload d)
      by_files none q g = (q, cc g)
      by_files (some other) q g = cc

      by_fault :
          (o : Option OsError)
          → ◌≡◌ {A = Result OsError Disk}
              (elim o [ some x ↦ err x | none ↦ link_to storage (d tmp) (d final) final d ])
              (ok e)
          → (d final ≡ none) × (e ≡ set final payload d)
      by_fault (some x) g = cc
      by_fault none g =
          by_files (d final) refl (subst (λ o. link_to storage o (d final) final d ≡ ok e) h g)
