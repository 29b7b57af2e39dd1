-- ===== src/Cleanup/Deletions.antt =====
-- The run of a cleanup of lifecycle_maintenance.py over the candidates of a scan: what it unlinks, and
-- which references its items name.
use data_quality_toolkit.Prelude.{
  ℕ, ◌≡◌, refl, subst, ◌⊎◌, inl, inr, String, Bool, true, false, not, ◌||◌, Option, none, some,
  List, [], ◌∷◌, ◌++◌, contains, any, ◌==◌, is_empty, arith, eq_iff, if◌then◌else◌,
}
use data_quality_toolkit.Cleanup.{
  OsError, not_found, permission_denied, other_error, skipped, System, Location,
  TempArtifactLocator, CleanupItemResult,
}
use data_quality_toolkit.Cleanup.Eligible.{eligible_temp}
use data_quality_toolkit.Cleanup.Deletable.{IsDeletable, eligible_temp-IsDeletable}
use data_quality_toolkit.Cleanup.Requests.{
  unknown_items, known_references, compare_locators, revalidate, delete_unless, delete_one,
  delete_chosen, cons_item, after_unlink, temp_label, item,
}

-- The items name the reference.
abbrev pub reported : String → List CleanupItemResult → Bool
reported r items = any (λ i. r == i.reference) items

pub reported-append :
    (r : String) (xs ys : List CleanupItemResult)
    → reported r (xs ++ ys) ≡ (reported r xs || reported r ys)
reported-append r [] ys = refl
reported-append r (x ∷ xs) ys = ground (arith, reported-append r xs ys)

pub reported-unknown :
    (r : String) (known selected : List String)
    → contains r selected ≡ true
    → contains r known ≡ false
    → reported r (unknown_items known selected) ≡ true
unfolding unknown_items
reported-unknown r known [] h k = cc
reported-unknown r known (s ∷ ss) h k = ground (arith, eq_iff r s, reported-unknown r known ss)

module _ {F : Type 0} (system : System F) (location : Location) (now_ns : ℕ)
    (referenced : List String) where
  -- The run from one state of the file system to another, over the candidates in the order of the
  -- scan. A candidate is passed over, or its path is unlinked: then it was chosen, and in the state
  -- before the deletion its name may be deleted and stands for that path.
  pub data Deletions : List String → List TempArtifactLocator → F → F → Type 0 where
    finished : (chosen : List String) (fs : F) → Deletions chosen [] fs fs
    passed_over :
        {chosen : List String} (l : TempArtifactLocator) {ls : List TempArtifactLocator}
        {fs fs' : F}
        → Deletions chosen ls fs fs'
        → Deletions chosen (l ∷ ls) fs fs'
    unlinked :
        {chosen : List String} (l : TempArtifactLocator) (resolved : String)
        {ls : List TempArtifactLocator} {fs fs' : F}
        → contains l.reference chosen ≡ true
        → IsDeletable system fs location now_ns referenced l.basename resolved
        → system.normcase resolved ≡ system.normcase l.resolved_path
        → Deletions chosen ls (system.unlink fs l.resolved_path).1 fs'
        → Deletions chosen (l ∷ ls) fs fs'

  compare_locators_lem :
      (l : TempArtifactLocator) (o : Option TempArtifactLocator)
      → is_empty (compare_locators system l o) ≡ true
      → (fresh : TempArtifactLocator) × (o ≡ some fresh)
        × (fresh.reference ≡ l.reference)
        × (system.normcase fresh.resolved_path ≡ system.normcase l.resolved_path)
  compare_locators_lem l none h = cc
  compare_locators_lem l (some fresh) h =
      by_tests (fresh.reference == l.reference)
        (system.normcase fresh.resolved_path == system.normcase l.resolved_path) refl refl h
    where
      by_tests :
          (a b : Bool)
          → (fresh.reference == l.reference) ≡ a
          → (system.normcase fresh.resolved_path == system.normcase l.resolved_path) ≡ b
          → is_empty (if not a then "REFERENCE_MISMATCH" else if not b then "PATH_CHANGED" else "")
            ≡ true
          → (f : TempArtifactLocator) × (some fresh ≡ some f)
            × (f.reference ≡ l.reference)
            × (system.normcase f.resolved_path ≡ system.normcase l.resolved_path)
      by_tests false b e g k = cc
      by_tests true false e g k = cc
      by_tests true true e g k = (
        fresh,
        refl,
        ground (arith, e, eq_iff fresh.reference l.reference),
        ground (
          arith,
          g,
          eq_iff (system.normcase fresh.resolved_path) (system.normcase l.resolved_path),
        ),
      )

  after_unlink_lem :
      (reference label : String) (o : Option OsError × F)
      → ((after_unlink reference label o).0.reference ≡ reference)
        × ((after_unlink reference label o).1 ≡ o.1)
  after_unlink_lem reference label (none, fs) = (refl, refl)
  after_unlink_lem reference label (some not_found, fs) = (refl, refl)
  after_unlink_lem reference label (some permission_denied, fs) = (refl, refl)
  after_unlink_lem reference label (some other_error, fs) = (refl, refl)

  -- An item names its candidate, and the file system is as before or after the unlinking.
  abbrev Tried : TempArtifactLocator → F → String → CleanupItemResult × F → Type 0
  Tried l fs reason one =
      (one.0.reference ≡ l.reference)
      × ((one.1 ≡ fs) ⊎ ((one.1 ≡ (system.unlink fs l.resolved_path).1) × (is_empty reason ≡ true)))

  delete_unless-Tried :
      (l : TempArtifactLocator) (fs : F) (reason : String)
      → Tried l fs reason (delete_unless system reason l fs)
  delete_unless-Tried l fs reason = by_reason (is_empty reason) refl
    where
      by_reason :
          (b : Bool)
          → is_empty reason ≡ b
          → Tried l fs reason (
              if b
              then after_unlink l.reference
                  (temp_label l.basename)
                  (system.unlink fs l.resolved_path)
              else (item l.reference (temp_label l.basename) skipped reason, fs))
      by_reason true h =
          let k =
            after_unlink_lem l.reference (temp_label l.basename)
              (system.unlink fs l.resolved_path) in
          (k.0, inr (k.1, h))
      by_reason false h = (refl, inl refl)

  delete_one-Tried :
      (l : TempArtifactLocator) (fs : F)
      → Tried l fs
          (revalidate system fs location l now_ns referenced)
          (delete_one system location now_ns referenced l fs)
  unfolding delete_one
  delete_one-Tried l fs =
      delete_unless-Tried l fs (revalidate system fs location l now_ns referenced)

  revalidate_lem :
      (l : TempArtifactLocator) (fs : F)
      → is_empty (revalidate system fs location l now_ns referenced) ≡ true
      → (fresh : TempArtifactLocator) × (eligible_temp system fs location l.basename now_ns
            referenced
          ≡ some fresh)
        × (fresh.reference ≡ l.reference)
        × (system.normcase fresh.resolved_path ≡ system.normcase l.resolved_path)
  unfolding revalidate
  revalidate_lem l fs h =
      compare_locators_lem l (eligible_temp system fs location l.basename now_ns referenced) h

  -- One round of the loop.
  round :
      (chosen : List String) (l : TempArtifactLocator) (ls : List TempArtifactLocator) (fs : F)
      (b : Bool) (one : CleanupItemResult × F) (more skip : List CleanupItemResult × F)
      → contains l.reference chosen ≡ b
      → Tried l fs (revalidate system fs location l now_ns referenced) one
      → Deletions chosen ls one.1 more.1
      → Deletions chosen ls fs skip.1
      → Deletions chosen (l ∷ ls) fs (if b then cons_item system one.0 more else skip).1
  round chosen l ls fs false one more skip c tried go pass = passed_over l pass
  round chosen l ls fs true one more skip c (name, inl same) go pass =
      passed_over l (subst (λ x. Deletions chosen ls x more.1) same go)
  round chosen l ls fs true one more skip c (name, inr (same, safe)) go pass =
      let k = revalidate_lem l fs safe in
      unlinked l k.0.resolved_path c
        (eligible_temp-IsDeletable system fs location now_ns referenced l.basename k.0 k.1) k.3
        (subst (λ x. Deletions chosen ls x more.1) same go)

  pub delete_chosen-Deletions :
      (chosen : List String) (ls : List TempArtifactLocator) (fs : F)
      → Deletions chosen ls fs (delete_chosen system location now_ns referenced chosen ls fs).1
  unfolding delete_chosen
  delete_chosen-Deletions chosen [] fs = finished chosen fs
  delete_chosen-Deletions chosen (l ∷ ls) fs =
      let one = delete_one system location now_ns referenced l fs in
      round chosen l ls fs (contains l.reference chosen) one
        (delete_chosen system location now_ns referenced chosen ls one.1)
        (delete_chosen system location now_ns referenced chosen ls fs) refl (delete_one-Tried l fs)
        (delete_chosen-Deletions chosen ls one.1) (delete_chosen-Deletions chosen ls fs)

  -- The round names its candidate.
  round-reported :
      (r reference : String) (b : Bool) (one : CleanupItemResult × F)
      (more skip : List CleanupItemResult × F) (known : List String)
      → one.0.reference ≡ reference
      → (contains r known ≡ true → reported r more.0 ≡ true)
      → (contains r known ≡ true → reported r skip.0 ≡ true)
      → contains r (if b then reference ∷ known else known) ≡ true
      → reported r (if b then cons_item system one.0 more else skip).0 ≡ true
  round-reported r reference false one more skip known name go pass h = pass h
  round-reported r reference true one more skip known name go pass h =
      ground (arith, name, eq_iff r reference, eq_iff r one.0.reference, go, h)

  pub reported-chosen :
      (r : String) (chosen : List String) (ls : List TempArtifactLocator) (fs : F)
      → contains r (known_references chosen ls) ≡ true
      → reported r (delete_chosen system location now_ns referenced chosen ls fs).0 ≡ true
  unfolding delete_chosen known_references
  reported-chosen r chosen [] fs h = cc
  reported-chosen r chosen (l ∷ ls) fs h =
      let one = delete_one system location now_ns referenced l fs in
      round-reported r l.reference (contains l.reference chosen) one
        (delete_chosen system location now_ns referenced chosen ls one.1)
        (delete_chosen system location now_ns referenced chosen ls fs) (known_references chosen ls)
        (delete_one-Tried l fs).0 (reported-chosen r chosen ls one.1)
        (reported-chosen r chosen ls fs) h
