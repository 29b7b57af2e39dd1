-- ===== src/Cleanup/Deletable.antt =====
-- What it takes for a staging file to be deleted, apart from the code that finds out: the conditions
-- that `_eligible_temp` of lifecycle_maintenance.py proves.
use data_quality_toolkit.Prelude.{
  ℕ, ◌+◌, ◌≤◌, ◌≡◌, refl, sym, ◌∙◌, ap, subst, String, Bool, true, false, not, ◌&&◌, Option, none,
  some, List, contains, ◌==◌, is_empty, Result, ok, err, arith, eq_iff, if◌then◌else◌,
}
use data_quality_toolkit.Cleanup.{OsError, Stat, System, Location, TempArtifactLocator}
use data_quality_toolkit.Cleanup.Names.{is_owned_temp_name}
use data_quality_toolkit.Cleanup.Eligible.{
  is_confined, abandoned_after_ns, is_abandoned, plain_file, lstat_regular, contained,
  contained_resolved_path, locator_at, eligible_file, eligible_temp,
}

module _ {F : Type 0} (system : System F) (fs : F) (location : Location) (now_ns : ℕ)
    (referenced : List String) where
  -- The path stays in the directory and under the root.
  abbrev pub StaysPut : String → String → Type 0
  StaysPut path resolved =
      (system.resolve fs path ≡ ok resolved)
      × (is_confined system resolved location.directory ≡ true)
      × (is_confined system resolved location.root ≡ true)
      × (system.normcase (system.parent resolved) ≡ system.normcase location.directory)

  -- The name is one of the application's, under it there is a plain file that is at least a day old,
  -- its path stays put, and no managed version refers to it.
  abbrev pub IsDeletable : String → String → Type 0
  IsDeletable name resolved =
      (is_owned_temp_name name ≡ true)
      × ((st : Stat) × (system.lstat fs (system.join location.directory name) ≡ ok st)
          × (st.is_regular ≡ true)
          × (st.is_reparse_point ≡ false)
          × (st.mtime_ns + abandoned_after_ns ≤ now_ns))
      × StaysPut (system.join location.directory name) resolved
      × (contains (system.normcase resolved) referenced ≡ false)

  plain_file_lem :
      (r : Result OsError Stat) (st : Stat)
      → plain_file system r ≡ some st
      → (r ≡ ok st) × (st.is_regular ≡ true) × (st.is_reparse_point ≡ false)
  plain_file_lem (err e) st h = cc
  plain_file_lem (ok s) st h = by_tests s.is_regular s.is_reparse_point refl refl h
    where
      by_tests :
          (a b : Bool)
          → s.is_regular ≡ a
          → s.is_reparse_point ≡ b
          → (if a && not b then some s else none) ≡ some st
          → (◌≡◌ {A = Result OsError Stat} (ok s) (ok st))
            × (st.is_regular ≡ true)
            × (st.is_reparse_point ≡ false)
      by_tests false b e g k = cc
      by_tests true true e g k = cc
      by_tests true false e g k = (
        ap ok same,
        ap (λ (s : Stat). s.is_regular) (sym same) ∙ e,
        ap (λ (s : Stat). s.is_reparse_point) (sym same) ∙ g,
      )
        where
          same : s ≡ st
          same = cc k

  contained_lem :
      (path : String) (r : Result OsError String) (resolved : String)
      → system.resolve fs path ≡ r
      → contained system location r ≡ resolved
      → is_empty resolved ≡ false
      → StaysPut path resolved
  contained_lem path (err e) resolved at h there = cc (ap is_empty h, there)
  contained_lem path (ok p) resolved at h there =
      by_tests (is_confined system p location.directory) (is_confined system p location.root)
        (system.normcase (system.parent p) == system.normcase location.directory) refl refl refl h
    where
      by_tests :
          (a b c : Bool)
          → is_confined system p location.directory ≡ a
          → is_confined system p location.root ≡ b
          → (system.normcase (system.parent p) == system.normcase location.directory) ≡ c
          → (if a && b then if c then p else "" else "") ≡ resolved
          → StaysPut path resolved
      by_tests true true true e g k same = subst (StaysPut path) same (
        at,
        e,
        g,
        ground (
          arith,
          k,
          eq_iff (system.normcase (system.parent p)) (system.normcase location.directory),
        ),
      )
      by_tests true true false e g k same = cc (ap is_empty same, there)
      by_tests true false c e g k same = cc (ap is_empty same, there)
      by_tests false b c e g k same = cc (ap is_empty same, there)

  eligible_file-IsDeletable :
      (name : String) (fresh : TempArtifactLocator) (o : Option Stat)
      → is_owned_temp_name name ≡ true
      → lstat_regular system fs (system.join location.directory name) ≡ o
      → eligible_file system fs location name now_ns referenced o ≡ some fresh
      → IsDeletable name fresh.resolved_path
  unfolding lstat_regular contained_resolved_path
  eligible_file-IsDeletable name fresh none own at h = cc
  eligible_file-IsDeletable name fresh (some st) own at h =
      by_tests (is_empty resolved) (contains (system.normcase resolved) referenced)
        (is_abandoned st now_ns) refl refl refl h
    where
      path : String
      path = system.join location.directory name

      resolved : String
      resolved = contained_resolved_path system fs location path

      by_tests :
          (a b c : Bool)
          → is_empty resolved ≡ a
          → contains (system.normcase resolved) referenced ≡ b
          → is_abandoned st now_ns ≡ c
          → (if a
              then none
              else if b
              then none
              else if c
              then some (locator_at system location name resolved st)
              else none)
            ≡ some fresh
          → IsDeletable name fresh.resolved_path
      by_tests true b c e g k same = cc
      by_tests false true c e g k same = cc
      by_tests false false false e g k same = cc
      by_tests false false true e g k same =
          let plain = plain_file_lem (system.lstat fs path) st at in
          subst (IsDeletable name) path_of (
            own,
            (st, plain.0, plain.1, plain.2, ground (arith, k)),
            contained_lem path (system.resolve fs path) resolved refl refl e,
            g,
          )
        where
          whole : locator_at system location name resolved st ≡ fresh
          whole = cc same

          path_of : resolved ≡ fresh.resolved_path
          path_of = ap (λ (l : TempArtifactLocator). l.resolved_path) whole

  pub eligible_temp-IsDeletable :
      (name : String) (fresh : TempArtifactLocator)
      → eligible_temp system fs location name now_ns referenced ≡ some fresh
      → IsDeletable name fresh.resolved_path
  unfolding eligible_temp
  eligible_temp-IsDeletable name fresh h = by_owner (is_owned_temp_name name) refl h
    where
      found : Option Stat
      found = lstat_regular system fs (system.join location.directory name)

      by_owner :
          (b : Bool)
          → is_owned_temp_name name ≡ b
          → (if b then eligible_file system fs location name now_ns referenced found else none)
            ≡ some fresh
          → IsDeletable name fresh.resolved_path
      by_owner true own e = eligible_file-IsDeletable name fresh found own refl e
      by_owner false own e = cc
