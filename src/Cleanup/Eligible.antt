-- ===== src/Cleanup/Eligible.antt =====
-- The location of the lifecycle directory and the conditions under which a file may be deleted.
use data_quality_toolkit.Prelude.{
  ℕ, ◌+◌, ◌*◌, String, Bool, true, false, not, ◌&&◌, ◌||◌, Option, none, some, List, [], ◌∷◌,
  contains, ◌==◌, strip, is_empty, eqb, leb, Result, ok, err, ◌>>=◌, ◌>>◌, if◌then◌else◌,
}
use data_quality_toolkit.Cleanup.{
  OsError, not_found, permission_denied, other_error, Stat, System, Location, TempArtifactLocator,
  Discovered, VersionPaths,
}
use data_quality_toolkit.Cleanup.Names.{is_owned_temp_name}

abbrev pub abandoned_after_ns : ℕ
abandoned_after_ns = 86400 * 1000000000

-- `_ROOT_ERRORS` and `_LOCATION_ERRORS`, with the fallback.
abbrev pub classify_root : {A : Type 0} → Result OsError A → Result String A
classify_root (ok a) = ok a
classify_root (err not_found) = err "ROOT_MISSING"
classify_root (err permission_denied) = err "ROOT_PERMISSION_DENIED"
classify_root (err other_error) = err "ROOT_UNRESOLVABLE"

abbrev pub classify_location : {A : Type 0} → String → Result OsError A → Result String A
classify_location fallback (ok a) = ok a
classify_location fallback (err not_found) = err "LOCATION_ABSENT"
classify_location fallback (err permission_denied) = err "LOCATION_PERMISSION_DENIED"
classify_location fallback (err other_error) = err fallback

abbrev pub unless : Bool → String → Result String (Unit {0})
unless true code = ok tt
unless false code = err code

-- `_is_abandoned`: `now_ns - mtime_ns >= _ABANDONED_AFTER_NS`
abbrev pub is_abandoned : Stat → ℕ → Bool
is_abandoned st now_ns = leb (st.mtime_ns + abandoned_after_ns) now_ns

module _ {F : Type 0} (system : System F) where
  abbrev pub common_is : Option String → String → Bool
  common_is none root = false
  common_is (some c) root = c == root

  unfoldable pub is_confined : String → String → Bool
  is_confined target root =
      common_is (system.commonpath (system.normcase target) (system.normcase root))
        (system.normcase root)

  unfoldable pub resolve_root : F → String → Result String String
  unfolding strip
  resolve_root fs workspace_root = do
    unless (not (is_empty (strip workspace_root))) "ROOT_BLANK"
    classify_root (system.resolve_user fs (strip workspace_root))

  unfoldable pub resolve_directory : F → String → Result String String
  unfolding is_confined
  resolve_directory fs root = do
    classify_location "LOCATION_UNRESOLVABLE" (system.lstat fs (system.join root "preprocessed"))
    resolved ←
        classify_location "LOCATION_UNRESOLVABLE"
          (system.resolve fs (system.join root "preprocessed"))
    unless (is_confined resolved root) "LOCATION_OUTSIDE_ROOT"
    ok resolved

  unfoldable pub resolve_location : F → String → Result String Location
  unfolding resolve_root resolve_directory
  resolve_location fs workspace_root = do
    root ← resolve_root fs workspace_root
    directory ← resolve_directory fs root
    st ← classify_location "LOCATION_UNREADABLE" (system.stat fs directory)
    unless st.is_directory "LOCATION_NOT_A_DIRECTORY"
    unless (not (eqb st.dev 0 || eqb st.ino 0)) "LOCATION_IDENTITY_UNAVAILABLE"
    ok (record { root = root; directory = directory; dev = st.dev; ino = st.ino })

  abbrev pub same_location : Result String Location → Location → Bool
  same_location (err code) location = false
  same_location (ok fresh) location =
      (system.normcase fresh.directory == system.normcase location.directory)
      && eqb fresh.dev location.dev
      && eqb fresh.ino location.ino

  unfoldable pub location_unchanged : F → Location → Bool
  unfolding resolve_location
  location_unchanged fs location = same_location (resolve_location fs location.root) location

  abbrev pub plain_file : Result OsError Stat → Option Stat
  plain_file (err e) = none
  plain_file (ok st) = if st.is_regular && not st.is_reparse_point then some st else none

  unfoldable pub lstat_regular : F → String → Option Stat
  lstat_regular fs path = plain_file (system.lstat fs path)

  abbrev pub contained : Location → Result OsError String → String
  contained location (err e) = ""
  contained location (ok resolved) =
      if is_confined resolved location.directory && is_confined resolved location.root
      then if system.normcase (system.parent resolved) == system.normcase location.directory
        then resolved
        else ""
      else ""

  unfoldable pub contained_resolved_path : F → Location → String → String
  unfolding is_confined
  contained_resolved_path fs location path = contained location (system.resolve fs path)

  abbrev pub temp_reference : String → String
  temp_reference basename = system.digest basename

  abbrev pub locator_at : Location → String → String → Stat → TempArtifactLocator
  locator_at location name resolved st = record {
    reference = temp_reference name;
    basename = name;
    resolved_path = resolved;
    parent_dev = location.dev;
    parent_ino = location.ino;
    mtime_ns = st.mtime_ns;
  }

  -- The conditions on a plain file, and the locator.
  abbrev pub eligible_file :
      F → Location → String → ℕ → List String → Option Stat → Option TempArtifactLocator
  eligible_file fs location name now_ns referenced none = none
  eligible_file fs location name now_ns referenced (some st) =
      let resolved = contained_resolved_path fs location (system.join location.directory name) in
      if is_empty resolved
      then none
      else if contains (system.normcase resolved) referenced
      then none
      else if is_abandoned st now_ns
      then some (locator_at location name resolved st)
      else none

  unfoldable pub eligible_temp :
      F → Location → String → ℕ → List String → Option TempArtifactLocator
  unfolding lstat_regular contained_resolved_path
  eligible_temp fs location name now_ns referenced =
      if is_owned_temp_name name
      then eligible_file fs location name now_ns referenced
          (lstat_regular fs (system.join location.directory name))
      else none

  abbrev pub with_path : String → List String → List String
  with_path value rest = if is_empty value then rest else system.normcase value ∷ rest

  abbrev pub with_optional : Option String → List String → List String
  with_optional none rest = rest
  with_optional (some value) rest = with_path value rest

  unfoldable pub version_paths : List VersionPaths → List String → List String
  version_paths [] rest = rest
  version_paths (v ∷ vs) rest = with_path v.sidecar_resolved_path (
      with_optional v.csv_resolved_path
        (with_optional v.recipe_resolved_path (version_paths vs rest)))

  unfoldable pub member_paths : List String → List String → List String
  member_paths [] rest = rest
  member_paths (m ∷ ms) rest = system.normcase m ∷ member_paths ms rest

  unfoldable pub group_paths : List (List String) → List String
  unfolding member_paths
  group_paths [] = []
  group_paths (g ∷ gs) = member_paths g (group_paths gs)

  unfoldable pub referenced_paths : Discovered → List String
  unfolding version_paths group_paths
  referenced_paths result = version_paths result.versions (group_paths result.duplicates)
