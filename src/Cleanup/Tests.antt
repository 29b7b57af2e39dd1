-- ===== src/Cleanup/Tests.antt =====
-- A directory with one staging file, and the theorem at it.
use data_quality_toolkit.Prelude.{
  ◌≡◌, refl, String, Bool, true, false, none, some, [], ◌∷◌, ok, err, ◌==◌, strip, if◌then◌else◌,
}
use data_quality_toolkit.Cleanup.{
  not_found, Stat, System, Location, TempArtifactLocator, Report, deleted, completed, refused,
}
use data_quality_toolkit.Cleanup.Names.{is_owned_temp_name}
use data_quality_toolkit.Cleanup.Requests.{item, execute_lifecycle_cleanup}
use data_quality_toolkit.Cleanup.Safety.{Executed, execute_lifecycle_cleanup_safe}

abbrev name : String
name = ".clean.csv.abcd1234.tmp"

abbrev directory : String
directory = "/w/preprocessed"

abbrev path : String
path = "/w/preprocessed/.clean.csv.abcd1234.tmp"

abbrev folder : Stat
folder = record {
  is_regular = false;
  is_reparse_point = false;
  is_directory = true;
  dev = 1;
  ino = 2;
  mtime_ns = 0;
}

abbrev file : Stat
file = record {
  is_regular = true;
  is_reparse_point = false;
  is_directory = false;
  dev = 1;
  ino = 3;
  mtime_ns = 5;
}

-- The state tells whether the file is there.
abbrev disk : System Bool
disk = record {
  resolve_user = λ there p. ok p;
  resolve = λ there p. if p == path then (if there then ok p else err not_found) else ok p;
  lstat = λ there p. if p == path then (if there then ok file else err not_found) else ok folder;
  stat = λ there p. ok folder;
  unlink = λ there p. if there then (none, false) else (some not_found, false);
  join = λ p q. if p == directory then path else directory;
  parent = λ p. directory;
  normcase = λ p. p;
  commonpath = λ p q. some q;
  digest = λ n. "temp-0123456789ab";
  discover_managed_versions = λ there root. record { versions = []; duplicates = [] };
}

abbrev location : Location
location = record { root = "/w"; directory = directory; dev = 1; ino = 2 }

abbrev candidate : TempArtifactLocator
candidate = record {
  reference = "temp-0123456789ab";
  basename = name;
  resolved_path = path;
  parent_dev = 1;
  parent_ino = 2;
  mtime_ns = 5;
}

abbrev scan : Report
scan = record { scanned = true; candidates = candidate ∷ []; location = some location }

owned : is_owned_temp_name name ≡ true
unfolding is_owned_temp_name
owned = refl

owned_sidecar : is_owned_temp_name ".clean-2.csv.dqtv.json.a_cd1234.tmp" ≡ true
unfolding is_owned_temp_name
owned_sidecar = refl

not_owned : is_owned_temp_name ".clean.csv.abc.tmp" ≡ false
unfolding is_owned_temp_name
not_owned = refl

-- A day and five nanoseconds after the epoch the file is old enough.
cleaned :
    execute_lifecycle_cleanup disk scan ("temp-0123456789ab" ∷ []) true 86400000000005 true
    ≡ (completed (item "temp-0123456789ab" name deleted "DELETED" ∷ []), false)
unfolding execute_lifecycle_cleanup strip is_owned_temp_name
cleaned = refl

not_confirmed :
    execute_lifecycle_cleanup disk scan ("temp-0123456789ab" ∷ []) false 86400000000005 true
    ≡ (refused "NOT_CONFIRMED", true)
unfolding execute_lifecycle_cleanup strip
not_confirmed = refl

execute_lifecycle_cleanup_safe_example :
    Executed disk scan
      ("temp-0123456789ab" ∷ [])
      true
      86400000000005
      true
      (execute_lifecycle_cleanup disk scan ("temp-0123456789ab" ∷ []) true 86400000000005 true)
execute_lifecycle_cleanup_safe_example =
    execute_lifecycle_cleanup_safe disk scan ("temp-0123456789ab" ∷ []) true 86400000000005 true
