-- ===== src/Confirmation/Disks.antt =====
-- The operations on files: staging, publication by a hard link, and removal.
use data_quality_toolkit.Prelude.{
  ℕ, String, Bool, false, not, ◌&&◌, ◌||◌, Option, none, some, List, [], ◌∷◌, ◌++◌, any, contains,
  eqb, concat, joined, is_empty, strip, first_chars, length, ◌==◌, Result, ok, err, if◌then◌else◌,
}
use data_quality_toolkit.Cleanup.Names.{safe_temp_label}
use data_quality_toolkit.Confirmation.{
  Bytes, Disk, OsError, file_exists, os_error, Staging, written, not_created, cut_short, Storage,
}

abbrev pub set : String → Bytes → Disk → Disk
set path bytes d = λ p. if p == path then some bytes else d p

abbrev pub unset : String → Disk → Disk
unset path d = λ p. if p == path then none else d p

-- `_errno_set`
abbrev pub errno_set : (String → Option ℕ) → List String → List ℕ
errno_set errno_of [] = []
errno_set errno_of (name ∷ names) = elim (errno_of name) [
  | none ↦ errno_set errno_of names
  | some n ↦ n ∷ errno_set errno_of names
]

abbrev pub unsupported_errnos : (String → Option ℕ) → List ℕ
unsupported_errnos errno_of =
    errno_set errno_of ("ENOSYS" ∷ "ENOTSUP" ∷ "EOPNOTSUPP" ∷ "EPERM" ∷ [])

-- `FileExistsError` has `EEXIST`, which is not among the numbers.
abbrev pub is_hardlink_unsupported : (String → Option ℕ) → OsError → Bool
is_hardlink_unsupported errno_of file_exists = false
is_hardlink_unsupported errno_of (os_error errno (some winerror)) =
    eqb winerror 1 || eqb winerror 50
is_hardlink_unsupported errno_of (os_error errno none) =
    any (eqb errno) (unsupported_errnos errno_of)

-- `remaining` of `capability_guidance`.
unfoldable pub remaining_files : List String → String
unfolding concat joined
remaining_files [] = "A temporary staging file may remain in the workspace."
remaining_files (l ∷ ls) = concat (
    "Temporary staging "
    ∷ (if eqb (length (l ∷ ls)) 1 then "file" else "files")
    ∷ " left for your review: "
    ∷ joined ", " (l ∷ ls)
    ∷ "."
    ∷ [])

-- `capability_guidance`, for labels that are not empty.
unfoldable pub capability_guidance : List String → String
unfolding remaining_files
capability_guidance labels = concat (
    "Confirmation failed safely. This workspace location does not support the "
    ∷ "atomic hard-link publication that confirmation requires, so no version was "
    ∷ "published. The processed output remains unmanaged, the active managed "
    ∷ "version did not change, and no copy, overwrite, or replace fallback was attempted. "
    ∷ remaining_files labels
    ∷ " Nothing was deleted automatically; review before removing anything."
    ∷ [])

-- `format_short_version` of adapters/ui/services/version_presentation.py.
unfoldable pub format_short_version : (String → Option String) → String → String
unfolding strip first_chars concat
format_short_version uuid_hex version_id = elim (uuid_hex (strip version_id)) [
  | none ↦ ""
  | some hex ↦ if is_empty (strip version_id) then "" else concat ("v-" ∷ first_chars 8 hex ∷ [])
]

module _ (storage : Storage) where
  -- `_relative_display`
  abbrev pub relative_display : String → String → String
  relative_display path root = elim (storage.relative_to path root) [
    | none ↦ storage.name_of path
    | some relative ↦ relative
  ]

  -- `_write_temp`: `none` is the `OSError` or the `RuntimeError`. Directories are not modelled.
  abbrev pub staged_as : Staging → String → Bytes → Disk → Option String × Disk
  staged_as written temp payload d = (some temp, set temp payload d)
  staged_as not_created temp payload d = (none, d)
  staged_as (cut_short part) temp payload d = (none, set temp part d)

  unfoldable pub write_temp : String → Bytes → Disk → Option String × Disk
  write_temp final payload d =
      staged_as (storage.staging final) (storage.temp_for final d) payload d

  -- `os.link`: the new name must be free.
  abbrev pub link_to : Option Bytes → Option Bytes → String → Disk → Result OsError Disk
  link_to none there final d = err (os_error 2 none)
  link_to (some content) (some other) final d = err file_exists
  link_to (some content) none final d = ok (set final content d)

  unfoldable pub publish_exclusive : String → String → Disk → Result OsError Disk
  publish_exclusive tmp final d = elim (storage.link_fault final) [
    | some e ↦ err e
    | none ↦ link_to (d tmp) (d final) final d
  ]

  -- `_cleanup`
  unfoldable pub cleanup : List String → Disk → Disk
  cleanup [] d = d
  cleanup (path ∷ paths) d = cleanup paths (if storage.unlink_fails path then d else unset path d)

  abbrev pub is_file : String → Disk → Bool
  is_file path d = elim (d path) [ none ↦ false | some bytes ↦ not (storage.stat_fails path) ]

  abbrev pub add_label : Bool → String → List String → List String
  add_label present label labels =
      if present && not (is_empty label) && not (contains label labels)
      then labels ++ (label ∷ [])
      else labels

  -- `_retained_temp_labels`
  unfoldable pub retained_temp_labels : List String → Disk → List String → List String
  unfolding safe_temp_label
  retained_temp_labels [] d labels = labels
  retained_temp_labels (path ∷ paths) d labels =
      retained_temp_labels paths d
        (add_label (is_file path d) (safe_temp_label (storage.name_of path)) labels)
