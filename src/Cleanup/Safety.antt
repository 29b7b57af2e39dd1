-- ===== src/Cleanup/Safety.antt =====
-- What a cleanup of lifecycle_maintenance.py may do to the file system, and what it reports.
use data_quality_toolkit.Prelude.{
  ℕ, ◌≤◌, ◌≡◌, refl, inl, inr, String, Bool, true, false, Bool-cases, not, ◌||◌, Option, none, some,
  List, contains, length, ltb, is_empty, arith, if◌then◌else◌,
}
use data_quality_toolkit.Cleanup.{System, Location, Report, CleanupResult, completed, refused}
use data_quality_toolkit.Cleanup.Eligible.{location_unchanged, referenced_paths}
use data_quality_toolkit.Cleanup.Requests.{
  selection, max_cleanup_batch, guard_request, no_location, no_selection, unknown_items,
  known_references, delete_chosen, clean, clean_at, execute_lifecycle_cleanup,
}
use data_quality_toolkit.Cleanup.Deletions.{
  reported, reported-append, reported-unknown, Deletions, delete_chosen-Deletions, reported-chosen,
}

-- What a request may come to. A refusal touches nothing. Otherwise the request was confirmed, at
-- most twenty references were selected, the location is the one that was scanned, the deletions are
-- those of a run over the candidates, and an item names each reference that was selected.
abbrev pub Executed :
    {F : Type 0} → System F → Report → List String → Bool → ℕ → F → CleanupResult × F → Type 0
Executed system report references confirmed now_ns fs (refused code, fs') = fs' ≡ fs
Executed system report references confirmed now_ns fs (completed items, fs') =
    (location : Location) × (report.location ≡ some location)
    × (location_unchanged system fs location ≡ true)
    × (confirmed ≡ true)
    × (length (selection references) ≤ max_cleanup_batch)
    × Deletions system location now_ns
        (referenced_paths system (system.discover_managed_versions fs location.root))
        (selection references) report.candidates fs fs'
    × ((r : String) → contains r (selection references) ≡ true → reported r items ≡ true)

either : (a b : Bool) → b ≡ true → (a || b) ≡ true
either true b h = refl
either false b h = h

guard_lem :
    (report : Report) (selected : List String) (confirmed : Bool)
    → is_empty (guard_request report selected confirmed) ≡ true
    → (confirmed ≡ true) × (length selected ≤ max_cleanup_batch)
guard_lem report selected confirmed h =
    by_tests confirmed (not report.scanned || no_location report.location) (no_selection selected)
      (ltb max_cleanup_batch (length selected)) refl h
  where
    by_tests :
        (sure unscanned nothing large : Bool)
        → ltb max_cleanup_batch (length selected) ≡ large
        → is_empty (
            if not sure
            then "NOT_CONFIRMED"
            else if unscanned
            then "NOT_SCANNED"
            else if nothing
            then "NOTHING_SELECTED"
            else if large
            then "BATCH_TOO_LARGE"
            else "")
          ≡ true
        → (sure ≡ true) × (length selected ≤ max_cleanup_batch)
    by_tests false unscanned nothing large e g = cc
    by_tests true true nothing large e g = cc
    by_tests true false true large e g = cc
    by_tests true false false true e g = cc
    by_tests true false false false e g = (refl, ground (arith, e))

-- A cleanup is refused with the file system as it was, or it was confirmed, selects at most twenty
-- references, and works on the location that was scanned. Then it unlinks nothing but the paths of
-- candidates of the scan that were chosen and that may be deleted at that moment: an owned staging
-- name, a plain file in the location, a day old, to which no managed version refers. Each selected reference is reported.
pub execute_lifecycle_cleanup_safe :
    {F : Type 0} (system : System F) (report : Report) (references : List String) (confirmed : Bool)
    (now_ns : ℕ) (fs : F)
    → Executed system report references confirmed now_ns fs
        (execute_lifecycle_cleanup system report references confirmed now_ns fs)
unfolding execute_lifecycle_cleanup
execute_lifecycle_cleanup_safe {F} system report references confirmed now_ns fs =
    by_guard (is_empty (guard_request report selected confirmed)) refl
  where
    selected : List String
    selected = selection references

    Ends : CleanupResult × F → Type 0
    Ends = Executed system report references confirmed now_ns fs

    cleaned :
        (location : Location)
        → is_empty (guard_request report selected confirmed) ≡ true
        → report.location ≡ some location
        → location_unchanged system fs location ≡ true
        → Ends (clean system report selected now_ns location fs)
    cleaned location g at same =
        let paths = referenced_paths system (system.discover_managed_versions fs location.root) in
        let run = delete_chosen system location now_ns paths selected report.candidates fs in
        let known = known_references selected report.candidates in
        let guards = guard_lem report selected confirmed g in
        (
          location,
          at,
          same,
          guards.0,
          guards.1,
          delete_chosen-Deletions system location now_ns paths selected report.candidates fs,
          λ r h. elim (Bool-cases (contains r known)) [
            | inl k ↦
                rw
                  (
                    reported-append r run.0 (unknown_items known selected),
                    reported-chosen system location now_ns paths r selected report.candidates fs k,
                  )
                  refl
            | inr k ↦ cc (
              reported-append r run.0 (unknown_items known selected),
              either (reported r run.0) (reported r (unknown_items known selected))
                  (reported-unknown r known selected h k),
            )
          ],
        )

    by_unchanged :
        (location : Location) (b : Bool)
        → is_empty (guard_request report selected confirmed) ≡ true
        → report.location ≡ some location
        → location_unchanged system fs location ≡ b
        → Ends (
            if b
            then clean system report selected now_ns location fs
            else (refused "LOCATION_CHANGED", fs))
    by_unchanged location true g at h = cleaned location g at h
    by_unchanged location false g at h = refl

    by_location :
        (o : Option Location)
        → is_empty (guard_request report selected confirmed) ≡ true
        → report.location ≡ o
        → Ends (clean_at system report selected now_ns o fs)
    by_location none g at = refl
    by_location (some location) g at =
        by_unchanged location (location_unchanged system fs location) g at refl

    by_guard :
        (b : Bool)
        → is_empty (guard_request report selected confirmed) ≡ b
        → Ends (
            if b
            then clean_at system report selected now_ns report.location fs
            else (refused (guard_request report selected confirmed), fs))
    by_guard true g = by_location report.location g refl
    by_guard false g = refl
