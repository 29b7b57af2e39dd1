-- ===== src/Export/Linkage.antt =====
-- What the record of an export proves about its source: export_alignment.py and export_context.py.
use data_quality_toolkit.Prelude.{
  ◌≡◌, refl, sym, ◌∙◌, ap, String, Bool, true, false, not, ◌&&◌, Option, none, some, strip,
  is_empty, ◌==◌, arith, eq_iff, eq_refl, if◌then◌else◌,
}
use data_quality_toolkit.Session.{DatasetContext}
use data_quality_toolkit.Export.{
  active_managed, explicit_override, matches_active_managed, ExportArtifactContext,
}
use data_quality_toolkit.Export.Redaction.{redact_path_to_basename}
use data_quality_toolkit.Export.Alignment.{
  ManifestMetadata, text_or_blank, unlinked, linked, of_active, with_linkage,
  managed_manifest_metadata, same_version, normalize_source_binding, classify_export_source,
  compare_latest_export,
}
use data_quality_toolkit.Export.Verdicts.{
  strip_text, NamesActive, of_active_lem, matched, same_version_lem, manifest_lem,
}

linked_matches :
    (c : DatasetContext) (name binding : String) (e : ExportArtifactContext)
    → is_empty (text_or_blank c.version_id) ≡ false
    → is_empty (text_or_blank c.content_id) ≡ false
    → same_version (with_linkage (some (linked c name binding)) e) c ≡ true
unfolding with_linkage
linked_matches c name binding e version content =
    rw (strip_text c.version_id, strip_text c.content_id, version, content)
      (ground (arith, eq_refl (text_or_blank c.version_id), eq_refl (text_or_blank c.content_id)))

module _ (normalise : String → String) where
  classified :
      (source : Option String) (active : Option DatasetContext)
      → (classify_export_source normalise source active).status ≡ active_managed
      → NamesActive active (classify_export_source normalise source active)
  unfolding classify_export_source
  classified source none h = cc
  classified source (some c) h =
      by_match
        (not (is_empty (normalize_source_binding normalise source))
          && (normalize_source_binding normalise source
              == normalize_source_binding normalise (some c.source_path)))
        h
    where
      name : String
      name = redact_path_to_basename source

      binding : String
      binding = normalize_source_binding normalise source

      by_match :
          (b : Bool)
          → (if b then of_active c name binding else unlinked explicit_override name binding).status
            ≡ active_managed
          → NamesActive
              (some c)
              (if b then of_active c name binding else unlinked explicit_override name binding)
      by_match true e = of_active_lem c name binding e
      by_match false e = cc

  compared :
      (e : ExportArtifactContext) (now : DatasetContext)
      → compare_latest_export normalise e (some now) ≡ matches_active_managed
      → (now.managed ≡ true) × (same_version e now ≡ true)
  unfolding compare_latest_export
  compared e now h = matched _ now.managed (same_version e now) _ h

  -- A match with a managed dataset is never made up. If the record of an export, written with the
  -- verdict on its source, matches the managed dataset that is active later, then at the export a
  -- managed dataset was active with the same version id and content id, and the later one is managed.
  pub compare_latest_export_sound :
      (source : Option String) (active : Option DatasetContext) (e : ExportArtifactContext)
      (now : DatasetContext)
      → compare_latest_export normalise
          (with_linkage (some (classify_export_source normalise source active)) e)
          (some now)
        ≡ matches_active_managed
      → (now.managed ≡ true)
        × ((c : DatasetContext) × (active ≡ some c)
            × (c.managed ≡ true)
            × (text_or_blank c.version_id ≡ text_or_blank now.version_id)
            × (text_or_blank c.content_id ≡ text_or_blank now.content_id))
  compare_latest_export_sound source active e now h =
      let a = classify_export_source normalise source active in
      let tests = compared (with_linkage (some a) e) now h in
      let same = same_version_lem a e now tests.1 in
      let named = classified source active same.0 in
      let c = named.0 in
      (
        tests.0,
        (
          c,
          named.1,
          named.2,
          (sym (ap strip named.3 ∙ strip_text c.version_id) ∙ same.1),
          (sym (ap strip named.5 ∙ strip_text c.content_id) ∙ same.2),
        ),
      )

  -- An export of the active managed version is recognised as such as long as it stays active. If the
  -- normalised path of the source is that of the context and not blank, and the context is managed
  -- with a version id and a content id that are not blank, then the record of the export matches the
  -- active managed dataset.
  pub compare_latest_export_complete :
      (source : String) (c : DatasetContext) (e : ExportArtifactContext)
      → c.managed ≡ true
      → is_empty (normalize_source_binding normalise (some source)) ≡ false
      → normalize_source_binding normalise (some source)
        ≡ normalize_source_binding normalise (some c.source_path)
      → is_empty (text_or_blank c.version_id) ≡ false
      → is_empty (text_or_blank c.content_id) ≡ false
      → compare_latest_export normalise
          (with_linkage (some (classify_export_source normalise (some source) (some c))) e)
          (some c)
        ≡ matches_active_managed
  unfolding compare_latest_export classify_export_source with_linkage strip
  compare_latest_export_complete source c e managed there same version content = rw classification (
      comparison (redact_path_to_basename (some source))
        (normalize_source_binding normalise (some source)))
    where
      test :
          (not (is_empty (normalize_source_binding normalise (some source)))
            && (normalize_source_binding normalise (some source)
                == normalize_source_binding normalise (some c.source_path)))
          ≡ true
      test = ground (
        arith,
        there,
        same,
        eq_iff (normalize_source_binding normalise (some source))
            (normalize_source_binding normalise (some c.source_path)),
      )

      classification :
          classify_export_source normalise (some source) (some c)
          ≡ linked c
              (redact_path_to_basename (some source))
              (normalize_source_binding normalise (some source))
      classification = rw (test, managed, classify_export_source) refl

      comparison :
          (name binding : String)
          → compare_latest_export normalise (with_linkage (some (linked c name binding)) e) (some c)
            ≡ matches_active_managed
      comparison name binding =
          rw (managed, linked_matches c name binding e version content, compare_latest_export) refl

  -- Lifecycle identities reach the manifest of an export all together or not at all, and only those
  -- of the managed dataset that was active: what is recorded is its version, family and content id,
  -- none of them blank.
  pub managed_manifest_metadata_sound :
      (source : Option String) (active : Option DatasetContext) (m : ManifestMetadata)
      → managed_manifest_metadata (classify_export_source normalise source active) ≡ some m
      → (c : DatasetContext) × (active ≡ some c)
        × (c.managed ≡ true)
        × (m.source_version_id ≡ text_or_blank c.version_id)
        × (m.source_family_id ≡ text_or_blank c.family_id)
        × (m.source_content_id ≡ text_or_blank c.content_id)
        × (is_empty m.source_version_id ≡ false)
        × (is_empty m.source_family_id ≡ false)
        × (is_empty m.source_content_id ≡ false)
  managed_manifest_metadata_sound source active m h =
      let a = classify_export_source normalise source active in
      let facts = manifest_lem a m h in
      let named = classified source active facts.0 in
      let c = named.0 in
      (
        c,
        named.1,
        named.2,
        facts.1 ∙ ap strip named.3 ∙ strip_text c.version_id,
        facts.2 ∙ ap strip named.4 ∙ strip_text c.family_id,
        facts.3 ∙ ap strip named.5 ∙ strip_text c.content_id,
        facts.4,
        facts.5,
        facts.6,
      )
