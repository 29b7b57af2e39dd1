-- ===== src/Export/Verdicts.antt =====
-- What a verdict, a manifest and a match of export_alignment.py each say of the active dataset.
use data_quality_toolkit.Prelude.{
  ◌≡◌, refl, ◌∙◌, ap, String, Bool, true, false, not, ◌&&◌, Option, none, some, strip, strip_idem,
  is_empty, ◌==◌, arith, eq_iff, if◌then◌else◌,
}
use data_quality_toolkit.Session.{DatasetContext}
use data_quality_toolkit.Export.{
  ExportSourceStatus, active_managed, active_legacy, explicit_override, no_active_dataset,
  matches_active_managed, matches_active_legacy, other_dataset, insufficient_linkage,
  ExportSourceAlignment, ExportArtifactContext,
}
use data_quality_toolkit.Export.Alignment.{
  ManifestMetadata, text_or_blank, unlinked, linked, of_active, with_linkage,
  managed_manifest_metadata, same_version, when,
}

pub strip_text : (o : Option String) → strip (text_or_blank o) ≡ text_or_blank o
unfolding strip
strip_text none = refl
strip_text (some s) = strip_idem s

strip_blank : strip "" ≡ ""
unfolding strip
strip_blank = refl

-- The verdict names the active managed version: it was active, and managed, and the ids are its.
abbrev pub NamesActive : Option DatasetContext → ExportSourceAlignment → Type 0
NamesActive active a =
    (c : DatasetContext) × (active ≡ some c)
    × (c.managed ≡ true)
    × (a.version_id ≡ text_or_blank c.version_id)
    × (a.family_id ≡ text_or_blank c.family_id)
    × (a.content_id ≡ text_or_blank c.content_id)

pub of_active_lem :
    (c : DatasetContext) (name binding : String)
    → (of_active c name binding).status ≡ active_managed
    → NamesActive (some c) (of_active c name binding)
of_active_lem c name binding h = by_managed c.managed refl h
  where
    by_managed :
        (b : Bool)
        → c.managed ≡ b
        → (if b then linked c name binding else unlinked active_legacy name binding).status
          ≡ active_managed
        → NamesActive
            (some c)
            (if b then linked c name binding else unlinked active_legacy name binding)
    by_managed true m e = (c, refl, m, refl, refl, refl)
    by_managed false m e = cc

-- Which tests a comparison passed that ends in a match.
pub matched :
    (blank managed same legacy : Bool)
    → (if blank
        then insufficient_linkage
        else if managed
        then if same then matches_active_managed else other_dataset
        else if legacy
        then matches_active_legacy
        else other_dataset)
      ≡ matches_active_managed
    → (managed ≡ true) × (same ≡ true)
matched true managed same legacy h = cc
matched false true true legacy h = (refl, refl)
matched false true false legacy h = cc
matched false false same true h = cc
matched false false same false h = cc

same_texts :
    (v c x y : String)
    → (not (is_empty v) && not (is_empty c) && (v == x) && (c == y)) ≡ true
    → (v ≡ x) × (c ≡ y)
same_texts v c x y h = (ground (arith, eq_iff v x), ground (arith, eq_iff c y))

pub same_version_lem :
    (a : ExportSourceAlignment) (e : ExportArtifactContext) (now : DatasetContext)
    → same_version (with_linkage (some a) e) now ≡ true
    → (a.status ≡ active_managed)
      × (strip a.version_id ≡ text_or_blank now.version_id)
      × (strip a.content_id ≡ text_or_blank now.content_id)
unfolding with_linkage
same_version_lem a e now h = by_status a.status refl h
  where
    test : Bool → Bool
    test managed =
        let v = strip (when managed a.version_id) in
        let d = strip (when managed a.content_id) in
        not (is_empty v)
        && not (is_empty d)
        && (v == text_or_blank now.version_id)
        && (d == text_or_blank now.content_id)

    blank : test false ≡ false
    blank = rw strip_blank refl

    by_status :
        (s : ExportSourceStatus)
        → a.status ≡ s
        → test (elim s as (λ s. Bool) [
          | active_managed ↦ true
          | active_legacy ↦ false
          | explicit_override ↦ false
          | no_active_dataset ↦ false
        ])
          ≡ true
        → (a.status ≡ active_managed)
          × (strip a.version_id ≡ text_or_blank now.version_id)
          × (strip a.content_id ≡ text_or_blank now.content_id)
    by_status active_managed m g =
        let k =
          same_texts (strip a.version_id) (strip a.content_id) (text_or_blank now.version_id)
            (text_or_blank now.content_id) g in
        (m, k.0, k.1)
    by_status active_legacy m g = cc (g, blank)
    by_status explicit_override m g = cc (g, blank)
    by_status no_active_dataset m g = cc (g, blank)

pub manifest_lem :
    (a : ExportSourceAlignment) (m : ManifestMetadata)
    → managed_manifest_metadata a ≡ some m
    → (a.status ≡ active_managed)
      × (m.source_version_id ≡ strip a.version_id)
      × (m.source_family_id ≡ strip a.family_id)
      × (m.source_content_id ≡ strip a.content_id)
      × (is_empty m.source_version_id ≡ false)
      × (is_empty m.source_family_id ≡ false)
      × (is_empty m.source_content_id ≡ false)
unfolding managed_manifest_metadata
manifest_lem a m h = by_status a.status refl h
  where
    v : String
    v = strip a.version_id

    f : String
    f = strip a.family_id

    c : String
    c = strip a.content_id

    Recorded : Type 0
    Recorded =
        (a.status ≡ active_managed)
        × (m.source_version_id ≡ v)
        × (m.source_family_id ≡ f)
        × (m.source_content_id ≡ c)
        × (is_empty m.source_version_id ≡ false)
        × (is_empty m.source_family_id ≡ false)
        × (is_empty m.source_content_id ≡ false)

    whole : ManifestMetadata
    whole = record {
      source_version_id = v;
      source_family_id = f;
      source_content_id = c;
      source_origin = "managed_version";
    }

    recorded :
        (b1 b2 b3 : Bool)
        → a.status ≡ active_managed
        → is_empty v ≡ b1
        → is_empty f ≡ b2
        → is_empty c ≡ b3
        → (if b1 then none else if b2 then none else if b3 then none else some whole) ≡ some m
        → Recorded
    recorded true b2 b3 s e1 e2 e3 g = cc
    recorded false true b3 s e1 e2 e3 g = cc
    recorded false false true s e1 e2 e3 g = cc
    recorded false false false s e1 e2 e3 g = (
      s,
      ap (λ (w : ManifestMetadata). w.source_version_id) same,
      ap (λ (w : ManifestMetadata). w.source_family_id) same,
      ap (λ (w : ManifestMetadata). w.source_content_id) same,
      ap (λ (w : ManifestMetadata). is_empty w.source_version_id) same ∙ e1,
      ap (λ (w : ManifestMetadata). is_empty w.source_family_id) same ∙ e2,
      ap (λ (w : ManifestMetadata). is_empty w.source_content_id) same ∙ e3,
    )
      where
        same : m ≡ whole
        same = cc g

    by_status :
        (s : ExportSourceStatus)
        → a.status ≡ s
        → (if elim s as (λ s. Bool) [
          | active_managed ↦ true
          | active_legacy ↦ false
          | explicit_override ↦ false
          | no_active_dataset ↦ false
        ]
            then if is_empty v
              then none
              else if is_empty f
              then none
              else if is_empty c
              then none
              else some whole
            else none)
          ≡ some m
        → Recorded
    by_status active_managed s g =
        recorded (is_empty v) (is_empty f) (is_empty c) s refl refl refl g
    by_status active_legacy s g = cc
    by_status explicit_override s g = cc
    by_status no_active_dataset s g = cc
