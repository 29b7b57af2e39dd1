-- ===== src/Loading/Histories.antt =====
-- The managed caches over any sequence of calls, clearings and changes of the session.
use data_quality_toolkit.Prelude.{
  ◌≤◌, ◌≡◌, sym, subst, String, List, [], length, All, Option, ok, arith,
}
use data_quality_toolkit.Session.{Session}
use data_quality_toolkit.Loading.{AssessmentKey, World, OptionValue}
use data_quality_toolkit.Loading.Options.{Options}
use data_quality_toolkit.Loading.Caches.{Loader, clear_managed_caches}
use data_quality_toolkit.Loading.Dispatch.{
  ReadOutcome, Assessed, Assessment, get_managed_frame, get_managed_assessment,
}
use data_quality_toolkit.Loading.Frames.{get_managed_frame_sound}
use data_quality_toolkit.Loading.Assessments.{IsAssessed, IsKept, get_managed_assessment_sound}

module _ {V F A : Type 0} (digest : String → List (String × OptionValue V) → Option String)
    (Seen : World → (String → Options V → ReadOutcome F) → Type 0)
    (Judges : (F → Assessed A F) → Type 0) where
  -- A frame is served, an assessment is served or refused, the caches are cleared, or other code
  -- changes the session. The other calls change nothing.
  pub data Step : Loader F (Assessment A F) → Loader F (Assessment A F) → Type 0 where
    frame_served :
        {s s' : Loader F (Assessment A F)} (world : World)
        (reader : String → Options V → ReadOutcome F)
        → Seen world reader
        → (options : Options V) (f : F)
        → get_managed_frame digest world reader options s ≡ ok (f, s')
        → Step s s'
    assessment_called :
        {s s' : Loader F (Assessment A F)} (world : World)
        (reader : String → Options V → ReadOutcome F)
        → Seen world reader
        → (assessor : F → Assessed A F) → Judges assessor
        → (options assessment_options : Options V)
        → (get_managed_assessment digest world assessor reader options assessment_options s).1 ≡ s'
        → Step s s'
    cleared : {s s' : Loader F (Assessment A F)} → clear_managed_caches s ≡ s' → Step s s'
    session_changed :
        {s s' : Loader F (Assessment A F)} (session : Session)
        → record s { session = session } ≡ s'
        → Step s s'

  pub data Steps : Loader F (Assessment A F) → Loader F (Assessment A F) → Type 0 where
    start : {s : Loader F (Assessment A F)} → Steps s s
    step : {s s' s'' : Loader F (Assessment A F)} → Steps s s' → Step s' s'' → Steps s s''

  Step-IsKept :
      {s s' : Loader F (Assessment A F)}
      → Step s s'
      → IsKept digest Seen Judges s
      → IsKept digest Seen Judges s'
  Step-IsKept {s} {s'} (frame_served world reader seen options f h) (framed, few, all) =
      let (key, authorized, (read, framed', found, session, assessments)) =
        get_managed_frame_sound digest Seen world reader seen options s s' f framed h in
      let rest =
        subst
          (λ (xs : List (AssessmentKey × Assessment A F)).
            (length xs ≤ 16)
            × All (λ (e : AssessmentKey × Assessment A F). IsAssessed digest Seen Judges e.0 e.1)
                xs)
          (sym assessments) (few, all) in
      (framed', rest.0, rest.1)
  Step-IsKept {s} (assessment_called world reader seen assessor judges options assessment_options h)
        kept =
      subst (IsKept digest Seen Judges) h
        (get_managed_assessment_sound digest Seen Judges world reader seen assessor judges options
          assessment_options s kept).1
  Step-IsKept (cleared h) kept =
      subst (IsKept digest Seen Judges) h ((omega arith, tt), omega arith, tt)
  Step-IsKept (session_changed session h) kept = subst (IsKept digest Seen Judges) h kept

  -- From empty caches, whatever calls follow: at most 4 frames and 16 assessments are cached, each
  -- frame under the key it was read for and each assessment under the key it was made for.
  pub Steps-IsKept :
      {s : Loader F (Assessment A F)} (session : Session)
      → Steps (record { session = session; frames = []; assessments = [] }) s
      → IsKept digest Seen Judges s
  Steps-IsKept session h = from h ((omega arith, tt), omega arith, tt)
    where
      from :
          {s s' : Loader F (Assessment A F)}
          → Steps s s'
          → IsKept digest Seen Judges s
          → IsKept digest Seen Judges s'
      from start kept = kept
      from (step before now) kept = Step-IsKept now (from before kept)
