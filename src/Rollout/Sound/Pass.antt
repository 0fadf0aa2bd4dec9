-- ===== src/Rollout/Sound/Pass.antt =====
-- One pass of the loop: the rollout goes on with complete evidence, or it stops at this child.
use network_change_delivery.Base.{
  String, Bool, true, false, ◌≡◌, refl, sym, ap, ◌∙◌, Option, none, some, List, [], ◌∷◌, ◌++◌, map,
  ◌⊎◌, inl, inr, map-append, ℕ, arith,
}
use network_change_delivery.Raise.{Yields, Result, ok, raised}
use network_change_delivery.Planning.{ProfiledDeploymentPlan, Hashing}
use network_change_delivery.Exec.{Session, Exec, continue}
use network_change_delivery.Exec.Providers.{Providers}
use network_change_delivery.Execution.Record.{ProfiledChangeRecord}
use network_change_delivery.Observation.{Observation}
use network_change_delivery.Rollout.Audit.{
  child_record_id, chronology_record_id, StoppingReason, RecordReference, RecordIds,
}
use network_change_delivery.Rollout.Parent.{reference_ids}
use network_change_delivery.Rollout.Progress.{
  Progress, Cohort, entered, executed, evidence_lost, post_captured, child_published,
  chronology_published, pre_failed,
}
use network_change_delivery.Rollout.Approved.{
  RolloutChild, RolloutPlan, ArtifactReader, approved_plan, child_result,
}
use network_change_delivery.Rollout.Child.{
  Services, Evidence, RolloutContext, run_child, after_pre, run_entered, after_child,
  after_chronology, capture_post,
}
use network_change_delivery.Rollout.Sound.Transitions.{
  Clear, Why, non_success, uncertain, lost, StoppedAt, Inside, fine, stopped, Refs,
  reference_ids-append, executed-Inside, evidence_lost-StoppedAt, post_captured-Inside,
}

pub continue-Yields :
    {W A B : Type 0} (P : A → Type 0) (Q : B → Type 0) (r : Result A) (f : A → Exec W B)
    (s : Session W)
    → Yields P r
    → ((a : A) → P a → Yields Q (f a s).0)
    → Yields Q (continue r f s).0
continue-Yields P Q (ok a) f s h k = k a h
continue-Yields P Q (raised e) f s h k = h

approved_plan-Yields :
    (reader : ArtifactReader) (child : RolloutChild)
    → Yields (λ _. Unit {0}) (approved_plan reader child)
unfolding approved_plan child_result
approved_plan-Yields reader child = ground arith

module _ (ids : RecordIds) (job : String) where
  -- The rollout has stopped at `d`, and which of its records are published.
  pub data End (done : List String) (d : String) (st : Progress) : Type 0 where
    before :
        st.attempted ≡ done
        → st.successful ≡ done
        → st.stop_member ≡ some d
        → st.reason ≡ some StoppingReason.pre_chronology
        → st.evidence_failed ≡ false
        → Refs ids job done done st
        → End done d st
    complete :
        StoppedAt done d st → Refs ids job (done ++ d ∷ []) (done ++ d ∷ []) st → End done d st
    partial :
        StoppedAt done d st
        → st.evidence_failed ≡ true
        → Refs ids job (done ++ d ∷ []) done st
        → End done d st
    missing :
        StoppedAt done d st → st.evidence_failed ≡ true → Refs ids job done done st → End done d st

  pub record Onward (done : List String) (st : Progress) : Type 0 where
    pub clear : Clear st
    pub attempted : st.attempted ≡ done
    pub refs : Refs ids job done done st

  abbrev pub Passed : List String → String → Progress → Type 0
  Passed done d st = Onward (done ++ d ∷ []) st ⊎ End done d st

-- The published references play no part in whether and why the rollout stops.
module _ (cs hs : List RecordReference) where
  Clear-refs :
      (st : Progress) → Clear st → Clear (record st { child_refs = cs; chronology_refs = hs })
  Clear-refs st c = record {
    successful = c.successful;
    no_member = c.no_member;
    no_outcome = c.no_outcome;
    no_reason = c.no_reason;
    no_failure = c.no_failure;
  }

module _ {done : List String} {d : String} (cs hs : List RecordReference) where
  StoppedAt-refs :
      (st : Progress)
      → StoppedAt done d st
      → StoppedAt done d (record st { child_refs = cs; chronology_refs = hs })
  StoppedAt-refs st h = record { attempted = h.attempted; member = h.member; why = go h.why }
    where
      go : Why done d st → Why done d (record st { child_refs = cs; chronology_refs = hs })
      go (non_success o reason successful outcome differs failed) =
          non_success o reason successful outcome differs failed
      go (uncertain reason successful outcome) = uncertain reason successful outcome
      go (lost reason failed successful) = lost reason failed successful

  Inside-refs :
      (st : Progress)
      → Inside done d st
      → Inside done d (record st { child_refs = cs; chronology_refs = hs })
  Inside-refs st (fine a c) = fine a (Clear-refs cs hs st c)
  Inside-refs st (stopped h) = stopped (StoppedAt-refs st h)

module _ (ids : RecordIds) (job : String) where
  Refs-same :
      (first second : List String) (st st' : Progress)
      → st'.child_refs ≡ st.child_refs
      → st'.chronology_refs ≡ st.chronology_refs
      → Refs ids job first second st
      → Refs ids job first second st'
  Refs-same first second st st' e f h = record {
    children = ap reference_ids e ∙ h.children;
    chronologies = ap reference_ids f ∙ h.chronologies;
  }

  Refs-executed :
      (first second : List String) (d : String) (r : Result ProfiledChangeRecord) (st : Progress)
      → Refs ids job first second st
      → Refs ids job first second (executed d r (entered d st))
  unfolding executed entered
  Refs-executed first second d r st h = Refs-same first second st _ (ground arith) (ground arith) h

  Refs-post_captured :
      (first second : List String) (d : String) (post : Option Observation) (written : Bool)
      (st : Progress)
      → Refs ids job first second st
      → Refs ids job first second (post_captured d post written st)
  unfolding post_captured evidence_lost
  Refs-post_captured first second d post written st h =
      Refs-same first second st _ (ground arith) (ground arith) h

  module _ (done : List String) (d : String) (digest : String) where
    Refs-child_published :
        (st : Progress)
        → Refs ids job done done st
        → Refs ids job
            (done ++ d ∷ [])
            done
            (child_published (record { record_id = child_record_id ids job d; digest = digest }) st)
    unfolding child_published
    Refs-child_published st h = record {
      children =
          reference_ids-append st.child_refs _
          ∙ ap (λ t. t ++ child_record_id ids job d ∷ []) h.children
          ∙ sym (map-append (child_record_id ids job) done (d ∷ []));
      chronologies = h.chronologies;
    }

    Refs-chronology_published :
        (st : Progress)
        → Refs ids job (done ++ d ∷ []) done st
        → Refs ids job (done ++ d ∷ []) (done ++ d ∷ []) (
            chronology_published
              (record {
                record_id = (chronology_record_id ids) (child_record_id ids job d);
                digest = digest;
              })
              st)
    unfolding chronology_published
    Refs-chronology_published st h = record {
      children = h.children;
      chronologies =
          reference_ids-append st.chronology_refs _
          ∙ ap (λ t. t ++ (chronology_record_id ids) (child_record_id ids job d) ∷ [])
              h.chronologies
          ∙ sym (map-append (chronology_record_id ids) (map (child_record_id ids job) done) _)
          ∙ ap (map (chronology_record_id ids))
              (sym (map-append (child_record_id ids job) done (d ∷ [])));
    }

  -- A pass that has published everything.
  settle :
      (done : List String) (d : String) (st : Progress)
      → Inside done d st
      → Refs ids job (done ++ d ∷ []) (done ++ d ∷ []) st
      → Passed ids job done d st
  settle done d st (fine a c) refs = inl (record { clear = c; attempted = a; refs = refs })
  settle done d st (stopped h) refs = inr (complete h refs)

-- A pass without a second capture has stopped already.
abbrev LostWithout : List String → String → Option Observation → Progress → Type 0
LostWithout done d none st = StoppedAt done d st × (st.evidence_failed ≡ true)
LostWithout done d (some post) st = Unit

module _ {W : Type 0} (p : Providers W) (hashing : Hashing) (services : Services W)
    (facts : Evidence) (context : RolloutContext) (parent : RolloutPlan) where
  module _ (preflight : String) (cohort : Cohort) (order : ℕ) (child : RolloutChild)
      (done : List String) where
    abbrev ResultOf : Result Progress → Type 0
    ResultOf = Yields (Passed facts.ids context.job_id done cohort.identity)

    abbrev HoldsRefs : List String → List String → Progress → Type 0
    HoldsRefs = Refs facts.ids context.job_id

    abbrev full : List String
    full = done ++ cohort.identity ∷ []

    after_chronology-Passed :
        (r : Result RecordReference) (st : Progress) (s : Session W)
        → Inside done cohort.identity st
        → HoldsRefs full done st
        → ResultOf
            (after_chronology p hashing services facts context parent preflight cohort order child r
              st s).0
    unfolding after_chronology evidence_lost chronology_published
    after_chronology-Passed (raised e) st s h refs = inr (
        partial (evidence_lost-StoppedAt done cohort.identity st h) refl
          (Refs-same facts.ids context.job_id full done st _ refl refl refs))
    after_chronology-Passed (ok reference) st s h refs =
        settle facts.ids context.job_id done cohort.identity _ (Inside-refs st.child_refs _ st h) (
          Refs-chronology_published facts.ids context.job_id done cohort.identity reference.digest
            st refs)

    after_child-Passed :
        (pre : Observation) (post : Option Observation) (r : Result RecordReference) (st : Progress)
        (s : Session W)
        → Inside done cohort.identity st
        → HoldsRefs done done st
        → LostWithout done cohort.identity post st
        → ResultOf
            (after_child p hashing services facts context parent preflight cohort order child pre
              post r st s).0
    unfolding after_child evidence_lost child_published
    after_child-Passed pre post (raised e) st s h refs w = inr (
        missing (evidence_lost-StoppedAt done cohort.identity st h) refl
          (Refs-same facts.ids context.job_id done done st _ refl refl refs))
    after_child-Passed pre none (ok reference) st s h refs w = inr (
        partial (StoppedAt-refs _ st.chronology_refs st w.0) w.1 (
          Refs-child_published facts.ids context.job_id done cohort.identity reference.digest st
            refs))
    after_child-Passed pre (some post) (ok reference) st s h refs w =
        after_chronology-Passed _ _ _ (Inside-refs _ st.chronology_refs st h) (
          Refs-child_published facts.ids context.job_id done cohort.identity reference.digest st
            refs)

    module _ (st : Progress) (onward : Onward facts.ids context.job_id done st) where
      lost_without :
          (post : Option Observation) (written : Bool) (execution : Result ProfiledChangeRecord)
          → LostWithout done cohort.identity post (
              post_captured cohort.identity post written
                (executed cohort.identity execution (entered cohort.identity st)))
      unfolding post_captured evidence_lost
      lost_without none written execution = (
        evidence_lost-StoppedAt done cohort.identity _
            (executed-Inside done cohort.identity execution st onward.clear onward.attempted),
        refl,
      )
      lost_without (some post) written execution = tt

      captured-Passed :
          (pre : Observation) (post : Option Observation) (written : Bool)
          (execution : Result ProfiledChangeRecord) (r : Result RecordReference) (s : Session W)
          → ResultOf
              (after_child p hashing services facts context parent preflight cohort order child pre
                post r
                (post_captured cohort.identity post written
                  (executed cohort.identity execution (entered cohort.identity st)))
                s).0
      captured-Passed pre post written execution r s =
          after_child-Passed pre post r _ s
            (post_captured-Inside done cohort.identity post written _
              (executed-Inside done cohort.identity execution st onward.clear onward.attempted))
            (Refs-post_captured facts.ids context.job_id done done cohort.identity post written _ (
              Refs-executed facts.ids context.job_id done done cohort.identity execution st
                onward.refs))
            (lost_without post written execution)

      run_entered-Passed :
          (plan : ProfiledDeploymentPlan) (pre : Observation) (s : Session W)
          → ResultOf
              (run_entered p hashing services facts context parent preflight cohort order child plan
                pre st s).0
      unfolding run_entered capture_post
      run_entered-Passed plan pre s = captured-Passed pre _ _ _ _ _

      after_pre-Passed :
          (plan : ProfiledDeploymentPlan) (r : Result Observation) (s : Session W)
          → ResultOf
              (after_pre p hashing services facts context parent preflight cohort order child plan r
                st s).0
      unfolding after_pre pre_failed
      after_pre-Passed plan (raised e) s = inr (
          before onward.attempted (onward.clear.successful ∙ onward.attempted) refl refl
            onward.clear.no_failure
            (Refs-same facts.ids context.job_id done done st _ refl refl onward.refs))
      after_pre-Passed plan (ok pre) s = run_entered-Passed plan pre s

      pub run_child-Passed :
          (s : Session W)
          → ResultOf
              (run_child p hashing services facts context parent preflight cohort order child st
                s).0
      unfolding run_child
      run_child-Passed s =
          continue-Yields (λ _. Unit {0}) (Passed facts.ids context.job_id done cohort.identity) _ _
            _ (approved_plan-Yields facts.reader child) (λ plan _. after_pre-Passed plan _ _)
