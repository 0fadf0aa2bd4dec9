-- ===== src/Execution/Writes.antt =====
-- The writes that the Cisco lifecycle performs, exactly, for each outcome of its record.
use network_change_delivery.Base.{
  String, Bool, true, false, not, ◌&&◌, ◌≡◌, refl, ap, ◌∙◌, sym, List, ◌∷◌, Option, some,
  Bool-cases, inl, inr, if◌then◌else◌, ◌==◌, string_eq, option_eq,
}
use network_change_delivery.Raise.{Exn, Result, ok, raised, is_io, validation_error}
use network_change_delivery.Models.{
  FinalOutcome, recovered, recovery_failed, ExecutionDisposition, ExecutionResult, InterfaceState,
  CiscoConfigArtifact, StageResult,
}
use network_change_delivery.Inventory.{ProfileReadOnlyTarget, live_read_only_target}
use network_change_delivery.Planning.{ProfiledDeploymentPlan}
use network_change_delivery.WriteAdapter.{ProfiledWriteTarget, cisco_target_valid}
use network_change_delivery.Exec.{Event, Session, Exec, pure, raise, continue, writes, cisco_write}
use network_change_delivery.Exec.Providers.{Providers, observe}
use network_change_delivery.Execution.Record.{
  ProfiledChangeRecord, is_recovery_outcome, consistent_outcome,
}
use network_change_delivery.Execution.Stages.{Stages, make_record, build_record}
use network_change_delivery.Execution.Preflight.{Verified}
use network_change_delivery.Execution.Cisco.{
  identity_holds, recollect, execute_cisco, reconcile, judge_restored, after_recovery, recover,
  post_validate, after_write, cisco_lifecycle,
}

-- The writes of a run with this outcome in front of those before it: the approved artifact once and,
-- for an outcome of the recovery, the targeted inverse once after it.
abbrev pub cisco_writes :
    ProfiledDeploymentPlan → CiscoConfigArtifact → List Event → FinalOutcome → List Event
cisco_writes plan artifact before outcome =
    if is_recovery_outcome outcome
    then cisco_write plan.recovery_artifact ∷ cisco_write (some artifact) ∷ before
    else cisco_write (some artifact) ∷ before

module _ {W : Type 0} (expected : FinalOutcome → List Event) where
  -- A record's outcome tells the writes of its run.
  abbrev pub Traced : Result ProfiledChangeRecord × Session W → Type 0
  Traced (ok r, s) = writes s.trace ≡ expected r.final_outcome
  Traced (raised e, s) = Unit

  pub if-Traced :
      (b : Bool) (m n : Exec W ProfiledChangeRecord) (s : Session W)
      → (b ≡ true → Traced (m s))
      → (b ≡ false → Traced (n s))
      → Traced ((if b then m else n) s)
  if-Traced true m n s x y = x refl
  if-Traced false m n s x y = y refl

  pub continue-Traced :
      {A : Type 0} (r : Result A) (f : A → Exec W ProfiledChangeRecord) (s : Session W)
      → ((a : A) → r ≡ ok a → Traced (f a s))
      → Traced (continue r f s)
  continue-Traced (ok a) f s k = k a refl
  continue-Traced (raised e) f s k = tt

  module _ (p : Providers W) (plan : ProfiledDeploymentPlan) (approval : String) where
    pub make_record-Traced :
        (outcome : FinalOutcome) (stages : Stages) (s : Session W)
        → writes s.trace ≡ expected outcome
        → Traced (make_record p plan approval outcome stages s)
    unfolding make_record build_record
    make_record-Traced outcome stages s h =
        go (consistent_outcome (build_record plan approval outcome stages (p.clock s.world)))
      where
        go :
            (b : Bool)
            → Traced (
                if b
                then pure (build_record plan approval outcome stages (p.clock s.world)) s
                else raise validation_error s)
        go true = h
        go false = tt

    pub io-Traced :
        (e : Exn) (outcome : FinalOutcome) (stages : Stages) (s : Session W)
        → writes s.trace ≡ expected outcome
        → Traced ((if is_io e then make_record p plan approval outcome stages else raise e) s)
    io-Traced e outcome stages s h =
        if-Traced (is_io e) _ _ s (λ _. make_record-Traced outcome stages s h) (λ _. tt)

module _ {W : Type 0} (p : Providers W) (plan : ProfiledDeploymentPlan) (v : Verified) where
  pub recollect-writes : (s : Session W) → writes (recollect p plan v s).1.trace ≡ writes s.trace
  unfolding recollect
  recollect-writes s = go (live_read_only_target v.device)
    where
      go :
          (r : Result ProfileReadOnlyTarget)
          → writes
              (continue r (λ target. observe p target v.credentials plan.interface.name) s).1.trace
            ≡ writes s.trace
      go (ok target) = refl
      go (raised e) = refl

  module _ (expected : FinalOutcome → List Event) where
    execute_cisco-Traced :
        (target : ProfiledWriteTarget) (artifact : Option CiscoConfigArtifact)
        (f : ExecutionResult → Exec W ProfiledChangeRecord) (s : Session W)
        → ((result : ExecutionResult) (s' : Session W)
            → writes s'.trace ≡ cisco_write artifact ∷ writes s.trace
            → Traced expected (f result s'))
        → Traced expected (
            continue
              (execute_cisco p plan target v artifact s).0
              f
              (execute_cisco p plan target v artifact s).1)
    unfolding execute_cisco
    execute_cisco-Traced target artifact f s k = elim (Bool-cases (cisco_target_valid target)) [
      | inl valid ↦ rw valid (continue-Traced expected _ f _ (λ result _. k result _ refl))
      | inr invalid ↦ rw invalid tt
    ]

module _ {W : Type 0} (p : Providers W) (plan : ProfiledDeploymentPlan) (approval : String)
    (v : Verified) (target : ProfiledWriteTarget) (preflight execution : StageResult)
    (artifact : CiscoConfigArtifact) (before : List Event) where
  abbrev expected : FinalOutcome → List Event
  expected = cisco_writes plan artifact before

  abbrev WroteOnce : Session W → Type 0
  WroteOnce s = writes s.trace ≡ cisco_write (some artifact) ∷ before

  abbrev WroteTwice : Session W → Type 0
  WroteTwice s =
      writes s.trace ≡ cisco_write plan.recovery_artifact ∷ cisco_write (some artifact) ∷ before

  reconcile-Traced :
      (r : Result InterfaceState) (s : Session W)
      → WroteOnce s
      → Traced expected (reconcile p plan approval v target preflight execution r s)
  unfolding reconcile
  reconcile-Traced (ok observed) s h = make_record-Traced expected p plan approval _ _ s h
  reconcile-Traced (raised e) s h = io-Traced expected p plan approval e _ _ s h

  judge_restored-Traced :
      (post recovery : StageResult) (r : Result InterfaceState) (s : Session W)
      → WroteTwice s
      → Traced expected
          (judge_restored p plan approval v target preflight execution post recovery r s)
  unfolding judge_restored
  judge_restored-Traced post recovery (raised e) s h =
      io-Traced expected p plan approval e recovery_failed _ s h
  judge_restored-Traced post recovery (ok restored) s h =
      make_record-Traced expected p plan approval _ _ s (h ∙ sym (either _))
    where
      either :
          (b : Bool)
          → expected (if b then recovered else recovery_failed)
            ≡ cisco_write plan.recovery_artifact ∷ cisco_write (some artifact) ∷ before
      either true = refl
      either false = refl

  after_recovery-Traced :
      (post recovery : StageResult) (d : ExecutionDisposition) (s : Session W)
      → WroteTwice s
      → Traced expected
          (after_recovery p plan approval v target preflight execution post recovery d s)
  unfolding after_recovery
  after_recovery-Traced post recovery ExecutionDisposition.succeeded s h =
      judge_restored-Traced post recovery _ _ (recollect-writes p plan v s ∙ h)
  after_recovery-Traced post recovery ExecutionDisposition.failed s h =
      make_record-Traced expected p plan approval _ _ s h
  after_recovery-Traced post recovery ExecutionDisposition.ambiguous s h =
      make_record-Traced expected p plan approval _ _ s h

  recover-Traced :
      (observed : InterfaceState) (s : Session W)
      → WroteOnce s
      → Traced expected (recover p plan approval v target preflight execution observed s)
  unfolding recover
  recover-Traced observed s h =
      execute_cisco-Traced p plan v expected target plan.recovery_artifact _ s (λ result s' wrote.
        after_recovery-Traced _ _ result.disposition s'
          (wrote ∙ ap (λ es. cisco_write plan.recovery_artifact ∷ es) h))

  post_validate-Traced :
      (r : Result InterfaceState) (s : Session W)
      → WroteOnce s
      → Traced expected (post_validate p plan approval v target preflight execution r s)
  unfolding post_validate
  post_validate-Traced (raised e) s h = io-Traced expected p plan approval e _ _ s h
  post_validate-Traced (ok o) s h =
      if-Traced expected (identity_holds plan o && o.description == some plan.desired_description) _
        _ s (λ _. make_record-Traced expected p plan approval _ _ s h)
        (λ _.
          if-Traced expected (not (identity_holds plan o)) _ _ s
            (λ _. make_record-Traced expected p plan approval _ _ s h) (λ _. recover-Traced o s h))

  after_write-Traced :
      (d : ExecutionDisposition) (s : Session W)
      → WroteOnce s
      → Traced expected (after_write p plan approval v target preflight execution d s)
  unfolding after_write
  after_write-Traced ExecutionDisposition.succeeded s h =
      post_validate-Traced _ _ (recollect-writes p plan v s ∙ h)
  after_write-Traced ExecutionDisposition.failed s h =
      make_record-Traced expected p plan approval _ _ s h
  after_write-Traced ExecutionDisposition.ambiguous s h =
      reconcile-Traced _ _ (recollect-writes p plan v s ∙ h)

-- For all answers of the providers, a run of the Cisco branch that returns a record has performed
-- exactly these writes: the approved artifact once, and, where the record's outcome is one of the
-- recovery, after it the plan's recovery artifact once. An ambiguous write is never repeated.
pub cisco_lifecycle-Traced :
    {W : Type 0} (p : Providers W) (plan : ProfiledDeploymentPlan) (approval : String)
    (v : Verified) (target : ProfiledWriteTarget) (preflight : StageResult)
    (artifact : CiscoConfigArtifact) (s : Session W)
    → Traced
        (cisco_writes plan artifact (writes s.trace))
        (cisco_lifecycle p plan approval v target preflight artifact s)
unfolding cisco_lifecycle
cisco_lifecycle-Traced p plan approval v target preflight artifact s =
    execute_cisco-Traced p plan v (cisco_writes plan artifact (writes s.trace)) target
      (some artifact) _ s
      (λ result s' wrote.
        after_write-Traced p plan approval v target preflight _ artifact (writes s.trace)
          result.disposition s' wrote)
