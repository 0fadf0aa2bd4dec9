-- ===== src/Execution/JunosWrites.antt =====
-- The writes that the Junos lifecycle performs, exactly, for each outcome of its record.
use network_change_delivery.Base.{
  String, Bool, true, false, not, ◌||◌, ◌≡◌, refl, ap, ◌∙◌, List, ◌∷◌, some, Bool-cases, inl, inr,
  ◌==◌, string_eq, option_eq,
}
use network_change_delivery.Raise.{Result, ok, raised, is_io}
use network_change_delivery.Models.Digest.{Sha256Digest}
use network_change_delivery.Models.{
  FinalOutcome, blocked, execution_failed, ambiguous, auto_rollback_pending, confirmation_failed,
  confirmation_ambiguous, ExecutionDisposition, ExecutionResult, InterfaceState,
  JunosConfigArtifact, StageResult,
}
use network_change_delivery.Planning.{ProfiledDeploymentPlan}
use network_change_delivery.WriteAdapter.{ProfiledWriteTarget, junos_target_valid}
use network_change_delivery.Exec.{
  Event, Session, Exec, continue, writes, junos_commit, junos_confirm,
}
use network_change_delivery.Exec.Providers.{Providers}
use network_change_delivery.Execution.Record.{ProfiledChangeRecord}
use network_change_delivery.Execution.Preflight.{Verified}
use network_change_delivery.Execution.Cisco.{identity_holds}
use network_change_delivery.Execution.Junos.{
  enter_transaction, confirm_junos, after_confirm, confirm, judge_observed, after_close,
  classify_commit, after_commit, after_prepare, after_enter, junos_lifecycle,
}
use network_change_delivery.Execution.Writes.{
  Traced, if-Traced, continue-Traced, make_record-Traced, io-Traced, recollect-writes,
}

-- The writes of a run with this outcome in front of those before it: none where the candidate was
-- refused, the confirmed commit of five minutes, and the confirmation where it was asked for.
abbrev pub junos_writes : List Event → FinalOutcome → List Event
junos_writes before FinalOutcome.succeeded = junos_confirm ∷ junos_commit 5 ∷ before
junos_writes before confirmation_failed = junos_confirm ∷ junos_commit 5 ∷ before
junos_writes before confirmation_ambiguous = junos_confirm ∷ junos_commit 5 ∷ before
junos_writes before execution_failed = junos_commit 5 ∷ before
junos_writes before ambiguous = junos_commit 5 ∷ before
junos_writes before auto_rollback_pending = junos_commit 5 ∷ before
junos_writes before _ = before

module _ {W : Type 0} (p : Providers W) (plan : ProfiledDeploymentPlan) (approval : String)
    (v : Verified) (target : ProfiledWriteTarget) (preflight : StageResult)
    (before : List Event) where
  abbrev expected : FinalOutcome → List Event
  expected = junos_writes before

  abbrev Unwritten : Session W → Type 0
  Unwritten s = writes s.trace ≡ before

  abbrev Committed : Session W → Type 0
  Committed s = writes s.trace ≡ junos_commit 5 ∷ before

  enter_transaction-writes :
      (artifact : JunosConfigArtifact) (s : Session W)
      → writes (enter_transaction p target v artifact s).1.trace ≡ writes s.trace
  unfolding enter_transaction
  enter_transaction-writes artifact s = elim (Bool-cases (junos_target_valid target)) [
    | inl valid ↦ rw valid refl
    | inr invalid ↦ rw invalid refl
  ]

  confirm_junos-Traced :
      (f : ExecutionResult → Exec W ProfiledChangeRecord) (s : Session W)
      → ((result : ExecutionResult) (s' : Session W)
          → writes s'.trace ≡ junos_confirm ∷ writes s.trace
          → Traced expected (f result s'))
      → Traced expected (continue (confirm_junos p target v s).0 f (confirm_junos p target v s).1)
  unfolding confirm_junos
  confirm_junos-Traced f s k = elim (Bool-cases (junos_target_valid target)) [
    | inl valid ↦ rw valid (continue-Traced expected _ f _ (λ result _. k result _ refl))
    | inr invalid ↦ rw invalid tt
  ]

  module _ (diff : Sha256Digest) (execution : StageResult) where
    after_confirm-Traced :
        (o : InterfaceState) (c : StageResult) (d : ExecutionDisposition) (s : Session W)
        → writes s.trace ≡ junos_confirm ∷ junos_commit 5 ∷ before
        → Traced expected (after_confirm p plan approval v target preflight diff execution o c d s)
    unfolding after_confirm
    after_confirm-Traced o c ExecutionDisposition.succeeded s h =
        make_record-Traced expected p plan approval _ _ s h
    after_confirm-Traced o c ExecutionDisposition.failed s h =
        make_record-Traced expected p plan approval _ _ s h
    after_confirm-Traced o c ExecutionDisposition.ambiguous s h =
        make_record-Traced expected p plan approval _ _ s h

    confirm-Traced :
        (o : InterfaceState) (s : Session W)
        → Committed s
        → Traced expected (confirm p plan approval v target preflight diff execution o s)
    unfolding confirm
    confirm-Traced o s h = confirm_junos-Traced _ s (λ result s' wrote.
        after_confirm-Traced o _ result.disposition s' (wrote ∙ ap (λ es. junos_confirm ∷ es) h))

    judge_observed-Traced :
        (r : Result InterfaceState) (s : Session W)
        → Committed s
        → Traced expected (judge_observed p plan approval v target preflight diff execution r s)
    unfolding judge_observed
    judge_observed-Traced (raised e) s h = io-Traced expected p plan approval e _ _ s h
    judge_observed-Traced (ok o) s h =
        if-Traced expected
          (not (identity_holds plan o) || not (o.description == some plan.desired_description)) _ _
          s (λ _. make_record-Traced expected p plan approval _ _ s h) (λ _. confirm-Traced o s h)

    after_close-Traced :
        (b : Bool) (s : Session W)
        → Committed s
        → Traced expected (after_close p plan approval v target preflight diff execution b s)
    unfolding after_close
    after_close-Traced true s h = make_record-Traced expected p plan approval _ _ s h
    after_close-Traced false s h = judge_observed-Traced _ _ (recollect-writes p plan v s ∙ h)

    classify_commit-Traced :
        (d : ExecutionDisposition) (left : Bool) (s : Session W)
        → Committed s
        → Traced expected
            (classify_commit p plan approval v target preflight diff d execution left s)
    unfolding classify_commit
    classify_commit-Traced ExecutionDisposition.succeeded left s h = after_close-Traced _ s h
    classify_commit-Traced ExecutionDisposition.failed left s h =
        make_record-Traced expected p plan approval _ _ s h
    classify_commit-Traced ExecutionDisposition.ambiguous left s h =
        make_record-Traced expected p plan approval _ _ s h

  after_commit-Traced :
      (diff : Sha256Digest) (r : Result ExecutionResult) (s : Session W)
      → Committed s
      → Traced expected (after_commit p plan approval v target preflight diff r s)
  unfolding after_commit
  after_commit-Traced diff (raised e) s h = make_record-Traced expected p plan approval _ _ _ h
  after_commit-Traced diff (ok result) s h = classify_commit-Traced diff _ result.disposition _ _ h

  after_prepare-Traced :
      (r : Result Sha256Digest) (s : Session W)
      → Unwritten s
      → Traced expected (after_prepare p plan approval v target preflight r s)
  unfolding after_prepare
  after_prepare-Traced (raised e) s h =
      if-Traced expected (is_io e) _ _ s
        (λ _. make_record-Traced expected p plan approval blocked _ _ h) (λ _. tt)
  after_prepare-Traced (ok diff) s h =
      after_commit-Traced diff _ _ (ap (λ es. junos_commit 5 ∷ es) h)

  after_enter-Traced :
      (r : Result (Unit {0})) (s : Session W)
      → Unwritten s
      → Traced expected (after_enter p plan approval v target preflight r s)
  unfolding after_enter
  after_enter-Traced (raised e) s h = io-Traced expected p plan approval e blocked _ s h
  after_enter-Traced (ok _) s h = after_prepare-Traced _ _ h

-- For all answers of the providers, a run of the Junos branch that returns a record has performed
-- exactly these writes: one confirmed commit of five minutes where the outcome is execution_failed,
-- ambiguous or auto_rollback_pending, the same commit and one confirmation after it where the outcome
-- is succeeded, confirmation_failed or confirmation_ambiguous, and none for any other outcome.
pub junos_lifecycle-Traced :
    {W : Type 0} (p : Providers W) (plan : ProfiledDeploymentPlan) (approval : String)
    (v : Verified) (target : ProfiledWriteTarget) (preflight : StageResult)
    (artifact : JunosConfigArtifact) (s : Session W)
    → Traced
        (junos_writes (writes s.trace))
        (junos_lifecycle p plan approval v target preflight artifact s)
unfolding junos_lifecycle
junos_lifecycle-Traced p plan approval v target preflight artifact s =
    after_enter-Traced p plan approval v target preflight (writes s.trace) _ _
      (enter_transaction-writes p plan approval v target preflight (writes s.trace) artifact s)
