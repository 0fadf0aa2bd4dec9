-- ===== src/Execution/Sound/JunosPath.antt =====
-- The Junos branch builds records that the validator accepts.
use network_change_delivery.Base.{
  String, not, ◌≡◌, refl, Bool, true, false, ◌||◌, none, some, arith, ◌==◌, beq_refl, string_eq,
  option_eq, option_beq, bool_beq,
}
use network_change_delivery.Raise.{Result, ok, raised}
use network_change_delivery.Models.Digest.{Sha256Digest}
use network_change_delivery.Models.{
  blocked, outcome_beq, ExecutionDisposition, ExecutionResult, is_done, InterfaceState, StageResult,
  JunosConfigArtifact,
}
use network_change_delivery.Profile.{TransactionStrategy}
use network_change_delivery.Planning.{ProfiledDeploymentPlan}
use network_change_delivery.WriteAdapter.{ProfiledWriteTarget}
use network_change_delivery.Exec.{Session}
use network_change_delivery.Exec.Providers.{Providers}
use network_change_delivery.Execution.Record.{transition_valid}
use network_change_delivery.Execution.Stages.{make_record}
use network_change_delivery.Execution.Preflight.{Verified}
use network_change_delivery.Execution.Cisco.{write_stage, identity_holds}
use network_change_delivery.Execution.Junos.{
  confirm_junos, after_confirm, confirm, judge_observed, after_close, classify_commit, after_commit,
  after_prepare, after_enter, junos_lifecycle, rejected_candidate,
}
use network_change_delivery.Execution.Lifecycle.{verified_stage}
use network_change_delivery.Execution.Sound.Records.{
  PlanFacts, Sound, Benign, stages_valid, lifecycle_valid, transition-observed, transition_unknown,
  continue-Sound, io-Sound, if-Sound, make_record-Sound,
}

module _ {W : Type 0} (p : Providers W) (plan : ProfiledDeploymentPlan) (facts : PlanFacts plan)
    (on_junos : plan.operation_admission.transaction_strategy
      ≡ TransactionStrategy.junos_commit_confirmed)
    (v : Verified) (target : ProfiledWriteTarget) where
  abbrev pre : StageResult
  pre = verified_stage plan.current_description

  -- A record without observed facts in its post-validation.
  unobserved : transition_valid none none plan.current_description ≡ true
  unobserved = transition_unknown none plan.current_description

  same : option_beq plan.current_description plan.current_description ≡ true
  same = beq_refl plan.current_description

  confirm_junos-Benign : (s : Session W) → Benign (confirm_junos p target v s).0
  unfolding confirm_junos
  confirm_junos-Benign s = ground arith

  module _ (diff : Sha256Digest) where
    module _ (result : ExecutionResult) (wrote : is_done result.disposition ≡ true)
        (o : InterfaceState) (identity : identity_holds plan o ≡ true)
        (desired : (o.description == some plan.desired_description) ≡ true) where
      after_confirm-Sound :
          (c : ExecutionResult) (d : ExecutionDisposition) (s : Session W)
          → c.disposition ≡ d
          → Sound plan
              (after_confirm p plan plan.digest v target pre diff
                (write_stage result)
                o
                (write_stage c)
                d
                s).0
      unfolding after_confirm stages_valid lifecycle_valid bool_beq outcome_beq option_beq
      after_confirm-Sound c ExecutionDisposition.succeeded s e =
          make_record-Sound plan facts p _ _ s refl
            (ground (arith, on_junos, same, transition-observed plan o))
      after_confirm-Sound c ExecutionDisposition.failed s e =
          make_record-Sound plan facts p _ _ s refl
            (ground (arith, on_junos, same, transition-observed plan o))
      after_confirm-Sound c ExecutionDisposition.ambiguous s e =
          make_record-Sound plan facts p _ _ s refl
            (ground (arith, on_junos, same, transition-observed plan o))

      confirm-Sound :
          (s : Session W)
          → Sound plan (confirm p plan plan.digest v target pre diff (write_stage result) o s).0
      unfolding confirm
      confirm-Sound s =
          continue-Sound plan _ _ _ (confirm_junos-Benign s)
            (λ c _. after_confirm-Sound c c.disposition _ refl)

    judge_observed-Sound :
        (result : ExecutionResult) (r : Result InterfaceState) (s : Session W)
        → is_done result.disposition ≡ true
        → Sound plan
            (judge_observed p plan plan.digest v target pre diff (write_stage result) r s).0
    unfolding judge_observed stages_valid lifecycle_valid
    judge_observed-Sound result (raised e) s h =
        io-Sound plan e _ s
          (make_record-Sound plan facts p _ _ s refl (ground (arith, on_junos, same, unobserved)))
    judge_observed-Sound result (ok o) s h =
        if-Sound plan
          (not (identity_holds plan o) || not (o.description == some plan.desired_description)) _ _
          s
          (λ differs.
            make_record-Sound plan facts p _ _ s refl
              (ground (arith, on_junos, same, transition-observed plan o)))
          (λ holds. confirm-Sound result h o (ground arith) (ground arith) s)

    after_close-Sound :
        (result : ExecutionResult) (b : Bool) (s : Session W)
        → is_done result.disposition ≡ true
        → Sound plan (after_close p plan plan.digest v target pre diff (write_stage result) b s).0
    unfolding after_close stages_valid lifecycle_valid
    after_close-Sound result true s h =
        make_record-Sound plan facts p _ _ s refl (ground (arith, on_junos, same, unobserved))
    after_close-Sound result false s h = judge_observed-Sound result _ _ h

    classify_commit-Sound :
        (result : ExecutionResult) (d : ExecutionDisposition) (left : Bool) (s : Session W)
        → result.disposition ≡ d
        → Sound plan
            (classify_commit p plan plan.digest v target pre diff d (write_stage result) left s).0
    unfolding classify_commit stages_valid lifecycle_valid
    classify_commit-Sound result ExecutionDisposition.succeeded left s e =
        after_close-Sound result _ s (ground (arith, e))
    classify_commit-Sound result ExecutionDisposition.failed left s e =
        make_record-Sound plan facts p _ _ s refl (ground (arith, on_junos, same, unobserved))
    classify_commit-Sound result ExecutionDisposition.ambiguous left s e =
        make_record-Sound plan facts p _ _ s refl (ground (arith, on_junos, same, unobserved))

    after_commit-Sound :
        (r : Result ExecutionResult) (s : Session W)
        → Sound plan (after_commit p plan plan.digest v target pre diff r s).0
    unfolding after_commit stages_valid lifecycle_valid
    after_commit-Sound (raised e) s =
        make_record-Sound plan facts p _ _ _ refl (ground (arith, on_junos, same, unobserved))
    after_commit-Sound (ok result) s = classify_commit-Sound result result.disposition _ _ refl

  -- A candidate that was refused before its commit.
  rejected-Sound :
      (message : String) (s : Session W)
      → Sound plan (make_record p plan plan.digest blocked (rejected_candidate pre message) s).0
  unfolding stages_valid lifecycle_valid
  rejected-Sound message s =
      make_record-Sound plan facts p _ _ s refl (ground (arith, on_junos, same, unobserved))

  after_prepare-Sound :
      (r : Result Sha256Digest) (s : Session W)
      → Sound plan (after_prepare p plan plan.digest v target pre r s).0
  unfolding after_prepare stages_valid lifecycle_valid
  after_prepare-Sound (raised e) s = io-Sound plan e _ s (rejected-Sound _ _)
  after_prepare-Sound (ok diff) s = after_commit-Sound diff _ _

  after_enter-Sound :
      (r : Result (Unit {0})) (s : Session W)
      → Sound plan (after_enter p plan plan.digest v target pre r s).0
  unfolding after_enter stages_valid lifecycle_valid
  after_enter-Sound (raised e) s = io-Sound plan e _ s (rejected-Sound _ s)
  after_enter-Sound (ok _) s = after_prepare-Sound _ _

  pub junos_lifecycle-Sound :
      (artifact : JunosConfigArtifact) (s : Session W)
      → Sound plan (junos_lifecycle p plan plan.digest v target pre artifact s).0
  unfolding junos_lifecycle
  junos_lifecycle-Sound artifact s = after_enter-Sound _ _
