-- ===== src/Execution/Sound/CiscoPath.antt =====
-- The Cisco branch builds records that the validator accepts.
use network_change_delivery.Base.{
  ap, not, ◌≡◌, refl, true, false, ◌&&◌, Option, none, some, arith, ◌==◌, beq_refl, string_eq,
  option_eq, option_beq,
}
use network_change_delivery.Raise.{Result, ok, raised}
use network_change_delivery.Models.{
  ExecutionDisposition, ExecutionResult, is_done, InterfaceState, StageResult, CiscoConfigArtifact,
}
use network_change_delivery.Profile.{TransactionStrategy}
use network_change_delivery.Planning.{ProfiledDeploymentPlan}
use network_change_delivery.WriteAdapter.{ProfiledWriteTarget}
use network_change_delivery.Exec.{Session}
use network_change_delivery.Exec.Providers.{Providers}
use network_change_delivery.Execution.Record.{transition_valid}
use network_change_delivery.Execution.Stages.{post_stage}
use network_change_delivery.Execution.Preflight.{Verified}
use network_change_delivery.Execution.Cisco.{
  write_stage, identity_holds, execute_cisco, reconcile, judge_restored, after_recovery, recover,
  post_validate, after_write, cisco_lifecycle,
}
use network_change_delivery.Execution.Lifecycle.{verified_stage}
use network_change_delivery.Execution.Sound.Records.{
  PlanFacts, Sound, Benign, stages_valid, lifecycle_valid, transition-observed, transition_unknown,
  continue-Sound, io-Sound, if-Sound, make_record-Sound,
}

module _ {W : Type 0} (p : Providers W) (plan : ProfiledDeploymentPlan) (facts : PlanFacts plan)
    (on_cisco : plan.operation_admission.transaction_strategy
      ≡ TransactionStrategy.cisco_targeted_inverse)
    (v : Verified) (target : ProfiledWriteTarget) where
  abbrev pre : StageResult
  pre = verified_stage plan.current_description

  -- A record without observed facts in its post-validation.
  unobserved : transition_valid none none plan.current_description ≡ true
  unobserved = transition_unknown none plan.current_description

  same : option_beq plan.current_description plan.current_description ≡ true
  same = beq_refl plan.current_description

  execute_cisco-Benign :
      (artifact : Option CiscoConfigArtifact) (s : Session W)
      → Benign (execute_cisco p plan target v artifact s).0
  unfolding execute_cisco
  execute_cisco-Benign artifact s = ground arith

  reconcile-Sound :
      (result : ExecutionResult) (r : Result InterfaceState) (s : Session W)
      → is_done result.disposition ≡ false
      → Sound plan (reconcile p plan plan.digest v target pre (write_stage result) r s).0
  unfolding reconcile stages_valid lifecycle_valid
  reconcile-Sound result (ok o) s h =
      make_record-Sound plan facts p _ _ s refl
        (ground (arith, on_cisco, same, transition-observed plan o))
  reconcile-Sound result (raised e) s h =
      io-Sound plan e _ s
        (make_record-Sound plan facts p _ _ s refl (ground (arith, on_cisco, same, unobserved)))

  module _ (result : ExecutionResult) (wrote : is_done result.disposition ≡ true)
      (o : InterfaceState) (identity : identity_holds plan o ≡ true)
      (other : (o.description == some plan.desired_description) ≡ false) where
    abbrev post : StageResult
    post = post_stage "desired state not observed" false plan o

    judge_restored-Sound :
        (inverse : ExecutionResult) (r : Result InterfaceState) (s : Session W)
        → is_done inverse.disposition ≡ true
        → Sound plan
            (judge_restored p plan plan.digest v target pre
              (write_stage result)
              post
              (write_stage inverse)
              r
              s).0
    unfolding judge_restored stages_valid lifecycle_valid
    judge_restored-Sound inverse (raised e) s h = io-Sound plan e _ s (
        make_record-Sound plan facts p _ _ s refl
          (ground (arith, on_cisco, same, transition-observed plan o)))
    judge_restored-Sound inverse (ok restored) s h =
        make_record-Sound plan facts p _ _ s refl
          (ground (arith, on_cisco, same, transition-observed plan o))

    after_recovery-Sound :
        (inverse : ExecutionResult) (d : ExecutionDisposition) (s : Session W)
        → inverse.disposition ≡ d
        → Sound plan
            (after_recovery p plan plan.digest v target pre
              (write_stage result)
              post
              (write_stage inverse)
              d
              s).0
    unfolding after_recovery stages_valid lifecycle_valid
    after_recovery-Sound inverse ExecutionDisposition.succeeded s e =
        judge_restored-Sound inverse _ _ (ap is_done e)
    after_recovery-Sound inverse ExecutionDisposition.failed s e =
        make_record-Sound plan facts p _ _ s refl
          (ground (arith, on_cisco, same, transition-observed plan o))
    after_recovery-Sound inverse ExecutionDisposition.ambiguous s e =
        make_record-Sound plan facts p _ _ s refl
          (ground (arith, on_cisco, same, transition-observed plan o))

    recover-Sound :
        (s : Session W)
        → Sound plan (recover p plan plan.digest v target pre (write_stage result) o s).0
    unfolding recover
    recover-Sound s =
        continue-Sound plan _ _ _ (execute_cisco-Benign plan.recovery_artifact s)
          (λ inverse _. after_recovery-Sound inverse inverse.disposition _ refl)

  post_validate-Sound :
      (result : ExecutionResult) (r : Result InterfaceState) (s : Session W)
      → is_done result.disposition ≡ true
      → Sound plan (post_validate p plan plan.digest v target pre (write_stage result) r s).0
  unfolding post_validate stages_valid lifecycle_valid
  post_validate-Sound result (raised e) s h =
      io-Sound plan e _ s
        (make_record-Sound plan facts p _ _ s refl (ground (arith, on_cisco, same, unobserved)))
  post_validate-Sound result (ok o) s h =
      if-Sound plan (identity_holds plan o && o.description == some plan.desired_description) _ _ s
        (λ holds.
          make_record-Sound plan facts p _ _ s refl
            (ground (arith, on_cisco, same, transition-observed plan o)))
        (λ fails.
          if-Sound plan (not (identity_holds plan o)) _ _ s
            (λ mismatch.
              make_record-Sound plan facts p _ _ s refl
                (ground (arith, on_cisco, same, transition-observed plan o)))
            (λ match. recover-Sound result h o (ground arith) (ground arith) s))

  after_write-Sound :
      (result : ExecutionResult) (d : ExecutionDisposition) (s : Session W)
      → result.disposition ≡ d
      → Sound plan (after_write p plan plan.digest v target pre (write_stage result) d s).0
  unfolding after_write stages_valid lifecycle_valid
  after_write-Sound result ExecutionDisposition.succeeded s e =
      post_validate-Sound result _ _ (ap is_done e)
  after_write-Sound result ExecutionDisposition.failed s e =
      make_record-Sound plan facts p _ _ s refl (ground (arith, on_cisco, same, unobserved))
  after_write-Sound result ExecutionDisposition.ambiguous s e =
      reconcile-Sound result _ _ (ap is_done e)

  pub cisco_lifecycle-Sound :
      (artifact : CiscoConfigArtifact) (s : Session W)
      → Sound plan (cisco_lifecycle p plan plan.digest v target pre artifact s).0
  unfolding cisco_lifecycle
  cisco_lifecycle-Sound artifact s =
      continue-Sound plan _ _ _ (execute_cisco-Benign (some artifact) s)
        (λ result _. after_write-Sound result result.disposition _ refl)
