-- ===== src/Execution/Sound/Whole.antt =====
-- The whole of `execute_profiled_plan`: its records are accepted, and it writes only on approval.
use network_change_delivery.Base.{
  String, Bool, true, false, not, ◌≡◌, refl, sym, subst, ◌⊎◌, inl, inr, arith, ◌==◌, ◌!=◌,
  string_eq, none, same_text_iff, Bool-cases,
}
use network_change_delivery.Raise.{
  Exn, Result, ok, raised, value_error, profiled_execution, provider, runtime_error,
  validation_error, value_fault, os_fault, runtime_fault, deployment_runtime_fault, other_fault,
}
use network_change_delivery.Models.{FinalOutcome, blocked, stale_plan, ConfigArtifact, cisco, junos}
use network_change_delivery.Profile.{TransportFamily}
use network_change_delivery.Planning.{ProfiledDeploymentPlan, Hashing}
use network_change_delivery.Planning.Validator.{exact_profiled_plan, verify_digest}
use network_change_delivery.WriteAdapter.{ProfiledWriteTarget, from_preflight}
use network_change_delivery.Exec.{Session, Exec, raise_if, ◌>>◌, pure, continue, lift, ◌>>=◌}
use network_change_delivery.Exec.Holds.{Holds, Quiet}
use network_change_delivery.Exec.Providers.{Providers}
use network_change_delivery.Execution.Record.{ProfiledChangeRecord}
use network_change_delivery.Execution.Stages.{stage, only_preflight, make_record}
use network_change_delivery.Execution.Preflight.{Verified, preflight}
use network_change_delivery.Execution.Cisco.{cisco_lifecycle}
use network_change_delivery.Execution.Junos.{junos_lifecycle}
use network_change_delivery.Execution.Lifecycle.{
  verified_stage, blocked_record, runtime_step, verified_target, apply_artifact, after_preflight,
  after_runtime, execute_profiled_plan,
}
use network_change_delivery.Models.Digest.{is_digest}
use network_change_delivery.Execution.Sound.Records.{
  PlanFacts, Sound, Benign, strategy_of, stages_valid, lifecycle_valid, make_record-Sound,
  transition_unknown, if-Sound,
}
use network_change_delivery.Execution.Sound.CiscoPath.{cisco_lifecycle-Sound}
use network_change_delivery.Execution.Sound.JunosPath.{junos_lifecycle-Sound}
use network_change_delivery.Execution.Sound.Admitted.{plan_facts}
use network_change_delivery.Execution.Sound.Prepared.{
  Stopped, Writable, Prepared, preflight-Stepped,
}

-- What the second `try` block hands on.
abbrev Targeted : ProfiledDeploymentPlan → Result (Verified × ProfiledWriteTarget) → Type 0
Targeted plan (ok (v, target)) = v.state.description ≡ plan.current_description
Targeted plan (raised e) = Stopped e

abbrev BenignTarget : Result ProfiledWriteTarget → Type 0
BenignTarget (ok target) = Unit
BenignTarget (raised e) = Stopped e

module _ {W : Type 0} (p : Providers W) (plan : ProfiledDeploymentPlan)
    (facts : PlanFacts plan) where
  guard-Sound :
      (b : Bool) (e : Exn) (rest : Exec W ProfiledChangeRecord) (s : Session W)
      → Sound plan (raised e)
      → (b ≡ false → Sound plan (rest s).0)
      → Sound plan ((raise_if b e >> rest) s).0
  guard-Sound true e rest s h k = h
  guard-Sound false e rest s h k = k refl

  blocked_record-Sound :
      (outcome : FinalOutcome) (message : String) (s : Session W)
      → (outcome ≡ blocked) ⊎ (outcome ≡ stale_plan)
      → Sound plan (blocked_record p plan plan.digest outcome message s).0
  unfolding blocked_record stages_valid lifecycle_valid
  blocked_record-Sound outcome message s (inl e) =
      subst
        (λ o.
          Sound plan (make_record p plan plan.digest o (only_preflight (stage message false)) s).0)
        (sym e)
        (make_record-Sound plan facts p blocked _ s refl
          (ground (arith, transition_unknown none plan.current_description)))
  blocked_record-Sound outcome message s (inr e) =
      subst
        (λ o.
          Sound plan (make_record p plan plan.digest o (only_preflight (stage message false)) s).0)
        (sym e)
        (make_record-Sound plan facts p stale_plan _ s refl
          (ground (arith, transition_unknown none plan.current_description)))

  from_preflight-Benign :
      (v : Verified) → Writable v.device → BenignTarget (from_preflight v.device plan.interface)
  unfolding from_preflight
  from_preflight-Benign v w = rw w.admitted (rw w.reachable (ground arith))

  apply_artifact-Sound :
      (v : Verified) (target : ProfiledWriteTarget) (artifact : ConfigArtifact) (s : Session W)
      → v.state.description ≡ plan.current_description
      → plan.operation_admission.transaction_strategy ≡ strategy_of artifact
      → Sound plan (apply_artifact p plan plan.digest v target artifact s).0
  unfolding apply_artifact
  apply_artifact-Sound v target (cisco artifact) s same on_cisco =
      subst
        (λ d.
          Sound plan (cisco_lifecycle p plan plan.digest v target (verified_stage d) artifact s).0)
        (sym same) (cisco_lifecycle-Sound p plan facts on_cisco v target artifact s)
  apply_artifact-Sound v target (junos artifact) s same on_junos =
      subst
        (λ d.
          Sound plan (junos_lifecycle p plan plan.digest v target (verified_stage d) artifact s).0)
        (sym same) (junos_lifecycle-Sound p plan facts on_junos v target artifact s)

  after_preflight-Sound :
      (r : Result (Verified × ProfiledWriteTarget)) (s : Session W)
      → Targeted plan r
      → Sound plan (after_preflight p plan plan.digest r s).0
  unfolding after_preflight
  after_preflight-Sound (ok (v, target)) s same =
      apply_artifact-Sound v target plan.execution_artifact s same facts.artifact
  after_preflight-Sound (raised (profiled_execution outcome message)) s stopped =
      blocked_record-Sound outcome message s stopped
  after_preflight-Sound (raised (provider x)) s stopped = tt
  after_preflight-Sound (raised (value_error m)) s stopped = tt
  after_preflight-Sound (raised (runtime_error m)) s stopped = tt
  after_preflight-Sound (raised validation_error) s stopped = stopped

  project-Targeted :
      (v : Verified) (r : Result ProfiledWriteTarget) (s : Session W)
      → v.state.description ≡ plan.current_description
      → BenignTarget r
      → Targeted plan (continue r (λ target. pure (v, target)) s).0
  project-Targeted v (ok target) s same b = same
  project-Targeted v (raised e) s same b = b

  verified_target-Targeted :
      (s : Session W) → Targeted plan (verified_target p plan plan.digest s).0
  unfolding verified_target
  verified_target-Targeted s = go (preflight p plan s) (preflight-Stepped p plan s)
    where
      go :
          (x : Result Verified × Session W)
          → Holds (λ v s'. Prepared plan v × Quiet s s') (λ e s'. Stopped e × Quiet s s') x
          → Targeted plan
              (continue x.0
                (λ v. lift (from_preflight v.device plan.interface) >>= λ target. pure (v, target))
                x.1).0
      go (ok v, s') (prepared, q) =
          project-Targeted v (from_preflight v.device plan.interface) s' prepared.unchanged
            (from_preflight-Benign v prepared.writable)
      go (raised e, s') (stopped, q) = stopped

  after_runtime-Sound :
      (r : Result (Unit {0})) (s : Session W)
      → Benign r
      → Sound plan (after_runtime p plan plan.digest r s).0
  unfolding after_runtime
  after_runtime-Sound (ok _) s b = after_preflight-Sound _ _ (verified_target-Targeted s)
  after_runtime-Sound (raised (provider deployment_runtime_fault)) s b =
      blocked_record-Sound blocked _ s (inl refl)
  after_runtime-Sound (raised (provider value_fault)) s b = tt
  after_runtime-Sound (raised (provider os_fault)) s b = tt
  after_runtime-Sound (raised (provider runtime_fault)) s b = tt
  after_runtime-Sound (raised (provider other_fault)) s b = tt
  after_runtime-Sound (raised (profiled_execution o m)) s b = tt
  after_runtime-Sound (raised (value_error m)) s b = tt
  after_runtime-Sound (raised (runtime_error m)) s b = tt
  after_runtime-Sound (raised validation_error) s b = b

  runtime_step-Benign :
      (transport : TransportFamily) (s : Session W)
      → Benign (runtime_step p plan plan.digest transport s).0
  unfolding runtime_step
  runtime_step-Benign TransportFamily.ansible_network_cli s = ground arith
  runtime_step-Benign TransportFamily.junos_pyez_netconf s = tt

  module _ (hashing : Hashing) where
    approved-Sound :
        (s : Session W) → Sound plan (execute_profiled_plan p plan plan.digest hashing s).0
    unfolding execute_profiled_plan
    approved-Sound s =
        guard-Sound (not (is_digest plan.digest)) (value_error "approval digest is invalid") _ s tt
          (λ _.
            guard-Sound (plan.digest != plan.digest)
              (profiled_execution blocked "approval digest does not match plan") _ s tt
              (λ _.
                if-Sound plan (verify_digest hashing plan) _ _ s
                  (λ _.
                    after_runtime-Sound
                      (runtime_step p plan plan.digest plan.operation_admission.transport_family
                        s).0
                      _ (runtime_step-Benign plan.operation_admission.transport_family s))
                  (λ _. blocked_record-Sound blocked "plan digest is invalid" s (inl refl))))

module _ (hashing : Hashing) (plan : ProfiledDeploymentPlan) {W : Type 0} (p : Providers W) where
  -- For every plan that its validator accepts, every approval digest and all answers of the
  -- providers, the run is not stopped by the validator of its own record, and a record that it
  -- returns passes `consistent_outcome` and `verify_profiled_record_plan` against the plan.
  pub execute_profiled_plan-Sound :
      (approval : String) (s : Session W)
      → exact_profiled_plan hashing plan ≡ true
      → Sound plan (execute_profiled_plan p plan approval hashing s).0
  unfolding execute_profiled_plan
  execute_profiled_plan-Sound approval s valid = elim (Bool-cases (approval == plan.digest)) [
    | inl same ↦
        subst (λ a. Sound plan (execute_profiled_plan p plan a hashing s).0)
          (sym ((same_text_iff approval plan.digest).0 same))
          (approved-Sound p plan (plan_facts hashing plan valid) hashing s)
    | inr differs ↦
        guard-Sound p plan (plan_facts hashing plan valid) (not (is_digest approval))
          (value_error "approval digest is invalid") _ s tt
          (λ _.
            guard-Sound p plan (plan_facts hashing plan valid) (approval != plan.digest)
              (profiled_execution blocked "approval digest does not match plan") _ s tt
              (λ same. ground (arith, same, differs)))
  ]
