-- ===== src/Execution/Lifecycle.antt =====
-- `execute_profiled_plan`: the guards in front of any call, the runtime prerequisite, the preflight
-- and the branch for the artifact.
use network_change_delivery.Base.{
  String, true, false, not, Option, some, ◌!=◌, string_eq, if◌then◌else◌,
}
use network_change_delivery.Raise.{
  Result, ok, raised, provider, deployment_runtime_fault, profiled_execution, value_error,
}
use network_change_delivery.Models.{
  FinalOutcome, blocked, StageResult, ConfigArtifact, cisco, junos,
}
use network_change_delivery.Models.Digest.{is_digest}
use network_change_delivery.Profile.{TransportFamily}
use network_change_delivery.Planning.{ProfiledDeploymentPlan, Hashing}
use network_change_delivery.Planning.Validator.{verify_digest}
use network_change_delivery.WriteAdapter.{ProfiledWriteTarget, from_preflight}
use network_change_delivery.Exec.{
  Exec, pure, raise, lift, attempt, ◌>>=◌, ◌>>◌, raise_if, verify_runtime,
}
use network_change_delivery.Exec.Providers.{Providers, ask}
use network_change_delivery.Execution.Record.{ProfiledChangeRecord}
use network_change_delivery.Execution.Stages.{stage, only_preflight, make_record}
use network_change_delivery.Execution.Preflight.{Verified, preflight}
use network_change_delivery.Execution.Cisco.{cisco_lifecycle}
use network_change_delivery.Execution.Junos.{junos_lifecycle}

-- The stage of a successful preflight.
abbrev pub verified_stage : Option String → StageResult
verified_stage description = record {
  attempted = true;
  succeeded = some true;
  changed = Option.none;
  observed_description = description;
  message = "fresh profiled identity and preconditions verified";
}

module _ {W : Type 0} (p : Providers W) (plan : ProfiledDeploymentPlan) (approval : String) where
  unfoldable pub blocked_record : FinalOutcome → String → Exec W ProfiledChangeRecord
  blocked_record outcome message =
      make_record p plan approval outcome (only_preflight (stage message false))

  -- `writer.verify_cisco_runtime()` for the Ansible transport
  unfoldable pub runtime_step : TransportFamily → Exec W (Unit {0})
  runtime_step TransportFamily.ansible_network_cli = ask verify_runtime p.verify_cisco_runtime
  runtime_step TransportFamily.junos_pyez_netconf = pure tt

  -- The second `try` block: preflight and write target.
  unfoldable pub verified_target : Exec W (Verified × ProfiledWriteTarget)
  verified_target = do
    v ← preflight p plan
    target ← lift (from_preflight v.device plan.interface)
    pure (v, target)

  -- `isinstance(plan.execution_artifact, CiscoConfigArtifact)` and the other branch
  unfoldable pub apply_artifact :
      Verified → ProfiledWriteTarget → ConfigArtifact → Exec W ProfiledChangeRecord
  apply_artifact v target (cisco artifact) =
      cisco_lifecycle p plan approval v target (verified_stage v.state.description) artifact
  apply_artifact v target (junos artifact) =
      junos_lifecycle p plan approval v target (verified_stage v.state.description) artifact

  unfoldable pub after_preflight :
      Result (Verified × ProfiledWriteTarget) → Exec W ProfiledChangeRecord
  unfolding blocked_record apply_artifact
  after_preflight (ok (v, target)) = apply_artifact v target plan.execution_artifact
  after_preflight (raised (profiled_execution outcome message)) = blocked_record outcome message
  after_preflight (raised e) = raise e

  unfoldable pub after_runtime : Result (Unit {0}) → Exec W ProfiledChangeRecord
  unfolding verified_target after_preflight
  after_runtime (ok _) = do prepared ← attempt verified_target; after_preflight prepared
  after_runtime (raised (provider deployment_runtime_fault)) =
      blocked_record blocked "deployment Ansible runtime prerequisites unavailable"
  after_runtime (raised e) = raise e

  module _ (hashing : Hashing) where
    -- `execute_profiled_plan`
    unfoldable pub execute_profiled_plan : Exec W ProfiledChangeRecord
    unfolding runtime_step after_runtime
    execute_profiled_plan = do
      raise_if (not (is_digest approval)) (value_error "approval digest is invalid")
      raise_if (approval != plan.digest)
          (profiled_execution blocked "approval digest does not match plan")
      if verify_digest hashing plan
          then (do
            ready ← attempt (runtime_step plan.operation_admission.transport_family)
            after_runtime ready)
          else blocked_record blocked "plan digest is invalid"
