-- ===== src/Execution/Cisco.antt =====
-- The Cisco part of `execute_profiled_plan`: one write, an independent observation, and at most one
-- targeted inverse.
use network_change_delivery.Base.{
  String, Bool, true, false, not, ◌&&◌, Option, none, some, ◌==◌, string_eq, option_eq,
  if◌then◌else◌,
}
use network_change_delivery.Raise.{Result, ok, raised, is_io, runtime_error}
use network_change_delivery.Models.{
  FinalOutcome, execution_failed, ambiguous, post_validation_failed, recovered, recovery_failed,
  recovery_ambiguous, ExecutionDisposition, ExecutionResult, is_done, StageResult, InterfaceState,
  CiscoConfigArtifact,
}
use network_change_delivery.Inventory.{live_read_only_target}
use network_change_delivery.Planning.{ProfiledDeploymentPlan}
use network_change_delivery.WriteAdapter.{ProfiledWriteTarget, cisco_target_valid}
use network_change_delivery.Exec.{Exec, raise, lift, attempt, ◌>>=◌, ◌>>◌, raise_if, cisco_write}
use network_change_delivery.Exec.Providers.{Providers, ask, observe}
use network_change_delivery.Execution.Record.{ProfiledChangeRecord}
use network_change_delivery.Execution.Stages.{Stages, stage, make_record, post_stage}
use network_change_delivery.Execution.Preflight.{Verified}

-- The stage of a writer's result.
abbrev pub write_stage : ExecutionResult → StageResult
write_stage result = record {
  attempted = true;
  succeeded = some (is_done result.disposition);
  changed = result.changed;
  observed_description = none;
  message = result.message;
}

-- Host name, interface and presence of a fresh observation.
unfoldable pub identity_holds : ProfiledDeploymentPlan → InterfaceState → Bool
identity_holds plan observed =
    observed.observed_hostname == plan.expected_hostname
    && observed.interface == plan.interface.name
    && observed.exists

module _ {W : Type 0} (p : Providers W) (plan : ProfiledDeploymentPlan) where
  -- `collector.collect(device.live_read_only_target(), credentials, plan.interface.name)`
  unfoldable pub recollect : Verified → Exec W InterfaceState
  recollect v = do
    target ← lift (live_read_only_target v.device)
    observe p target v.credentials plan.interface.name

  -- `ProfiledWriteAdapter.execute_cisco`
  unfoldable pub execute_cisco :
      ProfiledWriteTarget → Verified → Option CiscoConfigArtifact → Exec W ExecutionResult
  execute_cisco target v artifact = do
    raise_if (not (cisco_target_valid target))
        (runtime_error "profiled Cisco write operation is unsupported")
    ask (cisco_write artifact) (p.execute_profiled target v.credentials artifact)

abbrev cisco_stages : StageResult → StageResult → Option StageResult → Option StageResult → Stages
cisco_stages preflight execution post recovery = record {
  preflight = preflight;
  execution = some execution;
  post = post;
  recovery = recovery;
  candidate = none;
  diff = none;
  confirmation = none;
}

module _ {W : Type 0} (p : Providers W) (plan : ProfiledDeploymentPlan) (approval : String)
    (v : Verified) (target : ProfiledWriteTarget) (preflight execution : StageResult) where
  -- An ambiguous write: observe for reconciliation, never write again.
  unfoldable pub reconcile : Result InterfaceState → Exec W ProfiledChangeRecord
  reconcile (ok observed) = make_record p plan approval ambiguous (
      cisco_stages preflight execution
        (some (post_stage "reconciliation observation collected" true plan observed)) none)
  reconcile (raised e) =
      if is_io e
      then make_record p plan approval ambiguous (
          cisco_stages preflight execution
            (some (stage "reconciliation observation unavailable" false)) none)
      else raise e

  -- After the inverse: the restored state decides.
  unfoldable pub judge_restored :
      StageResult → StageResult → Result InterfaceState → Exec W ProfiledChangeRecord
  judge_restored post recovery (raised e) =
      if is_io e
      then make_record p plan approval recovery_failed
          (cisco_stages preflight execution (some post) (some recovery))
      else raise e
  judge_restored post recovery (ok restored) =
      let restores =
        restored.description == plan.current_description && identity_holds plan restored in
      make_record p plan approval (if restores then recovered else recovery_failed) (
        cisco_stages preflight execution (some post) (
          some (record recovery {
            succeeded = some restores;
            observed_description = restored.description;
          })))

  unfoldable pub after_recovery :
      StageResult → StageResult → ExecutionDisposition → Exec W ProfiledChangeRecord
  unfolding judge_restored
  after_recovery post recovery ExecutionDisposition.ambiguous =
      make_record p plan approval recovery_ambiguous
        (cisco_stages preflight execution (some post) (some recovery))
  after_recovery post recovery ExecutionDisposition.failed =
      make_record p plan approval recovery_failed
        (cisco_stages preflight execution (some post) (some recovery))
  after_recovery post recovery ExecutionDisposition.succeeded = do
    restored ← attempt (recollect p plan v)
    judge_restored post recovery restored

  -- The desired state was not observed although the identity holds.
  unfoldable pub recover : InterfaceState → Exec W ProfiledChangeRecord
  unfolding after_recovery
  recover observed = do
    result ← execute_cisco p plan target v plan.recovery_artifact
    after_recovery (post_stage "desired state not observed" false plan observed)
        (write_stage result) result.disposition

  unfoldable pub post_validate : Result InterfaceState → Exec W ProfiledChangeRecord
  unfolding recover
  post_validate (raised e) =
      if is_io e
      then make_record p plan approval post_validation_failed
          (cisco_stages preflight execution (some (stage "post collection failed" false)) none)
      else raise e
  post_validate (ok observed) =
      if identity_holds plan observed && observed.description == some plan.desired_description
      then make_record p plan approval FinalOutcome.succeeded (
          cisco_stages preflight execution
            (some (post_stage "desired state observed" true plan observed)) none)
      else if not (identity_holds plan observed)
      then make_record p plan approval post_validation_failed (
          cisco_stages preflight execution
            (some (post_stage "post identity mismatch" false plan observed)) none)
      else recover observed

  unfoldable pub after_write : ExecutionDisposition → Exec W ProfiledChangeRecord
  unfolding reconcile post_validate
  after_write ExecutionDisposition.ambiguous = do
    observed ← attempt (recollect p plan v)
    reconcile observed
  after_write ExecutionDisposition.failed =
      make_record p plan approval execution_failed (cisco_stages preflight execution none none)
  after_write ExecutionDisposition.succeeded = do
    observed ← attempt (recollect p plan v)
    post_validate observed

-- The branch for a Cisco artifact.
unfoldable pub cisco_lifecycle :
    {W : Type 0}
    → Providers W
    → ProfiledDeploymentPlan
    → String
    → Verified
    → ProfiledWriteTarget
    → StageResult
    → CiscoConfigArtifact
    → Exec W ProfiledChangeRecord
unfolding after_write
cisco_lifecycle p plan approval v target preflight artifact = do
  result ← execute_cisco p plan target v (some artifact)
  after_write p plan approval v target preflight (write_stage result) result.disposition
