-- ===== src/Execution/Stages.antt =====
-- `_stage`, `_record` and `_observed_transition`: how the lifecycle builds its evidence.
use network_change_delivery.Base.{
  ℕ, String, Bool, true, false, not, ◌||◌, Option, none, some, ◌!=◌, string_eq, option_eq,
  if◌then◌else◌,
}
use network_change_delivery.Raise.{validation_error}
use network_change_delivery.Models.Digest.{Sha256Digest}
use network_change_delivery.Models.{FinalOutcome, StageResult, InterfaceState}
use network_change_delivery.Planning.{ProfiledDeploymentPlan}
use network_change_delivery.Exec.{Exec, pure, raise}
use network_change_delivery.Exec.Providers.{Providers}
use network_change_delivery.Execution.Record.{ProfiledChangeRecord, consistent_outcome}

-- `_stage(message, attempted=True, succeeded=…)`
abbrev pub stage : String → Bool → StageResult
stage message succeeded = record {
  attempted = true;
  succeeded = some succeeded;
  changed = none;
  observed_description = none;
  message = message;
}

abbrev pub not_attempted : StageResult
not_attempted = record {
  attempted = false;
  succeeded = none;
  changed = none;
  observed_description = none;
  message = "not attempted";
}

-- The optional arguments of `_record`.
pub record Stages : Type 0 where
  pub preflight : StageResult
  pub execution : Option StageResult
  pub post : Option StageResult
  pub recovery : Option StageResult
  pub candidate : Option StageResult
  pub diff : Option Sha256Digest
  pub confirmation : Option StageResult

abbrev pub only_preflight : StageResult → Stages
only_preflight preflight = record {
  preflight = preflight;
  execution = none;
  post = none;
  recovery = none;
  candidate = none;
  diff = none;
  confirmation = none;
}

abbrev or_unattempted : Option StageResult → StageResult
or_unattempted none = not_attempted
or_unattempted (some stage) = stage

unfoldable pub build_record :
    ProfiledDeploymentPlan → String → FinalOutcome → Stages → ℕ → ProfiledChangeRecord
build_record plan approval outcome stages now = record {
  generated_at = now;
  change_id = plan.change_id;
  plan_digest = plan.digest;
  approval_digest = approval;
  target = plan.target;
  device_identity = plan.device_identity;
  interface = plan.interface;
  platform_slug = plan.platform_slug;
  network_os = plan.network_os;
  automation_profile_id = plan.automation_profile_id;
  host = plan.host;
  port = plan.port;
  expected_hostname = plan.expected_hostname;
  previous_description = plan.current_description;
  desired_description = plan.desired_description;
  credential_reference = plan.credential_reference;
  transaction_strategy = plan.operation_admission.transaction_strategy;
  preflight = stages.preflight;
  execution = or_unattempted stages.execution;
  post_validation = or_unattempted stages.post;
  recovery = or_unattempted stages.recovery;
  candidate_validation = stages.candidate;
  candidate_diff_digest = stages.diff;
  confirmation = stages.confirmation;
  final_outcome = outcome;
}

module _ {W : Type 0} (p : Providers W) (plan : ProfiledDeploymentPlan) (approval : String) where
  -- `_record`: the model's validator runs when the record is built.
  unfoldable pub make_record : FinalOutcome → Stages → Exec W ProfiledChangeRecord
  make_record outcome stages s =
      let r = build_record plan approval outcome stages (p.clock s.world) in
      if consistent_outcome r then pure r s else raise validation_error s

-- `_observed_transition` of an observation that was collected
unfoldable pub observed_transition : ProfiledDeploymentPlan → InterfaceState → Option Bool
observed_transition plan observed =
    if not observed.exists
      || observed.observed_hostname != plan.expected_hostname
      || observed.interface != plan.interface.name
    then none
    else some (observed.description != plan.current_description)

-- The post-validation stage of a collected observation.
abbrev pub post_stage : String → Bool → ProfiledDeploymentPlan → InterfaceState → StageResult
post_stage message succeeded plan observed = record {
  attempted = true;
  succeeded = some succeeded;
  changed = observed_transition plan observed;
  observed_description = observed.description;
  message = message;
}
