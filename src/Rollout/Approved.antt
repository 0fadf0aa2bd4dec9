-- ===== src/Rollout/Approved.antt =====
-- The approved parent of a rollout and the original bytes of its children. The reading of JSON, the
-- digest and the length of bytes belong to other packages and are parameters.
use network_change_delivery.Base.{
  ℕ, String, Bool, true, false, not, ◌&&◌, ◌||◌, Option, none, some, List, [], ◌∷◌, ltb, bool_beq,
  bool_eq, ◌==◌, ◌!=◌, nat_eq, string_eq, option_eq, if◌then◌else◌, ◌*◌,
}
use network_change_delivery.Raise.{
  Result, ok, raised, provider, value_fault, other_fault, value_error, ◌>>=◌, ◌>>◌, raise_if,
}
use network_change_delivery.Models.Digest.{optional_digest_beq}
use network_change_delivery.Models.{artifact_eq, StageResult, outcome_eq}
use network_change_delivery.Profile.{os_eq, profile_eq, strategy_eq}
use network_change_delivery.Profile.Admission.{admission_eq}
use network_change_delivery.Inventory.{address_eq, interface_eq}
use network_change_delivery.Planning.{ProfiledDeploymentPlan, ProfiledPlanPreconditions}
use network_change_delivery.Planning.Validator.{recovery_artifact_beq}
use network_change_delivery.Execution.Record.{ProfiledChangeRecord}
use network_change_delivery.Rollout.Audit.{ChildBinding, is_deployable}

-- `ProfiledRolloutChild`: `binding` is what the audit records keep of it.
pub record RolloutChild : Type 0 where
  pub binding : ChildBinding
  pub artifact_json : String

-- The fields of `ProfiledRolloutPlan` that the coordinator reads.
pub record RolloutPlan : Type 0 where
  pub digest : String
  pub change_id : String
  pub children : List RolloutChild
  pub canaries : List String
  pub waves : List (List String)

pub record ArtifactReader : Type 0 where
  pub sha256 : String → String
  pub byte_length : String → ℕ
  -- `ProfiledDeploymentPlan.model_validate_json`
  pub read_plan : String → Option ProfiledDeploymentPlan
  -- the same after `json.loads` with unique keys
  pub read_unique_plan : String → Option ProfiledDeploymentPlan

-- `MAX_CHILD_BYTES`
abbrev max_child_bytes : ℕ
max_child_bytes = 128 * 1024

preconditions_beq : ProfiledPlanPreconditions → ProfiledPlanPreconditions → Bool
preconditions_beq a b =
    a.observed_hostname == b.observed_hostname
    && bool_beq a.interface_exists b.interface_exists
    && bool_beq a.interface_protected b.interface_protected
    && a.current_description == b.current_description

-- `==` on two plans
unfoldable pub plan_beq : ProfiledDeploymentPlan → ProfiledDeploymentPlan → Bool
unfolding preconditions_beq
plan_beq a b =
    (a.change_id == b.change_id
      && a.target == b.target
      && a.device_identity == b.device_identity
      && a.interface == b.interface
      && a.platform_slug == b.platform_slug
      && a.network_os == b.network_os
      && a.automation_profile_id == b.automation_profile_id
      && a.credential_reference == b.credential_reference
      && a.host == b.host
      && a.port == b.port)
    && (a.expected_hostname == b.expected_hostname
        && a.current_description == b.current_description
        && a.desired_description == b.desired_description
        && a.operation_admission == b.operation_admission
        && a.execution_artifact == b.execution_artifact
        && recovery_artifact_beq a.recovery_artifact b.recovery_artifact
        && preconditions_beq a.preconditions b.preconditions
        && a.created_at == b.created_at
        && a.digest == b.digest)

stage_beq : StageResult → StageResult → Bool
stage_beq a b =
    bool_beq a.attempted b.attempted
    && a.succeeded == b.succeeded
    && a.changed == b.changed
    && a.observed_description == b.observed_description
    && a.message == b.message

optional_stage_beq : Option StageResult → Option StageResult → Bool
optional_stage_beq none none = true
optional_stage_beq (some a) (some b) = stage_beq a b
optional_stage_beq _ _ = false

-- `==` on two change records
unfoldable pub change_record_beq : ProfiledChangeRecord → ProfiledChangeRecord → Bool
unfolding stage_beq optional_stage_beq
change_record_beq a b =
    (a.generated_at == b.generated_at
      && a.change_id == b.change_id
      && a.plan_digest == b.plan_digest
      && a.approval_digest == b.approval_digest
      && a.target == b.target
      && a.device_identity == b.device_identity
      && a.interface == b.interface
      && a.platform_slug == b.platform_slug
      && a.network_os == b.network_os
      && a.automation_profile_id == b.automation_profile_id
      && a.host == b.host
      && a.port == b.port
      && a.expected_hostname == b.expected_hostname)
    && (a.previous_description == b.previous_description
        && a.desired_description == b.desired_description
        && a.credential_reference == b.credential_reference
        && a.transaction_strategy == b.transaction_strategy
        && stage_beq a.preflight b.preflight
        && stage_beq a.execution b.execution
        && stage_beq a.post_validation b.post_validation
        && stage_beq a.recovery b.recovery
        && optional_stage_beq a.candidate_validation b.candidate_validation
        && optional_digest_beq a.candidate_diff_digest b.candidate_diff_digest
        && optional_stage_beq a.confirmation b.confirmation
        && a.final_outcome == b.final_outcome)

-- `children[identity]` of the dictionary by device identity, whose last entry counts
unfoldable pub find_child : List RolloutChild → String → Result RolloutChild
find_child [] identity = raised (provider other_fault)
find_child (c ∷ cs) identity = elim (find_child cs identity) [
  | ok found ↦ ok found
  | raised e ↦ if c.binding.device_identity == identity then ok c else raised e
]

-- What a validated JSON text gives, or pydantic's exception. It concerns a text that is read, not a record
-- that is built: it escapes the coordinator as a `ValueError` of the reader.
abbrev parsed : Option ProfiledDeploymentPlan → Result ProfiledDeploymentPlan
parsed none = raised (provider value_fault)
parsed (some plan) = ok plan

module _ (reader : ArtifactReader) where
  -- `ProfiledRolloutChild.result` where a plan is compared with it: a compliant child gives a
  -- compliance record, which differs from every plan.
  unfoldable pub child_result : RolloutChild → Result ProfiledDeploymentPlan
  child_result child = do
    raise_if
        (ltb max_child_bytes (reader.byte_length child.artifact_json)
          || reader.sha256 child.artifact_json != child.binding.artifact_digest)
        (value_error "rollout child artifact bytes rejected")
    raise_if (not (is_deployable child.binding.kind))
        (value_error "approved child original bytes rejected")
    result ← parsed (reader.read_unique_plan child.artifact_json)
    raise_if (result.digest != child.binding.result_digest)
        (value_error "rollout child result digest rejected")
    ok result

  -- The approved original bytes as a plan.
  unfoldable pub approved_plan : RolloutChild → Result ProfiledDeploymentPlan
  unfolding child_result
  approved_plan child = do
    plan ← parsed (reader.read_plan child.artifact_json)
    raise_if
        (reader.sha256 child.artifact_json != child.binding.artifact_digest
          || plan.digest != child.binding.result_digest)
        (value_error "approved child original bytes rejected")
    result ← child_result child
    raise_if (not (plan_beq plan result)) (value_error "approved child original bytes rejected")
    ok plan
