-- ===== src/Planning/Validator.antt =====
-- The validators of the frozen artifacts: `exact_profiled_plan` and `verified_compliance`.
use network_change_delivery.Base.{
  String, Bool, true, false, not, ◌&&◌, Option, none, some, ◌==◌, nat_eq, string_eq, option_eq,
}
use network_change_delivery.Raise.{is_ok}
use network_change_delivery.Models.{CiscoConfigArtifact, cisco, artifact_eq}
use network_change_delivery.Models.Description.{validate_ios_description, desired_description}
use network_change_delivery.Profile.{RendererFamily, os_eq}
use network_change_delivery.Profile.Admission.{
  ProfiledOperationAdmission, operation_admission, admission_eq,
}
use network_change_delivery.Inventory.{admit_profiled_subject}
use network_change_delivery.Inventory.Catalog.{managed_population}
use network_change_delivery.Planning.Subject.{expected_credential}
use network_change_delivery.Planning.Artifacts.{
  ProfiledDeploymentPlan, ProfiledComplianceRecord, Hashing, junos_artifact, cisco_execution,
  cisco_recovery,
}

unfoldable pub recovery_artifact_beq :
    Option CiscoConfigArtifact → Option CiscoConfigArtifact → Bool
recovery_artifact_beq none none = true
recovery_artifact_beq (some a) (some b) = cisco a == cisco b
recovery_artifact_beq _ _ = false

unfoldable pub artifacts_match : RendererFamily → ProfiledDeploymentPlan → Bool
unfolding recovery_artifact_beq
artifacts_match RendererFamily.junos_xml plan =
    plan.execution_artifact == junos_artifact plan.interface.name plan.desired_description
    && recovery_artifact_beq plan.recovery_artifact none
artifacts_match RendererFamily.cisco_ios plan =
    plan.execution_artifact == cisco (cisco_execution plan.interface.name plan.desired_description)
    && recovery_artifact_beq plan.recovery_artifact
        (some (cisco_recovery plan.interface.name plan.current_description))

unfoldable pub description_valid : Option String → Bool
description_valid none = true
description_valid (some description) = validate_ios_description description

unfoldable pub admission_valid : Option ProfiledOperationAdmission → ProfiledDeploymentPlan → Bool
admission_valid none plan = false
admission_valid (some expected) plan =
    plan.operation_admission == expected
    && plan.port == expected.management_port
    && artifacts_match expected.renderer_family plan

module _ (hashing : Hashing) where
  -- `ProfiledDeploymentPlan.verify_digest`
  unfoldable pub verify_digest : ProfiledDeploymentPlan → Bool
  verify_digest plan = plan.digest == hashing.plan_digest plan

  -- Whether `exact_profiled_plan` accepts the plan; a Junos artifact's own validator asks the same.
  unfoldable pub exact_profiled_plan : ProfiledDeploymentPlan → Bool
  unfolding description_valid admission_valid verify_digest
  exact_profiled_plan plan =
      is_ok (
        admit_profiled_subject managed_population plan.device_identity plan.target
          plan.platform_slug plan.network_os plan.automation_profile_id)
      && plan.interface.device == plan.device_identity
      && plan.expected_hostname == plan.target
      && plan.preconditions.observed_hostname == plan.expected_hostname
      && plan.preconditions.interface_exists
      && not plan.preconditions.interface_protected
      && plan.preconditions.current_description == plan.current_description
      && admission_valid (operation_admission plan.automation_profile_id) plan
      && plan.credential_reference == expected_credential plan.device_identity
      && desired_description plan.desired_description
      && description_valid plan.current_description
      && verify_digest plan

  compliance_admission_valid : Option ProfiledOperationAdmission → ProfiledComplianceRecord → Bool
  compliance_admission_valid none r = false
  compliance_admission_valid (some admission) r =
      r.network_os == admission.network_os && r.port == admission.management_port

  -- Whether `verified_compliance` accepts the record.
  unfoldable pub verified_compliance : ProfiledComplianceRecord → Bool
  unfolding compliance_admission_valid
  verified_compliance r =
      is_ok (
        admit_profiled_subject managed_population r.device_identity r.target r.platform_slug
          r.network_os r.automation_profile_id)
      && compliance_admission_valid (operation_admission r.automation_profile_id) r
      && r.interface.device == r.device_identity
      && r.expected_hostname == r.target
      && r.observed_description == r.desired_description
      && r.credential_reference == expected_credential r.device_identity
      && r.digest == hashing.compliance_digest r
      && desired_description r.desired_description
