-- ===== src/Planning/Change.antt =====
-- `build_profiled_plan` and `_build_compliance`: a frozen plan, or a compliance record, from fresh state.
use network_change_delivery.Base.{
  ℕ, String, Bool, true, not, ◌==◌, Option, none, some, option_eq, string_eq, if◌then◌else◌,
}
use network_change_delivery.Raise.{Result, ok, value_error, validation_error, ◌>>=◌, ◌>>◌, raise_if}
use network_change_delivery.Models.{ConfigArtifact, CiscoConfigArtifact, cisco, InterfaceState}
use network_change_delivery.Models.Description.{desired_description}
use network_change_delivery.Profile.{RendererFamily}
use network_change_delivery.Profile.Admission.{ProfiledOperationAdmission}
use network_change_delivery.Inventory.{
  StableInterfaceIdentity, ProfiledInventoryDevice, ProfileReadOnlyTarget, live_read_only_target,
}
use network_change_delivery.Planning.Subject.{
  InterfaceDescriptionIntent, CredentialReference, NameFolding, admit_profiled_operation,
  assert_profiled_safe_state, validate_credential_reference,
}
use network_change_delivery.Planning.Artifacts.{
  ProfiledDeploymentPlan, ProfiledComplianceRecord, Hashing, junos_artifact, cisco_execution,
  cisco_recovery,
}
use network_change_delivery.Planning.Validator.{exact_profiled_plan, verified_compliance}

-- The artifacts of a vendor.
unfoldable pub build_execution : RendererFamily → String → String → ConfigArtifact
build_execution RendererFamily.junos_xml name desired = junos_artifact name desired
build_execution RendererFamily.cisco_ios name desired = cisco (cisco_execution name desired)

unfoldable pub build_recovery : RendererFamily → String → Option String → Option CiscoConfigArtifact
build_recovery RendererFamily.junos_xml name current = none
build_recovery RendererFamily.cisco_ios name current = some (cisco_recovery name current)

-- Whether `DesiredDescription(description=…)` accepts the observed description, where there is one.
unfoldable pub recoverable : Option String → Bool
recoverable none = true
recoverable (some description) = desired_description description

module _ (hashing : Hashing) where
  abbrev pub signed : ProfiledDeploymentPlan → ProfiledDeploymentPlan
  signed plan = record plan { digest = hashing.plan_digest plan }

  -- The digest, and the validator of the model.
  unfoldable pub sign_plan : ProfiledDeploymentPlan → Result ProfiledDeploymentPlan
  sign_plan plan = do
    raise_if (not (exact_profiled_plan hashing (signed plan))) validation_error
    ok (signed plan)

  abbrev pub signed_compliance : ProfiledComplianceRecord → ProfiledComplianceRecord
  signed_compliance r = record r { digest = hashing.compliance_digest r }

  unfoldable pub sign_compliance : ProfiledComplianceRecord → Result ProfiledComplianceRecord
  sign_compliance r = do
    raise_if (not (verified_compliance hashing (signed_compliance r))) validation_error
    ok (signed_compliance r)

module _ (hashing : Hashing) (fold : NameFolding) (intent : InterfaceDescriptionIntent)
    (device : ProfiledInventoryDevice) (interface : StableInterfaceIdentity)
    (state : InterfaceState) (credential : CredentialReference) (created_at : ℕ) where
  abbrev pub unsigned_digest : String
  unsigned_digest = "sha256:0000000000000000000000000000000000000000000000000000000000000000"

  -- `values`
  unfoldable pub plan_values :
      ProfiledOperationAdmission → ProfileReadOnlyTarget → ProfiledDeploymentPlan
  plan_values admission target = record {
    change_id = intent.change_id;
    target = device.logical_name;
    device_identity = device.device_identity;
    interface = interface;
    platform_slug = device.platform_slug;
    network_os = device.network_os;
    automation_profile_id = device.automation_profile_id;
    credential_reference = credential.reference;
    host = target.host;
    port = target.port;
    expected_hostname = device.expected_hostname;
    current_description = state.description;
    desired_description = intent.desired_description;
    operation_admission = admission;
    execution_artifact =
        build_execution admission.renderer_family interface.name intent.desired_description;
    recovery_artifact = build_recovery admission.renderer_family interface.name state.description;
    preconditions = record {
      observed_hostname = state.observed_hostname;
      interface_exists = state.exists;
      interface_protected = state.protected;
      current_description = state.description;
    };
    created_at = created_at;
    digest = unsigned_digest;
  }

  -- What follows the admission and the checks.
  unfoldable pub freeze_plan : ProfiledOperationAdmission → Result ProfiledDeploymentPlan
  unfolding plan_values
  freeze_plan admission = do
    raise_if (not (recoverable state.description))
        (value_error "observed description is unsafe for targeted recovery")
    raise_if (state.description == some intent.desired_description)
        (value_error "interface is already compliant")
    target ← live_read_only_target device
    sign_plan hashing (plan_values admission target)

  -- `build_profiled_plan`
  unfoldable pub build_profiled_plan : Result ProfiledDeploymentPlan
  unfolding freeze_plan
  build_profiled_plan = do
    admission ← admit_profiled_operation device
    assert_profiled_safe_state fold intent device interface state
    _ ← validate_credential_reference device credential
    freeze_plan admission

  -- `_build_compliance`, with the description that the comparison has found to be the desired one
  unfoldable pub build_compliance : String → Result ProfiledComplianceRecord
  build_compliance observed = do
    target ← live_read_only_target device
    sign_compliance hashing (record {
      change_id = intent.change_id;
      target = device.logical_name;
      device_identity = device.device_identity;
      interface = interface;
      platform_slug = device.platform_slug;
      network_os = device.network_os;
      automation_profile_id = device.automation_profile_id;
      host = target.host;
      port = target.port;
      expected_hostname = device.expected_hostname;
      observed_description = observed;
      desired_description = intent.desired_description;
      credential_reference = credential.reference;
      observed_at = created_at;
      digest = unsigned_digest;
    })

-- `ProfiledPlanningResult`: a plan, or a compliance record.
pub data Planned : Type 0 where
  deployable : ProfiledDeploymentPlan → Planned
  compliant : ProfiledComplianceRecord → Planned

module _ (hashing : Hashing) (fold : NameFolding) (intent : InterfaceDescriptionIntent)
    (device : ProfiledInventoryDevice) (interface : StableInterfaceIdentity)
    (state : InterfaceState) (credential : CredentialReference) (created_at : ℕ) where
  unfoldable pub plan_result : Result ProfiledDeploymentPlan → Result Planned
  plan_result r = do plan ← r; ok (deployable plan)

  unfoldable pub compliance_result : Result ProfiledComplianceRecord → Result Planned
  compliance_result r = do found ← r; ok (compliant found)

  -- After the observation: compliant, or to be planned.
  unfoldable pub conclude : Option String → Result Planned
  unfolding plan_result compliance_result build_compliance build_profiled_plan
  conclude none =
      plan_result
        (build_profiled_plan hashing fold intent device interface state credential created_at)
  conclude (some observed) =
      if observed == intent.desired_description
      then compliance_result (
          build_compliance hashing fold intent device interface state credential created_at
            observed)
      else plan_result
          (build_profiled_plan hashing fold intent device interface state credential created_at)
