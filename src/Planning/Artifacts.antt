-- ===== src/Planning/Artifacts.antt =====
-- The frozen artifacts: `ProfiledDeploymentPlan`, `ProfiledComplianceRecord` and their parts.
use Prim.Native.String.{◌++◌}
use network_change_delivery.Base.{ℕ, String, Bool, Option, none, some, [], ◌∷◌}
use network_change_delivery.Models.{CiscoConfigArtifact, ConfigArtifact, junos}
use network_change_delivery.Models.Description.{render_junos_interface_description}
use network_change_delivery.Profile.{NetworkOs, AutomationProfileId}
use network_change_delivery.Profile.Admission.{ProfiledOperationAdmission}
use network_change_delivery.Inventory.{IpAddress, StableInterfaceIdentity}

pub record ProfiledPlanPreconditions : Type 0 where
  pub observed_hostname : String
  pub interface_exists : Bool
  pub interface_protected : Bool
  pub current_description : Option String

-- `credential_source` is "openbao", `kind` is "interface_description" and `inventory_source` is
-- "netbox" in every plan.
pub record ProfiledDeploymentPlan : Type 0 where
  pub change_id : String
  pub target : String
  pub device_identity : String
  pub interface : StableInterfaceIdentity
  pub platform_slug : String
  pub network_os : NetworkOs
  pub automation_profile_id : AutomationProfileId
  pub credential_reference : String
  pub host : IpAddress
  pub port : ℕ
  pub expected_hostname : String
  pub current_description : Option String
  pub desired_description : String
  pub operation_admission : ProfiledOperationAdmission
  pub execution_artifact : ConfigArtifact
  pub recovery_artifact : Option CiscoConfigArtifact
  pub preconditions : ProfiledPlanPreconditions
  pub created_at : ℕ
  pub digest : String

pub record ProfiledComplianceRecord : Type 0 where
  pub change_id : String
  pub target : String
  pub device_identity : String
  pub interface : StableInterfaceIdentity
  pub platform_slug : String
  pub network_os : NetworkOs
  pub automation_profile_id : AutomationProfileId
  pub host : IpAddress
  pub port : ℕ
  pub expected_hostname : String
  pub observed_description : String
  pub desired_description : String
  pub credential_reference : String
  pub observed_at : ℕ
  pub digest : String

-- `calculated_digest` of a plan and of a compliance record, which leave the field `digest` out.
pub record Hashing : Type 0 where
  pub plan_digest : ProfiledDeploymentPlan → String
  pub compliance_digest : ProfiledComplianceRecord → String

unfoldable pub junos_artifact : String → String → ConfigArtifact
junos_artifact interface description = junos (record {
  interface = interface;
  description = description;
  xml = render_junos_interface_description interface description;
})

-- `f"description {desired}"` under `f"interface {name}"`
unfoldable pub cisco_execution : String → String → CiscoConfigArtifact
cisco_execution interface description = record {
  parent = "interface " ++ interface;
  lines = ("description " ++ description) ∷ [];
}

recovery_line : Option String → String
recovery_line none = "no description"
recovery_line (some description) = "description " ++ description

-- The line that puts the reviewed description back.
unfoldable pub cisco_recovery : String → Option String → CiscoConfigArtifact
unfolding recovery_line
cisco_recovery interface current = record {
  parent = "interface " ++ interface;
  lines = recovery_line current ∷ [];
}
