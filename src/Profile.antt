-- ===== src/Profile.antt =====
-- src/network_change_delivery/architecture_contracts.py: the automation-profile catalog.
-- Capabilities and the SSH policy play no part in delivery and are left out.
mod Families
pub mod Admission
unfoldable pub use Families.*
use network_change_delivery.Base.{ℕ, List, [], ◌∷◌}

pub record ReadinessServiceExpectation : Type 0 where
  pub service : ManagementService
  pub port : ℕ

pub record AutomationProfile : Type 0 where
  pub profile_id : AutomationProfileId
  pub network_os : NetworkOs
  pub transport_family : TransportFamily
  pub adapter_family : AdapterFamily
  pub renderer_family : RendererFamily
  pub collector_family : CollectorFamily
  pub readiness_services : List ReadinessServiceExpectation
  pub recovery_family : RecoveryFamily

cisco_profile : AutomationProfileId → NetworkOs → AutomationProfile
cisco_profile profile os = record {
  profile_id = profile;
  network_os = os;
  transport_family = TransportFamily.ansible_network_cli;
  adapter_family = AdapterFamily.cisco_ios;
  renderer_family = RendererFamily.cisco_ios;
  collector_family = cisco_ios_facts;
  readiness_services = record { service = ssh; port = 22 } ∷ [];
  recovery_family = cisco_targeted_inverse;
}

-- `AUTOMATION_PROFILE_CATALOG`, read by `get_automation_profile`
unfoldable pub get_automation_profile : AutomationProfileId → AutomationProfile
unfolding cisco_profile
get_automation_profile cat8000v_iosxe = cisco_profile cat8000v_iosxe iosxe
get_automation_profile iosv_159_3_m12 = cisco_profile iosv_159_3_m12 ios
get_automation_profile iosvl2_2020 = cisco_profile iosvl2_2020 ios
get_automation_profile vjunos_router = record {
  profile_id = vjunos_router;
  network_os = junos;
  transport_family = junos_pyez_netconf;
  adapter_family = junos_pyez;
  renderer_family = junos_xml;
  collector_family = junos_rpc;
  readiness_services = record { service = netconf; port = 830 } ∷ [];
  recovery_family = junos_commit_confirmed;
}
