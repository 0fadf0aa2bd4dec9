-- ===== src/WriteAdapter.antt =====
-- src/network_change_delivery/profiled_write_adapter.py: the write target projected after the
-- preflight, and the checks of the adapter in front of each vendor's writer.
use network_change_delivery.Base.{
  ℕ, String, Bool, false, not, ◌&&◌, Option, none, some, List, ◌==◌, nat_eq, string_eq, option_eq,
}
use network_change_delivery.Raise.{Result, ok, runtime_error, ◌>>=◌, ◌>>◌, raise_if}
use network_change_delivery.Profile.{
  NetworkOs, AutomationProfileId, TransportFamily, AdapterFamily, RendererFamily, CollectorFamily,
  RecoveryFamily, ManagementService, TransactionStrategy, os_eq, profile_eq, transport_eq,
  adapter_eq, renderer_eq, collector_eq, recovery_eq, service_eq, strategy_eq, vjunos_router,
}
use network_change_delivery.Profile.Admission.{
  ProfiledOperationAdmission, operation_admission, admission_eq,
}
use network_change_delivery.Inventory.{
  IpAddress, StableInterfaceIdentity, ProfiledInventoryDevice, live_read_only_target,
}
use network_change_delivery.Planning.{admit_profiled_operation}

pub record ProfiledWriteTarget : Type 0 where
  pub device_identity : String
  pub interface : StableInterfaceIdentity
  pub name : String
  pub host : IpAddress
  pub port : ℕ
  pub expected_hostname : String
  pub protected_interfaces : List String
  pub automation_profile_id : AutomationProfileId
  pub network_os : NetworkOs
  pub admission : ProfiledOperationAdmission

admission_expected : Option ProfiledOperationAdmission → ProfiledOperationAdmission → Bool
admission_expected none admission = false
admission_expected (some expected) admission = admission == expected

-- Whether `__post_init__` accepts the target.
unfoldable pub write_target_valid : ProfiledWriteTarget → Bool
unfolding admission_expected
write_target_valid t =
    t.interface.device == t.device_identity
    && t.admission.automation_profile_id == t.automation_profile_id
    && t.admission.network_os == t.network_os
    && t.admission.management_port == t.port
    && admission_expected (operation_admission t.automation_profile_id) t.admission

-- `ProfiledWriteTarget.from_preflight`
unfoldable pub from_preflight :
    ProfiledInventoryDevice → StableInterfaceIdentity → Result ProfiledWriteTarget
unfolding write_target_valid
from_preflight device interface = do
  admission ← admit_profiled_operation device
  live ← live_read_only_target device
  let target : ProfiledWriteTarget = record {
    device_identity = device.device_identity;
    interface = interface;
    name = device.logical_name;
    host = live.host;
    port = live.port;
    expected_hostname = device.expected_hostname;
    protected_interfaces = live.protected_interfaces;
    automation_profile_id = device.automation_profile_id;
    network_os = device.network_os;
    admission = admission;
  }
  raise_if (not (write_target_valid target))
      (runtime_error "profiled write target binding is invalid")
  ok target

-- Whether `_validate_cisco_target` accepts the target.
unfoldable pub cisco_target_valid : ProfiledWriteTarget → Bool
unfolding write_target_valid
cisco_target_valid t =
    write_target_valid t
    && t.admission.transport_family == TransportFamily.ansible_network_cli
    && t.admission.adapter_family == AdapterFamily.cisco_ios
    && t.admission.renderer_family == RendererFamily.cisco_ios
    && t.admission.collector_family == CollectorFamily.cisco_ios_facts
    && t.admission.recovery_family == RecoveryFamily.cisco_targeted_inverse
    && t.admission.management_service == ManagementService.ssh
    && t.admission.management_port == 22
    && t.admission.transaction_strategy == TransactionStrategy.cisco_targeted_inverse
    && t.admission.confirmed_timeout_minutes == none
    && not t.admission.confirms_previous_commit

-- Whether `_validate_junos_target` accepts the target.
unfoldable pub junos_target_valid : ProfiledWriteTarget → Bool
unfolding write_target_valid
junos_target_valid t =
    write_target_valid t
    && t.automation_profile_id == vjunos_router
    && t.network_os == NetworkOs.junos
    && t.port == 830
