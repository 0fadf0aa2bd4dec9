-- ===== src/Execution/Scenarios.antt =====
-- A concrete plan for the device core-02, providers that answer for it, and the theorems applied to
-- them.
use network_change_delivery.Base.{
  String, true, false, ◌≡◌, refl, Option, none, some, [], same_text, option_beq, list_beq, bool_beq,
}
use network_change_delivery.Raise.{is_ok}
use network_change_delivery.Models.{
  JunosConfigArtifact, ExecutionDisposition, ExecutionResult, InterfaceState, cisco, artifact_beq,
}
use network_change_delivery.Models.Description.{
  render_junos_interface_description, desired_description, validate_ios_description,
}
use network_change_delivery.Profile.{
  vjunos_router, NetworkOs, cat8000v_iosxe, OperationalRole, TransportFamily, AdapterFamily,
  RendererFamily, CollectorFamily, RecoveryFamily, ManagementService, TransactionStrategy, os_beq,
  profile_beq, transport_beq, adapter_beq, renderer_beq, collector_beq, recovery_beq, service_beq,
  strategy_beq,
}
use network_change_delivery.Profile.Admission.{
  ProfiledOperationAdmission, operation_admission, admission_beq,
}
use network_change_delivery.Inventory.{
  IpAddress, StableInterfaceIdentity, ProfiledInventoryDevice, admit_profiled_subject, admit_found,
  find_member,
}
use network_change_delivery.Inventory.Catalog.{managed_population}
use network_change_delivery.Planning.{
  junos_artifact, ProfiledDeploymentPlan, Hashing, cisco_execution, cisco_recovery, openbao,
  expected_credential, object_number,
}
use network_change_delivery.Planning.Validator.{
  exact_profiled_plan, admission_valid, artifacts_match, recovery_artifact_beq,
}
use network_change_delivery.Exec.{Session}
use network_change_delivery.Execution.Guards.{
  approved, execute_profiled_plan-unapproved, exact_profiled_plan-strategy,
}
use network_change_delivery.Execution.Sound.Records.{Sound, strategy_of}
use network_change_delivery.Execution.Sound.Whole.{execute_profiled_plan-Sound}
use network_change_delivery.Execution.Preflight.{preflight, Verified}
use network_change_delivery.Execution.Cisco.{cisco_lifecycle}
use network_change_delivery.Execution.Junos.{junos_lifecycle}
use network_change_delivery.Execution.JunosWrites.{junos_writes, junos_lifecycle-Traced}
use network_change_delivery.Execution.Writes.{Traced, cisco_writes, cisco_lifecycle-Traced}
use network_change_delivery.WriteAdapter.{ProfiledWriteTarget}
use network_change_delivery.Execution.Sound.Prepared.{Prepared, Stepped, preflight-Stepped}
use network_change_delivery.Execution.Sound.Admitted.{profile_os, admitted-profile_os}
use network_change_delivery.Execution.Lifecycle.{verified_stage, execute_profiled_plan}
use network_change_delivery.Models.Digest.{is_digest, Sha256Digest}
use network_change_delivery.Exec.Providers.{answer, Providers}

abbrev pub digest : String
digest = "sha256:0123456789abcdef0123456789abcdef0123456789abcdef0123456789abcdef"

abbrev pub hashing : Hashing
hashing = record { plan_digest = λ _. digest; compliance_digest = λ _. digest }

abbrev pub loopback : StableInterfaceIdentity
loopback = record {
  device = "netbox:dcim.device:1";
  interface = "netbox:dcim.interface:7";
  name = "Loopback0";
}

abbrev pub core_admission : ProfiledOperationAdmission
core_admission = record {
  automation_profile_id = cat8000v_iosxe;
  network_os = NetworkOs.iosxe;
  transport_family = TransportFamily.ansible_network_cli;
  adapter_family = AdapterFamily.cisco_ios;
  renderer_family = RendererFamily.cisco_ios;
  collector_family = CollectorFamily.cisco_ios_facts;
  recovery_family = RecoveryFamily.cisco_targeted_inverse;
  management_service = ManagementService.ssh;
  management_port = 22;
  transaction_strategy = TransactionStrategy.cisco_targeted_inverse;
  confirmed_timeout_minutes = none;
  confirms_previous_commit = false;
}

abbrev pub core_plan : ProfiledDeploymentPlan
core_plan = record {
  change_id = "CHG-1";
  target = "core-02";
  device_identity = "netbox:dcim.device:1";
  interface = loopback;
  platform_slug = "cisco-ios-xe";
  network_os = NetworkOs.iosxe;
  automation_profile_id = cat8000v_iosxe;
  credential_reference = "openbao:kv-v2:ncdp/devices/1/ssh";
  host = IpAddress.ipv4 167772161;
  port = 22;
  expected_hostname = "core-02";
  current_description = some "old uplink";
  desired_description = "new uplink";
  operation_admission = core_admission;
  execution_artifact = cisco (cisco_execution "Loopback0" "new uplink");
  recovery_artifact = some (cisco_recovery "Loopback0" (some "old uplink"));
  preconditions = record {
    observed_hostname = "core-02";
    interface_exists = true;
    interface_protected = false;
    current_description = some "old uplink";
  };
  created_at = 1;
  digest = digest;
}

abbrev pub core_device : ProfiledInventoryDevice
core_device = record {
  device_identity = "netbox:dcim.device:1";
  logical_name = "core-02";
  expected_hostname = "core-02";
  platform_slug = "cisco-ios-xe";
  device_type_slug = "c8000v";
  operational_role = OperationalRole.core;
  network_os = NetworkOs.iosxe;
  automation_profile_id = cat8000v_iosxe;
  live_address = IpAddress.ipv4 167772161;
  live_port = 22;
  protected_interfaces = [];
}

-- The description of the device's interface is the whole world.
abbrev pub described : Option String → InterfaceState
described description = record {
  observed_hostname = "core-02";
  interface = "Loopback0";
  exists = true;
  description = description;
  protected = false;
}

abbrev done : ExecutionResult
done = record {
  disposition = ExecutionDisposition.succeeded;
  changed = some true;
  message = "applied";
}

pub digest_formed : is_digest digest ≡ true
unfolding is_digest same_text
digest_formed = refl

abbrev pub diff_digest : Sha256Digest
diff_digest = record { text = digest; formed = digest_formed }

abbrev pub core_providers : Providers (Option String)
core_providers = record {
  resolve = λ _ w. (answer core_device, w);
  resolve_interface = λ _ _ w. (answer loopback, w);
  reference = λ _ w.
      (answer (record { source = openbao; reference = "openbao:kv-v2:ncdp/devices/1/ssh" }), w);
  load = λ _ w. (answer (record { username = "u"; password = "p" }), w);
  collect = λ _ _ _ w. (answer (described w), w);
  verify_cisco_runtime = λ w. (answer tt, w);
  execute_profiled = λ _ _ _ w. (answer done, some "new uplink");
  transaction_enter = λ _ _ _ w. (answer tt, w);
  transaction_prepare = λ w. (answer diff_digest, w);
  transaction_commit = λ _ w. (answer done, some "new uplink");
  transaction_exit = λ w. (answer tt, w);
  transaction_close_failed = λ w. false;
  confirm_profiled = λ _ _ w. (answer done, w);
  clock = λ w. 2;
}

abbrev pub start : Session (Option String)
start = record { world = some "old uplink"; trace = [] }

core_plan_valid : exact_profiled_plan hashing core_plan ≡ true
unfolding exact_profiled_plan admit_profiled_subject admit_found find_member same_text os_beq
    profile_beq option_beq operation_admission admission_beq admission_valid artifacts_match
    artifact_beq recovery_artifact_beq list_beq expected_credential desired_description
    validate_ios_description transport_beq adapter_beq renderer_beq collector_beq recovery_beq
    service_beq strategy_beq bool_beq cisco_execution cisco_recovery object_number
core_plan_valid = refl

no_approval : approved hashing core_plan "yes" ≡ false
unfolding is_digest same_text
no_approval = refl

execute_profiled_plan-Sound_example :
    Sound core_plan (execute_profiled_plan core_providers core_plan digest hashing start).0
execute_profiled_plan-Sound_example =
    execute_profiled_plan-Sound hashing core_plan core_providers digest start core_plan_valid

exact_profiled_plan-strategy_example :
    TransactionStrategy.cisco_targeted_inverse ≡ strategy_of core_plan.execution_artifact
exact_profiled_plan-strategy_example =
    exact_profiled_plan-strategy hashing core_plan core_plan_valid

execute_profiled_plan-unapproved_example :
    (execute_profiled_plan core_providers core_plan "yes" hashing start).1 ≡ start
execute_profiled_plan-unapproved_example =
    execute_profiled_plan-unapproved core_providers core_plan "yes" hashing start no_approval

preflight-Stepped_example :
    Stepped core_providers core_plan start
      (Prepared core_plan)
      (preflight core_providers core_plan start)
preflight-Stepped_example = preflight-Stepped core_providers core_plan start

core_subject :
    is_ok (
      admit_profiled_subject managed_population "netbox:dcim.device:1" "core-02" "cisco-ios-xe"
        NetworkOs.iosxe cat8000v_iosxe)
    ≡ true
unfolding admit_profiled_subject admit_found find_member same_text os_beq profile_beq
core_subject = refl

admitted-profile_os_example : NetworkOs.iosxe ≡ profile_os cat8000v_iosxe
admitted-profile_os_example =
    admitted-profile_os "netbox:dcim.device:1" "core-02" "cisco-ios-xe" NetworkOs.iosxe
      cat8000v_iosxe core_subject

-- A target and a preflight result for the Cisco branch alone.
abbrev core_verified : Verified
core_verified = record {
  device = core_device;
  interface = loopback;
  credentials = record { username = "u"; password = "p" };
  state = described (some "old uplink");
}

abbrev core_target : ProfiledWriteTarget
core_target = record {
  device_identity = "netbox:dcim.device:1";
  interface = loopback;
  name = "core-02";
  host = IpAddress.ipv4 167772161;
  port = 22;
  expected_hostname = "core-02";
  protected_interfaces = [];
  automation_profile_id = cat8000v_iosxe;
  network_os = NetworkOs.iosxe;
  admission = core_admission;
}

cisco_lifecycle-Traced_example :
    Traced (cisco_writes core_plan (cisco_execution "Loopback0" "new uplink") []) (
      cisco_lifecycle core_providers core_plan digest core_verified core_target
        (verified_stage (some "old uplink"))
        (cisco_execution "Loopback0" "new uplink")
        start)
cisco_lifecycle-Traced_example =
    cisco_lifecycle-Traced core_providers core_plan digest core_verified core_target
      (verified_stage (some "old uplink")) (cisco_execution "Loopback0" "new uplink") start

-- The Junos branch, with a device of that profile.
abbrev edge_admission : ProfiledOperationAdmission
edge_admission = record {
  automation_profile_id = vjunos_router;
  network_os = NetworkOs.junos;
  transport_family = TransportFamily.junos_pyez_netconf;
  adapter_family = AdapterFamily.junos_pyez;
  renderer_family = RendererFamily.junos_xml;
  collector_family = CollectorFamily.junos_rpc;
  recovery_family = RecoveryFamily.junos_commit_confirmed;
  management_service = ManagementService.netconf;
  management_port = 830;
  transaction_strategy = TransactionStrategy.junos_commit_confirmed;
  confirmed_timeout_minutes = some 5;
  confirms_previous_commit = true;
}

abbrev edge_plan : ProfiledDeploymentPlan
edge_plan = record core_plan {
  network_os = NetworkOs.junos;
  automation_profile_id = vjunos_router;
  port = 830;
  operation_admission = edge_admission;
  execution_artifact = junos_artifact "Loopback0" "new uplink";
  recovery_artifact = none;
}

abbrev edge_target : ProfiledWriteTarget
edge_target = record core_target {
  port = 830;
  automation_profile_id = vjunos_router;
  network_os = NetworkOs.junos;
  admission = edge_admission;
}

abbrev edge_artifact : JunosConfigArtifact
edge_artifact = record {
  interface = "Loopback0";
  description = "new uplink";
  xml = render_junos_interface_description "Loopback0" "new uplink";
}

junos_lifecycle-Traced_example : Traced (junos_writes []) (
    junos_lifecycle core_providers edge_plan digest core_verified edge_target
      (verified_stage (some "old uplink"))
      edge_artifact
      start)
junos_lifecycle-Traced_example =
    junos_lifecycle-Traced core_providers edge_plan digest core_verified edge_target
      (verified_stage (some "old uplink")) edge_artifact start
