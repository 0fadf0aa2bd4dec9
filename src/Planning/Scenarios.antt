-- ===== src/Planning/Scenarios.antt =====
-- An intent for the device core-02, and the theorems of planning applied to it.
use network_change_delivery.Base.{true, ◌≡◌, refl, some, string_eq, list_eq}
use network_change_delivery.Raise.{Yields}
use network_change_delivery.Models.Description.{desired_description, validate_ios_description}
use network_change_delivery.Profile.{get_automation_profile, os_beq}
use network_change_delivery.Inventory.{live_read_only_target, read_only_target_valid}
use network_change_delivery.Planning.Subject.{
  InterfaceDescriptionIntent, CredentialReference, openbao,
}
use network_change_delivery.Planning.Validator.{exact_profiled_plan}
use network_change_delivery.Planning.Change.{build_profiled_plan}
use network_change_delivery.Planning.Observed.{plan_profiled_change}
use network_change_delivery.Planning.Sound.{Resolved, build_profiled_plan-Exact}
use network_change_delivery.Planning.Calls.{Guarded}
use network_change_delivery.Planning.Guarded.{plan_profiled_change-Guarded}
use network_change_delivery.Execution.Scenarios.{
  hashing, loopback, core_device, described, core_providers, start,
}

abbrev intent : InterfaceDescriptionIntent
intent = record {
  change_id = "CHG-1";
  target = "core-02";
  interface = "Loopback0";
  desired_description = "new uplink";
}

abbrev credential : CredentialReference
credential = record { source = openbao; reference = "openbao:kv-v2:ncdp/devices/1/ssh" }

core-Resolved : Resolved core_device
unfolding live_read_only_target read_only_target_valid os_beq get_automation_profile
core-Resolved = record { named = refl; reachable = refl }

desired_valid : desired_description "new uplink" ≡ true
unfolding desired_description validate_ios_description
desired_valid = refl

build_profiled_plan-Exact_example :
    Yields
      (λ plan. exact_profiled_plan hashing plan ≡ true)
      (build_profiled_plan hashing
        (λ name. name)
        intent
        core_device
        loopback
        (described (some "old uplink"))
        credential
        1)
build_profiled_plan-Exact_example =
    build_profiled_plan-Exact hashing (λ name. name) intent core_device loopback
      (described (some "old uplink")) credential 1 (λ plan d. refl) core-Resolved desired_valid

-- The whole planning of the change for core-02.
plan_profiled_change-Guarded_example :
    Guarded core_providers hashing
      (λ name. name)
      intent
      start
      (plan_profiled_change core_providers hashing (λ name. name) intent start)
plan_profiled_change-Guarded_example =
    plan_profiled_change-Guarded core_providers hashing (λ name. name) intent start
