-- ===== src/Planning/Observed.antt =====
-- `plan_profiled_change`: the calls of the planning providers. The creation time is the clock's.
use network_change_delivery.Models.{InterfaceState}
use network_change_delivery.Profile.Admission.{ProfiledOperationAdmission}
use network_change_delivery.Inventory.{
  ProfiledInventoryDevice, StableInterfaceIdentity, ProfileReadOnlyTarget, live_read_only_target,
}
use network_change_delivery.Planning.Subject.{
  InterfaceDescriptionIntent, CredentialReference, NameFolding, admit_profiled_operation,
  assert_profiled_target_binding, assert_profiled_interface_binding, assert_profiled_safe_state,
  validate_credential_reference,
}
use network_change_delivery.Planning.Artifacts.{Hashing}
use network_change_delivery.Planning.Change.{Planned, conclude}
use network_change_delivery.Exec.{Exec, lift, read, ◌>>=◌}
use network_change_delivery.Exec.Providers.{Providers, DeviceCredentials, ask, observe}

module _ {W : Type 0} (p : Providers W) (hashing : Hashing) (fold : NameFolding)
    (intent : InterfaceDescriptionIntent) where
  -- The steps from the observation back to the lookup of the interface, each with what follows it.
  unfoldable pub after_state :
      ProfiledInventoryDevice
      → StableInterfaceIdentity
      → CredentialReference
      → InterfaceState
      → Exec W Planned
  after_state device interface credential state =
      lift (assert_profiled_safe_state fold intent device interface state) >>= λ _ s.
      lift
        (conclude hashing fold intent device interface state credential (p.clock s.world)
          state.description)
        s

  unfoldable pub observe_target :
      ProfiledInventoryDevice
      → StableInterfaceIdentity
      → CredentialReference
      → DeviceCredentials
      → ProfileReadOnlyTarget
      → Exec W Planned
  unfolding after_state
  observe_target device interface credential credentials target =
      observe p target credentials intent.interface >>= after_state device interface credential

  unfoldable pub after_credentials :
      ProfiledInventoryDevice
      → StableInterfaceIdentity
      → CredentialReference
      → DeviceCredentials
      → Exec W Planned
  unfolding observe_target
  after_credentials device interface credential credentials =
      lift (live_read_only_target device) >>= observe_target device interface credential credentials

  unfoldable pub load_credentials :
      ProfiledInventoryDevice → StableInterfaceIdentity → CredentialReference → Exec W Planned
  unfolding after_credentials
  load_credentials device interface credential =
      ask read (p.load device) >>= after_credentials device interface credential

  unfoldable pub after_reference :
      ProfiledInventoryDevice → StableInterfaceIdentity → CredentialReference → Exec W Planned
  unfolding load_credentials
  after_reference device interface found =
      lift (validate_credential_reference device found) >>= load_credentials device interface

  unfoldable pub find_reference :
      ProfiledInventoryDevice → StableInterfaceIdentity → Unit {0} → Exec W Planned
  unfolding after_reference
  find_reference device interface _ =
      ask read (p.reference device) >>= after_reference device interface

  unfoldable pub after_interface :
      ProfiledInventoryDevice → StableInterfaceIdentity → Exec W Planned
  unfolding find_reference
  after_interface device interface =
      lift (assert_profiled_interface_binding fold intent device interface)
      >>= find_reference device interface

  unfoldable pub observe_and_plan :
      ProfiledInventoryDevice → ProfiledOperationAdmission → Exec W Planned
  unfolding after_interface
  observe_and_plan device _ =
      ask read (p.resolve_interface device intent.interface) >>= after_interface device

  unfoldable pub admit_device : ProfiledInventoryDevice → Unit {0} → Exec W Planned
  unfolding observe_and_plan
  admit_device device _ = lift (admit_profiled_operation device) >>= observe_and_plan device

  unfoldable pub after_resolve : ProfiledInventoryDevice → Exec W Planned
  unfolding admit_device
  after_resolve device = lift (assert_profiled_target_binding intent device) >>= admit_device device

  -- `plan_profiled_change`
  unfoldable pub plan_profiled_change : Exec W Planned
  unfolding after_resolve
  plan_profiled_change = ask read (p.resolve intent.target) >>= after_resolve
