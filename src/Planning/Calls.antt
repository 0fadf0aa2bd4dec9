-- ===== src/Planning/Calls.antt =====
-- The answers that planning goes through, each with its checks, and how far a run of it came.
use network_change_delivery.Base.{◌≡◌, ◌∷◌}
use network_change_delivery.Raise.{Exn, Result, ok, raised, provider, ◌>>=◌}
use network_change_delivery.Models.{InterfaceState}
use network_change_delivery.Inventory.{
  StableInterfaceIdentity, ProfiledInventoryDevice, ProfileReadOnlyTarget, live_read_only_target,
}
use network_change_delivery.Planning.Subject.{
  InterfaceDescriptionIntent, CredentialReference, NameFolding, admit_profiled_operation,
  assert_profiled_target_binding, assert_profiled_interface_binding, assert_profiled_safe_state,
  validate_credential_reference,
}
use network_change_delivery.Planning.Artifacts.{Hashing}
use network_change_delivery.Planning.Change.{Planned, conclude}
use network_change_delivery.Planning.Concluded.{Gives, Concludes}
use network_change_delivery.Exec.{Session, read, collected}
use network_change_delivery.Exec.Providers.{
  Providers, Answer, answer, fault, DeviceCredentials, to_result, to_option,
}

module _ {W : Type 0} (p : Providers W) (hashing : Hashing) (fold : NameFolding)
    (intent : InterfaceDescriptionIntent) where
  -- The device that the inventory answers, where it bears the name of the intent and is admitted.
  abbrev pub resolution : W → Result ProfiledInventoryDevice
  resolution w = to_result (p.resolve intent.target w).0 >>= λ device.
      assert_profiled_target_binding intent device >>= λ _.
      admit_profiled_operation device >>= λ _. ok device

  abbrev pub resolved : W → W
  resolved w = (p.resolve intent.target w).1

  -- The interface of the device, where it belongs to it and is not protected.
  abbrev pub binding : ProfiledInventoryDevice → W → Result StableInterfaceIdentity
  binding device w = to_result (p.resolve_interface device intent.interface w).0 >>= λ interface.
      assert_profiled_interface_binding fold intent device interface >>= λ _. ok interface

  abbrev pub bound : ProfiledInventoryDevice → W → W
  bound device w = (p.resolve_interface device intent.interface w).1

  -- The reference to the credentials, where it is the one of the device.
  abbrev pub routing : ProfiledInventoryDevice → W → Result CredentialReference
  routing device w = to_result (p.reference device w).0 >>= validate_credential_reference device

  abbrev pub routed : ProfiledInventoryDevice → W → W
  routed device w = (p.reference device w).1

  -- The credentials, and the live target of the device.
  abbrev pub aiming :
      ProfiledInventoryDevice → W → Result (DeviceCredentials × ProfileReadOnlyTarget)
  aiming device w = to_result (p.load device w).0 >>= λ credentials.
      live_read_only_target device >>= λ target. ok (credentials, target)

  abbrev pub aimed : ProfiledInventoryDevice → W → W
  aimed device w = (p.load device w).1

  -- The last step: the check of the observed state, and the plan or the compliance record.
  abbrev pub concluding :
      ProfiledInventoryDevice
      → StableInterfaceIdentity
      → CredentialReference
      → InterfaceState
      → W
      → Result Planned
  concluding device interface credential state w =
      assert_profiled_safe_state fold intent device interface state >>= λ _.
      conclude hashing fold intent device interface state credential (p.clock w) state.description

  -- What planning gives after the collection, which leaves the world `w`.
  abbrev pub Observed :
      ProfiledInventoryDevice
      → StableInterfaceIdentity
      → CredentialReference
      → ProfileReadOnlyTarget
      → Answer InterfaceState
      → W
      → Result Planned
      → Type 0
  Observed device interface credential target (fault f) w r = r ≡ raised (provider f)
  Observed device interface credential target (answer state) w r =
      (r ≡ concluding device interface credential state w)
      × Gives
          (λ result.
            (assert_profiled_safe_state fold intent device interface state ≡ ok tt)
            × Concludes hashing intent device interface state credential target result)
          r

  -- The session after each of the four reads.
  abbrev pub at_device : Session W → Session W
  at_device s = record { world = resolved s.world; trace = read ∷ s.trace }

  abbrev pub at_interface : ProfiledInventoryDevice → Session W → Session W
  at_interface device s = record {
    world = bound device (at_device s).world;
    trace = read ∷ (at_device s).trace;
  }

  abbrev pub at_credential : ProfiledInventoryDevice → Session W → Session W
  at_credential device s = record {
    world = routed device (at_interface device s).world;
    trace = read ∷ (at_interface device s).trace;
  }

  abbrev pub at_target : ProfiledInventoryDevice → Session W → Session W
  at_target device s = record {
    world = aimed device (at_credential device s).world;
    trace = read ∷ (at_credential device s).trace;
  }

  -- How far planning that begins at `s` came, and with what result.
  pub data Guarded (s : Session W) (x : Result Planned × Session W) : Type 0 where
    no_device :
        (e : Exn)
        → resolution s.world ≡ raised e
        → x.0 ≡ raised e
        → x.1.trace ≡ read ∷ s.trace
        → Guarded s x
    no_interface :
        (device : ProfiledInventoryDevice) (e : Exn)
        → resolution s.world ≡ ok device
        → binding device (at_device s).world ≡ raised e
        → x.0 ≡ raised e
        → x.1.trace ≡ read ∷ read ∷ s.trace
        → Guarded s x
    no_credential :
        (device : ProfiledInventoryDevice) (interface : StableInterfaceIdentity) (e : Exn)
        → resolution s.world ≡ ok device
        → binding device (at_device s).world ≡ ok interface
        → routing device (at_interface device s).world ≡ raised e
        → x.0 ≡ raised e
        → x.1.trace ≡ read ∷ read ∷ read ∷ s.trace
        → Guarded s x
    no_target :
        (device : ProfiledInventoryDevice) (interface : StableInterfaceIdentity)
        (credential : CredentialReference) (e : Exn)
        → resolution s.world ≡ ok device
        → binding device (at_device s).world ≡ ok interface
        → routing device (at_interface device s).world ≡ ok credential
        → aiming device (at_credential device s).world ≡ raised e
        → x.0 ≡ raised e
        → x.1.trace ≡ read ∷ read ∷ read ∷ read ∷ s.trace
        → Guarded s x
    observed :
        (device : ProfiledInventoryDevice) (interface : StableInterfaceIdentity)
        (credential : CredentialReference) (credentials : DeviceCredentials)
        (target : ProfileReadOnlyTarget) (seen : Answer InterfaceState) (w : W)
        → resolution s.world ≡ ok device
        → binding device (at_device s).world ≡ ok interface
        → routing device (at_interface device s).world ≡ ok credential
        → aiming device (at_credential device s).world ≡ ok (credentials, target)
        → p.collect target credentials intent.interface (at_target device s).world ≡ (seen, w)
        → x.1.trace ≡ collected (to_option seen) ∷ read ∷ read ∷ read ∷ read ∷ s.trace
        → Observed device interface credential target seen w x.0
        → Guarded s x
