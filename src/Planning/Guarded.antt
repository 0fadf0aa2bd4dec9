-- ===== src/Planning/Guarded.antt =====
-- Each call of planning stands behind the checks of what the calls before it answered.
use network_change_delivery.Base.{◌≡◌, refl, ap}
use network_change_delivery.Raise.{Result, ok, raised, provider}
use network_change_delivery.Models.{InterfaceState}
use network_change_delivery.Inventory.{
  StableInterfaceIdentity, ProfiledInventoryDevice, ProfileReadOnlyTarget, live_read_only_target,
}
use network_change_delivery.Profile.Admission.{ProfiledOperationAdmission}
use network_change_delivery.Planning.Subject.{
  InterfaceDescriptionIntent, CredentialReference, NameFolding, admit_profiled_operation,
  assert_profiled_target_binding, assert_profiled_interface_binding, assert_profiled_safe_state,
  validate_credential_reference,
}
use network_change_delivery.Planning.Artifacts.{Hashing}
use network_change_delivery.Planning.Change.{conclude}
use network_change_delivery.Planning.Concluded.{and-Gives, Concludes, conclude-Concludes}
use network_change_delivery.Planning.Observed.{
  plan_profiled_change, after_resolve, admit_device, observe_and_plan, after_interface,
  find_reference, after_reference, load_credentials, after_credentials, observe_target, after_state,
}
use network_change_delivery.Planning.Calls.{
  resolution, binding, routing, aiming, at_device, at_interface, at_credential, at_target, Observed,
  Guarded, no_device, no_interface, no_credential, no_target, observed,
}
use network_change_delivery.Exec.{Session}
use network_change_delivery.Exec.Providers.{Providers, Answer, answer, fault, DeviceCredentials}

module _ {W : Type 0} (p : Providers W) (hashing : Hashing) (fold : NameFolding)
    (intent : InterfaceDescriptionIntent) where
  module _ (device : ProfiledInventoryDevice) (interface : StableInterfaceIdentity)
      (credential : CredentialReference) (target : ProfileReadOnlyTarget)
      (live : live_read_only_target device ≡ ok target) where
    state-Observed :
        (state : InterfaceState) (t : Session W)
        → ((after_state p hashing fold intent device interface credential state t).1 ≡ t)
          × Observed p hashing fold intent device interface credential target
              (answer state)
              t.world
              (after_state p hashing fold intent device interface credential state t).0
    unfolding after_state
    state-Observed state t = go (assert_profiled_safe_state fold intent device interface state) refl
      where
        go :
            (r : Result (Unit {0}))
            → assert_profiled_safe_state fold intent device interface state ≡ r
            → ((after_state p hashing fold intent device interface credential state t).1 ≡ t)
              × Observed p hashing fold intent device interface credential target
                  (answer state)
                  t.world
                  (after_state p hashing fold intent device interface credential state t).0
        go (raised e) h = rw h (refl, (refl, tt))
        go (ok u) h = rw h (
          refl,
          (
            refl,
            and-Gives (Concludes hashing intent device interface state credential target) _
                (conclude hashing fold intent device interface state credential (p.clock t.world)
                  state.description)
                refl
                (conclude-Concludes hashing intent device interface state credential target fold
                  (p.clock t.world) live state.description refl),
          ),
        )

  module _ (s : Session W) (device : ProfiledInventoryDevice)
      (found : resolution p hashing fold intent s.world ≡ ok device) where
    module _ (interface : StableInterfaceIdentity)
        (checked : binding p hashing fold intent device (at_device p hashing fold intent s).world
          ≡ ok interface) where
      module _ (credential : CredentialReference)
          (reference : routing p hashing fold intent device
              (at_interface p hashing fold intent device s).world
            ≡ ok credential) where
        observe-Guarded :
            (credentials : DeviceCredentials) (target : ProfileReadOnlyTarget)
            → aiming p hashing fold intent device
                (at_credential p hashing fold intent device s).world
              ≡ ok (credentials, target)
            → live_read_only_target device ≡ ok target
            → Guarded p hashing fold intent s (
                observe_target p hashing fold intent device interface credential credentials target
                  (at_target p hashing fold intent device s))
        unfolding observe_target
        observe-Guarded credentials target loaded live = go _ _ refl
          where
            go :
                (seen : Answer InterfaceState) (w : W)
                → p.collect target credentials intent.interface
                    (at_target p hashing fold intent device s).world
                  ≡ (seen, w)
                → Guarded p hashing fold intent s (
                    observe_target p hashing fold intent device interface credential credentials
                      target
                      (at_target p hashing fold intent device s))
            go (fault f) w e =
                observed device interface credential credentials target (fault f) w found checked
                  reference loaded e (rw e refl) (rw e refl)
            go (answer state) w e =
                observed device interface credential credentials target (answer state) w found
                  checked reference loaded e
                  (rw e (
                    ap (λ x. x.trace)
                      (state-Observed device interface credential target live state _).0))
                  (rw e (state-Observed device interface credential target live state _).1)

        load-Guarded : Guarded p hashing fold intent s (
            load_credentials p hashing fold intent device interface credential
              (at_credential p hashing fold intent device s))
        unfolding load_credentials after_credentials
        load-Guarded = go _ refl
          where
            go :
                (a : Answer DeviceCredentials)
                → (p.load device (at_credential p hashing fold intent device s).world).0 ≡ a
                → Guarded p hashing fold intent s (
                    load_credentials p hashing fold intent device interface credential
                      (at_credential p hashing fold intent device s))
            go (fault f) h =
                no_target device interface credential (provider f) found checked reference
                  (rw h refl) (rw h refl) (rw h refl)
            go (answer credentials) h = live (live_read_only_target device) refl
              where
                live :
                    (r : Result ProfileReadOnlyTarget)
                    → live_read_only_target device ≡ r
                    → Guarded p hashing fold intent s (
                        load_credentials p hashing fold intent device interface credential
                          (at_credential p hashing fold intent device s))
                live (raised e) k =
                    no_target device interface credential e found checked reference
                      (rw h (rw k refl)) (rw h (rw k refl)) (rw h (rw k refl))
                live (ok target) k =
                    rw h (rw k (observe-Guarded credentials target (rw h (rw k refl)) k))

      reference-Guarded : Guarded p hashing fold intent s (
          find_reference p hashing fold intent device interface tt
            (at_interface p hashing fold intent device s))
      unfolding find_reference after_reference
      reference-Guarded = go _ refl
        where
          go :
              (a : Answer CredentialReference)
              → (p.reference device (at_interface p hashing fold intent device s).world).0 ≡ a
              → Guarded p hashing fold intent s (
                  find_reference p hashing fold intent device interface tt
                    (at_interface p hashing fold intent device s))
          go (fault f) h =
              no_credential device interface (provider f) found checked (rw h refl) (rw h refl)
                (rw h refl)
          go (answer reference) h = valid (validate_credential_reference device reference) refl
            where
              valid :
                  (r : Result CredentialReference)
                  → validate_credential_reference device reference ≡ r
                  → Guarded p hashing fold intent s (
                      find_reference p hashing fold intent device interface tt
                        (at_interface p hashing fold intent device s))
              valid (raised e) k =
                  no_credential device interface e found checked (rw h k) (rw h (rw k refl))
                    (rw h (rw k refl))
              valid (ok credential) k = rw h (rw k (load-Guarded credential (rw h k)))

    interface-Guarded :
        (admission : ProfiledOperationAdmission)
        → Guarded p hashing fold intent s (
            observe_and_plan p hashing fold intent device admission
              (at_device p hashing fold intent s))
    unfolding observe_and_plan after_interface
    interface-Guarded admission = go _ refl
      where
        go :
            (a : Answer StableInterfaceIdentity)
            → (p.resolve_interface device intent.interface
                (at_device p hashing fold intent s).world).0
              ≡ a
            → Guarded p hashing fold intent s (
                observe_and_plan p hashing fold intent device admission
                  (at_device p hashing fold intent s))
        go (fault f) h = no_interface device (provider f) found (rw h refl) (rw h refl) (rw h refl)
        go (answer interface) h =
            own (assert_profiled_interface_binding fold intent device interface) refl
          where
            own :
                (r : Result (Unit {0}))
                → assert_profiled_interface_binding fold intent device interface ≡ r
                → Guarded p hashing fold intent s (
                    observe_and_plan p hashing fold intent device admission
                      (at_device p hashing fold intent s))
            own (raised e) k =
                no_interface device e found (rw h (rw k refl)) (rw h (rw k refl)) (rw h (rw k refl))
            own (ok u) k = rw h (rw k (reference-Guarded interface (rw h (rw k refl))))

  -- For all answers of the providers, planning makes its calls in one order, each only where the checks of
  -- what was answered before have passed, and ends at the first refusal or fault with that exception: it
  -- looks up an interface only of a resolved device that bears the name of the intent and is admitted, asks
  -- for a credential reference only where the interface is bound to the device, loads credentials only
  -- where the reference is the one of the device, and collects once, from its live target. It makes no
  -- call but these, so it writes nothing. After a collection, its result is the one of the check of the
  -- observed state and of the building that follows; a plan that it returns is exact, leads from the
  -- observed description to the different one of the intent, and names the device, the interface, the
  -- reference and the target found before; a compliance record is returned only where the two descriptions
  -- are equal.
  pub plan_profiled_change-Guarded :
      (s : Session W)
      → Guarded p hashing fold intent s (plan_profiled_change p hashing fold intent s)
  unfolding plan_profiled_change after_resolve admit_device
  plan_profiled_change-Guarded s = go _ refl
    where
      go :
          (a : Answer ProfiledInventoryDevice)
          → (p.resolve intent.target s.world).0 ≡ a
          → Guarded p hashing fold intent s (plan_profiled_change p hashing fold intent s)
      go (fault f) h = no_device (provider f) (rw h refl) (rw h refl) (rw h refl)
      go (answer device) h = named (assert_profiled_target_binding intent device) refl
        where
          named :
              (r : Result (Unit {0}))
              → assert_profiled_target_binding intent device ≡ r
              → Guarded p hashing fold intent s (plan_profiled_change p hashing fold intent s)
          named (raised e) k = no_device e (rw h (rw k refl)) (rw h (rw k refl)) (rw h (rw k refl))
          named (ok u) k = admitted (admit_profiled_operation device) refl
            where
              admitted :
                  (r : Result ProfiledOperationAdmission)
                  → admit_profiled_operation device ≡ r
                  → Guarded p hashing fold intent s (plan_profiled_change p hashing fold intent s)
              admitted (raised e) l =
                  no_device e (rw h (rw k (rw l refl))) (rw h (rw k (rw l refl)))
                    (rw h (rw k (rw l refl)))
              admitted (ok a) l =
                  rw h (rw k (rw l (interface-Guarded s device (rw h (rw k (rw l refl))) a)))
