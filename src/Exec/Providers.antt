-- ===== src/Exec/Providers.antt =====
-- The providers that delivery is given: the inventory, the credential store, the read-only
-- collector, the vendor writers and the clock. They are outside the modelled code: nothing is
-- assumed of what they return.
use network_change_delivery.Base.{ℕ, String, Bool, Option, none, some, ◌∷◌}
use network_change_delivery.Raise.{Fault, provider, Result, ok, raised}
use network_change_delivery.Models.Digest.{Sha256Digest}
use network_change_delivery.Models.{
  ExecutionResult, InterfaceState, CiscoConfigArtifact, JunosConfigArtifact,
}
use network_change_delivery.Inventory.{
  StableInterfaceIdentity, ProfiledInventoryDevice, ProfileReadOnlyTarget,
}
use network_change_delivery.Planning.{CredentialReference}
use network_change_delivery.WriteAdapter.{ProfiledWriteTarget}
use network_change_delivery.Exec.{Event, collected, Exec, call}

-- What a provider's call returns: a value, or one of Python's exceptions.
pub data Answer (A : Type 0) : Type 0 where
  answer : A → Answer A
  fault : Fault → Answer A

pub record DeviceCredentials : Type 0 where
  pub username : String
  pub password : String

pub record Providers (W : Type 0) : Type 0 where
  pub resolve : String → W → Answer ProfiledInventoryDevice × W
  pub resolve_interface : ProfiledInventoryDevice → String → W → Answer StableInterfaceIdentity × W
  pub reference : ProfiledInventoryDevice → W → Answer CredentialReference × W
  pub load : ProfiledInventoryDevice → W → Answer DeviceCredentials × W
  pub collect : ProfileReadOnlyTarget → DeviceCredentials → String → W → Answer InterfaceState × W
  pub verify_cisco_runtime : W → Answer (Unit {0}) × W
  pub execute_profiled :
      ProfiledWriteTarget
      → DeviceCredentials
      → Option CiscoConfigArtifact
      → W
      → Answer ExecutionResult × W
  pub transaction_enter :
      ProfiledWriteTarget → DeviceCredentials → JunosConfigArtifact → W → Answer (Unit {0}) × W
  -- the digest of the validated candidate's difference, `sha256:` and `hexdigest()`
  pub transaction_prepare : W → Answer Sha256Digest × W
  pub transaction_commit : ℕ → W → Answer ExecutionResult × W
  pub transaction_exit : W → Answer (Unit {0}) × W
  -- the attribute `close_failed` that the transaction itself may have set
  pub transaction_close_failed : W → Bool
  pub confirm_profiled : ProfiledWriteTarget → DeviceCredentials → W → Answer ExecutionResult × W
  pub clock : W → ℕ

module _ {A : Type 0} where
  abbrev pub to_result : Answer A → Result A
  to_result (answer a) = ok a
  to_result (fault f) = raised (provider f)

  abbrev pub to_option : Answer A → Option A
  to_option (answer a) = some a
  to_option (fault f) = none

module _ {W A : Type 0} where
  -- A recorded call of a provider.
  abbrev pub ask : Event → (W → Answer A × W) → Exec W A
  ask event provide = call event (λ w. let (a, w') = provide w in (to_result a, w'))

-- A fresh collection, recorded with what it returned.
abbrev pub observe :
    {W : Type 0}
    → Providers W
    → ProfileReadOnlyTarget
    → DeviceCredentials
    → String
    → Exec W InterfaceState
observe p target credentials interface s =
    let (a, w) = p.collect target credentials interface s.world in
    (to_result a, record { world = w; trace = collected (to_option a) ∷ s.trace })
