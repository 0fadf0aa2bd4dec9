-- ===== src/Inventory.antt =====
-- src/network_change_delivery/profile_inventory.py: resolved devices, the Git-owned population and
-- the admission of one subject. An address is a number of its family, so that a host is numeric by
-- its type; NetBox object numbers and display names are left out.
pub mod Catalog
use Prim.Native.Char.{code}
use Prim.Native.String.{[] as empty_text, ◌∷◌ as text_cons, ◌++◌}
use network_change_delivery.Base.{
  ℕ, String, ◌≡◌, ◌↔◌, Bool, true, false, not, ◌&&◌, ◌||◌, Option, none, some, List, [], ◌∷◌, map,
  arith, Eq, ◌==◌, ◌!=◌, nat_eq, nat_beq, string_eq, same_text_iff, nat_beq_iff, contains, distinct,
  if◌then◌else◌,
}
use network_change_delivery.Raise.{
  Result, ok, raised, value_error, validation_error, ◌>>=◌, ◌>>◌, raise_if,
}
use network_change_delivery.Profile.{
  NetworkOs, OperationalRole, AutomationProfileId, AutomationProfile, ReadinessServiceExpectation,
  get_automation_profile, os_eq, role_eq, profile_eq, os_beq_iff, profile_beq_iff,
}
use network_change_delivery.Profile.Admission.{ProfiledOperationAdmission, operation_admission}

pub data IpAddress : Type 0 where
  ipv4 ipv6 : ℕ → IpAddress

unfoldable pub address_beq : IpAddress → IpAddress → Bool
address_beq (ipv4 a) (ipv4 b) = nat_beq a b
address_beq (ipv6 a) (ipv6 b) = nat_beq a b
address_beq _ _ = false

pub address_beq_iff : (a b : IpAddress) → (address_beq a b ≡ true) ↔ (a ≡ b)
unfolding address_beq
address_beq_iff (ipv4 a) (ipv4 b) = ground arith
address_beq_iff (ipv6 a) (ipv6 b) = ground arith
address_beq_iff _ _ = ground arith

instance abbrev pub address_eq : Eq IpAddress
address_eq = record { beq = address_beq; beq_iff = address_beq_iff }

pub record StableInterfaceIdentity : Type 0 where
  pub device : String
  pub interface : String
  pub name : String

unfoldable pub interface_beq : StableInterfaceIdentity → StableInterfaceIdentity → Bool
interface_beq a b = a.device == b.device && (a.interface == b.interface && a.name == b.name)

pub interface_beq_iff : (a b : StableInterfaceIdentity) → (interface_beq a b ≡ true) ↔ (a ≡ b)
unfolding interface_beq
interface_beq_iff a b = ground (
  arith,
  same_text_iff a.device b.device,
  same_text_iff a.interface b.interface,
  same_text_iff a.name b.name,
)

instance abbrev pub interface_eq : Eq StableInterfaceIdentity
interface_eq = record { beq = interface_beq; beq_iff = interface_beq_iff }

pub record ProfiledPopulationMember : Type 0 where
  pub device_identity : String
  pub logical_name : String
  pub operational_role : OperationalRole
  pub platform_slug : String
  pub device_type_slug : String
  pub network_os : NetworkOs
  pub automation_profile_id : AutomationProfileId

-- `ProfiledPopulationDeclaration`
abbrev pub Declaration : Type 0
Declaration = List ProfiledPopulationMember

-- `ProfiledPopulationDeclaration.member`
unfoldable pub find_member : Declaration → String → Result ProfiledPopulationMember
find_member [] name =
    raised (value_error "NetBox profile target name is not in the Git-owned population")
find_member (m ∷ ms) name = if m.logical_name == name then ok m else find_member ms name

-- `ProfiledInventoryDevice`; of the management endpoints, the LIVE address and port
pub record ProfiledInventoryDevice : Type 0 where
  pub device_identity : String
  pub logical_name : String
  pub expected_hostname : String
  pub platform_slug : String
  pub device_type_slug : String
  pub operational_role : OperationalRole
  pub network_os : NetworkOs
  pub automation_profile_id : AutomationProfileId
  pub live_address : IpAddress
  pub live_port : ℕ
  pub protected_interfaces : List StableInterfaceIdentity

pub record ProfileReadOnlyTarget : Type 0 where
  pub logical_name : String
  pub host : IpAddress
  pub port : ℕ
  pub expected_hostname : String
  pub protected_interfaces : List String
  pub automation_profile_id : AutomationProfileId
  pub network_os : NetworkOs

service_ports : List ReadinessServiceExpectation → List ℕ
service_ports [] = []
service_ports (e ∷ es) = e.port ∷ service_ports es

interface_names : List StableInterfaceIdentity → List String
interface_names [] = []
interface_names (i ∷ is) = i.name ∷ interface_names is

-- `ProfileReadOnlyTarget.profile_matches_network_os`
unfoldable pub read_only_target_valid : ProfileReadOnlyTarget → Bool
unfolding service_ports
read_only_target_valid t =
    let profile = get_automation_profile t.automation_profile_id in
    profile.network_os == t.network_os
    && contains (service_ports profile.readiness_services) t.port
    && distinct t.protected_interfaces

-- `ProfiledInventoryDevice.live_read_only_target`
unfoldable pub live_read_only_target : ProfiledInventoryDevice → Result ProfileReadOnlyTarget
unfolding read_only_target_valid interface_names
live_read_only_target d =
    let target : ProfileReadOnlyTarget = record {
      logical_name = d.logical_name;
      host = d.live_address;
      port = d.live_port;
      expected_hostname = d.expected_hostname;
      protected_interfaces = interface_names d.protected_interfaces;
      automation_profile_id = d.automation_profile_id;
      network_os = d.network_os;
    } in
    if read_only_target_valid target then ok target else raised validation_error

-- What follows the lookup of the member.
unfoldable pub admit_found :
    String
    → String
    → NetworkOs
    → AutomationProfileId
    → Result ProfiledPopulationMember
    → Result (Unit {0})
admit_found device_identity platform_slug network_os profile found = do
  member ← found
  raise_if
      (device_identity != member.device_identity
        || platform_slug != member.platform_slug
        || network_os != member.network_os
        || profile != member.automation_profile_id)
      (value_error "profiled target does not match its Git-owned subject")

-- `admit_profiled_subject`
unfoldable pub admit_profiled_subject :
    Declaration → String → String → String → NetworkOs → AutomationProfileId → Result (Unit {0})
unfolding admit_found
admit_profiled_subject declaration device_identity logical_name platform_slug network_os profile =
    admit_found device_identity platform_slug network_os profile
      (find_member declaration logical_name)
