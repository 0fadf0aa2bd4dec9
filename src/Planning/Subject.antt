-- ===== src/Planning/Subject.antt =====
-- Who may be planned for: `admit_profiled_operation` and the checks of target, interface, observed
-- state and credential reference.
use Prim.Native.Char.{code}
use Prim.Native.String.{[] as empty_text, ◌∷◌ as text_cons, ◌++◌}
use network_change_delivery.Base.{
  String, Bool, true, false, not, ◌||◌, Option, none, some, List, [], ◌∷◌, ◌!=◌, nat_eq, string_eq,
  contains, if◌then◌else◌, nat_beq,
}
use network_change_delivery.Raise.{Result, ok, raised, value_error, ◌>>=◌, ◌>>◌, raise_if}
use network_change_delivery.Models.{InterfaceState}
use network_change_delivery.Profile.Admission.{ProfiledOperationAdmission, operation_admission}
use network_change_delivery.Inventory.{
  StableInterfaceIdentity, ProfiledInventoryDevice, admit_profiled_subject, live_read_only_target,
}
use network_change_delivery.Inventory.Catalog.{managed_population}

-- `models.InterfaceDescriptionIntent`
pub record InterfaceDescriptionIntent : Type 0 where
  pub change_id : String
  pub target : String
  pub interface : String
  pub desired_description : String

pub data CredentialSource : Type 0 where
  environment openbao : CredentialSource

abbrev pub is_openbao : CredentialSource → Bool
is_openbao environment = false
is_openbao openbao = true

pub record CredentialReference : Type 0 where
  pub source : CredentialSource
  pub reference : String

-- The part of a text behind its last colon, where it has one.
unfoldable pub last_part : String → Option String
last_part empty_text = none
last_part (text_cons c s) = elim (last_part s) [
  | some part ↦ some part
  | none ↦ if nat_beq (code c) b':' then some s else none
]

-- `identity.rsplit(":", 1)[1]`; an identity has a colon by its pattern.
unfoldable pub object_number : String → String
unfolding last_part
object_number identity = elim (last_part identity) [ some part ↦ part | none ↦ "" ]

unfoldable pub expected_credential : String → String
expected_credential identity = "openbao:kv-v2:ncdp/devices/" ++ (object_number identity ++ "/ssh")

-- `PROFILED_OPERATION_ADMISSIONS.get((profile, operation))` and the port of its endpoint
unfoldable pub admit_endpoint :
    Option ProfiledOperationAdmission → ProfiledInventoryDevice → Result ProfiledOperationAdmission
admit_endpoint none device =
    raised (value_error "profiled target does not admit the requested write operation")
admit_endpoint (some admission) device = do
  target ← live_read_only_target device
  raise_if (target.port != admission.management_port)
      (value_error "profiled operation endpoint binding is invalid")
  ok admission

unfoldable pub admit_profiled_operation :
    ProfiledInventoryDevice → Result ProfiledOperationAdmission
unfolding admit_endpoint
admit_profiled_operation device = do
  admit_profiled_subject managed_population device.device_identity device.logical_name
      device.platform_slug device.network_os device.automation_profile_id
  admit_endpoint (operation_admission device.automation_profile_id) device

-- `"".join(name.split()).casefold()`: a function of Python's Unicode tables, which are not part of
-- the repository.
abbrev pub NameFolding : Type 0
NameFolding = String → String

unfoldable pub assert_profiled_target_binding :
    InterfaceDescriptionIntent → ProfiledInventoryDevice → Result (Unit {0})
assert_profiled_target_binding intent device =
    raise_if (device.logical_name != intent.target)
      (value_error "profiled planning target identity rejected")

interface_identities : List StableInterfaceIdentity → List String
interface_identities [] = []
interface_identities (i ∷ rest) = i.interface ∷ interface_identities rest

folded_names : NameFolding → List StableInterfaceIdentity → List String
folded_names fold [] = []
folded_names fold (i ∷ rest) = fold i.name ∷ folded_names fold rest

unfoldable pub assert_profiled_interface_binding :
    NameFolding
    → InterfaceDescriptionIntent
    → ProfiledInventoryDevice
    → StableInterfaceIdentity
    → Result (Unit {0})
unfolding interface_identities folded_names
assert_profiled_interface_binding fold intent device interface = do
  raise_if (interface.device != device.device_identity || interface.name != intent.interface)
      (value_error "profiled interface identity rejected")
  raise_if
      (contains (interface_identities device.protected_interfaces) interface.interface
        || contains (folded_names fold device.protected_interfaces) (fold interface.name))
      (value_error "requested interface is protected by inventory policy")

unfoldable pub assert_profiled_safe_state :
    NameFolding
    → InterfaceDescriptionIntent
    → ProfiledInventoryDevice
    → StableInterfaceIdentity
    → InterfaceState
    → Result (Unit {0})
unfolding assert_profiled_target_binding
assert_profiled_safe_state fold intent device interface state = do
  assert_profiled_target_binding intent device
  _ ← admit_profiled_operation device
  assert_profiled_interface_binding fold intent device interface
  raise_if
      (state.observed_hostname != device.expected_hostname
        || state.interface != intent.interface
        || not state.exists)
      (value_error "profiled planning observation identity rejected")
  raise_if state.protected (value_error "requested interface is protected by inventory policy")

unfoldable pub validate_credential_reference :
    ProfiledInventoryDevice → CredentialReference → Result CredentialReference
validate_credential_reference device credential = do
  raise_if
      (not (is_openbao credential.source)
        || credential.reference != expected_credential device.device_identity)
      (value_error "profiled credential binding rejected")
  ok credential
