-- ===== src/Execution/Preflight.antt =====
-- `_preflight`: fresh identity, admission, credential and state, before anything is written.
use network_change_delivery.Base.{
  String, Bool, not, ◌||◌, ◌!=◌, nat_eq, string_eq, option_eq, if◌then◌else◌,
}
use network_change_delivery.Raise.{Result, ok, raised, is_io, profiled_execution}
use network_change_delivery.Models.{blocked, stale_plan, InterfaceState}
use network_change_delivery.Profile.{os_eq, profile_eq}
use network_change_delivery.Profile.Admission.{ProfiledOperationAdmission, admission_eq}
use network_change_delivery.Inventory.{
  StableInterfaceIdentity, ProfiledInventoryDevice, ProfileReadOnlyTarget, admit_profiled_subject,
  live_read_only_target, address_eq, interface_eq,
}
use network_change_delivery.Inventory.Catalog.{managed_population}
use network_change_delivery.Planning.{ProfiledDeploymentPlan, is_openbao, admit_profiled_operation}
use network_change_delivery.Exec.{Exec, pure, raise, lift, attempt, ◌>>=◌, ◌>>◌, raise_if, read}
use network_change_delivery.Exec.Providers.{Providers, DeviceCredentials, ask, observe}

-- `except (ValueError, OSError, RuntimeError): raise ProfiledExecutionError(BLOCKED, …)`
unfoldable pub blocked_unless_ok : {W A : Type 0} → String → Result A → Exec W A
blocked_unless_ok message (ok a) = pure a
blocked_unless_ok message (raised e) =
    raise (if is_io e then profiled_execution blocked message else e)

pub record Admitted : Type 0 where
  pub device : ProfiledInventoryDevice
  pub interface : StableInterfaceIdentity
  pub admission : ProfiledOperationAdmission
  pub live : ProfileReadOnlyTarget

-- What `_preflight` hands on.
pub record Verified : Type 0 where
  pub device : ProfiledInventoryDevice
  pub interface : StableInterfaceIdentity
  pub credentials : DeviceCredentials
  pub state : InterfaceState

-- The comparison of the ten bound facts with those of the plan.
unfoldable pub binding_changed : ProfiledDeploymentPlan → Admitted → Bool
binding_changed plan a =
    a.device.logical_name != plan.target
    || a.device.device_identity != plan.device_identity
    || a.interface != plan.interface
    || a.device.platform_slug != plan.platform_slug
    || a.device.network_os != plan.network_os
    || a.device.automation_profile_id != plan.automation_profile_id
    || a.device.expected_hostname != plan.expected_hostname
    || a.live.host != plan.host
    || a.live.port != plan.port
    || a.admission != plan.operation_admission

unfoldable pub preconditions_changed : ProfiledDeploymentPlan → InterfaceState → Bool
preconditions_changed plan state =
    state.observed_hostname != plan.expected_hostname
    || state.interface != plan.interface.name
    || not state.exists
    || state.protected
    || state.description != plan.current_description

module _ {W : Type 0} (p : Providers W) (plan : ProfiledDeploymentPlan) where
  -- The first `try` block.
  unfoldable pub admit : Exec W Admitted
  admit = do
    device ← ask read (p.resolve plan.target)
    lift (
        admit_profiled_subject managed_population device.device_identity device.logical_name
          device.platform_slug device.network_os device.automation_profile_id)
    interface ← ask read (p.resolve_interface device plan.interface.name)
    admission ← lift (admit_profiled_operation device)
    live ← lift (live_read_only_target device)
    pure (record { device = device; interface = interface; admission = admission; live = live })

  -- The last `try` block.
  unfoldable pub load_and_collect : Admitted → Exec W Verified
  load_and_collect a = do
    credentials ← ask read (p.load a.device)
    state ← observe p a.live credentials plan.interface.name
    pure (record {
      device = a.device;
      interface = a.interface;
      credentials = credentials;
      state = state;
    })

  unfoldable pub credential_step : Admitted → Exec W (Unit {0})
  credential_step a = do
    found ← attempt (ask read (p.reference a.device))
    reference ← blocked_unless_ok "credential reference resolution blocked" found
    raise_if (not (is_openbao reference.source) || reference.reference != plan.credential_reference)
        (profiled_execution stale_plan "profiled credential binding changed")

  -- `_preflight`
  unfoldable pub preflight : Exec W Verified
  unfolding credential_step
  preflight = do
    admitted ← attempt admit
    a ← blocked_unless_ok "profiled inventory or admission blocked" admitted
    raise_if (binding_changed plan a)
        (profiled_execution stale_plan "profiled plan binding changed")
    credential_step a
    collected ← attempt (load_and_collect a)
    v ← blocked_unless_ok "credential or read-only collection blocked" collected
    raise_if (preconditions_changed plan v.state)
        (profiled_execution stale_plan "profiled preconditions changed")
    pure v
