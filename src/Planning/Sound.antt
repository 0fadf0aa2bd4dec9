-- ===== src/Planning/Sound.antt =====
-- A plan that is built passes its own validator, and so does a compliance record.
use network_change_delivery.Base.{
  ℕ, String, Bool, true, false, not, ◌||◌, ◌==◌, ◌!=◌, ◌≡◌, refl, [], ◌∷◌, sym, ap, ◌∙◌, subst,
  Option, none, some, option_eq, string_eq, nat_eq, beq_refl, ◌also◌, arith, Bool-cases, inl, inr,
  same_text_iff, nat_beq_iff,
}
use network_change_delivery.Raise.{Yields, Result, ok, raised, value_error, is_ok, ◌>>=◌, raise_if}
use network_change_delivery.Models.{cisco, artifact_eq, InterfaceState}
use network_change_delivery.Models.Description.{desired_description}
use network_change_delivery.Profile.{RendererFamily, NetworkOs, AutomationProfileId}
use network_change_delivery.Profile.Admission.{
  ProfiledOperationAdmission, operation_admission, admission_eq,
}
use network_change_delivery.Inventory.{
  StableInterfaceIdentity, ProfiledInventoryDevice, ProfileReadOnlyTarget, live_read_only_target,
  admit_profiled_subject, Declaration, ProfiledPopulationMember, find_member, admit_found,
}
use network_change_delivery.Inventory.Catalog.{managed_population}
use network_change_delivery.Planning.Subject.{
  InterfaceDescriptionIntent, CredentialReference, is_openbao, NameFolding,
  admit_profiled_operation, admit_endpoint, assert_profiled_safe_state,
  assert_profiled_interface_binding, assert_profiled_target_binding, validate_credential_reference,
  expected_credential,
}
use network_change_delivery.Planning.Artifacts.{
  ProfiledDeploymentPlan, Hashing, junos_artifact, cisco_execution, cisco_recovery,
}
use network_change_delivery.Planning.Validator.{
  exact_profiled_plan, admission_valid, artifacts_match, description_valid, verify_digest,
  recovery_artifact_beq,
}
use network_change_delivery.Planning.Change.{
  build_execution, build_recovery, recoverable, sign_plan, signed, plan_values, freeze_plan,
  build_profiled_plan,
}

-- What is known of a call's value is known of what follows it.
pub bind-Yields :
    {A B : Type 0} (P : A → Type 0) (Q : B → Type 0) (m : Result A) (f : A → Result B)
    → Yields P m
    → ((a : A) → P a → Yields Q (f a))
    → Yields Q (m >>= f)
bind-Yields P Q (ok a) f h k = k a h
bind-Yields P Q (raised e) f h k = h

pub weaken-Yields :
    {A : Type 0} (P Q : A → Type 0) (r : Result A) → Yields P r → ((a : A) → P a → Q a) → Yields Q r
weaken-Yields P Q (ok a) h f = f a h
weaken-Yields P Q (raised e) h f = h

-- The facts that the inventory's resolution of a device provides.
pub record Resolved (device : ProfiledInventoryDevice) : Type 0 where
  pub named : device.expected_hostname ≡ device.logical_name
  pub reachable : is_ok (live_read_only_target device) ≡ true

pub record AdmittedWith (device : ProfiledInventoryDevice) (admission : ProfiledOperationAdmission)
    : Type 0 where
  subject :
      is_ok (
        admit_profiled_subject managed_population device.device_identity device.logical_name
          device.platform_slug device.network_os device.automation_profile_id)
      ≡ true
  found : operation_admission device.automation_profile_id ≡ some admission
  port : device.live_port ≡ admission.management_port

-- A value that a call returns is there.
remember :
    {A : Type 0} (P : A → Type 0) (m : Result A) → Yields P m → Yields (λ a. P a × (m ≡ ok a)) m
remember P (ok a) h = (h, refl)
remember P (raised e) h = h

find_member-Yields :
    (ms : Declaration) (name : String) → Yields (λ _. Unit {0}) (find_member ms name)
unfolding find_member
find_member-Yields [] name = tt
find_member-Yields (m ∷ ms) name = elim (Bool-cases (m.logical_name == name)) [
  | inl here ↦ rw here tt
  | inr there ↦ rw there (find_member-Yields ms name)
]

admit_found-Yields :
    (id slug : String) (os : NetworkOs) (profile : AutomationProfileId)
    (r : Result ProfiledPopulationMember)
    → Yields (λ _. Unit {0}) r
    → Yields (λ _. Unit {0}) (admit_found id slug os profile r)
unfolding admit_found
admit_found-Yields id slug os profile (raised e) h = h
admit_found-Yields id slug os profile (ok m) h = go _
  where
    go :
        (b : Bool)
        → Yields
            (λ _. Unit {0})
            (raise_if b (value_error "profiled target does not match its Git-owned subject"))
    go true = tt
    go false = tt

live-Yields :
    (device : ProfiledInventoryDevice)
    → is_ok (live_read_only_target device) ≡ true
    → Yields (λ target. target.port ≡ device.live_port) (live_read_only_target device)
unfolding live_read_only_target
live-Yields device h = ground (arith, h)

admit_endpoint-Yields :
    (o : Option ProfiledOperationAdmission) (device : ProfiledInventoryDevice)
    → Resolved device
    → Yields (λ a. (o ≡ some a) × (device.live_port ≡ a.management_port)) (admit_endpoint o device)
unfolding admit_endpoint
admit_endpoint-Yields none device r = tt
admit_endpoint-Yields (some a) device r =
    bind-Yields (λ target. target.port ≡ device.live_port) _ (live_read_only_target device) _
      (live-Yields device r.reachable)
      (λ target e. ground (arith, e, nat_beq_iff target.port a.management_port))

admit_profiled_operation-Yields :
    (device : ProfiledInventoryDevice)
    → Resolved device
    → Yields (AdmittedWith device) (admit_profiled_operation device)
unfolding admit_profiled_operation admit_profiled_subject
admit_profiled_operation-Yields device r =
    bind-Yields (λ u. Unit {0} × (subject ≡ ok u)) (AdmittedWith device) subject _
      (remember (λ _. Unit {0}) subject
        (admit_found-Yields device.device_identity device.platform_slug device.network_os
          device.automation_profile_id _
          (find_member-Yields managed_population device.logical_name)))
      (λ u h.
        weaken-Yields
          (λ a.
            (operation_admission device.automation_profile_id ≡ some a)
            × (device.live_port ≡ a.management_port))
          (AdmittedWith device)
          (admit_endpoint (operation_admission device.automation_profile_id) device)
          (admit_endpoint-Yields (operation_admission device.automation_profile_id) device r)
          (λ a k. record { subject = ap is_ok h.1; found = k.0; port = k.1 }))
  where
    subject : Result (Unit {0})
    subject =
        admit_profiled_subject managed_population device.device_identity device.logical_name
          device.platform_slug device.network_os device.automation_profile_id

-- Past a guard, its test is known.
guarded :
    {B : Type 0} (Q : B → Type 0) (b : Bool) (message : String) (f : Unit {0} → Result B)
    → (b ≡ false → Yields Q (f tt))
    → Yields Q (raise_if b (value_error message) >>= f)
guarded Q true message f k = tt
guarded Q false message f k = k refl

guarded_last :
    (Q : Unit {0} → Type 0) (b : Bool) (message : String)
    → (b ≡ false → Q tt)
    → Yields Q (raise_if b (value_error message))
guarded_last Q true message k = tt
guarded_last Q false message k = k refl

-- What the checks of the observed state establish.
record SafeState (device : ProfiledInventoryDevice) (interface : StableInterfaceIdentity)
    (state : InterfaceState) : Type 0 where
  owner : (interface.device == device.device_identity) ≡ true
  hostname : (state.observed_hostname == device.expected_hostname) ≡ true
  exists : state.exists ≡ true
  unprotected : state.protected ≡ false

module _ (fold : NameFolding) (intent : InterfaceDescriptionIntent)
    (device : ProfiledInventoryDevice) (interface : StableInterfaceIdentity)
    (state : InterfaceState) where
  abbrev Owned : Unit {0} → Type 0
  Owned _ = (interface.device == device.device_identity) ≡ true

  interface_binding-Yields :
      Yields Owned (assert_profiled_interface_binding fold intent device interface)
  unfolding assert_profiled_interface_binding
  interface_binding-Yields =
      guarded Owned
        (interface.device != device.device_identity || interface.name != intent.interface)
        "profiled interface identity rejected" _
        (λ e.
          guarded_last Owned _ "requested interface is protected by inventory policy"
            (λ _. ground (arith, e)))

  SafeState-Yields :
      Resolved device
      → Yields
          (λ _. SafeState device interface state)
          (assert_profiled_safe_state fold intent device interface state)
  unfolding assert_profiled_safe_state assert_profiled_target_binding
  SafeState-Yields r =
      guarded (λ _. SafeState device interface state) (device.logical_name != intent.target)
        "profiled planning target identity rejected" _
        (λ _.
          bind-Yields (AdmittedWith device) (λ _. SafeState device interface state) _ _
            (admit_profiled_operation-Yields device r)
            (λ _ _.
              bind-Yields Owned (λ _. SafeState device interface state) _ _ interface_binding-Yields
                (λ _ owned.
                  guarded (λ _. SafeState device interface state)
                    (state.observed_hostname != device.expected_hostname
                      || state.interface != intent.interface
                      || not state.exists)
                    "profiled planning observation identity rejected" _
                    (λ seen.
                      guarded_last (λ _. SafeState device interface state) state.protected
                        "requested interface is protected by inventory policy"
                        (λ free. record {
                          owner = owned;
                          hostname = ground (arith, seen);
                          exists = ground (arith, seen);
                          unprotected = free;
                        })))))

-- Artifacts that are built match the renderer of the admission.
artifacts_match-build :
    (f : RendererFamily) (plan : ProfiledDeploymentPlan)
    → plan.execution_artifact ≡ build_execution f plan.interface.name plan.desired_description
    → plan.recovery_artifact ≡ build_recovery f plan.interface.name plan.current_description
    → artifacts_match f plan ≡ true
unfolding artifacts_match build_execution build_recovery recovery_artifact_beq
artifacts_match-build RendererFamily.junos_xml plan e r =
    rw e (rw r (beq_refl (junos_artifact plan.interface.name plan.desired_description) also refl))
artifacts_match-build RendererFamily.cisco_ios plan e r = rw e (
    rw r (
      beq_refl (cisco (cisco_execution plan.interface.name plan.desired_description))
      also beq_refl (cisco (cisco_recovery plan.interface.name plan.current_description))))

description_valid-recoverable :
    (o : Option String) → recoverable o ≡ true → description_valid o ≡ true
unfolding recoverable description_valid desired_description
description_valid-recoverable none h = refl
description_valid-recoverable (some d) h = ground (arith, h)

module _ (hashing : Hashing) (fold : NameFolding) (intent : InterfaceDescriptionIntent)
    (device : ProfiledInventoryDevice) (interface : StableInterfaceIdentity)
    (state : InterfaceState) (credential : CredentialReference) (created_at : ℕ)
    -- `calculated_digest` leaves the field `digest` out
    (apart : (plan : ProfiledDeploymentPlan) (d : String)
      → hashing.plan_digest (record plan { digest = d }) ≡ hashing.plan_digest plan)
    (resolved : Resolved device)
    (desired : desired_description intent.desired_description ≡ true) where
  abbrev Exact : ProfiledDeploymentPlan → Type 0
  Exact plan = exact_profiled_plan hashing plan ≡ true

  values-Exact :
      (a : ProfiledOperationAdmission) (target : ProfileReadOnlyTarget)
      → AdmittedWith device a
      → SafeState device interface state
      → (credential.reference == expected_credential device.device_identity) ≡ true
      → recoverable state.description ≡ true
      → target.port ≡ device.live_port
      → Exact (
          signed hashing
            (plan_values hashing fold intent device interface state credential created_at a target))
  unfolding exact_profiled_plan plan_values verify_digest admission_valid
  values-Exact a target h safe cred rec port =
      h.subject
      also safe.owner
      also (same_text_iff device.expected_hostname device.logical_name).1 resolved.named
      also safe.hostname
      also safe.exists
      also ground (arith, safe.unprotected)
      also beq_refl state.description
      also subst
          (λ o.
            admission_valid o (
              signed hashing (
                plan_values hashing fold intent device interface state credential created_at a
                  target))
            ≡ true)
          (sym h.found)
          (beq_refl a
            also (nat_beq_iff target.port a.management_port).1 (port ∙ h.port)
            also artifacts_match-build a.renderer_family
                (signed hashing (
                  plan_values hashing fold intent device interface state credential created_at a
                    target))
                refl refl)
      also cred
      also desired
      also description_valid-recoverable state.description rec
      also (same_text_iff
            (hashing.plan_digest (
              plan_values hashing fold intent device interface state credential created_at a
                target))
            _).1
          (sym (
            apart
              (plan_values hashing fold intent device interface state credential created_at a
                target)
              _))

  sign_plan-Exact :
      (plan : ProfiledDeploymentPlan)
      → Exact (signed hashing plan)
      → Yields Exact (sign_plan hashing plan)
  unfolding sign_plan
  sign_plan-Exact plan h = rw h h

  freeze_plan-Exact :
      (a : ProfiledOperationAdmission)
      → AdmittedWith device a
      → SafeState device interface state
      → (credential.reference == expected_credential device.device_identity) ≡ true
      → Yields Exact
          (freeze_plan hashing fold intent device interface state credential created_at a)
  unfolding freeze_plan
  freeze_plan-Exact a h safe cred =
      guarded Exact (not (recoverable state.description))
        "observed description is unsafe for targeted recovery" _
        (λ rec.
          guarded Exact (state.description == some intent.desired_description)
            "interface is already compliant" _
            (λ _.
              bind-Yields (λ target. target.port ≡ device.live_port) Exact _ _
                (live-Yields device resolved.reachable)
                (λ target port.
                  sign_plan-Exact _
                    (values-Exact a target h safe cred (ground (arith, rec)) port))))

  credential-Yields :
      Yields
        (λ _. (credential.reference == expected_credential device.device_identity) ≡ true)
        (validate_credential_reference device credential)
  unfolding validate_credential_reference
  credential-Yields =
      guarded (λ _. (credential.reference == expected_credential device.device_identity) ≡ true)
        (not (is_openbao credential.source)
          || credential.reference != expected_credential device.device_identity)
        "profiled credential binding rejected" _ (λ e. ground (arith, e))

  -- For a device whose expected host name is its logical name and which has a live target, a valid desired
  -- description and a digest that leaves its own field out: whatever interface, state and credential are
  -- given, a plan that is built is accepted by the validator of plans, and an exception that is raised is
  -- not that of a validator.
  pub build_profiled_plan-Exact :
      Yields Exact
        (build_profiled_plan hashing fold intent device interface state credential created_at)
  unfolding build_profiled_plan
  build_profiled_plan-Exact =
      bind-Yields (AdmittedWith device) Exact _ _ (admit_profiled_operation-Yields device resolved)
        (λ a h.
          bind-Yields (λ _. SafeState device interface state) Exact _ _
            (SafeState-Yields fold intent device interface state resolved)
            (λ _ safe.
              bind-Yields
                (λ _. (credential.reference == expected_credential device.device_identity) ≡ true)
                Exact _ _ credential-Yields (λ _ cred. freeze_plan-Exact a h safe cred)))
