-- ===== src/Profile/Admission.antt =====
-- src/network_change_delivery/profiled_planning.py: `ProfiledOperationAdmission` and the table
-- `PROFILED_OPERATION_ADMISSIONS`. `interface_description` is the only operation there is.
use network_change_delivery.Base.{
  ℕ, ◌≡◌, ◌↔◌, Bool, true, false, ◌&&◌, Option, none, some, [], ◌∷◌, arith, Eq, ◌==◌, nat_eq,
  option_eq, beq_refl, refl, subst, bool_beq, bool_beq_iff, nat_beq_iff, option_beq_iff,
}
use network_change_delivery.Profile.{AutomationProfile, ReadinessServiceExpectation}
use network_change_delivery.Profile.{get_automation_profile}
use network_change_delivery.Profile.Families.{
  NetworkOs, AutomationProfileId, TransportFamily, AdapterFamily, RendererFamily, CollectorFamily,
  RecoveryFamily, ManagementService, TransactionStrategy, os_eq, profile_eq, transport_eq,
  adapter_eq, renderer_eq, collector_eq, recovery_eq, service_eq, strategy_eq, os_beq_iff,
  profile_beq_iff, transport_beq_iff, adapter_beq_iff, renderer_beq_iff, collector_beq_iff,
  recovery_beq_iff, service_beq_iff, strategy_beq_iff,
}

-- `confirmed_timeout_minutes` is 5 or None and `confirmation_operation` is
-- "confirm_previous_commit" or None.
pub record ProfiledOperationAdmission : Type 0 where
  pub automation_profile_id : AutomationProfileId
  pub network_os : NetworkOs
  pub transport_family : TransportFamily
  pub adapter_family : AdapterFamily
  pub renderer_family : RendererFamily
  pub collector_family : CollectorFamily
  pub recovery_family : RecoveryFamily
  pub management_service : ManagementService
  pub management_port : ℕ
  pub transaction_strategy : TransactionStrategy
  pub confirmed_timeout_minutes : Option ℕ
  pub confirms_previous_commit : Bool

admit_service :
    AutomationProfileId
    → AutomationProfile
    → ReadinessServiceExpectation
    → ProfiledOperationAdmission
admit_service profile_id profile service = record {
  automation_profile_id = profile_id;
  network_os = profile.network_os;
  transport_family = profile.transport_family;
  adapter_family = profile.adapter_family;
  renderer_family = profile.renderer_family;
  collector_family = profile.collector_family;
  recovery_family = profile.recovery_family;
  management_service = service.service;
  management_port = service.port;
  transaction_strategy = elim profile.recovery_family [
    | RecoveryFamily.cisco_targeted_inverse ↦ TransactionStrategy.cisco_targeted_inverse
    | RecoveryFamily.junos_commit_confirmed ↦ TransactionStrategy.junos_commit_confirmed
  ];
  confirmed_timeout_minutes = elim profile.recovery_family [
    | RecoveryFamily.cisco_targeted_inverse ↦ none
    | RecoveryFamily.junos_commit_confirmed ↦ some 5
  ];
  confirms_previous_commit = elim profile.recovery_family [
    | RecoveryFamily.cisco_targeted_inverse ↦ false
    | RecoveryFamily.junos_commit_confirmed ↦ true
  ];
}

-- `_operation_admission`: none where the profile has not exactly one readiness service.
unfoldable pub operation_admission : AutomationProfileId → Option ProfiledOperationAdmission
unfolding admit_service get_automation_profile
operation_admission profile_id =
    let profile = get_automation_profile profile_id in
    elim profile.readiness_services [
      | [] ↦ none
      | service ∷ more ↦ elim more [
        | [] ↦ some (admit_service profile_id profile service)
        | _ ∷ _ ↦ none
      ]
    ]

-- `==` on two admissions: every field.
unfoldable pub admission_beq : ProfiledOperationAdmission → ProfiledOperationAdmission → Bool
admission_beq a b =
    (a.automation_profile_id == b.automation_profile_id
      && a.network_os == b.network_os
      && a.transport_family == b.transport_family
      && a.adapter_family == b.adapter_family
      && a.renderer_family == b.renderer_family
      && a.collector_family == b.collector_family)
    && (a.recovery_family == b.recovery_family
        && a.management_service == b.management_service
        && a.management_port == b.management_port
        && a.transaction_strategy == b.transaction_strategy
        && a.confirmed_timeout_minutes == b.confirmed_timeout_minutes
        && bool_beq a.confirms_previous_commit b.confirms_previous_commit)

admission_of_beq : (a b : ProfiledOperationAdmission) → admission_beq a b ≡ true → a ≡ b
unfolding admission_beq
admission_of_beq a b h = ground (
  arith,
  (profile_beq_iff a.automation_profile_id b.automation_profile_id).0,
  (os_beq_iff a.network_os b.network_os).0,
  (transport_beq_iff a.transport_family b.transport_family).0,
  (adapter_beq_iff a.adapter_family b.adapter_family).0,
  (renderer_beq_iff a.renderer_family b.renderer_family).0,
  (collector_beq_iff a.collector_family b.collector_family).0,
  (recovery_beq_iff a.recovery_family b.recovery_family).0,
  (service_beq_iff a.management_service b.management_service).0,
  (nat_beq_iff a.management_port b.management_port).0,
  (strategy_beq_iff a.transaction_strategy b.transaction_strategy).0,
  (option_beq_iff a.confirmed_timeout_minutes b.confirmed_timeout_minutes).0,
  (bool_beq_iff a.confirms_previous_commit b.confirms_previous_commit).0,
)

admission_beq_self : (a : ProfiledOperationAdmission) → admission_beq a a ≡ true
unfolding admission_beq
admission_beq_self a = simp (
  beq_refl a.automation_profile_id,
  beq_refl a.network_os,
  beq_refl a.transport_family,
  beq_refl a.adapter_family,
  beq_refl a.renderer_family,
  beq_refl a.collector_family,
  beq_refl a.recovery_family,
  beq_refl a.management_service,
  beq_refl a.management_port,
  beq_refl a.transaction_strategy,
  beq_refl a.confirmed_timeout_minutes,
  (bool_beq_iff a.confirms_previous_commit a.confirms_previous_commit).1 refl,
)

pub admission_beq_iff : (a b : ProfiledOperationAdmission) → (admission_beq a b ≡ true) ↔ (a ≡ b)
admission_beq_iff a b =
    (admission_of_beq a b, λ e. subst (λ x. admission_beq a x ≡ true) e (admission_beq_self a))

instance abbrev pub admission_eq : Eq ProfiledOperationAdmission
admission_eq = record { beq = admission_beq; beq_iff = admission_beq_iff }
