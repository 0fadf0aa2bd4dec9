-- ===== src/Execution/Sound/Admitted.antt =====
-- What the plan's validator gives, and what a preflight that returns has established.
use network_change_delivery.Base.{
  String, Bool, true, ◌&&◌, ◌≡◌, refl, sym, ap, ◌∙◌, some, arith, inl, inr, [], ◌∷◌, ◌==◌,
  Bool-cases, string_eq, beq_refl, subst,
}
use network_change_delivery.Raise.{Result, ok, raised, is_ok}
use network_change_delivery.Models.{cisco, artifact_beq_iff}
use network_change_delivery.Profile.{
  NetworkOs, AutomationProfileId, RendererFamily, TransactionStrategy, get_automation_profile,
  os_beq_iff, profile_beq_iff, os_eq, profile_eq, cat8000v_iosxe, iosv_159_3_m12, iosvl2_2020,
  vjunos_router, ios, iosxe,
}
use network_change_delivery.Profile.Admission.{
  ProfiledOperationAdmission, operation_admission, admission_beq_iff,
}
use network_change_delivery.Inventory.{
  Declaration, ProfiledPopulationMember, find_member, admit_found, admit_profiled_subject,
}
use network_change_delivery.Inventory.Catalog.{managed_population}
use network_change_delivery.Planning.{
  ProfiledDeploymentPlan, Hashing, junos_artifact, cisco_execution,
}
use network_change_delivery.Planning.Validator.{
  artifacts_match, admission_valid, exact_profiled_plan,
}
use network_change_delivery.Execution.Sound.Records.{strategy_of, PlanFacts}

abbrev pub profile_os : AutomationProfileId → NetworkOs
profile_os profile = (get_automation_profile profile).network_os

-- Every member of a declaration has its profile's operating system.
coherent : Declaration → Bool
coherent [] = true
coherent (m ∷ ms) = m.network_os == profile_os m.automation_profile_id && coherent ms

managed-coherent : coherent managed_population ≡ true
unfolding coherent get_automation_profile
managed-coherent = simp (beq_refl iosxe, beq_refl ios, beq_refl NetworkOs.junos)

coherent-find_member :
    (ms : Declaration) (name : String) (m : ProfiledPopulationMember)
    → coherent ms ≡ true
    → find_member ms name ≡ ok m
    → m.network_os ≡ profile_os m.automation_profile_id
unfolding find_member coherent
coherent-find_member [] name m c h = ground (arith, h)
coherent-find_member (x ∷ ms) name m c h = elim (Bool-cases (x.logical_name == name)) [
  | inl here ↦ grind (arith, here, (os_beq_iff x.network_os (profile_os x.automation_profile_id)).0)
  | inr there ↦ coherent-find_member ms name m (ground arith) (ground arith)
]

-- A subject that the Git-owned population admits has the operating system of its automation profile
-- in the catalog.
pub admitted-profile_os :
    (id name slug : String) (os : NetworkOs) (profile : AutomationProfileId)
    → is_ok (admit_profiled_subject managed_population id name slug os profile) ≡ true
    → os ≡ profile_os profile
unfolding admit_profiled_subject admit_found
admitted-profile_os id name slug os profile h = go (find_member managed_population name) refl h
  where
    go :
        (r : Result ProfiledPopulationMember)
        → find_member managed_population name ≡ r
        → is_ok (admit_found id slug os profile r) ≡ true
        → os ≡ profile_os profile
    go (raised e) found h = ground (arith, h)
    go (ok m) found h = grind (
      arith,
      h,
      coherent-find_member managed_population name m managed-coherent found,
      (os_beq_iff os m.network_os).0,
      (profile_beq_iff profile m.automation_profile_id).0,
    )

renderer_strategy : RendererFamily → TransactionStrategy
renderer_strategy RendererFamily.cisco_ios = TransactionStrategy.cisco_targeted_inverse
renderer_strategy RendererFamily.junos_xml = TransactionStrategy.junos_commit_confirmed

artifact-strategy :
    (f : RendererFamily) (plan : ProfiledDeploymentPlan)
    → artifacts_match f plan ≡ true
    → renderer_strategy f ≡ strategy_of plan.execution_artifact
unfolding artifacts_match renderer_strategy junos_artifact
artifact-strategy RendererFamily.cisco_ios plan h = sym (
    ap strategy_of (
      (artifact_beq_iff plan.execution_artifact
          (cisco (cisco_execution plan.interface.name plan.desired_description))).0
        (ground (arith, h))))
artifact-strategy RendererFamily.junos_xml plan h = sym (
    ap strategy_of (
      (artifact_beq_iff plan.execution_artifact
          (junos_artifact plan.interface.name plan.desired_description)).0
        (ground (arith, h))))

-- The admission that a profile has.
record HasAdmission (profile : AutomationProfileId) : Type 0 where
  admission : ProfiledOperationAdmission
  found : operation_admission profile ≡ some admission
  network_os : admission.network_os ≡ profile_os profile
  strategy : admission.transaction_strategy ≡ renderer_strategy admission.renderer_family

has_admission : (profile : AutomationProfileId) → HasAdmission profile
unfolding operation_admission get_automation_profile renderer_strategy
has_admission cat8000v_iosxe = record {
  admission = _;
  found = refl;
  network_os = refl;
  strategy = refl;
}
has_admission iosv_159_3_m12 = record {
  admission = _;
  found = refl;
  network_os = refl;
  strategy = refl;
}
has_admission iosvl2_2020 = record {
  admission = _;
  found = refl;
  network_os = refl;
  strategy = refl;
}
has_admission vjunos_router = record {
  admission = _;
  found = refl;
  network_os = refl;
  strategy = refl;
}

pub plan_facts :
    (hashing : Hashing) (plan : ProfiledDeploymentPlan)
    → exact_profiled_plan hashing plan ≡ true
    → PlanFacts plan
unfolding exact_profiled_plan admission_valid
plan_facts hashing plan h = go (has_admission plan.automation_profile_id)
  where
    go : HasAdmission plan.automation_profile_id → PlanFacts plan
    go has =
        let valid : admission_valid (some has.admission) plan ≡ true =
          subst (λ x. admission_valid x plan ≡ true) has.found (ground (arith, h)) in
        let same : plan.operation_admission ≡ has.admission =
          (admission_beq_iff _ _).0 (ground (arith, valid)) in
        let strategy : plan.operation_admission.transaction_strategy
            ≡ has.admission.transaction_strategy =
          ap (λ a. a.transaction_strategy) same in
        record {
          admission = has.admission;
          admitted = has.found;
          network_os =
              admitted-profile_os plan.device_identity plan.target plan.platform_slug
                plan.network_os plan.automation_profile_id (ground (arith, h))
              ∙ sym has.network_os;
          strategy = strategy;
          artifact =
              strategy
              ∙ has.strategy
              ∙ artifact-strategy has.admission.renderer_family plan (ground (arith, valid));
        }
