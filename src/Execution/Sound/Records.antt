-- ===== src/Execution/Sound/Records.antt =====
-- A record that is built for a valid plan, one lemma for what all records have in common.
use network_change_delivery.Base.{
  ℕ, String, ◌≡◌, refl, Bool, true, false, ◌&&◌, Option, none, some, arith, beq_refl, nat_eq,
  Bool-cases, inl, inr, string_eq, option_eq, bool_beq, if◌then◌else◌,
}
use network_change_delivery.Raise.{
  Exn, Result, ok, raised, validation_error, provider, profiled_execution, value_error,
  runtime_error, is_io,
}
use network_change_delivery.Models.{FinalOutcome, InterfaceState, ConfigArtifact, cisco, junos}
use network_change_delivery.Profile.{
  TransactionStrategy, os_eq, profile_eq, strategy_eq, os_beq_iff, strategy_beq_iff,
}
use network_change_delivery.Profile.Admission.{ProfiledOperationAdmission, operation_admission}
use network_change_delivery.Inventory.{address_eq, interface_eq}
use network_change_delivery.Planning.{ProfiledDeploymentPlan}
use network_change_delivery.Exec.{Session, Exec, raise, continue}
use network_change_delivery.Exec.Providers.{Providers}
use network_change_delivery.Execution.Record.{
  ProfiledChangeRecord, consistent_outcome, binding_valid, order_valid, recovery_valid, junos_valid,
  outcome_valid, stage_valid, optional_stage_valid, transition_valid, verify_profiled_record_plan,
}
use network_change_delivery.Execution.Stages.{
  Stages, build_record, make_record, observed_transition,
}

abbrev pub strategy_of : ConfigArtifact → TransactionStrategy
strategy_of (cisco a) = TransactionStrategy.cisco_targeted_inverse
strategy_of (junos a) = TransactionStrategy.junos_commit_confirmed

-- What the validator of a plan gives for its records.
pub record PlanFacts (plan : ProfiledDeploymentPlan) : Type 0 where
  pub admission : ProfiledOperationAdmission
  pub admitted : operation_admission plan.automation_profile_id ≡ some admission
  pub network_os : plan.network_os ≡ admission.network_os
  pub strategy : plan.operation_admission.transaction_strategy ≡ admission.transaction_strategy
  pub artifact : plan.operation_admission.transaction_strategy ≡ strategy_of plan.execution_artifact

-- A run is not stopped by the validator of its record, and a record that it returns is accepted and
-- bound to the plan.
abbrev pub Sound : ProfiledDeploymentPlan → Result ProfiledChangeRecord → Type 0
Sound plan (ok r) = (consistent_outcome r ≡ true) × (verify_profiled_record_plan r plan ≡ true)
Sound plan (raised validation_error) = ⊥
Sound plan (raised _) = Unit

-- No validator stopped the run.
abbrev pub Benign : {A : Type 0} → Result A → Type 0
Benign (raised validation_error) = ⊥
Benign _ = Unit

unfoldable pub stages_valid : Stages → Bool
unfolding stage_valid optional_stage_valid
stages_valid t =
    stage_valid t.preflight
    && optional_stage_valid t.execution
    && optional_stage_valid t.post
    && optional_stage_valid t.recovery
    && optional_stage_valid t.candidate
    && optional_stage_valid t.confirmation

-- The validator but for approval, admission and the single stages.
unfoldable pub lifecycle_valid : ProfiledChangeRecord → Bool
unfolding order_valid recovery_valid junos_valid outcome_valid build_record
lifecycle_valid r =
    order_valid r && recovery_valid r && junos_valid r && outcome_valid r.final_outcome r

pub transition-observed :
    (plan : ProfiledDeploymentPlan) (o : InterfaceState)
    → transition_valid (observed_transition plan o) o.description plan.current_description ≡ true
unfolding transition_valid observed_transition bool_beq
transition-observed plan o = ground arith

pub transition_unknown : (o d : Option String) → transition_valid none o d ≡ true
unfolding transition_valid
transition_unknown o d = refl

pub raise-Sound :
    (plan : ProfiledDeploymentPlan) (e : Exn) → is_io e ≡ false → Sound plan (raised e)
raise-Sound plan e h = ground arith

pub continue-Sound :
    {W A : Type 0} (plan : ProfiledDeploymentPlan) (r : Result A)
    (f : A → Exec W ProfiledChangeRecord) (s : Session W)
    → Benign r
    → ((a : A) → r ≡ ok a → Sound plan (f a s).0)
    → Sound plan (continue r f s).0
continue-Sound plan (ok a) f s b k = k a refl
continue-Sound plan (raised validation_error) f s b k = b
continue-Sound plan (raised (provider x)) f s b k = tt
continue-Sound plan (raised (profiled_execution o m)) f s b k = tt
continue-Sound plan (raised (value_error m)) f s b k = tt
continue-Sound plan (raised (runtime_error m)) f s b k = tt

-- `except (ValueError, OSError, RuntimeError)` around a call.
pub io-Sound :
    {W : Type 0} (plan : ProfiledDeploymentPlan) (e : Exn) (m : Exec W ProfiledChangeRecord)
    (s : Session W)
    → Sound plan (m s).0
    → Sound plan ((if is_io e then m else raise e) s).0
io-Sound plan e m s h = elim (Bool-cases (is_io e)) [
  | inl io ↦ rw io h
  | inr other ↦ rw other (raise-Sound plan e other)
]

pub if-Sound :
    {W : Type 0} (plan : ProfiledDeploymentPlan) (b : Bool) (m n : Exec W ProfiledChangeRecord)
    (s : Session W)
    → (b ≡ true → Sound plan (m s).0)
    → (b ≡ false → Sound plan (n s).0)
    → Sound plan ((if b then m else n) s).0
if-Sound plan true m n s x y = x refl
if-Sound plan false m n s x y = y refl

consistent-parts :
    (r : ProfiledChangeRecord)
    → binding_valid r ≡ true
    → lifecycle_valid r ≡ true
    → consistent_outcome r ≡ true
unfolding consistent_outcome lifecycle_valid
consistent-parts r b h = rw b h

module _ (plan : ProfiledDeploymentPlan) where
  verify-build :
      (outcome : FinalOutcome) (stages : Stages) (now : ℕ)
      → verify_profiled_record_plan (build_record plan plan.digest outcome stages now) plan ≡ true
  unfolding verify_profiled_record_plan build_record
  verify-build outcome stages now = simp (
    beq_refl plan.change_id,
    beq_refl plan.target,
    beq_refl plan.device_identity,
    beq_refl plan.interface,
    beq_refl plan.platform_slug,
    beq_refl plan.network_os,
    beq_refl plan.automation_profile_id,
    beq_refl plan.host,
    beq_refl plan.port,
    beq_refl plan.expected_hostname,
    beq_refl plan.desired_description,
    beq_refl plan.credential_reference,
    beq_refl plan.digest,
    beq_refl plan.current_description,
    beq_refl plan.operation_admission.transaction_strategy,
  )

  module _ (facts : PlanFacts plan) where
    binding-build :
        (outcome : FinalOutcome) (stages : Stages) (now : ℕ)
        → stages_valid stages ≡ true
        → binding_valid (build_record plan plan.digest outcome stages now) ≡ true
    unfolding binding_valid build_record stages_valid
    binding-build outcome stages now h = ground (
      arith,
      beq_refl plan.digest,
      os_beq_iff plan.network_os facts.admission.network_os,
      strategy_beq_iff plan.operation_admission.transaction_strategy
          facts.admission.transaction_strategy,
    )

    module _ {W : Type 0} (p : Providers W) where
      pub make_record-Sound :
          (outcome : FinalOutcome) (stages : Stages) (s : Session W)
          → stages_valid stages ≡ true
          → lifecycle_valid (build_record plan plan.digest outcome stages (p.clock s.world)) ≡ true
          → Sound plan (make_record p plan plan.digest outcome stages s).0
      unfolding make_record
      make_record-Sound outcome stages s v h =
          let now = p.clock s.world in
          let c = consistent-parts _ (binding-build outcome stages now v) h in
          rw c (c, verify-build outcome stages now)
