-- ===== src/Planning/Concluded.antt =====
-- What a plan or a compliance record says of the observation that it was made from.
use network_change_delivery.Base.{
  ℕ, String, Bool, true, false, not, ◌==◌, ◌≡◌, refl, ◌∙◌, sym, ap, Option, none, some, option_eq,
  string_eq, option_beq, same_text, Bool-cases, inl, inr,
}
use network_change_delivery.Raise.{Result, ok, raised, ◌>>=◌, raise_if, value_error}
use network_change_delivery.Models.{InterfaceState}
use network_change_delivery.Inventory.{
  StableInterfaceIdentity, ProfiledInventoryDevice, ProfileReadOnlyTarget, live_read_only_target,
}
use network_change_delivery.Profile.Admission.{ProfiledOperationAdmission}
use network_change_delivery.Planning.Subject.{
  InterfaceDescriptionIntent, CredentialReference, NameFolding, admit_profiled_operation,
  assert_profiled_safe_state, validate_credential_reference,
}
use network_change_delivery.Planning.Artifacts.{
  ProfiledDeploymentPlan, ProfiledComplianceRecord, Hashing,
}
use network_change_delivery.Planning.Validator.{exact_profiled_plan, verified_compliance}
use network_change_delivery.Planning.Change.{
  Planned, deployable, compliant, conclude, build_profiled_plan, build_compliance, freeze_plan,
  recoverable, sign_plan, signed, signed_compliance, sign_compliance, plan_values, plan_result,
  compliance_result,
}

-- What holds of a value, where there is one.
abbrev pub Gives : {A : Type 0} → (A → Type 0) → Result A → Type 0
Gives P (ok a) = P a
Gives P (raised e) = Unit

pub and-Gives :
    {A : Type 0} (P : A → Type 0) (Q : Type 0) (r : Result A)
    → Q
    → Gives P r
    → Gives (λ a. Q × P a) r
and-Gives P Q (ok a) q h = (q, h)
and-Gives P Q (raised e) q h = tt

bind-Gives :
    {A B : Type 0} (Q : B → Type 0) (m : Result A) (f : A → Result B)
    → ((a : A) → m ≡ ok a → Gives Q (f a))
    → Gives Q (m >>= f)
bind-Gives Q (ok a) f k = k a refl
bind-Gives Q (raised e) f k = tt

guard-Gives :
    {B : Type 0} (Q : B → Type 0) (b : Bool) (message : String) (f : Unit {0} → Result B)
    → (b ≡ false → Gives Q (f tt))
    → Gives Q (raise_if b (value_error message) >>= f)
guard-Gives Q true message f k = tt
guard-Gives Q false message f k = k refl

ok-inj : {A : Type 0} {a b : A} → ok a ≡ ok b → a ≡ b
ok-inj h = cc

sign_compliance-Gives :
    (hashing : Hashing) (Q : ProfiledComplianceRecord → Type 0) (r : ProfiledComplianceRecord)
    → (verified_compliance hashing (signed_compliance hashing r) ≡ true
        → Q (signed_compliance hashing r))
    → Gives Q (sign_compliance hashing r)
unfolding sign_compliance
sign_compliance-Gives hashing Q r k =
    elim (Bool-cases (verified_compliance hashing (signed_compliance hashing r))) [
      | inl good ↦ rw good (k good)
      | inr bad ↦ rw bad tt
    ]

module _ (hashing : Hashing) (intent : InterfaceDescriptionIntent)
    (device : ProfiledInventoryDevice) (interface : StableInterfaceIdentity)
    (state : InterfaceState) (credential : CredentialReference)
    (target : ProfileReadOnlyTarget) where
  -- The plan of a change from the observed description to the desired one.
  pub record Deployable (plan : ProfiledDeploymentPlan) : Type 0 where
    exact : exact_profiled_plan hashing plan ≡ true
    differs : (state.description == some intent.desired_description) ≡ false
    from : plan.current_description ≡ state.description
    to : plan.desired_description ≡ intent.desired_description
    identity : plan.device_identity ≡ device.device_identity
    on : plan.interface ≡ interface
    routed : plan.credential_reference ≡ credential.reference
    host : plan.host ≡ target.host
    port : plan.port ≡ target.port

  -- The record that nothing is to be changed.
  pub record Compliant (found : ProfiledComplianceRecord) : Type 0 where
    verified : verified_compliance hashing found ≡ true
    same : (state.description == some intent.desired_description) ≡ true
    observed : some found.observed_description ≡ state.description
    wanted : found.desired_description ≡ intent.desired_description
    identity : found.device_identity ≡ device.device_identity
    on : found.interface ≡ interface
    routed : found.credential_reference ≡ credential.reference
    host : found.host ≡ target.host
    port : found.port ≡ target.port

  abbrev pub Concludes : Planned → Type 0
  Concludes (deployable plan) = Deployable plan
  Concludes (compliant found) = Compliant found

  module _ (fold : NameFolding) (created_at : ℕ)
      (live : live_read_only_target device ≡ ok target) where
    sign_plan-Deployable :
        (a : ProfiledOperationAdmission) (t : ProfileReadOnlyTarget)
        → t ≡ target
        → (state.description == some intent.desired_description) ≡ false
        → Gives Deployable (
            sign_plan hashing
              (plan_values hashing fold intent device interface state credential created_at a t))
    unfolding sign_plan plan_values
    sign_plan-Deployable a t e differs =
        elim (Bool-cases (
          exact_profiled_plan hashing (
            signed hashing (
              plan_values hashing fold intent device interface state credential created_at a t)))) [
                | inl good ↦ rw good (record {
                  exact = good;
                  differs = differs;
                  from = refl;
                  to = refl;
                  identity = refl;
                  on = refl;
                  routed = refl;
                  host = ap (λ x. x.host) e;
                  port = ap (λ x. x.port) e;
                })
                | inr bad ↦ rw bad tt
              ]

    build_profiled_plan-Deployable :
        Gives Deployable
          (build_profiled_plan hashing fold intent device interface state credential created_at)
    unfolding build_profiled_plan freeze_plan
    build_profiled_plan-Deployable =
        bind-Gives Deployable (admit_profiled_operation device) _ (λ a _.
          bind-Gives Deployable (assert_profiled_safe_state fold intent device interface state) _
            (λ _ _.
              bind-Gives Deployable (validate_credential_reference device credential) _ (λ _ _.
                guard-Gives Deployable (not (recoverable state.description))
                  "observed description is unsafe for targeted recovery" _
                  (λ _.
                    guard-Gives Deployable (state.description == some intent.desired_description)
                      "interface is already compliant" _
                      (λ differs.
                        bind-Gives Deployable (live_read_only_target device) _
                          (λ t h. sign_plan-Deployable a t (ok-inj (sym h ∙ live)) differs))))))

    plan_result-Gives :
        (r : Result ProfiledDeploymentPlan)
        → Gives Deployable r
        → Gives Concludes
            (plan_result hashing fold intent device interface state credential created_at r)
    unfolding plan_result
    plan_result-Gives (ok plan) h = h
    plan_result-Gives (raised e) h = tt

    compliance_result-Gives :
        (r : Result ProfiledComplianceRecord)
        → Gives Compliant r
        → Gives Concludes
            (compliance_result hashing fold intent device interface state credential created_at r)
    unfolding compliance_result
    compliance_result-Gives (ok found) h = h
    compliance_result-Gives (raised e) h = tt

    build_compliance-Compliant :
        (observed : String)
        → some observed ≡ state.description
        → (observed == intent.desired_description) ≡ true
        → Gives Compliant (
            build_compliance hashing fold intent device interface state credential created_at
              observed)
    unfolding build_compliance option_beq same_text
    build_compliance-Compliant observed seen same =
        bind-Gives Compliant (live_read_only_target device) _ (λ t h.
          sign_compliance-Gives hashing Compliant _ (λ good. record {
            verified = good;
            same = rw (← seen) same;
            observed = seen;
            wanted = refl;
            identity = refl;
            on = refl;
            routed = refl;
            host = ap (λ x. x.host) (ok-inj (sym h ∙ live));
            port = ap (λ x. x.port) (ok-inj (sym h ∙ live));
          }))

    pub conclude-Concludes :
        (o : Option String)
        → o ≡ state.description
        → Gives Concludes
            (conclude hashing fold intent device interface state credential created_at o)
    unfolding conclude
    conclude-Concludes none e = plan_result-Gives _ build_profiled_plan-Deployable
    conclude-Concludes (some observed) e =
        elim (Bool-cases (observed == intent.desired_description)) [
          | inl same ↦
              rw same (compliance_result-Gives _ (build_compliance-Compliant observed e same))
          | inr other ↦ rw other (plan_result-Gives _ build_profiled_plan-Deployable)
        ]
