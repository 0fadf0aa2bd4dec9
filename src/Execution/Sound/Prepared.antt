-- ===== src/Execution/Sound/Prepared.antt =====
-- What holds after the preflight, whether it returns or raises, and that it writes nothing.
use network_change_delivery.Base.{
  String, Bool, true, false, ◌≡◌, refl, subst, sym, ◌∷◌, arith, ◌⊎◌, inl, inr, if◌then◌else◌,
  option_beq_iff, string_eq,
}
use network_change_delivery.Raise.{
  Exn, Result, ok, raised, is_io, validation_error, profiled_execution, provider, value_error,
  runtime_error,
}
use network_change_delivery.Models.{blocked, stale_plan, InterfaceState}
use network_change_delivery.Profile.Admission.{ProfiledOperationAdmission}
use network_change_delivery.Inventory.{
  ProfiledInventoryDevice, ProfileReadOnlyTarget, live_read_only_target, admit_profiled_subject,
}
use network_change_delivery.Inventory.Catalog.{managed_population}
use network_change_delivery.Planning.{ProfiledDeploymentPlan, admit_profiled_operation}
use network_change_delivery.Exec.{Session, Exec, continue, pure, ◌>>◌, raise_if, read, collected}
use network_change_delivery.Exec.Holds.{Holds, Quiet}
use network_change_delivery.Exec.Providers.{
  Answer, answer, fault, to_result, to_option, Providers, DeviceCredentials, ask, observe,
}
use network_change_delivery.Execution.Preflight.{
  Admitted, Verified, admit, load_and_collect, credential_step, preflight, blocked_unless_ok,
  binding_changed, preconditions_changed,
}

-- The exceptions that the callers of the preflight expect: never a validator's.
abbrev pub Stopped : Exn → Type 0
Stopped (profiled_execution outcome message) = (outcome ≡ blocked) ⊎ (outcome ≡ stale_plan)
Stopped validation_error = ⊥
Stopped _ = Unit

-- The device of the preflight is admitted for writing.
pub record Writable (device : ProfiledInventoryDevice) : Type 0 where
  pub admission : ProfiledOperationAdmission
  pub admitted : admit_profiled_operation device ≡ ok admission
  pub live : ProfileReadOnlyTarget
  pub reachable : live_read_only_target device ≡ ok live

pub record Prepared (plan : ProfiledDeploymentPlan) (v : Verified) : Type 0 where
  pub writable : Writable v.device
  pub unchanged : v.state.description ≡ plan.current_description

module _ {W A : Type 0} (P : A → Type 0) (s : Session W) where
  -- A value with `P` or an exception that is expected, and no new write.
  abbrev Step : Result A × Session W → Type 0
  Step = Holds (λ a s'. P a × Quiet s s') (λ e s'. Stopped e × Quiet s s')

  Stopped-io :
      (message : String) (e : Exn)
      → Stopped (if is_io e then profiled_execution blocked message else e)
  Stopped-io message (provider f) = ground arith
  Stopped-io message (profiled_execution o m) = inl refl
  Stopped-io message (value_error m) = inl refl
  Stopped-io message (runtime_error m) = inl refl
  Stopped-io message validation_error = inl refl

  blocked_unless_ok-Step :
      (message : String) (r : Result A) (s' : Session W)
      → Holds (λ a s''. P a × Quiet s s'') (λ _ s''. Quiet s s'') (r, s')
      → Step (blocked_unless_ok message r s')
  unfolding blocked_unless_ok
  blocked_unless_ok-Step message (ok a) s' h = h
  blocked_unless_ok-Step message (raised e) s' h = (Stopped-io message e, h)

raise_if-Step :
    {W : Type 0} (b : Bool) (message : String) (s s' : Session W)
    → Quiet s s'
    → Step (λ _. b ≡ false) s (raise_if b (profiled_execution stale_plan message) s')
raise_if-Step true message s s' q = (inr refl, q)
raise_if-Step false message s s' q = (refl, q)

module _ {W : Type 0} (p : Providers W) (plan : ProfiledDeploymentPlan) (s : Session W) where
  abbrev Calm : {A : Type 0} → (A → Type 0) → Result A × Session W → Type 0
  Calm P = Holds (λ a s'. P a × Quiet s s') (λ _ s'. Quiet s s')

  continue-Calm :
      {A B : Type 0} (P : A → Type 0) (Q : B → Type 0) (f : A → Exec W B) (x : Result A × Session W)
      → Calm P x
      → ((a : A) → P a → Quiet s x.1 → Calm Q (f a x.1))
      → Calm Q (continue x.0 f x.1)
  continue-Calm P Q f (ok a, s') (h, q) k = k a h q
  continue-Calm P Q f (raised e, s') q k = q

  lift-Calm :
      {A : Type 0} (r : Result A) (s' : Session W) → Quiet s s' → Calm (λ a. r ≡ ok a) (r, s')
  lift-Calm (ok a) s' q = (refl, q)
  lift-Calm (raised e) s' q = q

  weaken-Calm :
      {A : Type 0} (P : A → Type 0) (x : Result A × Session W) → Calm P x → Calm (λ _. Unit {0}) x
  weaken-Calm P (ok a, s') (h, q) = (tt, q)
  weaken-Calm P (raised e, s') q = q

  ask-Calm :
      {A : Type 0} (provide : W → Answer A × W) (s' : Session W)
      → Quiet s s'
      → Calm (λ a. Unit {0}) (ask read provide s')
  ask-Calm provide s' q = go (provide s'.world).0
    where
      go :
          {A : Type 0} (x : Answer A)
          → Calm
              (λ a. Unit {0})
              (to_result x, record { world = (provide s'.world).1; trace = read ∷ s'.trace })
      go (answer a) = (tt, q)
      go (fault f) = q

  abbrev Subject : ProfiledInventoryDevice → Result (Unit {0})
  Subject d =
      admit_profiled_subject managed_population d.device_identity d.logical_name d.platform_slug
        d.network_os d.automation_profile_id

  abbrev Ready : Admitted → Type 0
  Ready a = Writable a.device

  admit-Calm : Calm Ready (admit p plan s)
  unfolding admit
  admit-Calm =
      continue-Calm (λ _. Unit) Ready _ _ (ask-Calm (p.resolve plan.target) s refl)
        (λ device _ q1.
          continue-Calm (λ x. Subject device ≡ ok x) Ready _ _ (lift-Calm (Subject device) _ q1)
            (λ _ _ q2.
              continue-Calm (λ _. Unit) Ready _ _
                (ask-Calm (p.resolve_interface device plan.interface.name) _ q2)
                (λ interface _ q3.
                  continue-Calm (λ x. admit_profiled_operation device ≡ ok x) Ready _ _
                    (lift-Calm (admit_profiled_operation device) _ q3)
                    (λ admission admitted q4.
                      continue-Calm (λ live. live_read_only_target device ≡ ok live) Ready
                        (λ live. pure (record {
                          device = device;
                          interface = interface;
                          admission = admission;
                          live = live;
                        }))
                        _ (lift-Calm (live_read_only_target device) _ q4)
                        (λ live reachable q5. (
                          record {
                            admission = admission;
                            admitted = admitted;
                            live = live;
                            reachable = reachable;
                          },
                          q5,
                        ))))))

  observe-Calm :
      (target : ProfileReadOnlyTarget) (credentials : DeviceCredentials) (s' : Session W)
      → Quiet s s'
      → Calm (λ _. Unit {0}) (observe p target credentials plan.interface.name s')
  observe-Calm target credentials s' q =
      go (p.collect target credentials plan.interface.name s'.world).0
    where
      go :
          (x : Answer InterfaceState)
          → Calm
              (λ _. Unit {0})
              (
                to_result x,
                record {
                  world = (p.collect target credentials plan.interface.name s'.world).1;
                  trace = collected (to_option x) ∷ s'.trace;
                },
              )
      go (answer a) = (tt, q)
      go (fault f) = q

  load_and_collect-Calm :
      (a : Admitted) (s' : Session W)
      → Quiet s s'
      → Calm (λ v. v.device ≡ a.device) (load_and_collect p plan a s')
  unfolding load_and_collect
  load_and_collect-Calm a s' q =
      continue-Calm (λ _. Unit) _ _ _ (ask-Calm (p.load a.device) s' q)
        (λ credentials _ q1.
          continue-Calm (λ _. Unit) (λ v. v.device ≡ a.device) _ _
            (observe-Calm a.live credentials _ q1) (λ state _ q2. (refl, q2)))

  abbrev pub Stepped : {A : Type 0} → (A → Type 0) → Result A × Session W → Type 0
  Stepped P = Step P s

  continue-Stepped :
      {A B : Type 0} (P : A → Type 0) (Q : B → Type 0) (f : A → Exec W B) (x : Result A × Session W)
      → Stepped P x
      → ((a : A) → P a → Quiet s x.1 → Stepped Q (f a x.1))
      → Stepped Q (continue x.0 f x.1)
  continue-Stepped P Q f (ok a, s') (h, q) k = k a h q
  continue-Stepped P Q f (raised e, s') q k = q

  credential_step-Stepped :
      (a : Admitted) (s' : Session W)
      → Quiet s s'
      → Stepped (λ _. Unit {0}) (credential_step p plan a s')
  unfolding credential_step
  credential_step-Stepped a s' q =
      continue-Stepped (λ _. Unit) _ _ _
        (blocked_unless_ok-Step (λ _. Unit) s _ _ _ (ask-Calm (p.reference a.device) s' q))
        (λ reference _ q1. unit-Stepped _ _ (raise_if-Step _ _ s _ q1))
    where
      unit-Stepped :
          (P : Type 0) (x : Result (Unit {0}) × Session W)
          → Stepped (λ _. P) x
          → Stepped (λ _. Unit {0}) x
      unit-Stepped P (ok a, s') (h, q) = (tt, q)
      unit-Stepped P (raised e, s') h = h

  guard-Stepped :
      {B : Type 0} (Q : B → Type 0) (b : Bool) (message : String) (rest : Exec W B) (s' : Session W)
      → Quiet s s'
      → (b ≡ false → Stepped Q (rest s'))
      → Stepped Q ((raise_if b (profiled_execution stale_plan message) >> rest) s')
  guard-Stepped Q true message rest s' q k = (inr refl, q)
  guard-Stepped Q false message rest s' q k = k refl

  unchanged_lem :
      (v : Verified)
      → preconditions_changed plan v.state ≡ false
      → v.state.description ≡ plan.current_description
  unfolding preconditions_changed
  unchanged_lem v h =
      (option_beq_iff v.state.description plan.current_description).0 (ground (arith, h))

  -- Whatever the providers answer, the preflight writes nothing. Where it returns, the device is
  -- admitted for the operation, its live target is valid and the observed description is the plan's;
  -- where it raises, the outcome is blocked or stale_plan, or the exception is none of a validator.
  pub preflight-Stepped : Stepped (Prepared plan) (preflight p plan s)
  unfolding preflight
  preflight-Stepped =
      continue-Stepped Ready (Prepared plan) _ _ (blocked_unless_ok-Step Ready s _ _ _ admit-Calm)
        (λ a writable q1.
          guard-Stepped (Prepared plan) (binding_changed plan a) "profiled plan binding changed" _ _
            q1
            (λ _.
              continue-Stepped (λ _. Unit) (Prepared plan) _ _ (credential_step-Stepped a _ q1)
                (λ _ _ q3.
                  continue-Stepped (λ v. v.device ≡ a.device) (Prepared plan) _ _
                    (blocked_unless_ok-Step (λ v. v.device ≡ a.device) s
                      "credential or read-only collection blocked" _ _
                      (load_and_collect-Calm a _ q3))
                    (λ v same q4.
                      guard-Stepped (Prepared plan) (preconditions_changed plan v.state)
                        "profiled preconditions changed" (pure v) _ q4
                        (λ unchanged. (
                          record {
                            writable = subst Writable (sym same) writable;
                            unchanged = unchanged_lem v unchanged;
                          },
                          q4,
                        ))))))
