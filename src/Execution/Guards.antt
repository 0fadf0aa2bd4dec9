-- ===== src/Execution/Guards.antt =====
-- What stops `execute_profiled_plan` before any call.
use network_change_delivery.Base.{
  String, Bool, true, false, not, ◌&&◌, ◌≡◌, refl, arith, ◌==◌, ◌!=◌, string_eq,
}
use network_change_delivery.Models.{FinalOutcome, blocked}
use network_change_delivery.Raise.{Exn, value_error, profiled_execution}
use network_change_delivery.Planning.{ProfiledDeploymentPlan, Hashing}
use network_change_delivery.Planning.Validator.{exact_profiled_plan, verify_digest}
use network_change_delivery.Exec.{Session, Exec, raise_if, ◌>>◌}
use network_change_delivery.Exec.Providers.{Providers}
use network_change_delivery.Execution.Stages.{make_record}
use network_change_delivery.Execution.Lifecycle.{execute_profiled_plan, blocked_record}
use network_change_delivery.Models.Digest.{is_digest}
use network_change_delivery.Execution.Sound.Records.{strategy_of}
use network_change_delivery.Execution.Sound.Admitted.{plan_facts}

-- The approval is a digest, it is the plan's, and the plan's digest is its own.
abbrev pub approved : Hashing → ProfiledDeploymentPlan → String → Bool
approved hashing plan approval =
    is_digest approval && approval == plan.digest && verify_digest hashing plan

guard-still :
    {W A : Type 0} (b : Bool) (e : Exn) (rest : Exec W A) (s : Session W)
    → (b ≡ false → (rest s).1 ≡ s)
    → ((raise_if b e >> rest) s).1 ≡ s
guard-still true e rest s h = refl
guard-still false e rest s h = h refl

module _ {W : Type 0} (p : Providers W) (plan : ProfiledDeploymentPlan) (approval : String) where
  blocked_record-still :
      (outcome : FinalOutcome) (message : String) (s : Session W)
      → (blocked_record p plan approval outcome message s).1 ≡ s
  unfolding blocked_record make_record
  blocked_record-still outcome message s = ground arith

  -- Without an approval that is a digest and the plan's own, or with a plan whose digest does not
  -- verify, no call leaves the program: the session stays as it was.
  pub execute_profiled_plan-unapproved :
      (hashing : Hashing) (s : Session W)
      → approved hashing plan approval ≡ false
      → (execute_profiled_plan p plan approval hashing s).1 ≡ s
  unfolding execute_profiled_plan
  execute_profiled_plan-unapproved hashing s h =
      guard-still (not (is_digest approval)) (value_error "approval digest is invalid") _ s
        (λ digest.
          guard-still (approval != plan.digest)
            (profiled_execution blocked "approval digest does not match plan") _ s
            (λ same.
              rw (unverified digest same)
                (blocked_record-still blocked "plan digest is invalid" s)))
    where
      unverified :
          not (is_digest approval) ≡ false
          → (approval != plan.digest) ≡ false
          → verify_digest hashing plan ≡ false
      unverified a b = ground (arith, h)

-- The transaction strategy of a valid plan is the one of its artifact's vendor.
pub exact_profiled_plan-strategy :
    (hashing : Hashing) (plan : ProfiledDeploymentPlan)
    → exact_profiled_plan hashing plan ≡ true
    → plan.operation_admission.transaction_strategy ≡ strategy_of plan.execution_artifact
exact_profiled_plan-strategy hashing plan h = (plan_facts hashing plan h).artifact
