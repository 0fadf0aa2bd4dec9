-- ===== src/Execution/Record.antt =====
-- `ProfiledChangeRecord`, its validator `consistent_outcome` in the order of its checks, and
-- `verify_profiled_record_plan`. `operation` and `credential_source` have one value each.
use network_change_delivery.Base.{
  ℕ, String, Bool, true, false, not, ◌&&◌, ◌||◌, Option, none, some, ◌==◌, ◌!=◌, nat_eq, string_eq,
  option_eq, bool_beq, bool_eq,
}
use network_change_delivery.Models.Digest.{Sha256Digest}
use network_change_delivery.Models.{
  FinalOutcome, blocked, stale_plan, succeeded, execution_failed, ambiguous, post_validation_failed,
  recovered, recovery_failed, recovery_ambiguous, auto_rollback_pending, confirmation_failed,
  confirmation_ambiguous, outcome_eq, outcome_beq, StageResult,
}
use network_change_delivery.Profile.{
  NetworkOs, AutomationProfileId, TransactionStrategy, os_eq, profile_eq, strategy_eq,
}
use network_change_delivery.Profile.Admission.{ProfiledOperationAdmission, operation_admission}
use network_change_delivery.Inventory.{IpAddress, StableInterfaceIdentity, address_eq, interface_eq}
use network_change_delivery.Planning.{ProfiledDeploymentPlan}

pub record ProfiledChangeRecord : Type 0 where
  pub generated_at : ℕ
  pub change_id : String
  pub plan_digest : String
  pub approval_digest : String
  pub target : String
  pub device_identity : String
  pub interface : StableInterfaceIdentity
  pub platform_slug : String
  pub network_os : NetworkOs
  pub automation_profile_id : AutomationProfileId
  pub host : IpAddress
  pub port : ℕ
  pub expected_hostname : String
  pub previous_description : Option String
  pub desired_description : String
  pub credential_reference : String
  pub transaction_strategy : TransactionStrategy
  pub preflight : StageResult
  pub execution : StageResult
  pub post_validation : StageResult
  pub recovery : StageResult
  pub candidate_validation : Option StageResult
  pub candidate_diff_digest : Option Sha256Digest
  pub confirmation : Option StageResult
  pub final_outcome : FinalOutcome

-- `value is True`, `value is False`, `value is not None`
abbrev pub is_true : Option Bool → Bool
is_true none = false
is_true (some b) = b

abbrev pub is_false : Option Bool → Bool
is_false none = false
is_false (some b) = not b

abbrev pub is_some {ℓ} : {A : Type ℓ} → Option A → Bool
is_some none = false
is_some (some a) = true

abbrev pub is_junos : TransactionStrategy → Bool
is_junos TransactionStrategy.cisco_targeted_inverse = false
is_junos TransactionStrategy.junos_commit_confirmed = true

-- `stage is not None and stage.attempted`
abbrev pub attempted : Option StageResult → Bool
attempted none = false
attempted (some stage) = stage.attempted

abbrev pub stage_succeeded : Option StageResult → Option Bool
stage_succeeded none = none
stage_succeeded (some stage) = stage.succeeded

abbrev pub is_recovery_outcome : FinalOutcome → Bool
is_recovery_outcome recovered = true
is_recovery_outcome recovery_failed = true
is_recovery_outcome recovery_ambiguous = true
is_recovery_outcome _ = false

abbrev pub is_confirmation_outcome : FinalOutcome → Bool
is_confirmation_outcome succeeded = true
is_confirmation_outcome confirmation_failed = true
is_confirmation_outcome confirmation_ambiguous = true
is_confirmation_outcome _ = false

-- An unattempted stage carries no facts, an attempted one a classified result.
unfoldable pub stage_valid : StageResult → Bool
stage_valid s =
    not (
      not s.attempted
      && (is_some s.succeeded || is_some s.changed || is_some s.observed_description))
    && not (s.attempted && not (is_some s.succeeded))

unfoldable pub optional_stage_valid : Option StageResult → Bool
unfolding stage_valid
optional_stage_valid none = true
optional_stage_valid (some stage) = stage_valid stage

strategy_admitted : Option ProfiledOperationAdmission → ProfiledChangeRecord → Bool
strategy_admitted none r = false
strategy_admitted (some admission) r =
    r.network_os == admission.network_os && r.transaction_strategy == admission.transaction_strategy

-- Approval, admission and the single stages.
unfoldable pub binding_valid : ProfiledChangeRecord → Bool
unfolding strategy_admitted optional_stage_valid
binding_valid r =
    r.approval_digest == r.plan_digest
    && strategy_admitted (operation_admission r.automation_profile_id) r
    && stage_valid r.preflight
    && stage_valid r.execution
    && stage_valid r.post_validation
    && stage_valid r.recovery
    && optional_stage_valid r.candidate_validation
    && optional_stage_valid r.confirmation

unfoldable pub transition_valid : Option Bool → Option String → Option String → Bool
transition_valid none observed previous = true
transition_valid (some changed) observed previous = bool_beq changed (observed != previous)

-- Preflight, execution and post-validation.
unfoldable pub order_valid : ProfiledChangeRecord → Bool
unfolding outcome_beq
order_valid r =
    r.preflight.attempted
    && not (
        is_true r.preflight.succeeded && r.preflight.observed_description != r.previous_description)
    && not (r.execution.attempted && not (is_true r.preflight.succeeded))
    && not (r.post_validation.attempted && not r.execution.attempted)
    && transition_valid r.post_validation.changed r.post_validation.observed_description
        r.previous_description
    && not (
        is_true r.post_validation.succeeded
        && (r.final_outcome != ambiguous
            && r.post_validation.observed_description != some r.desired_description))

unfoldable pub recovery_valid : ProfiledChangeRecord → Bool
unfolding bool_beq outcome_beq
recovery_valid r =
    bool_beq r.recovery.attempted (is_recovery_outcome r.final_outcome)
    && not (
        r.recovery.attempted
        && (is_junos r.transaction_strategy
            || not (is_true r.execution.succeeded)
            || not r.post_validation.attempted
            || not (is_false r.post_validation.succeeded)
            || r.post_validation.observed_description == some r.desired_description))
    && not (
        r.final_outcome == recovered
        && (not (is_true r.recovery.succeeded)
            || r.recovery.observed_description != r.previous_description))
    && not (r.final_outcome == recovery_ambiguous && not (is_false r.recovery.succeeded))

-- Junos transaction evidence, absent from a Cisco record.
unfoldable pub junos_valid : ProfiledChangeRecord → Bool
unfolding bool_beq outcome_beq
junos_valid r = elim r.transaction_strategy [
  | TransactionStrategy.cisco_targeted_inverse ↦
      not (
        is_some r.candidate_validation || is_some r.candidate_diff_digest || is_some r.confirmation)
  | TransactionStrategy.junos_commit_confirmed ↦
      let candidate_ok = is_true (stage_succeeded r.candidate_validation) in
      not (attempted r.candidate_validation && not (is_true r.preflight.succeeded))
      && bool_beq candidate_ok (is_some r.candidate_diff_digest)
      && bool_beq r.execution.attempted candidate_ok
      && bool_beq (attempted r.confirmation) (is_confirmation_outcome r.final_outcome)
      && not (
          attempted r.confirmation
          && (not (is_true r.execution.succeeded)
              || not (is_true r.post_validation.succeeded)
              || not (stage_succeeded r.confirmation == some (r.final_outcome == succeeded))))
]

-- The last chain of tests, on the outcome.
unfoldable pub outcome_valid : FinalOutcome → ProfiledChangeRecord → Bool
outcome_valid blocked r =
    not (r.execution.attempted || r.post_validation.attempted || r.recovery.attempted)
    && not (
        is_true r.preflight.succeeded
        && not (
            is_junos r.transaction_strategy
            && attempted r.candidate_validation
            && is_false (stage_succeeded r.candidate_validation)))
outcome_valid stale_plan r =
    not (r.execution.attempted || r.post_validation.attempted || r.recovery.attempted)
    && not (is_true r.preflight.succeeded)
outcome_valid succeeded r = is_true r.execution.succeeded && is_true r.post_validation.succeeded
outcome_valid execution_failed r =
    r.execution.attempted && is_false r.execution.succeeded && not r.post_validation.attempted
outcome_valid ambiguous r =
    r.execution.attempted
    && is_false r.execution.succeeded
    && not (r.post_validation.attempted && is_junos r.transaction_strategy)
outcome_valid recovered r = true
outcome_valid recovery_failed r = true
outcome_valid recovery_ambiguous r = true
outcome_valid post_validation_failed r =
    not (is_junos r.transaction_strategy)
    && is_true r.execution.succeeded
    && r.post_validation.attempted
    && is_false r.post_validation.succeeded
outcome_valid auto_rollback_pending r =
    is_junos r.transaction_strategy
    && is_true r.execution.succeeded
    && not (is_true r.post_validation.succeeded)
outcome_valid confirmation_failed r = is_junos r.transaction_strategy
outcome_valid confirmation_ambiguous r = is_junos r.transaction_strategy
outcome_valid FinalOutcome.compliant r = false

-- Whether `consistent_outcome` accepts the record.
unfoldable pub consistent_outcome : ProfiledChangeRecord → Bool
consistent_outcome r =
    binding_valid r
    && order_valid r
    && recovery_valid r
    && junos_valid r
    && outcome_valid r.final_outcome r

-- Whether `verify_profiled_record_plan` returns, both models being valid.
unfoldable pub verify_profiled_record_plan : ProfiledChangeRecord → ProfiledDeploymentPlan → Bool
verify_profiled_record_plan r plan =
    (r.change_id == plan.change_id
      && r.target == plan.target
      && r.device_identity == plan.device_identity
      && r.interface == plan.interface
      && r.platform_slug == plan.platform_slug
      && r.network_os == plan.network_os
      && r.automation_profile_id == plan.automation_profile_id
      && r.host == plan.host
      && r.port == plan.port
      && r.expected_hostname == plan.expected_hostname
      && r.desired_description == plan.desired_description
      && r.credential_reference == plan.credential_reference)
    && (r.plan_digest == plan.digest
        && r.approval_digest == plan.digest
        && r.previous_description == plan.current_description
        && r.transaction_strategy == plan.operation_admission.transaction_strategy)
