-- ===== src/Execution/Junos.antt =====
-- The Junos part of `execute_profiled_plan`: an exclusive candidate, one confirmed commit, an
-- independent observation, and the confirmation of what was observed.
use network_change_delivery.Base.{
  String, Bool, true, false, not, ◌||◌, Option, none, some, ◌==◌, string_eq, option_eq,
  if◌then◌else◌,
}
use network_change_delivery.Raise.{Result, ok, raised, is_io, is_ok, runtime_error}
use network_change_delivery.Models.Digest.{Sha256Digest}
use network_change_delivery.Models.{
  FinalOutcome, blocked, execution_failed, ambiguous, auto_rollback_pending, confirmation_failed,
  confirmation_ambiguous, ExecutionDisposition, ExecutionResult, StageResult, InterfaceState,
  JunosConfigArtifact,
}
use network_change_delivery.Planning.{ProfiledDeploymentPlan}
use network_change_delivery.WriteAdapter.{ProfiledWriteTarget, junos_target_valid}
use network_change_delivery.Exec.{
  Exec, raise, pure, attempt, ◌>>=◌, ◌>>◌, raise_if, junos_enter, junos_prepare, junos_commit,
  junos_exit, junos_confirm,
}
use network_change_delivery.Exec.Providers.{Providers, ask}
use network_change_delivery.Execution.Record.{ProfiledChangeRecord}
use network_change_delivery.Execution.Stages.{Stages, stage, make_record, post_stage}
use network_change_delivery.Execution.Preflight.{Verified}
use network_change_delivery.Execution.Cisco.{recollect, identity_holds, write_stage}

module _ {W : Type 0} (p : Providers W) where
  -- `junos_transaction(…).__enter__()`
  unfoldable pub enter_transaction :
      ProfiledWriteTarget → Verified → JunosConfigArtifact → Exec W (Unit {0})
  enter_transaction target v artifact = do
    raise_if (not (junos_target_valid target))
        (runtime_error "profiled Junos write operation is unsupported")
    ask junos_enter (p.transaction_enter target v.credentials artifact)

  -- `__exit__`, and whether it raised
  abbrev pub leave_transaction : Exec W Bool
  leave_transaction = do left ← attempt (ask junos_exit p.transaction_exit); pure (not (is_ok left))

  -- `ProfiledWriteAdapter.confirm_junos`
  unfoldable pub confirm_junos : ProfiledWriteTarget → Verified → Exec W ExecutionResult
  confirm_junos target v = do
    raise_if (not (junos_target_valid target))
        (runtime_error "profiled Junos write operation is unsupported")
    ask junos_confirm (p.confirm_profiled target v.credentials)

  -- `getattr(transaction, "close_failed", False)`
  abbrev close_failed : Exec W Bool
  close_failed s = pure (p.transaction_close_failed s.world) s

abbrev pub candidate_validated : StageResult
candidate_validated = record {
  attempted = true;
  succeeded = some true;
  changed = some true;
  observed_description = none;
  message = "candidate validated";
}

abbrev junos_stages :
    StageResult → Sha256Digest → StageResult → Option StageResult → Option StageResult → Stages
junos_stages preflight diff execution post confirmation = record {
  preflight = preflight;
  execution = some execution;
  post = post;
  recovery = none;
  candidate = some candidate_validated;
  diff = some diff;
  confirmation = confirmation;
}

abbrev pub rejected_candidate : StageResult → String → Stages
rejected_candidate preflight message = record {
  preflight = preflight;
  execution = none;
  post = none;
  recovery = none;
  candidate = some (stage message false);
  diff = none;
  confirmation = none;
}

abbrev confirmation_outcome : ExecutionDisposition → FinalOutcome
confirmation_outcome ExecutionDisposition.succeeded = FinalOutcome.succeeded
confirmation_outcome ExecutionDisposition.ambiguous = confirmation_ambiguous
confirmation_outcome ExecutionDisposition.failed = confirmation_failed

module _ {W : Type 0} (p : Providers W) (plan : ProfiledDeploymentPlan) (approval : String)
    (v : Verified) (target : ProfiledWriteTarget) (preflight : StageResult) where
  module _ (diff : Sha256Digest) where
    unfoldable pub after_confirm :
        StageResult
        → InterfaceState
        → StageResult
        → ExecutionDisposition
        → Exec W ProfiledChangeRecord
    after_confirm execution observed confirmation disposition =
        make_record p plan approval (confirmation_outcome disposition) (
          junos_stages preflight diff execution
            (some (post_stage "desired state observed" true plan observed)) (some confirmation))

    unfoldable pub confirm : StageResult → InterfaceState → Exec W ProfiledChangeRecord
    unfolding after_confirm
    confirm execution observed = do
      result ← confirm_junos p target v
      after_confirm execution observed (write_stage result) result.disposition

    -- The observation after the commit; without one, `post` has no observed facts.
    unfoldable pub judge_observed :
        StageResult → Result InterfaceState → Exec W ProfiledChangeRecord
    unfolding confirm
    judge_observed execution (raised e) =
        if is_io e
        then make_record p plan approval auto_rollback_pending (
            junos_stages preflight diff execution
              (some (stage "temporary commit left unconfirmed" false)) none)
        else raise e
    judge_observed execution (ok observed) =
        if not (identity_holds plan observed)
          || not (observed.description == some plan.desired_description)
        then make_record p plan approval auto_rollback_pending (
            junos_stages preflight diff execution
              (some (post_stage "temporary commit left unconfirmed" false plan observed)) none)
        else confirm execution observed

    unfoldable pub after_close : StageResult → Bool → Exec W ProfiledChangeRecord
    unfolding judge_observed
    after_close execution true =
        make_record p plan approval auto_rollback_pending
          (junos_stages preflight diff execution none none)
    after_close execution false = do
      observed ← attempt (recollect p plan v)
      judge_observed execution observed

    unfoldable pub classify_commit :
        ExecutionDisposition → StageResult → Bool → Exec W ProfiledChangeRecord
    unfolding after_close
    classify_commit ExecutionDisposition.ambiguous execution leave_failed =
        make_record p plan approval ambiguous (junos_stages preflight diff execution none none)
    classify_commit ExecutionDisposition.failed execution leave_failed =
        make_record p plan approval execution_failed
          (junos_stages preflight diff execution none none)
    classify_commit ExecutionDisposition.succeeded execution leave_failed = do
      marked ← close_failed p
      after_close execution (leave_failed || marked)

    -- The outcome of `commit_confirmed(5)`; leaving the transaction never raises past here.
    unfoldable pub after_commit : Result ExecutionResult → Exec W ProfiledChangeRecord
    unfolding classify_commit
    after_commit (raised e) = do
      _ ← leave_transaction p
      make_record p plan approval ambiguous (
          junos_stages preflight diff (stage "commit-confirmed outcome is ambiguous" false) none
            none)
    after_commit (ok committed) = do
      leave_failed ← leave_transaction p
      classify_commit committed.disposition (write_stage committed) leave_failed

  unfoldable pub after_prepare : Result Sha256Digest → Exec W ProfiledChangeRecord
  unfolding after_commit
  after_prepare (raised e) =
      if is_io e
      then (do
        leave_failed ← leave_transaction p
        make_record p plan approval blocked (
            rejected_candidate preflight (
              if leave_failed
              then "candidate preparation blocked; cleanup or unlock failed"
              else "candidate preparation blocked")))
      else raise e
  after_prepare (ok diff) = do
    committed ← attempt (ask (junos_commit 5) (p.transaction_commit 5))
    after_commit diff committed

  unfoldable pub after_enter : Result (Unit {0}) → Exec W ProfiledChangeRecord
  unfolding after_prepare
  after_enter (raised e) =
      if is_io e
      then make_record p plan approval blocked
          (rejected_candidate preflight "candidate preparation blocked")
      else raise e
  after_enter (ok _) = do
    prepared ← attempt (ask junos_prepare p.transaction_prepare)
    after_prepare prepared

-- The branch for a Junos artifact.
unfoldable pub junos_lifecycle :
    {W : Type 0}
    → Providers W
    → ProfiledDeploymentPlan
    → String
    → Verified
    → ProfiledWriteTarget
    → StageResult
    → JunosConfigArtifact
    → Exec W ProfiledChangeRecord
unfolding after_enter
junos_lifecycle p plan approval v target preflight artifact = do
  entered ← attempt (enter_transaction p target v artifact)
  after_enter p plan approval v target preflight entered
