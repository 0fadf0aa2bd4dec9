-- ===== src/Rollout/Child.antt =====
-- src/network_change_delivery/profiled_rollout_execution.py: one pass of the loop of `_reserved`. The
-- preflight of the rollout, the final validation, the history capture, the files and the store are
-- services; the execution of a child is the modelled `execute_profiled_plan`.
use network_change_delivery.Base.{ℕ, String, Bool, not, Option, none, some, string_eq}
use network_change_delivery.Raise.{Result, ok, raised, value_error, validation_error, is_ok}
use network_change_delivery.Models.{FinalOutcome}
use network_change_delivery.Planning.{ProfiledDeploymentPlan, Hashing}
use network_change_delivery.Exec.{Exec, pure, raise, lift, attempt, ◌>>=◌, ◌>>◌, raise_if, evidence}
use network_change_delivery.Exec.Providers.{Answer, Providers, ask}
use network_change_delivery.Execution.Record.{ProfiledChangeRecord, verify_profiled_record_plan}
use network_change_delivery.Execution.Lifecycle.{execute_profiled_plan}
use network_change_delivery.Observation.{Observation, Revision, validate_pre, overall_status}
use network_change_delivery.Rollout.Audit.{
  child_record_id, chronology_record_id, FinalStatus, RecordReference, RecordIds, ChildAudit,
  Chronology, child_audit_valid, chronology_valid,
}
use network_change_delivery.Rollout.Parent.{RolloutAudit}
use network_change_delivery.Rollout.Progress.{
  Progress, Cohort, pre_failed, entered, executed, evidence_lost, post_captured, child_published,
  chronology_published,
}
use network_change_delivery.Rollout.Approved.{
  RolloutChild, RolloutPlan, ArtifactReader, approved_plan, change_record_beq,
}

-- What `validate_rollout_final_state` returns, as far as it is read.
pub record FinalValidation : Type 0 where
  pub digest : String
  pub status : FinalStatus

-- The other components and the durable store.
pub record Services (W : Type 0) : Type 0 where
  -- the digest of the evidence of `preflight_profiled_rollout`
  pub preflight : W → Answer String × W
  pub put_preflight : String → W → Answer (Unit {0}) × W
  -- `capture_profiled_attempt`
  pub capture : ProfiledDeploymentPlan → Option Revision → W → Answer Observation × W
  pub persist_pre : String → Observation → W → Answer (Unit {0}) × W
  pub persist_post : String → Observation → W → Answer (Unit {0}) × W
  pub make_writer : W → Answer (Unit {0}) × W
  pub write_execution : String → ProfiledChangeRecord → W → Answer (Unit {0}) × W
  pub put_execution : ProfiledChangeRecord → W → Answer String × W
  pub persist_artifact : ProfiledChangeRecord → W → Answer String × W
  pub read_artifact : String → W → Answer ProfiledChangeRecord × W
  pub persist_child : ChildAudit → W → Answer (Unit {0}) × W
  pub persist_chronology : Chronology → W → Answer (Unit {0}) × W
  pub validate_final : W → Answer FinalValidation × W
  pub put_final : FinalValidation → W → Answer (Unit {0}) × W
  pub persist_parent : RolloutAudit → W → Answer (Unit {0}) × W
  pub now : W → ℕ

-- Digests of records over their canonical JSON, and the path of a device's node in the history.
pub record Evidence : Type 0 where
  pub ids : RecordIds
  pub reader : ArtifactReader
  pub child_digest : ChildAudit → String
  pub chronology_digest : Chronology → String
  pub node_path : String → String

-- The identities that the authorization and the job context bind.
pub record RolloutContext : Type 0 where
  pub job_id : String
  pub pipeline_id : String
  pub build_id : String
  pub build_number : ℕ
  pub commit : String
  pub parent_artifact_digest : String
  pub promotion_digest : String
  pub promotion_artifact_digest : String
  pub authorization_digest : String
  pub unblocker_id : String

abbrev execution_of : Result ProfiledChangeRecord → Option ProfiledChangeRecord
execution_of (ok execution) = some execution
execution_of (raised e) = none

abbrev observation_of : Result Observation → Option Observation
observation_of (ok post) = some post
observation_of (raised e) = none

module _ {W : Type 0} (p : Providers W) (hashing : Hashing) (services : Services W)
    (facts : Evidence) (context : RolloutContext) (parent : RolloutPlan) where
  -- `validate_pre(plan, capture_profiled_attempt(plan))`, written to its file
  unfoldable pub capture_pre : ProfiledDeploymentPlan → String → Exec W Observation
  capture_pre plan child_id = do
    attempt_made ← ask evidence (services.capture plan none)
    pre ← lift (validate_pre (facts.node_path plan.device_identity) attempt_made)
    ask evidence (services.persist_pre child_id pre)
    pure pre

  -- The writer, the child's transaction, and the verification of its record.
  unfoldable pub execute_child : ProfiledDeploymentPlan → Exec W ProfiledChangeRecord
  execute_child plan = do
    ask evidence services.make_writer
    execution ← execute_profiled_plan p plan plan.digest hashing
    raise_if (not (verify_profiled_record_plan execution plan))
        (value_error "profiled execution record does not match the plan")
    pure execution

  -- The execution record as a private file, in the store, and read back.
  persist_execution : String → Option ProfiledChangeRecord → Exec W (Option String)
  persist_execution child_id none = pure none
  persist_execution child_id (some execution) = do
    ask evidence (services.write_execution child_id execution)
    digest ← ask evidence (services.put_execution execution)
    reference ← ask evidence (services.persist_artifact execution)
    back ← ask evidence (services.read_artifact reference)
    raise_if (not (change_record_beq back execution))
        (value_error "child execution canonical readback failed")
    pure (some digest)

  abbrev write_attempted : Option ProfiledChangeRecord → Option Bool
  write_attempted none = none
  write_attempted (some execution) = some execution.execution.attempted

  abbrev outcome_of : Option ProfiledChangeRecord → Option FinalOutcome
  outcome_of none = none
  outcome_of (some execution) = some execution.final_outcome

  module _ (preflight : String) (cohort : Cohort) (order : ℕ) (child : RolloutChild) where
    abbrev child_id : String
    child_id = child_record_id facts.ids context.job_id cohort.identity

    -- The child's audit record; `_signed` validates it.
    abbrev child_audit :
        Observation → Option Observation → Option ProfiledChangeRecord → Option String → ChildAudit
    child_audit pre post execution digest = record {
      record_id = child_id;
      parent_record_id = context.job_id;
      build_id = context.build_id;
      job_id = context.job_id;
      source_commit = context.commit;
      parent_digest = parent.digest;
      promotion_digest = context.promotion_digest;
      authorization_digest = context.authorization_digest;
      preflight_digest = preflight;
      child = child.binding;
      cohort_kind = cohort.kind;
      cohort_index = cohort.index;
      execution_order = order;
      write_attempted = write_attempted execution;
      execution_digest = digest;
      final_outcome = outcome_of execution;
      pre_status = pre.status;
      post_status = elim post [ none ↦ none | some o ↦ some o.status ];
    }

    -- Up to `child_refs.append(child_ref)`.
    publish_child :
        Observation → Option Observation → Option ProfiledChangeRecord → Exec W RecordReference
    unfolding persist_execution
    publish_child pre post execution = do
      digest ← persist_execution child_id execution
      let audit : ChildAudit = child_audit pre post execution digest
      raise_if (not (child_audit_valid facts.ids audit)) validation_error
      ask evidence (services.persist_child audit)
      pure (record { record_id = child_id; digest = facts.child_digest audit })

    publish_chronology : Observation → Observation → RecordReference → Exec W RecordReference
    publish_chronology pre post reference = do
      let chronology : Chronology = record {
        record_id = (chronology_record_id facts.ids) child_id;
        child_audit = reference;
        device_identity = cohort.identity;
        pre = pre;
        post = post;
        overall_status = overall_status post.status;
      }
      raise_if (not (chronology_valid facts.ids facts.node_path chronology)) validation_error
      ask evidence (services.persist_chronology chronology)
      pure
          (record { record_id = chronology.record_id; digest = facts.chronology_digest chronology })

    unfoldable pub after_chronology : Result RecordReference → Progress → Exec W Progress
    after_chronology (raised e) st = pure (evidence_lost cohort.identity st)
    after_chronology (ok reference) st = pure (
        chronology_published
          (record {
            record_id = (chronology_record_id facts.ids) child_id;
            digest = reference.digest;
          })
          st)

    unfoldable pub after_child :
        Observation → Option Observation → Result RecordReference → Progress → Exec W Progress
    unfolding publish_chronology after_chronology
    after_child pre post (raised e) st = pure (evidence_lost cohort.identity st)
    after_child pre none (ok reference) st =
        pure (child_published (record { record_id = child_id; digest = reference.digest }) st)
    after_child pre (some post) (ok reference) st = do
      published ← attempt (publish_chronology pre post reference)
      after_chronology published
          (child_published (record { record_id = child_id; digest = reference.digest }) st)

    -- The second capture and its file; a capture that was made is kept when its file fails.
    unfoldable pub capture_post :
        ProfiledDeploymentPlan → Observation → Exec W (Option Observation × Bool)
    capture_post plan pre = do
      captured ← attempt (ask evidence (services.capture plan pre.after_revision))
      written ← attempt (elim captured [
        | ok post ↦ ask evidence (services.persist_post child_id post)
        | raised e ↦ raise e
      ])
      pure (observation_of captured, is_ok written)

    -- What follows a first attempt that succeeded.
    unfoldable pub run_entered : ProfiledDeploymentPlan → Observation → Progress → Exec W Progress
    unfolding capture_post publish_child after_child
    run_entered plan pre st = do
      execution ← attempt (execute_child plan)
      post ← capture_post plan pre
      let captured : Progress =
          post_captured cohort.identity post.0 post.1
            (executed cohort.identity execution (entered cohort.identity st))
      published ← attempt (publish_child pre post.0 (execution_of execution))
      after_child pre post.0 published captured

    unfoldable pub after_pre :
        ProfiledDeploymentPlan → Result Observation → Progress → Exec W Progress
    unfolding run_entered
    after_pre plan (raised e) st = pure (pre_failed cohort.identity st)
    after_pre plan (ok pre) st = run_entered plan pre st

    -- One pass of the loop.
    unfoldable pub run_child : Progress → Exec W Progress
    unfolding after_pre
    run_child st = do
      plan ← lift (approved_plan facts.reader child)
      pre ← attempt (capture_pre plan child_id)
      after_pre plan pre st
