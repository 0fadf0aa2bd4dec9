-- ===== src/Rollout/Audit.antt =====
-- src/network_change_delivery/profiled_rollout_audit.py: the records of a rollout and their
-- validators. The digests of the records are parameters of the coordinator, and so are the
-- identifiers that `uuid5` computes; a time is a number.
use network_change_delivery.Base.{
  ℕ, String, Bool, true, false, not, ◌&&◌, Option, none, some, leb, ltb, ◌==◌, ◌!=◌, string_eq,
  option_eq, bool_beq,
}
use network_change_delivery.Models.{FinalOutcome}
use network_change_delivery.Execution.Record.{is_some}
use network_change_delivery.Observation.{
  Observation, same_overall, ObservationStatus, OverallStatus, overall_status, is_success, present,
  Revision, revision_eq,
}

pub data RolloutOutcome : Type 0 where
  succeeded stopped partial evidence_failed final_validation_failed : RolloutOutcome

pub data StoppingReason : Type 0 where
  preflight pre_chronology child_non_success child_execution_uncertain child_evidence
        final_validation :
      StoppingReason

pub data ChildKind : Type 0 where
  deployable compliant : ChildKind

abbrev pub is_deployable : ChildKind → Bool
is_deployable ChildKind.deployable = true
is_deployable ChildKind.compliant = false

pub data CohortKind : Type 0 where
  canary wave : CohortKind

-- `Literal["PASSED", "FAILED"]`
pub data FinalStatus : Type 0 where
  passed failed : FinalStatus

pub record RecordReference : Type 0 where
  pub record_id : String
  pub digest : String

-- `RolloutChildBinding`
pub record ChildBinding : Type 0 where
  pub device_identity : String
  pub interface_identity : String
  pub kind : ChildKind
  pub artifact_digest : String
  pub result_digest : String

-- `uuid5`, a function of another package: the identifier of a name in a namespace.
pub record RecordIds : Type 0 where
  pub uuid5 : String → String → String

-- `CHRONOLOGY_NAMESPACE`
abbrev chronology_namespace : String
chronology_namespace = "9f29f54c-f239-58c9-b28e-d604a3fa86b1"

abbrev pub child_record_id : RecordIds → String → String → String
child_record_id ids parent device = ids.uuid5 parent device

abbrev pub chronology_record_id : RecordIds → String → String
chronology_record_id ids child = ids.uuid5 child chronology_namespace

-- `ProfiledRolloutChildAuditRecord`
pub record ChildAudit : Type 0 where
  pub record_id : String
  pub parent_record_id : String
  pub build_id : String
  pub job_id : String
  pub source_commit : String
  pub parent_digest : String
  pub promotion_digest : String
  pub authorization_digest : String
  pub preflight_digest : String
  pub child : ChildBinding
  pub cohort_kind : CohortKind
  pub cohort_index : ℕ
  pub execution_order : ℕ
  pub write_attempted : Option Bool
  pub execution_digest : Option String
  pub final_outcome : Option FinalOutcome
  pub pre_status : ObservationStatus
  pub post_status : Option ObservationStatus

-- `ProfiledRolloutChronologyRecord`
pub record Chronology : Type 0 where
  pub record_id : String
  pub child_audit : RecordReference
  pub device_identity : String
  pub pre : Observation
  pub post : Observation
  pub overall_status : OverallStatus

-- `MAX_MEMBERS`
abbrev pub max_members : ℕ
max_members = 100

module _ (ids : RecordIds) where
  -- Whether the child record's fields and `correlated` are accepted.
  unfoldable pub child_audit_valid : ChildAudit → Bool
  child_audit_valid r =
      r.record_id == child_record_id ids r.parent_record_id r.child.device_identity
      && r.job_id == r.parent_record_id
      && is_deployable r.child.kind
      && bool_beq (is_some r.execution_digest) (is_some r.final_outcome)
      && bool_beq (is_some r.execution_digest) (is_some r.write_attempted)
      && is_success r.pre_status
      && leb r.cohort_index max_members
      && ltb r.execution_order max_members

  -- `post.status in SUCCESS and post.before_revision != pre.after_revision`
  rebased : Chronology → Bool
  rebased r = is_success r.post.status && r.post.before_revision != r.pre.after_revision

  -- The revision, where there is one, lies on the path of the node.
  on_path : String → Option Revision → Bool
  on_path path none = true
  on_path path (some revision) = revision.config_path == path

  -- Whether `correlated` of a chronology record accepts it; `path` is the node's.
  unfoldable pub chronology_valid : (String → String) → Chronology → Bool
  unfolding rebased on_path
  chronology_valid path r =
      r.record_id == chronology_record_id ids r.child_audit.record_id
      && is_success r.pre.status
      && present (λ t. leb t r.post.requested_at) r.pre.completed_at
      && is_some r.pre.after_revision
      && not (rebased r)
      && same_overall r.overall_status (overall_status r.post.status)
      && on_path (path r.device_identity) r.pre.before_revision
      && on_path (path r.device_identity) r.pre.after_revision
      && on_path (path r.device_identity) r.post.before_revision
      && on_path (path r.device_identity) r.post.after_revision
