-- ===== src/Rollout/Scenarios.antt =====
-- A rollout of the plan for core-02 alone, services that answer for it, and the theorems applied to
-- them.
use network_change_delivery.Base.{
  String, ◌≡◌, refl, Option, none, some, List, [], ◌∷◌, concat, same_text, true, all, arith,
  option_beq, list_beq, bool_beq,
}
use network_change_delivery.Raise.{Yields, ok, other_fault}
use network_change_delivery.Models.{artifact_beq}
use network_change_delivery.Profile.{
  os_beq, profile_beq, transport_beq, adapter_beq, renderer_beq, collector_beq, recovery_beq,
  service_beq, strategy_beq,
}
use network_change_delivery.Profile.Admission.{admission_beq}
use network_change_delivery.Inventory.{address_beq, interface_beq}
use network_change_delivery.Planning.{cisco_execution, cisco_recovery}
use network_change_delivery.Exec.{Session, evidence}
use network_change_delivery.Exec.Providers.{answer, fault}
use network_change_delivery.Planning.Validator.{recovery_artifact_beq}
use network_change_delivery.Execution.Scenarios.{digest, hashing, core_plan, core_providers, start}
use network_change_delivery.Observation.{Observation, ObservationStatus, Revision}
use network_change_delivery.Rollout.Audit.{
  ChildKind, CohortKind, FinalStatus, StoppingReason, RecordIds,
}
use network_change_delivery.Rollout.Progress.{Cohort, started, pre_failed}
use network_change_delivery.Rollout.Approved.{
  RolloutPlan, find_child, approved_plan, child_result, plan_beq,
}
use network_change_delivery.Rollout.Waves.{waves_of, fits, waves_of-partition}
use network_change_delivery.Rollout.Child.{
  Services, Evidence, RolloutContext, run_child, after_pre, capture_pre,
}
use network_change_delivery.Rollout.Coordinator.{run_children, run_rollout}
use network_change_delivery.Rollout.Sound.Loop.{run_children-prefix}
use network_change_delivery.Rollout.Sound.Population.{ApprovedOrder, DistinctIds}
use network_change_delivery.Rollout.Sound.Whole.{Accepted, run_rollout-Accepted}

abbrev pub core : String
core = "netbox:dcim.device:1"

abbrev revision : Revision
revision = record { commit = "c"; config_path = "core-02"; blob = "b"; collected_at = 1 }

abbrev unchanged : Observation
unchanged = record {
  request_id = "r";
  requested_at = 1;
  completed_at = some 1;
  status = ObservationStatus.unchanged;
  before_revision = some revision;
  after_revision = some revision;
  failure_category = none;
}

-- Every service answers but the reading back of an execution record, so the evidence of the child is
-- lost after its execution.
abbrev pub services : Services (Option String)
services = record {
  preflight = λ w. (answer digest, w);
  put_preflight = λ _ w. (answer tt, w);
  capture = λ _ _ w. (answer unchanged, w);
  persist_pre = λ _ _ w. (answer tt, w);
  persist_post = λ _ _ w. (answer tt, w);
  make_writer = λ w. (answer tt, w);
  write_execution = λ _ _ w. (answer tt, w);
  put_execution = λ _ w. (answer digest, w);
  persist_artifact = λ _ w. (answer digest, w);
  read_artifact = λ _ w. (fault other_fault, w);
  persist_child = λ _ w. (answer tt, w);
  persist_chronology = λ _ w. (answer tt, w);
  validate_final = λ w. (answer (record { digest = digest; status = FinalStatus.passed }), w);
  put_final = λ _ w. (answer tt, w);
  persist_parent = λ _ w. (answer tt, w);
  now = λ _. 3;
}

-- An identifier that shows its name.
abbrev pub ids : RecordIds
ids = record { uuid5 = λ _ name. name }

abbrev pub facts : Evidence
facts = record {
  ids = ids;
  reader = record {
    sha256 = λ _. digest;
    byte_length = λ _. 100;
    read_plan = λ _. some core_plan;
    read_unique_plan = λ _. some core_plan;
  };
  child_digest = λ _. digest;
  chronology_digest = λ _. digest;
  node_path = λ _. "core-02";
}

abbrev pub context : RolloutContext
context = record {
  job_id = "job";
  pipeline_id = "pipeline";
  build_id = "build";
  build_number = 1;
  commit = "commit";
  parent_artifact_digest = digest;
  promotion_digest = digest;
  promotion_artifact_digest = digest;
  authorization_digest = digest;
  unblocker_id = "unblocker";
}

abbrev pub parent : RolloutPlan
parent = record {
  digest = digest;
  change_id = "CHG-1";
  children =
      record {
        binding = record {
          device_identity = core;
          interface_identity = "netbox:dcim.interface:7";
          kind = ChildKind.deployable;
          artifact_digest = digest;
          result_digest = digest;
        };
        artifact_json = "plan";
      }
      ∷ [];
  canaries = core ∷ [];
  waves = [];
}

parent-ApprovedOrder : ApprovedOrder parent
unfolding same_text
parent-ApprovedOrder = record {
  identities_distinct = refl;
  order_distinct = refl;
  populated = refl;
  order_members = refl;
}

pub ids-DistinctIds : DistinctIds ids "job" parent
unfolding same_text
ids-DistinctIds = record { children_distinct = refl; chronologies_distinct = refl }

run_rollout-Accepted_example :
    Yields
      (Accepted core_providers hashing services facts context parent)
      (run_rollout core_providers hashing services facts context parent start).0
run_rollout-Accepted_example =
    run_rollout-Accepted core_providers hashing services facts context parent parent-ApprovedOrder
      ids-DistinctIds start

-- The first child has no history to start from, so the loop ends before the second one.
abbrev silent_services : Services (Option String)
silent_services = record services { capture = λ _ _ w. (fault other_fault, w) }

abbrev canary : String → Cohort
canary name = record { identity = name; kind = CohortKind.canary; index = 0 }

abbrev stopped_session : Session (Option String)
stopped_session = record { world = some "old uplink"; trace = evidence ∷ [] }

plan_itself : plan_beq core_plan core_plan ≡ true
unfolding plan_beq recovery_artifact_beq interface_beq os_beq profile_beq address_beq option_beq
    admission_beq transport_beq adapter_beq renderer_beq collector_beq recovery_beq service_beq
    strategy_beq bool_beq artifact_beq cisco_execution cisco_recovery list_beq same_text
plan_itself = refl

stops_at_core :
    run_children core_providers hashing silent_services facts context parent digest 0
      (canary core ∷ [])
      (started none)
      start
    ≡ (ok (pre_failed core (started none)), stopped_session)
unfolding run_children run_child find_child approved_plan after_pre capture_pre same_text
    child_result pre_failed
stops_at_core = rw plan_itself refl

run_children-prefix_example :
    run_children core_providers hashing silent_services facts context parent digest 0
      (canary core ∷ canary "netbox:dcim.device:2" ∷ [])
      (started none)
      start
    ≡ (ok (pre_failed core (started none)), stopped_session)
unfolding pre_failed
run_children-prefix_example =
    run_children-prefix core_providers hashing silent_services facts context parent digest 0
      (canary core ∷ []) (canary "netbox:dcim.device:2" ∷ []) (started none)
      (pre_failed core (started none)) start stopped_session StoppingReason.pre_chronology
      stops_at_core refl

abbrev names : List String
names = "core-02" ∷ "edge-01" ∷ "edge-02" ∷ "edge-03" ∷ []

waves_of-partition_example :
    (concat (waves_of 3 names) ≡ names) × (all (fits 3) (waves_of 3 names) ≡ true)
waves_of-partition_example = waves_of-partition 3 names (omega arith)
