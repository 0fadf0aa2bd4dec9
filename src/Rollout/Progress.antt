-- ===== src/Rollout/Progress.antt =====
-- The variables of `_reserved` and what each outcome of a call does to them.
use network_change_delivery.Base.{
  ℕ, String, Bool, true, false, Option, none, some, List, [], ◌∷◌, ◌++◌, length, ◌==◌, nat_beq,
  is_empty, not, ◌&&◌, if◌then◌else◌,
}
use network_change_delivery.Raise.{Result, ok, raised}
use network_change_delivery.Models.{FinalOutcome, succeeded, outcome_eq}
use network_change_delivery.Execution.Record.{ProfiledChangeRecord}
use network_change_delivery.Observation.{Observation, is_success}
use network_change_delivery.Rollout.Audit.{
  RecordReference, StoppingReason, CohortKind, RolloutOutcome,
}

pub record Progress : Type 0 where
  pub attempted : List String
  pub successful : List String
  pub child_refs : List RecordReference
  pub chronology_refs : List RecordReference
  pub stop_member : Option String
  pub stop_outcome : Option FinalOutcome
  pub reason : Option StoppingReason
  pub evidence_failed : Bool

abbrev pub started : Option StoppingReason → Progress
started reason = record {
  attempted = [];
  successful = [];
  child_refs = [];
  chronology_refs = [];
  stop_member = none;
  stop_outcome = none;
  reason = reason;
  evidence_failed = false;
}

-- One place of the frozen order.
pub record Cohort : Type 0 where
  pub identity : String
  pub kind : CohortKind
  pub index : ℕ

-- `reason, stop_member = "PRE_CHRONOLOGY", identity`
unfoldable pub pre_failed : String → Progress → Progress
pre_failed identity st = record st {
  reason = some StoppingReason.pre_chronology;
  stop_member = some identity;
}

-- `attempted.append(identity)`
unfoldable pub entered : String → Progress → Progress
entered identity st = record st { attempted = st.attempted ++ identity ∷ [] }

-- After `execute_profiled_plan` and the verification of its record.
unfoldable pub executed : String → Result ProfiledChangeRecord → Progress → Progress
executed identity (ok execution) st =
    if execution.final_outcome == succeeded
    then record st { successful = st.successful ++ identity ∷ [] }
    else record st {
      reason = some StoppingReason.child_non_success;
      stop_member = some identity;
      stop_outcome = some execution.final_outcome;
    }
executed identity (raised e) st = record st {
  reason = some StoppingReason.child_execution_uncertain;
  stop_member = some identity;
}

-- An uncertain execution stays uncertain.
abbrev pub evidence_reason : Option StoppingReason → StoppingReason
evidence_reason (some StoppingReason.child_execution_uncertain) =
    StoppingReason.child_execution_uncertain
evidence_reason _ = StoppingReason.child_evidence

unfoldable pub evidence_lost : String → Progress → Progress
evidence_lost identity st = record st {
  evidence_failed = true;
  reason = some (evidence_reason st.reason);
  stop_member = some identity;
}

-- After the second attempt was captured and written down.
unfoldable pub post_captured : String → Option Observation → Bool → Progress → Progress
unfolding evidence_lost
post_captured identity none written st = evidence_lost identity st
post_captured identity (some post) written st =
    if written && is_success post.status then st else evidence_lost identity st

unfoldable pub child_published : RecordReference → Progress → Progress
child_published reference st = record st { child_refs = st.child_refs ++ reference ∷ [] }

unfoldable pub chronology_published : RecordReference → Progress → Progress
chronology_published reference st = record st {
  chronology_refs = st.chronology_refs ++ reference ∷ [];
}

-- The outcome of the whole rollout.
unfoldable pub rollout_outcome : ℕ → Progress → RolloutOutcome
rollout_outcome members st = elim st.reason [
  | none ↦ RolloutOutcome.succeeded
  | some reason ↦ elim reason [
    | StoppingReason.final_validation ↦ RolloutOutcome.final_validation_failed
    | _ ↦
        if st.evidence_failed && nat_beq (length st.successful) members
        then RolloutOutcome.evidence_failed
        else if not (is_empty st.successful)
        then RolloutOutcome.partial
        else RolloutOutcome.stopped
  ]
]
