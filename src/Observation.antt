-- ===== src/Observation.antt =====
-- src/network_change_delivery/configuration_observation.py and profiled_configuration_observation.py:
-- observations of the configuration history, the checks of an attempt, and the collection of one.
-- Times are numbers (all of them UTC), and the path rules of a revision are left to its type.
pub mod Attempt
mod Scenarios
use network_change_delivery.Base.{
  ℕ, String, Bool, true, false, not, ◌&&◌, ◌||◌, Option, none, some, Eq, ◌==◌, nat_eq, string_eq,
  option_eq, nat_beq, ◌≡◌, ◌↔◌, arith, same_text_iff, nat_beq_iff,
}
use network_change_delivery.Raise.{Result, ok, value_error, raise_if, ◌>>◌}

pub data ObservationStatus : Type 0 where
  changed unchanged failed timed_out ambiguous : ObservationStatus

-- `status in SUCCESS`
abbrev pub is_success : ObservationStatus → Bool
is_success ObservationStatus.changed = true
is_success ObservationStatus.unchanged = true
is_success _ = false

abbrev pub is_changed : ObservationStatus → Bool
is_changed ObservationStatus.changed = true
is_changed _ = false

-- `ObservationOverallStatus`
pub data OverallStatus : Type 0 where
  succeeded partial failed ambiguous : OverallStatus

unfoldable pub overall_status : ObservationStatus → OverallStatus
overall_status ObservationStatus.changed = OverallStatus.succeeded
overall_status ObservationStatus.unchanged = OverallStatus.succeeded
overall_status ObservationStatus.ambiguous = OverallStatus.ambiguous
overall_status ObservationStatus.failed = OverallStatus.partial
overall_status ObservationStatus.timed_out = OverallStatus.partial

overall_rank : OverallStatus → ℕ
overall_rank OverallStatus.succeeded = 0
overall_rank OverallStatus.partial = 1
overall_rank OverallStatus.failed = 2
overall_rank OverallStatus.ambiguous = 3

unfoldable pub same_overall : OverallStatus → OverallStatus → Bool
unfolding overall_rank
same_overall a b = nat_beq (overall_rank a) (overall_rank b)

pub data FailureCategory : Type 0 where
  source_unavailable node_unavailable authentication_failed connection_failed collection_failed
        collection_timed_out output_failed history_unavailable concurrent_collection
        inconsistent_evidence :
      FailureCategory

-- `OxidizedRevision`
pub record Revision : Type 0 where
  pub commit : String
  pub config_path : String
  pub blob : String
  pub collected_at : ℕ

unfoldable pub revision_beq : Revision → Revision → Bool
revision_beq a b =
    a.commit == b.commit
    && (a.config_path == b.config_path && (a.blob == b.blob && a.collected_at == b.collected_at))

pub revision_beq_iff : (a b : Revision) → (revision_beq a b ≡ true) ↔ (a ≡ b)
unfolding revision_beq
revision_beq_iff a b = ground (
  arith,
  same_text_iff a.commit b.commit,
  same_text_iff a.config_path b.config_path,
  same_text_iff a.blob b.blob,
  nat_beq_iff a.collected_at b.collected_at,
)

instance abbrev pub revision_eq : Eq Revision
revision_eq = record { beq = revision_beq; beq_iff = revision_beq_iff }

-- `OxidizedObservation`
pub record Observation : Type 0 where
  pub request_id : String
  pub requested_at : ℕ
  pub completed_at : Option ℕ
  pub status : ObservationStatus
  pub before_revision : Option Revision
  pub after_revision : Option Revision
  pub failure_category : Option FailureCategory

-- Whether an optional value is there and passes a test.
abbrev pub present {ℓ} : {A : Type ℓ} → (A → Bool) → Option A → Bool
present p none = false
present p (some a) = p a

-- `completed_at or requested_at`
abbrev pub settled : Observation → ℕ
settled o = elim o.completed_at [ none ↦ o.requested_at | some t ↦ t ]

-- Commit, path and blob agree.
unfoldable pub same_identity : Revision → Revision → Bool
same_identity before after =
    before.commit == after.commit
    && before.config_path == after.config_path
    && before.blob == after.blob

-- `validate_pre`, the configuration path of the plan's node being given
unfoldable pub validate_pre : String → Observation → Result Observation
validate_pre path attempt = do
  raise_if
      (not (is_success attempt.status)
        || not (present (λ r. r.config_path == path) attempt.before_revision)
        || not (present (λ r. r.config_path == path) attempt.after_revision)
        || not (present (λ t. true) attempt.completed_at))
      (value_error "successful target-bound PRE required")
  ok attempt
