-- ===== src/Rollout/Parent.antt =====
-- `ProfiledRolloutAuditRecord` and its validator `correlated`, in the order of its checks.
use network_change_delivery.Base.{
  suc, zero, ℕ, String, Bool, true, false, not, ◌&&◌, ◌||◌, Option, none, some, List, [], ◌∷◌, ◌++◌,
  map, length, take, concat, keep, all, is_empty, contains, distinct, same_set, leb, nat_beq, ltb,
  ◌-◌, ◌==◌, ◌!=◌, string_eq, option_eq, list_eq, if◌then◌else◌, bool_beq,
}
use network_change_delivery.Models.{FinalOutcome, succeeded, outcome_eq}
use network_change_delivery.Execution.Record.{is_some}
use network_change_delivery.Rollout.Audit.{
  child_record_id, chronology_record_id, RolloutOutcome, StoppingReason, is_deployable, FinalStatus,
  RecordReference, ChildBinding, RecordIds,
}

pub record RolloutAudit : Type 0 where
  pub record_id : String
  pub pipeline_id : String
  pub build_id : String
  pub build_number : ℕ
  pub job_id : String
  pub source_commit : String
  pub generated_at : ℕ
  pub change_id : String
  pub parent_digest : String
  pub parent_artifact_digest : String
  pub promotion_digest : String
  pub promotion_artifact_digest : String
  pub authorization_digest : String
  pub unblocker_id : String
  pub preflight_digest : Option String
  pub children : List ChildBinding
  pub canaries : List String
  pub waves : List (List String)
  pub child_records : List RecordReference
  pub chronology_records : List RecordReference
  pub child_evidence_complete : Bool
  pub evidence_failed : Bool
  pub compliant : List String
  pub attempted : List String
  pub successful : List String
  pub untouched : List String
  pub stopping_member : Option String
  pub stopping_reason : Option StoppingReason
  pub stopping_outcome : Option FinalOutcome
  pub completed_canaries : List String
  pub completed_waves : List (List String)
  pub remaining_waves : List (List String)
  pub final_validation_digest : Option String
  pub final_validation_status : Option FinalStatus
  pub outcome : RolloutOutcome

-- `tuple(c.device_identity for c in children)` and the same for one kind
abbrev pub identities : List ChildBinding → List String
identities [] = []
identities (c ∷ cs) = c.device_identity ∷ identities cs

abbrev pub deployables : List ChildBinding → List String
deployables [] = []
deployables (c ∷ cs) =
    if is_deployable c.kind then c.device_identity ∷ deployables cs else deployables cs

abbrev pub compliants : List ChildBinding → List String
compliants [] = []
compliants (c ∷ cs) =
    if is_deployable c.kind then compliants cs else c.device_identity ∷ compliants cs

-- `all(d in successful for d in wave)`
abbrev pub wave_done : List String → List String → Bool
wave_done successful wave = all (contains successful) wave

abbrev pub reference_ids : List RecordReference → List String
reference_ids [] = []
reference_ids (r ∷ rs) = r.record_id ∷ reference_ids rs

-- `attempted[-1]`, and `attempted[:-1]`
abbrev pub last : List String → Option String
last [] = none
last (x ∷ xs) = elim xs [ [] ↦ some x | _ ∷ _ ↦ last xs ]

abbrev pub all_but_last : List String → List String
all_but_last [] = []
all_but_last (x ∷ xs) = elim xs [ [] ↦ [] | _ ∷ _ ↦ x ∷ all_but_last xs ]

-- `reason in {"CHILD_EVIDENCE", "CHILD_EXECUTION_UNCERTAIN"}`
abbrev pub is_evidence_reason : Option StoppingReason → Bool
is_evidence_reason none = false
is_evidence_reason (some StoppingReason.child_evidence) = true
is_evidence_reason (some StoppingReason.child_execution_uncertain) = true
is_evidence_reason (some _) = false

abbrev pub order : RolloutAudit → List String
order r = r.canaries ++ concat r.waves

abbrev same_waves : List (List String) → List (List String) → Bool
same_waves xs ys = xs == ys

-- The population, the prefixes and what is derived from them.
unfoldable pub population_valid : RolloutAudit → Bool
population_valid r =
    (r.record_id == r.job_id
      && distinct (reference_ids r.child_records)
      && distinct (reference_ids r.chronology_records)
      && distinct (identities r.children)
      && distinct (order r)
      && same_set (order r) (deployables r.children)
      && r.compliant == compliants r.children)
    && (r.attempted == take (length r.attempted) (order r)
        && r.successful == take (length r.successful) r.attempted
        && r.untouched == keep (λ d. not (contains r.attempted d)) (deployables r.children)
        && r.completed_canaries == keep (contains r.successful) r.canaries
        && same_waves r.completed_waves (keep (wave_done r.successful) r.waves)
        && same_waves r.remaining_waves (keep (λ w. not (wave_done r.successful w)) r.waves))
    && (bool_beq (is_some r.final_validation_digest) (is_some r.final_validation_status)
        && not (not (is_some r.preflight_digest) && not (is_empty r.attempted))
        && elim r.stopping_member [ none ↦ true | some d ↦ contains (deployables r.children) d ])

unfoldable pub incomplete_last_allowed : RolloutAudit → Bool
incomplete_last_allowed r =
    r.evidence_failed
    && is_evidence_reason r.stopping_reason
    && not (is_empty r.attempted)
    && r.stopping_member == last r.attempted

module _ (ids : RecordIds) where
  abbrev pub expected_children : RolloutAudit → List String
  expected_children r = map (child_record_id ids r.record_id) r.attempted

  abbrev pub expected_chronology : RolloutAudit → List String
  expected_chronology r = map (chronology_record_id ids) (expected_children r)

  -- The records published for the attempted prefix; the last may be missing after a failure.
  unfoldable pub coverage_valid : RolloutAudit → Bool
  unfolding incomplete_last_allowed
  coverage_valid r =
      let child_ids = reference_ids r.child_records in
      let chronology_ids = reference_ids r.chronology_records in
      let required = length r.attempted - (if incomplete_last_allowed r then 1 else 0) in
      child_ids == take (length child_ids) (expected_children r)
      && chronology_ids == take (length chronology_ids) (expected_chronology r)
      && leb required (length chronology_ids)
      && leb (length chronology_ids) (length child_ids)
      && leb (length child_ids) (length r.attempted)
      && bool_beq r.child_evidence_complete
          (child_ids == expected_children r && chronology_ids == expected_chronology r)

abbrev pub all_succeeded : RolloutAudit → Bool
all_succeeded r = nat_beq (length r.successful) (length (deployables r.children))

-- `order[n]`, where there is one
abbrev pub get_elem? : List String → ℕ → Option String
get_elem? [] n = none
get_elem? (x ∷ xs) zero = some x
get_elem? (x ∷ xs) (suc n) = get_elem? xs n

-- `reason_valid`
unfoldable pub reason_valid : Option StoppingReason → RolloutAudit → Bool
reason_valid (some StoppingReason.preflight) r =
    is_empty r.attempted && not (is_some r.stopping_member)
reason_valid (some StoppingReason.pre_chronology) r =
    ltb (length r.attempted) (length (order r))
    && r.stopping_member == get_elem? (order r) (length r.attempted)
    && r.successful == r.attempted
reason_valid (some StoppingReason.child_non_success) r =
    not (is_empty r.attempted)
    && r.stopping_member == last r.attempted
    && r.successful == all_but_last r.attempted
    && elim r.stopping_outcome [ none ↦ false | some o ↦ o != succeeded ]
reason_valid (some StoppingReason.child_execution_uncertain) r =
    not (is_empty r.attempted)
    && r.stopping_member == last r.attempted
    && r.successful == all_but_last r.attempted
    && not (is_some r.stopping_outcome)
reason_valid (some StoppingReason.child_evidence) r =
    r.evidence_failed
    && not (is_empty r.attempted)
    && (r.stopping_member == last r.attempted
        || (not (is_some r.stopping_member) && all_succeeded r))
reason_valid (some StoppingReason.final_validation) r =
    all_succeeded r && not (is_some r.stopping_member)
reason_valid none r = all_succeeded r && not (is_some r.stopping_member)

abbrev pub has_status : FinalStatus → Option FinalStatus → Bool
has_status _ none = false
has_status FinalStatus.passed (some FinalStatus.passed) = true
has_status FinalStatus.passed (some FinalStatus.failed) = false
has_status FinalStatus.failed (some FinalStatus.failed) = true
has_status FinalStatus.failed (some FinalStatus.passed) = false

-- `reason is None`, `reason == "FINAL_VALIDATION"` and `reason == "CHILD_EVIDENCE"`
abbrev pub is_final_reason : Option StoppingReason → Bool
is_final_reason (some StoppingReason.final_validation) = true
is_final_reason _ = false

abbrev pub is_child_evidence : Option StoppingReason → Bool
is_child_evidence (some StoppingReason.child_evidence) = true
is_child_evidence _ = false

-- The truth of the outcome.
unfoldable pub rollout_outcome_valid : RolloutOutcome → RolloutAudit → Bool
rollout_outcome_valid RolloutOutcome.succeeded r =
    all_succeeded r
    && has_status FinalStatus.passed r.final_validation_status
    && not (is_some r.stopping_reason)
rollout_outcome_valid RolloutOutcome.final_validation_failed r =
    all_succeeded r
    && has_status FinalStatus.failed r.final_validation_status
    && is_final_reason r.stopping_reason
rollout_outcome_valid RolloutOutcome.evidence_failed r =
    all_succeeded r && r.evidence_failed && is_child_evidence r.stopping_reason
rollout_outcome_valid RolloutOutcome.partial r =
    not (is_empty r.successful) && not (all_succeeded r) && is_some r.stopping_reason
rollout_outcome_valid RolloutOutcome.stopped r = is_empty r.successful && is_some r.stopping_reason

-- Whether `correlated` accepts the record.
unfoldable pub rollout_audit_valid : RecordIds → RolloutAudit → Bool
rollout_audit_valid ids r =
    population_valid r
    && coverage_valid ids r
    && reason_valid r.stopping_reason r
    && not (r.evidence_failed && not (is_evidence_reason r.stopping_reason))
    && rollout_outcome_valid r.outcome r
