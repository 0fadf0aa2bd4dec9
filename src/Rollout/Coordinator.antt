-- ===== src/Rollout/Coordinator.antt =====
-- src/network_change_delivery/profiled_rollout_execution.py: `_reserved`, the sequential loop over the
-- frozen cohorts between the preflight and the final validation.
use network_change_delivery.Base.{
  ℕ, String, Bool, true, false, not, ◌&&◌, Option, none, some, List, [], ◌∷◌, ◌++◌, length, nat_beq,
  keep, contains, string_eq, ◌+◌,
}
use network_change_delivery.Raise.{Result, ok, raised, validation_error, is_ok}
use network_change_delivery.Planning.{Hashing}
use network_change_delivery.Exec.{Exec, pure, lift, attempt, ◌>>=◌, ◌>>◌, raise_if, evidence}
use network_change_delivery.Exec.Providers.{Providers, ask}
use network_change_delivery.Rollout.Audit.{StoppingReason, CohortKind, FinalStatus, ChildBinding}
use network_change_delivery.Rollout.Parent.{
  RolloutAudit, deployables, compliants, wave_done, rollout_audit_valid,
}
use network_change_delivery.Rollout.Progress.{Progress, Cohort, started, rollout_outcome}
use network_change_delivery.Rollout.Approved.{RolloutChild, RolloutPlan, find_child}
use network_change_delivery.Rollout.Child.{
  FinalValidation, Services, Evidence, RolloutContext, run_child,
}

abbrev pub canary_cohorts : List String → List Cohort
canary_cohorts [] = []
canary_cohorts (d ∷ ds) =
    record { identity = d; kind = CohortKind.canary; index = 0 } ∷ canary_cohorts ds

abbrev pub wave_cohort : ℕ → List String → List Cohort
wave_cohort i [] = []
wave_cohort i (d ∷ ds) =
    record { identity = d; kind = CohortKind.wave; index = i } ∷ wave_cohort i ds

abbrev pub wave_cohorts : ℕ → List (List String) → List Cohort
wave_cohorts i [] = []
wave_cohorts i (w ∷ ws) = wave_cohort i w ++ wave_cohorts (i + 1) ws

-- `cohorts`: the canaries, then the waves with their numbers.
unfoldable pub cohorts : RolloutPlan → List Cohort
cohorts parent = canary_cohorts parent.canaries ++ wave_cohorts 0 parent.waves

-- `if reason: break`, and otherwise what follows
abbrev pub unless_stopped : {A : Type 0} → Option StoppingReason → A → A → A
unless_stopped (some reason) stop go = stop
unless_stopped none stop go = go

abbrev pub bindings : List RolloutChild → List ChildBinding
bindings [] = []
bindings (c ∷ cs) = c.binding ∷ bindings cs

module _ {W : Type 0} (p : Providers W) (hashing : Hashing) (services : Services W)
    (facts : Evidence) (context : RolloutContext) (parent : RolloutPlan) where
  -- The loop; a reason ends it before the next child.
  unfoldable pub run_children : String → ℕ → List Cohort → Progress → Exec W Progress
  run_children preflight order [] st = pure st
  run_children preflight order (c ∷ cs) st = unless_stopped st.reason (pure st) (do
    child ← lift (find_child parent.children c.identity)
    st' ← run_child p hashing services facts context parent preflight c order child st
    run_children preflight (order + 1) cs st')

  -- The preflight and its publication: its digest, if there is one, and whether both succeeded.
  unfoldable pub rollout_preflight : Exec W (Option String × Bool)
  rollout_preflight = do
    made ← attempt (ask evidence services.preflight)
    elim made [
      | raised e ↦ pure (none, false)
      | ok digest ↦ do
        stored ← attempt (ask evidence (services.put_preflight digest))
        pure (some digest, is_ok stored)
    ]

  -- The loop runs only after a preflight that was published.
  unfoldable pub after_rollout_preflight : Option String → Bool → Exec W Progress
  after_rollout_preflight (some digest) true = run_children digest 0 (cohorts parent) (started none)
  after_rollout_preflight _ _ = pure (started (some StoppingReason.preflight))

  unfoldable pub after_final :
      Progress → FinalValidation → Result (Unit {0}) → Progress × Option FinalValidation
  after_final st final (raised e) =
      (record st { evidence_failed = true; reason = some StoppingReason.child_evidence }, none)
  after_final st final (ok _) = elim final.status [
    | FinalStatus.passed ↦ (st, some final)
    | FinalStatus.failed ↦ (record st { reason = some StoppingReason.final_validation }, some final)
  ]

  -- The final validation, where no reason has stopped the rollout.
  unfoldable pub finish : Progress → Exec W (Progress × Option FinalValidation)
  unfolding after_final
  finish st = unless_stopped st.reason (pure (st, none)) (do
    final ← ask evidence services.validate_final
    stored ← attempt (ask evidence (services.put_final final))
    pure (after_final st final stored))

  unfoldable pub build_audit : Option String → Progress → Option FinalValidation → ℕ → RolloutAudit
  build_audit preflight st final now = record {
    record_id = context.job_id;
    pipeline_id = context.pipeline_id;
    build_id = context.build_id;
    build_number = context.build_number;
    job_id = context.job_id;
    source_commit = context.commit;
    generated_at = now;
    change_id = parent.change_id;
    parent_digest = parent.digest;
    parent_artifact_digest = context.parent_artifact_digest;
    promotion_digest = context.promotion_digest;
    promotion_artifact_digest = context.promotion_artifact_digest;
    authorization_digest = context.authorization_digest;
    unblocker_id = context.unblocker_id;
    preflight_digest = preflight;
    children = bindings parent.children;
    canaries = parent.canaries;
    waves = parent.waves;
    child_records = st.child_refs;
    chronology_records = st.chronology_refs;
    child_evidence_complete =
        nat_beq (length st.child_refs) (length st.chronology_refs)
        && nat_beq (length st.chronology_refs) (length st.attempted);
    evidence_failed = st.evidence_failed;
    compliant = compliants (bindings parent.children);
    attempted = st.attempted;
    successful = st.successful;
    untouched = keep (λ d. not (contains st.attempted d)) (deployables (bindings parent.children));
    stopping_member = st.stop_member;
    stopping_reason = st.reason;
    stopping_outcome = st.stop_outcome;
    completed_canaries = keep (contains st.successful) parent.canaries;
    completed_waves = keep (wave_done st.successful) parent.waves;
    remaining_waves = keep (λ w. not (wave_done st.successful w)) parent.waves;
    final_validation_digest = elim final [ none ↦ none | some f ↦ some f.digest ];
    final_validation_status = elim final [ none ↦ none | some f ↦ some f.status ];
    outcome = rollout_outcome (length (cohorts parent)) st;
  }

  -- `_signed(ProfiledRolloutAuditRecord, …)`: the validator runs when the record is built.
  unfoldable pub sign_audit : RolloutAudit → Exec W RolloutAudit
  sign_audit audit = do
    raise_if (not (rollout_audit_valid facts.ids audit)) validation_error
    ask evidence (services.persist_parent audit)
    pure audit

  -- `_reserved`
  unfoldable pub run_rollout : Exec W RolloutAudit
  run_rollout = do
    made ← rollout_preflight
    st ← after_rollout_preflight made.0 made.1
    finished ← finish st
    λ s. sign_audit (build_audit made.0 finished.0 finished.1 (services.now s.world)) s
