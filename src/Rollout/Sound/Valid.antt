-- ===== src/Rollout/Sound/Valid.antt =====
-- The validity of the record built at each end of a rollout.
use network_change_delivery.Base.{
  ◌also◌, ℕ, String, true, false, not, ◌&&◌, ◌≡◌, refl, sym, ap, ◌∙◌, subst, Option, none, some,
  List, [], ◌∷◌, ◌++◌, map, length, suc, ◌≤◌, ◌<◌, nat_beq, nat_beq_iff, distinct, contains,
  string_eq, length-le-subset, arith, append-nil, length-map, list_eq,
}
use network_change_delivery.Planning.{Hashing}
use network_change_delivery.Exec.Providers.{Providers}
use network_change_delivery.Rollout.Audit.{
  child_record_id, chronology_record_id, RecordIds, StoppingReason, FinalStatus, ChildBinding,
}
use network_change_delivery.Rollout.Parent.{
  RolloutAudit, identities, deployables, population_valid, coverage_valid, reason_valid,
  rollout_outcome_valid, rollout_audit_valid, is_evidence_reason,
}
use network_change_delivery.Rollout.Progress.{Progress, started, rollout_outcome}
use network_change_delivery.Rollout.Approved.{RolloutPlan}
use network_change_delivery.Rollout.Child.{FinalValidation, Services, Evidence, RolloutContext}
use network_change_delivery.Rollout.Coordinator.{bindings, build_audit, cohorts}
use network_change_delivery.Rollout.Sound.Transitions.{Refs}
use network_change_delivery.Rollout.Sound.Loop.{cohort_ids-cohorts, length-cohort_ids}
use network_change_delivery.Rollout.Sound.Coverage.{length-reference_ids, coverage_complete}
use network_change_delivery.Rollout.Sound.Population.{
  frozen_order, ApprovedOrder, DistinctIds, Member, nobody, build_audit-population_valid,
}

contains-deployables :
    (cs : List ChildBinding) (d : String)
    → contains (identities cs) d ≡ false
    → contains (deployables cs) d ≡ false
contains-deployables [] d h = refl
contains-deployables (c ∷ cs) d h = ground (arith, contains-deployables cs d)

distinct-deployables :
    (cs : List ChildBinding) → distinct (identities cs) ≡ true → distinct (deployables cs) ≡ true
distinct-deployables [] h = refl
distinct-deployables (c ∷ cs) h =
    ground (arith, contains-deployables cs c.device_identity, distinct-deployables cs)

module _ (parent : RolloutPlan) (approved : ApprovedOrder parent) where
  -- The frozen order is an arrangement of the deployable members.
  pub length-frozen_order :
      length (frozen_order parent) ≡ length (deployables (bindings parent.children))
  length-frozen_order =
      let there : length (frozen_order parent) ≤ length (deployables (bindings parent.children)) =
        length-le-subset (frozen_order parent) (deployables (bindings parent.children))
          approved.order_distinct (ground (arith, approved.order_members)) in
      let back : length (deployables (bindings parent.children)) ≤ length (frozen_order parent) =
        length-le-subset (deployables (bindings parent.children)) (frozen_order parent)
          (distinct-deployables (bindings parent.children) approved.identities_distinct)
          (ground (arith, approved.order_members)) in
      omega (arith, there, back)

  pub length-cohorts : length (cohorts parent) ≡ length (deployables (bindings parent.children))
  length-cohorts =
      sym (length-cohort_ids (cohorts parent))
      ∙ ap length (cohort_ids-cohorts parent)
      ∙ length-frozen_order

pub bool_flag : (a b c : ℕ) → a ≡ b → b ≡ c → (nat_beq a b && nat_beq b c) ≡ true
bool_flag a b c h k = ground (arith, h, k)

pub bool_flag_short : (a b c : ℕ) → suc b ≡ c → (nat_beq a b && nat_beq b c) ≡ false
bool_flag_short a b c h = ground (arith, h)

-- As many records are published as members are covered.
module _ (ids : RecordIds) (job : String) (attempts brackets : List String) (st : Progress)
    (refs : Refs ids job attempts brackets st) where
  pub length-attempts : length st.child_refs ≡ length attempts
  length-attempts =
      sym (length-reference_ids st.child_refs) ∙ ap length refs.children ∙ length-map _ attempts

  pub length-brackets : length st.chronology_refs ≡ length brackets
  length-brackets =
      sym (length-reference_ids st.chronology_refs)
      ∙ ap length refs.chronologies
      ∙ length-map (chronology_record_id ids) _
      ∙ length-map _ brackets

-- The record was built; the four groups of tests in turn.
pub rollout_audit_valid_of :
    (ids : RecordIds) (r : RolloutAudit) (reason : Option StoppingReason)
    → r.stopping_reason ≡ reason
    → population_valid r ≡ true
    → coverage_valid ids r ≡ true
    → reason_valid reason r ≡ true
    → not (r.evidence_failed && not (is_evidence_reason reason)) ≡ true
    → rollout_outcome_valid r.outcome r ≡ true
    → rollout_audit_valid ids r ≡ true
unfolding rollout_audit_valid
rollout_audit_valid_of ids r reason e population coverage why failed outcome =
    population
    also coverage
    also subst (λ o. reason_valid o r ≡ true) (sym e) why
    also subst (λ o. not (r.evidence_failed && not (is_evidence_reason o)) ≡ true) (sym e) failed
    also outcome

module _ {W : Type 0} (p : Providers W) (hashing : Hashing) (services : Services W)
    (facts : Evidence) (context : RolloutContext) (parent : RolloutPlan)
    (approved : ApprovedOrder parent)
    (distinct_ids : DistinctIds facts.ids context.job_id parent) where
  abbrev Valid : Option String → Progress → Option FinalValidation → ℕ → Type 0
  Valid preflight st final now =
      rollout_audit_valid facts.ids
        (build_audit p hashing services facts context parent preflight st final now)
      ≡ true

  -- Everything attempted is covered by the published records.
  pub coverage_of_Refs :
      (preflight : Option String) (st : Progress) (final : Option FinalValidation) (now : ℕ)
      (xs : List String)
      → st.attempted ≡ xs
      → Refs facts.ids context.job_id xs xs st
      → coverage_valid facts.ids
          (build_audit p hashing services facts context parent preflight st final now)
        ≡ true
  unfolding build_audit
  coverage_of_Refs preflight st final now xs a refs =
      coverage_complete facts.ids
        (build_audit p hashing services facts context parent preflight st final now)
        (refs.children ∙ ap (map (child_record_id facts.ids context.job_id)) (sym a))
        (refs.chronologies
          ∙ ap
              (λ ys.
                map (chronology_record_id facts.ids)
                  (map (child_record_id facts.ids context.job_id) ys))
              (sym a))
        (bool_flag (length st.child_refs) (length st.chronology_refs) (length st.attempted)
          (length-attempts facts.ids context.job_id xs xs st refs
            ∙ sym (length-brackets facts.ids context.job_id xs xs st refs))
          (length-brackets facts.ids context.job_id xs xs st refs ∙ sym (ap length a)))

  -- The preflight failed: nothing was attempted.
  pub preflight-Valid :
      (preflight : Option String) (now : ℕ)
      → Valid preflight (started (some StoppingReason.preflight)) none now
  unfolding build_audit rollout_outcome rollout_outcome_valid reason_valid
  preflight-Valid preflight now =
      let st : Progress = started (some StoppingReason.preflight) in
      let r : RolloutAudit =
        build_audit p hashing services facts context parent preflight st none now in
      rollout_audit_valid_of facts.ids r (some StoppingReason.preflight) refl
        (build_audit-population_valid p hashing services facts context parent approved distinct_ids
          preflight st none now [] [] (frozen_order parent) [] (frozen_order parent)
          (frozen_order parent) refl refl refl refl
          (record { children = refl; chronologies = refl }) (ground arith) nobody)
        (coverage_complete facts.ids r refl refl refl) refl refl refl

  module _ (digest : String) (st : Progress) (now : ℕ) (at : st.attempted ≡ frozen_order parent)
      (s : st.successful ≡ st.attempted) (member : st.stop_member ≡ none)
      (refs : Refs facts.ids context.job_id (frozen_order parent) (frozen_order parent) st) where
    whole : frozen_order parent ≡ frozen_order parent ++ []
    whole = sym (append-nil (frozen_order parent))

    every_member :
        nat_beq (length st.successful) (length (deployables (bindings parent.children))) ≡ true
    every_member =
        (nat_beq_iff _ _).1 (ap length s ∙ ap length at ∙ length-frozen_order parent approved)

    -- Every member was attempted with success.
    full-Valid :
        (final : Option FinalValidation) (reason : Option StoppingReason)
        → st.reason ≡ reason
        → reason_valid reason
            (build_audit p hashing services facts context parent (some digest) st final now)
          ≡ true
        → not (st.evidence_failed && not (is_evidence_reason reason)) ≡ true
        → rollout_outcome_valid
            (rollout_outcome (length (cohorts parent)) st)
            (build_audit p hashing services facts context parent (some digest) st final now)
          ≡ true
        → Valid (some digest) st final now
    unfolding build_audit
    full-Valid final reason e why failed outcome =
        let r : RolloutAudit =
          build_audit p hashing services facts context parent (some digest) st final now in
        rollout_audit_valid_of facts.ids r reason e
          (build_audit-population_valid p hashing services facts context parent approved
            distinct_ids (some digest) st final now (frozen_order parent) (frozen_order parent) []
            [] [] [] (whole ∙ ap (λ xs. xs ++ []) (sym at)) (sym s ∙ sym (append-nil st.successful))
            whole whole refs refl (subst (Member parent) (sym member) nobody))
          (coverage_of_Refs (some digest) st final now (frozen_order parent) at refs) why failed
          outcome

    pub passed-Valid :
        (final : FinalValidation)
        → final.status ≡ FinalStatus.passed
        → st.reason ≡ none
        → st.evidence_failed ≡ false
        → Valid (some digest) st (some final) now
    unfolding build_audit reason_valid rollout_outcome rollout_outcome_valid
    passed-Valid final passed e f =
        full-Valid (some final) none e (every_member also rw member refl) (rw f refl)
          (ground (arith, e, every_member, passed))

    pub failed-Valid :
        (final : FinalValidation)
        → final.status ≡ FinalStatus.failed
        → st.reason ≡ some StoppingReason.final_validation
        → st.evidence_failed ≡ false
        → Valid (some digest) st (some final) now
    unfolding build_audit reason_valid rollout_outcome rollout_outcome_valid
    failed-Valid final failed e f =
        full-Valid (some final) (some StoppingReason.final_validation) e
          (every_member also rw member refl) (rw f refl) (ground (arith, e, every_member, failed))

    -- The evidence of the final validation was lost.
    pub unstored-Valid :
        0 < length (frozen_order parent)
        → st.reason ≡ some StoppingReason.child_evidence
        → st.evidence_failed ≡ true
        → Valid (some digest) st none now
    unfolding build_audit reason_valid rollout_outcome rollout_outcome_valid
    unstored-Valid some_member e f =
        full-Valid none (some StoppingReason.child_evidence) e
          (f
            also (ground (arith, ap length at, some_member))
            also ground (arith, every_member, member))
          (rw f refl) (ground (arith, e, f, every_member, length-cohorts parent approved))
