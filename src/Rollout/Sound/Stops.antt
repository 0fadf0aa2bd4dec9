-- ===== src/Rollout/Sound/Stops.antt =====
-- The validity of the record of a rollout that stopped at one of its children.
use network_change_delivery.Base.{
  ℕ, String, true, false, not, ◌&&◌, ◌≡◌, refl, sym, ap, ◌∙◌, subst, none, some, List, [], ◌∷◌,
  ◌++◌, length, suc, string_eq, arith, append-nil, length-append, append_assoc, inl, inr, list_eq,
}
use network_change_delivery.Planning.{Hashing}
use network_change_delivery.Exec.Providers.{Providers}
use network_change_delivery.Rollout.Audit.{StoppingReason}
use network_change_delivery.Rollout.Parent.{
  RolloutAudit, coverage_valid, reason_valid, rollout_outcome_valid, rollout_audit_valid,
  all_succeeded, is_evidence_reason, incomplete_last_allowed,
}
use network_change_delivery.Rollout.Progress.{Progress}
use network_change_delivery.Rollout.Approved.{RolloutPlan}
use network_change_delivery.Rollout.Child.{Services, Evidence, RolloutContext}
use network_change_delivery.Rollout.Coordinator.{build_audit, cohorts}
use network_change_delivery.Rollout.Sound.Transitions.{
  Refs, Why, non_success, uncertain, lost, StoppedAt,
}
use network_change_delivery.Rollout.Sound.Pass.{End, before, complete, partial, missing}
use network_change_delivery.Rollout.Sound.Coverage.{coverage_partial, coverage_missing}
use network_change_delivery.Rollout.Sound.Population.{
  frozen_order, ApprovedOrder, DistinctIds, Member, somebody, build_audit-population_valid,
}
use network_change_delivery.Rollout.Sound.Reasons.{
  reason_valid-pre_chronology, reason_valid-non_success, reason_valid-uncertain, reason_valid-lost,
  incomplete_last_allowed-lost, rollout_outcome_valid-stopped,
}
use network_change_delivery.Rollout.Sound.Valid.{
  length-frozen_order, length-cohorts, coverage_of_Refs, bool_flag_short, rollout_audit_valid_of,
  length-brackets,
}

module _ {W : Type 0} (p : Providers W) (hashing : Hashing) (services : Services W)
    (facts : Evidence) (context : RolloutContext) (parent : RolloutPlan)
    (approved : ApprovedOrder parent) (distinct_ids : DistinctIds facts.ids context.job_id parent)
    (digest : String) (st : Progress) (now : ℕ) (done : List String) (d : String)
    (rest : List String) (split : frozen_order parent ≡ done ++ d ∷ rest) where
  abbrev built : RolloutAudit
  built = build_audit p hashing services facts context parent (some digest) st none now

  -- What a record says of its end, and that its validator agrees.
  record Ending : Type 0 where
    reason : StoppingReason
    reason_of : st.reason ≡ some reason
    why : reason_valid (some reason) built ≡ true
    failed : not (st.evidence_failed && not (is_evidence_reason (some reason))) ≡ true
    outcome : rollout_outcome_valid built.outcome built ≡ true
    behind : (tail : List String) × (st.attempted ≡ st.successful ++ tail)

  -- A rollout that stopped before its last member is not complete.
  incomplete : st.successful ≡ done → all_succeeded built ≡ false
  unfolding build_audit
  incomplete s = ground (
    arith,
    ap length s,
    ap length split,
    length-append done (d ∷ rest),
    length-frozen_order parent approved,
  )

  valid_of :
      (published bracketed rest' left left' : List String)
      → Ending
      → frozen_order parent ≡ st.attempted ++ rest'
      → frozen_order parent ≡ published ++ left
      → frozen_order parent ≡ bracketed ++ left'
      → Refs facts.ids context.job_id published bracketed st
      → st.stop_member ≡ some d
      → coverage_valid facts.ids built ≡ true
      → rollout_audit_valid facts.ids built ≡ true
  unfolding build_audit
  valid_of published bracketed rest' left left' ending ahead at at' refs member coverage =
      rollout_audit_valid_of facts.ids built (some ending.reason) ending.reason_of
        (build_audit-population_valid p hashing services facts context parent approved distinct_ids
          (some digest) st none now published bracketed rest' ending.behind.0 left left' ahead
          ending.behind.1 at at' refs refl
          (subst (Member parent) (sym member) (somebody done rest split)))
        coverage ending.why ending.failed ending.outcome

  before-Ending :
      st.attempted ≡ done
      → st.successful ≡ done
      → st.stop_member ≡ some d
      → st.reason ≡ some StoppingReason.pre_chronology
      → st.evidence_failed ≡ false
      → Ending
  unfolding build_audit
  before-Ending a s m e f = record {
    reason = StoppingReason.pre_chronology;
    reason_of = e;
    why = reason_valid-pre_chronology built done d rest split a s m;
    failed = rw f refl;
    outcome =
        rollout_outcome_valid-stopped (length (cohorts parent)) st built
          StoppingReason.pre_chronology e e refl refl refl (length-cohorts parent approved)
          (inl (incomplete s));
    behind = ([], a ∙ sym s ∙ sym (append-nil st.successful));
  }

  module _ (h : StoppedAt done d st) where
    behind_done :
        st.successful ≡ done → (tail : List String) × (st.attempted ≡ st.successful ++ tail)
    behind_done s = (d ∷ [], h.attempted ∙ ap (λ xs. xs ++ d ∷ []) (sym s))

    why-Ending : Why done d st → Ending
    unfolding build_audit
    why-Ending (non_success o e s outcome differs f) = record {
      reason = StoppingReason.child_non_success;
      reason_of = e;
      why = reason_valid-non_success built done d h.attempted h.member o s outcome differs;
      failed = rw f refl;
      outcome =
          rollout_outcome_valid-stopped (length (cohorts parent)) st built
            StoppingReason.child_non_success e e refl refl refl (length-cohorts parent approved)
            (inl (incomplete s));
      behind = behind_done s;
    }
    why-Ending (uncertain e s outcome) = record {
      reason = StoppingReason.child_execution_uncertain;
      reason_of = e;
      why = reason_valid-uncertain built done d h.attempted h.member s outcome;
      failed = ground arith;
      outcome =
          rollout_outcome_valid-stopped (length (cohorts parent)) st built
            StoppingReason.child_execution_uncertain e e refl refl refl
            (length-cohorts parent approved) (inl (incomplete s));
      behind = behind_done s;
    }
    why-Ending (lost e f s) = record {
      reason = StoppingReason.child_evidence;
      reason_of = e;
      why = reason_valid-lost built done d h.attempted h.member f;
      failed = ground arith;
      outcome =
          rollout_outcome_valid-stopped (length (cohorts parent)) st built
            StoppingReason.child_evidence e e refl refl refl (length-cohorts parent approved)
            (inr (f, refl));
      behind = elim s [
        | inl earlier ↦ behind_done earlier
        | inr all_of ↦ ([], h.attempted ∙ sym all_of ∙ sym (append-nil st.successful))
      ];
    }

    -- A failure of evidence is a reason that lets the last record be missing.
    allowed : st.evidence_failed ≡ true → Why done d st → incomplete_last_allowed built ≡ true
    unfolding build_audit
    allowed f (non_success o e s outcome differs g) = ground (arith, f, g)
    allowed f (uncertain e s outcome) =
        incomplete_last_allowed-lost built done d h.attempted h.member f (rw e refl)
    allowed f (lost e g s) =
        incomplete_last_allowed-lost built done d h.attempted h.member f (rw e refl)

    through : frozen_order parent ≡ (done ++ d ∷ []) ++ rest
    through = split ∙ sym (append_assoc done (d ∷ []) rest)

    ahead : frozen_order parent ≡ st.attempted ++ rest
    ahead = through ∙ ap (λ xs. xs ++ rest) (sym h.attempted)

    one_more : suc (length done) ≡ length st.attempted
    one_more = omega (arith, ap length h.attempted, length-append done (d ∷ []))

  pub stopped-Valid :
      End facts.ids context.job_id done d st → rollout_audit_valid facts.ids built ≡ true
  unfolding build_audit
  stopped-Valid (before a s m e f refs) =
      valid_of done done (d ∷ rest) (d ∷ rest) (d ∷ rest) (before-Ending a s m e f)
        (split ∙ ap (λ xs. xs ++ d ∷ rest) (sym a)) split split refs m
        (coverage_of_Refs p hashing services facts context parent approved distinct_ids
          (some digest) st none now done a refs)
  stopped-Valid (complete h refs) =
      valid_of (done ++ d ∷ []) (done ++ d ∷ []) rest rest rest (why-Ending h h.why) (ahead h)
        (through h) (through h) refs h.member
        (coverage_of_Refs p hashing services facts context parent approved distinct_ids
          (some digest) st none now (done ++ d ∷ []) h.attempted refs)
  stopped-Valid (partial h f refs) =
      valid_of (done ++ d ∷ []) done rest rest (d ∷ rest) (why-Ending h h.why) (ahead h) (through h)
        split refs h.member
        (coverage_partial facts.ids built done d h.attempted (allowed h f h.why)
          (bool_flag_short (length st.child_refs) (length st.chronology_refs) (length st.attempted)
            (ap suc (length-brackets facts.ids context.job_id (done ++ d ∷ []) done st refs)
              ∙ one_more h))
          refs.chronologies refs.children)
  stopped-Valid (missing h f refs) =
      valid_of done done rest (d ∷ rest) (d ∷ rest) (why-Ending h h.why) (ahead h) split split refs
        h.member
        (coverage_missing facts.ids built done d h.attempted (allowed h f h.why)
          (bool_flag_short (length st.child_refs) (length st.chronology_refs) (length st.attempted)
            (ap suc (length-brackets facts.ids context.job_id done done st refs) ∙ one_more h))
          refs.chronologies refs.children)
