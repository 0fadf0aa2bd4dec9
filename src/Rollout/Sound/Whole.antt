-- ===== src/Rollout/Sound/Whole.antt =====
-- The whole rollout.
use network_change_delivery.Base.{
  ℕ, String, Bool, true, false, not, ◌≡◌, refl, subst, Option, none, some, List, [], ◌∷◌, ◌++◌,
  concat, length, ◌<◌, is_empty, arith,
}
use network_change_delivery.Raise.{Yields, Exn, Result, ok, raised, is_ok, validation_error}
use network_change_delivery.Planning.{Hashing}
use network_change_delivery.Exec.{
  Session, Exec, pure, attempt, ◌>>=◌, ◌>>◌, continue, evidence, raise_if,
}
use network_change_delivery.Exec.Providers.{Providers, Answer, answer, fault, to_result, ask}
use network_change_delivery.Rollout.Audit.{StoppingReason, FinalStatus}
use network_change_delivery.Rollout.Parent.{RolloutAudit, rollout_audit_valid}
use network_change_delivery.Rollout.Progress.{Progress, started}
use network_change_delivery.Rollout.Approved.{RolloutPlan}
use network_change_delivery.Rollout.Child.{FinalValidation, Services, Evidence, RolloutContext}
use network_change_delivery.Rollout.Coordinator.{
  build_audit, cohorts, run_children, rollout_preflight, after_rollout_preflight, after_final,
  finish, sign_audit, run_rollout,
}
use network_change_delivery.Rollout.Sound.Pass.{continue-Yields, Onward}
use network_change_delivery.Rollout.Sound.Loop.{
  cohort_ids-cohorts, Finished, all_done, ended, End-reason, unless-going, run_children-Finished,
}
use network_change_delivery.Rollout.Sound.Population.{frozen_order, ApprovedOrder, DistinctIds}
use network_change_delivery.Rollout.Sound.Valid.{
  preflight-Valid, passed-Valid, failed-Valid, unstored-Valid,
}
use network_change_delivery.Rollout.Sound.Stops.{stopped-Valid}

-- A provider's exception is its own.
pub to_result-Yields : {A : Type 0} (a : Answer A) → Yields (λ _. Unit {0}) (to_result a)
to_result-Yields (answer a) = tt
to_result-Yields (fault f) = tt

weaken :
    {A : Type 0} (P Q : A → Type 0) (r : Result A) → ((a : A) → P a → Q a) → Yields P r → Yields Q r
weaken P Q (ok a) f h = f a h
weaken P Q (raised e) f h = h

-- A guard whose test holds lets the rest run.
passes :
    {W A : Type 0} (Q : A → Type 0) (e : Exn) (f : Unit {0} → Exec W A) (s : Session W) (b : Bool)
    → b ≡ true
    → Yields Q (f tt s).0
    → Yields Q ((raise_if (not b) e >>= f) s).0
passes Q e f s b h k = rw h k

asked :
    {W A B : Type 0} (Q : B → Type 0) (provide : W → Answer A × W) (f : A → Exec W B)
    (s : Session W)
    → ((a : A) (s' : Session W) → Yields Q (f a s').0)
    → Yields Q ((ask evidence provide >>= f) s).0
asked {W} {A} {B} Q provide f s k = go (provide s.world).0
  where
    go :
        (a : Answer A)
        → Yields Q
            (continue
              (to_result a)
              f
              (record { world = (provide s.world).1; trace = evidence ∷ s.trace })).0
    go (answer a) = k a _
    go (fault e) = tt

populated-length : (parent : RolloutPlan) → ApprovedOrder parent → 0 < length (frozen_order parent)
populated-length parent approved = go parent.canaries approved.populated
  where
    go : (cs : List String) → is_empty cs ≡ false → 0 < length (cs ++ concat parent.waves)
    go [] h = ground (arith, h)
    go (c ∷ cs) h = omega arith

module _ {W : Type 0} (p : Providers W) (hashing : Hashing) (services : Services W)
    (facts : Evidence) (context : RolloutContext) (parent : RolloutPlan) where
  abbrev pub Accepted : RolloutAudit → Type 0
  Accepted audit = rollout_audit_valid facts.ids audit ≡ true

  sign_audit-Accepted :
      (audit : RolloutAudit) (s : Session W)
      → Accepted audit
      → Yields Accepted (sign_audit p hashing services facts context parent audit s).0
  unfolding sign_audit
  sign_audit-Accepted audit s h =
      passes Accepted validation_error
        (λ _. ask evidence (services.persist_parent audit) >> pure audit) s
        (rollout_audit_valid facts.ids audit) h
        (asked Accepted (services.persist_parent audit) (λ _. pure audit) s (λ _ _. h))

  module _ (approved : ApprovedOrder parent)
      (distinct_ids : DistinctIds facts.ids context.job_id parent) where
    -- Whatever the clock says, the record that is built now is accepted.
    abbrev Closes : Option String → Progress × Option FinalValidation → Type 0
    Closes preflight end =
        (now : ℕ)
        → Accepted (build_audit p hashing services facts context parent preflight end.0 end.1 now)

    finish-stopped :
        (st : Progress) (reason : StoppingReason) (s : Session W)
        → st.reason ≡ some reason
        → finish p hashing services facts context parent st s ≡ (ok (st, none), s)
    unfolding finish
    finish-stopped st reason s e = rw e refl

    after_final-Closes :
        (digest : String) (st : Progress) (final : FinalValidation) (stored : Result (Unit {0}))
        → Onward facts.ids context.job_id (frozen_order parent) st
        → Closes (some digest) (after_final p hashing services facts context parent st final stored)
    unfolding after_final
    after_final-Closes digest st final (raised e) onward now =
        unstored-Valid p hashing services facts context parent approved distinct_ids digest _ now
          onward.attempted onward.clear.successful onward.clear.no_member
          (record { children = onward.refs.children; chronologies = onward.refs.chronologies })
          (populated-length parent approved) refl refl
    after_final-Closes digest st final (ok u) onward now = go final.status refl
      where
        go :
            (status : FinalStatus)
            → final.status ≡ status
            → let end : Progress × Option FinalValidation = elim status [
              | FinalStatus.passed ↦ (st, some final)
              | FinalStatus.failed ↦
                  (record st { reason = some StoppingReason.final_validation }, some final)
            ] in
              Accepted
                (build_audit p hashing services facts context parent (some digest) end.0 end.1 now)
        go FinalStatus.passed e =
            passed-Valid p hashing services facts context parent approved distinct_ids digest st now
              onward.attempted onward.clear.successful onward.clear.no_member onward.refs final e
              onward.clear.no_reason onward.clear.no_failure
        go FinalStatus.failed e =
            failed-Valid p hashing services facts context parent approved distinct_ids digest _ now
              onward.attempted onward.clear.successful onward.clear.no_member
              (record { children = onward.refs.children; chronologies = onward.refs.chronologies })
              final e refl onward.clear.no_failure

    finish-Closes :
        (digest : String) (st : Progress) (s : Session W)
        → Finished facts.ids context.job_id (frozen_order parent) st
        → Yields (Closes (some digest)) (finish p hashing services facts context parent st s).0
    unfolding finish
    finish-Closes digest st s (all_done onward) =
        unless-going p hashing services facts context parent (Closes (some digest)) st.reason _ _ s
          onward.clear.no_reason
          (asked (Closes (some digest)) services.validate_final
            (λ final. attempt (ask evidence (services.put_final final)) >>= λ stored.
              pure (after_final p hashing services facts context parent st final stored))
            s (λ final s'. after_final-Closes digest st final _ onward))
    finish-Closes digest st s (ended done d rest split end) =
        go (End-reason facts.ids context.job_id st end)
      where
        go :
            (reason : StoppingReason) × (st.reason ≡ some reason)
            → Yields (Closes (some digest)) (finish p hashing services facts context parent st s).0
        go (reason, e) = rw (finish-stopped st reason s e) (λ now.
            stopped-Valid p hashing services facts context parent approved distinct_ids digest st
              now done d rest split end)

    pub run-Finished :
        (digest : String) (s : Session W)
        → Yields
            (Finished facts.ids context.job_id (frozen_order parent))
            (run_children p hashing services facts context parent digest 0
              (cohorts parent)
              (started none)
              s).0
    run-Finished digest s =
        subst
          (λ order.
            Yields (Finished facts.ids context.job_id order)
              (run_children p hashing services facts context parent digest 0 (cohorts parent)
                (started none) s).0)
          (cohort_ids-cohorts parent)
          (run_children-Finished p hashing services facts context parent digest 0 (cohorts parent)
            [] (started none) s
            (record {
              clear = record {
                successful = refl;
                no_member = refl;
                no_outcome = refl;
                no_reason = refl;
                no_failure = refl;
              };
              attempted = refl;
              refs = record { children = refl; chronologies = refl };
            }))

    -- The preflight failed, or the loop has ended.
    data Ready : Option String → Progress → Type 0 where
      not_armed : {o : Option String} → Ready o (started (some StoppingReason.preflight))
      looped :
          {digest : String} {st : Progress}
          → Finished facts.ids context.job_id (frozen_order parent) st
          → Ready (some digest) st

    after_preflight-Ready :
        (preflight : Option String) (published : Bool) (s : Session W)
        → Yields
            (Ready preflight)
            (after_rollout_preflight p hashing services facts context parent preflight published
              s).0
    unfolding after_rollout_preflight
    after_preflight-Ready (some digest) true s =
        weaken (Finished facts.ids context.job_id (frozen_order parent)) (Ready (some digest)) _
          (λ st finished. looped finished) (run-Finished digest s)
    after_preflight-Ready (some digest) false s = not_armed
    after_preflight-Ready none published s = not_armed

    Ready-Closes :
        (preflight : Option String) (st : Progress) (s : Session W)
        → Ready preflight st
        → Yields (Closes preflight) (finish p hashing services facts context parent st s).0
    Ready-Closes preflight st s not_armed =
        rw
          (finish-stopped (started (some StoppingReason.preflight)) StoppingReason.preflight s refl)
          (λ now.
            preflight-Valid p hashing services facts context parent approved distinct_ids preflight
              now)
    Ready-Closes preflight st s (looped {digest} finished) = finish-Closes digest st s finished

    rollout_preflight-Yields :
        (s : Session W)
        → Yields (λ _. Unit {0}) (rollout_preflight p hashing services facts context parent s).0
    unfolding rollout_preflight
    rollout_preflight-Yields s = go (to_result (services.preflight s.world).0)
      where
        go :
            (r : Result String)
            → Yields
                (λ _. Unit {0})
                ((elim r as (λ _. Exec W (Option String × Bool)) [
                  | raised e ↦ pure (none, false)
                  | ok digest ↦ attempt (ask evidence (services.put_preflight digest)) >>= λ stored.
                      pure (some digest, is_ok stored)
                ])
                  (record { world = (services.preflight s.world).1; trace = evidence ∷ s.trace })).0
        go (ok digest) = tt
        go (raised e) = tt

    -- Where the members of an approved parent are distinct and its order, which starts with a canary,
    -- arranges its deployable members, and their record identifiers are distinct: for all answers of the
    -- devices, the history, the files and the store, a record that the coordinator returns is accepted by
    -- the validator of the rollout's audit, and an exception that it raises is not that of a validator.
    pub run_rollout-Accepted :
        (s : Session W) → Yields Accepted (run_rollout p hashing services facts context parent s).0
    unfolding run_rollout
    run_rollout-Accepted s =
        continue-Yields (λ _. Unit {0}) Accepted _ _ _ (rollout_preflight-Yields s)
          (λ made _.
            continue-Yields (Ready made.0) Accepted _ _ _ (after_preflight-Ready made.0 made.1 _)
              (λ st ready.
                continue-Yields (Closes made.0) Accepted _ _ _ (Ready-Closes made.0 st _ ready)
                  (λ end closes. sign_audit-Accepted _ _ (closes _))))
