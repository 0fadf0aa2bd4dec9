-- ===== src/Rollout/Sound/Reasons.antt =====
-- The reason that a record gives for its end, and the outcome that follows from it.
use network_change_delivery.Base.{
  ◌also◌, ℕ, String, Bool, true, false, not, ◌≡◌, refl, sym, ap, ◌∙◌, none, some, List, [], ◌∷◌,
  ◌++◌, length, list_eq, option_eq, string_eq, Eq, ◌==◌, is_empty, arith, length-append, ◌⊎◌, inl,
  inr,
}
use network_change_delivery.Models.{FinalOutcome, succeeded, outcome_eq}
use network_change_delivery.Rollout.Audit.{StoppingReason}
use network_change_delivery.Rollout.Parent.{
  RolloutAudit, reason_valid, rollout_outcome_valid, order, last, all_but_last, all_succeeded,
  deployables, is_evidence_reason, incomplete_last_allowed, is_final_reason,
}
use network_change_delivery.Rollout.Progress.{Progress, rollout_outcome}
use network_change_delivery.Rollout.Sound.Coverage.{
  last_append, all_but_last_append, get_elem?_append, is_empty_append,
}

pub eq_test {ℓ} : {A : Type ℓ} ⦃e : Eq A⦄ {a b : A} → a ≡ b → (a == b) ≡ true
eq_test ⦃e⦄ {a} {b} h = (e.beq_iff a b).1 h

pub not_of : {b : Bool} → b ≡ false → not b ≡ true
not_of h = ground (arith, h)

module _ (r : RolloutAudit) (done : List String) (d : String) where
  pub reason_valid-pre_chronology :
      (rest : List String)
      → order r ≡ done ++ d ∷ rest
      → r.attempted ≡ done
      → r.successful ≡ done
      → r.stopping_member ≡ some d
      → reason_valid (some StoppingReason.pre_chronology) r ≡ true
  unfolding reason_valid
  reason_valid-pre_chronology rest split a s m =
      ground (arith, ap length split, length-append done (d ∷ rest), ap length a)
      also eq_test (m ∙ sym (rw split (rw a (get_elem?_append done rest d))))
      also eq_test (s ∙ sym a)

  module _ (attempted : r.attempted ≡ done ++ d ∷ []) (member : r.stopping_member ≡ some d) where
    pub any_attempt : not (is_empty r.attempted) ≡ true
    any_attempt = not_of (ap is_empty attempted ∙ is_empty_append done d)

    pub last_attempt : (r.stopping_member == last r.attempted) ≡ true
    last_attempt = eq_test (member ∙ sym (ap last attempted ∙ last_append done d))

    all_but_last_attempt : r.successful ≡ done → (r.successful == all_but_last r.attempted) ≡ true
    all_but_last_attempt s =
        eq_test (s ∙ sym (ap all_but_last attempted ∙ all_but_last_append done d))

    pub reason_valid-non_success :
        (outcome : FinalOutcome)
        → r.successful ≡ done
        → r.stopping_outcome ≡ some outcome
        → (outcome == succeeded) ≡ false
        → reason_valid (some StoppingReason.child_non_success) r ≡ true
    unfolding reason_valid
    reason_valid-non_success outcome s o differs =
        any_attempt also last_attempt also all_but_last_attempt s also rw o (not_of differs)

    pub reason_valid-uncertain :
        r.successful ≡ done
        → r.stopping_outcome ≡ none
        → reason_valid (some StoppingReason.child_execution_uncertain) r ≡ true
    unfolding reason_valid
    reason_valid-uncertain s o =
        any_attempt also last_attempt also all_but_last_attempt s also rw o refl

    pub reason_valid-lost :
        r.evidence_failed ≡ true → reason_valid (some StoppingReason.child_evidence) r ≡ true
    unfolding reason_valid
    reason_valid-lost f = f also any_attempt also ground (arith, last_attempt)

    pub incomplete_last_allowed-lost :
        r.evidence_failed ≡ true
        → is_evidence_reason r.stopping_reason ≡ true
        → incomplete_last_allowed r ≡ true
    unfolding incomplete_last_allowed
    incomplete_last_allowed-lost f e = f also e also any_attempt also last_attempt

-- A stopped rollout: that every member succeeded is compatible with lost evidence only.
pub rollout_outcome_valid-stopped :
    (members : ℕ) (st : Progress) (r : RolloutAudit) (reason : StoppingReason)
    → st.reason ≡ some reason
    → r.stopping_reason ≡ some reason
    → is_final_reason (some reason) ≡ false
    → r.successful ≡ st.successful
    → r.evidence_failed ≡ st.evidence_failed
    → members ≡ length (deployables r.children)
    → (all_succeeded r ≡ false)
      ⊎ ((st.evidence_failed ≡ true) × (reason ≡ StoppingReason.child_evidence))
    → rollout_outcome_valid (rollout_outcome members st) r ≡ true
unfolding rollout_outcome rollout_outcome_valid
rollout_outcome_valid-stopped members st r reason e e' n s f m (inl short) =
    ground (arith, e, e', n, s, f, m, short)
rollout_outcome_valid-stopped members st r reason e e' n s f m (inr (failed, why)) =
    ground (arith, e, e', n, s, f, m, failed, why)
